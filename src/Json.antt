-- ===== src/Json.antt =====
-- The strict JSON scanner of pkg/aiiosdk (strictjson.go, arrays.go, object.go).
pub mod Loop
pub mod Reads
pub mod Text
pub mod Number
pub mod Scanner
pub mod Members
pub mod Print
mod Tests
