-- ===== src/Pkg/Canon.antt =====
-- pkg/aiiospkg/canonjson.go: the one text of a JSON value, which digests and signatures are taken of.
-- What the source reads is a stream of tokens from encoding/json, whose decoder is a parameter.
pub mod Numbers
pub mod Values
pub mod Escapes
pub mod Parse
pub mod Tests
