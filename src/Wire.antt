-- ===== src/Wire.antt =====
-- The two binary transports of pkg/aiiosdk: length-prefixed control frames (frame.go) and audio
-- frames (audio.go), over the byte orders and readers that both use.
pub mod Io
pub mod BigEndian
pub mod Frame
pub mod Audio
mod Tests
