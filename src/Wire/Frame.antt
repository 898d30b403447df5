-- ===== src/Wire/Frame.antt =====
-- pkg/aiiosdk/frame.go: a frame is a four-byte big-endian length and that many bytes. The bound
-- `maxFrameBytes` is a number here, with 0 for every `int` that is not positive.
pub mod RoundTrip
pub mod Refusals
use mathlib.Core.Option
use aii_plugin_sdk.Prelude.{
  Option, Result, [], err, if◌then◌else◌, length, ltb, map, none, ok, some, ℕ, ◌==◌, ◌^◌, ◌∷◌,
}
use aii_plugin_sdk.Prelude.Bytes.{Bytes}
use aii_plugin_sdk.Wire.Io.{IoError, Reader, eof, read_full, unexpected_eof}
use aii_plugin_sdk.Wire.BigEndian.{put_u32, u32}

abbrev pub frame_header_bytes : ℕ
frame_header_bytes = 4

abbrev pub max_control_frame_bytes : ℕ
max_control_frame_bytes = 2 ^ 20

abbrev pub max_server_frame_bytes : ℕ
max_server_frame_bytes = 2 ^ 24

pub data FrameError : Type 0 where
  bad_limit too_large empty_payload : FrameError
  transport : IoError → FrameError

-- `WriteFrame`, over any writer.
module _ {W : Type 0} (write : W → Bytes → W × Option IoError) where
  write_payload : Bytes → W × Option IoError → W × Option FrameError
  write_payload payload (w, some e) = (w, some (transport e))
  write_payload payload (w, none) = let (w', e) = write w payload in (w', Option.map transport e)

  unfoldable pub write_frame : W → Bytes → ℕ → W × Option FrameError
  unfolding write_payload
  write_frame w payload max_frame_bytes =
      if max_frame_bytes == 0
      then (w, some bad_limit)
      else if length payload == 0
      then (w, some empty_payload)
      else if ltb max_frame_bytes (length payload)
      then (w, some too_large)
      else write_payload payload (write w (put_u32 (length payload)))

-- `binary.BigEndian.Uint32(header[:])`; `read_full` gives four bytes.
header_length : Bytes → ℕ
header_length (a ∷ b ∷ c ∷ d ∷ []) = u32 a b c d
header_length _ = 0

-- The error of the payload's read: an end of file inside a frame is unexpected.
inside_frame : IoError → IoError
inside_frame eof = unexpected_eof
inside_frame e = e

read_payload : Result IoError (Bytes × Reader) → Result FrameError (Bytes × Reader)
read_payload (ok (payload, r)) = ok (payload, r)
read_payload (err e) = err (transport (inside_frame e))

after_header : ℕ → Result IoError (Bytes × Reader) → Result FrameError (Bytes × Reader)
unfolding read_payload header_length inside_frame
after_header max_frame_bytes (err e) = err (transport e)
after_header max_frame_bytes (ok (header, r)) =
    if ltb max_frame_bytes (header_length header)
    then err too_large
    else read_payload (read_full (header_length header) r)

unfoldable pub read_frame : Reader → ℕ → Result FrameError (Bytes × Reader)
unfolding after_header
read_frame r max_frame_bytes =
    if max_frame_bytes == 0
    then err bad_limit
    else after_header max_frame_bytes (read_full frame_header_bytes r)
