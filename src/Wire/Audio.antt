-- ===== src/Wire/Audio.antt =====
-- pkg/aiiosdk/audio.go: the 28-byte header of an audio frame and its payload. `Start` is the
-- 64-bit pattern that `uint64(fr.Start)` writes and `int64(...)` reads back; a kind is its byte.
pub mod RoundTrip
pub mod Bounds
use mathlib.Core.Option
use aii_plugin_sdk.Prelude.{
  Bool, Option, Result, [], err, if◌then◌else◌, length, ltb, map, none, not, ok, some, ℕ, ◌&&◌, ◌*◌,
  ◌++◌, ◌/◌, ◌==◌, ◌||◌, ◌∷◌,
}
use aii_plugin_sdk.Prelude.Bytes.{Bytes}
use aii_plugin_sdk.Wire.Io.{IoError, Reader, eof, read_full, unexpected_eof}
use aii_plugin_sdk.Wire.BigEndian.{put_u32, put_u64, u32, u64}

abbrev pub audio_pcm : ℕ
audio_pcm = 1

abbrev pub audio_discontinuity : ℕ
audio_discontinuity = 2

abbrev pub audio_end : ℕ
audio_end = 3

pub record AudioFrame : Type 0 where
  pub kind : ℕ
  pub stream : ℕ
  pub seq : ℕ
  pub start : ℕ
  pub pcm : Bytes

-- `AudioFrame.Samples`; 0 stands for every channel count that is not positive.
pub samples : AudioFrame → ℕ → ℕ
samples fr channels = length fr.pcm / (2 * (if channels == 0 then 1 else channels))

abbrev pub max_audio_frame_payload : ℕ
max_audio_frame_payload = 64 * 1024

abbrev pub audio_header_bytes : ℕ
audio_header_bytes = 28

pub data AudioError : Type 0 where
  bad_magic bad_kind too_big stray_payload : AudioError
  transport : IoError → AudioError

abbrev known_kind : ℕ → Bool
known_kind k = k == audio_pcm || k == audio_discontinuity || k == audio_end

-- The header that `WriteAudioFrame` fills; the bytes 5, 6 and 7 stay 0.
pub audio_header : AudioFrame → Bytes
audio_header fr =
    b'A'
    ∷ b'U'
    ∷ b'D'
    ∷ b'1'
    ∷ fr.kind
    ∷ 0
    ∷ 0
    ∷ 0
    ∷ (put_u32 fr.stream ++ (put_u32 fr.seq ++ (put_u64 fr.start ++ put_u32 (length fr.pcm))))

module _ {W : Type 0} (write : W → Bytes → W × Option IoError) where
  abbrev transported : W × Option IoError → W × Option AudioError
  transported (w, e) = (w, Option.map transport e)

  write_pcm : Bytes → W × Option IoError → W × Option AudioError
  write_pcm pcm (w, some e) = (w, some (transport e))
  write_pcm pcm (w, none) = if ltb 0 (length pcm) then transported (write w pcm) else (w, none)

  unfoldable pub write_audio_frame : W → AudioFrame → W × Option AudioError
  unfolding write_pcm
  write_audio_frame w fr =
      if not (known_kind fr.kind)
      then (w, some bad_kind)
      else if not (fr.kind == audio_pcm) && not (length fr.pcm == 0)
      then (w, some stray_payload)
      else if ltb max_audio_frame_payload (length fr.pcm)
      then (w, some too_big)
      else write_pcm fr.pcm (write w (audio_header fr))

-- The header's fields, and the length that it declares; `none` without the magic.
decode_header : Bytes → Option (AudioFrame × ℕ)
decode_header
      (m0 ∷ m1 ∷ m2 ∷ m3 ∷ k ∷ _ ∷ _ ∷ _ ∷ s0 ∷ s1 ∷ s2 ∷ s3 ∷ q0 ∷ q1 ∷ q2 ∷ q3 ∷ t0 ∷ t1 ∷ t2 ∷ t3
        ∷ t4 ∷ t5 ∷ t6 ∷ t7 ∷ n0 ∷ n1 ∷ n2 ∷ n3 ∷ []) =
    if m0 == b'A' && m1 == b'U' && m2 == b'D' && m3 == b'1'
    then some (
      record {
        kind = k;
        stream = u32 s0 s1 s2 s3;
        seq = u32 q0 q1 q2 q3;
        start = u64 t0 t1 t2 t3 t4 t5 t6 t7;
        pcm = [];
      },
      u32 n0 n1 n2 n3,
    )
    else none
decode_header _ = none

-- The error of the payload's read.
inside_frame : IoError → IoError
inside_frame eof = unexpected_eof
inside_frame e = e

read_pcm : AudioFrame → Result IoError (Bytes × Reader) → Result AudioError (AudioFrame × Reader)
unfolding inside_frame
read_pcm fr (ok (pcm, r)) = ok (record fr { pcm = pcm }, r)
read_pcm fr (err e) = err (transport (inside_frame e))

with_header : Reader → Option (AudioFrame × ℕ) → Result AudioError (AudioFrame × Reader)
unfolding read_pcm
with_header r none = err bad_magic
with_header r (some (fr, n)) =
    if not (known_kind fr.kind)
    then err bad_kind
    else if ltb max_audio_frame_payload n
    then err too_big
    else if not (fr.kind == audio_pcm) && not (n == 0)
    then err stray_payload
    else if ltb 0 n
    then read_pcm fr (read_full n r)
    else ok (fr, r)

after_header : Result IoError (Bytes × Reader) → Result AudioError (AudioFrame × Reader)
unfolding with_header decode_header
after_header (err e) = err (transport e)
after_header (ok (h, r)) = with_header r (decode_header h)

unfoldable pub read_audio_frame : Reader → Result AudioError (AudioFrame × Reader)
unfolding after_header
read_audio_frame r = after_header (read_full audio_header_bytes r)
