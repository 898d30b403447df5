-- ===== src/Wire/Tests.antt =====
-- The theorems on frames at concrete frames.
use mathlib.Core.Path.{refl}
use aii_plugin_sdk.Prelude.{[], arith, length, none, ok, ◌++◌, ◌∷◌, ◌≡◌, ◌≢◌, ◌≤◌}
use aii_plugin_sdk.Prelude.Bytes.{Bytes, codes}
use aii_plugin_sdk.Wire.Io.{Reader, append_write, eof}
use aii_plugin_sdk.Wire.Frame.{read_frame, write_frame}
use aii_plugin_sdk.Wire.Frame.RoundTrip.{frame_bytes, read_frame-write_frame}
use aii_plugin_sdk.Wire.Frame.Refusals.{write_frame_accepts}
use aii_plugin_sdk.Wire.Audio.{
  AudioFrame, audio_header, audio_pcm, read_audio_frame, write_audio_frame,
}
use aii_plugin_sdk.Wire.Audio.RoundTrip.{IsAudio, read_audio_frame-write_audio_frame}

abbrev hello : Bytes
hello = codes "{\"id\":1}"

abbrev stream : Reader
stream = record { bytes = frame_bytes hello ++ codes "rest"; ending = eof }

abbrev left : Reader
left = record { bytes = codes "rest"; ending = eof }

read_frame-write_frame_example :
    (write_frame append_write (codes "x") hello 64 ≡ (codes "x" ++ frame_bytes hello, none))
    × (read_frame stream 64 ≡ ok (hello, left))
read_frame-write_frame_example =
    read_frame-write_frame (codes "x") hello (codes "rest") eof 64 (λ e. cc) (omega arith)
      (omega arith)

write_frame_accepts_example : (hello ≢ []) × (length hello ≤ 64)
write_frame_accepts_example =
    write_frame_accepts append_write [] hello 64 (unfold write_frame in refl)

abbrev sound : AudioFrame
sound = record { kind = audio_pcm; stream = 7; seq = 300; start = 70000; pcm = 1 ∷ 2 ∷ 3 ∷ 4 ∷ [] }

sound-IsAudio : IsAudio sound
sound-IsAudio = record {
  kind_known = refl;
  stream_fits = omega arith;
  seq_fits = omega arith;
  start_fits = omega arith;
  pcm_fits = omega arith;
  only_pcm = λ ne. absurd (ne refl);
}

abbrev sound_stream : Reader
sound_stream = record { bytes = audio_header sound ++ (sound.pcm ++ codes "rest"); ending = eof }

read_audio_frame-write_audio_frame_example :
    (write_audio_frame append_write [] sound ≡ (audio_header sound ++ sound.pcm, none))
    × (read_audio_frame sound_stream ≡ ok (sound, left))
read_audio_frame-write_audio_frame_example =
    read_audio_frame-write_audio_frame [] (codes "rest") sound eof sound-IsAudio
