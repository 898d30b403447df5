-- ===== src/Wire/Audio/RoundTrip.antt =====
-- Audio frames written are read back, and what is read could have been written.
use aii_plugin_sdk.Prelude.{
  Bool-cases, [], append-nil, append_assoc, arith, false, if◌then◌else◌, inl, inr, length, ltb,
  none, not, ok, refl, some, true, ◌&&◌, ◌++◌, ◌<◌, ◌==◌, ◌^◌, ◌∷◌, ◌≡◌, ◌≢◌, ◌≤◌,
}
use aii_plugin_sdk.Prelude.Bytes.{Bytes}
use aii_plugin_sdk.Wire.Io.{IoError, append_write, read_full, read_full-append}
use aii_plugin_sdk.Wire.BigEndian.{u32-put_u32, u64-put_u64}
use aii_plugin_sdk.Wire.Audio.{
  AudioFrame, audio_header, audio_header_bytes, audio_pcm, decode_header, known_kind,
  max_audio_frame_payload, read_audio_frame, read_pcm, write_audio_frame, write_pcm,
}

-- A frame that the format can carry.
pub record IsAudio (fr : AudioFrame) : Type 0 where
  pub kind_known : known_kind fr.kind ≡ true
  pub stream_fits : fr.stream < 2 ^ 32
  pub seq_fits : fr.seq < 2 ^ 32
  pub start_fits : fr.start < 2 ^ 64
  pub pcm_fits : length fr.pcm ≤ max_audio_frame_payload
  pub only_pcm : fr.kind ≢ audio_pcm → fr.pcm ≡ []

decode_header-audio_header :
    (fr : AudioFrame)
    → IsAudio fr
    → decode_header (audio_header fr) ≡ some (record fr { pcm = [] }, length fr.pcm)
unfolding decode_header audio_header
decode_header-audio_header fr h = rw (
  u32-put_u32 fr.stream h.stream_fits,
  u32-put_u32 fr.seq h.seq_fits,
  u64-put_u64 fr.start h.start_fits,
  u32-put_u32 (length fr.pcm) (omega (arith, h.pcm_fits)),
)

only_pcm-rule :
    (fr : AudioFrame)
    → IsAudio fr
    → (not (fr.kind == audio_pcm) && not (length fr.pcm == 0)) ≡ false
only_pcm-rule fr h = elim (Bool-cases (fr.kind == audio_pcm)) [
  | inl e ↦ rw e
  | inr e ↦ rw (h.only_pcm (λ x. ground arith)) (rw e)
]

write_both :
    (sent header pcm : Bytes)
    → write_pcm append_write pcm (sent ++ header, none) ≡ (sent ++ (header ++ pcm), none)
unfolding write_pcm
write_both sent header [] = rw append-nil
write_both sent header (x ∷ pcm) = ground (arith, append_assoc sent header (x ∷ pcm))

length-audio_header : (fr : AudioFrame) → length (audio_header fr) ≡ 28
unfolding audio_header
length-audio_header fr = refl

write_audio_frame-append :
    (sent : Bytes) (fr : AudioFrame)
    → IsAudio fr
    → write_audio_frame append_write sent fr ≡ (sent ++ (audio_header fr ++ fr.pcm), none)
unfolding write_audio_frame
write_audio_frame-append sent fr h =
    let small : ltb max_audio_frame_payload (length fr.pcm) ≡ false = ground (arith, h.pcm_fits) in
    let rule : (not (fr.kind == audio_pcm) && not (length fr.pcm == 0)) ≡ false =
      only_pcm-rule fr h in
    rw (h.kind_known, rule, small) (write_both sent (audio_header fr) fr.pcm)

read_rest :
    (fr : AudioFrame) (pcm rest : Bytes) (ending : IoError)
    → (if ltb 0 (length pcm)
        then read_pcm fr (read_full (length pcm) (record { bytes = pcm ++ rest; ending = ending }))
        else ok (record fr { pcm = fr.pcm }, record { bytes = pcm ++ rest; ending = ending }))
      ≡ ok (
        record fr { pcm = if ltb 0 (length pcm) then pcm else fr.pcm },
        record { bytes = rest; ending = ending },
      )
unfolding read_pcm
read_rest fr [] rest ending = refl
read_rest fr (x ∷ xs) rest ending = ground (arith, read_full-append (x ∷ xs) rest ending)

if_empty : (pcm : Bytes) → (if ltb 0 (length pcm) then pcm else []) ≡ pcm
if_empty [] = refl
if_empty (x ∷ xs) = ground arith

read_audio_frame-header :
    (fr : AudioFrame) (rest : Bytes) (ending : IoError)
    → IsAudio fr
    → read_audio_frame (record { bytes = audio_header fr ++ (fr.pcm ++ rest); ending = ending })
      ≡ ok (fr, record { bytes = rest; ending = ending })
unfolding read_audio_frame
read_audio_frame-header fr rest ending h =
    let small : ltb max_audio_frame_payload (length fr.pcm) ≡ false = ground (arith, h.pcm_fits) in
    let whole : read_full audio_header_bytes
          (record { bytes = audio_header fr ++ (fr.pcm ++ rest); ending = ending })
        ≡ ok (audio_header fr, record { bytes = fr.pcm ++ rest; ending = ending }) =
      rw (length-audio_header fr) at (read_full-append (audio_header fr) (fr.pcm ++ rest) ending) in
    rw (whole, decode_header-audio_header fr h, h.kind_known, small, only_pcm-rule fr h)
      (rw (if_empty fr.pcm) at (read_rest (record fr { pcm = [] }) fr.pcm rest ending))

-- Every frame of a known kind whose fields fit their widths, whose payload is within the ceiling
-- and empty unless the kind is PCM, is written, and is read back field by field with what follows
-- it left unread.
pub read_audio_frame-write_audio_frame :
    (sent rest : Bytes) (fr : AudioFrame) (ending : IoError)
    → IsAudio fr
    → (write_audio_frame append_write sent fr ≡ (sent ++ (audio_header fr ++ fr.pcm), none))
      × (read_audio_frame (record { bytes = audio_header fr ++ (fr.pcm ++ rest); ending = ending })
          ≡ ok (fr, record { bytes = rest; ending = ending }))
read_audio_frame-write_audio_frame sent rest fr ending h =
    (write_audio_frame-append sent fr h, read_audio_frame-header fr rest ending h)
