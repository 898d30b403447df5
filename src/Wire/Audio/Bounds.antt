-- ===== src/Wire/Audio/Bounds.antt =====
-- What a frame that was read is known to satisfy.
use aii_plugin_sdk.Prelude.{
  Bool-cases, Option, Option-cases, Result, [], arith, err, inl, inr, length, length-take, none, ok,
  refl, some, true, ℕ, ◌==◌, ◌∷◌, ◌≡◌, ◌≢◌, ◌≤◌, ◌⊎◌,
}
use aii_plugin_sdk.Prelude.Bytes.{Bytes}
use aii_plugin_sdk.Wire.Io.{IoError, Reader, read_full}
use aii_plugin_sdk.Wire.Audio.{
  AudioFrame, after_header, audio_header_bytes, audio_pcm, decode_header, known_kind,
  max_audio_frame_payload, read_audio_frame, with_header, write_audio_frame,
}

decode_header-pcm :
    (h : Bytes) {fr : AudioFrame} {n : ℕ} → decode_header h ≡ some (fr, n) → fr.pcm ≡ []
unfolding decode_header
decode_header-pcm
      (m0 ∷ m1 ∷ m2 ∷ m3 ∷ k ∷ _ ∷ _ ∷ _ ∷ s0 ∷ s1 ∷ s2 ∷ s3 ∷ q0 ∷ q1 ∷ q2 ∷ q3 ∷ t0 ∷ t1 ∷ t2 ∷ t3
        ∷ t4 ∷ t5 ∷ t6 ∷ t7 ∷ n0 ∷ n1 ∷ n2 ∷ n3 ∷ [])
      e =
    ground arith
decode_header-pcm _ e = absurd (ground arith)

-- The rules of the format that a frame meets.
abbrev pub Conforms : AudioFrame → Type 0
Conforms fr =
    (known_kind fr.kind ≡ true)
    × (length fr.pcm ≤ max_audio_frame_payload)
    × ((fr.kind ≡ audio_pcm) ⊎ (fr.pcm ≡ []))

with_header-Conforms :
    (r : Reader) (fr : AudioFrame) (n : ℕ) {fr' : AudioFrame} {r' : Reader}
    → fr.pcm ≡ []
    → with_header r (some (fr, n)) ≡ ok (fr', r')
    → Conforms fr'
unfolding with_header read_full
with_header-Conforms r fr n p e = ground (arith, length-take n r.bytes)

after_header-Conforms :
    (m : Result IoError (Bytes × Reader)) {fr : AudioFrame} {r' : Reader}
    → after_header m ≡ ok (fr, r')
    → Conforms fr
unfolding after_header
after_header-Conforms (err x) e = absurd (ground arith)
after_header-Conforms (ok (h, r)) e = elim (Option-cases (decode_header h)) [
  | inl n ↦ absurd (unfold with_header in ground arith)
  | inr ((fr, n), d) ↦ with_header-Conforms r fr n (decode_header-pcm h d) (rw d at e)
]

-- Whatever bytes arrive, a frame that `ReadAudioFrame` accepts has a known kind, a payload within
-- the ceiling, and none unless its kind is PCM.
pub read_audio_frame-Conforms :
    (r : Reader) {fr : AudioFrame} {r' : Reader} → read_audio_frame r ≡ ok (fr, r') → Conforms fr
unfolding read_audio_frame
read_audio_frame-Conforms r e = after_header-Conforms (read_full audio_header_bytes r) e

nil_of_length : (xs : Bytes) → length xs ≡ 0 → xs ≡ []
nil_of_length [] h = refl
nil_of_length (x ∷ xs) h = absurd (omega arith)

-- Whatever the writer does: if `WriteAudioFrame` succeeds, or has written anything, the frame meets
-- the same rules.
pub write_audio_frame-Conforms :
    {W : Type 0} (write : W → Bytes → W × Option IoError) (w : W) (fr : AudioFrame)
    → ((write_audio_frame write w fr).1 ≡ none) ⊎ ((write_audio_frame write w fr).0 ≢ w)
    → Conforms fr
unfolding write_audio_frame
write_audio_frame-Conforms write w fr (inl e) =
    ground (arith, nil_of_length fr.pcm, Bool-cases (fr.kind == audio_pcm))
write_audio_frame-Conforms write w fr (inr e) =
    ground (arith, nil_of_length fr.pcm, Bool-cases (fr.kind == audio_pcm))
