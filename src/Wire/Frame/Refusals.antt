-- ===== src/Wire/Frame/Refusals.antt =====
-- The error paths of both directions.
use aii_plugin_sdk.Prelude.{
  Option, Option-cases, [], arith, err, if◌then◌else◌, inl, inr, length, length-take, none, ok,
  some, suc, take, take-append-drop, zero, ℕ, ◌++◌, ◌+◌, ◌<◌, ◌==◌, ◌^◌, ◌∷◌, ◌≡◌, ◌≢◌, ◌≤◌, ◌⊎◌,
}
use aii_plugin_sdk.Prelude.Bytes.{Bytes}
use aii_plugin_sdk.Wire.Io.{IoError, Reader, eof, read_full, unexpected_eof}
use aii_plugin_sdk.Wire.BigEndian.{put_u32, u32, u32-put_u32}
use aii_plugin_sdk.Wire.Frame.{FrameError, read_frame, transport, write_frame, write_payload}
use aii_plugin_sdk.Wire.Frame.RoundTrip.{frame_bytes}

module _ {W : Type 0} (write : W → Bytes → W × Option IoError) where
  write_payload_own :
      (payload : Bytes) (first : W × Option IoError) (e : FrameError)
      → ((x : IoError) → e ≢ transport x)
      → (write_payload write payload first).1 ≢ some e
  unfolding write_payload
  write_payload_own payload (w, some x) e own h = own x (ground arith)
  write_payload_own payload (w, none) e own h = elim (Option-cases (write w payload).1) [
    | inl n ↦ ground arith
    | inr (x, n) ↦ own x (ground arith)
  ]

  -- Whatever the writer does: an error that is not the writer's own is given only for a payload
  -- that is empty or over the bound, and then nothing has been written.
  pub write_frame_refuses :
      (w : W) (payload : Bytes) (max : ℕ) (e : FrameError)
      → (write_frame write w payload max).1 ≡ some e
      → ((x : IoError) → e ≢ transport x)
      → ((write_frame write w payload max).0 ≡ w) × ((payload ≡ []) ⊎ (max < length payload))
  unfolding write_frame
  write_frame_refuses w [] max e h own = ground arith
  write_frame_refuses w (x ∷ xs) max e h own =
      ground (arith, write_payload_own (x ∷ xs) (write w (put_u32 (length (x ∷ xs)))) e)

  pub write_frame_accepts :
      (w : W) (payload : Bytes) (max : ℕ)
      → (write_frame write w payload max).1 ≡ none
      → (payload ≢ []) × (length payload ≤ max)
  unfolding write_frame
  write_frame_accepts w [] max h = ground arith
  write_frame_accepts w (x ∷ xs) max h = ground arith

read_bytes-ok :
    (bytes : Bytes) (ending : IoError) (max : ℕ) {payload : Bytes} {r' : Reader}
    → read_frame (record { bytes = bytes; ending = ending }) max ≡ ok (payload, r')
    → (length payload ≤ max)
      × ((a b c d : ℕ) × (bytes ≡ a ∷ b ∷ c ∷ d ∷ (payload ++ r'.bytes))
          × (u32 a b c d ≡ length payload))
      × (r'.ending ≡ ending)
unfolding read_frame read_full
read_bytes-ok (a ∷ b ∷ c ∷ d ∷ rest) ending max h = (
  ground (arith, length-take (u32 a b c d) rest),
  (
    a,
    b,
    c,
    d,
    ground (arith, take-append-drop (u32 a b c d) rest),
    ground (arith, length-take (u32 a b c d) rest),
  ),
  ground arith,
)
read_bytes-ok [] ending max h = absurd (ground arith)
read_bytes-ok (a ∷ []) ending max h = absurd (ground arith)
read_bytes-ok (a ∷ b ∷ []) ending max h = absurd (ground arith)
read_bytes-ok (a ∷ b ∷ c ∷ []) ending max h = absurd (ground arith)

-- A frame that `ReadFrame` accepts is within the bound, and is what stood at the head of the
-- stream behind four bytes that give its length; the rest of the stream is left unread.
pub read_frame-ok :
    (r : Reader) (max : ℕ) {payload : Bytes} {r' : Reader}
    → read_frame r max ≡ ok (payload, r')
    → (length payload ≤ max)
      × ((a b c d : ℕ) × (r.bytes ≡ a ∷ b ∷ c ∷ d ∷ (payload ++ r'.bytes))
          × (u32 a b c d ≡ length payload))
      × (r'.ending ≡ r.ending)
unfolding read_frame read_full
read_frame-ok r max h = read_bytes-ok r.bytes r.ending max h

-- A stream that ends inside a frame is told from one that ends between frames: cut behind `k`
-- bytes of a frame, `ReadFrame` reports an end of file if `k` is 0, and an unexpected one if not.
pub read_frame_cut :
    (payload : Bytes) (max k : ℕ)
    → 0 < max
    → length payload ≤ max
    → length payload < 2 ^ 32
    → k < 4 + length payload
    → read_frame (record { bytes = take k (frame_bytes payload); ending = eof }) max
      ≡ err (transport (if k == 0 then eof else unexpected_eof))
unfolding read_frame read_full
read_frame_cut payload max zero p h w lt = ground arith
read_frame_cut payload max (suc zero) p h w lt = ground arith
read_frame_cut payload max (suc (suc zero)) p h w lt = ground arith
read_frame_cut payload max (suc (suc (suc zero))) p h w lt = ground arith
read_frame_cut payload max (suc (suc (suc (suc k)))) p h w lt =
    ground (arith, u32-put_u32 (length payload) w, length-take k payload)
