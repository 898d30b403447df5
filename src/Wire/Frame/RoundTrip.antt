-- ===== src/Wire/Frame/RoundTrip.antt =====
-- What `WriteFrame` writes, `ReadFrame` reads back.
use aii_plugin_sdk.Prelude.{
  [], append_assoc, arith, length, none, ok, refl, ℕ, ◌++◌, ◌<◌, ◌^◌, ◌∷◌, ◌≡◌, ◌≢◌, ◌≤◌,
}
use aii_plugin_sdk.Prelude.Bytes.{Bytes}
use aii_plugin_sdk.Wire.Io.{IoError, append_write, read_full-append}
use aii_plugin_sdk.Wire.BigEndian.{put_u32, u32-put_u32}
use aii_plugin_sdk.Wire.Frame.{read_frame, write_frame}

abbrev pub frame_bytes : Bytes → Bytes
frame_bytes payload = put_u32 (length payload) ++ payload

pub write_frame-append :
    (sent payload : Bytes) (max : ℕ)
    → payload ≢ []
    → length payload ≤ max
    → write_frame append_write sent payload max ≡ (sent ++ frame_bytes payload, none)
unfolding write_frame
write_frame-append sent [] max ne h = absurd (ne refl)
write_frame-append sent (x ∷ xs) max ne h =
    ground (arith, append_assoc sent (put_u32 (length (x ∷ xs))) (x ∷ xs))

pub read_frame-frame_bytes :
    (payload rest : Bytes) (ending : IoError) (max : ℕ)
    → 0 < max
    → length payload ≤ max
    → length payload < 2 ^ 32
    → read_frame (record { bytes = frame_bytes payload ++ rest; ending = ending }) max
      ≡ ok (payload, record { bytes = rest; ending = ending })
unfolding read_frame
read_frame-frame_bytes payload rest ending max p h w = ground (
  arith,
  read_full-append (put_u32 (length payload)) (payload ++ rest) ending,
  u32-put_u32 (length payload) w,
  read_full-append payload rest ending,
)

-- A frame that `WriteFrame` appends to a stream is read back by `ReadFrame` under the same bound,
-- with what follows it left unread: for a payload that is not empty, within the bound, and whose
-- length fits the 32-bit header.
pub read_frame-write_frame :
    (sent payload rest : Bytes) (ending : IoError) (max : ℕ)
    → payload ≢ []
    → length payload ≤ max
    → length payload < 2 ^ 32
    → (write_frame append_write sent payload max ≡ (sent ++ frame_bytes payload, none))
      × (read_frame (record { bytes = frame_bytes payload ++ rest; ending = ending }) max
          ≡ ok (payload, record { bytes = rest; ending = ending }))
read_frame-write_frame sent [] rest ending max ne h w = absurd (ne refl)
read_frame-write_frame sent (x ∷ xs) rest ending max ne h w = (
  write_frame-append sent (x ∷ xs) max ne h,
  read_frame-frame_bytes (x ∷ xs) rest ending max (omega arith) h w,
)
