-- ===== src/Wire/BigEndian.antt =====
-- encoding/binary's big-endian integers.
use Prim.Native.Nat.{ℕ}
use aii_plugin_sdk.Prelude.{[], arith, ◌%◌, ◌*◌, ◌+◌, ◌/◌, ◌<◌, ◌^◌, ◌∷◌, ◌≡◌}
use aii_plugin_sdk.Prelude.Bytes.{Bytes}

-- `binary.BigEndian.PutUint32` of `uint32(n)`.
abbrev pub put_u32 : ℕ → Bytes
put_u32 n = (n / 2 ^ 24 % 256) ∷ (n / 2 ^ 16 % 256) ∷ (n / 2 ^ 8 % 256) ∷ (n % 256) ∷ []

-- `binary.BigEndian.Uint32`.
abbrev pub u32 : ℕ → ℕ → ℕ → ℕ → ℕ
u32 a b c d = a * 2 ^ 24 + b * 2 ^ 16 + c * 2 ^ 8 + d

pub u32-put_u32 :
    (n : ℕ) → n < 2 ^ 32 → u32 (n / 2 ^ 24 % 256) (n / 2 ^ 16 % 256) (n / 2 ^ 8 % 256) (n % 256) ≡ n
u32-put_u32 n h = omega arith

-- `binary.BigEndian.PutUint64`, by halves.
abbrev pub put_u64 : ℕ → Bytes
put_u64 n =
    (n / 2 ^ 56 % 256) ∷ (n / 2 ^ 48 % 256) ∷ (n / 2 ^ 40 % 256) ∷ (n / 2 ^ 32 % 256) ∷ put_u32 n

-- `binary.BigEndian.Uint64`.
abbrev pub u64 : ℕ → ℕ → ℕ → ℕ → ℕ → ℕ → ℕ → ℕ → ℕ
u64 a b c d e f g h = u32 a b c d * 2 ^ 32 + u32 e f g h

u64_halves :
    (n : ℕ)
    → n < 2 ^ 64
    → (n / 2 ^ 56 % 256 ≡ n / 2 ^ 32 / 2 ^ 24 % 256)
      × (n / 2 ^ 48 % 256 ≡ n / 2 ^ 32 / 2 ^ 16 % 256)
      × (n / 2 ^ 40 % 256 ≡ n / 2 ^ 32 / 2 ^ 8 % 256)
u64_halves n h = (omega arith, omega arith, omega arith)

u32-put_u32_mod :
    (n : ℕ) → u32 (n / 2 ^ 24 % 256) (n / 2 ^ 16 % 256) (n / 2 ^ 8 % 256) (n % 256) ≡ n % 2 ^ 32
u32-put_u32_mod n = omega arith

pub u64-put_u64 :
    (n : ℕ)
    → n < 2 ^ 64
    → u64
        (n / 2 ^ 56 % 256)
        (n / 2 ^ 48 % 256)
        (n / 2 ^ 40 % 256)
        (n / 2 ^ 32 % 256)
        (n / 2 ^ 24 % 256)
        (n / 2 ^ 16 % 256)
        (n / 2 ^ 8 % 256)
        (n % 256)
      ≡ n
u64-put_u64 n h =
    let (a, b, c) = u64_halves n h in
    rw (a, b, c, u32-put_u32 (n / 2 ^ 32) (omega arith), u32-put_u32_mod n) (omega arith)
