-- ===== src/Prelude/Decimal.antt =====
-- Decimal digit strings, their values, and the orders on them.
use native.Mathlib.Nat.{pow-suc, pow-le-pow_right}
use aii_plugin_sdk.Prelude.Tests.{==_iff, Bool-cases, if◌then◌else◌, leb, ltb, ◌==◌}
use aii_plugin_sdk.Prelude.Lists.{length}
use aii_plugin_sdk.Prelude.Bytes.{Bytes}
use Prim.Native.Nat.{ℕ, ◌+◌, ◌-◌, ◌*◌, ◌^◌, ◌≤◌, ◌<◌}
use mathlib.Core.Path.{◌≡◌, refl}
use mathlib.Core.Bool.{Bool, true, ◌&&◌}
use mathlib.Core.Logic.{◌≢◌, inl, inr}
use mathlib.Core.List.{[], ◌∷◌}
use native.Mathlib.Omega.{arith}

abbrev pub is_decimal : ℕ → Bool
is_decimal c = leb b'0' c && leb c b'9'

abbrev pub AllDigits : Bytes → Type 0
AllDigits [] = Unit
AllDigits (c ∷ b) = (is_decimal c ≡ true) × AllDigits b

-- The number that a digit string stands for.
unfoldable pub digits_value : Bytes → ℕ
digits_value [] = 0
digits_value (c ∷ b) = (c - b'0') * 10 ^ length b + digits_value b

-- The sign of a comparison.
pub data Sign : Type 0 where
  less same greater : Sign

abbrev pub compare_numbers : ℕ → ℕ → Sign
compare_numbers m n = if ltb m n then less else if m == n then same else greater

-- `strings.Compare`.
unfoldable pub compare_bytes : Bytes → Bytes → Sign
compare_bytes [] [] = same
compare_bytes [] (_ ∷ _) = less
compare_bytes (_ ∷ _) [] = greater
compare_bytes (x ∷ xs) (y ∷ ys) =
    let rest = compare_bytes xs ys in if ltb x y then less else if x == y then rest else greater

pub digits_value-lt : (b : Bytes) → AllDigits b → digits_value b < 10 ^ length b
unfolding digits_value
digits_value-lt [] h = omega arith
digits_value-lt (c ∷ b) h =
    let ih = digits_value-lt b h.1 in
    let d : c - b'0' ≤ 9 = ground (arith, h.0) in
    let m : (c - b'0') * 10 ^ length b ≤ 9 * 10 ^ length b = grind arith in
    omega (arith, m, ih, pow-suc 10 (length b))

-- One more in the leading digit outweighs all that follows.
leading : (x y p v w : ℕ) → x < y → v < p → x * p + v < y * p + w
leading x y p v w h k = let m : (x + 1) * p ≤ y * p = grind arith in omega (arith, m)

compare_step :
    (x y p v w : ℕ) (r : Sign)
    → b'0' ≤ x
    → b'0' ≤ y
    → v < p
    → w < p
    → r ≡ compare_numbers v w
    → (if ltb x y then less else if x == y then r else greater)
      ≡ compare_numbers ((x - b'0') * p + v) ((y - b'0') * p + w)
compare_step x y p v w r hx hy hv hw e = elim (Bool-cases (ltb x y)) [
  | inl l ↦ ground (arith, leading (x - b'0') (y - b'0') p v w)
  | inr l ↦ elim (Bool-cases (x == y)) [
    | inl q ↦ rw (l, q, e, (==_iff x y).0 q) (ground arith)
    | inr q ↦ ground (arith, leading (y - b'0') (x - b'0') p w v)
  ]
]

-- On digit strings of one length, the order of the bytes is that of the numbers.
pub compare_bytes-digits_value :
    (a b : Bytes)
    → AllDigits a
    → AllDigits b
    → length a ≡ length b
    → compare_bytes a b ≡ compare_numbers (digits_value a) (digits_value b)
unfolding compare_bytes digits_value
compare_bytes-digits_value [] [] h k e = refl
compare_bytes-digits_value [] (y ∷ ys) h k e = absurd (omega arith)
compare_bytes-digits_value (x ∷ xs) [] h k e = absurd (omega arith)
compare_bytes-digits_value (x ∷ xs) (y ∷ ys) h k e =
    let same_length : length xs ≡ length ys = omega arith in
    let low : digits_value ys < 10 ^ length xs = rw same_length (digits_value-lt ys k.1) in
    rw (← same_length) (
      compare_step x y (10 ^ length xs) (digits_value xs) (digits_value ys) (compare_bytes xs ys)
        (ground (arith, h.0)) (ground (arith, k.0)) (digits_value-lt xs h.1) low
        (compare_bytes-digits_value xs ys h.1 k.1 same_length))

-- `strings.TrimLeft(b, "0")`.
unfoldable pub trim_zeros : Bytes → Bytes
trim_zeros [] = []
trim_zeros (c ∷ b) = let rest = trim_zeros b in if c == b'0' then rest else c ∷ b

-- The first digit is not zero, if there is one.
abbrev pub NoLeadingZero : Bytes → Type 0
NoLeadingZero [] = Unit
NoLeadingZero (c ∷ b) = c ≢ b'0'

zero_lead : (c p : ℕ) → c ≡ b'0' → (c - b'0') * p ≡ 0
zero_lead c p e = rw e (omega arith)

pub trim_zeros-lem :
    (b : Bytes)
    → AllDigits b
    → AllDigits (trim_zeros b)
      × NoLeadingZero (trim_zeros b)
      × (digits_value (trim_zeros b) ≡ digits_value b)
unfolding trim_zeros digits_value
trim_zeros-lem [] h = (tt, tt, refl)
trim_zeros-lem (c ∷ b) h = elim (Bool-cases (c == b'0')) [
  | inl e ↦
      let (p, q, r) = trim_zeros-lem b h.1 in
      let zero_digit = zero_lead c (10 ^ length b) ((==_iff c b'0').0 e) in
      rw e (p, q, omega (arith, r, zero_digit))
  | inr e ↦ rw e (h, (λ x. ground arith), refl)
]

leading_digit : (c : ℕ) → is_decimal c ≡ true → c ≢ b'0' → 1 ≤ c - b'0'
leading_digit c h n = ground arith

product_le : (d p : ℕ) → 1 ≤ d → p ≤ d * p
product_le d p h = grind arith

-- A number with more digits, the first of which is not zero, is the greater one.
pub digits_value-length :
    (a b : Bytes)
    → AllDigits a
    → AllDigits b
    → NoLeadingZero b
    → length a < length b
    → digits_value a < digits_value b
unfolding digits_value
digits_value-length a [] h k n l = absurd (omega arith)
digits_value-length a (c ∷ b) h k n l =
    let small = digits_value-lt a h in
    let pow : 10 ^ length a ≤ 10 ^ length b = pow-le-pow_right (omega arith) (omega arith) in
    let lead : 1 ≤ c - b'0' = leading_digit c k.0 n in
    let m = product_le (c - b'0') (10 ^ length b) lead in omega (arith, small, pow, m)
