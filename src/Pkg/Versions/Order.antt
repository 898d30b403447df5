-- ===== src/Pkg/Versions/Order.antt =====
-- Host versions are ordered by the numbers of their parts.
use aii_plugin_sdk.Prelude.{
  &&-left, &&-right, ==_iff, Bool-cases, List, [], all, arith, if◌then◌else◌, inl, inr, length, ltb,
  map, not, refl, true, ℕ, ◌==◌, ◌∙◌, ◌∷◌, ◌≡◌,
}
use aii_plugin_sdk.Prelude.Bytes.{Bytes}
use aii_plugin_sdk.Prelude.Decimal.{
  AllDigits, NoLeadingZero, Sign, compare_bytes, compare_bytes-digits_value, compare_numbers,
  digits_value, digits_value-length, greater, is_decimal, less, same, trim_zeros, trim_zeros-lem,
}
use aii_plugin_sdk.Pkg.Versions.{
  compare_decimal, compare_host_version, compare_parts, is_number, or_else, split, three_numbers,
  valid_host_version,
}

-- Of trimmed digit strings, the longer is the greater.
compare_trimmed :
    (a b : Bytes)
    → AllDigits a
    → NoLeadingZero a
    → AllDigits b
    → NoLeadingZero b
    → (if not (length a == length b)
        then (if ltb (length a) (length b) then less else greater)
        else compare_bytes a b)
      ≡ compare_numbers (digits_value a) (digits_value b)
compare_trimmed a b p q s t = elim (Bool-cases (length a == length b)) [
  | inl e ↦ rw e (compare_bytes-digits_value a b p s ((==_iff _ _).0 e))
  | inr e ↦ elim (Bool-cases (ltb (length a) (length b))) [
    | inl l ↦ rw (e, l) (ground (arith, digits_value-length a b p s t))
    | inr l ↦ rw (e, l) (ground (arith, digits_value-length b a s p q))
  ]
]

-- Digit strings of any length, with or without leading zeros, are compared as numbers.
pub compare_decimal-digits_value :
    (a b : Bytes)
    → AllDigits a
    → AllDigits b
    → compare_decimal a b ≡ compare_numbers (digits_value a) (digits_value b)
unfolding compare_decimal
compare_decimal-digits_value a b h k =
    let (p, q, r) = trim_zeros-lem a h in
    let (s, t, u) = trim_zeros-lem b k in
    compare_trimmed (trim_zeros a) (trim_zeros b) p q s t ∙ rw (r, u)

abbrev pub AllNumbers : List Bytes → Type 0
AllNumbers [] = Unit
AllNumbers (p ∷ ps) = AllDigits p × AllNumbers ps

-- The order of version numbers part by part, as numbers.
abbrev pub compare_values : List ℕ → List ℕ → Sign
compare_values (m ∷ ms) (n ∷ ns) = or_else (compare_numbers m n) (compare_values ms ns)
compare_values _ _ = same

-- Lists of digit strings are compared as the lists of their numbers, the first difference deciding.
pub compare_parts-digits_value :
    (a b : List Bytes)
    → AllNumbers a
    → AllNumbers b
    → compare_parts a b ≡ compare_values (map digits_value a) (map digits_value b)
unfolding compare_parts
compare_parts-digits_value (x ∷ xs) (y ∷ ys) h k =
    rw (compare_decimal-digits_value x y h.0 k.0, compare_parts-digits_value xs ys h.1 k.1)
compare_parts-digits_value _ _ h k = refl

all-AllDigits : (s : Bytes) → all is_decimal s ≡ true → AllDigits s
all-AllDigits [] h = tt
all-AllDigits (c ∷ s) h = (
  &&-left (is_decimal c) (all is_decimal s) h,
  all-AllDigits s (&&-right (is_decimal c) (all is_decimal s) h),
)

is_number-AllDigits : (s : Bytes) → is_number s ≡ true → AllDigits s
is_number-AllDigits [] h = tt
is_number-AllDigits (c ∷ s) h = all-AllDigits (c ∷ s) h

three_numbers-AllNumbers : (ps : List Bytes) → three_numbers ps ≡ true → AllNumbers ps
unfolding three_numbers
three_numbers-AllNumbers (a ∷ b ∷ c ∷ []) h = (
  is_number-AllDigits a (ground arith),
  (is_number-AllDigits b (ground arith), (is_number-AllDigits c (ground arith), tt)),
)
three_numbers-AllNumbers [] h = tt
three_numbers-AllNumbers (a ∷ []) h = absurd (cc)
three_numbers-AllNumbers (a ∷ b ∷ []) h = absurd (cc)
three_numbers-AllNumbers (a ∷ b ∷ c ∷ d ∷ ps) h = absurd (cc)

-- The numbers of a version.
abbrev pub version_numbers : Bytes → List ℕ
version_numbers v = map digits_value (split b'.' v)

-- Two valid host versions are compared by their numbers, part by part, whatever the digits they
-- are written with.
pub compare_host_version-numbers :
    (a b : Bytes)
    → valid_host_version a ≡ true
    → valid_host_version b ≡ true
    → compare_host_version a b ≡ compare_values (version_numbers a) (version_numbers b)
unfolding valid_host_version compare_host_version
compare_host_version-numbers a b h k =
    compare_parts-digits_value (split b'.' a) (split b'.' b)
      (three_numbers-AllNumbers (split b'.' a) h) (three_numbers-AllNumbers (split b'.' b) k)
