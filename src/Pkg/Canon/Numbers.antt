-- ===== src/Pkg/Canon/Numbers.antt =====
-- `canonicalNumberOK` of pkg/aiiospkg/canonjson.go. The position `i` is the list of the bytes from
-- it on.
pub mod Shape
pub mod Value
pub mod Numerals
pub mod Unique
use aii_plugin_sdk.Prelude.{
  Bool, Option, [], any, false, if◌then◌else◌, leb, length, none, not, some, true, ◌&&◌, ◌==◌, ◌||◌,
  ◌∷◌,
}
use aii_plugin_sdk.Prelude.Bytes.{Bytes, codes, equal}
use aii_plugin_sdk.Prelude.Decimal.{is_decimal}

-- The digits at the head, and what is behind them.
pub span_digits : Bytes → Bytes × Bytes
span_digits [] = ([], [])
span_digits (c ∷ b) =
    let (ds, rest) = span_digits b in if is_decimal c then (c ∷ ds, rest) else ([], c ∷ b)

digit_next : Bytes → Bool
digit_next [] = false
digit_next (c ∷ b) = is_decimal c

ends_zero : Bytes → Bool
ends_zero [] = false
ends_zero (c ∷ []) = c == b'0'
ends_zero (c ∷ d ∷ b) = ends_zero (d ∷ b)

-- `intPart` and what is behind it, where the switch does not return.
pub whole_part : Bytes → Option (Bytes × Bytes)
unfolding span_digits digit_next
whole_part [] = none
whole_part (c ∷ b) =
    if c == b'0'
    then (if digit_next b then none else some (b'0' ∷ [], b))
    else if leb b'1' c && leb c b'9'
    then some (span_digits (c ∷ b))
    else none

-- The fraction, absent or with its digits, where all of the rest is read.
pub fraction : Bytes → Option (Option Bytes)
unfolding span_digits digit_next ends_zero
fraction [] = some none
fraction (c ∷ b) =
    let (ds, rest) = span_digits b in
    if not (c == b'.')
    then none
    else if not (digit_next b)
    then none
    else if ends_zero ds
    then none
    else if length rest == 0
    then some (some ds)
    else none

number_accepted : Bool → Bytes → Option (Option Bytes) → Bool
number_accepted negative ds none = false
number_accepted negative ds (some (some _)) = true
number_accepted negative ds (some none) = not (negative && equal ds (codes "0"))

behind_sign : Bool → Option (Bytes × Bytes) → Bool
unfolding number_accepted fraction
behind_sign negative none = false
behind_sign negative (some (ds, rest)) = number_accepted negative ds (fraction rest)

signed_number : Bytes → Bool
unfolding behind_sign whole_part
signed_number [] = false
signed_number (c ∷ b) =
    if c == b'-' then behind_sign true (whole_part b) else behind_sign false (whole_part (c ∷ b))

-- `canonicalNumberOK`.
unfoldable pub canonical_number_ok : Bytes → Bool
unfolding signed_number
canonical_number_ok s =
    if length s == 0 || any (λ c. c == b'e' || c == b'E' || c == b'+') s
    then false
    else signed_number s
