-- ===== src/Json/Number/Exponent.antt =====
-- How long the loop of `numberDomainOK` that pads the digits with zeros runs.
use aii_plugin_sdk.Prelude.{
  Option, [], arith, false, if◌then◌else◌, length, none, refl, some, true, ℕ, ◌++◌, ◌+◌, ◌-◌, ◌<◌,
  ◌==◌, ◌^◌, ◌∷◌, ◌≡◌, ◌≤◌,
}
use aii_plugin_sdk.Prelude.Bytes.{Bytes, codes}
use aii_plugin_sdk.Prelude.Int.{is_negative, negsuc, pos, wrap_int, ℤ, ◌+ℤ◌, ◌-ℤ◌}
use aii_plugin_sdk.Json.Text.{is_digit}
use aii_plugin_sdk.Json.Number.{
  digits, exceeds, normalize_decimal, padding, safe_integer_digits, skip, split_exponent,
  split_fraction, split_number,
}

-- The rounds for normalized digits and an exponent: none where the function returns before.
pub padding_rounds : Bytes → ℤ → ℕ
unfolding exceeds padding
padding_rounds [] e = 0
padding_rounds (d ∷ ds) e =
    if is_negative e
    then 0
    else if exceeds (wrap_int (pos (length (d ∷ ds)) +ℤ e)) (length safe_integer_digits)
    then 0
    else padding e

-- The rounds for what `splitNumber` gives.
pub rounds_of : Option (Bytes × Bytes × ℤ) → ℕ
unfolding normalize_decimal padding_rounds
rounds_of none = 0
rounds_of (some (int_digits, frac_digits, e)) =
    let (ds, point_exp) =
      normalize_decimal (int_digits ++ frac_digits) (wrap_int (e -ℤ pos (length frac_digits))) in
    padding_rounds ds point_exp

-- Where the exponent has not wrapped, the loop runs at most sixteen rounds.
padding_rounds-le : (ds : Bytes) (p : ℕ) → length ds + p < 2 ^ 63 → padding_rounds ds (pos p) ≤ 16
unfolding padding_rounds
padding_rounds-le [] p h = omega arith
padding_rounds-le (d ∷ ds) p h = ground arith

abbrev pub least_exponent : Bytes
least_exponent = codes "e-9223372036854775808"

module _ (d f : ℕ) (d_low : b'1' ≤ d) (d_high : d ≤ b'9') (f_low : b'1' ≤ f)
    (f_high : f ≤ b'9') where
  -- A digit other than zero.
  one_digit : (c : ℕ) (b : Bytes) → is_digit c ≡ true → digits (c ∷ b) ≡ digits b
  unfolding digits
  one_digit c b e = rw e

  digits-point : digits (d ∷ b'.' ∷ f ∷ least_exponent) ≡ b'.' ∷ f ∷ least_exponent
  unfolding digits
  digits-point = one_digit d (b'.' ∷ f ∷ least_exponent) (ground arith)

  digits-exponent : digits (f ∷ least_exponent) ≡ least_exponent
  unfolding digits
  digits-exponent = one_digit f least_exponent (ground arith)

  no_minus : skip (λ c. c == b'-') (d ∷ b'.' ∷ f ∷ least_exponent) ≡ d ∷ b'.' ∷ f ∷ least_exponent
  unfolding skip
  no_minus = let e : (d == b'-') ≡ false = ground arith in rw e

  fraction-least : split_fraction (b'.' ∷ f ∷ least_exponent) ≡ (f ∷ [], least_exponent)
  unfolding split_fraction
  fraction-least = rw digits-exponent

  exponent-least : split_exponent least_exponent ≡ some (negsuc (2 ^ 63 - 1))
  unfolding split_exponent
  exponent-least = refl

  split-least :
      split_number (d ∷ b'.' ∷ f ∷ least_exponent) ≡ some (d ∷ [], f ∷ [], negsuc (2 ^ 63 - 1))
  unfolding split_number
  split-least = rw (no_minus, digits-point, fraction-least, exponent-least) refl

  -- For each number `d.fe-9223372036854775808` with non-zero digits `d` and `f`, which is next to
  -- zero, the exponent wraps to the greatest `int` and the loop is to run 2^63 - 1 rounds.
  pub rounds-least : rounds_of (split_number (d ∷ b'.' ∷ f ∷ least_exponent)) ≡ 2 ^ 63 - 1
  unfolding rounds_of
  rounds-least =
      let a : (d == b'0') ≡ false = ground arith in
      let b : (f == b'0') ≡ false = ground arith in rw (split-least, a, b)
