-- ===== src/Json/Number.antt =====
-- Numbers in pkg/aiiosdk/strictjson.go: the grammar, and the safe-integer domain. `int` is Go's
-- 64-bit one, and every sum that the source takes of ints wraps.
pub mod Exponent
pub mod Takes
pub mod Integers
use mathlib.Core.List.{reverse}
use aii_plugin_sdk.Prelude.{
  Bool, Option, [], false, if◌then◌else◌, leb, length, ltb, none, replicate, some, suc, true, zero,
  ℕ, ◌&&◌, ◌*◌, ◌++◌, ◌+◌, ◌-◌, ◌==◌, ◌^◌, ◌||◌, ◌∷◌,
}
use aii_plugin_sdk.Prelude.Bytes.{Bytes, codes}
use aii_plugin_sdk.Prelude.Int.{is_negative, negsuc, pos, pos_part, wrap_int, ℤ, ◌+ℤ◌, ◌-ℤ◌}
use aii_plugin_sdk.Prelude.Suffix.{consumed}
use aii_plugin_sdk.Prelude.Options.{◌>>=◌}
use aii_plugin_sdk.Json.Text.{is_digit}

-- The loop `for ... is a digit { s.i++ }`.
pub digits : Bytes → Bytes
digits [] = []
digits (c ∷ b) = if is_digit c then digits b else c ∷ b

starts_digit : Bytes → Bool
starts_digit [] = false
starts_digit (c ∷ _) = is_digit c

-- One optional byte.
skip : (ℕ → Bool) → Bytes → Bytes
skip p [] = []
skip p (c ∷ b) = if p c then b else c ∷ b

some_digits : Bytes → Option Bytes
unfolding starts_digit digits
some_digits b = if starts_digit b then some (digits b) else none

int_part : Bytes → Option Bytes
unfolding starts_digit digits
int_part [] = none
int_part (c ∷ b) =
    if c == b'0'
    then (if starts_digit b then none else some b)
    else if leb b'1' c && leb c b'9'
    then some (digits (c ∷ b))
    else none

frac_part : Bytes → Option Bytes
unfolding some_digits
frac_part [] = some []
frac_part (c ∷ b) = if c == b'.' then some_digits b else some (c ∷ b)

exp_part : Bytes → Option Bytes
unfolding some_digits skip
exp_part [] = some []
exp_part (c ∷ b) =
    if c == b'e' || c == b'E'
    then some_digits (skip (λ s. s == b'+' || s == b'-') b)
    else some (c ∷ b)

-- `strconv.ParseFloat(tok, 64)` as far as it is used: whether the float is infinite or no number,
-- and the error.
pub data FloatError : Type 0 where
  no_error range_error syntax_error : FloatError

pub record ParsedFloat : Type 0 where
  pub unbounded : Bool
  pub error : FloatError

unfoldable pub decimal : ℕ → Bytes → Option ℕ
decimal acc [] = some acc
decimal acc (c ∷ b) =
    let rest = decimal (acc * 10 + (c - b'0')) b in if is_digit c then rest else none

unfoldable pub signed : Bool → ℕ → Option ℤ
signed true zero = some (pos 0)
signed true (suc n) = if ltb n (2 ^ 63) then some (negsuc n) else none
signed false n = if ltb n (2 ^ 63) then some (pos n) else none

unfoldable pub unsigned : Bool → Bytes → Option ℤ
unfolding decimal signed
unsigned minus [] = none
unsigned minus (c ∷ b) = decimal 0 (c ∷ b) >>= signed minus

-- `strconv.Atoi`.
unfoldable pub atoi : Bytes → Option ℤ
unfolding unsigned
atoi [] = none
atoi (c ∷ b) =
    if c == b'-'
    then unsigned true b
    else if c == b'+'
    then unsigned false b
    else unsigned false (c ∷ b)

-- The part of `splitNumber` from the exponent on: the exponent, if all of the token is read.
split_exponent : Bytes → Option ℤ
unfolding atoi
split_exponent [] = some (pos 0)
split_exponent (c ∷ b) = if c == b'e' || c == b'E' then atoi b else none

-- The fraction's digits and what follows them.
split_fraction : Bytes → Bytes × Bytes
unfolding digits
split_fraction [] = ([], [])
split_fraction (c ∷ b) = if c == b'.' then (consumed b (digits b), digits b) else ([], c ∷ b)

-- `splitNumber`; `none` stands for a false `ok`.
pub split_number : Bytes → Option (Bytes × Bytes × ℤ)
split_number tok =
    let b = skip (λ c. c == b'-') tok in
    let (frac, rest) = split_fraction (digits b) in
    split_exponent rest >>= λ e. some (consumed b (digits b), frac, e)

strip_zeros : Bytes → Bytes
strip_zeros [] = []
strip_zeros (c ∷ b) = if c == b'0' then strip_zeros b else c ∷ b

-- `normalizeDecimal`: each trailing zero taken off adds one to the exponent.
pub normalize_decimal : Bytes → ℤ → Bytes × ℤ
unfolding strip_zeros
normalize_decimal digits point_exp =
    let tail = reverse (strip_zeros digits) in
    let kept = strip_zeros tail in
    (reverse kept, wrap_int (point_exp +ℤ pos (length tail - length kept)))

-- Go's `<=` on strings.
pub leb_bytes : Bytes → Bytes → Bool
leb_bytes [] _ = true
leb_bytes (_ ∷ _) [] = false
leb_bytes (x ∷ xs) (y ∷ ys) = if ltb x y then true else x == y && leb_bytes xs ys

abbrev pub safe_integer_digits : Bytes
safe_integer_digits = codes "9007199254740991"

exceeds : ℤ → ℕ → Bool
exceeds (pos a) b = ltb b a
exceeds (negsuc _) b = false

-- The rounds of `for i := 0; i < pointExp; i++ { mag += "0" }`.
pub padding : ℤ → ℕ
padding = pos_part

-- The end of `numberDomainOK`, from `digits == ""` on.
pub in_domain : Bytes → ℤ → Bool
unfolding exceeds leb_bytes padding
in_domain [] point_exp = true
in_domain (d ∷ ds) point_exp =
    if is_negative point_exp
    then true
    else if exceeds (wrap_int (pos (length (d ∷ ds)) +ℤ point_exp)) (length safe_integer_digits)
    then false
    else (let mag = (d ∷ ds) ++ replicate (padding point_exp) b'0' in
        if ltb (length mag) (length safe_integer_digits)
        then true
        else leb_bytes mag safe_integer_digits)

in_range : Option (Bytes × Bytes × ℤ) → Bool
unfolding normalize_decimal in_domain
in_range none = false
in_range (some (int_digits, frac_digits, e)) =
    let (ds, point_exp) =
      normalize_decimal (int_digits ++ frac_digits) (wrap_int (e -ℤ pos (length frac_digits))) in
    in_domain ds point_exp

rejects : FloatError → Bool
rejects syntax_error = true
rejects _ = false

module _ (parse_float : Bytes → ParsedFloat) where
  unfoldable pub number_domain_ok : Bytes → Bool
  unfolding in_range split_number split_fraction split_exponent skip digits rejects
  number_domain_ok tok =
      if (parse_float tok).unbounded
      then false
      else if rejects (parse_float tok).error
      then false
      else in_range (split_number tok)

  checked : Bytes → Bytes → Option Bytes
  checked b rest = if number_domain_ok (consumed b rest) then some rest else none

  -- `scanner.number`.
  unfoldable pub number : Bytes → Option Bytes
  unfolding int_part frac_part exp_part skip checked number_domain_ok
  number b = do
    b1 ← int_part (skip (λ c. c == b'-') b)
    b2 ← frac_part b1
    b3 ← exp_part b2
    checked b b3
