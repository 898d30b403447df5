-- ===== src/Json/Number/Takes.antt =====
-- A number is read off the front, with at least a digit.
use aii_plugin_sdk.Prelude.Options.{◌>>=◌}
use aii_plugin_sdk.Prelude.{
  Bool, Bool-cases, [], arith, if_rule, inl, inr, leb, refl, some, true, ℕ, ◌&&◌, ◌==◌, ◌||◌, ◌∷◌,
  ◌≡◌,
}
use aii_plugin_sdk.Prelude.Bytes.{Bytes}
use aii_plugin_sdk.Prelude.Suffix.{
  Suffix, Suffix-refl, Suffix-trans, Takes-Suffix, Takes-cons, consumed,
}
use aii_plugin_sdk.Json.Reads.{
  Passes, Passes-Suffix, Passes-bind, Reads, Reads-Suffix, Reads-bind, halts, passes, reads, stuck,
}
use aii_plugin_sdk.Json.Text.{is_digit}
use aii_plugin_sdk.Json.Number.{
  ParsedFloat, checked, digits, exp_part, frac_part, int_part, number, number_domain_ok, skip,
  some_digits, starts_digit,
}

pub digits-Suffix : (b : Bytes) → Suffix b (digits b)
unfolding digits
digits-Suffix [] = Suffix-refl []
digits-Suffix (c ∷ b) =
    if_rule (Suffix (c ∷ b)) (is_digit c) (Takes-Suffix (Takes-cons c (digits-Suffix b)))
      (Suffix-refl (c ∷ b))

skip-Suffix : (p : ℕ → Bool) (b : Bytes) → Suffix b (skip p b)
unfolding skip
skip-Suffix p [] = Suffix-refl []
skip-Suffix p (c ∷ b) =
    if_rule (Suffix (c ∷ b)) (p c) (Takes-Suffix (Takes-cons c (Suffix-refl b)))
      (Suffix-refl (c ∷ b))

digit_run : (c : ℕ) (b : Bytes) → is_digit c ≡ true → Reads (c ∷ b) (some (digits (c ∷ b)))
unfolding digits
digit_run c b d = rw d (reads (Takes-cons c (digits-Suffix b)))

some_digits-Passes : (b : Bytes) → Passes b (some_digits b)
unfolding some_digits
some_digits-Passes b = if_rule (Passes b) (starts_digit b) (passes (digits-Suffix b)) halts

int_part-Reads : (b : Bytes) → Reads b (int_part b)
unfolding int_part
int_part-Reads [] = stuck
int_part-Reads (c ∷ b) =
    if_rule (Reads (c ∷ b)) (c == b'0')
      (if_rule (Reads (c ∷ b)) (starts_digit b) stuck (reads (Takes-cons c (Suffix-refl b))))
      (elim (Bool-cases (leb b'1' c && leb c b'9')) [
        | inl e ↦ rw e (digit_run c b (ground arith))
        | inr e ↦ rw e stuck
      ])

frac_part-Passes : (b : Bytes) → Passes b (frac_part b)
unfolding frac_part
frac_part-Passes [] = passes (Suffix-refl [])
frac_part-Passes (c ∷ b) =
    if_rule (Passes (c ∷ b)) (c == b'.') (Passes-Suffix (c ∷ [], refl) (some_digits-Passes b))
      (passes (Suffix-refl (c ∷ b)))

exp_part-Passes : (b : Bytes) → Passes b (exp_part b)
unfolding exp_part
exp_part-Passes [] = passes (Suffix-refl [])
exp_part-Passes (c ∷ b) =
    let sign = λ (s : ℕ). s == b'+' || s == b'-' in
    if_rule (Passes (c ∷ b)) (c == b'e' || c == b'E')
      (Passes-Suffix (Suffix-trans (c ∷ [], refl) (skip-Suffix sign b))
        (some_digits-Passes (skip sign b)))
      (passes (Suffix-refl (c ∷ b)))

checked-Passes :
    (parse_float : Bytes → ParsedFloat) (b c : Bytes) → Passes c (checked parse_float b c)
unfolding checked
checked-Passes parse_float b c =
    if_rule (Passes c) (number_domain_ok parse_float (consumed b c)) (passes (Suffix-refl c)) halts

pub number-Reads : (parse_float : Bytes → ParsedFloat) (b : Bytes) → Reads b (number parse_float b)
unfolding number
number-Reads parse_float b =
    let minus = λ (c : ℕ). c == b'-' in
    let ending = λ (b2 : Bytes). exp_part b2 >>= checked parse_float b in
    Reads-bind (λ b1. frac_part b1 >>= ending)
      (Reads-Suffix (skip-Suffix minus b) (int_part-Reads (skip minus b)))
      (λ b1. Passes-bind ending (frac_part-Passes b1) (λ b2.
        Passes-bind (checked parse_float b) (exp_part-Passes b2) (checked-Passes parse_float b)))
