-- ===== src/Json/Number/Integers.antt =====
-- Integers that are written in decimal are scanned whole.
use mathlib.Core.Path.{refl}
use aii_plugin_sdk.Prelude.{
  &&-left, &&-right, Bool, [], all, ap, arith, false, leb, some, true, ◌&&◌, ◌++◌, ◌==◌, ◌||◌, ◌∙◌,
  ◌∷◌, ◌≡◌,
}
use aii_plugin_sdk.Prelude.Bytes.{Bytes}
use aii_plugin_sdk.Prelude.Suffix.{consumed-append}
use aii_plugin_sdk.Json.Text.{is_digit}
use aii_plugin_sdk.Json.Number.{
  ParsedFloat, checked, digits, exp_part, frac_part, int_part, number, number_domain_ok, skip,
}

-- Bytes that end a number.
abbrev pub ends_number : Bytes → Bool
ends_number [] = true
ends_number (c ∷ _) = c == b',' || c == b'}' || c == b']'

digits-run :
    (ds rest : Bytes)
    → all is_digit ds ≡ true
    → ends_number rest ≡ true
    → digits (ds ++ rest) ≡ rest
unfolding digits
digits-run [] [] h e = refl
digits-run [] (c ∷ rest) h e = let f : is_digit c ≡ false = ground arith in rw f
digits-run (d ∷ ds) rest h e =
    rw (&&-left (is_digit d) _ h) (digits-run ds rest (&&-right (is_digit d) _ h) e)

no_fraction :
    (rest : Bytes)
    → ends_number rest ≡ true
    → (frac_part rest ≡ some rest) × (exp_part rest ≡ some rest)
unfolding frac_part exp_part
no_fraction [] e = (refl, refl)
no_fraction (c ∷ rest) e =
    let f : (c == b'.') ≡ false = ground arith in
    let g : (c == b'e' || c == b'E') ≡ false = ground arith in (rw f, rw g)

-- A digit from 1 on, and others.
abbrev pub IsNatural : Bytes → Type 0
IsNatural [] = ⊥
IsNatural (d ∷ ds) = ((leb b'1' d && leb d b'9') ≡ true) × (all is_digit ds ≡ true)

int_part-natural :
    (ds rest : Bytes) → IsNatural ds → ends_number rest ≡ true → int_part (ds ++ rest) ≡ some rest
unfolding int_part
int_part-natural [] rest h e = absurd h
int_part-natural (d ∷ ds) rest (h, k) e =
    let z : (d == b'0') ≡ false = ground arith in
    let t : is_digit d ≡ true = ground arith in
    rw (z, h) (ap some (digits-run (d ∷ ds) rest (rw t k) e))

module _ (parse_float : Bytes → ParsedFloat) where
  number-parts :
      (tok rest : Bytes)
      → int_part (skip (λ c. c == b'-') (tok ++ rest)) ≡ some rest
      → ends_number rest ≡ true
      → number_domain_ok parse_float tok ≡ true
      → number parse_float (tok ++ rest) ≡ some rest
  unfolding number checked
  number-parts tok rest i e ok_domain =
      let (f, g) = no_fraction rest e in rw (i, f, g, consumed-append tok rest, ok_domain)

  pub number-natural :
      (ds rest : Bytes)
      → IsNatural ds
      → ends_number rest ≡ true
      → number_domain_ok parse_float ds ≡ true
      → number parse_float (ds ++ rest) ≡ some rest
  number-natural [] rest h e d = absurd h
  number-natural (c ∷ ds) rest h e d =
      let m : (c == b'-') ≡ false = ground arith in
      let s : skip (λ c. c == b'-') (c ∷ (ds ++ rest)) ≡ c ∷ (ds ++ rest) = unfold skip in rw m in
      number-parts (c ∷ ds) rest (ap int_part s ∙ int_part-natural (c ∷ ds) rest h e) e d

  pub number-negative :
      (ds rest : Bytes)
      → IsNatural ds
      → ends_number rest ≡ true
      → number_domain_ok parse_float (b'-' ∷ ds) ≡ true
      → number parse_float (b'-' ∷ (ds ++ rest)) ≡ some rest
  number-negative ds rest h e d =
      number-parts (b'-' ∷ ds) rest (unfold skip in int_part-natural ds rest h e) e d
