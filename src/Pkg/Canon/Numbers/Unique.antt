-- ===== src/Pkg/Canon/Numbers/Unique.antt =====
-- A canonical number has one text.
use aii_plugin_sdk.Pkg.Canon.Numbers.Numerals.{same_numeral}
use aii_plugin_sdk.Pkg.Canon.Numbers.{canonical_number_ok}
use mathlib.Core.Path.{refl}
use aii_plugin_sdk.Prelude.{
  Bool, Bool-cases, [], ap, append-nil, arith, false, inl, inr, length, sym, true, ◌++◌, ◌==◌, ◌∙◌,
  ◌∷◌, ◌≡◌, ◌≢◌,
}
use aii_plugin_sdk.Prelude.Bytes.{Bytes, codes}
use aii_plugin_sdk.Prelude.Decimal.{AllDigits, digits_value}
use aii_plugin_sdk.Pkg.Canon.Numbers.Shape.{
  IsNumber, IsWhole, canonical_number_ok-IsNumber, point_and, sign_of,
}
use aii_plugin_sdk.Pkg.Canon.Numbers.Value.{SameNumber, decimals, is_negative, scale}

decimals_all : (b r : Bytes) → AllDigits b → decimals (b ++ r) ≡ b ++ decimals r
unfolding decimals
decimals_all [] r h = refl
decimals_all (c ∷ b) r h = rw h.0 (ap (◌∷◌ c) (decimals_all b r h.1))

scale_all : (b r : Bytes) → AllDigits b → scale (b ++ r) ≡ scale r
unfolding scale
scale_all [] r h = refl
scale_all (c ∷ b) r h =
    let n : (c == b'.') ≡ false = ground (arith, h.0) in rw n (scale_all b r h.1)

decimals-point_and : (f : Bytes) → AllDigits f → decimals (point_and f) ≡ f
unfolding decimals
decimals-point_and [] h = refl
decimals-point_and (d ∷ f) h =
    rw h.0 (ap (◌∷◌ d) (ap decimals (sym (append-nil f)) ∙ decimals_all f [] h.1 ∙ append-nil f))

scale-point_and : (f : Bytes) → scale (point_and f) ≡ length f
unfolding scale
scale-point_and [] = refl
scale-point_and (d ∷ f) = refl

decimals-sign_of : (n : Bool) (b : Bytes) → decimals (sign_of n ++ b) ≡ decimals b
unfolding decimals
decimals-sign_of true b = refl
decimals-sign_of false b = refl

scale-sign_of : (n : Bool) (b : Bytes) → scale (sign_of n ++ b) ≡ scale b
unfolding scale
scale-sign_of true b = refl
scale-sign_of false b = refl

is_negative-sign_of :
    (n : Bool) (w b : Bytes) → AllDigits w → IsWhole w → is_negative (sign_of n ++ (w ++ b)) ≡ n
unfolding is_negative
is_negative-sign_of n [] b d h = absurd h
is_negative-sign_of true (c ∷ w) b d h = refl
is_negative-sign_of false (c ∷ w) b d h = ground (arith, d.0)

module _ (s : Bytes) (r : IsNumber s) where
  decimals-parts : decimals s ≡ r.whole ++ r.fraction_digits
  decimals-parts =
      ap decimals r.text
      ∙ decimals-sign_of r.negative _
      ∙ decimals_all r.whole (point_and r.fraction_digits) r.whole_digits
      ∙ ap (λ x. r.whole ++ x) (decimals-point_and r.fraction_digits r.fraction_all)

  scale-parts : scale s ≡ length r.fraction_digits
  scale-parts =
      ap scale r.text
      ∙ scale-sign_of r.negative _
      ∙ scale_all r.whole (point_and r.fraction_digits) r.whole_digits
      ∙ scale-point_and r.fraction_digits

  is_negative-parts : is_negative s ≡ r.negative
  is_negative-parts =
      ap is_negative r.text ∙ is_negative-sign_of r.negative r.whole _ r.whole_digits r.whole_form

  not_zero : r.negative ≡ true → digits_value (decimals s) ≢ 0
  unfolding digits_value
  not_zero n e =
      let v : digits_value (r.whole ++ r.fraction_digits) ≡ 0 =
        ap digits_value (sym decimals-parts) ∙ e in
      let (p, q) =
        same_numeral r.whole r.fraction_digits (codes "0") [] r.whole_digits r.fraction_all
          r.whole_form r.fraction_form (refl, tt) tt (inl (refl, refl)) tt (rw v (omega arith)) in
      r.not_minus_zero n p q

positive : (s : Bytes) (r : IsNumber s) → digits_value (decimals s) ≡ 0 → r.negative ≡ false
positive s r e = elim (Bool-cases r.negative) [ inl n ↦ absurd (not_zero s r n e) | inr n ↦ n ]

same_parts : (s t : Bytes) (p : IsNumber s) (q : IsNumber t) → SameNumber s t → s ≡ t
same_parts s t p q (e, n) =
    let v = rw (decimals-parts s p, decimals-parts t q, scale-parts s p, scale-parts t q) at e in
    let (a, b) =
      same_numeral p.whole p.fraction_digits q.whole q.fraction_digits p.whole_digits p.fraction_all
        p.whole_form p.fraction_form q.whole_digits q.fraction_all q.whole_form q.fraction_form v in
    let c : p.negative ≡ q.negative = elim n [
      | inl x ↦ sym (is_negative-parts s p) ∙ x ∙ is_negative-parts t q
      | inr z ↦
          positive s p z
          ∙ sym (
              positive t q (
                ap digits_value (
                  decimals-parts t q
                  ∙ ap (λ x. q.whole ++ x) (sym b)
                  ∙ ap (λ x. x ++ p.fraction_digits) (sym a)
                  ∙ sym (decimals-parts s p))
                ∙ z))
    ] in
    p.text
    ∙ ap (λ x. sign_of p.negative ++ (x ++ point_and p.fraction_digits)) a
    ∙ ap (λ x. sign_of p.negative ++ (q.whole ++ point_and x)) b
    ∙ ap (λ x. sign_of x ++ (q.whole ++ point_and q.fraction_digits)) c
    ∙ sym q.text

-- Two canonical numbers that stand for one number are one text.
pub canonical_number_ok_unique :
    (s t : Bytes)
    → canonical_number_ok s ≡ true
    → canonical_number_ok t ≡ true
    → SameNumber s t
    → s ≡ t
canonical_number_ok_unique s t h k e =
    same_parts s t (canonical_number_ok-IsNumber s h) (canonical_number_ok-IsNumber t k) e
