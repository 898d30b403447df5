-- ===== src/Pkg/Canon/Numbers/Shape.antt =====
-- The shape of a canonical number.
use mathlib.Core.Path.{refl}
use aii_plugin_sdk.Prelude.{
  &&-left, &&-right, ==_iff, Bool, Bool-cases, Option, [], ap, append-nil, arith, false, if_cases,
  inl, inr, leb, length, none, not, some, true, ℕ, ◌&&◌, ◌++◌, ◌==◌, ◌∙◌, ◌∷◌, ◌≡◌, ◌≢◌, ◌⊎◌,
}
use aii_plugin_sdk.Prelude.Bytes.{Bytes, codes, equal_iff}
use aii_plugin_sdk.Prelude.Decimal.{AllDigits, is_decimal}
use aii_plugin_sdk.Pkg.Canon.Numbers.{
  number_accepted, behind_sign, canonical_number_ok, ends_zero, fraction, whole_part, span_digits,
  digit_next, signed_number,
}

abbrev pub point_and : Bytes → Bytes
point_and [] = []
point_and (d ∷ ds) = b'.' ∷ d ∷ ds

abbrev pub sign_of : Bool → Bytes
sign_of true = b'-' ∷ []
sign_of false = []

-- Zero alone, or digits of which the first is not zero.
abbrev pub IsWhole : Bytes → Type 0
IsWhole [] = ⊥
IsWhole (c ∷ ds) = ((c ≡ b'0') × (ds ≡ [])) ⊎ (c ≢ b'0')

-- The last digit is not zero.
abbrev pub NoTrailingZero : Bytes → Type 0
NoTrailingZero [] = Unit
NoTrailingZero (c ∷ []) = c ≢ b'0'
NoTrailingZero (c ∷ d ∷ ds) = NoTrailingZero (d ∷ ds)

-- A sign, an integer part and the digits of a fraction, if it has one.
pub record IsNumber (s : Bytes) : Type 0 where
  pub negative : Bool
  pub whole : Bytes
  pub fraction_digits : Bytes
  pub text : s ≡ sign_of negative ++ (whole ++ point_and fraction_digits)
  pub whole_digits : AllDigits whole
  pub whole_form : IsWhole whole
  pub fraction_all : AllDigits fraction_digits
  pub fraction_form : NoTrailingZero fraction_digits
  pub not_minus_zero : negative ≡ true → (whole ≡ codes "0") → fraction_digits ≢ []

span_digits-lem :
    (b : Bytes) → AllDigits (span_digits b).0 × (b ≡ (span_digits b).0 ++ (span_digits b).1)
unfolding span_digits
span_digits-lem [] = (tt, refl)
span_digits-lem (c ∷ b) =
    let (d, e) = span_digits-lem b in
    if_cases (λ (r : Bytes × Bytes). AllDigits r.0 × (c ∷ b ≡ r.0 ++ r.1)) (is_decimal c)
      (λ t. ((t, d), ap (◌∷◌ c) e)) (λ _. (tt, refl))

ends_zero-NoTrailingZero : (ds : Bytes) → ends_zero ds ≡ false → NoTrailingZero ds
unfolding ends_zero
ends_zero-NoTrailingZero [] h = tt
ends_zero-NoTrailingZero (c ∷ []) h = λ e. ground arith
ends_zero-NoTrailingZero (c ∷ d ∷ ds) h = ends_zero-NoTrailingZero (d ∷ ds) h

length-zero : (b : Bytes) → (length b == 0) ≡ true → b ≡ []
length-zero [] h = refl
length-zero (x ∷ b) h = absurd (ground arith)

some_head : (c : ℕ) (b : Bytes) → c ∷ b ≢ []
some_head c b e = cc

digit_next-span_digits : (b : Bytes) → digit_next b ≡ true → (span_digits b).0 ≢ []
unfolding digit_next span_digits
digit_next-span_digits [] h = λ _. absurd (cc)
digit_next-span_digits (c ∷ b) h = rw h (some_head c (span_digits b).0)

-- What `fraction` has read.
abbrev FractionOf : Bytes → Option (Option Bytes) → Type 0
FractionOf b none = Unit
FractionOf b (some none) = b ≡ []
FractionOf b (some (some ds)) = (b ≡ b'.' ∷ ds) × (ds ≢ []) × AllDigits ds × NoTrailingZero ds

some_fraction :
    (c : ℕ) (b : Bytes)
    → AllDigits (span_digits b).0
    → b ≡ (span_digits b).0 ++ (span_digits b).1
    → c ≡ b'.'
    → digit_next b ≡ true
    → ends_zero (span_digits b).0 ≡ false
    → (span_digits b).1 ≡ []
    → FractionOf (c ∷ b) (some (some (span_digits b).0))
some_fraction c b d e p s z l =
    let q : b ≡ (span_digits b).0 =
      e ∙ ap (λ r. (span_digits b).0 ++ r) l ∙ append-nil (span_digits b).0 in
    (
      rw p (ap (◌∷◌ b'.') q),
      digit_next-span_digits b s,
      d,
      ends_zero-NoTrailingZero (span_digits b).0 z,
    )

fraction-FractionOf : (b : Bytes) → FractionOf b (fraction b)
unfolding fraction
fraction-FractionOf [] = refl
fraction-FractionOf (c ∷ b) =
    let (d, e) = span_digits-lem b in
    let P = FractionOf (c ∷ b) in
    if_cases P (not (c == b'.')) (λ _. tt)
      (λ p.
        if_cases P (not (digit_next b)) (λ _. tt)
          (λ s.
            if_cases P (ends_zero (span_digits b).0) (λ _. tt)
              (λ z.
                if_cases P (length (span_digits b).1 == 0)
                  (λ l.
                    some_fraction c b d e (ground arith) (ground arith) z
                      (length-zero (span_digits b).1 l))
                  (λ _. tt))))

IntOf : Bytes → Option (Bytes × Bytes) → Type 0
IntOf b none = Unit
IntOf b (some (ds, rest)) = (b ≡ ds ++ rest) × AllDigits ds × IsWhole ds

span_digits-IsWhole :
    (c : ℕ) (b : Bytes) → leb b'1' c ≡ true → leb c b'9' ≡ true → IsWhole (span_digits (c ∷ b)).0
unfolding span_digits
span_digits-IsWhole c b h k =
    let d : is_decimal c ≡ true = ground arith in rw d (inr (λ e. ground arith))

whole_part-IntOf : (b : Bytes) → IntOf b (whole_part b)
unfolding IntOf whole_part
whole_part-IntOf [] = tt
whole_part-IntOf (c ∷ b) =
    let P = IntOf (c ∷ b) in
    let (d, e) = span_digits-lem (c ∷ b) in
    if_cases P (c == b'0')
      (λ z.
        if_cases P (digit_next b) (λ _. tt)
          (λ _. (ap (λ x. x ∷ b) ((==_iff c b'0').0 z), (refl, tt), inl (refl, refl))))
      (λ _.
        if_cases P (leb b'1' c && leb c b'9')
          (λ h. (
            e,
            d,
            span_digits-IsWhole c b (&&-left (leb b'1' c) (leb c b'9') h)
                (&&-right (leb b'1' c) (leb c b'9') h),
          ))
          (λ _. tt))

pointed : (fs : Bytes) → fs ≢ [] → b'.' ∷ fs ≡ point_and fs
pointed [] n = absurd (n refl)
pointed (d ∷ ds) n = refl

accepted_some :
    (negative : Bool) (ds rest : Bytes) (f : Option (Option Bytes))
    → AllDigits ds
    → IsWhole ds
    → FractionOf rest f
    → number_accepted negative ds f ≡ true
    → IsNumber (sign_of negative ++ (ds ++ rest))
unfolding number_accepted
accepted_some negative ds rest none d w r h = absurd (cc)
accepted_some negative ds rest (some none) d w r h = record {
  negative = negative;
  whole = ds;
  fraction_digits = [];
  text = ap (λ x. sign_of negative ++ (ds ++ x)) r;
  whole_digits = d;
  whole_form = w;
  fraction_all = tt;
  fraction_form = tt;
  not_minus_zero = λ n e. absurd (cc (rw (n, (equal_iff ds (codes "0")).1 e) at h));
}
accepted_some negative ds rest (some (some fs)) d w (t, n, a, z) h = record {
  negative = negative;
  whole = ds;
  fraction_digits = fs;
  text = ap (λ x. sign_of negative ++ (ds ++ x)) (t ∙ pointed fs n);
  whole_digits = d;
  whole_form = w;
  fraction_all = a;
  fraction_form = z;
  not_minus_zero = λ _ _. n;
}

behind_sign-IsNumber :
    (negative : Bool) (b : Bytes) (o : Option (Bytes × Bytes))
    → IntOf b o
    → behind_sign negative o ≡ true
    → IsNumber (sign_of negative ++ b)
unfolding IntOf behind_sign
behind_sign-IsNumber negative b none i h = absurd (cc)
behind_sign-IsNumber negative b (some (ds, rest)) (e, d, w) h =
    rw e (accepted_some negative ds rest (fraction rest) d w (fraction-FractionOf rest) h)

signed_number-IsNumber : (b : Bytes) → signed_number b ≡ true → IsNumber b
unfolding signed_number
signed_number-IsNumber [] h = absurd (cc)
signed_number-IsNumber (c ∷ b) h = elim (Bool-cases (c == b'-')) [
  | inl m ↦
      rw ((==_iff c b'-').0 m)
        (behind_sign-IsNumber true b (whole_part b) (whole_part-IntOf b) (rw m at h))
  | inr m ↦
      behind_sign-IsNumber false (c ∷ b) (whole_part (c ∷ b)) (whole_part-IntOf (c ∷ b)) (rw m at h)
]

pub canonical_number_ok-IsNumber : (s : Bytes) → canonical_number_ok s ≡ true → IsNumber s
unfolding canonical_number_ok
canonical_number_ok-IsNumber s h = signed_number-IsNumber s (ground arith)
