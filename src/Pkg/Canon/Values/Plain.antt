-- ===== src/Pkg/Canon/Values/Plain.antt =====
-- The text of a value whose fields stay in their order, which only that value has.
use mathlib.Core.Path.{refl}
use aii_plugin_sdk.Prelude.{
  Bool, List, [], arith, false, if◌then◌else◌, subst, sym, true, ℕ, ◌++◌, ◌==◌, ◌||◌, ◌∷◌, ◌≡◌, ◌≢◌,
}
use aii_plugin_sdk.Prelude.Bytes.{Bytes, codes}
use aii_plugin_sdk.Prelude.Decimal.{AllDigits, is_decimal}
use aii_plugin_sdk.Pkg.Canon.Numbers.{canonical_number_ok}
use aii_plugin_sdk.Pkg.Canon.Numbers.Shape.{
  IsWhole, canonical_number_ok-IsNumber, point_and, sign_of,
}
use aii_plugin_sdk.Pkg.Canon.Values.{
  Canon, Canons, Fields, array, boolean, canon_number, emit_field, emit_string, field_then,
  no_fields, no_values, null, object, with_commas, text, value_then,
}

-- Every number of a value is canonical.
unfoldable mutual
  pub AllNumbers : Canon → Type 0
  AllNumbers null = Unit
  AllNumbers (boolean b) = Unit
  AllNumbers (text s) = Unit
  AllNumbers (canon_number s) = canonical_number_ok s ≡ true
  AllNumbers (array vs) = NumbersInside vs
  AllNumbers (object fields) = NumbersInFields fields

  pub NumbersInside : Canons → Type 0
  NumbersInside no_values = Unit
  NumbersInside (value_then v vs) = AllNumbers v × NumbersInside vs

  pub NumbersInFields : Fields → Type 0
  NumbersInFields no_fields = Unit
  NumbersInFields (field_then key v fields) = AllNumbers v × NumbersInFields fields

unfoldable mutual
  unfolding emit_string with_commas emit_field

  pub plain_value : Canon → Bytes
  plain_value null = codes "null"
  plain_value (boolean b) = if b then codes "true" else codes "false"
  plain_value (text s) = emit_string s
  plain_value (canon_number s) = s
  plain_value (array vs) = b'[' ∷ (with_commas (plain_values vs) ++ (b']' ∷ []))
  plain_value (object fields) = b'{' ∷ (with_commas (plain_fields fields) ++ (b'}' ∷ []))

  pub plain_values : Canons → List Bytes
  plain_values no_values = []
  plain_values (value_then v vs) = plain_value v ∷ plain_values vs

  pub plain_fields : Fields → List Bytes
  plain_fields no_fields = []
  plain_fields (field_then key v fields) = emit_field (key, plain_value v) ∷ plain_fields fields

-- The bytes of numbers.
abbrev pub numeric : ℕ → Bool
numeric c = is_decimal c || c == b'-' || c == b'.'

abbrev pub AllNumeric : Bytes → Type 0
AllNumeric [] = Unit
AllNumeric (c ∷ b) = (numeric c ≡ true) × AllNumeric b

AllNumeric-append : (a b : Bytes) → AllNumeric a → AllNumeric b → AllNumeric (a ++ b)
AllNumeric-append [] b h k = k
AllNumeric-append (c ∷ a) b h k = (h.0, AllNumeric-append a b h.1 k)

AllDigits-AllNumeric : (b : Bytes) → AllDigits b → AllNumeric b
AllDigits-AllNumeric [] h = tt
AllDigits-AllNumeric (c ∷ b) h = (ground (arith, h.0), AllDigits-AllNumeric b h.1)

pub number_bytes : (s : Bytes) → canonical_number_ok s ≡ true → AllNumeric s × (s ≢ [])
number_bytes s h =
    let r = canonical_number_ok-IsNumber s h in
    rw r.text (
      AllNumeric-append (sign_of r.negative) _ (signs r.negative) (
          AllNumeric-append r.whole _ (AllDigits-AllNumeric r.whole r.whole_digits)
            (points r.fraction_digits r.fraction_all)),
      some_bytes r.negative r.whole (point_and r.fraction_digits) r.whole_form,
    )
  where
    signs : (n : Bool) → AllNumeric (sign_of n)
    signs true = (refl, tt)
    signs false = tt

    points : (f : Bytes) → AllDigits f → AllNumeric (point_and f)
    points [] h = tt
    points (d ∷ f) h = (refl, AllDigits-AllNumeric (d ∷ f) h)

    some_bytes : (n : Bool) (w f : Bytes) → IsWhole w → sign_of n ++ (w ++ f) ≢ []
    some_bytes true w f i e = cc
    some_bytes false [] f i e = i
    some_bytes false (c ∷ w) f i e = cc

-- What follows a value does not go on with its number.
abbrev pub Stops : Bytes → Type 0
Stops [] = Unit
Stops (c ∷ b) = numeric c ≡ false

pub number_same :
    (s t r q : Bytes)
    → AllNumeric s
    → AllNumeric t
    → Stops r
    → Stops q
    → s ++ r ≡ t ++ q
    → (s ≡ t) × (r ≡ q)
number_same [] [] r q h k u v e = (refl, e)
number_same [] (d ∷ t) r q h k u v e = absurd (let w = subst Stops e u in let n = k.0 in cc)
number_same (c ∷ s) [] r q h k u v e = absurd (let w = subst Stops (sym e) v in let n = h.0 in cc)
number_same (c ∷ s) (d ∷ t) r q h k u v e =
    let (a, b) = number_same s t r q h.1 k.1 u v (cc) in (cc, b)
