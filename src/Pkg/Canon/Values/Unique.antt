-- ===== src/Pkg/Canon/Values/Unique.antt =====
-- Only one value has a text, where the fields stay in their order.
use aii_plugin_sdk.Pkg.Canon.Values.Strings.{string_same}
use mathlib.Core.Path.{refl}
use aii_plugin_sdk.Prelude.{
  Bool, [], ap, append-nil, append_assoc, arith, false, sym, true, ◌++◌, ◌∙◌, ◌∷◌, ◌≡◌,
}
use aii_plugin_sdk.Prelude.Bytes.{Bytes}
use aii_plugin_sdk.Pkg.Canon.Values.{
  Canon, Canons, Fields, array, boolean, canon_number, field_then, no_fields, no_values, null,
  object, with_commas, text, value_then,
}
use aii_plugin_sdk.Pkg.Canon.Values.Plain.{
  AllNumbers, number_bytes, number_same, plain_fields, plain_value, plain_values,
}
use aii_plugin_sdk.Pkg.Canon.Values.Listed.{
  AllDetermined, Determined, FieldsDetermined, first_field-same, first_value-same, kind,
  other_literals, shown, shown-kind,
}

same_kind :
    (v w : Canon) (r q : Bytes)
    → AllNumbers v
    → AllNumbers w
    → plain_value v ++ r ≡ plain_value w ++ q
    → kind v ≡ kind w
same_kind v w r q h k e = sym (shown-kind v r h) ∙ ap shown e ∙ shown-kind w q k

null-Determined : Determined null
unfolding plain_value
null-Determined null r q h k u v e = (refl, cc)
null-Determined w r q h k u v e = absurd (let f = same_kind null w r q h k e in omega arith)

boolean-Determined : (b : Bool) → Determined (boolean b)
unfolding plain_value
boolean-Determined true (boolean true) r q h k u v e = (refl, cc)
boolean-Determined false (boolean false) r q h k u v e = (refl, cc)
boolean-Determined true (boolean false) r q h k u v e = absurd (other_literals r q e)
boolean-Determined false (boolean true) r q h k u v e = absurd (other_literals q r (sym e))
boolean-Determined b w r q h k u v e =
    absurd (let f = same_kind (boolean b) w r q h k e in omega arith)

text-Determined : (s : Bytes) → Determined (text s)
unfolding plain_value
text-Determined s (text t) r q h k u v e = let (a, b) = string_same s t r q e in (ap text a, b)
text-Determined s w r q h k u v e = absurd (let f = same_kind (text s) w r q h k e in omega arith)

canon_number-Determined : (s : Bytes) → Determined (canon_number s)
unfolding plain_value AllNumbers
canon_number-Determined s (canon_number t) r q h k u v e =
    let (a, b) = number_same s t r q (number_bytes s h).0 (number_bytes t k).0 u v e in
    (ap canon_number a, b)
canon_number-Determined s w r q h k u v e =
    absurd (let f = same_kind (canon_number s) w r q h k e in omega arith)

array-Determined : (vs : Canons) → AllDetermined vs → Determined (array vs)
unfolding plain_value AllNumbers
array-Determined vs i (array ws) r q h k u v e =
    let f : with_commas (plain_values vs) ++ (b']' ∷ r)
        ≡ with_commas (plain_values ws) ++ (b']' ∷ q) =
      sym (append_assoc (with_commas (plain_values vs)) (b']' ∷ []) r)
      ∙ (cc)
      ∙ append_assoc (with_commas (plain_values ws)) (b']' ∷ []) q in
    let (a, b) = first_value-same vs ws r q i h k f in (ap array a, b)
array-Determined vs i w r q h k u v e =
    absurd (let f = same_kind (array vs) w r q h k e in omega arith)

object-Determined : (fs : Fields) → FieldsDetermined fs → Determined (object fs)
unfolding plain_value AllNumbers
object-Determined fs i (object gs) r q h k u v e =
    let f : with_commas (plain_fields fs) ++ (b'}' ∷ r)
        ≡ with_commas (plain_fields gs) ++ (b'}' ∷ q) =
      sym (append_assoc (with_commas (plain_fields fs)) (b'}' ∷ []) r)
      ∙ (cc)
      ∙ append_assoc (with_commas (plain_fields gs)) (b'}' ∷ []) q in
    let (a, b) = first_field-same fs gs r q i h k f in (ap object a, b)
object-Determined fs i w r q h k u v e =
    absurd (let f = same_kind (object fs) w r q h k e in omega arith)

mutual
  determined : (v : Canon) → Determined v
  determined null = null-Determined
  determined (boolean b) = boolean-Determined b
  determined (text s) = text-Determined s
  determined (canon_number s) = canon_number-Determined s
  determined (array vs) = array-Determined vs (all_determined vs)
  determined (object fs) = object-Determined fs (fields_determined fs)

  all_determined : (vs : Canons) → AllDetermined vs
  all_determined no_values = tt
  all_determined (value_then v vs) = (determined v, all_determined vs)

  fields_determined : (fs : Fields) → FieldsDetermined fs
  fields_determined no_fields = tt
  fields_determined (field_then key v fs) = (determined v, fields_determined fs)

-- Of the values whose numbers are canonical, one at most has a given text.
pub plain_value_unique :
    (v w : Canon) → AllNumbers v → AllNumbers w → plain_value v ≡ plain_value w → v ≡ w
plain_value_unique v w h k e =
    (determined v w [] [] h k tt tt
      (append-nil (plain_value v) ∙ e ∙ sym (append-nil (plain_value w)))).0
