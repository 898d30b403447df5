-- ===== src/Pkg/Canon/Values/Listed.antt =====
-- Which elements or fields a text lists, where each element is determined by its text.
use aii_plugin_sdk.Pkg.Canon.Values.Strings.{string_same}
use mathlib.Core.Path.{refl}
use aii_plugin_sdk.Prelude.{
  List, [], ap, append_assoc, arith, false, if◌then◌else◌, sym, true, ℕ, ◌++◌, ◌==◌, ◌∙◌, ◌∷◌, ◌≡◌,
  ◌≢◌,
}
use aii_plugin_sdk.Prelude.Bytes.{Bytes, codes}
use aii_plugin_sdk.Pkg.Canon.Values.{
  Canon, Canons, Fields, array, behind_commas, boolean, canon_number, emit_field, emit_string,
  field_then, no_fields, no_values, null, object, with_commas, text, value_then,
}
use aii_plugin_sdk.Pkg.Canon.Values.Plain.{
  AllNumbers, AllNumeric, NumbersInFields, NumbersInside, Stops, number_bytes, numeric,
  plain_fields, plain_value, plain_values,
}

-- The kind of a value, and the kind that the first byte of a text shows.
abbrev pub kind : Canon → ℕ
kind null = 0
kind (boolean b) = 1
kind (text s) = 3
kind (canon_number s) = 4
kind (array vs) = 5
kind (object fs) = 6

abbrev pub shown : Bytes → ℕ
shown [] = 7
shown (c ∷ b) =
    if c == b'n'
    then 0
    else if c == b't'
    then 1
    else if c == b'f'
    then 1
    else if c == b'"'
    then 3
    else if c == b'['
    then 5
    else if c == b'{'
    then 6
    else if numeric c
    then 4
    else 7

kind_known : (v : Canon) → kind v ≢ 7
kind_known null e = omega arith
kind_known (boolean b) e = omega arith
kind_known (text s) e = omega arith
kind_known (canon_number s) e = omega arith
kind_known (array vs) e = omega arith
kind_known (object fs) e = omega arith

pub shown-kind : (v : Canon) (r : Bytes) → AllNumbers v → shown (plain_value v ++ r) ≡ kind v
unfolding plain_value emit_string AllNumbers
shown-kind null r h = refl
shown-kind (boolean true) r h = refl
shown-kind (boolean false) r h = refl
shown-kind (text s) r h = refl
shown-kind (canon_number s) r h = let (a, n) = number_bytes s h in of_number s r a n
  where
    of_number : (s r : Bytes) → AllNumeric s → s ≢ [] → shown (s ++ r) ≡ 4
    of_number [] r a n = absurd (n refl)
    of_number (c ∷ s) r a n = ground (arith, a.0)
shown-kind (array vs) r h = refl
shown-kind (object fs) r h = refl

-- A comma or a bracket is behind every element.
Stops-behind_commas :
    (ts : List Bytes) (c : ℕ) (r : Bytes) → numeric c ≡ false → Stops (behind_commas ts ++ (c ∷ r))
unfolding behind_commas
Stops-behind_commas [] c r h = h
Stops-behind_commas (t ∷ ts) c r h = refl

not_closed : (v : Canon) (r x : Bytes) → AllNumbers v → b']' ∷ r ≢ plain_value v ++ x
not_closed v r x h e = kind_known v (sym (shown-kind v x h) ∙ ap shown (sym e))

behind_comma :
    (t u a b x y : Bytes)
    → (b',' ∷ (t ++ a)) ++ x ≡ (b',' ∷ (u ++ b)) ++ y
    → t ++ (a ++ x) ≡ u ++ (b ++ y)
behind_comma t u a b x y e = sym (append_assoc t a x) ∙ (cc) ∙ append_assoc u b y

abbrev first_of : Bytes → ℕ
first_of [] = 0
first_of (c ∷ b) = c

pub other_literals : (r q : Bytes) → codes "true" ++ r ≢ codes "false" ++ q
other_literals r q e = let f = ap first_of e in omega arith

-- The text of a field, with what follows, gives its key, and the value's text with what follows.
field_text :
    (key key' t u x y : Bytes)
    → emit_field (key, t) ++ x ≡ emit_field (key', u) ++ y
    → (key ≡ key') × (t ++ x ≡ u ++ y)
unfolding emit_field
field_text key key' t u x y e =
    let f =
      sym (append_assoc (emit_string key) (b':' ∷ t) x)
      ∙ e
      ∙ append_assoc (emit_string key') (b':' ∷ u) y in
    let (a, b) = string_same key key' _ _ f in (a, cc)

field_opens : (key t x y : Bytes) → b'}' ∷ y ≢ emit_field (key, t) ++ x
unfolding emit_field emit_string
field_opens key t x y e = let f = ap first_of e in omega arith

comma_or : (c : ℕ) {x y : Bytes} → c ≢ b',' → c ∷ x ≢ b',' ∷ y
comma_or c n e = n (ap first_of e)

-- What follows it shows which value a text begins with.
abbrev pub Determined : Canon → Type 0
Determined v =
    (w : Canon) (r q : Bytes)
    → AllNumbers v
    → AllNumbers w
    → Stops r
    → Stops q
    → plain_value v ++ r ≡ plain_value w ++ q
    → (v ≡ w) × (r ≡ q)

abbrev pub AllDetermined : Canons → Type 0
AllDetermined no_values = Unit
AllDetermined (value_then v vs) = Determined v × AllDetermined vs

abbrev pub FieldsDetermined : Fields → Type 0
FieldsDetermined no_fields = Unit
FieldsDetermined (field_then key v fs) = Determined v × FieldsDetermined fs

next_value-same :
    (vs ws : Canons) (r q : Bytes)
    → AllDetermined vs
    → NumbersInside vs
    → NumbersInside ws
    → behind_commas (plain_values vs) ++ (b']' ∷ r) ≡ behind_commas (plain_values ws) ++ (b']' ∷ q)
    → (vs ≡ ws) × (r ≡ q)
unfolding plain_values behind_commas NumbersInside
next_value-same no_values no_values r q i h k e = (refl, cc)
next_value-same no_values (value_then w ws) r q i h k e = absurd (comma_or b']' (omega arith) e)
next_value-same (value_then v vs) no_values r q i h k e =
    absurd (comma_or b']' (omega arith) (sym e))
next_value-same (value_then v vs) (value_then w ws) r q i h k e =
    let f = behind_comma (plain_value v) (plain_value w) _ _ _ _ e in
    let (a, b) =
      i.0 w _ _ h.0 k.0 (Stops-behind_commas (plain_values vs) b']' r refl)
        (Stops-behind_commas (plain_values ws) b']' q refl) f in
    let (c, d) = next_value-same vs ws r q i.1 h.1 k.1 b in
    (ap (λ x. value_then x vs) a ∙ ap (value_then w) c, d)

pub first_value-same :
    (vs ws : Canons) (r q : Bytes)
    → AllDetermined vs
    → NumbersInside vs
    → NumbersInside ws
    → with_commas (plain_values vs) ++ (b']' ∷ r) ≡ with_commas (plain_values ws) ++ (b']' ∷ q)
    → (vs ≡ ws) × (r ≡ q)
unfolding plain_values with_commas NumbersInside
first_value-same no_values no_values r q i h k e = (refl, cc)
first_value-same no_values (value_then w ws) r q i h k e =
    absurd
      (not_closed w r _ k.0 (e ∙ append_assoc (plain_value w) (behind_commas (plain_values ws)) _))
first_value-same (value_then v vs) no_values r q i h k e = absurd (
    not_closed v q _ h.0 (sym e ∙ append_assoc (plain_value v) (behind_commas (plain_values vs)) _))
first_value-same (value_then v vs) (value_then w ws) r q i h k e =
    let f =
      sym (append_assoc (plain_value v) (behind_commas (plain_values vs)) (b']' ∷ r))
      ∙ e
      ∙ append_assoc (plain_value w) (behind_commas (plain_values ws)) (b']' ∷ q) in
    let (a, b) =
      i.0 w _ _ h.0 k.0 (Stops-behind_commas (plain_values vs) b']' r refl)
        (Stops-behind_commas (plain_values ws) b']' q refl) f in
    let (c, d) = next_value-same vs ws r q i.1 h.1 k.1 b in
    (ap (λ x. value_then x vs) a ∙ ap (value_then w) c, d)

next_field-same :
    (fs gs : Fields) (r q : Bytes)
    → FieldsDetermined fs
    → NumbersInFields fs
    → NumbersInFields gs
    → behind_commas (plain_fields fs) ++ (b'}' ∷ r) ≡ behind_commas (plain_fields gs) ++ (b'}' ∷ q)
    → (fs ≡ gs) × (r ≡ q)
unfolding plain_fields behind_commas NumbersInFields
next_field-same no_fields no_fields r q i h k e = (refl, cc)
next_field-same no_fields (field_then key w gs) r q i h k e = absurd (comma_or b'}' (omega arith) e)
next_field-same (field_then key v fs) no_fields r q i h k e =
    absurd (comma_or b'}' (omega arith) (sym e))
next_field-same (field_then key v fs) (field_then key' w gs) r q i h k e =
    let f =
      behind_comma (emit_field (key, plain_value v)) (emit_field (key', plain_value w)) _ _ _ _ e in
    let (j, g) = field_text key key' (plain_value v) (plain_value w) _ _ f in
    let (a, b) =
      i.0 w _ _ h.0 k.0 (Stops-behind_commas (plain_fields fs) b'}' r refl)
        (Stops-behind_commas (plain_fields gs) b'}' q refl) g in
    let (c, d) = next_field-same fs gs r q i.1 h.1 k.1 b in
    (ap (λ x. field_then x v fs) j ∙ ap (λ x. field_then key' x fs) a ∙ ap (field_then key' w) c, d)

pub first_field-same :
    (fs gs : Fields) (r q : Bytes)
    → FieldsDetermined fs
    → NumbersInFields fs
    → NumbersInFields gs
    → with_commas (plain_fields fs) ++ (b'}' ∷ r) ≡ with_commas (plain_fields gs) ++ (b'}' ∷ q)
    → (fs ≡ gs) × (r ≡ q)
unfolding plain_fields with_commas NumbersInFields
first_field-same no_fields no_fields r q i h k e = (refl, cc)
first_field-same no_fields (field_then key w gs) r q i h k e = absurd (
    field_opens key (plain_value w) _ r
      (e ∙ append_assoc (emit_field (key, plain_value w)) (behind_commas (plain_fields gs)) _))
first_field-same (field_then key v fs) no_fields r q i h k e = absurd (
    field_opens key (plain_value v) _ q
      (sym e ∙ append_assoc (emit_field (key, plain_value v)) (behind_commas (plain_fields fs)) _))
first_field-same (field_then key v fs) (field_then key' w gs) r q i h k e =
    let f =
      sym (
        append_assoc (emit_field (key, plain_value v)) (behind_commas (plain_fields fs)) (b'}' ∷ r))
      ∙ e
      ∙ append_assoc (emit_field (key', plain_value w)) (behind_commas (plain_fields gs))
          (b'}' ∷ q) in
    let (j, g) = field_text key key' (plain_value v) (plain_value w) _ _ f in
    let (a, b) =
      i.0 w _ _ h.0 k.0 (Stops-behind_commas (plain_fields fs) b'}' r refl)
        (Stops-behind_commas (plain_fields gs) b'}' q refl) g in
    let (c, d) = next_field-same fs gs r q i.1 h.1 k.1 b in
    (ap (λ x. field_then x v fs) j ∙ ap (λ x. field_then key' x fs) a ∙ ap (field_then key' w) c, d)
