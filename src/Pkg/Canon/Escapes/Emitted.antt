-- ===== src/Pkg/Canon/Escapes/Emitted.antt =====
-- The escapes of a canonical text are valid.
use mathlib.Core.Path.{refl}
use aii_plugin_sdk.Prelude.{
  List, [], ap, append-nil, append_assoc, arith, false, if_cases, ltb, ok, some, sym, true, ℕ, ◌%◌,
  ◌*◌, ◌++◌, ◌+◌, ◌/◌, ◌<◌, ◌==◌, ◌∙◌, ◌∷◌, ◌≡◌,
}
use aii_plugin_sdk.Prelude.Bytes.{Bytes}
use aii_plugin_sdk.Json.Print.{hex_char}
use aii_plugin_sdk.Pkg.Canon.Escapes.{
  escapes_loop, hex_nibble, parse_u16, u16_value, escape_length, validate_unicode_escapes,
}
use aii_plugin_sdk.Pkg.Canon.Values.{
  Canon, Canons, Fields, array, behind_commas, boolean, canon_number, emit_field, emit_rune,
  emit_runes, emit_string, emit_value, field_then, no_fields, no_values, null, object, with_commas,
  text, value_then,
}
use aii_plugin_sdk.Pkg.Canon.Values.Plain.{
  AllNumbers, AllNumeric, NumbersInFields, NumbersInside, number_bytes, plain_fields, plain_value,
  plain_values,
}
use aii_plugin_sdk.Pkg.Canon.Values.Reorder.{sorted}
use aii_plugin_sdk.Pkg.Canon.Values.Sorted.{AllNumbers-sorted, emit_value-sorted}

hex_nibble-hex_char : (n : ℕ) → n < 16 → hex_nibble (hex_char n) ≡ some n
unfolding hex_nibble hex_char
hex_nibble-hex_char n h = ground arith

control_u16 :
    (c : ℕ) (x : Bytes)
    → c < 0x20
    → parse_u16 (b'0' ∷ b'0' ∷ hex_char (c / 16) ∷ hex_char (c % 16) ∷ x) ≡ some c
unfolding parse_u16 u16_value hex_nibble
control_u16 c x h =
    let e : ((0 * 16 + 0) * 16 + c / 16) * 16 + c % 16 ≡ c = omega arith in
    rw (hex_nibble-hex_char (c / 16) (omega arith), hex_nibble-hex_char (c % 16) (omega arith), e)
      refl

escape_length-control : (c : ℕ) (x : Bytes) → c < 0x20 → escape_length (some c) x ≡ ok 4
unfolding escape_length
escape_length-control c x h = ground arith

escapes_loop-emit_rune :
    (c : ℕ) (x : Bytes) → escapes_loop 0 true false (emit_rune c ++ x) ≡ escapes_loop 0 true false x
unfolding emit_rune escapes_loop
escapes_loop-emit_rune c x =
    let P = λ (t : Bytes). escapes_loop 0 true false (t ++ x) ≡ escapes_loop 0 true false x in
    if_cases P (c == b'"') (λ _. refl)
      (λ q.
        if_cases P (c == b'\\') (λ _. refl)
          (λ s.
            if_cases P (c == 8) (λ _. refl)
              (λ _.
                if_cases P (c == 12) (λ _. refl)
                  (λ _.
                    if_cases P (c == b'\n') (λ _. refl)
                      (λ _.
                        if_cases P (c == b'\r') (λ _. refl)
                          (λ _.
                            if_cases P (c == b'\t') (λ _. refl)
                              (λ _.
                                if_cases P (ltb c 0x20)
                                  (λ h.
                                    rw
                                      (
                                        control_u16 c x (ground arith),
                                        escape_length-control c _ (ground arith),
                                      )
                                      refl)
                                  (λ _. rw (s, q) refl))))))))

escapes_loop-emit_runes :
    (s r : Bytes)
    → escapes_loop 0 true false (emit_runes s ++ (b'"' ∷ r)) ≡ escapes_loop 0 false false r
unfolding emit_runes escapes_loop
escapes_loop-emit_runes [] r = refl
escapes_loop-emit_runes (c ∷ s) r =
    ap (escapes_loop 0 true false) (append_assoc (emit_rune c) (emit_runes s) (b'"' ∷ r))
    ∙ escapes_loop-emit_rune c _
    ∙ escapes_loop-emit_runes s r

-- Text that leaves the scanner outside of strings.
Neutral : Bytes → Type 0
Neutral t = (r : Bytes) → escapes_loop 0 false false (t ++ r) ≡ escapes_loop 0 false false r

emit_string-Neutral : (s : Bytes) → Neutral (emit_string s)
unfolding Neutral emit_string escapes_loop
emit_string-Neutral s r =
    ap (escapes_loop 0 true false) (append_assoc (emit_runes s) (b'"' ∷ []) r)
    ∙ escapes_loop-emit_runes s r

Neutral-append : (a b : Bytes) → Neutral a → Neutral b → Neutral (a ++ b)
unfolding Neutral
Neutral-append a b h k r = ap (escapes_loop 0 false false) (append_assoc a b r) ∙ h (b ++ r) ∙ k r

Neutral-cons : (c : ℕ) (b : Bytes) → (c == b'"') ≡ false → Neutral b → Neutral (c ∷ b)
unfolding Neutral escapes_loop
Neutral-cons c b n k r = ap (λ t. escapes_loop 0 t false (b ++ r)) n ∙ k r

none_left : Neutral []
unfolding Neutral
none_left r = refl

AllNumeric-Neutral : (b : Bytes) → AllNumeric b → Neutral b
unfolding Neutral
AllNumeric-Neutral [] h = λ r. refl
AllNumeric-Neutral (c ∷ b) h = Neutral-cons c b (ground (arith, h.0)) (AllNumeric-Neutral b h.1)

emit_field-Neutral : (key t : Bytes) → Neutral t → Neutral (emit_field (key, t))
unfolding emit_field
emit_field-Neutral key t h =
    Neutral-append (emit_string key) (b':' ∷ t) (emit_string-Neutral key)
      (Neutral-cons b':' t refl h)

AllNeutral : List Bytes → Type 0
AllNeutral [] = Unit
AllNeutral (t ∷ ts) = Neutral t × AllNeutral ts

behind_commas-Neutral : (ts : List Bytes) → AllNeutral ts → Neutral (behind_commas ts)
unfolding behind_commas AllNeutral Neutral
behind_commas-Neutral [] h = λ r. refl
behind_commas-Neutral (t ∷ ts) h =
    Neutral-cons b',' _ refl
      (Neutral-append t (behind_commas ts) h.0 (behind_commas-Neutral ts h.1))

enclosed-Neutral :
    (c d : ℕ) (ts : List Bytes)
    → (c == b'"') ≡ false
    → (d == b'"') ≡ false
    → AllNeutral ts
    → Neutral (c ∷ (with_commas ts ++ (d ∷ [])))
unfolding with_commas AllNeutral
enclosed-Neutral c d [] m n h = Neutral-cons c (d ∷ []) m (Neutral-cons d [] n none_left)
enclosed-Neutral c d (t ∷ ts) m n h = Neutral-cons c _ m (
    Neutral-append (t ++ behind_commas ts) (d ∷ [])
      (Neutral-append t (behind_commas ts) h.0 (behind_commas-Neutral ts h.1))
      (Neutral-cons d [] n none_left))

mutual
  unfolding plain_value AllNumbers AllNeutral Neutral escapes_loop

  plain_value-Neutral : (v : Canon) → AllNumbers v → Neutral (plain_value v)
  plain_value-Neutral null h = λ r. refl
  plain_value-Neutral (boolean true) h = λ r. refl
  plain_value-Neutral (boolean false) h = λ r. refl
  plain_value-Neutral (text s) h = emit_string-Neutral s
  plain_value-Neutral (canon_number s) h = AllNumeric-Neutral s (number_bytes s h).0
  plain_value-Neutral (array vs) h =
      enclosed-Neutral b'[' b']' (plain_values vs) refl refl (values_neutral vs h)
  plain_value-Neutral (object fs) h =
      enclosed-Neutral b'{' b'}' (plain_fields fs) refl refl (fields_neutral fs h)

  values_neutral : (vs : Canons) → NumbersInside vs → AllNeutral (plain_values vs)
  values_neutral no_values h = tt
  values_neutral (value_then v vs) h = (plain_value-Neutral v h.0, values_neutral vs h.1)

  fields_neutral : (fs : Fields) → NumbersInFields fs → AllNeutral (plain_fields fs)
  fields_neutral no_fields h = tt
  fields_neutral (field_then key v fs) h =
      (emit_field-Neutral key (plain_value v) (plain_value-Neutral v h.0), fields_neutral fs h.1)

-- The text of a value whose numbers are canonical passes `validateUnicodeEscapes`.
pub validate_unicode_escapes-emit_value :
    (v : Canon) → AllNumbers v → validate_unicode_escapes (emit_value v) ≡ ok tt
unfolding validate_unicode_escapes Neutral escapes_loop
validate_unicode_escapes-emit_value v h =
    let n = plain_value-Neutral (sorted v) (AllNumbers-sorted v h) [] in
    ap (escapes_loop 0 false false)
      (emit_value-sorted v ∙ sym (append-nil (plain_value (sorted v))))
    ∙ n
