-- ===== src/Pkg/Canon/Parse/Document.antt =====
-- `CanonicalizeV1` as a whole: which documents have one canonical text, and that it is a fixed point.
use mathlib.Core.Path.{refl}
use aii_plugin_sdk.Prelude.{
  Bool, Bool-cases, List, Result, [], any, ap, arith, false, inl, inr, length, ok, sym, true, ◌*◌,
  ◌+◌, ◌||◌, ◌↔◌, ◌∙◌, ◌∷◌, ◌≡◌, ◌≤◌,
}
use aii_plugin_sdk.Prelude.Bytes.{Bytes, equal, equal_iff}
use aii_plugin_sdk.Prelude.Results.{>>=-eq-ok, guard-ok}
use aii_plugin_sdk.Json.Text.Utf8.{utf8_valid}
use aii_plugin_sdk.Pkg.Canon.Escapes.{validate_unicode_escapes}
use aii_plugin_sdk.Pkg.Canon.Escapes.Emitted.{validate_unicode_escapes-emit_value}
use aii_plugin_sdk.Pkg.Canon.Values.{Canon, Canons, Fields, emit_value, field_then, no_fields}
use aii_plugin_sdk.Pkg.Canon.Values.Same.{
  Reordered, ReorderedFields, ReorderedValues, again, both, emit_value-Reordered, same_array,
  same_end, same_field, same_fields, same_object, same_then, same_value, swapped,
}
use aii_plugin_sdk.Pkg.Canon.Values.Reorder.{Reordered-sorted, sorted}
use aii_plugin_sdk.Pkg.Canon.Values.Sorted.{emit_value_iff}
use aii_plugin_sdk.Pkg.Canon.Parse.{
  CanonError, Decoder, canonicalize_v1, document_end, end_of_input, escapes_checked, not_utf8,
  parse_value,
}
use aii_plugin_sdk.Pkg.Canon.Parse.Accepted.{
  IsAccepted, IsAccepted-AllNumbers, AcceptedFields, AcceptedValues, parse_value-IsAccepted,
}
use aii_plugin_sdk.Pkg.Canon.Parse.Reads.{Reads, parse_value-Reads, tokens}

-- The order in which keys were seen does not matter.
SameSeen : List Bytes → List Bytes → Type 0
SameSeen ss ts = (key : Bytes) → any (equal key) ss ≡ any (equal key) ts

SameSeen-cons : (key : Bytes) (ss ts : List Bytes) → SameSeen ss ts → SameSeen (key ∷ ss) (key ∷ ts)
unfolding SameSeen
SameSeen-cons key ss ts h x = ap (λ b. equal x key || b) (h x)

SameSeen-swap : (a b : Bytes) (ss : List Bytes) → SameSeen (a ∷ b ∷ ss) (b ∷ a ∷ ss)
unfolding SameSeen
SameSeen-swap a b ss x = or_swap (equal x a) (equal x b) (any (equal x) ss)
  where
    or_swap : (p q r : Bool) → (p || (q || r)) ≡ (q || (p || r))
    or_swap p q r = ground arith

AcceptedFields-SameSeen :
    (ss ts : List Bytes) (fs : Fields)
    → SameSeen ss ts
    → AcceptedFields ss fs
    → AcceptedFields ts fs
unfolding IsAccepted SameSeen
AcceptedFields-SameSeen ss ts no_fields h k = tt
AcceptedFields-SameSeen ss ts (field_then key v fs) h (n, p, k) = (
  sym (h key) ∙ n,
  p,
  AcceptedFields-SameSeen (key ∷ ss) (key ∷ ts) fs (SameSeen-cons key ss ts h) k,
)

unseen :
    (a b : Bytes) (ss : List Bytes)
    → any (equal a) (b ∷ ss) ≡ false
    → (equal a b ≡ false) × (any (equal a) ss ≡ false)
unseen a b ss h = both_false (equal a b) (any (equal a) ss) h
  where
    both_false : (p q : Bool) → (p || q) ≡ false → (p ≡ false) × (q ≡ false)
    both_false p q e = ground arith

seen_neither :
    (a b : Bytes) (ss : List Bytes)
    → equal a b ≡ false
    → any (equal a) ss ≡ false
    → any (equal a) (b ∷ ss) ≡ false
seen_neither a b ss h k = rw h k

equal_flip : (a b : Bytes) → equal a b ≡ false → equal b a ≡ false
equal_flip a b h = elim (Bool-cases (equal b a)) [
  | inl e ↦ absurd (let f = (equal_iff a b).1 (sym ((equal_iff b a).0 e)) in cc)
  | inr e ↦ e
]

mutual
  unfolding IsAccepted

  IsAccepted-Reordered : {v w : Canon} → Reordered v w → IsAccepted v → IsAccepted w
  IsAccepted-Reordered same_value h = h
  IsAccepted-Reordered (same_object s) h = AcceptedFields-Reordered [] s h
  IsAccepted-Reordered (same_array s) h = AcceptedValues-Reordered s h
  IsAccepted-Reordered (again s t) h = IsAccepted-Reordered t (IsAccepted-Reordered s h)

  AcceptedValues-Reordered :
      {vs ws : Canons} → ReorderedValues vs ws → AcceptedValues vs → AcceptedValues ws
  AcceptedValues-Reordered same_end h = tt
  AcceptedValues-Reordered (same_then s t) h =
      (IsAccepted-Reordered s h.0, AcceptedValues-Reordered t h.1)

  AcceptedFields-Reordered :
      {fs gs : Fields} (ss : List Bytes)
      → ReorderedFields fs gs
      → AcceptedFields ss fs
      → AcceptedFields ss gs
  AcceptedFields-Reordered ss same_fields h = h
  AcceptedFields-Reordered ss (same_field {key} s t) (n, p, h) =
      (n, IsAccepted-Reordered s p, AcceptedFields-Reordered (key ∷ ss) t h)
  AcceptedFields-Reordered ss (swapped {key} {key'} {v} {v'} {fs} a) (n, p, r) =
      let (n', p', h) = r in
      let (d, u) = unseen key' key ss n' in
      (
        u,
        p',
        (
          seen_neither key key' ss (equal_flip key' key d) n,
          p,
          AcceptedFields-SameSeen (key' ∷ key ∷ ss) (key ∷ key' ∷ ss) fs (SameSeen-swap key' key ss)
              h,
        ),
      )
  AcceptedFields-Reordered ss (both s t) h =
      AcceptedFields-Reordered ss t (AcceptedFields-Reordered ss s h)

module _ {D : Type 0} (decoder : Decoder D) where
  -- A document that the decoder reads as the tokens of a value, of at least one byte each.
  pub record ReadsAs (input : Bytes) (v : Canon) : Type 0 where
    pub valid_text : utf8_valid input ≡ true
    pub valid_escapes : validate_unicode_escapes input ≡ ok tt
    pub behind : D
    pub reads : Reads decoder (decoder.new_decoder input) (tokens v) behind
    pub ended : (decoder.token behind).0 ≡ end_of_input
    pub fits : length (tokens v) ≤ length input

  pub canonicalize_v1-ReadsAs :
      (input : Bytes) (v : Canon)
      → IsAccepted v
      → ReadsAs input v
      → canonicalize_v1 decoder input ≡ ok (emit_value v)
  unfolding canonicalize_v1 document_end escapes_checked
  canonicalize_v1-ReadsAs input v p r =
      let l = r.fits in
      rw
        (
          r.valid_text,
          r.valid_escapes,
          parse_value-Reads decoder (2 * length input + 2) v (decoder.new_decoder input) r.behind p
              r.reads (omega arith),
          r.ended,
        )
        refl

  -- Take two documents that the decoder reads as values with canonical numbers, distinct keys in
  -- every object and no NUL in a string that is a value. They have the same canonical text exactly
  -- where the values are the same up to the order of the fields of their objects.
  pub canonicalize_v1_iff :
      (s t : Bytes) (v w : Canon)
      → IsAccepted v
      → IsAccepted w
      → ReadsAs s v
      → ReadsAs t w
      → (canonicalize_v1 decoder s ≡ canonicalize_v1 decoder t) ↔ Reordered v w
  canonicalize_v1_iff s t v w p q r u =
      let e = canonicalize_v1-ReadsAs s v p r in
      let f = canonicalize_v1-ReadsAs t w q u in
      let (g, h) = emit_value_iff v w (IsAccepted-AllNumbers v p) (IsAccepted-AllNumbers w q) in
      ((λ x. g (ok_same (sym e ∙ x ∙ f))), (λ x. e ∙ ap ok (h x) ∙ sym f))
    where
      ok_same : {a b : Bytes} → Path (Result CanonError Bytes) (ok a) (ok b) → a ≡ b
      ok_same x = cc

  -- What `CanonicalizeV1` returns is the text of a value whose numbers are all canonical, in whose
  -- objects, at any depth, no key stands twice, and in which no string that is a value has a NUL. A
  -- key may have one.
  pub canonicalize_v1-IsAccepted :
      (input out : Bytes)
      → canonicalize_v1 decoder input ≡ ok out
      → (v : Canon) × IsAccepted v × (out ≡ emit_value v)
  unfolding canonicalize_v1
  canonicalize_v1-IsAccepted input out h =
      let (_, h1) = guard-ok (utf8_valid input) not_utf8 _ h in
      let (x, a, h2) = >>=-eq-ok (escapes_checked (validate_unicode_escapes input)) _ h1 in
      let (p, b, h3) =
        >>=-eq-ok (parse_value decoder (2 * length input + 2) (decoder.new_decoder input)) _ h2 in
      let (y, c, h4) = >>=-eq-ok (document_end (decoder.token p.1).0) _ h3 in
      (p.0, parse_value-IsAccepted decoder _ _ p.1 p.0 b, cc)

  -- The canonical text of a value with canonical numbers, distinct keys in every object and no NUL
  -- in a string that is a value is its own canonical text, where it is valid UTF-8 and has
  -- no more tokens than bytes, and the decoder reads it as these tokens and then the end: each
  -- object's fields by their keys.
  pub canonicalize_v1-emit_value :
      (v : Canon) (behind : D)
      → IsAccepted v
      → utf8_valid (emit_value v) ≡ true
      → Reads decoder (decoder.new_decoder (emit_value v)) (tokens (sorted v)) behind
      → (decoder.token behind).0 ≡ end_of_input
      → length (tokens (sorted v)) ≤ length (emit_value v)
      → canonicalize_v1 decoder (emit_value v) ≡ ok (emit_value v)
  canonicalize_v1-emit_value v behind p u r e l =
      canonicalize_v1-ReadsAs (emit_value v) (sorted v)
        (IsAccepted-Reordered (Reordered-sorted v) p)
        (record {
          valid_text = u;
          valid_escapes = validate_unicode_escapes-emit_value v (IsAccepted-AllNumbers v p);
          behind = behind;
          reads = r;
          ended = e;
          fits = l;
        })
      ∙ ap ok (sym (emit_value-Reordered (Reordered-sorted v)))
