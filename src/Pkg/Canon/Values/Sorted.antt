-- ===== src/Pkg/Canon/Values/Sorted.antt =====
-- The text of a value is that of the value with its fields sorted, which no other value has.
use mathlib.Core.Path.{refl}
use aii_plugin_sdk.Prelude.{
  Bool-cases, List, [], ap, if_rule, inl, inr, map, subst, sym, ◌++◌, ◌↔◌, ◌∙◌, ◌∷◌, ◌≡◌,
}
use aii_plugin_sdk.Prelude.Bytes.{Bytes}
use aii_plugin_sdk.Prelude.Keyed.{insert_entry, less, sort_entries}
use aii_plugin_sdk.Pkg.Canon.Values.{
  Canon, Canons, Fields, array, boolean, canon_number, emit_entries, emit_field, emit_value,
  emit_values, field_then, no_fields, no_values, null, object, with_commas, text, value_then,
}
use aii_plugin_sdk.Pkg.Canon.Values.Plain.{
  AllNumbers, NumbersInFields, NumbersInside, plain_fields, plain_value, plain_values,
}
use aii_plugin_sdk.Pkg.Canon.Values.Unique.{plain_value_unique}
use aii_plugin_sdk.Pkg.Canon.Values.Same.{Reordered, again, emit_value-Reordered, flipped}
use aii_plugin_sdk.Pkg.Canon.Values.Reorder.{
  Reordered-sorted, sorted, sorted_entries, sorted_values, to_fields,
}

-- Sorting looks at the keys alone.
abbrev on_value : {A B : Type 0} → (A → B) → Bytes × A → Bytes × B
on_value f e = (e.0, f e.1)

insert_entry-map :
    {A B : Type 0} (f : A → B) (e : Bytes × A) (es : List (Bytes × A))
    → insert_entry (on_value f e) (map (on_value f) es) ≡ map (on_value f) (insert_entry e es)
unfolding insert_entry
insert_entry-map f e [] = refl
insert_entry-map f e (e' ∷ es) = elim (Bool-cases (less e'.0 e.0)) [
  | inl l ↦ rw l (ap (◌∷◌ (on_value f e')) (insert_entry-map f e es))
  | inr l ↦ rw l refl
]

sort_entries-map :
    {A B : Type 0} (f : A → B) (es : List (Bytes × A))
    → sort_entries (map (on_value f) es) ≡ map (on_value f) (sort_entries es)
unfolding sort_entries
sort_entries-map f [] = refl
sort_entries-map f (e ∷ es) =
    ap (insert_entry (on_value f e)) (sort_entries-map f es)
    ∙ insert_entry-map f e (sort_entries es)

plain_fields-to_fields :
    (es : List (Bytes × Canon))
    → plain_fields (to_fields es) ≡ map emit_field (map (on_value plain_value) es)
unfolding plain_fields to_fields
plain_fields-to_fields [] = refl
plain_fields-to_fields ((key, v) ∷ es) =
    ap (◌∷◌ (emit_field (key, plain_value v))) (plain_fields-to_fields es)

mutual
  unfolding emit_value plain_value sorted

  pub emit_value-sorted : (v : Canon) → emit_value v ≡ plain_value (sorted v)
  emit_value-sorted null = refl
  emit_value-sorted (boolean b) = refl
  emit_value-sorted (text s) = refl
  emit_value-sorted (canon_number s) = refl
  emit_value-sorted (array vs) =
      ap (λ ts. b'[' ∷ (with_commas ts ++ (b']' ∷ []))) (emit_values-sorted vs)
  emit_value-sorted (object fs) =
      ap (λ ts. b'{' ∷ (with_commas ts ++ (b'}' ∷ [])))
        (ap (λ es. map emit_field (sort_entries es)) (emit_entries-sorted fs)
          ∙ ap (map emit_field) (sort_entries-map plain_value (sorted_entries fs))
          ∙ sym (plain_fields-to_fields (sort_entries (sorted_entries fs))))

  emit_values-sorted : (vs : Canons) → emit_values vs ≡ plain_values (sorted_values vs)
  emit_values-sorted no_values = refl
  emit_values-sorted (value_then v vs) =
      ap (λ x. x ∷ emit_values vs) (emit_value-sorted v)
      ∙ ap (◌∷◌ (plain_value (sorted v))) (emit_values-sorted vs)

  emit_entries-sorted :
      (fs : Fields) → emit_entries fs ≡ map (on_value plain_value) (sorted_entries fs)
  emit_entries-sorted no_fields = refl
  emit_entries-sorted (field_then key v fs) =
      ap (λ x. (key, x) ∷ emit_entries fs) (emit_value-sorted v)
      ∙ ap (◌∷◌ (key, plain_value (sorted v))) (emit_entries-sorted fs)

abbrev NumbersOf : List (Bytes × Canon) → Type 0
NumbersOf [] = Unit
NumbersOf (e ∷ es) = AllNumbers e.1 × NumbersOf es

insert_entry-NumbersOf :
    (e : Bytes × Canon) (es : List (Bytes × Canon))
    → AllNumbers e.1
    → NumbersOf es
    → NumbersOf (insert_entry e es)
unfolding insert_entry
insert_entry-NumbersOf e [] h k = (h, tt)
insert_entry-NumbersOf e (e' ∷ es) h k =
    if_rule NumbersOf (less e'.0 e.0) (k.0, insert_entry-NumbersOf e es h k.1) (h, k)

sort_entries-NumbersOf : (es : List (Bytes × Canon)) → NumbersOf es → NumbersOf (sort_entries es)
unfolding sort_entries
sort_entries-NumbersOf [] h = tt
sort_entries-NumbersOf (e ∷ es) h =
    insert_entry-NumbersOf e (sort_entries es) h.0 (sort_entries-NumbersOf es h.1)

NumbersInFields-to_fields :
    (es : List (Bytes × Canon)) → NumbersOf es → NumbersInFields (to_fields es)
unfolding NumbersInFields to_fields
NumbersInFields-to_fields [] h = tt
NumbersInFields-to_fields ((key, v) ∷ es) h = (h.0, NumbersInFields-to_fields es h.1)

mutual
  unfolding AllNumbers sorted

  pub AllNumbers-sorted : (v : Canon) → AllNumbers v → AllNumbers (sorted v)
  AllNumbers-sorted null h = tt
  AllNumbers-sorted (boolean b) h = tt
  AllNumbers-sorted (text s) h = tt
  AllNumbers-sorted (canon_number s) h = h
  AllNumbers-sorted (array vs) h = NumbersInside-sorted_values vs h
  AllNumbers-sorted (object fs) h =
      NumbersInFields-to_fields (sort_entries (sorted_entries fs))
        (sort_entries-NumbersOf (sorted_entries fs) (NumbersOf-sorted_entries fs h))

  NumbersInside-sorted_values : (vs : Canons) → NumbersInside vs → NumbersInside (sorted_values vs)
  NumbersInside-sorted_values no_values h = tt
  NumbersInside-sorted_values (value_then v vs) h =
      (AllNumbers-sorted v h.0, NumbersInside-sorted_values vs h.1)

  NumbersOf-sorted_entries : (fs : Fields) → NumbersInFields fs → NumbersOf (sorted_entries fs)
  NumbersOf-sorted_entries no_fields h = tt
  NumbersOf-sorted_entries (field_then key v fs) h =
      (AllNumbers-sorted v h.0, NumbersOf-sorted_entries fs h.1)

-- Two values whose numbers are canonical have the same canonical text exactly where one is the other
-- with the fields of its objects, at any depth, in another order (fields of one key staying in theirs).
pub emit_value_iff :
    (v w : Canon) → AllNumbers v → AllNumbers w → (emit_value v ≡ emit_value w) ↔ Reordered v w
emit_value_iff v w h k = (
  (λ e.
      let f =
        plain_value_unique (sorted v) (sorted w) (AllNumbers-sorted v h) (AllNumbers-sorted w k)
          (sym (emit_value-sorted v) ∙ e ∙ emit_value-sorted w) in
      again (Reordered-sorted v)
        (subst (λ x. Reordered x w) (sym f) (flipped (Reordered-sorted w)))),
  emit_value-Reordered,
)
