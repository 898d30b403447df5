-- ===== src/Pkg/Canon/Values/Reorder.antt =====
-- Sorting the fields of a value's objects is a reordering.
use aii_plugin_sdk.Prelude.Keyed.Order.{less_self}
use aii_plugin_sdk.Prelude.{List, [], ap, if_cases, sym, true, ◌∙◌, ◌∷◌, ◌≡◌, ◌≢◌}
use aii_plugin_sdk.Prelude.Bytes.{Bytes}
use aii_plugin_sdk.Prelude.Keyed.{insert_entry, less, sort_entries}
use aii_plugin_sdk.Pkg.Canon.Values.{
  Canon, Canons, Fields, array, boolean, canon_number, field_then, no_fields, no_values, null,
  object, text, value_then,
}
use aii_plugin_sdk.Pkg.Canon.Values.Same.{
  Reordered, ReorderedFields, ReorderedValues, both, same_array, same_end, same_field, same_fields,
  same_object, same_then, same_value, swapped,
}

unfoldable pub to_fields : List (Bytes × Canon) → Fields
to_fields [] = no_fields
to_fields ((key, v) ∷ es) = field_then key v (to_fields es)

unfoldable mutual
  unfolding sort_entries to_fields

  pub sorted : Canon → Canon
  sorted null = null
  sorted (boolean b) = boolean b
  sorted (text s) = text s
  sorted (canon_number s) = canon_number s
  sorted (array vs) = array (sorted_values vs)
  sorted (object fs) = object (to_fields (sort_entries (sorted_entries fs)))

  pub sorted_values : Canons → Canons
  sorted_values no_values = no_values
  sorted_values (value_then v vs) = value_then (sorted v) (sorted_values vs)

  pub sorted_entries : Fields → List (Bytes × Canon)
  sorted_entries no_fields = []
  sorted_entries (field_then key v fs) = (key, sorted v) ∷ sorted_entries fs

-- Sorting is a reordering.
insert_entry-ReorderedFields :
    (key : Bytes) (v : Canon) (es : List (Bytes × Canon))
    → ReorderedFields (field_then key v (to_fields es)) (to_fields (insert_entry (key, v) es))
unfolding insert_entry to_fields
insert_entry-ReorderedFields key v [] = same_fields
insert_entry-ReorderedFields key v ((key', v') ∷ es) =
    if_cases
      (λ r. ReorderedFields (field_then key v (field_then key' v' (to_fields es))) (to_fields r))
      (less key' key)
      (λ l.
        both (swapped (λ e. less_other key key' l e))
          (same_field same_value (insert_entry-ReorderedFields key v es)))
      (λ _. same_fields)
  where
    less_other : (a b : Bytes) → less b a ≡ true → a ≢ b
    less_other a b l e =
        let n = less_self b in let m : less b b ≡ true = ap (less b) (sym e) ∙ l in cc

sort_entries-ReorderedFields :
    (es : List (Bytes × Canon)) → ReorderedFields (to_fields es) (to_fields (sort_entries es))
unfolding sort_entries to_fields
sort_entries-ReorderedFields [] = same_fields
sort_entries-ReorderedFields ((key, v) ∷ es) =
    both (same_field same_value (sort_entries-ReorderedFields es))
      (insert_entry-ReorderedFields key v (sort_entries es))

mutual
  unfolding sorted to_fields

  pub Reordered-sorted : (v : Canon) → Reordered v (sorted v)
  Reordered-sorted null = same_value
  Reordered-sorted (boolean b) = same_value
  Reordered-sorted (text s) = same_value
  Reordered-sorted (canon_number s) = same_value
  Reordered-sorted (array vs) = same_array (ReorderedValues-sorted_values vs)
  Reordered-sorted (object fs) =
      same_object (
        both (ReorderedFields-sorted_entries fs) (sort_entries-ReorderedFields (sorted_entries fs)))

  ReorderedValues-sorted_values : (vs : Canons) → ReorderedValues vs (sorted_values vs)
  ReorderedValues-sorted_values no_values = same_end
  ReorderedValues-sorted_values (value_then v vs) =
      same_then (Reordered-sorted v) (ReorderedValues-sorted_values vs)

  ReorderedFields-sorted_entries :
      (fs : Fields) → ReorderedFields fs (to_fields (sorted_entries fs))
  ReorderedFields-sorted_entries no_fields = same_fields
  ReorderedFields-sorted_entries (field_then key v fs) =
      same_field (Reordered-sorted v) (ReorderedFields-sorted_entries fs)
