-- ===== src/Pkg/Canon/Values/Same.antt =====
-- Values up to the order of the fields of their objects.
use mathlib.Core.Path.{refl}
use aii_plugin_sdk.Prelude.{[], ap, map, sym, ◌++◌, ◌∙◌, ◌∷◌, ◌≡◌, ◌≢◌}
use aii_plugin_sdk.Prelude.Bytes.{Bytes}
use aii_plugin_sdk.Prelude.Keyed.{insert_entry, sort_entries}
use aii_plugin_sdk.Prelude.Keyed.Order.{insert_swap}
use aii_plugin_sdk.Pkg.Canon.Values.{
  Canon, Canons, Fields, array, emit_entries, emit_field, emit_value, emit_values, field_then,
  no_values, object, with_commas, value_then,
}

-- Values that differ in the order of their objects' fields; fields of one key stay in theirs.
mutual
  pub data Reordered : Canon → Canon → Type 0 where
    same_value : {v : Canon} → Reordered v v
    same_object : {fs gs : Fields} → ReorderedFields fs gs → Reordered (object fs) (object gs)
    same_array : {vs ws : Canons} → ReorderedValues vs ws → Reordered (array vs) (array ws)
    again : {u v w : Canon} → Reordered u v → Reordered v w → Reordered u w

  pub data ReorderedValues : Canons → Canons → Type 0 where
    same_end : ReorderedValues no_values no_values
    same_then :
        {v w : Canon} {vs ws : Canons}
        → Reordered v w
        → ReorderedValues vs ws
        → ReorderedValues (value_then v vs) (value_then w ws)

  pub data ReorderedFields : Fields → Fields → Type 0 where
    same_fields : {fs : Fields} → ReorderedFields fs fs
    same_field :
        {key : Bytes} {v w : Canon} {fs gs : Fields}
        → Reordered v w
        → ReorderedFields fs gs
        → ReorderedFields (field_then key v fs) (field_then key w gs)
    swapped :
        {key key' : Bytes} {v v' : Canon} {fs : Fields}
        → key ≢ key'
        → ReorderedFields
            (field_then key v (field_then key' v' fs))
            (field_then key' v' (field_then key v fs))
    both :
        {fs gs hs : Fields} → ReorderedFields fs gs → ReorderedFields gs hs → ReorderedFields fs hs

mutual
  pub flipped : {v w : Canon} → Reordered v w → Reordered w v
  flipped same_value = same_value
  flipped (same_object s) = same_object (flipped_fields s)
  flipped (same_array s) = same_array (flipped_values s)
  flipped (again s t) = again (flipped t) (flipped s)

  flipped_values : {vs ws : Canons} → ReorderedValues vs ws → ReorderedValues ws vs
  flipped_values same_end = same_end
  flipped_values (same_then s t) = same_then (flipped s) (flipped_values t)

  flipped_fields : {fs gs : Fields} → ReorderedFields fs gs → ReorderedFields gs fs
  flipped_fields same_fields = same_fields
  flipped_fields (same_field s t) = same_field (flipped s) (flipped_fields t)
  flipped_fields (swapped n) = swapped (λ e. n (sym e))
  flipped_fields (both s t) = both (flipped_fields t) (flipped_fields s)

mutual
  unfolding emit_value sort_entries

  pub emit_value-Reordered : {v w : Canon} → Reordered v w → emit_value v ≡ emit_value w
  emit_value-Reordered same_value = refl
  emit_value-Reordered (same_object s) =
      ap (λ es. b'{' ∷ (with_commas (map emit_field es) ++ (b'}' ∷ []))) (sorted-Reordered s)
  emit_value-Reordered (same_array s) =
      ap (λ ts. b'[' ∷ (with_commas ts ++ (b']' ∷ []))) (emit_values-Reordered s)
  emit_value-Reordered (again s t) = emit_value-Reordered s ∙ emit_value-Reordered t

  emit_values-Reordered : {vs ws : Canons} → ReorderedValues vs ws → emit_values vs ≡ emit_values ws
  emit_values-Reordered same_end = refl
  emit_values-Reordered (same_then {v} {w} {vs} {ws} s t) =
      ap (λ x. x ∷ emit_values vs) (emit_value-Reordered s)
      ∙ ap (◌∷◌ (emit_value w)) (emit_values-Reordered t)

  sorted-Reordered :
      {fs gs : Fields}
      → ReorderedFields fs gs
      → sort_entries (emit_entries fs) ≡ sort_entries (emit_entries gs)
  sorted-Reordered same_fields = refl
  sorted-Reordered (same_field {key} {v} {w} {fs} {gs} s t) =
      ap (λ x. insert_entry (key, x) (sort_entries (emit_entries fs))) (emit_value-Reordered s)
      ∙ ap (insert_entry (key, emit_value w)) (sorted-Reordered t)
  sorted-Reordered (swapped {key} {key'} {v} {v'} {fs} n) =
      insert_swap (key, emit_value v) (key', emit_value v') (sort_entries (emit_entries fs)) n
  sorted-Reordered (both s t) = sorted-Reordered s ∙ sorted-Reordered t
