-- ===== src/Plugin/Marshal/Order.antt =====
-- The text of a value does not depend on the order in which Go ranges over its maps.
use mathlib.Core.Path.{refl}
use aii_plugin_sdk.Prelude.{ap, map, ℕ, ◌+◌, ◌∙◌, ◌∷◌, ◌≡◌, ◌≢◌}
use aii_plugin_sdk.Prelude.Bytes.{Bytes}
use aii_plugin_sdk.Plugin.Marshal.{
  Fields, Floats, Value, Values, between, checked_depth, entry, field_entries, field_then, joined,
  marshal_value, object_value, slice, value_text, value_texts, value_then,
}
use aii_plugin_sdk.Prelude.Keyed.{insert_entry, sort_entries}
use aii_plugin_sdk.Prelude.Keyed.Order.{insert_swap}

-- Values that differ in the order of their maps' fields, whose keys differ.
mutual
  pub data SameValue {F : Type 0} : Value F → Value F → Type 0 where
    same_value : {v : Value F} → SameValue v v
    same_object :
        {fs gs : Fields F} → SameFields fs gs → SameValue (object_value fs) (object_value gs)
    same_slice : {vs ws : Values F} → SameValues vs ws → SameValue (slice vs) (slice ws)

  pub data SameValues {F : Type 0} : Values F → Values F → Type 0 where
    same_values : {vs : Values F} → SameValues vs vs
    same_then :
        {v w : Value F} {vs ws : Values F}
        → SameValue v w
        → SameValues vs ws
        → SameValues (value_then v vs) (value_then w ws)

  pub data SameFields {F : Type 0} : Fields F → Fields F → Type 0 where
    same_fields : {fs : Fields F} → SameFields fs fs
    same_field :
        {key : Bytes} {v w : Value F} {fs gs : Fields F}
        → SameValue v w
        → SameFields fs gs
        → SameFields (field_then key v fs) (field_then key w gs)
    swapped :
        {key key' : Bytes} {v v' : Value F} {fs : Fields F}
        → key ≢ key'
        → SameFields
            (field_then key v (field_then key' v' fs))
            (field_then key' v' (field_then key v fs))
    both : {fs gs hs : Fields F} → SameFields fs gs → SameFields gs hs → SameFields fs hs

module _ {F : Type 0} (floats : Floats F) where
  mutual
    unfolding value_text sort_entries

    pub value_text-SameValue :
        {v w : Value F} (depth : ℕ)
        → SameValue v w
        → value_text floats depth v ≡ value_text floats depth w
    value_text-SameValue depth same_value = refl
    value_text-SameValue depth (same_object s) =
        ap (λ es. checked_depth depth (between b'{' b'}' (joined (map entry es))))
          (sort_entries-SameFields (depth + 1) s)
    value_text-SameValue depth (same_slice s) =
        ap (λ ts. checked_depth depth (between b'[' b']' (joined ts)))
          (value_texts-SameValues (depth + 1) s)

    value_texts-SameValues :
        {vs ws : Values F} (depth : ℕ)
        → SameValues vs ws
        → value_texts floats depth vs ≡ value_texts floats depth ws
    value_texts-SameValues depth same_values = refl
    value_texts-SameValues depth (same_then {v} {w} {vs} {ws} s t) =
        ap (λ x. x ∷ value_texts floats depth vs) (value_text-SameValue depth s)
        ∙ ap (◌∷◌ (value_text floats depth w)) (value_texts-SameValues depth t)

    sort_entries-SameFields :
        {fs gs : Fields F} (depth : ℕ)
        → SameFields fs gs
        → sort_entries (field_entries floats depth fs)
          ≡ sort_entries (field_entries floats depth gs)
    sort_entries-SameFields depth same_fields = refl
    sort_entries-SameFields depth (same_field {key} {v} {w} {fs} {gs} s t) =
        ap (λ x. insert_entry (key, x) (sort_entries (field_entries floats depth fs)))
          (value_text-SameValue depth s)
        ∙ ap (insert_entry (key, value_text floats depth w)) (sort_entries-SameFields depth t)
    sort_entries-SameFields depth (swapped {key} {key'} {v} {v'} {fs} n) =
        insert_swap (key, value_text floats depth v) (key', value_text floats depth v')
          (sort_entries (field_entries floats depth fs)) n
    sort_entries-SameFields depth (both s t) =
        sort_entries-SameFields depth s ∙ sort_entries-SameFields depth t

  -- What `marshalValue` gives for a value does not depend on the order in which Go ranges over its
  -- maps, at any depth: two values that differ only in the orders of their maps' fields, whose keys
  -- are different, have the same text or the same error.
  pub marshal_value-SameValue :
      {v w : Value F} → SameValue v w → marshal_value floats v ≡ marshal_value floats w
  unfolding marshal_value
  marshal_value-SameValue s = value_text-SameValue 0 s
