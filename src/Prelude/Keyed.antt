-- ===== src/Prelude/Keyed.antt =====
-- Lists of what is filed under keys, in the order of Go's `sort.Strings`.
pub mod Order
use aii_plugin_sdk.Prelude.Tests.{if◌then◌else◌, ltb, ◌==◌}
use aii_plugin_sdk.Prelude.Bytes.{Bytes}
use mathlib.Core.Bool.{Bool, true, false}
use mathlib.Core.List.{List, [], ◌∷◌}

-- A string is less than another: `<` of Go, byte by byte.
unfoldable pub less : Bytes → Bytes → Bool
less a [] = false
less [] (d ∷ b) = true
less (c ∷ a) (d ∷ b) =
    let rest = less a b in if ltb c d then true else if c == d then rest else false

module _ {A : Type 0} where
  -- An entry is filed before the first whose key is not less.
  unfoldable pub insert_entry : Bytes × A → List (Bytes × A) → List (Bytes × A)
  unfolding less
  insert_entry e [] = e ∷ []
  insert_entry e (e' ∷ es) =
      let rest = insert_entry e es in if less e'.0 e.0 then e' ∷ rest else e ∷ e' ∷ es

  unfoldable pub sort_entries : List (Bytes × A) → List (Bytes × A)
  unfolding insert_entry
  sort_entries [] = []
  sort_entries (e ∷ es) = insert_entry e (sort_entries es)
