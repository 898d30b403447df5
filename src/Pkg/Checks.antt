-- ===== src/Pkg/Checks.antt =====
-- pkg/aiiospkg/validation.go: the checks that a package carries, and the JSON values that they are
-- written with, as `decodeStrict` gives them: an object is the list of its fields, and a number is
-- a float.
pub mod Pointers
pub mod Refs
pub mod Texts
mod Tests
pub mod Package
use aii_plugin_sdk.Prelude.{Bool, Option, if◌then◌else◌, none, some, suc, zero, ℕ}
use aii_plugin_sdk.Prelude.Bytes.{Bytes, equal}

mutual
  pub data Doc (F : Type 0) : Type 0 where
    null : Doc F
    boolean : Bool → Doc F
    number : F → Doc F
    text : Bytes → Doc F
    list : Docs F → Doc F
    object : Fields F → Doc F

  pub data Docs (F : Type 0) : Type 0 where
    no_docs : Docs F
    doc_then : Doc F → Docs F → Docs F

  pub data Fields (F : Type 0) : Type 0 where
    no_fields : Fields F
    field_then : Bytes → Doc F → Fields F → Fields F

module _ {F : Type 0} where
  -- `m[key]`.
  unfoldable pub lookup : Bytes → Fields F → Option (Doc F)
  lookup key no_fields = none
  lookup key (field_then k v fs) = let rest = lookup key fs in if equal k key then some v else rest

  -- `t[i]`, in range.
  unfoldable pub doc_at : ℕ → Docs F → Option (Doc F)
  doc_at i no_docs = none
  doc_at zero (doc_then v vs) = some v
  doc_at (suc i) (doc_then v vs) = doc_at i vs

  unfoldable pub doc_count : Docs F → ℕ
  doc_count no_docs = 0
  doc_count (doc_then v vs) = suc (doc_count vs)
