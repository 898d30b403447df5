-- ===== src/Pkg/Checks/Pointers/Finds.antt =====
-- `Pointer` finds what is at the end of a path, by the text that is written for the path.
use aii_plugin_sdk.Prelude.{
  List, [], arith, false, leb, length, map, refl, some, suc, true, zero, ℕ, ◌++◌, ◌<◌, ◌==◌, ◌^◌,
  ◌∷◌, ◌≡◌,
}
use aii_plugin_sdk.Prelude.Bytes.{equal, equal_iff}
use aii_plugin_sdk.Pkg.Checks.{Doc, Docs, doc_at, doc_count, doc_then, list, no_docs}
use aii_plugin_sdk.Pkg.Checks.Pointers.{
  descend, follow, itoa, list_entry, pointer, tildes_valid, valid_pointer,
}
use aii_plugin_sdk.Pkg.Checks.Pointers.Paths.{
  At, Step, at_end, at_index, at_key, by_index, by_key, escaped, split-written, step_token,
  tildes_valid-written, unescaped-escaped, written,
}
use aii_plugin_sdk.Pkg.Checks.Pointers.Indices.{IsIndex, itoa-IsIndex}

below_test : {m n : ℕ} → m < n → leb n m ≡ false
below_test h = ground arith

some_bytes : (n : ℕ) → (suc n == 0) ≡ false
some_bytes n = ground arith

module _ {F : Type 0} where
  doc_at-lt : (i : ℕ) (vs : Docs F) (v : Doc F) → doc_at i vs ≡ some v → i < doc_count vs
  unfolding doc_at doc_count
  doc_at-lt i no_docs v h = absurd (cc)
  doc_at-lt zero (doc_then u vs) v h = omega arith
  doc_at-lt (suc i) (doc_then u vs) v h = let ih = doc_at-lt i vs v h in omega arith

  descend-by_index :
      (i : ℕ) (vs : Docs F) (v : Doc F)
      → doc_count vs < 2 ^ 63
      → doc_at i vs ≡ some v
      → descend (list vs) (itoa i) ≡ some v
  unfolding descend list_entry IsIndex
  descend-by_index i vs v l h =
      let below = doc_at-lt i vs v h in
      let (a, n, z) = itoa-IsIndex i (omega arith) in
      let r : leb (doc_count vs) i ≡ false = below_test below in
      let s : equal (itoa i) (itoa i) ≡ true = (equal_iff (itoa i) (itoa i)).1 refl in
      rw (n, z, a, r, s) h

  follow-At :
      (v w : Doc F) (p : List Step)
      → At v p w
      → follow v (map (λ s. escaped (step_token s)) p) ≡ some w
  unfolding follow descend
  follow-At v w [] at_end = refl
  follow-At v w (by_key k ∷ p) (at_key {fs} {v = u} e a) =
      rw (unescaped-escaped k, e) (follow-At u w p a)
  follow-At v w (by_index i ∷ p) (at_index {vs} {v = u} l e a) =
      rw (unescaped-escaped (itoa i), descend-by_index i vs u l e) (follow-At u w p a)

  -- `Pointer` returns what is at the end of a path, through objects by their keys and through lists
  -- by indices, when it is given the pointer that RFC 6901 writes for that path: every key with its
  -- tildes and slashes escaped, every index in decimal. The lists on the way are no longer than an
  -- `int` counts.
  pub pointer-At : (v w : Doc F) (p : List Step) → At v p w → pointer v (written p) ≡ some w
  unfolding pointer written valid_pointer
  pointer-At v w [] at_end = refl
  pointer-At v w (s ∷ p) a =
      let t : tildes_valid (b'/' ∷ (escaped (step_token s) ++ written p)) ≡ true =
        tildes_valid-written (s ∷ p) in
      rw (t, some_bytes (length (escaped (step_token s) ++ written p)), split-written s p)
        (follow-At v w (s ∷ p) a)
