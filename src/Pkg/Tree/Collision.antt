-- ===== src/Pkg/Tree/Collision.antt =====
-- What it means that two paths collide.
use mathlib.Core.Path.{refl}
use aii_plugin_sdk.Prelude.{
  Bool-cases, List, [], ap, arith, false, inl, inr, map, subst, sym, true, ℕ, ◌++◌, ◌↔◌, ◌∙◌, ◌∷◌,
  ◌≡◌, ◌≢◌,
}
use aii_plugin_sdk.Prelude.Fold.{SameFold, SameLetter, map-SameFold_iff}
use aii_plugin_sdk.Prelude.Bytes.{Bytes, equal, equal_iff}
use aii_plugin_sdk.Pkg.Versions.{split}
use aii_plugin_sdk.Pkg.Tree.{ascii_lower, casefold_sibling_collision, collision}

ascii_lower-SameLetter : (c d : ℕ) → (ascii_lower c ≡ ascii_lower d) ↔ SameLetter c d
unfolding ascii_lower
ascii_lower-SameLetter c d =
    (λ (h : ascii_lower c ≡ ascii_lower d). ground arith, λ (h : SameLetter c d). ground arith)

-- Two lists of names that agree up to two names which differ, but only in the case of letters.
pub record Merges (ls rs : List Bytes) : Type 0 where
  pub parents : List Bytes
  pub left : Bytes
  pub right : Bytes
  pub below_left : List Bytes
  pub below_right : List Bytes
  pub on_left : ls ≡ parents ++ (left ∷ below_left)
  pub on_right : rs ≡ parents ++ (right ∷ below_right)
  pub same_folded : SameFold left right
  pub different : left ≢ right

Merges-cons : (c : Bytes) (ls rs : List Bytes) → Merges ls rs → Merges (c ∷ ls) (c ∷ rs)
Merges-cons c ls rs m = record {
  parents = c ∷ m.parents;
  left = m.left;
  right = m.right;
  below_left = m.below_left;
  below_right = m.below_right;
  on_left = ap (◌∷◌ c) m.on_left;
  on_right = ap (◌∷◌ c) m.on_right;
  same_folded = m.same_folded;
  different = m.different;
}

different_bytes : (a b : Bytes) → equal a b ≡ false → a ≢ b
different_bytes a b h e = cc (sym h ∙ (equal_iff a b).1 e)

different_test : (a b : Bytes) → a ≢ b → equal a b ≡ false
different_test a b ne = elim (Bool-cases (equal a b)) [
  | inl e ↦ absurd (ne ((equal_iff a b).0 e))
  | inr e ↦ e
]

same_test : (a b : Bytes) → a ≡ b → equal a b ≡ true
same_test a b = (equal_iff a b).1

collision-Merges : (ls rs : List Bytes) → collision ls rs ≡ true → Merges ls rs
unfolding collision
collision-Merges [] rs h = absurd (cc)
collision-Merges (l ∷ ls) [] h = absurd (cc)
collision-Merges (l ∷ ls) (r ∷ rs) h =
    elim (Bool-cases (equal (map ascii_lower l) (map ascii_lower r))) [
      | inr e ↦ absurd (cc (rw e at h))
      | inl e ↦ elim (Bool-cases (equal l r)) [
        | inr d ↦ record {
          parents = [];
          left = l;
          right = r;
          below_left = ls;
          below_right = rs;
          on_left = refl;
          on_right = refl;
          same_folded =
              (map-SameFold_iff ascii_lower ascii_lower-SameLetter l r).0
                ((equal_iff (map ascii_lower l) (map ascii_lower r)).0 e);
          different = different_bytes l r d;
        }
        | inl d ↦
            subst (λ x. Merges (l ∷ ls) (x ∷ rs)) ((equal_iff l r).0 d)
              (Merges-cons l ls rs (collision-Merges ls rs (rw (e, d) at h)))
      ]
    ]

prefix-collision :
    (ps : List Bytes) (l r : Bytes) (ls rs : List Bytes)
    → map ascii_lower l ≡ map ascii_lower r
    → l ≢ r
    → collision (ps ++ (l ∷ ls)) (ps ++ (r ∷ rs)) ≡ true
unfolding collision
prefix-collision [] l r ls rs e d =
    let a = same_test (map ascii_lower l) (map ascii_lower r) e in rw (a, different_test l r d)
prefix-collision (p ∷ ps) l r ls rs e d =
    let a = same_test (map ascii_lower p) (map ascii_lower p) refl in
    rw (a, same_test p p refl) (prefix-collision ps l r ls rs e d)

-- `casefoldSiblingCollision` finds exactly the paths that a file system without regard to the case
-- of ASCII letters would merge though they are written differently: below the same parent
-- directories, the first names that differ are equal up to the case of these letters.
pub casefold_sibling_collision_iff :
    (left right : Bytes)
    → (casefold_sibling_collision left right ≡ true) ↔ Merges (split b'/' left) (split b'/' right)
unfolding casefold_sibling_collision
casefold_sibling_collision_iff left right = (
  collision-Merges (split b'/' left) (split b'/' right),
  λ m.
      rw (m.on_left, m.on_right)
        (prefix-collision m.parents m.left m.right m.below_left m.below_right
          ((map-SameFold_iff ascii_lower ascii_lower-SameLetter m.left m.right).1 m.same_folded)
          m.different),
)
