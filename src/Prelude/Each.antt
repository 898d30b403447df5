-- ===== src/Prelude/Each.antt =====
-- What holds of each entry of a list, or of one, beside the Boolean tests.
use mathlib.Core.Path.{◌≡◌, refl}
use mathlib.Core.Logic.{◌↔◌, ◌⊎◌, inl, inr}
use mathlib.Core.Bool.{Bool, true, false, ◌&&◌, ◌||◌}
use mathlib.Core.List.{List, [], ◌∷◌}
use native.Mathlib.Omega.{arith}
use aii_plugin_sdk.Prelude.Lists.{all, any}
use aii_plugin_sdk.Prelude.Tests.{Bool-cases}

module _ {ℓ} {A : Type ℓ} where
  abbrev pub Each : (A → Type 0) → List A → Type 0
  Each P [] = Unit
  Each P (x ∷ xs) = P x × Each P xs

  abbrev pub Some : (A → Type 0) → List A → Type 0
  Some P [] = ⊥
  Some P (x ∷ xs) = P x ⊎ Some P xs

  module _ (p : A → Bool) (P : A → Type 0) where
    pub all-Each_iff :
        ((x : A) → (p x ≡ true) ↔ P x) → (xs : List A) → (all p xs ≡ true) ↔ Each P xs
    all-Each_iff one [] = (λ _. tt, λ _. refl)
    all-Each_iff one (x ∷ xs) =
        let (there, back) = one x in
        let (e, f) = all-Each_iff one xs in
        (
          λ (h : (p x && all p xs) ≡ true). (there (ground arith), e (ground arith)),
          λ (px, h). let a = back px in let b = f h in ground arith,
        )

    pub any-Some_iff :
        ((x : A) → (p x ≡ true) ↔ P x) → (xs : List A) → (any p xs ≡ true) ↔ Some P xs
    any-Some_iff one [] = (λ h. absurd (cc), λ h. absurd h)
    any-Some_iff one (x ∷ xs) =
        let (there, back) = one x in
        let (e, f) = any-Some_iff one xs in
        (
          λ h. elim (Bool-cases (p x)) [ inl a ↦ inl (there a) | inr a ↦ inr (e (rw a at h)) ],
          λ s. elim s [
            | inl px ↦ rw (back px) refl
            | inr h ↦ elim (Bool-cases (p x)) [ inl a ↦ rw a refl | inr a ↦ rw a (f h) ]
          ],
        )

    pub none-Each_iff :
        ((x : A) → (p x ≡ false) ↔ P x) → (xs : List A) → (any p xs ≡ false) ↔ Each P xs
    none-Each_iff one [] = (λ _. tt, λ _. refl)
    none-Each_iff one (x ∷ xs) =
        let (there, back) = one x in
        let (e, f) = none-Each_iff one xs in
        (
          λ (h : (p x || any p xs) ≡ false). (there (ground arith), e (ground arith)),
          λ (px, h). let a = back px in let b = f h in ground arith,
        )
