-- ===== src/Prelude/Fold.antt =====
-- Texts that differ at most in the case of ASCII letters.
use mathlib.Core.Path.{◌≡◌, refl}
use mathlib.Core.Logic.{◌↔◌, ◌⊎◌}
use mathlib.Core.List.{[], ◌∷◌, map}
use Prim.Native.Nat.{ℕ, ◌+◌, ◌≤◌}
use aii_plugin_sdk.Prelude.Bytes.{Bytes}

-- The second letter is the first in lower case, 32 above it.
abbrev IsLowerOf : ℕ → ℕ → Type 0
IsLowerOf d c = (b'A' ≤ c) × (c ≤ b'Z') × (d ≡ c + 32)

-- The same byte, or the same letter in both cases.
abbrev pub SameLetter : ℕ → ℕ → Type 0
SameLetter c d = (c ≡ d) ⊎ (IsLowerOf d c ⊎ IsLowerOf c d)

abbrev pub SameFold : Bytes → Bytes → Type 0
SameFold [] [] = Unit
SameFold [] (d ∷ ds) = ⊥
SameFold (c ∷ cs) [] = ⊥
SameFold (c ∷ cs) (d ∷ ds) = SameLetter c d × SameFold cs ds

module _ (f : ℕ → ℕ) (folds : (c d : ℕ) → (f c ≡ f d) ↔ SameLetter c d) where
  map-SameFold : (a b : Bytes) → map f a ≡ map f b → SameFold a b
  map-SameFold [] [] e = tt
  map-SameFold [] (d ∷ b) e = absurd (cc)
  map-SameFold (c ∷ a) [] e = absurd (cc)
  map-SameFold (c ∷ a) (d ∷ b) e =
      let x : f c ≡ f d = cc in
      let y : map f a ≡ map f b = cc in ((folds c d).0 x, map-SameFold a b y)

  SameFold-map : (a b : Bytes) → SameFold a b → map f a ≡ map f b
  SameFold-map [] [] h = refl
  SameFold-map [] (d ∷ b) h = absurd h
  SameFold-map (c ∷ a) [] h = absurd h
  SameFold-map (c ∷ a) (d ∷ b) (x, h) = let y = (folds c d).1 x in let z = SameFold-map a b h in cc

  -- A map that takes to one letter what is one letter up to case compares texts up to case.
  pub map-SameFold_iff : (a b : Bytes) → (map f a ≡ map f b) ↔ SameFold a b
  map-SameFold_iff a b = (map-SameFold a b, SameFold-map a b)
