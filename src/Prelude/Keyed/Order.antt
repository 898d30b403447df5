-- ===== src/Prelude/Keyed/Order.antt =====
-- Of two different strings exactly one is less, so that the order of filing does not matter.
use mathlib.Core.Path.{refl}
use aii_plugin_sdk.Prelude.{
  ==_iff, Bool, Bool-cases, List, [], ap, arith, false, if◌then◌else◌, inl, inr, ltb, sym, true, ℕ,
  ◌<◌, ◌==◌, ◌∙◌, ◌∷◌, ◌≡◌, ◌≢◌, ◌⊎◌,
}
use aii_plugin_sdk.Prelude.Bytes.{Bytes}
use aii_plugin_sdk.Prelude.Keyed.{insert_entry, less}

pub less_self : (a : Bytes) → less a a ≡ false
unfolding less
less_self [] = refl
less_self (c ∷ a) =
    let n : ltb c c ≡ false = ground arith in
    let s : (c == c) ≡ true = ground arith in rw (n, s) (less_self a)

-- What decides at the first byte.
abbrev first_byte : ℕ → ℕ → Bool → Bool
first_byte c d r = if ltb c d then true else if c == d then r else false

less_first : (c d : ℕ) (r : Bool) → first_byte c d r ≡ true → (c < d) ⊎ ((c ≡ d) × (r ≡ true))
less_first c d r h =
    let l : ltb c d ≡ true → c < d = λ e. ground arith in
    let m : (c == d) ≡ true → c ≡ d = λ e. (==_iff c d).0 e in
    elim (Bool-cases (ltb c d)) [
      | inl e ↦ inl (l e)
      | inr e ↦ elim (Bool-cases (c == d)) [
        | inl f ↦ inr (m f, rw (e, f) at h)
        | inr f ↦ absurd (let g = rw (e, f) at h in cc)
      ]
    ]

first_less : (c d : ℕ) (r : Bool) → c < d → first_byte c d r ≡ true
first_less c d r h = ground arith

first_same : (c d : ℕ) (r : Bool) → c ≡ d → r ≡ true → first_byte c d r ≡ true
first_same c d r e f = ground arith

pub less_trans : (a b c : Bytes) → less a b ≡ true → less b c ≡ true → less a c ≡ true
unfolding less
less_trans a b [] h k = absurd (cc)
less_trans a [] (z ∷ c) h k = absurd (cc)
less_trans [] (y ∷ b) (z ∷ c) h k = refl
less_trans (x ∷ a) (y ∷ b) (z ∷ c) h k = elim (less_first x y (less a b) h) [
  | inl l ↦ elim (less_first y z (less b c) k) [
    | inl m ↦ first_less x z (less a c) (omega arith)
    | inr (e, f) ↦ first_less x z (less a c) (omega arith)
  ]
  | inr (e, f) ↦ elim (less_first y z (less b c) k) [
    | inl m ↦ first_less x z (less a c) (omega arith)
    | inr (e', f') ↦ first_same x z (less a c) (e ∙ e') (less_trans a b c f f')
  ]
]

pub less_flip : (a b : Bytes) → less a b ≡ true → less b a ≡ false
less_flip a b h = elim (Bool-cases (less b a)) [
  | inl e ↦ absurd (let f = less_trans a b a h e in let g = less_self a in cc)
  | inr e ↦ e
]

first_total :
    (c d : ℕ) (r s : Bool)
    → first_byte c d r ≡ false
    → (c ≡ d → r ≡ false → s ≡ true)
    → first_byte d c s ≡ true
first_total c d r s h k = elim (Bool-cases (ltb d c)) [
  | inl e ↦ first_less d c s (ground arith)
  | inr e ↦ let f : c ≡ d = apart c d r h e in first_same d c s (sym f) (k f (ground arith))
]
  where
    apart : (c d : ℕ) (r : Bool) → first_byte c d r ≡ false → ltb d c ≡ false → c ≡ d
    apart c d r h e = ground arith

pub less_total : (a b : Bytes) → a ≢ b → less a b ≡ false → less b a ≡ true
unfolding less
less_total [] [] n h = absurd (n refl)
less_total (c ∷ a) [] n h = refl
less_total [] (d ∷ b) n h = absurd (cc)
less_total (c ∷ a) (d ∷ b) n h =
    first_total c d (less a b) (less b a) h (λ e f. less_total a b (λ g. n (rw (e, g) refl)) f)

module _ {A : Type 0} where
  insert_less :
      (x y : Bytes × A) (es : List (Bytes × A))
      → less x.0 y.0 ≡ true
      → insert_entry x (insert_entry y es) ≡ insert_entry y (insert_entry x es)
  unfolding insert_entry
  insert_less x y [] h = rw (h, less_flip x.0 y.0 h) refl
  insert_less x y (z ∷ es) h = elim (Bool-cases (less z.0 y.0)) [
    | inl zy ↦ elim (Bool-cases (less z.0 x.0)) [
      | inl zx ↦ rw (zy, zx, zy) (ap (◌∷◌ z) (insert_less x y es h))
      | inr zx ↦ rw (zy, zx, h, zy) refl
    ]
    | inr zy ↦
        let zx : less z.0 x.0 ≡ false = not_less x.0 y.0 z.0 h zy in
        rw (zy, zx, h, less_flip x.0 y.0 h, zy) refl
  ]
    where
      not_less : (x y z : Bytes) → less x y ≡ true → less z y ≡ false → less z x ≡ false
      not_less x y z h n = elim (Bool-cases (less z x)) [
        | inl e ↦ absurd (let f = less_trans z x y e h in cc)
        | inr e ↦ e
      ]

  pub insert_swap :
      (x y : Bytes × A) (es : List (Bytes × A))
      → x.0 ≢ y.0
      → insert_entry x (insert_entry y es) ≡ insert_entry y (insert_entry x es)
  insert_swap x y es n = elim (Bool-cases (less x.0 y.0)) [
    | inl e ↦ insert_less x y es e
    | inr e ↦ sym (insert_less y x es (less_total x.0 y.0 n e))
  ]
