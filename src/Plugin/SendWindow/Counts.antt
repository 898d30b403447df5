-- ===== src/Plugin/SendWindow/Counts.antt =====
-- Counting times.
use mathlib.Core.Path.{refl}
use aii_plugin_sdk.Prelude.{
  Bool, Bool-cases, List, [], arith, if_cases, if_rule, if_rule₂, if◌then◌else◌, inl, inr, leb,
  length, sym, true, ℕ, ◌++◌, ◌+◌, ◌∙◌, ◌∷◌, ◌≡◌, ◌≤◌,
}
use aii_plugin_sdk.Plugin.SendWindow.{filter, insert, sort}

abbrev pub count : (ℕ → Bool) → List ℕ → ℕ
count p [] = 0
count p (t ∷ ts) = (if p t then 1 else 0) + count p ts

-- Every time is at most `b`.
abbrev pub Until : ℕ → List ℕ → Type 0
Until b [] = Unit
Until b (t ∷ ts) = (t ≤ b) × Until b ts

pub Until-weaken : (a b : ℕ) (ts : List ℕ) → a ≤ b → Until a ts → Until b ts
Until-weaken a b [] h u = tt
Until-weaken a b (t ∷ ts) h (l, u) = (omega arith, Until-weaken a b ts h u)

count-insert :
    (p : ℕ → Bool) (t : ℕ) (ts : List ℕ)
    → count p (insert t ts) ≡ (if p t then 1 else 0) + count p ts
unfolding insert
count-insert p t [] = refl
count-insert p t (u ∷ ts) =
    let ih = count-insert p t ts in
    if_rule (λ l. count p l ≡ (if p t then 1 else 0) + count p (u ∷ ts)) (leb t u) refl
      (omega (arith, ih))

pub count-sort : (p : ℕ → Bool) (ts : List ℕ) → count p (sort ts) ≡ count p ts
unfolding sort
count-sort p [] = refl
count-sort p (t ∷ ts) = omega (arith, count-insert p t (sort ts), count-sort p ts)

Until-insert : (b t : ℕ) (ts : List ℕ) → t ≤ b → Until b ts → Until b (insert t ts)
unfolding insert
Until-insert b t [] h u = (h, tt)
Until-insert b t (v ∷ ts) h (l, u) =
    if_rule (Until b) (leb t v) (h, (l, u)) (l, Until-insert b t ts h u)

pub Until-sort : (b : ℕ) (ts : List ℕ) → Until b ts → Until b (sort ts)
unfolding sort
Until-sort b [] u = tt
Until-sort b (t ∷ ts) (l, u) = Until-insert b t (sort ts) l (Until-sort b ts u)

pub Until-filter : (b : ℕ) (p : ℕ → Bool) (ts : List ℕ) → Until b ts → Until b (filter p ts)
unfolding filter
Until-filter b p [] u = tt
Until-filter b p (t ∷ ts) (l, u) =
    let rest = Until-filter b p ts u in if_rule (Until b) (p t) (l, rest) rest

pub length-filter : (p : ℕ → Bool) (ts : List ℕ) → length (filter p ts) ≡ count p ts
unfolding filter
length-filter p [] = refl
length-filter p (t ∷ ts) =
    let ih = length-filter p ts in
    if_rule₂ (λ (l : List ℕ) (n : ℕ). length l ≡ n + count p ts) (p t) (omega (arith, ih))
      (omega (arith, ih))

pub length-sort : (ts : List ℕ) → length (sort ts) ≡ length ts
length-sort ts = sym (count-all (sort ts)) ∙ count-sort (λ _. true) ts ∙ count-all ts
  where
    count-all : (ts : List ℕ) → count (λ _. true) ts ≡ length ts
    count-all [] = refl
    count-all (t ∷ ts) = omega (arith, count-all ts)

pub count-append : (p : ℕ → Bool) (ts us : List ℕ) → count p (ts ++ us) ≡ count p ts + count p us
count-append p [] us = omega arith
count-append p (t ∷ ts) us = omega (arith, count-append p ts us)

-- A test that is implied does not count less on the rest.
pub count-filter :
    (b : ℕ) (p q : ℕ → Bool) (ts : List ℕ)
    → Until b ts
    → ((t : ℕ) → t ≤ b → q t ≡ true → p t ≡ true)
    → count q (filter p ts) ≡ count q ts
unfolding filter
count-filter b p q [] u h = refl
count-filter b p q (t ∷ ts) (l, u) h =
    let ih = count-filter b p q ts u h in
    if_cases (λ r. count q r ≡ count q (t ∷ ts)) (p t) (λ _. omega (arith, ih))
      (λ e. elim (Bool-cases (q t)) [
        | inl f ↦ absurd (let g = h t l f in cc)
        | inr f ↦ rw f (omega (arith, ih))
      ])

-- A stronger test counts no more, and one that is the same on the times counts the same.
pub count-le :
    (b : ℕ) (p q : ℕ → Bool) (ts : List ℕ)
    → Until b ts
    → ((t : ℕ) → t ≤ b → p t ≡ true → q t ≡ true)
    → count p ts ≤ count q ts
count-le b p q [] u h = omega arith
count-le b p q (t ∷ ts) (l, u) h =
    let ih = count-le b p q ts u h in
    elim (Bool-cases (p t)) [
      | inl e ↦ rw (e, h t l e) (omega (arith, ih))
      | inr e ↦ rw e (omega (arith, ih))
    ]
