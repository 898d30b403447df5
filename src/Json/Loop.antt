-- ===== src/Json/Loop.antt =====
-- `for { ... }` over the unread bytes: each turn fails, is done, or goes on with a new state and
-- what is left to read. The fuel is one more than the bytes there are, which is enough for every
-- turn that reads at least a byte.
use aii_plugin_sdk.Prelude.{
  Option, arith, inl, inr, length, none, refl, some, subst, suc, sym, zero, ℕ, ◌<◌, ◌∙◌, ◌≡◌, ◌⊎◌,
}
use aii_plugin_sdk.Prelude.Bytes.{Bytes}

pub data Turn (S R : Type 0) : Type 0 where
  fail : Turn S R
  done : R → Turn S R
  more : S → Bytes → Turn S R

module _ {S R : Type 0} (step : S → Bytes → Turn S R) where
  pub loop : ℕ → S → Bytes → Option R
  loop zero s b = none
  loop (suc f) s b = elim (step s b) [ fail ↦ none | done r ↦ some r | more s' b' ↦ loop f s' b' ]

  unfoldable pub scan : S → Bytes → Option R
  unfolding loop
  scan s b = loop (suc (length b)) s b

  -- Every turn that goes on has read something.
  abbrev pub Shortens : Type 0
  Shortens =
      (s : S) (b : Bytes) (s' : S) (b' : Bytes) → step s b ≡ more s' b' → length b' < length b

  -- With no fuel there is no result.
  pub loop_dry : (s : S) (b : Bytes) → loop zero s b ≡ none
  unfolding loop
  loop_dry s b = refl

  pub loop_turn :
      (f : ℕ) (s : S) (b : Bytes) (t : Turn S R)
      → step s b ≡ t
      → loop (suc f) s b ≡ (elim t [ fail ↦ none | done r ↦ some r | more s' b' ↦ loop f s' b' ])
  unfolding loop
  loop_turn f s b t e = rw (e, loop)

  Turn-cases :
      (t : Turn S R)
      → (t ≡ fail) ⊎ ((r : R) × (t ≡ done r)) ⊎ ((s : S) × (b : Bytes) × (t ≡ more s b))
  Turn-cases fail = inl refl
  Turn-cases (done r) = inr (inl (r, refl))
  Turn-cases (more s b) = inr (inr (s, b, refl))

  -- The fuel does not matter once it exceeds the bytes that are left.
  pub loop_fuel :
      Shortens
      → (f g : ℕ) (s : S) (b : Bytes) → length b < f
      → length b < g
      → loop f s b ≡ loop g s b
  loop_fuel short zero g s b h k = absurd (omega arith)
  loop_fuel short (suc f) zero s b h k = absurd (omega arith)
  loop_fuel short (suc f) (suc g) s b h k = elim (Turn-cases (step s b)) [
    | inl e ↦ loop_turn f s b fail e ∙ sym (loop_turn g s b fail e)
    | inr (inl (r, e)) ↦ loop_turn f s b (done r) e ∙ sym (loop_turn g s b (done r) e)
    | inr (inr (s', b', e)) ↦
        loop_turn f s b (more s' b') e
        ∙ loop_fuel short f g s' b' (omega (arith, short s b s' b' e))
            (omega (arith, short s b s' b' e))
        ∙ sym (loop_turn g s b (more s' b') e)
  ]

  -- A loop without fuel that ends: the turns from a state on, and what the last of them returns.
  pub data Run : S → Bytes → Option R → Type 0 where
    run_fails : {s : S} {b : Bytes} → step s b ≡ fail → Run s b none
    run_returns : {s : S} {b : Bytes} {r : R} → step s b ≡ done r → Run s b (some r)
    run_turns :
        {s s' : S} {b b' : Bytes} {o : Option R} → step s b ≡ more s' b' → Run s' b' o → Run s b o

  -- With more fuel than there are bytes left, a loop comes to an end, and gives that.
  pub loop-Run : Shortens → (f : ℕ) (s : S) (b : Bytes) → length b < f → Run s b (loop f s b)
  loop-Run short zero s b h = absurd (omega arith)
  loop-Run short (suc f) s b h = elim (Turn-cases (step s b)) [
    | inl e ↦ subst (Run s b) (sym (loop_turn f s b fail e)) (run_fails e)
    | inr (inl (r, e)) ↦ subst (Run s b) (sym (loop_turn f s b (done r) e)) (run_returns e)
    | inr (inr (s', b', e)) ↦
        subst (Run s b) (sym (loop_turn f s b (more s' b') e))
          (run_turns e (loop-Run short f s' b' (omega (arith, short s b s' b' e))))
  ]

  -- What holds before the loop and is kept by each turn holds of what the last turn returns.
  pub loop_rule :
      (P : S → Bytes → Type 0) (Q : R → Type 0)
      → ((s : S) (b : Bytes) (r : R) → P s b → step s b ≡ done r → Q r)
      → ((s : S) (b : Bytes) (s' : S) (b' : Bytes) → P s b → step s b ≡ more s' b' → P s' b')
      → (f : ℕ) (s : S) (b : Bytes) {r : R} → P s b
      → loop f s b ≡ some r
      → Q r
  loop_rule P Q stop keep zero s b p e = absurd (unfold loop in cc)
  loop_rule P Q stop keep (suc f) s b {r} p e = elim (Turn-cases (step s b)) [
    | inl t ↦ absurd (cc (sym (loop_turn f s b fail t) ∙ e))
    | inr (inl (r', t)) ↦
        let same : some r' ≡ some r = sym (loop_turn f s b (done r') t) ∙ e in
        subst Q (cc) (stop s b r' p t)
    | inr (inr (s', b', t)) ↦
        loop_rule P Q stop keep f s' b' (keep s b s' b' p t)
          (sym (loop_turn f s b (more s' b') t) ∙ e)
  ]

module _ {S R : Type 0} where
  pub scan_fails :
      (step : S → Bytes → Turn S R) (s : S) (b : Bytes) → step s b ≡ fail → scan step s b ≡ none
  unfolding scan
  scan_fails step s b e = loop_turn step (length b) s b fail e

  -- `step'` does what `step` does wherever `step` does not fail.
  abbrev pub TurnExtends : (S → Bytes → Turn S R) → (S → Bytes → Turn S R) → Type 0
  TurnExtends step step' = (s : S) (b : Bytes) → (step s b ≡ fail) ⊎ (step' s b ≡ step s b)

  loop-extends :
      (step step' : S → Bytes → Turn S R)
      → TurnExtends step step'
      → (f : ℕ) (s : S) (b : Bytes)
      → (loop step f s b ≡ none) ⊎ (loop step' f s b ≡ loop step f s b)
  loop-extends step step' h zero s b = inl (unfold loop in refl)
  loop-extends step step' h (suc f) s b = elim (h s b) [
    | inl e ↦ inl (loop_turn step f s b fail e)
    | inr e ↦ elim (Turn-cases step (step s b)) [
      | inl t ↦ inl (loop_turn step f s b fail t)
      | inr (inl (r, t)) ↦
          inr (loop_turn step' f s b (done r) (e ∙ t) ∙ sym (loop_turn step f s b (done r) t))
      | inr (inr (s', b', t)) ↦
          let there = loop_turn step f s b (more s' b') t in
          let there' = loop_turn step' f s b (more s' b') (e ∙ t) in
          elim (loop-extends step step' h f s' b') [
            | inl n ↦ inl (there ∙ n)
            | inr same ↦ inr (there' ∙ same ∙ sym there)
          ]
    ]
  ]

  pub scan-extends :
      (step step' : S → Bytes → Turn S R)
      → TurnExtends step step'
      → (s : S) (b : Bytes) → (scan step s b ≡ none) ⊎ (scan step' s b ≡ scan step s b)
  unfolding scan
  scan-extends step step' h s b = loop-extends step step' h (suc (length b)) s b

-- The second turn does what the first does, on related states, unless the first fails.
pub data Follows {S S' R R' : Type 0} (Rel : S → S' → Type 0) (Post : R' → Type 0)
    : Turn S R → Turn S' R' → Type 0 where
  failed : {t : Turn S' R'} → Follows Rel Post fail t
  both_done : {r : R} {r' : R'} → Post r' → Follows Rel Post (done r) (done r')
  both_more : {s : S} {s' : S'} {b : Bytes} → Rel s s' → Follows Rel Post (more s b) (more s' b)

module _ {S S' R R' : Type 0} (Rel : S → S' → Type 0) (Post : R' → Type 0) where
  module _ (step : S → Bytes → Turn S R) (step' : S' → Bytes → Turn S' R') where
    abbrev pub Simulates : Type 0
    Simulates = (s : S) (s' : S') (b : Bytes) → Rel s s' → Follows Rel Post (step s b) (step' s' b)

    abbrev outcome : ℕ → Turn S R → Option R
    outcome f t = elim t [ fail ↦ none | done r ↦ some r | more s b ↦ loop step f s b ]

    abbrev outcome' : ℕ → Turn S' R' → Option R'
    outcome' f t = elim t [ fail ↦ none | done r ↦ some r | more s b ↦ loop step' f s b ]

    Follows-outcome :
        (f : ℕ) {t : Turn S R} {t' : Turn S' R'} {r : R}
        → Follows Rel Post t t'
        → ((s : S) (s' : S') (b : Bytes)
            → Rel s s'
            → loop step f s b ≡ some r
            → (r' : R') × (loop step' f s' b ≡ some r') × Post r')
        → outcome f t ≡ some r
        → (r' : R') × (outcome' f t' ≡ some r') × Post r'
    Follows-outcome f failed ih e = absurd (cc)
    Follows-outcome f (both_done {r' = r'} p) ih e = (r', refl, p)
    Follows-outcome f (both_more {s} {s'} {b} p) ih e = ih s s' b p e

    loop-simulates :
        Simulates
        → (f : ℕ) (s : S) (s' : S') (b : Bytes) {r : R} → Rel s s'
        → loop step f s b ≡ some r
        → (r' : R') × (loop step' f s' b ≡ some r') × Post r'
    unfolding loop
    loop-simulates h zero s s' b p e = absurd (cc)
    loop-simulates h (suc f) s s' b p e =
        Follows-outcome f (h s s' b p) (λ s s' b p e. loop-simulates h f s s' b p e) e

    -- If the first loop returns, so does the second.
    pub scan-simulates :
        Simulates
        → (s : S) (s' : S') (b : Bytes) {r : R} → Rel s s'
        → scan step s b ≡ some r
        → (r' : R') × (scan step' s' b ≡ some r') × Post r'
    unfolding scan
    scan-simulates h s s' b p e = loop-simulates h (suc (length b)) s s' b p e
