-- ===== src/Json/Text/Utf8/Parts.antt =====
-- Valid UTF-8 is put together of valid parts.
use mathlib.Core.Path.{refl}
use aii_plugin_sdk.Prelude.{
  &&-left, &&-right, Bool, Bool-cases, List, Option, [], all, ap, arith, false, if_rule, inl, inr,
  ltb, none, some, sym, true, ℕ, ◌&&◌, ◌++◌, ◌<◌, ◌==◌, ◌∙◌, ◌∷◌, ◌≡◌, ◌≤◌,
}
use aii_plugin_sdk.Prelude.Bytes.{Bytes}
use aii_plugin_sdk.Json.Text.Utf8.{lead, utf8_valid, valid_from, within}

-- What is left to test behind a first byte.
abbrev after_lead : Option (List (ℕ × ℕ)) → Bytes → Bool
after_lead none b = false
after_lead (some ranges) b = valid_from ranges b

after_lead-cons : (c : ℕ) (b : Bytes) → valid_from [] (c ∷ b) ≡ after_lead (lead c) b
unfolding valid_from
after_lead-cons c b = go (lead c)
  where
    go :
        (o : Option (List (ℕ × ℕ)))
        → (elim o [ none ↦ false | some ranges ↦ valid_from ranges b ]) ≡ after_lead o b
    go none = refl
    go (some ranges) = refl

valid_from-range :
    (lo hi c : ℕ) (rs : List (ℕ × ℕ)) (b : Bytes)
    → valid_from ((lo, hi) ∷ rs) (c ∷ b) ≡ (within lo hi c && valid_from rs b)
unfolding valid_from
valid_from-range lo hi c rs b = refl

valid_from-append :
    (rs : List (ℕ × ℕ)) (a b : Bytes)
    → valid_from rs a ≡ true
    → valid_from rs (a ++ b) ≡ valid_from [] b
valid_from-append [] [] b h = refl
valid_from-append (r ∷ rs) [] b h = absurd (unfold valid_from in cc h)
valid_from-append ((lo, hi) ∷ rs) (c ∷ a) b h =
    let p : (within lo hi c && valid_from rs a) ≡ true = sym (valid_from-range lo hi c rs a) ∙ h in
    let e : within lo hi c ≡ true = &&-left _ _ p in
    valid_from-range lo hi c rs (a ++ b)
    ∙ rw e (valid_from-append rs a b (&&-right (within lo hi c) _ p))
valid_from-append [] (c ∷ a) b h =
    after_lead-cons c (a ++ b)
    ∙ go (lead c) (λ rs. valid_from-append rs a b) (sym (after_lead-cons c a) ∙ h)
    ∙ refl
  where
    go :
        (o : Option (List (ℕ × ℕ)))
        → ((rs : List (ℕ × ℕ)) → valid_from rs a ≡ true → valid_from rs (a ++ b) ≡ valid_from [] b)
        → after_lead o a ≡ true
        → after_lead o (a ++ b) ≡ valid_from [] b
    go none ih h = absurd (cc)
    go (some ranges) ih h = ih ranges h

pub utf8_valid-append :
    (a b : Bytes) → utf8_valid a ≡ true → utf8_valid b ≡ true → utf8_valid (a ++ b) ≡ true
unfolding utf8_valid
utf8_valid-append a b h k = valid_from-append [] a b h ∙ k

-- Every byte is ASCII.
abbrev pub is_ascii : Bytes → Bool
is_ascii = all (λ c. ltb c 0x80)

lead-ascii : (c : ℕ) → ltb c 0x80 ≡ true → lead c ≡ some []
unfolding lead
lead-ascii c h = rw h

pub utf8_valid-ascii : (a : Bytes) → is_ascii a ≡ true → utf8_valid a ≡ true
unfolding utf8_valid
utf8_valid-ascii [] h = unfold valid_from in refl
utf8_valid-ascii (c ∷ a) h =
    after_lead-cons c a
    ∙ rw (lead-ascii c (&&-left _ _ h)) (utf8_valid-ascii a (&&-right (ltb c 0x80) _ h))

-- Every range is above the ASCII bytes.
abbrev AreHigh : List (ℕ × ℕ) → Type 0
AreHigh [] = Unit
AreHigh ((lo, hi) ∷ rs) = (0x80 ≤ lo) × AreHigh rs

abbrev HighIn : Option (List (ℕ × ℕ)) → Type 0
HighIn none = Unit
HighIn (some rs) = AreHigh rs

lead-HighIn : (c : ℕ) → HighIn (lead c)
unfolding lead
lead-HighIn c = if_rule HighIn (ltb c 0x80) tt (
    if_rule HighIn (within 0xC2 0xDF c) (omega arith, tt)
      (if_rule HighIn (c == 0xE0) (omega arith, (omega arith, tt))
        (if_rule HighIn (c == 0xED) (omega arith, (omega arith, tt))
          (if_rule HighIn (within 0xE1 0xEF c) (omega arith, (omega arith, tt))
            (if_rule HighIn (c == 0xF0) (omega arith, (omega arith, (omega arith, tt)))
              (if_rule HighIn (within 0xF1 0xF3 c) (omega arith, (omega arith, (omega arith, tt)))
                (if_rule HighIn (c == 0xF4) (omega arith, (omega arith, (omega arith, tt)))
                  tt)))))))

-- A text whose ASCII bytes are each replaced by ASCII bytes.
pub record Replaces (f : ℕ → Bytes) (g : Bytes → Bytes) : Type 0 where
  pub nothing : g [] ≡ []
  pub each : (c : ℕ) (s : Bytes) → g (c ∷ s) ≡ f c ++ g s
  pub ascii : (c : ℕ) → c < 0x80 → is_ascii (f c) ≡ true
  pub kept : (c : ℕ) → 0x80 ≤ c → f c ≡ c ∷ []

module _ (f : ℕ → Bytes) (g : Bytes → Bytes) (r : Replaces f g) where
  in_range : (lo hi c : ℕ) → 0x80 ≤ lo → within lo hi c ≡ true → 0x80 ≤ c
  in_range lo hi c l e = ground arith

  below : (c : ℕ) → ltb c 0x80 ≡ true → c < 0x80
  below c e = ground arith

  above : (c : ℕ) → ltb c 0x80 ≡ false → 0x80 ≤ c
  above c e = ground arith

  valid_from-ascii : (a : Bytes) → is_ascii a ≡ true → valid_from [] a ≡ true
  unfolding utf8_valid
  valid_from-ascii a h = utf8_valid-ascii a h

  valid_from-Replaces :
      (rs : List (ℕ × ℕ)) (s : Bytes)
      → AreHigh rs
      → valid_from rs s ≡ true
      → valid_from rs (g s) ≡ true
  valid_from-Replaces rs [] a h = rw r.nothing h
  valid_from-Replaces ((lo, hi) ∷ rs) (c ∷ s) (l, a) h =
      let p : (within lo hi c && valid_from rs s) ≡ true =
        sym (valid_from-range lo hi c rs s) ∙ h in
      let e : within lo hi c ≡ true = &&-left _ _ p in
      ap (valid_from ((lo, hi) ∷ rs))
        (r.each c s ∙ ap (λ t. t ++ g s) (r.kept c (in_range lo hi c l e)))
      ∙ valid_from-range lo hi c rs (g s)
      ∙ rw e (valid_from-Replaces rs s a (&&-right (within lo hi c) _ p))
  valid_from-Replaces [] (c ∷ s) a h =
      let p = sym (after_lead-cons c s) ∙ h in
      ap (valid_from []) (r.each c s) ∙ elim (Bool-cases (ltb c 0x80)) [
        | inl low ↦
            valid_from-append [] (f c) (g s) (valid_from-ascii (f c) (r.ascii c (below c low)))
            ∙ valid_from-Replaces [] s tt (rw (lead-ascii c low) at p)
        | inr high ↦
            ap (λ t. valid_from [] (t ++ g s)) (r.kept c (above c high))
            ∙ after_lead-cons c (g s)
            ∙ go (lead c) (λ rs. valid_from-Replaces rs s) (lead-HighIn c) p
      ]
    where
      go :
          (o : Option (List (ℕ × ℕ)))
          → ((rs : List (ℕ × ℕ)) → AreHigh rs → valid_from rs s ≡ true → valid_from rs (g s) ≡ true)
          → HighIn o
          → after_lead o s ≡ true
          → after_lead o (g s) ≡ true
      go none ih a h = h
      go (some ranges) ih a h = ih ranges a h

  pub utf8_valid-Replaces : (s : Bytes) → utf8_valid s ≡ true → utf8_valid (g s) ≡ true
  unfolding utf8_valid
  utf8_valid-Replaces s h = valid_from-Replaces [] s tt h
