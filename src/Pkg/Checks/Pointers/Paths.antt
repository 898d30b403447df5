-- ===== src/Pkg/Checks/Pointers/Paths.antt =====
-- A pointer that is written for a path finds what is there.
use aii_plugin_sdk.Pkg.Versions.{split}
use mathlib.Core.Path.{refl}
use aii_plugin_sdk.Prelude.{
  ==_iff, Bool-cases, List, [], ap, arith, false, if_cases, if◌then◌else◌, inl, inr, map, some,
  subst, sym, true, ℕ, ◌++◌, ◌<◌, ◌==◌, ◌^◌, ◌∙◌, ◌∷◌, ◌≡◌, ◌⊎◌,
}
use aii_plugin_sdk.Prelude.Bytes.{Bytes}
use aii_plugin_sdk.Pkg.Checks.{Doc, Docs, Fields, doc_at, doc_count, list, lookup, object}
use aii_plugin_sdk.Pkg.Checks.Pointers.{itoa, replace_all, tildes_valid, unescaped}

-- A step into an object by a key, or into a list by an index.
pub data Step : Type 0 where
  by_key : Bytes → Step
  by_index : ℕ → Step

abbrev pub step_token : Step → Bytes
step_token (by_key k) = k
step_token (by_index i) = itoa i

-- What is at the end of a path. Lists are no longer than an `int` counts.
pub data At {F : Type 0} : Doc F → List Step → Doc F → Type 0 where
  at_end : {v : Doc F} → At v [] v
  at_key :
      {fs : Fields F} {k : Bytes} {p : List Step} {v w : Doc F}
      → lookup k fs ≡ some v
      → At v p w
      → At (object fs) (by_key k ∷ p) w
  at_index :
      {vs : Docs F} {i : ℕ} {p : List Step} {v w : Doc F}
      → doc_count vs < 2 ^ 63
      → doc_at i vs ≡ some v
      → At v p w
      → At (list vs) (by_index i ∷ p) w

-- The escapes of RFC 6901.
unfoldable pub escaped : Bytes → Bytes
escaped [] = []
escaped (c ∷ b) =
    if c == b'~'
    then b'~' ∷ b'0' ∷ escaped b
    else if c == b'/'
    then b'~' ∷ b'1' ∷ escaped b
    else c ∷ escaped b

unfoldable pub written : List Step → Bytes
unfolding escaped
written [] = []
written (s ∷ p) = b'/' ∷ (escaped (step_token s) ++ written p)

-- The text between the two replacements.
half : Bytes → Bytes
half [] = []
half (c ∷ b) = if c == b'~' then b'~' ∷ b'0' ∷ half b else c ∷ half b

replace_all-other :
    (d r c : ℕ) (b : Bytes) → (c == b'~') ≡ false → replace_all d r (c ∷ b) ≡ c ∷ replace_all d r b
unfolding replace_all
replace_all-other d r c [] h = refl
replace_all-other d r c (x ∷ b) h = rw h refl

replace_all-other_digit :
    (d r e : ℕ) (b : Bytes)
    → (e == d) ≡ false
    → (e == b'~') ≡ false
    → replace_all d r (b'~' ∷ e ∷ b) ≡ b'~' ∷ e ∷ replace_all d r b
unfolding replace_all
replace_all-other_digit d r e b h k = rw h (ap (◌∷◌ b'~') (replace_all-other d r e b k))

replace_all-digit : (d r : ℕ) (b : Bytes) → replace_all d r (b'~' ∷ d ∷ b) ≡ r ∷ replace_all d r b
unfolding replace_all
replace_all-digit d r b = let h : (d == d) ≡ true = ground arith in rw h refl

replace_all-escaped : (b : Bytes) → replace_all b'1' b'/' (escaped b) ≡ half b
unfolding escaped half
replace_all-escaped [] = unfold replace_all in refl
replace_all-escaped (c ∷ b) =
    let ih = replace_all-escaped b in
    elim (Bool-cases (c == b'~')) [
      | inl e ↦ rw e (
          replace_all-other_digit b'1' b'/' b'0' (escaped b) refl refl
          ∙ ap (λ x. b'~' ∷ b'0' ∷ x) ih)
      | inr n ↦ rw n (
          if_cases (λ x. replace_all b'1' b'/' x ≡ c ∷ half b) (c == b'/')
            (λ e.
              replace_all-digit b'1' b'/' (escaped b)
              ∙ ap (◌∷◌ b'/') ih
              ∙ ap (λ x. x ∷ half b) (sym ((==_iff c b'/').0 e)))
            (λ _. replace_all-other b'1' b'/' c (escaped b) n ∙ ap (◌∷◌ c) ih))
    ]

replace_all-half : (b : Bytes) → replace_all b'0' b'~' (half b) ≡ b
unfolding half
replace_all-half [] = unfold replace_all in refl
replace_all-half (c ∷ b) =
    let ih = replace_all-half b in
    if_cases (λ x. replace_all b'0' b'~' x ≡ c ∷ b) (c == b'~')
      (λ e.
        replace_all-digit b'0' b'~' (half b)
        ∙ ap (◌∷◌ b'~') ih
        ∙ ap (λ x. x ∷ b) (sym ((==_iff c b'~').0 e)))
      (λ n. replace_all-other b'0' b'~' c (half b) n ∙ ap (◌∷◌ c) ih)

pub unescaped-escaped : (b : Bytes) → unescaped (escaped b) ≡ b
unfolding unescaped
unescaped-escaped b = ap (replace_all b'0' b'~') (replace_all-escaped b) ∙ replace_all-half b

-- The tokens of a pointer are the escaped steps.
split-other :
    (c : ℕ) (x h : Bytes) (out : List Bytes)
    → (c == b'/') ≡ false
    → split b'/' x ≡ h ∷ out
    → split b'/' (c ∷ x) ≡ (c ∷ h) ∷ out
unfolding split
split-other c x h out n e = rw (n, e) refl

split-escaped :
    (t r : Bytes) (out : List Bytes)
    → split b'/' r ≡ [] ∷ out
    → split b'/' (escaped t ++ r) ≡ escaped t ∷ out
unfolding escaped
split-escaped [] r out h = h
split-escaped (c ∷ t) r out h =
    let ih = split-escaped t r out h in
    let P = λ (x : Bytes). split b'/' (x ++ r) ≡ x ∷ out in
    if_cases P (c == b'~') (λ _. split-other b'~' _ _ out refl (split-other b'0' _ _ out refl ih))
      (λ _.
        if_cases P (c == b'/')
          (λ _. split-other b'~' _ _ out refl (split-other b'1' _ _ out refl ih))
          (λ n. split-other c _ _ out n ih))

pub split-written :
    (s : Step) (p : List Step)
    → split b'/' (escaped (step_token s) ++ written p) ≡ map (λ t. escaped (step_token t)) (s ∷ p)
unfolding split written
split-written s [] = split-escaped (step_token s) [] [] refl
split-written s (t ∷ p) = split-escaped (step_token s) _ _ (ap (◌∷◌ []) (split-written t p))

tildes_valid-other :
    (c : ℕ) (x : Bytes) → (c == b'~') ≡ false → tildes_valid (c ∷ x) ≡ tildes_valid x
unfolding tildes_valid
tildes_valid-other c [] n = rw n refl
tildes_valid-other c (d ∷ x) n = rw n refl

escape_valid :
    (d : ℕ) (x : Bytes) → (d ≡ b'0') ⊎ (d ≡ b'1') → tildes_valid (b'~' ∷ d ∷ x) ≡ tildes_valid x
unfolding tildes_valid
escape_valid d x (inl e) =
    subst (λ d. tildes_valid (b'~' ∷ d ∷ x) ≡ tildes_valid x) (sym e)
      (tildes_valid-other b'0' x refl)
escape_valid d x (inr e) =
    subst (λ d. tildes_valid (b'~' ∷ d ∷ x) ≡ tildes_valid x) (sym e)
      (tildes_valid-other b'1' x refl)

tildes_valid-escaped : (t r : Bytes) → tildes_valid (escaped t ++ r) ≡ tildes_valid r
unfolding escaped
tildes_valid-escaped [] r = refl
tildes_valid-escaped (c ∷ t) r =
    let ih = tildes_valid-escaped t r in
    let P = λ (x : Bytes). tildes_valid (x ++ r) ≡ tildes_valid r in
    if_cases P (c == b'~') (λ _. escape_valid b'0' (escaped t ++ r) (inl refl) ∙ ih)
      (λ n.
        if_cases P (c == b'/') (λ _. escape_valid b'1' (escaped t ++ r) (inr refl) ∙ ih)
          (λ _. tildes_valid-other c (escaped t ++ r) n ∙ ih))

pub tildes_valid-written : (p : List Step) → tildes_valid (written p) ≡ true
unfolding written
tildes_valid-written [] = unfold tildes_valid in refl
tildes_valid-written (s ∷ p) =
    tildes_valid-other b'/' _ refl
    ∙ tildes_valid-escaped (step_token s) (written p)
    ∙ tildes_valid-written p
