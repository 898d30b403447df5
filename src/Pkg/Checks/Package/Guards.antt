-- ===== src/Pkg/Checks/Package/Guards.antt =====
-- When guards pass, alone, one after the other, and in cases.
use aii_plugin_sdk.Prelude.{
  Bool, Bool-cases, Result, arith, false, if◌then◌else◌, inl, inr, leb, not, ok, refl, true, ℕ,
  ◌&&◌, ◌||◌, ◌↔◌, ◌≡◌, ◌≤◌, ◌⊎◌,
}
use aii_plugin_sdk.Prelude.Bytes.{Bytes, equal, equal_iff}
use aii_plugin_sdk.Prelude.Results.{guard, ◌>>◌}

-- A guard and what follows it pass where both do.
pub guard_iff :
    {E : Type 0} {P Q : Type 0} (t : Bool) (e : E) (k : Result E (Unit {0}))
    → ((t ≡ true) ↔ P)
    → ((k ≡ ok tt) ↔ Q)
    → ((guard t e >> k) ≡ ok tt) ↔ (P × Q)
guard_iff true e k (f, g) (h, i) = ((λ x. (f refl, h x)), (λ x. i x.1))
guard_iff false e k (f, g) (h, i) = ((λ x. absurd (cc)), (λ x. absurd (let y = g x.0 in cc)))

pub last_iff :
    {E : Type 0} {P : Type 0} (t : Bool) (e : E) → ((t ≡ true) ↔ P) → (guard t e ≡ ok tt) ↔ P
last_iff true e (f, g) = ((λ _. f refl), (λ _. refl))
last_iff false e (f, g) = ((λ x. absurd (cc)), (λ x. absurd (let y = g x in cc)))

pub same_iff : {t : Bool} → (t ≡ true) ↔ (t ≡ true)
same_iff = ((λ e. e), (λ e. e))

pub either_iff : (a b c : Bytes) → ((equal a b || equal a c) ≡ true) ↔ ((a ≡ b) ⊎ (a ≡ c))
either_iff a b c = (
  (λ e. elim (Bool-cases (equal a b)) [
    | inl x ↦ inl ((equal_iff a b).0 x)
    | inr x ↦ inr ((equal_iff a c).0 (rw x at e))
  ]),
  (λ s. elim s [
    | inl x ↦ let y = (equal_iff a b).1 x in rw y refl
    | inr x ↦ let y = (equal_iff a c).1 x in ground arith
  ]),
)

pub guard_all_iff :
    {E : Type 0} (t u : Bool) (e : E) (k : Result E (Unit {0}))
    → ((k ≡ ok tt) ↔ (u ≡ true))
    → ((guard t e >> k) ≡ ok tt) ↔ ((t && u) ≡ true)
guard_all_iff true u e k h = h
guard_all_iff false u e k h = ((λ x. absurd (cc)), (λ x. absurd (cc)))

pub not_iff : (t : Bool) → (not t ≡ true) ↔ (t ≡ false)
not_iff true = ((λ e. absurd (cc)), (λ e. absurd (cc)))
not_iff false = ((λ _. refl), (λ _. refl))

pub leb_and_iff : (m n : ℕ) (b : Bool) → ((leb m n && not b) ≡ true) ↔ ((m ≤ n) × (b ≡ false))
leb_and_iff m n true = ((λ e. absurd (ground arith)), (λ e. absurd (let x = e.1 in cc)))
leb_and_iff m n false = ((λ e. (ground arith, refl)), (λ e. ground (arith, e.0)))

-- Three cases that exclude each other, one of which holds.
pub cases_iff :
    {E : Type 0} {L M N P Q S : Type 0} (a b c : Bool) (j k l : Result E (Unit {0}))
    → ((a ≡ true) ↔ L)
    → ((b ≡ true) ↔ M)
    → ((c ≡ true) ↔ N)
    → ((j ≡ ok tt) ↔ P)
    → ((k ≡ ok tt) ↔ Q)
    → ((l ≡ ok tt) ↔ S)
    → (L → M → ⊥)
    → (L → N → ⊥)
    → (M → N → ⊥)
    → (c || (a || b)) ≡ true
    → ((if a then j else if b then k else if c then l else ok tt) ≡ ok tt)
      ↔ ((L × P) ⊎ ((M × Q) ⊎ (N × S)))
cases_iff true b c j k l A B C J K Z lm ln mn h = (
  (λ e. inl (A.0 refl, J.0 e)),
  (λ s. elim s [
    | inl x ↦ J.1 x.1
    | inr y ↦ elim y [ inl x ↦ absurd (lm (A.0 refl) x.0) | inr x ↦ absurd (ln (A.0 refl) x.0) ]
  ]),
)
cases_iff false true c j k l A B C J K Z lm ln mn h = (
  (λ e. inr (inl (B.0 refl, K.0 e))),
  (λ s. elim s [
    | inl x ↦ absurd (lm x.0 (B.0 refl))
    | inr y ↦ elim y [ inl x ↦ K.1 x.1 | inr x ↦ absurd (mn (B.0 refl) x.0) ]
  ]),
)
cases_iff false false true j k l A B C J K Z lm ln mn h = (
  (λ e. inr (inr (C.0 refl, Z.0 e))),
  (λ s. elim s [
    | inl x ↦ absurd (ln x.0 (C.0 refl))
    | inr y ↦ elim y [ inl x ↦ absurd (mn x.0 (C.0 refl)) | inr x ↦ Z.1 x.1 ]
  ]),
)
cases_iff false false false j k l A B C J K Z lm ln mn h = absurd (cc)
