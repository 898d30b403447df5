-- ===== src/Prelude/Results.antt =====
-- Go's `(value, error)` results: a value or an error, never both.
use mathlib.Core.Path.{◌≡◌, refl}
use mathlib.Core.Bool.{Bool, true, false, not}
use aii_plugin_sdk.Prelude.Tests.{if◌then◌else◌}

pub data Result (E A : Type 0) : Type 0 where
  err : E → Result E A
  ok : A → Result E A

-- `if !test { return failure }`.
abbrev pub guard : {E : Type 0} → Bool → E → Result E (Unit {0})
guard test failure = if test then ok tt else err failure

abbrev pub ◌>>=◌ : {E A B : Type 0} → Result E A → (A → Result E B) → Result E B
err failure >>= next = err failure
ok value >>= next = next value

abbrev pub ◌>>◌ : {E B : Type 0} → Result E (Unit {0}) → Result E B → Result E B
check >> next = check >>= λ _. next

infixl 5 ◌>>=◌ ◌>>◌
-- What the two halves of a chain that succeeds give.
pub >>=-eq-ok :
    {E A B : Type 0} (first : Result E A) (next : A → Result E B) {out : B}
    → (first >>= next) ≡ ok out
    → (mid : A) × (first ≡ ok mid) × (next mid ≡ ok out)
>>=-eq-ok (err _) next passed = cc
>>=-eq-ok (ok mid) next passed = (mid, refl, passed)

-- Inversion of a guard that was passed, and of a check without a result.
pub guard-ok :
    {E B : Type 0} (t : Bool) (e : E) (k : Result E B) {b : B}
    → (guard t e >> k) ≡ ok b
    → (t ≡ true) × (k ≡ ok b)
guard-ok true e k h = (refl, h)
guard-ok false e k h = cc

pub >>-ok :
    {E B : Type 0} (m : Result E (Unit {0})) (k : Result E B) {b : B}
    → (m >> k) ≡ ok b
    → (m ≡ ok tt) × (k ≡ ok b)
>>-ok (ok tt) k h = (refl, h)
>>-ok (err e) k h = cc

-- The same for a guard on a negation, and for a last guard.
pub guard-not-ok :
    {E B : Type 0} (t : Bool) (e : E) (k : Result E B) {b : B}
    → (guard (not t) e >> k) ≡ ok b
    → (t ≡ false) × (k ≡ ok b)
guard-not-ok false e k h = (refl, h)
guard-not-ok true e k h = cc

pub last_guard-ok : {E : Type 0} (t : Bool) (e : E) → guard t e ≡ ok tt → t ≡ true
last_guard-ok true e h = refl
last_guard-ok false e h = absurd (cc)
