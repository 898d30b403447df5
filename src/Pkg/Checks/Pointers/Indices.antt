-- ===== src/Pkg/Checks/Pointers/Indices.antt =====
-- The decimal text of an index is read as that index.
use native.Mathlib.Nat.{pow-suc}
use aii_plugin_sdk.Pkg.Checks.Pointers.{itoa, zero_led}
use aii_plugin_sdk.Prelude.Int.{pos}
use aii_plugin_sdk.Prelude.{
  Bool, Bool-cases, [], ap, arith, false, if◌then◌else◌, inl, inr, length, ltb, none, refl, some,
  suc, true, zero, ℕ, ◌%◌, ◌*◌, ◌++◌, ◌+◌, ◌-◌, ◌/◌, ◌<◌, ◌==◌, ◌^◌, ◌∙◌, ◌∷◌, ◌≡◌, ◌≤◌,
}
use aii_plugin_sdk.Prelude.Bytes.{Bytes}
use aii_plugin_sdk.Json.Text.{is_digit}
use aii_plugin_sdk.Json.Number.{atoi, decimal, signed, unsigned}
use aii_plugin_sdk.Plugin.Responses.{decimal_digits}

decimal-snoc :
    (acc c : ℕ) (b : Bytes) (n : ℕ)
    → is_digit c ≡ true
    → decimal acc b ≡ some n
    → decimal acc (b ++ (c ∷ [])) ≡ some (n * 10 + (c - b'0'))
unfolding decimal
decimal-snoc acc c [] n h e = rw h (ap (λ x. some (x * 10 + (c - b'0'))) (cc))
decimal-snoc acc c (d ∷ b) n h e = elim (Bool-cases (is_digit d)) [
  | inl i ↦ rw i (decimal-snoc (acc * 10 + (d - b'0')) c b n h (rw i at e))
  | inr i ↦ absurd (let f = rw i at e in cc)
]

-- What holds of both cases of `decimal_digits` holds of it.
digits_rule :
    (P : Bytes → Type 0) (f n : ℕ)
    → (n < 10 → P ((b'0' + n) ∷ []))
    → (10 ≤ n → P (decimal_digits f (n / 10) ++ ((b'0' + n % 10) ∷ [])))
    → P (decimal_digits (suc f) n)
digits_rule P f n h k = by_test (ltb n 10) (λ e. h (ground arith)) (λ e. k (ground arith))
  where
    by_test :
        (t : Bool)
        → (t ≡ true → P ((b'0' + n) ∷ []))
        → (t ≡ false → P (decimal_digits f (n / 10) ++ ((b'0' + n % 10) ∷ [])))
        → P (elim t [
          | true ↦ (b'0' + n) ∷ []
          | false ↦ decimal_digits f (n / 10) ++ ((b'0' + n % 10) ∷ [])
        ])
    by_test true h k = h refl
    by_test false h k = k refl

decimal-decimal_digits : (f n : ℕ) → n < 10 ^ f → decimal 0 (decimal_digits f n) ≡ some n
unfolding decimal
decimal-decimal_digits zero n h = ap some (omega arith)
decimal-decimal_digits (suc f) n h =
    let q : n / 10 < 10 ^ f = omega (arith, pow-suc 10 f) in
    let ih = decimal-decimal_digits f (n / 10) q in
    digits_rule (λ b. decimal 0 b ≡ some n) f n (λ l. one_digit n l)
      (λ l.
        decimal-snoc 0 (b'0' + n % 10) (decimal_digits f (n / 10)) (n / 10) (ground arith) ih
        ∙ ap some (omega arith))
  where
    one_digit :
        (n : ℕ)
        → n < 10
        → (if is_digit (b'0' + n) then some (0 * 10 + (b'0' + n - b'0')) else none) ≡ some n
    one_digit n l =
        let d : is_digit (b'0' + n) ≡ true = ground arith in rw d (ap some (omega arith))

-- The first digit of a number that is not zero.
First : Bytes → Type 0
First [] = ⊥
First (c ∷ b) = (b'1' ≤ c) × (c ≤ b'9')

First-append : (a b : Bytes) → First a → First (a ++ b)
unfolding First
First-append [] b h = absurd h
First-append (c ∷ a) b h = h

decimal_digits-First : (f n : ℕ) → 1 ≤ n → n < 10 ^ f → First (decimal_digits f n)
unfolding First
decimal_digits-First zero n l h = absurd (omega arith)
decimal_digits-First (suc f) n l h =
    digits_rule First f n (λ k. (omega arith, omega arith))
      (λ k.
        First-append (decimal_digits f (n / 10)) _
          (decimal_digits-First f (n / 10) (omega arith) (omega (arith, pow-suc 10 f))))

-- What `Pointer` asks of a token into a list.
unfoldable pub IsIndex : ℕ → Bytes → Type 0
IsIndex n b = (atoi b ≡ some (pos n)) × ((length b == 0) ≡ false) × (zero_led b ≡ false)

not_zero : (c : ℕ) (b : Bytes) → b'1' ≤ c → zero_led (c ∷ b) ≡ false
unfolding zero_led
not_zero c [] h = refl
not_zero c (d ∷ b) h = ground arith

of_digits : (b : Bytes) (n : ℕ) → First b → decimal 0 b ≡ some n → n < 2 ^ 63 → IsIndex n b
unfolding First IsIndex atoi unsigned signed zero_led
of_digits [] n h e l = absurd h
of_digits (c ∷ b) n h e l =
    let m : (c == b'-') ≡ false = ground (arith, h.0) in
    let p : (c == b'+') ≡ false = ground (arith, h.0) in
    let r : ltb n (2 ^ 63) ≡ true = ground (arith, l) in
    (rw (m, p, e, r) refl, ground arith, not_zero c b h.0)

pub itoa-IsIndex : (n : ℕ) → n < 2 ^ 63 → IsIndex n (itoa n)
unfolding itoa
itoa-IsIndex zero l = unfold IsIndex atoi zero_led in (refl, refl, refl)
itoa-IsIndex (suc n) l =
    let h : suc n < 10 ^ 20 = omega arith in
    of_digits (decimal_digits 20 (suc n)) (suc n) (decimal_digits-First 20 (suc n) (omega arith) h)
      (decimal-decimal_digits 20 (suc n) h) l
