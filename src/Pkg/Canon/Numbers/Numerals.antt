-- ===== src/Pkg/Canon/Numbers/Numerals.antt =====
-- Digits before and behind a point are the only such digits of their value.
use aii_plugin_sdk.Pkg.Canon.Numbers.Shape.{IsWhole, NoTrailingZero}
use mathlib.Core.Path.{refl}
use native.Mathlib.Nat.{pow-suc}
use aii_plugin_sdk.Prelude.{
  [], ap, append_assoc, arith, inl, inr, length, length-append, length-replicate, replicate, suc,
  sym, zero, ℕ, ◌*◌, ◌++◌, ◌+◌, ◌<◌, ◌^◌, ◌∙◌, ◌∷◌, ◌≡◌,
}
use aii_plugin_sdk.Prelude.Bytes.{Bytes}
use aii_plugin_sdk.Prelude.Decimal.{
  AllDigits, NoLeadingZero, compare_bytes, compare_bytes-digits_value, compare_numbers,
  digits_value, digits_value-length, same,
}

pow_add : (m n : ℕ) → 10 ^ (m + n) ≡ 10 ^ m * 10 ^ n
pow_add zero n = let z : 0 + n ≡ n = omega arith in rw z (omega arith)
pow_add (suc m) n =
    let z : suc m + n ≡ suc (m + n) = omega arith in
    rw (z, pow-suc 10 (m + n), pow-suc 10 m, pow_add m n) (grind arith)

AllDigits-append : (a b : Bytes) → AllDigits a → AllDigits b → AllDigits (a ++ b)
AllDigits-append [] b h k = k
AllDigits-append (c ∷ a) b h k = (h.0, AllDigits-append a b h.1 k)

digits_value-append :
    (a b : Bytes) → digits_value (a ++ b) ≡ digits_value a * 10 ^ length b + digits_value b
unfolding digits_value
digits_value-append [] b = omega arith
digits_value-append (c ∷ a) b =
    grind (arith, digits_value-append a b, length-append a b, pow_add (length a) (length b))

abbrev zeros : ℕ → Bytes
zeros n = replicate n b'0'

length-zeros : (n : ℕ) → length (zeros n) ≡ n
length-zeros n = length-replicate n b'0'

AllDigits-zeros : (n : ℕ) → AllDigits (zeros n)
AllDigits-zeros zero = tt
AllDigits-zeros (suc n) = (refl, AllDigits-zeros n)

digits_value-zeros : (n : ℕ) → digits_value (zeros n) ≡ 0
unfolding digits_value
digits_value-zeros zero = refl
digits_value-zeros (suc n) = omega (arith, digits_value-zeros n)

compare_bytes-same : (a b : Bytes) → compare_bytes a b ≡ same → a ≡ b
unfolding compare_bytes
compare_bytes-same [] [] h = refl
compare_bytes-same [] (y ∷ b) h = absurd (cc)
compare_bytes-same (x ∷ a) [] h = absurd (cc)
compare_bytes-same (x ∷ a) (y ∷ b) h = ground (arith, compare_bytes-same a b)

all_zeros :
    (y : ℕ) (g : Bytes) (m n : ℕ) → NoTrailingZero (y ∷ g) → zeros m ≡ (y ∷ g) ++ zeros n → ⊥
all_zeros y g zero n k e = cc
all_zeros y [] (suc m) n k e = k (cc)
all_zeros y (x ∷ g) (suc m) n k e = all_zeros x g m n k (cc)

-- No digits behind the point that a longer list of zeros could make up for.
trailing :
    (f g : Bytes) (m n : ℕ)
    → NoTrailingZero f
    → NoTrailingZero g
    → f ++ zeros m ≡ g ++ zeros n
    → f ≡ g
trailing [] [] m n h k e = refl
trailing [] (y ∷ g) m n h k e = absurd (all_zeros y g m n k e)
trailing (x ∷ f) [] m n h k e = absurd (all_zeros x f n m h (sym e))
trailing (x ∷ f) (y ∷ g) m n h k e =
    let t = trailing f g m n (behind x f h) (behind y g k) (cc) in cc
  where
    behind : (x : ℕ) (f : Bytes) → NoTrailingZero (x ∷ f) → NoTrailingZero f
    behind x [] h = tt
    behind x (y ∷ f) h = h

padded : (w f : Bytes) (n : ℕ) → digits_value (w ++ (f ++ zeros n)) ≡ digits_value (w ++ f) * 10 ^ n
padded w f n =
    rw
      (
        ← append_assoc w f (zeros n),
        digits_value-append (w ++ f) (zeros n),
        length-zeros n,
        digits_value-zeros n,
      )
      (omega arith)

-- A whole part of fewer digits stands for less.
shorter :
    (v w p q : Bytes)
    → AllDigits v
    → AllDigits w
    → AllDigits p
    → AllDigits q
    → IsWhole v
    → IsWhole w
    → length p ≡ length q
    → length v < length w
    → digits_value (v ++ p) < digits_value (w ++ q)
shorter v w p q a b c d i j l h =
    digits_value-length (v ++ p) (w ++ q) (AllDigits-append v p a c) (AllDigits-append w q b d)
      (first v w q i j h) (rw (length-append v p, length-append w q) (omega arith))
  where
    first : (v w q : Bytes) → IsWhole v → IsWhole w → length v < length w → NoLeadingZero (w ++ q)
    first v [] q i j h = absurd j
    first [] (c ∷ w) q i j h = absurd i
    first (x ∷ v) (c ∷ []) q i j h = absurd (omega arith)
    first (x ∷ v) (c ∷ d ∷ w) q i (inl (e, f)) h = absurd (cc)
    first (x ∷ v) (c ∷ d ∷ w) q i (inr n) h = n

append_same : (a b p q : Bytes) → length a ≡ length b → a ++ p ≡ b ++ q → (a ≡ b) × (p ≡ q)
append_same [] [] p q l e = (refl, e)
append_same [] (y ∷ b) p q l e = absurd (omega arith)
append_same (x ∷ a) [] p q l e = absurd (omega arith)
append_same (x ∷ a) (y ∷ b) p q l e = let (r, s) = append_same a b p q (omega arith) (cc) in (cc, s)

not_apart : {a b x y : ℕ} → (a < b → x < y) → (b < a → y < x) → x ≡ y → a ≡ b
not_apart s t e = ground arith

compare_equal : {x y : ℕ} → x ≡ y → compare_numbers x y ≡ same
compare_equal e = ground arith

pub same_numeral :
    (v f w g : Bytes)
    → AllDigits v
    → AllDigits f
    → IsWhole v
    → NoTrailingZero f
    → AllDigits w
    → AllDigits g
    → IsWhole w
    → NoTrailingZero g
    → digits_value (v ++ f) * 10 ^ length g ≡ digits_value (w ++ g) * 10 ^ length f
    → (v ≡ w) × (f ≡ g)
same_numeral v f w g a b i h c d j k e =
    let p = f ++ zeros (length g) in
    let q = g ++ zeros (length f) in
    let dp = AllDigits-append f (zeros (length g)) b (AllDigits-zeros (length g)) in
    let dq = AllDigits-append g (zeros (length f)) d (AllDigits-zeros (length f)) in
    let lp : length p ≡ length f + length g =
      length-append f (zeros (length g)) ∙ ap (λ n. length f + n) (length-zeros (length g)) in
    let lq : length q ≡ length g + length f =
      length-append g (zeros (length f)) ∙ ap (λ n. length g + n) (length-zeros (length f)) in
    let l : length p ≡ length q = omega arith in
    let e' : digits_value (v ++ p) ≡ digits_value (w ++ q) =
      padded v f (length g) ∙ e ∙ sym (padded w g (length f)) in
    let m : length v ≡ length w =
      (let s = shorter v w p q a c dp dq i j l in
        let t = shorter w v q p c a dq dp j i (sym l) in not_apart s t e') in
    let n : length (v ++ p) ≡ length (w ++ q) =
      rw (length-append v p, length-append w q) (omega arith) in
    let u =
      compare_bytes-digits_value (v ++ p) (w ++ q) (AllDigits-append v p a dp)
        (AllDigits-append w q c dq) n in
    let (r, s) =
      append_same v w p q m (compare_bytes-same (v ++ p) (w ++ q) (u ∙ compare_equal e')) in
    (r, trailing f g (length g) (length f) h k s)
