-- ===== src/Prelude/Suffix.antt =====
-- What is left of a byte string after some bytes are taken off its front.
use aii_plugin_sdk.Prelude.Lists.{drop, length, length-append, take, take-append, take-append-drop}
use aii_plugin_sdk.Prelude.Bytes.{Bytes}
use Prim.Native.Nat.{ℕ, ◌-◌, ◌≤◌, ◌<◌}
use mathlib.Core.Path.{◌≡◌, refl, sym, ap, ◌∙◌}
use mathlib.Core.List.{[], ◌∷◌, ◌++◌, append_assoc}
use native.Mathlib.Omega.{arith}

-- `rest` is what is left of `b` after the bytes `.0`.
abbrev pub Suffix : Bytes → Bytes → Type 0
Suffix b rest = (taken : Bytes) × (b ≡ taken ++ rest)

-- The same with at least one byte taken.
abbrev pub Takes : Bytes → Bytes → Type 0
Takes b rest = (c : ℕ) × (taken : Bytes) × (b ≡ c ∷ (taken ++ rest))

pub Suffix-refl : (b : Bytes) → Suffix b b
Suffix-refl b = ([], refl)

pub Suffix-trans : {a b c : Bytes} → Suffix a b → Suffix b c → Suffix a c
Suffix-trans {c = c} (t, p) (u, q) = (t ++ u, p ∙ ap (◌++◌ t) q ∙ sym (append_assoc t u c))

pub Takes-Suffix : {a b : Bytes} → Takes a b → Suffix a b
Takes-Suffix (c, t, p) = (c ∷ t, p)

pub Takes-trans_suffix : {a b c : Bytes} → Takes a b → Suffix b c → Takes a c
Takes-trans_suffix (x, t, p) s = let (u, q) = Suffix-trans (t, refl) s in (x, u, p ∙ ap (◌∷◌ x) q)

pub Suffix-trans_Takes : {a b c : Bytes} → Suffix a b → Takes b c → Takes a c
Suffix-trans_Takes ([], p) (x, u, q) = (x, u, p ∙ q)
Suffix-trans_Takes {c = c} (y ∷ t, p) s =
    let (u, q) = Suffix-trans (t, refl) (Takes-Suffix s) in (y, u, p ∙ ap (◌∷◌ y) q)

pub Takes-cons : (c : ℕ) {b rest : Bytes} → Suffix b rest → Takes (c ∷ b) rest
Takes-cons c (t, p) = (c, t, ap (◌∷◌ c) p)

pub Suffix-drop : (n : ℕ) (b : Bytes) → Suffix b (drop n b)
Suffix-drop n b = (take n b, sym (take-append-drop n b))

pub length-Suffix : {b rest : Bytes} → Suffix b rest → length rest ≤ length b
length-Suffix {rest = rest} (t, p) = omega (arith, ap length p, length-append t rest)

pub length-Takes : {b rest : Bytes} → Takes b rest → length rest < length b
length-Takes {rest = rest} (c, t, p) = omega (arith, ap length p, length-append t rest)

-- What stands before `rest` in `b`: the source's slice `s.b[from:s.i]`.
abbrev pub consumed : Bytes → Bytes → Bytes
consumed b rest = take (length b - length rest) b

pub consumed-append : (taken rest : Bytes) → consumed (taken ++ rest) rest ≡ taken
consumed-append taken rest =
    let n : length (taken ++ rest) - length rest ≡ length taken =
      omega (arith, length-append taken rest) in
    ap (λ k. take k (taken ++ rest)) n ∙ take-append taken rest

pub consumed-Suffix : {b rest : Bytes} → Suffix b rest → b ≡ consumed b rest ++ rest
consumed-Suffix {rest = rest} (t, p) =
    p ∙ ap (λ k. k ++ rest) (sym (ap (λ k. consumed k rest) p ∙ consumed-append t rest))
