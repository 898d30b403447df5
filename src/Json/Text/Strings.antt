-- ===== src/Json/Text/Strings.antt =====
-- Reading a string takes bytes off the front.
use aii_plugin_sdk.Prelude.{
  Bool-cases, Option, [], arith, drop, if_rule, inl, inr, leb, ltb, none, refl, some, ℕ, ◌&&◌, ◌==◌,
  ◌∷◌, ◌≡◌,
}
use aii_plugin_sdk.Prelude.Bytes.{Bytes}
use aii_plugin_sdk.Prelude.Options.{◌>>=◌}
use aii_plugin_sdk.Prelude.Suffix.{
  Suffix, Suffix-drop, Suffix-refl, Takes, Takes-Suffix, Takes-cons,
}
use aii_plugin_sdk.Json.Text.Utf8.{is_surrogate}
use aii_plugin_sdk.Json.Reads.{
  Leaves, Leaves-Suffix, TurnTakes, fails, goes_on, leaves, nothing, scan-Takes, second, stops,
}
use aii_plugin_sdk.Json.Text.{
  code_unit, escape, escape_of, escaped, hex4, is_space, letter_escape, low_half, string_,
  string_turn, surrogate_pair, unicode_escape, ws,
}

pub ws-Suffix : (b : Bytes) → Suffix b (ws b)
unfolding ws
ws-Suffix [] = Suffix-refl []
ws-Suffix (c ∷ b) =
    if_rule (Suffix (c ∷ b)) (is_space c) (Takes-Suffix (Takes-cons c (ws-Suffix b)))
      (Suffix-refl (c ∷ b))

Leaves-bind :
    (b : Bytes) (m : Option ℕ) (f : ℕ → Option (ℕ × Bytes))
    → ((u : ℕ) → Leaves b (f u))
    → Leaves b (m >>= f)
Leaves-bind b none f h = nothing
Leaves-bind b (some u) f h = h u

surrogate_pair-Leaves : (u : ℕ) (low : Bytes) (lo : ℕ) → Leaves low (surrogate_pair u low lo)
unfolding surrogate_pair
surrogate_pair-Leaves u low lo = if_rule (Leaves low) _ nothing (leaves (Suffix-drop 4 low))

low_half-Leaves : (u : ℕ) (b : Bytes) → Leaves b (low_half u b)
unfolding low_half
low_half-Leaves u [] = nothing
low_half-Leaves u (x ∷ []) = nothing
low_half-Leaves u (x ∷ y ∷ low) = if_rule (Leaves (x ∷ y ∷ low)) _ nothing (
    Leaves-Suffix (x ∷ y ∷ [], refl)
      (Leaves-bind low (hex4 low) (surrogate_pair u low) (surrogate_pair-Leaves u low)))

code_unit-Leaves : (b : Bytes) (u : ℕ) → Leaves b (code_unit b u)
unfolding code_unit
code_unit-Leaves b u = if_rule (Leaves b) (u == 0) nothing (
    if_rule (Leaves b) (is_surrogate u && leb 0xDC00 u) nothing (
      if_rule (Leaves b) (is_surrogate u)
        (Leaves-Suffix (Suffix-drop 4 b) (low_half-Leaves u (drop 4 b)))
        (leaves (Suffix-drop 4 b))))

unicode_escape-Leaves : (b : Bytes) → Leaves b (unicode_escape b)
unfolding unicode_escape
unicode_escape-Leaves b = Leaves-bind b (hex4 b) (code_unit b) (code_unit-Leaves b)

escape_of-Leaves : (m : Option ℕ) (e : ℕ) (b : Bytes) → Leaves b (escape_of m e b)
unfolding escape_of
escape_of-Leaves (some r) e b = leaves (Suffix-refl b)
escape_of-Leaves none e b = if_rule (Leaves b) (e == b'u') (unicode_escape-Leaves b) nothing

escape-Leaves : (c : ℕ) (b : Bytes) → Leaves b (escape (c ∷ b))
unfolding escape
escape-Leaves c [] = nothing
escape-Leaves c (e ∷ b) = Leaves-Suffix (e ∷ [], refl) (escape_of-Leaves (letter_escape e) e b)

escaped-TurnTakes :
    (c : ℕ) (out b : Bytes) {o : Option (ℕ × Bytes)}
    → Leaves b o
    → TurnTakes second (c ∷ b) (escaped out o)
unfolding escaped
escaped-TurnTakes c out b nothing = fails
escaped-TurnTakes c out b (leaves l) = goes_on (Takes-cons c l)

string_turn-TurnTakes : (out b : Bytes) → TurnTakes second b (string_turn out b)
unfolding string_turn
string_turn-TurnTakes out [] = fails
string_turn-TurnTakes out (c ∷ b) =
    if_rule (TurnTakes second (c ∷ b)) (c == b'"') (stops (Takes-cons c (Suffix-refl b))) (
      if_rule (TurnTakes second (c ∷ b)) (c == b'\\')
        (escaped-TurnTakes c out b (escape-Leaves c b))
        (if_rule (TurnTakes second (c ∷ b)) (ltb c 0x20) fails
          (goes_on (Takes-cons c (Suffix-refl b)))))

-- A string is read off the front with at least its opening quote, and the fuel of its loop is
-- enough.
pub string_-Takes : (b : Bytes) {x rest : Bytes} → string_ b ≡ some (x, rest) → Takes b rest
unfolding string_
string_-Takes [] e = absurd (cc)
string_-Takes (c ∷ b) e = elim (Bool-cases (c == b'"')) [
  | inl q ↦
      Takes-cons c
        (Takes-Suffix (scan-Takes string_turn second string_turn-TurnTakes [] b (rw q at e)))
  | inr q ↦ absurd (ground arith)
]
