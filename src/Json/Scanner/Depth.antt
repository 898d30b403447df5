-- ===== src/Json/Scanner/Depth.antt =====
-- The nesting bound: room decides what is accepted, and what is accepted in little room is
-- accepted alike in more.
use aii_plugin_sdk.Prelude.{
  Bool, Bool-cases, List, Option, [], ap, false, if_rule, if◌then◌else◌, inl, inr, length, none,
  not, refl, replicate, some, subst, suc, true, zero, ℕ, ◌++◌, ◌==◌, ◌∙◌, ◌∷◌, ◌≡◌, ◌⊎◌,
}
use aii_plugin_sdk.Prelude.Bytes.{Bytes}
use aii_plugin_sdk.Json.Loop.{Turn, TurnExtends, fail, scan, scan-extends, scan_fails}
use aii_plugin_sdk.Json.Text.{string_, ws}
use aii_plugin_sdk.Json.Number.{ParsedFloat}
use aii_plugin_sdk.Json.Text.Utf8.{utf8_valid}
use aii_plugin_sdk.Json.Scanner.{
  array, array_turn, colon, empty_at, ends, max_scan_depth, member_key, member_value, nested,
  object, object_turn, one_value, seen_key, then_separated, validate_strict, value, value_in,
}

-- `w` reads what `v` reads.
abbrev pub Extends : (Bytes → Option Bytes) → (Bytes → Option Bytes) → Type 0
Extends v w = (b : Bytes) → (v b ≡ none) ⊎ (w b ≡ v b)

module _ (v w : Bytes → Option Bytes) (ext : Extends v w) where
  member_value-extends :
      (seen : List Bytes) (o : Option Bytes)
      → (member_value v seen o ≡ fail) ⊎ (member_value w seen o ≡ member_value v seen o)
  unfolding member_value then_separated
  member_value-extends seen none = inl refl
  member_value-extends seen (some b) = elim (ext b) [ inl e ↦ inl (rw e) | inr e ↦ inr (rw e) ]

  member_key-extends :
      (seen : List Bytes) (o : Option (Bytes × Bytes))
      → (member_key v seen o ≡ fail) ⊎ (member_key w seen o ≡ member_key v seen o)
  unfolding member_key
  member_key-extends seen none = inl refl
  member_key-extends seen (some (key, b)) = elim (Bool-cases (seen_key seen key)) [
    | inl e ↦ inl (rw e)
    | inr e ↦ rw e (member_value-extends (key ∷ seen) (colon (ws b)))
  ]

  object_turn-extends : TurnExtends (object_turn v) (object_turn w)
  unfolding object_turn
  object_turn-extends seen b = member_key-extends seen (string_ (ws b))

  array_turn-extends : TurnExtends (array_turn v) (array_turn w)
  unfolding array_turn then_separated
  array_turn-extends u b = elim (ext (ws b)) [ inl e ↦ inl (rw e) | inr e ↦ inr (rw e) ]

  ending-extends :
      {S : Type 0} (turn turn' : S → Bytes → Turn S Bytes) (s : S) (b : Bytes) (o : Option Bytes)
      → TurnExtends turn turn'
      → (◌≡◌ {A = Option Bytes} (elim o [ some rest ↦ some rest | none ↦ scan turn s b ]) none)
        ⊎ (◌≡◌ {A = Option Bytes}
            (elim o [ some rest ↦ some rest | none ↦ scan turn' s b ])
            (elim o [ some rest ↦ some rest | none ↦ scan turn s b ]))
  ending-extends turn turn' s b none h = scan-extends turn turn' h s b
  ending-extends turn turn' s b (some rest) h = inr refl

  object-Extends : Extends (object v) (object w)
  unfolding object
  object-Extends b =
      ending-extends (object_turn v) (object_turn w) [] (ws b) (empty_at b'}' (ws b))
        object_turn-extends

  array-Extends : Extends (array v) (array w)
  unfolding array
  array-Extends b =
      ending-extends (array_turn v) (array_turn w) tt (ws b) (empty_at b']' (ws b))
        array_turn-extends

-- One more level of room, or none at all against some.
data Roomier : Option (Bytes → Option Bytes) → Option (Bytes → Option Bytes) → Type 0 where
  from_none : {o : Option (Bytes → Option Bytes)} → Roomier none o
  from_some : {v w : Bytes → Option Bytes} → Extends v w → Roomier (some v) (some w)

nested-Extends :
    (container : (Bytes → Option Bytes) → Bytes → Option Bytes)
    → ((v w : Bytes → Option Bytes) → Extends v w → Extends (container v) (container w))
    → {o o' : Option (Bytes → Option Bytes)} → Roomier o o'
    → Extends (nested container o) (nested container o')
unfolding nested
nested-Extends container h from_none b = inl refl
nested-Extends container h (from_some {v} {w} e) b = h v w e b

if-extends :
    (t : Bool) {x y x' y' : Option Bytes}
    → (x ≡ none) ⊎ (x' ≡ x)
    → (y ≡ none) ⊎ (y' ≡ y)
    → ((if t then x else y) ≡ none) ⊎ ((if t then x' else y') ≡ (if t then x else y))
if-extends true p q = p
if-extends false p q = q

abbrev first_of_some : Option (Bytes → Option Bytes) → Bytes → Option Bytes
first_of_some none b = none
first_of_some (some v) b = v b

module _ (parse_float : Bytes → ParsedFloat) where
  value_in-Extends :
      {o o' : Option (Bytes → Option Bytes)}
      → Roomier o o'
      → Extends (value_in parse_float o) (value_in parse_float o')
  unfolding value_in
  value_in-Extends r [] = inl refl
  value_in-Extends r (c ∷ b) =
      if-extends (c == b'{') (nested-Extends object object-Extends r b)
        (if-extends (c == b'[') (nested-Extends array array-Extends r b) (inr refl))

  pub value-Extends : (room : ℕ) → Extends (value parse_float room) (value parse_float (suc room))
  unfolding value
  value-Extends zero b = value_in-Extends {o' = some (value_in parse_float none)} from_none b
  value-Extends (suc room) b = value_in-Extends (from_some (value-Extends room)) b

  -- A value accepted with little room is accepted with one level more, and read up to the same
  -- byte.
  pub value-more_room :
      (room : ℕ) (b : Bytes) {rest : Bytes}
      → value parse_float room b ≡ some rest
      → value parse_float (suc room) b ≡ some rest
  value-more_room room b e = elim (value-Extends room b) [
    | inl n ↦ absurd (cc)
    | inr same ↦ same ∙ e
  ]

  opens_in :
      (inner : Option (Bytes → Option Bytes)) (rest : Bytes)
      → ((v : Bytes → Option Bytes) → inner ≡ some v → array v rest ≡ none)
      → value_in parse_float inner (b'[' ∷ rest) ≡ none
  unfolding value_in nested
  opens_in none rest h = refl
  opens_in (some v) rest h = h v refl

  array-none :
      (v : Bytes → Option Bytes) (rest : Bytes)
      → v (b'[' ∷ rest) ≡ none
      → array v (b'[' ∷ rest) ≡ none
  unfolding array ws empty_at
  array-none v rest e =
      scan_fails (array_turn v) tt (b'[' ∷ rest) (unfold array_turn then_separated ws in rw e)

  -- Whatever stands behind them, `room + 1` opening brackets are refused with that much room.
  pub value-too_deep :
      (room : ℕ) (rest : Bytes) → value parse_float room (replicate (suc room) b'[' ++ rest) ≡ none
  unfolding value
  value-too_deep zero rest = opens_in none rest (λ v e. absurd (cc))
  value-too_deep (suc room) rest =
      opens_in (some (value parse_float room)) (replicate (suc room) b'[' ++ rest) (λ v e.
        array-none v (replicate room b'[' ++ rest) (
          subst (λ o. first_of_some o (replicate (suc room) b'[' ++ rest) ≡ none) e
            (value-too_deep room rest)))

  one_value-too_deep :
      (rest : Bytes) → one_value parse_float (replicate (suc max_scan_depth) b'[' ++ rest) ≡ false
  unfolding one_value ws ends
  one_value-too_deep rest = ap (ends parse_float) (value-too_deep max_scan_depth rest)

  -- A payload that opens more than 64 arrays in a row is refused, whatever follows them.
  pub validate_strict-too_deep :
      (rest : Bytes)
      → validate_strict parse_float (replicate (suc max_scan_depth) b'[' ++ rest) ≡ false
  unfolding validate_strict
  validate_strict-too_deep rest =
      let payload = replicate (suc max_scan_depth) b'[' ++ rest in
      if_rule (λ x. x ≡ false) (length payload == 0) refl
        (if_rule (λ x. x ≡ false) (not (utf8_valid payload)) refl (one_value-too_deep rest))
