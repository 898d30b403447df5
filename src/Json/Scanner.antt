-- ===== src/Json/Scanner.antt =====
-- The recursive part of pkg/aiiosdk/strictjson.go: values, objects, arrays, and `ValidateStrict`.
-- `room` is `maxScanDepth - s.depth`, the containers that may still be opened. A loop's fuel is
-- that of `scan`, and is enough.
pub mod Takes
pub mod Depth
use aii_plugin_sdk.Prelude.{
  Bool, List, Option, [], any, false, if◌then◌else◌, length, none, not, some, suc, zero, ℕ, ◌==◌,
  ◌||◌, ◌∷◌,
}
use aii_plugin_sdk.Prelude.Bytes.{Bytes, codes, equal}
use aii_plugin_sdk.Json.Loop.{Turn, done, fail, more, scan}
use aii_plugin_sdk.Json.Text.{is_digit, literal, string_, ws}
use aii_plugin_sdk.Json.Text.Utf8.{utf8_valid}
use aii_plugin_sdk.Json.Number.{ParsedFloat, number}

abbrev pub max_scan_depth : ℕ
max_scan_depth = 64

-- The keys that the map `seen` of `object` holds.
abbrev pub seen_key : List Bytes → Bytes → Bool
seen_key seen key = any (equal key) seen

-- What follows a value in a container: a comma goes on, the closing byte ends it.
unfoldable pub separated : {S R : Type 0} → ℕ → (Bytes → R) → S → Bytes → Turn S R
separated close finish s [] = fail
separated close finish s (c ∷ b) =
    if c == b',' then more s b else if c == close then done (finish b) else fail

unfoldable pub then_separated : {S R : Type 0} → ℕ → (Bytes → R) → S → Option Bytes → Turn S R
unfolding separated
then_separated close finish s none = fail
then_separated close finish s (some b) = separated close finish s (ws b)

-- From the colon of a member on: `colon` gives what is behind it.
unfoldable pub colon : Bytes → Option Bytes
colon [] = none
colon (c ∷ b) = if c == b':' then some (ws b) else none

-- The start of a container: `close` at once makes it empty.
unfoldable pub empty_at : ℕ → Bytes → Option Bytes
empty_at close [] = none
empty_at close (c ∷ b) = if c == close then some b else none

module _ (value : Bytes → Option Bytes) where
  unfoldable pub member_value : List Bytes → Option Bytes → Turn (List Bytes) Bytes
  unfolding then_separated
  member_value seen none = fail
  member_value seen (some b) = then_separated b'}' (λ rest. rest) seen (value b)

  unfoldable pub member_key : List Bytes → Option (Bytes × Bytes) → Turn (List Bytes) Bytes
  unfolding member_value colon
  member_key seen none = fail
  member_key seen (some (key, b)) =
      if seen_key seen key then fail else member_value (key ∷ seen) (colon (ws b))

  -- One turn of the loop of `scanner.object`.
  unfoldable pub object_turn : List Bytes → Bytes → Turn (List Bytes) Bytes
  unfolding member_key
  object_turn seen b = member_key seen (string_ (ws b))

  -- `scanner.object`, behind the brace.
  unfoldable pub object : Bytes → Option Bytes
  unfolding object_turn empty_at scan
  object b = elim (empty_at b'}' (ws b)) [
    | some rest ↦ some rest
    | none ↦ scan object_turn [] (ws b)
  ]

  -- One turn of the loop of `scanner.array`.
  unfoldable pub array_turn : Unit {0} → Bytes → Turn (Unit {0}) Bytes
  unfolding then_separated
  array_turn u b = then_separated b']' (λ rest. rest) u (value (ws b))

  -- `scanner.array`, behind the bracket.
  unfoldable pub array : Bytes → Option Bytes
  unfolding array_turn empty_at scan
  array b = elim (empty_at b']' (ws b)) [ some rest ↦ some rest | none ↦ scan array_turn tt (ws b) ]

-- `scanner.nested`: the container's scanner is given the values one level down, if there is room.
unfoldable pub nested :
    ((Bytes → Option Bytes) → Bytes → Option Bytes)
    → Option (Bytes → Option Bytes)
    → Bytes
    → Option Bytes
nested container none b = none
nested container (some value) b = container value b

unfoldable pub without_text : Option (Bytes × Bytes) → Option Bytes
without_text none = none
without_text (some (_, b)) = some b

module _ (parse_float : Bytes → ParsedFloat) where
  -- `scanner.value`, given the values one level down.
  unfoldable pub value_in : Option (Bytes → Option Bytes) → Bytes → Option Bytes
  unfolding nested object array without_text string_ literal number
  value_in inner [] = none
  value_in inner (c ∷ b) =
      if c == b'{'
      then nested object inner b
      else if c == b'['
      then nested array inner b
      else if c == b'"'
      then without_text (string_ (c ∷ b))
      else if c == b'-' || is_digit c
      then number parse_float (c ∷ b)
      else if c == b't'
      then literal (codes "true") (c ∷ b)
      else if c == b'f'
      then literal (codes "false") (c ∷ b)
      else if c == b'n'
      then literal (codes "null") (c ∷ b)
      else none

  unfoldable pub value : ℕ → Bytes → Option Bytes
  unfolding value_in
  value zero = value_in none
  value (suc room) = value_in (some (value room))

  unfoldable pub ends : Option Bytes → Bool
  ends none = false
  ends (some b) = length (ws b) == 0

  unfoldable pub one_value : Bytes → Bool
  unfolding ends value ws
  one_value payload = ends (value max_scan_depth (ws payload))

  -- `ValidateStrict`: true for a nil error. Its one error is ErrJSONDomain.
  unfoldable pub validate_strict : Bytes → Bool
  unfolding one_value utf8_valid
  validate_strict payload =
      if length payload == 0
      then false
      else if not (utf8_valid payload)
      then false
      else one_value payload
