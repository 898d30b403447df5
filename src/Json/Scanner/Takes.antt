-- ===== src/Json/Scanner/Takes.antt =====
-- Reading a value takes at least a byte off the front, so the fuel of every loop is enough.
use aii_plugin_sdk.Json.Number.Takes.{number-Reads}
use aii_plugin_sdk.Json.Number.{ParsedFloat}
use aii_plugin_sdk.Prelude.{
  List, Option, [], arith, if_rule, length, ltb, none, not, refl, some, suc, sym, take, true, zero,
  ℕ, ◌<◌, ◌==◌, ◌||◌, ◌∷◌, ◌≡◌,
}
use aii_plugin_sdk.Prelude.Bytes.{Bytes, codes, equal}
use aii_plugin_sdk.Prelude.Suffix.{
  Suffix, Suffix-drop, Suffix-refl, Suffix-trans, Suffix-trans_Takes, Takes-Suffix, Takes-cons,
}
use aii_plugin_sdk.Json.Loop.{Run, Turn, loop, scan}
use aii_plugin_sdk.Json.Reads.{
  Reading, Reads, Reads-Suffix, Reads-of, TurnTakes, fails, goes_on, reads, scan-Run, scan-Takes,
  scan_fuel, stops, stuck,
}
use aii_plugin_sdk.Json.Text.{is_digit, literal, string_, ws}
use aii_plugin_sdk.Json.Text.Strings.{string_-Takes, ws-Suffix}
use aii_plugin_sdk.Json.Scanner.{
  array, array_turn, colon, empty_at, member_key, member_value, nested, object, object_turn,
  seen_key, separated, then_separated, value, value_in, without_text,
}

-- The readers of values that the loops are given.
abbrev pub Reader : (Bytes → Option Bytes) → Type 0
Reader value = (b : Bytes) → Reads b (value b)

module _ {S R : Type 0} (left : R → Bytes) (finish : Bytes → R) (close : ℕ) (s : S) where
  -- `finish` leaves at most what it is given.
  pub separated-TurnTakes :
      ((b : Bytes) → Suffix b (left (finish b)))
      → (b : Bytes) → TurnTakes left b (separated close finish s b)
  unfolding separated
  separated-TurnTakes h [] = fails
  separated-TurnTakes h (c ∷ b) =
      if_rule (TurnTakes left (c ∷ b)) (c == b',') (goes_on (Takes-cons c (Suffix-refl b)))
        (if_rule (TurnTakes left (c ∷ b)) (c == close) (stops (Takes-cons c (h b))) fails)

  TurnTakes-Suffix :
      {a b : Bytes} {t : Turn S R} → Suffix a b → TurnTakes left b t → TurnTakes left a t
  TurnTakes-Suffix s fails = fails
  TurnTakes-Suffix s (stops t) = stops (Suffix-trans_Takes s t)
  TurnTakes-Suffix s (goes_on t) = goes_on (Suffix-trans_Takes s t)

  pub then_separated-TurnTakes :
      ((b : Bytes) → Suffix b (left (finish b)))
      → {b : Bytes} {o : Option Bytes} → Reads b o
      → TurnTakes left b (then_separated close finish s o)
  unfolding then_separated
  then_separated-TurnTakes h stuck = fails
  then_separated-TurnTakes h (reads {rest} t) =
      TurnTakes-Suffix (Suffix-trans (Takes-Suffix t) (ws-Suffix rest))
        (separated-TurnTakes h (ws rest))

pub colon-Reads : (b : Bytes) → Reads b (colon b)
unfolding colon
colon-Reads [] = stuck
colon-Reads (c ∷ b) = if_rule (Reads (c ∷ b)) (c == b':') (reads (Takes-cons c (ws-Suffix b))) stuck

pub empty_at-Reads : (close : ℕ) (b : Bytes) → Reads b (empty_at close b)
unfolding empty_at
empty_at-Reads close [] = stuck
empty_at-Reads close (c ∷ b) =
    if_rule (Reads (c ∷ b)) (c == close) (reads (Takes-cons c (Suffix-refl b))) stuck

abbrev id : Bytes → Bytes
id b = b

module _ (value : Bytes → Option Bytes) (reader : Reader value) where
  member_value-TurnTakes :
      (seen : List Bytes) {b : Bytes} {o : Option Bytes}
      → Reads b o
      → TurnTakes id b (member_value value seen o)
  unfolding member_value
  member_value-TurnTakes seen stuck = fails
  member_value-TurnTakes seen (reads {rest} t) =
      then_separated-TurnTakes id id b'}' seen Suffix-refl
        (Reads-Suffix (Takes-Suffix t) (reader rest))

  member_key-TurnTakes :
      (seen : List Bytes) (b : Bytes) (o : Option (Bytes × Bytes))
      → o ≡ string_ b
      → TurnTakes id b (member_key value seen o)
  unfolding member_key
  member_key-TurnTakes seen b none e = fails
  member_key-TurnTakes seen b (some (key, rest)) e =
      let past = Suffix-trans (Takes-Suffix (string_-Takes b (sym e))) (ws-Suffix rest) in
      if_rule (TurnTakes id b) (seen_key seen key) fails
        (member_value-TurnTakes (key ∷ seen) (Reads-Suffix past (colon-Reads (ws rest))))

  pub object_turn-Reading : Reading (object_turn value) id
  unfolding object_turn
  object_turn-Reading seen b =
      TurnTakes-Suffix id id b'}' seen (ws-Suffix b)
        (member_key-TurnTakes seen (ws b) (string_ (ws b)) refl)

  pub array_turn-Reading : Reading (array_turn value) id
  unfolding array_turn
  array_turn-Reading u b =
      then_separated-TurnTakes id id b']' u Suffix-refl (Reads-Suffix (ws-Suffix b) (reader (ws b)))

  -- A container's end at once, or its loop.
  ending-Reads :
      {S : Type 0} (close : ℕ) (turn : S → Bytes → Turn S Bytes) (s : S) (b : Bytes)
      (o : Option Bytes)
      → Reading turn id
      → Reads b o
      → Reads b (elim o [ some rest ↦ some rest | none ↦ scan turn s b ])
  ending-Reads close turn s b none h r =
      Reads-of (scan turn s b) (λ rest e. scan-Takes turn id h s b e)
  ending-Reads close turn s b (some rest) h r = r

  object-Reads : (b : Bytes) → Reads b (object value b)
  unfolding object
  object-Reads b = Reads-Suffix (ws-Suffix b) (
      ending-Reads b'}' (object_turn value) [] (ws b) (empty_at b'}' (ws b)) object_turn-Reading
        (empty_at-Reads b'}' (ws b)))

  array-Reads : (b : Bytes) → Reads b (array value b)
  unfolding array
  array-Reads b = Reads-Suffix (ws-Suffix b) (
      ending-Reads b']' (array_turn value) tt (ws b) (empty_at b']' (ws b)) array_turn-Reading
        (empty_at-Reads b']' (ws b)))

literal-Reads : (x : ℕ) (lit b : Bytes) → Reads b (literal (x ∷ lit) b)
unfolding literal
literal-Reads x lit [] =
    let short : ltb 0 (length (x ∷ lit)) ≡ true = ground arith in rw short stuck
literal-Reads x lit (c ∷ b) =
    if_rule (Reads (c ∷ b))
      (ltb (length (c ∷ b)) (length (x ∷ lit))
        || not (equal (take (length (x ∷ lit)) (c ∷ b)) (x ∷ lit)))
      stuck (reads (Takes-cons c (Suffix-drop (length lit) b)))

without_text-Reads :
    (b : Bytes) (o : Option (Bytes × Bytes)) → o ≡ string_ b → Reads b (without_text o)
unfolding without_text
without_text-Reads b none e = stuck
without_text-Reads b (some (x, rest)) e = reads (string_-Takes b (sym e))

-- The values one level down, if any, are read off the front.
data Inner : Option (Bytes → Option Bytes) → Type 0 where
  no_room : Inner none
  room_for : {value : Bytes → Option Bytes} → Reader value → Inner (some value)

nested-Reads :
    (container : (Bytes → Option Bytes) → Bytes → Option Bytes)
    → ((value : Bytes → Option Bytes) → Reader value → (b : Bytes) → Reads b (container value b))
    → {inner : Option (Bytes → Option Bytes)} → Inner inner
    → (b : Bytes) → Reads b (nested container inner b)
unfolding nested
nested-Reads container h no_room b = stuck
nested-Reads container h (room_for {value} r) b = h value r b

module _ (parse_float : Bytes → ParsedFloat) where
  value_in-Reads :
      {inner : Option (Bytes → Option Bytes)}
      → Inner inner
      → (b : Bytes) → Reads b (value_in parse_float inner b)
  unfolding value_in
  value_in-Reads i [] = stuck
  value_in-Reads i (c ∷ b) =
      let from = c ∷ b in
      if_rule (Reads from) (c == b'{')
        (Reads-Suffix (c ∷ [], refl) (nested-Reads object object-Reads i b))
        (if_rule (Reads from) (c == b'[')
          (Reads-Suffix (c ∷ [], refl) (nested-Reads array array-Reads i b))
          (if_rule (Reads from) (c == b'"') (without_text-Reads from (string_ from) refl) (
            if_rule (Reads from) (c == b'-' || is_digit c) (number-Reads parse_float from) (
              if_rule (Reads from) (c == b't') (literal-Reads b't' (codes "rue") from) (
                if_rule (Reads from) (c == b'f') (literal-Reads b'f' (codes "alse") from) (
                  if_rule (Reads from) (c == b'n') (literal-Reads b'n' (codes "ull") from)
                    stuck))))))

  pub value-Reads : (room : ℕ) → Reader (value parse_float room)
  unfolding value
  value-Reads zero b = value_in-Reads no_room b
  value-Reads (suc room) b = value_in-Reads (room_for (value-Reads room)) b

  -- The loops over objects and arrays end on every input, at every depth: there is a run of their
  -- turns, with no bound on how many, whose last one fails or returns, and `scan` gives what that
  -- run gives. More fuel than there are bytes left changes nothing.
  pub scan_fuel_enough :
      (room f : ℕ) (seen : List Bytes) (b : Bytes)
      → length b < f
      → Run
          (object_turn (value parse_float room))
          seen
          b
          (scan (object_turn (value parse_float room)) seen b)
        × Run
            (array_turn (value parse_float room))
            tt
            b
            (scan (array_turn (value parse_float room)) tt b)
        × (loop (object_turn (value parse_float room)) f seen b
            ≡ scan (object_turn (value parse_float room)) seen b)
        × (loop (array_turn (value parse_float room)) f tt b
            ≡ scan (array_turn (value parse_float room)) tt b)
  scan_fuel_enough room f seen b h =
      let reader = value-Reads room in
      let objects = object_turn-Reading (value parse_float room) reader in
      let arrays = array_turn-Reading (value parse_float room) reader in
      (
        scan-Run (object_turn (value parse_float room)) id objects seen b,
        scan-Run (array_turn (value parse_float room)) id arrays tt b,
        scan_fuel (object_turn (value parse_float room)) id objects f seen b h,
        scan_fuel (array_turn (value parse_float room)) id arrays f tt b h,
      )
