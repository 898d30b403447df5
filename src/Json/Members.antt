-- ===== src/Json/Members.antt =====
-- Taking objects and arrays apart: `objectMembers`, `memberByKey` and `decodeJSONString` of
-- pkg/aiiosdk/strictjson.go, `arrayElements` of arrays.go, and the accessors of object.go that
-- read strings, booleans and objects.
pub mod Agree
pub mod Printed
use aii_plugin_sdk.Prelude.{
  Bool, List, Option, [], false, if◌then◌else◌, length, none, some, true, ℕ, ◌++◌, ◌==◌, ◌∷◌,
}
use aii_plugin_sdk.Prelude.Bytes.{Bytes, codes, equal}
use aii_plugin_sdk.Prelude.Suffix.{consumed}
use aii_plugin_sdk.Prelude.Options.{◌>>=◌}
use aii_plugin_sdk.Json.Loop.{Turn, fail, scan}
use aii_plugin_sdk.Json.Text.{string_, ws}
use aii_plugin_sdk.Json.Number.{ParsedFloat}
use aii_plugin_sdk.Json.Scanner.{colon, empty_at, max_scan_depth, then_separated, value}

pub record Member : Type 0 where
  pub key : Bytes
  pub raw : Bytes

-- `memberByKey`; `none` stands for a nil slice.
unfoldable pub member_by_key : List Member → Bytes → Option Bytes
member_by_key [] key = none
member_by_key (m ∷ ms) key = if equal m.key key then some m.raw else member_by_key ms key

whole : Option (Bytes × Bytes) → Option Bytes
whole none = none
whole (some (s, rest)) = if length rest == 0 then some s else none

-- `decodeJSONString`; a nil slice is the empty one.
unfoldable pub decode_json_string : Bytes → Option Bytes
unfolding whole string_
decode_json_string raw = whole (string_ raw)

abbrev raw_bytes : Option Bytes → Bytes
raw_bytes none = []
raw_bytes (some b) = b

module _ (parse_float : Bytes → ParsedFloat) where
  -- A scanner made afresh is at depth 0.
  top_value : Bytes → Option Bytes
  unfolding value
  top_value = value parse_float max_scan_depth

  with_value : List Member → Bytes → Option Bytes → Turn (List Member) (List Member)
  unfolding then_separated top_value
  with_value out key none = fail
  with_value out key (some b) =
      let out' = out ++ (record { key = key; raw = consumed b (raw_bytes (top_value b)) } ∷ []) in
      then_separated b'}' (λ _. out') out' (top_value b)

  with_key : List Member → Option (Bytes × Bytes) → Turn (List Member) (List Member)
  unfolding with_value colon
  with_key out none = fail
  with_key out (some (key, b)) = with_value out key (colon (ws b))

  -- One turn of the loop of `objectMembers`.
  members_turn : List Member → Bytes → Turn (List Member) (List Member)
  unfolding with_key
  members_turn out b = with_key out (string_ (ws b))

  members_in : Bytes → Option (List Member)
  unfolding members_turn empty_at scan
  members_in b = elim (empty_at b'}' (ws b)) [
    | some _ ↦ some []
    | none ↦ scan members_turn [] (ws b)
  ]

  opened : ℕ → Bytes → Option Bytes
  opened open_byte [] = none
  opened open_byte (c ∷ b) = if c == open_byte then some b else none

  -- `objectMembers`.
  unfoldable pub object_members : Bytes → Option (List Member)
  unfolding members_in opened ws
  object_members payload = opened b'{' (ws payload) >>= members_in

  -- One turn of the loop of `arrayElements`.
  elements_turn : List Bytes → Bytes → Turn (List Bytes) (List Bytes)
  unfolding then_separated top_value
  elements_turn out b =
      let from = ws b in
      let out' = out ++ (consumed from (raw_bytes (top_value from)) ∷ []) in
      then_separated b']' (λ _. out') out' (top_value from)

  elements_in : Bytes → Option (List Bytes)
  unfolding elements_turn empty_at scan
  elements_in b = elim (empty_at b']' (ws b)) [
    | some _ ↦ some []
    | none ↦ scan elements_turn [] (ws b)
  ]

  -- `arrayElements`.
  unfoldable pub array_elements : Bytes → Option (List Bytes)
  unfolding elements_in opened ws
  array_elements raw = opened b'[' (ws raw) >>= elements_in

  -- `Object.Raw`; `Object.Has` is whether it gives a value.
  unfoldable pub object_raw : Bytes → Bytes → Option Bytes
  unfolding object_members member_by_key
  object_raw o key = if length o == 0 then none else object_members o >>= λ ms. member_by_key ms key

  -- `Object.String`.
  unfoldable pub object_string : Bytes → Bytes → Option Bytes
  unfolding object_raw decode_json_string
  object_string o key = decode_json_string (raw_bytes (object_raw o key))

  -- `Object.Bool`; `none` stands for a false second result.
  unfoldable pub object_bool : Bytes → Bytes → Option Bool
  unfolding object_raw
  object_bool o key =
      let raw = raw_bytes (object_raw o key) in
      if equal raw (codes "true")
      then some true
      else if equal raw (codes "false")
      then some false
      else none

  -- `Object.Object`; `none` stands for nil.
  unfoldable pub object_object : Bytes → Bytes → Option Bytes
  unfolding object_raw opened
  object_object o key = let raw = raw_bytes (object_raw o key) in opened b'{' raw >>= λ _. some raw

  all_strings : List Bytes → Option (List Bytes)
  unfolding decode_json_string
  all_strings [] = some []
  all_strings (e ∷ es) =
      let rest = all_strings es in decode_json_string e >>= λ s. rest >>= λ ss. some (s ∷ ss)

  -- `Object.StringArray`.
  unfoldable pub object_string_array : Bytes → Bytes → Option (List Bytes)
  unfolding object_raw array_elements all_strings
  object_string_array o key = do
    raw ← object_raw o key
    elems ← array_elements raw
    all_strings elems
