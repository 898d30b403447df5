-- ===== src/Pkg/Canon/Values.antt =====
-- `emitCanonString` and `emitCanonValue` of pkg/aiiospkg/canonjson.go. The constructors are the
-- types of the source's switch, so that its default is never reached; an object is the list of its
-- fields in the order in which Go happens to range over the map. A string is its UTF-8: the source
-- ranges over its runes and writes back unchanged each that is not one byte.
pub mod Strings
pub mod Plain
pub mod Listed
pub mod Unique
pub mod Same
pub mod Reorder
pub mod Sorted
use aii_plugin_sdk.Prelude.{Bool, List, [], if◌then◌else◌, ltb, map, ℕ, ◌%◌, ◌++◌, ◌/◌, ◌==◌, ◌∷◌}
use aii_plugin_sdk.Prelude.Bytes.{Bytes, codes}
use aii_plugin_sdk.Prelude.Keyed.{sort_entries}
use aii_plugin_sdk.Json.Print.{hex_char}

mutual
  pub data Canon : Type 0 where
    null : Canon
    boolean : Bool → Canon
    text canon_number : Bytes → Canon
    array : Canons → Canon
    object : Fields → Canon

  pub data Canons : Type 0 where
    no_values : Canons
    value_then : Canon → Canons → Canons

  pub data Fields : Type 0 where
    no_fields : Fields
    field_then : Bytes → Canon → Fields → Fields

-- What is written for a rune of one byte.
unfoldable pub emit_rune : ℕ → Bytes
unfolding hex_char
emit_rune c =
    if c == b'"'
    then b'\\' ∷ b'"' ∷ []
    else if c == b'\\'
    then b'\\' ∷ b'\\' ∷ []
    else if c == 8
    then b'\\' ∷ b'b' ∷ []
    else if c == 12
    then b'\\' ∷ b'f' ∷ []
    else if c == b'\n'
    then b'\\' ∷ b'n' ∷ []
    else if c == b'\r'
    then b'\\' ∷ b'r' ∷ []
    else if c == b'\t'
    then b'\\' ∷ b't' ∷ []
    else if ltb c 0x20
    then b'\\' ∷ b'u' ∷ b'0' ∷ b'0' ∷ hex_char (c / 16) ∷ hex_char (c % 16) ∷ []
    else c ∷ []

unfoldable pub emit_runes : Bytes → Bytes
unfolding emit_rune
emit_runes [] = []
emit_runes (c ∷ s) = emit_rune c ++ emit_runes s

-- `emitCanonString`.
unfoldable pub emit_string : Bytes → Bytes
unfolding emit_runes
emit_string s = b'"' ∷ (emit_runes s ++ (b'"' ∷ []))

-- What is written behind the first element of an array or an object, and in front of it nothing.
unfoldable pub behind_commas : List Bytes → Bytes
behind_commas [] = []
behind_commas (t ∷ ts) = b',' ∷ (t ++ behind_commas ts)

unfoldable pub with_commas : List Bytes → Bytes
unfolding behind_commas
with_commas [] = []
with_commas (t ∷ ts) = t ++ behind_commas ts

-- A key, a colon and the text of the value.
unfoldable pub emit_field : Bytes × Bytes → Bytes
unfolding emit_string
emit_field (key, t) = emit_string key ++ (b':' ∷ t)

unfoldable mutual
  unfolding emit_string with_commas emit_field sort_entries

  -- `emitCanonValue`.
  pub emit_value : Canon → Bytes
  emit_value null = codes "null"
  emit_value (boolean b) = if b then codes "true" else codes "false"
  emit_value (text s) = emit_string s
  emit_value (canon_number s) = s
  emit_value (array vs) = b'[' ∷ (with_commas (emit_values vs) ++ (b']' ∷ []))
  emit_value (object fields) =
      b'{' ∷ (with_commas (map emit_field (sort_entries (emit_entries fields))) ++ (b'}' ∷ []))

  pub emit_values : Canons → List Bytes
  emit_values no_values = []
  emit_values (value_then v vs) = emit_value v ∷ emit_values vs

  -- Each key with the text of its value.
  pub emit_entries : Fields → List (Bytes × Bytes)
  emit_entries no_fields = []
  emit_entries (field_then key v fields) = (key, emit_value v) ∷ emit_entries fields
