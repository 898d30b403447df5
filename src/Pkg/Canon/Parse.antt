-- ===== src/Pkg/Canon/Parse.antt =====
-- `parseCanonValue` and `CanonicalizeV1` of pkg/aiiospkg/canonjson.go over a decoder of
-- encoding/json, which is a parameter: what `Token` gives in a state and the state it leaves, and
-- what `More` says. The map of an object is the list of its fields in the order in which they are
-- read. The source recurses as deep as the text nests; fuel bounds that here, and twice the length
-- of the input is enough.
pub mod Accepted
pub mod Fuel
pub mod Reads
pub mod Document
use aii_plugin_sdk.Prelude.{
  Bool, List, Result, [], any, err, if◌then◌else◌, length, ok, suc, zero, ℕ, ◌*◌, ◌+◌, ◌==◌, ◌∷◌,
}
use aii_plugin_sdk.Prelude.Bytes.{Bytes, equal}
use aii_plugin_sdk.Prelude.Results.{guard, ◌>>=◌, ◌>>◌}
use aii_plugin_sdk.Json.Text.Utf8.{utf8_valid}
use aii_plugin_sdk.Pkg.Canon.Numbers.{canonical_number_ok}
use aii_plugin_sdk.Pkg.Canon.Values.{
  Canon, Canons, Fields, array, boolean, canon_number, emit_value, field_then, no_fields, no_values,
  null, object, text, value_then,
}
use aii_plugin_sdk.Pkg.Canon.Escapes.{EscapeError, validate_unicode_escapes}

-- `json.Delim`, one of the four.
pub data Delim : Type 0 where
  open_object close_object open_array close_array : Delim

-- The tokens of encoding/json after `UseNumber`.
pub data Token : Type 0 where
  delim : Delim → Token
  string_token number_token : Bytes → Token
  bool_token : Bool → Token
  null_token : Token

-- What `Token` gives: a token, the end of the input, or another error.
pub data Answer : Type 0 where
  token_read : Token → Answer
  end_of_input broken : Answer

-- What is used of a decoder: its state on an input, and its two methods.
pub record Decoder (D : Type 0) : Type 0 where
  pub new_decoder : Bytes → D
  pub token : D → Answer × D
  pub more : D → Bool

pub data CanonError : Type 0 where
  not_utf8 malformed key_not_string nul_code_point unexpected_delimiter : CanonError
  object_not_closed array_not_closed extra_token out_of_fuel : CanonError
  escape_error : EscapeError → CanonError
  duplicate_key non_canonical_number : Bytes → CanonError

-- A string as a value.
unfoldable pub string_value : Bytes → Result CanonError Canon
string_value s = if any (λ c. c == 0) s then err nul_code_point else ok (text s)

unfoldable pub number_value : Bytes → Result CanonError Canon
unfolding canonical_number_ok
number_value s = if canonical_number_ok s then ok (canon_number s) else err (non_canonical_number s)

-- The key of a field, behind those seen.
unfoldable pub new_key : List Bytes → Answer → Result CanonError Bytes
new_key seen (token_read (string_token key)) =
    if any (equal key) seen then err (duplicate_key key) else ok key
new_key seen (token_read _) = err key_not_string
new_key seen _ = err malformed

-- The token behind the last field or element.
unfoldable pub object_end : Answer → Result CanonError (Unit {0})
object_end (token_read (delim close_object)) = ok tt
object_end _ = err object_not_closed

unfoldable pub array_end : Answer → Result CanonError (Unit {0})
array_end (token_read (delim close_array)) = ok tt
array_end _ = err array_not_closed

-- The token behind the document.
unfoldable pub document_end : Answer → Result CanonError (Unit {0})
document_end end_of_input = ok tt
document_end broken = err malformed
document_end (token_read _) = err extra_token

unfoldable pub escapes_checked : Result EscapeError (Unit {0}) → Result CanonError (Unit {0})
escapes_checked (ok _) = ok tt
escapes_checked (err e) = err (escape_error e)

module _ {D : Type 0} where
  -- The switch on a token, with what is read behind an opening delimiter.
  unfoldable pub by_token :
      (D → Result CanonError (Fields × D))
      → (D → Result CanonError (Canons × D))
      → Answer × D
      → Result CanonError (Canon × D)
  unfolding string_value number_value
  by_token fields values (token_read (delim open_object), d) = do
    (fs, behind) ← fields d
    ok (object fs, behind)
  by_token fields values (token_read (delim open_array), d) = do
    (vs, behind) ← values d
    ok (array vs, behind)
  by_token fields values (token_read (delim _), d) = err unexpected_delimiter
  by_token fields values (token_read (string_token s), d) = do v ← string_value s; ok (v, d)
  by_token fields values (token_read (bool_token b), d) = ok (boolean b, d)
  by_token fields values (token_read null_token, d) = ok (null, d)
  by_token fields values (token_read (number_token s), d) = do v ← number_value s; ok (v, d)
  by_token fields values (_, d) = err malformed

  module _ (decoder : Decoder D) where
    unfoldable mutual
      unfolding by_token new_key object_end array_end

      -- `parseCanonValue`.
      pub parse_value : ℕ → D → Result CanonError (Canon × D)
      parse_value zero d = err out_of_fuel
      parse_value (suc fuel) d =
          by_token (parse_fields fuel []) (parse_values fuel) (decoder.token d)

      -- The loop of an object, behind the keys seen, and its end.
      pub parse_fields : ℕ → List Bytes → D → Result CanonError (Fields × D)
      parse_fields zero seen d = err out_of_fuel
      parse_fields (suc fuel) seen d =
          let (answer, behind) = decoder.token d in
          if decoder.more d
          then (do
            key ← new_key seen answer
            (v, d1) ← parse_value fuel behind
            (fs, d2) ← parse_fields fuel (key ∷ seen) d1
            ok (field_then key v fs, d2))
          else (do _ ← object_end answer; ok (no_fields, behind))

      -- The loop of an array, and its end.
      pub parse_values : ℕ → D → Result CanonError (Canons × D)
      parse_values zero d = err out_of_fuel
      parse_values (suc fuel) d =
          if decoder.more d
          then (do
            (v, d1) ← parse_value fuel d
            (vs, d2) ← parse_values fuel d1
            ok (value_then v vs, d2))
          else (do _ ← array_end (decoder.token d).0; ok (no_values, (decoder.token d).1))

    -- `CanonicalizeV1`.
    unfoldable pub canonicalize_v1 : Bytes → Result CanonError Bytes
    unfolding parse_value document_end emit_value escapes_checked validate_unicode_escapes
        utf8_valid
    canonicalize_v1 input = do
      _ ← guard (utf8_valid input) not_utf8
      _ ← escapes_checked (validate_unicode_escapes input)
      (v, d) ← parse_value (2 * length input + 2) (decoder.new_decoder input)
      _ ← document_end (decoder.token d).0
      ok (emit_value v)
