-- ===== src/Plugin/Marshal.antt =====
-- pkg/aiiosdk/marshal.go: what `appendValue` adds for the value that a handler returns. The types of
-- the source's switch are the constructors: a map of strings or of ints is a map of values, as the
-- source lifts it. A map is the list of its fields in the order in which Go happens to range over
-- it. What strconv and math say of a float is a parameter.
pub mod Order
use mathlib.Core.List.{reverse}
use aii_plugin_sdk.Prelude.{
  Bool, List, Option, Result, [], err, if◌then◌else◌, length, ltb, map, none, ok, some, suc, ℕ,
  ◌&&◌, ◌++◌, ◌+◌, ◌==◌, ◌∷◌,
}
use aii_plugin_sdk.Prelude.Bytes.{Bytes, codes}
use aii_plugin_sdk.Prelude.Keyed.{sort_entries}
use aii_plugin_sdk.Prelude.Int.{negsuc, pos, ℤ}
use aii_plugin_sdk.Prelude.Results.{◌>>=◌}
use aii_plugin_sdk.Json.Print.{append_json_string}
use aii_plugin_sdk.Plugin.Responses.{append_int}

abbrev max_marshal_depth : ℕ
max_marshal_depth = 64

abbrev safe_integer : ℕ
safe_integer = 9007199254740991

pub data MarshalError : Type 0 where
  unsupported_type too_deep integer_range not_finite own_error : MarshalError

mutual
  -- `own` is a value with MarshalJSON, and what that gives.
  pub data Value (F : Type 0) : Type 0 where
    null unsupported : Value F
    raw_message text_value : Bytes → Value F
    boolean : Bool → Value F
    int : ℤ → Value F
    uint : ℕ → Value F
    float : F → Value F
    object_value : Fields F → Value F
    slice : Values F → Value F
    own : Option Bytes → Value F

  pub data Values (F : Type 0) : Type 0 where
    no_values : Values F
    value_then : Value F → Values F → Values F

  pub data Fields (F : Type 0) : Type 0 where
    no_fields : Fields F
    field_then : Bytes → Value F → Fields F → Fields F

-- What `appendFloat` asks of a float: whether it is infinite or no number, whether it equals its
-- `math.Trunc`, whether it is outside the safe integers, whether its size calls for an exponent,
-- and `strconv.AppendFloat` with a format, which with an exponent has at least four bytes.
pub record Floats (F : Type 0) : Type 0 where
  pub is_unbounded : F → Bool
  pub is_whole : F → Bool
  pub is_beyond : F → Bool
  pub wants_exponent : F → Bool
  pub format : F → ℕ → Bytes

-- `appendSafeInt` and `appendSafeUint`.
safe_int : ℤ → Result MarshalError Bytes
unfolding append_int
safe_int (pos n) = if ltb safe_integer n then err integer_range else ok (append_int [] (pos n))
safe_int (negsuc n) =
    if ltb safe_integer (suc n) then err integer_range else ok (append_int [] (negsuc n))

safe_uint : ℕ → Result MarshalError Bytes
unfolding append_int
safe_uint n = if ltb safe_integer n then err integer_range else ok (append_int [] (pos n))

-- A negative exponent of one digit loses its zero: the last four bytes, the last first.
short_exponent : Bytes → Bytes
short_exponent (d ∷ z ∷ m ∷ e ∷ b) =
    if e == b'e' && m == b'-' && z == b'0' then d ∷ m ∷ e ∷ b else d ∷ z ∷ m ∷ e ∷ b
short_exponent b = b

-- The loop of `appendSlice`, behind its bracket: commas between the elements, up to the first error.
joined : List (Result MarshalError Bytes) → Result MarshalError Bytes
joined [] = ok []
joined (t ∷ []) = t
joined (t ∷ t' ∷ ts) =
    let rest = joined (t' ∷ ts) in do written ← t; others ← rest; ok (written ++ (b',' ∷ others))

-- The text of a field is its key and the text of its value, if that has one.
abbrev pub Entry : Type 0
Entry = Bytes × Result MarshalError Bytes

entry : Entry → Result MarshalError Bytes
unfolding append_json_string
entry (key, t) = t >>= λ written. ok (append_json_string [] key ++ (b':' ∷ written))

between : ℕ → ℕ → Result MarshalError Bytes → Result MarshalError Bytes
between open_byte close_byte t = t >>= λ body. ok (open_byte ∷ (body ++ (close_byte ∷ [])))

checked_depth : ℕ → Result MarshalError Bytes → Result MarshalError Bytes
checked_depth depth t = if ltb max_marshal_depth depth then err too_deep else t

own_text : Option Bytes → Result MarshalError Bytes
own_text none = err own_error
own_text (some raw) = ok raw

module _ {F : Type 0} (floats : Floats F) where
  -- `appendFloat`.
  append_float : F → Result MarshalError Bytes
  unfolding short_exponent
  append_float f =
      if floats.is_unbounded f
      then err not_finite
      else if floats.is_whole f && floats.is_beyond f
      then err integer_range
      else if floats.wants_exponent f
      then ok (reverse (short_exponent (reverse (floats.format f b'e'))))
      else ok (floats.format f b'f')

  unfoldable mutual
    unfolding append_float safe_int safe_uint joined entry between checked_depth own_text
        sort_entries append_json_string

    -- `appendValue`, at a depth.
    pub value_text : ℕ → Value F → Result MarshalError Bytes
    value_text depth null = checked_depth depth (ok (codes "null"))
    value_text depth unsupported = checked_depth depth (err unsupported_type)
    value_text depth (raw_message b) =
        checked_depth depth (ok (if length b == 0 then codes "null" else b))
    value_text depth (text_value s) = checked_depth depth (ok (append_json_string [] s))
    value_text depth (boolean b) =
        checked_depth depth (ok (if b then codes "true" else codes "false"))
    value_text depth (int n) = checked_depth depth (safe_int n)
    value_text depth (uint n) = checked_depth depth (safe_uint n)
    value_text depth (float f) = checked_depth depth (append_float f)
    value_text depth (object_value fields) =
        checked_depth depth
          (between b'{' b'}' (joined (map entry (sort_entries (field_entries (depth + 1) fields)))))
    value_text depth (slice values) =
        checked_depth depth (between b'[' b']' (joined (value_texts (depth + 1) values)))
    value_text depth (own raw) = checked_depth depth (own_text raw)

    pub value_texts : ℕ → Values F → List (Result MarshalError Bytes)
    value_texts depth no_values = []
    value_texts depth (value_then v vs) = value_text depth v ∷ value_texts depth vs

    pub field_entries : ℕ → Fields F → List Entry
    field_entries depth no_fields = []
    field_entries depth (field_then key v fields) =
        (key, value_text depth v) ∷ field_entries depth fields

  -- `marshalValue`.
  unfoldable pub marshal_value : Value F → Result MarshalError Bytes
  unfolding value_text
  marshal_value v = value_text 0 v
