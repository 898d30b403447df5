-- ===== src/Json/Print/Valid.antt =====
-- What is written of valid UTF-8 is valid UTF-8.
use mathlib.Core.Path.{refl}
use aii_plugin_sdk.Prelude.{
  List, [], arith, false, if_rule, ltb, true, ℕ, ◌%◌, ◌++◌, ◌/◌, ◌<◌, ◌==◌, ◌∷◌, ◌≡◌, ◌≤◌,
}
use aii_plugin_sdk.Prelude.Bytes.{Bytes}
use aii_plugin_sdk.Json.Text.Utf8.{utf8_valid}
use aii_plugin_sdk.Json.Text.Utf8.Parts.{
  Replaces, is_ascii, utf8_valid-Replaces, utf8_valid-append, utf8_valid-ascii,
}
use aii_plugin_sdk.Json.Print.{append_json_string, escape_byte, escape_bytes, hex_char}
use aii_plugin_sdk.Json.Print.Objects.{entries_text, entry_text, object_text, quoted}

hex_char-ascii : (n : ℕ) → n < 16 → ltb (hex_char n) 0x80 ≡ true
unfolding hex_char
hex_char-ascii n h = ground arith

escape_byte-ascii : (c : ℕ) → c < 0x80 → is_ascii (escape_byte c) ≡ true
unfolding escape_byte
escape_byte-ascii c h =
    let P = λ (bs : Bytes). is_ascii bs ≡ true in
    if_rule P (c == b'"') refl (
      if_rule P (c == b'\\') refl (
        if_rule P (ltb c 0x20)
          (if_rule P (c == b'\n') refl (
            if_rule P (c == b'\r') refl (
              if_rule P (c == b'\t') refl (
                rw (hex_char-ascii (c / 16) (omega arith), hex_char-ascii (c % 16) (omega arith))
                  refl))))
          (ground arith)))

escape_byte-high : (c : ℕ) → 0x80 ≤ c → escape_byte c ≡ c ∷ []
unfolding escape_byte
escape_byte-high c h =
    let q : (c == b'"') ≡ false = ground arith in
    let b : (c == b'\\') ≡ false = ground arith in
    let k : ltb c 0x20 ≡ false = ground arith in rw (q, b, k) refl

escape_bytes-Replaces : Replaces escape_byte escape_bytes
unfolding escape_bytes
escape_bytes-Replaces = record {
  nothing = refl;
  each = λ c s. refl;
  ascii = escape_byte-ascii;
  kept = escape_byte-high;
}

pub utf8_valid-quoted : (s : Bytes) → utf8_valid s ≡ true → utf8_valid (quoted s) ≡ true
unfolding append_json_string
utf8_valid-quoted s h =
    utf8_valid-append (b'"' ∷ []) (escape_bytes s ++ (b'"' ∷ []))
      (utf8_valid-ascii (b'"' ∷ []) refl)
      (utf8_valid-append (escape_bytes s) (b'"' ∷ [])
        (utf8_valid-Replaces escape_byte escape_bytes escape_bytes-Replaces s h)
        (utf8_valid-ascii (b'"' ∷ []) refl))

-- The keys and values of an object, each of valid UTF-8.
abbrev pub AreValid : List (Bytes × Bytes) → Type 0
AreValid [] = Unit
AreValid ((key, raw) ∷ es) = (utf8_valid key ≡ true) × (utf8_valid raw ≡ true) × AreValid es

utf8_valid-entry_text :
    (key raw : Bytes)
    → utf8_valid key ≡ true
    → utf8_valid raw ≡ true
    → utf8_valid (entry_text (key, raw)) ≡ true
utf8_valid-entry_text key raw k v =
    utf8_valid-append (quoted key) (b':' ∷ raw) (utf8_valid-quoted key k)
      (utf8_valid-append (b':' ∷ []) raw (utf8_valid-ascii (b':' ∷ []) refl) v)

utf8_valid-entries_text :
    (e : Bytes × Bytes) (es : List (Bytes × Bytes))
    → AreValid (e ∷ es)
    → utf8_valid (entries_text e es) ≡ true
utf8_valid-entries_text (key, raw) [] (k, v, a) = utf8_valid-entry_text key raw k v
utf8_valid-entries_text (key, raw) (e' ∷ es) (k, v, a) =
    utf8_valid-append (entry_text (key, raw)) (b',' ∷ entries_text e' es)
      (utf8_valid-entry_text key raw k v)
      (utf8_valid-append (b',' ∷ []) (entries_text e' es) (utf8_valid-ascii (b',' ∷ []) refl)
        (utf8_valid-entries_text e' es a))

pub utf8_valid-object_text :
    (e : Bytes × Bytes) (es : List (Bytes × Bytes))
    → AreValid (e ∷ es)
    → utf8_valid (object_text e es) ≡ true
utf8_valid-object_text e es a =
    utf8_valid-append (b'{' ∷ []) (entries_text e es ++ (b'}' ∷ []))
      (utf8_valid-ascii (b'{' ∷ []) refl)
      (utf8_valid-append (entries_text e es) (b'}' ∷ []) (utf8_valid-entries_text e es a)
        (utf8_valid-ascii (b'}' ∷ []) refl))
