-- ===== src/Json/Print.antt =====
-- Writing JSON: `appendJSONString` of pkg/aiiosdk/plugin.go.
pub mod Strings
pub mod Objects
pub mod Valid
use aii_plugin_sdk.Prelude.{[], if◌then◌else◌, ltb, ℕ, ◌%◌, ◌++◌, ◌+◌, ◌-◌, ◌/◌, ◌==◌, ◌∷◌}
use aii_plugin_sdk.Prelude.Bytes.{Bytes}

-- `hexDigits[n]`.
unfoldable pub hex_char : ℕ → ℕ
hex_char n = if ltb n 10 then b'0' + n else b'a' + (n - 10)

unfoldable pub escape_byte : ℕ → Bytes
unfolding hex_char
escape_byte c =
    if c == b'"'
    then b'\\' ∷ b'"' ∷ []
    else if c == b'\\'
    then b'\\' ∷ b'\\' ∷ []
    else if ltb c 0x20
    then (if c == b'\n'
        then b'\\' ∷ b'n' ∷ []
        else if c == b'\r'
        then b'\\' ∷ b'r' ∷ []
        else if c == b'\t'
        then b'\\' ∷ b't' ∷ []
        else b'\\' ∷ b'u' ∷ b'0' ∷ b'0' ∷ hex_char (c / 16) ∷ hex_char (c % 16) ∷ [])
    else c ∷ []

unfoldable pub escape_bytes : Bytes → Bytes
unfolding escape_byte
escape_bytes [] = []
escape_bytes (c ∷ s) = escape_byte c ++ escape_bytes s

-- `appendJSONString`.
unfoldable pub append_json_string : Bytes → Bytes → Bytes
unfolding escape_bytes
append_json_string out s = out ++ (b'"' ∷ (escape_bytes s ++ (b'"' ∷ [])))
