-- ===== src/Pkg/Canon/Escapes.antt =====
-- `validateUnicodeEscapes` of pkg/aiiospkg/canonjson.go. The input from a position on is a list, and
-- what the source adds to `i` is a number of bytes to pass over.
pub mod Emitted
use aii_plugin_sdk.Prelude.Results.{Result, err, ok}
use aii_plugin_sdk.Prelude.{
  Bool, Option, [], drop, false, if◌then◌else◌, leb, length, ltb, none, not, some, suc, true, zero,
  ℕ, ◌&&◌, ◌*◌, ◌+◌, ◌-◌, ◌==◌, ◌||◌, ◌∷◌,
}
use aii_plugin_sdk.Prelude.Bytes.{Bytes}

pub data EscapeError : Type 0 where
  invalid_escape unpaired_high unpaired_low : EscapeError

-- `hexNibble`.
unfoldable pub hex_nibble : ℕ → Option ℕ
hex_nibble b =
    if leb b'0' b && leb b b'9'
    then some (b - b'0')
    else if leb b'a' b && leb b b'f'
    then some (b - b'a' + 10)
    else if leb b'A' b && leb b b'F'
    then some (b - b'A' + 10)
    else none

-- The loop of `parseU16`, where each byte is a digit.
unfoldable pub u16_value : Option ℕ → Option ℕ → Option ℕ → Option ℕ → Option ℕ
u16_value (some a) (some b) (some c) (some d) = some (((a * 16 + b) * 16 + c) * 16 + d)
u16_value _ _ _ _ = none

-- `parseU16`, of the bytes from the offset on.
unfoldable pub parse_u16 : Bytes → Option ℕ
unfolding hex_nibble u16_value
parse_u16 (p ∷ q ∷ r ∷ s ∷ _) =
    u16_value (hex_nibble p) (hex_nibble q) (hex_nibble r) (hex_nibble s)
parse_u16 _ = none

-- Behind `\u`: how many bytes are passed over, four or ten.
is_low : Option ℕ → Bool
is_low none = false
is_low (some low) = leb 0xdc00 low && leb low 0xdfff

-- `input[i+5]` and `input[i+6]`, behind the `u` at `i`.
second_escape : Bytes → Bool
second_escape (_ ∷ _ ∷ _ ∷ _ ∷ c ∷ d ∷ _) = c == b'\\' && d == b'u'
second_escape _ = false

escape_length : Option ℕ → Bytes → Result EscapeError ℕ
unfolding is_low second_escape parse_u16
escape_length none rest = err invalid_escape
escape_length (some cp) rest =
    if leb 0xd800 cp && leb cp 0xdbff
    then (if ltb (length rest) 10 || not (second_escape rest)
        then err unpaired_high
        else if is_low (parse_u16 (drop 6 rest))
        then ok 10
        else err unpaired_high)
    else if leb 0xdc00 cp && leb cp 0xdfff
    then err unpaired_low
    else ok 4

abbrev pass_over :
    (ℕ → Result EscapeError (Unit {0})) → Result EscapeError ℕ → Result EscapeError (Unit {0})
pass_over next (err e) = err e
pass_over next (ok skip) = next skip

-- The loop, with what is passed over, `inString` and `escaped`.
unfoldable pub escapes_loop : ℕ → Bool → Bool → Bytes → Result EscapeError (Unit {0})
unfolding escape_length parse_u16
escapes_loop skip in_string escaped [] = ok tt
escapes_loop (suc skip) in_string escaped (c ∷ rest) = escapes_loop skip in_string escaped rest
escapes_loop zero false escaped (c ∷ rest) = escapes_loop 0 (c == b'"') escaped rest
escapes_loop zero true true (c ∷ rest) =
    if not (c == b'u')
    then escapes_loop 0 true false rest
    else pass_over (λ skip. escapes_loop skip true false rest) (escape_length (parse_u16 rest) rest)
escapes_loop zero true false (c ∷ rest) =
    if c == b'\\'
    then escapes_loop 0 true true rest
    else escapes_loop 0 (not (c == b'"')) false rest

-- `validateUnicodeEscapes`.
unfoldable pub validate_unicode_escapes : Bytes → Result EscapeError (Unit {0})
unfolding escapes_loop
validate_unicode_escapes input = escapes_loop 0 false false input
