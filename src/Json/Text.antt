-- ===== src/Json/Text.antt =====
-- The lexical part of pkg/aiiosdk/strictjson.go: white space, literals and strings. The scanner's
-- position `s.i` is the list of the bytes from it on; a method that returns false returns `none`,
-- since no caller looks at the position then.
pub mod Utf8
pub mod Strings
use aii_plugin_sdk.Prelude.{
  Bool, Option, [], drop, if◌then◌else◌, leb, length, ltb, none, not, some, take, ℕ, ◌&&◌, ◌*◌,
  ◌++◌, ◌+◌, ◌-◌, ◌==◌, ◌||◌, ◌∷◌,
}
use aii_plugin_sdk.Prelude.Bytes.{Bytes, equal}
use aii_plugin_sdk.Prelude.Options.{◌>>=◌}
use aii_plugin_sdk.Json.Loop.{Turn, done, fail, more, scan}
use aii_plugin_sdk.Json.Text.Utf8.{append_rune, decode_rune, is_surrogate}

abbrev within : ℕ → ℕ → ℕ → Bool
within lo hi c = leb lo c && leb c hi

abbrev pub is_digit : ℕ → Bool
is_digit c = within b'0' b'9' c

abbrev pub is_space : ℕ → Bool
is_space c = c == b' ' || c == b'\t' || c == b'\n' || c == b'\r'

-- `scanner.ws`.
unfoldable pub ws : Bytes → Bytes
ws [] = []
ws (c ∷ b) = if is_space c then ws b else c ∷ b

-- `scanner.literal`.
unfoldable pub literal : Bytes → Bytes → Option Bytes
literal lit b =
    if ltb (length b) (length lit) || not (equal (take (length lit) b) lit)
    then none
    else some (drop (length lit) b)

unfoldable pub hex_digit : ℕ → Option ℕ
hex_digit c =
    if within b'0' b'9' c
    then some (c - b'0')
    else if within b'a' b'f' c
    then some (c - b'a' + 10)
    else if within b'A' b'F' c
    then some (c - b'A' + 10)
    else none

-- `scanner.hex4` at the head of the list.
unfoldable pub hex4 : Bytes → Option ℕ
unfolding hex_digit
hex4 (a ∷ b ∷ c ∷ d ∷ _) = do
  a' ← hex_digit a
  b' ← hex_digit b
  c' ← hex_digit c
  d' ← hex_digit d
  some (((a' * 16 + b') * 16 + c') * 16 + d')
hex4 _ = none

surrogate_pair : ℕ → Bytes → ℕ → Option (ℕ × Bytes)
surrogate_pair u low lo =
    if ltb lo 0xDC00 || ltb 0xDFFF lo then none else some (decode_rune u lo, drop 4 low)

-- The second half of a surrogate pair, from the byte behind the first half's digits: `s.i+11` in
-- range is four bytes behind the second `\u`.
low_half : ℕ → Bytes → Option (ℕ × Bytes)
unfolding hex4 surrogate_pair
low_half u (x ∷ y ∷ low) =
    if ltb (length low) 4 || not (x == b'\\') || not (y == b'u')
    then none
    else hex4 low >>= surrogate_pair u low
low_half u _ = none

-- The case 'u' of `scanner.escape`: what the first four digits `u` stand for, with the bytes from
-- the first digit on.
unfoldable pub code_unit : Bytes → ℕ → Option (ℕ × Bytes)
unfolding low_half
code_unit b u =
    if u == 0
    then none
    else if is_surrogate u && leb 0xDC00 u
    then none
    else if is_surrogate u
    then low_half u (drop 4 b)
    else some (u, drop 4 b)

unfoldable pub unicode_escape : Bytes → Option (ℕ × Bytes)
unfolding hex4 code_unit
unicode_escape b = hex4 b >>= code_unit b

-- The cases of `scanner.escape` that read one letter, which stand apart from the case 'u'.
unfoldable pub letter_escape : ℕ → Option ℕ
letter_escape e =
    if e == b'"'
    then some b'"'
    else if e == b'\\'
    then some b'\\'
    else if e == b'/'
    then some b'/'
    else if e == b'b'
    then some 8
    else if e == b'f'
    then some 12
    else if e == b'n'
    then some b'\n'
    else if e == b'r'
    then some b'\r'
    else if e == b't'
    then some b'\t'
    else none

unfoldable pub escape_of : Option ℕ → ℕ → Bytes → Option (ℕ × Bytes)
unfolding unicode_escape
escape_of (some r) e b = some (r, b)
escape_of none e b = if e == b'u' then unicode_escape b else none

-- `scanner.escape`, from the backslash: the rune and what is left.
unfoldable pub escape : Bytes → Option (ℕ × Bytes)
unfolding escape_of letter_escape
escape (_ ∷ e ∷ b) = escape_of (letter_escape e) e b
escape _ = none

unfoldable pub escaped : Bytes → Option (ℕ × Bytes) → Turn Bytes (Bytes × Bytes)
escaped out none = fail
escaped out (some (r, b)) = more (out ++ append_rune r) b

-- One turn of the loop of `scanner.string_`; what it builds is `out`.
unfoldable pub string_turn : Bytes → Bytes → Turn Bytes (Bytes × Bytes)
unfolding escape escaped
string_turn out [] = fail
string_turn out (c ∷ b) =
    if c == b'"'
    then done (out, b)
    else if c == b'\\'
    then escaped out (escape (c ∷ b))
    else if ltb c 0x20
    then fail
    else more (out ++ (c ∷ [])) b

-- `scanner.string_`: the decoded string and what is left.
unfoldable pub string_ : Bytes → Option (Bytes × Bytes)
unfolding string_turn scan
string_ [] = none
string_ (c ∷ b) = if c == b'"' then scan string_turn [] b else none
