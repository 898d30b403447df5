-- ===== src/Json/Text/Utf8.antt =====
-- What the scanner uses of Go's unicode/utf8 and unicode/utf16.
pub mod Parts
use aii_plugin_sdk.Prelude.{
  Bool, List, Option, [], arith, false, if◌then◌else◌, leb, ltb, none, some, true, ℕ, ◌%◌, ◌&&◌,
  ◌*◌, ◌+◌, ◌-◌, ◌/◌, ◌<◌, ◌==◌, ◌||◌, ◌∷◌, ◌≡◌,
}
use aii_plugin_sdk.Prelude.Bytes.{Bytes}

abbrev within : ℕ → ℕ → ℕ → Bool
within lo hi c = leb lo c && leb c hi

-- The continuation bytes that must follow a first byte, each by its range.
lead : ℕ → Option (List (ℕ × ℕ))
lead c =
    if ltb c 0x80
    then some []
    else if within 0xC2 0xDF c
    then some ((0x80, 0xBF) ∷ [])
    else if c == 0xE0
    then some ((0xA0, 0xBF) ∷ (0x80, 0xBF) ∷ [])
    else if c == 0xED
    then some ((0x80, 0x9F) ∷ (0x80, 0xBF) ∷ [])
    else if within 0xE1 0xEF c
    then some ((0x80, 0xBF) ∷ (0x80, 0xBF) ∷ [])
    else if c == 0xF0
    then some ((0x90, 0xBF) ∷ (0x80, 0xBF) ∷ (0x80, 0xBF) ∷ [])
    else if within 0xF1 0xF3 c
    then some ((0x80, 0xBF) ∷ (0x80, 0xBF) ∷ (0x80, 0xBF) ∷ [])
    else if c == 0xF4
    then some ((0x80, 0x8F) ∷ (0x80, 0xBF) ∷ (0x80, 0xBF) ∷ [])
    else none

valid_from : List (ℕ × ℕ) → Bytes → Bool
valid_from [] [] = true
valid_from (_ ∷ _) [] = false
valid_from [] (c ∷ b) = elim (lead c) [ none ↦ false | some ranges ↦ valid_from ranges b ]
valid_from ((lo, hi) ∷ ranges) (c ∷ b) = within lo hi c && valid_from ranges b

-- `utf8.Valid`.
unfoldable pub utf8_valid : Bytes → Bool
unfolding valid_from lead
utf8_valid = valid_from []

-- `utf16.IsSurrogate`.
abbrev pub is_surrogate : ℕ → Bool
is_surrogate r = within 0xD800 0xDFFF r

-- `utf16.DecodeRune` of a high and a low surrogate.
abbrev pub decode_rune : ℕ → ℕ → ℕ
decode_rune hi lo = (hi - 0xD800) * 0x400 + (lo - 0xDC00) + 0x10000

abbrev continuation : ℕ → ℕ
continuation n = 0x80 + n % 64

-- `utf8.AppendRune`: the bytes of a rune, those of U+FFFD for a surrogate or one out of range.
pub append_rune : ℕ → Bytes
append_rune r =
    if ltb r 0x80
    then r ∷ []
    else if ltb r 0x800
    then (0xC0 + r / 64) ∷ continuation r ∷ []
    else if is_surrogate r || ltb 0x10FFFF r
    then 0xEF ∷ 0xBF ∷ 0xBD ∷ []
    else if ltb r 0x10000
    then (0xE0 + r / 4096) ∷ continuation (r / 64) ∷ continuation r ∷ []
    else (0xF0 + r / 262144) ∷ continuation (r / 4096) ∷ continuation (r / 64) ∷ continuation r ∷ []

-- A rune below 128 is its own byte.
pub append_rune-ascii : (r : ℕ) → r < 0x80 → append_rune r ≡ r ∷ []
unfolding append_rune
append_rune-ascii r h = ground arith
