-- ===== src/Pkg/Canon/Numbers/Value.antt =====
-- What number a text stands for: a sign, and the digits without the point, to be divided by a power
-- of ten.
use aii_plugin_sdk.Prelude.{
  Bool, [], false, if◌then◌else◌, length, ℕ, ◌*◌, ◌==◌, ◌^◌, ◌∷◌, ◌≡◌, ◌⊎◌,
}
use aii_plugin_sdk.Prelude.Bytes.{Bytes}
use aii_plugin_sdk.Prelude.Decimal.{digits_value, is_decimal}

unfoldable pub is_negative : Bytes → Bool
is_negative [] = false
is_negative (c ∷ b) = c == b'-'

-- All digits, before and behind the point.
unfoldable pub decimals : Bytes → Bytes
decimals [] = []
decimals (c ∷ b) = let rest = decimals b in if is_decimal c then c ∷ rest else rest

-- How many bytes stand behind the first point.
unfoldable pub scale : Bytes → ℕ
scale [] = 0
scale (c ∷ b) = let rest = scale b in if c == b'.' then length b else rest

-- Two texts stand for one number; minus zero is zero.
abbrev pub SameNumber : Bytes → Bytes → Type 0
SameNumber s t =
    (digits_value (decimals s) * 10 ^ scale t ≡ digits_value (decimals t) * 10 ^ scale s)
    × ((is_negative s ≡ is_negative t) ⊎ (digits_value (decimals s) ≡ 0))
