-- ===== src/Pkg/Checks/Texts.antt =====
-- What pkg/aiiospkg/validation.go uses of Go's unicode/utf8 and strings, on the valid UTF-8 that
-- encoding/json gives.
use aii_plugin_sdk.Prelude.{Bool, [], if◌then◌else◌, leb, suc, true, ℕ, ◌&&◌, ◌==◌, ◌||◌, ◌∷◌}
use aii_plugin_sdk.Prelude.Bytes.{Bytes}

-- `utf8.RuneCountInString`: the bytes that do not continue a rune.
unfoldable pub rune_count : Bytes → ℕ
rune_count [] = 0
rune_count (c ∷ b) = let rest = rune_count b in if leb 0x80 c && leb c 0xBF then rest else suc rest

-- Space of one byte, of two, of three.
space1 : ℕ → Bool
space1 c = leb 9 c && leb c 13 || c == 32

space2 : ℕ → ℕ → Bool
space2 c d = c == 0xC2 && (d == 0x85 || d == 0xA0)

space3 : ℕ → ℕ → ℕ → Bool
space3 c d e =
    (c == 0xE1 && (d == 0x9A && e == 0x80))
    || ((c == 0xE2
          && (d == 0x80 && (leb 0x80 e && leb e 0x8A || (e == 0xA8 || (e == 0xA9 || e == 0xAF)))))
        || ((c == 0xE2 && (d == 0x81 && e == 0x9F)) || (c == 0xE3 && (d == 0x80 && e == 0x80))))

-- `strings.TrimSpace(s) == ""`: nothing but runes of `unicode.IsSpace`.
unfoldable pub blank : Bytes → Bool
unfolding space1 space2 space3
blank [] = true
blank (c ∷ []) = space1 c
blank (c ∷ d ∷ []) = let rest = blank (d ∷ []) in (space1 c && rest) || space2 c d
blank (c ∷ d ∷ e ∷ b) =
    let behind1 = blank (d ∷ e ∷ b) in
    let behind2 = blank (e ∷ b) in
    let behind3 = blank b in
    (space1 c && behind1) || ((space2 c d && behind2) || (space3 c d e && behind3))
