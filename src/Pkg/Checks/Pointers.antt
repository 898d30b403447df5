-- ===== src/Pkg/Checks/Pointers.antt =====
-- `validPointer` and `Pointer` of pkg/aiiospkg/validation.go.
pub mod Paths
pub mod Indices
pub mod Finds
use aii_plugin_sdk.Prelude.{
  Bool, List, Option, [], drop, false, if◌then◌else◌, leb, length, none, not, some, true, ℕ, ◌&&◌,
  ◌==◌, ◌||◌, ◌∷◌,
}
use aii_plugin_sdk.Prelude.Bytes.{Bytes, equal}
use aii_plugin_sdk.Prelude.Int.{negsuc, pos, ℤ}
use aii_plugin_sdk.Prelude.Options.{◌>>=◌}
use aii_plugin_sdk.Json.Number.{atoi}
use aii_plugin_sdk.Plugin.Responses.{append_int}
use aii_plugin_sdk.Pkg.Versions.{split}
use aii_plugin_sdk.Pkg.Checks.{Doc, Docs, doc_at, doc_count, list, lookup, object}

-- The loop of `validPointer`.
unfoldable pub tildes_valid : Bytes → Bool
tildes_valid [] = true
tildes_valid (c ∷ []) = not (c == b'~')
tildes_valid (c ∷ d ∷ p) =
    let rest = tildes_valid (d ∷ p) in
    if c == b'~' && (not (d == b'0') && not (d == b'1')) then false else rest

-- `validPointer`.
unfoldable pub valid_pointer : Bytes → Bool
unfolding tildes_valid
valid_pointer [] = true
valid_pointer (c ∷ p) = if not (c == b'/') then false else tildes_valid (c ∷ p)

-- `strings.ReplaceAll` of a tilde and a digit by a byte.
unfoldable pub replace_all : ℕ → ℕ → Bytes → Bytes
replace_all digit by [] = []
replace_all digit by (c ∷ []) = c ∷ []
replace_all digit by (c ∷ d ∷ b) =
    let behind = replace_all digit by b in
    let rest = replace_all digit by (d ∷ b) in
    if c == b'~' && d == digit then by ∷ behind else c ∷ rest

-- The token between two slashes, read.
unfoldable pub unescaped : Bytes → Bytes
unfolding replace_all
unescaped token = replace_all b'0' b'~' (replace_all b'1' b'/' token)

-- `strconv.Itoa` of an index.
unfoldable pub itoa : ℕ → Bytes
unfolding append_int
itoa n = append_int [] (pos n)

-- A token of more than one byte that begins with a zero.
unfoldable pub zero_led : Bytes → Bool
zero_led (c ∷ d ∷ b) = c == b'0'
zero_led _ = false

module _ {F : Type 0} where
  unfoldable pub list_entry : Docs F → Bytes → Option ℤ → Option (Doc F)
  unfolding itoa doc_at doc_count
  list_entry vs token none = none
  list_entry vs token (some (negsuc n)) = none
  list_entry vs token (some (pos i)) =
      if leb (doc_count vs) i || not (equal (itoa i) token) then none else doc_at i vs

  -- One round of the loop of `Pointer`, with the token read.
  unfoldable pub descend : Doc F → Bytes → Option (Doc F)
  unfolding lookup list_entry atoi zero_led
  descend (object fs) token = lookup token fs
  descend (list vs) token =
      if length token == 0 || zero_led token then none else list_entry vs token (atoi token)
  descend _ token = none

  unfoldable pub follow : Doc F → List Bytes → Option (Doc F)
  unfolding descend unescaped
  follow doc [] = some doc
  follow doc (t ∷ ts) = descend doc (unescaped t) >>= λ next. follow next ts

  -- `Pointer`.
  unfoldable pub pointer : Doc F → Bytes → Option (Doc F)
  unfolding valid_pointer follow split
  pointer doc p =
      if not (valid_pointer p)
      then none
      else if length p == 0
      then some doc
      else follow doc (split b'/' (drop 1 p))
