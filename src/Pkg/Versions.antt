-- ===== src/Pkg/Versions.antt =====
-- pkg/aiiospkg/semver.go and variant_preference.go.
pub mod Order
pub mod Preference
use mathlib.Core.Option
use aii_plugin_sdk.Prelude.{
  Bool, List, Option, [], all, any, false, if◌then◌else◌, length, ltb, none, not, some, true, ℕ,
  ◌&&◌, ◌==◌, ◌||◌, ◌∷◌,
}
use aii_plugin_sdk.Prelude.Bytes.{Bytes, codes, equal}
use aii_plugin_sdk.Prelude.Decimal.{
  Sign, compare_bytes, greater, is_decimal, less, same, trim_zeros,
}

-- `strings.Split(s, sep)` at one byte.
unfoldable pub cons_head : ℕ → List Bytes → List Bytes
cons_head c [] = (c ∷ []) ∷ []
cons_head c (p ∷ ps) = (c ∷ p) ∷ ps

unfoldable pub split : ℕ → Bytes → List Bytes
unfolding cons_head
split sep [] = [] ∷ []
split sep (c ∷ s) = let rest = split sep s in if c == sep then [] ∷ rest else cons_head c rest

-- `[0-9]+`.
abbrev pub is_number : Bytes → Bool
is_number [] = false
is_number (c ∷ s) = all is_decimal (c ∷ s)

three_numbers : List Bytes → Bool
three_numbers (a ∷ b ∷ c ∷ []) = is_number a && is_number b && is_number c
three_numbers _ = false

-- `ValidHostVersion`: the regular expression `^[0-9]+\.[0-9]+\.[0-9]+$`.
unfoldable pub valid_host_version : Bytes → Bool
unfolding three_numbers split
valid_host_version v = three_numbers (split b'.' v)

-- `compareDecimal`.
pub compare_decimal : Bytes → Bytes → Sign
unfolding trim_zeros compare_bytes
compare_decimal a b =
    let a' = trim_zeros a in
    let b' = trim_zeros b in
    if not (length a' == length b')
    then (if ltb (length a') (length b') then less else greater)
    else compare_bytes a' b'

abbrev or_else : Sign → Sign → Sign
or_else same s = s
or_else less _ = less
or_else greater _ = greater

-- The loop of `CompareHostVersion`: it ends with the shorter list.
pub compare_parts : List Bytes → List Bytes → Sign
unfolding compare_decimal
compare_parts (x ∷ xs) (y ∷ ys) = or_else (compare_decimal x y) (compare_parts xs ys)
compare_parts _ _ = same

unfoldable pub compare_host_version : Bytes → Bytes → Sign
unfolding compare_parts split
compare_host_version a b = compare_parts (split b'.' a) (split b'.' b)

abbrev pub variant_preference_min_host : Bytes
variant_preference_min_host = codes "0.1.12"

pub data PreferenceError : Type 0 where
  not_one_to_64 host_too_old unknown_or_repeated incomplete : PreferenceError

abbrev is_less : Sign → Bool
is_less less = true
is_less _ = false

-- The loop of `validateVariantPreference`; `seen` is the keys of the map of that name.
unfoldable pub prefer_loop : List Bytes → List Bytes → List Bytes → Option (List Bytes)
prefer_loop variants seen [] = some seen
prefer_loop variants seen (id ∷ order) =
    let rest = prefer_loop variants (id ∷ seen) order in
    if not (any (equal id) variants) || any (equal id) seen then none else rest

covered : List Bytes → Option (List Bytes) → Option PreferenceError
covered variants none = some unknown_or_repeated
covered variants (some seen) =
    if not (length seen == length variants) then some incomplete else none

-- `validateVariantPreference`; `variants` is the keys of the map, each once and true, and `none` a
-- nil error.
unfoldable pub validate_variant_preference :
    List Bytes → Bytes → List Bytes → Option PreferenceError
unfolding covered
validate_variant_preference order min_host variants =
    if length order == 0 || ltb 64 (length order)
    then some not_one_to_64
    else if not (valid_host_version min_host)
        || is_less (compare_host_version min_host variant_preference_min_host)
    then some host_too_old
    else covered variants (prefer_loop variants [] order)
