-- ===== src/Pkg/Versions/Preference.antt =====
-- What an accepted variant preference is.
use aii_plugin_sdk.Prelude.{
  Bool-cases, List, Option, [], any, arith, false, inl, inr, length, none, not, refl, some, sym,
  true, ◌+◌, ◌<◌, ◌||◌, ◌↔◌, ◌∷◌, ◌≡◌, ◌≢◌, ◌≤◌,
}
use aii_plugin_sdk.Prelude.Bytes.{Bytes, equal}
use aii_plugin_sdk.Prelude.Decimal.{less}
use aii_plugin_sdk.Pkg.Versions.{
  compare_host_version, covered, prefer_loop, valid_host_version, validate_variant_preference,
  variant_preference_min_host,
}

-- Each element is one of `variants`, and none comes again or is one of `seen`.
abbrev pub Preference : List Bytes → List Bytes → List Bytes → Type 0
Preference variants seen [] = Unit
Preference variants seen (id ∷ order) =
    (any (equal id) variants ≡ true)
    × (any (equal id) seen ≡ false)
    × Preference variants (id ∷ seen) order

prefer_loop-Preference :
    (variants seen order : List Bytes) {s : List Bytes}
    → prefer_loop variants seen order ≡ some s
    → Preference variants seen order × (length s ≡ length seen + length order)
unfolding prefer_loop
prefer_loop-Preference variants seen [] e = (tt, ground arith)
prefer_loop-Preference variants seen (id ∷ order) {s} e =
    elim (Bool-cases (not (any (equal id) variants) || any (equal id) seen)) [
      | inl t ↦ absurd (cc (rw t at e))
      | inr t ↦
          let (p, q) = prefer_loop-Preference variants (id ∷ seen) order (rw t at e) in
          ((ground arith, ground arith, p), omega (arith, q))
    ]

Preference-prefer_loop :
    (variants seen order : List Bytes)
    → Preference variants seen order
    → (s : List Bytes) × (prefer_loop variants seen order ≡ some s)
      × (length s ≡ length seen + length order)
unfolding prefer_loop
Preference-prefer_loop variants seen [] p = (seen, refl, omega arith)
Preference-prefer_loop variants seen (id ∷ order) (known, fresh, p) =
    let (s, e, l) = Preference-prefer_loop variants (id ∷ seen) order p in
    (s, rw (known, fresh) e, omega (arith, l))

-- The conditions of an accepted preference.
pub record IsPreference (order : List Bytes) (min_host : Bytes) (variants : List Bytes)
    : Type 0 where
  pub not_empty : 0 < length order
  pub at_most_64 : length order ≤ 64
  pub host_valid : valid_host_version min_host ≡ true
  pub host_recent : compare_host_version min_host variant_preference_min_host ≢ less
  pub each_once : Preference variants [] order
  pub every_one : length order ≡ length variants

covered-none :
    (variants order : List Bytes) (o : Option (List Bytes))
    → o ≡ prefer_loop variants [] order
    → covered variants o ≡ none
    → Preference variants [] order × (length order ≡ length variants)
unfolding covered
covered-none variants order none e h = absurd (cc)
covered-none variants order (some s) e h =
    let (p, q) = prefer_loop-Preference variants [] order (sym e) in (p, ground (arith, q))

none-covered :
    (variants order : List Bytes)
    → Preference variants [] order
    → length order ≡ length variants
    → covered variants (prefer_loop variants [] order) ≡ none
unfolding covered
none-covered variants order p l =
    let (s, e, q) = Preference-prefer_loop variants [] order p in rw e (ground (arith, q))

accepted :
    (order : List Bytes) (min_host : Bytes) (variants : List Bytes)
    → (covered variants (prefer_loop variants [] order) ≡ none
        → Preference variants [] order × (length order ≡ length variants))
    → validate_variant_preference order min_host variants ≡ none
    → IsPreference order min_host variants
unfolding validate_variant_preference
accepted order min_host variants last h =
    let tail : covered variants (prefer_loop variants [] order) ≡ none = ground arith in
    let (p, q) = last tail in
    record {
      not_empty = ground arith;
      at_most_64 = ground arith;
      host_valid = ground arith;
      host_recent = ground arith;
      each_once = p;
      every_one = q;
    }

admitted :
    (order : List Bytes) (min_host : Bytes) (variants : List Bytes)
    → IsPreference order min_host variants
    → covered variants (prefer_loop variants [] order) ≡ none
    → validate_variant_preference order min_host variants ≡ none
unfolding validate_variant_preference
admitted order min_host variants p h =
    ground (arith, p.not_empty, p.at_most_64, p.host_valid, p.host_recent)

-- `validateVariantPreference` gives no error exactly for one to 64 variants of the declared ones,
-- each named once and as many as there are, under a valid host version that is not less than
-- 0.1.12.
pub validate_variant_preference_iff :
    (order : List Bytes) (min_host : Bytes) (variants : List Bytes)
    → (validate_variant_preference order min_host variants ≡ none)
      ↔ IsPreference order min_host variants
unfolding validate_variant_preference
validate_variant_preference_iff order min_host variants = (
  accepted order min_host variants
      (covered-none variants order (prefer_loop variants [] order) refl),
  λ p. admitted order min_host variants p (none-covered variants order p.each_once p.every_one),
)
