-- ===== src/Pkg/Runtimes/Exceeds.antt =====
-- When a runtime exceeds a ceiling of the host.
pub mod Listed
use mathlib.Core.Path.{refl}
use aii_plugin_sdk.Prelude.{
  Bool-cases, List, [], arith, false, if_cases, inl, inr, some, sym, true, ◌<◌, ◌↔◌, ◌∙◌, ◌∷◌, ◌≡◌,
  ◌⊎◌,
}
use aii_plugin_sdk.Prelude.Int.{negsuc, pos, ℤ}
use aii_plugin_sdk.Pkg.Runtimes.{
  Ceiling, RuntimeDecl, TreeLimits, compressed_ceiling, depth_ceiling, file_ceiling, files_ceiling,
  installed_ceiling, is_above, is_positive, or_limit,
}

-- The first integer is above the second.
abbrev pub IsAbove : ℤ → ℤ → Type 0
IsAbove (pos v) (pos l) = l < v
IsAbove (pos v) (negsuc l) = Unit
IsAbove (negsuc v) (pos l) = ⊥
IsAbove (negsuc v) (negsuc l) = v < l

-- A limit is set if it is above zero.
abbrev pub IsLimit : ℤ → Type 0
IsLimit l = IsAbove l (pos 0)

-- The value is above the limit, or above what stands in for one that is not set.
abbrev pub AboveLimit : ℤ → ℤ → ℤ → Type 0
AboveLimit v l default = (IsLimit l × IsAbove v l) ⊎ ((IsLimit l → ⊥) × IsAbove v default)

-- The value `v` that the runtime has for a ceiling is above the limit. The sizes of the whole have
-- no limit unless one is set; the number of files and the depth have limits of their own, and a
-- file's size is at most that of the installed tree.
abbrev pub Exceeds : RuntimeDecl → TreeLimits → Ceiling → ℤ → Type 0
Exceeds d l installed_ceiling v =
    (d.installed_bytes ≡ v) × IsLimit l.max_installed_bytes × IsAbove v l.max_installed_bytes
Exceeds d l files_ceiling v = (d.files ≡ v) × AboveLimit v l.max_files (pos 32768)
Exceeds d l file_ceiling v =
    (d.largest_file_bytes ≡ some v) × AboveLimit v l.max_file_bytes d.installed_bytes
Exceeds d l compressed_ceiling v =
    (d.size ≡ v) × IsLimit l.max_compressed_bytes × IsAbove v l.max_compressed_bytes
Exceeds d l depth_ceiling v = (d.depth ≡ some v) × AboveLimit v l.max_depth (pos 24)

-- The ceiling stands in the list with the value.
abbrev pub Named : Ceiling → ℤ → List (Ceiling × ℤ) → Type 0
Named c v [] = ⊥
Named c v ((k, w) ∷ cs) = ((k ≡ c) × (w ≡ v)) ⊎ Named c v cs

is_above_iff : (v l : ℤ) → (is_above v l ≡ true) ↔ IsAbove v l
is_above_iff (pos v) (pos l) = ground arith
is_above_iff (pos v) (negsuc l) = (λ _. tt, λ _. refl)
is_above_iff (negsuc v) (pos l) = (λ h. absurd (cc), λ h. absurd h)
is_above_iff (negsuc v) (negsuc l) = ground arith

is_positive_iff : (l : ℤ) → (is_positive l ≡ true) ↔ IsLimit l
is_positive_iff (pos n) = ground arith
is_positive_iff (negsuc n) = (λ h. absurd (cc), λ h. absurd h)

unset : (l : ℤ) → is_positive l ≡ false → IsLimit l → ⊥
unset l e s = absurd (cc (sym e ∙ (is_positive_iff l).1 s))

pub or_limit-AboveLimit :
    (v l default : ℤ) → (is_above v (or_limit l default) ≡ true) ↔ AboveLimit v l default
or_limit-AboveLimit v l default =
    if_cases (λ m. (is_above v m ≡ true) ↔ AboveLimit v l default) (is_positive l)
      (λ e. (
        λ h. inl ((is_positive_iff l).0 e, (is_above_iff v l).0 h),
        λ a. elim a [
          | inl (_, b) ↦ (is_above_iff v l).1 b
          | inr (n, _) ↦ absurd (n ((is_positive_iff l).0 e))
        ],
      ))
      (λ e. (
        λ h. inr (unset l e, (is_above_iff v default).0 h),
        λ a. elim a [
          | inl (s, _) ↦ absurd (unset l e s)
          | inr (_, b) ↦ (is_above_iff v default).1 b
        ],
      ))

pub or_limit_twice : (l default : ℤ) → or_limit (or_limit l (pos 0)) default ≡ or_limit l default
or_limit_twice l default = elim (Bool-cases (is_positive l)) [
  | inl e ↦ rw (e, e) refl
  | inr e ↦ rw e refl
]

not_above_self : (v : ℤ) → IsAbove v v → ⊥
not_above_self (pos n) h = omega arith
not_above_self (negsuc n) h = omega arith

-- A limit that stands in with the value itself is never exceeded.
pub above_itself : (v l : ℤ) → AboveLimit v l v ↔ (IsLimit l × IsAbove v l)
above_itself v l =
    (λ a. elim a [ inl x ↦ x | inr (_, b) ↦ absurd (not_above_self v b) ], λ x. inl x)
