-- ===== src/Pkg/Runtimes/Valid.antt =====
-- What `ValidateRuntimes` makes sure of.
use native.Mathlib.Nat.{div-lt_iff_lt-mul}
use aii_plugin_sdk.Prelude.{
  &&-left, &&-right, List, Option, [], any, arith, false, length, ltb, none, not, ok, some, true, ℕ,
  ◌&&◌, ◌*◌, ◌+◌, ◌-◌, ◌/◌, ◌<◌, ◌||◌, ◌∷◌, ◌≡◌, ◌≤◌,
}
use aii_plugin_sdk.Prelude.Bytes.{Bytes, codes, equal}
use aii_plugin_sdk.Prelude.Int.{negsuc, pos, pos_part, ℤ}
use aii_plugin_sdk.Prelude.Results.{>>-ok, guard, guard-not-ok, guard-ok, last_guard-ok}
use aii_plugin_sdk.Pkg.Runtimes.{
  RuntimeDecl, check_runtime, depth_outside, extent_of, has_prefix, is_positive, is_sha256,
  largest_wrong, max_runtime_depth, max_runtimes, runtimes_loop, too_many_runtimes, valid_extent,
  validate_runtimes, variant_twice, variant_unknown,
}

-- The largest of `files` files with `installed` bytes in all, and the depth of their tree.
abbrev pub IsExtent : ℕ → ℕ → ℕ → ℕ → Type 0
IsExtent installed files largest depth =
    (0 < largest)
    × (largest ≤ installed)
    × (installed ≤ largest * files)
    × (0 < depth)
    × (depth ≤ 255)

abbrev pub HasExtent : ℕ → ℕ → Option ℤ → Option ℤ → Type 0
HasExtent installed files none none = Unit
HasExtent installed files (some largest) (some depth) =
    IsExtent installed files (pos_part largest) (pos_part depth)
HasExtent installed files none (some _) = ⊥
HasExtent installed files (some _) none = ⊥

pub record IsRuntime (d : RuntimeDecl) : Type 0 where
  pub url_https : has_prefix (codes "https://") d.url ≡ true
  pub digests : (is_sha256 d.sha256 && is_sha256 d.inventory_sha256) ≡ true
  pub size : 0 < pos_part d.size
  pub bytes : 0 < pos_part d.installed_bytes
  pub files : 0 < pos_part d.files
  pub extent :
      HasExtent (pos_part d.installed_bytes) (pos_part d.files) d.largest_file_bytes d.depth

-- Runtimes of known variants, no variant twice and none of those seen.
abbrev pub AreRuntimes : List Bytes → List Bytes → List RuntimeDecl → Type 0
AreRuntimes known seen [] = Unit
AreRuntimes known seen (d ∷ decls) =
    (any (equal d.variant_id) known ≡ true)
    × (any (equal d.variant_id) seen ≡ false)
    × IsRuntime d
    × AreRuntimes known (d.variant_id ∷ seen) decls

positive_part : (v : ℤ) → is_positive v ≡ true → 0 < pos_part v
positive_part (pos n) h = ground arith
positive_part (negsuc n) h = absurd (cc)

-- Bytes that are no more on the average are no more in all.
mean-le :
    (installed files largest : ℕ)
    → 0 < files
    → (installed - 1) / files + 1 ≤ largest
    → installed ≤ largest * files
mean-le installed files largest f h =
    let l = (div-lt_iff_lt-mul {k = files} {x = installed - 1} {y = largest} f).0 (omega arith) in
    omega arith

extent_of-ok :
    (installed files : ℕ) (largest depth : ℤ)
    → 0 < files
    → extent_of installed files largest depth ≡ ok tt
    → IsExtent installed files (pos_part largest) (pos_part depth)
unfolding extent_of
extent_of-ok installed files (negsuc l) depth f h = absurd (cc)
extent_of-ok installed files (pos l) (negsuc k) f h =
    let (t, e) =
      guard-not-ok (not (ltb 0 l) || ltb installed l || ltb l ((installed - 1) / files + 1))
        largest_wrong (guard false depth_outside) h in
    let never : false ≡ true = last_guard-ok false depth_outside e in absurd (cc)
extent_of-ok installed files (pos l) (pos k) f h =
    let (t, e) =
      guard-not-ok (not (ltb 0 l) || ltb installed l || ltb l ((installed - 1) / files + 1))
        largest_wrong (guard (not (not (ltb 0 k) || ltb max_runtime_depth k)) depth_outside) h in
    let (low, high, mean) = largest_test installed ((installed - 1) / files + 1) l t in
    let (d, d') =
      depth_test k
        (last_guard-ok (not (not (ltb 0 k) || ltb max_runtime_depth k)) depth_outside e) in
    (low, high, mean-le installed files l f mean, d, d')
  where
    depth_test :
        (k : ℕ) → not (not (ltb 0 k) || ltb max_runtime_depth k) ≡ true → (0 < k) × (k ≤ 255)
    depth_test k h = (ground arith, ground arith)

    largest_test :
        (installed mean l : ℕ)
        → (not (ltb 0 l) || ltb installed l || ltb l mean) ≡ false
        → (0 < l) × (l ≤ installed) × (mean ≤ l)
    largest_test installed mean l h = (ground arith, ground arith, ground arith)

valid_extent-ok :
    (installed files : ℕ) (largest depth : Option ℤ)
    → 0 < files
    → valid_extent installed files largest depth ≡ ok tt
    → HasExtent installed files largest depth
unfolding valid_extent
valid_extent-ok installed files none none f h = tt
valid_extent-ok installed files (some l) (some k) f h = extent_of-ok installed files l k f h
valid_extent-ok installed files none (some k) f h = absurd (cc)
valid_extent-ok installed files (some l) none f h = absurd (cc)

check_runtime-ok : (d : RuntimeDecl) → check_runtime d ≡ ok tt → IsRuntime d
unfolding check_runtime
check_runtime-ok d h =
    let (u, h') = guard-ok _ _ _ h in
    let (g, h'') = guard-ok _ _ _ h' in
    let (p, e) = guard-ok _ _ _ h'' in
    let s = &&-left (is_positive d.size && is_positive d.installed_bytes) (is_positive d.files) p in
    let files =
      positive_part d.files
        (&&-right (is_positive d.size && is_positive d.installed_bytes) (is_positive d.files) p) in
    record {
      url_https = u;
      digests = g;
      size = positive_part d.size (&&-left (is_positive d.size) (is_positive d.installed_bytes) s);
      bytes =
          positive_part d.installed_bytes
            (&&-right (is_positive d.size) (is_positive d.installed_bytes) s);
      files = files;
      extent =
          valid_extent-ok (pos_part d.installed_bytes) (pos_part d.files) d.largest_file_bytes
            d.depth files e;
    }

runtimes_loop-ok :
    (known seen : List Bytes) (decls : List RuntimeDecl)
    → runtimes_loop known seen decls ≡ ok tt
    → AreRuntimes known seen decls
unfolding runtimes_loop
runtimes_loop-ok known seen [] h = tt
runtimes_loop-ok known seen (d ∷ decls) h =
    let (k, h') = guard-ok (any (equal d.variant_id) known) variant_unknown _ h in
    let (n, h'') = guard-not-ok (any (equal d.variant_id) seen) variant_twice _ h' in
    let (c, rest) = >>-ok (check_runtime d) (runtimes_loop known (d.variant_id ∷ seen) decls) h'' in
    (k, n, check_runtime-ok d c, runtimes_loop-ok known (d.variant_id ∷ seen) decls rest)

-- Runtimes that `ValidateRuntimes` accepts are at most eight, of declared variants, no two of one
-- variant, each at an https address with two digests of 64 hexadecimal digits and positive sizes and
-- counts; and an extent that is declared is possible: the largest file is within the bytes
-- installed, the files are not larger than it on the average, so that the bytes installed are at
-- most the count times the largest, and the depth is from 1 to 255.
pub validate_runtimes-ok :
    (decls : List RuntimeDecl) (variants : List Bytes)
    → validate_runtimes decls variants ≡ ok tt
    → (length decls ≤ max_runtimes) × AreRuntimes variants [] decls
unfolding validate_runtimes
validate_runtimes-ok decls variants h =
    let (l, e) = guard-not-ok (ltb max_runtimes (length decls)) too_many_runtimes _ h in
    (ground arith, runtimes_loop-ok variants [] decls e)
