-- ===== src/Pkg/Runtimes.antt =====
-- The runtimes of a package: the first part of pkg/aiiospkg/runtime.go, their declarations and the
-- ceilings of a host. Sizes and counts are Go's ints.
pub mod Valid
pub mod Exceeds
pub mod Ceilings
use aii_plugin_sdk.Prelude.{
  Bool, List, Option, Result, [], all, any, err, false, if◌then◌else◌, leb, length, ltb, none, not,
  ok, some, true, ℕ, ◌&&◌, ◌*◌, ◌++◌, ◌+◌, ◌-◌, ◌/◌, ◌==◌, ◌^◌, ◌||◌, ◌∷◌,
}
use aii_plugin_sdk.Prelude.Bytes.{Bytes, codes, equal}
use aii_plugin_sdk.Prelude.Int.{negsuc, pos, pos_part, ℤ}
use aii_plugin_sdk.Prelude.Results.{guard, ◌>>◌}

abbrev pub max_runtimes : ℕ
max_runtimes = 8

abbrev pub max_tree_path_bytes : ℕ
max_tree_path_bytes = 511

abbrev pub max_runtime_depth : ℕ
max_runtime_depth = (max_tree_path_bytes - 1) / 2

-- `TreeLimits`.
pub record TreeLimits : Type 0 where
  pub max_installed_bytes : ℤ
  pub max_files : ℤ
  pub max_file_bytes : ℤ
  pub max_compressed_bytes : ℤ
  pub max_depth : ℤ
  pub max_inventory_bytes : ℤ

-- `RuntimeLimits`.
abbrev pub runtime_limits : TreeLimits
runtime_limits = record {
  max_installed_bytes = pos 0;
  max_files = pos 32768;
  max_file_bytes = pos 0;
  max_compressed_bytes = pos 0;
  max_depth = pos 24;
  max_inventory_bytes = pos (16 * 2 ^ 20);
}

-- `RuntimeDecl`; the last two are pointers in the source.
pub record RuntimeDecl : Type 0 where
  pub variant_id : Bytes
  pub url : Bytes
  pub sha256 : Bytes
  pub size : ℤ
  pub installed_bytes : ℤ
  pub files : ℤ
  pub inventory_sha256 : Bytes
  pub largest_file_bytes : Option ℤ
  pub depth : Option ℤ

pub data RuntimeError : Type 0 where
  too_many_runtimes variant_unknown variant_twice url_not_https digest_invalid : RuntimeError
  not_positive extent_in_part largest_wrong depth_outside : RuntimeError
  floor_too_low extent_missing : RuntimeError

-- `v > 0`.
abbrev pub is_positive : ℤ → Bool
is_positive (pos n) = ltb 0 n
is_positive (negsuc n) = false

-- `a > b`.
abbrev pub is_above : ℤ → ℤ → Bool
is_above (pos a) (pos b) = ltb b a
is_above (pos a) (negsuc b) = true
is_above (negsuc a) (pos b) = false
is_above (negsuc a) (negsuc b) = ltb a b

pub has_prefix : Bytes → Bytes → Bool
has_prefix [] b = true
has_prefix (c ∷ p) [] = false
has_prefix (c ∷ p) (d ∷ b) = c == d && has_prefix p b

-- The regular expression `reSHA256`.
abbrev pub is_sha256 : Bytes → Bool
is_sha256 b = length b == 64 && all (λ c. leb b'0' c && leb c b'9' || leb b'a' c && leb c b'f') b

-- `validExtent` of an extent that is declared, for a positive count of files and bytes.
extent_of : ℕ → ℕ → ℤ → ℤ → Result RuntimeError (Unit {0})
extent_of installed files largest depth =
    guard
      (not (
        not (is_positive largest)
        || is_above largest (pos installed)
        || is_above (pos ((installed - 1) / files + 1)) largest))
      largest_wrong
    >> guard (not (not (is_positive depth) || is_above depth (pos max_runtime_depth))) depth_outside

-- `validExtent`, which is called once sizes and counts are known to be positive.
unfoldable pub valid_extent : ℕ → ℕ → Option ℤ → Option ℤ → Result RuntimeError (Unit {0})
unfolding extent_of
valid_extent installed files none none = ok tt
valid_extent installed files (some largest) (some depth) = extent_of installed files largest depth
valid_extent installed files none (some depth) = err extent_in_part
valid_extent installed files (some largest) none = err extent_in_part

-- The tests of one declaration, behind those of its variant.
unfoldable pub check_runtime : RuntimeDecl → Result RuntimeError (Unit {0})
unfolding has_prefix valid_extent
check_runtime d =
    guard (has_prefix (codes "https://") d.url) url_not_https
    >> (guard (is_sha256 d.sha256 && is_sha256 d.inventory_sha256) digest_invalid
        >> (guard (is_positive d.size && is_positive d.installed_bytes && is_positive d.files)
              not_positive
            >> valid_extent (pos_part d.installed_bytes) (pos_part d.files) d.largest_file_bytes
                d.depth))

-- The loop; `seen` is the keys of the map of that name.
unfoldable pub runtimes_loop :
    List Bytes → List Bytes → List RuntimeDecl → Result RuntimeError (Unit {0})
unfolding check_runtime
runtimes_loop known seen [] = ok tt
runtimes_loop known seen (d ∷ decls) =
    let rest = runtimes_loop known (d.variant_id ∷ seen) decls in
    guard (any (equal d.variant_id) known) variant_unknown
    >> (guard (not (any (equal d.variant_id) seen)) variant_twice >> (check_runtime d >> rest))

-- `ValidateRuntimes`, of the ids of the variants.
unfoldable pub validate_runtimes : List RuntimeDecl → List Bytes → Result RuntimeError (Unit {0})
unfolding runtimes_loop
validate_runtimes decls variants =
    guard (not (ltb max_runtimes (length decls))) too_many_runtimes
    >> runtimes_loop variants [] decls

-- `TreeLimits.filled`: what is not set is as in `RuntimeLimits`.
abbrev pub or_limit : ℤ → ℤ → ℤ
or_limit v d = if is_positive v then v else d

unfoldable pub filled : TreeLimits → TreeLimits
filled l = record {
  max_installed_bytes = or_limit l.max_installed_bytes runtime_limits.max_installed_bytes;
  max_files = or_limit l.max_files runtime_limits.max_files;
  max_file_bytes = or_limit l.max_file_bytes runtime_limits.max_file_bytes;
  max_compressed_bytes = or_limit l.max_compressed_bytes runtime_limits.max_compressed_bytes;
  max_depth = or_limit l.max_depth runtime_limits.max_depth;
  max_inventory_bytes = or_limit l.max_inventory_bytes runtime_limits.max_inventory_bytes;
}

-- `TreeLimits.forDecl`: a limit that is still not set is what is declared.
unfoldable pub for_decl : TreeLimits → RuntimeDecl → TreeLimits
unfolding filled
for_decl l d =
    let f = filled l in
    record f {
      max_compressed_bytes = or_limit f.max_compressed_bytes d.size;
      max_installed_bytes = or_limit f.max_installed_bytes d.installed_bytes;
      max_file_bytes = or_limit f.max_file_bytes d.installed_bytes;
    }

-- The keys of the ceilings.
pub data Ceiling : Type 0 where
  installed_ceiling files_ceiling file_ceiling compressed_ceiling depth_ceiling : Ceiling

-- The ceiling is in the map if what is declared is above the limit.
unfoldable pub exceeds : Ceiling → ℤ → ℤ → List (Ceiling × ℤ)
exceeds ceiling declared limit = if is_above declared limit then (ceiling, declared) ∷ [] else []

unfoldable pub exceeds_if : Ceiling → Option ℤ → ℤ → List (Ceiling × ℤ)
unfolding exceeds
exceeds_if ceiling none limit = []
exceeds_if ceiling (some declared) limit = exceeds ceiling declared limit

-- `ExceededCeilings`; a map is the list of its keys with their values.
unfoldable pub exceeded_ceilings : RuntimeDecl → TreeLimits → List (Ceiling × ℤ)
unfolding for_decl exceeds exceeds_if
exceeded_ceilings d limits =
    let l = for_decl limits d in
    exceeds installed_ceiling d.installed_bytes l.max_installed_bytes
    ++ (exceeds files_ceiling d.files l.max_files
        ++ (exceeds compressed_ceiling d.size l.max_compressed_bytes
            ++ (exceeds_if file_ceiling d.largest_file_bytes l.max_file_bytes
                ++ exceeds_if depth_ceiling d.depth l.max_depth)))
