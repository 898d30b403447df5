-- ===== src/Pkg/Tree/Valid.antt =====
-- What the members of an accepted package are.
use mathlib.Core.Path.{refl}
use aii_plugin_sdk.Prelude.{
  Bool, List, [], all, any, arith, false, if◌then◌else◌, leb, length, ok, sym, true, ℕ, ◌&&◌, ◌++◌,
  ◌+◌, ◌<◌, ◌==◌, ◌||◌, ◌∙◌, ◌∷◌, ◌≡◌, ◌≢◌, ◌≤◌,
}
use aii_plugin_sdk.Prelude.Bytes.{Bytes, codes, equal, equal_iff}
use aii_plugin_sdk.Prelude.Results.{>>-ok, >>=-eq-ok, guard-ok, guard-not-ok, last_guard-ok}
use aii_plugin_sdk.Pkg.Versions.{split}
use aii_plugin_sdk.Pkg.Tree.{
  TreeMember, allowed, bad_length, bad_path_length, casefold_sibling_collision, check_against,
  check_regular, collides, device_name, dots, ends_in_dot, escapes, final_dot, has_prefix,
  max_component_bytes, max_member_path_bytes, max_regular_payload_bytes, max_semantic_members,
  members_loop, nested_root, tar_mode_executable, tar_mode_regular, too_many, twice,
  validate_component, validate_components, validate_members, validate_path, windows_device_stem,
}

-- A name that every file system can create, and that leads nowhere else.
pub record IsComponent (c : Bytes) : Type 0 where
  pub some_bytes : 0 < length c
  pub few_bytes : length c ≤ max_component_bytes
  pub not_here : c ≢ codes "."
  pub not_parent : c ≢ codes ".."
  pub no_final_dot : ends_in_dot c ≡ false
  pub no_device : windows_device_stem c ≡ false
  pub plain : all allowed c ≡ true

abbrev pub AllComponents : List Bytes → Type 0
AllComponents [] = Unit
AllComponents (c ∷ cs) = IsComponent c × AllComponents cs

abbrev pub IsPath : Bytes → Type 0
IsPath path = (length path ≤ max_member_path_bytes) × AllComponents (split b'/' path)

-- No member has the path, and none would be merged with it.
abbrev pub Apart : List TreeMember → Bytes → Type 0
Apart [] path = Unit
Apart (prev ∷ prevs) path =
    (prev.path ≢ path) × (casefold_sibling_collision prev.path path ≡ false) × Apart prevs path

abbrev pub has_mode : TreeMember → Bool
has_mode m = m.is_dir || m.mode == tar_mode_regular || m.mode == tar_mode_executable

pub record IsMember (root : Bytes) (before : List TreeMember) (m : TreeMember) : Type 0 where
  pub path_valid : IsPath m.path
  pub inside : (equal m.path root || has_prefix m.path (root ++ (b'/' ∷ []))) ≡ true
  pub mode_canonical : has_mode m ≡ true
  pub apart : Apart before m.path

abbrev pub AllMembers : Bytes → List TreeMember → List TreeMember → Type 0
AllMembers root before [] = Unit
AllMembers root before (m ∷ ms) = IsMember root before m × AllMembers root (before ++ (m ∷ [])) ms

-- The bytes of the members that are not directories.
abbrev pub regular_bytes : List TreeMember → ℕ
regular_bytes [] = 0
regular_bytes (m ∷ ms) = (if m.is_dir then 0 else length m.content) + regular_bytes ms

unequal : (a b : Bytes) → equal a b ≡ false → a ≢ b
unequal a b h e = cc (sym h ∙ (equal_iff a b).1 e)

neither : (a b : Bool) → (a || b) ≡ false → (a ≡ false) × (b ≡ false)
neither false b h = (refl, h)
neither true b h = absurd (cc)

validate_component-ok : (c : Bytes) → validate_component c ≡ ok tt → IsComponent c
unfolding validate_component
validate_component-ok c h =
    let (a, h1) =
      guard-ok (leb 1 (length c) && leb (length c) max_component_bytes) bad_length _ h in
    let (b, h2) = guard-not-ok (equal c (codes ".") || equal c (codes "..")) dots _ h1 in
    let (d, h3) = guard-not-ok (ends_in_dot c) final_dot _ h2 in
    let (e, h4) = guard-not-ok (windows_device_stem c) device_name _ h3 in
    let (here, parent) = neither (equal c (codes ".")) (equal c (codes "..")) b in
    record {
      some_bytes = ground arith;
      few_bytes = ground arith;
      not_here = unequal c (codes ".") here;
      not_parent = unequal c (codes "..") parent;
      no_final_dot = d;
      no_device = e;
      plain = last_guard-ok _ _ h4;
    }

validate_components-ok : (cs : List Bytes) → validate_components cs ≡ ok tt → AllComponents cs
unfolding validate_components
validate_components-ok [] h = tt
validate_components-ok (c ∷ cs) h =
    let (a, h') = >>-ok (validate_component c) _ h in
    (validate_component-ok c a, validate_components-ok cs h')

validate_path-ok : (path : Bytes) → validate_path path ≡ ok tt → IsPath path
unfolding validate_path
validate_path-ok path h =
    let (a, h') =
      guard-ok (leb 1 (length path) && leb (length path) max_member_path_bytes) bad_path_length _
        h in
    (ground arith, validate_components-ok (split b'/' path) h')

check_against-ok :
    (before : List TreeMember) (m : TreeMember)
    → check_against before m ≡ ok tt
    → Apart before m.path
unfolding check_against
check_against-ok [] m h = tt
check_against-ok (prev ∷ prevs) m h =
    let (a, h1) = guard-not-ok (equal prev.path m.path) twice _ h in
    let (b, h2) = guard-not-ok (casefold_sibling_collision prev.path m.path) collides _ h1 in
    (unequal prev.path m.path a, b, check_against-ok prevs m h2)

check_regular-ok :
    (m : TreeMember) (payload : ℕ) {total : ℕ}
    → check_regular m payload ≡ ok total
    → payload ≤ max_regular_payload_bytes
    → (has_mode m ≡ true)
      × (total ≡ payload + (if m.is_dir then 0 else length m.content))
      × (total ≤ max_regular_payload_bytes)
unfolding check_regular
check_regular-ok m payload h l = ground arith

members_loop-ok :
    (root : Bytes) (before : List TreeMember) (payload : ℕ) (ms : List TreeMember)
    → payload ≤ max_regular_payload_bytes
    → members_loop root before payload ms ≡ ok tt
    → AllMembers root before ms × (payload + regular_bytes ms ≤ max_regular_payload_bytes)
unfolding members_loop
members_loop-ok root before payload [] l h = (tt, omega arith)
members_loop-ok root before payload (m ∷ ms) l h =
    let (p, h1) = >>-ok (validate_path m.path) _ h in
    let (i, h2) =
      guard-ok (equal m.path root || has_prefix m.path (root ++ (b'/' ∷ []))) escapes _ h1 in
    let (total, c, h3) = >>=-eq-ok (check_regular m payload) _ h2 in
    let (a, h4) = >>-ok (check_against before m) _ h3 in
    let (mode, sum, small) = check_regular-ok m payload c l in
    let (rest, bound) = members_loop-ok root (before ++ (m ∷ [])) total ms small h4 in
    (
      (
        record {
          path_valid = validate_path-ok m.path p;
          inside = i;
          mode_canonical = mode;
          apart = check_against-ok before m a;
        },
        rest,
      ),
      omega arith,
    )

-- What `validateMembers` accepts: at most 1024 members with at most 2 GiB of content, below a root
-- of one component; each path is of at most 511 bytes, stays below the root, and has no component
-- that is empty, `.` or `..`, has other bytes than letters, digits and `._+-`, ends in a dot or
-- names a device; modes are 0644 or 0755; and no two paths are equal or differ only in the case of
-- letters.
pub validate_members-ok :
    (root : Bytes) (ms : List TreeMember)
    → validate_members root ms ≡ ok tt
    → IsPath root
      × (any (λ c. c == b'/') root ≡ false)
      × (length ms ≤ max_semantic_members)
      × (regular_bytes ms ≤ max_regular_payload_bytes)
      × AllMembers root [] ms
unfolding validate_members
validate_members-ok root ms h =
    let (p, h1) = >>-ok (validate_path root) _ h in
    let (single, h2) = guard-not-ok (any (λ c. c == b'/') root) nested_root _ h1 in
    let (few, h3) = guard-ok (leb (length ms) max_semantic_members) too_many _ h2 in
    let (all_members, bound) = members_loop-ok root [] 0 ms (omega arith) h3 in
    (validate_path-ok root p, single, ground arith, omega arith, all_members)
