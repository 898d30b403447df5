-- ===== src/Pkg/Tree.antt =====
-- pkg/aiiospkg/tree.go: which members a package may have, `validateMembers` and what it calls. The
-- messages of its errors are left out.
pub mod Collision
pub mod Valid
use aii_plugin_sdk.Prelude.{
  Bool, List, Result, [], all, any, err, false, if◌then◌else◌, leb, length, ltb, map, not, ok, true,
  ℕ, ◌&&◌, ◌++◌, ◌+◌, ◌-◌, ◌==◌, ◌^◌, ◌||◌, ◌∷◌,
}
use aii_plugin_sdk.Prelude.Bytes.{Bytes, codes, equal}
use aii_plugin_sdk.Prelude.Results.{guard, ◌>>=◌, ◌>>◌}
use aii_plugin_sdk.Pkg.Versions.{split}

abbrev pub max_component_bytes : ℕ
max_component_bytes = 255

abbrev pub max_member_path_bytes : ℕ
max_member_path_bytes = 511

abbrev pub max_semantic_members : ℕ
max_semantic_members = 1024

abbrev pub max_regular_payload_bytes : ℕ
max_regular_payload_bytes = 2 ^ 31

-- `tarModeRegular` and `tarModeExecutable`, 0644 and 0755 in octal.
abbrev pub tar_mode_regular : ℕ
tar_mode_regular = 420

abbrev pub tar_mode_executable : ℕ
tar_mode_executable = 493

pub record TreeMember : Type 0 where
  pub path : Bytes
  pub is_dir : Bool
  pub mode : ℕ
  pub content : Bytes

pub data MemberError : Type 0 where
  bad_length dots final_dot device_name bad_byte : MemberError
  bad_path_length nested_root too_many escapes bad_mode too_big twice collides : MemberError

pub ascii_lower : ℕ → ℕ
ascii_lower b = if leb b'A' b && leb b b'Z' then b + (b'a' - b'A') else b

-- What stands before the first dot.
stem : Bytes → Bytes
stem [] = []
stem (c ∷ s) = if c == b'.' then [] else c ∷ stem s

numbered_device : Bytes → Bool
numbered_device (a ∷ b ∷ c ∷ d ∷ []) =
    (equal (a ∷ b ∷ c ∷ []) (codes "com") || equal (a ∷ b ∷ c ∷ []) (codes "lpt"))
    && leb b'1' d
    && leb d b'9'
numbered_device _ = false

-- `windowsDeviceStem`.
unfoldable pub windows_device_stem : Bytes → Bool
unfolding stem ascii_lower numbered_device
windows_device_stem component =
    let lower = map ascii_lower (stem component) in
    any (equal lower) (codes "con" ∷ codes "prn" ∷ codes "aux" ∷ codes "nul" ∷ [])
    || numbered_device lower

pub ends_in_dot : Bytes → Bool
ends_in_dot [] = false
ends_in_dot (c ∷ []) = c == b'.'
ends_in_dot (_ ∷ c ∷ s) = ends_in_dot (c ∷ s)

abbrev pub allowed : ℕ → Bool
allowed c =
    (leb b'A' c && leb c b'Z')
    || (leb b'a' c && leb c b'z')
    || (leb b'0' c && leb c b'9')
    || c == b'.'
    || c == b'_'
    || c == b'+'
    || c == b'-'

-- `validateComponent`.
pub validate_component : Bytes → Result MemberError (Unit {0})
unfolding windows_device_stem ends_in_dot
validate_component component = do
  guard (leb 1 (length component) && leb (length component) max_component_bytes) bad_length
  guard (not (equal component (codes ".") || equal component (codes ".."))) dots
  guard (not (ends_in_dot component)) final_dot
  guard (not (windows_device_stem component)) device_name
  guard (all allowed component) bad_byte

pub validate_components : List Bytes → Result MemberError (Unit {0})
unfolding validate_component
validate_components [] = ok tt
validate_components (c ∷ cs) = validate_component c >> validate_components cs

-- `validatePath`.
pub validate_path : Bytes → Result MemberError (Unit {0})
unfolding validate_components split
validate_path path = do
  guard (leb 1 (length path) && leb (length path) max_member_path_bytes) bad_path_length
  validate_components (split b'/' path)

-- The rounds of `casefoldSiblingCollision`, over the components that it cuts off.
pub collision : List Bytes → List Bytes → Bool
unfolding ascii_lower
collision (l ∷ ls) (r ∷ rs) =
    let rest = collision ls rs in
    if not (equal (map ascii_lower l) (map ascii_lower r))
    then false
    else if not (equal l r)
    then true
    else rest
collision _ _ = false

-- `casefoldSiblingCollision`.
unfoldable pub casefold_sibling_collision : Bytes → Bytes → Bool
unfolding collision split
casefold_sibling_collision left right = collision (split b'/' left) (split b'/' right)

-- `strings.HasPrefix(path, prefix)`.
abbrev pub has_prefix : Bytes → Bytes → Bool
has_prefix path [] = true
has_prefix [] (x ∷ prefix) = false
has_prefix (c ∷ path) (x ∷ prefix) = c == x && has_prefix path prefix

-- The inner loop, over the members before.
pub check_against : List TreeMember → TreeMember → Result MemberError (Unit {0})
unfolding casefold_sibling_collision
check_against [] m = ok tt
check_against (prev ∷ prevs) m = do
  guard (not (equal prev.path m.path)) twice
  guard (not (casefold_sibling_collision prev.path m.path)) collides
  check_against prevs m

-- What a member that is not a directory adds to the payload.
pub check_regular : TreeMember → ℕ → Result MemberError ℕ
check_regular m payload =
    if m.is_dir
    then ok payload
    else if not (m.mode == tar_mode_regular) && not (m.mode == tar_mode_executable)
    then err bad_mode
    else if ltb (max_regular_payload_bytes - payload) (length m.content)
    then err too_big
    else ok (payload + length m.content)

-- The loop, with the members before and their payload.
pub members_loop : Bytes → List TreeMember → ℕ → List TreeMember → Result MemberError (Unit {0})
unfolding validate_path check_regular check_against
members_loop root before payload [] = ok tt
members_loop root before payload (m ∷ ms) = do
  validate_path m.path
  guard (equal m.path root || has_prefix m.path (root ++ (b'/' ∷ []))) escapes
  payload' ← check_regular m payload
  check_against before m
  members_loop root (before ++ (m ∷ [])) payload' ms

-- `validateMembers`.
unfoldable pub validate_members : Bytes → List TreeMember → Result MemberError (Unit {0})
unfolding validate_path members_loop
validate_members root ms = do
  validate_path root
  guard (not (any (λ c. c == b'/') root)) nested_root
  guard (leb (length ms) max_semantic_members) too_many
  members_loop root [] 0 ms
