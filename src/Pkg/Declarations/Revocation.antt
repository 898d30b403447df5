-- ===== src/Pkg/Declarations/Revocation.antt =====
-- pkg/aiiospkg/revocation.go: which entries a revocation may have.
use mathlib.Core.Path.{refl}
use aii_plugin_sdk.Prelude.{
  ==_iff, Bool, Bool-cases, List, Option, [], all, any, arith, if◌then◌else◌, inl, inr, leb, length,
  none, not, some, sym, true, ℕ, ◌&&◌, ◌++◌, ◌==◌, ◌||◌, ◌↔◌, ◌∷◌, ◌≡◌,
}
use aii_plugin_sdk.Prelude.Bytes.{Bytes, codes, equal}

pub record RevocationEntry : Type 0 where
  pub artifact_kind : Bytes
  pub payload_sha256 : Bytes

pub data RevocationError : Type 0 where
  foreign_kind no_algorithm bad_digits bad_length : RevocationError

-- `certifierRevocableKinds`.
abbrev pub certifier_revocable_kinds : List Bytes
certifier_revocable_kinds = codes "plugin.publisher_certificate" ∷ codes "plugin.manifest" ∷ []

-- `CertifierMayRevoke`.
pub certifier_may_revoke : Bytes → Bool
certifier_may_revoke kind = any (equal kind) certifier_revocable_kinds

abbrev pub is_lower_hex : ℕ → Bool
is_lower_hex c = (leb b'0' c && leb c b'9') || (leb b'a' c && leb c b'f')

-- What stands behind the prefix, if the text has it.
unfoldable pub trim_prefix : Bytes → Bytes → Option Bytes
trim_prefix [] v = some v
trim_prefix (x ∷ xs) [] = none
trim_prefix (x ∷ xs) (c ∷ v) = let rest = trim_prefix xs v in if x == c then rest else none

check_hex : Option Bytes → Option RevocationError
check_hex none = some no_algorithm
check_hex (some hex_part) =
    if not (length hex_part == 64)
    then some bad_length
    else if not (all is_lower_hex hex_part)
    then some bad_digits
    else none

-- `ValidateRevocationDigest`; the source goes through the code points of a text, and a byte of one
-- beyond ASCII is no digit either.
unfoldable pub validate_revocation_digest : Bytes → Option RevocationError
unfolding trim_prefix check_hex
validate_revocation_digest v = check_hex (trim_prefix (codes "sha256:") v)

-- `validateRevocationEntry`.
unfoldable pub validate_revocation_entry : RevocationEntry → Option RevocationError
unfolding certifier_may_revoke validate_revocation_digest
validate_revocation_entry e =
    if not (certifier_may_revoke e.artifact_kind)
    then some foreign_kind
    else validate_revocation_digest e.payload_sha256

-- A digest as it is written.
abbrev pub IsDigest : Bytes → Type 0
IsDigest v =
    (hex_part : Bytes) × (v ≡ codes "sha256:" ++ hex_part)
    × (length hex_part ≡ 64)
    × (all is_lower_hex hex_part ≡ true)

trim_prefix-some : (p v : Bytes) {w : Bytes} → trim_prefix p v ≡ some w → v ≡ p ++ w
unfolding trim_prefix
trim_prefix-some [] v h = cc
trim_prefix-some (x ∷ p) [] h = absurd (cc)
trim_prefix-some (x ∷ p) (c ∷ v) {w} h = elim (Bool-cases (x == c)) [
  | inl e ↦ ap2 (sym ((==_iff x c).0 e)) (trim_prefix-some p v (rw e at h))
  | inr e ↦ absurd (cc (rw e at h))
]
  where
    ap2 : {a b : ℕ} {xs ys : Bytes} → a ≡ b → xs ≡ ys → a ∷ xs ≡ b ∷ ys
    ap2 e f = cc

check_hex-none :
    (o : Option Bytes)
    → check_hex o ≡ none
    → (h : Bytes) × (o ≡ some h) × (length h ≡ 64) × (all is_lower_hex h ≡ true)
unfolding check_hex
check_hex-none none h = absurd (cc)
check_hex-none (some x) h = (x, refl, ground arith, ground arith)

digest-accepted : (v : Bytes) → IsDigest v → validate_revocation_digest v ≡ none
unfolding validate_revocation_digest check_hex
digest-accepted v (h, e, l, a) = let n : (length h == 64) ≡ true = ground arith in rw (e, n, a)

-- `validateRevocationEntry` gives no error exactly for a publisher's certificate or a manifest whose
-- digest is `sha256:` and 64 lower-case hexadecimal digits.
pub validate_revocation_entry_iff :
    (e : RevocationEntry)
    → (validate_revocation_entry e ≡ none)
      ↔ ((any (equal e.artifact_kind) certifier_revocable_kinds ≡ true) × IsDigest e.payload_sha256)
unfolding validate_revocation_entry certifier_may_revoke
validate_revocation_entry_iff e =
    (λ h. (kind h, digest (ground arith)), λ (k, d). rw k (digest-accepted e.payload_sha256 d))
  where
    kind :
        validate_revocation_entry e ≡ none
        → any (equal e.artifact_kind) certifier_revocable_kinds ≡ true
    kind h = ground arith

    digest : validate_revocation_digest e.payload_sha256 ≡ none → IsDigest e.payload_sha256
    digest h =
        let p : check_hex (trim_prefix (codes "sha256:") e.payload_sha256) ≡ none =
          unfold validate_revocation_digest in h in
        let (x, o, l, a) = check_hex-none (trim_prefix (codes "sha256:") e.payload_sha256) p in
        (x, trim_prefix-some (codes "sha256:") e.payload_sha256 o, l, a)
