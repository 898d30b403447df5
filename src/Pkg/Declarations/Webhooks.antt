-- ===== src/Pkg/Declarations/Webhooks.antt =====
-- pkg/aiiospkg/webhooks.go: `ValidateWebhooks` and `CheckWebhookOperations`.
pub mod Forms
pub mod Valid
use aii_plugin_sdk.Prelude.{
  Bool, List, Option, Result, [], all, any, err, false, if◌then◌else◌, leb, length, map, none, not,
  ok, some, ℕ, ◌&&◌, ◌*◌, ◌+◌, ◌==◌, ◌^◌, ◌||◌, ◌∷◌,
}
use aii_plugin_sdk.Prelude.Bytes.{Bytes, codes, equal}
use aii_plugin_sdk.Prelude.Int.{negsuc, pos, ℤ}
use aii_plugin_sdk.Prelude.Results.{guard, ◌>>◌}
use aii_plugin_sdk.Pkg.Versions.{split}
use aii_plugin_sdk.Pkg.Declarations.Operations.{check_operations}

abbrev pub max_webhooks : ℕ
max_webhooks = 16

abbrev pub max_webhook_bytes : ℕ
max_webhook_bytes = 256 * 2 ^ 10

abbrev pub scheme_google_oidc : Bytes
scheme_google_oidc = codes "google-oidc"

abbrev pub schemes : List Bytes
schemes =
    codes "hmac-sha256-hex"
    ∷ codes "hmac-sha256-base64"
    ∷ codes "twilio"
    ∷ codes "token"
    ∷ scheme_google_oidc
    ∷ []

pub record WebhookSignature : Type 0 where
  pub scheme : Bytes
  pub header : Bytes
  pub prefix : Bytes
  pub secret_setting : Bytes
  pub email_setting : Bytes

pub record WebhookDecl : Type 0 where
  pub path : Bytes
  pub operation : Bytes
  pub signature : Option WebhookSignature
  pub max_body_bytes : ℤ

-- What the check reads of a setting's declaration.
pub record SettingDecl : Type 0 where
  pub key : Bytes
  pub type : Bytes

pub data WebhookError : Type 0 where
  too_many : WebhookError
  bad_path : ℕ → WebhookError
  twice no_operation no_signature bad_scheme bad_header long_prefix : Bytes → WebhookError
  not_bearer shared_secret no_email stray_email no_secret bad_body : Bytes → WebhookError

abbrev is_lower_or_digit : ℕ → Bool
is_lower_or_digit c = (leb b'a' c && leb c b'z') || (leb b'0' c && leb c b'9')

-- `[a-z0-9][a-z0-9_-]{0,63}`.
webhook_segment : Bytes → Bool
webhook_segment [] = false
webhook_segment (c ∷ s) =
    is_lower_or_digit c
    && all (λ d. is_lower_or_digit d || d == b'_' || d == b'-') s
    && leb (length s) 63

-- `reWebhookPath`.
pub webhook_path : Bytes → Bool
unfolding webhook_segment
webhook_path p = all webhook_segment (split b'/' p) && leb (length (split b'/' p)) 4

abbrev upper : ℕ → Bool
upper c = leb b'A' c && leb c b'Z'

-- `reHeaderName`.
pub header_name : Bytes → Bool
header_name h =
    all (λ c. upper c || is_lower_or_digit c || c == b'-') h
    && leb 1 (length h)
    && leb (length h) 64

-- `strings.EqualFold` on header names, which are ASCII.
lower : ℕ → ℕ
lower c = if upper c then c + 32 else c

pub equal_fold : Bytes → Bytes → Bool
unfolding lower
equal_fold a b = equal (map lower a) (map lower b)

-- Whether the map of the settings of type `type` holds the key.
pub declared : Bytes → List SettingDecl → Bytes → Bool
declared type settings key =
    any (λ (s : SettingDecl). equal s.type type && equal s.key key) settings

body_in_range : ℤ → Bool
body_in_range (pos n) = leb n max_webhook_bytes
body_in_range (negsuc n) = false

module _ (settings : List SettingDecl) where
  -- The branch `d.Signature.Scheme == SchemeGoogleOIDC`.
  check_oidc : Bytes → WebhookSignature → Result WebhookError (Unit {0})
  unfolding equal_fold declared
  check_oidc path sig = do
    guard (equal_fold sig.header (codes "Authorization") && equal sig.prefix (codes "Bearer "))
        (not_bearer path)
    guard (length sig.secret_setting == 0) (shared_secret path)
    guard (declared (codes "string") settings sig.email_setting) (no_email path)

  -- The other branch.
  check_shared : Bytes → WebhookSignature → Result WebhookError (Unit {0})
  unfolding declared
  check_shared path sig = do
    guard (length sig.email_setting == 0) (stray_email path)
    guard (declared (codes "secret") settings sig.secret_setting) (no_secret path)

  check_signature : Bytes → Option WebhookSignature → Result WebhookError (Unit {0})
  unfolding check_oidc check_shared header_name
  check_signature path none = err (no_signature path)
  check_signature path (some sig) = do
    guard (any (equal sig.scheme) schemes) (bad_scheme path)
    guard (header_name sig.header) (bad_header path)
    guard (leb (length sig.prefix) 32) (long_prefix path)
    if equal sig.scheme scheme_google_oidc then check_oidc path sig else check_shared path sig

  -- The body of the loop for declaration `i`, with the paths before it.
  check_webhook : ℕ → List Bytes → WebhookDecl → Result WebhookError (Unit {0})
  unfolding webhook_path body_in_range check_signature
  check_webhook i paths d = do
    guard (webhook_path d.path) (bad_path i)
    guard (not (any (equal d.path) paths)) (twice d.path)
    guard (not (length d.operation == 0)) (no_operation d.path)
    check_signature d.path d.signature
    guard (body_in_range d.max_body_bytes) (bad_body d.path)

  webhook_loop : ℕ → List Bytes → List WebhookDecl → Result WebhookError (Unit {0})
  unfolding check_webhook
  webhook_loop i paths [] = ok tt
  webhook_loop i paths (d ∷ decls) = do
    check_webhook i paths d
    webhook_loop (i + 1) (d.path ∷ paths) decls

-- `ValidateWebhooks`.
unfoldable pub validate_webhooks :
    List WebhookDecl → List SettingDecl → Result WebhookError (Unit {0})
unfolding webhook_loop
validate_webhooks decls settings = do
  guard (leb (length decls) max_webhooks) too_many
  webhook_loop settings 0 [] decls

-- `CheckWebhookOperations`.
unfoldable pub check_webhook_operations : List WebhookDecl → List Bytes → Option WebhookDecl
unfolding check_operations
check_webhook_operations decls operations =
    check_operations (λ (d : WebhookDecl). d.operation) operations decls
