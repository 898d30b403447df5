-- ===== src/Pkg/Tests.antt =====
-- The theorems on packages at concrete declarations.
use mathlib.Core.Path.{refl}
use aii_plugin_sdk.Prelude.{
  List, [], any, false, length, none, ok, replicate, some, true, ◌++◌, ◌==◌, ◌↔◌, ◌∷◌, ◌≡◌, ◌≤◌,
  ◌⊎◌,
}
use aii_plugin_sdk.Prelude.Bytes.{Bytes, codes, equal}
use aii_plugin_sdk.Prelude.Int.{pos, ℤ}
use aii_plugin_sdk.Pkg.Runtimes.{
  Ceiling, RuntimeDecl, TreeLimits, exceeded_ceilings, files_ceiling, max_runtimes, runtime_limits,
  validate_runtimes,
}
use aii_plugin_sdk.Pkg.Runtimes.Exceeds.{Exceeds, Named}
use aii_plugin_sdk.Pkg.Runtimes.Ceilings.{exceeded_ceilings-raised, raised}
use aii_plugin_sdk.Pkg.Runtimes.Valid.{AreRuntimes, IsRuntime, validate_runtimes-ok}
use aii_plugin_sdk.Pkg.Versions.{
  compare_host_version, split, valid_host_version, validate_variant_preference,
}
use aii_plugin_sdk.Pkg.Versions.Order.{
  compare_host_version-numbers, compare_values, version_numbers,
}
use aii_plugin_sdk.Pkg.Versions.Preference.{IsPreference, validate_variant_preference_iff}
use aii_plugin_sdk.Pkg.Declarations.Schedule.{
  ScheduleDecl, Scheduled, max_scheduled, validate_schedule, validate_schedule_iff,
}
use aii_plugin_sdk.Pkg.Declarations.Subscriptions.{
  AllValid, SubscriptionDecl, calibrations, max_subscriptions, naming, validate_subscriptions,
}
use aii_plugin_sdk.Pkg.Declarations.Subscriptions.Valid.{target, validate_subscriptions-ok}
use aii_plugin_sdk.Pkg.Declarations.Webhooks.{SettingDecl, WebhookDecl, validate_webhooks}
use aii_plugin_sdk.Pkg.Tree.{
  TreeMember, casefold_sibling_collision, max_regular_payload_bytes, max_semantic_members,
  validate_members,
}
use aii_plugin_sdk.Pkg.Tree.Collision.{Merges, casefold_sibling_collision_iff}
use aii_plugin_sdk.Pkg.Tree.Valid.{AllMembers, IsPath, regular_bytes, validate_members-ok}
use aii_plugin_sdk.Pkg.Archive.{tar_split_path}
use aii_plugin_sdk.Pkg.Archive.Fits.{IsCut, tar_split_path-IsCut}
use aii_plugin_sdk.Pkg.Declarations.Revocation.{
  IsDigest, RevocationEntry, certifier_revocable_kinds, validate_revocation_entry,
  validate_revocation_entry_iff,
}
use aii_plugin_sdk.Pkg.Declarations.Webhooks.Valid.{AllWebhooks, validate_webhooks_iff}

compare_host_version-numbers_example :
    compare_host_version (codes "0.1.9") (codes "0.01.12")
    ≡ compare_values (version_numbers (codes "0.1.9")) (version_numbers (codes "0.01.12"))
compare_host_version-numbers_example =
    compare_host_version-numbers (codes "0.1.9") (codes "0.01.12")
      (unfold valid_host_version in refl) (unfold valid_host_version in refl)

abbrev variants : List Bytes
variants = codes "x64" ∷ codes "arm" ∷ []

validate_variant_preference_iff_example :
    (validate_variant_preference variants (codes "0.1.12") variants ≡ none)
    ↔ IsPreference variants (codes "0.1.12") variants
validate_variant_preference_iff_example =
    validate_variant_preference_iff variants (codes "0.1.12") variants

abbrev hourly : List ScheduleDecl
hourly = record { operation = codes "tick"; every_seconds = 3600 } ∷ []

validate_schedule_iff_example :
    (validate_schedule hourly ≡ none) ↔ ((length hourly ≤ max_scheduled) × Scheduled [] hourly)
validate_schedule_iff_example = validate_schedule_iff hourly

abbrev calibrating : List SubscriptionDecl
calibrating =
    record {
      topic = codes "tool.called";
      delivery = codes "calibration_v1";
      operation = codes "tune";
      filter = [];
    }
    ∷ []

validate_subscriptions-ok_example :
    (length calibrating ≤ max_subscriptions)
    × AllValid calibrating
    × (calibrations calibrating ≤ 1)
    × ((target calibrating ≡ []) ⊎ (naming (target calibrating) calibrating ≡ 1))
validate_subscriptions-ok_example =
    validate_subscriptions-ok calibrating (unfold validate_subscriptions in refl)

abbrev hooks : List WebhookDecl
hooks =
    record {
      path = codes "in/github";
      operation = codes "receive";
      signature = some (record {
        scheme = codes "hmac-sha256-hex";
        header = codes "X-Signature";
        prefix = [];
        secret_setting = codes "key";
        email_setting = [];
      });
      max_body_bytes = pos 1024;
    }
    ∷ []

abbrev settings : List SettingDecl
settings = record { key = codes "key"; type = codes "secret" } ∷ []

validate_webhooks_iff_example :
    (validate_webhooks hooks settings ≡ ok tt)
    ↔ ((length hooks ≤ 16) × AllWebhooks settings [] hooks)
validate_webhooks_iff_example = validate_webhooks_iff hooks settings

hooks_valid : validate_webhooks hooks settings ≡ ok tt
unfolding validate_webhooks split
hooks_valid = refl

abbrev tree : List TreeMember
tree =
    record { path = codes "demo"; is_dir = true; mode = 493; content = [] }
    ∷ record { path = codes "demo/plugin.json"; is_dir = false; mode = 420; content = codes "{}" }
    ∷ []

validate_members-ok_example :
    IsPath (codes "demo")
    × (any (λ c. c == b'/') (codes "demo") ≡ false)
    × (length tree ≤ max_semantic_members)
    × (regular_bytes tree ≤ max_regular_payload_bytes)
    × AllMembers (codes "demo") [] tree
unfolding split
validate_members-ok_example =
    validate_members-ok (codes "demo") tree (unfold validate_members in refl)

casefold_sibling_collision_iff_example :
    (casefold_sibling_collision (codes "a/Bin/x") (codes "a/bin") ≡ true)
    ↔ Merges (split b'/' (codes "a/Bin/x")) (split b'/' (codes "a/bin"))
casefold_sibling_collision_iff_example =
    casefold_sibling_collision_iff (codes "a/Bin/x") (codes "a/bin")

abbrev deep_directory : Bytes
deep_directory = replicate 80 b'd'

abbrev deep_name : Bytes
deep_name = replicate 40 b'f'

cut_deep : tar_split_path (deep_directory ++ (b'/' ∷ deep_name)) ≡ some (deep_name, deep_directory)
unfolding tar_split_path
cut_deep = refl

tar_split_path-IsCut_example : IsCut (deep_directory ++ (b'/' ∷ deep_name)) deep_name deep_directory
tar_split_path-IsCut_example = tar_split_path-IsCut (deep_directory ++ (b'/' ∷ deep_name)) cut_deep

abbrev revoked : RevocationEntry
revoked = record {
  artifact_kind = codes "plugin.manifest";
  payload_sha256 = codes "sha256:" ++ replicate 64 b'a';
}

validate_revocation_entry_iff_example : (validate_revocation_entry revoked ≡ none) ↔ (
    (any (equal revoked.artifact_kind) certifier_revocable_kinds ≡ true)
    × IsDigest revoked.payload_sha256)
validate_revocation_entry_iff_example = validate_revocation_entry_iff revoked

abbrev digest : Bytes
digest = replicate 64 b'a'

abbrev engine : RuntimeDecl
engine = record {
  variant_id = codes "cpu";
  url = codes "https://example.org/engine.tgz";
  sha256 = digest;
  size = pos 10;
  installed_bytes = pos 100;
  files = pos 3;
  inventory_sha256 = digest;
  largest_file_bytes = some (pos 40);
  depth = some (pos 2);
}

engine_valid : validate_runtimes (engine ∷ []) (codes "gpu" ∷ codes "cpu" ∷ []) ≡ ok tt
unfolding validate_runtimes
engine_valid = refl

validate_runtimes-ok_example :
    (length (engine ∷ []) ≤ max_runtimes)
    × AreRuntimes (codes "gpu" ∷ codes "cpu" ∷ []) [] (engine ∷ [])
validate_runtimes-ok_example =
    validate_runtimes-ok (engine ∷ []) (codes "gpu" ∷ codes "cpu" ∷ []) engine_valid

engine-IsRuntime : IsRuntime engine
engine-IsRuntime =
    let (_, (_, _, r, _)) =
      validate_runtimes-ok (engine ∷ []) (codes "gpu" ∷ codes "cpu" ∷ []) engine_valid in
    r

abbrev two_files : TreeLimits
two_files = record runtime_limits { max_files = pos 2 }

demands_files : exceeded_ceilings engine two_files ≡ (files_ceiling, pos 3) ∷ []
unfolding exceeded_ceilings
demands_files = refl

exceeded_ceilings-raised_example :
    ((c : Ceiling) (v : ℤ)
      → Named c v (exceeded_ceilings engine two_files) ↔ Exceeds engine two_files c v)
    × ((c : Ceiling) (v : ℤ)
        → Exceeds engine (raised two_files (exceeded_ceilings engine two_files)) c v
        → ⊥)
exceeded_ceilings-raised_example = exceeded_ceilings-raised engine two_files engine-IsRuntime
