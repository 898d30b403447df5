-- ===== src/Pkg/Declarations/Subscriptions.antt =====
-- pkg/aiiospkg/subscriptions.go: `ValidateSubscriptions` and `CheckSubscriptionOperations`. A
-- filter is its entries in the order that the map is walked; which entry an error names is left
-- out, so the order does not matter.
pub mod Valid
use aii_plugin_sdk.Prelude.{
  Bool, List, Option, Result, [], all, any, err, false, if◌then◌else◌, leb, length, not, ok, true,
  ℕ, ◌&&◌, ◌+◌, ◌==◌, ◌||◌, ◌∷◌, ◌≡◌, ◌≢◌, ◌≤◌, ◌⊎◌,
}
use aii_plugin_sdk.Prelude.Bytes.{Bytes, codes, equal}
use aii_plugin_sdk.Prelude.Results.{guard, ◌>>=◌, ◌>>◌}
use aii_plugin_sdk.Pkg.Declarations.Operations.{check_operations}

abbrev pub max_subscriptions : ℕ
max_subscriptions = 16

abbrev pub topic_tool_called : Bytes
topic_tool_called = codes "tool.called"

abbrev pub topics : List Bytes
topics =
    topic_tool_called
    ∷ codes "turn.started"
    ∷ codes "turn.ended"
    ∷ codes "ledger.appended"
    ∷ codes "alarm.fired"
    ∷ codes "work.started"
    ∷ codes "work.delivered"
    ∷ codes "work.harvested"
    ∷ codes "subagent.spawned"
    ∷ []

pub record SubscriptionDecl : Type 0 where
  pub topic : Bytes
  pub delivery : Bytes
  pub operation : Bytes
  pub filter : List (Bytes × Bytes)

pub data SubscriptionError : Type 0 where
  too_many shared_target : SubscriptionError
  bad_calibration bad_topic no_operation many_fields bad_field : ℕ → SubscriptionError

abbrev is_lower : ℕ → Bool
is_lower c = leb b'a' c && leb c b'z'

abbrev is_key_byte : ℕ → Bool
is_key_byte c = is_lower c || (leb b'0' c && leb c b'9') || c == b'_'

-- `reSettingKey` of settings.go, `^[a-z][a-z0-9_]{0,31}$`.
pub setting_key : Bytes → Bool
setting_key [] = false
setting_key (c ∷ k) = is_lower c && all is_key_byte k && leb (length k) 31

abbrev good_field : Bytes × Bytes → Bool
good_field (k, v) = setting_key k && leb (length v) 256

-- The calibration target behind declaration `i`; the empty text is none.
calibrate : ℕ → Bytes → SubscriptionDecl → Result SubscriptionError Bytes
calibrate i cal_target d =
    if length d.delivery == 0
    then ok cal_target
    else if not (equal d.delivery (codes "calibration_v1"))
        || not (equal d.topic topic_tool_called)
        || not (length d.filter == 0)
        || not (length cal_target == 0)
    then err (bad_calibration i)
    else ok d.operation

check_decl : ℕ → SubscriptionDecl → Result SubscriptionError (Unit {0})
unfolding setting_key
check_decl i d = do
  guard (any (equal d.topic) topics) (bad_topic i)
  guard (not (length d.operation == 0)) (no_operation i)
  guard (leb (length d.filter) 8) (many_fields i)
  guard (all good_field d.filter) (bad_field i)

-- The first loop, from declaration `i` on.
subscription_loop : ℕ → Bytes → List SubscriptionDecl → Result SubscriptionError Bytes
unfolding calibrate check_decl
subscription_loop i cal_target [] = ok cal_target
subscription_loop i cal_target (d ∷ decls) = do
  cal_target' ← calibrate i cal_target d
  check_decl i d
  subscription_loop (i + 1) cal_target' decls

-- The second loop: the declarations whose operation is the target.
pub naming : Bytes → List SubscriptionDecl → ℕ
naming target [] = 0
naming target (d ∷ decls) = (if equal d.operation target then 1 else 0) + naming target decls

unshared : List SubscriptionDecl → Bytes → Result SubscriptionError (Unit {0})
unfolding naming
unshared decls cal_target =
    if length cal_target == 0
    then ok tt
    else if naming cal_target decls == 1
    then ok tt
    else err shared_target

-- `ValidateSubscriptions`.
unfoldable pub validate_subscriptions : List SubscriptionDecl → Result SubscriptionError (Unit {0})
unfolding subscription_loop unshared
validate_subscriptions decls = do
  guard (leb (length decls) max_subscriptions) too_many
  cal_target ← subscription_loop 0 [] decls
  unshared decls cal_target

-- `CheckSubscriptionOperations`.
unfoldable pub check_subscription_operations :
    List SubscriptionDecl → List Bytes → Option SubscriptionDecl
unfolding check_operations
check_subscription_operations decls operations =
    check_operations (λ (d : SubscriptionDecl). d.operation) operations decls

-- A declaration that stands for itself.
pub record IsPlain (d : SubscriptionDecl) : Type 0 where
  pub topic_known : any (equal d.topic) topics ≡ true
  pub operation_named : d.operation ≢ []
  pub few_fields : length d.filter ≤ 8
  pub short_fields : all good_field d.filter ≡ true

-- Every declaration is plain, and a declared delivery is the calibration profile on tool calls
-- with no filter.
abbrev pub AllValid : List SubscriptionDecl → Type 0
AllValid [] = Unit
AllValid (d ∷ decls) =
    IsPlain d
    × ((d.delivery ≡ [])
        ⊎ ((d.delivery ≡ codes "calibration_v1") × (d.topic ≡ topic_tool_called) × (d.filter ≡ [])))
    × AllValid decls

-- Whether a delivery is declared.
abbrev pub calibrates : SubscriptionDecl → Bool
calibrates d = not (length d.delivery == 0)

abbrev pub calibrations : List SubscriptionDecl → ℕ
calibrations [] = 0
calibrations (d ∷ decls) = (if calibrates d then 1 else 0) + calibrations decls
