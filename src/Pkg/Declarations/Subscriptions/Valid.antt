-- ===== src/Pkg/Declarations/Subscriptions/Valid.antt =====
-- What accepted subscriptions are.
use aii_plugin_sdk.Prelude.{
  Bool-cases, List, [], arith, false, if◌then◌else◌, inl, inr, leb, length, ok, refl, true, ℕ, ◌+◌,
  ◌==◌, ◌∷◌, ◌≡◌, ◌≢◌, ◌≤◌, ◌⊎◌,
}
use aii_plugin_sdk.Prelude.Bytes.{Bytes, codes, equal_iff}
use aii_plugin_sdk.Prelude.Results.{>>=-eq-ok, guard}
use aii_plugin_sdk.Pkg.Declarations.Subscriptions.{
  AllValid, IsPlain, SubscriptionDecl, calibrate, calibrates, calibrations, check_decl,
  max_subscriptions, naming, subscription_loop, too_many, topic_tool_called, unshared,
  validate_subscriptions,
}

-- The operation of the first declaration with a delivery; the empty text if there is none.
abbrev pub target : List SubscriptionDecl → Bytes
target [] = []
target (d ∷ decls) = if calibrates d then d.operation else target decls

no_bytes : (b : Bytes) → (length b == 0) ≡ true → b ≡ []
no_bytes [] h = refl
no_bytes (x ∷ b) h = absurd (ground arith)

no_fields : (f : List (Bytes × Bytes)) → (length f == 0) ≡ true → f ≡ []
no_fields [] h = refl
no_fields (x ∷ f) h = absurd (ground arith)

some_bytes : (b : Bytes) → (length b == 0) ≡ false → b ≢ []
some_bytes [] h e = absurd (cc)
some_bytes (x ∷ b) h e = absurd (cc)

some_length : (b : Bytes) → b ≢ [] → (length b == 0) ≡ false
some_length [] h = absurd (h refl)
some_length (x ∷ b) h = ground arith

check_decl-ok : (i : ℕ) (d : SubscriptionDecl) → check_decl i d ≡ ok tt → IsPlain d
unfolding check_decl
check_decl-ok i d h = record {
  topic_known = ground arith;
  operation_named = some_bytes d.operation (ground arith);
  few_fields = ground arith;
  short_fields = ground arith;
}

abbrev Profile : SubscriptionDecl → Type 0
Profile d =
    (d.delivery ≡ [])
    ⊎ ((d.delivery ≡ codes "calibration_v1") × (d.topic ≡ topic_tool_called) × (d.filter ≡ []))

-- What one declaration does to the target.
calibrate-ok :
    (i : ℕ) (cal : Bytes) (d : SubscriptionDecl) {cal' : Bytes}
    → calibrate i cal d ≡ ok cal'
    → ((calibrates d ≡ false) × (d.delivery ≡ []) × (cal' ≡ cal))
      ⊎ ((calibrates d ≡ true)
          × (cal ≡ [])
          × (cal' ≡ d.operation)
          × ((d.delivery ≡ codes "calibration_v1")
              × (d.topic ≡ topic_tool_called)
              × (d.filter ≡ [])))
unfolding calibrate
calibrate-ok i cal d h = elim (Bool-cases (length d.delivery == 0)) [
  | inl e ↦ inl (ground arith, no_bytes d.delivery e, ground arith)
  | inr e ↦ inr (
    ground arith,
    no_bytes cal (ground arith),
    ground arith,
    (
      (equal_iff d.delivery (codes "calibration_v1")).0 (ground arith),
      (equal_iff d.topic topic_tool_called).0 (ground arith),
      no_fields d.filter (ground arith),
    ),
  )
]

abbrev taken : Bytes → ℕ
taken cal = if length cal == 0 then 0 else 1

loop-ok :
    (i : ℕ) (cal : Bytes) (decls : List SubscriptionDecl) {t : Bytes}
    → subscription_loop i cal decls ≡ ok t
    → AllValid decls
      × (t ≡ (if length cal == 0 then target decls else cal))
      × (calibrations decls + taken cal ≤ 1)
unfolding subscription_loop
loop-ok i [] [] h = (tt, ground arith, omega arith)
loop-ok i (c ∷ cal) [] h = (tt, ground arith, ground arith)
loop-ok i cal (d ∷ decls) h =
    let (cal', e, h') = >>=-eq-ok (calibrate i cal d) _ h in
    let (u, c, h'') = >>=-eq-ok (check_decl i d) _ h' in
    let plain = check_decl-ok i d c in
    let (p, q, r) = loop-ok (i + 1) cal' decls h'' in
    elim (calibrate-ok i cal d e) [
      | inl (n, dl, same_target) ↦ ((plain, inl dl, p), ground arith, ground arith)
      | inr (y, free, set, profile) ↦
          let named = some_length d.operation plain.operation_named in
          ((plain, inr profile, p), ground arith, ground arith)
    ]

unshared-ok :
    (decls : List SubscriptionDecl) (t : Bytes)
    → unshared decls t ≡ ok tt
    → (t ≡ []) ⊎ (naming t decls ≡ 1)
unfolding unshared
unshared-ok decls [] h = inl refl
unshared-ok decls (c ∷ t) h = inr (ground arith)

-- What `ValidateSubscriptions` accepts: at most sixteen declarations, each with a known topic, a
-- named operation, at most eight short filter fields, and no delivery but the calibration profile
-- on tool calls with no filter; at most one has that delivery, and then it is the only one that
-- names its operation.
pub validate_subscriptions-ok :
    (decls : List SubscriptionDecl)
    → validate_subscriptions decls ≡ ok tt
    → (length decls ≤ max_subscriptions)
      × AllValid decls
      × (calibrations decls ≤ 1)
      × ((target decls ≡ []) ⊎ (naming (target decls) decls ≡ 1))
unfolding validate_subscriptions
validate_subscriptions-ok decls h =
    let (u, g, h') = >>=-eq-ok (guard (leb (length decls) max_subscriptions) too_many) _ h in
    let (t, l, h'') = >>=-eq-ok (subscription_loop 0 [] decls) _ h' in
    let (p, q, r) = loop-ok 0 [] decls l in
    (guard_le decls g, p, omega (arith, r), rw q at (unshared-ok decls t h''))
  where
    guard_le :
        (decls : List SubscriptionDecl)
        → guard (leb (length decls) max_subscriptions) too_many ≡ ok tt
        → length decls ≤ max_subscriptions
    guard_le decls g = ground arith
