-- ===== src/Pkg/Checks/Package/Runnable.antt =====
-- Which checks `ValidatePackageChecks` lets through.
use mathlib.Core.Path.{refl}
use aii_plugin_sdk.Prelude.{
  ==_iff, Bool, List, Option, [], all, any, ap, arith, false, inl, inr, length, none, ok, some,
  subst, sym, true, ℕ, ◌==◌, ◌||◌, ◌↔◌, ◌∙◌, ◌∷◌, ◌≡◌, ◌≤◌, ◌⊎◌,
}
use aii_plugin_sdk.Prelude.Bytes.{Bytes, codes, equal, equal_iff}
use aii_plugin_sdk.Prelude.Results.{>>-ok, guard, last_guard-ok}
use aii_plugin_sdk.Pkg.Checks.Texts.{blank, rune_count}
use aii_plugin_sdk.Pkg.Checks.Package.Guards.{
  cases_iff, either_iff, guard_all_iff, guard_iff, last_iff, leb_and_iff, not_iff, same_iff,
}
use aii_plugin_sdk.Pkg.Checks.Package.{
  Check, OperationContract, PackageChecks, check_contract, check_lane, check_native, check_package,
  check_sets, check_source, contract_of, embed_kind_cue, embed_kind_memory, known_lane,
  lane_embeddings, lane_operation, lane_session, max_embed_chars, never_passes, no_such_lane,
  sets_meant, validate_package_checks,
}

module _ {F : Type 0} where
  -- A check that the package can run: its sets are the package's, nothing of it is open, and its
  -- lane has what it asks for.
  abbrev pub OnEmbeddings : PackageChecks → Check F → Type 0
  OnEmbeddings p c =
      (p.source ≡ some (length c.reference))
      × ((c.kind ≡ embed_kind_memory) ⊎ (c.kind ≡ embed_kind_cue))
      × (rune_count c.words ≤ max_embed_chars)
      × (blank c.words ≡ false)

  abbrev pub OnSession : PackageChecks → Check F → Type 0
  OnSession p c = (p.speech_engine ≡ true) × (all p.native (sets_meant p.variants c.sets) ≡ true)

  abbrev pub OnOperation : PackageChecks → Check F → Type 0
  OnOperation p c =
      (op : OperationContract) × (contract_of c.operation p.operations ≡ some op)
      × ((op.effects ≡ codes "read.internal") ⊎ (op.effects ≡ codes "read.external"))
      × (op.operator_confirms ≡ false)

  pub record IsRunnable (p : PackageChecks) (c : Check F) : Type 0 where
    pub settled : c.unresolved ≡ []
    pub declared : all (λ s. equal s (codes "*") || any (equal s) p.variants) c.sets ≡ true
    pub on_lane :
        ((c.lane ≡ lane_embeddings) × OnEmbeddings p c)
        ⊎ ((c.lane ≡ lane_session) × OnSession p c)
        ⊎ ((c.lane ≡ lane_operation) × OnOperation p c)

  abbrev pub AllRunnable : PackageChecks → List (Check F) → Type 0
  AllRunnable p [] = Unit
  AllRunnable p (c ∷ cs) = IsRunnable p c × AllRunnable p cs

check_sets_iff :
    (declared sets : List Bytes)
    → (check_sets declared sets ≡ ok tt)
      ↔ (all (λ s. equal s (codes "*") || any (equal s) declared) sets ≡ true)
unfolding check_sets
check_sets_iff declared [] = ((λ _. refl), (λ _. refl))
check_sets_iff declared (s ∷ sets) = guard_all_iff _ _ _ _ (check_sets_iff declared sets)

check_native_iff :
    (native : Bytes → Bool) (sets : List Bytes)
    → (check_native native sets ≡ ok tt) ↔ (all native sets ≡ true)
unfolding check_native
check_native_iff native [] = ((λ _. refl), (λ _. refl))
check_native_iff native (s ∷ sets) = guard_all_iff _ _ _ _ (check_native_iff native sets)

two_lanes : (lane a b : Bytes) → equal a b ≡ false → lane ≡ a → lane ≡ b → ⊥
two_lanes lane a b n e f = let h = (equal_iff a b).1 (sym e ∙ f) in cc

module _ {F : Type 0} where
  check_source_iff :
      (p : PackageChecks) (c : Check F) → (check_source c p.source ≡ ok tt) ↔ OnEmbeddings p c
  unfolding check_source
  check_source_iff p c = of_source p.source
    where
      of_source :
          (o : Option ℕ)
          → (check_source c o ≡ ok tt) ↔ (
              (o ≡ some (length c.reference))
              × ((c.kind ≡ embed_kind_memory) ⊎ (c.kind ≡ embed_kind_cue))
              × (rune_count c.words ≤ max_embed_chars)
              × (blank c.words ≡ false))
      of_source none = ((λ e. absurd (cc)), (λ x. absurd (let y = x.0 in cc)))
      of_source (some n) =
          let (f, g) = guard_iff _ _ _ (either_iff c.kind embed_kind_memory embed_kind_cue) (
            guard_iff _ _ _ (leb_and_iff (rune_count c.words) max_embed_chars (blank c.words))
              (last_iff _ _ (==_iff (length c.reference) n))) in
          (
            (λ e. let (x, r) = f e in (ap some (sym r.1), x, r.0.0, r.0.1)),
            (λ q. let (e, x, y, z) = q in g (x, ((y, z), cc))),
          )

  check_contract_iff :
      (p : PackageChecks) (c : Check F)
      → (check_contract c.operation (contract_of c.operation p.operations) ≡ ok tt)
        ↔ OnOperation p c
  unfolding check_contract
  check_contract_iff p c = of_contract (contract_of c.operation p.operations)
    where
      of_contract :
          (o : Option OperationContract)
          → (check_contract c.operation o ≡ ok tt) ↔ (
              (op : OperationContract) × (o ≡ some op)
              × ((op.effects ≡ codes "read.internal") ⊎ (op.effects ≡ codes "read.external"))
              × (op.operator_confirms ≡ false))
      of_contract none = ((λ e. absurd (cc)), (λ x. absurd (let (op, e, r, s) = x in cc)))
      of_contract (some op) =
          let (f, g) =
            guard_iff _ _ _ (either_iff op.effects (codes "read.internal") (codes "read.external"))
              (last_iff _ _ (not_iff op.operator_confirms)) in
          (
            (λ e. let (x, y) = f e in (op, refl, x, y)),
            (λ q.
                let (op', e, x, y) = q in
                let i : op' ≡ op = cc in
                g (
                  subst
                    (λ o.
                      ((o.effects ≡ codes "read.internal") ⊎ (o.effects ≡ codes "read.external"))
                      × (o.operator_confirms ≡ false))
                    i (x, y))),
          )

  check_lane_iff :
      (p : PackageChecks) (c : Check F)
      → known_lane c.lane ≡ true
      → (check_lane p c ≡ ok tt) ↔ (
          ((c.lane ≡ lane_embeddings) × OnEmbeddings p c)
          ⊎ ((c.lane ≡ lane_session) × OnSession p c)
          ⊎ ((c.lane ≡ lane_operation) × OnOperation p c))
  unfolding check_lane known_lane
  check_lane_iff p c k =
      cases_iff (equal c.lane lane_embeddings) (equal c.lane lane_session)
        (equal c.lane lane_operation) _ _ _ (equal_iff c.lane lane_embeddings)
        (equal_iff c.lane lane_session) (equal_iff c.lane lane_operation) (check_source_iff p c)
        (guard_iff _ _ _ same_iff (check_native_iff p.native (sets_meant p.variants c.sets)))
        (check_contract_iff p c) (two_lanes c.lane lane_embeddings lane_session refl)
        (two_lanes c.lane lane_embeddings lane_operation refl)
        (two_lanes c.lane lane_session lane_operation refl) k

  lane_known : (p : PackageChecks) (c : Check F) → IsRunnable p c → known_lane c.lane ≡ true
  unfolding known_lane
  lane_known p c r = elim r.on_lane [
    | inl x ↦ rw (x.0) refl
    | inr y ↦ elim y [ inl x ↦ rw (x.0) refl | inr x ↦ rw (x.0) refl ]
  ]

  check_package_iff :
      (p : PackageChecks) (c : Check F) → (check_package p c ≡ ok tt) ↔ IsRunnable p c
  unfolding check_package
  check_package_iff p c = (
    (λ e.
        let (k, e1) = >>-ok (guard (known_lane c.lane) no_such_lane) _ e in
        let (u, e2) = >>-ok (guard (length c.unresolved == 0) (never_passes c.unresolved)) _ e1 in
        let (s, e3) = >>-ok (check_sets p.variants c.sets) _ e2 in
        record {
          settled = empty_text c.unresolved (last_guard-ok _ _ u);
          declared = (check_sets_iff p.variants c.sets).0 s;
          on_lane = (check_lane_iff p c (last_guard-ok _ _ k)).0 e3;
        }),
    (λ r.
        let k = lane_known p c r in
        rw (k, r.settled, (check_sets_iff p.variants c.sets).1 r.declared)
          ((check_lane_iff p c k).1 r.on_lane)),
  )
    where
      empty_text : (b : Bytes) → (length b == 0) ≡ true → b ≡ []
      empty_text [] h = refl
      empty_text (x ∷ b) h = absurd (ground arith)

  -- `ValidatePackageChecks` accepts the checks of a package exactly where the package can run each:
  -- nothing of the check is open, each set that it names is declared, and it is sent on the
  -- embeddings lane of a source of vectors, with a kind that there is, a text of 1 to
  -- `MaxEmbedChars` characters that is not blank and a reference of the declared dimension; or on
  -- the session lane of a speech engine whose sets meant are native; or on the operation lane, with
  -- an operation that is declared, only reads and waits for no confirmation.
  pub validate_package_checks_iff :
      (p : PackageChecks) (cs : List (Check F))
      → (validate_package_checks p cs ≡ ok tt) ↔ AllRunnable p cs
  unfolding validate_package_checks
  validate_package_checks_iff p [] = ((λ _. tt), (λ _. refl))
  validate_package_checks_iff p (c ∷ cs) =
      let (f, g) = check_package_iff p c in
      let (h, i) = validate_package_checks_iff p cs in
      ((λ e. let (x, y) = >>-ok (check_package p c) _ e in (f x, h y)), (λ r. rw (g r.0) (i r.1)))
