-- ===== src/Pkg/Declarations/Operations.antt =====
-- The check that CheckScheduleOperations (schedule.go), CheckSubscriptionOperations
-- (subscriptions.go) and CheckWebhookOperations (webhooks.go) each make: every operation that is
-- declared is one that the plugin describes. The error is the first that is not.
use aii_plugin_sdk.Prelude.{
  Bool-cases, List, Option, [], any, ap, false, if◌then◌else◌, inl, inr, none, not, refl, some,
  true, ◌++◌, ◌∷◌, ◌≡◌, ◌⊎◌,
}
use aii_plugin_sdk.Prelude.Bytes.{Bytes, equal}

module _ {D : Type 0} (operation : D → Bytes) (operations : List Bytes) where
  unfoldable pub check_operations : List D → Option D
  check_operations [] = none
  check_operations (d ∷ decls) =
      let rest = check_operations decls in
      if not (any (equal (operation d)) operations) then some d else rest

  abbrev pub AllKnown : List D → Type 0
  AllKnown [] = Unit
  AllKnown (d ∷ decls) = (any (equal (operation d)) operations ≡ true) × AllKnown decls

  -- The check passes exactly if every declared operation is described, and the declaration that
  -- it reports otherwise is the first whose operation is not.
  pub check_operations_lem :
      (decls : List D)
      → ((check_operations decls ≡ none) × AllKnown decls)
        ⊎ ((before : List D) × (d : D) × (after : List D) × (decls ≡ before ++ (d ∷ after))
            × (check_operations decls ≡ some d)
            × AllKnown before
            × (any (equal (operation d)) operations ≡ false))
  unfolding check_operations
  check_operations_lem [] = inl (refl, tt)
  check_operations_lem (d ∷ decls) = elim (Bool-cases (any (equal (operation d)) operations)) [
    | inr e ↦ inr ([], d, decls, refl, rw e, tt, e)
    | inl e ↦ elim (check_operations_lem decls) [
      | inl (p, q) ↦ inl (rw e p, (e, q))
      | inr (before, x, after, s, p, q, r) ↦
          inr (d ∷ before, x, after, ap (◌∷◌ d) s, rw e p, (e, q), r)
    ]
  ]
