-- ===== src/Pkg/Declarations/Webhooks/Valid.antt =====
-- Exactly which webhooks are accepted.
use aii_plugin_sdk.Prelude.Results.{>>-ok, Result, guard-not-ok, guard-ok, last_guard-ok, ok}
use aii_plugin_sdk.Prelude.{
  &&-left, &&-right, Bool-cases, List, Option, [], any, ap, arith, false, if_cases, if◌then◌else◌,
  inl, inr, leb, length, none, refl, some, subst, sym, true, ℕ, ◌&&◌, ◌*◌, ◌+◌, ◌==◌, ◌↔◌, ◌∙◌, ◌∷◌,
  ◌≡◌, ◌≢◌, ◌≤◌, ◌⊎◌,
}
use aii_plugin_sdk.Prelude.Each.{Each, none-Each_iff}
use aii_plugin_sdk.Prelude.Fold.{SameFold}
use aii_plugin_sdk.Pkg.Declarations.Webhooks.Forms.{
  IsDeclared, IsHeaderName, IsScheme, IsWebhookPath, declared_iff, equal_fold_iff, header_name_iff,
  schemes_iff, webhook_path_iff,
}
use aii_plugin_sdk.Prelude.Bytes.{Bytes, codes, equal, equal_iff}
use aii_plugin_sdk.Prelude.Int.{negsuc, pos, ℤ}
use aii_plugin_sdk.Pkg.Declarations.Webhooks.{
  SettingDecl, WebhookDecl, WebhookError, WebhookSignature, bad_header, bad_path, bad_scheme,
  body_in_range, check_oidc, check_shared, check_signature, check_webhook, equal_fold, header_name,
  long_prefix, max_webhooks, no_operation, not_bearer, scheme_google_oidc, schemes, shared_secret,
  stray_email, too_many, twice, validate_webhooks, webhook_loop, webhook_path,
}

-- What a signature holds beside its form: that of the google-oidc scheme the header and prefix of an
-- identity token, a sender that is declared as text and no secret, and that of any other a secret
-- that is declared as one and no sender.
abbrev pub FitsScheme : List SettingDecl → WebhookSignature → Type 0
FitsScheme settings sig =
    ((sig.scheme ≡ codes "google-oidc")
      × SameFold sig.header (codes "Authorization")
      × (sig.prefix ≡ codes "Bearer ")
      × (sig.secret_setting ≡ [])
      × IsDeclared (codes "string") settings sig.email_setting)
    ⊎ ((sig.scheme ≢ codes "google-oidc")
        × (sig.email_setting ≡ [])
        × IsDeclared (codes "secret") settings sig.secret_setting)

abbrev pub IsSignature : List SettingDecl → WebhookSignature → Type 0
IsSignature settings sig =
    IsScheme sig.scheme
    × IsHeaderName sig.header
    × (length sig.prefix ≤ 32)
    × FitsScheme settings sig

-- A webhook that is accepted behind the paths given.
pub record IsWebhook (settings : List SettingDecl) (paths : List Bytes) (d : WebhookDecl)
    : Type 0 where
  pub path_form : IsWebhookPath d.path
  pub new_path : Each (λ p. d.path ≢ p) paths
  pub operation_named : d.operation ≢ []
  pub signature : (sig : WebhookSignature) × (d.signature ≡ some sig) × IsSignature settings sig
  pub bounded : (n : ℕ) × (d.max_body_bytes ≡ pos n) × (n ≤ 256 * 1024)

abbrev pub AllWebhooks : List SettingDecl → List Bytes → List WebhookDecl → Type 0
AllWebhooks settings paths [] = Unit
AllWebhooks settings paths (d ∷ decls) =
    IsWebhook settings paths d × AllWebhooks settings (d.path ∷ paths) decls

no_bytes : (b : Bytes) → (length b == 0) ≡ true → b ≡ []
no_bytes [] h = refl
no_bytes (x ∷ b) h = absurd (ground arith)

some_bytes_iff : (b : Bytes) → ((length b == 0) ≡ false) ↔ (b ≢ [])
some_bytes_iff [] = (λ h. absurd (cc), λ n. absurd (n refl))
some_bytes_iff (x ∷ b) = (λ h e. absurd (cc), λ n. ground arith)

other_bytes_iff : (a b : Bytes) → (equal a b ≡ false) ↔ (a ≢ b)
other_bytes_iff a b =
    let (e, f) = equal_iff a b in
    (
      λ h x. cc (sym h ∙ f x),
      λ n. elim (Bool-cases (equal a b)) [ inl x ↦ absurd (n (e x)) | inr x ↦ x ],
    )

module _ (settings : List SettingDecl) where
  check_oidc_iff :
      (path : Bytes) (sig : WebhookSignature)
      → (check_oidc settings path sig ≡ ok tt) ↔ (
          SameFold sig.header (codes "Authorization")
          × (sig.prefix ≡ codes "Bearer ")
          × (sig.secret_setting ≡ [])
          × IsDeclared (codes "string") settings sig.email_setting)
  unfolding check_oidc
  check_oidc_iff path sig =
      let (e, f) = equal_fold_iff sig.header (codes "Authorization") in
      let (g, h) = equal_iff sig.prefix (codes "Bearer ") in
      let (i, j) = declared_iff (codes "string") settings sig.email_setting in
      (
        λ x.
            let (bearer, x') =
              guard-ok
                (equal_fold sig.header (codes "Authorization")
                  && equal sig.prefix (codes "Bearer "))
                (not_bearer path) _ x in
            let (bare, x'') = guard-ok (length sig.secret_setting == 0) (shared_secret path) _ x' in
            (
              e (&&-left _ _ bearer),
              g (&&-right _ _ bearer),
              no_bytes sig.secret_setting bare,
              i (last_guard-ok _ _ x''),
            ),
        λ (fold, p, none_secret, sender).
            let bare : (length sig.secret_setting == 0) ≡ true =
              ap (λ b. length b == 0) none_secret in
            rw (f fold, h p, bare, j sender) refl,
      )

  check_shared_iff :
      (path : Bytes) (sig : WebhookSignature)
      → (check_shared settings path sig ≡ ok tt)
        ↔ ((sig.email_setting ≡ []) × IsDeclared (codes "secret") settings sig.secret_setting)
  unfolding check_shared
  check_shared_iff path sig =
      let (i, j) = declared_iff (codes "secret") settings sig.secret_setting in
      (
        λ x.
            let (bare, x') = guard-ok (length sig.email_setting == 0) (stray_email path) _ x in
            (no_bytes sig.email_setting bare, i (last_guard-ok _ _ x')),
        λ (none_sender, secret).
            let bare : (length sig.email_setting == 0) ≡ true =
              ap (λ b. length b == 0) none_sender in
            rw (bare, j secret) refl,
      )

  by_scheme :
      (path : Bytes) (sig : WebhookSignature)
      → ((if equal sig.scheme scheme_google_oidc
            then check_oidc settings path sig
            else check_shared settings path sig)
          ≡ ok tt)
        ↔ FitsScheme settings sig
  by_scheme path sig =
      let (e, f) = equal_iff sig.scheme (codes "google-oidc") in
      if_cases (λ (r : Result WebhookError (Unit {0})). (r ≡ ok tt) ↔ FitsScheme settings sig)
        (equal sig.scheme (codes "google-oidc"))
        (λ b.
          let (g, h) = check_oidc_iff path sig in
          (
            λ x. let (p, q, r, s) = g x in inl (e b, p, q, r, s),
            λ x. elim x [ inl (_, p, q, r, s) ↦ h (p, q, r, s) | inr (n, _, _) ↦ absurd (n (e b)) ],
          ))
        (λ b.
          let (g, h) = check_shared_iff path sig in
          let n : sig.scheme ≢ codes "google-oidc" = λ x. cc (sym b ∙ f x) in
          (
            λ x. let (p, q) = g x in inr (n, p, q),
            λ x. elim x [ inl (y, _, _, _, _) ↦ absurd (n y) | inr (_, p, q) ↦ h (p, q) ],
          ))

  check_signature_iff :
      (path : Bytes) (o : Option WebhookSignature)
      → (check_signature settings path o ≡ ok tt)
        ↔ ((sig : WebhookSignature) × (o ≡ some sig) × IsSignature settings sig)
  unfolding check_signature
  check_signature_iff path none = (λ h. absurd (cc), λ (sig, e, _). absurd (cc))
  check_signature_iff path (some s) =
      let (e, f) = schemes_iff s.scheme in
      let (g, h) = header_name_iff s.header in
      let (i, j) = by_scheme path s in
      (
        λ x.
            let (a, x1) = guard-ok (any (equal s.scheme) schemes) (bad_scheme path) _ x in
            let (b, x2) = guard-ok (header_name s.header) (bad_header path) _ x1 in
            let (c, x3) = guard-ok (leb (length s.prefix) 32) (long_prefix path) _ x2 in
            (s, refl, (e a, g b, ground arith, i x3)),
        λ (sig, same, form).
            let q : sig ≡ s = cc in
            let (a, b, c, fits) = subst (IsSignature settings) q form in
            let short : leb (length s.prefix) 32 ≡ true = ground arith in
            rw (f a, h b, short) (j fits),
      )

  body_in_range_iff :
      (z : ℤ) → (body_in_range z ≡ true) ↔ ((n : ℕ) × (z ≡ pos n) × (n ≤ 256 * 1024))
  unfolding body_in_range
  body_in_range_iff (pos n) =
      (λ h. (n, refl, ground arith), λ (m, e, h). let q : n ≡ m = cc in ground arith)
  body_in_range_iff (negsuc n) = (λ h. absurd (cc), λ (m, e, h). absurd (cc))

  check_webhook_iff :
      (i : ℕ) (paths : List Bytes) (d : WebhookDecl)
      → (check_webhook settings i paths d ≡ ok tt) ↔ IsWebhook settings paths d
  unfolding check_webhook
  check_webhook_iff i paths d =
      let (e, f) = webhook_path_iff d.path in
      let (g, h) =
        none-Each_iff (equal d.path) (λ p. d.path ≢ p) (λ p. other_bytes_iff d.path p) paths in
      let (o, p) = some_bytes_iff d.operation in
      let (s, t) = check_signature_iff d.path d.signature in
      let (u, v) = body_in_range_iff d.max_body_bytes in
      (
        λ x.
            let (a, x1) = guard-ok (webhook_path d.path) (bad_path i) _ x in
            let (b, x2) = guard-not-ok (any (equal d.path) paths) (twice d.path) _ x1 in
            let (c, x3) = guard-not-ok (length d.operation == 0) (no_operation d.path) _ x2 in
            let (k, x4) = >>-ok (check_signature settings d.path d.signature) _ x3 in
            record {
              path_form = e a;
              new_path = g b;
              operation_named = o c;
              signature = s k;
              bounded = u (last_guard-ok _ _ x4);
            },
        λ w. rw (f w.path_form, h w.new_path, p w.operation_named, t w.signature, v w.bounded) refl,
      )

  webhook_loop_iff :
      (i : ℕ) (paths : List Bytes) (decls : List WebhookDecl)
      → (webhook_loop settings i paths decls ≡ ok tt) ↔ AllWebhooks settings paths decls
  unfolding webhook_loop
  webhook_loop_iff i paths [] = (λ _. tt, λ _. refl)
  webhook_loop_iff i paths (d ∷ decls) =
      let (e, f) = check_webhook_iff i paths d in
      let (g, h) = webhook_loop_iff (i + 1) (d.path ∷ paths) decls in
      (
        λ x. let (a, x') = >>-ok (check_webhook settings i paths d) _ x in (e a, g x'),
        λ (w, ws). rw (f w, h ws) refl,
      )

-- `ValidateWebhooks` accepts exactly: at most sixteen webhooks; the path of each is one to four
-- segments of at most 64 lower-case letters, digits, dashes and underscores, the first of a segment a
-- letter or digit, and no two paths are the same; an operation is named; the body bound is between 0
-- and 256 KiB; and there is a signature of one of the five schemes with a header of 1 to 64 letters,
-- digits and dashes and a prefix of at most 32 bytes. One of the google-oidc scheme has the header
-- Authorization, in any case, the prefix `Bearer `, no secret setting and an email setting that is
-- declared as a string; one of another has no email setting and a secret setting that is declared as
-- a secret.
pub validate_webhooks_iff :
    (decls : List WebhookDecl) (settings : List SettingDecl)
    → (validate_webhooks decls settings ≡ ok tt)
      ↔ ((length decls ≤ 16) × AllWebhooks settings [] decls)
unfolding validate_webhooks
validate_webhooks_iff decls settings =
    let (e, f) = webhook_loop_iff settings 0 [] decls in
    (
      λ x.
          let (few, x') = guard-ok (leb (length decls) max_webhooks) too_many _ x in
          (at_most (length decls) few, e x'),
      λ (few, all_valid). rw (few_test (length decls) few, f all_valid) refl,
    )
  where
    at_most : (n : ℕ) → leb n max_webhooks ≡ true → n ≤ 16
    at_most n h = ground arith

    few_test : (n : ℕ) → n ≤ 16 → leb n max_webhooks ≡ true
    few_test n h = ground arith
