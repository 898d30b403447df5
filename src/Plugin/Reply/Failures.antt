-- ===== src/Plugin/Reply/Failures.antt =====
-- The failures that a plugin writes, as their reader sees them.
use aii_plugin_sdk.Json.Members.{member_by_key}
use aii_plugin_sdk.Json.Text.Utf8.Parts.{utf8_valid-ascii}
use mathlib.Core.Path.{refl}
use aii_plugin_sdk.Prelude.{
  Bool-cases, List, [], append_assoc, false, if_rule, if◌then◌else◌, inl, inr, length, none, some,
  true, ◌==◌, ◌∙◌, ◌∷◌, ◌≡◌, ◌≢◌,
}
use aii_plugin_sdk.Prelude.Bytes.{Bytes, codes, equal, equal_iff}
use aii_plugin_sdk.Json.Number.{ParsedFloat}
use aii_plugin_sdk.Json.Text.Utf8.{utf8_valid}
use aii_plugin_sdk.Json.Members.Printed.{members_of}
use aii_plugin_sdk.Json.Print.{append_json_string}
use aii_plugin_sdk.Json.Print.Strings.{NoNul, NoNul-all, decode_json_string-append_json_string}
use aii_plugin_sdk.Json.Print.Objects.{AreEntries, IsText-quoted, object_text, quoted}
use aii_plugin_sdk.Json.Print.Valid.{AreValid, utf8_valid-quoted}
use aii_plugin_sdk.Plugin.Responses.{failure_result, reason_codes}
use aii_plugin_sdk.Plugin.Reply.Results.{
  AreEntries-more_room, decode_host_reply-object_text, not_empty, status_entry,
}
use aii_plugin_sdk.Plugin.Reply.{
  checked_outcome, decode_host_reply, operation_failed, outcome, reason_code_at, reply_of,
}

-- Valid UTF-8 without a NUL byte.
pub record IsPlain (s : Bytes) : Type 0 where
  pub no_nul : NoNul s
  pub valid : utf8_valid s ≡ true

-- The reason of a failure: its code where none is given.
abbrev pub said : Bytes → Bytes → Bytes
said reason_code reason = if length reason == 0 then reason_code else reason

abbrev coded : Bytes → List (Bytes × Bytes)
coded [] = []
coded (c ∷ rc) = (codes "reasonCode", quoted (c ∷ rc)) ∷ (codes "reason_code", quoted (c ∷ rc)) ∷ []

abbrev failure_entries : Bytes → Bytes → List (Bytes × Bytes)
failure_entries reason_code reason =
    (codes "reason", quoted (said reason_code reason)) ∷ coded reason_code

failure_result-object_text :
    (status reason_code reason : Bytes)
    → failure_result status reason_code reason
      ≡ object_text (status_entry status) (failure_entries reason_code reason)
unfolding failure_result reason_codes append_json_string
failure_result-object_text status [] reason = simp append_assoc
failure_result-object_text status (c ∷ rc) reason = rw (not_empty c rc) (simp append_assoc)

length-zero : (s : Bytes) → s ≢ [] → (length s == 0) ≡ false
length-zero [] n = absurd (n refl)
length-zero (c ∷ s) n = not_empty c s

equal-false : (s t : Bytes) → s ≢ t → equal s t ≡ false
equal-false s t n = elim (Bool-cases (equal s t)) [
  | inl e ↦ absurd (n ((equal_iff s t).0 e))
  | inr e ↦ e
]

module _ (parse_float : Bytes → ParsedFloat) where
  IsPlain-said :
      (reason_code reason : Bytes)
      → IsPlain reason_code
      → IsPlain reason
      → IsPlain (said reason_code reason)
  IsPlain-said reason_code reason c r = if_rule IsPlain (length reason == 0) c r

  failure-entries :
      (status reason_code reason : Bytes)
      → IsPlain status
      → IsPlain reason_code
      → IsPlain reason
      → AreEntries parse_float 63 [] (status_entry status ∷ failure_entries reason_code reason)
  failure-entries status [] reason s c r =
      let q = IsPlain-said [] reason c r in
      (
        NoNul-all (codes "status") refl,
        refl,
        IsText-quoted parse_float 63 status s.no_nul,
        (
          NoNul-all (codes "reason") refl,
          refl,
          IsText-quoted parse_float 63 (said [] reason) q.no_nul,
          tt,
        ),
      )
  failure-entries status (x ∷ rc) reason s c r =
      let q = IsPlain-said (x ∷ rc) reason c r in
      let t = IsText-quoted parse_float 63 (x ∷ rc) c.no_nul in
      (
        NoNul-all (codes "status") refl,
        refl,
        IsText-quoted parse_float 63 status s.no_nul,
        (
          NoNul-all (codes "reason") refl,
          refl,
          IsText-quoted parse_float 63 (said (x ∷ rc) reason) q.no_nul,
          (
            NoNul-all (codes "reasonCode") refl,
            refl,
            t,
            (NoNul-all (codes "reason_code") refl, refl, t, tt),
          ),
        ),
      )

  failure-valid :
      (status reason_code reason : Bytes)
      → IsPlain status
      → IsPlain reason_code
      → IsPlain reason
      → AreValid (status_entry status ∷ failure_entries reason_code reason)
  failure-valid status [] reason s c r =
      let q = IsPlain-said [] reason c r in
      (
        utf8_valid-ascii (codes "status") refl,
        utf8_valid-quoted status s.valid,
        (utf8_valid-ascii (codes "reason") refl, utf8_valid-quoted (said [] reason) q.valid, tt),
      )
  failure-valid status (x ∷ rc) reason s c r =
      let q = IsPlain-said (x ∷ rc) reason c r in
      let v = utf8_valid-quoted (x ∷ rc) c.valid in
      (
        utf8_valid-ascii (codes "status") refl,
        utf8_valid-quoted status s.valid,
        (
          utf8_valid-ascii (codes "reason") refl,
          utf8_valid-quoted (said (x ∷ rc) reason) q.valid,
          (
            utf8_valid-ascii (codes "reasonCode") refl,
            v,
            (utf8_valid-ascii (codes "reason_code") refl, v, tt),
          ),
        ),
      )

  reason_code_at-failure :
      (status reason_code reason : Bytes)
      → IsPlain reason_code
      → reason_code_at (members_of (status_entry status) (failure_entries reason_code reason))
        ≡ reason_code
  unfolding reason_code_at member_by_key
  reason_code_at-failure status [] reason c = refl
  reason_code_at-failure status (x ∷ rc) reason c =
      rw (decode_json_string-append_json_string (x ∷ rc) c.no_nul) refl

  failure-decoded :
      (status reason_code reason : Bytes)
      → IsPlain status
      → IsPlain reason_code
      → IsPlain reason
      → (text : Bytes) → (length status == 0) ≡ false
      → equal status (codes "succeeded") ≡ false
      → reply_of parse_float text
          (some (members_of (status_entry status) (failure_entries reason_code reason)))
        ≡ (
          some (record {
            raw = text;
            status = status;
            operation_result = none;
            external_receipt = none;
            reason = said reason_code reason;
            reason_code = reason_code;
          }),
          some (operation_failed status reason_code (said reason_code reason)),
        )
  unfolding reply_of checked_outcome outcome member_by_key
  failure-decoded status [] reason s c r text n m =
      let read = decode_json_string-append_json_string status s.no_nul in
      let q = IsPlain-said [] reason c r in
      let read' = decode_json_string-append_json_string (said [] reason) q.no_nul in
      rw (read, read', n, m) refl
  failure-decoded status (x ∷ rc) reason s c r text n m =
      let read = decode_json_string-append_json_string status s.no_nul in
      let q = IsPlain-said (x ∷ rc) reason c r in
      let read' = decode_json_string-append_json_string (said (x ∷ rc) reason) q.no_nul in
      let code = reason_code_at-failure status (x ∷ rc) reason c in
      rw (code, read, read', n, m) refl

  -- What a plugin writes of a failure, its reader makes that failure of: for every status but
  -- `succeeded` and the empty one, every reason code and every reason, all valid UTF-8 without a NUL
  -- byte, the reply is the error with that status, that reason code and that reason, which is the
  -- reason code where no reason is given.
  pub decode_host_reply-failure_result :
      (status reason_code reason : Bytes)
      → IsPlain status
      → IsPlain reason_code
      → IsPlain reason
      → status ≢ []
      → status ≢ codes "succeeded"
      → decode_host_reply parse_float (failure_result status reason_code reason) ≡ (
        some (record {
          raw = failure_result status reason_code reason;
          status = status;
          operation_result = none;
          external_receipt = none;
          reason = said reason_code reason;
          reason_code = reason_code;
        }),
        some (operation_failed status reason_code (said reason_code reason)),
      )
  decode_host_reply-failure_result status reason_code reason s c r n m =
      let e = status_entry status in
      let es = failure_entries reason_code reason in
      let a = failure-entries status reason_code reason s c r in
      rw (failure_result-object_text status reason_code reason) (
        decode_host_reply-object_text parse_float e es a
          (AreEntries-more_room parse_float 63 [] (e ∷ es) a)
          (failure-valid status reason_code reason s c r)
        ∙ failure-decoded status reason_code reason s c r (object_text e es) (length-zero status n)
            (equal-false status (codes "succeeded") m))
