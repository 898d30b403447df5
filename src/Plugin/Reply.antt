-- ===== src/Plugin/Reply.antt =====
-- `decodeHostReply` of pkg/aiiosdk/hostcall.go: what the caller of an operation makes of its reply.
pub mod Results
pub mod Failures
use aii_plugin_sdk.Prelude.{
  Bool, List, Option, [], false, if◌then◌else◌, length, none, not, some, true, ◌&&◌, ◌==◌, ◌||◌,
}
use aii_plugin_sdk.Prelude.Bytes.{Bytes, codes, equal}
use aii_plugin_sdk.Prelude.Int.{ℤ}
use aii_plugin_sdk.Json.Number.{ParsedFloat, atoi}
use aii_plugin_sdk.Json.Scanner.{validate_strict}
use aii_plugin_sdk.Json.Members.{Member, decode_json_string, member_by_key, object_members}
use aii_plugin_sdk.Plugin.Dispatch.{text_of}

-- `Denied`.
pub record Denied : Type 0 where
  pub code : ℤ
  pub message : Bytes
  pub reason_code : Bytes
  pub denied_at : Bytes

-- `InvokeResult`; an absent value is nil in the source.
pub record InvokeResult : Type 0 where
  pub raw : Bytes
  pub status : Bytes
  pub operation_result : Option Bytes
  pub external_receipt : Option Bytes
  pub reason : Bytes
  pub reason_code : Bytes

-- The errors of `decodeHostReply`; the last two are `Denied` and `OperationError`.
pub data ReplyError : Type 0 where
  empty_reply not_strict not_an_object code_not_integer message_not_string : ReplyError
  status_not_string outcome_not_boolean no_outcome : ReplyError
  host_denied : Denied → ReplyError
  operation_failed : Bytes → Bytes → Bytes → ReplyError

-- The string of a member, if it is one.
abbrev pub text_at : List Member → Bytes → Option Bytes
text_at members key = decode_json_string (text_of (member_by_key members key))

-- The reason code, in either spelling.
abbrev either_text : Option Bytes → Option Bytes → Bytes
either_text (some rc) other = rc
either_text none other = text_of other

unfoldable pub reason_code_at : List Member → Bytes
unfolding member_by_key decode_json_string
reason_code_at members =
    either_text (text_at members (codes "reasonCode")) (text_at members (codes "reason_code"))

abbrev pub is_nil : Option Bytes → Bool
is_nil none = true
is_nil (some _) = false

abbrev is_boolean : Option Bytes → Bool
is_boolean none = true
is_boolean (some b) = equal b (codes "true") || equal b (codes "false")

abbrev says_false : Option Bytes → Bool
says_false b = equal (text_of b) (codes "false")

abbrev pub HostReply : Type 0
HostReply = Option InvokeResult × Option ReplyError

abbrev failed_with : ReplyError → HostReply
failed_with e = (none, some e)

-- The error object's code and message, with what its data adds.
unfoldable denied_with : ℤ → Bytes → Option (List Member) → Denied
unfolding reason_code_at member_by_key decode_json_string
denied_with code message none = record {
  code = code;
  message = message;
  reason_code = [];
  denied_at = [];
}
denied_with code message (some members) = record {
  code = code;
  message = message;
  reason_code = reason_code_at members;
  denied_at = text_of (text_at members (codes "denied_at"));
}

-- The status of a reply that has none: what `ok` and `success` say.
abbrev status_or : List Member → Bytes → Bytes
status_or members status =
    if not (length status == 0)
    then status
    else if says_false (member_by_key members (codes "ok"))
        || says_false (member_by_key members (codes "success"))
    then codes "failed"
    else codes "succeeded"

-- From `res := &InvokeResult{…}` on.
unfoldable pub outcome : Bytes → List Member → HostReply
unfolding reason_code_at member_by_key decode_json_string
outcome reply members =
    let status = status_or members (text_of (text_at members (codes "status"))) in
    let reason = text_of (text_at members (codes "reason")) in
    let reason_code = reason_code_at members in
    let res : InvokeResult = record {
      raw = reply;
      status = status;
      operation_result = member_by_key members (codes "operation_result");
      external_receipt = member_by_key members (codes "external_receipt");
      reason = reason;
      reason_code = reason_code;
    } in
    if not (equal status (codes "succeeded"))
    then (some res, some (operation_failed status reason_code reason))
    else (some res, none)

-- From the status on.
unfoldable pub checked_outcome : Bytes → List Member → HostReply
unfolding outcome member_by_key decode_json_string
checked_outcome reply members =
    let status = member_by_key members (codes "status") in
    let is_ok = member_by_key members (codes "ok") in
    let success = member_by_key members (codes "success") in
    if not (is_nil status) && length (text_of (text_at members (codes "status"))) == 0
    then failed_with status_not_string
    else if not (is_boolean is_ok && is_boolean success)
    then failed_with outcome_not_boolean
    else if is_nil status && is_nil is_ok && is_nil success
    then failed_with no_outcome
    else outcome reply members

module _ (parse_float : Bytes → ParsedFloat) where
  -- The error object of a host that refused the call.
  unfoldable pub error_object : List Member → HostReply
  unfolding denied_with object_members member_by_key decode_json_string
  error_object members = elim (atoi (text_of (member_by_key members (codes "code")))) [
    | none ↦ failed_with code_not_integer
    | some code ↦ elim (text_at members (codes "message")) [
      | none ↦ failed_with message_not_string
      | some message ↦
          let details =
            object_members parse_float (text_of (member_by_key members (codes "data"))) in
          failed_with (host_denied (denied_with code message details))
    ]
  ]

  unfoldable pub reply_of : Bytes → Option (List Member) → HostReply
  unfolding error_object checked_outcome member_by_key
  reply_of reply none = failed_with not_an_object
  reply_of reply (some members) =
      let has = λ (key : Bytes). not (is_nil (member_by_key members key)) in
      if has (codes "code")
        && has (codes "message")
        && not (has (codes "status"))
        && not (has (codes "ok"))
        && not (has (codes "success"))
      then error_object members
      else checked_outcome reply members

  -- `decodeHostReply`.
  unfoldable pub decode_host_reply : Bytes → HostReply
  unfolding reply_of validate_strict object_members
  decode_host_reply reply =
      let rest = reply_of reply (object_members parse_float reply) in
      if length reply == 0
      then failed_with empty_reply
      else if not (validate_strict parse_float reply)
      then failed_with not_strict
      else rest
