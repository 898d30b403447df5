-- ===== src/Plugin/Dispatch.antt =====
-- `respond` of pkg/aiiosdk/plugin.go: from the bytes of a request to those of the answer. Handlers
-- are the plugin's own code: each takes the state of the world and a call to a new state and an
-- outcome. What `marshalValue` makes of a result is a parameter here.
pub mod Safety
pub mod Lifted
pub mod Replies
pub mod Oversized
use mathlib.Core.Option
use aii_plugin_sdk.Prelude.{
  Bool, List, Option, [], false, if◌then◌else◌, leb, length, ltb, map, none, not, some, ℕ, ◌&&◌,
  ◌++◌, ◌==◌, ◌||◌, ◌∷◌,
}
use aii_plugin_sdk.Prelude.Bytes.{Bytes, codes, equal}
use aii_plugin_sdk.Json.Number.{ParsedFloat}
use aii_plugin_sdk.Json.Scanner.{validate_strict}
use aii_plugin_sdk.Json.Members.{Member, decode_json_string, member_by_key, object_members}
use aii_plugin_sdk.Wire.Frame.{max_control_frame_bytes}
use aii_plugin_sdk.Plugin.Responses.{
  code_internal, code_invalid, code_method, code_params, code_parse, error_response, failure_result,
  null_id, result_response, success_result,
}

-- `Call`; an absent value is nil in the source.
pub record Call : Type 0 where
  pub operation : Bytes
  pub target : Option Bytes
  pub arguments : Bytes
  pub host_work_session : Option Bytes

-- `OperationError` and `Denied`, an error that wraps another, and any other error.
pub data HandlerError : Type 0 where
  operation_error : Bytes → Bytes → Bytes → HandlerError
  denied : Bytes → Bytes → HandlerError
  wrapped : HandlerError → HandlerError
  opaque : HandlerError

-- `handlerOutcome`: the status, the reason code and the reason of an operation's error.
pub data HandlerOutcome : Type 0 where
  op_err : Bytes → Bytes → Bytes → HandlerOutcome
  internal : HandlerOutcome

-- `classifyHandlerError` of an error that is not nil.
unfoldable pub classify_handler_error : HandlerError → HandlerOutcome
classify_handler_error (operation_error status reason_code reason) =
    if not (equal status (codes "failed")) && not (equal status (codes "denied"))
    then op_err (codes "failed") reason_code reason
    else op_err status reason_code reason
classify_handler_error (denied message reason_code) = op_err (codes "denied") reason_code message
classify_handler_error (wrapped e) = classify_handler_error e
classify_handler_error opaque = internal

pub data Returned (R : Type 0) : Type 0 where
  value_of : R → Returned R
  error_of : HandlerError → Returned R

abbrev pub Handler : Type 0 → Type 0 → Type 0
Handler W R = W → Call → W × Returned R

-- `Plugin`: its handlers by operation, and the dynamic one.
pub record Plugin (W R : Type 0) : Type 0 where
  pub handlers : Bytes → Option (Handler W R)
  pub dynamic : Option (Bytes → Handler W R)

abbrev first_byte : (ℕ → Bool) → Bytes → Bool
first_byte p [] = false
first_byte p (c ∷ _) = p c

abbrev is_digit : ℕ → Bool
is_digit c = leb b'0' c && leb c b'9'

-- An id that is answered with: a string, a number, or null.
abbrev pub answerable : Bytes → Bool
answerable raw = first_byte (λ c. c == b'"' || c == b'-' || is_digit c) raw || equal raw null_id

-- The id of a request, if it may be answered.
unfoldable pub id_of : List Member → Option Bytes
unfolding member_by_key
id_of members = elim (member_by_key members (codes "id")) [
  | none ↦ some null_id
  | some raw ↦ if answerable raw then some raw else none
]

abbrev pub text_of : Option Bytes → Bytes
text_of none = []
text_of (some raw) = raw

abbrev pub or_empty : Option Bytes → Bytes
or_empty none = codes "{}"
or_empty (some raw) = raw

abbrev is_object : Bytes → Bool
is_object raw = first_byte (λ c. c == b'{') raw

abbrev pub not_object : Option Bytes → Bool
not_object none = false
not_object (some raw) = not (is_object raw)

abbrev pub handler_failed : Bytes → Bytes
handler_failed id_raw =
    error_response id_raw code_internal (codes "plugin handler failed")
      (codes "PLUGIN_HANDLER_FAILED")

-- The call of an operation with the request's parameters.
abbrev pub call_of : List Member → Bytes → Call
call_of params operation = record {
  operation = operation;
  target = member_by_key params (codes "target");
  arguments = or_empty (member_by_key params (codes "arguments"));
  host_work_session = member_by_key params (codes "_host_work_session");
}

module _ {W R : Type 0} (parse_float : Bytes → ParsedFloat) (marshal : R → Option Bytes)
    (p : Plugin W R) where
  -- The handler that an operation is given to.
  unfoldable pub handler_for : Bytes → Option (Handler W R)
  handler_for operation = elim (p.handlers operation) [
    | some fn ↦ some fn
    | none ↦ Option.map (λ dyn. dyn operation) p.dynamic
  ]

  answer_for : Bytes → Returned R → Bytes
  unfolding error_response result_response success_result failure_result classify_handler_error
  answer_for id_raw (value_of result) = elim (marshal result) [
    | none ↦ handler_failed id_raw
    | some payload ↦ result_response id_raw (success_result payload)
  ]
  answer_for id_raw (error_of e) = elim (classify_handler_error e) [
    | op_err status reason_code reason ↦
        result_response id_raw (failure_result status reason_code reason)
    | internal ↦ handler_failed id_raw
  ]

  -- The last test of `respond`.
  checked_response : Bytes → Bytes → Bytes
  unfolding validate_strict error_response
  checked_response id_raw resp =
      if ltb max_control_frame_bytes (length resp) || not (validate_strict parse_float resp)
      then handler_failed id_raw
      else resp

  -- From the call of the handler on.
  call_handler : W → Bytes → Call → Option (Handler W R) → W × Bytes
  unfolding checked_response answer_for
  call_handler w id_raw call none = (
    w,
    result_response id_raw (
        failure_result (codes "failed") (codes "OPERATION_NOT_FOUND")
          (codes "operation " ++ call.operation ++ codes " is not implemented by this plugin")),
  )
  call_handler w id_raw call (some fn) =
      let (w', returned) = fn w call in (w', checked_response id_raw (answer_for id_raw returned))

  -- From the operation on.
  with_operation : W → Bytes → List Member → Option Bytes → W × Bytes
  unfolding call_handler handler_for member_by_key error_response result_response failure_result
  with_operation w id_raw params none =
      (w, error_response id_raw code_params (codes "operation (string) required") [])
  with_operation w id_raw params (some operation) =
      let called = call_handler w id_raw (call_of params operation) (handler_for operation) in
      if length operation == 0
      then (w, error_response id_raw code_params (codes "operation (string) required") [])
      else if not_object (member_by_key params (codes "target"))
      then (
        w,
        result_response id_raw (
            failure_result (codes "denied") (codes "OPERATION_TARGET_INVALID")
              (codes "target must be an object")),
      )
      else if not_object (member_by_key params (codes "arguments"))
      then (
        w,
        result_response id_raw (
            failure_result (codes "denied") (codes "OPERATION_ARGUMENT_INVALID")
              (codes "arguments must be an object")),
      )
      else called

  with_params : W → Bytes → Option (List Member) → W × Bytes
  unfolding with_operation decode_json_string member_by_key error_response
  with_params w id_raw none =
      (w, error_response id_raw code_params (codes "params must be a JSON object") [])
  with_params w id_raw (some params) =
      with_operation w id_raw params
        (decode_json_string (text_of (member_by_key params (codes "operation"))))

  with_method : W → Bytes → List Member → Option Bytes → W × Bytes
  unfolding with_params object_members member_by_key error_response
  with_method w id_raw members none =
      (w, error_response id_raw code_invalid (codes "invalid JSON-RPC 2.0 request") [])
  with_method w id_raw members (some method) =
      let params = object_members parse_float (or_empty (member_by_key members (codes "params"))) in
      let rest = with_params w id_raw params in
      if not (equal method (codes "invoke.call"))
      then (
        w,
        error_response id_raw code_method (codes "method not found") (codes "METHOD_NOT_FOUND"),
      )
      else rest

  with_id : W → List Member → Option Bytes → W × Bytes
  unfolding with_method decode_json_string member_by_key error_response
  with_id w members none =
      (w, error_response null_id code_invalid (codes "invalid JSON-RPC 2.0 request") [])
  with_id w members (some id_raw) =
      let method = decode_json_string (text_of (member_by_key members (codes "method"))) in
      let rest = with_method w id_raw members method in
      if not (equal (text_of (member_by_key members (codes "jsonrpc"))) (codes "\"2.0\""))
      then (w, error_response id_raw code_invalid (codes "invalid JSON-RPC 2.0 request") [])
      else rest

  with_members : W → Option (List Member) → W × Bytes
  unfolding with_id id_of error_response
  with_members w none =
      (w, error_response null_id code_invalid (codes "invalid JSON-RPC 2.0 request") [])
  with_members w (some members) = with_id w members (id_of members)

  -- `respond`.
  unfoldable pub respond : W → Bytes → W × Bytes
  unfolding with_members validate_strict object_members error_response
  respond w frame =
      let rest = with_members w (object_members parse_float frame) in
      if not (validate_strict parse_float frame)
      then (w, error_response null_id code_parse (codes "JSON parse error") [])
      else rest
