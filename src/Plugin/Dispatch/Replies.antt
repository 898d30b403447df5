-- ===== src/Plugin/Dispatch/Replies.antt =====
-- `respond` always has a reply.
use aii_plugin_sdk.Plugin.Dispatch.{
  Call, Handler, HandlerOutcome, Plugin, Returned, answer_for, call_handler, call_of,
  checked_response, classify_handler_error, error_of, handler_failed, handler_for, id_of, internal,
  not_object, op_err, or_empty, respond, text_of, value_of, with_id, with_members, with_method,
  with_operation, with_params,
}
use aii_plugin_sdk.Wire.Frame.{max_control_frame_bytes}
use aii_plugin_sdk.Json.Members.{Member, decode_json_string, member_by_key, object_members}
use aii_plugin_sdk.Json.Scanner.{validate_strict}
use aii_plugin_sdk.Json.Number.{ParsedFloat}
use aii_plugin_sdk.Prelude.{
  List, Option, [], arith, if_rule, length, length-append, ltb, none, not, some, ◌++◌, ◌<◌, ◌==◌,
  ◌||◌,
}
use aii_plugin_sdk.Prelude.Bytes.{Bytes, codes, equal}
use aii_plugin_sdk.Prelude.Int.{ℤ}
use aii_plugin_sdk.Plugin.Responses.{
  code_internal, code_invalid, code_method, code_params, code_parse, error_response, failure_result,
  null_id, result_response, success_result,
}

length-behind : (a b : Bytes) → 0 < length b → 0 < length (a ++ b)
length-behind a b h = omega (arith, length-append a b)

length-error_response :
    (id_raw : Bytes) (code : ℤ) (message reason_code : Bytes)
    → 0 < length (error_response id_raw code message reason_code)
unfolding error_response
length-error_response id_raw code message reason_code = length-behind _ (codes "}}") (omega arith)

length-result_response : (id_raw result : Bytes) → 0 < length (result_response id_raw result)
unfolding result_response
length-result_response id_raw result = omega arith

length-handler_failed : (id_raw : Bytes) → 0 < length (handler_failed id_raw)
length-handler_failed id_raw =
    length-error_response id_raw code_internal (codes "plugin handler failed")
      (codes "PLUGIN_HANDLER_FAILED")

module _ {W R : Type 0} (parse_float : Bytes → ParsedFloat) (marshal : R → Option Bytes)
    (p : Plugin W R) where
  abbrev HasReply : W × Bytes → Type 0
  HasReply r = 0 < length r.1

  length-answer_for :
      (id_raw : Bytes) (r : Returned R) → 0 < length (answer_for parse_float marshal p id_raw r)
  unfolding answer_for
  length-answer_for id_raw (value_of result) = go (marshal result)
    where
      go :
          (o : Option Bytes)
          → 0
            < length (elim o [
              | none ↦ handler_failed id_raw
              | some payload ↦ result_response id_raw (success_result payload)
            ])
      go none = length-handler_failed id_raw
      go (some payload) = length-result_response id_raw (success_result payload)
  length-answer_for id_raw (error_of e) = go (classify_handler_error e)
    where
      go :
          (o : HandlerOutcome)
          → 0
            < length (elim o [
              | op_err status reason_code reason ↦
                  result_response id_raw (failure_result status reason_code reason)
              | internal ↦ handler_failed id_raw
            ])
      go internal = length-handler_failed id_raw
      go (op_err status reason_code reason) =
          length-result_response id_raw (failure_result status reason_code reason)

  call_handler-HasReply :
      (w : W) (id_raw : Bytes) (call : Call) (o : Option (Handler W R))
      → HasReply (call_handler parse_float marshal p w id_raw call o)
  unfolding call_handler checked_response
  call_handler-HasReply w id_raw call none = length-result_response id_raw _
  call_handler-HasReply w id_raw call (some fn) =
      let resp = answer_for parse_float marshal p id_raw (fn w call).1 in
      if_rule (λ (b : Bytes). 0 < length b)
        (ltb max_control_frame_bytes (length resp) || not (validate_strict parse_float resp))
        (length-handler_failed id_raw) (length-answer_for id_raw (fn w call).1)

  with_operation-HasReply :
      (w : W) (id_raw : Bytes) (params : List Member) (o : Option Bytes)
      → HasReply (with_operation parse_float marshal p w id_raw params o)
  unfolding with_operation
  with_operation-HasReply w id_raw params none =
      length-error_response id_raw code_params (codes "operation (string) required") []
  with_operation-HasReply w id_raw params (some operation) =
      if_rule HasReply (length operation == 0)
        (length-error_response id_raw code_params (codes "operation (string) required") [])
        (if_rule HasReply (not_object (member_by_key params (codes "target")))
          (length-result_response id_raw _)
          (if_rule HasReply (not_object (member_by_key params (codes "arguments")))
            (length-result_response id_raw _)
            (call_handler-HasReply w id_raw (call_of params operation)
              (handler_for parse_float marshal p operation))))

  with_params-HasReply :
      (w : W) (id_raw : Bytes) (o : Option (List Member))
      → HasReply (with_params parse_float marshal p w id_raw o)
  unfolding with_params
  with_params-HasReply w id_raw none =
      length-error_response id_raw code_params (codes "params must be a JSON object") []
  with_params-HasReply w id_raw (some params) =
      with_operation-HasReply w id_raw params
        (decode_json_string (text_of (member_by_key params (codes "operation"))))

  with_method-HasReply :
      (w : W) (id_raw : Bytes) (members : List Member) (o : Option Bytes)
      → HasReply (with_method parse_float marshal p w id_raw members o)
  unfolding with_method
  with_method-HasReply w id_raw members none =
      length-error_response id_raw code_invalid (codes "invalid JSON-RPC 2.0 request") []
  with_method-HasReply w id_raw members (some method) =
      if_rule HasReply (not (equal method (codes "invoke.call")))
        (length-error_response id_raw code_method (codes "method not found")
          (codes "METHOD_NOT_FOUND"))
        (with_params-HasReply w id_raw
          (object_members parse_float (or_empty (member_by_key members (codes "params")))))

  with_id-HasReply :
      (w : W) (members : List Member) (o : Option Bytes)
      → HasReply (with_id parse_float marshal p w members o)
  unfolding with_id
  with_id-HasReply w members none =
      length-error_response null_id code_invalid (codes "invalid JSON-RPC 2.0 request") []
  with_id-HasReply w members (some id_raw) =
      if_rule HasReply
        (not (equal (text_of (member_by_key members (codes "jsonrpc"))) (codes "\"2.0\"")))
        (length-error_response id_raw code_invalid (codes "invalid JSON-RPC 2.0 request") [])
        (with_method-HasReply w id_raw members
          (decode_json_string (text_of (member_by_key members (codes "method")))))

  with_members-HasReply :
      (w : W) (o : Option (List Member)) → HasReply (with_members parse_float marshal p w o)
  unfolding with_members
  with_members-HasReply w none =
      length-error_response null_id code_invalid (codes "invalid JSON-RPC 2.0 request") []
  with_members-HasReply w (some members) = with_id-HasReply w members (id_of members)

  pub respond-HasReply :
      (w : W) (frame : Bytes) → 0 < length (respond parse_float marshal p w frame).1
  unfolding respond
  respond-HasReply w frame =
      if_rule HasReply (not (validate_strict parse_float frame))
        (length-error_response null_id code_parse (codes "JSON parse error") [])
        (with_members-HasReply w (object_members parse_float frame))
