-- ===== src/Plugin/Dispatch/Lifted.antt =====
-- A plugin whose handlers act on a part of the world: `respond` changes only that part, and answers
-- as it does on the part alone.
use mathlib.Core.Path.{refl}
use mathlib.Core.Option
use aii_plugin_sdk.Prelude.{List, Option, if_rule₂, length, none, not, some, sym, ◌==◌, ◌≡◌}
use aii_plugin_sdk.Prelude.Bytes.{Bytes, codes, equal}
use aii_plugin_sdk.Json.Number.{ParsedFloat}
use aii_plugin_sdk.Json.Scanner.{validate_strict}
use aii_plugin_sdk.Json.Members.{Member, decode_json_string, member_by_key, object_members}
use aii_plugin_sdk.Plugin.Dispatch.{
  Call, Handler, Plugin, answer_for, call_handler, call_of, checked_response, handler_for, id_of,
  not_object, or_empty, respond, text_of, with_id, with_members, with_method, with_operation,
  with_params,
}

module _ {U V R : Type 0} (get : U → V) (put : U → V → U) where
  abbrev pub lift_handler : Handler V R → Handler U R
  lift_handler h u call = let (v, returned) = h (get u) call in (put u v, returned)

  abbrev pub lift : Plugin V R → Plugin U R
  lift p = record {
    handlers = λ operation. Option.map lift_handler (p.handlers operation);
    dynamic = Option.map (λ dyn operation. lift_handler (dyn operation)) p.dynamic;
  }

  module _ (put-get : (u : U) → put u (get u) ≡ u) (parse_float : Bytes → ParsedFloat)
      (marshal : R → Option Bytes) (p : Plugin V R) (u : U) where
    -- The same answer, and the same change of the part.
    abbrev pub Agrees : U × Bytes → V × Bytes → Type 0
    Agrees (u', reply) (v, reply') = (u' ≡ put u v) × (reply ≡ reply')

    same_reply : (reply : Bytes) → Agrees (u, reply) (get u, reply)
    same_reply reply = (sym (put-get u), refl)

    handler_for-lift :
        (operation : Bytes)
        → handler_for parse_float marshal (lift p) operation
          ≡ Option.map lift_handler (handler_for parse_float marshal p operation)
    unfolding handler_for
    handler_for-lift operation = go (p.handlers operation) p.dynamic
      where
        go :
            (found : Option (Handler V R)) (dyn : Option (Bytes → Handler V R))
            → (elim (Option.map lift_handler found) [
              | some fn ↦ some fn
              | none ↦
                  Option.map
                    (λ (d : Bytes → Handler U R). d operation)
                    (Option.map (λ (d : Bytes → Handler V R) o. lift_handler (d o)) dyn)
            ])
              ≡ Option.map lift_handler (elim found [
                | some fn ↦ some fn
                | none ↦ Option.map (λ (d : Bytes → Handler V R). d operation) dyn
              ])
        go (some fn) dyn = refl
        go none none = refl
        go none (some dyn) = refl

    call_handler-lift :
        (id_raw : Bytes) (call : Call) (o : Option (Handler V R))
        → Agrees
            (call_handler parse_float marshal (lift p) u id_raw call (Option.map lift_handler o))
            (call_handler parse_float marshal p (get u) id_raw call o)
    unfolding call_handler checked_response answer_for
    call_handler-lift id_raw call none = same_reply _
    call_handler-lift id_raw call (some fn) = (refl, refl)

    with_operation-lift :
        (id_raw : Bytes) (params : List Member) (o : Option Bytes)
        → Agrees
            (with_operation parse_float marshal (lift p) u id_raw params o)
            (with_operation parse_float marshal p (get u) id_raw params o)
    unfolding with_operation
    with_operation-lift id_raw params none = same_reply _
    with_operation-lift id_raw params (some operation) =
        let called =
          call_handler-lift id_raw (call_of params operation)
            (handler_for parse_float marshal p operation) in
        if_rule₂ Agrees (length operation == 0) (same_reply _) (
          if_rule₂ Agrees (not_object (member_by_key params (codes "target"))) (same_reply _) (
            if_rule₂ Agrees (not_object (member_by_key params (codes "arguments"))) (same_reply _)
              (rw (handler_for-lift operation) called)))

    with_params-lift :
        (id_raw : Bytes) (o : Option (List Member))
        → Agrees
            (with_params parse_float marshal (lift p) u id_raw o)
            (with_params parse_float marshal p (get u) id_raw o)
    unfolding with_params
    with_params-lift id_raw none = same_reply _
    with_params-lift id_raw (some params) =
        with_operation-lift id_raw params
          (decode_json_string (text_of (member_by_key params (codes "operation"))))

    with_method-lift :
        (id_raw : Bytes) (members : List Member) (o : Option Bytes)
        → Agrees
            (with_method parse_float marshal (lift p) u id_raw members o)
            (with_method parse_float marshal p (get u) id_raw members o)
    unfolding with_method
    with_method-lift id_raw members none = same_reply _
    with_method-lift id_raw members (some method) =
        if_rule₂ Agrees (not (equal method (codes "invoke.call"))) (same_reply _) (
          with_params-lift id_raw
            (object_members parse_float (or_empty (member_by_key members (codes "params")))))

    with_id-lift :
        (members : List Member) (o : Option Bytes)
        → Agrees
            (with_id parse_float marshal (lift p) u members o)
            (with_id parse_float marshal p (get u) members o)
    unfolding with_id
    with_id-lift members none = same_reply _
    with_id-lift members (some id_raw) =
        if_rule₂ Agrees
          (not (equal (text_of (member_by_key members (codes "jsonrpc"))) (codes "\"2.0\"")))
          (same_reply _)
          (with_method-lift id_raw members
            (decode_json_string (text_of (member_by_key members (codes "method")))))

    with_members-lift :
        (o : Option (List Member))
        → Agrees
            (with_members parse_float marshal (lift p) u o)
            (with_members parse_float marshal p (get u) o)
    unfolding with_members
    with_members-lift none = same_reply _
    with_members-lift (some members) = with_id-lift members (id_of members)

    pub respond-lift :
        (frame : Bytes)
        → Agrees
            (respond parse_float marshal (lift p) u frame)
            (respond parse_float marshal p (get u) frame)
    unfolding respond
    respond-lift frame =
        if_rule₂ Agrees (not (validate_strict parse_float frame)) (same_reply _)
          (with_members-lift (object_members parse_float frame))
