-- ===== src/Plugin/Dispatch/Safety.antt =====
-- When a handler is called, and what the answer is then.
use aii_plugin_sdk.Wire.Frame.{max_control_frame_bytes}
use mathlib.Core.Path.{refl}
use aii_plugin_sdk.Prelude.{
  Bool, List, Option, [], ap, arith, false, if_cases, inl, inr, length, ltb, none, not, some, true,
  ℕ, ◌==◌, ◌||◌, ◌∷◌, ◌≡◌, ◌≢◌, ◌≤◌, ◌⊎◌,
}
use aii_plugin_sdk.Prelude.Bytes.{Bytes, codes, equal, equal_iff}
use aii_plugin_sdk.Json.Number.{ParsedFloat}
use aii_plugin_sdk.Json.Scanner.{validate_strict}
use aii_plugin_sdk.Json.Members.{Member, decode_json_string, member_by_key, object_members}
use aii_plugin_sdk.Plugin.Dispatch.{
  Call, Handler, Plugin, answer_for, call_handler, call_of, checked_response, handler_failed,
  handler_for, id_of, not_object, or_empty, respond, text_of, with_id, with_members, with_method,
  with_operation, with_params,
}

not-true : (t : Bool) → not t ≡ false → t ≡ true
not-true true h = refl
not-true false h = absurd (cc)

within_bound : (max n : ℕ) (v : Bool) → (ltb max n || not v) ≡ false → (n ≤ max) × (v ≡ true)
within_bound max n v h = (ground arith, ground arith)

module _ {W R : Type 0} (parse_float : Bytes → ParsedFloat) (marshal : R → Option Bytes)
    (p : Plugin W R) where
  -- Either the fixed answer of a handler that failed, or a frame that may be sent.
  abbrev pub IsAnswer : Bytes → Bytes → Type 0
  IsAnswer id_raw resp =
      (resp ≡ handler_failed id_raw)
      ⊎ ((length resp ≤ max_control_frame_bytes) × (validate_strict parse_float resp ≡ true))

  -- The parameters of a request name an operation, and its handler has taken the world from `w`
  -- to `w'` in one call.
  pub record IsCalled (w w' : W) (id_raw resp : Bytes) (params : List Member) : Type 0 where
    pub operation : Bytes
    pub handler : Handler W R
    pub named :
        decode_json_string (text_of (member_by_key params (codes "operation"))) ≡ some operation
    pub not_empty : operation ≢ []
    pub target_object : not_object (member_by_key params (codes "target")) ≡ false
    pub arguments_object : not_object (member_by_key params (codes "arguments")) ≡ false
    pub found : handler_for parse_float marshal p operation ≡ some handler
    pub called : w' ≡ (handler w (call_of params operation)).0
    pub answer : IsAnswer id_raw resp

  -- A request in full.
  pub record IsRequest (w w' : W) (frame resp : Bytes) : Type 0 where
    pub members : List Member
    pub params : List Member
    pub strict : validate_strict parse_float frame ≡ true
    pub an_object : object_members parse_float frame ≡ some members
    pub version : text_of (member_by_key members (codes "jsonrpc")) ≡ codes "\"2.0\""
    pub method :
        decode_json_string (text_of (member_by_key members (codes "method")))
        ≡ some (codes "invoke.call")
    pub params_object :
        object_members parse_float (or_empty (member_by_key members (codes "params"))) ≡ some params
    pub id_raw : Bytes
    pub id_found : id_of members ≡ some id_raw
    pub is_called : IsCalled w w' id_raw resp params

  not_zero : (b : Bytes) → (length b == 0) ≡ false → b ≢ []
  not_zero [] h e = cc
  not_zero (x ∷ b) h e = cc

  checked-IsAnswer :
      (id_raw resp : Bytes) → IsAnswer id_raw (checked_response parse_float marshal p id_raw resp)
  unfolding checked_response
  checked-IsAnswer id_raw resp =
      if_cases (IsAnswer id_raw)
        (ltb max_control_frame_bytes (length resp) || not (validate_strict parse_float resp))
        (λ _. inl refl)
        (λ e.
          inr (
            within_bound max_control_frame_bytes (length resp) (validate_strict parse_float resp)
              e))

  called-handler :
      (w : W) (id_raw : Bytes) (call : Call) (o : Option (Handler W R))
      → (call_handler parse_float marshal p w id_raw call o).0 ≢ w
      → (fn : Handler W R) × (o ≡ some fn)
        × ((call_handler parse_float marshal p w id_raw call o).0 ≡ (fn w call).0)
        × IsAnswer id_raw (call_handler parse_float marshal p w id_raw call o).1
  unfolding call_handler
  called-handler w id_raw call none h = absurd (h refl)
  called-handler w id_raw call (some fn) h = (
    fn,
    refl,
    refl,
    checked-IsAnswer id_raw (answer_for parse_float marshal p id_raw (fn w call).1),
  )

  operation-IsCalled :
      (w : W) (id_raw : Bytes) (params : List Member) (o : Option Bytes)
      → decode_json_string (text_of (member_by_key params (codes "operation"))) ≡ o
      → (with_operation parse_float marshal p w id_raw params o).0 ≢ w
      → (let r = with_operation parse_float marshal p w id_raw params o in
          IsCalled w r.0 id_raw r.1 params)
  unfolding with_operation
  operation-IsCalled w id_raw params none e h = absurd (h refl)
  operation-IsCalled w id_raw params (some operation) e h =
      let P : W × Bytes → Type 0 = λ r. r.0 ≢ w → IsCalled w r.0 id_raw r.1 params in
      if_cases P (length operation == 0) (λ _ h. absurd (h refl))
        (λ ne.
          if_cases P (not_object (member_by_key params (codes "target"))) (λ _ h. absurd (h refl))
            (λ t.
              if_cases P (not_object (member_by_key params (codes "arguments")))
                (λ _ h. absurd (h refl))
                (λ a h.
                  let (fn, f, c, a') =
                    called-handler w id_raw (call_of params operation)
                      (handler_for parse_float marshal p operation) h in
                  record {
                    operation = operation;
                    handler = fn;
                    named = e;
                    not_empty = not_zero operation ne;
                    target_object = t;
                    arguments_object = a;
                    found = f;
                    called = c;
                    answer = a';
                  })))
        h

  params-IsCalled :
      (w : W) (id_raw : Bytes) (o : Option (List Member))
      → (let r = with_params parse_float marshal p w id_raw o in
          r.0 ≢ w → (params : List Member) × (o ≡ some params) × IsCalled w r.0 id_raw r.1 params)
  unfolding with_params
  params-IsCalled w id_raw none h = absurd (h refl)
  params-IsCalled w id_raw (some params) h =
      (params, refl, operation-IsCalled w id_raw params _ refl h)

  -- What is known of a request whose method was decoded.
  abbrev MethodCalled : W → Bytes → List Member → Option Bytes → W × Bytes → Type 0
  MethodCalled w id_raw members o r =
      (params : List Member) × (o ≡ some (codes "invoke.call"))
      × (object_members parse_float (or_empty (member_by_key members (codes "params")))
          ≡ some params)
      × IsCalled w r.0 id_raw r.1 params

  method-MethodCalled :
      (w : W) (id_raw : Bytes) (members : List Member) (o : Option Bytes)
      → (with_method parse_float marshal p w id_raw members o).0 ≢ w
      → MethodCalled w id_raw members o (with_method parse_float marshal p w id_raw members o)
  unfolding with_method
  method-MethodCalled w id_raw members none h = absurd (h refl)
  method-MethodCalled w id_raw members (some method) h =
      if_cases (λ (r : W × Bytes). r.0 ≢ w → MethodCalled w id_raw members (some method) r)
        (not (equal method (codes "invoke.call"))) (λ _ h. absurd (h refl))
        (λ e h.
          let (params, o, c) = params-IsCalled w id_raw _ h in
          (params, ap some ((equal_iff method (codes "invoke.call")).0 (not-true _ e)), o, c))
        h

  id-called :
      (w : W) (frame : Bytes) (members : List Member) (o : Option Bytes)
      → validate_strict parse_float frame ≡ true
      → object_members parse_float frame ≡ some members
      → id_of members ≡ o
      → (let r = with_id parse_float marshal p w members o in r.0 ≢ w → IsRequest w r.0 frame r.1)
  unfolding with_id
  id-called w frame members none v m i h = absurd (h refl)
  id-called w frame members (some id_raw) v m i h =
      if_cases (λ (r : W × Bytes). r.0 ≢ w → IsRequest w r.0 frame r.1)
        (not (equal (text_of (member_by_key members (codes "jsonrpc"))) (codes "\"2.0\"")))
        (λ _ h. absurd (h refl))
        (λ e h.
          let (params, d, o, c) = method-MethodCalled w id_raw members _ h in
          record {
            members = members;
            params = params;
            strict = v;
            an_object = m;
            version =
                (equal_iff (text_of (member_by_key members (codes "jsonrpc"))) (codes "\"2.0\"")).0
                  (not-true _ e);
            method = d;
            params_object = o;
            id_raw = id_raw;
            id_found = i;
            is_called = c;
          })
        h

  members-called :
      (w : W) (frame : Bytes) (o : Option (List Member))
      → validate_strict parse_float frame ≡ true
      → object_members parse_float frame ≡ o
      → (let r = with_members parse_float marshal p w o in r.0 ≢ w → IsRequest w r.0 frame r.1)
  unfolding with_members
  members-called w frame none v m h = absurd (h refl)
  members-called w frame (some members) v m h = id-called w frame members _ v m refl h

  -- If answering a frame has changed anything in the world, then the frame is strict JSON, an object
  -- of the protocol's version with the method `invoke.call` and an id that may be answered, its
  -- parameters name an operation that has a handler, with a target and arguments that are objects if
  -- they are there; that handler was called once and did the change; and the answer is the fixed one
  -- of a handler that failed, or strict JSON within the frame's bound.
  pub respond-IsRequest :
      (w : W) (frame : Bytes)
      → (respond parse_float marshal p w frame).0 ≢ w
      → IsRequest w
          (respond parse_float marshal p w frame).0
          frame
          (respond parse_float marshal p w frame).1
  unfolding respond
  respond-IsRequest w frame h =
      if_cases (λ (r : W × Bytes). r.0 ≢ w → IsRequest w r.0 frame r.1)
        (not (validate_strict parse_float frame)) (λ _ h. absurd (h refl))
        (λ e h. members-called w frame (object_members parse_float frame) (not-true _ e) refl h) h
