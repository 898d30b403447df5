-- ===== src/Plugin/Dispatch/Oversized.antt =====
-- A request whose operation has no handler is answered with the operation's name, however long it is.
use aii_plugin_sdk.Wire.Frame.{max_control_frame_bytes}
use aii_plugin_sdk.Plugin.Dispatch.{
  Plugin, call_handler, handler_for, id_of, respond, with_id, with_members, with_method,
  with_operation, with_params,
}
use aii_plugin_sdk.Plugin.Responses.{failure_result, null_id, result_response}
use aii_plugin_sdk.Json.Members.Printed.{members_of, object_members-object_text}
use aii_plugin_sdk.Json.Members.{Member, member_by_key, object_members}
use aii_plugin_sdk.Json.Scanner.{validate_strict}
use aii_plugin_sdk.Json.Text.Utf8.Parts.{is_ascii, utf8_valid-append, utf8_valid-ascii}
use aii_plugin_sdk.Json.Text.Utf8.{utf8_valid}
use aii_plugin_sdk.Json.Number.{ParsedFloat}
use mathlib.Core.Path.{refl}
use aii_plugin_sdk.Prelude.{
  &&-left, &&-right, Bool, List, Option, [], all, ap, append_assoc, arith, false, leb, length,
  length-append, ltb, none, some, suc, sym, true, ℕ, ◌&&◌, ◌++◌, ◌+◌, ◌<◌, ◌==◌, ◌∙◌, ◌∷◌, ◌≡◌, ◌≤◌,
}
use aii_plugin_sdk.Prelude.Bytes.{Bytes, codes}
use aii_plugin_sdk.Json.Print.{append_json_string, escape_byte, escape_bytes}
use aii_plugin_sdk.Json.Print.Strings.{NoNul, NoNul-all, decode_json_string-append_json_string}
use aii_plugin_sdk.Json.Print.Objects.{
  AreEntries, IsText-object_text, IsText-quoted, object_text, quoted, validate_strict-IsText,
}

abbrev pub is_letters : Bytes → Bool
is_letters = all (λ c. leb b'a' c && leb c b'z')

-- The parameters of a call of an operation, and the request that makes it, without an id.
abbrev pub params_text : Bytes → Bytes
params_text s = object_text (codes "operation", quoted s) []

abbrev method_entry : Bytes × Bytes
method_entry = (codes "method", quoted (codes "invoke.call"))

abbrev version_entry : Bytes × Bytes
version_entry = (codes "jsonrpc", quoted (codes "2.0"))

abbrev pub request : Bytes → Bytes
request s = object_text version_entry (method_entry ∷ (codes "params", params_text s) ∷ [])

escape-letters : (s : Bytes) → is_letters s ≡ true → escape_bytes s ≡ s
unfolding escape_bytes escape_byte
escape-letters [] h = refl
escape-letters (c ∷ s) h =
    let l : (leb b'a' c && leb c b'z') ≡ true = &&-left _ _ h in
    let q : (c == b'"') ≡ false = ground arith in
    let b : (c == b'\\') ≡ false = ground arith in
    let k : ltb c 0x20 ≡ false = ground arith in
    rw (q, b, k) (ap (◌∷◌ c) (escape-letters s (&&-right (leb b'a' c && leb c b'z') _ h)))

quoted-letters : (s : Bytes) → is_letters s ≡ true → quoted s ≡ b'"' ∷ (s ++ (b'"' ∷ []))
unfolding append_json_string
quoted-letters s h = rw (escape-letters s h)

NoNul-letters : (s : Bytes) → is_letters s ≡ true → NoNul s
NoNul-letters [] h = tt
NoNul-letters (c ∷ s) h =
    let l : (leb b'a' c && leb c b'z') ≡ true = &&-left _ _ h in
    (ground arith, NoNul-letters s (&&-right (leb b'a' c && leb c b'z') _ h))

request-letters :
    (s : Bytes)
    → is_letters s ≡ true
    → request s
      ≡ codes "{\"jsonrpc\":\"2.0\",\"method\":\"invoke.call\",\"params\":{\"operation\":\""
        ++ (s ++ codes "\"}}")
unfolding append_json_string escape_bytes escape_byte
request-letters s h =
    rw
      (
        escape-letters s h,
        append_assoc s (b'"' ∷ []) (b'}' ∷ []),
        append_assoc s (b'"' ∷ b'}' ∷ []) (b'}' ∷ []),
      )
      refl

length-request : (s : Bytes) → is_letters s ≡ true → length (request s) ≡ length s + 66
length-request s h =
    let head =
      codes "{\"jsonrpc\":\"2.0\",\"method\":\"invoke.call\",\"params\":{\"operation\":\"" in
    ap length (request-letters s h)
    ∙ omega (arith, length-append head (s ++ codes "\"}}"), length-append s (codes "\"}}"))

utf8_valid-request : (s : Bytes) → is_letters s ≡ true → utf8_valid (request s) ≡ true
utf8_valid-request s h =
    let head =
      codes "{\"jsonrpc\":\"2.0\",\"method\":\"invoke.call\",\"params\":{\"operation\":\"" in
    ap utf8_valid (request-letters s h)
    ∙ utf8_valid-append head (s ++ codes "\"}}") (utf8_valid-ascii head refl) (
        utf8_valid-append s (codes "\"}}") (utf8_valid-ascii s (ascii s h))
          (utf8_valid-ascii (codes "\"}}") refl))
  where
    ascii : (s : Bytes) → is_letters s ≡ true → is_ascii s ≡ true
    ascii [] h = refl
    ascii (c ∷ s) h =
        let l : (leb b'a' c && leb c b'z') ≡ true = &&-left _ _ h in
        let t : ltb c 0x80 ≡ true = ground arith in
        rw t (ascii s (&&-right (leb b'a' c && leb c b'z') _ h))

module _ (parse_float : Bytes → ParsedFloat) where
  params-entries :
      (room : ℕ) (s : Bytes)
      → NoNul s
      → AreEntries parse_float room [] ((codes "operation", quoted s) ∷ [])
  params-entries room s n =
      (NoNul-all (codes "operation") refl, refl, IsText-quoted parse_float room s n, tt)

  request-entries :
      (room : ℕ) (s : Bytes)
      → NoNul s
      → AreEntries parse_float
          (suc room)
          []
          (version_entry ∷ method_entry ∷ (codes "params", params_text s) ∷ [])
  request-entries room s n = (
    NoNul-all (codes "jsonrpc") refl,
    refl,
    IsText-quoted parse_float (suc room) (codes "2.0") (NoNul-all (codes "2.0") refl),
    (
      NoNul-all (codes "method") refl,
      refl,
      IsText-quoted parse_float (suc room) (codes "invoke.call")
          (NoNul-all (codes "invoke.call") refl),
      (
        NoNul-all (codes "params") refl,
        refl,
        IsText-object_text parse_float room (codes "operation", quoted s) []
            (params-entries room s n),
        tt,
      ),
    ),
  )

  strict-request :
      (s : Bytes) → is_letters s ≡ true → validate_strict parse_float (request s) ≡ true
  strict-request s h =
      validate_strict-IsText parse_float (request s)
        (IsText-object_text parse_float 63 version_entry
          (method_entry ∷ (codes "params", params_text s) ∷ [])
          (request-entries 62 s (NoNul-letters s h)))
        (utf8_valid-request s h) (omega (arith, length-request s h))

  members-request :
      (s : Bytes)
      → is_letters s ≡ true
      → object_members parse_float (request s)
        ≡ some (members_of version_entry (method_entry ∷ (codes "params", params_text s) ∷ []))
  members-request s h =
      object_members-object_text parse_float version_entry
        (method_entry ∷ (codes "params", params_text s) ∷ [])
        (request-entries 63 s (NoNul-letters s h))

  members-params :
      (s : Bytes)
      → is_letters s ≡ true
      → object_members parse_float (params_text s)
        ≡ some (members_of (codes "operation", quoted s) [])
  members-params s h =
      object_members-object_text parse_float (codes "operation", quoted s) []
        (params-entries 64 s (NoNul-letters s h))

-- The answer for an operation that has no handler.
abbrev pub not_found : Bytes → Bytes
not_found s = result_response null_id (
    failure_result (codes "failed") (codes "OPERATION_NOT_FOUND")
      (codes "operation " ++ s ++ codes " is not implemented by this plugin"))

escape_bytes-append : (a b : Bytes) → escape_bytes (a ++ b) ≡ escape_bytes a ++ escape_bytes b
unfolding escape_bytes
escape_bytes-append [] b = refl
escape_bytes-append (c ∷ a) b =
    ap (λ t. escape_byte c ++ t) (escape_bytes-append a b)
    ∙ sym (append_assoc (escape_byte c) (escape_bytes a) (escape_bytes b))

-- What stands before and behind the operation's name in that answer.
abbrev answer_head : Bytes
answer_head =
    codes
      "{\"jsonrpc\":\"2.0\",\"id\":null,\"result\":{\"status\":\"failed\",\"reason\":\"operation "

abbrev answer_tail : Bytes
answer_tail =
    codes
      " is not implemented by this plugin\",\"reasonCode\":\"OPERATION_NOT_FOUND\",\"reason_code\":\"OPERATION_NOT_FOUND\"}}"

not_found-letters :
    (s : Bytes) → is_letters s ≡ true → not_found s ≡ answer_head ++ (s ++ answer_tail)
unfolding result_response failure_result append_json_string escape_bytes escape_byte
not_found-letters s h =
    let rest = s ++ codes " is not implemented by this plugin" in
    let e : (length (codes "operation " ++ rest) == 0) ≡ false = ground arith in
    let f =
      escape_bytes-append s (codes " is not implemented by this plugin")
      ∙ ap (λ t. t ++ escape_bytes (codes " is not implemented by this plugin"))
          (escape-letters s h) in
    rw (e, f) (simp append_assoc)

length-not_found : (s : Bytes) → is_letters s ≡ true → length (not_found s) ≡ length s + 183
length-not_found s h =
    ap length (not_found-letters s h)
    ∙ omega (arith, length-append answer_head (s ++ answer_tail), length-append s answer_tail)

module _ {W R : Type 0} (parse_float : Bytes → ParsedFloat) (marshal : R → Option Bytes)
    (p : Plugin W R) where
  operation-request :
      (w : W) (s : Bytes)
      → 0 < length s
      → handler_for parse_float marshal p s ≡ none
      → with_operation parse_float marshal p w null_id
          (members_of (codes "operation", quoted s) [])
          (some s)
        ≡ (w, not_found s)
  unfolding with_operation call_handler member_by_key
  operation-request w s l f = let n : (length s == 0) ≡ false = ground arith in rw (n, f)

  params-request :
      (w : W) (s : Bytes)
      → is_letters s ≡ true
      → 0 < length s
      → handler_for parse_float marshal p s ≡ none
      → with_params parse_float marshal p w null_id
          (some (members_of (codes "operation", quoted s) []))
        ≡ (w, not_found s)
  unfolding with_params member_by_key
  params-request w s h l f =
      let params = members_of (codes "operation", quoted s) [] in
      ap (with_operation parse_float marshal p w null_id params)
        (decode_json_string-append_json_string s (NoNul-letters s h))
      ∙ operation-request w s l f

  abbrev members : Bytes → List Member
  members s = members_of version_entry (method_entry ∷ (codes "params", params_text s) ∷ [])

  method-request :
      (w : W) (s : Bytes)
      → is_letters s ≡ true
      → 0 < length s
      → handler_for parse_float marshal p s ≡ none
      → with_method parse_float marshal p w null_id (members s) (some (codes "invoke.call"))
        ≡ (w, not_found s)
  unfolding with_method member_by_key
  method-request w s h l f =
      ap (with_params parse_float marshal p w null_id) (members-params parse_float s h)
      ∙ params-request w s h l f

  id-request :
      (w : W) (s : Bytes)
      → is_letters s ≡ true
      → 0 < length s
      → handler_for parse_float marshal p s ≡ none
      → with_members parse_float marshal p w (some (members s)) ≡ (w, not_found s)
  unfolding with_members with_id id_of member_by_key append_json_string
  id-request w s h l f =
      ap (with_method parse_float marshal p w null_id (members s)) (
        decode_json_string-append_json_string (codes "invoke.call")
          (NoNul-all (codes "invoke.call") refl))
      ∙ method-request w s h l f

  respond-request :
      (w : W) (s : Bytes)
      → is_letters s ≡ true
      → 0 < length s
      → handler_for parse_float marshal p s ≡ none
      → respond parse_float marshal p w (request s) ≡ (w, not_found s)
  unfolding respond
  respond-request w s h l f = rw (strict-request parse_float s h) (
      ap (with_members parse_float marshal p w) (members-request parse_float s h)
      ∙ id-request w s h l f)

  -- A request within the frame's bound may be answered beyond it: for every operation that has no
  -- handler and whose name is of 1048394 to 1048510 lower-case letters, the request is a frame of at
  -- most 2^20 bytes, and the answer is longer than that.
  pub respond-oversized :
      (w : W) (s : Bytes)
      → is_letters s ≡ true
      → 1048394 ≤ length s
      → length s ≤ 1048510
      → handler_for parse_float marshal p s ≡ none
      → (length (request s) ≤ max_control_frame_bytes)
        × (max_control_frame_bytes < length (respond parse_float marshal p w (request s)).1)
  respond-oversized w s h low high f =
      let answer =
        ap (λ (r : W × Bytes). length r.1) (respond-request w s h (omega arith) f)
        ∙ length-not_found s h in
      (omega (arith, length-request s h), omega (arith, answer))
