-- ===== src/Plugin/Tests.antt =====
-- The dispatch of requests on concrete ones.
use mathlib.Core.Path.{refl}
use aii_plugin_sdk.Prelude.{
  List, Option, [], all, ap, arith, false, if◌then◌else◌, length, ltb, none, ok, replicate, some,
  suc, sym, true, zero, ℕ, ◌<◌, ◌∙◌, ◌∷◌, ◌≡◌, ◌≢◌, ◌≤◌,
}
use aii_plugin_sdk.Prelude.Bytes.{Bytes, codes, equal, equal_iff}
use aii_plugin_sdk.Json.Number.{ParsedFloat, no_error}
use aii_plugin_sdk.Wire.Frame.{max_control_frame_bytes}
use aii_plugin_sdk.Plugin.Dispatch.{Handler, Plugin, handler_for, respond, value_of}
use aii_plugin_sdk.Plugin.Reply.{decode_host_reply, operation_failed}
use aii_plugin_sdk.Plugin.Reply.Results.{decode_host_reply-success_result}
use aii_plugin_sdk.Plugin.Reply.Failures.{IsPlain, decode_host_reply-failure_result}
use aii_plugin_sdk.Plugin.Responses.{failure_result, success_result}
use aii_plugin_sdk.Json.Text.Utf8.Parts.{is_ascii, utf8_valid-ascii}
use aii_plugin_sdk.Json.Print.Strings.{NoNul-all}
use aii_plugin_sdk.Json.Print.Objects.{IsText-quoted, quoted}
use aii_plugin_sdk.Json.Print.Valid.{utf8_valid-quoted}
use aii_plugin_sdk.Plugin.Serve.{serve}
use aii_plugin_sdk.Plugin.Serve.Answers.{
  AreWithin, on_world, process, respond_all, serve-answers, stream,
}
use aii_plugin_sdk.Wire.Io.{append_write}
use aii_plugin_sdk.Plugin.SendWindow.{
  SendVerdict, Store, admit, record_send, window_of, window_settings,
}
use aii_plugin_sdk.Plugin.SendWindow.Counts.{count}
use aii_plugin_sdk.Plugin.SendWindow.Clock.{in_window}
use aii_plugin_sdk.Plugin.SendWindow.Bound.{Sends, Sends-bounded, sends, starts}
use aii_plugin_sdk.Prelude.Int.{pos, ℤ}
use aii_plugin_sdk.Plugin.Marshal.{
  Floats, Value, field_then, int, marshal_value, no_fields, null, object_value,
}
use aii_plugin_sdk.Plugin.Marshal.Order.{marshal_value-SameValue, same_object, swapped}
use aii_plugin_sdk.Plugin.Dispatch.Safety.{IsRequest, respond-IsRequest}
use aii_plugin_sdk.Plugin.Dispatch.Oversized.{is_letters, request, respond-oversized}

abbrev no_floats : Bytes → ParsedFloat
no_floats b = record { unbounded = false; error = no_error }

-- A plugin that counts the calls of its one operation; every result is written as null.
abbrev counting : Handler ℕ ℕ
counting n call = (suc n, value_of n)

abbrev null_text : ℕ → Option Bytes
null_text r = some (codes "null")

abbrev counter : Plugin ℕ ℕ
counter = record {
  handlers = λ operation. if equal operation (codes "count") then some counting else none;
  dynamic = none;
}

abbrev count_request : Bytes
count_request =
    codes
      "{\"jsonrpc\":\"2.0\",\"id\":\"7\",\"method\":\"invoke.call\",\"params\":{\"operation\":\"count\"}}"

count_answer : respond no_floats null_text counter 4 count_request ≡ (
  5,
  codes
      "{\"jsonrpc\":\"2.0\",\"id\":\"7\",\"result\":{\"status\":\"succeeded\",\"operation_result\":null}}",
)
unfolding respond
count_answer = refl

different : {n : ℕ} → suc n ≢ n
different {n} e = absurd (omega arith)

count-changes : (respond no_floats null_text counter 4 count_request).0 ≢ 4
count-changes e = different (sym (ap (λ (r : ℕ × Bytes). r.0) count_answer) ∙ e)

respond-IsRequest_example :
    IsRequest no_floats null_text counter 4
      (respond no_floats null_text counter 4 count_request).0
      count_request
      (respond no_floats null_text counter 4 count_request).1
respond-IsRequest_example =
    respond-IsRequest no_floats null_text counter 4 count_request count-changes

-- A name of many letters.
unfoldable many : ℕ → Bytes
many n = replicate n b'a'

letters-many : (n : ℕ) → is_letters (many n) ≡ true
unfolding many
letters-many zero = refl
letters-many (suc n) = letters-many n

length-many : (n : ℕ) → length (many n) ≡ n
unfolding many
length-many zero = refl
length-many (suc n) = ap suc (length-many n)

not_counted : (n : ℕ) → equal (many n) (codes "count") ≡ false
unfolding many
not_counted zero = refl
not_counted (suc n) = refl

no_handler : (n : ℕ) → handler_for no_floats null_text counter (many n) ≡ none
unfolding handler_for
no_handler n = rw (not_counted n, handler_for) refl

respond-oversized_example :
    (length (request (many 1048400)) ≤ max_control_frame_bytes)
    × (max_control_frame_bytes
        < length (respond no_floats null_text counter 0 (request (many 1048400))).1)
respond-oversized_example =
    respond-oversized no_floats null_text counter 0 (many 1048400) (letters-many 1048400)
      (omega (arith, length-many 1048400)) (omega (arith, length-many 1048400)) (no_handler 1048400)

unequal : (s t : Bytes) → equal s t ≡ false → s ≢ t
unequal s t h e = absurd (let f = (equal_iff s t).1 e in cc)

plain : (s : Bytes) → is_ascii s ≡ true → all (λ c. ltb 0 c) s ≡ true → IsPlain s
plain s a n = record { no_nul = NoNul-all s n; valid = utf8_valid-ascii s a }

decode_host_reply-failure_result_example :
    decode_host_reply no_floats (failure_result (codes "denied") (codes "NO_\"GRANT") []) ≡ (
      some (record {
        raw = failure_result (codes "denied") (codes "NO_\"GRANT") [];
        status = codes "denied";
        operation_result = none;
        external_receipt = none;
        reason = codes "NO_\"GRANT";
        reason_code = codes "NO_\"GRANT";
      }),
      some (operation_failed (codes "denied") (codes "NO_\"GRANT") (codes "NO_\"GRANT")),
    )
decode_host_reply-failure_result_example =
    decode_host_reply-failure_result no_floats (codes "denied") (codes "NO_\"GRANT") []
      (plain (codes "denied") refl refl) (plain (codes "NO_\"GRANT") refl refl) (plain [] refl refl)
      (unequal (codes "denied") [] refl) (unequal (codes "denied") (codes "succeeded") refl)

decode_host_reply-success_result_example :
    decode_host_reply no_floats (success_result (quoted (codes "done"))) ≡ (
      some (record {
        raw = success_result (quoted (codes "done"));
        status = codes "succeeded";
        operation_result = some (quoted (codes "done"));
        external_receipt = none;
        reason = [];
        reason_code = [];
      }),
      none,
    )
decode_host_reply-success_result_example =
    decode_host_reply-success_result no_floats (quoted (codes "done"))
      (IsText-quoted no_floats 63 (codes "done") (NoNul-all (codes "done") refl))
      (utf8_valid-quoted (codes "done") (utf8_valid-ascii (codes "done") refl))

-- Two requests: the second has no method.
abbrev requests : List Bytes
requests = count_request ∷ codes "{}" ∷ []

replies-AreWithin : AreWithin (respond_all no_floats null_text counter 4 requests).1
unfolding respond
replies-AreWithin = (omega arith, (omega arith, tt))

serve-answers_example :
    serve no_floats null_text (on_world counter) append_write 3 (process 4 (stream requests) []) ≡ (
      process
          (respond_all no_floats null_text counter 4 requests).0
          []
          (stream (respond_all no_floats null_text counter 4 requests).1),
      none,
    )
serve-answers_example =
    serve-answers no_floats null_text counter 4 requests [] 3 (omega arith)
      (omega arith, (omega arith, tt)) replies-AreWithin

-- A store that keeps one list of times, and two sends within a minute, of at most two.
abbrev one_list : Store (Option Bytes)
one_list = record { get = λ s. ok s; put = λ s raw. (some raw, true) }

abbrev two_a_minute : Option (Option ℤ × Option ℤ)
two_a_minute = some (some (pos 2), some (pos 1))

abbrev admitted : ℕ → SendVerdict
admitted n = record { allowed = true; sent = n; limit = 2; window_minutes = 1; retry_at = none }

two-Sends :
    Sends one_list some
      (λ ts. ts)
      two_a_minute
      2
      1
      (record_send one_list some
        (λ ts. ts)
        (record_send one_list some (λ ts. ts) none (some 100) (admitted 0)).0
        (some 30000)
        (admitted 1)).0
      (30000 ∷ 100 ∷ [])
      30000
unfolding admit record_send
two-Sends = sends 30000 (sends 100 (starts refl) (omega arith) refl refl) (omega arith) refl refl

two_settings : window_settings two_a_minute ≡ ok (2, 1)
unfolding window_settings
two_settings = refl

Sends-bounded_example : count (in_window 30000 (window_of 1)) (30000 ∷ 100 ∷ []) ≤ 2
Sends-bounded_example =
    Sends-bounded one_list some (λ ts. ts) two_a_minute 2 1 two_settings (λ ts. refl)
      (λ s raw. refl) two-Sends 30000

-- Floats that cannot be written, and one map in the two orders of its fields.
abbrev bare_floats : Floats ℕ
bare_floats = record {
  is_unbounded = λ f. true;
  is_whole = λ f. true;
  is_beyond = λ f. true;
  wants_exponent = λ f. false;
  format = λ f format. [];
}

abbrev b_then_a : Value ℕ
b_then_a =
    object_value (field_then (codes "b") (int (pos 1)) (field_then (codes "a") null no_fields))

abbrev a_then_b : Value ℕ
a_then_b =
    object_value (field_then (codes "a") null (field_then (codes "b") (int (pos 1)) no_fields))

marshal_value-sorted : marshal_value bare_floats b_then_a ≡ ok (codes "{\"a\":null,\"b\":1}")
unfolding marshal_value
marshal_value-sorted = refl

marshal_value-SameValue_example :
    marshal_value bare_floats b_then_a ≡ marshal_value bare_floats a_then_b
marshal_value-SameValue_example =
    marshal_value-SameValue bare_floats
      (same_object (swapped (unequal (codes "b") (codes "a") refl)))
