-- ===== src/Plugin/Reply/Results.antt =====
-- The results that a plugin writes, as their reader sees them.
use aii_plugin_sdk.Json.Members.{member_by_key}
use aii_plugin_sdk.Json.Text.Utf8.Parts.{utf8_valid-ascii}
use mathlib.Core.Path.{refl}
use aii_plugin_sdk.Prelude.{
  List, [], arith, false, length, none, some, suc, true, ℕ, ◌++◌, ◌==◌, ◌∙◌, ◌∷◌, ◌≡◌,
}
use aii_plugin_sdk.Prelude.Bytes.{Bytes, codes}
use aii_plugin_sdk.Json.Number.{ParsedFloat}
use aii_plugin_sdk.Json.Text.Utf8.{utf8_valid}
use aii_plugin_sdk.Json.Scanner.Depth.{value-more_room}
use aii_plugin_sdk.Json.Members.Printed.{members_of, object_members-object_text}
use aii_plugin_sdk.Json.Print.{append_json_string, escape_byte, escape_bytes}
use aii_plugin_sdk.Json.Print.Strings.{NoNul-all, decode_json_string-append_json_string}
use aii_plugin_sdk.Json.Print.Objects.{
  AreEntries, IsText, IsText-object_text, IsText-quoted, entries_text, object_text, quoted,
  validate_strict-IsText,
}
use aii_plugin_sdk.Json.Print.Valid.{AreValid, utf8_valid-object_text, utf8_valid-quoted}
use aii_plugin_sdk.Plugin.Responses.{success_result}
use aii_plugin_sdk.Plugin.Reply.{
  checked_outcome, decode_host_reply, outcome, reason_code_at, reply_of,
}

abbrev pub status_entry : Bytes → Bytes × Bytes
status_entry status = (codes "status", quoted status)

pub not_empty : (c : ℕ) (b : Bytes) → (length (c ∷ b) == 0) ≡ false
not_empty c b = ground arith

abbrev success_entry : Bytes × Bytes
success_entry = status_entry (codes "succeeded")

success_result-object_text :
    (payload : Bytes)
    → success_result payload ≡ object_text success_entry ((codes "operation_result", payload) ∷ [])
unfolding success_result append_json_string escape_bytes escape_byte
success_result-object_text payload = refl

module _ (parse_float : Bytes → ParsedFloat) where
  -- An object that is written of entries is decoded as its members.
  pub decode_host_reply-object_text :
      (e : Bytes × Bytes) (es : List (Bytes × Bytes))
      → AreEntries parse_float 63 [] (e ∷ es)
      → AreEntries parse_float 64 [] (e ∷ es)
      → AreValid (e ∷ es)
      → decode_host_reply parse_float (object_text e es)
        ≡ reply_of parse_float (object_text e es) (some (members_of e es))
  unfolding decode_host_reply
  decode_host_reply-object_text e es a b v =
      let strict =
        validate_strict-IsText parse_float (object_text e es)
          (IsText-object_text parse_float 63 e es a) (utf8_valid-object_text e es v)
          (omega arith) in
      let n = not_empty b'{' (entries_text e es ++ (b'}' ∷ [])) in
      rw (strict, object_members-object_text parse_float e es b, n) refl

  IsText-more_room :
      (room : ℕ) (raw : Bytes) → IsText parse_float room raw → IsText parse_float (suc room) raw
  IsText-more_room room raw t = record {
    starts = t.starts;
    scans = λ rest b. value-more_room parse_float room (raw ++ rest) (t.scans rest b);
  }

  pub AreEntries-more_room :
      (room : ℕ) (seen : List Bytes) (es : List (Bytes × Bytes))
      → AreEntries parse_float room seen es
      → AreEntries parse_float (suc room) seen es
  AreEntries-more_room room seen [] a = tt
  AreEntries-more_room room seen ((key, raw) ∷ es) (n, new, t, a) =
      (n, new, IsText-more_room room raw t, AreEntries-more_room room (key ∷ seen) es a)

  success-entries :
      (payload : Bytes)
      → IsText parse_float 63 payload
      → AreEntries parse_float 63 [] (success_entry ∷ (codes "operation_result", payload) ∷ [])
  success-entries payload t =
      let q =
        IsText-quoted parse_float 63 (codes "succeeded") (NoNul-all (codes "succeeded") refl) in
      (
        NoNul-all (codes "status") refl,
        refl,
        q,
        (NoNul-all (codes "operation_result") refl, refl, t, tt),
      )

  success-decoded :
      (payload text : Bytes)
      → reply_of parse_float text
          (some (members_of success_entry ((codes "operation_result", payload) ∷ [])))
        ≡ (
          some (record {
            raw = text;
            status = codes "succeeded";
            operation_result = some payload;
            external_receipt = none;
            reason = [];
            reason_code = [];
          }),
          none,
        )
  unfolding reply_of checked_outcome outcome member_by_key reason_code_at
  success-decoded payload text =
      rw
        (decode_json_string-append_json_string (codes "succeeded")
          (NoNul-all (codes "succeeded") refl))
        refl

  -- The payload of an operation that succeeded reaches its reader byte for byte: of every payload
  -- that the scanner reads as one value at the depth of a member, in valid UTF-8.
  pub decode_host_reply-success_result :
      (payload : Bytes)
      → IsText parse_float 63 payload
      → utf8_valid payload ≡ true
      → decode_host_reply parse_float (success_result payload) ≡ (
        some (record {
          raw = success_result payload;
          status = codes "succeeded";
          operation_result = some payload;
          external_receipt = none;
          reason = [];
          reason_code = [];
        }),
        none,
      )
  decode_host_reply-success_result payload t v =
      let a = success-entries payload t in
      rw (success_result-object_text payload) (
        decode_host_reply-object_text success_entry ((codes "operation_result", payload) ∷ []) a
          (AreEntries-more_room 63 [] (success_entry ∷ (codes "operation_result", payload) ∷ []) a)
          (
            utf8_valid-ascii (codes "status") refl,
            utf8_valid-quoted (codes "succeeded") (utf8_valid-ascii (codes "succeeded") refl),
            (utf8_valid-ascii (codes "operation_result") refl, v, tt),
          )
        ∙ success-decoded payload
            (object_text success_entry ((codes "operation_result", payload) ∷ [])))
