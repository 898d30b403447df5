-- ===== src/Pkg/Canon/Tests.antt =====
-- The theorems on canonical JSON at two spellings of one document, over a decoder that knows them.
use aii_plugin_sdk.Prelude.Results.{err, ok}
use mathlib.Core.Path.{refl}
use aii_plugin_sdk.Prelude.{
  Bool, List, [], arith, false, if◌then◌else◌, inl, length, not, ◌↔◌, ◌∷◌, ◌≡◌, ◌≢◌,
}
use aii_plugin_sdk.Prelude.Bytes.{Bytes, codes, equal}
use aii_plugin_sdk.Prelude.Keyed.{sort_entries}
use aii_plugin_sdk.Pkg.Canon.Numbers.{canonical_number_ok}
use aii_plugin_sdk.Pkg.Canon.Numbers.Unique.{canonical_number_ok_unique}
use aii_plugin_sdk.Json.Text.Utf8.{utf8_valid}
use aii_plugin_sdk.Pkg.Canon.Escapes.{validate_unicode_escapes}
use aii_plugin_sdk.Pkg.Canon.Values.{
  Canon, array, canon_number, emit_runes, emit_value, field_then, no_fields, no_values, null,
  object, text, value_then,
}
use aii_plugin_sdk.Pkg.Canon.Values.Same.{Reordered}
use aii_plugin_sdk.Pkg.Canon.Values.Reorder.{sorted}
use aii_plugin_sdk.Pkg.Canon.Parse.{
  Answer, Decoder, Token, canonicalize_v1, end_of_input, out_of_fuel, parse_value, token_read,
}
use aii_plugin_sdk.Pkg.Canon.Parse.Accepted.{IsAccepted}
use aii_plugin_sdk.Pkg.Canon.Parse.Fuel.{Shrinks, canonicalize_v1-total}
use aii_plugin_sdk.Pkg.Canon.Parse.Reads.{Reads, closes, tokens}
use aii_plugin_sdk.Pkg.Canon.Parse.Document.{
  ReadsAs, canonicalize_v1-IsAccepted, canonicalize_v1-emit_value, canonicalize_v1_iff,
}

canonical_number_ok_unique_example : codes "-0.5" ≡ codes "-0.5"
canonical_number_ok_unique_example =
    canonical_number_ok_unique (codes "-0.5") (codes "-0.5") (unfold canonical_number_ok in refl)
      (unfold canonical_number_ok in refl) (refl, inl refl)

abbrev spelled : Bytes
spelled = codes "{\"b\": [1.5, null], \"a\": \"x\\u000a\"}"

abbrev written : Bytes
written = codes "{\"a\":\"x\\n\",\"b\":[1.5,null]}"

abbrev listed : Canon
listed = array (value_then (canon_number (codes "1.5")) (value_then null no_values))

abbrev as_spelled : Canon
as_spelled =
    object
      (field_then (codes "b") listed (field_then (codes "a") (text (b'x' ∷ b'\n' ∷ [])) no_fields))

abbrev as_written : Canon
as_written =
    object
      (field_then (codes "a") (text (b'x' ∷ b'\n' ∷ [])) (field_then (codes "b") listed no_fields))

abbrev at_tokens : List Token → Answer × List Token
at_tokens [] = (end_of_input, [])
at_tokens (t ∷ ts) = (token_read t, ts)

abbrev any_more : List Token → Bool
any_more [] = false
any_more (t ∷ ts) = not (closes t)

-- The tokens of the two documents.
abbrev known : Decoder (List Token)
known = record {
  new_decoder = λ b.
      if equal b spelled
      then tokens as_spelled
      else if equal b written
      then tokens as_written
      else [];
  token = at_tokens;
  more = any_more;
}

known-Shrinks : Shrinks known length
known-Shrinks [] t e = absurd (cc)
known-Shrinks (u ∷ ts) t e = omega arith

spelled-ReadsAs : ReadsAs known spelled as_spelled
unfolding validate_unicode_escapes tokens utf8_valid
spelled-ReadsAs = record {
  valid_text = refl;
  valid_escapes = refl;
  behind = [];
  reads = (
    refl,
    refl,
    (
      refl,
      refl,
      (
        refl,
        refl,
        (refl, refl, (refl, refl, (refl, refl, (refl, refl, (refl, refl, (refl, refl, refl)))))),
      ),
    ),
  );
  ended = refl;
  fits = omega arith;
}

written-ReadsAs : ReadsAs known written as_written
unfolding validate_unicode_escapes tokens utf8_valid
written-ReadsAs = record {
  valid_text = refl;
  valid_escapes = refl;
  behind = [];
  reads = (
    refl,
    refl,
    (
      refl,
      refl,
      (
        refl,
        refl,
        (refl, refl, (refl, refl, (refl, refl, (refl, refl, (refl, refl, (refl, refl, refl)))))),
      ),
    ),
  );
  ended = refl;
  fits = omega arith;
}

as_spelled-IsAccepted : IsAccepted as_spelled
unfolding IsAccepted canonical_number_ok
as_spelled-IsAccepted = (refl, (refl, (tt, tt)), (refl, refl, tt))

as_written-IsAccepted : IsAccepted as_written
unfolding IsAccepted canonical_number_ok
as_written-IsAccepted = (refl, refl, (refl, (refl, (tt, tt)), tt))

canonicalize_v1_iff_example :
    (canonicalize_v1 known spelled ≡ canonicalize_v1 known written)
    ↔ Reordered as_spelled as_written
canonicalize_v1_iff_example =
    canonicalize_v1_iff known spelled written as_spelled as_written as_spelled-IsAccepted
      as_written-IsAccepted spelled-ReadsAs written-ReadsAs

canonicalize_v1-total_example : canonicalize_v1 known spelled ≢ err out_of_fuel
canonicalize_v1-total_example =
    canonicalize_v1-total known length known-Shrinks spelled (unfold tokens in omega arith)

spelled_result : canonicalize_v1 known spelled ≡ ok written
unfolding canonicalize_v1 tokens parse_value emit_value sort_entries canonical_number_ok emit_runes
    validate_unicode_escapes
spelled_result = refl

canonicalize_v1-IsAccepted_example : (v : Canon) × IsAccepted v × (written ≡ emit_value v)
canonicalize_v1-IsAccepted_example = canonicalize_v1-IsAccepted known spelled written spelled_result

sorted-Reads :
    Reads known (known.new_decoder (emit_value as_spelled)) (tokens (sorted as_spelled)) []
unfolding sorted tokens emit_value sort_entries
sorted-Reads = (
  refl,
  refl,
  (
    refl,
    refl,
    (
      refl,
      refl,
      (refl, refl, (refl, refl, (refl, refl, (refl, refl, (refl, refl, (refl, refl, refl)))))),
    ),
  ),
)

canonicalize_v1-emit_value_example :
    canonicalize_v1 known (emit_value as_spelled) ≡ ok (emit_value as_spelled)
canonicalize_v1-emit_value_example =
    canonicalize_v1-emit_value known as_spelled [] as_spelled-IsAccepted
      (unfold emit_value sort_entries utf8_valid in refl) sorted-Reads refl
      (unfold sorted emit_value tokens in omega arith)
