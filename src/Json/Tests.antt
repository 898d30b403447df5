-- ===== src/Json/Tests.antt =====
-- The theorems on JSON at concrete payloads.
use mathlib.Core.Path.{refl}
use aii_plugin_sdk.Prelude.{
  List, [], arith, false, none, replicate, some, true, ◌++◌, ◌-◌, ◌^◌, ◌∷◌, ◌≡◌,
}
use aii_plugin_sdk.Prelude.Bytes.{Bytes, codes}
use aii_plugin_sdk.Json.Loop.{Run, loop, scan}
use aii_plugin_sdk.Json.Number.{ParsedFloat, no_error, split_number}
use aii_plugin_sdk.Json.Number.Exponent.{least_exponent, rounds-least, rounds_of}
use aii_plugin_sdk.Json.Text.{ws}
use aii_plugin_sdk.Json.Scanner.{array_turn, object_turn, validate_strict, value}
use aii_plugin_sdk.Json.Scanner.Takes.{scan_fuel_enough}
use aii_plugin_sdk.Json.Scanner.Depth.{validate_strict-too_deep}
use aii_plugin_sdk.Json.Members.{Member, decode_json_string, object_members}
use aii_plugin_sdk.Json.Members.Agree.{HasDistinct, object_members-validate_strict}
use aii_plugin_sdk.Json.Print.{append_json_string}
use aii_plugin_sdk.Json.Print.Strings.{
  decode_json_string-append_json_string, decode_json_string-append_json_string_nul,
}

-- A parser of floats that finds every token finite.
abbrev finite : Bytes → ParsedFloat
finite _ = record { unbounded = false; error = no_error }

abbrev inside : Bytes
inside = codes "\"a\":true , \"b\":[null]}"

abbrev payload : Bytes
payload = b'{' ∷ inside

accepted : validate_strict finite payload ≡ true
unfolding validate_strict
accepted = refl

object_members-validate_strict_example :
    (ms : List Member) × (object_members finite payload ≡ some ms) × HasDistinct ms
object_members-validate_strict_example =
    object_members-validate_strict finite payload inside (unfold ws in refl) accepted

decode_json_string-append_json_string_example :
    decode_json_string (append_json_string [] (codes "a\"\\b")) ≡ some (codes "a\"\\b")
decode_json_string-append_json_string_example =
    decode_json_string-append_json_string (codes "a\"\\b")
      (omega arith, (omega arith, (omega arith, (omega arith, tt))))

decode_json_string-append_json_string_nul_example :
    decode_json_string (append_json_string [] (codes "a" ++ (0 ∷ codes "b"))) ≡ none
decode_json_string-append_json_string_nul_example =
    decode_json_string-append_json_string_nul (codes "a") (codes "b") (omega arith, tt)

rounds-least_example : rounds_of (split_number (b'1' ∷ b'.' ∷ b'5' ∷ least_exponent)) ≡ 2 ^ 63 - 1
rounds-least_example =
    rounds-least b'1' b'5' (omega arith) (omega arith) (omega arith) (omega arith)

validate_strict-too_deep_example :
    validate_strict finite (replicate 65 b'[' ++ replicate 65 b']') ≡ false
validate_strict-too_deep_example = validate_strict-too_deep finite (replicate 65 b']')

scan_fuel_enough_example :
    Run (object_turn (value finite 2)) [] inside (scan (object_turn (value finite 2)) [] inside)
    × Run (array_turn (value finite 2)) tt inside (scan (array_turn (value finite 2)) tt inside)
    × (loop (object_turn (value finite 2)) 99 [] inside
        ≡ scan (object_turn (value finite 2)) [] inside)
    × (loop (array_turn (value finite 2)) 99 tt inside
        ≡ scan (array_turn (value finite 2)) tt inside)
scan_fuel_enough_example = scan_fuel_enough finite 2 99 [] inside (omega arith)
