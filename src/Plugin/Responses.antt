-- ===== src/Plugin/Responses.antt =====
-- The frames that pkg/aiiosdk/plugin.go answers with. The source's `out` begins empty in each.
use aii_plugin_sdk.Prelude.{
  [], false, if◌then◌else◌, length, ltb, suc, true, zero, ℕ, ◌%◌, ◌++◌, ◌+◌, ◌/◌, ◌==◌, ◌∷◌,
}
use aii_plugin_sdk.Prelude.Bytes.{Bytes, codes}
use aii_plugin_sdk.Prelude.Int.{negsuc, pos, ℤ}
use aii_plugin_sdk.Json.Print.{append_json_string}

-- The decimal digits of a number, given as much fuel as it has digits.
abbrev pub decimal_digits : ℕ → ℕ → Bytes
decimal_digits zero n = []
decimal_digits (suc f) n = elim (ltb n 10) [
  | true ↦ (b'0' + n) ∷ []
  | false ↦ decimal_digits f (n / 10) ++ ((b'0' + n % 10) ∷ [])
]

-- `appendInt`, with `strconv.Itoa` of an `int`, which has at most 19 digits.
unfoldable pub append_int : Bytes → ℤ → Bytes
append_int out (pos n) = out ++ decimal_digits 20 n
append_int out (negsuc n) = out ++ (b'-' ∷ decimal_digits 20 (suc n))

abbrev pub code_parse : ℤ
code_parse = negsuc 32699

abbrev pub code_invalid : ℤ
code_invalid = negsuc 32599

abbrev pub code_method : ℤ
code_method = negsuc 32600

abbrev pub code_params : ℤ
code_params = negsuc 32601

abbrev pub code_internal : ℤ
code_internal = negsuc 32602

abbrev pub null_id : Bytes
null_id = codes "null"

-- What stands between the id and the rest.
abbrev before_id : Bytes
before_id = codes "{\"jsonrpc\":\"2.0\",\"id\":"

reason_data : Bytes → Bytes → Bytes
reason_data out reason_code =
    if length reason_code == 0
    then out
    else append_json_string (out ++ codes ",\"data\":{\"reasonCode\":") reason_code ++ codes "}"

-- `errorResponse`.
unfoldable pub error_response : Bytes → ℤ → Bytes → Bytes → Bytes
unfolding append_int reason_data append_json_string
error_response id_raw code message reason_code =
    let head = append_int (before_id ++ id_raw ++ codes ",\"error\":{\"code\":") code in
    let told = append_json_string (head ++ codes ",\"message\":") message in
    reason_data told reason_code ++ codes "}}"

-- `resultResponse`.
unfoldable pub result_response : Bytes → Bytes → Bytes
result_response id_raw result = before_id ++ id_raw ++ codes ",\"result\":" ++ result ++ codes "}"

-- `successResult`.
unfoldable pub success_result : Bytes → Bytes
success_result operation_result =
    codes "{\"status\":\"succeeded\",\"operation_result\":" ++ operation_result ++ codes "}"

unfoldable pub reason_codes : Bytes → Bytes → Bytes
reason_codes out reason_code =
    if length reason_code == 0
    then out
    else append_json_string
        (append_json_string (out ++ codes ",\"reasonCode\":") reason_code
          ++ codes ",\"reason_code\":")
        reason_code

-- `failureResult`.
unfoldable pub failure_result : Bytes → Bytes → Bytes → Bytes
unfolding reason_codes append_json_string
failure_result status reason_code reason =
    let said = if length reason == 0 then reason_code else reason in
    let head = append_json_string (codes "{\"status\":") status in
    reason_codes (append_json_string (head ++ codes ",\"reason\":") said) reason_code ++ codes "}"
