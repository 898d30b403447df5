-- ===== src/Session/Frames.antt =====
-- The answers to controls as they are written, in pkg/aiiosdk/session.go. `json.Marshal` of a text
-- is a parameter.
use aii_plugin_sdk.Prelude.{if◌then◌else◌, length, ◌++◌, ◌==◌}
use aii_plugin_sdk.Prelude.Bytes.{Bytes, codes}

-- A control without an id is answered with null.
abbrev id_or_null : Bytes → Bytes
id_or_null id_raw = if length id_raw == 0 then codes "null" else id_raw

-- `sessionResultFrame`.
pub session_result_frame : Bytes → Bytes → Bytes
session_result_frame id_raw result =
    codes "{\"jsonrpc\":\"2.0\",\"id\":"
    ++ (id_or_null id_raw ++ (codes ",\"result\":" ++ (result ++ codes "}")))

-- `sessionErrorFrame`.
pub session_error_frame : (Bytes → Bytes) → Bytes → Bytes → Bytes
session_error_frame marshal id_raw message =
    codes "{\"jsonrpc\":\"2.0\",\"id\":"
    ++ (id_or_null id_raw
        ++ (codes ",\"error\":{\"code\":-32000,\"message\":" ++ (marshal message ++ codes "}}")))
