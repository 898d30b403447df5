-- ===== src/Plugin/Serve.antt =====
-- The loop of `serve` in pkg/aiiosdk/serve.go: it reads a frame, answers it and writes the answer,
-- until the input ends. A handler may itself use both streams, so it acts on all of the process.
-- The loop runs on fuel, one for each frame and one for the end.
pub mod Answers
use aii_plugin_sdk.Prelude.{
  List, Option, Result, err, if◌then◌else◌, length, none, not, ok, some, suc, zero, ℕ, ◌==◌,
}
use aii_plugin_sdk.Prelude.Bytes.{Bytes, codes}
use aii_plugin_sdk.Json.Number.{ParsedFloat}
use aii_plugin_sdk.Json.Scanner.{validate_strict}
use aii_plugin_sdk.Json.Members.{Member, object_members}
use aii_plugin_sdk.Wire.Io.{IoError, Reader, eof}
use aii_plugin_sdk.Wire.Frame.{
  FrameError, max_control_frame_bytes, read_frame, transport, write_frame,
}
use aii_plugin_sdk.Plugin.Responses.{code_internal, error_response, null_id}
use aii_plugin_sdk.Plugin.Dispatch.{Plugin, id_of, respond}

-- What the plugin's handlers keep, and the two streams.
pub record Process (V S : Type 0) : Type 0 where
  pub world : V
  pub input : Reader
  pub output : S

pub data ServeError : Type 0 where
  read_failed write_failed : FrameError → ServeError
  out_of_fuel : ServeError

-- The id of a request's members, as far as there is one.
abbrev id_or_null : Option (List Member) → Bytes
id_or_null none = null_id
id_or_null (some members) = elim (id_of members) [ none ↦ null_id | some id_raw ↦ id_raw ]

-- `bestEffortID`.
unfoldable pub best_effort_id : (Bytes → ParsedFloat) → Bytes → Bytes
unfolding validate_strict object_members id_of
best_effort_id parse_float frame =
    let found = id_or_null (object_members parse_float frame) in
    if not (validate_strict parse_float frame) then null_id else found

-- The reply that is written: one of the loop's own where there is none.
unfoldable pub reply_or : (Bytes → ParsedFloat) → Bytes → Bytes → Bytes
unfolding best_effort_id error_response
reply_or parse_float frame reply =
    if length reply == 0
    then error_response (best_effort_id parse_float frame) code_internal
        (codes "no plugin registered: call aiiosdk Run from a package init function")
        (codes "PLUGIN_NOT_REGISTERED")
    else reply

module _ {V S R : Type 0} (parse_float : Bytes → ParsedFloat) (marshal : R → Option Bytes)
    (p : Plugin (Process V S) R) (write : S → Bytes → S × Option IoError) where
  -- The writing of a reply, and the rounds after it.
  written :
      (Process V S → Process V S × Option ServeError)
      → Process V S
      → S × Option FrameError
      → Process V S × Option ServeError
  written rest s (out, some e) = (record s { output = out }, some (write_failed e))
  written rest s (out, none) = rest (record s { output = out })

  -- One round, with those after it.
  serve_round :
      (Process V S → Process V S × Option ServeError)
      → Process V S
      → Result FrameError (Bytes × Reader)
      → Process V S × Option ServeError
  unfolding written respond reply_or write_frame
  serve_round rest s (err (transport eof)) = (s, none)
  serve_round rest s (err e) = (s, some (read_failed e))
  serve_round rest s (ok (frame, input)) =
      let (s', reply) = respond parse_float marshal p (record s { input = input }) frame in
      written rest s'
        (write_frame write s'.output (reply_or parse_float frame reply) max_control_frame_bytes)

  -- `serve`, from the loop on.
  unfoldable pub serve : ℕ → Process V S → Process V S × Option ServeError
  unfolding serve_round read_frame
  serve zero s = (s, some out_of_fuel)
  serve (suc f) s = serve_round (serve f) s (read_frame s.input max_control_frame_bytes)
