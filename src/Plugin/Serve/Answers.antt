-- ===== src/Plugin/Serve/Answers.antt =====
-- A stream of requests is answered to its end.
use aii_plugin_sdk.Plugin.Dispatch.Replies.{respond-HasReply}
use aii_plugin_sdk.Prelude.{
  List, Option, [], ap, append-nil, append_assoc, arith, err, false, length, none, ok, refl, suc,
  sym, zero, ℕ, ◌++◌, ◌<◌, ◌==◌, ◌∙◌, ◌∷◌, ◌≡◌, ◌≢◌, ◌≤◌,
}
use aii_plugin_sdk.Prelude.Bytes.{Bytes}
use aii_plugin_sdk.Json.Number.{ParsedFloat}
use aii_plugin_sdk.Wire.Io.{append_write, eof, read_full}
use aii_plugin_sdk.Wire.Frame.{max_control_frame_bytes, read_frame, transport, write_frame}
use aii_plugin_sdk.Wire.Frame.RoundTrip.{frame_bytes, read_frame-frame_bytes, write_frame-append}
use aii_plugin_sdk.Plugin.Dispatch.{Plugin, respond}
use aii_plugin_sdk.Plugin.Dispatch.Lifted.{lift, respond-lift}
use aii_plugin_sdk.Plugin.Serve.{Process, ServeError, reply_or, serve, serve_round, written}

-- Frames one after the other.
abbrev pub stream : List Bytes → Bytes
stream [] = []
stream (payload ∷ rest) = frame_bytes payload ++ stream rest

abbrev pub AreWithin : List Bytes → Type 0
AreWithin [] = Unit
AreWithin (payload ∷ rest) = (length payload ≤ max_control_frame_bytes) × AreWithin rest

-- A process with what is left of its input, which then ends, and what it has written.
abbrev pub process : {V : Type 0} → V → Bytes → Bytes → Process V Bytes
process v input output = record {
  world = v;
  input = record { bytes = input; ending = eof };
  output = output;
}

-- The part of a process that its handlers act on, if they leave the streams alone.
abbrev pub with_world : {V : Type 0} → Process V Bytes → V → Process V Bytes
with_world s v = record s { world = v }

abbrev pub on_world : {V R : Type 0} → Plugin V R → Plugin (Process V Bytes) R
on_world p = lift (λ s. s.world) with_world p

not_zero : (c : ℕ) (b : Bytes) → (length (c ∷ b) == 0) ≡ false
not_zero c b = ground arith

there_not_empty : (b : Bytes) → 0 < length b → b ≢ []
there_not_empty [] h e = absurd (omega arith)
there_not_empty (c ∷ b) h e = absurd (cc)

read_frame-end :
    read_frame (record { bytes = []; ending = eof }) max_control_frame_bytes ≡ err (transport eof)
unfolding read_frame read_full
read_frame-end = refl

module _ {V R : Type 0} (parse_float : Bytes → ParsedFloat) (marshal : R → Option Bytes)
    (p : Plugin V R) where
  -- What `respond` makes of one request after the other.
  abbrev pub respond_all : V → List Bytes → V × List Bytes
  respond_all v [] = (v, [])
  respond_all v (frame ∷ frames) =
      let (v', reply) = respond parse_float marshal p v frame in
      let (v'', replies) = respond_all v' frames in (v'', reply ∷ replies)

  reply_or-there :
      (frame reply : Bytes) → 0 < length reply → reply_or parse_float frame reply ≡ reply
  unfolding reply_or
  reply_or-there frame [] h = absurd (omega arith)
  reply_or-there frame (c ∷ reply) h = rw (not_zero c reply) refl

  serve_round-answer :
      (rest : Process V Bytes → Process V Bytes × Option ServeError) (v : V)
      (frame input left out : Bytes)
      → length (respond parse_float marshal p v frame).1 ≤ max_control_frame_bytes
      → serve_round parse_float marshal
          (on_world p)
          append_write
          rest
          (process v input out)
          (ok (frame, record { bytes = left; ending = eof }))
        ≡ (let r = respond parse_float marshal p v frame in
            rest (process r.0 left (out ++ frame_bytes r.1)))
  unfolding serve_round written
  serve_round-answer rest v frame input left out m =
      let s = process v left out in
      let r = respond parse_float marshal p v frame in
      let (world, same) =
        respond-lift (λ (s : Process V Bytes). s.world) with_world (λ s. refl) parse_float marshal p
          s frame in
      let there = respond-HasReply parse_float marshal p v frame in
      let sent : write_frame append_write out (reply_or parse_float frame r.1)
            max_control_frame_bytes
          ≡ (out ++ frame_bytes r.1, none) =
        ap (λ b. write_frame append_write out b max_control_frame_bytes)
          (reply_or-there frame r.1 there)
        ∙ write_frame-append out r.1 max_control_frame_bytes (there_not_empty r.1 there) m in
      let after : Process V Bytes → Bytes → Process V Bytes × Option ServeError = λ s' reply.
        written parse_float marshal (on_world p) append_write rest s' (
          write_frame append_write s'.output (reply_or parse_float frame reply)
            max_control_frame_bytes) in
      ap (λ s'. after s' (respond parse_float marshal (on_world p) s frame).1) world
      ∙ ap (after (with_world s r.0)) same
      ∙ ap (written parse_float marshal (on_world p) append_write rest (with_world s r.0)) sent

  -- Every request is answered: for handlers that leave the streams alone, a stream of requests that
  -- each fit a frame, and a writer that takes everything, if every answer fits a frame then `serve`
  -- writes the answers in the requests' order, one for each, and ends without an error at the end
  -- of the input; fuel for one round more than there are requests is enough.
  pub serve-answers :
      (v : V) (frames : List Bytes) (out : Bytes) (f : ℕ)
      → length frames < f
      → AreWithin frames
      → AreWithin (respond_all v frames).1
      → serve parse_float marshal (on_world p) append_write f (process v (stream frames) out)
        ≡ (process (respond_all v frames).0 [] (out ++ stream (respond_all v frames).1), none)
  unfolding serve
  serve-answers v frames out zero h w a = absurd (omega arith)
  serve-answers v [] out (suc f) h w a =
      ap
        (serve_round parse_float marshal (on_world p) append_write
          (serve parse_float marshal (on_world p) append_write f) (process v [] out))
        read_frame-end
      ∙ ap (λ o. (process v [] o, none)) (sym (append-nil out))
  serve-answers v (frame ∷ frames) out (suc f) h (l, w) (m, a) =
      let (v', reply) = respond parse_float marshal p v frame in
      let sent = out ++ frame_bytes reply in
      ap
        (serve_round parse_float marshal (on_world p) append_write
          (serve parse_float marshal (on_world p) append_write f)
          (process v (stream (frame ∷ frames)) out))
        (read_frame-frame_bytes frame (stream frames) eof max_control_frame_bytes (omega arith) l
          (omega arith))
      ∙ serve_round-answer (serve parse_float marshal (on_world p) append_write f) v frame
          (stream (frame ∷ frames)) (stream frames) out m
      ∙ serve-answers v' frames sent f (omega arith) w a
      ∙ ap (λ o. (process (respond_all v' frames).0 [] o, none))
          (append_assoc out (frame_bytes reply) (stream (respond_all v' frames).1))
