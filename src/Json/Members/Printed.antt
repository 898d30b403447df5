-- ===== src/Json/Members/Printed.antt =====
-- An object that is written member by member is taken apart into those members.
use mathlib.Core.Path.{refl}
use aii_plugin_sdk.Prelude.{
  List, [], ap, append_assoc, arith, length, length-append, map, some, suc, true, zero, ℕ, ◌++◌,
  ◌<◌, ◌∙◌, ◌∷◌, ◌≡◌,
}
use aii_plugin_sdk.Prelude.Bytes.{Bytes}
use aii_plugin_sdk.Prelude.Suffix.{consumed-append}
use aii_plugin_sdk.Json.Loop.{done, loop, loop_turn, more, scan}
use aii_plugin_sdk.Json.Text.{ws}
use aii_plugin_sdk.Json.Number.{ParsedFloat}
use aii_plugin_sdk.Json.Scanner.{colon, empty_at, max_scan_depth, separated, then_separated}
use aii_plugin_sdk.Json.Members.{
  Member, members_in, members_turn, object_members, opened, top_value, with_key, with_value,
}
use aii_plugin_sdk.Json.Print.Strings.{NoNul, string_-append_json_string}
use aii_plugin_sdk.Json.Print.Objects.{
  AreEntries, IsText, boundary, entries_text, entries_text-head, entry_text, entry_text-append,
  length-entries_text, object_text, ws-quoted,
}

abbrev as_member : Bytes × Bytes → Member
as_member (key, raw) = record { key = key; raw = raw }

-- The members that were written.
abbrev pub members_of : Bytes × Bytes → List (Bytes × Bytes) → List Member
members_of e es = map as_member (e ∷ es)

module _ (parse_float : Bytes → ParsedFloat) where
  members_turn-entry :
      (out : List Member) (key raw rest : Bytes)
      → NoNul key
      → IsText parse_float max_scan_depth raw
      → boundary rest ≡ true
      → members_turn parse_float out (entry_text (key, raw) ++ rest) ≡ (
          let out' = out ++ (as_member (key, raw) ∷ []) in
          separated b'}' (λ _. out') out' (ws rest))
  unfolding members_turn with_key with_value top_value then_separated colon ws
  members_turn-entry out key raw rest n t b =
      let read = string_-append_json_string key (b':' ∷ (raw ++ rest)) n in
      rw (
        entry_text-append key raw rest,
        ws-quoted key (b':' ∷ (raw ++ rest)),
        read,
        t.starts rest,
        t.scans rest b,
        consumed-append raw rest,
      )

  loop-members :
      (f : ℕ) (out : List Member) (seen : List Bytes) (e : Bytes × Bytes)
      (es : List (Bytes × Bytes)) (rest : Bytes)
      → AreEntries parse_float max_scan_depth seen (e ∷ es)
      → length es < f
      → loop (members_turn parse_float) f out (entries_text e es ++ (b'}' ∷ rest))
        ≡ some (out ++ members_of e es)
  unfolding separated ws
  loop-members zero out seen e es rest a h = absurd (omega arith)
  loop-members (suc f) out seen (key, raw) [] rest (n, new, t, a) h =
      loop_turn (members_turn parse_float) f out (entry_text (key, raw) ++ (b'}' ∷ rest))
        (done (out ++ (as_member (key, raw) ∷ [])))
        (members_turn-entry out key raw (b'}' ∷ rest) n t refl)
  loop-members (suc f) out seen (key, raw) (e' ∷ es) rest (n, new, t, a) h =
      let turn = members_turn parse_float in
      let behind = entries_text e' es ++ (b'}' ∷ rest) in
      let out' = out ++ (as_member (key, raw) ∷ []) in
      ap (loop turn (suc f) out)
        (append_assoc (entry_text (key, raw)) (b',' ∷ entries_text e' es) (b'}' ∷ rest))
      ∙ loop_turn turn f out (entry_text (key, raw) ++ (b',' ∷ behind)) (more out' behind)
          (members_turn-entry out key raw (b',' ∷ behind) n t refl)
      ∙ loop-members f out' (key ∷ seen) e' es rest a (omega arith)
      ∙ ap some (append_assoc out (as_member (key, raw) ∷ []) (members_of e' es))

  -- An object whose members were written with new keys and readable values is taken apart into them,
  -- in that order.
  pub object_members-object_text :
      (e : Bytes × Bytes) (es : List (Bytes × Bytes))
      → AreEntries parse_float max_scan_depth [] (e ∷ es)
      → object_members parse_float (object_text e es) ≡ some (members_of e es)
  unfolding object_members opened members_in empty_at scan ws
  object_members-object_text e es a =
      let (tail, head) = entries_text-head e es (b'}' ∷ []) in
      let body = entries_text e es ++ (b'}' ∷ []) in
      rw head (
        rw head at (
          loop-members (suc (length body)) [] [] e es [] a (
            omega
              (arith, length-entries_text e es, length-append (entries_text e es) (b'}' ∷ [])))))
