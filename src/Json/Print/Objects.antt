-- ===== src/Json/Print/Objects.antt =====
-- Objects that are written member by member are scanned and taken apart again.
use aii_plugin_sdk.Json.Text.Utf8.{utf8_valid}
use aii_plugin_sdk.Json.Loop.{done, loop, loop_turn, more, scan}
use aii_plugin_sdk.Prelude.{
  Bool, List, Option, [], ap, append-nil, append_assoc, arith, false, length, length-append, none,
  refl, some, suc, true, zero, ℕ, ◌++◌, ◌<◌, ◌==◌, ◌||◌, ◌∙◌, ◌∷◌, ◌≡◌,
}
use aii_plugin_sdk.Prelude.Bytes.{Bytes}
use aii_plugin_sdk.Json.Text.{ws}
use aii_plugin_sdk.Json.Number.{ParsedFloat}
use aii_plugin_sdk.Json.Scanner.{
  colon, empty_at, ends, max_scan_depth, member_key, member_value, nested, object, object_turn,
  one_value, seen_key, separated, then_separated, validate_strict, value, value_in, without_text,
}
use aii_plugin_sdk.Json.Print.{append_json_string}
use aii_plugin_sdk.Json.Print.Strings.{NoNul, string_-append_json_string}

abbrev pub quoted : Bytes → Bytes
quoted s = append_json_string [] s

-- What may follow a value.
abbrev pub boundary : Bytes → Bool
boundary [] = true
boundary (c ∷ _) = c == b',' || c == b'}' || c == b']'

-- A member as it is written, and an object of one member and others.
abbrev pub entry_text : Bytes × Bytes → Bytes
entry_text (key, raw) = quoted key ++ (b':' ∷ raw)

abbrev pub entries_text : Bytes × Bytes → List (Bytes × Bytes) → Bytes
entries_text e [] = entry_text e
entries_text e (e' ∷ es) = entry_text e ++ (b',' ∷ entries_text e' es)

abbrev pub object_text : Bytes × Bytes → List (Bytes × Bytes) → Bytes
object_text e es = b'{' ∷ (entries_text e es ++ (b'}' ∷ []))

pub entry_text-append :
    (key raw rest : Bytes) → entry_text (key, raw) ++ rest ≡ quoted key ++ (b':' ∷ (raw ++ rest))
entry_text-append key raw rest = append_assoc (quoted key) (b':' ∷ raw) rest

pub ws-quoted : (s rest : Bytes) → ws (quoted s ++ rest) ≡ quoted s ++ rest
unfolding ws append_json_string
ws-quoted s rest = refl

module _ (parse_float : Bytes → ParsedFloat) where
  -- Bytes that the scanner reads as one value, whatever may follow them.
  pub record IsText (room : ℕ) (raw : Bytes) : Type 0 where
    pub starts : (rest : Bytes) → ws (raw ++ rest) ≡ raw ++ rest
    pub scans :
        (rest : Bytes) → boundary rest ≡ true → value parse_float room (raw ++ rest) ≡ some rest

  -- Members with keys that are new and values that are read.
  abbrev pub AreEntries : ℕ → List Bytes → List (Bytes × Bytes) → Type 0
  AreEntries room seen [] = Unit
  AreEntries room seen ((key, raw) ∷ es) =
      NoNul key × (seen_key seen key ≡ false) × IsText room raw × AreEntries room (key ∷ seen) es

  object_turn-entry :
      (room : ℕ) (seen : List Bytes) (key raw rest : Bytes)
      → NoNul key
      → seen_key seen key ≡ false
      → IsText room raw
      → boundary rest ≡ true
      → object_turn (value parse_float room) seen (entry_text (key, raw) ++ rest)
        ≡ separated b'}' (λ r. r) (key ∷ seen) (ws rest)
  unfolding object_turn member_key member_value then_separated colon ws
  object_turn-entry room seen key raw rest n new t b =
      let read = string_-append_json_string key (b':' ∷ (raw ++ rest)) n in
      rw (
        entry_text-append key raw rest,
        ws-quoted key (b':' ∷ (raw ++ rest)),
        read,
        new,
        t.starts rest,
        t.scans rest b,
      )

  loop-entries :
      (room f : ℕ) (seen : List Bytes) (e : Bytes × Bytes) (es : List (Bytes × Bytes))
      (rest : Bytes)
      → AreEntries room seen (e ∷ es)
      → length es < f
      → loop (object_turn (value parse_float room)) f seen (entries_text e es ++ (b'}' ∷ rest))
        ≡ some rest
  unfolding separated ws
  loop-entries room zero seen e es rest a h = absurd (omega arith)
  loop-entries room (suc f) seen (key, raw) [] rest (n, new, t, a) h =
      loop_turn (object_turn (value parse_float room)) f seen
        (entry_text (key, raw) ++ (b'}' ∷ rest)) (done rest)
        (object_turn-entry room seen key raw (b'}' ∷ rest) n new t refl)
  loop-entries room (suc f) seen (key, raw) (e' ∷ es) rest (n, new, t, a) h =
      let turn = object_turn (value parse_float room) in
      let behind = entries_text e' es ++ (b'}' ∷ rest) in
      ap (loop turn (suc f) seen)
        (append_assoc (entry_text (key, raw)) (b',' ∷ entries_text e' es) (b'}' ∷ rest))
      ∙ loop_turn turn f seen (entry_text (key, raw) ++ (b',' ∷ behind)) (more (key ∷ seen) behind)
          (object_turn-entry room seen key raw (b',' ∷ behind) n new t refl)
      ∙ loop-entries room f (key ∷ seen) e' es rest a (omega arith)

-- What is written begins with a quote.
pub entries_text-head :
    (e : Bytes × Bytes) (es : List (Bytes × Bytes)) (rest : Bytes)
    → (tail : Bytes) × (entries_text e es ++ rest ≡ b'"' ∷ tail)
unfolding append_json_string
entries_text-head (key, raw) [] rest = (_, refl)
entries_text-head (key, raw) (e' ∷ es) rest = (_, refl)

pub length-entries_text :
    (e : Bytes × Bytes) (es : List (Bytes × Bytes)) → length es < length (entries_text e es)
unfolding append_json_string
length-entries_text (key, raw) [] = omega arith
length-entries_text (key, raw) (e' ∷ es) = omega (
  arith,
  length-append (entry_text (key, raw)) (b',' ∷ entries_text e' es),
  length-entries_text e' es,
)

module _ (parse_float : Bytes → ParsedFloat) where
  object-entries :
      (room : ℕ) (e : Bytes × Bytes) (es : List (Bytes × Bytes)) (rest : Bytes)
      → AreEntries parse_float room [] (e ∷ es)
      → object (value parse_float room) (entries_text e es ++ (b'}' ∷ rest)) ≡ some rest
  unfolding object empty_at scan ws
  object-entries room e es rest a =
      let (tail, head) = entries_text-head e es (b'}' ∷ rest) in
      let body = entries_text e es ++ (b'}' ∷ rest) in
      rw head (
        rw head at (
          loop-entries parse_float room (suc (length body)) [] e es rest a (
            omega
              (arith, length-entries_text e es, length-append (entries_text e es) (b'}' ∷ rest)))))

  pub IsText-object_text :
      (room : ℕ) (e : Bytes × Bytes) (es : List (Bytes × Bytes))
      → AreEntries parse_float room [] (e ∷ es)
      → IsText parse_float (suc room) (object_text e es)
  unfolding value value_in nested ws
  IsText-object_text room e es a = record {
    starts = λ rest. refl;
    scans = λ rest b.
        ap (object (value parse_float room)) (append_assoc (entries_text e es) (b'}' ∷ []) rest)
        ∙ object-entries room e es rest a;
  }

  quoted-value_in :
      (inner : Option (Bytes → Option Bytes)) (s rest : Bytes)
      → NoNul s
      → value_in parse_float inner (quoted s ++ rest) ≡ some rest
  unfolding value_in without_text append_json_string
  quoted-value_in inner s rest n = ap without_text (string_-append_json_string s rest n)

  pub IsText-quoted : (room : ℕ) (s : Bytes) → NoNul s → IsText parse_float room (quoted s)
  unfolding value
  IsText-quoted zero s n = record {
    starts = ws-quoted s;
    scans = λ rest b. quoted-value_in none s rest n;
  }
  IsText-quoted (suc room) s n = record {
    starts = ws-quoted s;
    scans = λ rest b. quoted-value_in (some (value parse_float room)) s rest n;
  }

  -- A value that is written alone is strict JSON.
  pub validate_strict-IsText :
      (raw : Bytes)
      → IsText parse_float max_scan_depth raw
      → utf8_valid raw ≡ true
      → 0 < length raw
      → validate_strict parse_float raw ≡ true
  unfolding validate_strict one_value ends ws
  validate_strict-IsText raw t u l =
      let n : (length raw == 0) ≡ false = ground arith in
      let w : ws raw ≡ raw = rw append-nil at (t.starts []) in
      let v : value parse_float max_scan_depth raw ≡ some [] = rw append-nil at (t.scans [] refl) in
      rw (n, u, w, v)
