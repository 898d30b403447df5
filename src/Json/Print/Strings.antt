-- ===== src/Json/Print/Strings.antt =====
-- A string that is written is read back.
use aii_plugin_sdk.Json.Members.{decode_json_string}
use aii_plugin_sdk.Json.Text.Utf8.{append_rune-ascii}
use aii_plugin_sdk.Prelude.{
  &&-left, &&-right, [], all, ap, append-nil, append_assoc, arith, false, if_cases, length,
  length-append, ltb, none, refl, some, suc, sym, true, zero, ℕ, ◌%◌, ◌++◌, ◌/◌, ◌<◌, ◌==◌, ◌∙◌,
  ◌∷◌, ◌≡◌, ◌≤◌,
}
use aii_plugin_sdk.Prelude.Bytes.{Bytes}
use aii_plugin_sdk.Json.Loop.{done, fail, loop, loop_dry, loop_turn, more, scan}
use aii_plugin_sdk.Json.Text.{
  code_unit, escape, hex4, hex_digit, letter_escape, string_, string_turn,
}
use aii_plugin_sdk.Json.Print.{append_json_string, escape_byte, escape_bytes, hex_char}

hex_digit-hex_char : (n : ℕ) → n < 16 → hex_digit (hex_char n) ≡ some n
unfolding hex_digit hex_char
hex_digit-hex_char n h = ground arith

hex4-control :
    (c : ℕ) (rest : Bytes)
    → c < 32
    → hex4 (b'0' ∷ b'0' ∷ hex_char (c / 16) ∷ hex_char (c % 16) ∷ rest) ≡ some c
unfolding hex4
hex4-control c rest h =
    rw (hex_digit-hex_char (c / 16) (omega arith), hex_digit-hex_char (c % 16) (omega arith))
      (ap some (omega arith))

escape-control :
    (c : ℕ) (rest : Bytes)
    → 0 < c
    → c < 32
    → escape (b'\\' ∷ b'u' ∷ b'0' ∷ b'0' ∷ hex_char (c / 16) ∷ hex_char (c % 16) ∷ rest)
      ≡ some (c, rest)
unfolding escape code_unit
escape-control c rest p h = rw (hex4-control c rest h) (ground arith)

escape_step :
    (c e : ℕ) (out rest : Bytes)
    → c < 0x80
    → letter_escape e ≡ some c
    → string_turn out (b'\\' ∷ e ∷ rest) ≡ more (out ++ (c ∷ [])) rest
unfolding string_turn
escape_step c e out rest h l = rw (l, append_rune-ascii c h)

-- A byte that stands for itself.
plain_step :
    (c : ℕ) (out rest : Bytes)
    → (c == b'"') ≡ false
    → (c == b'\\') ≡ false
    → ltb c 0x20 ≡ false
    → string_turn out (c ∷ rest) ≡ more (out ++ (c ∷ [])) rest
unfolding string_turn
plain_step c out rest e f g = rw (e, f, g)

control_step :
    (c : ℕ) (out rest : Bytes)
    → 0 < c
    → c < 32
    → string_turn out (b'\\' ∷ b'u' ∷ b'0' ∷ b'0' ∷ hex_char (c / 16) ∷ hex_char (c % 16) ∷ rest)
      ≡ more (out ++ (c ∷ [])) rest
unfolding string_turn
control_step c out rest h k = rw (escape-control c rest h k, append_rune-ascii c (omega arith))

-- One turn reads back one byte, unless it is NUL.
string_turn-escape_byte :
    (c : ℕ) (out rest : Bytes)
    → 0 < c
    → string_turn out (escape_byte c ++ rest) ≡ more (out ++ (c ∷ [])) rest
unfolding escape_byte letter_escape
string_turn-escape_byte c out rest h =
    let P = λ (bs : Bytes). string_turn out (bs ++ rest) ≡ more (out ++ (c ∷ [])) rest in
    if_cases P (c == b'"') (λ e. escape_step c b'"' out rest (ground arith) (ground arith))
      (λ q.
        if_cases P (c == b'\\') (λ e. escape_step c b'\\' out rest (ground arith) (ground arith))
          (λ s.
            if_cases P (ltb c 0x20)
              (λ k.
                if_cases P (c == b'\n')
                  (λ e. escape_step c b'n' out rest (ground arith) (ground arith))
                  (λ _.
                    if_cases P (c == b'\r')
                      (λ e. escape_step c b'r' out rest (ground arith) (ground arith))
                      (λ _.
                        if_cases P (c == b'\t')
                          (λ e. escape_step c b't' out rest (ground arith) (ground arith))
                          (λ _. control_step c out rest h (ground arith)))))
              (λ k. plain_step c out rest q s k)))

-- No byte of the string is NUL.
abbrev pub NoNul : Bytes → Type 0
NoNul [] = Unit
NoNul (c ∷ s) = (0 < c) × NoNul s

pub NoNul-all : (s : Bytes) → all (λ c. ltb 0 c) s ≡ true → NoNul s
NoNul-all [] h = tt
NoNul-all (c ∷ s) h =
    let t : ltb 0 c ≡ true = &&-left _ _ h in (ground arith, NoNul-all s (&&-right (ltb 0 c) _ h))

loop-escape_bytes :
    (s out rest : Bytes) (f : ℕ)
    → NoNul s
    → length s < f
    → loop string_turn f out (escape_bytes s ++ (b'"' ∷ rest)) ≡ some (out ++ s, rest)
unfolding escape_bytes
loop-escape_bytes s out rest zero h k = absurd (omega arith)
loop-escape_bytes [] out rest (suc f) h k =
    loop_turn string_turn f out (b'"' ∷ rest) (done (out, rest)) (unfold string_turn in refl)
    ∙ ap (λ o. some (o, rest)) (sym (append-nil out))
loop-escape_bytes (c ∷ s) out rest (suc f) h k =
    let behind = escape_bytes s ++ (b'"' ∷ rest) in
    ap (loop string_turn (suc f) out) (append_assoc (escape_byte c) (escape_bytes s) (b'"' ∷ rest))
    ∙ loop_turn string_turn f out (escape_byte c ++ behind) (more (out ++ (c ∷ [])) behind)
        (string_turn-escape_byte c out behind h.0)
    ∙ loop-escape_bytes s (out ++ (c ∷ [])) rest f h.1 (omega arith)
    ∙ ap (λ o. some (o, rest)) (append_assoc out (c ∷ []) s)

length-escape_byte : (c : ℕ) → 1 ≤ length (escape_byte c)
unfolding escape_byte
length-escape_byte c = ground arith

pub length-escape_bytes : (s : Bytes) → length s ≤ length (escape_bytes s)
unfolding escape_bytes
length-escape_bytes [] = omega arith
length-escape_bytes (c ∷ s) = omega (
  arith,
  length-escape_byte c,
  length-escape_bytes s,
  length-append (escape_byte c) (escape_bytes s),
)

pub string_-append_json_string :
    (s rest : Bytes) → NoNul s → string_ (append_json_string [] s ++ rest) ≡ some (s, rest)
unfolding string_ append_json_string scan
string_-append_json_string s rest h =
    let written = escape_bytes s ++ (b'"' ∷ rest) in
    ap (scan string_turn []) (append_assoc (escape_bytes s) (b'"' ∷ []) rest)
    ∙ loop-escape_bytes s [] rest (suc (length written)) h
        (omega (arith, length-escape_bytes s, length-append (escape_bytes s) (b'"' ∷ rest)))

-- Every string without a NUL byte that `appendJSONString` writes, `decodeJSONString` reads back
-- byte for byte.
pub decode_json_string-append_json_string :
    (s : Bytes) → NoNul s → decode_json_string (append_json_string [] s) ≡ some s
unfolding decode_json_string
decode_json_string-append_json_string s h =
    rw (rw append-nil at (string_-append_json_string s [] h)) refl

string_turn-nul : (out rest : Bytes) → string_turn out (escape_byte 0 ++ rest) ≡ fail
unfolding string_turn escape_byte hex4 hex_digit code_unit
string_turn-nul out rest = refl

loop-escape_bytes_nul :
    (s t out rest : Bytes) (f : ℕ)
    → NoNul s
    → loop string_turn f out (escape_bytes (s ++ (0 ∷ t)) ++ rest) ≡ none
unfolding escape_bytes
loop-escape_bytes_nul s t out rest zero h = loop_dry string_turn out _
loop-escape_bytes_nul [] t out rest (suc f) h =
    ap (loop string_turn (suc f) out) (append_assoc (escape_byte 0) (escape_bytes t) rest)
    ∙ loop_turn string_turn f out (escape_byte 0 ++ (escape_bytes t ++ rest)) fail
        (string_turn-nul out (escape_bytes t ++ rest))
loop-escape_bytes_nul (c ∷ s) t out rest (suc f) h =
    let behind = escape_bytes (s ++ (0 ∷ t)) ++ rest in
    ap (loop string_turn (suc f) out)
      (append_assoc (escape_byte c) (escape_bytes (s ++ (0 ∷ t))) rest)
    ∙ loop_turn string_turn f out (escape_byte c ++ behind) (more (out ++ (c ∷ [])) behind)
        (string_turn-escape_byte c out behind h.0)
    ∙ loop-escape_bytes_nul s t (out ++ (c ∷ [])) rest f h.1

-- Every string with a NUL byte is written by `appendJSONString` in a way that the strict scanner
-- refuses: `decodeJSONString` reads nothing back.
pub decode_json_string-append_json_string_nul :
    (s t : Bytes) → NoNul s → decode_json_string (append_json_string [] (s ++ (0 ∷ t))) ≡ none
unfolding decode_json_string append_json_string string_ scan
decode_json_string-append_json_string_nul s t h =
    let text = escape_bytes (s ++ (0 ∷ t)) ++ (b'"' ∷ []) in
    rw (loop-escape_bytes_nul s t [] (b'"' ∷ []) (suc (length text)) h) refl
