-- ===== src/Pkg/Canon/Values/Strings.antt =====
-- A string is read back from its text.
use aii_plugin_sdk.Pkg.Canon.Values.{emit_rune, emit_runes, emit_string}
use aii_plugin_sdk.Prelude.{
  ==_iff, [], ap, append_assoc, arith, drop, false, if_cases, if◌then◌else◌, leb, ltb, not, refl,
  sym, true, ℕ, ◌%◌, ◌*◌, ◌++◌, ◌+◌, ◌-◌, ◌/◌, ◌<◌, ◌==◌, ◌∙◌, ◌∷◌, ◌≡◌, ◌≢◌,
}
use aii_plugin_sdk.Prelude.Bytes.{Bytes}
use aii_plugin_sdk.Json.Print.{hex_char}

nibble : ℕ → ℕ
nibble d = if leb d b'9' then d - b'0' else 10 + (d - b'a')

hex_char-nibble : (n : ℕ) → n < 16 → nibble (hex_char n) ≡ n
unfolding hex_char nibble
hex_char-nibble n h = ground arith

-- What a letter behind a backslash stands for.
letter : ℕ → ℕ
letter k =
    if k == b'b'
    then 8
    else if k == b'f'
    then 12
    else if k == b'n'
    then b'\n'
    else if k == b'r'
    then b'\r'
    else if k == b't'
    then b'\t'
    else k

low_byte : Bytes → ℕ
unfolding nibble
low_byte (p ∷ q ∷ h ∷ l ∷ _) = nibble h * 16 + nibble l
low_byte _ = 0

-- The first rune of a text, and what is behind it.
first_rune : Bytes → ℕ × Bytes
unfolding low_byte letter
first_rune [] = (0, [])
first_rune (c ∷ []) = (c, [])
first_rune (c ∷ k ∷ rest) =
    if not (c == b'\\')
    then (c, k ∷ rest)
    else if k == b'u'
    then (low_byte rest, drop 4 rest)
    else (letter k, rest)

control_rune :
    (c : ℕ) (x : Bytes)
    → c < 0x20
    → first_rune (b'\\' ∷ b'u' ∷ b'0' ∷ b'0' ∷ hex_char (c / 16) ∷ hex_char (c % 16) ∷ x) ≡ (c, x)
unfolding first_rune low_byte
control_rune c x h =
    let e : c / 16 * 16 + c % 16 ≡ c = omega arith in
    rw (hex_char-nibble (c / 16) (omega arith), hex_char-nibble (c % 16) (omega arith), e) refl

plain_rune : (c : ℕ) (x : Bytes) → (c == b'\\') ≡ false → first_rune (c ∷ x) ≡ (c, x)
unfolding first_rune
plain_rune c [] h = refl
plain_rune c (k ∷ x) h = rw h refl

-- A short escape, by its letter.
letter_rune :
    (c k : ℕ) (x : Bytes) → (k == b'u') ≡ false → letter k ≡ c → first_rune (b'\\' ∷ k ∷ x) ≡ (c, x)
unfolding first_rune
letter_rune c k x h e = rw (h, e) refl

first_rune-emit_rune : (c : ℕ) (x : Bytes) → first_rune (emit_rune c ++ x) ≡ (c, x)
unfolding emit_rune letter
first_rune-emit_rune c x =
    let P = λ (t : Bytes). first_rune (t ++ x) ≡ (c, x) in
    let by_letter = λ (k d : ℕ) (u : (k == b'u') ≡ false) (l : letter k ≡ d) (e : (c == d) ≡ true).
      letter_rune c k x u (l ∙ sym ((==_iff c d).0 e)) in
    if_cases P (c == b'"') (λ e. by_letter b'"' b'"' refl refl e)
      (λ _.
        if_cases P (c == b'\\') (λ e. by_letter b'\\' b'\\' refl refl e)
          (λ s.
            if_cases P (c == 8) (λ e. by_letter b'b' 8 refl refl e)
              (λ _.
                if_cases P (c == 12) (λ e. by_letter b'f' 12 refl refl e)
                  (λ _.
                    if_cases P (c == b'\n') (λ e. by_letter b'n' b'\n' refl refl e)
                      (λ _.
                        if_cases P (c == b'\r') (λ e. by_letter b'r' b'\r' refl refl e)
                          (λ _.
                            if_cases P (c == b'\t') (λ e. by_letter b't' b'\t' refl refl e)
                              (λ _.
                                if_cases P (ltb c 0x20) (λ h. control_rune c x (ground arith))
                                  (λ _. plain_rune c x s))))))))

emit_rune-unquoted : (c : ℕ) (x y : Bytes) → emit_rune c ++ x ≢ b'"' ∷ y
unfolding emit_rune
emit_rune-unquoted c x y e = ground arith

runes_same :
    (s t r q : Bytes) → emit_runes s ++ (b'"' ∷ r) ≡ emit_runes t ++ (b'"' ∷ q) → (s ≡ t) × (r ≡ q)
unfolding emit_runes
runes_same [] [] r q e = (refl, cc)
runes_same [] (d ∷ t) r q e = absurd (
    emit_rune-unquoted d (emit_runes t ++ (b'"' ∷ q)) r
      (sym (e ∙ append_assoc (emit_rune d) (emit_runes t) (b'"' ∷ q))))
runes_same (c ∷ s) [] r q e = absurd (
    emit_rune-unquoted c (emit_runes s ++ (b'"' ∷ r)) q
      (sym (append_assoc (emit_rune c) (emit_runes s) (b'"' ∷ r)) ∙ e))
runes_same (c ∷ s) (d ∷ t) r q e =
    let x = emit_runes s ++ (b'"' ∷ r) in
    let y = emit_runes t ++ (b'"' ∷ q) in
    let f : emit_rune c ++ x ≡ emit_rune d ++ y =
      sym (append_assoc (emit_rune c) (emit_runes s) (b'"' ∷ r))
      ∙ e
      ∙ append_assoc (emit_rune d) (emit_runes t) (b'"' ∷ q) in
    let g : (c, x) ≡ (d, y) =
      sym (first_rune-emit_rune c x) ∙ ap first_rune f ∙ first_rune-emit_rune d y in
    let (a, b) = runes_same s t r q (ap (λ p. p.1) g) in
    (ap (λ x. x ∷ s) (ap (λ p. p.0) g) ∙ ap (◌∷◌ d) a, b)

-- Where two texts of strings agree with what follows, the strings do, and what follows.
pub string_same : (s t r q : Bytes) → emit_string s ++ r ≡ emit_string t ++ q → (s ≡ t) × (r ≡ q)
unfolding emit_string
string_same s t r q e =
    let f : emit_runes s ++ (b'"' ∷ r) ≡ emit_runes t ++ (b'"' ∷ q) =
      sym (append_assoc (emit_runes s) (b'"' ∷ []) r)
      ∙ (cc)
      ∙ append_assoc (emit_runes t) (b'"' ∷ []) q in
    runes_same s t r q f
