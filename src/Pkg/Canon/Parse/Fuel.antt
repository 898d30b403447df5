-- ===== src/Pkg/Canon/Parse/Fuel.antt =====
-- The fuel is enough, for a decoder that leaves less to read with every token.
use aii_plugin_sdk.Json.Text.Utf8.{utf8_valid}
use aii_plugin_sdk.Pkg.Canon.Escapes.{EscapeError, validate_unicode_escapes}
use mathlib.Core.Path.{refl}
use aii_plugin_sdk.Prelude.{
  Bool-cases, List, Result, [], any, arith, err, if_rule, inl, inr, length, ok, subst, suc, zero, ℕ,
  ◌*◌, ◌+◌, ◌<◌, ◌==◌, ◌∷◌, ◌≡◌, ◌≢◌, ◌≤◌,
}
use aii_plugin_sdk.Prelude.Bytes.{Bytes, equal}
use aii_plugin_sdk.Prelude.Results.{guard, ◌>>=◌}
use aii_plugin_sdk.Pkg.Canon.Numbers.{canonical_number_ok}
use aii_plugin_sdk.Pkg.Canon.Values.{Canons, Fields}
use aii_plugin_sdk.Pkg.Canon.Parse.{
  Answer, CanonError, Decoder, Token, array_end, bool_token, broken, by_token, canonicalize_v1,
  close_array, close_object, delim, document_end, end_of_input, escapes_checked, new_key, not_utf8,
  null_token, number_token, number_value, object_end, open_array, open_object, out_of_fuel,
  parse_fields, parse_value, parse_values, string_token, string_value, token_read,
}

-- A result that is not for want of fuel, whose value has a property.
abbrev Ends : {A : Type 0} → (A → Type 0) → Result CanonError A → Type 0
Ends P (err e) = e ≢ out_of_fuel
Ends P (ok a) = P a

Ends->>= :
    {A B : Type 0} (P : A → Type 0) (Q : B → Type 0) (m : Result CanonError A)
    (k : A → Result CanonError B)
    → Ends P m
    → ((a : A) → P a → Ends Q (k a))
    → Ends Q (m >>= k)
Ends->>= P Q (err e) k h f = h
Ends->>= P Q (ok a) k h f = f a h

new_key-Ends :
    (seen : List Bytes) (a : Answer) (n m : ℕ)
    → ((t : Token) → a ≡ token_read t → m < n)
    → Ends (λ _. m < n) (new_key seen a)
unfolding new_key
new_key-Ends seen (token_read (string_token s)) n m h =
    if_rule (Ends (λ _. m < n)) (any (equal s) seen) (λ e. cc) (h (string_token s) refl)
new_key-Ends seen (token_read (delim x)) n m h = λ e. cc
new_key-Ends seen (token_read (number_token x)) n m h = λ e. cc
new_key-Ends seen (token_read (bool_token x)) n m h = λ e. cc
new_key-Ends seen (token_read null_token) n m h = λ e. cc
new_key-Ends seen end_of_input n m h = λ e. cc
new_key-Ends seen broken n m h = λ e. cc

object_end-Ends :
    (a : Answer) (n m : ℕ)
    → ((t : Token) → a ≡ token_read t → m < n)
    → Ends (λ _. m < n) (object_end a)
unfolding object_end
object_end-Ends (token_read (delim close_object)) n m h = h (delim close_object) refl
object_end-Ends (token_read (delim open_object)) n m h = λ e. cc
object_end-Ends (token_read (delim open_array)) n m h = λ e. cc
object_end-Ends (token_read (delim close_array)) n m h = λ e. cc
object_end-Ends (token_read (string_token x)) n m h = λ e. cc
object_end-Ends (token_read (number_token x)) n m h = λ e. cc
object_end-Ends (token_read (bool_token x)) n m h = λ e. cc
object_end-Ends (token_read null_token) n m h = λ e. cc
object_end-Ends end_of_input n m h = λ e. cc
object_end-Ends broken n m h = λ e. cc

array_end-Ends :
    (a : Answer) (n m : ℕ)
    → ((t : Token) → a ≡ token_read t → m < n)
    → Ends (λ _. m < n) (array_end a)
unfolding array_end
array_end-Ends (token_read (delim close_array)) n m h = h (delim close_array) refl
array_end-Ends (token_read (delim open_object)) n m h = λ e. cc
array_end-Ends (token_read (delim open_array)) n m h = λ e. cc
array_end-Ends (token_read (delim close_object)) n m h = λ e. cc
array_end-Ends (token_read (string_token x)) n m h = λ e. cc
array_end-Ends (token_read (number_token x)) n m h = λ e. cc
array_end-Ends (token_read (bool_token x)) n m h = λ e. cc
array_end-Ends (token_read null_token) n m h = λ e. cc
array_end-Ends end_of_input n m h = λ e. cc
array_end-Ends broken n m h = λ e. cc

-- What is left to read gets less with every token.
abbrev pub Shrinks : {D : Type 0} → Decoder D → (D → ℕ) → Type 0
Shrinks {D} decoder size =
    (d : D) (t : Token) → (decoder.token d).0 ≡ token_read t → size (decoder.token d).1 < size d

module _ {D : Type 0} (decoder : Decoder D) (size : D → ℕ) (shrinks : Shrinks decoder size) where
  -- What is left of a value.
  abbrev Less : {A : Type 0} → ℕ → A × D → Type 0
  Less n p = size p.1 < n

  by_token-Ends :
      (fields : D → Result CanonError (Fields × D)) (values : D → Result CanonError (Canons × D))
      (a : Answer) (b : D) (n : ℕ)
      → ((t : Token) → a ≡ token_read t → size b < n)
      → (size b < n → Ends (Less n) (fields b))
      → (size b < n → Ends (Less n) (values b))
      → Ends (Less n) (by_token fields values (a, b))
  unfolding by_token string_value number_value
  by_token-Ends fields values (token_read (delim open_object)) b n h f g =
      Ends->>= (Less n) (Less n) (fields b) _ (f (h _ refl)) (λ p k. k)
  by_token-Ends fields values (token_read (delim open_array)) b n h f g =
      Ends->>= (Less n) (Less n) (values b) _ (g (h _ refl)) (λ p k. k)
  by_token-Ends fields values (token_read (delim close_object)) b n h f g = λ e. cc
  by_token-Ends fields values (token_read (delim close_array)) b n h f g = λ e. cc
  by_token-Ends fields values (token_read (string_token s)) b n h f g =
      elim (Bool-cases (any (λ c. c == 0) s)) [ inl e ↦ rw e (λ e. cc) | inr e ↦ rw e (h _ refl) ]
  by_token-Ends fields values (token_read (number_token s)) b n h f g =
      elim (Bool-cases (canonical_number_ok s)) [ inl e ↦ rw e (h _ refl) | inr e ↦ rw e (λ e. cc) ]
  by_token-Ends fields values (token_read (bool_token x)) b n h f g = h _ refl
  by_token-Ends fields values (token_read null_token) b n h f g = h _ refl
  by_token-Ends fields values end_of_input b n h f g = λ e. cc
  by_token-Ends fields values broken b n h f g = λ e. cc

  Ends-mono :
      {A : Type 0} (m : Result CanonError (A × D)) (n k : ℕ)
      → n ≤ k
      → Ends (Less n) m
      → Ends (Less k) m
  Ends-mono (err e) n k l h = h
  Ends-mono (ok p) n k l h = omega arith

  mutual
    unfolding parse_value

    parse_value-Ends :
        (fuel : ℕ) (d : D)
        → 2 * size d + 1 ≤ fuel
        → Ends (Less (size d)) (parse_value decoder fuel d)
    parse_value-Ends zero d n = absurd (omega arith)
    parse_value-Ends (suc fuel) d n =
        let b = (decoder.token d).1 in
        by_token-Ends _ _ (decoder.token d).0 b (size d) (shrinks d)
          (λ l.
            Ends-mono (parse_fields decoder fuel [] b) (size b) (size d) (omega arith)
              (parse_fields-Ends fuel [] b (omega arith)))
          (λ l.
            Ends-mono (parse_values decoder fuel b) (size b) (size d) (omega arith)
              (parse_values-Ends fuel b (omega arith)))

    parse_fields-Ends :
        (fuel : ℕ) (seen : List Bytes) (d : D)
        → 2 * size d + 1 ≤ fuel
        → Ends (Less (size d)) (parse_fields decoder fuel seen d)
    parse_fields-Ends zero seen d n = absurd (omega arith)
    parse_fields-Ends (suc fuel) seen d n =
        let b = (decoder.token d).1 in
        let a = (decoder.token d).0 in
        if_rule (Ends (Less (size d))) (decoder.more d)
          (Ends->>= (λ _. size b < size d) (Less (size d)) (new_key seen a) _
            (new_key-Ends seen a (size d) (size b) (shrinks d))
            (λ key l.
              Ends->>= (Less (size b)) (Less (size d)) (parse_value decoder fuel b) _
                (parse_value-Ends fuel b (omega arith))
                (λ p k.
                  Ends->>= (Less (size p.1)) (Less (size d))
                    (parse_fields decoder fuel (key ∷ seen) p.1) _
                    (parse_fields-Ends fuel (key ∷ seen) p.1 (omega arith)) (λ q j. omega arith))))
          (Ends->>= (λ _. size b < size d) (Less (size d)) (object_end a) _
            (object_end-Ends a (size d) (size b) (shrinks d)) (λ _ l. l))

    parse_values-Ends :
        (fuel : ℕ) (d : D)
        → 2 * size d + 2 ≤ fuel
        → Ends (Less (size d)) (parse_values decoder fuel d)
    parse_values-Ends zero d n = absurd (omega arith)
    parse_values-Ends (suc fuel) d n =
        let b = (decoder.token d).1 in
        let a = (decoder.token d).0 in
        if_rule (Ends (Less (size d))) (decoder.more d)
          (Ends->>= (Less (size d)) (Less (size d)) (parse_value decoder fuel d) _
            (parse_value-Ends fuel d (omega arith))
            (λ p k.
              Ends->>= (Less (size p.1)) (Less (size d)) (parse_values decoder fuel p.1) _
                (parse_values-Ends fuel p.1 (omega arith)) (λ q j. omega arith)))
          (Ends->>= (λ _. size b < size d) (Less (size d)) (array_end a) _
            (array_end-Ends a (size d) (size b) (shrinks d)) (λ _ l. l))

  document_end-Ends : (a : Answer) → Ends (λ _. Unit) (document_end a)
  unfolding document_end
  document_end-Ends end_of_input = tt
  document_end-Ends broken = λ e. cc
  document_end-Ends (token_read t) = λ e. cc

  escapes_checked-Ends : (r : Result EscapeError (Unit {0})) → Ends (λ _. Unit) (escapes_checked r)
  unfolding escapes_checked
  escapes_checked-Ends (ok x) = tt
  escapes_checked-Ends (err x) = λ e. cc

  canonicalize_v1-Ends :
      (input : Bytes)
      → size (decoder.new_decoder input) ≤ length input
      → Ends (λ _. Unit) (canonicalize_v1 decoder input)
  unfolding canonicalize_v1
  canonicalize_v1-Ends input h =
      let d = decoder.new_decoder input in
      Ends->>= (λ _. Unit) (λ _. Unit) (guard (utf8_valid input) not_utf8) _
        (if_rule (Ends (λ _. Unit)) (utf8_valid input) tt (λ e. cc))
        (λ _ _.
          Ends->>= (λ _. Unit) (λ _. Unit) (escapes_checked (validate_unicode_escapes input)) _
            (escapes_checked-Ends _)
            (λ _ _.
              Ends->>= (Less (size d)) (λ _. Unit) (parse_value decoder (2 * length input + 2) d) _
                (parse_value-Ends (2 * length input + 2) d (omega arith))
                (λ p _.
                  Ends->>= (λ _. Unit) (λ _. Unit) (document_end (decoder.token p.1).0) _
                    (document_end-Ends (decoder.token p.1).0) (λ _ _. tt))))

  -- `CanonicalizeV1` ends on every input, where the decoder leaves less to read with every token and
  -- has at first no more to read than the bytes of the input: the fuel is never used up.
  pub canonicalize_v1-total :
      (input : Bytes)
      → size (decoder.new_decoder input) ≤ length input
      → canonicalize_v1 decoder input ≢ err out_of_fuel
  canonicalize_v1-total input h e = subst (Ends (λ _. Unit)) e (canonicalize_v1-Ends input h) refl
