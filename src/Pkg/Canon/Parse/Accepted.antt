-- ===== src/Pkg/Canon/Parse/Accepted.antt =====
-- What `parseCanonValue` lets through.
use mathlib.Core.Path.{refl}
use aii_plugin_sdk.Prelude.{
  Bool-cases, List, Result, [], any, err, false, if_rule, inl, inr, ok, subst, suc, true, zero, ℕ,
  ◌==◌, ◌∷◌, ◌≡◌,
}
use aii_plugin_sdk.Prelude.Bytes.{Bytes, equal}
use aii_plugin_sdk.Prelude.Results.{◌>>=◌}
use aii_plugin_sdk.Pkg.Canon.Numbers.{canonical_number_ok}
use aii_plugin_sdk.Pkg.Canon.Values.{
  Canon, Canons, Fields, array, boolean, canon_number, field_then, no_fields, no_values, null,
  object, text, value_then,
}
use aii_plugin_sdk.Pkg.Canon.Values.Plain.{AllNumbers, NumbersInFields, NumbersInside}
use aii_plugin_sdk.Pkg.Canon.Parse.{
  Answer, CanonError, Decoder, array_end, bool_token, broken, by_token, close_array, close_object,
  delim, end_of_input, new_key, null_token, number_token, number_value, object_end, open_array,
  open_object, parse_fields, parse_value, parse_values, string_token, string_value, token_read,
}

-- No NUL in a string that is a value (a key may have one), canonical numbers, and in every object
-- keys that differ from each other and from those seen.
unfoldable mutual
  pub IsAccepted : Canon → Type 0
  IsAccepted null = Unit
  IsAccepted (boolean b) = Unit
  IsAccepted (text s) = any (λ c. c == 0) s ≡ false
  IsAccepted (canon_number s) = canonical_number_ok s ≡ true
  IsAccepted (array vs) = AcceptedValues vs
  IsAccepted (object fs) = AcceptedFields [] fs

  pub AcceptedValues : Canons → Type 0
  AcceptedValues no_values = Unit
  AcceptedValues (value_then v vs) = IsAccepted v × AcceptedValues vs

  pub AcceptedFields : List Bytes → Fields → Type 0
  AcceptedFields seen no_fields = Unit
  AcceptedFields seen (field_then key v fs) =
      (any (equal key) seen ≡ false) × IsAccepted v × AcceptedFields (key ∷ seen) fs

mutual
  unfolding IsAccepted AllNumbers

  pub IsAccepted-AllNumbers : (v : Canon) → IsAccepted v → AllNumbers v
  IsAccepted-AllNumbers null h = tt
  IsAccepted-AllNumbers (boolean b) h = tt
  IsAccepted-AllNumbers (text s) h = tt
  IsAccepted-AllNumbers (canon_number s) h = h
  IsAccepted-AllNumbers (array vs) h = values_numbers vs h
  IsAccepted-AllNumbers (object fs) h = fields_numbers [] fs h

  values_numbers : (vs : Canons) → AcceptedValues vs → NumbersInside vs
  values_numbers no_values h = tt
  values_numbers (value_then v vs) h = (IsAccepted-AllNumbers v h.0, values_numbers vs h.1)

  fields_numbers : (seen : List Bytes) (fs : Fields) → AcceptedFields seen fs → NumbersInFields fs
  fields_numbers seen no_fields h = tt
  fields_numbers seen (field_then key v fs) (n, p, h) =
      (IsAccepted-AllNumbers v p, fields_numbers (key ∷ seen) fs h)

new_key-ok :
    (seen : List Bytes) (a : Answer) (key : Bytes)
    → new_key seen a ≡ ok key
    → any (equal key) seen ≡ false
unfolding new_key
new_key-ok seen (token_read (string_token s)) key h = elim (Bool-cases (any (equal s) seen)) [
  | inl e ↦ absurd (let g = rw e at h in cc)
  | inr e ↦ let g = rw e at h in let i : s ≡ key = cc in subst (λ x. any (equal x) seen ≡ false) i e
]
new_key-ok seen (token_read (delim x)) key h = absurd (cc)
new_key-ok seen (token_read (number_token x)) key h = absurd (cc)
new_key-ok seen (token_read (bool_token x)) key h = absurd (cc)
new_key-ok seen (token_read null_token) key h = absurd (cc)
new_key-ok seen end_of_input key h = absurd (cc)
new_key-ok seen broken key h = absurd (cc)

-- What a result holds, if it is one.
abbrev Holds : {A : Type 0} → (A → Type 0) → Result CanonError A → Type 0
Holds P (err e) = Unit
Holds P (ok a) = P a

Holds-all :
    {A : Type 0} {P : A → Type 0} (m : Result CanonError A) → ((a : A) → m ≡ ok a → P a) → Holds P m
Holds-all (err e) f = tt
Holds-all (ok a) f = f a refl

ok-Holds :
    {A : Type 0} (P : A → Type 0) {m : Result CanonError A} {a : A} → m ≡ ok a → Holds P m → P a
ok-Holds P e h = subst (Holds P) e h

Holds->>= :
    {A B : Type 0} (P : A → Type 0) (Q : B → Type 0) (m : Result CanonError A)
    (k : A → Result CanonError B)
    → Holds P m
    → ((a : A) → m ≡ ok a → P a → Holds Q (k a))
    → Holds Q (m >>= k)
Holds->>= P Q (err e) k h f = tt
Holds->>= P Q (ok a) k h f = f a refl h

module _ {D : Type 0} (decoder : Decoder D) where
  by_token-IsAccepted :
      (fields : D → Result CanonError (Fields × D)) (values : D → Result CanonError (Canons × D))
      (a : Answer) (d : D)
      → ((d : D) → Holds (λ p. AcceptedFields [] p.0) (fields d))
      → ((d : D) → Holds (λ p. AcceptedValues p.0) (values d))
      → Holds (λ p. IsAccepted p.0) (by_token fields values (a, d))
  unfolding by_token string_value number_value IsAccepted
  by_token-IsAccepted fields values (token_read (delim open_object)) d f g =
      Holds->>= _ _ (fields d) _ (f d) (λ a _ h. h)
  by_token-IsAccepted fields values (token_read (delim open_array)) d f g =
      Holds->>= _ _ (values d) _ (g d) (λ a _ h. h)
  by_token-IsAccepted fields values (token_read (delim close_object)) d f g = tt
  by_token-IsAccepted fields values (token_read (delim close_array)) d f g = tt
  by_token-IsAccepted fields values (token_read (string_token s)) d f g =
      elim (Bool-cases (any (λ c. c == 0) s)) [ inl e ↦ rw e tt | inr e ↦ rw e e ]
  by_token-IsAccepted fields values (token_read (number_token s)) d f g =
      elim (Bool-cases (canonical_number_ok s)) [ inl e ↦ rw e e | inr e ↦ rw e tt ]
  by_token-IsAccepted fields values (token_read (bool_token x)) d f g = tt
  by_token-IsAccepted fields values (token_read null_token) d f g = tt
  by_token-IsAccepted fields values end_of_input d f g = tt
  by_token-IsAccepted fields values broken d f g = tt

  mutual
    unfolding parse_value IsAccepted

    parse_value-Holds :
        (fuel : ℕ) (d : D) → Holds (λ p. IsAccepted p.0) (parse_value decoder fuel d)
    parse_value-Holds zero d = tt
    parse_value-Holds (suc fuel) d =
        by_token-IsAccepted _ _ (decoder.token d).0 (decoder.token d).1 (parse_fields-Holds fuel [])
          (parse_values-Holds fuel)

    parse_fields-Holds :
        (fuel : ℕ) (seen : List Bytes) (d : D)
        → Holds (λ p. AcceptedFields seen p.0) (parse_fields decoder fuel seen d)
    parse_fields-Holds zero seen d = tt
    parse_fields-Holds (suc fuel) seen d =
        if_rule (Holds (λ p. AcceptedFields seen p.0)) (decoder.more d)
          (Holds->>= (λ key. any (equal key) seen ≡ false) _ (new_key seen (decoder.token d).0) _
            (Holds-all (new_key seen (decoder.token d).0) (new_key-ok seen (decoder.token d).0))
            (λ key _ n.
              Holds->>= _ _ (parse_value decoder fuel (decoder.token d).1) _
                (parse_value-Holds fuel (decoder.token d).1)
                (λ p _ h.
                  Holds->>= _ _ (parse_fields decoder fuel (key ∷ seen) p.1) _
                    (parse_fields-Holds fuel (key ∷ seen) p.1) (λ q _ k. (n, h, k)))))
          (Holds->>= (λ _. Unit) _ (object_end (decoder.token d).0) _
            (Holds-all (object_end (decoder.token d).0) (λ _ _. tt)) (λ _ _ _. tt))

    parse_values-Holds :
        (fuel : ℕ) (d : D) → Holds (λ p. AcceptedValues p.0) (parse_values decoder fuel d)
    parse_values-Holds zero d = tt
    parse_values-Holds (suc fuel) d =
        if_rule (Holds (λ p. AcceptedValues p.0)) (decoder.more d)
          (Holds->>= _ _ (parse_value decoder fuel d) _ (parse_value-Holds fuel d) (λ p _ h.
            Holds->>= _ _ (parse_values decoder fuel p.1) _ (parse_values-Holds fuel p.1)
              (λ q _ k. (h, k))))
          (Holds->>= (λ _. Unit) _ (array_end (decoder.token d).0) _
            (Holds-all (array_end (decoder.token d).0) (λ _ _. tt)) (λ _ _ _. tt))

  -- What holds of each value that `parseCanonValue` returns.
  pub parse_value-IsAccepted :
      (fuel : ℕ) (d d' : D) (v : Canon) → parse_value decoder fuel d ≡ ok (v, d') → IsAccepted v
  parse_value-IsAccepted fuel d d' v e = ok-Holds (λ p. IsAccepted p.0) e (parse_value-Holds fuel d)
