-- ===== src/Pkg/Canon/Parse/Reads.antt =====
-- A value is read back from its tokens.
use aii_plugin_sdk.Pkg.Canon.Numbers.{canonical_number_ok}
use aii_plugin_sdk.Prelude.Results.{ok}
use mathlib.Core.Path.{refl}
use aii_plugin_sdk.Prelude.{
  Bool, List, [], any, ap, append_assoc, arith, false, length, length-append, not, subst, suc, true,
  zero, ℕ, ◌*◌, ◌++◌, ◌+◌, ◌==◌, ◌∙◌, ◌∷◌, ◌≡◌, ◌≤◌,
}
use aii_plugin_sdk.Prelude.Bytes.{Bytes, equal}
use aii_plugin_sdk.Pkg.Canon.Values.{
  Canon, Canons, Fields, array, boolean, canon_number, field_then, no_fields, no_values, null,
  object, text, value_then,
}
use aii_plugin_sdk.Pkg.Canon.Parse.{
  Decoder, Delim, Token, array_end, bool_token, by_token, close_array, close_object, delim, new_key,
  null_token, number_token, number_value, object_end, open_array, open_object, parse_fields,
  parse_value, parse_values, string_token, string_value, token_read,
}
use aii_plugin_sdk.Pkg.Canon.Parse.Accepted.{IsAccepted, AcceptedFields, AcceptedValues}

-- The tokens of a value.
unfoldable mutual
  pub tokens : Canon → List Token
  tokens null = null_token ∷ []
  tokens (boolean b) = bool_token b ∷ []
  tokens (text s) = string_token s ∷ []
  tokens (canon_number s) = number_token s ∷ []
  tokens (array vs) = delim open_array ∷ (tokens_inside vs ++ (delim close_array ∷ []))
  tokens (object fs) = delim open_object ∷ (field_tokens fs ++ (delim close_object ∷ []))

  pub tokens_inside : Canons → List Token
  tokens_inside no_values = []
  tokens_inside (value_then v vs) = tokens v ++ tokens_inside vs

  pub field_tokens : Fields → List Token
  field_tokens no_fields = []
  field_tokens (field_then key v fs) = string_token key ∷ (tokens v ++ field_tokens fs)

-- A closing delimiter.
abbrev pub closes : Token → Bool
closes (delim close_object) = true
closes (delim close_array) = true
closes _ = false

-- The decoder gives tokens, one after the other, and `More` says whether the next one does not close.
abbrev pub Reads : {D : Type 0} → Decoder D → D → List Token → D → Type 0
Reads decoder d [] d' = d ≡ d'
Reads decoder d (t ∷ ts) d' =
    (decoder.more d ≡ not (closes t))
    × ((decoder.token d).0 ≡ token_read t)
    × Reads decoder (decoder.token d).1 ts d'

opens_value :
    (v : Canon) → (t : Token) × (ts : List Token) × (tokens v ≡ t ∷ ts) × (closes t ≡ false)
unfolding tokens
opens_value null = (_, _, refl, refl)
opens_value (boolean b) = (_, _, refl, refl)
opens_value (text s) = (_, _, refl, refl)
opens_value (canon_number s) = (_, _, refl, refl)
opens_value (array vs) = (_, _, refl, refl)
opens_value (object fs) = (_, _, refl, refl)

module _ {D : Type 0} (decoder : Decoder D) where
  Reads-append :
      (ts us : List Token) (d d' : D)
      → Reads decoder d (ts ++ us) d'
      → (mid : D) × Reads decoder d ts mid × Reads decoder mid us d'
  Reads-append [] us d d' h = (d, refl, h)
  Reads-append (t ∷ ts) us d d' (m, e, h) =
      let (mid, a, b) = Reads-append ts us (decoder.token d).1 d' h in (mid, (m, e, a), b)

  more-Reads : (v : Canon) (d d' : D) → Reads decoder d (tokens v) d' → decoder.more d ≡ true
  more-Reads v d d' h =
      let (t, ts, e, c) = opens_value v in
      let (m, _, _) = subst (λ x. Reads decoder d x d') e h in m ∙ ap not c

  Closed : Delim → List Token → D → D → Type 0
  Closed c ts d d' = Reads decoder d (ts ++ (delim c ∷ [])) d'

  read_as :
      (d : D) (t : Token)
      → (decoder.token d).0 ≡ token_read t
      → decoder.token d ≡ (token_read t, (decoder.token d).1)
  read_as d t e = ap (λ a. (a, (decoder.token d).1)) e

  tokens_some : (v : Canon) → 1 ≤ length (tokens v)
  tokens_some v = let (t, ts, e, c) = opens_value v in rw e (omega arith)

  -- A string or a number that is let through.
  string_value-IsAccepted : (s : Bytes) → any (λ c. c == 0) s ≡ false → string_value s ≡ ok (text s)
  unfolding string_value
  string_value-IsAccepted s h = rw h refl

  number_value-IsAccepted :
      (s : Bytes) → canonical_number_ok s ≡ true → number_value s ≡ ok (canon_number s)
  unfolding number_value
  number_value-IsAccepted s h = rw h refl

  new_key-unseen :
      (seen : List Bytes) (key : Bytes)
      → any (equal key) seen ≡ false
      → new_key seen (token_read (string_token key)) ≡ ok key
  unfolding new_key
  new_key-unseen seen key h = rw h refl

  mutual
    unfolding parse_value tokens IsAccepted by_token Closed object_end array_end

    pub parse_value-Reads :
        (fuel : ℕ) (v : Canon) (d d' : D)
        → IsAccepted v
        → Reads decoder d (tokens v) d'
        → 2 * length (tokens v) ≤ fuel
        → parse_value decoder fuel d ≡ ok (v, d')
    parse_value-Reads zero v d d' p h n = absurd (let k = tokens_some v in omega arith)
    parse_value-Reads (suc fuel) null d d' p (m, e, h) n = rw (read_as d _ e, h) refl
    parse_value-Reads (suc fuel) (boolean b) d d' p (m, e, h) n = rw (read_as d _ e, h) refl
    parse_value-Reads (suc fuel) (text s) d d' p (m, e, h) n =
        rw (read_as d _ e, string_value-IsAccepted s p, h) refl
    parse_value-Reads (suc fuel) (canon_number s) d d' p (m, e, h) n =
        rw (read_as d _ e, number_value-IsAccepted s p, h) refl
    parse_value-Reads (suc fuel) (array vs) d d' p (m, e, h) n =
        let l = length-append (tokens_inside vs) (delim close_array ∷ []) in
        let ih = parse_values-Reads fuel vs (decoder.token d).1 d' p h (omega (arith, l)) in
        rw (read_as d _ e, ih) refl
    parse_value-Reads (suc fuel) (object fs) d d' p (m, e, h) n =
        let l = length-append (field_tokens fs) (delim close_object ∷ []) in
        let ih = parse_fields-Reads fuel [] fs (decoder.token d).1 d' p h (omega (arith, l)) in
        rw (read_as d _ e, ih) refl

    parse_values-Reads :
        (fuel : ℕ) (vs : Canons) (d d' : D)
        → AcceptedValues vs
        → Closed close_array (tokens_inside vs) d d'
        → 2 * length (tokens_inside vs) + 1 ≤ fuel
        → parse_values decoder fuel d ≡ ok (vs, d')
    parse_values-Reads zero vs d d' p h n = absurd (omega arith)
    parse_values-Reads (suc fuel) no_values d d' p (m, e, h) n = rw (m, e, h) refl
    parse_values-Reads (suc fuel) (value_then v vs) d d' (p, q) h n =
        let (mid, a, b) =
          Reads-append (tokens v) (tokens_inside vs ++ (delim close_array ∷ [])) d d' (
            subst (λ x. Reads decoder d x d')
              (append_assoc (tokens v) (tokens_inside vs) (delim close_array ∷ [])) h) in
        let l = length-append (tokens v) (tokens_inside vs) in
        let k = tokens_some v in
        rw
          (
            more-Reads v d mid a,
            parse_value-Reads fuel v d mid p a (omega (arith, l)),
            parse_values-Reads fuel vs mid d' q b (omega (arith, l, k)),
          )
          refl

    parse_fields-Reads :
        (fuel : ℕ) (seen : List Bytes) (fs : Fields) (d d' : D)
        → AcceptedFields seen fs
        → Closed close_object (field_tokens fs) d d'
        → 2 * length (field_tokens fs) + 1 ≤ fuel
        → parse_fields decoder fuel seen d ≡ ok (fs, d')
    parse_fields-Reads zero seen fs d d' p h n = absurd (omega arith)
    parse_fields-Reads (suc fuel) seen no_fields d d' p (m, e, h) n = rw (m, e, h) refl
    parse_fields-Reads (suc fuel) seen (field_then key v fs) d d' (p, q, k) (m, e, h) n =
        let (mid, a, b) =
          Reads-append (tokens v) (field_tokens fs ++ (delim close_object ∷ [])) (decoder.token d).1
            d'
            (subst (λ x. Reads decoder (decoder.token d).1 x d')
              (append_assoc (tokens v) (field_tokens fs) (delim close_object ∷ [])) h) in
        let l = length-append (tokens v) (field_tokens fs) in
        rw
          (
            m,
            e,
            new_key-unseen seen key p,
            parse_value-Reads fuel v (decoder.token d).1 mid q a (omega (arith, l)),
            parse_fields-Reads fuel (key ∷ seen) fs mid d' k b (omega (arith, l)),
          )
          refl
