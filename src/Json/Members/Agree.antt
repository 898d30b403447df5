-- ===== src/Json/Members/Agree.antt =====
-- On a payload that `ValidateStrict` accepts, `objectMembers` succeeds, and no key comes twice.
use aii_plugin_sdk.Json.Scanner.Depth.{value-Extends}
use aii_plugin_sdk.Json.Text.{string_, ws}
use mathlib.Core.List.{reverse, reverse-append, map-append}
use aii_plugin_sdk.Prelude.{
  Bool-cases, List, Option, Option-cases, [], ap, arith, false, if_rule₂, inl, inr, map, none, refl,
  some, subst, sym, true, ◌++◌, ◌==◌, ◌∙◌, ◌∷◌, ◌≡◌, ◌⊎◌,
}
use aii_plugin_sdk.Prelude.Bytes.{Bytes}
use aii_plugin_sdk.Prelude.Suffix.{consumed}
use aii_plugin_sdk.Json.Loop.{
  Follows, Simulates, both_done, both_more, failed, scan, scan-simulates,
}
use aii_plugin_sdk.Json.Number.{ParsedFloat}
use aii_plugin_sdk.Json.Scanner.{
  colon, empty_at, ends, max_scan_depth, member_key, member_value, nested, object, object_turn,
  one_value, seen_key, separated, then_separated, validate_strict, value, value_in,
}
use aii_plugin_sdk.Json.Members.{
  Member, members_in, members_turn, object_members, opened, raw_bytes, top_value, with_key,
  with_value,
}

-- No key of the list comes again behind it.
abbrev pub Distinct : List Bytes → Type 0
Distinct [] = Unit
Distinct (k ∷ ks) = (seen_key ks k ≡ false) × Distinct ks

abbrev pub keys_back : List Member → List Bytes
keys_back ms = reverse (map (λ (m : Member). m.key) ms)

keys_back-snoc : (ms : List Member) (m : Member) → keys_back (ms ++ (m ∷ [])) ≡ m.key ∷ keys_back ms
keys_back-snoc ms m = rw (map-append, reverse-append)

-- The map `seen` of `object` and the members so far of `objectMembers`.
record Agrees (seen : List Bytes) (out : List Member) : Type 0 where
  same_keys : seen ≡ keys_back out
  distinct : Distinct seen

abbrev pub HasDistinct : List Member → Type 0
HasDistinct ms = Distinct (keys_back ms)

Agrees-snoc :
    (seen : List Bytes) (out : List Member) (m : Member)
    → Agrees seen out
    → seen_key seen m.key ≡ false
    → Agrees (m.key ∷ seen) (out ++ (m ∷ []))
Agrees-snoc seen out m a f = record {
  same_keys = ap (◌∷◌ m.key) a.same_keys ∙ sym (keys_back-snoc out m);
  distinct = (f, a.distinct);
}

module _ (parse_float : Bytes → ParsedFloat) where
  abbrev inner_value : Bytes → Option Bytes
  inner_value = value parse_float 63

  separated-Follows :
      (seen : List Bytes) (out : List Member) (b : Bytes)
      → Agrees seen out
      → Follows Agrees HasDistinct
          (separated b'}' (λ rest. rest) seen b)
          (separated b'}' (λ _. out) out b)
  unfolding separated
  separated-Follows seen out [] a = failed
  separated-Follows seen out (c ∷ b) a =
      if_rule₂ (Follows Agrees HasDistinct) (c == b',') (both_more a) (
        if_rule₂ (Follows Agrees HasDistinct) (c == b'}')
          (both_done (subst Distinct a.same_keys a.distinct)) failed)

  abbrev read_as : Bytes → Bytes → Option Bytes → Member
  read_as key b o = record { key = key; raw = consumed b (raw_bytes o) }

  value-Follows :
      (seen : List Bytes) (out : List Member) (key b : Bytes)
      → Agrees seen out
      → seen_key seen key ≡ false
      → Follows Agrees HasDistinct
          (member_value inner_value (key ∷ seen) (some b))
          (with_value parse_float out key (some b))
  unfolding with_value member_value top_value then_separated
  value-Follows seen out key b a f =
      go (inner_value b) (top_value parse_float b) (value-Extends parse_float 63 b)
    where
      go :
          (o o' : Option Bytes)
          → (o ≡ none) ⊎ (o' ≡ o)
          → Follows Agrees HasDistinct (then_separated b'}' (λ rest. rest) (key ∷ seen) o) (
              then_separated b'}'
                (λ _. out ++ (read_as key b o' ∷ []))
                (out ++ (read_as key b o' ∷ []))
                o')
      go none o' h = failed
      go (some rest) o' (inl e) = absurd (cc)
      go (some rest) o' (inr e) = rw e (
          separated-Follows (key ∷ seen) (out ++ (read_as key b (some rest) ∷ [])) (ws rest)
            (Agrees-snoc seen out (read_as key b (some rest)) a f))

  key-Follows :
      (seen : List Bytes) (out : List Member) (o : Option (Bytes × Bytes))
      → Agrees seen out
      → Follows Agrees HasDistinct (member_key inner_value seen o) (with_key parse_float out o)
  unfolding member_key with_key
  key-Follows seen out none a = failed
  key-Follows seen out (some (key, b)) a = elim (Bool-cases (seen_key seen key)) [
    | inl e ↦ rw e failed
    | inr e ↦ rw e (go (colon (ws b)) e)
  ]
    where
      go :
          (o : Option Bytes)
          → seen_key seen key ≡ false
          → Follows Agrees HasDistinct
              (member_value inner_value (key ∷ seen) o)
              (with_value parse_float out key o)
      go none f = unfold member_value in failed
      go (some c) f = value-Follows seen out key c a f

  turn-Follows : Simulates Agrees HasDistinct (object_turn inner_value) (members_turn parse_float)
  unfolding object_turn members_turn
  turn-Follows seen out b a = key-Follows seen out (string_ (ws b)) a

  nothing_yet : Agrees [] []
  nothing_yet = record { same_keys = refl; distinct = tt }

  members_in-object :
      (b : Bytes) {rest : Bytes}
      → object inner_value b ≡ some rest
      → (ms : List Member) × (members_in parse_float b ≡ some ms) × HasDistinct ms
  unfolding object members_in
  members_in-object b {rest} e = go (empty_at b'}' (ws b)) e
    where
      go :
          (o : Option Bytes)
          → ◌≡◌ {A = Option Bytes}
              (elim o [ some rest ↦ some rest | none ↦ scan (object_turn inner_value) [] (ws b) ])
              (some rest)
          → (ms : List Member) × (◌≡◌ {A = Option (List Member)}
              (elim o [ some _ ↦ some [] | none ↦ scan (members_turn parse_float) [] (ws b) ])
              (some ms))
            × HasDistinct ms
      go none e =
          scan-simulates Agrees HasDistinct (object_turn inner_value) (members_turn parse_float)
            turn-Follows [] [] (ws b) nothing_yet e
      go (some r) e = ([], refl, tt)

  one_value-ends :
      (payload : Bytes)
      → one_value parse_float payload ≡ true
      → ends parse_float (value parse_float max_scan_depth (ws payload)) ≡ true
  unfolding one_value
  one_value-ends payload e = e

  object-accepted :
      (b : Bytes)
      → ends parse_float (value parse_float max_scan_depth (b'{' ∷ b)) ≡ true
      → (rest : Bytes) × (object inner_value b ≡ some rest)
  unfolding value value_in nested ends
  object-accepted b e = elim (Option-cases (object inner_value b)) [
    | inl n ↦ absurd (cc (ap (ends parse_float) n))
    | inr found ↦ found
  ]

  -- If `ValidateStrict` accepts a payload whose first byte behind white space is a brace, then
  -- `objectMembers` succeeds on it, and no two of the members it gives have one key.
  pub object_members-validate_strict :
      (payload b : Bytes)
      → ws payload ≡ b'{' ∷ b
      → validate_strict parse_float payload ≡ true
      → (ms : List Member) × (object_members parse_float payload ≡ some ms) × HasDistinct ms
  unfolding object_members opened
  object_members-validate_strict payload b w v =
      let accepted : one_value parse_float payload ≡ true =
        unfold validate_strict in ground arith in
      let (rest, e) = object-accepted b (rw w at (one_value-ends payload accepted)) in
      rw w (members_in-object b e)
