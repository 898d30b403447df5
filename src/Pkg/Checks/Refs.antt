-- ===== src/Pkg/Checks/Refs.antt =====
-- The resolver of pkg/aiiospkg/validation.go, which replaces each "$ref" by what it points at in
-- another member of the package. The reader of members is a parameter, and so is what it gives for
-- an error; `decode` stands for `decodeStrict`. A step gives its result and the resolver behind it.
pub mod Cache
use aii_plugin_sdk.Prelude.{
  Bool, List, Option, Result, [], any, err, false, if◌then◌else◌, length, none, not, ok, some, true,
  ◌&&◌, ◌==◌, ◌||◌, ◌∷◌,
}
use aii_plugin_sdk.Prelude.Bytes.{Bytes, codes, equal}
use aii_plugin_sdk.Pkg.Versions.{split}
use aii_plugin_sdk.Pkg.Checks.{
  Doc, Docs, Fields, boolean, doc_then, field_then, list, lookup, no_docs, no_fields, null, number,
  object, text,
}
use aii_plugin_sdk.Pkg.Checks.Pointers.{pointer, valid_pointer}

abbrev validation_file : Bytes
validation_file = codes "validation.json"

-- The components of a relative path that `path.Clean` leaves as it is: none is empty or a single
-- dot, and two dots stand only in front.
unfoldable pub clean_from : Bool → List Bytes → Bool
clean_from climbing [] = true
clean_from climbing (c ∷ cs) =
    let rest = clean_from (climbing && equal c (codes "..")) cs in
    if length c == 0 || equal c (codes ".")
    then false
    else if equal c (codes "..") && not climbing
    then false
    else rest

-- `path.Clean(rel) == rel`, where `rel` does not begin with a slash.
unfoldable pub is_clean : Bytes → Bool
unfolding clean_from split
is_clean rel = equal rel (codes ".") || clean_from true (split b'/' rel)

begins_with : Bytes → Bytes → Bool
begins_with [] b = true
begins_with (c ∷ p) [] = false
begins_with (c ∷ p) (d ∷ b) = c == d && begins_with p b

-- `insideRoot`.
unfoldable pub inside_root : Bytes → Bool
unfolding is_clean begins_with
inside_root rel =
    not (begins_with (codes "/") rel)
    && (not (any (λ c. c == b'\\') rel)
        && (not (any (λ c. c == b':') rel)
            && (is_clean rel
                && (not (equal rel (codes "..")) && not (begins_with (codes "../") rel)))))

-- `strings.Cut(s, "#")`, with an empty rest where there is none.
unfoldable pub cut : Bytes → Bytes × Bytes
cut [] = ([], [])
cut (c ∷ s) = let (a, b) = cut s in if c == b'#' then ([], s) else (c ∷ a, b)

-- Why a reference is not resolved.
pub data Why : Type 0 where
  names_itself leaves_root : Bytes → Why
  no_pointer points_at_nothing : Bytes → Bytes → Why
  not_carried not_json : Bytes → Why

pub data RefError (E : Type 0) : Type 0 where
  read_error : E → RefError E
  unresolved : Why → RefError E
  ref_form : RefError E

-- A map, as the list of what was stored, the last first.
unfoldable pub find : {A : Type 0} → Bytes → List (Bytes × A) → Option A
find key [] = none
find key ((k, a) ∷ es) = let rest = find key es in if equal k key then some a else rest

pub record Resolver (F : Type 0) : Type 0 where
  pub docs : List (Bytes × Doc F)
  pub bad : List (Bytes × Why)
  pub raws : List (Bytes × Option Bytes)

-- A step of the resolver.
abbrev pub Step : Type 0 → Type 0 → Type 0 → Type 0
Step E F A = Resolver F → Result (RefError E) A × Resolver F

abbrev pub done : {E F A : Type 0} → Result (RefError E) A → Step E F A
done r state = (r, state)

abbrev pub passed_on :
    {E F A B : Type 0}
    → (A → Step E F B)
    → Result (RefError E) A × Resolver F
    → Result (RefError E) B × Resolver F
passed_on next (err e, state) = (err e, state)
passed_on next (ok a, state) = next a state

infixl 5 ◌then_step◌
abbrev pub ◌then_step◌ : {E F A B : Type 0} → Step E F A → (A → Step E F B) → Step E F B
(m then_step next) state = passed_on next (m state)

unfoldable pub pointed_at :
    {E F : Type 0} → Bytes → Bytes → Option (Doc F) → Result (RefError E) (Doc F)
pointed_at s rel none = err (unresolved (points_at_nothing s rel))
pointed_at s rel (some d) = ok d

-- An object of one member.
abbrev pub single : {F : Type 0} → Fields F → Bool
single (field_then key v no_fields) = true
single _ = false

module _ {E F : Type 0} (member : Bytes → Result E (Option Bytes))
    (decode : Bytes → Option (Doc F)) where
  -- What `member` gave is remembered, but for an error.
  read_member : Bytes → Result E (Option Bytes) → Step E F (Option Bytes)
  read_member rel (err e) state = (err (read_error e), state)
  read_member rel (ok raw) state = (ok raw, record state { raws = (rel, raw) ∷ state.raws })

  read_stored : Bytes → Option (Option Bytes) → Step E F (Option Bytes)
  unfolding read_member
  read_stored rel (some raw) = done (ok raw)
  read_stored rel none = read_member rel (member rel)

  -- `resolver.read`.
  unfoldable pub read : Bytes → Step E F (Option Bytes)
  unfolding read_stored find
  read rel state = read_stored rel (find rel state.raws) state

  -- What becomes of a member: its value, or why there is none, remembered.
  store_bad : Bytes → Why → Step E F (Doc F)
  store_bad rel why state = (err (unresolved why), record state { bad = (rel, why) ∷ state.bad })

  store_decoded : Bytes → Option (Doc F) → Step E F (Doc F)
  unfolding store_bad
  store_decoded rel none state = store_bad rel (not_json rel) state
  store_decoded rel (some d) state = (ok d, record state { docs = (rel, d) ∷ state.docs })

  store_doc : Bytes → Option Bytes → Step E F (Doc F)
  unfolding store_bad store_decoded
  store_doc rel none = store_bad rel (not_carried rel)
  store_doc rel (some raw) = store_decoded rel (decode raw)

  read_doc : Bytes → Option (Doc F) → Option Why → Step E F (Doc F)
  unfolding read store_doc
  read_doc rel (some d) _ = done (ok d)
  read_doc rel none (some why) = done (err (unresolved why))
  read_doc rel none none = read rel then_step store_doc rel

  -- `resolver.doc`.
  unfoldable pub doc : Bytes → Step E F (Doc F)
  unfolding read_doc find
  doc rel state = read_doc rel (find rel state.docs) (find rel state.bad) state

  -- `resolver.ref`.
  unfoldable pub ref : Bytes → Step E F (Doc F)
  unfolding doc pointed_at cut inside_root valid_pointer pointer
  ref s =
      let (rel, p) = cut s in
      if length rel == 0 || equal rel validation_file
      then done (err (unresolved (names_itself s)))
      else if not (inside_root rel)
      then done (err (unresolved (leaves_root s)))
      else if not (valid_pointer p)
      then done (err (unresolved (no_pointer s p)))
      else doc rel then_step λ d. done (pointed_at s rel (pointer d p))

  -- An object, by its "$ref", and the walk over its fields.
  at_ref : Option (Doc F) → Bool → Step E F (Fields F × Bool) → Step E F (Doc F × Bool)
  unfolding ref
  at_ref none one rest = rest then_step λ r. done (ok (object r.0, r.1))
  at_ref (some (text s)) true rest = ref s then_step λ d. done (ok (d, true))
  at_ref (some _) one rest = done (err ref_form)

  unfoldable mutual
    unfolding at_ref lookup

    -- `resolver.walk`.
    pub walk : Doc F → Step E F (Doc F × Bool)
    walk null = done (ok (null, false))
    walk (boolean b) = done (ok (boolean b, false))
    walk (number f) = done (ok (number f, false))
    walk (text s) = done (ok (text s, false))
    walk (list vs) = walk_list vs then_step λ r. done (ok (list r.0, r.1))
    walk (object fs) = at_ref (lookup (codes "$ref") fs) (single fs) (walk_fields fs)

    pub walk_list : Docs F → Step E F (Docs F × Bool)
    walk_list no_docs = done (ok (no_docs, false))
    walk_list (doc_then v vs) =
        walk v then_step λ a. walk_list vs then_step λ b. done (ok (doc_then a.0 b.0, a.1 || b.1))

    pub walk_fields : Fields F → Step E F (Fields F × Bool)
    walk_fields no_fields = done (ok (no_fields, false))
    walk_fields (field_then key v fs) = walk v then_step λ a.
        walk_fields fs then_step λ b. done (ok (field_then key a.0 b.0, a.1 || b.1))
