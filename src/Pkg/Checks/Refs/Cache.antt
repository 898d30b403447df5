-- ===== src/Pkg/Checks/Refs/Cache.antt =====
-- What the resolver remembers does not change what it finds.
use mathlib.Core.Path.{refl}
use aii_plugin_sdk.Prelude.{
  Bool, Bool-cases, List, Option, Result, ap, err, false, if_rule₂, if◌then◌else◌, inl, inr, length,
  none, not, ok, some, subst, sym, true, ◌==◌, ◌||◌, ◌∷◌, ◌≡◌,
}
use aii_plugin_sdk.Prelude.Bytes.{Bytes, codes, equal, equal_iff}
use aii_plugin_sdk.Prelude.Results.{◌>>=◌}
use aii_plugin_sdk.Pkg.Checks.{
  Doc, Docs, Fields, boolean, doc_then, field_then, list, lookup, no_docs, no_fields, null, number,
  object, text,
}
use aii_plugin_sdk.Pkg.Checks.Pointers.{pointer, valid_pointer}
use aii_plugin_sdk.Pkg.Checks.Refs.{
  RefError, Resolver, Step, Why, at_ref, cut, doc, done, find, inside_root, leaves_root,
  names_itself, no_pointer, not_carried, not_json, passed_on, pointed_at, read, read_doc,
  read_error, read_member, read_stored, ref, ref_form, single, store_bad, store_decoded, store_doc,
  unresolved, walk, walk_fields, walk_list, ◌then_step◌,
}

module _ {E F : Type 0} (member : Bytes → Result E (Option Bytes))
    (decode : Bytes → Option (Doc F)) where
  -- The same without memory: every member is read whenever it is named.
  member_read : Result E (Option Bytes) → Result (RefError E) (Option Bytes)
  member_read (err e) = err (read_error e)
  member_read (ok raw) = ok raw

  decoded : Bytes → Option (Doc F) → Result (RefError E) (Doc F)
  decoded rel none = err (unresolved (not_json rel))
  decoded rel (some d) = ok d

  doc_of : Bytes → Option Bytes → Result (RefError E) (Doc F)
  unfolding decoded
  doc_of rel none = err (unresolved (not_carried rel))
  doc_of rel (some raw) = decoded rel (decode raw)

  pub plain_doc : Bytes → Result (RefError E) (Doc F)
  unfolding member_read doc_of
  plain_doc rel = member_read (member rel) >>= doc_of rel

  pub plain_ref : Bytes → Result (RefError E) (Doc F)
  unfolding plain_doc
  plain_ref s =
      let (rel, p) = cut s in
      if length rel == 0 || equal rel (codes "validation.json")
      then err (unresolved (names_itself s))
      else if not (inside_root rel)
      then err (unresolved (leaves_root s))
      else if not (valid_pointer p)
      then err (unresolved (no_pointer s p))
      else (plain_doc rel >>= λ d. pointed_at s rel (pointer d p))

  plain_at :
      Option (Doc F)
      → Bool
      → Result (RefError E) (Fields F × Bool)
      → Result (RefError E) (Doc F × Bool)
  unfolding plain_ref
  plain_at none one rest = rest >>= λ r. ok (object r.0, r.1)
  plain_at (some (text s)) true rest = plain_ref s >>= λ d. ok (d, true)
  plain_at (some _) one rest = err ref_form

  unfoldable mutual
    unfolding plain_at

    pub resolved : Doc F → Result (RefError E) (Doc F × Bool)
    resolved null = ok (null, false)
    resolved (boolean b) = ok (boolean b, false)
    resolved (number f) = ok (number f, false)
    resolved (text s) = ok (text s, false)
    resolved (list vs) = resolved_list vs >>= λ r. ok (list r.0, r.1)
    resolved (object fs) = plain_at (lookup (codes "$ref") fs) (single fs) (resolved_fields fs)

    pub resolved_list : Docs F → Result (RefError E) (Docs F × Bool)
    resolved_list no_docs = ok (no_docs, false)
    resolved_list (doc_then v vs) =
        resolved v >>= λ a. resolved_list vs >>= λ b. ok (doc_then a.0 b.0, a.1 || b.1)

    pub resolved_fields : Fields F → Result (RefError E) (Fields F × Bool)
    resolved_fields no_fields = ok (no_fields, false)
    resolved_fields (field_then key v fs) =
        resolved v >>= λ a. resolved_fields fs >>= λ b. ok (field_then key a.0 b.0, a.1 || b.1)

  -- What is remembered is what reading gives.
  pub record IsFaithful (state : Resolver F) : Type 0 where
    pub docs_read : (rel : Bytes) (d : Doc F) → find rel state.docs ≡ some d → plain_doc rel ≡ ok d
    pub bad_read :
        (rel : Bytes) (why : Why)
        → find rel state.bad ≡ some why
        → plain_doc rel ≡ err (unresolved why)
    pub raws_read :
        (rel : Bytes) (raw : Option Bytes) → find rel state.raws ≡ some raw → member rel ≡ ok raw

  Gives : {A : Type 0} → Step E F A → Result (RefError E) A → Type 0
  Gives m r = (state : Resolver F) → IsFaithful state → ((m state).0 ≡ r) × IsFaithful (m state).1

  Gives-done : {A : Type 0} (r : Result (RefError E) A) → Gives (done r) r
  unfolding Gives
  Gives-done r state f = (refl, f)

  from_result :
      {A B : Type 0} (k : A → Step E F B) (q : A → Result (RefError E) B)
      (x r : Result (RefError E) A) (next : Resolver F)
      → x ≡ r
      → IsFaithful next
      → ((a : A) → r ≡ ok a → Gives (k a) (q a))
      → ((passed_on k (x, next)).0 ≡ (r >>= q)) × IsFaithful (passed_on k (x, next)).1
  unfolding Gives
  from_result k q (err a) (err b) next e g i = (cc, g)
  from_result k q (err a) (ok b) next e g i = absurd (cc)
  from_result k q (ok a) (err b) next e g i = absurd (cc)
  from_result k q (ok a) (ok b) next e g i =
      let j : a ≡ b = cc in
      subst (λ y. ((k a next).0 ≡ q y) × IsFaithful (k a next).1) j (i a (ap ok (sym j)) next g)

  Gives-then_step :
      {A B : Type 0} (m : Step E F A) (r : Result (RefError E) A) (k : A → Step E F B)
      (q : A → Result (RefError E) B)
      → Gives m r
      → ((a : A) → r ≡ ok a → Gives (k a) (q a))
      → Gives (m then_step k) (r >>= q)
  unfolding Gives
  Gives-then_step m r k q h i state f =
      let (e, g) = h state f in from_result k q (m state).0 r (m state).1 e g i

  -- A newly stored entry.
  find-stored :
      {A : Type 0} (P : Bytes → A → Type 0) (rel : Bytes) (a : A) (es : List (Bytes × A))
      → P rel a
      → ((k : Bytes) (x : A) → find k es ≡ some x → P k x)
      → (k : Bytes) (x : A) → find k ((rel, a) ∷ es) ≡ some x
      → P k x
  unfolding find
  find-stored P rel a es p h k x e = elim (Bool-cases (equal rel k)) [
    | inl t ↦
        let i : rel ≡ k = (equal_iff rel k).0 t in
        let j : a ≡ x = (let f = rw t at e in cc) in subst (λ y. P k y) j (subst (λ y. P y a) i p)
    | inr t ↦ h k x (rw t at e)
  ]

  read_member-Gives :
      (rel : Bytes) (m : Result E (Option Bytes))
      → member rel ≡ m
      → Gives (read_member member decode rel m) (member_read m)
  unfolding Gives read_member member_read
  read_member-Gives rel (err x) e state f = (refl, f)
  read_member-Gives rel (ok raw) e state f = (
    refl,
    record {
      docs_read = f.docs_read;
      bad_read = f.bad_read;
      raws_read = find-stored (λ k x. member k ≡ ok x) rel raw state.raws e f.raws_read;
    },
  )

  read-Gives : (rel : Bytes) → Gives (read member decode rel) (member_read (member rel))
  unfolding Gives read member_read
  read-Gives rel state f = from_stored (find rel state.raws) refl
    where
      from_stored :
          (o : Option (Option Bytes))
          → find rel state.raws ≡ o
          → ((read_stored member decode rel o state).0 ≡ member_read (member rel))
            × IsFaithful (read_stored member decode rel o state).1
      from_stored none e = read_member-Gives rel (member rel) refl state f
      from_stored (some raw) e = (sym (ap member_read (f.raws_read rel raw e)), f)

  store_bad-Gives :
      (rel : Bytes) (why : Why)
      → plain_doc rel ≡ err (unresolved why)
      → Gives (store_bad member decode rel why) (err (unresolved why))
  unfolding Gives store_bad
  store_bad-Gives rel why e state f = (
    refl,
    record {
      docs_read = f.docs_read;
      raws_read = f.raws_read;
      bad_read =
          find-stored (λ k x. plain_doc k ≡ err (unresolved x)) rel why state.bad e f.bad_read;
    },
  )

  store_decoded-Gives :
      (rel : Bytes) (o : Option (Doc F))
      → plain_doc rel ≡ decoded rel o
      → Gives (store_decoded member decode rel o) (decoded rel o)
  unfolding Gives store_decoded decoded
  store_decoded-Gives rel none e state f = store_bad-Gives rel (not_json rel) e state f
  store_decoded-Gives rel (some d) e state f = (
    refl,
    record {
      bad_read = f.bad_read;
      raws_read = f.raws_read;
      docs_read = find-stored (λ k x. plain_doc k ≡ ok x) rel d state.docs e f.docs_read;
    },
  )

  store_doc-Gives :
      (rel : Bytes) (raw : Option Bytes)
      → plain_doc rel ≡ doc_of rel raw
      → Gives (store_doc member decode rel raw) (doc_of rel raw)
  unfolding store_doc doc_of
  store_doc-Gives rel none e = store_bad-Gives rel (not_carried rel) e
  store_doc-Gives rel (some raw) e = store_decoded-Gives rel (decode raw) e

  plain_doc-read :
      (rel : Bytes) (raw : Option Bytes)
      → member_read (member rel) ≡ ok raw
      → plain_doc rel ≡ doc_of rel raw
  unfolding plain_doc
  plain_doc-read rel raw e = rw e refl

  doc-Gives : (rel : Bytes) → Gives (doc member decode rel) (plain_doc rel)
  unfolding Gives doc plain_doc member_read
  doc-Gives rel state f = from_stored (find rel state.docs) (find rel state.bad) refl refl
    where
      from_stored :
          (o : Option (Doc F)) (b : Option Why)
          → find rel state.docs ≡ o
          → find rel state.bad ≡ b
          → ((read_doc member decode rel o b state).0 ≡ plain_doc rel)
            × IsFaithful (read_doc member decode rel o b state).1
      from_stored (some d) b e g = (sym (f.docs_read rel d e), f)
      from_stored none (some why) e g = (sym (f.bad_read rel why g), f)
      from_stored none none e g =
          Gives-then_step (read member decode rel) _ (store_doc member decode rel) (doc_of rel)
            (read-Gives rel) (λ raw h. store_doc-Gives rel raw (plain_doc-read rel raw h)) state f

  ref-Gives : (s : Bytes) → Gives (ref member decode s) (plain_ref s)
  unfolding ref plain_ref
  ref-Gives s =
      let rel = (cut s).0 in
      let p = (cut s).1 in
      if_rule₂ Gives (length rel == 0 || equal rel (codes "validation.json")) (Gives-done _) (
        if_rule₂ Gives (not (inside_root rel)) (Gives-done _) (
          if_rule₂ Gives (not (valid_pointer p)) (Gives-done _) (
            Gives-then_step (doc member decode rel) _ _ _ (doc-Gives rel)
              (λ d _. Gives-done (pointed_at s rel (pointer d p))))))

  at_ref-Gives :
      (o : Option (Doc F)) (one : Bool) (m : Step E F (Fields F × Bool))
      (r : Result (RefError E) (Fields F × Bool))
      → Gives m r
      → Gives (at_ref member decode o one m) (plain_at o one r)
  unfolding at_ref plain_at
  at_ref-Gives none one m r h = Gives-then_step m r _ _ h (λ a _. Gives-done _)
  at_ref-Gives (some (text s)) true m r h =
      Gives-then_step (ref member decode s) _ _ _ (ref-Gives s) (λ d _. Gives-done _)
  at_ref-Gives (some (text s)) false m r h = Gives-done _
  at_ref-Gives (some null) one m r h = Gives-done _
  at_ref-Gives (some (boolean b)) one m r h = Gives-done _
  at_ref-Gives (some (number x)) one m r h = Gives-done _
  at_ref-Gives (some (list vs)) one m r h = Gives-done _
  at_ref-Gives (some (object fs)) one m r h = Gives-done _

  mutual
    unfolding walk resolved

    walk-Gives : (v : Doc F) → Gives (walk member decode v) (resolved v)
    walk-Gives null = Gives-done _
    walk-Gives (boolean b) = Gives-done _
    walk-Gives (number x) = Gives-done _
    walk-Gives (text s) = Gives-done _
    walk-Gives (list vs) =
        Gives-then_step (walk_list member decode vs) _ _ _ (walk_list-Gives vs)
          (λ a _. Gives-done _)
    walk-Gives (object fs) =
        at_ref-Gives (lookup (codes "$ref") fs) (single fs) _ _ (walk_fields-Gives fs)

    walk_list-Gives : (vs : Docs F) → Gives (walk_list member decode vs) (resolved_list vs)
    walk_list-Gives no_docs = Gives-done _
    walk_list-Gives (doc_then v vs) =
        Gives-then_step (walk member decode v) _ _ _ (walk-Gives v) (λ a _.
          Gives-then_step (walk_list member decode vs) _ _ _ (walk_list-Gives vs)
            (λ b _. Gives-done _))

    walk_fields-Gives : (fs : Fields F) → Gives (walk_fields member decode fs) (resolved_fields fs)
    walk_fields-Gives no_fields = Gives-done _
    walk_fields-Gives (field_then key v fs) =
        Gives-then_step (walk member decode v) _ _ _ (walk-Gives v) (λ a _.
          Gives-then_step (walk_fields member decode fs) _ _ _ (walk_fields-Gives fs)
            (λ b _. Gives-done _))

  -- What the resolver remembers changes nothing: with a memory that is faithful to the members,
  -- `walk` gives the value or the error that it gives when every member is read whenever it is
  -- named, and its memory is faithful again.
  pub walk_lem :
      (v : Doc F) (state : Resolver F)
      → IsFaithful state
      → ((walk member decode v state).0 ≡ resolved v) × IsFaithful (walk member decode v state).1
  unfolding Gives
  walk_lem v state f = walk-Gives v state f
