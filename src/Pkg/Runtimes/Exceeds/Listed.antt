-- ===== src/Pkg/Runtimes/Exceeds/Listed.antt =====
-- What `ExceededCeilings` lists.
use mathlib.Core.Path.{refl}
use aii_plugin_sdk.Prelude.{
  List, Option, [], ap, if_cases, inl, inr, none, some, subst, sym, true, ◌++◌, ◌↔◌, ◌∷◌, ◌≡◌, ◌⊎◌,
}
use aii_plugin_sdk.Prelude.Int.{pos, ℤ}
use aii_plugin_sdk.Pkg.Runtimes.{
  Ceiling, RuntimeDecl, TreeLimits, compressed_ceiling, depth_ceiling, exceeded_ceilings, exceeds,
  exceeds_if, file_ceiling, files_ceiling, filled, for_decl, installed_ceiling, is_above, or_limit,
}
use aii_plugin_sdk.Pkg.Runtimes.Exceeds.{
  AboveLimit, Exceeds, IsAbove, IsLimit, Named, above_itself, or_limit-AboveLimit, or_limit_twice,
}

-- The value of a runtime for a ceiling, if it has one, and the limit.
abbrev value_for : RuntimeDecl → Ceiling → Option ℤ
value_for d installed_ceiling = some d.installed_bytes
value_for d files_ceiling = some d.files
value_for d file_ceiling = d.largest_file_bytes
value_for d compressed_ceiling = some d.size
value_for d depth_ceiling = d.depth

abbrev limit_for : TreeLimits → Ceiling → ℤ
limit_for l installed_ceiling = l.max_installed_bytes
limit_for l files_ceiling = l.max_files
limit_for l file_ceiling = l.max_file_bytes
limit_for l compressed_ceiling = l.max_compressed_bytes
limit_for l depth_ceiling = l.max_depth

abbrev Judged : RuntimeDecl → TreeLimits → Ceiling → ℤ → Type 0
Judged d l c v = (value_for d c ≡ some v) × (is_above v (limit_for l c) ≡ true)

Named-append :
    (c : Ceiling) (v : ℤ) (xs ys : List (Ceiling × ℤ))
    → Named c v (xs ++ ys)
    → Named c v xs ⊎ Named c v ys
Named-append c v [] ys h = inr h
Named-append c v ((k, w) ∷ xs) ys (inl e) = inl (inl e)
Named-append c v ((k, w) ∷ xs) ys (inr h) = elim (Named-append c v xs ys h) [
  | inl x ↦ inl (inr x)
  | inr y ↦ inr y
]

Named-left :
    (c : Ceiling) (v : ℤ) (xs ys : List (Ceiling × ℤ)) → Named c v xs → Named c v (xs ++ ys)
Named-left c v [] ys h = absurd h
Named-left c v ((k, w) ∷ xs) ys (inl e) = inl e
Named-left c v ((k, w) ∷ xs) ys (inr h) = inr (Named-left c v xs ys h)

Named-right :
    (c : Ceiling) (v : ℤ) (xs ys : List (Ceiling × ℤ)) → Named c v ys → Named c v (xs ++ ys)
Named-right c v [] ys h = h
Named-right c v ((k, w) ∷ xs) ys h = inr (Named-right c v xs ys h)

Named-exceeds :
    (c k : Ceiling) (v w limit : ℤ)
    → Named c v (exceeds k w limit)
    → (k ≡ c) × (w ≡ v) × (is_above w limit ≡ true)
unfolding exceeds
Named-exceeds c k v w limit =
    if_cases (λ cs. Named c v cs → (k ≡ c) × (w ≡ v) × (is_above w limit ≡ true)) (is_above w limit)
      (λ e h. elim h [ inl (p, q) ↦ (p, q, e) | inr n ↦ absurd n ]) (λ _ h. absurd h)

Named-exceeds_if :
    (c k : Ceiling) (v limit : ℤ) (o : Option ℤ)
    → Named c v (exceeds_if k o limit)
    → (k ≡ c) × (o ≡ some v) × (is_above v limit ≡ true)
unfolding exceeds_if
Named-exceeds_if c k v limit none h = absurd h
Named-exceeds_if c k v limit (some w) h =
    let (p, q, a) = Named-exceeds c k v w limit h in
    (p, ap some q, subst (λ x. is_above x limit ≡ true) q a)

exceeds_if-Named :
    (c : Ceiling) (v limit : ℤ) (o : Option ℤ)
    → o ≡ some v
    → is_above v limit ≡ true
    → Named c v (exceeds_if c o limit)
unfolding exceeds_if exceeds
exceeds_if-Named c v limit none e a = absurd (cc)
exceeds_if-Named c v limit (some w) e a =
    let q : w ≡ v = cc in
    let b : is_above w limit ≡ true = subst (λ x. is_above x limit ≡ true) (sym q) a in
    rw b (inl (refl, q))

same_value : {A B : Type 0} (o : Option ℤ) (v : ℤ) → A ↔ B → ((o ≡ some v) × A) ↔ ((o ≡ some v) × B)
same_value o v (there, back) = ((λ (e, a). (e, there a)), (λ (e, b). (e, back b)))

some_value : {A B : Type 0} (w v : ℤ) → A ↔ B → ((some w ≡ some v) × A) ↔ ((w ≡ v) × B)
some_value w v (there, back) = ((λ (e, a). (cc, there a)), (λ (e, b). (ap some e, back b)))

-- A limit for which, if it is not set, the declared value stands in.
by_declared :
    (v l default : ℤ)
    → (is_above v (or_limit (or_limit l (pos 0)) default) ≡ true) ↔ AboveLimit v l default
by_declared v l default = rw (or_limit_twice l default) (or_limit-AboveLimit v l default)

whole :
    (w l v : ℤ)
    → ((some w ≡ some v) × (is_above v (or_limit (or_limit l (pos 0)) w) ≡ true))
      ↔ ((w ≡ v) × IsLimit l × IsAbove v l)
whole w l v = (
  λ (e, a).
      let q : w ≡ v = cc in
      let (x, y) = (above_itself v l).0 (subst (AboveLimit v l) q ((by_declared v l w).0 a)) in
      (q, x, y),
  λ (q, x, y). (
    ap some q,
    (by_declared v l w).1 (subst (AboveLimit v l) (sym q) ((above_itself v l).1 (x, y))),
  ),
)

module _ (d : RuntimeDecl) (l : TreeLimits) where
  -- The part of the list for one ceiling.
  abbrev part : Ceiling → List (Ceiling × ℤ)
  part c = exceeds_if c (value_for d c) (limit_for (for_decl l d) c)

  part-Judged : (c k : Ceiling) (v : ℤ) → Named c v (part k) → Judged d (for_decl l d) c v
  part-Judged c k v h =
      let (p, e, a) = Named-exceeds_if c k v (limit_for (for_decl l d) k) (value_for d k) h in
      subst (λ x. Judged d (for_decl l d) x v) p (e, a)

  Judged-part : (c : Ceiling) (v : ℤ) → Judged d (for_decl l d) c v → Named c v (part c)
  Judged-part c v (e, a) = exceeds_if-Named c v (limit_for (for_decl l d) c) (value_for d c) e a

  -- The parts in the order of the list.
  parts :
      exceeded_ceilings d l
      ≡ part installed_ceiling
        ++ (part files_ceiling
            ++ (part compressed_ceiling ++ (part file_ceiling ++ part depth_ceiling)))
  unfolding exceeded_ceilings exceeds_if
  parts = refl

  Named-Judged :
      (c : Ceiling) (v : ℤ) → Named c v (exceeded_ceilings d l) → Judged d (for_decl l d) c v
  Named-Judged c v h =
      elim (Named-append c v (part installed_ceiling) _ (subst (Named c v) parts h)) [
        | inl x ↦ part-Judged c installed_ceiling v x
        | inr h ↦ elim (Named-append c v (part files_ceiling) _ h) [
          | inl x ↦ part-Judged c files_ceiling v x
          | inr h ↦ elim (Named-append c v (part compressed_ceiling) _ h) [
            | inl x ↦ part-Judged c compressed_ceiling v x
            | inr h ↦ elim (Named-append c v (part file_ceiling) (part depth_ceiling) h) [
              | inl x ↦ part-Judged c file_ceiling v x
              | inr x ↦ part-Judged c depth_ceiling v x
            ]
          ]
        ]
      ]

  -- A value in each part is in the list.
  within : (c k : Ceiling) (v : ℤ) → Named k v (part c) → Named k v (exceeded_ceilings d l)
  within c k v h = subst (Named k v) (sym parts) (place c h)
    where
      place :
          (c : Ceiling)
          → Named k v (part c)
          → Named k v (
              part installed_ceiling
              ++ (part files_ceiling
                  ++ (part compressed_ceiling ++ (part file_ceiling ++ part depth_ceiling))))
      place installed_ceiling h = Named-left k v (part installed_ceiling) _ h
      place files_ceiling h =
          Named-right k v (part installed_ceiling) _ (Named-left k v (part files_ceiling) _ h)
      place compressed_ceiling h =
          Named-right k v (part installed_ceiling) _
            (Named-right k v (part files_ceiling) _ (Named-left k v (part compressed_ceiling) _ h))
      place file_ceiling h = Named-right k v (part installed_ceiling) _ (
          Named-right k v (part files_ceiling) _ (
            Named-right k v (part compressed_ceiling) _
              (Named-left k v (part file_ceiling) (part depth_ceiling) h)))
      place depth_ceiling h = Named-right k v (part installed_ceiling) _ (
          Named-right k v (part files_ceiling) _ (
            Named-right k v (part compressed_ceiling) _
              (Named-right k v (part file_ceiling) (part depth_ceiling) h)))

  -- What is judged by the limits that were filled in is what exceeds those that were set.
  Judged-Exceeds : (c : Ceiling) (v : ℤ) → Judged d (for_decl l d) c v ↔ Exceeds d l c v
  unfolding for_decl filled
  Judged-Exceeds installed_ceiling v = whole d.installed_bytes l.max_installed_bytes v
  Judged-Exceeds files_ceiling v =
      some_value d.files v (or_limit-AboveLimit v l.max_files (pos 32768))
  Judged-Exceeds file_ceiling v =
      same_value d.largest_file_bytes v (by_declared v l.max_file_bytes d.installed_bytes)
  Judged-Exceeds compressed_ceiling v = whole d.size l.max_compressed_bytes v
  Judged-Exceeds depth_ceiling v = same_value d.depth v (or_limit-AboveLimit v l.max_depth (pos 24))

  -- What `ExceededCeilings` names is what exceeds a ceiling.
  pub Named-Exceeds : (c : Ceiling) (v : ℤ) → Named c v (exceeded_ceilings d l) ↔ Exceeds d l c v
  Named-Exceeds c v = (
    λ h. (Judged-Exceeds c v).0 (Named-Judged c v h),
    λ x. within c c v (Judged-part c v ((Judged-Exceeds c v).1 x)),
  )
