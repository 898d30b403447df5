-- ===== src/Pkg/Runtimes/Ceilings.antt =====
-- The ceilings that a runtime demands are enough.
use aii_plugin_sdk.Pkg.Runtimes.Valid.{HasExtent, IsRuntime}
use aii_plugin_sdk.Pkg.Runtimes.Exceeds.{Exceeds, Named}
use aii_plugin_sdk.Pkg.Runtimes.Exceeds.Listed.{Named-Exceeds}
use mathlib.Core.Path.{refl}
use aii_plugin_sdk.Prelude.{
  List, Option, [], ap, arith, false, if_cases, if_rule₂, if◌then◌else◌, none, some, subst, true, ℕ,
  ◌++◌, ◌<◌, ◌↔◌, ◌∙◌, ◌∷◌, ◌≡◌,
}
use aii_plugin_sdk.Prelude.Int.{negsuc, pos, pos_part, ℤ}
use aii_plugin_sdk.Pkg.Runtimes.{
  Ceiling, RuntimeDecl, TreeLimits, compressed_ceiling, depth_ceiling, exceeded_ceilings, exceeds,
  exceeds_if, file_ceiling, files_ceiling, filled, for_decl, installed_ceiling, is_above,
  is_positive, or_limit,
}

-- A limit set to the value of a ceiling, and all limits to those of a map of ceilings.
abbrev raise : TreeLimits → Ceiling × ℤ → TreeLimits
raise l (installed_ceiling, v) = record l { max_installed_bytes = v }
raise l (files_ceiling, v) = record l { max_files = v }
raise l (file_ceiling, v) = record l { max_file_bytes = v }
raise l (compressed_ceiling, v) = record l { max_compressed_bytes = v }
raise l (depth_ceiling, v) = record l { max_depth = v }

abbrev pub raised : TreeLimits → List (Ceiling × ℤ) → TreeLimits
raised l [] = l
raised l (c ∷ cs) = raised (raise l c) cs

raised-append :
    (l : TreeLimits) (cs ds : List (Ceiling × ℤ)) → raised l (cs ++ ds) ≡ raised (raised l cs) ds
raised-append l [] ds = refl
raised-append l (c ∷ cs) ds = raised-append (raise l c) cs ds

above_self : (v : ℤ) → is_above v v ≡ false
above_self (pos n) = ground arith
above_self (negsuc n) = ground arith

-- What is left of a value that is above its limit, or of the limit that was set.
abbrev pick : ℤ → ℤ → ℤ → ℤ
pick v limit raw = if is_above v limit then v else raw

-- A limit `g raw` that is derived from the one set, and keeps the value, is not exceeded again.
exceeds-pick :
    (c : Ceiling) (g : ℤ → ℤ) (v raw : ℤ) → g v ≡ v → exceeds c v (g (pick v (g raw) raw)) ≡ []
unfolding exceeds
exceeds-pick c g v raw e =
    if_cases (λ r. exceeds c v (g r) ≡ []) (is_above v (g raw)) (λ _. rw (e, above_self v) refl)
      (λ h. rw h refl)

or_limit_positive : (v d : ℤ) → is_positive v ≡ true → or_limit v d ≡ v
or_limit_positive v d h = rw h refl

abbrev pick_if : Option ℤ → ℤ → ℤ → ℤ
pick_if none limit raw = raw
pick_if (some v) limit raw = pick v limit raw

-- Limits of which each is raised if its value is above what was derived from it.
abbrev picked : RuntimeDecl → TreeLimits → TreeLimits → TreeLimits
picked d derived l = record l {
  max_installed_bytes = pick d.installed_bytes derived.max_installed_bytes l.max_installed_bytes;
  max_files = pick d.files derived.max_files l.max_files;
  max_compressed_bytes = pick d.size derived.max_compressed_bytes l.max_compressed_bytes;
  max_file_bytes = pick_if d.largest_file_bytes derived.max_file_bytes l.max_file_bytes;
  max_depth = pick_if d.depth derived.max_depth l.max_depth;
}

raised_installed :
    (l : TreeLimits) (v limit : ℤ)
    → raised l (exceeds installed_ceiling v limit)
      ≡ record l { max_installed_bytes = pick v limit l.max_installed_bytes }
unfolding exceeds
raised_installed l v limit =
    if_rule₂ (λ cs r. raised l cs ≡ record l { max_installed_bytes = r }) (is_above v limit) refl
      refl

raised_files :
    (l : TreeLimits) (v limit : ℤ)
    → raised l (exceeds files_ceiling v limit) ≡ record l { max_files = pick v limit l.max_files }
unfolding exceeds
raised_files l v limit =
    if_rule₂ (λ cs r. raised l cs ≡ record l { max_files = r }) (is_above v limit) refl refl

raised_compressed :
    (l : TreeLimits) (v limit : ℤ)
    → raised l (exceeds compressed_ceiling v limit)
      ≡ record l { max_compressed_bytes = pick v limit l.max_compressed_bytes }
unfolding exceeds
raised_compressed l v limit =
    if_rule₂ (λ cs r. raised l cs ≡ record l { max_compressed_bytes = r }) (is_above v limit) refl
      refl

raised_file :
    (l : TreeLimits) (v : Option ℤ) (limit : ℤ)
    → raised l (exceeds_if file_ceiling v limit)
      ≡ record l { max_file_bytes = pick_if v limit l.max_file_bytes }
unfolding exceeds_if exceeds
raised_file l none limit = refl
raised_file l (some v) limit =
    if_rule₂ (λ cs r. raised l cs ≡ record l { max_file_bytes = r }) (is_above v limit) refl refl

raised_depth :
    (l : TreeLimits) (v : Option ℤ) (limit : ℤ)
    → raised l (exceeds_if depth_ceiling v limit)
      ≡ record l { max_depth = pick_if v limit l.max_depth }
unfolding exceeds_if exceeds
raised_depth l none limit = refl
raised_depth l (some v) limit =
    if_rule₂ (λ cs r. raised l cs ≡ record l { max_depth = r }) (is_above v limit) refl refl

raised-exceeded_ceilings :
    (d : RuntimeDecl) (l : TreeLimits)
    → raised l (exceeded_ceilings d l) ≡ picked d (for_decl l d) l
unfolding exceeded_ceilings
raised-exceeded_ceilings d l =
    let m = for_decl l d in
    let e1 = exceeds installed_ceiling d.installed_bytes m.max_installed_bytes in
    let e2 = exceeds files_ceiling d.files m.max_files in
    let e3 = exceeds compressed_ceiling d.size m.max_compressed_bytes in
    let e4 = exceeds_if file_ceiling d.largest_file_bytes m.max_file_bytes in
    let e5 = exceeds_if depth_ceiling d.depth m.max_depth in
    let l1 = record l {
      max_installed_bytes = pick d.installed_bytes m.max_installed_bytes l.max_installed_bytes;
    } in
    let l2 = record l1 { max_files = pick d.files m.max_files l.max_files } in
    let l3 = record l2 {
      max_compressed_bytes = pick d.size m.max_compressed_bytes l.max_compressed_bytes;
    } in
    let l4 = record l3 {
      max_file_bytes = pick_if d.largest_file_bytes m.max_file_bytes l.max_file_bytes;
    } in
    raised-append l e1 (e2 ++ (e3 ++ (e4 ++ e5)))
    ∙ ap (λ r. raised r (e2 ++ (e3 ++ (e4 ++ e5))))
        (raised_installed l d.installed_bytes m.max_installed_bytes)
    ∙ raised-append l1 e2 (e3 ++ (e4 ++ e5))
    ∙ ap (λ r. raised r (e3 ++ (e4 ++ e5))) (raised_files l1 d.files m.max_files)
    ∙ raised-append l2 e3 (e4 ++ e5)
    ∙ ap (λ r. raised r (e4 ++ e5)) (raised_compressed l2 d.size m.max_compressed_bytes)
    ∙ raised-append l3 e4 e5
    ∙ ap (λ r. raised r e5) (raised_file l3 d.largest_file_bytes m.max_file_bytes)
    ∙ raised_depth l4 d.depth m.max_depth

all_empty :
    {a b c d e : List (Ceiling × ℤ)}
    → a ≡ []
    → b ≡ []
    → c ≡ []
    → d ≡ []
    → e ≡ []
    → a ++ (b ++ (c ++ (d ++ e))) ≡ []
all_empty p q r s t = rw (p, q, r, s, t) refl

-- A declared value that is not there, or positive.
abbrev PositiveIf : Option ℤ → Type 0
PositiveIf none = Unit
PositiveIf (some v) = is_positive v ≡ true

exceeds_if-pick_if :
    (c : Ceiling) (g : ℤ → ℤ) (v : Option ℤ) (raw : ℤ)
    → PositiveIf v
    → ((v : ℤ) → is_positive v ≡ true → g v ≡ v)
    → exceeds_if c v (g (pick_if v (g raw) raw)) ≡ []
unfolding exceeds_if
exceeds_if-pick_if c g none raw p k = refl
exceeds_if-pick_if c g (some v) raw p k = exceeds-pick c g v raw (k v p)

twice_positive : (a b v : ℤ) → is_positive v ≡ true → or_limit (or_limit v a) b ≡ v
twice_positive a b v h = ap (λ r. or_limit r b) (or_limit_positive v a h) ∙ or_limit_positive v b h

part_positive : (v : ℤ) → 0 < pos_part v → is_positive v ≡ true
part_positive (pos n) h = ground arith
part_positive (negsuc n) h = absurd (omega arith)

HasExtent-PositiveIf :
    (installed files : ℕ) (largest depth : Option ℤ)
    → HasExtent installed files largest depth
    → PositiveIf largest × PositiveIf depth
HasExtent-PositiveIf installed files none none e = (tt, tt)
HasExtent-PositiveIf installed files (some l) (some k) (p, _, _, q, _) =
    (part_positive l p, part_positive k q)
HasExtent-PositiveIf installed files none (some k) e = absurd e
HasExtent-PositiveIf installed files (some l) none e = absurd e

exceeded_ceilings-picked :
    (d : RuntimeDecl) (l : TreeLimits)
    → IsRuntime d
    → exceeded_ceilings d (picked d (for_decl l d) l) ≡ []
unfolding exceeded_ceilings for_decl filled
exceeded_ceilings-picked d l r =
    let (file, depth) =
      HasExtent-PositiveIf (pos_part d.installed_bytes) (pos_part d.files) d.largest_file_bytes
        d.depth r.extent in
    let bytes = part_positive d.installed_bytes r.bytes in
    let files = part_positive d.files r.files in
    let size = part_positive d.size r.size in
    all_empty
      (exceeds-pick installed_ceiling (λ v. or_limit (or_limit v (pos 0)) d.installed_bytes)
        d.installed_bytes l.max_installed_bytes
        (twice_positive (pos 0) d.installed_bytes d.installed_bytes bytes))
      (exceeds-pick files_ceiling (λ v. or_limit v (pos 32768)) d.files l.max_files
        (or_limit_positive d.files (pos 32768) files))
      (exceeds-pick compressed_ceiling (λ v. or_limit (or_limit v (pos 0)) d.size) d.size
        l.max_compressed_bytes (twice_positive (pos 0) d.size d.size size))
      (exceeds_if-pick_if file_ceiling (λ v. or_limit (or_limit v (pos 0)) d.installed_bytes)
        d.largest_file_bytes l.max_file_bytes file
        (λ v h. twice_positive (pos 0) d.installed_bytes v h))
      (exceeds_if-pick_if depth_ceiling (λ v. or_limit v (pos 24)) d.depth l.max_depth depth
        (λ v h. or_limit_positive v (pos 24) h))

-- For every runtime that is accepted and all limits, set or not, `ExceededCeilings` names exactly the
-- ceilings that the runtime exceeds, each with the runtime's value, and they are enough: if each
-- limit that is named is set to the value that is named, no ceiling is exceeded. The installed bytes
-- and the size exceed a limit only where one is set; where none is, files are held to 32768, the
-- depth to 24 and the largest file to the installed bytes.
pub exceeded_ceilings-raised :
    (d : RuntimeDecl) (limits : TreeLimits)
    → IsRuntime d
    → ((c : Ceiling) (v : ℤ) → Named c v (exceeded_ceilings d limits) ↔ Exceeds d limits c v)
      × ((c : Ceiling) (v : ℤ) → Exceeds d (raised limits (exceeded_ceilings d limits)) c v → ⊥)
exceeded_ceilings-raised d l r = (
  Named-Exceeds d l,
  λ c v x.
      subst (Named c v)
        (ap (exceeded_ceilings d) (raised-exceeded_ceilings d l) ∙ exceeded_ceilings-picked d l r)
        ((Named-Exceeds d (raised l (exceeded_ceilings d l)) c v).1 x),
)
