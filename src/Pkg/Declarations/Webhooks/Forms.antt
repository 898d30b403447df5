-- ===== src/Pkg/Declarations/Webhooks/Forms.antt =====
-- The forms of a webhook's path and header, and the settings and schemes it may name.
use aii_plugin_sdk.Pkg.Versions.{cons_head, split}
use mathlib.Core.Path.{refl}
use aii_plugin_sdk.Prelude.{
  &&-left, &&-right, ==_iff, Bool, Bool-cases, List, [], any, ap, arith, false, if◌then◌else◌, inl,
  inr, length, map, subst, sym, true, ℕ, ◌&&◌, ◌++◌, ◌==◌, ◌||◌, ◌↔◌, ◌∙◌, ◌∷◌, ◌≡◌, ◌≤◌, ◌⊎◌,
}
use aii_plugin_sdk.Prelude.Bytes.{Bytes, codes, equal, equal_iff}
use aii_plugin_sdk.Prelude.Each.{Each, Some, all-Each_iff, any-Some_iff}
use aii_plugin_sdk.Prelude.Fold.{SameFold, SameLetter, map-SameFold_iff}
use aii_plugin_sdk.Pkg.Declarations.Webhooks.{
  SettingDecl, declared, equal_fold, header_name, is_lower_or_digit, lower, schemes, upper,
  webhook_path, webhook_segment,
}

abbrev IsLowerOrDigit : ℕ → Type 0
IsLowerOrDigit c = ((b'a' ≤ c) × (c ≤ b'z')) ⊎ ((b'0' ≤ c) × (c ≤ b'9'))

abbrev IsSegmentByte : ℕ → Type 0
IsSegmentByte c = IsLowerOrDigit c ⊎ ((c ≡ b'_') ⊎ (c ≡ b'-'))

abbrev IsHeaderByte : ℕ → Type 0
IsHeaderByte c = ((b'A' ≤ c) × (c ≤ b'Z')) ⊎ (IsLowerOrDigit c ⊎ (c ≡ b'-'))

-- One to 64 bytes, the first of which is a lower-case letter or a digit.
abbrev pub IsSegment : Bytes → Type 0
IsSegment [] = ⊥
IsSegment (c ∷ s) = IsLowerOrDigit c × Each IsSegmentByte s × (length s ≤ 63)

-- The segments with a slash between any two.
after_slashes : List Bytes → Bytes
after_slashes [] = []
after_slashes (s ∷ ss) = b'/' ∷ (s ++ after_slashes ss)

pub joined : List Bytes → Bytes
joined [] = []
joined (s ∷ ss) = s ++ after_slashes ss

-- One to four segments.
abbrev pub IsWebhookPath : Bytes → Type 0
IsWebhookPath p =
    (ss : List Bytes) × (p ≡ joined ss) × (1 ≤ length ss) × (length ss ≤ 4) × Each IsSegment ss

-- One to 64 letters, digits and dashes.
abbrev pub IsHeaderName : Bytes → Type 0
IsHeaderName h = Each IsHeaderByte h × (1 ≤ length h) × (length h ≤ 64)

abbrev pub IsScheme : Bytes → Type 0
IsScheme s =
    (s ≡ codes "hmac-sha256-hex")
    ⊎ ((s ≡ codes "hmac-sha256-base64")
        ⊎ ((s ≡ codes "twilio") ⊎ ((s ≡ codes "token") ⊎ (s ≡ codes "google-oidc"))))

-- A setting of the type is declared under the key.
abbrev pub IsDeclared : Bytes → List SettingDecl → Bytes → Type 0
IsDeclared type settings key = Some (λ (s : SettingDecl). (s.type ≡ type) × (s.key ≡ key)) settings

webhook_segment_iff : (s : Bytes) → (webhook_segment s ≡ true) ↔ IsSegment s
unfolding webhook_segment
webhook_segment_iff [] = (λ h. absurd (cc), λ h. absurd h)
webhook_segment_iff (c ∷ s) =
    let (there, back) =
      all-Each_iff (λ d. is_lower_or_digit d || d == b'_' || d == b'-') IsSegmentByte
        (λ d. ground arith) s in
    (
      λ h. (ground arith, there (ground arith), ground arith),
      λ (a, b, c). let b' = back b in ground arith,
    )

pub header_name_iff : (h : Bytes) → (header_name h ≡ true) ↔ IsHeaderName h
unfolding header_name
header_name_iff h =
    let (there, back) =
      all-Each_iff (λ c. upper c || is_lower_or_digit c || c == b'-') IsHeaderByte
        (λ c. ground arith) h in
    (
      λ e. (there (ground arith), ground arith, ground arith),
      λ (a, b, c). let a' = back a in ground arith,
    )

pub declared_iff :
    (type : Bytes) (settings : List SettingDecl) (key : Bytes)
    → (declared type settings key ≡ true) ↔ IsDeclared type settings key
unfolding declared
declared_iff type settings key =
    any-Some_iff (λ (s : SettingDecl). equal s.type type && equal s.key key)
      (λ s. (s.type ≡ type) × (s.key ≡ key))
      (λ s.
        let (e, f) = equal_iff s.type type in
        let (g, h) = equal_iff s.key key in
        (λ b. (e (&&-left _ _ b), g (&&-right _ _ b)), λ (p, q). rw (f p, h q) refl))
      settings

pub schemes_iff : (s : Bytes) → (any (equal s) schemes ≡ true) ↔ IsScheme s
schemes_iff s =
    let (e, f) = any-Some_iff (equal s) (λ x. s ≡ x) (λ x. equal_iff s x) schemes in
    (
      λ h. elim (e h) [
        | inl a ↦ inl a
        | inr (inl a) ↦ inr (inl a)
        | inr (inr (inl a)) ↦ inr (inr (inl a))
        | inr (inr (inr (inl a))) ↦ inr (inr (inr (inl a)))
        | inr (inr (inr (inr (inl a)))) ↦ inr (inr (inr (inr a)))
        | inr (inr (inr (inr (inr a)))) ↦ absurd a
      ],
      λ h. f (elim h [
        | inl a ↦ inl a
        | inr (inl a) ↦ inr (inl a)
        | inr (inr (inl a)) ↦ inr (inr (inl a))
        | inr (inr (inr (inl a))) ↦ inr (inr (inr (inl a)))
        | inr (inr (inr (inr a))) ↦ inr (inr (inr (inr (inl a))))
      ]),
    )

lower-SameLetter : (c d : ℕ) → (lower c ≡ lower d) ↔ SameLetter c d
unfolding lower
lower-SameLetter c d =
    (λ (h : lower c ≡ lower d). ground arith, λ (h : SameLetter c d). ground arith)

pub equal_fold_iff : (a b : Bytes) → (equal_fold a b ≡ true) ↔ SameFold a b
unfolding equal_fold
equal_fold_iff a b =
    let (e, f) = equal_iff (map lower a) (map lower b) in
    let (g, h) = map-SameFold_iff lower lower-SameLetter a b in (λ x. g (e x), λ x. f (h x))

split-some : (s : Bytes) → (t : Bytes) × (ts : List Bytes) × (split b'/' s ≡ t ∷ ts)
unfolding split cons_head
split-some [] = ([], [], refl)
split-some (c ∷ s) = by_first (c == b'/') (split b'/' s)
  where
    by_first :
        (x : Bool) (rest : List Bytes)
        → (t : Bytes) × (ts : List Bytes) × ((if x then [] ∷ rest else cons_head c rest) ≡ t ∷ ts)
    by_first true rest = ([], rest, refl)
    by_first false [] = (c ∷ [], [], refl)
    by_first false (t ∷ ts) = (c ∷ t, ts, refl)

joined-cons_head : (c : ℕ) (ss : List Bytes) → joined (cons_head c ss) ≡ c ∷ joined ss
unfolding joined after_slashes cons_head
joined-cons_head c [] = refl
joined-cons_head c (s ∷ ss) = refl

joined-split : (s : Bytes) → joined (split b'/' s) ≡ s
unfolding split joined after_slashes
joined-split [] = refl
joined-split (c ∷ s) = elim (Bool-cases (c == b'/')) [
  | inl e ↦
      let (t, ts, h) = split-some s in
      let k : joined (split b'/' s) ≡ s = joined-split s in
      rw (e, h) (ap (◌∷◌ b'/') (rw h at k) ∙ ap (λ x. x ∷ s) (sym ((==_iff c b'/').0 e)))
  | inr e ↦ rw e (joined-cons_head c (split b'/' s) ∙ ap (◌∷◌ c) (joined-split s))
]

split-joined :
    (s : Bytes) (ss : List Bytes)
    → Each IsSegmentByte s
    → Each (Each IsSegmentByte) ss
    → split b'/' (s ++ after_slashes ss) ≡ s ∷ ss
unfolding split cons_head after_slashes
split-joined [] [] h k = refl
split-joined [] (t ∷ ts) h (a, k) = ap (◌∷◌ []) (split-joined t ts a k)
split-joined (c ∷ s) ss (a, h) k =
    let e : (c == b'/') ≡ false = ground arith in rw (e, split-joined s ss h k) refl

segment_bytes : (s : Bytes) → IsSegment s → Each IsSegmentByte s
segment_bytes [] h = absurd h
segment_bytes (c ∷ s) (a, h, _) = (inl a, h)

segments_bytes : (ss : List Bytes) → Each IsSegment ss → Each (Each IsSegmentByte) ss
segments_bytes [] h = tt
segments_bytes (s ∷ ss) (a, h) = (segment_bytes s a, segments_bytes ss h)

split-segments : (ss : List Bytes) → 1 ≤ length ss → Each IsSegment ss → split b'/' (joined ss) ≡ ss
unfolding joined
split-segments [] h k = absurd (omega arith)
split-segments (s ∷ ss) h (a, k) = split-joined s ss (segment_bytes s a) (segments_bytes ss k)

pub webhook_path_iff : (p : Bytes) → (webhook_path p ≡ true) ↔ IsWebhookPath p
unfolding webhook_path
webhook_path_iff p =
    let (there, back) = all-Each_iff webhook_segment IsSegment webhook_segment_iff (split b'/' p) in
    (
      λ h.
          let (t, ts, e) = split-some p in
          let some_first : 1 ≤ length (split b'/' p) = rw e (omega arith) in
          (split b'/' p, sym (joined-split p), some_first, ground arith, there (&&-left _ _ h)),
      λ (ss, e, one, four, h).
          let k : split b'/' p ≡ ss = ap (split b'/') e ∙ split-segments ss one h in
          let a = back (subst (Each IsSegment) (sym k) h) in
          let b : length (split b'/' p) ≤ 4 = rw k four in ground arith,
    )
