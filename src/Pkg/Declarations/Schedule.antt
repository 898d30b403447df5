-- ===== src/Pkg/Declarations/Schedule.antt =====
-- pkg/aiiospkg/schedule.go.
use aii_plugin_sdk.Prelude.{
  List, Option, [], any, ap, arith, false, if◌then◌else◌, length, ltb, none, refl, some, true, ℕ,
  ◌*◌, ◌==◌, ◌||◌, ◌↔◌, ◌∷◌, ◌≡◌, ◌≢◌, ◌≤◌,
}
use aii_plugin_sdk.Prelude.Bytes.{Bytes, equal}
use aii_plugin_sdk.Pkg.Declarations.Operations.{check_operations}

abbrev pub max_scheduled : ℕ
max_scheduled = 4

abbrev pub min_schedule_every : ℕ
min_schedule_every = 600

abbrev pub max_schedule_every : ℕ
max_schedule_every = 7 * 24 * 3600

-- A number of seconds that is not positive is 0 here.
pub record ScheduleDecl : Type 0 where
  pub operation : Bytes
  pub every_seconds : ℕ

pub data ScheduleError : Type 0 where
  too_many no_operation : ScheduleError
  twice bad_period : Bytes → ScheduleError

-- The loop; `named` is the keys of the map of that name.
schedule_loop : List Bytes → List ScheduleDecl → Option ScheduleError
schedule_loop named [] = none
schedule_loop named (d ∷ decls) =
    let rest = schedule_loop (d.operation ∷ named) decls in
    if length d.operation == 0
    then some no_operation
    else if any (equal d.operation) named
    then some (twice d.operation)
    else if ltb d.every_seconds min_schedule_every || ltb max_schedule_every d.every_seconds
    then some (bad_period d.operation)
    else rest

-- `ValidateSchedule`.
unfoldable pub validate_schedule : List ScheduleDecl → Option ScheduleError
unfolding schedule_loop
validate_schedule decls =
    if ltb max_scheduled (length decls) then some too_many else schedule_loop [] decls

-- `CheckScheduleOperations`.
unfoldable pub check_schedule_operations : List ScheduleDecl → List Bytes → Option ScheduleDecl
unfolding check_operations
check_schedule_operations decls operations =
    check_operations (λ (d : ScheduleDecl). d.operation) operations decls

-- Operations that are named, none twice and none among `named`, with periods within the bounds.
abbrev pub Scheduled : List Bytes → List ScheduleDecl → Type 0
Scheduled named [] = Unit
Scheduled named (d ∷ decls) =
    (d.operation ≢ [])
    × (any (equal d.operation) named ≡ false)
    × (min_schedule_every ≤ d.every_seconds)
    × (d.every_seconds ≤ max_schedule_every)
    × Scheduled (d.operation ∷ named) decls

length_zero : (b : Bytes) → (length b == 0) ≡ true → b ≡ []
length_zero [] h = refl
length_zero (x ∷ b) h = absurd (ground arith)

nonempty_test : (b : Bytes) → b ≢ [] → (length b == 0) ≡ false
nonempty_test [] h = absurd (h refl)
nonempty_test (x ∷ b) h = ground arith

schedule_loop-none :
    (named : List Bytes) (decls : List ScheduleDecl)
    → schedule_loop named decls ≡ none
    → Scheduled named decls
unfolding schedule_loop
schedule_loop-none named [] h = tt
schedule_loop-none named (d ∷ decls) h =
    let later : schedule_loop (d.operation ∷ named) decls ≡ none = ground arith in
    (
      (λ e. absurd (named_empty e)),
      ground arith,
      ground arith,
      ground arith,
      schedule_loop-none (d.operation ∷ named) decls later,
    )
  where
    named_empty : d.operation ≡ [] → ⊥
    named_empty e =
        let z : (length d.operation == 0) ≡ true = ap (λ (b : Bytes). length b == 0) e in
        cc (rw z at h)

Scheduled-none :
    (named : List Bytes) (decls : List ScheduleDecl)
    → Scheduled named decls
    → schedule_loop named decls ≡ none
unfolding schedule_loop
Scheduled-none named [] h = refl
Scheduled-none named (d ∷ decls) (ne, new, low, high, later) =
    ground (arith, nonempty_test d.operation ne, Scheduled-none (d.operation ∷ named) decls later)

-- `ValidateSchedule` gives no error exactly for at most four declarations whose operations are
-- named and differ, and whose periods lie between ten minutes and a week.
pub validate_schedule_iff :
    (decls : List ScheduleDecl)
    → (validate_schedule decls ≡ none) ↔ ((length decls ≤ max_scheduled) × Scheduled [] decls)
unfolding validate_schedule
validate_schedule_iff decls = (
  λ h. (ground arith, schedule_loop-none [] decls (ground arith)),
  λ p. ground (arith, p.0, Scheduled-none [] decls p.1),
)
