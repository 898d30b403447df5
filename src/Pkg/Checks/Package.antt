-- ===== src/Pkg/Checks/Package.antt =====
-- `ValidatePackageChecks` of pkg/aiiospkg/validation.go: what the checks of a package may ask of it.
-- Of a check and of a package, what the function reads.
pub mod Guards
pub mod Runnable
use aii_plugin_sdk.Prelude.{
  Bool, List, Option, Result, [], any, err, if◌then◌else◌, leb, length, none, not, ok, some, ℕ,
  ◌&&◌, ◌==◌, ◌||◌, ◌∷◌,
}
use aii_plugin_sdk.Prelude.Bytes.{Bytes, codes, equal}
use aii_plugin_sdk.Prelude.Results.{guard, ◌>>=◌, ◌>>◌}
use aii_plugin_sdk.Pkg.Checks.Texts.{blank, rune_count}

abbrev all_sets : Bytes
all_sets = codes "*"

abbrev pub lane_operation : Bytes
lane_operation = codes "operation"

abbrev pub lane_embeddings : Bytes
lane_embeddings = codes "embeddings"

abbrev pub lane_session : Bytes
lane_session = codes "session"

abbrev pub embed_kind_memory : Bytes
embed_kind_memory = codes "memory"

abbrev pub embed_kind_cue : Bytes
embed_kind_cue = codes "cue"

abbrev pub max_embed_chars : ℕ
max_embed_chars = 8000

-- `reference` is that of `Expect.Cosine`.
pub record Check (F : Type 0) : Type 0 where
  pub name : Bytes
  pub sets : List Bytes
  pub lane : Bytes
  pub operation : Bytes
  pub kind : Bytes
  pub words : Bytes
  pub reference : List F
  pub unresolved : Bytes

pub record OperationContract : Type 0 where
  pub effects : Bytes
  pub operator_confirms : Bool

-- `source` is the dimension of a source of vectors.
pub record PackageChecks : Type 0 where
  pub variants : List Bytes
  pub source : Option ℕ
  pub operations : List (Bytes × OperationContract)
  pub speech_engine : Bool
  pub native : Bytes → Bool

-- The reasons for a check's refusal, with what they name of it.
pub data PackageError : Type 0 where
  no_such_lane no_source no_speech_engine bad_text : PackageError
  never_passes undeclared_set bad_kind not_native undeclared_operation : Bytes → PackageError
  wrong_dimension : ℕ → ℕ → PackageError
  not_a_read : Bytes → PackageError
  operator_waits : Bytes → PackageError

-- `KnownLane`.
unfoldable pub known_lane : Bytes → Bool
known_lane lane =
    equal lane lane_operation || (equal lane lane_embeddings || equal lane lane_session)

unfoldable pub check_sets : List Bytes → List Bytes → Result PackageError (Unit {0})
check_sets declared [] = ok tt
check_sets declared (s ∷ sets) =
    let rest = check_sets declared sets in
    guard (equal s all_sets || any (equal s) declared) (undeclared_set s) >> rest

unfoldable pub check_native : (Bytes → Bool) → List Bytes → Result PackageError (Unit {0})
check_native native [] = ok tt
check_native native (s ∷ sets) =
    let rest = check_native native sets in guard (native s) (not_native s) >> rest

-- The sets that are meant, where all may be.
unfoldable pub sets_meant : List Bytes → List Bytes → List Bytes
sets_meant variants (s ∷ []) = if equal s all_sets then variants else s ∷ []
sets_meant variants sets = sets

unfoldable pub contract_of : Bytes → List (Bytes × OperationContract) → Option OperationContract
contract_of name [] = none
contract_of name ((key, c) ∷ cs) =
    let rest = contract_of name cs in if equal key name then some c else rest

unfoldable pub check_contract : Bytes → Option OperationContract → Result PackageError (Unit {0})
check_contract name none = err (undeclared_operation name)
check_contract name (some op) =
    guard (equal op.effects (codes "read.internal") || equal op.effects (codes "read.external"))
      (not_a_read op.effects)
    >> guard (not op.operator_confirms) (operator_waits name)

module _ {F : Type 0} where
  unfoldable pub check_source : Check F → Option ℕ → Result PackageError (Unit {0})
  unfolding rune_count blank
  check_source c none = err no_source
  check_source c (some dimension) = do
    _ ← guard (equal c.kind embed_kind_memory || equal c.kind embed_kind_cue) (bad_kind c.kind)
    _ ← guard (leb (rune_count c.words) max_embed_chars && not (blank c.words)) bad_text
    guard (length c.reference == dimension) (wrong_dimension (length c.reference) dimension)

  -- The switch on the lane.
  unfoldable pub check_lane : PackageChecks → Check F → Result PackageError (Unit {0})
  unfolding check_source check_native sets_meant contract_of check_contract
  check_lane p c =
      if equal c.lane lane_embeddings
      then check_source c p.source
      else if equal c.lane lane_session
      then guard p.speech_engine no_speech_engine
        >> check_native p.native (sets_meant p.variants c.sets)
      else if equal c.lane lane_operation
      then check_contract c.operation (contract_of c.operation p.operations)
      else ok tt

  unfoldable pub check_package : PackageChecks → Check F → Result PackageError (Unit {0})
  unfolding known_lane check_sets check_lane
  check_package p c = do
    _ ← guard (known_lane c.lane) no_such_lane
    _ ← guard (length c.unresolved == 0) (never_passes c.unresolved)
    _ ← check_sets p.variants c.sets
    check_lane p c

  -- `ValidatePackageChecks`.
  unfoldable pub validate_package_checks :
      PackageChecks → List (Check F) → Result PackageError (Unit {0})
  unfolding check_package
  validate_package_checks p [] = ok tt
  validate_package_checks p (c ∷ cs) =
      let rest = validate_package_checks p cs in check_package p c >> rest
