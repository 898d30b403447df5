-- ===== src/Pkg/Checks/Tests.antt =====
-- The theorems on checks at a small package.
use aii_plugin_sdk.Prelude.Results.{Result, err, ok}
use mathlib.Core.Path.{refl}
use aii_plugin_sdk.Prelude.{
  List, Option, [], arith, false, if◌then◌else◌, none, some, true, ℕ, ◌↔◌, ◌∷◌, ◌≡◌,
}
use aii_plugin_sdk.Prelude.Bytes.{Bytes, codes, equal}
use aii_plugin_sdk.Pkg.Versions.{split}
use aii_plugin_sdk.Pkg.Checks.{
  Doc, doc_at, doc_count, doc_then, field_then, list, lookup, no_docs, no_fields, null, number,
  object, text,
}
use aii_plugin_sdk.Pkg.Checks.Pointers.{itoa, pointer, valid_pointer}
use aii_plugin_sdk.Pkg.Checks.Pointers.Paths.{
  At, Step, at_end, at_index, at_key, by_index, by_key, written,
}
use aii_plugin_sdk.Pkg.Checks.Pointers.Finds.{pointer-At}
use aii_plugin_sdk.Pkg.Checks.Refs.{
  Resolver, clean_from, cut, doc, find, inside_root, is_clean, pointed_at, read, ref, walk,
}
use aii_plugin_sdk.Pkg.Checks.Refs.Cache.{IsFaithful, resolved, walk_lem}
use aii_plugin_sdk.Pkg.Checks.Package.{
  Check, PackageChecks, check_lane, check_native, check_sets, known_lane, lane_operation,
  lane_session, not_native, sets_meant, validate_package_checks,
}
use aii_plugin_sdk.Pkg.Checks.Package.Runnable.{AllRunnable, validate_package_checks_iff}

-- {"a/b": [null, "~"]}
abbrev sample : Doc ℕ
sample = object (
    field_then (codes "a/b") (list (doc_then null (doc_then (text (codes "~")) no_docs))) no_fields)

abbrev to_tilde : List Step
to_tilde = by_key (codes "a/b") ∷ by_index 1 ∷ []

sample-At : At sample to_tilde (text (codes "~"))
unfolding lookup doc_at doc_count
sample-At = at_key refl (at_index (omega arith) refl at_end)

pointer-At_example : pointer sample (written to_tilde) ≡ some (text (codes "~"))
pointer-At_example = pointer-At sample (text (codes "~")) to_tilde sample-At

-- The pointer that is written for it.
to_tilde_text : written to_tilde ≡ codes "/a~1b/1"
unfolding written itoa
to_tilde_text = refl

abbrev members : Bytes → Result Bytes (Option Bytes)
members rel = if equal rel (codes "data.json") then ok (some (codes "5")) else ok none

abbrev decode_five : Bytes → Option (Doc ℕ)
decode_five raw = if equal raw (codes "5") then some (number 5) else none

abbrev nothing_known : Resolver ℕ
nothing_known = record { docs = []; bad = []; raws = [] }

nothing_known-IsFaithful : IsFaithful members decode_five nothing_known
unfolding find
nothing_known-IsFaithful = record {
  docs_read = λ rel d e. absurd (cc);
  bad_read = λ rel why e. absurd (cc);
  raws_read = λ rel raw e. absurd (cc);
}

-- [{"$ref": "data.json"}, {"$ref": "data.json"}]
abbrev five : Doc ℕ
five = object (field_then (codes "$ref") (text (codes "data.json")) no_fields)

abbrev twice_five : Doc ℕ
twice_five = list (doc_then five (doc_then five no_docs))

walk_lem_example :
    ((walk members decode_five twice_five nothing_known).0
      ≡ resolved members decode_five twice_five)
    × IsFaithful members decode_five (walk members decode_five twice_five nothing_known).1
walk_lem_example = walk_lem members decode_five twice_five nothing_known nothing_known-IsFaithful

-- Both references are resolved, and the member is read once.
twice_five_value : walk members decode_five twice_five nothing_known ≡ (
  ok (list (doc_then (number 5) (doc_then (number 5) no_docs)), true),
  record {
    docs = (codes "data.json", number 5) ∷ [];
    bad = [];
    raws = (codes "data.json", some (codes "5")) ∷ [];
  },
)
unfolding walk find doc read ref cut inside_root is_clean clean_from split valid_pointer pointer
    pointed_at
twice_five_value = refl

abbrev speaking : PackageChecks
speaking = record {
  variants = codes "x64" ∷ codes "arm" ∷ [];
  source = none;
  operations =
      (codes "ping", record { effects = codes "read.internal"; operator_confirms = false }) ∷ [];
  speech_engine = true;
  native = λ s. equal s (codes "x64");
}

abbrev ping_check : Check ℕ
ping_check = record {
  name = codes "ping";
  sets = codes "*" ∷ [];
  lane = lane_operation;
  operation = codes "ping";
  kind = [];
  words = [];
  reference = [];
  unresolved = [];
}

validate_package_checks_iff_example :
    (validate_package_checks speaking (ping_check ∷ []) ≡ ok tt)
    ↔ AllRunnable speaking (ping_check ∷ [])
validate_package_checks_iff_example = validate_package_checks_iff speaking (ping_check ∷ [])

-- A set that is not native is refused on the session lane.
session_refused :
    validate_package_checks speaking (record ping_check { lane = lane_session } ∷ [])
    ≡ err (not_native (codes "arm"))
unfolding validate_package_checks known_lane check_sets check_lane check_native sets_meant
session_refused = refl
