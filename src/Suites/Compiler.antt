-- ===== src/Suites/Compiler.antt =====
-- src/qveris_bench/suites/compiler.py, from the parsed documents on. `validate_harbor_source` reads
-- the contract snapshot from the disk and `suite_fingerprint` hashes the snapshot: both are
-- parameters.
pub mod Compiled
use qveris_capability_benchm.Prelude.{
  String, Bool, true, false, not, ◌&&◌, ◌||◌, Option, none, some, List, [], ◌∷◌, ◌==◌, contains,
  select, string_eq, Result, ok, err, ◌>>=◌, ◌>>◌, raise_if, rethrow, for_each, if◌then◌else◌,
}
use qveris_capability_benchm.Prelude.Dict.{Dict, lookup, insert, keys}
use qveris_capability_benchm.Models.Provider.{AccessPath}
use qveris_capability_benchm.Models.Release.{is_empty}
use qveris_capability_benchm.Models.Run.{RunPlan, SourceReference}
use qveris_capability_benchm.Models.Suite.{BenchmarkCase, BenchmarkSuite, AgentProtocol}
use qveris_capability_benchm.Providers.Registry.{
  ProviderRegistryEntry, RegistryError, cohort_check, is_denied,
}
use qveris_capability_benchm.Suites.Documents.{
  ProviderBinding, ProviderBindingError, OutcomeRules, OutcomeRulesError, SuiteLoadError,
  ResumeFingerprintError, load_cases, load_provider_bindings, validate_provider_bindings,
  validate_outcome_rules, assert_resume_fingerprint, ids_of,
}
use qveris_capability_benchm.Suites.Resolution.{
  CompilationError, cap_mismatch, harbor, loader, binding, rules, registry, matrix, resolve_cases,
  resolve_access_paths,
}
use qveris_capability_benchm.Suites.Matrix.{MatrixError, expand_run_plan}

pub record CapDefinition : Type 0 where
  pub cap_id : String
  pub version : String
  pub name : String
  pub business_use : String
  pub scope : List String
  pub exclusions : List String
  pub markets : List String
  pub asset_types : List String
  pub sources : List SourceReference

-- `_snapshot`, with the models in place of their JSON
pub record Snapshot : Type 0 where
  pub cap : CapDefinition
  pub suite : BenchmarkSuite
  pub cases : List BenchmarkCase
  pub access_paths : List AccessPath
  pub provider_cohort : List ProviderRegistryEntry
  pub provider_bindings : List ProviderBinding
  pub outcome_rules : OutcomeRules

pub record CompiledSuite : Type 0 where
  pub suite : BenchmarkSuite
  pub cases : List BenchmarkCase
  pub access_paths : List AccessPath
  pub snapshot : Snapshot
  pub fingerprint : String
  pub run_plan : RunPlan

-- `CompiledSuite.assert_resume_fingerprint`
pub compiled_assert_resume_fingerprint :
    CompiledSuite → String → Result ResumeFingerprintError (Unit {0})
compiled_assert_resume_fingerprint compiled fingerprint =
    assert_resume_fingerprint compiled.fingerprint fingerprint

-- What the files of a suite hold, and the provider registry's entries
pub record Documents : Type 0 where
  pub suite : BenchmarkSuite
  pub cap : CapDefinition
  pub available : List BenchmarkCase
  pub bindings : List ProviderBinding
  pub outcome_rules : OutcomeRules
  pub entries : List ProviderRegistryEntry

abbrev pub authorized_ids : List ProviderBinding → List String
authorized_ids [] = []
authorized_ids (b ∷ bs) =
    let rest = authorized_ids bs in
    if b.direct_test_authorized then b.access_path_id ∷ rest else rest

abbrev pub snapshot_of :
    Documents
    → List BenchmarkCase
    → List AccessPath
    → List ProviderRegistryEntry
    → List ProviderBinding
    → Snapshot
snapshot_of documents cases access_paths records bindings = record {
  cap = documents.cap;
  suite = documents.suite;
  cases = cases;
  access_paths = access_paths;
  provider_cohort = records;
  provider_bindings = bindings;
  outcome_rules = documents.outcome_rules;
}

abbrev pub compiled_of :
    Documents
    → List BenchmarkCase
    → List AccessPath
    → List ProviderRegistryEntry
    → List ProviderBinding
    → String
    → RunPlan
    → CompiledSuite
compiled_of documents cases access_paths records bindings fingerprint run_plan = record {
  suite = documents.suite;
  cases = cases;
  access_paths = access_paths;
  snapshot = snapshot_of documents cases access_paths records bindings;
  fingerprint = fingerprint;
  run_plan = run_plan;
}

module _ (validate_harbor_source : SourceReference → Result String (Unit {0}))
    (suite_fingerprint : Snapshot → String) where
  -- The last part of `compile_suite`: the snapshot, its fingerprint and the run plan
  unfoldable pub compile_plan :
      Documents
      → List BenchmarkCase
      → List ProviderBinding
      → List ProviderRegistryEntry
      → List AccessPath
      → Result CompilationError CompiledSuite
  compile_plan documents cases bindings records access_paths = do
    let fingerprint = suite_fingerprint (snapshot_of documents cases access_paths records bindings)
    run_plan ←
        rethrow matrix
          (expand_run_plan documents.suite cases access_paths fingerprint documents.cap.sources)
    ok (compiled_of documents cases access_paths records bindings fingerprint run_plan)

  -- The part before it: the bindings, the outcome rules and the access paths
  unfoldable pub compile_paths :
      Documents → List BenchmarkCase → Result CompilationError CompiledSuite
  unfolding resolve_access_paths compile_plan
  compile_paths documents cases = do
    bindings ← rethrow binding (load_provider_bindings documents.bindings)
    rethrow rules (validate_outcome_rules documents.outcome_rules cases)
    records ← rethrow registry (cohort_check documents.entries)
    access_paths ← resolve_access_paths documents.suite records (authorized_ids bindings)
    rethrow binding (validate_provider_bindings bindings access_paths)
    compile_plan documents cases bindings records access_paths

  unfoldable pub compile_suite : Documents → Result CompilationError CompiledSuite
  unfolding resolve_cases compile_paths
  compile_suite documents = do
    let suite = documents.suite
    let cap = documents.cap
    raise_if (not (cap.cap_id == suite.cap_id) || not (cap.version == suite.cap_version))
        cap_mismatch
    for_each (λ source. rethrow harbor (validate_harbor_source source)) cap.sources
    available ← rethrow loader (load_cases documents.available)
    cases ← resolve_cases suite available
    compile_paths documents cases
