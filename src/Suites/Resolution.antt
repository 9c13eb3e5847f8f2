-- ===== src/Suites/Resolution.antt =====
-- src/qveris_bench/suites/compiler.py: `_resolve_cases`, `_resolve_access_paths` and what the
-- compilation raises.
pub mod Sound
use qveris_capability_benchm.Prelude.{
  String, Bool, true, false, not, ◌&&◌, ◌||◌, Option, none, some, List, [], ◌∷◌, ◌==◌, contains,
  select, string_eq, Result, ok, err, ◌>>=◌, ◌>>◌, raise_if, rethrow, for_each, if◌then◌else◌,
}
use qveris_capability_benchm.Prelude.Dict.{Dict, lookup, insert, keys}
use qveris_capability_benchm.Models.Provider.{AccessPath}
use qveris_capability_benchm.Models.Release.{is_empty}
use qveris_capability_benchm.Models.Run.{RunPlan, SourceReference}
use qveris_capability_benchm.Models.Suite.{BenchmarkCase, BenchmarkSuite, AgentProtocol}
use qveris_capability_benchm.Providers.Registry.{
  ProviderRegistryEntry, RegistryError, cohort_check, is_denied,
}
use qveris_capability_benchm.Suites.Documents.{
  ProviderBindingError, OutcomeRulesError, SuiteLoadError, ids_of,
}
use qveris_capability_benchm.Suites.Matrix.{MatrixError, expand_run_plan}

-- `SuiteCompilationError`, and the exceptions of the callees that `compile_suite` lets through
pub data CompilationError : Type 0 where
  missing_cases : List String → CompilationError
  key_error : String → CompilationError
  foreign_cases : List String → CompilationError
  missing_access_paths : List String → CompilationError
  not_included : String → CompilationError
  canonical_tool_mismatch : String → CompilationError
  cap_mismatch : CompilationError
  harbor : String → CompilationError
  loader : SuiteLoadError → CompilationError
  binding : ProviderBindingError → CompilationError
  rules : OutcomeRulesError → CompilationError
  registry : RegistryError → CompilationError
  matrix : MatrixError → CompilationError

-- `{case.case_id: case for case in available}`
case_index : Dict String BenchmarkCase → List BenchmarkCase → Dict String BenchmarkCase
case_index d [] = d
case_index d (c ∷ cs) = case_index (insert c.case_id c d) cs

-- `d[k]`
abbrev pub find : Dict String BenchmarkCase → String → Result CompilationError BenchmarkCase
find index k = elim (lookup k index) [ none ↦ err (key_error k) | some c ↦ ok c ]

-- `tuple(case_index[case_id] for case_id in suite.case_ids)`
find_cases : Dict String BenchmarkCase → List String → Result CompilationError (List BenchmarkCase)
find_cases index [] = ok []
find_cases index (k ∷ ks) = do c ← find index k; cs ← find_cases index ks; ok (c ∷ cs)

-- `[k for k in listed if k not in index]`
abbrev pub missing_from {ℓ} : {V : Type ℓ} → Dict String V → List String → List String
missing_from index listed = select (λ (k : String). not (contains (keys index) k)) listed

-- `[case for case in cases if case.cap_id != suite.cap_id]`
abbrev pub mismatched : BenchmarkSuite → List BenchmarkCase → List BenchmarkCase
mismatched suite cases = select (λ (c : BenchmarkCase). not (c.cap_id == suite.cap_id)) cases

abbrev pub require_cap :
    BenchmarkSuite → List BenchmarkCase → Result CompilationError (List BenchmarkCase)
require_cap suite cases = do
  raise_if (not (is_empty (mismatched suite cases)))
      (foreign_cases (ids_of (mismatched suite cases)))
  ok cases

-- `_resolve_cases`
unfoldable pub resolve_cases :
    BenchmarkSuite → List BenchmarkCase → Result CompilationError (List BenchmarkCase)
unfolding case_index find_cases
resolve_cases suite available = do
  let index = case_index [] available
  let missing = missing_from index suite.case_ids
  raise_if (not (is_empty missing)) (missing_cases missing)
  cases ← find_cases index suite.case_ids
  require_cap suite cases

-- `path_index`, without the record that the loop over it does not use
index_paths : Dict String AccessPath → List AccessPath → Dict String AccessPath
index_paths d [] = d
index_paths d (p ∷ ps) = index_paths (insert p.access_path_id p d) ps

path_index : Dict String AccessPath → List ProviderRegistryEntry → Dict String AccessPath
unfolding index_paths
path_index d [] = d
path_index d (record_ ∷ records) = path_index (index_paths d record_.access_paths) records

-- `suite.agent_protocol is not None and … canonical_interface != … canonical_tool`
abbrev pub tool_differs : Option AgentProtocol → AccessPath → Bool
tool_differs none path = false
tool_differs (some protocol) path =
    path.agent_trial_eligible && not (path.canonical_interface == protocol.canonical_tool)

-- The tests of one access path that the suite lists
check_path : BenchmarkSuite → List String → String → AccessPath → Result CompilationError (Unit {0})
check_path suite direct_test_authorized path_id path = do
  raise_if (not (contains direct_test_authorized path_id) && is_denied path) (not_included path_id)
  raise_if (tool_differs suite.agent_protocol path) (canonical_tool_mismatch path_id)

abbrev pub find_path : Dict String AccessPath → String → Result CompilationError AccessPath
find_path index k = elim (lookup k index) [ none ↦ err (key_error k) | some p ↦ ok p ]

-- The loop over `suite.access_path_ids`
resolve_listed :
    BenchmarkSuite
    → List String
    → Dict String AccessPath
    → List String
    → Result CompilationError (List AccessPath)
unfolding check_path
resolve_listed suite direct_test_authorized index [] = ok []
resolve_listed suite direct_test_authorized index (path_id ∷ path_ids) = do
  path ← find_path index path_id
  check_path suite direct_test_authorized path_id path
  resolved ← resolve_listed suite direct_test_authorized index path_ids
  ok (path ∷ resolved)

-- `_resolve_access_paths`
unfoldable pub resolve_access_paths :
    BenchmarkSuite
    → List ProviderRegistryEntry
    → List String
    → Result CompilationError (List AccessPath)
unfolding path_index resolve_listed
resolve_access_paths suite records direct_test_authorized = do
  let index = path_index [] records
  let missing = missing_from index suite.access_path_ids
  raise_if (not (is_empty missing)) (missing_access_paths missing)
  resolve_listed suite direct_test_authorized index suite.access_path_ids
