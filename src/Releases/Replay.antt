-- ===== src/Releases/Replay.antt =====
-- src/qveris_bench/releases/replay.py: the checks of a plan against its release and its terminal
-- cells, of its run keys and of the rebuilt bytes, behind the reading of the files.
pub mod Assembled
use qveris_capability_benchm.Prelude.{
  Bool, true, none, some, [], ◌&&◌, ◌||◌, length, same_set, err, require, ◌>>=◌, rethrow, bool_eq,
  nat_eq, option_eq, list_eq, pair_eq, ℕ, String, ◌≡◌, refl, not, List, arith, ◌==◌, string_eq,
  if◌then◌else◌, All-for_each, Result, ok, ◌>>◌, raise_if, for_each,
}
use qveris_capability_benchm.Prelude.Dict.{Dict, lookup, keys, index_on}
use qveris_capability_benchm.Models.Evidence.{EvidenceBundle}
use qveris_capability_benchm.Models.Metric.{MetricDefinition}
use qveris_capability_benchm.Models.Release.{BenchmarkRelease}
use qveris_capability_benchm.Models.Value.{Value}
use qveris_capability_benchm.Releases.Builder.{ReleasePayload, build_release}
use qveris_capability_benchm.Releases.Gate.{ReleaseGateError}
use qveris_capability_benchm.Releases.Metrics.{Digests}
use qveris_capability_benchm.Models.Enums.{
  RunMode, CellState, planned, not_applicable, cell_state_eq, run_mode_eq,
}
use qveris_capability_benchm.Models.Provider.{AccessPath}
use qveris_capability_benchm.Models.Run.{RunCell, RunPlan, SourceReference, source_reference_eq}
use qveris_capability_benchm.Models.Suite.{BenchmarkCase, BenchmarkSuite}
use qveris_capability_benchm.Suites.Matrix.{
  canonical_run_key, plan_cell, expand_cells, expand_run_plan,
}
use qveris_capability_benchm.Suites.Matrix.Cells.{expand_cells-All}
use qveris_capability_benchm.Suites.Matrix.Plan.{expand_run_plan_iff}

pub data ReplayError : Type 0 where
  invalid_planned_state : ReplayError
  run_key_mismatch : ReplayError
  plan_digest_mismatch : ReplayError
  plan_fingerprint_mismatch : ReplayError
  cap_provenance_mismatch : ReplayError
  cap_identity_mismatch : ReplayError
  cell_topology_mismatch : ReplayError
  cell_identity_mismatch : ReplayError
  key_error : ReplayError
  input_validation_failed : ReleaseGateError → ReplayError
  not_rebuilt : ReplayError

-- The key that the identity of a cell determines
abbrev pub key_of : String → String → RunCell → String
key_of suite_id suite_fingerprint cell =
    canonical_run_key suite_id suite_fingerprint cell.case_id cell.provider_id cell.access_path_id
      cell.mode cell.round

abbrev pub expected_state : RunCell → CellState
expected_state cell = if cell.applicable then planned else not_applicable

check_cell : String → String → RunCell → Result ReplayError (Unit {0})
check_cell suite_id suite_fingerprint cell = do
  raise_if (not (cell.state == expected_state cell)) invalid_planned_state
  raise_if (not (cell.run_key == key_of suite_id suite_fingerprint cell)) run_key_mismatch

-- `_validate_run_keys`
unfoldable pub validate_run_keys : RunPlan → Result ReplayError (Unit {0})
unfolding check_cell
validate_run_keys run_plan =
    for_each (check_cell run_plan.suite_id run_plan.suite_fingerprint) run_plan.cells

-- The checks of the plan against the release: `plan_digest` is the digest of the plan's file.
unfoldable pub validate_provenance :
    String → RunPlan → BenchmarkRelease → Result ReplayError (Unit {0})
validate_provenance plan_digest run_plan release = do
  raise_if (not (plan_digest == release.run_plan_digest)) plan_digest_mismatch
  raise_if (not (run_plan.suite_fingerprint == release.suite_fingerprint)) plan_fingerprint_mismatch
  raise_if (not (run_plan.cap_sources == release.cap_sources)) cap_provenance_mismatch
  raise_if
      (not (run_plan.cap_id == release.cap_id) || not (run_plan.cap_version == release.cap_version))
      cap_identity_mismatch

-- `input_eq` is Python's `==` on the inputs of cases.
module _ (input_eq : Value → Value → Bool) where
  -- All fields but the state and the attribution
  unfoldable pub same_identity : RunCell → RunCell → Bool
  same_identity p t =
      p.run_key == t.run_key
      && p.case_id == t.case_id
      && input_eq p.case_input t.case_input
      && p.provider_id == t.provider_id
      && p.access_path_id == t.access_path_id
      && p.mode == t.mode
      && p.round == t.round
      && p.applicable == t.applicable
      && p.applicability_reason == t.applicability_reason

  unfoldable pub check_identity :
      Dict String RunCell → String × RunCell → Result ReplayError (Unit {0})
  check_identity terminal_by_key (run_key, cell) = do
    terminal ← require key_error (lookup run_key terminal_by_key)
    raise_if (not (same_identity cell terminal)) cell_identity_mismatch

  -- `_validate_cell_topology`
  unfoldable pub validate_cell_topology :
      List RunCell → List RunCell → Result ReplayError (Unit {0})
  unfolding check_identity
  validate_cell_topology planned_cells terminal_cells = do
    let planned_by_key = index_on (λ (cell : RunCell). cell.run_key) [] planned_cells
    let terminal_by_key = index_on (λ (cell : RunCell). cell.run_key) [] terminal_cells
    raise_if
        (not (length planned_by_key == length planned_cells)
          || not (length terminal_by_key == length terminal_cells)
          || not (same_set (keys planned_by_key) (keys terminal_by_key)))
        cell_topology_mismatch
    for_each (check_identity terminal_by_key) planned_by_key

-- The release is built again from the files and compared with the published bytes.
unfoldable pub validate_rebuilt :
    Digests
    → (ReleasePayload → String)
    → BenchmarkRelease
    → List RunCell
    → List EvidenceBundle
    → List MetricDefinition
    → String
    → Result ReplayError (Unit {0})
validate_rebuilt digests canonical_release_bytes release cells evidence metric_registry published =
    do
      rebuilt ← rethrow input_validation_failed (
          build_release digests canonical_release_bytes release cells evidence true metric_registry)
      raise_if (not (rebuilt == published)) not_rebuilt

passes :
    (suite_id fingerprint : String) (cell : RunCell)
    → (cell.state ≡ expected_state cell)
    → (cell.run_key ≡ key_of suite_id fingerprint cell)
    → check_cell suite_id fingerprint cell ≡ ok tt
unfolding check_cell
passes suite_id fingerprint cell s k = ground arith

module _ (suite : BenchmarkSuite) (fingerprint : String) where
  planned-passes :
      (case : BenchmarkCase) (path : AccessPath) (mode : RunMode) (k : ℕ)
      → check_cell suite.suite_id fingerprint (plan_cell suite fingerprint case path mode k) ≡ ok tt
  unfolding plan_cell
  planned-passes case path mode k =
      passes suite.suite_id fingerprint (plan_cell suite fingerprint case path mode k) refl refl

  -- Every plan that a suite expands to passes the check of the run keys at replay.
  pub validate_run_keys-expand_run_plan :
      (cases : List BenchmarkCase) (access_paths : List AccessPath)
      (cap_sources : List SourceReference) (plan : RunPlan)
      → expand_run_plan suite cases access_paths fingerprint cap_sources ≡ ok plan
      → validate_run_keys plan ≡ ok tt
  unfolding validate_run_keys
  validate_run_keys-expand_run_plan cases access_paths cap_sources plan h =
      let (distinct, content) =
        (expand_run_plan_iff suite cases access_paths fingerprint cap_sources plan).0 h in
      rw content (
        All-for_each (check_cell suite.suite_id fingerprint)
          (expand_cells suite cases access_paths fingerprint)
          (expand_cells-All suite cases access_paths fingerprint
            (λ cell. check_cell suite.suite_id fingerprint cell ≡ ok tt) planned-passes))
