-- ===== src/Releases/Gate.antt =====
-- src/qveris_bench/releases/gate.py: `validate_release_inputs`.
pub mod Sound
use qveris_capability_benchm.Prelude.{
  ℕ, String, Bool, true, false, not, ◌&&◌, ◌||◌, Option, none, some, List, [], ◌∷◌, ◌++◌, ◌==◌,
  string_eq, option_eq, any, same_set, difference, is_distinct, to_set, select, contains,
  if◌then◌else◌, Result, ok, err, ◌>>=◌, ◌>>◌, raise_if, rethrow, for_each,
}
use mathlib.Core.List.{flat_map}
use qveris_capability_benchm.Prelude.Sort.{sort_by, str_lt}
use qveris_capability_benchm.Models.Enums.{
  CellState, completed, provider_negative, infra_blocked, not_applicable, excluded, cell_state_eq,
  DimensionState, measured, dimension_state_eq,
}
use qveris_capability_benchm.Models.Evidence.{EvidenceBundle}
use qveris_capability_benchm.Models.Metric.{MetricDefinition}
use qveris_capability_benchm.Models.Release.{BenchmarkRelease, ReleaseFact, is_empty}
use qveris_capability_benchm.Models.Run.{RunCell}
use qveris_capability_benchm.Models.Suite.{is_none}
use qveris_capability_benchm.Evidence.Policy.{PublicationPolicyError, validate_publication}
use qveris_capability_benchm.Outcomes.Attribution.{ensure_provider_side_attribution}
use qveris_capability_benchm.Releases.Metrics.{
  MetricsError, Digests, release_facts, digests_of, validate_metrics,
}
use qveris_capability_benchm.Suites.Matrix.{run_keys}

pub data ReleaseGateError : Type 0 where
  open_run_cells : List String → ReleaseGateError
  requires_evidence : ReleaseGateError
  duplicate_evidence_ids : ReleaseGateError
  evidence_ids_mismatch : ReleaseGateError
  duplicate_cell_run_keys : ReleaseGateError
  duplicate_evidence_run_keys : ReleaseGateError
  applicable_without_evidence : ReleaseGateError
  evidence_fingerprint_mismatch : ReleaseGateError
  unsafe_evidence : PublicationPolicyError → ReleaseGateError
  missing_evidence_refs : List String → ReleaseGateError
  metrics_error : MetricsError → ReleaseGateError
  provider_negative_without_attribution : List String → ReleaseGateError
  infra_blocked_without_attribution : List String → ReleaseGateError

-- `_TERMINAL`
terminal : List CellState
terminal = completed ∷ provider_negative ∷ infra_blocked ∷ excluded ∷ not_applicable ∷ []

abbrev pub evidence_ids : List EvidenceBundle → List String
evidence_ids [] = []
evidence_ids (b ∷ bs) = b.evidence_id ∷ evidence_ids bs

abbrev pub evidence_run_keys : List EvidenceBundle → List String
evidence_run_keys [] = []
evidence_run_keys (b ∷ bs) = b.run_key ∷ evidence_run_keys bs

unfoldable pub open_cells : List RunCell → List RunCell
unfolding terminal cell_state_eq
open_cells cells = select (λ cell. not (contains terminal cell.state)) cells

unfoldable pub applicable_keys : List RunCell → List String
applicable_keys cells = run_keys (select (λ cell. cell.applicable) cells)

unfoldable pub check_bundle : String → EvidenceBundle → Result ReleaseGateError (Unit {0})
check_bundle fingerprint bundle = do
  raise_if (not (bundle.suite_fingerprint == fingerprint)) evidence_fingerprint_mismatch
  rethrow unsafe_evidence (validate_publication bundle)

unfoldable pub available_digests : List EvidenceBundle → List String
unfolding digests_of
available_digests evidence = flat_map digests_of evidence

unfoldable pub measured_refs : BenchmarkRelease → List String
unfolding release_facts
measured_refs release =
    flat_map (λ fact. fact.evidence_refs)
      (select (λ fact. fact.dimension_state == some measured) (release_facts release))

-- The state is PROVIDER_NEGATIVE and `ensure_provider_side_attribution` raises.
unfoldable pub lacks_provider_attribution : RunCell → Bool
lacks_provider_attribution cell =
    if cell.state == provider_negative
    then (elim (ensure_provider_side_attribution cell.failure_attribution) [
      | ok a ↦ false
      | err e ↦ true
    ])
    else false

unfoldable pub lacks_infra_attribution : RunCell → Bool
lacks_infra_attribution cell = cell.state == infra_blocked && is_none cell.failure_attribution

-- `_validate_provider_negative_attribution` and `_validate_infra_blocked_attribution`
unfoldable pub check_attributions : List RunCell → Result ReleaseGateError (Unit {0})
check_attributions cells = do
  let negative = select lacks_provider_attribution cells
  let blocked = select lacks_infra_attribution cells
  raise_if (not (is_empty negative)) (provider_negative_without_attribution (run_keys negative))
  raise_if (not (is_empty blocked)) (infra_blocked_without_attribution (run_keys blocked))

-- The checks that match the cells and the evidence with one another and the release.
unfoldable pub check_evidence :
    BenchmarkRelease → List RunCell → List EvidenceBundle → Result ReleaseGateError (Unit {0})
check_evidence release cells evidence = do
  raise_if (not (is_empty (open_cells cells))) (open_run_cells (run_keys (open_cells cells)))
  raise_if (is_empty evidence) requires_evidence
  raise_if (not (is_distinct (evidence_ids evidence))) duplicate_evidence_ids
  raise_if (not (same_set release.evidence_ids (evidence_ids evidence))) evidence_ids_mismatch
  raise_if (not (is_distinct (run_keys cells))) duplicate_cell_run_keys
  raise_if (not (is_distinct (evidence_run_keys evidence))) duplicate_evidence_run_keys
  raise_if (not (same_set (applicable_keys cells) (evidence_run_keys evidence)))
      applicable_without_evidence
  for_each (check_bundle release.suite_fingerprint) evidence
  let missing = difference (measured_refs release) (available_digests evidence)
  raise_if (not (is_empty missing)) (missing_evidence_refs (sort_by str_lt (to_set missing)))

module _ (digests : Digests) where
  unfoldable pub validate_release_inputs :
      BenchmarkRelease
      → List RunCell
      → List EvidenceBundle
      → Bool
      → List MetricDefinition
      → Result ReleaseGateError (Unit {0})
  unfolding check_evidence
  validate_release_inputs release cells evidence require_attribution metric_registry = do
    check_evidence release cells evidence
    rethrow metrics_error (validate_metrics digests release cells evidence metric_registry)
    if require_attribution then check_attributions cells else ok tt
