-- ===== src/Models/Tests.antt =====
-- Counts of a selection on concrete values.
use qveris_capability_benchm.Prelude.{
  ◌≡◌, ◌↔◌, refl, some, bool_eq, nat_eq, string_eq, list_eq, none, [], ◌∷◌, ok,
}
use qveris_capability_benchm.Prelude.Int.{pos, ℤ-discrete}
use qveris_capability_benchm.Models.Value.{finite, nan, float_eq}
use qveris_capability_benchm.Prelude.Sort.{insert_by, sort_by}
use qveris_capability_benchm.Models.Selection.{
  measurement_state_eq, MeasurementState, MarketResultState, RunObservationsSnapshot,
  MarketCoverageResult, validate_run_observations, validate_result,
}
use qveris_capability_benchm.Models.Selection.Observations.{
  CountsFit, ResultFits, validate_run_observations_iff, validate_result_iff,
}
use qveris_capability_benchm.Models.Selection.Gateway.{
  GatewayMetricsSnapshot, IsComplete, check_measured, validate_gateway, validate_gateway-IsComplete,
}

abbrev two_of_three : RunObservationsSnapshot
two_of_three = record {
  state = MeasurementState.measured;
  terminal_observations = 2;
  planned_observations = 3;
  evidence_refs = "a" ∷ "b" ∷ [];
}

validate_run_observations_iff_example :
    (validate_run_observations two_of_three ≡ ok tt)
    ↔ CountsFit MeasurementState.measured 2 3 ("a" ∷ "b" ∷ [])
validate_run_observations_iff_example = validate_run_observations_iff two_of_three

abbrev both_rounds : MarketCoverageResult
both_rounds = record {
  market = "US";
  state = MarketResultState.verified;
  passed_rounds = 2;
  total_rounds = 2;
  evidence_refs = "a" ∷ "b" ∷ [];
  applicability_reason = none;
}

validate_result_iff_example :
    (validate_result both_rounds ≡ ok tt)
    ↔ ResultFits MarketResultState.verified 2 2 ("a" ∷ "b" ∷ []) none
validate_result_iff_example = validate_result_iff both_rounds

abbrev gateway : GatewayMetricsSnapshot
gateway = record {
  state = MeasurementState.measured;
  latency_sample_size = 2;
  latency_min_ms = some (finite (pos 3));
  latency_median_ms = some (finite (pos 4));
  latency_max_ms = some (finite (pos 4));
  cost_sample_size = 1;
  median_credits = some (finite (pos 7));
  evidence_refs = "a" ∷ "b" ∷ [];
  latency_evidence_refs = "a" ∷ "b" ∷ [];
  cost_evidence_refs = "a" ∷ [];
}

gateway_passes : validate_gateway gateway ≡ ok tt
unfolding validate_gateway check_measured measurement_state_eq nat_eq string_eq float_eq ℤ-discrete
    list_eq sort_by insert_by bool_eq
gateway_passes = refl

validate_gateway-IsComplete_example : IsComplete gateway
validate_gateway-IsComplete_example = validate_gateway-IsComplete gateway refl gateway_passes

-- A median that is NaN hides that the minimum is more than the maximum.
abbrev unordered : GatewayMetricsSnapshot
unordered = record gateway {
  latency_min_ms = some (finite (pos 5));
  latency_median_ms = some nan;
  latency_max_ms = some (finite (pos 1));
}

unordered_passes : validate_gateway unordered ≡ ok tt
unfolding validate_gateway check_measured measurement_state_eq nat_eq string_eq float_eq ℤ-discrete
    list_eq sort_by insert_by bool_eq
unordered_passes = refl
