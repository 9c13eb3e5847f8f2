-- ===== src/Models/Selection/Observations.antt =====
-- What the validators of a selection's counts accept.
use qveris_capability_benchm.Prelude.{
  ℕ, ◌≤◌, String, ◌≡◌, ◌≢◌, ◌↔◌, Option, none, List, [], arith, length, nat_eq, ok,
}
use qveris_capability_benchm.Models.Selection.{
  MeasurementState, measurement_state_eq, market_result_state_eq, MarketResultState,
  RunObservationsSnapshot, validate_run_observations, MarketCoverageResult, validate_result,
}

-- The counts that fit a state of the run observations.
abbrev pub CountsFit : MeasurementState → ℕ → ℕ → List String → Type 0
CountsFit MeasurementState.measured terminal planned refs =
    (refs ≢ []) × (1 ≤ planned) × (terminal ≤ planned) × (length refs ≡ terminal)
CountsFit _ terminal planned refs = (terminal ≡ 0) × (planned ≡ 0) × (refs ≡ [])

abbrev observations : MeasurementState → ℕ → ℕ → List String → RunObservationsSnapshot
observations state terminal planned refs = record {
  state = state;
  terminal_observations = terminal;
  planned_observations = planned;
  evidence_refs = refs;
}

accepts-CountsFit :
    (state : MeasurementState) (terminal planned : ℕ) (refs : List String)
    → (validate_run_observations (observations state terminal planned refs) ≡ ok tt)
      ↔ CountsFit state terminal planned refs
unfolding validate_run_observations measurement_state_eq
accepts-CountsFit MeasurementState.measured terminal planned refs =
    (λ h. ground arith, λ h. ground arith)
accepts-CountsFit MeasurementState.evidence_insufficient terminal planned refs =
    (λ h. ground arith, λ h. ground arith)
accepts-CountsFit MeasurementState.not_applicable terminal planned refs =
    (λ h. ground arith, λ h. ground arith)

-- Run observations are accepted exactly when they are measured, with at least one planned
-- observation and one reference for each of the terminal ones, which are some and no more than
-- planned, or when they are not measured and carry nothing.
pub validate_run_observations_iff :
    (s : RunObservationsSnapshot)
    → (validate_run_observations s ≡ ok tt)
      ↔ CountsFit s.state s.terminal_observations s.planned_observations s.evidence_refs
validate_run_observations_iff s =
    accepts-CountsFit s.state s.terminal_observations s.planned_observations s.evidence_refs

-- The facts that fit a market's state.
abbrev pub ResultFits : MarketResultState → ℕ → ℕ → List String → Option String → Type 0
ResultFits MarketResultState.verified passed total refs reason =
    (passed ≡ total) × (length refs ≡ total) × (reason ≡ none)
ResultFits MarketResultState.provider_negative passed total refs reason =
    (passed ≡ 0) × (length refs ≡ total) × (reason ≡ none)
ResultFits MarketResultState.evidence_insufficient passed total refs reason =
    (passed ≤ total) × (length refs ≡ total) × (reason ≡ none)
ResultFits MarketResultState.not_applicable passed total refs reason =
    (passed ≡ 0) × (refs ≡ []) × (reason ≢ none)

abbrev market_result :
    String → MarketResultState → ℕ → ℕ → List String → Option String → MarketCoverageResult
market_result market state passed total refs reason = record {
  market = market;
  state = state;
  passed_rounds = passed;
  total_rounds = total;
  evidence_refs = refs;
  applicability_reason = reason;
}

accepts-ResultFits :
    (market : String) (state : MarketResultState) (passed total : ℕ) (refs : List String)
    (reason : Option String)
    → (validate_result (market_result market state passed total refs reason) ≡ ok tt)
      ↔ ResultFits state passed total refs reason
unfolding validate_result market_result_state_eq
accepts-ResultFits market MarketResultState.verified passed total refs reason =
    (λ h. ground arith, λ h. ground arith)
accepts-ResultFits market MarketResultState.provider_negative passed total refs reason =
    (λ h. ground arith, λ h. ground arith)
accepts-ResultFits market MarketResultState.evidence_insufficient passed total refs reason =
    (λ h. ground arith, λ h. ground arith)
accepts-ResultFits market MarketResultState.not_applicable passed total refs reason =
    (λ h. ground arith, λ h. ground arith)

-- A market's result is accepted exactly when its counts, references and reason fit its state: every
-- round passed, none passed, or some passed, with one reference for each round and no reason; or
-- not applicable, with a reason and nothing else.
pub validate_result_iff :
    (r : MarketCoverageResult)
    → (validate_result r ≡ ok tt)
      ↔ ResultFits r.state r.passed_rounds r.total_rounds r.evidence_refs r.applicability_reason
validate_result_iff r =
    accepts-ResultFits r.market r.state r.passed_rounds r.total_rounds r.evidence_refs
      r.applicability_reason
