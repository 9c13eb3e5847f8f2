-- ===== src/Models/Selection.antt =====
-- src/qveris_bench/models/selection.py: the snapshots of a selection and their validators.
pub mod Observations
pub mod Gateway
use qveris_capability_benchm.Prelude.{
  Eq, ℕ, String, Bool, true, false, not, ◌&&◌, ◌||◌, Option, none, some, List, [], ◌∷◌, ◌++◌, ◌==◌,
  ltb, length, any, same_set, is_distinct, string_eq, nat_eq, if◌then◌else◌, Result, ok, err, ◌>>◌,
  raise_if,
}
use qveris_capability_benchm.Models.Enums.{AccessPathType}
use qveris_capability_benchm.Models.Provider.{PricingScope}
use qveris_capability_benchm.Models.Release.{is_empty}
use qveris_capability_benchm.Models.Suite.{is_none, is_some}

pub data MeasurementState : Type 0 where
  measured evidence_insufficient not_applicable : MeasurementState

pub MeasurementState-discrete : Discrete MeasurementState
MeasurementState-discrete = hlevel

instance unfoldable pub measurement_state_eq : Eq MeasurementState
unfolding MeasurementState-discrete
measurement_state_eq = record { dec = MeasurementState-discrete }

pub data PricingState : Type 0 where
  declared evidence_insufficient : PricingState

pub PricingState-discrete : Discrete PricingState
PricingState-discrete = hlevel

instance unfoldable pub pricing_state_eq : Eq PricingState
unfolding PricingState-discrete
pricing_state_eq = record { dec = PricingState-discrete }

pub data MarketResultState : Type 0 where
  verified provider_negative evidence_insufficient not_applicable : MarketResultState

pub MarketResultState-discrete : Discrete MarketResultState
MarketResultState-discrete = hlevel

instance unfoldable pub market_result_state_eq : Eq MarketResultState
unfolding MarketResultState-discrete
market_result_state_eq = record { dec = MarketResultState-discrete }

pub data SelectionError : Type 0 where
  window_order : SelectionError
  measured_requires_plan : SelectionError
  more_terminal_than_planned : SelectionError
  evidence_count_mismatch : SelectionError
  unmeasured_with_counts : SelectionError
  pricing_incomplete : SelectionError
  pricing_not_empty : SelectionError
  observation_incomplete : SelectionError
  more_passed_than_total : SelectionError
  unmeasured_observation : SelectionError
  market_more_passed : SelectionError
  verified_incomplete : SelectionError
  negative_incomplete : SelectionError
  insufficient_incomplete : SelectionError
  not_applicable_with_facts : SelectionError
  duplicate_market : SelectionError

-- A date is the number of its day.
pub record ObservationWindow : Type 0 where
  pub start : ℕ
  pub last : ℕ

-- `ObservationWindow.validate_order`
unfoldable pub validate_order : ObservationWindow → Result SelectionError (Unit {0})
validate_order window = raise_if (ltb window.last window.start) window_order

pub record RunObservationsSnapshot : Type 0 where
  pub state : MeasurementState
  pub terminal_observations : ℕ
  pub planned_observations : ℕ
  pub evidence_refs : List String

-- `RunObservationsSnapshot.validate_measurement`
unfoldable pub validate_run_observations :
    RunObservationsSnapshot → Result SelectionError (Unit {0})
validate_run_observations s = do
  raise_if
      (s.state == MeasurementState.measured
        && (is_empty s.evidence_refs || s.planned_observations == 0))
      measured_requires_plan
  raise_if (ltb s.planned_observations s.terminal_observations) more_terminal_than_planned
  raise_if
      (s.state == MeasurementState.measured
        && not (length s.evidence_refs == s.terminal_observations))
      evidence_count_mismatch
  raise_if
      (not (s.state == MeasurementState.measured)
        && (not (s.terminal_observations == 0)
            || not (s.planned_observations == 0)
            || not (is_empty s.evidence_refs)))
      unmeasured_with_counts

pub record OfficialPricingSnapshot : Type 0 where
  pub state : PricingState
  pub pricing_id : Option String
  pub pricing_url : Option String
  pub free_tier : Option String
  pub paid_plans : Option String
  pub verified_at : Option ℕ
  pub source_digest : Option String
  pub applies_to : Option PricingScope
  pub currencies : List String
  pub extractor_version : Option String
  pub suite_fingerprint : Option String
  pub disclosure_level : Option String
  pub license_status : Option String

-- Which of the `required` items are there
unfoldable pub required_items : OfficialPricingSnapshot → List Bool
required_items p =
    is_some p.pricing_id
    ∷ is_some p.pricing_url
    ∷ is_some p.free_tier
    ∷ is_some p.paid_plans
    ∷ is_some p.verified_at
    ∷ is_some p.source_digest
    ∷ is_some p.applies_to
    ∷ not (is_empty p.currencies)
    ∷ is_some p.extractor_version
    ∷ is_some p.suite_fingerprint
    ∷ is_some p.disclosure_level
    ∷ is_some p.license_status
    ∷ []

-- `OfficialPricingSnapshot.validate_declaration`
unfoldable pub validate_declaration : OfficialPricingSnapshot → Result SelectionError (Unit {0})
unfolding required_items
validate_declaration p = do
  raise_if (p.state == PricingState.declared && any not (required_items p)) pricing_incomplete
  raise_if
      (p.state == PricingState.evidence_insufficient && any (λ there. there) (required_items p))
      pricing_not_empty

pub record SelectionObservation : Type 0 where
  pub state : MeasurementState
  pub passed : Option ℕ
  pub total : Option ℕ
  pub evidence_refs : List String

-- `passed is not None and total is not None and passed > total`
unfoldable pub exceeds : Option ℕ → Option ℕ → Bool
exceeds none total = false
exceeds (some passed) none = false
exceeds (some passed) (some total) = ltb total passed

-- `SelectionObservation.validate_measurement`
unfoldable pub validate_observation : SelectionObservation → Result SelectionError (Unit {0})
unfolding exceeds
validate_observation o = do
  raise_if
      (o.state == MeasurementState.measured
        && (is_none o.passed || is_none o.total || is_empty o.evidence_refs))
      observation_incomplete
  raise_if (exceeds o.passed o.total) more_passed_than_total
  raise_if
      (not (o.state == MeasurementState.measured)
        && (not (is_empty o.evidence_refs) || is_some o.passed || is_some o.total))
      unmeasured_observation

pub record MarketCoverageResult : Type 0 where
  pub market : String
  pub state : MarketResultState
  pub passed_rounds : ℕ
  pub total_rounds : ℕ
  pub evidence_refs : List String
  pub applicability_reason : Option String

-- `MarketCoverageResult.validate_result`
unfoldable pub validate_result : MarketCoverageResult → Result SelectionError (Unit {0})
validate_result r = do
  raise_if (ltb r.total_rounds r.passed_rounds) market_more_passed
  raise_if
      (r.state == MarketResultState.verified
        && (not (r.passed_rounds == r.total_rounds)
            || not (length r.evidence_refs == r.total_rounds)
            || is_some r.applicability_reason))
      verified_incomplete
  raise_if
      (r.state == MarketResultState.provider_negative
        && (not (r.passed_rounds == 0)
            || not (length r.evidence_refs == r.total_rounds)
            || is_some r.applicability_reason))
      negative_incomplete
  raise_if
      (r.state == MarketResultState.evidence_insufficient
        && (not (length r.evidence_refs == r.total_rounds) || is_some r.applicability_reason))
      insufficient_incomplete
  raise_if
      (r.state == MarketResultState.not_applicable
        && (not (r.passed_rounds == 0)
            || not (is_empty r.evidence_refs)
            || is_none r.applicability_reason))
      not_applicable_with_facts

pub record MarketCoverageSnapshot : Type 0 where
  pub release_digest : String
  pub observation_date : ℕ
  pub results : List MarketCoverageResult
  pub run_observations : Option RunObservationsSnapshot

abbrev pub markets : List MarketCoverageResult → List String
markets [] = []
markets (r ∷ rs) = r.market ∷ markets rs

-- `MarketCoverageSnapshot.require_unique_markets`
unfoldable pub require_unique_markets : MarketCoverageSnapshot → Result SelectionError (Unit {0})
require_unique_markets s = raise_if (not (is_distinct (markets s.results))) duplicate_market
