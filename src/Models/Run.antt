-- ===== src/Models/Run.antt =====
-- src/qveris_bench/models/run.py and cap.py's `SourceReference`
use qveris_capability_benchm.Prelude.{ℕ, String, Bool, Option, List, Eq, String-discrete}
use native.Mathlib.Decide.{ℕ_discrete}
use qveris_capability_benchm.Models.Enums.{
  CellState, FailureAttribution, OutcomeStatus, RunMode, SourceType, SourceType-discrete,
}
use qveris_capability_benchm.Models.Value.{Value}

pub record RunCell : Type 0 where
  pub run_key : String
  pub case_id : String
  pub case_input : Value
  pub provider_id : String
  pub access_path_id : String
  pub mode : RunMode
  pub round : ℕ
  pub applicable : Bool
  pub applicability_reason : Option String
  pub state : CellState
  pub failure_attribution : Option FailureAttribution

pub record SourceReference : Type 0 where
  pub source_type : SourceType
  pub harbor_capability_id : String
  pub contract_version : ℕ
  pub catalog_snapshot_digest : String
  pub contract_digest : String

SourceReference-discrete : Discrete SourceReference
SourceReference-discrete = hlevel (String-discrete, ℕ_discrete, SourceType-discrete)

instance unfoldable pub source_reference_eq : Eq SourceReference
unfolding SourceReference-discrete
source_reference_eq = record { dec = SourceReference-discrete }

pub record RunPlan : Type 0 where
  pub suite_id : String
  pub suite_fingerprint : String
  pub cap_id : Option String
  pub cap_version : Option String
  pub cap_sources : List SourceReference
  pub cells : List RunCell

-- `details` is JSON; `occurred_at` is an ISO 8601 text.
pub record ObservationEvent : Type 0 where
  pub sequence : ℕ
  pub occurred_at : String
  pub event_type : String
  pub details : Value

pub record TaskOutcome : Type 0 where
  pub status : OutcomeStatus
  pub evidence_refs : List String
  pub unmet_conditions : List String
  pub failure_attribution : Option FailureAttribution
