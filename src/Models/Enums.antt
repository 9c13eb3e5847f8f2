-- ===== src/Models/Enums.antt =====
-- src/qveris_bench/models/enums.py: each `StrEnum` as a data type, `is` on its members, and the
-- `value` of the enums whose text enters a run key or an identifier.
use Prim.Native.String.{String}
use qveris_capability_benchm.Prelude.{Eq}

pub data SourceType : Type 0 where
  harbor_catalog : SourceType

pub SourceType-discrete : Discrete SourceType
SourceType-discrete = hlevel

instance unfoldable pub source_type_eq : Eq SourceType
unfolding SourceType-discrete
source_type_eq = record { dec = SourceType-discrete }

pub data AccessPathType : Type 0 where
  native_mcp : AccessPathType
  official_openapi : AccessPathType
  official_api : AccessPathType
  official_sdk : AccessPathType
  benchmark_wrapper : AccessPathType
  qveris_connector : AccessPathType

pub AccessPathType-discrete : Discrete AccessPathType
AccessPathType-discrete = hlevel

instance unfoldable pub access_path_type_eq : Eq AccessPathType
unfolding AccessPathType-discrete
access_path_type_eq = record { dec = AccessPathType-discrete }

pub data AccessProtocol : Type 0 where
  https_rest mcp_streamable_http mcp_sse fix_44 sdk : AccessProtocol

pub AccessProtocol-discrete : Discrete AccessProtocol
AccessProtocol-discrete = hlevel

instance unfoldable pub access_protocol_eq : Eq AccessProtocol
unfolding AccessProtocol-discrete
access_protocol_eq = record { dec = AccessProtocol-discrete }

pub data QualificationDisposition : Type 0 where
  included excluded : QualificationDisposition

pub QualificationDisposition-discrete : Discrete QualificationDisposition
QualificationDisposition-discrete = hlevel

instance unfoldable pub qualification_disposition_eq : Eq QualificationDisposition
unfolding QualificationDisposition-discrete
qualification_disposition_eq = record { dec = QualificationDisposition-discrete }

pub data ReleaseFactType : Type 0 where
  outcome evidence limitation access_path provider_feedback : ReleaseFactType

pub ReleaseFactType-discrete : Discrete ReleaseFactType
ReleaseFactType-discrete = hlevel

instance unfoldable pub release_fact_type_eq : Eq ReleaseFactType
unfolding ReleaseFactType-discrete
release_fact_type_eq = record { dec = ReleaseFactType-discrete }

pub data DimensionState : Type 0 where
  measured declared evidence_insufficient : DimensionState

pub DimensionState-discrete : Discrete DimensionState
DimensionState-discrete = hlevel

instance unfoldable pub dimension_state_eq : Eq DimensionState
unfolding DimensionState-discrete
dimension_state_eq = record { dec = DimensionState-discrete }

pub data RunMode : Type 0 where
  direct agent_trial : RunMode

pub RunMode-discrete : Discrete RunMode
RunMode-discrete = hlevel

instance unfoldable pub run_mode_eq : Eq RunMode
unfolding RunMode-discrete
run_mode_eq = record { dec = RunMode-discrete }

pub data CellState : Type 0 where
  planned : CellState
  running : CellState
  completed : CellState
  provider_negative : CellState
  infra_blocked : CellState
  not_applicable : CellState
  excluded : CellState

pub CellState-discrete : Discrete CellState
CellState-discrete = hlevel

instance unfoldable pub cell_state_eq : Eq CellState
unfolding CellState-discrete
cell_state_eq = record { dec = CellState-discrete }

pub data OutcomeStatus : Type 0 where
  completed partial failed blocked not_applicable : OutcomeStatus

pub OutcomeStatus-discrete : Discrete OutcomeStatus
OutcomeStatus-discrete = hlevel

instance unfoldable pub outcome_status_eq : Eq OutcomeStatus
unfolding OutcomeStatus-discrete
outcome_status_eq = record { dec = OutcomeStatus-discrete }

pub data FailureAttribution : Type 0 where
  invalid_parameters : FailureAttribution
  provider_validation_error : FailureAttribution
  provider_runtime_error : FailureAttribution
  auth_or_entitlement : FailureAttribution
  rate_limited : FailureAttribution
  network_or_timeout : FailureAttribution
  empty_or_partial_data : FailureAttribution
  truncated_or_unpaged : FailureAttribution
  response_interpretation_error : FailureAttribution
  agent_output_error : FailureAttribution
  benchmark_system_error : FailureAttribution
  unknown : FailureAttribution

pub FailureAttribution-discrete : Discrete FailureAttribution
FailureAttribution-discrete = hlevel

instance unfoldable pub failure_attribution_eq : Eq FailureAttribution
unfolding FailureAttribution-discrete
failure_attribution_eq = record { dec = FailureAttribution-discrete }

pub data RedactionStatus : Type 0 where
  pending sanitized not_publishable : RedactionStatus

pub RedactionStatus-discrete : Discrete RedactionStatus
RedactionStatus-discrete = hlevel

instance unfoldable pub redaction_status_eq : Eq RedactionStatus
unfolding RedactionStatus-discrete
redaction_status_eq = record { dec = RedactionStatus-discrete }

pub data DisclosureLevel : Type 0 where
  private summary_only sanitized_public : DisclosureLevel

pub DisclosureLevel-discrete : Discrete DisclosureLevel
DisclosureLevel-discrete = hlevel

instance unfoldable pub disclosure_level_eq : Eq DisclosureLevel
unfolding DisclosureLevel-discrete
disclosure_level_eq = record { dec = DisclosureLevel-discrete }

pub data LicenseStatus : Type 0 where
  pending cleared restricted : LicenseStatus

pub LicenseStatus-discrete : Discrete LicenseStatus
LicenseStatus-discrete = hlevel

instance unfoldable pub license_status_eq : Eq LicenseStatus
unfolding LicenseStatus-discrete
license_status_eq = record { dec = LicenseStatus-discrete }

-- `RunMode(…).value`
abbrev pub run_mode_value : RunMode → String
run_mode_value RunMode.direct = "direct"
run_mode_value RunMode.agent_trial = "agent_trial"

-- `CellState(…).value`
abbrev pub cell_state_value : CellState → String
cell_state_value CellState.planned = "planned"
cell_state_value CellState.running = "running"
cell_state_value CellState.completed = "completed"
cell_state_value CellState.provider_negative = "provider_negative"
cell_state_value CellState.infra_blocked = "infra_blocked"
cell_state_value CellState.not_applicable = "not_applicable"
cell_state_value CellState.excluded = "excluded"

-- `FailureAttribution(…).value`
abbrev pub failure_attribution_value : FailureAttribution → String
failure_attribution_value FailureAttribution.invalid_parameters = "invalid_parameters"
failure_attribution_value FailureAttribution.provider_validation_error = "provider_validation_error"
failure_attribution_value FailureAttribution.provider_runtime_error = "provider_runtime_error"
failure_attribution_value FailureAttribution.auth_or_entitlement = "auth_or_entitlement"
failure_attribution_value FailureAttribution.rate_limited = "rate_limited"
failure_attribution_value FailureAttribution.network_or_timeout = "network_or_timeout"
failure_attribution_value FailureAttribution.empty_or_partial_data = "empty_or_partial_data"
failure_attribution_value FailureAttribution.truncated_or_unpaged = "truncated_or_unpaged"
failure_attribution_value FailureAttribution.response_interpretation_error =
    "response_interpretation_error"
failure_attribution_value FailureAttribution.agent_output_error = "agent_output_error"
failure_attribution_value FailureAttribution.benchmark_system_error = "benchmark_system_error"
failure_attribution_value FailureAttribution.unknown = "unknown"
