-- ===== src/Releases/Terminal.antt =====
-- src/qveris_bench/releases/public_terminal.py: the models, and the parameters of an assembly.
use qveris_capability_benchm.Prelude.{String, Option, List, string_eq, option_eq, list_eq, pair_eq}
use qveris_capability_benchm.Prelude.Dict.{Dict}
use qveris_capability_benchm.Models.Enums.{
  AccessPathType, CellState, DisclosureLevel, FailureAttribution, LicenseStatus, RedactionStatus,
  access_path_type_eq, cell_state_eq, failure_attribution_eq,
}
use qveris_capability_benchm.Models.Evidence.{EvidenceBundle}
use qveris_capability_benchm.Models.Release.{BenchmarkRelease, ReleaseError}
use qveris_capability_benchm.Models.Run.{RunCell, RunPlan}
use qveris_capability_benchm.Models.Value.{Value, Float}
use qveris_capability_benchm.Execution.DirectBinding.{DirectBinding}
use qveris_capability_benchm.Releases.Builder.{ReleasePayload}
use qveris_capability_benchm.Releases.Gate.{ReleaseGateError}
use qveris_capability_benchm.Suites.Compiler.{CompiledSuite}

-- `facts` is a JSON object.
pub record PublicTerminal : Type 0 where
  pub binding_id : String
  pub run_key : String
  pub provider_id : String
  pub access_path_id : String
  pub transport : AccessPathType
  pub state : CellState
  pub facts : Value
  pub unmet_conditions : List String
  pub failure_attribution : Option FailureAttribution
  pub raw_digest : String
  pub binding_registry_digest : String
  pub extractor_version : String
  pub suite_fingerprint : String
  pub redaction_status : RedactionStatus
  pub disclosure_level : DisclosureLevel
  pub license_status : LicenseStatus
  pub latency_ms : Option Float
  pub cost_credits : Option Float
  pub github_run_id : String
  pub github_sha : String

pub record ValidatedTerminalOutcome : Type 0 where
  pub state : CellState
  pub unmet_conditions : List String
  pub failure_attribution : Option FailureAttribution

-- A path: its stem and the bytes behind it, `none` where they cannot be read.
pub record TerminalFile : Type 0 where
  pub stem : String
  pub bytes : Option String

-- A terminal with the stem of its path and the bytes that were read
pub record Loaded : Type 0 where
  pub terminal : PublicTerminal
  pub stem : String
  pub bytes : String

pub data PublicTerminalReleaseError : Type 0 where
  invalid_public_terminal : String → PublicTerminalReleaseError
  duplicate_terminal_run_key : PublicTerminalReleaseError
  terminals_mismatch : PublicTerminalReleaseError
  unknown_binding : PublicTerminalReleaseError
  binding_registry_digest_mismatch : PublicTerminalReleaseError
  suite_fingerprint_mismatch : PublicTerminalReleaseError
  cell_identity_mismatch : PublicTerminalReleaseError
  filename_mismatch : PublicTerminalReleaseError
  outcome_mismatch : PublicTerminalReleaseError
  github_provenance_mismatch : PublicTerminalReleaseError
  artifact_provenance_mismatch : PublicTerminalReleaseError
  key_error : String → PublicTerminalReleaseError
  validator_error : String → PublicTerminalReleaseError
  release_error : ReleaseError → PublicTerminalReleaseError
  gate_error : ReleaseGateError → PublicTerminalReleaseError

-- An entry of the manifest of public evidence
pub record ManifestEntry : Type 0 where
  pub evidence_id : String
  pub run_key : String
  pub path : String
  pub public_digest : Option String
  pub raw_digest : String

pub record PublicManifest : Type 0 where
  pub github_run_id : String
  pub github_sha : String
  pub github_artifacts_manifest_digest : String
  pub binding_registry_digest : String
  pub evidence : List ManifestEntry

pub record PublicTerminalReleaseArtifacts : Type 0 where
  pub run_plan : RunPlan
  pub cells : List RunCell
  pub evidence : List EvidenceBundle
  pub release : BenchmarkRelease
  pub release_bytes : String
  pub public_evidence_manifest_bytes : String
  pub binding_registry_bytes : String

-- The arguments of `assemble_public_terminal_release`, but for the validator
pub record Assembly : Type 0 where
  pub compiled : CompiledSuite
  pub binding_registry : List DirectBinding
  pub binding_registry_digest : String
  pub terminal_paths : List TerminalFile
  pub release_id : String
  pub version : String
  pub limitations : List String
  pub expected_github_run_id : String
  pub expected_github_sha : String
  pub expected_provenance : Dict String (String × String)
  pub github_artifacts_manifest_bytes : String
  pub binding_registry_bytes : String

-- The functions that are not in the repository: pydantic's parser, SHA-256 and canonical JSON
pub record Codec : Type 0 where
  pub model_validate_json : String → Option PublicTerminal
  pub sha256_digest : String → String
  pub run_plan_bytes : RunPlan → String
  pub manifest_bytes : PublicManifest → String
  pub canonical_release_bytes : ReleasePayload → String
