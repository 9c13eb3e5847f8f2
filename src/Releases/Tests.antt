-- ===== src/Releases/Tests.antt =====
-- A release of one cell and its evidence at the gate and the publication policy.
use qveris_capability_benchm.Prelude.{
  ◌≡◌, ◌↔◌, refl, true, none, some, [], ◌∷◌, ok, All, string_eq, nat_eq, is_distinct,
}
use mathlib.Core.List.{flat_map}
use qveris_capability_benchm.Outcomes.Attribution.{ensure_provider_side_attribution}
use qveris_capability_benchm.Models.Enums.{
  CellState, rate_limited, direct, sanitized, sanitized_public, cleared, redaction_status_eq,
  disclosure_level_eq, license_status_eq, cell_state_eq, failure_attribution_eq,
}
use qveris_capability_benchm.Models.Evidence.{EvidenceBundle}
use qveris_capability_benchm.Models.Release.{BenchmarkRelease}
use qveris_capability_benchm.Models.Run.{RunCell}
use qveris_capability_benchm.Models.Value.{null}
use qveris_capability_benchm.Evidence.Policy.{
  IsPublishable, validate_publication, validate_publication_iff,
}
use qveris_capability_benchm.Releases.Gate.{
  check_evidence, open_cells, applicable_keys, check_bundle, measured_refs, check_attributions,
  lacks_provider_attribution, lacks_infra_attribution, validate_release_inputs,
}
use qveris_capability_benchm.Releases.Gate.Sound.{
  IsBacked, IsAttributed, check_evidence_iff, validate_release_inputs_sound,
}
use qveris_capability_benchm.Releases.Metrics.{Digests, validate_metrics}

abbrev digests : Digests
digests = record { definition_digest = λ definition. "d"; cohort_digest = λ id members. "c" }

abbrev refused_cell : RunCell
refused_cell = record {
  run_key = "a";
  case_id = "case";
  case_input = null;
  provider_id = "provider";
  access_path_id = "path";
  mode = direct;
  round = 1;
  applicable = true;
  applicability_reason = none;
  state = CellState.provider_negative;
  failure_attribution = some rate_limited;
}

abbrev bundle : EvidenceBundle
bundle = record {
  evidence_id = "e";
  run_key = "a";
  raw_digest = "raw";
  public_digest = some "public";
  redaction_status = sanitized;
  disclosure_level = sanitized_public;
  license_status = cleared;
  extractor_version = "1.0.0";
  suite_fingerprint = "print";
  latency_ms = none;
  cost_credits = none;
}

abbrev release : BenchmarkRelease
release = record {
  release_id = "release";
  version = "1.0.0";
  suite_fingerprint = "print";
  run_plan_digest = "plan";
  public_evidence_manifest_digest = none;
  github_artifacts_manifest_digest = none;
  evidence_ids = "e" ∷ [];
  outcome_ids = [];
  cap_id = none;
  cap_version = none;
  cap_sources = [];
  metric_definitions = [];
  developer_selection_facts = [];
  provider_feedback_facts = [];
  limitations = [];
}

release_passes :
    validate_release_inputs digests release (refused_cell ∷ []) (bundle ∷ []) true [] ≡ ok tt
unfolding validate_release_inputs open_cells is_distinct nat_eq string_eq applicable_keys
    check_bundle validate_publication redaction_status_eq disclosure_level_eq license_status_eq
    measured_refs flat_map validate_metrics check_attributions lacks_provider_attribution
    lacks_infra_attribution ensure_provider_side_attribution cell_state_eq failure_attribution_eq
release_passes = refl

validate_release_inputs_sound_example :
    IsBacked release (refused_cell ∷ []) (bundle ∷ []) × All IsAttributed (refused_cell ∷ [])
validate_release_inputs_sound_example =
    validate_release_inputs_sound digests release (refused_cell ∷ []) (bundle ∷ []) []
      release_passes

check_evidence_iff_example :
    (check_evidence release (refused_cell ∷ []) (bundle ∷ []) ≡ ok tt)
    ↔ IsBacked release (refused_cell ∷ []) (bundle ∷ [])
check_evidence_iff_example = check_evidence_iff release (refused_cell ∷ []) (bundle ∷ [])

validate_publication_iff_example : (validate_publication bundle ≡ ok tt) ↔ IsPublishable bundle
validate_publication_iff_example = validate_publication_iff bundle
