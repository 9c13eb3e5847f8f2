-- ===== src/Models/Release.antt =====
-- src/qveris_bench/models/release.py: the release models and their validators.
use qveris_capability_benchm.Prelude.{
  String, Bool, true, false, not, ◌&&◌, ◌||◌, Option, none, some, List, [], ◌∷◌, ◌==◌, any, subset,
  Result, ok, ◌>>◌, raise_if, string_eq, option_eq, pair_eq,
}
use qveris_capability_benchm.Prelude.Dict.{Dict}
use qveris_capability_benchm.Prelude.Int.{ℤ, int_eq}
use qveris_capability_benchm.Models.Enums.{
  ReleaseFactType, DimensionState, measured, declared, dimension_state_eq,
}
use qveris_capability_benchm.Models.Value.{Value}
use qveris_capability_benchm.Models.Run.{SourceReference}
use qveris_capability_benchm.Models.Suite.{is_some, is_none}
use qveris_capability_benchm.Models.Metric.{
  MetricDefinition, MetricScore, MetricRanking, MetricDirection, metric_direction_eq,
}

-- `MetricScore | MetricRanking`
pub data Metric : Type 0 where
  score : MetricScore → Metric
  ranking : MetricRanking → Metric

pub record ReleaseFact : Type 0 where
  pub fact_type : ReleaseFactType
  pub dimension_state : Option DimensionState
  pub dimension_id : Option String
  pub details : Value
  pub metric_score : Option MetricScore
  pub metric_ranking : Option MetricRanking
  pub evidence_refs : List String

pub record BenchmarkRelease : Type 0 where
  pub release_id : String
  pub version : String
  pub suite_fingerprint : String
  pub run_plan_digest : String
  pub public_evidence_manifest_digest : Option String
  pub github_artifacts_manifest_digest : Option String
  pub evidence_ids : List String
  pub outcome_ids : List String
  pub cap_id : Option String
  pub cap_version : Option String
  pub cap_sources : List SourceReference
  pub metric_definitions : List MetricDefinition
  pub developer_selection_facts : List ReleaseFact
  pub provider_feedback_facts : Dict String (List ReleaseFact)
  pub limitations : List String

-- What a score and a ranking have in common.
abbrev pub suite_fingerprint_of : Metric → String
suite_fingerprint_of (score s) = s.suite_fingerprint
suite_fingerprint_of (ranking r) = r.suite_fingerprint

abbrev pub definition_digest_of : Metric → String
definition_digest_of (score s) = s.definition_digest
definition_digest_of (ranking r) = r.definition_digest

abbrev pub evidence_refs_of : Metric → List String
evidence_refs_of (score s) = s.evidence_refs
evidence_refs_of (ranking r) = r.evidence_refs

abbrev pub provider_id_of : Metric → String
provider_id_of (score s) = s.provider_id
provider_id_of (ranking r) = r.provider_id

abbrev pub access_path_id_of : Metric → String
access_path_id_of (score s) = s.access_path_id
access_path_id_of (ranking r) = r.access_path_id

abbrev pub cap_id_of : Metric → String
cap_id_of (score s) = s.cap_id
cap_id_of (ranking r) = r.cap_id

abbrev pub cap_version_of : Metric → String
cap_version_of (score s) = s.cap_version
cap_version_of (ranking r) = r.cap_version

abbrev pub metric_id_of : Metric → String
metric_id_of (score s) = s.metric_id
metric_id_of (ranking r) = r.metric_id

abbrev pub dimension_id_of : Metric → String
dimension_id_of (score s) = s.dimension_id
dimension_id_of (ranking r) = r.dimension_id

abbrev pub method_version_of : Metric → String
method_version_of (score s) = s.method_version
method_version_of (ranking r) = r.method_version

abbrev pub method_digest_of : Metric → String
method_digest_of (score s) = s.method_digest
method_digest_of (ranking r) = r.method_digest

abbrev pub scale_min_of : Metric → ℤ
scale_min_of (score s) = s.scale_min
scale_min_of (ranking r) = r.scale_min

abbrev pub scale_max_of : Metric → ℤ
scale_max_of (score s) = s.scale_max
scale_max_of (ranking r) = r.scale_max

abbrev pub unit_of : Metric → String
unit_of (score s) = s.unit
unit_of (ranking r) = r.unit

abbrev pub direction_of : Metric → MetricDirection
direction_of (score s) = s.direction
direction_of (ranking r) = r.direction

-- `(fact.metric_score, fact.metric_ranking)` without `None`
unfoldable pub fact_metrics : ReleaseFact → List Metric
fact_metrics fact = elim fact.metric_score [
  | none ↦ elim fact.metric_ranking [ none ↦ [] | some r ↦ ranking r ∷ [] ]
  | some s ↦ elim fact.metric_ranking [ none ↦ score s ∷ [] | some r ↦ score s ∷ ranking r ∷ [] ]
]

pub data ReleaseError : Type 0 where
  metrics_require_measured : ReleaseError
  metrics_require_dimension_id : ReleaseError
  dimension_id_mismatch : ReleaseError
  metric_evidence_missing : ReleaseError
  metric_id_mismatch : ReleaseError
  method_version_mismatch : ReleaseError
  scope_mismatch : ReleaseError
  method_mismatch : ReleaseError
  measured_requires_evidence : ReleaseError
  declared_with_evidence : ReleaseError
  sources_without_cap : ReleaseError
  cap_without_sources : ReleaseError

abbrev pub is_empty {ℓ} : {A : Type ℓ} → List A → Bool
is_empty [] = true
is_empty (x ∷ xs) = false

same_scope : MetricScore → MetricRanking → Bool
same_scope s r =
    s.cap_id == r.cap_id && s.provider_id == r.provider_id && s.access_path_id == r.access_path_id

same_method : MetricScore → MetricRanking → Bool
same_method s r =
    s.definition_digest == r.definition_digest
    && s.cap_version == r.cap_version
    && s.method_digest == r.method_digest
    && s.suite_fingerprint == r.suite_fingerprint
    && s.scale_min == r.scale_min
    && s.scale_max == r.scale_max
    && s.unit == r.unit
    && s.direction == r.direction

-- The checks that are made only where the fact carries both a score and a ranking.
pair_checks : Option MetricScore → Option MetricRanking → Result ReleaseError (Unit {0})
unfolding same_scope same_method
pair_checks (some s) (some r) = do
  raise_if (not (s.metric_id == r.metric_id)) metric_id_mismatch
  raise_if (not (s.method_version == r.method_version)) method_version_mismatch
  raise_if (not (same_scope s r)) scope_mismatch
  raise_if (not (same_method s r)) method_mismatch
pair_checks (some s) none = ok tt
pair_checks none r = ok tt

-- `ReleaseFact.validate_metric_fields` behind its first line, which calls
-- `reject_unstructured_metric_keys` on the details.
unfoldable pub validate_metric_fields : ReleaseFact → Result ReleaseError (Unit {0})
unfolding pair_checks fact_metrics
validate_metric_fields fact = do
  let metrics = fact_metrics fact
  raise_if
      ((is_some fact.metric_score || is_some fact.metric_ranking)
        && not (fact.dimension_state == some measured))
      metrics_require_measured
  raise_if (not (is_empty metrics) && is_none fact.dimension_id) metrics_require_dimension_id
  raise_if (any (λ m. not (some (dimension_id_of m) == fact.dimension_id)) metrics)
      dimension_id_mismatch
  raise_if (any (λ m. not (subset (evidence_refs_of m) fact.evidence_refs)) metrics)
      metric_evidence_missing
  pair_checks fact.metric_score fact.metric_ranking

-- `ReleaseFact.validate_dimension_state`
unfoldable pub validate_dimension_state : ReleaseFact → Result ReleaseError (Unit {0})
validate_dimension_state fact = do
  raise_if (fact.dimension_state == some measured && is_empty fact.evidence_refs)
      measured_requires_evidence
  raise_if (fact.dimension_state == some declared && not (is_empty fact.evidence_refs))
      declared_with_evidence

-- `BenchmarkRelease.validate_cap_provenance`
unfoldable pub validate_cap_provenance : BenchmarkRelease → Result ReleaseError (Unit {0})
validate_cap_provenance release = do
  raise_if
      (not (is_empty release.cap_sources)
        && (is_none release.cap_id || is_none release.cap_version))
      sources_without_cap
  raise_if (is_some release.cap_id && is_empty release.cap_sources) cap_without_sources
