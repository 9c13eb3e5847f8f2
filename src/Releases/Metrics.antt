-- ===== src/Releases/Metrics.antt =====
-- src/qveris_bench/releases/gate.py: `_validate_metrics`. The digests of definitions and cohorts go
-- through pydantic, json and hashlib, and are parameters.
use qveris_capability_benchm.Prelude.{
  String, Bool, false, not, ◌&&◌, ◌||◌, Option, none, some, List, [], ◌∷◌, ◌++◌, ◌==◌, string_eq,
  nat_eq, option_eq, pair_eq, any, all, same_set, length, Result, ok, err, ◌>>=◌, ◌>>◌, raise_if,
  rethrow, for_each,
}
use mathlib.Core.List.{flat_map}
use qveris_capability_benchm.Prelude.Dict.{Dict, lookup, insert, values}
use qveris_capability_benchm.Prelude.Int.{int_eq}
use qveris_capability_benchm.Models.Evidence.{EvidenceBundle}
use qveris_capability_benchm.Models.Metric.{
  MetricDefinition, MetricScore, MetricRanking, metric_definition_eq, metric_direction_eq,
}
use qveris_capability_benchm.Models.Release.{
  Metric, score, ranking, ReleaseFact, BenchmarkRelease, fact_metrics, suite_fingerprint_of,
  definition_digest_of, evidence_refs_of, provider_id_of, access_path_id_of, cap_id_of,
  cap_version_of, metric_id_of, dimension_id_of, method_version_of, method_digest_of, scale_min_of,
  scale_max_of, unit_of, direction_of, is_empty,
}
use qveris_capability_benchm.Models.Run.{RunCell}
use qveris_capability_benchm.Models.Suite.{is_none}
use qveris_capability_benchm.Releases.Ranking.{
  RankingError, Scope, ScoreKey, validate_ranking_cohort,
}

pub data MetricsError : Type 0 where
  metric_fingerprint_mismatch : MetricsError
  requires_cap_identity : MetricsError
  duplicate_definition : MetricsError
  requires_registry : MetricsError
  registry_mismatch : MetricsError
  unregistered_definition : MetricsError
  definition_mismatch : MetricsError
  scope_mismatch : MetricsError
  ranking_error : RankingError → MetricsError
  membership_inconsistent : MetricsError

-- What hashlib, json and pydantic contribute: the digest of a definition's canonical JSON, and of
-- the payload of a cohort.
pub record Digests : Type 0 where
  pub definition_digest : MetricDefinition → String
  pub cohort_digest : String → List Scope → String

-- `{key(x): x for x in xs}`
unfoldable pub index_by {ℓ} : {A : Type ℓ} → (A → String) → Dict String A → List A → Dict String A
index_by key d [] = d
index_by key d (x ∷ xs) = index_by key (insert (key x) x d) xs

-- `==` of two dicts
same_dict : Dict String MetricDefinition → Dict String MetricDefinition → Bool
same_dict d e = length d == length e && all (λ (k, v). lookup k e == some v) d

-- The facts of a release, the developers' and then the Providers'.
unfoldable pub release_facts : BenchmarkRelease → List ReleaseFact
release_facts release =
    release.developer_selection_facts
    ++ flat_map (λ facts. facts) (values release.provider_feedback_facts)

-- `actual == expected`
matches_definition : BenchmarkRelease → Metric → MetricDefinition → Bool
matches_definition release metric definition =
    some (cap_id_of metric) == release.cap_id
    && some (cap_version_of metric) == release.cap_version
    && cap_id_of metric == definition.cap_id
    && cap_version_of metric == definition.cap_version
    && metric_id_of metric == definition.metric_id
    && dimension_id_of metric == definition.dimension_id
    && method_version_of metric == definition.method_version
    && method_digest_of metric == definition.method_digest
    && scale_min_of metric == definition.scale_min
    && scale_max_of metric == definition.scale_max
    && unit_of metric == definition.unit
    && direction_of metric == definition.direction

check_definition :
    BenchmarkRelease → Metric → Option MetricDefinition → Result MetricsError (Unit {0})
unfolding matches_definition
check_definition release metric none = err unregistered_definition
check_definition release metric (some definition) =
    raise_if (not (matches_definition release metric definition)) definition_mismatch

metric_scope : Metric → Scope
metric_scope metric = (provider_id_of metric, access_path_id_of metric)

-- `d.setdefault(key, set()).add(scope)`
add_scope : String → Scope → Dict String (List Scope) → Dict String (List Scope)
add_scope key scope d = elim (lookup key d) [
  | none ↦ insert key (scope ∷ []) d
  | some scopes ↦ insert key (scope ∷ scopes) d
]

unfoldable pub digests_of : EvidenceBundle → List String
digests_of bundle = elim bundle.public_digest [
  | none ↦ bundle.raw_digest ∷ []
  | some digest ↦ bundle.raw_digest ∷ digest ∷ []
]

add_scopes : List String → Scope → Dict String (List Scope) → Dict String (List Scope)
unfolding add_scope
add_scopes [] scope d = d
add_scopes (digest ∷ digests) scope d = add_scopes digests scope (add_scope digest scope d)

add_bundle :
    Dict String RunCell → EvidenceBundle → Dict String (List Scope) → Dict String (List Scope)
unfolding add_scopes digests_of
add_bundle cells bundle d = elim (lookup bundle.run_key cells) [
  | none ↦ d
  | some cell ↦ add_scopes (digests_of bundle) (cell.provider_id, cell.access_path_id) d
]

-- `metric_scopes_by_digest`
scopes_by_digest :
    Dict String RunCell → List EvidenceBundle → Dict String (List Scope) → Dict String (List Scope)
unfolding add_bundle
scopes_by_digest cells [] d = d
scopes_by_digest cells (bundle ∷ bundles) d =
    scopes_by_digest cells bundles (add_bundle cells bundle d)

-- `metric_scopes_by_digest.get(reference) == {metric_scope}`
is_scope_of : Dict String (List Scope) → Scope → String → Bool
is_scope_of scopes scope reference = elim (lookup reference scopes) [
  | none ↦ false
  | some found ↦ same_set found (scope ∷ [])
]

-- `scores_by_metric_scope`
scores_by_key : List Metric → Dict ScoreKey MetricScore → Dict ScoreKey MetricScore
scores_by_key [] d = d
scores_by_key (score s ∷ metrics) d =
    scores_by_key metrics (insert (s.definition_digest, (s.provider_id, s.access_path_id)) s d)
scores_by_key (ranking r ∷ metrics) d = scores_by_key metrics d

-- The rankings of one cohort and definition, in order: one at least.
abbrev Cohort : Type 0
Cohort = MetricRanking × List MetricRanking

abbrev add_last : Option Cohort → MetricRanking → Cohort
add_last none r = (r, [])
add_last (some (first, others)) r = (first, others ++ r ∷ [])

-- `rankings_by_metric_cohort`
rankings_by_cohort : List Metric → Dict (String × String) Cohort → Dict (String × String) Cohort
rankings_by_cohort [] d = d
rankings_by_cohort (score s ∷ metrics) d = rankings_by_cohort metrics d
rankings_by_cohort (ranking r ∷ metrics) d =
    let key : String × String = (r.cohort_id, r.definition_digest) in
    rankings_by_cohort metrics (insert key (add_last (lookup key d) r) d)

-- `cohort_id in cohort_members and cohort_members[cohort_id] != members`
conflicts : Option (List Scope) → List Scope → Bool
conflicts none members = false
conflicts (some known) members = not (same_set known members)

module _ (digests : Digests) where
  validate_cohorts :
      Dict ScoreKey MetricScore
      → List Cohort
      → Dict String (List Scope)
      → Result MetricsError (Unit {0})
  unfolding conflicts
  validate_cohorts scores [] cohort_members = ok tt
  validate_cohorts scores ((first, others) ∷ cohorts) cohort_members = do
    members ←
        rethrow ranking_error (validate_ranking_cohort digests.cohort_digest scores first others)
    raise_if (conflicts (lookup first.cohort_id cohort_members) members) membership_inconsistent
    validate_cohorts scores cohorts (insert first.cohort_id members cohort_members)

  -- `_validate_metrics`
  unfoldable pub validate_metrics :
      BenchmarkRelease
      → List RunCell
      → List EvidenceBundle
      → List MetricDefinition
      → Result MetricsError (Unit {0})
  unfolding index_by release_facts check_definition scopes_by_digest is_scope_of scores_by_key
      rankings_by_cohort validate_cohorts same_dict metric_scope
  validate_metrics release cells evidence metric_registry = do
    let metrics = flat_map fact_metrics (release_facts release)
    raise_if (any (λ m. not (suite_fingerprint_of m == release.suite_fingerprint)) metrics)
        metric_fingerprint_mismatch
    raise_if (not (is_empty metrics) && (is_none release.cap_id || is_none release.cap_version))
        requires_cap_identity
    let released = index_by digests.definition_digest [] release.metric_definitions
    raise_if (not (length released == length release.metric_definitions)) duplicate_definition
    let definitions = index_by digests.definition_digest [] metric_registry
    raise_if (not (is_empty metrics) && is_empty definitions) requires_registry
    raise_if (not (same_dict released definitions)) registry_mismatch
    for_each (λ m. check_definition release m (lookup (definition_digest_of m) definitions)) metrics
    let scopes = scopes_by_digest (index_by (λ c. c.run_key) [] cells) evidence []
    raise_if
        (any (λ m. any (λ r. not (is_scope_of scopes (metric_scope m) r)) (evidence_refs_of m))
          metrics)
        scope_mismatch
    validate_cohorts (scores_by_key metrics []) (values (rankings_by_cohort metrics [])) []
