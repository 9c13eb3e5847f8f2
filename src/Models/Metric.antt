-- ===== src/Models/Metric.antt =====
-- src/qveris_bench/models/metric.py: the metric models and their validators. A float of a metric
-- is finite, so it is an integer multiple of 2^-1074.
use qveris_capability_benchm.Prelude.{
  ℕ, String, not, ◌&&◌, List, Eq, ltb, Result, ◌>>◌, raise_if, String-discrete,
}
use qveris_capability_benchm.Prelude.Int.{ℤ, leb_ℤ, ℤ-discrete}

pub data MetricDirection : Type 0 where
  higher_is_better lower_is_better : MetricDirection

pub data TieMethod : Type 0 where
  competition dense ordinal : TieMethod

pub MetricDirection-discrete : Discrete MetricDirection
MetricDirection-discrete = hlevel

instance unfoldable pub metric_direction_eq : Eq MetricDirection
unfolding MetricDirection-discrete
metric_direction_eq = record { dec = MetricDirection-discrete }

pub TieMethod-discrete : Discrete TieMethod
TieMethod-discrete = hlevel

instance unfoldable pub tie_method_eq : Eq TieMethod
unfolding TieMethod-discrete
tie_method_eq = record { dec = TieMethod-discrete }

pub record MetricDefinition : Type 0 where
  pub definition_id : String
  pub cap_id : String
  pub cap_version : String
  pub metric_id : String
  pub dimension_id : String
  pub method_version : String
  pub method_digest : String
  pub scale_min : ℤ
  pub scale_max : ℤ
  pub unit : String
  pub direction : MetricDirection

pub MetricDefinition-discrete : Discrete MetricDefinition
MetricDefinition-discrete = hlevel (String-discrete, ℤ-discrete, MetricDirection-discrete)

instance unfoldable pub metric_definition_eq : Eq MetricDefinition
unfolding MetricDefinition-discrete
metric_definition_eq = record { dec = MetricDefinition-discrete }

pub record MetricScore : Type 0 where
  pub metric_id : String
  pub definition_digest : String
  pub dimension_id : String
  pub cap_id : String
  pub cap_version : String
  pub provider_id : String
  pub access_path_id : String
  pub method_version : String
  pub method_digest : String
  pub suite_fingerprint : String
  pub evidence_refs : List String
  pub value : ℤ
  pub scale_min : ℤ
  pub scale_max : ℤ
  pub unit : String
  pub direction : MetricDirection

pub record MetricRanking : Type 0 where
  pub metric_id : String
  pub definition_digest : String
  pub dimension_id : String
  pub cap_id : String
  pub cap_version : String
  pub provider_id : String
  pub access_path_id : String
  pub method_version : String
  pub method_digest : String
  pub suite_fingerprint : String
  pub evidence_refs : List String
  pub cohort_id : String
  pub cohort_digest : String
  pub rank : ℕ
  pub rank_of : ℕ
  pub tie_method : TieMethod
  pub direction : MetricDirection
  pub scale_min : ℤ
  pub scale_max : ℤ
  pub unit : String

pub data MetricError : Type 0 where
  scale_max_must_exceed_scale_min : MetricError
  score_outside_scale : MetricError
  rank_exceeds_rank_of : MetricError

-- `MetricDefinition.validate_scale`
unfoldable pub validate_definition_scale : MetricDefinition → Result MetricError (Unit {0})
validate_definition_scale d =
    raise_if (leb_ℤ d.scale_max d.scale_min) scale_max_must_exceed_scale_min

-- `MetricScore.validate_scale`
unfoldable pub validate_score_scale : MetricScore → Result MetricError (Unit {0})
validate_score_scale s = do
  raise_if (leb_ℤ s.scale_max s.scale_min) scale_max_must_exceed_scale_min
  raise_if (not (leb_ℤ s.scale_min s.value && leb_ℤ s.value s.scale_max)) score_outside_scale

-- `MetricRanking.validate_rank`
unfoldable pub validate_rank : MetricRanking → Result MetricError (Unit {0})
validate_rank r = do
  raise_if (ltb r.rank_of r.rank) rank_exceeds_rank_of
  raise_if (leb_ℤ r.scale_max r.scale_min) scale_max_must_exceed_scale_min
