-- ===== src/Releases/Ranking.antt =====
-- src/qveris_bench/releases/gate.py: `_validate_ranking_cohort`, the check of one metric's ranking.
pub mod Order
pub mod Cohort
pub mod Scores
pub mod Accepted
mod Tests
use qveris_capability_benchm.Prelude.{
  ℕ, suc, ◌+◌, String, Bool, false, not, ◌&&◌, ◌||◌, Option, none, some, List, [], ◌∷◌, map, ◌==◌,
  string_eq, nat_eq, option_eq, pair_eq, list_eq, any, same_set, to_set, is_distinct, length, count,
  ltb, if◌then◌else◌, Result, ok, err, ◌>>=◌, ◌>>◌, raise_if,
}
use qveris_capability_benchm.Prelude.Dict.{Dict, lookup, insert}
use qveris_capability_benchm.Prelude.Int.{ℤ, ltb_ℤ, int_eq}
use qveris_capability_benchm.Prelude.Sort.{sort_by, str_lt}
use qveris_capability_benchm.Models.Metric.{
  MetricScore, MetricRanking, TieMethod, competition, dense, ordinal, tie_method_eq,
  MetricDirection, higher_is_better, metric_direction_eq,
}
use qveris_capability_benchm.Suites.Matrix.{range_from}

-- A Provider and an access path.
abbrev pub Scope : Type 0
Scope = String × String

abbrev pub scope_of : MetricRanking → Scope
scope_of r = (r.provider_id, r.access_path_id)

-- `(str(metric.definition_digest), str(metric.provider_id), str(metric.access_path_id))`
abbrev pub ScoreKey : Type 0
ScoreKey = String × Scope

pub data RankingError : Type 0 where
  cohort_inconsistent : RankingError
  incomplete_cohort : RankingError
  cohort_digest_mismatch : RankingError
  ordinal_ranks_not_contiguous : RankingError
  must_start_at_one : RankingError
  dense_ranks_not_contiguous : RankingError
  invalid_tie_gaps : RankingError
  missing_score : RankingError
  ordinal_score_ties : RankingError
  order_mismatch : RankingError

-- The comparison of two rankings' signatures.
same_signature : MetricRanking → MetricRanking → Bool
same_signature r s =
    r.cohort_id == s.cohort_id
    && r.metric_id == s.metric_id
    && r.definition_digest == s.definition_digest
    && r.dimension_id == s.dimension_id
    && r.cap_id == s.cap_id
    && r.cap_version == s.cap_version
    && r.method_version == s.method_version
    && r.method_digest == s.method_digest
    && r.suite_fingerprint == s.suite_fingerprint
    && r.rank_of == s.rank_of
    && r.tie_method == s.tie_method
    && r.direction == s.direction
    && r.scale_min == s.scale_min
    && r.scale_max == s.scale_max
    && r.unit == s.unit

-- The order of pairs of texts, which `sorted` uses on the members.
scope_lt : Scope → Scope → Bool
scope_lt (p, a) (q, b) = str_lt p q || (p == q && str_lt a b)

-- `metric_ranking_cohort_digest` of models/metric.py, over the digest of its JSON payload.
unfoldable pub metric_ranking_cohort_digest :
    (String → List Scope → String) → MetricRanking → List MetricRanking → String
unfolding scope_lt
metric_ranking_cohort_digest cohort_digest first rankings =
    cohort_digest first.cohort_id (sort_by scope_lt (map scope_of rankings))

-- `min(…)` of a list that is not empty
minimum : ℕ → List ℕ → ℕ
minimum n [] = n
minimum n (m ∷ ms) = minimum (if ltb m n then m else n) ms

-- The levels that competition ranking expects: each level is one more than what stands before it.
competition_levels : ℕ → List ℕ → List ℕ → List ℕ
competition_levels position ranks [] = []
competition_levels position ranks (level ∷ levels) =
    position ∷ competition_levels (position + count level ranks) ranks levels

-- Each ranking with its score's value.
pub score_values :
    Dict ScoreKey MetricScore → List MetricRanking → Result RankingError (List (ℤ × MetricRanking))
score_values scores [] = ok []
score_values scores (r ∷ rs) = elim (lookup (r.definition_digest, scope_of r) scores) [
  | none ↦ err missing_score
  | some score ↦ (do rest ← score_values scores rs; ok ((score.value, r) ∷ rest))
]

-- A value that ranks strictly before another.
abbrev pub better : MetricDirection → ℤ → ℤ → Bool
better direction a b = if direction == higher_is_better then ltb_ℤ b a else ltb_ℤ a b

-- `value == previous_value`, for what the last round left
is_tied : Option (ℤ × ℕ) → ℤ → Bool
is_tied none value = false
is_tied (some (v, e)) value = value == v

-- The expected rank that the last round stored, if there was one.
stored_rank : Option (ℤ × ℕ) → ℕ → ℕ
stored_rank none e = e
stored_rank (some (v, e)) e' = e

-- One round of the loop: the dense rank and the expected rank of a value.
unfoldable pub rank_at : TieMethod → ℕ → ℕ → Option (ℤ × ℕ) → ℤ → ℕ × ℕ
unfolding is_tied stored_rank
rank_at tie position dense_rank previous value =
    let tied = is_tied previous value in
    let dense_rank' = if tied then dense_rank else suc dense_rank in
    let first = if tie == dense then dense_rank' else position in
    (dense_rank', if tie == competition && tied then stored_rank previous first else first)

-- The loop over the sorted values. `previous` holds the value of the last round and the expected
-- rank that the last round stored.
unfoldable pub expected_ranks :
    TieMethod → ℕ → ℕ → Option (ℤ × ℕ) → List (ℤ × MetricRanking) → Dict Scope ℕ
expected_ranks tie position dense_rank previous [] = []
expected_ranks tie position dense_rank previous ((value, r) ∷ rest) =
    let (dense_rank', e) = rank_at tie position dense_rank previous value in
    (scope_of r, e) ∷ expected_ranks tie (suc position) dense_rank' (some (value, e)) rest

-- The assignments `expected_ranks[scope] = rank`, in order.
unfoldable pub from_items : Dict Scope ℕ → Dict Scope ℕ → Dict Scope ℕ
from_items d [] = d
from_items d ((k, v) ∷ items) = from_items (insert k v d) items

-- The checks of the ranks alone.
rank_checks : TieMethod → ℕ → ℕ → List ℕ → Result RankingError (Unit {0})
unfolding minimum competition_levels
rank_checks tie rank_of rank others = do
  let ranks = rank ∷ others
  let levels = sort_by ltb (to_set ranks)
  raise_if (tie == ordinal && not (same_set ranks (range_from 1 rank_of)))
      ordinal_ranks_not_contiguous
  raise_if (not (minimum rank others == 1)) must_start_at_one
  raise_if (tie == dense && not (levels == range_from 1 (length levels))) dense_ranks_not_contiguous
  raise_if (tie == competition && not (levels == competition_levels 1 ranks levels))
      invalid_tie_gaps

-- The checks of the ranks against the values.
pub value_checks :
    MetricRanking → List MetricRanking → List (ℤ × MetricRanking) → Result RankingError (Unit {0})
value_checks first rankings values = do
  let ordered = sort_by (λ p q. better first.direction p.0 q.0) values
  let expected = from_items [] (expected_ranks first.tie_method 1 0 none ordered)
  raise_if
      (first.tie_method == ordinal
        && not (is_distinct (map (λ (p : ℤ × MetricRanking). p.0) ordered)))
      ordinal_score_ties
  raise_if (any (λ r. not (lookup (scope_of r) expected == some r.rank)) rankings) order_mismatch

module _ (cohort_digest : String → List Scope → String) (scores : Dict ScoreKey MetricScore) where
  -- `_validate_ranking_cohort` of the rankings `first ∷ others`; the members are a set.
  unfoldable pub validate_ranking_cohort :
      MetricRanking → List MetricRanking → Result RankingError (List Scope)
  unfolding same_signature rank_checks score_values value_checks
  validate_ranking_cohort first others = do
    let rankings = first ∷ others
    let members = to_set (map scope_of rankings)
    raise_if (any (λ r. not (same_signature r first)) others) cohort_inconsistent
    raise_if (not (length members == first.rank_of) || not (length rankings == first.rank_of))
        incomplete_cohort
    raise_if (any (λ r. not (r.cohort_digest == first.cohort_digest)) rankings)
        cohort_digest_mismatch
    raise_if
        (not (first.cohort_digest == metric_ranking_cohort_digest cohort_digest first rankings))
        cohort_digest_mismatch
    rank_checks first.tie_method first.rank_of first.rank
        (map (λ (r : MetricRanking). r.rank) others)
    values ← score_values scores rankings
    value_checks first rankings values
    ok members
