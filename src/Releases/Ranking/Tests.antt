-- ===== src/Releases/Ranking/Tests.antt =====
-- A cohort of three, of which two share a score, under competition ranking.
use qveris_capability_benchm.Prelude.{
  ℕ, ◌<◌, String, ◌≡◌, refl, [], ◌∷◌, ok, true, string_eq, pair_eq, nat_eq, option_eq, list_eq,
  to_set, is_distinct, count,
}
use mathlib.Core.List.{Memᴰ}
use qveris_capability_benchm.Prelude.Dict.{Dict, lookup, insert}
use qveris_capability_benchm.Prelude.Int.{pos, int_eq}
use qveris_capability_benchm.Prelude.Sort.{sort_by, str_lt}
use qveris_capability_benchm.Models.Metric.{
  MetricScore, MetricRanking, competition, tie_method_eq, higher_is_better, metric_direction_eq,
}
use qveris_capability_benchm.Releases.Ranking.{
  ScoreKey, better, expected_ranks, rank_at, from_items, metric_ranking_cohort_digest,
  validate_ranking_cohort,
}
use qveris_capability_benchm.Releases.Ranking.Accepted.{validate_ranking_cohort_sound}

abbrev ranking_of : String → ℕ → MetricRanking
ranking_of provider_id rank = record {
  metric_id = "accuracy";
  definition_digest = "d";
  dimension_id = "quality";
  cap_id = "quotes";
  cap_version = "1.0.0";
  provider_id = provider_id;
  access_path_id = "direct";
  method_version = "1.0.0";
  method_digest = "m";
  suite_fingerprint = "f";
  evidence_refs = "e" ∷ [];
  cohort_id = "c";
  cohort_digest = "members";
  rank = rank;
  rank_of = 3;
  tie_method = competition;
  direction = higher_is_better;
  scale_min = pos 0;
  scale_max = pos 10;
  unit = "points";
}

abbrev score_of : String → ℕ → MetricScore
score_of provider_id value = record {
  metric_id = "accuracy";
  definition_digest = "d";
  dimension_id = "quality";
  cap_id = "quotes";
  cap_version = "1.0.0";
  provider_id = provider_id;
  access_path_id = "direct";
  method_version = "1.0.0";
  method_digest = "m";
  suite_fingerprint = "f";
  evidence_refs = "e" ∷ [];
  value = pos value;
  scale_min = pos 0;
  scale_max = pos 10;
  unit = "points";
  direction = higher_is_better;
}

abbrev scores : Dict ScoreKey MetricScore
scores =
    (("d", ("one", "direct")), score_of "one" 7)
    ∷ (("d", ("two", "direct")), score_of "two" 9)
    ∷ (("d", ("three", "direct")), score_of "three" 7)
    ∷ []

validate_ranking_cohort_test :
    validate_ranking_cohort
      (λ id members. "members")
      scores
      (ranking_of "one" 2)
      (ranking_of "two" 1 ∷ ranking_of "three" 2 ∷ [])
    ≡ ok (("one", "direct") ∷ ("two", "direct") ∷ ("three", "direct") ∷ [])
unfolding validate_ranking_cohort metric_ranking_cohort_digest expected_ranks rank_at from_items
    lookup insert sort_by to_set is_distinct count tie_method_eq metric_direction_eq int_eq nat_eq
    string_eq pair_eq option_eq list_eq str_lt
validate_ranking_cohort_test = refl

validate_ranking_cohort_sound_example :
    ((better higher_is_better (pos 9) (pos 7) ≡ true) → 1 < 2) × ((pos 9 ≡ pos 7) → ◌≡◌ {A = ℕ} 1 2)
unfolding lookup string_eq pair_eq
validate_ranking_cohort_sound_example =
    validate_ranking_cohort_sound (λ id members. "members") scores (ranking_of "one" 2)
      (ranking_of "two" 1 ∷ ranking_of "three" 2 ∷ []) (ranking_of "two" 1) (ranking_of "three" 2)
      (score_of "two" 9) (score_of "three" 7) validate_ranking_cohort_test
      (Memᴰ.tail (Memᴰ.head refl)) (Memᴰ.tail (Memᴰ.tail (Memᴰ.head refl))) refl refl
