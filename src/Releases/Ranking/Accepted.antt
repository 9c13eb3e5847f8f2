-- ===== src/Releases/Ranking/Accepted.antt =====
-- A ranking cohort that the gate accepts ranks the scores.
use qveris_capability_benchm.Prelude.{
  ℕ, ◌<◌, String, ◌≡◌, refl, true, false, not, some, List, [], ◌∷◌, map, arith, ◌==◌, ==_iff,
  nat_eq, string_eq, option_eq, pair_eq, any, ◌||◌, to_set, is_distinct, is_distinct_iff, Distinct,
  length, ok, >>-eq-ok, >>=-eq-ok, raise_if, raise_if-eq-ok,
}
use mathlib.Core.List.{Memᴰ}
use qveris_capability_benchm.Prelude.Dict.{Dict, lookup}
use qveris_capability_benchm.Prelude.Int.{ℤ, int_eq}
use qveris_capability_benchm.Models.Metric.{MetricScore, MetricRanking, tie_method_eq}
use qveris_capability_benchm.Releases.Ranking.{
  Scope, scope_of, ScoreKey, cohort_inconsistent, incomplete_cohort, cohort_digest_mismatch,
  rank_checks, metric_ranking_cohort_digest, same_signature, better, score_values, value_checks,
  validate_ranking_cohort,
}
use qveris_capability_benchm.Releases.Ranking.Scores.{
  score_values-Memᴰ, score_values-places, value_checks-Ranked,
}

length-map {ℓ κ} :
    {A : Type ℓ} {B : Type κ} (f : A → B) (xs : List A) → length (map f xs) ≡ length xs
length-map f [] = refl
length-map f (x ∷ xs) = omega (arith, length-map f xs)

module _ (cohort_digest : String → List Scope → String) (scores : Dict ScoreKey MetricScore) where
  -- What an accepted cohort has passed.
  record Checked (first : MetricRanking) (rs : List MetricRanking) : Type 0 where
    values : List (ℤ × MetricRanking)
    scored : score_values scores rs ≡ ok values
    distinct : Distinct (map scope_of rs)
    ranked : value_checks first rs values ≡ ok tt

  full-cohort :
      (rs : List MetricRanking) (n : ℕ)
      → (not (length (to_set (map scope_of rs)) == n) || not (length rs == n)) ≡ false
      → Distinct (map scope_of rs)
  unfolding is_distinct
  full-cohort rs n h =
      let members = (==_iff (length (to_set (map scope_of rs))) n).0 (ground arith) in
      let all_of_them = (==_iff (length rs) n).0 (ground arith) in
      (is_distinct_iff (map scope_of rs)).0 (
        (==_iff (length (to_set (map scope_of rs))) (length (map scope_of rs))).1
          (omega (arith, members, all_of_them, length-map scope_of rs)))

  validate_ranking_cohort-Checked :
      (first : MetricRanking) (others : List MetricRanking) {members : List Scope}
      → validate_ranking_cohort cohort_digest scores first others ≡ ok members
      → Checked first (first ∷ others)
  unfolding validate_ranking_cohort
  validate_ranking_cohort-Checked first others h =
      let rs = first ∷ others in
      let (h1, k1) =
        >>-eq-ok (raise_if (any (λ r. not (same_signature r first)) others) cohort_inconsistent) _
          h in
      let (h2, k2) =
        >>-eq-ok
          (raise_if
            (not (length (to_set (map scope_of rs)) == first.rank_of)
              || not (length rs == first.rank_of))
            incomplete_cohort)
          _ k1 in
      let (h3, k3) =
        >>-eq-ok
          (raise_if (any (λ r. not (r.cohort_digest == first.cohort_digest)) rs)
            cohort_digest_mismatch)
          _ k2 in
      let (h4, k4) =
        >>-eq-ok
          (raise_if
            (not (first.cohort_digest == metric_ranking_cohort_digest cohort_digest first rs))
            cohort_digest_mismatch)
          _ k3 in
      let (h5, k5) =
        >>-eq-ok
          (rank_checks first.tie_method first.rank_of first.rank
            (map (λ (r : MetricRanking). r.rank) others))
          _ k4 in
      let (values, h6, k6) = >>=-eq-ok (score_values scores rs) _ k5 in
      let (h7, k7) = >>-eq-ok (value_checks first rs values) _ k6 in
      record {
        values = values;
        scored = h6;
        distinct = full-cohort rs first.rank_of (raise_if-eq-ok _ _ h2);
        ranked = h7;
      }

  -- In a cohort that the check accepts, a ranking whose score is better has the smaller rank, and
  -- rankings whose scores are equal have one rank.
  pub validate_ranking_cohort_sound :
      (first : MetricRanking) (others : List MetricRanking) {members : List Scope}
      (r s : MetricRanking) (a b : MetricScore)
      → validate_ranking_cohort cohort_digest scores first others ≡ ok members
      → Memᴰ r (first ∷ others)
      → Memᴰ s (first ∷ others)
      → lookup (r.definition_digest, scope_of r) scores ≡ some a
      → lookup (s.definition_digest, scope_of s) scores ≡ some b
      → (better first.direction a.value b.value ≡ true → r.rank < s.rank)
        × (a.value ≡ b.value → r.rank ≡ s.rank)
  validate_ranking_cohort_sound first others r s a b h mr ms fa fb =
      let rs = first ∷ others in
      let c = validate_ranking_cohort-Checked first others h in
      value_checks-Ranked scores first rs c.values r s a.value b.value c.ranked
        (rw (score_values-places scores rs c.scored) c.distinct) mr ms
        (score_values-Memᴰ scores rs r a c.scored mr fa)
        (score_values-Memᴰ scores rs s b c.scored ms fb)
