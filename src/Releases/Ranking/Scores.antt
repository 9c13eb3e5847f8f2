-- ===== src/Releases/Ranking/Scores.antt =====
-- The ranks that `_validate_ranking_cohort` accepts, against the scores' values.
use qveris_capability_benchm.Prelude.{
  ℕ, ◌≡◌, refl, ap, subst, true, false, not, ◌&&◌, Option, none, some, List, [], ◌∷◌, map, arith,
  ◌==◌, ==_iff, Bool-cases, inl, inr, nat_eq, string_eq, option_eq, pair_eq, any-false-All,
  is_distinct, is_distinct_iff, Distinct, ok, err, ◌>>=◌, >>-eq-ok, >>=-eq-ok, raise_if,
  raise_if-eq-ok,
}
use mathlib.Core.List.{Memᴰ}
use qveris_capability_benchm.Prelude.Dict.{Dict, lookup}
use qveris_capability_benchm.Prelude.Int.{ℤ, int_eq}
use qveris_capability_benchm.Prelude.Sort.{sort_by}
use qveris_capability_benchm.Prelude.Sorted.{
  Pairwise, sort_by-Pairwise, Memᴰ-sort_by, sort_by-Distinct, All-Memᴰ,
}
use qveris_capability_benchm.Models.Metric.{
  MetricScore, MetricRanking, TieMethod, ordinal, tie_method_eq, MetricDirection,
}
use qveris_capability_benchm.Releases.Ranking.{
  Scope, scope_of, ScoreKey, missing_score, ordinal_score_ties, expected_ranks, from_items,
  score_values, value_checks,
}
use qveris_capability_benchm.Releases.Ranking.Order.{
  better_asym, better_skip, Entry, entry_item, entries, map-entries, Memᴰ-entries, MayFollow,
  loop-Pairwise,
}
use qveris_capability_benchm.Releases.Ranking.Cohort.{
  lookup-from_items, keys-entries, less, tied-Pairwise, strict-Pairwise, Ranked, entries-Ranked,
}

abbrev value_of : ℤ × MetricRanking → ℤ
value_of p = p.0

abbrev pub place_of : ℤ × MetricRanking → Scope
place_of p = scope_of p.1

Memᴰ-map {ℓ κ} :
    {A : Type ℓ} {B : Type κ} (f : A → B) (xs : List A) {x : A} → Memᴰ x xs → Memᴰ (f x) (map f xs)
Memᴰ-map f [] m = elim m [ ]
Memᴰ-map f (y ∷ ys) (Memᴰ.head e) = Memᴰ.head (ap f e)
Memᴰ-map f (y ∷ ys) (Memᴰ.tail m) = Memᴰ.tail (Memᴰ-map f ys m)

module _ (tie : TieMethod) (d : MetricDirection) (values : List (ℤ × MetricRanking)) where
  abbrev ordered : List (ℤ × MetricRanking)
  ordered = sort_by (less tie d) values

  abbrev expected : Dict Scope ℕ
  expected = from_items [] (expected_ranks tie 1 0 none ordered)

  ordered-Pairwise :
      (tie == ordinal && not (is_distinct (map value_of ordered))) ≡ false
      → Pairwise (λ p q. MayFollow tie d p.0 q.0) ordered
  ordered-Pairwise h =
      let sorted =
        sort_by-Pairwise (less tie d) (λ p q. better_asym d p.0 q.0)
          (λ p q r. better_skip d p.0 q.0 r.0) values in
      elim (Bool-cases (tie == ordinal)) [
        | inl t ↦
            strict-Pairwise tie d ordered
              ((is_distinct_iff (map value_of ordered)).0 (ground arith)) sorted
        | inr t ↦ tied-Pairwise tie d ordered (λ e. cc ((==_iff tie ordinal).1 e)) sorted
      ]

  ordered-Distinct : Distinct (map place_of values) → Distinct (map place_of ordered)
  ordered-Distinct u = sort_by-Distinct (less tie d) place_of values u

  -- The expected rank of a ranking is what the loop assigned to it.
  lookup-entries :
      (x : Entry)
      → Distinct (map place_of values)
      → Memᴰ x (entries tie 1 0 none ordered)
      → lookup (scope_of x.1) expected ≡ some x.2
  lookup-entries x u m =
      let items = expected_ranks tie 1 0 none ordered in
      lookup-from_items [] items (scope_of x.1) x.2
        (rw (keys-entries tie 1 0 none ordered) (ordered-Distinct u))
        (rw (← map-entries tie 1 0 none ordered)
          (Memᴰ-map entry_item (entries tie 1 0 none ordered) m))

  -- What a ranking is expected to have, as an entry of the loop.
  entry_of :
      (a : ℤ) (r : MetricRanking)
      → Distinct (map place_of values)
      → Memᴰ (a, r) values
      → (lookup (scope_of r) expected == some r.rank) ≡ true
      → Memᴰ (a, r, r.rank) (entries tie 1 0 none ordered)
  entry_of a r u m h =
      let (e, n) = Memᴰ-entries tie 1 0 none ordered (a, r) (Memᴰ-sort_by (less tie d) values m) in
      let found = lookup-entries (a, r, e) u n in
      let held = (==_iff (lookup (scope_of r) expected) (some r.rank)).0 h in
      let same : e ≡ r.rank = cc in
      subst (λ k. Memᴰ (a, r, k) (entries tie 1 0 none ordered)) same n

module _ (scores : Dict ScoreKey MetricScore) where
  -- The first round of `score_values`, when no score is missing.
  record First (r : MetricRanking) (rs : List MetricRanking) (values : List (ℤ × MetricRanking))
      : Type 0 where
    score : MetricScore
    rest : List (ℤ × MetricRanking)
    found : lookup (r.definition_digest, scope_of r) scores ≡ some score
    others : score_values scores rs ≡ ok rest
    whole : values ≡ (score.value, r) ∷ rest

  score_values-First :
      (r : MetricRanking) (rs : List MetricRanking) {values : List (ℤ × MetricRanking)}
      → score_values scores (r ∷ rs) ≡ ok values
      → First r rs values
  unfolding score_values
  score_values-First r rs {values} h =
      first (lookup (r.definition_digest, scope_of r) scores) refl h
    where
      first :
          (o : Option MetricScore)
          → lookup (r.definition_digest, scope_of r) scores ≡ o
          → (elim o [
            | none ↦ err missing_score
            | some score ↦ (do rest ← score_values scores rs; ok ((score.value, r) ∷ rest))
          ])
            ≡ ok values
          → First r rs values
      first none e k = absurd (cc)
      first (some score) e k =
          let (rest, o, l) = >>=-eq-ok (score_values scores rs) _ k in
          record { score = score; rest = rest; found = e; others = o; whole = cc }

  pub score_values-Memᴰ :
      (rs : List MetricRanking) (r : MetricRanking) (a : MetricScore)
      {values : List (ℤ × MetricRanking)}
      → score_values scores rs ≡ ok values
      → Memᴰ r rs
      → lookup (r.definition_digest, scope_of r) scores ≡ some a
      → Memᴰ (a.value, r) values
  score_values-Memᴰ [] r a h m f = elim m [ ]
  score_values-Memᴰ (s ∷ rs) r a h (Memᴰ.head e) f =
      let one = score_values-First s rs h in
      let same : a.value ≡ one.score.value = cc (one.found) in rw one.whole (Memᴰ.head (cc))
  score_values-Memᴰ (s ∷ rs) r a h (Memᴰ.tail m) f =
      let one = score_values-First s rs h in
      rw one.whole (Memᴰ.tail (score_values-Memᴰ rs r a one.others m f))

  pub score_values-places :
      (rs : List MetricRanking) {values : List (ℤ × MetricRanking)}
      → score_values scores rs ≡ ok values
      → map place_of values ≡ map scope_of rs
  unfolding score_values
  score_values-places [] {values} h = let none_left : values ≡ [] = cc in rw none_left refl
  score_values-places (s ∷ rs) h =
      let one = score_values-First s rs h in
      rw one.whole (ap (λ ps. scope_of s ∷ ps) (score_values-places rs one.others))

  pub value_checks-Ranked :
      (first : MetricRanking) (rs : List MetricRanking) (values : List (ℤ × MetricRanking))
      (r s : MetricRanking) (a b : ℤ)
      → value_checks first rs values ≡ ok tt
      → Distinct (map place_of values)
      → Memᴰ r rs
      → Memᴰ s rs
      → Memᴰ (a, r) values
      → Memᴰ (b, s) values
      → Ranked first.tie_method first.direction (a, r.rank) (b, s.rank)
  unfolding value_checks
  value_checks-Ranked first rs values r s a b h u mr ms ma mb =
      let expected' = expected first.tie_method first.direction values in
      let (h1, h2) =
        >>-eq-ok
          (raise_if
            (first.tie_method == ordinal
              && not (is_distinct (map value_of (ordered first.tie_method first.direction values))))
            ordinal_score_ties)
          _ h in
      let held =
        any-false-All (λ (q : MetricRanking). not (lookup (scope_of q) expected' == some q.rank)) rs
          (raise_if-eq-ok _ _ h2) in
      let here : (lookup (scope_of r) expected' == some r.rank) ≡ true =
        ground (arith, All-Memᴰ _ rs held mr) in
      let there : (lookup (scope_of s) expected' == some s.rank) ≡ true =
        ground (arith, All-Memᴰ _ rs held ms) in
      entries-Ranked first.tie_method first.direction _
        (loop-Pairwise first.tie_method first.direction _
          (ordered-Pairwise first.tie_method first.direction values (raise_if-eq-ok _ _ h1)))
        (entry_of first.tie_method first.direction values a r u ma here)
        (entry_of first.tie_method first.direction values b s u mb there)
