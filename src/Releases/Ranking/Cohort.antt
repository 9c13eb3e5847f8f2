-- ===== src/Releases/Ranking/Cohort.antt =====
-- The ranks that the loop over the sorted values assigns: they are found again under the Provider
-- and access path, and any two of them are in order.
use qveris_capability_benchm.Prelude.{
  ℕ, suc, ◌<◌, ◌≡◌, ◌≢◌, refl, ap, ◌∙◌, sym, Bool, true, false, Option, some, List, [], ◌∷◌, map,
  arith, inl, inr, nat_eq, string_eq, option_eq, pair_eq, contains, Distinct, All, All-map,
}
use mathlib.Core.List.{Memᴰ}
use qveris_capability_benchm.Prelude.Dict.{Dict, lookup, insert, keys, lookup-insert}
use qveris_capability_benchm.Prelude.Int.{ℤ, int_eq}
use qveris_capability_benchm.Prelude.Sorted.{Pairwise, Pairwise-cases, NotLess}
use qveris_capability_benchm.Models.Metric.{
  MetricRanking, TieMethod, ordinal, tie_method_eq, MetricDirection,
}
use qveris_capability_benchm.Releases.Ranking.{
  Scope, scope_of, better, expected_ranks, from_items, rank_at,
}
use qveris_capability_benchm.Releases.Ranking.Order.{
  better_asym, better_total, Placed, Entry, placed, InOrder, MayFollow,
}

-- The assignments of keys that differ: each is found again.
from_items_other :
    (d items : Dict Scope ℕ) (k : Scope)
    → contains (keys items) k ≡ false
    → lookup k (from_items d items) ≡ lookup k d
unfolding from_items
from_items_other d [] k h = refl
from_items_other d ((j, v) ∷ items) k h =
    from_items_other (insert j v d) items k (ground arith) ∙ ground (arith, lookup-insert k j v d)

pub lookup-from_items :
    (d items : Dict Scope ℕ) (k : Scope) (v : ℕ)
    → Distinct (keys items)
    → Memᴰ (k, v) items
    → lookup k (from_items d items) ≡ some v
unfolding from_items
lookup-from_items d ((j, w) ∷ items) k v u (Memᴰ.head e) =
    let same : j ≡ k = cc in
    let held : w ≡ v = cc in
    from_items_other (insert j w d) items k (rw (← same) u.0)
    ∙ ground (arith, lookup-insert k j w d)
lookup-from_items d ((j, w) ∷ items) k v u (Memᴰ.tail m) =
    lookup-from_items (insert j w d) items k v u.1 m
lookup-from_items d [] k v u m = elim m [ ]

pub keys-entries :
    (tie : TieMethod) (position dense_rank : ℕ) (previous : Option Placed)
    (values : List (ℤ × MetricRanking))
    → keys (expected_ranks tie position dense_rank previous values)
      ≡ map (λ (p : ℤ × MetricRanking). scope_of p.1) values
unfolding expected_ranks
keys-entries tie position dense_rank previous [] = refl
keys-entries tie position dense_rank previous ((value, r) ∷ rest) =
    let (dense_rank', e) = rank_at tie position dense_rank previous value in
    ap (λ ks. scope_of r ∷ ks) (keys-entries tie (suc position) dense_rank' (some (value, e)) rest)

differ-All :
    (v : ℤ) (xs : List (ℤ × MetricRanking))
    → contains (map (λ (p : ℤ × MetricRanking). p.0) xs) v ≡ false
    → All (λ p. v ≢ p.0) xs
differ-All v [] h = tt
differ-All v (x ∷ xs) h = (λ e. ground arith, differ-All v xs (ground arith))

module _ (tie : TieMethod) (d : MetricDirection) where
  abbrev pub less : ℤ × MetricRanking → ℤ × MetricRanking → Bool
  less p q = better d p.0 q.0

  MayFollow-tied :
      (x : ℤ × MetricRanking) (xs : List (ℤ × MetricRanking))
      → tie ≢ ordinal
      → All (NotLess less x) xs
      → All (λ q. MayFollow tie d x.0 q.0) xs
  MayFollow-tied x xs o h =
      All-map (λ q n. elim (better_total d x.0 q.0 n) [ inl b ↦ inl b | inr e ↦ inr (e, o) ]) xs h

  pub tied-Pairwise :
      (xs : List (ℤ × MetricRanking))
      → tie ≢ ordinal
      → Pairwise (NotLess less) xs
      → Pairwise (λ p q. MayFollow tie d p.0 q.0) xs
  tied-Pairwise [] o h = tt
  tied-Pairwise (x ∷ xs) o h = (MayFollow-tied x xs o h.0, tied-Pairwise xs o h.1)

  strict :
      (x : ℤ × MetricRanking) (xs : List (ℤ × MetricRanking))
      → All (λ p. x.0 ≢ p.0) xs
      → All (NotLess less x) xs
      → All (λ q. MayFollow tie d x.0 q.0) xs
  strict x [] u h = tt
  strict x (q ∷ xs) u h = (
    elim (better_total d x.0 q.0 h.0) [ inl b ↦ inl b | inr e ↦ absurd (u.0 e) ],
    strict x xs u.1 h.1,
  )

  pub strict-Pairwise :
      (xs : List (ℤ × MetricRanking))
      → Distinct (map (λ (p : ℤ × MetricRanking). p.0) xs)
      → Pairwise (NotLess less) xs
      → Pairwise (λ p q. MayFollow tie d p.0 q.0) xs
  strict-Pairwise [] u h = tt
  strict-Pairwise (x ∷ xs) u h =
      (strict x xs (differ-All x.0 xs u.0) h.0, strict-Pairwise xs u.1 h.1)

  -- The claim about two entries of the loop.
  abbrev pub Ranked : Placed → Placed → Type 0
  Ranked x y = (better d x.0 y.0 ≡ true → x.1 < y.1) × (x.0 ≡ y.0 → x.1 ≡ y.1)

  self_better : (v : ℤ) → better d v v ≡ true → ⊥
  self_better v h = cc (better_asym d v v h)

  InOrder-Ranked : (x y : Placed) → InOrder tie d x y → Ranked x y
  InOrder-Ranked x y (inl h) = (λ b. absurd (self_better y.0 (rw h.0 at b)), λ e. h.1)
  InOrder-Ranked x y (inr h) = (λ b. h.1, λ e. absurd (self_better y.0 (rw e at (h.0))))

  InOrder-Ranked_back : (x y : Placed) → InOrder tie d y x → Ranked x y
  InOrder-Ranked_back x y (inl h) = (λ b. absurd (self_better x.0 (rw h.0 at b)), λ e. sym h.1)
  InOrder-Ranked_back x y (inr h) =
      (λ b. absurd (cc (better_asym d y.0 x.0 h.0)), λ e. absurd (self_better y.0 (rw e at (h.0))))

  pub entries-Ranked :
      (xs : List Entry) {x y : Entry}
      → Pairwise (λ s t. InOrder tie d (placed s) (placed t)) xs
      → Memᴰ x xs
      → Memᴰ y xs
      → Ranked (placed x) (placed y)
  entries-Ranked xs {x} {y} p m n =
      elim (Pairwise-cases (λ s t. InOrder tie d (placed s) (placed t)) xs p m n) [
        | inl (inl h) ↦ InOrder-Ranked (placed x) (placed y) h
        | inl (inr h) ↦ InOrder-Ranked_back (placed x) (placed y) h
        | inr e ↦
            InOrder-Ranked (placed x) (placed y)
              (inl (ap (λ (t : Entry). t.0) e, ap (λ (t : Entry). t.2) e))
      ]
