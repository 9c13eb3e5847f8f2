-- ===== src/Releases/Ranking/Order.antt =====
-- The loop over the sorted values: the expected ranks follow the order of the values.
use qveris_capability_benchm.Prelude.{
  ℕ, suc, ◌≤◌, ◌<◌, ◌≡◌, ◌≢◌, ◌⊎◌, refl, ap, ◌∙◌, sym, true, false, Option, none, some, List, [],
  ◌∷◌, map, arith, ◌==◌, ==_iff, Bool-cases, nat_eq, string_eq, pair_eq, inl, inr, All,
  if◌then◌else◌,
}
use mathlib.Core.List.{Memᴰ}
use qveris_capability_benchm.Prelude.Int.{ℤ, int_eq, eq_of_not-lt}
use qveris_capability_benchm.Prelude.Sorted.{Pairwise}
use qveris_capability_benchm.Models.Metric.{
  MetricRanking, TieMethod, competition, dense, ordinal, tie_method_eq, MetricDirection,
  higher_is_better, lower_is_better, metric_direction_eq,
}
use qveris_capability_benchm.Releases.Ranking.{Scope, scope_of, better, rank_at, expected_ranks}

pub better_asym : (d : MetricDirection) (a b : ℤ) → better d a b ≡ true → better d b a ≡ false
unfolding metric_direction_eq
better_asym higher_is_better a b h = ground arith
better_asym lower_is_better a b h = ground arith

pub better_skip :
    (d : MetricDirection) (a b c : ℤ)
    → better d b a ≡ false
    → better d c b ≡ false
    → better d c a ≡ false
unfolding metric_direction_eq
better_skip higher_is_better a b c h k = ground arith
better_skip lower_is_better a b c h k = ground arith

better_trans :
    (d : MetricDirection) (a b c : ℤ)
    → better d a b ≡ true
    → better d b c ≡ true
    → better d a c ≡ true
unfolding metric_direction_eq
better_trans higher_is_better a b c h k = ground arith
better_trans lower_is_better a b c h k = ground arith

pub better_total :
    (d : MetricDirection) (a b : ℤ) → better d b a ≡ false → (better d a b ≡ true) ⊎ (a ≡ b)
unfolding metric_direction_eq
better_total higher_is_better a b h = ground (arith, eq_of_not-lt a b)
better_total lower_is_better a b h = ground (arith, eq_of_not-lt a b)

-- A value with its expected rank.
abbrev pub Placed : Type 0
Placed = ℤ × ℕ

-- A sorted value with its ranking and the rank that the loop expects.
abbrev pub Entry : Type 0
Entry = ℤ × MetricRanking × ℕ

abbrev pub placed : Entry → Placed
placed (value, r, e) = (value, e)

abbrev pub entry_item : Entry → Scope × ℕ
entry_item (value, r, e) = (scope_of r, e)

-- The loop, with the values and the rankings kept.
pub entries : TieMethod → ℕ → ℕ → Option Placed → List (ℤ × MetricRanking) → List Entry
entries tie position dense_rank previous [] = []
entries tie position dense_rank previous ((value, r) ∷ rest) =
    let (dense_rank', e) = rank_at tie position dense_rank previous value in
    (value, r, e) ∷ entries tie (suc position) dense_rank' (some (value, e)) rest

pub map-entries :
    (tie : TieMethod) (position dense_rank : ℕ) (previous : Option Placed)
    (values : List (ℤ × MetricRanking))
    → map entry_item (entries tie position dense_rank previous values)
      ≡ expected_ranks tie position dense_rank previous values
unfolding entries expected_ranks
map-entries tie position dense_rank previous [] = refl
map-entries tie position dense_rank previous ((value, r) ∷ rest) =
    let (dense_rank', e) = rank_at tie position dense_rank previous value in
    ap (λ items. (scope_of r, e) ∷ items)
      (map-entries tie (suc position) dense_rank' (some (value, e)) rest)

-- Every value of the loop has an entry.
pub Memᴰ-entries :
    (tie : TieMethod) (position dense_rank : ℕ) (previous : Option Placed)
    (values : List (ℤ × MetricRanking)) (p : ℤ × MetricRanking)
    → Memᴰ p values
    → (e : ℕ) × Memᴰ (p.0, p.1, e) (entries tie position dense_rank previous values)
unfolding entries
Memᴰ-entries tie position dense_rank previous ((value, r) ∷ rest) p (Memᴰ.head same) =
    let (dense_rank', e) = rank_at tie position dense_rank previous value in (e, Memᴰ.head (cc))
Memᴰ-entries tie position dense_rank previous ((value, r) ∷ rest) p (Memᴰ.tail m) =
    let (dense_rank', e) = rank_at tie position dense_rank previous value in
    let (f, n) = Memᴰ-entries tie (suc position) dense_rank' (some (value, e)) rest p m in
    (f, Memᴰ.tail n)
Memᴰ-entries tie position dense_rank previous [] p m = elim m [ ]

better_differ : (d : MetricDirection) (a b : ℤ) → better d a b ≡ true → (b == a) ≡ false
unfolding metric_direction_eq int_eq
better_differ higher_is_better a b h = ground arith
better_differ lower_is_better a b h = ground arith

untied_rank :
    (tie : TieMethod) (position dense_rank : ℕ) (u : ℤ) (g : ℕ) (w : ℤ)
    → (w == u) ≡ false
    → rank_at tie position dense_rank (some (u, g)) w
      ≡ (suc dense_rank, if tie == dense then suc dense_rank else position)
unfolding rank_at tie_method_eq
untied_rank competition position dense_rank u g w h = rw h refl
untied_rank dense position dense_rank u g w h = rw h refl
untied_rank ordinal position dense_rank u g w h = rw h refl

tied_rank :
    (tie : TieMethod) (position dense_rank : ℕ) (u : ℤ) (g : ℕ) (w : ℤ)
    → tie ≢ ordinal
    → (w == u) ≡ true
    → rank_at tie position dense_rank (some (u, g)) w
      ≡ (dense_rank, if tie == dense then dense_rank else g)
unfolding rank_at tie_method_eq
tied_rank competition position dense_rank u g w o h = rw h refl
tied_rank dense position dense_rank u g w o h = rw h refl
tied_rank ordinal position dense_rank u g w o h = absurd (o refl)

first_rank : (tie : TieMethod) (w : ℤ) → rank_at tie 1 0 none w ≡ (1, 1)
unfolding rank_at tie_method_eq
first_rank competition w = refl
first_rank dense w = refl
first_rank ordinal w = refl

module _ (tie : TieMethod) (d : MetricDirection) where
  -- The better value has the smaller rank, and equal values have one rank.
  abbrev pub InOrder : Placed → Placed → Type 0
  InOrder x y = ((x.0 ≡ y.0) × (x.1 ≡ y.1)) ⊎ ((better d x.0 y.0 ≡ true) × (x.1 < y.1))

  -- A value may follow another: it is worse, or tied where ties are allowed.
  abbrev pub MayFollow : ℤ → ℤ → Type 0
  MayFollow u w = (better d u w ≡ true) ⊎ ((u ≡ w) × (tie ≢ ordinal))

  InOrder_trans : (x y z : Placed) → InOrder x y → InOrder y z → InOrder x z
  InOrder_trans x y z (inl h) (inl k) = inl (h.0 ∙ k.0, h.1 ∙ k.1)
  InOrder_trans x y z (inl h) (inr k) = inr (rw h.0 k.0, omega (arith, h.1, k.1))
  InOrder_trans x y z (inr h) (inl k) = inr (rw (← k.0) h.0, omega (arith, h.1, k.1))
  InOrder_trans x y z (inr h) (inr k) =
      inr (better_trans d x.0 y.0 z.0 h.0 k.0, omega (arith, h.1, k.1))

  -- What a round leaves behind.
  record Kept (position : ℕ) (u : ℤ) (g : ℕ) (w : ℤ) (next : ℕ × ℕ) : Type 0 where
    ordered : InOrder (u, g) (w, next.1)
    below : next.1 ≤ position
    is_dense : tie ≡ dense → next.1 ≡ next.0

  is_dense-false : (tie == dense) ≡ false → {A : Type 0} → tie ≡ dense → A
  is_dense-false t e = absurd (cc ((==_iff tie dense).1 e))

  worse-Kept :
      (position dense_rank : ℕ) (u : ℤ) (g : ℕ) (w : ℤ)
      → g < position
      → (tie ≡ dense → g ≡ dense_rank)
      → better d u w ≡ true
      → Kept position u g w (suc dense_rank, if tie == dense then suc dense_rank else position)
  worse-Kept position dense_rank u g w l h b = elim (Bool-cases (tie == dense)) [
    | inl t ↦
        (let same = h ((==_iff tie dense).0 t) in
          rw t record { ordered = inr (b, omega arith); below = omega arith; is_dense = λ _. refl })
    | inr t ↦ rw t record { ordered = inr (b, l); below = omega arith; is_dense = is_dense-false t }
  ]

  tied-Kept :
      (position dense_rank : ℕ) (u : ℤ) (g : ℕ) (w : ℤ)
      → g < position
      → (tie ≡ dense → g ≡ dense_rank)
      → u ≡ w
      → Kept position u g w (dense_rank, if tie == dense then dense_rank else g)
  tied-Kept position dense_rank u g w l h e = elim (Bool-cases (tie == dense)) [
    | inl t ↦
        (let same = h ((==_iff tie dense).0 t) in
          rw t record { ordered = inl (e, same); below = omega arith; is_dense = λ _. refl })
    | inr t ↦
        rw t record { ordered = inl (e, refl); below = omega arith; is_dense = is_dense-false t }
  ]

  round-Kept :
      (position dense_rank : ℕ) (u : ℤ) (g : ℕ) (w : ℤ)
      → g < position
      → (tie ≡ dense → g ≡ dense_rank)
      → MayFollow u w
      → Kept position u g w (rank_at tie position dense_rank (some (u, g)) w)
  round-Kept position dense_rank u g w l h (inl b) =
      rw (untied_rank tie position dense_rank u g w (better_differ d u w b))
        (worse-Kept position dense_rank u g w l h b)
  round-Kept position dense_rank u g w l h (inr (e, t)) =
      rw (tied_rank tie position dense_rank u g w t ((==_iff w u).1 (sym e)))
        (tied-Kept position dense_rank u g w l h e)

  -- The loop behind a value: its entries are in order with any value that the last one is in order
  -- with.
  entries-All :
      (x : Placed) (u : ℤ) (g position dense_rank : ℕ) (values : List (ℤ × MetricRanking))
      → g < position
      → (tie ≡ dense → g ≡ dense_rank)
      → InOrder x (u, g)
      → All (λ q. MayFollow u q.0) values
      → Pairwise (λ p q. MayFollow p.0 q.0) values
      → All (λ t. InOrder x (placed t)) (entries tie position dense_rank (some (u, g)) values)
  unfolding entries
  entries-All x u g position dense_rank [] l h o f p = tt
  entries-All x u g position dense_rank ((w, r) ∷ rest) l h o f p =
      let kept = round-Kept position dense_rank u g w l h f.0 in
      let next = rank_at tie position dense_rank (some (u, g)) w in
      let here = InOrder_trans x (u, g) (w, next.1) o kept.ordered in
      (
        here,
        entries-All x w next.1 (suc position) next.0 rest (omega (arith, kept.below)) kept.is_dense
            here p.0 p.1,
      )

  entries-Pairwise :
      (u : ℤ) (g position dense_rank : ℕ) (values : List (ℤ × MetricRanking))
      → g < position
      → (tie ≡ dense → g ≡ dense_rank)
      → All (λ q. MayFollow u q.0) values
      → Pairwise (λ p q. MayFollow p.0 q.0) values
      → Pairwise
          (λ s t. InOrder (placed s) (placed t))
          (entries tie position dense_rank (some (u, g)) values)
  unfolding entries
  entries-Pairwise u g position dense_rank [] l h f p = tt
  entries-Pairwise u g position dense_rank ((w, r) ∷ rest) l h f p =
      let kept = round-Kept position dense_rank u g w l h f.0 in
      let next = rank_at tie position dense_rank (some (u, g)) w in
      let below : next.1 < suc position = omega (arith, kept.below) in
      (
        entries-All (w, next.1) w next.1 (suc position) next.0 rest below kept.is_dense
            (inl (refl, refl)) p.0 p.1,
        entries-Pairwise w next.1 (suc position) next.0 rest below kept.is_dense p.0 p.1,
      )

  -- The whole loop puts the entries in order.
  pub loop-Pairwise :
      (values : List (ℤ × MetricRanking))
      → Pairwise (λ p q. MayFollow p.0 q.0) values
      → Pairwise (λ s t. InOrder (placed s) (placed t)) (entries tie 1 0 none values)
  unfolding entries
  loop-Pairwise [] p = tt
  loop-Pairwise ((w, r) ∷ rest) p = rw (first_rank tie w) (
    entries-All (w, 1) w 1 2 1 rest (omega arith) (λ _. refl) (inl (refl, refl)) p.0 p.1,
    entries-Pairwise w 1 2 1 rest (omega arith) (λ _. refl) p.0 p.1,
  )
