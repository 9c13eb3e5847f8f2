-- ===== src/Suites/Matrix/Cells.antt =====
-- The cells of an expanded plan: how many, that their run keys differ, and what each one says.
use qveris_capability_benchm.Prelude.{
  ℕ, zero, suc, ◌+◌, ◌*◌, ◌≤◌, ◌<◌, String, ◌≡◌, refl, sym, ◌∙◌, ap, subst, true, List, [], ◌∷◌,
  ◌++◌, map, arith, select, select-nil, to_set, count, ltb, string_eq, length, length-append, All,
  All-map, All-append, Distinct, once-Distinct, Distinct-once, select-eq-nil,
}
use mathlib.Core.List.{flat_map, Memᴰ}
use native.Mathlib.Decide.{ℕ_discrete}
use qveris_capability_benchm.Prelude.Sort.{sort_by, str_lt, length-sort_by}
use qveris_capability_benchm.Models.Enums.{RunMode}
use qveris_capability_benchm.Models.Provider.{AccessPath}
use qveris_capability_benchm.Models.Release.{is_empty}
use qveris_capability_benchm.Models.Run.{RunCell}
use qveris_capability_benchm.Models.Suite.{BenchmarkCase, BenchmarkSuite}
use qveris_capability_benchm.Suites.Matrix.{plan_cell, range_from, expand_cells, duplicates}

length-map {ℓ κ} :
    {A : Type ℓ} {B : Type κ} (f : A → B) (xs : List A) → length (map f xs) ≡ length xs
length-map f [] = refl
length-map f (x ∷ xs) = ap suc (length-map f xs)

length-flat_map {ℓ κ} :
    {A : Type ℓ} {B : Type κ} (f : A → List B) (n : ℕ) (xs : List A)
    → ((x : A) → length (f x) ≡ n)
    → length (flat_map f xs) ≡ length xs * n
unfolding flat_map
length-flat_map f n [] h = ground arith
length-flat_map f n (x ∷ xs) h =
    grind (arith, length-append (f x) (flat_map f xs), h x, length-flat_map f n xs h)

All-flat_map {ℓ κ μ} :
    {A : Type ℓ} {B : Type κ} (P : B → Type μ) (f : A → List B) (xs : List A)
    → ((x : A) → All P (f x))
    → All P (flat_map f xs)
unfolding flat_map
All-flat_map P f [] h = tt
All-flat_map P f (x ∷ xs) h = All-append P (f x) (flat_map f xs) (h x) (All-flat_map P f xs h)

pub length-range_from : (start n : ℕ) → length (range_from start n) ≡ n
length-range_from start zero = refl
length-range_from start (suc n) = ap suc (length-range_from (suc start) n)

All-map_of {ℓ κ μ} :
    {A : Type ℓ} {B : Type κ} (P : B → Type μ) (f : A → B) (xs : List A)
    → ((x : A) → P (f x))
    → All P (map f xs)
All-map_of P f [] h = tt
All-map_of P f (x ∷ xs) h = (h x, All-map_of P f xs h)

nil-of_length {ℓ} : {A : Type ℓ} (xs : List A) → length xs ≡ 0 → xs ≡ []
nil-of_length [] h = refl
nil-of_length (x ∷ xs) h = absurd (omega arith)

is_empty-length {ℓ} : {A : Type ℓ} (xs : List A) → is_empty xs ≡ true → length xs ≡ 0
is_empty-length [] h = refl
is_empty-length (x ∷ xs) h = absurd (cc)

to_set-nil : (xs : List String) → length (to_set xs) ≡ 0 → xs ≡ []
unfolding to_set
to_set-nil [] h = refl
to_set-nil (x ∷ xs) h = ground (arith, to_set-nil xs)

-- There is no duplicate exactly when the keys differ from one another.
pub duplicates_none : (keys : List String) → is_empty (duplicates keys) ≡ true → Distinct keys
unfolding duplicates
duplicates_none keys h =
    let repeated = select (λ key. ltb 1 (count key keys)) keys in
    let none_sorted = is_empty-length (sort_by str_lt (to_set repeated)) h in
    let none_repeated =
      to_set-nil repeated (sym (length-sort_by str_lt (to_set repeated)) ∙ none_sorted) in
    once-Distinct keys (
      All-map (λ a e. ground arith) keys
        (select-nil (λ key. ltb 1 (count key keys)) keys none_repeated))

pub Distinct-duplicates : (keys : List String) → Distinct keys → is_empty (duplicates keys) ≡ true
unfolding duplicates sort_by to_set
Distinct-duplicates keys d = rw (
    select-eq-nil (λ key. ltb 1 (count key keys)) keys
      (All-map (λ a e. ground arith) keys (Distinct-once keys d)))

Memᴰ-left {ℓ} : {A : Type ℓ} {x : A} {xs : List A} (ys : List A) → Memᴰ x xs → Memᴰ x (xs ++ ys)
Memᴰ-left ys (Memᴰ.head e) = Memᴰ.head e
Memᴰ-left ys (Memᴰ.tail m) = Memᴰ.tail (Memᴰ-left ys m)

Memᴰ-right {ℓ} : {A : Type ℓ} {y : A} (xs : List A) {ys : List A} → Memᴰ y ys → Memᴰ y (xs ++ ys)
Memᴰ-right [] m = m
Memᴰ-right (x ∷ xs) m = Memᴰ.tail (Memᴰ-right xs m)

Memᴰ-map {ℓ κ} :
    {A : Type ℓ} {B : Type κ} (f : A → B) {x : A} {xs : List A} → Memᴰ x xs → Memᴰ (f x) (map f xs)
Memᴰ-map f (Memᴰ.head e) = Memᴰ.head (ap f e)
Memᴰ-map f (Memᴰ.tail m) = Memᴰ.tail (Memᴰ-map f m)

Memᴰ-flat_map {ℓ κ} :
    {A : Type ℓ} {B : Type κ} (f : A → List B) {x : A} {y : B} {xs : List A}
    → Memᴰ x xs
    → Memᴰ y (f x)
    → Memᴰ y (flat_map f xs)
unfolding flat_map
Memᴰ-flat_map f {y = y} (Memᴰ.head e) m = Memᴰ-left _ (subst (λ z. Memᴰ y (f z)) e m)
Memᴰ-flat_map f (Memᴰ.tail n) m = Memᴰ-right _ (Memᴰ-flat_map f n m)

Memᴰ-range_from : (start n k : ℕ) → start ≤ k → k < start + n → Memᴰ k (range_from start n)
Memᴰ-range_from start zero k h l = absurd (omega arith)
Memᴰ-range_from start (suc n) k h l = elim (ℕ_discrete k start) [
  | yes e ↦ Memᴰ.head e
  | no e ↦ Memᴰ.tail (Memᴰ-range_from (suc start) n k (omega arith) (omega arith))
]

module _ (suite : BenchmarkSuite) (cases : List BenchmarkCase) (access_paths : List AccessPath)
    (fingerprint : String) where
  pub length-expand_cells :
      length (expand_cells suite cases access_paths fingerprint)
      ≡ length cases * (length access_paths * (length suite.modes * suite.rounds))
  unfolding expand_cells
  length-expand_cells = length-flat_map _ _ cases λ case. length-flat_map _ _ access_paths λ path.
      length-flat_map _ _ suite.modes
        λ mode. length-map _ (range_from 1 suite.rounds) ∙ length-range_from 1 suite.rounds

  pub Memᴰ-expand_cells :
      {case : BenchmarkCase} {path : AccessPath} {mode : RunMode} (k : ℕ)
      → Memᴰ case cases
      → Memᴰ path access_paths
      → Memᴰ mode suite.modes
      → 1 ≤ k
      → k ≤ suite.rounds
      → Memᴰ
          (plan_cell suite fingerprint case path mode k)
          (expand_cells suite cases access_paths fingerprint)
  unfolding expand_cells
  Memᴰ-expand_cells k c p m h l = Memᴰ-flat_map _ c (
      Memᴰ-flat_map _ p
        (Memᴰ-flat_map _ m (Memᴰ-map _ (Memᴰ-range_from 1 suite.rounds k h (omega arith)))))

  pub expand_cells-All {κ} :
      (P : RunCell → Type κ)
      → ((case : BenchmarkCase) (path : AccessPath) (mode : RunMode) (k : ℕ)
          → P (plan_cell suite fingerprint case path mode k))
      → All P (expand_cells suite cases access_paths fingerprint)
  unfolding expand_cells
  expand_cells-All P h = All-flat_map P _ cases λ case. All-flat_map P _ access_paths λ path.
      All-flat_map P _ suite.modes
        λ mode. All-map_of P _ (range_from 1 suite.rounds) λ k. h case path mode k
