-- ===== src/Prelude/Lists.antt =====
-- Lists and Python's sets: a set is a list read up to order and repetition.
use Prim.Native.Nat.{ℕ, suc, ◌+◌, ◌≤◌}
use mathlib.Core.Path.{◌≡◌, refl, ap}
use mathlib.Core.Logic.{◌↔◌}
use mathlib.Core.Bool.{Bool, true, false, not, ◌&&◌, ◌||◌}
use mathlib.Core.List.{List, [], ◌∷◌, ◌++◌}
use native.Mathlib.Omega.{arith}
use qveris_capability_benchm.Prelude.Tests.{if◌then◌else◌}
use qveris_capability_benchm.Prelude.Equality.{Eq, ◌==◌, contains, ==_iff, nat_eq}

module _ {ℓ} {A : Type ℓ} where
  abbrev pub length : List A → ℕ
  length [] = 0
  length (x ∷ xs) = suc (length xs)

  pub length-append : (xs ys : List A) → length (xs ++ ys) ≡ length xs + length ys
  length-append [] ys = omega arith
  length-append (x ∷ xs) ys = omega (arith, length-append xs ys)

  -- Python's `any` and `all` over a generator, and a comprehension's `if`.
  abbrev pub any : (A → Bool) → List A → Bool
  any p [] = false
  any p (x ∷ xs) = p x || any p xs

  abbrev pub all : (A → Bool) → List A → Bool
  all p [] = true
  all p (x ∷ xs) = p x && all p xs

  abbrev pub select : (A → Bool) → List A → List A
  select p [] = []
  select p (x ∷ xs) = let rest = select p xs in if p x then x ∷ rest else rest

  abbrev pub All {κ} : (A → Type κ) → List A → Type κ
  All P [] = Unit
  All P (x ∷ xs) = P x × All P xs

  pub all-All : (p : A → Bool) (xs : List A) → all p xs ≡ true → All (λ x. p x ≡ true) xs
  all-All p [] h = tt
  all-All p (x ∷ xs) h = ground (arith, all-All p xs)

  pub All-all : (p : A → Bool) (xs : List A) → All (λ x. p x ≡ true) xs → all p xs ≡ true
  All-all p [] h = refl
  All-all p (x ∷ xs) h = ground (arith, All-all p xs h.1)

  pub any-false-All : (p : A → Bool) (xs : List A) → any p xs ≡ false → All (λ x. p x ≡ false) xs
  any-false-All p [] h = tt
  any-false-All p (x ∷ xs) h = ground (arith, any-false-All p xs)

  pub All-any-false : (p : A → Bool) (xs : List A) → All (λ x. p x ≡ false) xs → any p xs ≡ false
  All-any-false p [] h = refl
  All-any-false p (x ∷ xs) h = ground (arith, All-any-false p xs h.1)

  -- A comprehension that keeps what fails a test is empty exactly when every item passes.
  pub select-nil : (p : A → Bool) (xs : List A) → select p xs ≡ [] → All (λ x. p x ≡ false) xs
  select-nil p [] h = tt
  select-nil p (x ∷ xs) h = ground (arith, select-nil p xs)

  pub select-eq-nil : (p : A → Bool) (xs : List A) → All (λ x. p x ≡ false) xs → select p xs ≡ []
  select-eq-nil p [] h = refl
  select-eq-nil p (x ∷ xs) h = ground (arith, select-eq-nil p xs h.1)

  pub All-map {κ μ} :
      {P : A → Type κ} {Q : A → Type μ} (f : (x : A) → P x → Q x) (xs : List A)
      → All P xs
      → All Q xs
  All-map f [] h = tt
  All-map f (x ∷ xs) h = (f x h.0, All-map f xs h.1)

  pub All-every {κ} : {P : A → Type κ} (xs : List A) → ((x : A) → P x) → All P xs
  All-every [] f = tt
  All-every (x ∷ xs) f = (f x, All-every xs f)

  pub All-append {κ} : (P : A → Type κ) (xs ys : List A) → All P xs → All P ys → All P (xs ++ ys)
  All-append P [] ys hx hy = hy
  All-append P (x ∷ xs) ys hx hy = (hx.0, All-append P xs ys hx.1 hy)

module _ {ℓ} {A : Type ℓ} ⦃e : Eq A⦄ where
  -- `set(xs)`
  unfoldable pub to_set : List A → List A
  to_set [] = []
  to_set (x ∷ xs) = let rest = to_set xs in if contains xs x then rest else x ∷ rest

  -- `set(xs) <= set(ys)` and `set(xs) == set(ys)`
  abbrev pub subset : List A → List A → Bool
  subset xs ys = all (contains ys) xs

  abbrev pub same_set : List A → List A → Bool
  same_set xs ys = subset xs ys && subset ys xs

  -- `set(xs) - set(ys)`, with the repetitions of `xs`
  abbrev pub difference : List A → List A → List A
  difference xs ys = select (λ x. not (contains ys x)) xs

  -- `len(xs) == len(set(xs))`
  unfoldable pub is_distinct : List A → Bool
  unfolding to_set
  is_distinct xs = length (to_set xs) == length xs

  abbrev pub Distinct : List A → Type 0
  Distinct [] = Unit
  Distinct (x ∷ xs) = (contains xs x ≡ false) × Distinct xs

  length-to_set : (xs : List A) → length (to_set xs) ≤ length xs
  unfolding to_set
  length-to_set [] = omega arith
  length-to_set (x ∷ xs) = ground (arith, length-to_set xs)

  full-Distinct : (xs : List A) → length (to_set xs) ≡ length xs → Distinct xs
  unfolding to_set
  full-Distinct [] h = tt
  full-Distinct (x ∷ xs) h = ground (arith, length-to_set xs, full-Distinct xs)

  Distinct-full : (xs : List A) → Distinct xs → length (to_set xs) ≡ length xs
  unfolding to_set
  Distinct-full [] h = refl
  Distinct-full (x ∷ xs) h = ground (arith, Distinct-full xs h.1)

  -- The test on the size of the set decides whether the items differ from one another.
  pub is_distinct_iff : (xs : List A) → (is_distinct xs ≡ true) ↔ Distinct xs
  unfolding is_distinct
  is_distinct_iff xs = (
    λ h. full-Distinct xs ((==_iff (length (to_set xs)) (length xs)).0 h),
    λ h. (==_iff (length (to_set xs)) (length xs)).1 (Distinct-full xs h),
  )

  pub contains-append :
      (xs ys : List A) (a : A) → contains (xs ++ ys) a ≡ (contains xs a || contains ys a)
  contains-append [] ys a = refl
  contains-append (x ∷ xs) ys a = ground (arith, contains-append xs ys a)

  pub All-contains {κ} :
      (P : A → Type κ) (xs : List A) (a : A) → All P xs → contains xs a ≡ true → P a
  All-contains P [] a h c = absurd (cc)
  All-contains P (x ∷ xs) a h c = elim (e.dec a x) [
    | yes p ↦ rw p h.0
    | no n ↦ All-contains P xs a h.1 (ground arith)
  ]

  pub subset_trans :
      (xs ys : List A) (a : A) → subset xs ys ≡ true → contains xs a ≡ true → contains ys a ≡ true
  subset_trans xs ys a s c =
      All-contains (λ x. contains ys x ≡ true) xs a (all-All (contains ys) xs s) c

  -- `xs.count(a)`
  unfoldable pub count : A → List A → ℕ
  count a [] = 0
  count a (x ∷ xs) = let rest = count a xs in if a == x then suc rest else rest

  count-contains : (a : A) (xs : List A) → count a xs ≡ 0 → contains xs a ≡ false
  unfolding count
  count-contains a [] h = refl
  count-contains a (x ∷ xs) h = ground (arith, count-contains a xs)

  contains-count : (a : A) (xs : List A) → contains xs a ≡ false → count a xs ≡ 0
  unfolding count
  contains-count a [] h = refl
  contains-count a (x ∷ xs) h = ground (arith, contains-count a xs)

  -- No item occurs twice exactly when the items differ from one another.
  pub once-Distinct : (xs : List A) → All (λ a. count a xs ≤ 1) xs → Distinct xs
  unfolding count
  once-Distinct [] h = tt
  once-Distinct (x ∷ xs) h = (
    count-contains x xs (ground (arith, h.0)),
    once-Distinct xs (All-map (λ a k. ground arith) xs h.1),
  )

  Distinct-count : (a : A) (xs : List A) → Distinct xs → count a xs ≤ 1
  unfolding count
  Distinct-count a [] h = omega arith
  Distinct-count a (x ∷ xs) h = ground (arith, contains-count a xs, Distinct-count a xs h.1)

  pub Distinct-once : (xs : List A) → Distinct xs → All (λ a. count a xs ≤ 1) xs
  Distinct-once xs h = All-every xs (λ a. Distinct-count a xs h)

  pub contains-select :
      (p : A → Bool) (xs : List A) (a : A) → contains (select p xs) a ≡ (contains xs a && p a)
  contains-select p [] a = refl
  contains-select p (x ∷ xs) a = elim (e.dec a x) [
    | yes q ↦ (let same = ap p q in ground (arith, contains-select p xs a))
    | no n ↦ ground (arith, contains-select p xs a)
  ]

  pub contains-to_set : (xs : List A) (a : A) → contains (to_set xs) a ≡ contains xs a
  unfolding to_set
  contains-to_set [] a = refl
  contains-to_set (x ∷ xs) a = elim (e.dec a x) [
    | yes q ↦ (let same = ap (contains xs) q in ground (arith, contains-to_set xs a))
    | no n ↦ ground (arith, contains-to_set xs a)
  ]

  All-self : (xs : List A) → All (λ x. contains xs x ≡ true) xs
  All-self [] = tt
  All-self (x ∷ xs) = ((==_or x xs), All-map (λ y h. ground arith) xs (All-self xs))
    where
      ==_or : (x : A) (xs : List A) → contains (x ∷ xs) x ≡ true
      ==_or x xs = let r = (==_iff x x).1 refl in ground arith

  -- Two lists are the same set exactly when they hold the same items.
  pub same_set_iff :
      (xs ys : List A) → (same_set xs ys ≡ true) ↔ ((a : A) → contains xs a ≡ contains ys a)
  same_set_iff xs ys = (
    λ h a.
        let l : subset xs ys ≡ true = ground arith in
        let r : subset ys xs ≡ true = ground arith in
        both (contains xs a) (contains ys a) (subset_trans xs ys a l) (subset_trans ys xs a r),
    λ h.
        let l = All-all (contains ys) xs (All-map (λ a e. ground (arith, h a)) xs (All-self xs)) in
        let r = All-all (contains xs) ys (All-map (λ a e. ground (arith, h a)) ys (All-self ys)) in
        ground arith,
  )
    where
      both : (p q : Bool) → (p ≡ true → q ≡ true) → (q ≡ true → p ≡ true) → p ≡ q
      both p q f g = ground arith

  -- Nothing is left of a difference exactly when the items are all in the second list.
  pub difference-nil :
      (xs ys : List A)
      → difference xs ys ≡ []
      → (a : A) → contains xs a ≡ true
      → contains ys a ≡ true
  difference-nil xs ys h a c =
      let kept : contains (difference xs ys) a ≡ false = rw h in
      ground (arith, contains-select (λ x. not (contains ys x)) xs a)

  pub difference-eq-nil :
      (xs ys : List A)
      → ((a : A) → contains xs a ≡ true → contains ys a ≡ true)
      → difference xs ys ≡ []
  difference-eq-nil xs ys h =
      select-eq-nil (λ x. not (contains ys x)) xs
        (All-map (λ a e. ground (arith, h a)) xs (All-self xs))
