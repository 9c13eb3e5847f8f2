-- ===== src/Prelude/Sorted.antt =====
-- What sorting gives: the order of any two items, the same items, and keys that still differ.
use mathlib.Core.Path.{◌≡◌, refl}
use mathlib.Core.Logic.{◌⊎◌, inl, inr}
use mathlib.Core.Bool.{Bool, true, false, ◌||◌}
use mathlib.Core.List.{List, [], ◌∷◌, map, Memᴰ}
use native.Mathlib.Omega.{arith}
use qveris_capability_benchm.Prelude.Tests.{Bool-cases}
use qveris_capability_benchm.Prelude.Equality.{Eq, ◌==◌, contains}
use qveris_capability_benchm.Prelude.Lists.{All, All-map, Distinct}
use qveris_capability_benchm.Prelude.Sort.{insert_by, sort_by, insert_by-All}

pub All-Memᴰ {ℓ κ} :
    {A : Type ℓ} (P : A → Type κ) (xs : List A) {x : A} → All P xs → Memᴰ x xs → P x
All-Memᴰ P [] h m = elim m [ ]
All-Memᴰ P (y ∷ ys) h (Memᴰ.head e) = rw e h.0
All-Memᴰ P (y ∷ ys) h (Memᴰ.tail m) = All-Memᴰ P ys h.1 m

module _ {ℓ κ} {A : Type ℓ} (R : A → A → Type κ) where
  -- Every item is related to all that follow it.
  abbrev pub Pairwise : List A → Type κ
  Pairwise [] = Unit
  Pairwise (x ∷ xs) = All (R x) xs × Pairwise xs

  -- Two items of the list are related one way or the other, or are one item.
  pub Pairwise-cases :
      (xs : List A) {x y : A} → Pairwise xs → Memᴰ x xs → Memᴰ y xs → (R x y ⊎ R y x) ⊎ (x ≡ y)
  Pairwise-cases [] h m n = elim m [ ]
  Pairwise-cases (z ∷ zs) h (Memᴰ.head e) (Memᴰ.head f) = inr (cc)
  Pairwise-cases (z ∷ zs) h (Memᴰ.head e) (Memᴰ.tail n) = inl (inl (rw e (All-Memᴰ (R z) zs h.0 n)))
  Pairwise-cases (z ∷ zs) h (Memᴰ.tail m) (Memᴰ.head f) = inl (inr (rw f (All-Memᴰ (R z) zs h.0 m)))
  Pairwise-cases (z ∷ zs) h (Memᴰ.tail m) (Memᴰ.tail n) = Pairwise-cases zs h.1 m n

module _ {ℓ} {A : Type ℓ} (less : A → A → Bool) where
  -- `y` does not belong before `x`.
  abbrev pub NotLess : A → A → Type 0
  NotLess x y = less y x ≡ false

  module _ (asym : (x y : A) → less x y ≡ true → less y x ≡ false)
      (skip : (x y z : A) → less y x ≡ false → less z y ≡ false → less z x ≡ false) where
    insert_by-Pairwise :
        (x : A) (xs : List A) → Pairwise NotLess xs → Pairwise NotLess (insert_by less x xs)
    unfolding insert_by
    insert_by-Pairwise x [] h = (tt, tt)
    insert_by-Pairwise x (y ∷ ys) h = elim (Bool-cases (less y x)) [
      | inl e ↦
          rw e (insert_by-All less (NotLess y) x ys (asym y x e) h.0, insert_by-Pairwise x ys h.1)
      | inr e ↦ rw e ((e, All-map (λ z n. skip x y z e n) ys h.0), h)
    ]

    -- A sorted list has no item before one that belongs before it.
    pub sort_by-Pairwise : (xs : List A) → Pairwise NotLess (sort_by less xs)
    unfolding sort_by
    sort_by-Pairwise [] = tt
    sort_by-Pairwise (x ∷ xs) = insert_by-Pairwise x (sort_by less xs) (sort_by-Pairwise xs)

  Memᴰ-insert_self : (x : A) (xs : List A) → Memᴰ x (insert_by less x xs)
  unfolding insert_by
  Memᴰ-insert_self x [] = Memᴰ.head refl
  Memᴰ-insert_self x (y ∷ ys) = elim (Bool-cases (less y x)) [
    | inl e ↦ rw e (Memᴰ.tail (Memᴰ-insert_self x ys))
    | inr e ↦ rw e (Memᴰ.head refl)
  ]

  Memᴰ-insert_by : (x : A) (xs : List A) {a : A} → Memᴰ a xs → Memᴰ a (insert_by less x xs)
  unfolding insert_by
  Memᴰ-insert_by x [] m = elim m [ ]
  Memᴰ-insert_by x (y ∷ ys) (Memᴰ.head e) = elim (Bool-cases (less y x)) [
    | inl t ↦ rw t (Memᴰ.head e)
    | inr t ↦ rw t (Memᴰ.tail (Memᴰ.head e))
  ]
  Memᴰ-insert_by x (y ∷ ys) (Memᴰ.tail m) = elim (Bool-cases (less y x)) [
    | inl t ↦ rw t (Memᴰ.tail (Memᴰ-insert_by x ys m))
    | inr t ↦ rw t (Memᴰ.tail (Memᴰ.tail m))
  ]

  -- Sorting loses nothing.
  pub Memᴰ-sort_by : (xs : List A) {a : A} → Memᴰ a xs → Memᴰ a (sort_by less xs)
  unfolding sort_by
  Memᴰ-sort_by [] m = elim m [ ]
  Memᴰ-sort_by (x ∷ xs) (Memᴰ.head e) = rw e (Memᴰ-insert_self x (sort_by less xs))
  Memᴰ-sort_by (x ∷ xs) (Memᴰ.tail m) = Memᴰ-insert_by x (sort_by less xs) (Memᴰ-sort_by xs m)

  module _ {κ} {K : Type κ} ⦃e : Eq K⦄ (key : A → K) where
    contains-map-insert_by :
        (x : A) (xs : List A) (k : K)
        → contains (map key (insert_by less x xs)) k ≡ (k == key x || contains (map key xs) k)
    unfolding insert_by
    contains-map-insert_by x [] k = refl
    contains-map-insert_by x (y ∷ ys) k = elim (Bool-cases (less y x)) [
      | inl t ↦ rw t (ground (arith, contains-map-insert_by x ys k))
      | inr t ↦ rw t refl
    ]

    pub contains-map-sort_by :
        (xs : List A) (k : K) → contains (map key (sort_by less xs)) k ≡ contains (map key xs) k
    unfolding sort_by
    contains-map-sort_by [] k = refl
    contains-map-sort_by (x ∷ xs) k =
        ground (arith, contains-map-insert_by x (sort_by less xs) k, contains-map-sort_by xs k)

    insert_by-Distinct :
        (x : A) (xs : List A)
        → contains (map key xs) (key x) ≡ false
        → Distinct (map key xs)
        → Distinct (map key (insert_by less x xs))
    unfolding insert_by
    insert_by-Distinct x [] h d = (refl, tt)
    insert_by-Distinct x (y ∷ ys) h d = elim (Bool-cases (less y x)) [
      | inl t ↦ rw t (
        ground (arith, contains-map-insert_by x ys (key y)),
        insert_by-Distinct x ys (ground arith) d.1,
      )
      | inr t ↦ rw t (h, d)
    ]

    -- Keys that differ from one another still do in the sorted list.
    pub sort_by-Distinct :
        (xs : List A) → Distinct (map key xs) → Distinct (map key (sort_by less xs))
    unfolding sort_by
    sort_by-Distinct [] d = tt
    sort_by-Distinct (x ∷ xs) d =
        insert_by-Distinct x (sort_by less xs)
          (ground (arith, contains-map-sort_by xs (key x), d.0)) (sort_by-Distinct xs d.1)
