-- ===== src/Prelude/Sort.antt =====
-- Python's stable `sorted`, with the order of its keys as a strict test, and the order of texts.
use Prim.Native.Nat.{suc}
use Prim.Native.String.{String, compare}
use mathlib.Core.Path.{◌≡◌, refl, ◌∙◌}
use mathlib.Core.Logic.{inl, inr}
use mathlib.Core.Bool.{Bool, false, ◌||◌}
use mathlib.Core.Option.{some}
use mathlib.Core.List.{List, [], ◌∷◌}
use native.Mathlib.Omega.{arith}
use text.Mathlib.Text.{is_lt}
use text.Mathlib.TextPositions.{compare_refl}
use qveris_capability_benchm.Prelude.Tests.{if◌then◌else◌, Bool-cases}
use qveris_capability_benchm.Prelude.Equality.{Eq, ◌==◌, contains, string_eq}
use qveris_capability_benchm.Prelude.Lists.{length, All}
use qveris_capability_benchm.Prelude.Dict.{Dict, lookup}

-- Texts are ordered by their code points.
unfoldable pub str_lt : String → String → Bool
str_lt a b = is_lt (compare a b)

pub str_lt_irrefl : (a : String) → str_lt a a ≡ false
unfolding str_lt
str_lt_irrefl a = rw compare_refl

module _ {ℓ} {A : Type ℓ} (less : A → A → Bool) where
  -- `x` goes before the items that are not less than it.
  unfoldable pub insert_by : A → List A → List A
  insert_by x [] = x ∷ []
  insert_by x (y ∷ ys) = let rest = insert_by x ys in if less y x then y ∷ rest else x ∷ y ∷ ys

  unfoldable pub sort_by : List A → List A
  unfolding insert_by
  sort_by [] = []
  sort_by (x ∷ xs) = insert_by x (sort_by xs)

  length-insert_by : (x : A) (xs : List A) → length (insert_by x xs) ≡ suc (length xs)
  unfolding insert_by
  length-insert_by x [] = refl
  length-insert_by x (y ∷ ys) = ground (arith, length-insert_by x ys)

  pub length-sort_by : (xs : List A) → length (sort_by xs) ≡ length xs
  unfolding sort_by
  length-sort_by [] = refl
  length-sort_by (x ∷ xs) = omega (arith, length-insert_by x (sort_by xs), length-sort_by xs)

  pub insert_by-All {κ} :
      (P : A → Type κ) (x : A) (xs : List A) → P x → All P xs → All P (insert_by x xs)
  unfolding insert_by
  insert_by-All P x [] p h = (p, tt)
  insert_by-All P x (y ∷ ys) p h = elim (Bool-cases (less y x)) [
    | inl e ↦ rw e (h.0, insert_by-All P x ys p h.1)
    | inr e ↦ rw e (p, h)
  ]

  pub sort_by-All {κ} : (P : A → Type κ) (xs : List A) → All P xs → All P (sort_by xs)
  unfolding sort_by
  sort_by-All P [] h = tt
  sort_by-All P (x ∷ xs) h = insert_by-All P x (sort_by xs) h.0 (sort_by-All P xs h.1)

module _ {ℓ} {A : Type ℓ} ⦃e : Eq A⦄ (less : A → A → Bool) where
  contains-insert_by :
      (x : A) (xs : List A) (a : A) → contains (insert_by less x xs) a ≡ (a == x || contains xs a)
  unfolding insert_by
  contains-insert_by x [] a = refl
  contains-insert_by x (y ∷ ys) a = ground (arith, contains-insert_by x ys a)

  -- Sorting changes no set.
  pub contains-sort_by : (xs : List A) (a : A) → contains (sort_by less xs) a ≡ contains xs a
  unfolding sort_by
  contains-sort_by [] a = refl
  contains-sort_by (x ∷ xs) a =
      ground (arith, contains-insert_by x (sort_by less xs) a, contains-sort_by xs a)

module _ {ℓ} {V : Type ℓ} where
  -- `json.dumps(…, sort_keys=True)` on the entries of a dict
  unfoldable pub sort_keys : Dict String V → Dict String V
  unfolding sort_by
  sort_keys = sort_by (λ p q. str_lt p.0 q.0)

  lookup-insert_by :
      (j k : String) (v : V) (d : Dict String V)
      → lookup j (insert_by (λ p q. str_lt p.0 q.0) (k, v) d)
        ≡ (if j == k then some v else lookup j d)
  unfolding insert_by lookup
  lookup-insert_by j k v [] = refl
  lookup-insert_by j k v (p ∷ d) = ground (arith, lookup-insert_by j k v d, str_lt_irrefl k)

  -- Sorting a dict by its keys changes no lookup.
  pub lookup-sort_keys : (j : String) (d : Dict String V) → lookup j (sort_keys d) ≡ lookup j d
  unfolding sort_keys lookup
  lookup-sort_keys j [] = refl
  lookup-sort_keys j ((k, v) ∷ d) =
      lookup-insert_by j k v (sort_keys d) ∙ ground (arith, lookup-sort_keys j d)
