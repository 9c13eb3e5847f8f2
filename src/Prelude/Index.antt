-- ===== src/Prelude/Index.antt =====
-- Dicts that are built from a list by a key of its items.
use mathlib.Core.Path.{◌≡◌, refl, ap, sym, ◌∙◌}
use mathlib.Core.Logic.{◌⊎◌, inl, inr}
use mathlib.Core.Bool.{true, false, ◌||◌}
use mathlib.Core.Option.{some}
use mathlib.Core.List.{List, [], ◌∷◌, ◌++◌, map, Memᴰ}
use native.Mathlib.Omega.{arith}
use qveris_capability_benchm.Prelude.Tests.{Bool-cases}
use qveris_capability_benchm.Prelude.Equality.{Eq, ◌==◌, contains, ==_iff}
use qveris_capability_benchm.Prelude.Lists.{All, Distinct, length}
use qveris_capability_benchm.Prelude.Dict.{Dict, lookup, insert, keys, index_on, lookup-insert}

module _ {ℓ κ} {K : Type ℓ} {V : Type κ} ⦃e : Eq K⦄ (key : V → K) where
  abbrev pub indexed : List V → Dict K V
  indexed [] = []
  indexed (x ∷ xs) = (key x, x) ∷ indexed xs

  insert-new :
      (k : K) (v : V) (d : Dict K V)
      → contains (keys d) k ≡ false
      → insert k v d ≡ d ++ ((k, v) ∷ [])
  unfolding insert
  insert-new k v [] h = refl
  insert-new k v (p ∷ d) h =
      let other : (k == p.0) ≡ false = ground arith in
      rw other (ap (λ r. p ∷ r) (insert-new k v d (ground arith)))

  contains-keys-append :
      (d : Dict K V) (k j : K) (v : V)
      → contains (keys (d ++ ((k, v) ∷ []))) j ≡ (contains (keys d) j || j == k)
  contains-keys-append [] k j v = ground arith
  contains-keys-append (p ∷ d) k j v = ground (arith, contains-keys-append d k j v)

  append_one : (d r : Dict K V) (p : K × V) → (d ++ (p ∷ [])) ++ r ≡ d ++ (p ∷ r)
  append_one [] r p = refl
  append_one (q ∷ d) r p = ap (λ s. q ∷ s) (append_one d r p)

  abbrev Fresh : Dict K V → List V → Type 0
  Fresh d xs = All (λ (x : V). contains (keys d) (key x) ≡ false) xs

  index_on-Fresh :
      (d : Dict K V) (xs : List V)
      → Fresh d xs
      → Distinct (map key xs)
      → index_on key d xs ≡ d ++ indexed xs
  index_on-Fresh d [] f u = whole d
    where
      whole : (d : Dict K V) → d ≡ d ++ []
      whole [] = refl
      whole (p ∷ d) = ap (λ r. p ∷ r) (whole d)
  index_on-Fresh d (x ∷ xs) f u =
      let added = d ++ ((key x, x) ∷ []) in
      let fresh = still_Fresh d x xs f.1 u.0 in
      rw (insert-new (key x) x d f.0)
        (index_on-Fresh added xs fresh u.1 ∙ append_one d (indexed xs) (key x, x))
    where
      still_Fresh :
          (d : Dict K V) (x : V) (xs : List V)
          → Fresh d xs
          → contains (map key xs) (key x) ≡ false
          → Fresh (d ++ ((key x, x) ∷ [])) xs
      still_Fresh d x [] f u = tt
      still_Fresh d x (y ∷ ys) f u = (
        ground (arith, contains-keys-append d (key x) (key y) x),
        still_Fresh d x ys f.1 (ground arith),
      )

  -- If the keys differ, the dict holds the items in order.
  pub index_on-indexed : (xs : List V) → Distinct (map key xs) → index_on key [] xs ≡ indexed xs
  index_on-indexed xs u = index_on-Fresh [] xs (none_yet xs) u
    where
      none_yet : (xs : List V) → Fresh [] xs
      none_yet [] = tt
      none_yet (x ∷ xs) = (refl, none_yet xs)

  pub keys-indexed : (xs : List V) → keys (indexed xs) ≡ map key xs
  keys-indexed [] = refl
  keys-indexed (x ∷ xs) = ap (λ ks. key x ∷ ks) (keys-indexed xs)

  pub length-indexed : (xs : List V) → length (indexed xs) ≡ length xs
  length-indexed [] = refl
  length-indexed (x ∷ xs) = omega (arith, length-indexed xs)

  Memᴰ-contains : (xs : List V) (x : V) → Memᴰ x xs → contains (map key xs) (key x) ≡ true
  Memᴰ-contains [] x m = elim m [ ]
  Memᴰ-contains (y ∷ ys) x (Memᴰ.head e) =
      let same = (==_iff (key x) (key y)).1 (ap key e) in ground arith
  Memᴰ-contains (y ∷ ys) x (Memᴰ.tail m) = ground (arith, Memᴰ-contains ys x m)

  -- Each item is found under its key.
  pub lookup-indexed :
      (xs : List V) (x : V)
      → Distinct (map key xs)
      → Memᴰ x xs
      → lookup (key x) (indexed xs) ≡ some x
  unfolding lookup
  lookup-indexed [] x u m = elim m [ ]
  lookup-indexed (y ∷ ys) x u (Memᴰ.head h) =
      let same = (==_iff (key x) (key y)).1 (ap key h) in rw same (ap some (sym h))
  lookup-indexed (y ∷ ys) x u (Memᴰ.tail m) =
      let other : (key x == key y) ≡ false = elim (Bool-cases (key x == key y)) [
        | inl t ↦
            (let same = (==_iff (key x) (key y)).0 t in
              let held = Memᴰ-contains ys x m in absurd (cc))
        | inr t ↦ t
      ] in
      rw other (lookup-indexed ys x u.1 m)

  -- What is found was indexed under that key.
  index_on-found :
      (d : Dict K V) (xs : List V) (k : K) (x : V)
      → lookup k (index_on key d xs) ≡ some x
      → (Memᴰ x xs × (key x ≡ k)) ⊎ (lookup k d ≡ some x)
  index_on-found d [] k x h = inr h
  index_on-found d (y ∷ ys) k x h = elim (index_on-found (insert (key y) y d) ys k x h) [
    | inl (m, j) ↦ inl (Memᴰ.tail m, j)
    | inr g ↦ elim (Bool-cases (k == key y)) [
      | inl t ↦
          (let added = lookup-insert k (key y) y d in
            let same : x ≡ y = ground arith in
            inl (Memᴰ.head same, ap key same ∙ sym ((==_iff k (key y)).0 t)))
      | inr t ↦ inr (ground (arith, lookup-insert k (key y) y d))
    ]
  ]

  pub lookup-index_on :
      (xs : List V) (k : K) (x : V)
      → lookup k (index_on key [] xs) ≡ some x
      → Memᴰ x xs × (key x ≡ k)
  unfolding lookup
  lookup-index_on xs k x h = elim (index_on-found [] xs k x h) [ inl f ↦ f | inr g ↦ absurd (cc) ]
