-- ===== src/Suites/Resolution/Sound.antt =====
-- `_resolve_cases` and `_resolve_access_paths`: what they return.
use qveris_capability_benchm.Prelude.{
  String, ◌≡◌, ◌⊎◌, refl, inl, inr, true, false, some, List, [], ◌∷◌, ◌++◌, arith, ◌==◌, ==_iff,
  contains, select-nil, string_eq, All, All-map, Bool-cases, ok, ◌>>=◌, >>-eq-ok, >>=-eq-ok,
}
use mathlib.Core.List.{flat_map, Memᴰ}
use qveris_capability_benchm.Prelude.Dict.{Dict, lookup, insert, lookup-insert}
use qveris_capability_benchm.Models.Provider.{AccessPath}
use qveris_capability_benchm.Models.Release.{is_empty}
use qveris_capability_benchm.Models.Suite.{BenchmarkCase, BenchmarkSuite}
use qveris_capability_benchm.Providers.Registry.{
  ProviderRegistryEntry, all_paths, path_ids, is_denied,
}
use qveris_capability_benchm.Suites.Documents.{ids_of}
use qveris_capability_benchm.Suites.Resolution.{
  mismatched, require_cap, find_path, case_index, find, find_cases, resolve_cases, index_paths,
  path_index, tool_differs, check_path, resolve_listed, resolve_access_paths,
}

-- Every entry of the index satisfies `P`.
Indexed {ℓ κ} : {V : Type ℓ} → (String → V → Type κ) → Dict String V → Type (ℓ ⊔ κ)
Indexed {V = V} P d = (k : String) (v : V) → lookup k d ≡ some v → P k v

module _ {ℓ κ} {V : Type ℓ} (P : String → V → Type κ) where
  Indexed-nil : Indexed P []
  unfolding Indexed lookup
  Indexed-nil k v h = absurd (cc)

  Indexed-insert :
      (k : String) (v : V) (d : Dict String V) → P k v → Indexed P d → Indexed P (insert k v d)
  unfolding Indexed
  Indexed-insert k v d p h j w e = elim (Bool-cases (j == k)) [
    | inl same ↦
        (let at : j ≡ k = (==_iff j k).0 same in
          let held : w ≡ v = ground (arith, lookup-insert j k v d) in rw (at, held) p)
    | inr differ ↦ h j w (ground (arith, lookup-insert j k v d))
  ]

module _ {κ} (Q : BenchmarkCase → Type κ) where
  abbrev CaseAt : String → BenchmarkCase → Type κ
  CaseAt k c = (c.case_id ≡ k) × Q c

  case_index-Indexed :
      (d : Dict String BenchmarkCase) (cs : List BenchmarkCase)
      → All Q cs
      → Indexed CaseAt d
      → Indexed CaseAt (case_index d cs)
  unfolding case_index
  case_index-Indexed d [] q h = h
  case_index-Indexed d (c ∷ cs) q h =
      case_index-Indexed (insert c.case_id c d) cs q.1
        (Indexed-insert CaseAt c.case_id c d (refl, q.0) h)

  find-lookup :
      (index : Dict String BenchmarkCase) (k : String) (c : BenchmarkCase)
      → find index k ≡ ok c
      → lookup k index ≡ some c
  find-lookup index k c h = ground arith

  find_cases-Indexed :
      (index : Dict String BenchmarkCase) (ks : List String) (cs : List BenchmarkCase)
      → Indexed CaseAt index
      → find_cases index ks ≡ ok cs
      → (ids_of cs ≡ ks) × All Q cs
  unfolding find_cases Indexed
  find_cases-Indexed index [] cs h e = let same : cs ≡ [] = cc in rw same (refl, tt)
  find_cases-Indexed index (k ∷ ks) cs h e =
      let (c, first, more) = >>=-eq-ok (find index k) _ e in
      let (rest, found, same) = >>=-eq-ok (find_cases index ks) _ more in
      let (at, q) = h k c (find-lookup index k c first) in
      let (ids, all) = find_cases-Indexed index ks rest h found in
      let whole : cs ≡ c ∷ rest = cc in rw whole (rw (at, ids), (q, all))

is_empty-nil {ℓ} : {A : Type ℓ} (xs : List A) → is_empty xs ≡ true → xs ≡ []
is_empty-nil [] h = refl
is_empty-nil (x ∷ xs) h = absurd (cc)

Memᴰ-every : (xs : List BenchmarkCase) → All (λ x. Memᴰ x xs) xs
Memᴰ-every [] = tt
Memᴰ-every (x ∷ xs) = (Memᴰ.head refl, All-map (λ y m. Memᴰ.tail m) xs (Memᴰ-every xs))

require_cap-All :
    (suite : BenchmarkSuite) (found cases : List BenchmarkCase)
    → require_cap suite found ≡ ok cases
    → All (λ c. c.cap_id ≡ suite.cap_id) found × (cases ≡ found)
require_cap-All suite found cases h =
    let empty : is_empty (mismatched suite found) ≡ true = ground arith in
    (All-map (λ c e. ground arith) found (select-nil _ found (is_empty-nil _ empty)), ground arith)

-- The cases that are resolved are the listed ones in the suite's order, each of the suite's CAP and
-- each an available one.
pub resolve_cases_sound :
    (suite : BenchmarkSuite) (available cases : List BenchmarkCase)
    → resolve_cases suite available ≡ ok cases
    → (ids_of cases ≡ suite.case_ids)
      × All (λ c. Memᴰ c available) cases
      × All (λ c. c.cap_id ≡ suite.cap_id) cases
unfolding resolve_cases
resolve_cases_sound suite available cases h =
    let index = case_index [] available in
    let (first, more) = >>-eq-ok _ (find_cases index suite.case_ids >>= require_cap suite) h in
    let (found, e, last) = >>=-eq-ok (find_cases index suite.case_ids) (require_cap suite) more in
    let (ids, all) =
      find_cases-Indexed (λ c. Memᴰ c available) index suite.case_ids found
        (case_index-Indexed (λ c. Memᴰ c available) [] available (Memᴰ-every available)
          (Indexed-nil (CaseAt (λ c. Memᴰ c available))))
        e in
    let (own, whole) = require_cap-All suite found cases last in rw whole (ids, all, own)

module _ {κ} (Q : AccessPath → Type κ) where
  abbrev PathAt : String → AccessPath → Type κ
  PathAt k p = (p.access_path_id ≡ k) × Q p

  index_paths-Indexed :
      (d : Dict String AccessPath) (ps : List AccessPath)
      → All Q ps
      → Indexed PathAt d
      → Indexed PathAt (index_paths d ps)
  unfolding index_paths
  index_paths-Indexed d [] q h = h
  index_paths-Indexed d (p ∷ ps) q h =
      index_paths-Indexed (insert p.access_path_id p d) ps q.1
        (Indexed-insert PathAt p.access_path_id p d (refl, q.0) h)

  All-left : (xs ys : List AccessPath) → All Q (xs ++ ys) → All Q xs × All Q ys
  All-left [] ys h = (tt, h)
  All-left (x ∷ xs) ys h = let (l, r) = All-left xs ys h.1 in ((h.0, l), r)

  path_index-Indexed :
      (d : Dict String AccessPath) (records : List ProviderRegistryEntry)
      → All Q (all_paths records)
      → Indexed PathAt d
      → Indexed PathAt (path_index d records)
  unfolding path_index all_paths flat_map
  path_index-Indexed d [] q h = h
  path_index-Indexed d (r ∷ records) q h =
      let (own, others) = All-left r.access_paths (all_paths records) q in
      path_index-Indexed (index_paths d r.access_paths) records others
        (index_paths-Indexed d r.access_paths own h)

find_path-lookup :
    (index : Dict String AccessPath) (k : String) (p : AccessPath)
    → find_path index k ≡ ok p
    → lookup k index ≡ some p
find_path-lookup index k p h = ground arith

module _ (suite : BenchmarkSuite) (direct_test_authorized : List String) where
  -- An access path that the suite may use: included, or authorized for direct tests, and with the
  -- canonical tool of the agent protocol where agents may use it.
  abbrev pub Usable : AccessPath → Type 0
  Usable p =
      ((contains direct_test_authorized p.access_path_id ≡ true) ⊎ (is_denied p ≡ false))
      × (tool_differs suite.agent_protocol p ≡ false)

  check_path-Usable :
      (p : AccessPath)
      → check_path suite direct_test_authorized p.access_path_id p ≡ ok tt
      → Usable p
  unfolding check_path
  check_path-Usable p h = ground arith

  resolve_listed-Indexed {κ} :
      (Q : AccessPath → Type κ) (index : Dict String AccessPath) (ks : List String)
      (ps : List AccessPath)
      → Indexed (PathAt Q) index
      → resolve_listed suite direct_test_authorized index ks ≡ ok ps
      → (path_ids ps ≡ ks) × All Q ps × All Usable ps
  unfolding resolve_listed Indexed
  resolve_listed-Indexed Q index [] ps h e = let same : ps ≡ [] = cc in rw same (refl, tt, tt)
  resolve_listed-Indexed Q index (k ∷ ks) ps h e =
      let (p, first, more) = >>=-eq-ok (find_path index k) _ e in
      let (checked, others) = >>-eq-ok (check_path suite direct_test_authorized k p) _ more in
      let (rest, found, same) =
        >>=-eq-ok (resolve_listed suite direct_test_authorized index ks) _ others in
      let (at, q) = h k p (find_path-lookup index k p first) in
      let (ids, all, usable) = resolve_listed-Indexed Q index ks rest h found in
      let whole : ps ≡ p ∷ rest = cc in
      let fits = check_path-Usable p (rw at checked) in
      rw whole (rw (at, ids), (q, all), (fits, usable))

Memᴰ-all : (xs : List AccessPath) → All (λ x. Memᴰ x xs) xs
Memᴰ-all [] = tt
Memᴰ-all (x ∷ xs) = (Memᴰ.head refl, All-map (λ y m. Memᴰ.tail m) xs (Memᴰ-all xs))

-- The access paths that are resolved are the listed ones in the suite's order, each of them
-- registered and usable.
pub resolve_access_paths_sound :
    (suite : BenchmarkSuite) (records : List ProviderRegistryEntry)
    (direct_test_authorized : List String) (resolved : List AccessPath)
    → resolve_access_paths suite records direct_test_authorized ≡ ok resolved
    → (path_ids resolved ≡ suite.access_path_ids)
      × All (λ p. Memᴰ p (all_paths records)) resolved
      × All (Usable suite direct_test_authorized) resolved
unfolding resolve_access_paths
resolve_access_paths_sound suite records direct_test_authorized resolved h =
    let index = path_index [] records in
    let registered : AccessPath → Type 0 = λ p. Memᴰ p (all_paths records) in
    let (first, more) =
      >>-eq-ok _ (resolve_listed suite direct_test_authorized index suite.access_path_ids) h in
    resolve_listed-Indexed suite direct_test_authorized registered index suite.access_path_ids
      resolved
      (path_index-Indexed registered [] records (Memᴰ-all (all_paths records))
        (Indexed-nil (PathAt registered)))
      more
