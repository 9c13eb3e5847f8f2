-- ===== src/Providers/Registry/Eligible.antt =====
-- The identities that may run as agent trials, and those that may be tested directly.
use qveris_capability_benchm.Prelude.{
  ◌≡◌, ◌↔◌, refl, ◌∙◌, sym, Bool, true, false, not, Option, none, some, List, [], ◌∷◌, arith, ◌==◌,
  ==_iff, contains, string_eq, pair_eq, select, select-nil, select-eq-nil, difference, All, All-map,
  Option-cases, Result-cases, inl, inr, ok, err, ◌>>◌, >>-eq-ok, raise_if,
}
use qveris_capability_benchm.Prelude.Dict.{Dict, lookup, keys, contains-keys}
use qveris_capability_benchm.Models.Enums.{included, qualification_disposition_eq}
use qveris_capability_benchm.Models.Provider.{AccessPath, QualificationDecision}
use qveris_capability_benchm.Models.Release.{is_empty}
use qveris_capability_benchm.Providers.Registry.{
  ProviderRegistryEntry, Identity, RegistryError, not_authorized, not_eligible, is_denied,
  test_path, report, list_records, paths_by_identity, access_paths_by_identity, check_known,
  check_authorized, check_eligible, validate_identities, validate_direct_test_authorization,
  validate_agent_trial_eligibility,
}

is_empty-nil {ℓ} : {A : Type ℓ} (xs : List A) → is_empty xs ≡ true → xs ≡ []
is_empty-nil [] h = refl
is_empty-nil (x ∷ xs) h = absurd (cc)

all_both {ℓ κ μ} :
    {A : Type ℓ} (P : A → Type κ) (Q : A → Type μ) (xs : List A)
    → All P xs
    → All Q xs
    → All (λ x. P x × Q x) xs
all_both P Q [] p q = tt
all_both P Q (x ∷ xs) p q = ((p.0, q.0), all_both P Q xs p.1 q.1)

abbrev closed : AccessPath → Bool
closed p = not p.agent_trial_eligible

opened : (p : AccessPath) → closed p ≡ false → p.agent_trial_eligible ≡ true
opened p h = ground arith

shut : (p : AccessPath) → p.agent_trial_eligible ≡ true → closed p ≡ false
shut p h = ground arith

accepted :
    (p : AccessPath)
    → is_denied p ≡ false
    → (q : QualificationDecision) × (p.qualification ≡ some q) × (q.disposition ≡ included)
unfolding is_denied
accepted p h = go p.qualification h
  where
    go :
        (o : Option QualificationDecision)
        → (elim o [ none ↦ true | some q ↦ not (q.disposition == included) ]) ≡ false
        → (q : QualificationDecision) × (o ≡ some q) × (q.disposition ≡ included)
    go none h = absurd (cc)
    go (some q) h = (q, refl, ground arith)

allowed :
    (p : AccessPath) (q : QualificationDecision)
    → p.qualification ≡ some q
    → q.disposition ≡ included
    → is_denied p ≡ false
unfolding is_denied
allowed p q e d = rw (e, (==_iff q.disposition included).1 d) refl

module _ (registered : Dict Identity AccessPath) where
  -- The identity is registered, with an access path whose qualification is `included`.
  pub Included : Identity → Type 0
  Included i =
      (path : AccessPath) × (lookup i registered ≡ some path)
      × (q : QualificationDecision) × (path.qualification ≡ some q)
      × (q.disposition ≡ included)

  -- …and agents may use the path.
  pub Eligible : Identity → Type 0
  Eligible i =
      (path : AccessPath) × (lookup i registered ≡ some path)
      × ((q : QualificationDecision) × (path.qualification ≡ some q) × (q.disposition ≡ included))
      × (path.agent_trial_eligible ≡ true)

  refused : (AccessPath → Bool) → List Identity → List Identity
  refused test identities = select (test_path test registered) identities

  known-lookup :
      (i : Identity)
      → not (contains (keys registered) i) ≡ false
      → (path : AccessPath) × (lookup i registered ≡ some path)
  known-lookup i h = elim (Option-cases (lookup i registered)) [
    | inl gone ↦ absurd ((contains-keys registered i).0 (ground arith) gone)
    | inr found ↦ found
  ]

  lookup-known :
      (i : Identity) {path : AccessPath}
      → lookup i registered ≡ some path
      → not (contains (keys registered) i) ≡ false
  lookup-known i h = let c = (contains-keys registered i).1 (λ gone. cc) in ground arith

  passes-lookup :
      (test : AccessPath → Bool) (i : Identity) (path : AccessPath)
      → lookup i registered ≡ some path
      → test_path test registered i ≡ test path
  unfolding test_path
  passes-lookup test i path h = rw (h, test_path) refl

  identities-All :
      (identities : List Identity)
      → (check_known registered identities ≡ ok tt)
        ↔ All (λ i. not (contains (keys registered) i) ≡ false) identities
  unfolding check_known
  identities-All identities = (
    λ h.
        let none_unknown : is_empty (difference identities (keys registered)) ≡ true =
          ground arith in
        select-nil _ identities (is_empty-nil _ none_unknown),
    λ h. rw (select-eq-nil (λ i. not (contains (keys registered) i)) identities h) refl,
  )

  refused-none :
      (test : AccessPath → Bool) (error : List Identity → RegistryError)
      (identities : List Identity)
      → raise_if
          (not (is_empty (refused test identities)))
          (error (report (refused test identities)))
        ≡ ok tt
      → All (λ i. test_path test registered i ≡ false) identities
  unfolding refused
  refused-none test error identities h =
      let none_refused : is_empty (refused test identities) ≡ true = ground arith in
      select-nil (test_path test registered) identities (is_empty-nil _ none_refused)

  check_authorized_iff :
      (identities : List Identity)
      → ((check_known registered identities >> check_authorized registered identities) ≡ ok tt)
        ↔ All Included identities
  unfolding check_authorized Included refused
  check_authorized_iff identities = (
    λ h.
        let (known, rest) = >>-eq-ok (check_known registered identities) _ h in
        All-map
          (λ i (k, d).
            let (path, e) = known-lookup i k in
            let (q, f, a) = accepted path (sym (passes-lookup is_denied i path e) ∙ d) in
            (path, e, q, f, a))
          identities
          (all_both _ _ identities ((identities-All identities).0 known)
            (refused-none is_denied not_authorized identities rest)),
    λ h.
        rw
          (
            (identities-All identities).1
                (All-map (λ i (path, e, q, f, d). lookup-known i e) identities h),
            select-eq-nil (test_path is_denied registered) identities (
                All-map
                  (λ i (path, e, q, f, d). passes-lookup is_denied i path e ∙ allowed path q f d)
                  identities h),
          )
          refl,
  )

  check_eligible_iff :
      (identities : List Identity)
      → ((check_known registered identities
            >> check_authorized registered identities
            >> check_eligible registered identities)
          ≡ ok tt)
        ↔ All Eligible identities
  unfolding check_eligible Included Eligible refused
  check_eligible_iff identities = (
    λ h.
        let (tested, rest) =
          >>-eq-ok (check_known registered identities >> check_authorized registered identities) _
            h in
        All-map
          (λ i ((path, e, q, f, d), a).
            (path, e, (q, f, d), opened path (sym (passes-lookup closed i path e) ∙ a)))
          identities
          (all_both _ _ identities ((check_authorized_iff identities).0 tested)
            (refused-none closed not_eligible identities rest)),
    λ h.
        rw
          (
            (check_authorized_iff identities).1
                (All-map (λ i (path, e, d, a). (path, e, d.0, d.1, d.2)) identities h),
            select-eq-nil (test_path closed registered) identities (
                All-map (λ i (path, e, d, a). passes-lookup closed i path e ∙ shut path a)
                  identities h),
          )
          refl,
  )

module _ (entries : List ProviderRegistryEntry) (identities : List Identity) where
  direct-registered :
      (records : List ProviderRegistryEntry)
      → list_records entries ≡ ok records
      → validate_direct_test_authorization entries identities ≡ (
          check_known (paths_by_identity [] records) identities
          >> check_authorized (paths_by_identity [] records) identities)
  unfolding validate_direct_test_authorization validate_identities access_paths_by_identity
  direct-registered records e = rw e refl

  direct-refused :
      (f : RegistryError)
      → list_records entries ≡ err f
      → validate_direct_test_authorization entries identities ≡ err f
  unfolding validate_direct_test_authorization validate_identities access_paths_by_identity
  direct-refused f e = rw e refl

  agent-registered :
      (records : List ProviderRegistryEntry)
      → list_records entries ≡ ok records
      → validate_agent_trial_eligibility entries identities ≡ (
          check_known (paths_by_identity [] records) identities
          >> check_authorized (paths_by_identity [] records) identities
          >> check_eligible (paths_by_identity [] records) identities)
  unfolding validate_agent_trial_eligibility access_paths_by_identity
  agent-registered records e = rw (direct-registered records e, e) refl

  agent-refused :
      (f : RegistryError)
      → list_records entries ≡ err f
      → validate_agent_trial_eligibility entries identities ≡ err f
  unfolding validate_agent_trial_eligibility
  agent-refused f e = rw (direct-refused f e) refl

  -- The authorization for direct tests passes exactly when the registry is listed without an
  -- exception, and every identity is registered in it with an access path that is included.
  pub validate_direct_test_authorization_iff :
      (validate_direct_test_authorization entries identities ≡ ok tt) ↔ (
        (records : List ProviderRegistryEntry) × (list_records entries ≡ ok records)
        × All (Included (paths_by_identity [] records)) identities)
  validate_direct_test_authorization_iff = (
    λ h. elim (Result-cases (list_records entries)) [
      | inl (records, e) ↦
          let same = direct-registered records e in
          (
            records,
            e,
            (check_authorized_iff (paths_by_identity [] records) identities).0 (sym same ∙ h),
          )
      | inr (f, e) ↦ absurd (cc (direct-refused f e))
    ],
    λ (records, e, all).
        direct-registered records e
        ∙ (check_authorized_iff (paths_by_identity [] records) identities).1 all,
  )

  -- The eligibility for agent trials passes exactly when the registry is listed without an
  -- exception, and every identity is registered in it with an access path that is included and
  -- open to agents.
  pub validate_agent_trial_eligibility_iff :
      (validate_agent_trial_eligibility entries identities ≡ ok tt) ↔ (
        (records : List ProviderRegistryEntry) × (list_records entries ≡ ok records)
        × All (Eligible (paths_by_identity [] records)) identities)
  validate_agent_trial_eligibility_iff = (
    λ h. elim (Result-cases (list_records entries)) [
      | inl (records, e) ↦
          let same = agent-registered records e in
          (
            records,
            e,
            (check_eligible_iff (paths_by_identity [] records) identities).0 (sym same ∙ h),
          )
      | inr (f, e) ↦ absurd (cc (agent-refused f e))
    ],
    λ (records, e, all).
        agent-registered records e
        ∙ (check_eligible_iff (paths_by_identity [] records) identities).1 all,
  )
