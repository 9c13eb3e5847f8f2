-- ===== src/Suites/Documents.antt =====
-- src/qveris_bench/suites/bindings.py, outcome_rules.py, loader.py and fingerprint.py, from the
-- parsed documents on.
use qveris_capability_benchm.Prelude.{
  String, ◌≡◌, ◌↔◌, refl, ◌∙◌, Bool, true, false, not, Bool-cases, ◌⊎◌, inl, inr, ap, Result-cases,
  ◌||◌, Option, none, some, List, [], ◌∷◌, ◌==◌, string_eq, list_eq, arith, same_set, is_distinct,
  if◌then◌else◌, All, All-map, Result, ok, err, ◌>>◌, raise_if, for_each, for_each-All,
  All-for_each,
}
use mathlib.Core.List.{Memᴰ}
use qveris_capability_benchm.Prelude.Dict.{Dict, lookup, insert, keys}
use qveris_capability_benchm.Models.Provider.{AccessPath}
use qveris_capability_benchm.Models.Release.{is_empty}
use qveris_capability_benchm.Models.Suite.{BenchmarkCase}
use qveris_capability_benchm.Providers.Registry.{path_ids}
use qveris_capability_benchm.Suites.Matrix.{duplicates}

pub record ProviderBinding : Type 0 where
  pub access_path_id : String
  pub provider_id : String
  pub canonical_interface : String
  pub official_source : String
  pub direct_test_authorized : Bool

pub data ProviderBindingError : Type 0 where
  duplicate_binding : ProviderBindingError
  bindings_do_not_match : ProviderBindingError
  binding_mismatch : String → ProviderBindingError
  key_error : String → ProviderBindingError

abbrev pub binding_ids : List ProviderBinding → List String
binding_ids [] = []
binding_ids (b ∷ bs) = b.access_path_id ∷ binding_ids bs

-- `load_provider_bindings`, behind the parser
unfoldable pub load_provider_bindings :
    List ProviderBinding → Result ProviderBindingError (List ProviderBinding)
load_provider_bindings bindings = do
  raise_if (not (is_distinct (binding_ids bindings))) duplicate_binding
  ok bindings

-- `{binding.access_path_id: binding for binding in bindings}`
by_id : Dict String ProviderBinding → List ProviderBinding → Dict String ProviderBinding
by_id d [] = d
by_id d (b ∷ bs) = by_id (insert b.access_path_id b d) bs

check_binding : AccessPath → Option ProviderBinding → Result ProviderBindingError (Unit {0})
check_binding path none = err (key_error path.access_path_id)
check_binding path (some binding) =
    raise_if
      (not (binding.provider_id == path.provider_id)
        || not (binding.canonical_interface == path.canonical_interface)
        || not (binding.official_source == path.official_source))
      (binding_mismatch path.access_path_id)

unfoldable pub validate_provider_bindings :
    List ProviderBinding → List AccessPath → Result ProviderBindingError (Unit {0})
unfolding by_id check_binding
validate_provider_bindings bindings access_paths = do
  let index = by_id [] bindings
  raise_if (not (same_set (keys index) (path_ids access_paths))) bindings_do_not_match
  for_each (λ (p : AccessPath). check_binding p (lookup p.access_path_id index)) access_paths

pub record OutcomeRules : Type 0 where
  pub completion_requires : List String
  pub negative_control_requires : List String

pub data OutcomeRulesError : Type 0 where
  conditions_do_not_match : String → OutcomeRulesError

abbrev pub expected_conditions : OutcomeRules → BenchmarkCase → List String
expected_conditions rules case =
    if case.negative_control then rules.negative_control_requires else rules.completion_requires

check_case : OutcomeRules → BenchmarkCase → Result OutcomeRulesError (Unit {0})
check_case rules case =
    raise_if (not (case.completion_conditions == expected_conditions rules case))
      (conditions_do_not_match case.case_id)

unfoldable pub validate_outcome_rules :
    OutcomeRules → List BenchmarkCase → Result OutcomeRulesError (Unit {0})
unfolding check_case
validate_outcome_rules rules cases = for_each (check_case rules) cases

-- A case follows the rules: a negative control lists their conditions for negative controls, any
-- other case their conditions of completion.
abbrev pub Follows : OutcomeRules → BenchmarkCase → Type 0
Follows rules case =
    ((case.negative_control ≡ true)
      × (case.completion_conditions ≡ rules.negative_control_requires))
    ⊎ ((case.negative_control ≡ false) × (case.completion_conditions ≡ rules.completion_requires))

check_case-Follows :
    (rules : OutcomeRules) (c : BenchmarkCase) → (check_case rules c ≡ ok tt) ↔ Follows rules c
unfolding check_case
check_case-Follows rules c = (
  λ h. elim (Bool-cases c.negative_control) [
    | inl n ↦ inl (n, ground arith)
    | inr n ↦ inr (n, ground arith)
  ],
  λ f. elim f [ inl (n, e) ↦ ground arith | inr (n, e) ↦ ground arith ],
)

check_case-err :
    (rules : OutcomeRules) (c : BenchmarkCase) (e : OutcomeRulesError)
    → check_case rules c ≡ err e
    → e ≡ conditions_do_not_match c.case_id
unfolding check_case
check_case-err rules c e h = ground arith

-- What the outcome rules report of a list of cases
first_refused :
    (rules : OutcomeRules) (cases : List BenchmarkCase) (e : OutcomeRulesError)
    → for_each (check_case rules) cases ≡ err e
    → (c : BenchmarkCase) × Memᴰ c cases
      × ¬ Follows rules c
      × (e ≡ conditions_do_not_match c.case_id)
first_refused rules [] e h = absurd (cc)
first_refused rules (c ∷ cases) e h = elim (Result-cases (check_case rules c)) [
  | inl (u, k) ↦
      let (d, m, wrong, same) = first_refused rules cases e (rw k at h) in
      (d, Memᴰ.tail m, wrong, same)
  | inr (f, k) ↦ (
    c,
    Memᴰ.head refl,
    λ follows. cc ((check_case-Follows rules c).1 follows),
    check_case-err rules c e (k ∙ (rw k at h)),
  )
]

-- The outcome rules accept exactly the lists whose negative controls have the rules' conditions for
-- negative controls and whose other cases have their conditions of completion; where they do not
-- accept a list, the exception names a case of it that has other conditions.
pub validate_outcome_rules_iff :
    (rules : OutcomeRules) (cases : List BenchmarkCase)
    → ((validate_outcome_rules rules cases ≡ ok tt) ↔ All (Follows rules) cases)
      × ((validate_outcome_rules rules cases ≡ ok tt)
          ⊎ ((c : BenchmarkCase) × Memᴰ c cases
              × ¬ Follows rules c
              × (validate_outcome_rules rules cases ≡ err (conditions_do_not_match c.case_id))))
unfolding validate_outcome_rules
validate_outcome_rules_iff rules cases = (
  (
    λ h.
        All-map (λ c. (check_case-Follows rules c).0) cases
          (for_each-All (check_case rules) cases h),
    λ h.
        All-for_each (check_case rules) cases
          (All-map (λ c. (check_case-Follows rules c).1) cases h),
  ),
  elim (Result-cases (for_each (check_case rules) cases)) [
    | inl (u, h) ↦ inl h
    | inr (e, h) ↦
        (let (c, m, wrong, same) = first_refused rules cases e h in
          inr (c, m, wrong, h ∙ ap err same))
  ],
)

pub data SuiteLoadError : Type 0 where
  duplicate_cases : List String → SuiteLoadError

abbrev pub ids_of : List BenchmarkCase → List String
ids_of [] = []
ids_of (c ∷ cs) = c.case_id ∷ ids_of cs

-- `load_cases`, behind the parser
unfoldable pub load_cases : List BenchmarkCase → Result SuiteLoadError (List BenchmarkCase)
load_cases cases = do
  let repeated = duplicates (ids_of cases)
  raise_if (not (is_empty repeated)) (duplicate_cases repeated)
  ok cases

pub data ResumeFingerprintError : Type 0 where
  fingerprint_mismatch : String → String → ResumeFingerprintError

unfoldable pub assert_resume_fingerprint :
    String → String → Result ResumeFingerprintError (Unit {0})
assert_resume_fingerprint expected actual =
    raise_if (not (expected == actual)) (fingerprint_mismatch expected actual)
