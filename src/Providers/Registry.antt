-- ===== src/Providers/Registry.antt =====
-- src/qveris_bench/providers/repository.py and qualification.py, from the records that the YAML
-- files hold on. Reading and writing the files is left out.
pub mod Eligible
use qveris_capability_benchm.Prelude.{
  String, ◌≡◌, ◌≢◌, ◌↔◌, refl, Bool, true, false, not, ◌&&◌, ◌||◌, Option, none, some, List, [],
  ◌∷◌, ◌++◌, ◌==◌, contains, string_eq, pair_eq, arith, select, select-nil, select-eq-nil, any,
  difference, to_set, if◌then◌else◌, All, All-map, Distinct, Bool-cases, inl, inr, Result, ok, err,
  ◌>>=◌, ◌>>◌, raise_if, for_each,
}
use mathlib.Core.List.{flat_map}
use qveris_capability_benchm.Prelude.Dict.{Dict, lookup, insert, keys, values}
use qveris_capability_benchm.Prelude.Sort.{sort_by, sort_keys, str_lt}
use qveris_capability_benchm.Models.Enums.{
  QualificationDisposition, included, qualification_disposition_eq,
}
use qveris_capability_benchm.Models.Provider.{
  AccessPath, OfficialPricingFact, PricingScope, provider_wide, paths, ProviderProfile,
  QualificationDecision,
}
use qveris_capability_benchm.Models.Release.{is_empty}
use qveris_capability_benchm.Models.Suite.{is_none, is_some}

pub record ProviderRegistryEntry : Type 0 where
  pub provider : ProviderProfile
  pub access_paths : List AccessPath

pub data RegistryError : Type 0 where
  foreign_access_path : String → RegistryError
  duplicate_access_path : String → RegistryError
  unknown_priced_paths : List String → RegistryError
  duplicate_provider : String → RegistryError
  unqualified_paths : List String → RegistryError
  unknown_identities : List (String × String) → RegistryError
  not_authorized : List (String × String) → RegistryError
  not_eligible : List (String × String) → RegistryError

-- The loop over the access paths of an entry, with the set `path_ids` so far.
collect_path_ids : String → List String → List AccessPath → Result RegistryError (List String)
collect_path_ids provider_id path_ids [] = ok path_ids
collect_path_ids provider_id path_ids (path ∷ rest) = do
  raise_if (not (path.provider_id == provider_id)) (foreign_access_path path.access_path_id)
  raise_if (contains path_ids path.access_path_id) (duplicate_access_path path.access_path_id)
  collect_path_ids provider_id (path.access_path_id ∷ path_ids) rest

check_pricing_scope : List String → PricingScope → Result RegistryError (Unit {0})
check_pricing_scope path_ids provider_wide = ok tt
check_pricing_scope path_ids (paths applies_to) =
    let unknown = sort_by str_lt (to_set (difference applies_to path_ids)) in
    raise_if (not (is_empty unknown)) (unknown_priced_paths unknown)

-- `ProviderRegistryEntry.validate_access_paths`
unfoldable pub validate_access_paths : ProviderRegistryEntry → Result RegistryError (Unit {0})
unfolding collect_path_ids check_pricing_scope
validate_access_paths entry = do
  path_ids ← collect_path_ids entry.provider.provider_id [] entry.access_paths
  for_each (λ pricing. check_pricing_scope path_ids pricing.applies_to)
      entry.provider.official_pricing

-- The inner loop of `list`: the set `access_paths` of the registry grows by an entry's paths.
register_paths : List String → List AccessPath → Result RegistryError (List String)
register_paths seen [] = ok seen
register_paths seen (path ∷ rest) = do
  raise_if (contains seen path.access_path_id) (duplicate_access_path path.access_path_id)
  register_paths (path.access_path_id ∷ seen) rest

-- The outer loop of `list`, over the loaded entries in the order of their files.
register :
    Dict String ProviderRegistryEntry
    → List String
    → List ProviderRegistryEntry
    → Result RegistryError (Dict String ProviderRegistryEntry)
unfolding register_paths
register records seen [] = ok records
register records seen (entry ∷ entries) = do
  raise_if (is_some (lookup entry.provider.provider_id records))
      (duplicate_provider entry.provider.provider_id)
  seen' ← register_paths seen entry.access_paths
  register (insert entry.provider.provider_id entry records) seen' entries

-- `ProviderRegistryRepository.list`
unfoldable pub list_records :
    List ProviderRegistryEntry → Result RegistryError (List ProviderRegistryEntry)
unfolding register
list_records entries = do records ← register [] [] entries; ok (values (sort_keys records))

unfoldable pub all_paths : List ProviderRegistryEntry → List AccessPath
all_paths records = flat_map (λ (r : ProviderRegistryEntry). r.access_paths) records

abbrev pub path_ids : List AccessPath → List String
path_ids [] = []
path_ids (p ∷ ps) = p.access_path_id ∷ path_ids ps

-- `check_frozen_cohort` of qualification.py
unfoldable pub check_frozen_cohort : List AccessPath → Result RegistryError (Unit {0})
check_frozen_cohort access_paths =
    let unqualified = select (λ (p : AccessPath). is_none p.qualification) access_paths in
    raise_if (not (is_empty unqualified)) (unqualified_paths (path_ids unqualified))

-- `ProviderRegistryRepository.cohort_check`
unfoldable pub cohort_check :
    List ProviderRegistryEntry → Result RegistryError (List ProviderRegistryEntry)
unfolding list_records check_frozen_cohort all_paths
cohort_check entries = do
  records ← list_records entries
  check_frozen_cohort (all_paths records)
  ok records

abbrev pub Identity : Type 0
Identity = String × String

add_paths : String → Dict Identity AccessPath → List AccessPath → Dict Identity AccessPath
add_paths provider_id d [] = d
add_paths provider_id d (p ∷ ps) =
    add_paths provider_id (insert (provider_id, p.access_path_id) p d) ps

-- `_access_paths_by_identity`, of the listed records
unfoldable pub paths_by_identity :
    Dict Identity AccessPath → List ProviderRegistryEntry → Dict Identity AccessPath
unfolding add_paths
paths_by_identity d [] = d
paths_by_identity d (entry ∷ entries) =
    paths_by_identity (add_paths entry.provider.provider_id d entry.access_paths) entries

identity_lt : Identity → Identity → Bool
identity_lt (p, a) (q, b) = str_lt p q || (p == q && str_lt a b)

-- A set of identities as it is reported.
report : List Identity → List Identity
unfolding identity_lt
report identities = sort_by identity_lt (to_set identities)

-- `qualification is None or qualification.disposition.value != "included"`
unfoldable pub is_denied : AccessPath → Bool
is_denied path = elim path.qualification [ none ↦ true | some q ↦ not (q.disposition == included) ]

-- What an identity's access path is tested for; every identity is registered where it is tested.
test_path : (AccessPath → Bool) → Dict Identity AccessPath → Identity → Bool
test_path test registered identity = elim (lookup identity registered) [
  | none ↦ true
  | some path ↦ test path
]

-- `_access_paths_by_identity`
unfoldable pub access_paths_by_identity :
    List ProviderRegistryEntry → Result RegistryError (Dict Identity AccessPath)
unfolding list_records paths_by_identity
access_paths_by_identity entries = do
  records ← list_records entries
  ok (paths_by_identity [] records)

-- Every identity is registered.
unfoldable pub check_known :
    Dict Identity AccessPath → List Identity → Result RegistryError (Unit {0})
unfolding report
check_known registered identities =
    let unknown = difference identities (keys registered) in
    raise_if (not (is_empty unknown)) (unknown_identities (report unknown))

-- No identity's path is denied.
unfoldable pub check_authorized :
    Dict Identity AccessPath → List Identity → Result RegistryError (Unit {0})
unfolding is_denied test_path report
check_authorized registered identities =
    let denied = select (test_path is_denied registered) identities in
    raise_if (not (is_empty denied)) (not_authorized (report denied))

-- Every identity's path is open to agents.
unfoldable pub check_eligible :
    Dict Identity AccessPath → List Identity → Result RegistryError (Unit {0})
unfolding test_path report
check_eligible registered identities =
    let ineligible =
      select (test_path (λ (p : AccessPath). not p.agent_trial_eligible) registered) identities in
    raise_if (not (is_empty ineligible)) (not_eligible (report ineligible))

-- `validate_access_path_identities`
unfoldable pub validate_identities :
    List ProviderRegistryEntry → List Identity → Result RegistryError (Unit {0})
unfolding access_paths_by_identity check_known
validate_identities entries identities = do
  registered ← access_paths_by_identity entries
  check_known registered identities

-- `validate_direct_test_authorization`: the registry is listed again.
unfoldable pub validate_direct_test_authorization :
    List ProviderRegistryEntry → List Identity → Result RegistryError (Unit {0})
unfolding validate_identities check_authorized
validate_direct_test_authorization entries identities = do
  validate_identities entries identities
  registered ← access_paths_by_identity entries
  check_authorized registered identities

-- `validate_agent_trial_eligibility`: the registry is listed again.
unfoldable pub validate_agent_trial_eligibility :
    List ProviderRegistryEntry → List Identity → Result RegistryError (Unit {0})
unfolding validate_direct_test_authorization check_eligible
validate_agent_trial_eligibility entries identities = do
  validate_direct_test_authorization entries identities
  registered ← access_paths_by_identity entries
  check_eligible registered identities
