-- ===== src/Suites/Tests.antt =====
-- A small suite, from its documents to its run plan, its direct binding and its registry.
use qveris_capability_benchm.Prelude.{
  ℕ, ◌≤◌, ◌*◌, length, ◌≡◌, ◌≢◌, ◌↔◌, ◌⊎◌, refl, String, List, true, false, none, some, [], ◌∷◌,
  Result, ok, err, All, Distinct, contains, string_eq, pair_eq, list_eq, nat_eq, count, is_distinct,
}
use mathlib.Core.List.{Memᴰ, flat_map}
use qveris_capability_benchm.Prelude.Sort.{sort_keys}
use qveris_capability_benchm.Prelude.Text.{decimal}
use qveris_capability_benchm.Prelude.Dict.{lookup, insert}
use qveris_capability_benchm.Models.Enums.{
  RunMode, run_mode_eq, access_path_type_eq, direct, agent_trial, included, harbor_catalog,
  qualification_disposition_eq, AccessProtocol, AccessPathType,
}
use qveris_capability_benchm.Models.Provider.{AccessPath}
use qveris_capability_benchm.Models.Run.{RunPlan, SourceReference}
use qveris_capability_benchm.Models.Suite.{BenchmarkCase, BenchmarkSuite}
use qveris_capability_benchm.Models.Value.{null, dict, end}
use qveris_capability_benchm.Execution.DirectBinding.{
  DirectBinding, not_one_binding, for_cell, cell_of, applicable_cells,
  validate_direct_binding_registry,
}
use qveris_capability_benchm.Execution.DirectBinding.Cells.{for_cell-applicable, for_cell-other}
use qveris_capability_benchm.Providers.Registry.{
  ProviderRegistryEntry, Identity, list_records, paths_by_identity, cohort_check, is_denied,
  all_paths, validate_direct_test_authorization, validate_agent_trial_eligibility,
}
use qveris_capability_benchm.Providers.Registry.Eligible.{
  Included, Eligible, validate_direct_test_authorization_iff, validate_agent_trial_eligibility_iff,
}
use qveris_capability_benchm.Releases.Replay.{validate_run_keys, validate_run_keys-expand_run_plan}
use qveris_capability_benchm.Suites.Compiler.{
  CapDefinition, CompiledSuite, Documents, Snapshot, compile_suite, compiled_of,
}
use qveris_capability_benchm.Suites.Resolution.{resolve_cases, resolve_access_paths}
use qveris_capability_benchm.Suites.Compiler.Compiled.{Compiles, compile_suite-Compiles}
use qveris_capability_benchm.Suites.Resolution.Sound.{
  Usable, resolve_cases_sound, resolve_access_paths_sound,
}
use qveris_capability_benchm.Suites.Documents.{
  ProviderBinding, OutcomeRules, conditions_do_not_match, Follows, load_cases,
  load_provider_bindings, validate_provider_bindings, validate_outcome_rules,
  validate_outcome_rules_iff,
}
use qveris_capability_benchm.Suites.Matrix.{
  expand_cells, expand_run_plan, plan_with, duplicates, plan_cell, canonical_run_key,
  applicability_reason, run_keys,
}
use qveris_capability_benchm.Suites.Matrix.Applicability.{applicability_reason_iff}
use qveris_capability_benchm.Suites.Matrix.Plan.{expand_run_plan_iff, expand_run_plan_complete}

abbrev pub case : BenchmarkCase
case = record {
  case_id = "case";
  cap_id = "cap";
  question = "?";
  input = null;
  negative_control = false;
  expected_observations = [];
  completion_conditions = "price" ∷ [];
  disclosure_limits = [];
  applicable_provider_ids = [];
}

abbrev pub other_case : BenchmarkCase
other_case = record case { case_id = "other"; applicable_provider_ids = "somebody_else" ∷ [] }

abbrev pub path : AccessPath
path = record {
  access_path_id = "path";
  provider_id = "provider";
  path_type = AccessPathType.native_mcp;
  official_source = "https";
  plan_name = none;
  authorization = "key";
  canonical_interface = "tool";
  protocol = AccessProtocol.mcp_sse;
  endpoint_url = none;
  authentication = "key";
  agent_trial_eligible = true;
  qualification = some (record { disposition = included; reason = "ok"; evidence_digest = "d" });
}

abbrev pub suite : BenchmarkSuite
suite = record {
  suite_id = "suite";
  version = "1.0.0";
  cap_id = "cap";
  cap_version = "1.0.0";
  case_ids = "case" ∷ "other" ∷ [];
  access_path_ids = "path" ∷ [];
  modes = direct ∷ [];
  rounds = 1;
  environment = [];
  outcome_rules_file = "rules.yaml";
  agent_protocol = none;
  not_applicable = [];
}

abbrev pub source : SourceReference
source = record {
  source_type = harbor_catalog;
  harbor_capability_id = "CAP.PRICE";
  contract_version = 1;
  catalog_snapshot_digest = "s";
  contract_digest = "c";
}

abbrev pub cap : CapDefinition
cap = record {
  cap_id = "cap";
  version = "1.0.0";
  name = "Price";
  business_use = "to look up";
  scope = "x" ∷ [];
  exclusions = [];
  markets = [];
  asset_types = [];
  sources = source ∷ [];
}

abbrev entry : ProviderRegistryEntry
entry = record {
  provider = record {
    provider_id = "provider";
    official_name = "Provider";
    website = "https";
    market_coverage = [];
    official_pricing = [];
  };
  access_paths = path ∷ [];
}

abbrev provider_binding : ProviderBinding
provider_binding = record {
  access_path_id = "path";
  provider_id = "provider";
  canonical_interface = "tool";
  official_source = "https";
  direct_test_authorized = false;
}

abbrev rules : OutcomeRules
rules = record { completion_requires = "price" ∷ []; negative_control_requires = [] }

abbrev pub documents : Documents
documents = record {
  suite = suite;
  cap = cap;
  available = other_case ∷ case ∷ [];
  bindings = provider_binding ∷ [];
  outcome_rules = rules;
  entries = entry ∷ [];
}

abbrev pub any_source : SourceReference → Result String (Unit {0})
any_source s = ok tt

abbrev pub fingerprint : Snapshot → String
fingerprint snapshot = "0123456789abcdef"

abbrev pub plan : RunPlan
plan =
    plan_with suite "0123456789abcdef" (source ∷ [])
      (expand_cells suite (case ∷ other_case ∷ []) (path ∷ []) "0123456789abcdef")

abbrev pub compiled : CompiledSuite
compiled =
    compiled_of documents (case ∷ other_case ∷ []) (path ∷ []) (entry ∷ []) (provider_binding ∷ [])
      "0123456789abcdef" plan

pub documents_compile : compile_suite any_source fingerprint documents ≡ ok compiled
unfolding compile_suite string_eq load_cases duplicates count insert lookup load_provider_bindings
    is_distinct nat_eq validate_outcome_rules list_eq cohort_check flat_map sort_keys is_denied
    qualification_disposition_eq validate_provider_bindings plan_cell canonical_run_key decimal
    expand_run_plan
documents_compile = refl

compile_suite-Compiles_example : Compiles any_source fingerprint documents compiled
compile_suite-Compiles_example =
    compile_suite-Compiles any_source fingerprint documents compiled documents_compile

cases_resolve : resolve_cases suite (other_case ∷ case ∷ []) ≡ ok (case ∷ other_case ∷ [])
unfolding resolve_cases insert string_eq lookup
cases_resolve = refl

paths_resolve : resolve_access_paths suite (entry ∷ []) [] ≡ ok (path ∷ [])
unfolding resolve_access_paths insert string_eq lookup is_denied qualification_disposition_eq
paths_resolve = refl

pub plan_expands :
    expand_run_plan suite (case ∷ other_case ∷ []) (path ∷ []) "0123456789abcdef" (source ∷ [])
    ≡ ok plan
unfolding expand_run_plan duplicates flat_map count string_eq plan_cell canonical_run_key decimal
plan_expands = refl

expand_run_plan_iff_example :
    (expand_run_plan suite (case ∷ other_case ∷ []) (path ∷ []) "0123456789abcdef" (source ∷ [])
      ≡ ok plan)
    ↔ (Distinct
          (run_keys (expand_cells suite (case ∷ other_case ∷ []) (path ∷ []) "0123456789abcdef"))
        × (plan
            ≡ plan_with suite "0123456789abcdef"
                (source ∷ [])
                (expand_cells suite (case ∷ other_case ∷ []) (path ∷ []) "0123456789abcdef")))
expand_run_plan_iff_example =
    expand_run_plan_iff suite (case ∷ other_case ∷ []) (path ∷ []) "0123456789abcdef" (source ∷ [])
      plan

expand_run_plan_complete_example :
    (length plan.cells ≡ 2 * (1 * (1 * 1)))
    × Distinct (run_keys plan.cells)
    × ((c : BenchmarkCase) (p : AccessPath) (mode : RunMode) (k : ℕ)
        → Memᴰ c (case ∷ other_case ∷ [])
        → Memᴰ p (path ∷ [])
        → Memᴰ mode (direct ∷ [])
        → 1 ≤ k
        → k ≤ 1
        → Memᴰ (plan_cell suite "0123456789abcdef" c p mode k) plan.cells)
expand_run_plan_complete_example =
    expand_run_plan_complete suite (case ∷ other_case ∷ []) (path ∷ []) "0123456789abcdef"
      (source ∷ []) plan plan_expands

applicability_reason_iff_example : (applicability_reason suite other_case path direct ≡ none) ↔ (
    Unit {0}
    × ((other_case.applicable_provider_ids ≡ [])
        ⊎ (contains other_case.applicable_provider_ids path.provider_id ≡ true))
    × ((direct ≢ agent_trial) ⊎ (path.agent_trial_eligible ≡ true)))
applicability_reason_iff_example = applicability_reason_iff other_case path direct suite

validate_run_keys-expand_run_plan_example : validate_run_keys plan ≡ ok tt
validate_run_keys-expand_run_plan_example =
    validate_run_keys-expand_run_plan suite "0123456789abcdef" (case ∷ other_case ∷ []) (path ∷ [])
      (source ∷ []) plan plan_expands

resolve_cases_sound_example :
    ("case" ∷ "other" ∷ [] ≡ suite.case_ids)
    × All (λ c. Memᴰ c (other_case ∷ case ∷ [])) (case ∷ other_case ∷ [])
    × All (λ (c : BenchmarkCase). c.cap_id ≡ "cap") (case ∷ other_case ∷ [])
resolve_cases_sound_example =
    resolve_cases_sound suite (other_case ∷ case ∷ []) (case ∷ other_case ∷ []) cases_resolve

resolve_access_paths_sound_example :
    ("path" ∷ [] ≡ suite.access_path_ids)
    × All (λ p. Memᴰ p (all_paths (entry ∷ []))) (path ∷ [])
    × All (Usable suite []) (path ∷ [])
resolve_access_paths_sound_example =
    resolve_access_paths_sound suite (entry ∷ []) [] (path ∷ []) paths_resolve

validate_outcome_rules_iff_example :
    ((validate_outcome_rules rules (case ∷ []) ≡ ok tt) ↔ All (Follows rules) (case ∷ []))
    × ((validate_outcome_rules rules (case ∷ []) ≡ ok tt)
        ⊎ ((c : BenchmarkCase) × Memᴰ c (case ∷ [])
            × ¬ Follows rules c
            × (validate_outcome_rules rules (case ∷ []) ≡ err (conditions_do_not_match c.case_id))))
validate_outcome_rules_iff_example = validate_outcome_rules_iff rules (case ∷ [])

abbrev identity : Identity
identity = ("provider", "path")

validate_direct_test_authorization_iff_example :
    (validate_direct_test_authorization (entry ∷ []) (identity ∷ []) ≡ ok tt) ↔ (
      (records : List ProviderRegistryEntry) × (list_records (entry ∷ []) ≡ ok records)
      × All (Included (paths_by_identity [] records)) (identity ∷ []))
validate_direct_test_authorization_iff_example =
    validate_direct_test_authorization_iff (entry ∷ []) (identity ∷ [])

validate_agent_trial_eligibility_iff_example :
    (validate_agent_trial_eligibility (entry ∷ []) (identity ∷ []) ≡ ok tt) ↔ (
      (records : List ProviderRegistryEntry) × (list_records (entry ∷ []) ≡ ok records)
      × All (Eligible (paths_by_identity [] records)) (identity ∷ []))
validate_agent_trial_eligibility_iff_example =
    validate_agent_trial_eligibility_iff (entry ∷ []) (identity ∷ [])

abbrev direct_binding : DirectBinding
direct_binding = record {
  binding_id = "binding";
  suite_id = "suite";
  version = "1.0.0";
  case_id = "case";
  access_path_id = "path";
  provider_id = "provider";
  transport = AccessPathType.native_mcp;
  source_digest = "d";
  tool_id = "tool";
  parameters = dict end;
  discovery_query = none;
  request_identity = none;
}

bindings_valid : validate_direct_binding_registry (direct_binding ∷ []) compiled ≡ ok tt
unfolding validate_direct_binding_registry is_distinct nat_eq expand_cells flat_map plan_cell
    applicability_reason run_mode_eq pair_eq string_eq lookup insert access_path_type_eq
bindings_valid = refl

case_applicable : contains (applicable_cells plan.cells) ("case", "path") ≡ true
unfolding plan_cell expand_cells flat_map applicability_reason run_mode_eq pair_eq string_eq
case_applicable = refl

other_inapplicable : contains (applicable_cells plan.cells) ("other", "path") ≡ false
unfolding plan_cell expand_cells flat_map applicability_reason run_mode_eq pair_eq string_eq
other_inapplicable = refl

for_cell-applicable_example :
    (b : DirectBinding) × (for_cell (direct_binding ∷ []) "case" "path" ≡ ok b)
    × (cell_of b ≡ ("case", "path"))
    × (b.suite_id ≡ "suite")
for_cell-applicable_example =
    for_cell-applicable (direct_binding ∷ []) compiled "case" "path" bindings_valid case_applicable

for_cell-other_example : for_cell (direct_binding ∷ []) "other" "path" ≡ err not_one_binding
for_cell-other_example =
    for_cell-other (direct_binding ∷ []) compiled "other" "path" bindings_valid other_inapplicable
