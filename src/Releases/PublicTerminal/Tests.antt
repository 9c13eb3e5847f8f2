-- ===== src/Releases/PublicTerminal/Tests.antt =====
-- The compiled suite of the suites' tests, released with one terminal, and its replay.
use qveris_capability_benchm.Prelude.{
  String, ◌≡◌, refl, ◌==◌, Bool, none, some, List, [], ◌∷◌, ok, Result, string_eq, nat_eq, bool_eq,
  option_eq, list_eq, pair_eq, is_distinct, Distinct,
}
use mathlib.Core.List.{flat_map}
use qveris_capability_benchm.Prelude.Dict.{lookup, insert}
use qveris_capability_benchm.Prelude.Sort.{sort_by, str_lt}
use qveris_capability_benchm.Prelude.Text.{join, decimal}
use qveris_capability_benchm.Models.Enums.{
  AccessPathType, CellState, direct, sanitized, sanitized_public, cleared, redaction_status_eq,
  disclosure_level_eq, license_status_eq, cell_state_eq, failure_attribution_eq,
  access_path_type_eq, run_mode_eq,
}
use qveris_capability_benchm.Models.Release.{validate_cap_provenance}
use qveris_capability_benchm.Models.Evidence.{EvidenceBundle}
use qveris_capability_benchm.Models.Run.{RunCell}
use qveris_capability_benchm.Models.Suite.{BenchmarkCase}
use qveris_capability_benchm.Models.Value.{Value, null, value_eq}
use qveris_capability_benchm.Execution.DirectBinding.{DirectBinding}
use qveris_capability_benchm.Evidence.Policy.{validate_publication}
use qveris_capability_benchm.Outcomes.Attribution.{ensure_provider_side_attribution}
use qveris_capability_benchm.Releases.Builder.{by_run_key, by_evidence_id, build_release}
use qveris_capability_benchm.Releases.Gate.{
  open_cells, applicable_keys, check_bundle, measured_refs, check_attributions,
  lacks_provider_attribution, lacks_infra_attribution, validate_release_inputs,
}
use qveris_capability_benchm.Releases.Metrics.{Digests, validate_metrics}
use qveris_capability_benchm.Releases.PublicTerminal.{
  load_terminals, check_terminal, release_cell, release_cells, released, release_of, artifacts_of,
  assemble_public_terminal_release, bundle_of,
}
use qveris_capability_benchm.Releases.Terminal.{
  PublicTerminal, ValidatedTerminalOutcome, PublicTerminalReleaseArtifacts, Assembly, Codec,
}
use qveris_capability_benchm.Releases.PublicTerminal.Assembled.{
  Assembles, assemble_public_terminal_release_sound,
}
use qveris_capability_benchm.Suites.Compiler.Compiled.{compile_suite-Compiles}
use qveris_capability_benchm.Suites.Matrix.{
  expand_cells, applicability_reason, plan_cell, canonical_run_key, run_keys,
}
use qveris_capability_benchm.Suites.Tests.{
  suite, case, other_case, path, documents, any_source, fingerprint, compiled, plan,
  documents_compile,
}

abbrev digests : Digests
digests = record { definition_digest = λ definition. "d"; cohort_digest = λ id members. "c" }

abbrev binding : DirectBinding
binding = record {
  binding_id = "bind";
  suite_id = "suite";
  version = "1.0.0";
  case_id = "case";
  access_path_id = "path";
  provider_id = "provider";
  transport = AccessPathType.native_mcp;
  source_digest = "s";
  tool_id = "tool";
  parameters = null;
  discovery_query = none;
  request_identity = none;
}

abbrev terminal : PublicTerminal
terminal = record {
  binding_id = "bind";
  run_key = "suite:0123456789ab:case:provider:path:direct:1";
  provider_id = "provider";
  access_path_id = "path";
  transport = AccessPathType.native_mcp;
  state = CellState.completed;
  facts = null;
  unmet_conditions = [];
  failure_attribution = none;
  raw_digest = "raw";
  binding_registry_digest = "registry";
  extractor_version = "1.0.0";
  suite_fingerprint = "0123456789abcdef";
  redaction_status = sanitized;
  disclosure_level = sanitized_public;
  license_status = cleared;
  latency_ms = none;
  cost_credits = none;
  github_run_id = "run";
  github_sha = "sha";
}

abbrev codec : Codec
codec = record {
  model_validate_json = λ bytes. some terminal;
  sha256_digest = λ bytes. bytes;
  run_plan_bytes = λ run_plan. "plan";
  manifest_bytes = λ manifest. "manifest";
  canonical_release_bytes = λ payload. "release";
}

abbrev accepts : BenchmarkCase → DirectBinding → Value → Result String ValidatedTerminalOutcome
accepts c b facts =
    ok (record { state = CellState.completed; unmet_conditions = []; failure_attribution = none })

abbrev assembly : Assembly
assembly = record {
  compiled = compiled;
  binding_registry = binding ∷ [];
  binding_registry_digest = "registry";
  terminal_paths = record { stem = "bind-round-1"; bytes = some "bytes" } ∷ [];
  release_id = "release";
  version = "1.0.0";
  limitations = [];
  expected_github_run_id = "run";
  expected_github_sha = "sha";
  expected_provenance = ("bind-round-1", ("bytes", "raw")) ∷ [];
  github_artifacts_manifest_bytes = "artifacts";
  binding_registry_bytes = "registry";
}

abbrev case_cell : RunCell
case_cell = plan_cell suite "0123456789abcdef" case path direct 1

abbrev bundles : List EvidenceBundle
bundles =
    bundle_of codec accepts assembly "suite:0123456789ab:case:provider:path:direct:1"
      (record { terminal = terminal; stem = "bind-round-1"; bytes = "bytes" }) case_cell
    ∷ []

abbrev artifacts : PublicTerminalReleaseArtifacts
artifacts = record {
  run_plan = plan;
  cells =
      released terminal case_cell
      ∷ plan_cell suite "0123456789abcdef" other_case path direct 1
      ∷ [];
  evidence = bundles;
  release = release_of codec accepts assembly bundles ("bind-round-1-completed" ∷ []);
  release_bytes = "release";
  public_evidence_manifest_bytes = "manifest";
  binding_registry_bytes = "registry";
}

assembly_returns : assemble_public_terminal_release codec accepts assembly digests ≡ ok artifacts
unfolding assemble_public_terminal_release load_terminals release_cells release_cell check_terminal
    artifacts_of release_of build_release by_run_key by_evidence_id insert lookup sort_by str_lt
    join decimal string_eq nat_eq bool_eq option_eq list_eq pair_eq plan_cell canonical_run_key
    validate_cap_provenance validate_release_inputs open_cells is_distinct applicable_keys
    check_bundle validate_publication redaction_status_eq disclosure_level_eq license_status_eq
    measured_refs flat_map validate_metrics check_attributions lacks_provider_attribution
    lacks_infra_attribution ensure_provider_side_attribution cell_state_eq failure_attribution_eq
    access_path_type_eq expand_cells applicability_reason run_mode_eq
assembly_returns = refl

keys_differ : Distinct (run_keys plan.cells)
keys_differ =
    (compile_suite-Compiles any_source fingerprint documents compiled
      documents_compile).run_keys_differ

assemble_public_terminal_release_sound_example : Assembles codec accepts assembly artifacts
assemble_public_terminal_release_sound_example =
    assemble_public_terminal_release_sound codec accepts assembly digests artifacts keys_differ
      assembly_returns

same_input : Value → Value → Bool
same_input v w = v == w
