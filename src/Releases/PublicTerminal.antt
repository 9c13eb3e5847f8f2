-- ===== src/Releases/PublicTerminal.antt =====
-- src/qveris_bench/releases/public_terminal.py: a release from the public terminals of a run. The
-- JSON codec, the hash and the validator of outcomes, which each CAP brings, are parameters.
pub mod Cells
pub mod Released
pub mod Assembled
mod Tests
use qveris_capability_benchm.Prelude.{
  ℕ, String, Bool, true, false, not, ◌&&◌, ◌||◌, Option, none, some, List, [], ◌∷◌, ◌++◌, map, ◌==◌,
  contains, select, string_eq, option_eq, list_eq, pair_eq, same_set, if◌then◌else◌, Result, ok,
  err, ◌>>=◌, ◌>>◌, raise_if, rethrow, require,
}
use qveris_capability_benchm.Prelude.Dict.{Dict, lookup, insert, keys, index_on}
use qveris_capability_benchm.Prelude.Sort.{sort_by, str_lt}
use qveris_capability_benchm.Prelude.Text.{join, decimal}
use qveris_capability_benchm.Models.Enums.{
  AccessPathType, CellState, planned, running, completed, provider_negative, infra_blocked,
  not_applicable, excluded, DisclosureLevel, FailureAttribution, LicenseStatus, RedactionStatus,
  access_path_type_eq, cell_state_eq, failure_attribution_eq,
}
use qveris_capability_benchm.Models.Evidence.{EvidenceBundle}
use qveris_capability_benchm.Models.Release.{
  BenchmarkRelease, ReleaseError, validate_cap_provenance,
}
use qveris_capability_benchm.Models.Run.{RunCell, RunPlan}
use qveris_capability_benchm.Models.Suite.{BenchmarkCase}
use qveris_capability_benchm.Models.Value.{Value, Float}
use qveris_capability_benchm.Execution.DirectBinding.{DirectBinding}
use qveris_capability_benchm.Releases.Builder.{
  ReleasePayload, by_run_key, by_evidence_id, build_release,
}
use qveris_capability_benchm.Releases.Gate.{ReleaseGateError, evidence_ids}
use qveris_capability_benchm.Releases.Metrics.{Digests}
use qveris_capability_benchm.Suites.Compiler.{CompiledSuite}
use qveris_capability_benchm.Releases.Terminal.{
  Assembly, Codec, Loaded, PublicManifest, PublicTerminal, PublicTerminalReleaseArtifacts,
  PublicTerminalReleaseError, TerminalFile, ValidatedTerminalOutcome, artifact_provenance_mismatch,
  binding_registry_digest_mismatch, cell_identity_mismatch, duplicate_terminal_run_key,
  filename_mismatch, gate_error, github_provenance_mismatch, invalid_public_terminal, key_error,
  outcome_mismatch, release_error, suite_fingerprint_mismatch, terminals_mismatch, unknown_binding,
  validator_error,
}

-- `state.value.replace('_', '-')`
abbrev pub dashed_value : CellState → String
dashed_value planned = "planned"
dashed_value running = "running"
dashed_value completed = "completed"
dashed_value provider_negative = "provider-negative"
dashed_value infra_blocked = "infra-blocked"
dashed_value not_applicable = "not-applicable"
dashed_value excluded = "excluded"

-- `d[k]`
abbrev pub get_item {ℓ} :
    {V : Type ℓ} → Dict String V → String → Result PublicTerminalReleaseError V
get_item d k = require (key_error k) (lookup k d)

module _ (codec : Codec) where
  -- `PublicTerminal.model_validate_json(path.read_bytes())`
  read_terminal : TerminalFile → Result PublicTerminalReleaseError Loaded
  read_terminal path = do
    bytes ← require (invalid_public_terminal path.stem) path.bytes
    terminal ← require (invalid_public_terminal path.stem) (codec.model_validate_json bytes)
    ok (record { terminal = terminal; stem = path.stem; bytes = bytes })

  -- The loop over the paths
  unfoldable pub load_terminals :
      Dict String Loaded
      → List TerminalFile
      → Result PublicTerminalReleaseError (Dict String Loaded)
  unfolding read_terminal
  load_terminals terminals [] = ok terminals
  load_terminals terminals (path ∷ paths) = do
    loaded ← read_terminal path
    raise_if (contains (keys terminals) loaded.terminal.run_key) duplicate_terminal_run_key
    load_terminals (insert loaded.terminal.run_key loaded terminals) paths

abbrev pub identity_differs : PublicTerminal → DirectBinding → RunCell → Bool
identity_differs terminal binding cell =
    not (terminal.provider_id == cell.provider_id)
    || not (terminal.access_path_id == cell.access_path_id)
    || not (binding.case_id == cell.case_id)
    || not (binding.provider_id == cell.provider_id)
    || not (binding.access_path_id == cell.access_path_id)
    || not (binding.transport == terminal.transport)

abbrev pub outcome_differs : PublicTerminal → ValidatedTerminalOutcome → Bool
outcome_differs terminal expected =
    not (terminal.state == expected.state)
    || not (terminal.unmet_conditions == expected.unmet_conditions)
    || not (terminal.failure_attribution == expected.failure_attribution)

-- `f"{terminal.binding_id}-round-{planned_cell.round}"`
abbrev pub evidence_id_of : PublicTerminal → RunCell → String
evidence_id_of terminal cell = join "-round-" (terminal.binding_id ∷ decimal cell.round ∷ [])

-- The planned cell with what the terminal says
abbrev pub released : PublicTerminal → RunCell → RunCell
released terminal cell = record cell {
  state = terminal.state;
  failure_attribution = terminal.failure_attribution;
}

-- The keys of the planned cells that are applicable
abbrev pub applicable_run_keys : Dict String RunCell → List String
applicable_run_keys [] = []
applicable_run_keys ((key, cell) ∷ items) =
    let rest = applicable_run_keys items in if cell.applicable then key ∷ rest else rest

module _ (codec : Codec)
    (outcome_validator : BenchmarkCase
      → DirectBinding
      → Value
      → Result String ValidatedTerminalOutcome)
    (assembly : Assembly) where
  abbrev pub bundle_of : String → Loaded → RunCell → EvidenceBundle
  bundle_of run_key loaded cell =
      let terminal = loaded.terminal in
      record {
        evidence_id = evidence_id_of terminal cell;
        run_key = run_key;
        raw_digest = terminal.raw_digest;
        public_digest = some (codec.sha256_digest loaded.bytes);
        redaction_status = terminal.redaction_status;
        disclosure_level = terminal.disclosure_level;
        license_status = terminal.license_status;
        extractor_version = terminal.extractor_version;
        suite_fingerprint = terminal.suite_fingerprint;
        latency_ms = terminal.latency_ms;
        cost_credits = terminal.cost_credits;
      }

  -- The checks of the terminal's outcome and provenance
  check_outcome : Loaded → DirectBinding → RunCell → Result PublicTerminalReleaseError (Unit {0})
  check_outcome loaded binding cell = do
    let terminal = loaded.terminal
    case ←
        get_item (index_on (λ (c : BenchmarkCase). c.case_id) [] assembly.compiled.cases)
          cell.case_id
    expected ← rethrow validator_error (outcome_validator case binding terminal.facts)
    raise_if (outcome_differs terminal expected) outcome_mismatch
    raise_if
        (not (terminal.github_run_id == assembly.expected_github_run_id)
          || not (terminal.github_sha == assembly.expected_github_sha))
        github_provenance_mismatch
    raise_if
        (not (
          lookup (evidence_id_of terminal cell) assembly.expected_provenance
          == some (codec.sha256_digest loaded.bytes, terminal.raw_digest)))
        artifact_provenance_mismatch

  -- The checks of a terminal against its planned cell
  check_bound : Loaded → RunCell → DirectBinding → Result PublicTerminalReleaseError (Unit {0})
  unfolding check_outcome
  check_bound loaded cell binding = do
    let terminal = loaded.terminal
    raise_if (not (terminal.binding_registry_digest == assembly.binding_registry_digest))
        binding_registry_digest_mismatch
    raise_if (not (terminal.suite_fingerprint == assembly.compiled.fingerprint))
        suite_fingerprint_mismatch
    raise_if (identity_differs terminal binding cell) cell_identity_mismatch
    raise_if (not (loaded.stem == evidence_id_of terminal cell)) filename_mismatch
    check_outcome loaded binding cell

  unfoldable pub check_terminal : Loaded → RunCell → Result PublicTerminalReleaseError (Unit {0})
  unfolding check_bound
  check_terminal loaded cell = do
    binding ← require unknown_binding (
        lookup loaded.terminal.binding_id
          (index_on (λ (b : DirectBinding). b.binding_id) [] assembly.binding_registry))
    check_bound loaded cell binding

  -- One round of the loop over the planned cells: the cell, its evidence and its outcome id
  abbrev pub Made : Type 0
  Made = RunCell × List EvidenceBundle × List String

  unfoldable pub release_cell :
      Dict String Loaded → String → RunCell → Result PublicTerminalReleaseError Made
  unfolding check_terminal
  release_cell terminals run_key cell =
      let made = (do
        loaded ← get_item terminals run_key
        check_terminal loaded cell
        let bundle = bundle_of run_key loaded cell
        ok (
          released loaded.terminal cell,
          bundle ∷ [],
          join "-" (bundle.evidence_id ∷ dashed_value loaded.terminal.state ∷ []) ∷ [],
        )) in
      if not cell.applicable then ok (cell, [], []) else made

  unfoldable pub release_cells :
      Dict String Loaded
      → Dict String RunCell
      → Result PublicTerminalReleaseError (List RunCell × List EvidenceBundle × List String)
  release_cells terminals [] = ok ([], [], [])
  release_cells terminals ((run_key, cell) ∷ items) = do
    made ← release_cell terminals run_key cell
    rest ← release_cells terminals items
    ok (made.0 ∷ rest.0, made.1 ++ rest.1, made.2 ++ rest.2)

  abbrev pub manifest_of : List EvidenceBundle → PublicManifest
  manifest_of evidence = record {
    github_run_id = assembly.expected_github_run_id;
    github_sha = assembly.expected_github_sha;
    github_artifacts_manifest_digest = codec.sha256_digest assembly.github_artifacts_manifest_bytes;
    binding_registry_digest = assembly.binding_registry_digest;
    evidence =
        map
          (λ (item : EvidenceBundle). record {
            evidence_id = item.evidence_id;
            run_key = item.run_key;
            path =
                join "" ("evidence/" ∷ assembly.release_id ∷ "/" ∷ item.evidence_id ∷ ".json" ∷ []);
            public_digest = item.public_digest;
            raw_digest = item.raw_digest;
          })
          (by_evidence_id evidence);
  }

  unfoldable pub release_of : List EvidenceBundle → List String → BenchmarkRelease
  release_of evidence outcome_ids = record {
    release_id = assembly.release_id;
    version = assembly.version;
    suite_fingerprint = assembly.compiled.fingerprint;
    run_plan_digest = codec.sha256_digest (codec.run_plan_bytes assembly.compiled.run_plan);
    public_evidence_manifest_digest =
        some (codec.sha256_digest (codec.manifest_bytes (manifest_of evidence)));
    github_artifacts_manifest_digest =
        some (codec.sha256_digest assembly.github_artifacts_manifest_bytes);
    evidence_ids = sort_by str_lt (evidence_ids evidence);
    outcome_ids = sort_by str_lt outcome_ids;
    cap_id = assembly.compiled.run_plan.cap_id;
    cap_version = assembly.compiled.run_plan.cap_version;
    cap_sources = assembly.compiled.run_plan.cap_sources;
    metric_definitions = [];
    developer_selection_facts = [];
    provider_feedback_facts = [];
    limitations = assembly.limitations;
  }

  -- The part behind the loop: the release, and the artifacts around it
  unfoldable pub artifacts_of :
      Digests
      → List RunCell
      → List EvidenceBundle
      → List String
      → Result PublicTerminalReleaseError PublicTerminalReleaseArtifacts
  unfolding release_of
  artifacts_of digests cells evidence outcome_ids = do
    let release = release_of evidence outcome_ids
    rethrow release_error (validate_cap_provenance release)
    let ordered_cells = by_run_key cells
    let ordered_evidence = by_evidence_id evidence
    release_bytes ← rethrow gate_error (
        build_release digests codec.canonical_release_bytes release ordered_cells ordered_evidence
          true [])
    ok record {
      run_plan = assembly.compiled.run_plan;
      cells = ordered_cells;
      evidence = ordered_evidence;
      release = release;
      release_bytes = release_bytes;
      public_evidence_manifest_bytes = codec.manifest_bytes (manifest_of evidence);
      binding_registry_bytes = assembly.binding_registry_bytes;
    }

  unfoldable pub assemble_public_terminal_release :
      Digests → Result PublicTerminalReleaseError PublicTerminalReleaseArtifacts
  unfolding release_cells artifacts_of
  assemble_public_terminal_release digests = do
    let planned = index_on (λ (cell : RunCell). cell.run_key) [] assembly.compiled.run_plan.cells
    terminals ← load_terminals codec [] assembly.terminal_paths
    raise_if (not (same_set (keys terminals) (applicable_run_keys planned))) terminals_mismatch
    made ← release_cells terminals planned
    artifacts_of digests made.0 made.1 made.2
