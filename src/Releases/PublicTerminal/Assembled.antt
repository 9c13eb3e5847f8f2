-- ===== src/Releases/PublicTerminal/Assembled.antt =====
-- What `assemble_public_terminal_release` returns.
use qveris_capability_benchm.Prelude.{
  String, ◌≡◌, refl, inl, inr, true, false, not, List, [], map, string_eq, same_set, Distinct,
  Result, ok, raise_if, rethrow, >>=-eq-ok, >>-eq-ok, rethrow-eq-ok, ok-injective, All,
}
use mathlib.Core.List.{Memᴰ}
use qveris_capability_benchm.Prelude.Dict.{Dict, lookup, keys, index_on}
use qveris_capability_benchm.Prelude.Index.{index_on-indexed}
use qveris_capability_benchm.Prelude.Sort.{str_lt}
use qveris_capability_benchm.Prelude.Sorted.{Memᴰ-sort_by}
use qveris_capability_benchm.Models.Evidence.{EvidenceBundle}
use qveris_capability_benchm.Models.Release.{validate_cap_provenance}
use qveris_capability_benchm.Models.Run.{RunCell}
use qveris_capability_benchm.Models.Suite.{BenchmarkCase}
use qveris_capability_benchm.Models.Value.{Value}
use qveris_capability_benchm.Execution.DirectBinding.{DirectBinding}
use qveris_capability_benchm.Releases.Builder.{by_run_key, by_evidence_id, build_release}
use qveris_capability_benchm.Releases.Gate.{validate_release_inputs}
use qveris_capability_benchm.Releases.Gate.Sound.{
  IsBacked, IsAttributed, validate_release_inputs_sound,
}
use qveris_capability_benchm.Releases.Metrics.{Digests}
use qveris_capability_benchm.Suites.Matrix.{run_keys}
use qveris_capability_benchm.Releases.PublicTerminal.{
  load_terminals, released, bundle_of, release_cells, release_of, artifacts_of, applicable_run_keys,
  assemble_public_terminal_release,
}
use qveris_capability_benchm.Releases.Terminal.{
  Loaded, Codec, Assembly, ValidatedTerminalOutcome, PublicTerminalReleaseArtifacts,
  terminals_mismatch, release_error, gate_error,
}
use qveris_capability_benchm.Releases.PublicTerminal.Cells.{
  Zipped, Zipped-Memᴰ, ReadFrom, load_terminals-ReadFrom, Validated,
}
use qveris_capability_benchm.Releases.PublicTerminal.Released.{
  key_of_cell, map-run_keys, Backed, IsReleased, release_cells-Zipped,
}

module _ (codec : Codec)
    (outcome_validator : BenchmarkCase
      → DirectBinding
      → Value
      → Result String ValidatedTerminalOutcome)
    (assembly : Assembly) where
  -- The stages of an assembly that returns.
  pub record Stages (digests : Digests) (artifacts : PublicTerminalReleaseArtifacts) : Type 0 where
    pub terminals : Dict String Loaded
    pub loaded : load_terminals codec [] assembly.terminal_paths ≡ ok terminals
    pub cells : List RunCell
    pub evidence : List EvidenceBundle
    pub outcome_ids : List String
    pub made :
        release_cells codec outcome_validator assembly terminals
          (index_on key_of_cell [] assembly.compiled.run_plan.cells)
        ≡ ok (cells, evidence, outcome_ids)
    pub plan : artifacts.run_plan ≡ assembly.compiled.run_plan
    pub ordered_cells : artifacts.cells ≡ by_run_key cells
    pub ordered_evidence : artifacts.evidence ≡ by_evidence_id evidence
    pub release :
        artifacts.release ≡ release_of codec outcome_validator assembly evidence outcome_ids
    pub built :
        build_release digests codec.canonical_release_bytes artifacts.release artifacts.cells
          artifacts.evidence true []
        ≡ ok artifacts.release_bytes

  pub assemble-Stages :
      (digests : Digests) (artifacts : PublicTerminalReleaseArtifacts)
      → assemble_public_terminal_release codec outcome_validator assembly digests ≡ ok artifacts
      → Stages digests artifacts
  unfolding assemble_public_terminal_release artifacts_of
  assemble-Stages digests artifacts h =
      let planned = index_on key_of_cell [] assembly.compiled.run_plan.cells in
      let (terminals, l, h1) = >>=-eq-ok (load_terminals codec [] assembly.terminal_paths) _ h in
      let (m, h2) =
        >>-eq-ok
          (raise_if (not (same_set (keys terminals) (applicable_run_keys planned)))
            terminals_mismatch)
          _ h1 in
      let (made, c, h3) =
        >>=-eq-ok (release_cells codec outcome_validator assembly terminals planned) _ h2 in
      let release = release_of codec outcome_validator assembly made.1 made.2 in
      let (p, h4) = >>-eq-ok (rethrow release_error (validate_cap_provenance release)) _ h3 in
      let (bytes, b, h5) =
        >>=-eq-ok
          (rethrow gate_error (
            build_release digests codec.canonical_release_bytes release (by_run_key made.0)
              (by_evidence_id made.1) true []))
          _ h4 in
      rw (ok-injective h5) record {
        terminals = terminals;
        loaded = l;
        cells = made.0;
        evidence = made.1;
        outcome_ids = made.2;
        made = c;
        plan = refl;
        ordered_cells = refl;
        ordered_evidence = refl;
        release = refl;
        built = rethrow-eq-ok gate_error _ b;
      }

  -- A terminal in the files that is validated for its cell; the artifacts have the cell with what
  -- the terminal says, and its evidence.
  pub record FromTerminal (p : RunCell) (artifacts : PublicTerminalReleaseArtifacts) : Type 0 where
    pub loaded : Loaded
    pub read : ReadFrom codec assembly.terminal_paths loaded
    pub key : loaded.terminal.run_key ≡ p.run_key
    pub validated : Validated codec outcome_validator assembly loaded p
    pub cell : Memᴰ (released loaded.terminal p) artifacts.cells
    pub bundle :
        Memᴰ (bundle_of codec outcome_validator assembly p.run_key loaded p) artifacts.evidence

  pub record Assembles (artifacts : PublicTerminalReleaseArtifacts) : Type 0 where
    pub inapplicable :
        (p : RunCell)
        → Memᴰ p assembly.compiled.run_plan.cells
        → p.applicable ≡ false
        → Memᴰ p artifacts.cells
    pub applicable :
        (p : RunCell)
        → Memᴰ p assembly.compiled.run_plan.cells
        → p.applicable ≡ true
        → FromTerminal p artifacts
    pub backed : IsBacked artifacts.release artifacts.cells artifacts.evidence
    pub attributed : All IsAttributed artifacts.cells

  pub Stages-Zipped :
      (digests : Digests) (artifacts : PublicTerminalReleaseArtifacts)
      → Distinct (run_keys assembly.compiled.run_plan.cells)
      → (s : Stages digests artifacts)
      → Zipped
          (IsReleased codec outcome_validator assembly s.terminals s.evidence)
          assembly.compiled.run_plan.cells
          s.cells
  Stages-Zipped digests artifacts u s =
      let cells = assembly.compiled.run_plan.cells in
      let distinct : Distinct (map key_of_cell cells) = rw (map-run_keys cells) u in
      release_cells-Zipped codec outcome_validator assembly s.terminals cells s.evidence
        (rw (index_on-indexed key_of_cell cells distinct) at (s.made)) (λ b m. m)

  terminal-FromTerminal :
      (digests : Digests) (artifacts : PublicTerminalReleaseArtifacts)
      (s : Stages digests artifacts) (p c : RunCell)
      → Memᴰ c s.cells
      → Backed codec outcome_validator assembly s.terminals s.evidence p c
      → FromTerminal p artifacts
  unfolding by_run_key by_evidence_id lookup
  terminal-FromTerminal digests artifacts s p c m b =
      let (read, key) : ReadFrom codec assembly.terminal_paths b.loaded
          × (b.loaded.terminal.run_key ≡ p.run_key) =
        elim (load_terminals-ReadFrom codec [] assembly.terminal_paths p.run_key b.loaded s.loaded
          b.found) [ inl r ↦ r | inr g ↦ absurd (cc) ] in
      record {
        loaded = b.loaded;
        read = read;
        key = key;
        validated = b.validated;
        cell =
            rw s.ordered_cells
              (Memᴰ-sort_by (λ p q. str_lt p.run_key q.run_key) s.cells (rw b.cell at m));
        bundle =
            rw s.ordered_evidence
              (Memᴰ-sort_by (λ p q. str_lt p.evidence_id q.evidence_id) s.evidence b.bundle);
      }

  -- If the planned run keys differ and the assembly returns, then every planned cell that is not
  -- applicable is in the release as planned; every applicable one is there with the state and the
  -- attribution of a terminal that one of the files holds under its run key, together with the
  -- evidence of that terminal, whose identity is the cell's, whose outcome is the one that the
  -- validator computes from its facts for the cell's case, and whose digests are the expected ones.
  -- The evidence backs the release, and its failures are attributed.
  pub assemble_public_terminal_release_sound :
      (digests : Digests) (artifacts : PublicTerminalReleaseArtifacts)
      → Distinct (run_keys assembly.compiled.run_plan.cells)
      → assemble_public_terminal_release codec outcome_validator assembly digests ≡ ok artifacts
      → Assembles artifacts
  unfolding build_release by_run_key
  assemble_public_terminal_release_sound digests artifacts u h =
      let s = assemble-Stages digests artifacts h in
      let z = Stages-Zipped digests artifacts u s in
      let (gate, bytes) =
        >>-eq-ok
          (validate_release_inputs digests artifacts.release artifacts.cells artifacts.evidence true
            [])
          _ s.built in
      let (backed, attributed) =
        validate_release_inputs_sound digests artifacts.release artifacts.cells artifacts.evidence
          [] gate in
      record {
        inapplicable = λ p m f.
            let (c, n, r) = Zipped-Memᴰ _ assembly.compiled.run_plan.cells s.cells z m in
            elim r [
              | inl (g, same) ↦
                  rw s.ordered_cells
                    (Memᴰ-sort_by (λ p q. str_lt p.run_key q.run_key) s.cells (rw same at n))
              | inr (t, b) ↦ absurd (cc)
            ];
        applicable = λ p m t.
            let (c, n, r) = Zipped-Memᴰ _ assembly.compiled.run_plan.cells s.cells z m in
            elim r [
              | inl (g, same) ↦ absurd (cc)
              | inr (u, b) ↦ terminal-FromTerminal digests artifacts s p c n b
            ];
        backed = backed;
        attributed = attributed;
      }
