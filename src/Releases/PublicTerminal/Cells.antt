-- ===== src/Releases/PublicTerminal/Cells.antt =====
-- What the loops of `assemble_public_terminal_release` leave behind: the loaded terminals and the
-- released cells.
use qveris_capability_benchm.Prelude.{
  String, ◌≡◌, refl, ap, ◌∙◌, sym, ◌⊎◌, inl, inr, Bool, true, false, not, ◌||◌, some, List, [], ◌∷◌,
  arith, ◌==◌, ==_iff, string_eq, option_eq, list_eq, pair_eq, contains, Bool-cases, Result, ok,
  raise_if, rethrow, >>=-eq-ok, >>-eq-ok, raise_if-eq-ok, rethrow-eq-ok, require, require-eq-ok,
  ok-injective,
}
use mathlib.Core.List.{Memᴰ}
use qveris_capability_benchm.Prelude.Dict.{Dict, lookup, insert, keys, index_on, lookup-insert}
use qveris_capability_benchm.Prelude.Index.{lookup-index_on}
use qveris_capability_benchm.Models.Enums.{
  cell_state_eq, failure_attribution_eq, access_path_type_eq,
}
use qveris_capability_benchm.Models.Run.{RunCell}
use qveris_capability_benchm.Models.Suite.{BenchmarkCase}
use qveris_capability_benchm.Models.Value.{Value}
use qveris_capability_benchm.Execution.DirectBinding.{DirectBinding}
use qveris_capability_benchm.Releases.PublicTerminal.{
  read_terminal, load_terminals, get_item, check_outcome, check_bound, check_terminal,
  evidence_id_of, identity_differs, outcome_differs,
}
use qveris_capability_benchm.Releases.Terminal.{
  TerminalFile, Loaded, Codec, Assembly, ValidatedTerminalOutcome, binding_registry_digest_mismatch,
  suite_fingerprint_mismatch, cell_identity_mismatch, filename_mismatch, validator_error,
  invalid_public_terminal, duplicate_terminal_run_key, outcome_mismatch, unknown_binding,
  github_provenance_mismatch,
}

module _ {A B : Type 0} (R : A → B → Type 0) where
  -- The items of two lists of one length are related one by one.
  abbrev pub Zipped : List A → List B → Type 0
  Zipped [] [] = Unit
  Zipped [] (y ∷ ys) = ⊥
  Zipped (x ∷ xs) [] = ⊥
  Zipped (x ∷ xs) (y ∷ ys) = R x y × Zipped xs ys

  pub Zipped-Memᴰ :
      (xs : List A) (ys : List B) {x : A} → Zipped xs ys → Memᴰ x xs → (y : B) × Memᴰ y ys × R x y
  Zipped-Memᴰ [] ys z m = elim m [ ]
  Zipped-Memᴰ (a ∷ xs) [] z m = absurd z
  Zipped-Memᴰ (a ∷ xs) (b ∷ ys) z (Memᴰ.head e) = (b, Memᴰ.head refl, rw e z.0)
  Zipped-Memᴰ (a ∷ xs) (b ∷ ys) z (Memᴰ.tail m) =
      let (y, n, r) = Zipped-Memᴰ xs ys z.1 m in (y, Memᴰ.tail n, r)

module _ (codec : Codec) where
  -- A loaded terminal is what a path's bytes hold.
  pub record ReadFrom (paths : List TerminalFile) (loaded : Loaded) : Type 0 where
    pub path : TerminalFile
    pub listed : Memᴰ path paths
    pub stem : path.stem ≡ loaded.stem
    pub bytes : path.bytes ≡ some loaded.bytes
    pub parsed : codec.model_validate_json loaded.bytes ≡ some loaded.terminal

  read_terminal-ReadFrom :
      (path : TerminalFile) (paths : List TerminalFile) (loaded : Loaded)
      → read_terminal codec path ≡ ok loaded
      → ReadFrom (path ∷ paths) loaded
  unfolding read_terminal
  read_terminal-ReadFrom path paths loaded h =
      let missing = invalid_public_terminal path.stem in
      let (bytes, f, h1) = >>=-eq-ok (require missing path.bytes) _ h in
      let (terminal, g, h2) = >>=-eq-ok (require missing (codec.model_validate_json bytes)) _ h1 in
      rw (ok-injective h2) record {
        path = path;
        listed = Memᴰ.head refl;
        stem = refl;
        bytes = require-eq-ok missing path.bytes f;
        parsed = require-eq-ok missing (codec.model_validate_json bytes) g;
      }

  later :
      {paths : List TerminalFile} (path : TerminalFile) {loaded : Loaded}
      → ReadFrom paths loaded
      → ReadFrom (path ∷ paths) loaded
  later path r = record {
    path = r.path;
    listed = Memᴰ.tail r.listed;
    stem = r.stem;
    bytes = r.bytes;
    parsed = r.parsed;
  }

  -- A terminal that the loop returns was there before or is read from a path under its own key.
  pub load_terminals-ReadFrom :
      (terminals : Dict String Loaded) (paths : List TerminalFile) {made : Dict String Loaded}
      (k : String) (loaded : Loaded)
      → load_terminals codec terminals paths ≡ ok made
      → lookup k made ≡ some loaded
      → (ReadFrom paths loaded × (loaded.terminal.run_key ≡ k)) ⊎ (lookup k terminals ≡ some loaded)
  unfolding load_terminals
  load_terminals-ReadFrom terminals [] k loaded h f = inr (rw (ok-injective h) at f)
  load_terminals-ReadFrom terminals (path ∷ paths) k loaded h f =
      let (l, read, h1) = >>=-eq-ok (read_terminal codec path) _ h in
      let (new, h2) =
        >>-eq-ok
          (raise_if (contains (keys terminals) l.terminal.run_key) duplicate_terminal_run_key) _
          h1 in
      elim (load_terminals-ReadFrom (insert l.terminal.run_key l terminals) paths k loaded h2 f) [
        | inl (r, j) ↦ inl (later path r, j)
        | inr g ↦ elim (Bool-cases (k == l.terminal.run_key)) [
          | inl t ↦
              (let added = lookup-insert k l.terminal.run_key l terminals in
                let same : loaded ≡ l = ground arith in
                inl (
                  rw same (read_terminal-ReadFrom path paths l read),
                  ap (λ (m : Loaded). m.terminal.run_key) same
                      ∙ sym ((==_iff k l.terminal.run_key).0 t),
                ))
          | inr t ↦ inr (ground (arith, lookup-insert k l.terminal.run_key l terminals))
        ]
      ]

module _ (codec : Codec)
    (outcome_validator : BenchmarkCase
      → DirectBinding
      → Value
      → Result String ValidatedTerminalOutcome)
    (assembly : Assembly) where
  -- What a terminal has passed: it is bound to its cell, and its outcome is the validator's.
  pub record Validated (loaded : Loaded) (cell : RunCell) : Type 0 where
    pub binding : DirectBinding
    pub case : BenchmarkCase
    pub expected : ValidatedTerminalOutcome
    pub bound :
        Memᴰ binding assembly.binding_registry × (binding.binding_id ≡ loaded.terminal.binding_id)
    pub provider :
        (loaded.terminal.provider_id ≡ cell.provider_id) × (binding.provider_id ≡ cell.provider_id)
    pub access_path :
        (loaded.terminal.access_path_id ≡ cell.access_path_id)
        × (binding.access_path_id ≡ cell.access_path_id)
    pub own_case :
        Memᴰ case assembly.compiled.cases
        × (case.case_id ≡ cell.case_id)
        × (binding.case_id ≡ cell.case_id)
    pub judged : outcome_validator case binding loaded.terminal.facts ≡ ok expected
    pub state : loaded.terminal.state ≡ expected.state
    pub unmet : loaded.terminal.unmet_conditions ≡ expected.unmet_conditions
    pub attribution : loaded.terminal.failure_attribution ≡ expected.failure_attribution
    pub fingerprint : loaded.terminal.suite_fingerprint ≡ assembly.compiled.fingerprint
    pub stem : loaded.stem ≡ evidence_id_of loaded.terminal cell
    pub provenance :
        lookup (evidence_id_of loaded.terminal cell) assembly.expected_provenance
        ≡ some (codec.sha256_digest loaded.bytes, loaded.terminal.raw_digest)

  abbrev case_index : Dict String BenchmarkCase
  case_index = index_on (λ (c : BenchmarkCase). c.case_id) [] assembly.compiled.cases

  abbrev binding_index : Dict String DirectBinding
  binding_index = index_on (λ (b : DirectBinding). b.binding_id) [] assembly.binding_registry

  not-true : (b : Bool) → not b ≡ false → b ≡ true
  not-true b h = ground arith

  pub check_terminal-Validated :
      (loaded : Loaded) (cell : RunCell)
      → check_terminal codec outcome_validator assembly loaded cell ≡ ok tt
      → Validated loaded cell
  unfolding check_terminal check_bound check_outcome
  check_terminal-Validated loaded cell h =
      let t = loaded.terminal in
      let (binding, b, h1) =
        >>=-eq-ok (require unknown_binding (lookup t.binding_id binding_index)) _ h in
      let (registry, h2) =
        >>-eq-ok
          (raise_if (not (t.binding_registry_digest == assembly.binding_registry_digest))
            binding_registry_digest_mismatch)
          _ h1 in
      let (print, h3) =
        >>-eq-ok
          (raise_if (not (t.suite_fingerprint == assembly.compiled.fingerprint))
            suite_fingerprint_mismatch)
          _ h2 in
      let (identity, h4) =
        >>-eq-ok (raise_if (identity_differs t binding cell) cell_identity_mismatch) _ h3 in
      let (stem, h5) =
        >>-eq-ok (raise_if (not (loaded.stem == evidence_id_of t cell)) filename_mismatch) _ h4 in
      let (case, c, h6) = >>=-eq-ok (get_item case_index cell.case_id) _ h5 in
      let (expected, o, h7) =
        >>=-eq-ok (rethrow validator_error (outcome_validator case binding t.facts)) _ h6 in
      let (outcome, h8) = >>-eq-ok (raise_if (outcome_differs t expected) outcome_mismatch) _ h7 in
      let (run, h9) =
        >>-eq-ok
          (raise_if
            (not (t.github_run_id == assembly.expected_github_run_id)
              || not (t.github_sha == assembly.expected_github_sha))
            github_provenance_mismatch)
          _ h8 in
      let (own, id_of_case) =
        lookup-index_on (λ (x : BenchmarkCase). x.case_id) assembly.compiled.cases cell.case_id case
          (require-eq-ok _ _ c) in
      let same : identity_differs t binding cell ≡ false = raise_if-eq-ok _ _ identity in
      let agrees : outcome_differs t expected ≡ false = raise_if-eq-ok _ _ outcome in
      record {
        binding = binding;
        case = case;
        expected = expected;
        bound =
            lookup-index_on (λ (x : DirectBinding). x.binding_id) assembly.binding_registry
              t.binding_id binding (require-eq-ok _ _ b);
        provider = (ground arith, ground arith);
        access_path = (ground arith, ground arith);
        own_case = (own, id_of_case, ground arith);
        judged = rethrow-eq-ok validator_error _ o;
        state = ground arith;
        unmet = ground arith;
        attribution = ground arith;
        fingerprint = (==_iff _ _).0 (not-true _ (raise_if-eq-ok _ _ print));
        stem = (==_iff _ _).0 (not-true _ (raise_if-eq-ok _ _ stem));
        provenance = (==_iff _ _).0 (not-true _ (raise_if-eq-ok _ _ h9));
      }
