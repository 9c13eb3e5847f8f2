-- ===== src/Suites/Compiler/Compiled.antt =====
-- `compile_suite` as a whole: what a compiled suite holds.
use qveris_capability_benchm.Prelude.{
  rethrow-eq-ok, ok-injective, ◌*◌, String, ◌≡◌, refl, ap, subst, not, ◌||◌, List, arith, string_eq,
  length, All, All-map, Distinct, Result, ok, >>-eq-ok, >>=-eq-ok, raise_if, rethrow, for_each,
  for_each-All, ◌==◌,
}
use qveris_capability_benchm.Models.Provider.{AccessPath}
use qveris_capability_benchm.Models.Run.{RunPlan, SourceReference}
use qveris_capability_benchm.Models.Suite.{BenchmarkCase}
use qveris_capability_benchm.Providers.Registry.{ProviderRegistryEntry, path_ids, cohort_check}
use qveris_capability_benchm.Suites.Documents.{
  ProviderBinding, ids_of, load_cases, load_provider_bindings, validate_provider_bindings,
  validate_outcome_rules, validate_outcome_rules_iff, Follows,
}
use qveris_capability_benchm.Suites.Matrix.{run_keys, expand_run_plan}
use qveris_capability_benchm.Suites.Matrix.Plan.{expand_run_plan_complete, expand_run_plan_iff}
use qveris_capability_benchm.Suites.Compiler.{
  CompiledSuite, Documents, Snapshot, authorized_ids, compile_suite, compile_paths, compile_plan,
  snapshot_of, compiled_of,
}
use qveris_capability_benchm.Suites.Resolution.{
  CompilationError, cap_mismatch, harbor, loader, binding, rules, registry, matrix, resolve_cases,
  resolve_access_paths,
}
use qveris_capability_benchm.Suites.Resolution.Sound.{
  Usable, resolve_cases_sound, resolve_access_paths_sound,
}

load_provider_bindings-same :
    (bindings loaded : List ProviderBinding)
    → load_provider_bindings bindings ≡ ok loaded
    → loaded ≡ bindings
unfolding load_provider_bindings
load_provider_bindings-same bindings loaded h = ground arith

cap_checked : Documents → Result CompilationError (Unit {0})
cap_checked documents =
    raise_if
      (not (documents.cap.cap_id == documents.suite.cap_id)
        || not (documents.cap.version == documents.suite.cap_version))
      cap_mismatch

cap_id-checked :
    (documents : Documents)
    → cap_checked documents ≡ ok tt
    → documents.cap.cap_id ≡ documents.suite.cap_id
unfolding cap_checked
cap_id-checked documents h = ground arith

cap_version-checked :
    (documents : Documents)
    → cap_checked documents ≡ ok tt
    → documents.cap.version ≡ documents.suite.cap_version
unfolding cap_checked
cap_version-checked documents h = ground arith

module _ (validate_harbor_source : SourceReference → Result String (Unit {0}))
    (suite_fingerprint : Snapshot → String) where
  -- What a compiled suite promises of the documents that it comes from.
  pub record Compiles (documents : Documents) (compiled : CompiledSuite) : Type 0 where
    pub cap_id : documents.cap.cap_id ≡ documents.suite.cap_id
    pub cap_version : documents.cap.version ≡ documents.suite.cap_version
    pub sources : All (λ source. validate_harbor_source source ≡ ok tt) documents.cap.sources
    pub case_ids : ids_of compiled.cases ≡ documents.suite.case_ids
    pub case_caps : All (λ c. c.cap_id ≡ documents.suite.cap_id) compiled.cases
    pub conditions : All (Follows documents.outcome_rules) compiled.cases
    pub access_path_ids : path_ids compiled.access_paths ≡ documents.suite.access_path_ids
    pub usable :
        All (Usable documents.suite (authorized_ids documents.bindings)) compiled.access_paths
    pub fingerprint : compiled.fingerprint ≡ suite_fingerprint compiled.snapshot
    pub plan_fingerprint : compiled.run_plan.suite_fingerprint ≡ compiled.fingerprint
    pub expanded :
        expand_run_plan documents.suite compiled.cases compiled.access_paths compiled.fingerprint
          documents.cap.sources
        ≡ ok compiled.run_plan
    pub cells :
        length compiled.run_plan.cells
        ≡ length compiled.cases
          * (length compiled.access_paths * (length documents.suite.modes * documents.suite.rounds))
    pub run_keys_differ : Distinct (run_keys compiled.run_plan.cells)

  module _ (documents : Documents) (cases : List BenchmarkCase) where
    plan-Compiles :
        (bindings : List ProviderBinding) (records : List ProviderRegistryEntry)
        (access_paths : List AccessPath) (compiled : CompiledSuite)
        → compile_plan validate_harbor_source suite_fingerprint documents cases bindings records
            access_paths
          ≡ ok compiled
        → (made : CompiledSuite) × (compiled ≡ made)
          × (made.cases ≡ cases)
          × (made.access_paths ≡ access_paths)
          × (made.fingerprint ≡ suite_fingerprint made.snapshot)
          × (expand_run_plan documents.suite cases access_paths made.fingerprint
                documents.cap.sources
              ≡ ok made.run_plan)
    unfolding compile_plan
    plan-Compiles bindings records access_paths compiled h =
        let fingerprint =
          suite_fingerprint (snapshot_of documents cases access_paths records bindings) in
        let planned =
          expand_run_plan documents.suite cases access_paths fingerprint documents.cap.sources in
        let (plan, p, e) = >>=-eq-ok (rethrow matrix planned) _ h in
        (
          compiled_of documents cases access_paths records bindings fingerprint plan,
          ok-injective e,
          refl,
          refl,
          refl,
          rethrow-eq-ok matrix planned p,
        )

    paths-Compiles :
        (compiled : CompiledSuite)
        → compile_paths validate_harbor_source suite_fingerprint documents cases ≡ ok compiled
        → (bindings : List ProviderBinding) × (records : List ProviderRegistryEntry)
          × (access_paths : List AccessPath) × (load_provider_bindings documents.bindings
              ≡ ok bindings)
          × (validate_outcome_rules documents.outcome_rules cases ≡ ok tt)
          × (resolve_access_paths documents.suite records (authorized_ids bindings)
              ≡ ok access_paths)
          × (compile_plan validate_harbor_source suite_fingerprint documents cases bindings records
                access_paths
              ≡ ok compiled)
    unfolding compile_paths
    paths-Compiles compiled h =
        let loaded = load_provider_bindings documents.bindings in
        let (bindings, b, h1) = >>=-eq-ok (rethrow binding loaded) _ h in
        let ruled = validate_outcome_rules documents.outcome_rules cases in
        let (r, h2) = >>-eq-ok (rethrow rules ruled) _ h1 in
        let (records, c, h3) = >>=-eq-ok (rethrow registry (cohort_check documents.entries)) _ h2 in
        let (access_paths, p, h4) =
          >>=-eq-ok (resolve_access_paths documents.suite records (authorized_ids bindings)) _ h3 in
        let (m, h5) =
          >>-eq-ok (rethrow binding (validate_provider_bindings bindings access_paths)) _ h4 in
        (
          bindings,
          records,
          access_paths,
          rethrow-eq-ok binding loaded b,
          rethrow-eq-ok rules ruled r,
          p,
          h5,
        )

  check : SourceReference → Result CompilationError (Unit {0})
  check source = rethrow harbor (validate_harbor_source source)

  suite-Compiles :
      (documents : Documents) (compiled : CompiledSuite)
      → compile_suite validate_harbor_source suite_fingerprint documents ≡ ok compiled
      → (cap_checked documents ≡ ok tt)
        × (for_each check documents.cap.sources ≡ ok tt)
        × (available : List BenchmarkCase) × (cases : List BenchmarkCase) × (resolve_cases
              documents.suite available
            ≡ ok cases)
        × (compile_paths validate_harbor_source suite_fingerprint documents cases ≡ ok compiled)
  unfolding compile_suite check cap_checked
  suite-Compiles documents compiled h =
      let (caps, h1) = >>-eq-ok (cap_checked documents) _ h in
      let (sources, h2) = >>-eq-ok (for_each check documents.cap.sources) _ h1 in
      let (available, l, h3) = >>=-eq-ok (rethrow loader (load_cases documents.available)) _ h2 in
      let (cases, r, h4) = >>=-eq-ok (resolve_cases documents.suite available) _ h3 in
      (caps, sources, available, cases, r, h4)

  -- If documents compile, the suite's CAP is theirs and its Harbor sources were accepted; the
  -- compiled cases and access paths are the listed ones in order, the cases of the CAP and with the
  -- rules' completion conditions, the access paths usable; the plan carries the snapshot's
  -- fingerprint and has one cell for each case, access path, mode and round, with run keys that
  -- differ from one another.
  pub compile_suite-Compiles :
      (documents : Documents) (compiled : CompiledSuite)
      → compile_suite validate_harbor_source suite_fingerprint documents ≡ ok compiled
      → Compiles documents compiled
  unfolding check
  compile_suite-Compiles documents compiled h =
      let (caps, sources, available, cases, resolved, h1) = suite-Compiles documents compiled h in
      let (bindings, records, access_paths, loaded, ruled, listed, h2) =
        paths-Compiles documents cases compiled h1 in
      let (made, whole, same_cases, same_paths, printed, planned) =
        plan-Compiles documents cases bindings records access_paths compiled h2 in
      let (ids, members, own) = resolve_cases_sound documents.suite available cases resolved in
      let (path_list, registered, usable) =
        resolve_access_paths_sound documents.suite records (authorized_ids bindings) access_paths
          listed in
      let (cells, differ, every) =
        expand_run_plan_complete documents.suite cases access_paths made.fingerprint
          documents.cap.sources made.run_plan planned in
      let (distinct, content) =
        (expand_run_plan_iff documents.suite cases access_paths made.fingerprint
            documents.cap.sources made.run_plan).0
          planned in
      let same = load_provider_bindings-same documents.bindings bindings loaded in
      rw whole record {
        cap_id = cap_id-checked documents caps;
        cap_version = cap_version-checked documents caps;
        sources =
            All-map (λ source. rethrow-eq-ok harbor (validate_harbor_source source))
              documents.cap.sources (for_each-All check documents.cap.sources sources);
        case_ids = rw same_cases ids;
        case_caps = rw same_cases own;
        conditions =
            rw same_cases ((validate_outcome_rules_iff documents.outcome_rules cases).0.0 ruled);
        access_path_ids = rw same_paths path_list;
        usable = rw same_paths (
            subst (λ bs. All (Usable documents.suite (authorized_ids bs)) access_paths) same
              usable);
        fingerprint = printed;
        plan_fingerprint = ap (λ (p : RunPlan). p.suite_fingerprint) content;
        expanded = rw (same_cases, same_paths) planned;
        cells = rw (same_cases, same_paths) cells;
        run_keys_differ = differ;
      }
