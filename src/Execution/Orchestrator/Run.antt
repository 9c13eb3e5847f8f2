-- ===== src/Execution/Orchestrator/Run.antt =====
-- The guarantees of `RunOrchestrator.run` as a whole.
use qveris_capability_benchm.Prelude.{
  String, ◌≡◌, refl, sym, ◌∙◌, ap, subst, some, [], contains, string_eq, arith, Bool-cases, inl,
  inr, All, Distinct, Result-cases, ok, err,
}
use qveris_capability_benchm.Prelude.Dict.{lookup, keys}
use qveris_capability_benchm.Models.Enums.{
  CellState, planned, running, infra_blocked, cell_state_eq,
}
use qveris_capability_benchm.Models.Run.{RunPlan}
use qveris_capability_benchm.Execution.State.Relation.{IsFinal}
use qveris_capability_benchm.Execution.Retry.{Failure}
use qveris_capability_benchm.Execution.Store.{States, read, keys_with}
use qveris_capability_benchm.Execution.Orchestrator.{
  Settings, System, Outcome, current_state, run_cells, recover, save_recovered, run_from, run,
}
use qveris_capability_benchm.Execution.Orchestrator.Keeps.{IsSettled, NeverRunning}
use qveris_capability_benchm.Execution.Orchestrator.Recovery.{keys_with-lookup}
use qveris_capability_benchm.Execution.Orchestrator.Loop.{
  Synced, run_cells-Synced, run_cells_settle, run_from-returned, recover-NoRunning, recover-Synced,
  run_from-Holds, OnDisk, run_from-OnDisk,
}
use qveris_capability_benchm.Execution.Orchestrator.Settled.{IsFresh}

-- The states that a run starts from.
abbrev pub StartsFrom : {W : Type 0} → RunPlan → System W → States → Type 0
StartsFrom plan sys states = read plan.suite_fingerprint sys.disk ≡ ok states

module _ {W : Type 0} (settings : Settings W) where
  run-start :
      (plan : RunPlan) (sys : System W) (states : States)
      → StartsFrom plan sys states
      → run settings plan sys ≡ run_from settings plan.suite_fingerprint plan.cells states sys
  unfolding run
  run-start plan sys states h = rw (h, run)

  run-refused :
      (plan : RunPlan) (sys : System W) (f : Failure)
      → read plan.suite_fingerprint sys.disk ≡ err f
      → run settings plan sys ≡ (err f, [], sys)
  unfolding run
  run-refused plan sys f h = rw (h, run)

  run-keeps_final_dict :
      (plan : RunPlan) (sys : System W) (states : States) (k : String) (s : CellState)
      → StartsFrom plan sys states
      → Distinct (keys states)
      → lookup k states ≡ some s
      → IsFinal s
      → lookup k (run settings plan sys).1 ≡ some s
  run-keeps_final_dict plan sys states k s start u h f = rw (run-start plan sys states start) (
      run_from-Holds settings plan.suite_fingerprint k s plan.cells states sys f
        (elim (Bool-cases (contains (keys_with running states) k)) [
          | inl stale ↦
              let r = keys_with-lookup running k states u stale in
              absurd (final_running s f (ground arith))
          | inr fresh ↦ fresh
        ])
        h)
    where
      final_running : (s : CellState) → IsFinal s → s ≡ running → ⊥
      final_running running f e = f
      final_running planned f e = f
      final_running infra_blocked f e = f
      final_running _ f e = cc

  -- A run never changes a cell that is COMPLETED, PROVIDER_NEGATIVE, EXCLUDED or NOT_APPLICABLE in
  -- the states on disk: on every exit, whether the run returns or raises, the dict holds its state
  -- and a fresh read of the state file succeeds and finds it. The keys on disk differ, as in every
  -- dict.
  pub run-keeps_final :
      (plan : RunPlan) (sys : System W) (states : States) (k : String) (s : CellState)
      → StartsFrom plan sys states
      → Distinct (keys states)
      → lookup k states ≡ some s
      → IsFinal s
      → (lookup k (run settings plan sys).1 ≡ some s)
        × OnDisk settings plan.suite_fingerprint k s (run settings plan sys).2
  run-keeps_final plan sys states k s start u h f =
      let kept = run-keeps_final_dict plan sys states k s start u h f in
      (
        kept,
        subst (λ (o : Outcome W). OnDisk settings plan.suite_fingerprint k s o.2)
            (sym (run-start plan sys states start))
            (run_from-OnDisk settings plan.suite_fingerprint k s plan.cells states sys start h (
              sym (ap (λ (o : Outcome W). lookup k o.1) (run-start plan sys states start)) ∙ kept)),
      )

  run-returned :
      (plan : RunPlan) (sys : System W)
      → (run settings plan sys).0 ≡ ok tt
      → (states : States) × StartsFrom plan sys states
        × ((run_from settings plan.suite_fingerprint plan.cells states sys).0 ≡ ok tt)
  run-returned plan sys e = elim (Result-cases (read plan.suite_fingerprint sys.disk)) [
    | inl (states, h) ↦
        (states, h, sym (ap (λ (o : Outcome W). o.0) (run-start plan sys states h)) ∙ e)
    | inr (f, h) ↦ absurd (cc (ap (λ (o : Outcome W). o.0) (run-refused plan sys f h)))
  ]

  -- Behind a run that returns, every cell of the plan is in a state that is neither PLANNED nor
  -- RUNNING, if the executor reports RUNNING for no cell and the plan's cells were PLANNED or
  -- NOT_APPLICABLE.
  pub run-settles :
      (plan : RunPlan) (sys : System W)
      → NeverRunning settings
      → All IsFresh plan.cells
      → (run settings plan sys).0 ≡ ok tt
      → All (λ c. IsSettled (current_state (run settings plan sys).1 c)) plan.cells
  run-settles plan sys never fresh e =
      let (states, start, e₁) = run-returned plan sys e in
      let p = plan.suite_fingerprint in
      let stale = keys_with running states in
      let o = recover settings p stale states sys in
      let (e₂, same) = run_from-returned settings p plan.cells states sys e₁ in
      let y = save_recovered settings p stale o.1 o.2 in
      let ends : (run_cells settings p plan.cells o.1 y).0 ≡ ok tt =
        sym (ap (λ (q : Outcome W). q.0) same) ∙ e₁ in
      subst (λ (q : Outcome W). All (λ c. IsSettled (current_state q.1 c)) plan.cells)
        (sym (run-start plan sys states start ∙ same))
        (run_cells_settle settings p plan.cells o.1 y never fresh
          (recover-NoRunning settings p states sys e₂) ends)

  -- Behind a run that returns, the state file holds what the returned dict holds: a fresh read of it
  -- for the plan's fingerprint succeeds and finds the same state at every key.
  pub run-durable :
      (plan : RunPlan) (sys : System W)
      → (run settings plan sys).0 ≡ ok tt
      → (d : States) × (read plan.suite_fingerprint (run settings plan sys).2.disk ≡ ok d)
        × ((j : String) → lookup j d ≡ lookup j (run settings plan sys).1)
  run-durable plan sys e =
      let (states, start, e₁) = run-returned plan sys e in
      let p = plan.suite_fingerprint in
      let stale = keys_with running states in
      let o = recover settings p stale states sys in
      let (e₂, same) = run_from-returned settings p plan.cells states sys e₁ in
      let y = save_recovered settings p stale o.1 o.2 in
      subst (λ (q : Outcome W). Synced settings p q.1 q.2)
        (sym (run-start plan sys states start ∙ same))
        (run_cells-Synced settings p plan.cells o.1 y
          (recover-Synced settings p stale states sys (states, start, λ j. refl)))
