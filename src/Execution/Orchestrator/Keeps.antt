-- ===== src/Execution/Orchestrator/Keeps.antt =====
-- What one cell's turn leaves in the dict of states and on disk, on every exit.
use qveris_capability_benchm.Prelude.{
  ℕ, zero, suc, String, ◌≡◌, ◌≢◌, refl, true, false, Option, none, some, [], ◌∷◌, ◌==◌, contains,
  string_eq, if◌then◌else◌, arith, Result, ok, err,
}
use qveris_capability_benchm.Prelude.Dict.{lookup, insert, lookup-insert}
use qveris_capability_benchm.Models.Enums.{
  CellState, planned, running, infra_blocked, cell_state_eq, cell_state_value,
}
use qveris_capability_benchm.Models.Value.{Value, dict, field, end, str}
use qveris_capability_benchm.Models.Run.{RunCell}
use qveris_capability_benchm.Execution.State.{transition, message, StateTransitionError}
use qveris_capability_benchm.Execution.Retry.{Failure, exception, base, retry_with_budget}
use qveris_capability_benchm.Execution.Retry.Budget.{Calls, retry_with_budget-Answer}
use qveris_capability_benchm.Execution.Store.{States, write}
use qveris_capability_benchm.Execution.Events.{Log}
use qveris_capability_benchm.Execution.Orchestrator.{
  CellExecutionResult, Settings, System, Outcome, current_state, emit_to, emit, give_up, complete,
  conclude, requested, execute_cell, run_cell,
}

-- A state that a run leaves a cell in.
abbrev pub IsSettled : CellState → Type 0
IsSettled planned = ⊥
IsSettled running = ⊥
IsSettled _ = Unit

-- The executor reports RUNNING for no cell.
abbrev pub NeverRunning : {W : Type 0} → Settings W → Type 0
NeverRunning {W} settings =
    (cell : RunCell) (w : W) (result : CellExecutionResult)
    → (settings.execute cell w).0 ≡ ok result
    → result.state ≢ running

-- The turn of a cell wrote one state at its key and nothing else, saved it, and the state is
-- settled (if the executor reports RUNNING for no cell) unless the run ends here by an exception.
pub record Writes {W : Type 0} (settings : Settings W) (fingerprint key : String) (states : States)
    (o : Outcome W) : Type 0 where
  pub state : CellState
  pub settled : NeverRunning settings → o.0 ≡ ok tt → IsSettled state
  pub at : (j : String) → lookup j o.1 ≡ (if j == key then some state else lookup j states)
  pub saved : o.2.disk ≡ write fingerprint o.1

module _ {W : Type 0} (settings : Settings W) (fingerprint : String) where
  disk-emit_to :
      (log : Option Log) (event_type : String) (details : Value) (sys : System W)
      → (emit_to settings fingerprint log event_type details sys).1.disk ≡ sys.disk
  unfolding emit_to
  disk-emit_to none event_type details sys = refl
  disk-emit_to (some log) event_type details sys = refl

  pub disk-emit :
      (event_type : String) (details : Value) (sys : System W)
      → (emit settings fingerprint event_type details sys).1.disk ≡ sys.disk
  unfolding emit
  disk-emit event_type details sys = disk-emit_to sys.log event_type details sys

  give_up-Writes :
      (cell : RunCell) (f : Failure) (states : States) (sys : System W)
      → Writes settings fingerprint cell.run_key states
          (give_up settings fingerprint cell f states sys)
  unfolding give_up
  give_up-Writes cell (base m) states sys = record {
    state = infra_blocked;
    settled = λ _ _. tt;
    at = λ j. lookup-insert j cell.run_key infra_blocked states;
    saved = refl;
  }
  give_up-Writes cell _ states sys = record {
    state = infra_blocked;
    settled = λ _ _. tt;
    at = λ j. lookup-insert j cell.run_key infra_blocked states;
    saved = disk-emit _ _ _;
  }

  Writes-insert :
      (key : String) (s : CellState) (states : States) {o : Outcome W}
      → Writes settings fingerprint key (insert key s states) o
      → Writes settings fingerprint key states o
  Writes-insert key s states w = record {
    state = w.state;
    settled = w.settled;
    at = λ j. ground (arith, w.at j, lookup-insert j key s states);
    saved = w.saved;
  }

  complete-Writes :
      (cell : RunCell) (s : CellState) (states : States) (sys : System W)
      → (NeverRunning settings → IsSettled s)
      → Writes settings fingerprint cell.run_key states
          (complete settings fingerprint cell s states sys)
  unfolding complete
  complete-Writes cell s states sys h =
      let details : Value =
        dict (field "run_key" (str cell.run_key) (field "state" (str (cell_state_value s)) end)) in
      after (emit settings fingerprint "completion" details sys)
    where
      after :
          (p : Result Failure (Unit {0}) × System W)
          → Writes settings fingerprint cell.run_key states (elim p.0 [
            | ok u ↦ (
              ok tt,
              insert cell.run_key s states,
              record (p.1) { disk = write fingerprint (insert cell.run_key s states) },
            )
            | err f ↦ give_up settings fingerprint cell f (insert cell.run_key s states) p.1
          ])
      after (ok u, sys') = record {
        state = s;
        settled = λ never _. h never;
        at = λ j. lookup-insert j cell.run_key s states;
        saved = refl;
      }
      after (err f, sys') =
          Writes-insert cell.run_key s states
            (give_up-Writes cell f (insert cell.run_key s states) sys')

  transition-IsSettled :
      (target s : CellState) (d : Option String)
      → target ≢ running
      → transition running target d ≡ ok s
      → IsSettled s
  unfolding transition
  transition-IsSettled target s d n h = ground arith

  conclude-Writes :
      (cell : RunCell) (r : Result Failure CellExecutionResult) (states : States) (sys : System W)
      → (NeverRunning settings
          → (result : CellExecutionResult) → r ≡ ok result
          → result.state ≢ running)
      → Writes settings fingerprint cell.run_key states
          (conclude settings fingerprint cell r states sys)
  unfolding conclude
  conclude-Writes cell (err f) states sys n = give_up-Writes cell f states sys
  conclude-Writes cell (ok result) states sys n =
      after (transition running result.state result.evidence_digest) (λ s e never.
        transition-IsSettled result.state s result.evidence_digest (n never result refl) e)
    where
      after :
          (m : Result StateTransitionError CellState)
          → ((s : CellState) → m ≡ ok s → NeverRunning settings → IsSettled s)
          → Writes settings fingerprint cell.run_key states (elim m [
            | ok s ↦ complete settings fingerprint cell s states sys
            | err e ↦ give_up settings fingerprint cell (exception (message e)) states sys
          ])
      after (ok s) h = complete-Writes cell s states sys (h s refl)
      after (err e) h = give_up-Writes cell (exception (message e)) states sys

  Calls-ok :
      (cell : RunCell) {n : ℕ} {w w' : W} {r : Result Failure CellExecutionResult}
      → NeverRunning settings
      → Calls (settings.execute cell) n w r w'
      → (result : CellExecutionResult) → r ≡ ok result
      → result.state ≢ running
  Calls-ok cell never (Calls.last w) result e = never cell w result e
  Calls-ok cell never (Calls.again w f h k c) result e = Calls-ok cell never c result e

  retry-ok :
      (cell : RunCell) (n : ℕ) (w : W) (result : CellExecutionResult)
      → NeverRunning settings
      → (retry_with_budget (settings.execute cell) n w).0 ≡ ok result
      → result.state ≢ running
  unfolding retry_with_budget
  retry-ok cell zero w result never e = absurd (cc)
  retry-ok cell (suc n) w result never e =
      let a = retry_with_budget-Answer (settings.execute cell) (suc n) w (omega arith) in
      Calls-ok cell never a.made result e

  requested-Writes :
      (cell : RunCell) (s : CellState) (states : States) (r : Result Failure (Unit {0}))
      (sys : System W)
      → sys.disk ≡ write fingerprint (insert cell.run_key s states)
      → Writes settings fingerprint cell.run_key states
          (requested settings fingerprint cell (insert cell.run_key s states) r sys)
  unfolding requested
  requested-Writes cell s states (err f) sys d = record {
    state = s;
    settled = λ never e. absurd (cc);
    at = λ j. lookup-insert j cell.run_key s states;
    saved = d;
  }
  requested-Writes cell s states (ok u) sys d = Writes-insert cell.run_key s states (
      conclude-Writes cell _ _ _
        (λ never result e. retry-ok cell settings.retry_attempts sys.outside result never e))

  transition_start :
      (current : CellState)
      → contains (planned ∷ infra_blocked ∷ []) current ≡ true
      → transition current running none ≡ ok running
  unfolding transition
  transition_start current h = ground arith

  execute_cell-Writes :
      (cell : RunCell) (current : CellState) (states : States) (sys : System W)
      → contains (planned ∷ infra_blocked ∷ []) current ≡ true
      → Writes settings fingerprint cell.run_key states
          (execute_cell settings fingerprint cell current states sys)
  unfolding execute_cell
  execute_cell-Writes cell current states sys h =
      rw (transition_start current h, execute_cell)
        (requested-Writes cell running states _ _ (disk-emit _ _ _))

  pub run_cell-Writes :
      (cell : RunCell) (states : States) (sys : System W)
      → contains (planned ∷ infra_blocked ∷ []) (current_state states cell) ≡ true
      → Writes settings fingerprint cell.run_key states
          (run_cell settings fingerprint cell states sys)
  unfolding run_cell
  run_cell-Writes cell states sys h =
      rw h (execute_cell-Writes cell (current_state states cell) states sys h)

  pub run_cell_skip :
      (cell : RunCell) (states : States) (sys : System W)
      → contains (planned ∷ infra_blocked ∷ []) (current_state states cell) ≡ false
      → run_cell settings fingerprint cell states sys ≡ (ok tt, states, sys)
  unfolding run_cell
  run_cell_skip cell states sys h = rw h
