-- ===== src/Execution/Orchestrator.antt =====
-- src/qveris_bench/execution/orchestrator.py: `RunOrchestrator.run`. The executor, the clock and the
-- codecs of the event log are parameters; the state file and the event log are the state.
pub mod Keeps
pub mod Settled
pub mod Recovery
pub mod Loop
pub mod Run
use qveris_capability_benchm.Prelude.{
  ℕ, String, Bool, true, false, not, Option, none, some, List, [], ◌∷◌, ◌==◌, contains, string_eq,
  if◌then◌else◌, Result, ok, err,
}
use qveris_capability_benchm.Prelude.Dict.{Dict, lookup, insert}
use qveris_capability_benchm.Models.Enums.{
  CellState, planned, running, infra_blocked, cell_state_eq, cell_state_value, RunMode,
  run_mode_value,
}
use qveris_capability_benchm.Models.Value.{Value, dict, field, end, str}
use qveris_capability_benchm.Models.Run.{RunCell, RunPlan, ObservationEvent}
use qveris_capability_benchm.Execution.State.{transition, message}
use qveris_capability_benchm.Execution.Retry.{
  Failure, exception, base, transport, text, retry_with_budget,
}
use qveris_capability_benchm.Execution.Store.{States, write, read, keys_with}
use qveris_capability_benchm.Execution.Events.{LogServices, Log, append}

pub record CellExecutionResult : Type 0 where
  pub state : CellState
  pub evidence_digest : Option String

-- What `run` works with: `self._execute`, `self._retry_attempts` and the services of the log.
pub record Settings (W : Type 0) : Type 0 where
  pub execute : RunCell → W → Result Failure CellExecutionResult × W
  pub retry_attempts : ℕ
  pub services : LogServices W

-- The document of the state file, the event log (`none` where there is no log) and the world outside.
pub record System (W : Type 0) : Type 0 where
  pub disk : Option Value
  pub log : Option Log
  pub outside : W

-- `states.get(cell.run_key, cell.state)`
abbrev pub or_else {ℓ} : {A : Type ℓ} → Option A → A → A
or_else none d = d
or_else (some a) d = a

abbrev pub current_state : States → RunCell → CellState
current_state states cell = or_else (lookup cell.run_key states) cell.state

-- What a step leaves: the exception that it raised, if any, the dict `states` and the system.
abbrev pub Outcome : Type 0 → Type 0
Outcome W = Result Failure (Unit {0}) × States × System W

-- The details of a "recovered" event.
abbrev announcement : String → Value
announcement key =
    dict (field "run_key" (str key) (field "state" (str (cell_state_value infra_blocked)) end))

module _ {W : Type 0} (settings : Settings W) (fingerprint : String) where
  abbrev save : States → System W → System W
  save states sys = record sys { disk = write fingerprint states }

  -- `_emit`
  emit_to : Option Log → String → Value → System W → Result Failure (Unit {0}) × System W
  emit_to none event_type details sys = (ok tt, sys)
  emit_to (some log) event_type details sys =
      let (r, log', outside') = append settings.services event_type details log sys.outside in
      let sys' : System W = record sys { log = some log'; outside = outside' } in
      (elim r [ ok event ↦ ok tt | err f ↦ err f ], sys')

  pub emit : String → Value → System W → Result Failure (Unit {0}) × System W
  unfolding emit_to
  emit event_type details sys = emit_to sys.log event_type details sys

  -- The two handlers: an `Exception` ends the cell only, any other exception ends the run.
  give_up : RunCell → Failure → States → System W → Outcome W
  give_up cell (base m) states sys =
      let states' = insert cell.run_key infra_blocked states in
      (err (base m), states', save states' sys)
  give_up cell f states sys =
      let states' = insert cell.run_key infra_blocked states in
      let (r, sys') =
        emit "error" (dict (field "run_key" (str cell.run_key) (field "error" (str (text f)) end)))
          (save states' sys) in
      (r, states', sys')

  -- The end of the `try` body, behind the transition to the state that the executor reported.
  complete : RunCell → CellState → States → System W → Outcome W
  unfolding emit give_up
  complete cell s states sys =
      let states' = insert cell.run_key s states in
      let (r, sys') =
        emit "completion"
          (dict (field "run_key" (str cell.run_key) (field "state" (str (cell_state_value s)) end)))
          sys in
      elim r [ ok u ↦ (ok tt, states', save states' sys') | err f ↦ give_up cell f states' sys' ]

  conclude : RunCell → Result Failure CellExecutionResult → States → System W → Outcome W
  unfolding give_up complete
  conclude cell (err f) states sys = give_up cell f states sys
  conclude cell (ok result) states sys =
      elim (transition running result.state result.evidence_digest) [
        | ok s ↦ complete cell s states sys
        | err e ↦ give_up cell (exception (message e)) states sys
      ]

  -- Behind the "request" event: the executor is called, with retries.
  requested : RunCell → States → Result Failure (Unit {0}) → System W → Outcome W
  unfolding conclude
  requested cell states (err f) sys = (err f, states, sys)
  requested cell states (ok u) sys =
      let (result, outside') =
        retry_with_budget (settings.execute cell) settings.retry_attempts sys.outside in
      conclude cell result states (record sys { outside = outside' })

  -- One runnable cell: into RUNNING, saved, announced, executed, concluded.
  execute_cell : RunCell → CellState → States → System W → Outcome W
  unfolding emit requested
  execute_cell cell current states sys = elim (transition current running none) [
    | err e ↦ (err (exception (message e)), states, sys)
    | ok s ↦
        let states' = insert cell.run_key s states in
        let (r, sys') =
          emit "request"
            (dict (
              field "run_key" (str cell.run_key)
                (field "mode" (str (run_mode_value cell.mode)) end)))
            (save states' sys) in
        requested cell states' r sys'
  ]

  -- The body of the loop over the cells of the plan.
  pub run_cell : RunCell → States → System W → Outcome W
  unfolding execute_cell
  run_cell cell states sys =
      let current = current_state states cell in
      if contains (planned ∷ infra_blocked ∷ []) current
      then execute_cell cell current states sys
      else (ok tt, states, sys)

  pub run_cells : List RunCell → States → System W → Outcome W
  unfolding run_cell
  run_cells [] states sys = (ok tt, states, sys)
  run_cells (cell ∷ cells) states sys =
      let (r, states', sys') = run_cell cell states sys in
      elim r [ ok u ↦ run_cells cells states' sys' | err f ↦ (err f, states', sys') ]

  -- The loop over the keys of the states that a killed run left RUNNING.
  pub recover : List String → States → System W → Outcome W
  unfolding emit
  recover [] states sys = (ok tt, states, sys)
  recover (key ∷ keys) states sys =
      let states' = insert key infra_blocked states in
      let (r, sys') = emit "recovered" (announcement key) sys in
      elim r [ ok u ↦ recover keys states' sys' | err f ↦ (err f, states', sys') ]

  -- `if stale_keys: self._state_store.write(…)`
  pub save_recovered : List String → States → System W → System W
  save_recovered [] states sys = sys
  save_recovered (key ∷ keys) states sys = save states sys

  pub run_from : List RunCell → States → System W → Outcome W
  unfolding recover save_recovered run_cells
  run_from cells states sys =
      let stale_keys = keys_with running states in
      let (r, states', sys') = recover stale_keys states sys in
      elim r [
        | err f ↦ (err f, states', sys')
        | ok u ↦ run_cells cells states' (save_recovered stale_keys states' sys')
      ]

module _ {W : Type 0} (settings : Settings W) where
  -- `RunOrchestrator.run`: the dict that it returns or the exception that it raises.
  unfoldable pub run : RunPlan → System W → Outcome W
  unfolding run_from
  run plan sys = elim (read plan.suite_fingerprint sys.disk) [
    | err f ↦ (err f, [], sys)
    | ok states ↦ run_from settings plan.suite_fingerprint plan.cells states sys
  ]
