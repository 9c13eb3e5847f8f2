-- ===== src/Execution/Tests.antt =====
-- Runs of the orchestrator, the retries, the log and the direct bindings on small data.
use qveris_capability_benchm.Prelude.{
  ℕ, zero, suc, ◌≤◌, String, ◌≡◌, ◌≢◌, ◌↔◌, refl, ==_iff, Bool, false, true, none, some, [], ◌∷◌,
  arith, inl, inr, Result, ok, err, ok-injective, All, Distinct, string_eq, pair_eq,
}
use qveris_capability_benchm.Prelude.Dict.{lookup, insert, keys}
use qveris_capability_benchm.Prelude.Sort.{sort_keys, str_lt}
use qveris_capability_benchm.Models.Enums.{
  CellState, planned, running, completed, not_applicable, direct, cell_state_eq,
}
use qveris_capability_benchm.Models.Value.{dict, end, null}
use qveris_capability_benchm.Models.Run.{ObservationEvent, RunCell, RunPlan}
use qveris_capability_benchm.Execution.State.{transition}
use qveris_capability_benchm.Execution.State.Relation.{
  Move, Reach, here, next, transition-iff-Move, Reach-final,
}
use qveris_capability_benchm.Execution.Retry.{
  Failure, exception, transport, is_retryable, retry_with_budget,
}
use qveris_capability_benchm.Execution.Retry.Budget.{Answer, retry_with_budget-Answer}
use qveris_capability_benchm.Execution.Store.{
  States, keys_with, cell_state_of, states_of, read, write, read-write,
}
use qveris_capability_benchm.Execution.Events.{
  LogServices, read_events, append, IsLine, Appends, append-NumberedFrom,
}
use qveris_capability_benchm.Execution.Orchestrator.{
  CellExecutionResult, Settings, System, run, current_state,
}
use qveris_capability_benchm.Execution.Orchestrator.Keeps.{IsSettled, NeverRunning}
use qveris_capability_benchm.Execution.Orchestrator.Loop.{OnDisk}
use qveris_capability_benchm.Execution.Orchestrator.Run.{run-settles, run-keeps_final, run-durable}

-- The text of an event is its type, as all events of these tests are requests that are the first.
abbrev requested : String → ObservationEvent
requested line = record {
  sequence = 0;
  occurred_at = "12:00";
  event_type = line;
  details = dict end;
}

-- The world counts the calls of the executor; the clock always says noon.
abbrev services : LogServices ℕ
services = record {
  sanitize = λ details. ok details;
  now = λ w. ("12:00", w);
  model_dump_json = λ event. event.event_type;
  model_validate_json = λ line. ok (requested line);
  splitlines = λ line. line ∷ [];
}

abbrev done : CellExecutionResult
done = record { state = completed; evidence_digest = none }

-- The first call times out, the later ones succeed.
abbrev flaky : RunCell → ℕ → Result Failure CellExecutionResult × ℕ
flaky cell zero = (err (transport "timeout" "no answer"), 1)
flaky cell (suc w) = (ok done, suc (suc w))

abbrev settings : Settings ℕ
settings = record { execute = flaky; retry_attempts = 2; services = services }

abbrev cell_at : String → CellState → RunCell
cell_at key state = record {
  run_key = key;
  case_id = "case";
  case_input = null;
  provider_id = "provider";
  access_path_id = "path";
  mode = direct;
  round = 1;
  applicable = true;
  applicability_reason = none;
  state = state;
  failure_attribution = none;
}

abbrev plan : RunPlan
plan = record {
  suite_id = "suite";
  suite_fingerprint = "print";
  cap_id = none;
  cap_version = none;
  cap_sources = [];
  cells = cell_at "a" planned ∷ cell_at "b" not_applicable ∷ cell_at "c" planned ∷ [];
}

abbrev fresh_system : System ℕ
fresh_system = record { disk = none; log = some []; outside = 0 }

-- The states that an earlier run left: one cell finished, one interrupted.
abbrev earlier : States
earlier = ("a", completed) ∷ ("c", running) ∷ []

abbrev resumed_system : System ℕ
resumed_system = record { disk = write "print" earlier; log = some []; outside = 5 }

never_running : NeverRunning settings
never_running cell zero result e = absurd (cc)
never_running cell (suc w) result e = ground arith

run_states : (run settings plan fresh_system).1 ≡ ("a", completed) ∷ ("c", completed) ∷ []
unfolding run read write states_of cell_state_of read_events keys_with cell_state_eq lookup
    transition append retry_with_budget is_retryable string_eq insert
run_states = refl

fresh_returns : (run settings plan fresh_system).0 ≡ ok tt
unfolding run read write states_of cell_state_of read_events keys_with cell_state_eq lookup
    transition append retry_with_budget is_retryable string_eq insert
fresh_returns = refl

resumed_returns : (run settings plan resumed_system).0 ≡ ok tt
unfolding run read write states_of cell_state_of read_events keys_with cell_state_eq lookup
    transition append retry_with_budget is_retryable string_eq insert sort_keys str_lt
resumed_returns = refl

resumed_start : read "print" resumed_system.disk ≡ ok earlier
unfolding read write states_of cell_state_of string_eq sort_keys str_lt
resumed_start = refl

run-settles_example :
    All (λ c. IsSettled (current_state (run settings plan fresh_system).1 c)) plan.cells
run-settles_example =
    run-settles settings plan fresh_system never_running (inl refl, (inr refl, (inl refl, tt)))
      fresh_returns

finished_a : lookup "a" earlier ≡ some completed
unfolding lookup string_eq
finished_a = refl

keys_differ : Distinct (keys earlier)
unfolding string_eq
keys_differ = (refl, (refl, tt))

run-keeps_final_example :
    (lookup "a" (run settings plan resumed_system).1 ≡ some completed)
    × OnDisk settings "print" "a" completed (run settings plan resumed_system).2
run-keeps_final_example =
    run-keeps_final settings plan resumed_system earlier "a" completed resumed_start keys_differ
      finished_a tt

run-durable_example :
    (d : States) × (read "print" (run settings plan resumed_system).2.disk ≡ ok d)
    × ((j : String) → lookup j d ≡ lookup j (run settings plan resumed_system).1)
run-durable_example = run-durable settings plan resumed_system resumed_returns

one_le_two : 1 ≤ 2
one_le_two = omega arith

retry_with_budget-Answer_example :
    Answer (flaky (cell_at "a" planned)) 2 0 (retry_with_budget (flaky (cell_at "a" planned)) 2 0)
retry_with_budget-Answer_example =
    retry_with_budget-Answer (flaky (cell_at "a" planned)) 2 0 one_le_two

transition-iff-Move_example :
    (transition planned running none ≡ ok running)
    ↔ (Move planned running none × (running ≡ running))
transition-iff-Move_example = transition-iff-Move planned running running none

settled_history : Reach completed completed
unfolding transition cell_state_eq
settled_history = next {t = completed} {v = completed} completed none here refl

Reach-final_example : ◌≡◌ {A = CellState} completed completed
Reach-final_example = Reach-final settled_history tt

no_events : read_events services [] ≡ ok []
unfolding read_events
no_events = refl

first_line :
    append services "request" (dict end) [] 0 ≡ (ok (requested "request"), "request" ∷ [], 0)
unfolding append read_events
first_line = refl

is_line :
    (event : ObservationEvent)
    → (append services "request" (dict end) [] 0).0 ≡ ok event
    → IsLine services event
unfolding append read_events
is_line event e =
    let same : event ≡ requested "request" = ok-injective e in
    rw same record { one_line = refl; parsed = refl }

append-NumberedFrom_example : Appends services [] [] (append services "request" (dict end) [] 0)
append-NumberedFrom_example =
    append-NumberedFrom services "request" (dict end) [] 0 [] no_events tt is_line

prints_differ : ◌≢◌ {A = String} "print" "other"
unfolding string_eq
prints_differ e = absurd (go ((==_iff {A = String} "print" "other").1 e))
  where
    go : ◌≡◌ {A = Bool} false true → ⊥
    go h = absurd (cc)

read-write_example :
    (read "print" (write "print" earlier) ≡ ok (sort_keys earlier))
    × (read "other" (write "print" earlier)
        ≡ err (exception "run state fingerprint does not match the frozen plan"))
read-write_example = read-write "print" "other" earlier prints_differ
