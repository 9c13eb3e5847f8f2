-- ===== src/Execution/State.antt =====
-- src/qveris_bench/execution/state.py: the transitions between the states of a run cell.
pub mod Relation
use qveris_capability_benchm.Prelude.{
  String, Bool, true, false, not, ◌&&◌, Option, none, some, List, [], ◌∷◌, ◌==◌, contains, Result,
  ok, err, ◌>>◌, raise_if,
}
use qveris_capability_benchm.Models.Enums.{
  CellState, planned, running, completed, provider_negative, infra_blocked, not_applicable,
  excluded, cell_state_eq, cell_state_value,
}
use Prim.Native.String.{◌++◌}
use qveris_capability_benchm.Models.Suite.{is_none}

-- `StateTransitionError`, one constructor for each place that raises it
pub data StateTransitionError : Type 0 where
  is_terminal : CellState → StateTransitionError
  invalid_transition : CellState → CellState → StateTransitionError
  excluded_requires_evidence : StateTransitionError

-- `str(exc)`
abbrev pub message : StateTransitionError → String
message (is_terminal current) = cell_state_value current ++ " is terminal"
message (invalid_transition current target) =
    "invalid transition: " ++ cell_state_value current ++ " -> " ++ cell_state_value target
message excluded_requires_evidence = "excluded requires evidence"

-- `_TERMINAL`
terminal : List CellState
terminal = completed ∷ provider_negative ∷ excluded ∷ not_applicable ∷ []

-- `_ALLOWED.get(current, set())`
allowed : CellState → List CellState
allowed planned = running ∷ not_applicable ∷ excluded ∷ []
allowed infra_blocked = running ∷ excluded ∷ []
allowed running = completed ∷ provider_negative ∷ infra_blocked ∷ excluded ∷ []
allowed _ = []

unfoldable pub transition :
    CellState → CellState → Option String → Result StateTransitionError CellState
unfolding terminal allowed cell_state_eq
transition current target evidence_digest = do
  raise_if (contains terminal current && not (current == target)) (is_terminal current)
  raise_if (not (target == current) && not (contains (allowed current) target))
      (invalid_transition current target)
  raise_if (target == excluded && is_none evidence_digest) excluded_requires_evidence
  ok target
