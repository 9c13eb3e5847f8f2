-- ===== src/Execution/Orchestrator/Settled.antt =====
-- What a run guarantees for the cells of its plan: what is terminal stays, what it finishes is
-- settled, and the state file agrees with the dict.
use qveris_capability_benchm.Prelude.{
  String, ◌≡◌, ◌≢◌, ◌⊎◌, refl, sym, ◌∙◌, ap, false, Option, none, some, List, [], ◌∷◌, contains,
  string_eq, arith, Bool-cases, inl, inr, ok, err,
}
use qveris_capability_benchm.Prelude.Dict.{lookup}
use qveris_capability_benchm.Models.Enums.{
  CellState, planned, running, completed, provider_negative, infra_blocked, not_applicable,
  excluded, cell_state_eq,
}
use qveris_capability_benchm.Models.Run.{RunCell}
use qveris_capability_benchm.Execution.State.Relation.{IsFinal}
use qveris_capability_benchm.Execution.Store.{States}
use qveris_capability_benchm.Execution.Orchestrator.{
  Settings, System, Outcome, current_state, or_else, run_cell, run_cells,
}
use qveris_capability_benchm.Execution.Orchestrator.Keeps.{
  IsSettled, NeverRunning, run_cell-Writes, run_cell_skip,
}

final-not-runnable : (s : CellState) → IsFinal s → contains (planned ∷ infra_blocked ∷ []) s ≡ false
unfolding cell_state_eq
final-not-runnable completed h = refl
final-not-runnable provider_negative h = refl
final-not-runnable excluded h = refl
final-not-runnable not_applicable h = refl
final-not-runnable planned h = absurd h
final-not-runnable running h = absurd h
final-not-runnable infra_blocked h = absurd h

-- A cell of a plan is PLANNED or NOT_APPLICABLE before it is run.
abbrev pub IsFresh : RunCell → Type 0
IsFresh cell = (cell.state ≡ planned) ⊎ (cell.state ≡ not_applicable)

-- What a turn is to show: the invariant where it did not raise, else the claim about the loop.
abbrev pub Turn :
    {W : Type 0} → (States → System W → Type 0) → (Outcome W → Type 0) → Outcome W → Type 0
Turn I Q (ok u, states, sys) = I states sys
Turn I Q (err f, states, sys) = Q (err f, states, sys)

pub Turn-of :
    {W : Type 0} (I : States → System W → Type 0) (o : Outcome W)
    → I o.1 o.2
    → Turn I (λ p. I p.1 p.2) o
Turn-of I (ok u, states, sys) h = h
Turn-of I (err f, states, sys) h = h

module _ {W : Type 0} (settings : Settings W) (fingerprint : String) where
  -- At the key `k` the dict holds the state `s`.
  abbrev pub Holds : String → CellState → States → Type 0
  Holds k s states = lookup k states ≡ some s

  run_cell-Holds :
      (k : String) (s : CellState) (cell : RunCell) (states : States) (sys : System W)
      → IsFinal s
      → Holds k s states
      → Holds k s (run_cell settings fingerprint cell states sys).1
  run_cell-Holds k s cell states sys f h =
      elim (Bool-cases (contains (planned ∷ infra_blocked ∷ []) (current_state states cell))) [
        | inl runs ↦
            let w = run_cell-Writes settings fingerprint cell states sys runs in
            elim (string_eq.dec k cell.run_key) [
              | yes p ↦
                  let e : current_state states cell ≡ s =
                    ap (λ o. or_else o cell.state) (ap (λ j. lookup j states) (sym p) ∙ h) in
                  absurd (cc (final-not-runnable s f))
              | no n ↦ ground (arith, w.at k)
            ]
        | inr skips ↦ rw (run_cell_skip settings fingerprint cell states sys skips) h
      ]

  -- What holds before the first cell, is kept by each turn that does not raise, and gives `Q`
  -- where a turn raises and at the end, gives `Q` of the loop.
  pub run_cells_rule :
      (I : States → System W → Type 0) (Q : Outcome W → Type 0)
      → ((states : States) (sys : System W) → I states sys → Q (ok tt, states, sys))
      → ((cell : RunCell) (states : States) (sys : System W)
          → I states sys
          → Turn I Q (run_cell settings fingerprint cell states sys))
      → (cells : List RunCell) (states : States) (sys : System W) → I states sys
      → Q (run_cells settings fingerprint cells states sys)
  unfolding run_cells
  run_cells_rule I Q finish turn [] states sys h = finish states sys h
  run_cells_rule I Q finish turn (cell ∷ cells) states sys h =
      after (run_cell settings fingerprint cell states sys) (turn cell states sys h)
        (run_cells_rule I Q finish turn cells)
    where
      after :
          (o : Outcome W)
          → Turn I Q o
          → ((states' : States) (sys' : System W)
              → I states' sys'
              → Q (run_cells settings fingerprint cells states' sys'))
          → Q (elim o.0 as (λ _. Outcome W) [
            | ok u ↦ run_cells settings fingerprint cells o.1 o.2
            | err e ↦ (err e, o.1, o.2)
          ])
      after (ok u, states', sys') t rest = rest states' sys' t
      after (err e, states', sys') t rest = t

  pub run_cells-Holds :
      (k : String) (s : CellState) (cells : List RunCell) (states : States) (sys : System W)
      → IsFinal s
      → Holds k s states
      → Holds k s (run_cells settings fingerprint cells states sys).1
  run_cells-Holds k s cells states sys f =
      run_cells_rule (λ t _. Holds k s t) (λ o. Holds k s o.1) (λ _ _ h. h)
        (λ cell t y h. Turn-of (λ t' _. Holds k s t') _ (run_cell-Holds k s cell t y f h)) cells
        states sys

  -- No cell is RUNNING in the dict.
  abbrev pub NoRunning : States → Type 0
  NoRunning states = (j : String) → lookup j states ≢ some running

  abbrev pub SettledIn : RunCell → States → Type 0
  SettledIn cell states = IsSettled (current_state states cell)

  -- On a turn that does not raise, each key holds what it held or a settled state.
  run_cell-lookup :
      (cell : RunCell) (states : States) (sys : System W) (j : String)
      → NeverRunning settings
      → (run_cell settings fingerprint cell states sys).0 ≡ ok tt
      → let after = lookup j (run_cell settings fingerprint cell states sys).1 in
        (after ≡ lookup j states) ⊎ ((s : CellState) × (after ≡ some s) × IsSettled s)
  run_cell-lookup cell states sys j never e =
      elim (Bool-cases (contains (planned ∷ infra_blocked ∷ []) (current_state states cell))) [
        | inl runs ↦
            let w = run_cell-Writes settings fingerprint cell states sys runs in
            elim (string_eq.dec j cell.run_key) [
              | yes p ↦ inr (w.state, ground (arith, w.at j), w.settled never e)
              | no n ↦ inl (ground (arith, w.at j))
            ]
        | inr skips ↦ inl (rw (run_cell_skip settings fingerprint cell states sys skips))
      ]

  pub run_cell-NoRunning :
      (cell : RunCell) (states : States) (sys : System W)
      → NeverRunning settings
      → (run_cell settings fingerprint cell states sys).0 ≡ ok tt
      → NoRunning states
      → NoRunning (run_cell settings fingerprint cell states sys).1
  run_cell-NoRunning cell states sys never e none_runs j =
      elim (run_cell-lookup cell states sys j never e) [
        | inl same ↦ λ h. none_runs j (sym same ∙ h)
        | inr (s, is_s, settled) ↦ λ h. ground arith
      ]

  pub run_cell-SettledIn :
      (other cell : RunCell) (states : States) (sys : System W)
      → NeverRunning settings
      → (run_cell settings fingerprint cell states sys).0 ≡ ok tt
      → SettledIn other states
      → SettledIn other (run_cell settings fingerprint cell states sys).1
  run_cell-SettledIn other cell states sys never e h =
      elim (run_cell-lookup cell states sys other.run_key never e) [
        | inl same ↦ rw same h
        | inr (s, is_s, settled) ↦ rw is_s settled
      ]

  skipped-IsSettled :
      (o : Option CellState) (s : CellState)
      → (s ≡ planned) ⊎ (s ≡ not_applicable)
      → o ≢ some running
      → contains (planned ∷ infra_blocked ∷ []) (or_else o s) ≡ false
      → IsSettled (or_else o s)
  unfolding cell_state_eq
  skipped-IsSettled none planned f n h = absurd (cc)
  skipped-IsSettled none not_applicable f n h = tt
  skipped-IsSettled none _ f n h = absurd (ground arith)
  skipped-IsSettled (some planned) s f n h = absurd (cc)
  skipped-IsSettled (some running) s f n h = absurd (n refl)
  skipped-IsSettled (some _) s f n h = tt

  -- A turn that does not raise settles its cell.
  pub run_cell_settles :
      (cell : RunCell) (states : States) (sys : System W)
      → NeverRunning settings
      → (run_cell settings fingerprint cell states sys).0 ≡ ok tt
      → IsFresh cell
      → NoRunning states
      → SettledIn cell (run_cell settings fingerprint cell states sys).1
  run_cell_settles cell states sys never e fresh none_runs =
      elim (Bool-cases (contains (planned ∷ infra_blocked ∷ []) (current_state states cell))) [
        | inl runs ↦
            let w = run_cell-Writes settings fingerprint cell states sys runs in
            let own : lookup cell.run_key (run_cell settings fingerprint cell states sys).1
                ≡ some w.state =
              ground (arith, w.at cell.run_key) in
            rw own (w.settled never e)
        | inr skips ↦ rw (run_cell_skip settings fingerprint cell states sys skips) (
            skipped-IsSettled (lookup cell.run_key states) cell.state fresh (none_runs cell.run_key)
              skips)
      ]
