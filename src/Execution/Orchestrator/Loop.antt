-- ===== src/Execution/Orchestrator/Loop.antt =====
-- The loop over the cells and the recovery before it, taken together.
use qveris_capability_benchm.Prelude.{
  String, ◌≡◌, refl, sym, ◌∙◌, ap, subst, false, some, List, [], ◌∷◌, contains, string_eq, arith,
  Bool-cases, inl, inr, All, ok, err,
}
use qveris_capability_benchm.Prelude.Dict.{lookup}
use qveris_capability_benchm.Prelude.Sort.{sort_keys, lookup-sort_keys}
use qveris_capability_benchm.Models.Enums.{
  CellState, planned, running, infra_blocked, cell_state_eq,
}
use qveris_capability_benchm.Models.Run.{RunCell}
use qveris_capability_benchm.Execution.State.Relation.{IsFinal}
use qveris_capability_benchm.Execution.Store.{States, write, read, read-written, keys_with}
use qveris_capability_benchm.Execution.Orchestrator.{
  Settings, System, Outcome, current_state, run_cell, run_cells, recover, save_recovered, run_from,
}
use qveris_capability_benchm.Execution.Orchestrator.Keeps.{
  NeverRunning, run_cell-Writes, run_cell_skip,
}
use qveris_capability_benchm.Execution.Orchestrator.Recovery.{
  disk-recover, lookup-keys_with, lookup-recover, lookup-recover_other,
}
use qveris_capability_benchm.Execution.Orchestrator.Settled.{
  Turn, Turn-of, Holds, NoRunning, SettledIn, IsFresh, run_cells_rule, run_cells-Holds,
  run_cell-NoRunning, run_cell-SettledIn, run_cell_settles,
}

module _ {W : Type 0} (settings : Settings W) (fingerprint : String) where
  -- What a fresh reader of the state file sees is what the dict holds.
  abbrev pub Synced : States → System W → Type 0
  Synced states sys =
      (d : States) × (read fingerprint sys.disk ≡ ok d)
      × ((j : String) → lookup j d ≡ lookup j states)

  Synced-write :
      (states : States) (sys : System W) → sys.disk ≡ write fingerprint states → Synced states sys
  Synced-write states sys e =
      (sort_keys states, rw e (read-written fingerprint states), λ j. lookup-sort_keys j states)

  run_cell-Synced :
      (cell : RunCell) (states : States) (sys : System W)
      → Synced states sys
      → let o = run_cell settings fingerprint cell states sys in Synced o.1 o.2
  run_cell-Synced cell states sys h =
      elim (Bool-cases (contains (planned ∷ infra_blocked ∷ []) (current_state states cell))) [
        | inl runs ↦
            let o = run_cell settings fingerprint cell states sys in
            Synced-write o.1 o.2 (run_cell-Writes settings fingerprint cell states sys runs).saved
        | inr skips ↦ rw (run_cell_skip settings fingerprint cell states sys skips) h
      ]

  -- The loop keeps the file and the dict in agreement, on every exit.
  pub run_cells-Synced :
      (cells : List RunCell) (states : States) (sys : System W)
      → Synced states sys
      → let o = run_cells settings fingerprint cells states sys in Synced o.1 o.2
  run_cells-Synced =
      run_cells_rule settings fingerprint Synced (λ o. Synced o.1 o.2) (λ _ _ h. h)
        (λ cell t y h. Turn-of Synced _ (run_cell-Synced cell t y h))

  -- What a loop that does not raise shows, as a claim about its outcome.
  abbrev pub IfReturned : (States → Type 0) → Outcome W → Type 0
  IfReturned P o = o.0 ≡ ok tt → P o.1

  Turn-returned :
      (I : States → Type 0) (P : States → Type 0) (o : Outcome W)
      → IfReturned I o
      → Turn (λ t _. I t) (IfReturned P) o
  Turn-returned I P (ok u, t, y) h = h refl
  Turn-returned I P (err f, t, y) h = λ e. absurd (cc)

  run_cells-SettledIn :
      (cell : RunCell) (cells : List RunCell) (states : States) (sys : System W)
      → NeverRunning settings
      → SettledIn settings fingerprint cell states
      → IfReturned
          (SettledIn settings fingerprint cell)
          (run_cells settings fingerprint cells states sys)
  run_cells-SettledIn cell cells states sys never h =
      run_cells_rule settings fingerprint (λ t _. SettledIn settings fingerprint cell t)
        (IfReturned (SettledIn settings fingerprint cell)) (λ _ _ x _. x)
        (λ c t y x.
          Turn-returned _ _ _ (λ e. run_cell-SettledIn settings fingerprint cell c t y never e x))
        cells states sys h

  -- A loop that returns made its first turn without an exception and then the others.
  run_cells-cons :
      (cell : RunCell) (cells : List RunCell) (states : States) (sys : System W)
      → (run_cells settings fingerprint (cell ∷ cells) states sys).0 ≡ ok tt
      → let o = run_cell settings fingerprint cell states sys in
        (o.0 ≡ ok tt)
        × (run_cells settings fingerprint (cell ∷ cells) states sys
            ≡ run_cells settings fingerprint cells o.1 o.2)
  unfolding run_cells
  run_cells-cons cell cells states sys = after (run_cell settings fingerprint cell states sys)
    where
      after :
          (o : Outcome W)
          → (elim o.0 as (λ _. Outcome W) [
            | ok u ↦ run_cells settings fingerprint cells o.1 o.2
            | err f ↦ (err f, o.1, o.2)
          ]).0
            ≡ ok tt
          → (o.0 ≡ ok tt)
            × ((elim o.0 as (λ _. Outcome W) [
              | ok u ↦ run_cells settings fingerprint cells o.1 o.2
              | err f ↦ (err f, o.1, o.2)
            ])
                ≡ run_cells settings fingerprint cells o.1 o.2)
      after (ok u, t, y) e = (refl, refl)
      after (err f, t, y) e = absurd (cc)

  pub run_cells_settle :
      (cells : List RunCell) (states : States) (sys : System W)
      → NeverRunning settings
      → All IsFresh cells
      → NoRunning settings fingerprint states
      → IfReturned
          (λ t. All (λ c. SettledIn settings fingerprint c t) cells)
          (run_cells settings fingerprint cells states sys)
  run_cells_settle [] states sys never fresh none_runs e = tt
  run_cells_settle (cell ∷ cells) states sys never fresh none_runs e =
      let o = run_cell settings fingerprint cell states sys in
      let (first, rest) = run_cells-cons cell cells states sys e in
      let returned : (run_cells settings fingerprint cells o.1 o.2).0 ≡ ok tt =
        sym (ap (λ (p : Outcome W). p.0) rest) ∙ e in
      let settles =
        run_cell_settles settings fingerprint cell states sys never first fresh.0 none_runs in
      let clear = run_cell-NoRunning settings fingerprint cell states sys never first none_runs in
      subst (λ (p : Outcome W). All (λ c. SettledIn settings fingerprint c p.1) (cell ∷ cells))
        (sym rest)
        (
          run_cells-SettledIn cell cells o.1 o.2 never settles returned,
          run_cells_settle cells o.1 o.2 never fresh.1 clear returned,
        )

  -- A run that returns recovered the stale cells and then ran the loop.
  pub run_from-returned :
      (cells : List RunCell) (states : States) (sys : System W)
      → (run_from settings fingerprint cells states sys).0 ≡ ok tt
      → let stale = keys_with running states in
        let o = recover settings fingerprint stale states sys in
        (o.0 ≡ ok tt)
        × (run_from settings fingerprint cells states sys
            ≡ run_cells settings fingerprint cells o.1
                (save_recovered settings fingerprint stale o.1 o.2))
  unfolding run_from
  run_from-returned cells states sys =
      after (recover settings fingerprint (keys_with running states) states sys)
    where
      after :
          (o : Outcome W)
          → (elim o.0 as (λ _. Outcome W) [
            | err f ↦ (err f, o.1, o.2)
            | ok u ↦
                run_cells settings fingerprint cells o.1
                  (save_recovered settings fingerprint (keys_with running states) o.1 o.2)
          ]).0
            ≡ ok tt
          → (o.0 ≡ ok tt)
            × ((elim o.0 as (λ _. Outcome W) [
              | err f ↦ (err f, o.1, o.2)
              | ok u ↦
                  run_cells settings fingerprint cells o.1
                    (save_recovered settings fingerprint (keys_with running states) o.1 o.2)
            ])
                ≡ run_cells settings fingerprint cells o.1
                    (save_recovered settings fingerprint (keys_with running states) o.1 o.2))
      after (ok u, t, y) e = (refl, refl)
      after (err f, t, y) e = absurd (cc)

  pub recover-NoRunning :
      (states : States) (sys : System W)
      → let o = recover settings fingerprint (keys_with running states) states sys in
        o.0 ≡ ok tt → NoRunning settings fingerprint o.1
  recover-NoRunning states sys e j h =
      let at = lookup-recover settings fingerprint j (keys_with running states) states sys e in
      elim (Bool-cases (contains (keys_with running states) j)) [
        | inl stale ↦ ground arith
        | inr kept ↦
            let was : lookup j states ≡ some running = ground arith in
            cc (lookup-keys_with running j states was)
      ]

  pub recover-Synced :
      (stale : List String) (states : States) (sys : System W)
      → Synced states sys
      → let o = recover settings fingerprint stale states sys in
        Synced o.1 (save_recovered settings fingerprint stale o.1 o.2)
  unfolding recover save_recovered
  recover-Synced [] states sys h = h
  recover-Synced (key ∷ stale) states sys h =
      let o = recover settings fingerprint (key ∷ stale) states sys in
      Synced-write o.1 (save_recovered settings fingerprint (key ∷ stale) o.1 o.2) refl

  pub run_from-Holds :
      (k : String) (s : CellState) (cells : List RunCell) (states : States) (sys : System W)
      → IsFinal s
      → contains (keys_with running states) k ≡ false
      → Holds settings fingerprint k s states
      → Holds settings fingerprint k s (run_from settings fingerprint cells states sys).1
  unfolding run_from
  run_from-Holds k s cells states sys f c h =
      after (recover settings fingerprint (keys_with running states) states sys)
        (lookup-recover_other settings fingerprint k (keys_with running states) states sys c ∙ h)
    where
      after :
          (o : Outcome W)
          → Holds settings fingerprint k s o.1
          → Holds settings fingerprint k s (
              (elim o.0 as (λ _. Outcome W) [
                | err e ↦ (err e, o.1, o.2)
                | ok u ↦
                    run_cells settings fingerprint cells o.1
                      (save_recovered settings fingerprint (keys_with running states) o.1 o.2)
              ]).1)
      after (err e, t, y) x = x
      after (ok u, t, y) x = run_cells-Holds settings fingerprint k s cells t _ f x

  -- A fresh read of the state file finds the state at the key.
  abbrev pub OnDisk : String → CellState → System W → Type 0
  OnDisk k s sys = (d : States) × (read fingerprint sys.disk ≡ ok d) × (lookup k d ≡ some s)

  -- On every exit the state file holds a final state that it held.
  pub run_from-OnDisk :
      (k : String) (s : CellState) (cells : List RunCell) (states : States) (sys : System W)
      → read fingerprint sys.disk ≡ ok states
      → lookup k states ≡ some s
      → lookup k (run_from settings fingerprint cells states sys).1 ≡ some s
      → OnDisk k s (run_from settings fingerprint cells states sys).2
  unfolding run_from
  run_from-OnDisk k s cells states sys start was =
      let stale = keys_with running states in
      after (recover settings fingerprint stale states sys)
        (disk-recover settings fingerprint stale states sys)
        (recover-Synced stale states sys (states, start, λ j. refl))
    where
      after :
          (o : Outcome W)
          → o.2.disk ≡ sys.disk
          → Synced o.1 (save_recovered settings fingerprint (keys_with running states) o.1 o.2)
          → lookup k (
              (elim o.0 as (λ _. Outcome W) [
                | err e ↦ (err e, o.1, o.2)
                | ok u ↦
                    run_cells settings fingerprint cells o.1
                      (save_recovered settings fingerprint (keys_with running states) o.1 o.2)
              ]).1)
            ≡ some s
          → OnDisk k s (
              (elim o.0 as (λ _. Outcome W) [
                | err e ↦ (err e, o.1, o.2)
                | ok u ↦
                    run_cells settings fingerprint cells o.1
                      (save_recovered settings fingerprint (keys_with running states) o.1 o.2)
              ]).2)
      after (err e, t, y) unwritten synced h = (states, rw unwritten start, was)
      after (ok u, t, y) unwritten synced h =
          let (d, r, same) =
            run_cells-Synced cells t
              (save_recovered settings fingerprint (keys_with running states) t y) synced in
          (d, r, same k ∙ h)
