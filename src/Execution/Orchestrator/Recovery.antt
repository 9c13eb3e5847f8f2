-- ===== src/Execution/Orchestrator/Recovery.antt =====
-- The cells that a killed run left RUNNING, and the agreement of the state file with the dict.
use qveris_capability_benchm.Prelude.{
  String, ◌≡◌, refl, ◌∙◌, true, false, some, List, [], ◌∷◌, contains, string_eq, if◌then◌else◌,
  arith, Distinct, Result, ok, err,
}
use qveris_capability_benchm.Prelude.Dict.{lookup, insert, lookup-insert, keys}
use qveris_capability_benchm.Models.Enums.{CellState, infra_blocked, cell_state_eq}
use qveris_capability_benchm.Execution.Retry.{Failure}
use qveris_capability_benchm.Execution.Store.{States, keys_with}
use qveris_capability_benchm.Execution.Orchestrator.{
  Settings, System, Outcome, recover, emit, announcement,
}
use qveris_capability_benchm.Execution.Orchestrator.Keeps.{disk-emit}

module _ (s : CellState) where
  -- A key that holds the state is among the keys with that state.
  pub lookup-keys_with :
      (j : String) (d : States) → lookup j d ≡ some s → contains (keys_with s d) j ≡ true
  unfolding keys_with lookup
  lookup-keys_with j [] h = absurd (cc)
  lookup-keys_with j (p ∷ d) h = ground (arith, lookup-keys_with j d)

  keys_with-keys :
      (j : String) (d : States) → contains (keys_with s d) j ≡ true → contains (keys d) j ≡ true
  unfolding keys_with
  keys_with-keys j [] h = h
  keys_with-keys j (p ∷ d) h = ground (arith, keys_with-keys j d)

  -- In a dict, whose keys differ, it is there only if the key holds the state.
  pub keys_with-lookup :
      (j : String) (d : States)
      → Distinct (keys d)
      → contains (keys_with s d) j ≡ true
      → lookup j d ≡ some s
  unfolding keys_with lookup
  keys_with-lookup j [] u h = absurd (cc)
  keys_with-lookup j (p ∷ d) u h = ground (arith, keys_with-lookup j d u.1, keys_with-keys j d)

module _ {W : Type 0} (settings : Settings W) (fingerprint : String) where
  -- Behind the recovery each stale key is INFRA_BLOCKED and the others are as they were, unless it
  -- raised.
  pub lookup-recover :
      (j : String) (stale : List String) (states : States) (sys : System W)
      → (recover settings fingerprint stale states sys).0 ≡ ok tt
      → lookup j (recover settings fingerprint stale states sys).1
        ≡ (if contains stale j then some infra_blocked else lookup j states)
  unfolding recover
  lookup-recover j [] states sys e = refl
  lookup-recover j (key ∷ stale) states sys e =
      let states' = insert key infra_blocked states in
      after (emit settings fingerprint "recovered" (announcement key) sys) e
        (λ sys' e'. lookup-recover j stale states' sys' e')
    where
      after :
          (p : Result Failure (Unit {0}) × System W)
          → (elim p.0 as (λ _. Outcome W) [
            | ok u ↦ recover settings fingerprint stale (insert key infra_blocked states) p.1
            | err f ↦ (err f, insert key infra_blocked states, p.1)
          ]).0
            ≡ ok tt
          → ((sys' : System W)
              → (recover settings fingerprint stale (insert key infra_blocked states) sys').0
                ≡ ok tt
              → lookup j
                  (recover settings fingerprint stale (insert key infra_blocked states) sys').1
                ≡ (if contains stale j
                    then some infra_blocked
                    else lookup j (insert key infra_blocked states)))
          → lookup j (
              (elim p.0 as (λ _. Outcome W) [
                | ok u ↦ recover settings fingerprint stale (insert key infra_blocked states) p.1
                | err f ↦ (err f, insert key infra_blocked states, p.1)
              ]).1)
            ≡ (if contains (key ∷ stale) j then some infra_blocked else lookup j states)
      after (ok u, sys') e rest =
          rest sys' e ∙ ground (arith, lookup-insert j key infra_blocked states)
      after (err f, sys') e rest = absurd (cc)

  -- On every exit, a key that is not stale holds what it held.
  pub lookup-recover_other :
      (j : String) (stale : List String) (states : States) (sys : System W)
      → contains stale j ≡ false
      → lookup j (recover settings fingerprint stale states sys).1 ≡ lookup j states
  unfolding recover
  lookup-recover_other j [] states sys c = refl
  lookup-recover_other j (key ∷ stale) states sys c =
      let states' = insert key infra_blocked states in
      after (emit settings fingerprint "recovered" (announcement key) sys)
        (λ sys'. lookup-recover_other j stale states' sys' (ground arith))
    where
      after :
          (p : Result Failure (Unit {0}) × System W)
          → ((sys' : System W)
              → lookup j
                  (recover settings fingerprint stale (insert key infra_blocked states) sys').1
                ≡ lookup j (insert key infra_blocked states))
          → lookup j (
              (elim p.0 as (λ _. Outcome W) [
                | ok u ↦ recover settings fingerprint stale (insert key infra_blocked states) p.1
                | err f ↦ (err f, insert key infra_blocked states, p.1)
              ]).1)
            ≡ lookup j states
      after (ok u, sys') rest = rest sys' ∙ ground (arith, lookup-insert j key infra_blocked states)
      after (err f, sys') rest = ground (arith, lookup-insert j key infra_blocked states)

  -- The recovery does not write the state file, also where it raises.
  pub disk-recover :
      (stale : List String) (states : States) (sys : System W)
      → (recover settings fingerprint stale states sys).2.disk ≡ sys.disk
  unfolding recover
  disk-recover [] states sys = refl
  disk-recover (key ∷ stale) states sys =
      after (emit settings fingerprint "recovered" (announcement key) sys)
        (λ y. disk-recover stale (insert key infra_blocked states) y)
        (disk-emit settings fingerprint "recovered" (announcement key) sys)
    where
      after :
          (p : Result Failure (Unit {0}) × System W)
          → ((y : System W)
              → (recover settings fingerprint stale (insert key infra_blocked states) y).2.disk
                ≡ y.disk)
          → p.1.disk ≡ sys.disk
          → (elim p.0 as (λ _. Outcome W) [
            | ok u ↦ recover settings fingerprint stale (insert key infra_blocked states) p.1
            | err f ↦ (err f, insert key infra_blocked states, p.1)
          ]).2.disk
            ≡ sys.disk
      after (ok u, sys') rest same = rest sys' ∙ same
      after (err f, sys') rest same = same
