-- ===== src/Outcomes/Evaluator.antt =====
-- src/qveris_bench/outcomes/evaluator.py
use qveris_capability_benchm.Prelude.{
  String, ◌≡◌, ◌↔◌, ◌⊎◌, refl, true, not, none, List, [], ◌∷◌, contains, contains-select, select,
  ◌&&◌, select-nil, select-eq-nil, arith, string_eq, if◌then◌else◌, All, All-map,
}
use qveris_capability_benchm.Prelude.Dict.{Dict, keys}
use qveris_capability_benchm.Models.Enums.{OutcomeStatus, partial}
use qveris_capability_benchm.Models.Release.{is_empty}
use qveris_capability_benchm.Models.Run.{TaskOutcome}
use qveris_capability_benchm.Models.Value.{Value}

-- `condition not in facts`
unmet_conditions : List String → Dict String Value → List String
unmet_conditions completion_conditions facts =
    select (λ condition. not (contains (keys facts) condition)) completion_conditions

unfoldable pub evaluate_outcome : List String → Dict String Value → String → TaskOutcome
unfolding unmet_conditions
evaluate_outcome completion_conditions facts evidence_ref =
    let unmet = unmet_conditions completion_conditions facts in
    record {
      status = if is_empty unmet then OutcomeStatus.completed else partial;
      evidence_refs = evidence_ref ∷ [];
      unmet_conditions = unmet;
      failure_attribution = none;
    }

-- The outcome is COMPLETED exactly when every completion condition is among the facts, and PARTIAL
-- otherwise; the unmet conditions are those that are not.
pub evaluate_outcome_iff :
    (conditions : List String) (facts : Dict String Value) (ref : String)
    → let outcome = evaluate_outcome conditions facts ref in
      ((outcome.status ≡ OutcomeStatus.completed)
        ↔ All (λ c. contains (keys facts) c ≡ true) conditions)
      × ((outcome.status ≡ OutcomeStatus.completed) ⊎ (outcome.status ≡ partial))
      × ((c : String)
          → contains outcome.unmet_conditions c
            ≡ (contains conditions c && not (contains (keys facts) c)))
unfolding evaluate_outcome
evaluate_outcome_iff conditions facts ref = (
  (λ h. met (is_empty_nil _ (ground arith)), λ h. rw (all_met h)),
  ground arith,
  contains-select _ conditions,
)
  where
    is_empty_nil : (xs : List String) → is_empty xs ≡ true → xs ≡ []
    is_empty_nil [] h = refl
    is_empty_nil (x ∷ xs) h = absurd (cc)

    met :
        unmet_conditions conditions facts ≡ []
        → All (λ c. contains (keys facts) c ≡ true) conditions
    met h = All-map (λ c e. ground arith) conditions (select-nil _ conditions h)

    all_met :
        All (λ c. contains (keys facts) c ≡ true) conditions
        → unmet_conditions conditions facts ≡ []
    all_met h = select-eq-nil _ conditions (All-map (λ c e. ground arith) conditions h)
