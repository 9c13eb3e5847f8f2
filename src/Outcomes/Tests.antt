-- ===== src/Outcomes/Tests.antt =====
-- Attributions and outcomes on concrete values.
use qveris_capability_benchm.Prelude.{
  ◌≡◌, ◌↔◌, ◌⊎◌, refl, String, true, not, ◌&&◌, some, [], ◌∷◌, ok, All, contains, string_eq,
}
use qveris_capability_benchm.Prelude.Dict.{Dict, keys}
use qveris_capability_benchm.Models.Enums.{
  rate_limited, agent_output_error, failure_attribution_value, OutcomeStatus,
}
use qveris_capability_benchm.Models.Value.{Value, null}
use qveris_capability_benchm.Outcomes.Attribution.{
  IsProviderSide, classify_provider_negative_reason, ensure_provider_side_attribution,
  classify_failure, classify-ensure, ensure_iff, classify_failure-value,
}
use qveris_capability_benchm.Outcomes.Evaluator.{evaluate_outcome, evaluate_outcome_iff}

rate_limited_reason : classify_provider_negative_reason "rate_limited" ≡ some rate_limited
unfolding classify_provider_negative_reason string_eq
rate_limited_reason = refl

classify-ensure_example : ensure_provider_side_attribution (some rate_limited) ≡ ok rate_limited
classify-ensure_example = classify-ensure "rate_limited" rate_limited rate_limited_reason

ensure_iff_example :
    (ensure_provider_side_attribution (some rate_limited) ≡ ok rate_limited)
    ↔ ((some rate_limited ≡ some rate_limited) × IsProviderSide rate_limited)
ensure_iff_example = ensure_iff (some rate_limited) rate_limited

classify_failure-value_example :
    classify_failure (failure_attribution_value agent_output_error) ≡ ok agent_output_error
classify_failure-value_example = classify_failure-value agent_output_error

abbrev facts : Dict String Value
facts = ("price", null) ∷ []

evaluate_outcome_iff_example :
    let outcome = evaluate_outcome ("price" ∷ "currency" ∷ []) facts "digest" in
    ((outcome.status ≡ OutcomeStatus.completed)
      ↔ All (λ c. contains (keys facts) c ≡ true) ("price" ∷ "currency" ∷ []))
    × ((outcome.status ≡ OutcomeStatus.completed) ⊎ (outcome.status ≡ OutcomeStatus.partial))
    × ((c : String)
        → contains outcome.unmet_conditions c
          ≡ (contains ("price" ∷ "currency" ∷ []) c && not (contains (keys facts) c)))
evaluate_outcome_iff_example = evaluate_outcome_iff ("price" ∷ "currency" ∷ []) facts "digest"
