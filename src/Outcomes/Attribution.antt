-- ===== src/Outcomes/Attribution.antt =====
-- src/qveris_bench/outcomes/attribution.py
use qveris_capability_benchm.Prelude.{
  String, ◌≡◌, ◌↔◌, refl, ap, subst, not, Option, none, some, List, [], ◌∷◌, ◌==◌, contains, arith,
  string_eq, if◌then◌else◌, Result, ok, err, ◌>>◌, raise_if,
}
use mathlib.Core.Option.{some-injective}
use qveris_capability_benchm.Prelude.Dict.{Dict, lookup}
use qveris_capability_benchm.Models.Enums.{
  FailureAttribution, invalid_parameters, provider_validation_error, provider_runtime_error,
  auth_or_entitlement, rate_limited, network_or_timeout, empty_or_partial_data,
  truncated_or_unpaged, response_interpretation_error, agent_output_error, benchmark_system_error,
  unknown, failure_attribution_eq, failure_attribution_value,
}

pub data AttributionError : Type 0 where
  attribution_required : AttributionError
  not_provider_side : FailureAttribution → AttributionError
  wrong_tool_selected : AttributionError
  unapproved : String → AttributionError

-- `PROVIDER_SIDE_ATTRIBUTIONS`
provider_side_attributions : List FailureAttribution
provider_side_attributions =
    invalid_parameters ∷ provider_validation_error ∷ provider_runtime_error ∷ auth_or_entitlement
    ∷ rate_limited ∷ network_or_timeout ∷ empty_or_partial_data ∷ truncated_or_unpaged ∷ []

unfoldable pub ensure_provider_side_attribution :
    Option FailureAttribution → Result AttributionError FailureAttribution
unfolding provider_side_attributions failure_attribution_eq
ensure_provider_side_attribution none = err attribution_required
ensure_provider_side_attribution (some attribution) = do
  raise_if (not (contains provider_side_attributions attribution)) (not_provider_side attribution)
  ok attribution

-- `_REASON_ATTRIBUTIONS`
reason_attributions : Dict String FailureAttribution
reason_attributions =
    ("unavailable_quote", empty_or_partial_data)
    ∷ ("fiscal_year_unavailable", empty_or_partial_data)
    ∷ ("filing_unavailable", empty_or_partial_data)
    ∷ ("evidence_passage_missing", empty_or_partial_data)
    ∷ ("filing_type_not_supported", provider_validation_error)
    ∷ ("invalid_parameters", invalid_parameters)
    ∷ ("provider_validation_error", provider_validation_error)
    ∷ ("provider_runtime_error", provider_runtime_error)
    ∷ ("auth_or_entitlement", auth_or_entitlement)
    ∷ ("rate_limited", rate_limited)
    ∷ ("network_or_timeout", network_or_timeout)
    ∷ ("truncated_or_unpaged", truncated_or_unpaged)
    ∷ []

unfoldable pub classify_provider_negative_reason : String → Option FailureAttribution
unfolding reason_attributions lookup
classify_provider_negative_reason reason = lookup reason reason_attributions

members : List FailureAttribution
members =
    invalid_parameters ∷ provider_validation_error ∷ provider_runtime_error ∷ auth_or_entitlement
    ∷ rate_limited ∷ network_or_timeout ∷ empty_or_partial_data ∷ truncated_or_unpaged
    ∷ response_interpretation_error ∷ agent_output_error ∷ benchmark_system_error ∷ unknown ∷ []

-- `FailureAttribution(value)`: the member with this value.
with_value : String → List FailureAttribution → Option FailureAttribution
with_value value [] = none
with_value value (m ∷ ms) =
    let rest = with_value value ms in if value == failure_attribution_value m then some m else rest

or_unapproved : String → Option FailureAttribution → Result AttributionError FailureAttribution
or_unapproved value none = err (unapproved value)
or_unapproved value (some m) = ok m

unfoldable pub classify_failure : String → Result AttributionError FailureAttribution
unfolding with_value members or_unapproved
classify_failure value =
    if value == "wrong_tool_selected"
    then err wrong_tool_selected
    else or_unapproved value (with_value value members)

-- Whose fault a failure is.
abbrev pub IsProviderSide : FailureAttribution → Type 0
IsProviderSide response_interpretation_error = ⊥
IsProviderSide agent_output_error = ⊥
IsProviderSide benchmark_system_error = ⊥
IsProviderSide unknown = ⊥
IsProviderSide _ = Unit

-- Every attribution that a provider-negative reason is classified as passes the release gate's
-- check of provider-side attributions.
pub classify-ensure :
    (reason : String) (a : FailureAttribution)
    → classify_provider_negative_reason reason ≡ some a
    → ensure_provider_side_attribution (some a) ≡ ok a
unfolding classify_provider_negative_reason ensure_provider_side_attribution
classify-ensure reason a h = ground arith

accepted :
    (b : FailureAttribution) → IsProviderSide b → ensure_provider_side_attribution (some b) ≡ ok b
unfolding ensure_provider_side_attribution
accepted response_interpretation_error h = absurd h
accepted agent_output_error h = absurd h
accepted benchmark_system_error h = absurd h
accepted unknown h = absurd h
accepted _ h = refl

returned :
    (b a : FailureAttribution)
    → ensure_provider_side_attribution (some b) ≡ ok a
    → IsProviderSide b × (b ≡ a)
unfolding ensure_provider_side_attribution
returned response_interpretation_error a h = absurd (cc)
returned agent_output_error a h = absurd (cc)
returned benchmark_system_error a h = absurd (cc)
returned unknown a h = absurd (cc)
returned _ a h = (tt, cc)

-- An attribution is accepted exactly when it is there and names the provider's side.
pub ensure_iff :
    (o : Option FailureAttribution) (a : FailureAttribution)
    → (ensure_provider_side_attribution o ≡ ok a) ↔ ((o ≡ some a) × IsProviderSide a)
ensure_iff none a = (λ h. absurd (none_refused a h), λ h. absurd (cc (h.0)))
  where
    none_refused : (a : FailureAttribution) → ensure_provider_side_attribution none ≡ ok a → ⊥
    none_refused a h = unfold ensure_provider_side_attribution in cc h
ensure_iff (some b) a = (
  λ h. let (side, e) = returned b a h in (ap some e, subst IsProviderSide e side),
  λ (e, side). let same : b ≡ a = some-injective b a e in rw same (accepted a side),
)

-- The value of an attribution is classified as that attribution.
pub classify_failure-value :
    (a : FailureAttribution) → classify_failure (failure_attribution_value a) ≡ ok a
unfolding classify_failure string_eq
classify_failure-value invalid_parameters = refl
classify_failure-value _ = refl
