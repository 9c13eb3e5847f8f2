-- ===== src/Releases/Builder.antt =====
-- src/qveris_bench/releases/builder.py, verify.py and diff.py. The JSON codec and the hash are
-- parameters.
pub mod Differences
mod Tests
use qveris_capability_benchm.Prelude.{
  String, Bool, false, not, List, [], ◌++◌, ◌==◌, Eq, option_eq, string_eq, select, to_set, Option,
  none, some, Result, ok, err, ◌>>◌,
}
use qveris_capability_benchm.Prelude.Dict.{Dict, lookup, keys}
use qveris_capability_benchm.Prelude.Sort.{sort_by, str_lt}
use qveris_capability_benchm.Models.Evidence.{EvidenceBundle}
use qveris_capability_benchm.Models.Metric.{MetricDefinition}
use qveris_capability_benchm.Models.Release.{BenchmarkRelease}
use qveris_capability_benchm.Models.Run.{RunCell}
use qveris_capability_benchm.Releases.Gate.{ReleaseGateError, validate_release_inputs}
use qveris_capability_benchm.Releases.Metrics.{Digests}

-- The payload, with the models in place of their JSON
pub record ReleasePayload : Type 0 where
  pub release : BenchmarkRelease
  pub cells : List RunCell
  pub evidence : List EvidenceBundle

-- `sorted(cells, key=lambda item: item.run_key)`
unfoldable pub by_run_key : List RunCell → List RunCell
by_run_key = sort_by (λ p q. str_lt p.run_key q.run_key)

-- `sorted(evidence, key=lambda item: item.evidence_id)`
unfoldable pub by_evidence_id : List EvidenceBundle → List EvidenceBundle
by_evidence_id = sort_by (λ p q. str_lt p.evidence_id q.evidence_id)

abbrev pub payload_of : BenchmarkRelease → List RunCell → List EvidenceBundle → ReleasePayload
payload_of release cells evidence = record {
  release = release;
  cells = by_run_key cells;
  evidence = by_evidence_id evidence;
}

module _ (digests : Digests) (canonical_release_bytes : ReleasePayload → String) where
  unfoldable pub build_release :
      BenchmarkRelease
      → List RunCell
      → List EvidenceBundle
      → Bool
      → List MetricDefinition
      → Result ReleaseGateError String
  build_release release cells evidence require_attribution metric_registry = do
    validate_release_inputs digests release cells evidence require_attribution metric_registry
    ok (canonical_release_bytes (payload_of release cells evidence))

  -- `verify_release` behind `json.loads`: the payload is `none` where a model refuses it.
  unfoldable pub verify_release : (String → String) → Option ReleasePayload → String → String → Bool
  verify_release release_digest none canonical expected_digest = false
  verify_release release_digest (some payload) canonical expected_digest =
      elim (validate_release_inputs digests payload.release payload.cells payload.evidence false
        []) [ ok u ↦ release_digest canonical == expected_digest | err e ↦ false ]

abbrev pub or_else {ℓ} : {A : Type ℓ} → A → Option A → A
or_else default none = default
or_else default (some a) = a

-- The values are the Python values of JSON, of which `null` is `None`.
module _ {V : Type 0} ⦃e : Eq V⦄ (null : V) where
  -- `d.get(k)`
  abbrev pub get : Dict String V → String → V
  get d k = or_else null (lookup k d)

  -- `diff_releases`: the keys at which two documents differ, sorted
  unfoldable pub diff_releases : Dict String V → Dict String V → List String
  diff_releases before after =
      sort_by str_lt
        (select (λ k. not (get before k == get after k)) (to_set (keys before ++ keys after)))
