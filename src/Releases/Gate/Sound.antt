-- ===== src/Releases/Gate/Sound.antt =====
-- What the release gate guarantees.
use qveris_capability_benchm.Prelude.{
  String, ◌≡◌, ◌≢◌, ◌↔◌, refl, Bool, true, false, not, none, some, List, [], ◌∷◌, arith, string_eq,
  contains, select, select-nil, select-eq-nil, same_set, same_set_iff, difference, difference-nil,
  difference-eq-nil, is_distinct, is_distinct_iff, All, All-map, Distinct, inl, inr, ok, rethrow,
  Result-cases, for_each, >>-eq-ok, for_each-All, All-for_each,
}
use qveris_capability_benchm.Models.Enums.{
  FailureAttribution, CellState, planned, running, completed, provider_negative, infra_blocked,
  not_applicable, excluded, cell_state_eq,
}
use qveris_capability_benchm.Models.Evidence.{EvidenceBundle}
use qveris_capability_benchm.Models.Metric.{MetricDefinition}
use qveris_capability_benchm.Models.Release.{BenchmarkRelease, is_empty}
use qveris_capability_benchm.Models.Run.{RunCell}
use qveris_capability_benchm.Evidence.Policy.{IsPublishable, validate_publication_iff}
use qveris_capability_benchm.Outcomes.Attribution.{
  IsProviderSide, ensure_provider_side_attribution, ensure_iff,
}
use qveris_capability_benchm.Releases.Gate.{
  metrics_error, open_cells, evidence_ids, evidence_run_keys, applicable_keys, check_bundle,
  available_digests, measured_refs, lacks_provider_attribution, lacks_infra_attribution,
  check_attributions, check_evidence, validate_release_inputs,
}
use qveris_capability_benchm.Releases.Metrics.{Digests, validate_metrics}
use qveris_capability_benchm.Suites.Matrix.{run_keys}

-- A state that no further run changes, or that the release reports as blocked.
abbrev pub IsClosed : CellState → Type 0
IsClosed planned = ⊥
IsClosed running = ⊥
IsClosed _ = Unit

-- The evidence and the cells of a release match one another and the release.
pub record IsBacked (release : BenchmarkRelease) (cells : List RunCell)
    (evidence : List EvidenceBundle) : Type 0 where
  pub closed : All (λ c. IsClosed c.state) cells
  pub some_evidence : is_empty evidence ≡ false
  pub ids_differ : Distinct (evidence_ids evidence)
  pub ids_listed :
      (i : String) → contains release.evidence_ids i ≡ contains (evidence_ids evidence) i
  pub cells_differ : Distinct (run_keys cells)
  pub keys_differ : Distinct (evidence_run_keys evidence)
  pub one_to_one :
      (k : String) → contains (applicable_keys cells) k ≡ contains (evidence_run_keys evidence) k
  pub publishable :
      All (λ b. (b.suite_fingerprint ≡ release.suite_fingerprint) × IsPublishable b) evidence
  pub measured :
      (d : String)
      → contains (measured_refs release) d ≡ true
      → contains (available_digests evidence) d ≡ true

empty-nil {ℓ} : {A : Type ℓ} (xs : List A) → is_empty xs ≡ true → xs ≡ []
empty-nil [] h = refl
empty-nil (x ∷ xs) h = absurd (cc)

not-false : (b : Bool) → not b ≡ false → b ≡ true
not-false b h = ground arith

open_cells-closed :
    (cells : List RunCell) → is_empty (open_cells cells) ≡ true → All (λ c. IsClosed c.state) cells
unfolding open_cells
open_cells-closed cells h =
    All-map (λ c e. is_closed c.state (not-false _ e)) cells (select-nil _ cells (empty-nil _ h))
  where
    is_closed :
        (s : CellState)
        → contains
            (completed ∷ provider_negative ∷ infra_blocked ∷ excluded ∷ not_applicable ∷ [])
            s
          ≡ true
        → IsClosed s
    is_closed planned h = absurd (cc)
    is_closed running h = absurd (cc)
    is_closed _ h = tt

closed-open_cells :
    (cells : List RunCell) → All (λ c. IsClosed c.state) cells → open_cells cells ≡ []
unfolding open_cells
closed-open_cells cells h = select-eq-nil _ cells (All-map (λ c e. passes c.state e) cells h)
  where
    passes :
        (s : CellState)
        → IsClosed s
        → not (
            contains
              (completed ∷ provider_negative ∷ infra_blocked ∷ excluded ∷ not_applicable ∷ [])
              s)
          ≡ false
    passes planned h = absurd h
    passes running h = absurd h
    passes _ h = refl

check_bundle_iff :
    (fingerprint : String) (b : EvidenceBundle)
    → (check_bundle fingerprint b ≡ ok tt) ↔ ((b.suite_fingerprint ≡ fingerprint) × IsPublishable b)
unfolding check_bundle
check_bundle_iff fingerprint b = (
  λ h. (ground arith, (validate_publication_iff b).0 (ground arith)),
  λ h. let p = (validate_publication_iff b).1 h.1 in ground arith,
)

module _ (release : BenchmarkRelease) (cells : List RunCell) (evidence : List EvidenceBundle) where
  check_evidence-IsBacked :
      check_evidence release cells evidence ≡ ok tt → IsBacked release cells evidence
  unfolding check_evidence
  check_evidence-IsBacked h =
      let o : is_empty (open_cells cells) ≡ true = ground arith in
      let i : is_distinct (evidence_ids evidence) ≡ true = ground arith in
      let j : same_set release.evidence_ids (evidence_ids evidence) ≡ true = ground arith in
      let c : is_distinct (run_keys cells) ≡ true = ground arith in
      let k : is_distinct (evidence_run_keys evidence) ≡ true = ground arith in
      let m : same_set (applicable_keys cells) (evidence_run_keys evidence) ≡ true = ground arith in
      let p : for_each (check_bundle release.suite_fingerprint) evidence ≡ ok tt = ground arith in
      let d : is_empty (difference (measured_refs release) (available_digests evidence)) ≡ true =
        ground arith in
      record {
        closed = open_cells-closed cells o;
        some_evidence = ground arith;
        ids_differ = (is_distinct_iff (evidence_ids evidence)).0 i;
        ids_listed = (same_set_iff release.evidence_ids (evidence_ids evidence)).0 j;
        cells_differ = (is_distinct_iff (run_keys cells)).0 c;
        keys_differ = (is_distinct_iff (evidence_run_keys evidence)).0 k;
        one_to_one = (same_set_iff (applicable_keys cells) (evidence_run_keys evidence)).0 m;
        publishable =
            All-map (λ x q. (check_bundle_iff release.suite_fingerprint x).0 q) evidence
              (for_each-All (check_bundle release.suite_fingerprint) evidence p);
        measured =
            difference-nil (measured_refs release) (available_digests evidence) (empty-nil _ d);
      }

  IsBacked-check_evidence :
      IsBacked release cells evidence → check_evidence release cells evidence ≡ ok tt
  unfolding check_evidence
  IsBacked-check_evidence b =
      let o = closed-open_cells cells b.closed in
      let i = (is_distinct_iff (evidence_ids evidence)).1 b.ids_differ in
      let j = (same_set_iff release.evidence_ids (evidence_ids evidence)).1 b.ids_listed in
      let c = (is_distinct_iff (run_keys cells)).1 b.cells_differ in
      let k = (is_distinct_iff (evidence_run_keys evidence)).1 b.keys_differ in
      let m = (same_set_iff (applicable_keys cells) (evidence_run_keys evidence)).1 b.one_to_one in
      let p = All-for_each (check_bundle release.suite_fingerprint) evidence (
        All-map (λ x q. (check_bundle_iff release.suite_fingerprint x).1 q) evidence
          b.publishable) in
      let d = difference-eq-nil (measured_refs release) (available_digests evidence) b.measured in
      rw (o, b.some_evidence, i, j, c, k, m, p, d)

  -- The gate's checks of cells and evidence pass exactly when every cell is closed, the evidence
  -- and the applicable cells match one to one, all evidence may be published under the release's
  -- fingerprint, and what counts as measured refers to it.
  pub check_evidence_iff :
      (check_evidence release cells evidence ≡ ok tt) ↔ IsBacked release cells evidence
  check_evidence_iff = (check_evidence-IsBacked, IsBacked-check_evidence)

-- A cell that blames the Provider or the infrastructure says for what.
pub record IsAttributed (cell : RunCell) : Type 0 where
  pub negative :
      cell.state ≡ provider_negative
      → (a : FailureAttribution) × (cell.failure_attribution ≡ some a) × IsProviderSide a
  pub blocked : cell.state ≡ infra_blocked → cell.failure_attribution ≢ none

attributed :
    (cell : RunCell)
    → lacks_provider_attribution cell ≡ false
    → lacks_infra_attribution cell ≡ false
    → IsAttributed cell
unfolding lacks_provider_attribution lacks_infra_attribution
attributed cell n b = record {
  negative = λ e. elim (Result-cases (ensure_provider_side_attribution cell.failure_attribution)) [
    | inl (a, r) ↦
        (let (same, side) = (ensure_iff cell.failure_attribution a).0 r in (a, same, side))
    | inr (f, r) ↦ absurd (ground arith)
  ];
  blocked = λ e h. ground arith;
}

check_attributions-IsAttributed :
    (cells : List RunCell) → check_attributions cells ≡ ok tt → All IsAttributed cells
unfolding check_attributions
check_attributions-IsAttributed cells h =
    let n : is_empty (select lacks_provider_attribution cells) ≡ true = ground arith in
    let b : is_empty (select lacks_infra_attribution cells) ≡ true = ground arith in
    All-map₂ cells (select-nil _ cells (empty-nil _ n)) (select-nil _ cells (empty-nil _ b))
  where
    All-map₂ :
        (cs : List RunCell)
        → All (λ c. lacks_provider_attribution c ≡ false) cs
        → All (λ c. lacks_infra_attribution c ≡ false) cs
        → All IsAttributed cs
    All-map₂ [] n b = tt
    All-map₂ (c ∷ cs) n b = (attributed c n.0 b.0, All-map₂ cs n.1 b.1)

-- A release that passes the gate with attributions required is backed by its evidence, and its
-- failures are attributed.
pub validate_release_inputs_sound :
    (digests : Digests) (release : BenchmarkRelease) (cells : List RunCell)
    (evidence : List EvidenceBundle) (registry : List MetricDefinition)
    → validate_release_inputs digests release cells evidence true registry ≡ ok tt
    → IsBacked release cells evidence × All IsAttributed cells
unfolding validate_release_inputs
validate_release_inputs_sound digests release cells evidence registry h =
    let (first, rest) = >>-eq-ok (check_evidence release cells evidence) _ h in
    let (metrics, last) =
      >>-eq-ok (rethrow metrics_error (validate_metrics digests release cells evidence registry)) _
        rest in
    (
      check_evidence-IsBacked release cells evidence first,
      check_attributions-IsAttributed cells last,
    )
