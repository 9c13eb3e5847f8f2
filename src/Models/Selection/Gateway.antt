-- ===== src/Models/Selection/Gateway.antt =====
-- src/qveris_bench/models/selection.py: the gateway metrics, the list price and the rows of a
-- selection snapshot. Latencies and credits are any floats, NaN included.
use qveris_capability_benchm.Prelude.{
  ℕ, String, ◌≡◌, ◌≢◌, ◌⊎◌, inl, inr, Bool-cases, refl, Bool, true, false, not, ◌&&◌, ◌||◌, Option,
  none, some, List, [], ◌∷◌, ◌++◌, arith, ◌==◌, ==_iff, string_eq, nat_eq, option_eq, list_eq,
  bool_eq, any, contains, contains-append, same_set, same_set_iff, length, ◌∙◌, Result, ok, ◌>>◌,
  >>-eq-ok, raise_if, raise_if-eq-ok, if◌then◌else◌,
}
use qveris_capability_benchm.Prelude.Int.{◌≤ℤ◌, ltb_ℤ}
use qveris_capability_benchm.Models.Value.{Float, finite, infinity, nan, float_eq}
use qveris_capability_benchm.Prelude.Sort.{insert_by, sort_by}
use qveris_capability_benchm.Models.Enums.{AccessPathType}
use qveris_capability_benchm.Models.Release.{is_empty}
use qveris_capability_benchm.Models.Suite.{is_none, is_some}
use qveris_capability_benchm.Models.Selection.{
  MeasurementState, measured, evidence_insufficient, measurement_state_eq, ObservationWindow,
  RunObservationsSnapshot, OfficialPricingSnapshot, SelectionObservation, MarketCoverageSnapshot,
}

pub record GatewayMetricsSnapshot : Type 0 where
  pub state : MeasurementState
  pub latency_sample_size : ℕ
  pub latency_min_ms : Option Float
  pub latency_median_ms : Option Float
  pub latency_max_ms : Option Float
  pub cost_sample_size : ℕ
  pub median_credits : Option Float
  pub evidence_refs : List String
  pub latency_evidence_refs : List String
  pub cost_evidence_refs : List String

pub data GatewayError : Type 0 where
  incomplete_latency latency_out_of_order incomplete_credits references_mismatch
        not_applicable_with_observations insufficient_with_observations :
      GatewayError

-- `x < y`: `infinity true` is the positive one, and NaN is neither less nor more.
abbrev pub float_lt : Float → Float → Bool
float_lt (finite a) (finite b) = ltb_ℤ a b
float_lt (finite a) (infinity b) = b
float_lt (infinity a) (finite b) = not a
float_lt (infinity a) (infinity b) = not a && b
float_lt _ _ = false

-- The values that are not `None`
abbrev pub given_values : List (Option Float) → List Float
given_values [] = []
given_values (none ∷ vs) = given_values vs
given_values (some v ∷ vs) = v ∷ given_values vs

-- The checks of measured metrics
unfoldable pub check_measured : GatewayMetricsSnapshot → Result GatewayError (Unit {0})
check_measured s = do
  let latency_values = s.latency_min_ms ∷ s.latency_median_ms ∷ s.latency_max_ms ∷ []
  raise_if
      (s.latency_sample_size == 0
        || not (length s.latency_evidence_refs == s.latency_sample_size)
        || any is_none latency_values)
      incomplete_latency
  let complete_latency = given_values latency_values
  raise_if (not (complete_latency == sort_by float_lt complete_latency)) latency_out_of_order
  raise_if
      (not (s.cost_sample_size == length s.cost_evidence_refs)
        || not (not (s.cost_sample_size == 0) == is_some s.median_credits))
      incomplete_credits
  raise_if (not (same_set s.evidence_refs (s.latency_evidence_refs ++ s.cost_evidence_refs)))
      references_mismatch

-- Some observation is carried.
abbrev pub carries_observations : GatewayMetricsSnapshot → Bool
carries_observations s =
    not (is_empty s.evidence_refs)
    || not (is_empty s.latency_evidence_refs)
    || not (is_empty s.cost_evidence_refs)
    || not (s.latency_sample_size == 0)
    || not (s.cost_sample_size == 0)
    || is_some s.latency_min_ms
    || is_some s.latency_median_ms
    || is_some s.latency_max_ms
    || is_some s.median_credits

-- `GatewayMetricsSnapshot.validate_measurement`
unfoldable pub validate_gateway : GatewayMetricsSnapshot → Result GatewayError (Unit {0})
unfolding check_measured
validate_gateway s = do
  if s.state == measured then check_measured s else ok tt
  raise_if (s.state == MeasurementState.not_applicable && carries_observations s)
      not_applicable_with_observations
  raise_if (s.state == evidence_insufficient && carries_observations s)
      insufficient_with_observations

pub data ListPriceState : Type 0 where
  declared not_applicable : ListPriceState

-- The literals `per_call` and `qveris_inspect` have one value each, and a date is its ISO text.
pub record ListPriceSnapshot : Type 0 where
  pub state : ListPriceState
  pub amount_credits : Option Float
  pub unit : Option (Unit {0})
  pub source : Option (Unit {0})
  pub inspected_at : Option String
  pub snapshot_version : Option String
  pub inspect_response_digest : Option String
  pub extractor_version : Option String
  pub disclosure_level : Option String
  pub license_status : Option String
  pub evidence_ref : Option String

pub data ListPriceError : Type 0 where
  requires_provenance carries_facts : ListPriceError

-- For each of the details, whether it is there
abbrev pub details_given : ListPriceSnapshot → List Bool
details_given s =
    is_some s.amount_credits
    ∷ is_some s.unit
    ∷ is_some s.source
    ∷ is_some s.inspected_at
    ∷ is_some s.inspect_response_digest
    ∷ is_some s.extractor_version
    ∷ is_some s.disclosure_level
    ∷ is_some s.license_status
    ∷ is_some s.evidence_ref
    ∷ []

-- `QVerisListPriceSnapshot.validate_price`
unfoldable pub validate_price : ListPriceSnapshot → Result ListPriceError (Unit {0})
validate_price s = elim s.state [
  | declared ↦ raise_if (any not (details_given s)) requires_provenance
  | ListPriceState.not_applicable ↦ raise_if (any (λ given. given) (details_given s)) carries_facts
]

pub record AgentInterfaceSnapshot : Type 0 where
  pub invalid_input_handling : SelectionObservation
  pub parameter_clarity : SelectionObservation
  pub schema_stability : SelectionObservation
  pub pagination : SelectionObservation
  pub single_tool_completion : SelectionObservation

pub record CaseObservationSnapshot : Type 0 where
  pub case_id : String
  pub negative_control : Bool
  pub outcome : SelectionObservation

pub record SelectionSnapshotRow : Type 0 where
  pub cap_id : String
  pub provider_id : String
  pub provider_name : String
  pub access_path_id : String
  pub access_path_type : AccessPathType
  pub observation_window : ObservationWindow
  pub run_observations : RunObservationsSnapshot
  pub gateway_metrics : GatewayMetricsSnapshot
  pub qveris_list_price : ListPriceSnapshot
  pub official_pricing : OfficialPricingSnapshot
  pub market_coverage : Option MarketCoverageSnapshot
  pub agent_interface : AgentInterfaceSnapshot
  pub case_observations : List CaseObservationSnapshot

-- The order of the floats; NaN is in no order.
abbrev pub AtMost : Float → Float → Type 0
AtMost nan y = ⊥
AtMost (finite a) nan = ⊥
AtMost (infinity a) nan = ⊥
AtMost (finite a) (finite b) = a ≤ℤ b
AtMost (finite a) (infinity b) = b ≡ true
AtMost (infinity a) (finite b) = a ≡ false
AtMost (infinity a) (infinity b) = (a ≡ false) ⊎ (b ≡ true)

-- Two floats are in order, or one of them is NaN.
abbrev pub Ordered : Float → Float → Type 0
Ordered x y = (x ≡ nan) ⊎ (y ≡ nan) ⊎ AtMost x y

-- Measured metrics that are accepted: the latencies are there, in order but for NaN, the samples have one
-- reference each, and the references are those of the samples.
pub record IsComplete (s : GatewayMetricsSnapshot) : Type 0 where
  pub low : Float
  pub middle : Float
  pub high : Float
  pub given :
      (s.latency_min_ms ≡ some low)
      × (s.latency_median_ms ≡ some middle)
      × (s.latency_max_ms ≡ some high)
  pub ordered : Ordered low middle × Ordered middle high
  pub latency_samples : length s.latency_evidence_refs ≡ s.latency_sample_size
  pub cost_samples : length s.cost_evidence_refs ≡ s.cost_sample_size
  pub references :
      (r : String)
      → contains s.evidence_refs r
        ≡ (contains s.latency_evidence_refs r || contains s.cost_evidence_refs r)

not-less : (x y : Float) → float_lt y x ≡ false → Ordered x y
not-less nan y l = inl refl
not-less (finite a) nan l = inr (inl refl)
not-less (infinity a) nan l = inr (inl refl)
not-less (finite a) (finite b) l = inr (inr (ground arith))
not-less (finite a) (infinity true) l = inr (inr refl)
not-less (finite a) (infinity false) l = absurd (cc)
not-less (infinity true) (finite b) l = absurd (cc)
not-less (infinity false) (finite b) l = inr (inr refl)
not-less (infinity true) (infinity true) l = inr (inr (inr refl))
not-less (infinity true) (infinity false) l = absurd (cc)
not-less (infinity false) (infinity b) l = inr (inr (inl refl))

float_lt_irrefl : (x : Float) → float_lt x x ≡ false
float_lt_irrefl (finite a) = ground arith
float_lt_irrefl (infinity true) = refl
float_lt_irrefl (infinity false) = refl
float_lt_irrefl nan = refl

apart : (x y : Float) → float_lt x y ≡ true → x ≢ y
apart x y l e = cc (float_lt_irrefl y)

sorted-ordered :
    (a b c : Float)
    → (a ∷ b ∷ c ∷ []) ≡ sort_by float_lt (a ∷ b ∷ c ∷ [])
    → Ordered a b × Ordered b c
unfolding sort_by insert_by
sorted-ordered a b c h = elim (Bool-cases (float_lt c b)) [
  | inl t ↦ elim (Bool-cases (float_lt c a)) [
    | inl u ↦ absurd (apart c a u (cc (rw (t, u) at h)))
    | inr u ↦ absurd (apart c b t (cc (rw (t, u) at h)))
  ]
  | inr t ↦ elim (Bool-cases (float_lt b a)) [
    | inl u ↦ absurd (apart b a u (cc (rw (t, u) at h)))
    | inr u ↦ (not-less a b u, not-less b c t)
  ]
]

is_some-value : (o : Option Float) → is_none o ≡ false → (v : Float) × (o ≡ some v)
is_some-value none h = absurd (cc)
is_some-value (some v) h = (v, refl)

not-true : (b : Bool) → not b ≡ false → b ≡ true
not-true b h = ground arith

check_measured-IsComplete : (s : GatewayMetricsSnapshot) → check_measured s ≡ ok tt → IsComplete s
unfolding check_measured
check_measured-IsComplete s h =
    let values = s.latency_min_ms ∷ s.latency_median_ms ∷ s.latency_max_ms ∷ [] in
    let missing =
      s.latency_sample_size == 0
      || not (length s.latency_evidence_refs == s.latency_sample_size)
      || any is_none values in
    let (a, h1) = >>-eq-ok (raise_if missing incomplete_latency) _ h in
    let sorted = given_values values == sort_by float_lt (given_values values) in
    let (b, h2) = >>-eq-ok (raise_if (not sorted) latency_out_of_order) _ h1 in
    let credits =
      not (s.cost_sample_size == length s.cost_evidence_refs)
      || not (not (s.cost_sample_size == 0) == is_some s.median_credits) in
    let (c, h3) = >>-eq-ok (raise_if credits incomplete_credits) _ h2 in
    let complete : missing ≡ false = raise_if-eq-ok _ _ a in
    let paid : credits ≡ false = raise_if-eq-ok _ _ c in
    let (low, l) = is_some-value s.latency_min_ms (ground arith) in
    let (middle, m) = is_some-value s.latency_median_ms (ground arith) in
    let (high, n) = is_some-value s.latency_max_ms (ground arith) in
    let in_order =
      (==_iff (given_values values) (sort_by float_lt (given_values values))).0
        (not-true sorted (raise_if-eq-ok _ _ b)) in
    let held =
      (same_set_iff s.evidence_refs (s.latency_evidence_refs ++ s.cost_evidence_refs)).0
        (not-true _ (raise_if-eq-ok _ _ h3)) in
    record {
      low = low;
      middle = middle;
      high = high;
      given = (l, m, n);
      ordered = sorted-ordered low middle high (rw (l, m, n) at in_order);
      latency_samples = ground arith;
      cost_samples = ground arith;
      references = λ r. held r ∙ contains-append s.latency_evidence_refs s.cost_evidence_refs r;
    }

-- Gateway metrics that are accepted as measured have a minimum, a median and a maximum, where the
-- minimum is at most the median and the median at most the maximum unless one of the two is NaN, one
-- reference for each sample of latency and of cost, and as references those of the samples.
pub validate_gateway-IsComplete :
    (s : GatewayMetricsSnapshot) → s.state ≡ measured → validate_gateway s ≡ ok tt → IsComplete s
unfolding validate_gateway
validate_gateway-IsComplete s e h =
    let t = (==_iff s.state measured).1 e in
    let checked = if s.state == measured then check_measured s else ok tt in
    let (a, h1) = >>-eq-ok checked _ h in
    check_measured-IsComplete s (then_part (s.state == measured) (check_measured s) t a)
  where
    then_part :
        (b : Bool) (r : Result GatewayError (Unit {0}))
        → b ≡ true
        → (if b then r else ok tt) ≡ ok tt
        → r ≡ ok tt
    then_part true r t h = h
    then_part false r t h = absurd (cc)
