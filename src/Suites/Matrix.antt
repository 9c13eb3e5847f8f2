-- ===== src/Suites/Matrix.antt =====
-- src/qveris_bench/suites/matrix.py: the expansion of a suite into the cells of its run plan.
pub mod Cells
pub mod Plan
pub mod Applicability
use qveris_capability_benchm.Prelude.{
  ℕ, zero, suc, ◌+◌, String, Bool, true, false, not, ◌&&◌, ◌||◌, Option, none, some, List, [], ◌∷◌,
  ◌++◌, map, ◌==◌, contains, select, to_set, count, ltb, if◌then◌else◌, string_eq, Result, ok, err,
  ◌>>=◌, ◌>>◌, raise_if,
}
use mathlib.Core.List.{flat_map}
use qveris_capability_benchm.Prelude.Sort.{sort_by, str_lt}
use qveris_capability_benchm.Prelude.Text.{join, prefix, decimal}
use qveris_capability_benchm.Models.Enums.{
  RunMode, agent_trial, run_mode_eq, run_mode_value, CellState, planned, not_applicable,
}
use qveris_capability_benchm.Models.Provider.{AccessPath}
use qveris_capability_benchm.Models.Release.{is_empty}
use qveris_capability_benchm.Models.Run.{RunCell, RunPlan, SourceReference}
use qveris_capability_benchm.Models.Suite.{
  BenchmarkCase, BenchmarkSuite, ApplicabilityRule, is_none,
}

unfoldable pub canonical_run_key : String → String → String → String → String → RunMode → ℕ → String
unfolding join prefix
canonical_run_key suite_id suite_fingerprint case_id provider_id access_path_id mode round_number =
    join ":" (
      suite_id
      ∷ prefix 12 suite_fingerprint
      ∷ case_id
      ∷ provider_id
      ∷ access_path_id
      ∷ run_mode_value mode
      ∷ decimal round_number
      ∷ [])

-- `rule.mode is None or rule.mode is mode`
applies_to_mode : Option RunMode → RunMode → Bool
applies_to_mode none mode = true
applies_to_mode (some m) mode = m == mode

unfoldable pub rule_matches : ApplicabilityRule → BenchmarkCase → AccessPath → RunMode → Bool
unfolding applies_to_mode
rule_matches rule case access_path mode =
    rule.case_id == case.case_id
    && rule.access_path_id == access_path.access_path_id
    && applies_to_mode rule.mode mode

-- The loop over the rules: the reason of the first that matches, else what follows the loop.
rule_reason :
    List ApplicabilityRule → BenchmarkCase → AccessPath → RunMode → Option String → Option String
unfolding rule_matches
rule_reason [] case access_path mode otherwise = otherwise
rule_reason (rule ∷ rules) case access_path mode otherwise =
    let rest = rule_reason rules case access_path mode otherwise in
    if rule_matches rule case access_path mode then some rule.reason else rest

-- What follows the loop.
other_reason : BenchmarkCase → AccessPath → RunMode → Option String
other_reason case access_path mode =
    if not (is_empty case.applicable_provider_ids)
      && not (contains case.applicable_provider_ids access_path.provider_id)
    then some "Case does not apply to this Provider."
    else if mode == agent_trial && not access_path.agent_trial_eligible
    then some "Access Path is not eligible for Agent Trial."
    else none

-- `_applicability_reason`
unfoldable pub applicability_reason :
    BenchmarkSuite → BenchmarkCase → AccessPath → RunMode → Option String
unfolding rule_reason other_reason
applicability_reason suite case access_path mode =
    rule_reason suite.not_applicable case access_path mode (other_reason case access_path mode)

-- The cell of one case, access path, mode and round.
unfoldable pub plan_cell :
    BenchmarkSuite → String → BenchmarkCase → AccessPath → RunMode → ℕ → RunCell
plan_cell suite fingerprint case access_path mode round_number =
    let reason = applicability_reason suite case access_path mode in
    record {
      run_key =
          canonical_run_key suite.suite_id fingerprint case.case_id access_path.provider_id
            access_path.access_path_id mode round_number;
      case_id = case.case_id;
      case_input = case.input;
      provider_id = access_path.provider_id;
      access_path_id = access_path.access_path_id;
      mode = mode;
      round = round_number;
      applicable = is_none reason;
      applicability_reason = reason;
      state = if is_none reason then planned else not_applicable;
      failure_attribution = none;
    }

-- `range(start, start + n)`
abbrev pub range_from : ℕ → ℕ → List ℕ
range_from start zero = []
range_from start (suc n) = start ∷ range_from (suc start) n

-- The cells in the order of the four loops.
unfoldable pub expand_cells :
    BenchmarkSuite → List BenchmarkCase → List AccessPath → String → List RunCell
expand_cells suite cases access_paths fingerprint =
    flat_map
      (λ case.
        flat_map
          (λ access_path.
            flat_map
              (λ mode.
                map (plan_cell suite fingerprint case access_path mode) (range_from 1 suite.rounds))
              suite.modes)
          access_paths)
      cases

pub data MatrixError : Type 0 where
  duplicate_run_key : List String → MatrixError

abbrev pub run_keys : List RunCell → List String
run_keys [] = []
run_keys (cell ∷ cells) = cell.run_key ∷ run_keys cells

-- `sorted({key for key in keys if keys.count(key) > 1})`
unfoldable pub duplicates : List String → List String
unfolding sort_by to_set
duplicates keys = sort_by str_lt (to_set (select (λ key. ltb 1 (count key keys)) keys))

-- `_require_unique_run_keys`
unfoldable pub require_unique_run_keys : List RunCell → Result MatrixError (List RunCell)
require_unique_run_keys cells = do
  raise_if (not (is_empty (duplicates (run_keys cells))))
      (duplicate_run_key (duplicates (run_keys cells)))
  ok cells

abbrev pub plan_with : BenchmarkSuite → String → List SourceReference → List RunCell → RunPlan
plan_with suite fingerprint cap_sources cells = record {
  suite_id = suite.suite_id;
  suite_fingerprint = fingerprint;
  cap_id = some suite.cap_id;
  cap_version = some suite.cap_version;
  cap_sources = cap_sources;
  cells = cells;
}

unfoldable pub expand_run_plan :
    BenchmarkSuite
    → List BenchmarkCase
    → List AccessPath
    → String
    → List SourceReference
    → Result MatrixError RunPlan
unfolding expand_cells require_unique_run_keys
expand_run_plan suite cases access_paths fingerprint cap_sources = do
  cells ← require_unique_run_keys (expand_cells suite cases access_paths fingerprint)
  ok (plan_with suite fingerprint cap_sources cells)
