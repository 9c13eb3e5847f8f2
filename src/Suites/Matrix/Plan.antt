-- ===== src/Suites/Matrix/Plan.antt =====
-- `expand_run_plan` as a whole: when it makes a plan, and what the plan holds.
use qveris_capability_benchm.Prelude.{
  ℕ, ◌*◌, ◌≤◌, String, ◌≡◌, ◌↔◌, List, arith, string_eq, length, Distinct, Bool-cases, inl, inr, ok,
  >>=-eq-ok,
}
use mathlib.Core.List.{Memᴰ}
use qveris_capability_benchm.Models.Enums.{RunMode}
use qveris_capability_benchm.Models.Provider.{AccessPath}
use qveris_capability_benchm.Models.Release.{is_empty}
use qveris_capability_benchm.Models.Run.{RunCell, RunPlan, SourceReference}
use qveris_capability_benchm.Models.Suite.{BenchmarkCase, BenchmarkSuite}
use qveris_capability_benchm.Suites.Matrix.{
  plan_cell, expand_cells, run_keys, duplicates, require_unique_run_keys, expand_run_plan,
  plan_with,
}
use qveris_capability_benchm.Suites.Matrix.Cells.{
  duplicates_none, Distinct-duplicates, length-expand_cells, Memᴰ-expand_cells,
}

pub require_unique-returned :
    (cells : List RunCell) {made : List RunCell}
    → require_unique_run_keys cells ≡ ok made
    → Distinct (run_keys cells) × (made ≡ cells)
unfolding require_unique_run_keys
require_unique-returned cells h = elim (Bool-cases (is_empty (duplicates (run_keys cells)))) [
  | inl e ↦ (duplicates_none (run_keys cells) e, ground arith)
  | inr e ↦ absurd (ground arith)
]

require_unique-Distinct :
    (cells : List RunCell) → Distinct (run_keys cells) → require_unique_run_keys cells ≡ ok cells
unfolding require_unique_run_keys
require_unique-Distinct cells d = let e = Distinct-duplicates (run_keys cells) d in ground arith

module _ (suite : BenchmarkSuite) (cases : List BenchmarkCase) (access_paths : List AccessPath)
    (fingerprint : String) (cap_sources : List SourceReference) (plan : RunPlan) where
  -- A plan is made exactly when the run keys of the expansion differ from one another, and it holds
  -- the expansion.
  pub expand_run_plan_iff :
      (expand_run_plan suite cases access_paths fingerprint cap_sources ≡ ok plan) ↔ (
        Distinct (run_keys (expand_cells suite cases access_paths fingerprint))
        × (plan
            ≡ plan_with suite fingerprint cap_sources
                (expand_cells suite cases access_paths fingerprint)))
  unfolding expand_run_plan
  expand_run_plan_iff =
      let cells = expand_cells suite cases access_paths fingerprint in
      (
        λ h.
            let (made, returned, e) = >>=-eq-ok (require_unique_run_keys cells) _ h in
            let (d, same) = require_unique-returned cells returned in (d, ground arith),
        λ (d, same). rw (require_unique-Distinct cells d) (cc),
      )

  -- A plan that is made has one cell for each case, access path, mode and round, with run keys that
  -- differ from one another.
  pub expand_run_plan_complete :
      expand_run_plan suite cases access_paths fingerprint cap_sources ≡ ok plan
      → (length plan.cells
          ≡ length cases * (length access_paths * (length suite.modes * suite.rounds)))
        × Distinct (run_keys plan.cells)
        × ((case : BenchmarkCase) (path : AccessPath) (mode : RunMode) (k : ℕ)
            → Memᴰ case cases
            → Memᴰ path access_paths
            → Memᴰ mode suite.modes
            → 1 ≤ k
            → k ≤ suite.rounds
            → Memᴰ (plan_cell suite fingerprint case path mode k) plan.cells)
  expand_run_plan_complete h =
      let (d, same) = expand_run_plan_iff.0 h in
      rw same (
        length-expand_cells suite cases access_paths fingerprint,
        d,
        λ case path mode k. Memᴰ-expand_cells suite cases access_paths fingerprint k,
      )
