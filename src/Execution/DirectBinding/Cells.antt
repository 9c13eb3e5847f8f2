-- ===== src/Execution/DirectBinding/Cells.antt =====
-- The registry of direct bindings and the plan's cells: each applicable cell has one binding.
use qveris_capability_benchm.Prelude.{
  String, ◌≡◌, refl, sym, ap, ◌∙◌, All, All-map, for_each-All, true, false, not, ◌&&◌, ◌||◌, List,
  [], ◌∷◌, arith, ◌==◌, ==_iff, contains, select, string_eq, pair_eq, same_set, same_set_iff,
  is_distinct, is_distinct_iff, Distinct, Bool-cases, inl, inr, ok, err, >>-eq-ok, raise_if,
}
use qveris_capability_benchm.Suites.Compiler.{CompiledSuite}
use qveris_capability_benchm.Execution.DirectBinding.{
  DirectBinding, not_one_binding, not_the_applicable_cells, cell_of, only, for_cell, cells_of,
  applicable_cells, check_binding, validate_direct_binding_registry,
}

matching : String → String → List DirectBinding → List DirectBinding
matching case_id access_path_id bindings =
    select (λ (b : DirectBinding). b.case_id == case_id && b.access_path_id == access_path_id)
      bindings

pair_match :
    (b : DirectBinding) (case_id access_path_id : String)
    → (b.case_id == case_id && b.access_path_id == access_path_id)
      ≡ ((case_id, access_path_id) == cell_of b)
unfolding pair_eq
pair_match b case_id access_path_id = ground arith

no_match :
    (case_id access_path_id : String) (bindings : List DirectBinding)
    → contains (cells_of bindings) (case_id, access_path_id) ≡ false
    → matching case_id access_path_id bindings ≡ []
unfolding matching
no_match case_id access_path_id [] h = refl
no_match case_id access_path_id (b ∷ bs) h =
    ground (arith, pair_match b case_id access_path_id, no_match case_id access_path_id bs)

one_match {κ} :
    (P : DirectBinding → Type κ) (case_id access_path_id : String) (bindings : List DirectBinding)
    → All P bindings
    → Distinct (cells_of bindings)
    → contains (cells_of bindings) (case_id, access_path_id) ≡ true
    → (b : DirectBinding) × (matching case_id access_path_id bindings ≡ b ∷ [])
      × (cell_of b ≡ (case_id, access_path_id))
      × P b
unfolding matching
one_match P case_id access_path_id [] p d h = absurd (cc)
one_match P case_id access_path_id (b ∷ bs) p d h =
    elim (Bool-cases ((case_id, access_path_id) == cell_of b)) [
      | inl same ↦
          (let at = (==_iff (case_id, access_path_id) (cell_of b)).0 same in
            let none_else = no_match case_id access_path_id bs (rw at d.0) in
            (b, ground (arith, pair_match b case_id access_path_id), sym at, p.0))
      | inr differ ↦
          (let later : contains (cells_of bs) (case_id, access_path_id) ≡ true = ground arith in
            let (found, matched, at, q) = one_match P case_id access_path_id bs p.1 d.1 later in
            (found, ground (arith, pair_match b case_id access_path_id), at, q))
    ]

suite_checked :
    (compiled : CompiledSuite) (b : DirectBinding)
    → check_binding compiled b ≡ ok tt
    → b.suite_id ≡ compiled.suite.suite_id
unfolding check_binding
suite_checked compiled b h = ground arith

module _ (bindings : List DirectBinding) (compiled : CompiledSuite)
    (case_id access_path_id : String)
    (valid : validate_direct_binding_registry bindings compiled ≡ ok tt) where
  AsPlanned : Type 0
  AsPlanned =
      Distinct (cells_of bindings)
      × (contains (cells_of bindings) (case_id, access_path_id)
          ≡ contains (applicable_cells compiled.run_plan.cells) (case_id, access_path_id))
      × All (λ b. b.suite_id ≡ compiled.suite.suite_id) bindings

  as_planned : AsPlanned
  unfolding validate_direct_binding_registry AsPlanned
  as_planned =
      let planned = applicable_cells compiled.run_plan.cells in
      let other =
        not (is_distinct (cells_of bindings)) || not (same_set (cells_of bindings) planned) in
      let (first, rest) = >>-eq-ok (raise_if other not_the_applicable_cells) _ valid in
      let distinct : is_distinct (cells_of bindings) ≡ true = ground arith in
      let same : same_set (cells_of bindings) planned ≡ true = ground arith in
      (
        (is_distinct_iff (cells_of bindings)).0 distinct,
        (same_set_iff (cells_of bindings) planned).0 same (case_id, access_path_id),
        All-map (suite_checked compiled) bindings
            (for_each-All (check_binding compiled) bindings rest),
      )

  -- A registry that was validated resolves an applicable cell of the plan to a binding of that cell
  -- and of the suite.
  pub for_cell-applicable :
      contains (applicable_cells compiled.run_plan.cells) (case_id, access_path_id) ≡ true
      → (b : DirectBinding) × (for_cell bindings case_id access_path_id ≡ ok b)
        × (cell_of b ≡ (case_id, access_path_id))
        × (b.suite_id ≡ compiled.suite.suite_id)
  unfolding for_cell AsPlanned matching
  for_cell-applicable h =
      let (d, same, suites) = as_planned in
      let (b, matched, at, own) =
        one_match (λ b. b.suite_id ≡ compiled.suite.suite_id) case_id access_path_id bindings suites
          d (same ∙ h) in
      (b, ap only matched, at, own)

  -- A registry that was validated refuses a case and an access path that are no applicable cell.
  pub for_cell-other :
      contains (applicable_cells compiled.run_plan.cells) (case_id, access_path_id) ≡ false
      → for_cell bindings case_id access_path_id ≡ err not_one_binding
  unfolding for_cell AsPlanned matching
  for_cell-other h =
      let (d, same, suites) = as_planned in
      ap only (no_match case_id access_path_id bindings (same ∙ h))
