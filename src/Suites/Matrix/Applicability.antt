-- ===== src/Suites/Matrix/Applicability.antt =====
-- Which cells of a plan are applicable.
use qveris_capability_benchm.Prelude.{
  String, ◌≡◌, ◌≢◌, ◌↔◌, ◌⊎◌, true, false, Option, none, some, List, [], ◌∷◌, arith, contains,
  string_eq, All,
}
use qveris_capability_benchm.Models.Enums.{RunMode, agent_trial, run_mode_eq}
use qveris_capability_benchm.Models.Provider.{AccessPath}
use qveris_capability_benchm.Models.Suite.{ApplicabilityRule, BenchmarkCase, BenchmarkSuite}
use qveris_capability_benchm.Suites.Matrix.{
  rule_matches, rule_reason, other_reason, applicability_reason,
}

-- The rule names the case, the access path and, if it names a mode, the mode.
abbrev pub Covers : ApplicabilityRule → BenchmarkCase → AccessPath → RunMode → Type 0
Covers rule case access_path mode =
    (rule.case_id ≡ case.case_id)
    × (rule.access_path_id ≡ access_path.access_path_id)
    × ((rule.mode ≡ none) ⊎ (rule.mode ≡ some mode))

module _ (case : BenchmarkCase) (access_path : AccessPath) (mode : RunMode) where
  not_matches-Covers :
      (rule : ApplicabilityRule)
      → (rule_matches rule case access_path mode ≡ false) ↔ (¬ Covers rule case access_path mode)
  unfolding rule_matches
  not_matches-Covers rule = (λ h c. ground arith, λ h. ground arith)

  rule_reason_iff :
      (rules : List ApplicabilityRule) (otherwise : Option String)
      → (rule_reason rules case access_path mode otherwise ≡ none)
        ↔ (All (λ rule. ¬ Covers rule case access_path mode) rules × (otherwise ≡ none))
  unfolding rule_reason
  rule_reason_iff [] otherwise = (λ h. (tt, h), λ h. h.1)
  rule_reason_iff (rule ∷ rules) otherwise = (
    λ h.
        let (rest, o) = (rule_reason_iff rules otherwise).0 (ground arith) in
        (((not_matches-Covers rule).0 (ground arith), rest), o),
    λ (h, o).
        let e = (not_matches-Covers rule).1 h.0 in
        rw e ((rule_reason_iff rules otherwise).1 (h.1, o)),
  )

  abbrev IsOpen : Type 0
  IsOpen =
      ((case.applicable_provider_ids ≡ [])
        ⊎ (contains case.applicable_provider_ids access_path.provider_id ≡ true))
      × ((mode ≢ agent_trial) ⊎ (access_path.agent_trial_eligible ≡ true))

  other_reason-IsOpen : other_reason case access_path mode ≡ none → IsOpen
  unfolding other_reason
  other_reason-IsOpen h = (ground arith, ground arith)

  IsOpen-other_reason : IsOpen → other_reason case access_path mode ≡ none
  unfolding other_reason
  IsOpen-other_reason h = ground arith

  -- A cell is applicable exactly when no rule of the suite covers it, its case is not limited to
  -- other Providers, and an Agent Trial has an eligible access path.
  pub applicability_reason_iff :
      (suite : BenchmarkSuite)
      → (applicability_reason suite case access_path mode ≡ none) ↔ (
          All (λ rule. ¬ Covers rule case access_path mode) suite.not_applicable
          × ((case.applicable_provider_ids ≡ [])
              ⊎ (contains case.applicable_provider_ids access_path.provider_id ≡ true))
          × ((mode ≢ agent_trial) ⊎ (access_path.agent_trial_eligible ≡ true)))
  unfolding applicability_reason
  applicability_reason_iff suite =
      let loop = rule_reason_iff suite.not_applicable (other_reason case access_path mode) in
      (
        λ h.
            let (uncovered, o) = loop.0 h in
            let (providers, trial) = other_reason-IsOpen o in (uncovered, providers, trial),
        λ (uncovered, providers, trial). loop.1 (uncovered, IsOpen-other_reason (providers, trial)),
      )
