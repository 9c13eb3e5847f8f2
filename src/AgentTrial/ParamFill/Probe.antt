-- ===== src/AgentTrial/ParamFill/Probe.antt =====
-- What a probe returns: one classified result for each question and round.
use qveris_capability_benchm.Prelude.{
  ℕ, zero, suc, ◌+◌, ◌≤◌, ◌<◌, String, ◌≡◌, ◌↔◌, refl, ap, ◌∙◌, true, List, [], ◌∷◌, ◌++◌, map,
  arith, All, All-append, All-map, ok, >>=-eq-ok, ok-injective,
}
use mathlib.Core.List.{flat_map, map-append}
use qveris_capability_benchm.Models.Value.{Fields}
use qveris_capability_benchm.Suites.Matrix.{range_from}
use qveris_capability_benchm.AgentTrial.ParamFill.{
  pass, ToolContract, AgentQuestion, ParamFillResult, checks_passed, classify_failure, Python,
  evaluate_tool_call, in_round, run_rounds, run_probe,
}
use qveris_capability_benchm.AgentTrial.ParamFill.Passed.{
  IsClassified, result_of-IsClassified, evaluate_tool_call_sound,
}
use qveris_capability_benchm.AgentTrial.ParamFill.Question.{evaluate_tool_call-question_id}

-- The question and the round of a result
abbrev pub asked : ParamFillResult → String × ℕ
asked result = (result.question_id, result.round)

-- Each question with each round from 1 on
abbrev pub pairs : List AgentQuestion → ℕ → List (String × ℕ)
pairs questions rounds =
    flat_map
      (λ (question : AgentQuestion). map (λ k. (question.question_id, k)) (range_from 1 rounds))
      questions

abbrev InRange : ℕ → ℕ → ℕ → Type 0
InRange low high k = (low ≤ k) × (k < high)

range_from-All : (start n : ℕ) → All (InRange start (start + n)) (range_from start n)
range_from-All start zero = tt
range_from-All start (suc n) = (
  (omega arith, omega arith),
  All-map (λ k h. (omega (arith, h.0), omega (arith, h.1))) (range_from (suc start) n)
      (range_from-All (suc start) n),
)

rounds_InRange : (rounds : ℕ) → All (InRange 1 (suc rounds)) (range_from 1 rounds)
rounds_InRange rounds =
    All-map (λ k h. (h.0, omega (arith, h.1))) (range_from 1 rounds) (range_from-All 1 rounds)

module _ (python : Python) {W : Type 0} (llm_fn : AgentQuestion → ToolContract → W → Fields × W)
    (contract : ToolContract) (model : String) where
  -- A result of a probe: its round is one of the probe's, and it says PASS exactly when it passed.
  pub record IsProbed (low high : ℕ) (result : ParamFillResult) : Type 0 where
    pub in_range : InRange low high result.round
    pub of_model : result.model ≡ model
    pub of_contract :
        (result.provider_id ≡ contract.provider_id)
        × (result.access_path_id ≡ contract.access_path_id)
    pub checked : result.passed ≡ checks_passed result.checks
    pub classified : (result.passed ≡ true) ↔ (result.failure_mode ≡ pass)

  asked_first :
      {k : ℕ} {i j : String} {first rest : List (String × ℕ)}
      → i ≡ j
      → first ≡ rest
      → (i, k) ∷ first ≡ (j, k) ∷ rest
  asked_first e f = rw (e, f) refl

  in_round-IsProbed :
      (question : AgentQuestion) (low high k : ℕ) (result : ParamFillResult)
      → InRange low high k
      → IsClassified result
      → IsProbed low high (in_round python llm_fn contract model question k result)
  unfolding classify_failure
  in_round-IsProbed question low high k result r c = record {
    in_range = r;
    of_model = refl;
    of_contract = (refl, refl);
    checked = c.checked;
    classified =
        (result_of-IsClassified question result.tool_call result.checks result.passed result.notes
          c.checked).classified;
  }

  run_rounds-IsProbed :
      (question : AgentQuestion) (low high : ℕ) (rounds : List ℕ) (w : W)
      (results : List ParamFillResult) {w' : W}
      → run_rounds python llm_fn contract model question rounds w ≡ ok (results, w')
      → All (InRange low high) rounds
      → (map asked results ≡ map (λ k. (question.question_id, k)) rounds)
        × All (IsProbed low high) results
  unfolding run_rounds
  run_rounds-IsProbed question low high [] w results h f =
      let none_left : results ≡ [] = ap (λ (p : List ParamFillResult × W). p.0) (ok-injective h) in
      rw none_left (refl, tt)
  run_rounds-IsProbed question low high (k ∷ rounds) w results h f =
      let next = llm_fn question contract w in
      let (result, e, h1) = >>=-eq-ok (evaluate_tool_call python contract question next.0) _ h in
      let (rest, r, h2) =
        >>=-eq-ok (run_rounds python llm_fn contract model question rounds next.1) _ h1 in
      let whole = ap (λ (p : List ParamFillResult × W). p.0) (ok-injective h2) in
      let (order, probed) = run_rounds-IsProbed question low high rounds next.1 rest.0 r f.1 in
      let same = evaluate_tool_call-question_id python contract question next.0 e in
      let judged = evaluate_tool_call_sound python contract question next.0 result e in
      rw whole (
        asked_first same order,
        (in_round-IsProbed question low high k result f.0 judged.0, probed),
      )

  -- A probe that returns has one result for each question and each round from 1 to the number of
  -- rounds, in this order; each names the model and the contract's Provider and access path, passed
  -- exactly when its five checks hold, and says PASS exactly when it passed.
  pub run_probe_sound :
      (questions : List AgentQuestion) (rounds : ℕ) (w : W) (results : List ParamFillResult)
      (w' : W)
      → run_probe python llm_fn contract model questions rounds w ≡ ok (results, w')
      → (map asked results ≡ pairs questions rounds) × All (IsProbed 1 (suc rounds)) results
  unfolding run_probe flat_map
  run_probe_sound [] rounds w results w' h =
      let none_left : results ≡ [] = ap (λ (p : List ParamFillResult × W). p.0) (ok-injective h) in
      rw none_left (refl, tt)
  run_probe_sound (question ∷ questions) rounds w results w' h =
      let (first, f, h1) =
        >>=-eq-ok (run_rounds python llm_fn contract model question (range_from 1 rounds) w) _ h in
      let (rest, r, h2) =
        >>=-eq-ok (run_probe python llm_fn contract model questions rounds first.1) _ h1 in
      let whole = ap (λ (p : List ParamFillResult × W). p.0) (ok-injective h2) in
      let (order, probed) =
        run_rounds-IsProbed question 1 (suc rounds) (range_from 1 rounds) w first.0 f
          (rounds_InRange rounds) in
      let (others, all_probed) = run_probe_sound questions rounds first.1 rest.0 rest.1 r in
      rw whole (
        map-append asked first.0 rest.0
            ∙ ap (λ ps. ps ++ map asked rest.0) order
            ∙ ap (λ ps. map (λ k. (question.question_id, k)) (range_from 1 rounds) ++ ps) others,
        All-append (IsProbed 1 (suc rounds)) first.0 rest.0 probed all_probed,
      )
