-- ===== src/AgentTrial/ParamFill/Question.antt =====
-- The result of a tool call names the question that was asked.
use qveris_capability_benchm.Prelude.{
  String, else_branch, then_branch, ◌≡◌, refl, Option, none, some, Bool-cases, inl, inr, ok,
  >>=-eq-ok, ok-injective,
}
use qveris_capability_benchm.Models.Value.{Value, null, bool, int, float, str, list, dict, Fields}
use qveris_capability_benchm.AgentTrial.Messages.{get_or, extract_tool_call}
use qveris_capability_benchm.AgentTrial.ParamFill.{
  ToolContract, AgentQuestion, ParamFillResult, Python, is_tool, load_arguments, evaluate_arguments,
  evaluate_function, function_of, evaluate_call, evaluate_tool_call,
}

module _ (python : Python) (contract : ToolContract) (question : AgentQuestion) where
  abbrev AsksIt : ParamFillResult → Type 0
  AsksIt result = result.question_id ≡ question.question_id

  evaluate_arguments-AsksIt :
      (tool_call : Value) (note : String) (o : Option Value)
      → AsksIt (evaluate_arguments python contract question tool_call note o)
  unfolding evaluate_arguments
  evaluate_arguments-AsksIt tool_call note none = refl
  evaluate_arguments-AsksIt tool_call note (some null) = refl
  evaluate_arguments-AsksIt tool_call note (some (bool b)) = refl
  evaluate_arguments-AsksIt tool_call note (some (int n)) = refl
  evaluate_arguments-AsksIt tool_call note (some (float x)) = refl
  evaluate_arguments-AsksIt tool_call note (some (str s)) = refl
  evaluate_arguments-AsksIt tool_call note (some (list vs)) = refl
  evaluate_arguments-AsksIt tool_call note (some (dict arguments)) = refl

  evaluate_function-AsksIt :
      (tool_call : Value) (note : String) (function : Fields) {result : ParamFillResult}
      → evaluate_function python contract question tool_call note function ≡ ok result
      → AsksIt result
  unfolding evaluate_function
  evaluate_function-AsksIt tool_call note function h =
      let (matches, m, h1) =
        >>=-eq-ok (is_tool python contract (get_or null "name" function)) _ h in
      elim (Bool-cases matches) [
        | inl t ↦
            (let (o, l, h2) =
                >>=-eq-ok (load_arguments python (get_or null "arguments" function)) _
                  (else_branch _ _ matches t h1) in
              rw (ok-injective h2) (evaluate_arguments-AsksIt tool_call note o))
        | inr f ↦ rw (ok-injective (then_branch _ _ matches f h1)) refl
      ]

  evaluate_call-AsksIt :
      (extracted : Option Value × String) {result : ParamFillResult}
      → evaluate_call python contract question extracted ≡ ok result
      → AsksIt result
  unfolding evaluate_call
  evaluate_call-AsksIt (none, note) h = rw (ok-injective h) refl
  evaluate_call-AsksIt (some tool_call, note) h =
      let (function, f, h1) = >>=-eq-ok (function_of python tool_call) _ h in
      evaluate_function-AsksIt tool_call note function h1

  pub evaluate_tool_call-question_id :
      (message : Fields) {result : ParamFillResult}
      → evaluate_tool_call python contract question message ≡ ok result
      → result.question_id ≡ question.question_id
  unfolding evaluate_tool_call
  evaluate_tool_call-question_id message h =
      let (extracted, e, h1) = >>=-eq-ok (extract_tool_call python.py_str message) _ h in
      evaluate_call-AsksIt extracted h1
