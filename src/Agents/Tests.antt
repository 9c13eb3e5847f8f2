-- ===== src/Agents/Tests.antt =====
-- A client that answers with one call of the tool.
use qveris_capability_benchm.Prelude.{ℕ, suc, String, Option, some, ok, Result}
use qveris_capability_benchm.Prelude.Int.{pos}
use qveris_capability_benchm.Models.Value.{
  Value, int, str, list, dict, nil, cons, Fields, end, field,
}
use qveris_capability_benchm.Agents.{
  AgentTrialError, Response, mapping, AgentTrace, Trial, Invoked, returned, output_tokens,
}

abbrev filled : Fields
filled = field "symbol" (str "AAPL") end

abbrev loads : String → Option Value
loads text = some (dict filled)

abbrev trial : Trial
trial = record {
  model_name = "m";
  canonical_tool = "tool";
  token_budget = 100;
  timeout = 10;
  input_schema =
      field "properties" (dict (field "symbol" (dict (field "type" (str "string") end)) end))
        (field "required" (list (cons (str "symbol") nil)) end);
}

abbrev response : Response
response = mapping (
    field "output"
      (list (
        cons
          (dict (
            field "type" (str "function_call")
              (field "name" (str "tool") (field "arguments" (str "{}") end))))
          nil))
      (field "usage" (dict (field "output_tokens" (int (pos 40)) end)) end))

abbrev monotonic : ℕ → ℕ × ℕ
monotonic now = (now, suc now)

abbrev create : String → String → Trial → ℕ → Result AgentTrialError Response × ℕ
create model prompt frozen now = (ok response, now)

abbrev invoke : Fields → ℕ → Result AgentTrialError (Invoked loads trial monotonic 1 create) × ℕ
invoke arguments now = (ok (returned (str "price")), now)

abbrev trace : AgentTrace
trace = record {
  calls = 1;
  elapsed = 1;
  output_tokens = 40;
  arguments = filled;
  tool_result = str "price";
}
