-- ===== src/AgentTrial/ParamFill/Tests.antt =====
-- A contract with one required parameter, and a model that fills it in.
use qveris_capability_benchm.Prelude.{
  ℕ, suc, ◌≡◌, map, refl, true, some, [], ◌∷◌, ok, string_eq, All,
}
use qveris_capability_benchm.Prelude.Int.{int_eq}
use qveris_capability_benchm.Models.Value.{Value, str, list, dict, nil, cons, Fields, end, field}
use qveris_capability_benchm.AgentTrial.Messages.{as_list, extract_tool_call}
use qveris_capability_benchm.AgentTrial.ParamFill.{
  pass, ToolContract, AgentQuestion, ParamFillResult, Python, normalize_value, type_valid,
  checks_of, classify_failure, evaluate_arguments, evaluate_function, evaluate_call,
  evaluate_tool_call, run_rounds, run_probe,
}
use qveris_capability_benchm.AgentTrial.ParamFill.Passed.{
  IsClassified, Passes, evaluate_tool_call_sound,
}
use qveris_capability_benchm.AgentTrial.ParamFill.Probe.{asked, pairs, IsProbed, run_probe_sound}

abbrev python : Python
python = record {
  loads = λ text. some (dict (field "symbol" (str "AAPL") end));
  py_str = λ value. "AAPL";
  strip = λ text. text;
  upper = λ text. text;
  sanitize = λ tool_id. "get_price";
}

abbrev contract : ToolContract
contract = record {
  tool_id = "get.price";
  provider_id = "provider";
  access_path_id = "path";
  name = "Price";
  description = "a price";
  params = record { name = "symbol"; type = "string"; required = true; description = "" } ∷ [];
}

abbrev question : AgentQuestion
question = record {
  question_id = "q";
  task = "the price";
  expected_params = ("symbol", "AAPL") ∷ [];
  forbidden_params = "market" ∷ [];
  difficulty = "L1";
}

abbrev tool_call : Value
tool_call = dict (
    field "function"
      (dict (field "name" (str "get_price") (field "arguments" (str "{symbol: AAPL}") end))) end)

abbrev message : Fields
message = field "tool_calls" (list (cons tool_call nil)) end

abbrev filled : ParamFillResult
filled = record {
  question_id = "q";
  round = 0;
  model = "";
  tool_call = some tool_call;
  checks = record {
    single_tool = true;
    required_present = true;
    value_valid = true;
    no_forbidden = true;
    semantics_match = true;
  };
  passed = true;
  notes = "";
  failure_mode = pass;
  difficulty = "L1";
  provider_id = "";
  access_path_id = "";
}

message_passes : evaluate_tool_call python contract question message ≡ ok filled
unfolding evaluate_tool_call extract_tool_call evaluate_call evaluate_function evaluate_arguments
    checks_of classify_failure type_valid normalize_value string_eq
message_passes = refl

evaluate_tool_call_sound_example :
    IsClassified filled
    × (true ≡ true
        → (call : Value) × (as_list (list (cons tool_call nil)) ≡ ok (call ∷ []))
          × Passes python contract question call)
unfolding string_eq
evaluate_tool_call_sound_example =
    evaluate_tool_call_sound python contract question message filled message_passes

abbrev answers : AgentQuestion → ToolContract → ℕ → Fields × ℕ
answers _ _ calls = (message, suc calls)

abbrev probed : ℕ → ParamFillResult
probed k = record filled {
  round = k;
  model = "m";
  provider_id = "provider";
  access_path_id = "path";
}

probe_returns :
    run_probe python answers contract "m" (question ∷ []) 2 0 ≡ ok (probed 1 ∷ probed 2 ∷ [], 2)
unfolding run_probe run_rounds evaluate_tool_call extract_tool_call evaluate_call evaluate_function
    evaluate_arguments checks_of classify_failure type_valid normalize_value string_eq
probe_returns = refl

run_probe_sound_example :
    (map asked (probed 1 ∷ probed 2 ∷ []) ≡ pairs (question ∷ []) 2)
    × All (IsProbed python answers contract "m" 1 3) (probed 1 ∷ probed 2 ∷ [])
run_probe_sound_example =
    run_probe_sound python answers contract "m" (question ∷ []) 2 0 (probed 1 ∷ probed 2 ∷ []) 2
      probe_returns
