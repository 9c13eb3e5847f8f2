-- ===== src/AgentTrial/ErrorRecovery/Tests.antt =====
-- A retry with the expected parameter.
use qveris_capability_benchm.Prelude.{String, ◌≡◌, refl, true, some, [], ◌∷◌, ok, string_eq, Bool}
use qveris_capability_benchm.Models.Value.{Value, str, list, dict, nil, cons, Fields, end, field}
use qveris_capability_benchm.AgentTrial.Messages.{as_list, extract_tool_call}
use qveris_capability_benchm.AgentTrial.ParamFill.{
  ToolContract, Python, normalize_value, function_of, is_tool, load_arguments,
}
use qveris_capability_benchm.AgentTrial.ErrorRecovery.{
  RecoveryQuestion, RecoveryResult, error_identified, recovery_checks, recover_arguments,
  recover_call, evaluate_recovery,
}
use qveris_capability_benchm.AgentTrial.ErrorRecovery.Recovered.{
  Recovers, IsScored, evaluate_recovery_sound,
}

abbrev python : Python
python = record {
  loads = λ text. some (dict (field "symbol" (str "AAPL") end));
  py_str = λ value. "AAPL";
  strip = λ text. text;
  upper = λ text. text;
  sanitize = λ tool_id. "get_price";
}

abbrev same_text : String → String
same_text text = text

abbrev found : String → String → Bool
found signal text = true

abbrev contract : ToolContract
contract = record {
  tool_id = "get.price";
  provider_id = "provider";
  access_path_id = "path";
  name = "Price";
  description = "a price";
  params = record { name = "symbol"; type = "string"; required = true; description = "" } ∷ [];
}

abbrev question : RecoveryQuestion
question = record {
  question_id = "q";
  task = "the price";
  failure_response = "not found";
  expected_retry_params = ("symbol", "AAPL") ∷ [];
  forbidden_params = "market" ∷ [];
  difficulty = "L2";
}

abbrev tool_call : Value
tool_call = dict (
    field "function"
      (dict (field "name" (str "get_price") (field "arguments" (str "{symbol: AAPL}") end))) end)

abbrev message : Fields
message = field "tool_calls" (list (cons tool_call nil)) end

abbrev retried : RecoveryResult
retried = record {
  question_id = "q";
  round = 0;
  model = "";
  content = "";
  tool_call = some tool_call;
  checks = record {
    single_tool = true;
    error_identified = true;
    retry_params_correct = true;
    no_forbidden = true;
  };
  passed = true;
  notes = "";
  difficulty = "L2";
  provider_id = "";
  access_path_id = "";
}

message_recovers : evaluate_recovery python same_text found contract question message ≡ ok retried
unfolding error_identified function_of is_tool load_arguments evaluate_recovery extract_tool_call
    recover_call recover_arguments recovery_checks normalize_value string_eq
message_recovers = refl

evaluate_recovery_sound_example :
    IsScored python same_text found contract question retried
    × (true ≡ true
        → (call : Value) × (as_list (list (cons tool_call nil)) ≡ ok (call ∷ []))
          × Recovers python same_text found contract question call)
unfolding string_eq
evaluate_recovery_sound_example =
    evaluate_recovery_sound python same_text found contract question message retried
      message_recovers
