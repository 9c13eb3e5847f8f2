-- ===== src/AgentTrial/ErrorRecovery.antt =====
-- src/qveris_bench/agent_trial/error_recovery.py: the check of a retry behind a failed response.
-- `str.lower` and the test `signal in text` are parameters.
pub mod Recovered
mod Tests
use qveris_capability_benchm.Prelude.{
  ℕ, String, Bool, true, false, not, ◌&&◌, Option, none, some, List, [], ◌∷◌, ◌++◌, all, any,
  contains, difference, if◌then◌else◌, Result, ok, err, ◌>>=◌,
}
use qveris_capability_benchm.Prelude.Dict.{Dict}
use qveris_capability_benchm.Prelude.Equality.{string_eq}
use qveris_capability_benchm.Prelude.Text.{join}
use qveris_capability_benchm.Models.Release.{is_empty}
use qveris_capability_benchm.Models.Value.{Value, null, dict, Fields}
use qveris_capability_benchm.Suites.Matrix.{range_from}
use qveris_capability_benchm.AgentTrial.Messages.{
  TrialError, get_or, field_names, truthy, extract_tool_call,
}
use qveris_capability_benchm.AgentTrial.ParamFill.{
  ToolContract, declared_params, Python, is_expected, is_tool, load_arguments, function_of,
}

pub record RecoveryQuestion : Type 0 where
  pub question_id : String
  pub task : String
  pub failure_response : String
  pub expected_retry_params : Dict String String
  pub forbidden_params : List String
  pub difficulty : String

pub record RecoveryChecks : Type 0 where
  pub single_tool : Bool
  pub error_identified : Bool
  pub retry_params_correct : Bool
  pub no_forbidden : Bool

pub record RecoveryResult : Type 0 where
  pub question_id : String
  pub round : ℕ
  pub model : String
  pub content : String
  pub tool_call : Option Value
  pub checks : RecoveryChecks
  pub passed : Bool
  pub notes : String
  pub difficulty : String
  pub provider_id : String
  pub access_path_id : String

-- `RecoveryChecks.passed`: that the error was named does not count.
abbrev pub recovery_passed : RecoveryChecks → Bool
recovery_passed checks = checks.single_tool && checks.retry_params_correct && checks.no_forbidden

-- `_ERROR_SIGNALS`
error_signals : List String
error_signals =
    "not found" ∷ "invalid" ∷ "error" ∷ "fail" ∷ "wrong" ∷ "retry" ∷ "correct" ∷ "无数据" ∷ "无效"
    ∷ "未找到" ∷ "失败" ∷ "错误" ∷ "修正" ∷ "重试" ∷ "改为" ∷ "换成" ∷ "不存在" ∷ []

-- `_error_identified`
unfoldable pub error_identified : (String → String) → (String → String → Bool) → String → Bool
unfolding error_signals
error_identified lower is_in content = any (λ signal. is_in signal (lower content)) error_signals

module _ (python : Python) (lower : String → String) (is_in : String → String → Bool)
    (contract : ToolContract) where
  -- The content of a message: `str(message.get("content") or "")`
  abbrev pub content_of : Fields → String
  content_of message =
      let content = get_or null "content" message in
      if truthy content then python.py_str content else ""

  -- A result with the defaults of the fields that the evaluation leaves out
  abbrev pub recovery_of :
      RecoveryQuestion → String → Option Value → RecoveryChecks → Bool → String → RecoveryResult
  recovery_of question content tool_call checks passed notes = record {
    question_id = question.question_id;
    round = 0;
    model = "";
    content = content;
    tool_call = tool_call;
    checks = checks;
    passed = passed;
    notes = notes;
    difficulty = "L2";
    provider_id = "";
    access_path_id = "";
  }

  abbrev pub unrecovered : RecoveryQuestion → String → Option Value → String → RecoveryResult
  unrecovered question content tool_call notes =
      recovery_of question content tool_call
        (record {
          single_tool = false;
          error_identified = error_identified lower is_in content;
          retry_params_correct = false;
          no_forbidden = false;
        })
        false notes

  unfoldable pub recovery_checks : RecoveryQuestion → String → Fields → RecoveryChecks
  recovery_checks question content arguments = record {
    single_tool = true;
    error_identified = error_identified lower is_in content;
    retry_params_correct = all (is_expected python arguments) question.expected_retry_params;
    no_forbidden =
        is_empty (difference (field_names arguments) (declared_params contract))
        && not (any (contains (field_names arguments)) question.forbidden_params);
  }

  -- The part behind the parser
  unfoldable pub recover_arguments :
      RecoveryQuestion → String → Value → String → Option Value → RecoveryResult
  unfolding recovery_checks
  recover_arguments question content tool_call note none =
      unrecovered question content (some tool_call) "malformed arguments"
  recover_arguments question content tool_call note (some (dict arguments)) =
      let checks = recovery_checks question content arguments in
      recovery_of question content (some tool_call) checks (recovery_passed checks) note
  recover_arguments question content tool_call note (some _) =
      unrecovered question content (some tool_call) "arguments not an object"

  -- The part behind the extraction of the call
  unfoldable pub recover_call :
      RecoveryQuestion → String → Option Value × String → Result TrialError RecoveryResult
  unfolding recover_arguments
  recover_call question content (none, note) = ok (unrecovered question content none note)
  recover_call question content (some tool_call, note) = do
    function ← function_of python tool_call
    let name = get_or null "name" function
    matches ← is_tool python contract name
    let wrong =
        unrecovered question content (some tool_call)
          (join "" ("wrong tool: " ∷ python.py_str name ∷ []))
    let right = (do
      arguments ← load_arguments python (get_or null "arguments" function)
      ok (recover_arguments question content tool_call note arguments))
    if not matches then ok wrong else right

  unfoldable pub evaluate_recovery : RecoveryQuestion → Fields → Result TrialError RecoveryResult
  unfolding recover_call
  evaluate_recovery question message = do
    extracted ← extract_tool_call python.py_str message
    recover_call question (content_of message) extracted

  -- `run_recovery_probe`: `llm_fn` acts on a world.
  module _ {W : Type 0} (llm_fn : RecoveryQuestion → ToolContract → W → Fields × W)
      (model : String) where
    abbrev pub recovery_round : RecoveryQuestion → ℕ → RecoveryResult → RecoveryResult
    recovery_round question round_index result = record result {
      round = round_index;
      model = model;
      difficulty = question.difficulty;
      provider_id = contract.provider_id;
      access_path_id = contract.access_path_id;
    }

    unfoldable pub recovery_rounds :
        RecoveryQuestion → List ℕ → W → Result TrialError (List RecoveryResult × W)
    recovery_rounds question [] w = ok ([], w)
    recovery_rounds question (round_index ∷ rounds) w = do
      let (message, w') = llm_fn question contract w
      result ← evaluate_recovery question message
      rest ← recovery_rounds question rounds w'
      ok (recovery_round question round_index result ∷ rest.0, rest.1)

    unfoldable pub run_recovery_probe :
        List RecoveryQuestion → ℕ → W → Result TrialError (List RecoveryResult × W)
    unfolding recovery_rounds
    run_recovery_probe [] rounds w = ok ([], w)
    run_recovery_probe (question ∷ questions) rounds w = do
      first ← recovery_rounds question (range_from 1 rounds) w
      rest ← run_recovery_probe questions rounds first.1
      ok (first.0 ++ rest.0, rest.1)
