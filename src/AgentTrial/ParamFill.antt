-- ===== src/AgentTrial/ParamFill.antt =====
-- src/qveris_bench/agent_trial/param_fill.py: the checks of a tool call against its contract. The
-- JSON parser, Python's `str`, `strip` and `upper`, and the regular expression are parameters.
pub mod Passed
pub mod Question
pub mod Probe
mod Tests
use qveris_capability_benchm.Prelude.{
  ℕ, suc, String, Bool, true, false, not, ◌&&◌, ◌||◌, Option, none, some, List, [], ◌∷◌, ◌++◌, map,
  ◌==◌, string_eq, contains, all, any, select, difference, if◌then◌else◌, Result, ok, err, ◌>>=◌,
}
use qveris_capability_benchm.Prelude.Dict.{Dict}
use qveris_capability_benchm.Prelude.Text.{join, prefix}
use qveris_capability_benchm.Models.Release.{is_empty}
use qveris_capability_benchm.Models.Value.{
  Value, null, bool, int, float, str, list, dict, Fields, end,
}
use qveris_capability_benchm.Suites.Matrix.{range_from}
use qveris_capability_benchm.AgentTrial.Messages.{
  TrialError, type_error, get_field, test_or, get_or, field_names, items, truthy, as_dict,
  extract_tool_call,
}

pub data FailureMode : Type 0 where
  pass no_tool_call multiple_tools wrong_tool malformed_arguments missing_required type_invalid
        forbidden_param semantics_mismatch :
      FailureMode

pub record ParamSpec : Type 0 where
  pub name : String
  pub type : String
  pub required : Bool
  pub description : String

pub record ToolContract : Type 0 where
  pub tool_id : String
  pub provider_id : String
  pub access_path_id : String
  pub name : String
  pub description : String
  pub params : List ParamSpec

pub record AgentQuestion : Type 0 where
  pub question_id : String
  pub task : String
  pub expected_params : Dict String String
  pub forbidden_params : List String
  pub difficulty : String

pub record ParamFillChecks : Type 0 where
  pub single_tool : Bool
  pub required_present : Bool
  pub value_valid : Bool
  pub no_forbidden : Bool
  pub semantics_match : Bool

pub record ParamFillResult : Type 0 where
  pub question_id : String
  pub round : ℕ
  pub model : String
  pub tool_call : Option Value
  pub checks : ParamFillChecks
  pub passed : Bool
  pub notes : String
  pub failure_mode : FailureMode
  pub difficulty : String
  pub provider_id : String
  pub access_path_id : String

-- `ToolContract.declared_params`
abbrev pub declared_params : ToolContract → List String
declared_params contract = map (λ (p : ParamSpec). p.name) contract.params

-- `ParamFillChecks.passed`
abbrev pub checks_passed : ParamFillChecks → Bool
checks_passed checks =
    checks.single_tool && checks.required_present && checks.value_valid && checks.no_forbidden
    && checks.semantics_match

abbrev pub failed_checks : Bool → ParamFillChecks
failed_checks single_tool = record {
  single_tool = single_tool;
  required_present = false;
  value_valid = false;
  no_forbidden = false;
  semantics_match = false;
}

-- `startswith` is a comparison of the first characters.
unfoldable pub tool_failure : String → FailureMode
tool_failure notes =
    if notes == "no tool call"
    then no_tool_call
    else if prefix 19 notes == "multiple tool calls"
    then multiple_tools
    else wrong_tool

unfoldable pub classify_failure : ParamFillResult → FailureMode
unfolding tool_failure
classify_failure result =
    if result.passed
    then pass
    else if not result.checks.single_tool
    then tool_failure result.notes
    else if result.notes == "malformed arguments" || result.notes == "arguments not an object"
    then malformed_arguments
    else if not result.checks.required_present
    then missing_required
    else if not result.checks.value_valid
    then type_invalid
    else if not result.checks.no_forbidden
    then forbidden_param
    else if not result.checks.semantics_match
    then semantics_mismatch
    else pass

-- `_finalize`
abbrev pub finalize : ParamFillResult → ParamFillResult
finalize result = record result { failure_mode = classify_failure result }

-- A result with the defaults of the fields that the evaluation leaves out
abbrev pub result_of :
    AgentQuestion → Option Value → ParamFillChecks → Bool → String → ParamFillResult
result_of question tool_call checks passed notes = finalize record {
  question_id = question.question_id;
  round = 0;
  model = "";
  tool_call = tool_call;
  checks = checks;
  passed = passed;
  notes = notes;
  failure_mode = pass;
  difficulty = "L1";
  provider_id = "";
  access_path_id = "";
}

-- The functions that are not in the repository; `sanitize` is the substitution of a regular
-- expression that `sanitize_tool_name` makes.
pub record Python : Type 0 where
  pub loads : String → Option Value
  pub py_str : Value → String
  pub strip : String → String
  pub upper : String → String
  pub sanitize : String → String

module _ (python : Python) where
  normalize_text : String → String
  normalize_text text = python.upper (python.strip text)

  unfoldable pub normalize_value : Value → String
  unfolding normalize_text
  normalize_value null = ""
  normalize_value (list vs) = join "|" (map (λ v. normalize_text (python.py_str v)) (items vs))
  normalize_value (bool b) = normalize_text (python.py_str (bool b))
  normalize_value (int n) = normalize_text (python.py_str (int n))
  normalize_value (float x) = normalize_text (python.py_str (float x))
  normalize_value (str s) = normalize_text (python.py_str (str s))
  normalize_value (dict fields) = normalize_text (python.py_str (dict fields))

  abbrev pub is_string : Value → Bool
  is_string (str s) = not (python.strip s == "")
  is_string _ = false

abbrev pub is_integer : Value → Bool
is_integer (int n) = true
is_integer _ = false

abbrev pub is_number : Value → Bool
is_number (int n) = true
is_number (float x) = true
is_number _ = false

abbrev pub is_boolean : Value → Bool
is_boolean (bool b) = true
is_boolean _ = false

abbrev pub is_array : Value → Bool
is_array (list vs) = true
is_array _ = false

abbrev pub is_object : Value → Bool
is_object (dict fields) = true
is_object _ = false

-- `value in (None, "")`
abbrev pub is_blank : Value → Bool
is_blank null = true
is_blank (str s) = s == ""
is_blank _ = false

module _ (python : Python) where
  -- `_type_valid`
  unfoldable pub type_valid : ParamSpec → Value → Bool
  type_valid param value =
      if param.type == "string"
      then is_string python value
      else if param.type == "number"
      then is_number value
      else if param.type == "integer"
      then is_integer value
      else if param.type == "boolean"
      then is_boolean value
      else if param.type == "array"
      then is_array value
      else if param.type == "object"
      then is_object value
      else true

  -- A required parameter is there and is not blank; one that is there has its type.
  abbrev pub is_present : Fields → ParamSpec → Bool
  is_present arguments param =
      test_or false (λ v. not (is_blank v)) (get_field param.name arguments)

  abbrev pub has_type : Fields → ParamSpec → Bool
  has_type arguments param = test_or true (type_valid param) (get_field param.name arguments)

  abbrev pub is_expected : Fields → String × String → Bool
  is_expected arguments (name, expected) =
      test_or false (λ v. normalize_value python v == normalize_value python (str expected))
        (get_field name arguments)

  -- The five checks of a call whose arguments are an object
  unfoldable pub checks_of : ToolContract → AgentQuestion → Fields → ParamFillChecks
  checks_of contract question arguments = record {
    single_tool = true;
    required_present =
        all (is_present arguments) (select (λ (p : ParamSpec). p.required) contract.params);
    value_valid = all (has_type arguments) contract.params;
    no_forbidden =
        is_empty (difference (field_names arguments) (declared_params contract))
        && not (any (contains (field_names arguments)) question.forbidden_params);
    semantics_match = all (is_expected arguments) question.expected_params;
  }

  -- `function.get("name") not in {…}`, negated: a list or a dict is not hashable.
  unfoldable pub is_tool : ToolContract → Value → Result TrialError Bool
  is_tool contract (str s) = ok (s == contract.tool_id || s == python.sanitize contract.tool_id)
  is_tool contract (list vs) = err type_error
  is_tool contract (dict fields) = err type_error
  is_tool contract _ = ok false

  -- `json.loads(function.get("arguments") or "{}")`, where `none` is a decoding error
  unfoldable pub load_arguments : Value → Result TrialError (Option Value)
  load_arguments (str s) = ok (python.loads (if s == "" then "{}" else s))
  load_arguments v = if truthy v then err type_error else ok (python.loads "{}")

  -- The part behind the parser
  unfoldable pub evaluate_arguments :
      ToolContract → AgentQuestion → Value → String → Option Value → ParamFillResult
  unfolding checks_of
  evaluate_arguments contract question tool_call note none =
      result_of question (some tool_call) (failed_checks true) false "malformed arguments"
  evaluate_arguments contract question tool_call note (some (dict arguments)) =
      let checks = checks_of contract question arguments in
      result_of question (some tool_call) checks (checks_passed checks) note
  evaluate_arguments contract question tool_call note (some _) =
      result_of question (some tool_call) (failed_checks true) false "arguments not an object"

  -- The part behind the extraction of the call
  unfoldable pub evaluate_function :
      ToolContract → AgentQuestion → Value → String → Fields → Result TrialError ParamFillResult
  unfolding is_tool load_arguments evaluate_arguments
  evaluate_function contract question tool_call note function = do
    let name = get_or null "name" function
    matches ← is_tool contract name
    let wrong =
        result_of question (some tool_call) (failed_checks false) false
          (join "" ("wrong tool: " ∷ python.py_str name ∷ []))
    let right = (do
      arguments ← load_arguments (get_or null "arguments" function)
      ok (evaluate_arguments contract question tool_call note arguments))
    if not matches then ok wrong else right

  -- `call.get("function") or {}`
  unfoldable pub function_of : Value → Result TrialError Fields
  function_of call = do
    fields ← as_dict call
    let function = get_or null "function" fields
    if truthy function then as_dict function else ok end

  unfoldable pub evaluate_call :
      ToolContract → AgentQuestion → Option Value × String → Result TrialError ParamFillResult
  unfolding evaluate_function function_of
  evaluate_call contract question (none, note) =
      ok (result_of question none (failed_checks false) false note)
  evaluate_call contract question (some tool_call, note) = do
    function ← function_of tool_call
    evaluate_function contract question tool_call note function

  unfoldable pub evaluate_tool_call :
      ToolContract → AgentQuestion → Fields → Result TrialError ParamFillResult
  unfolding evaluate_call
  evaluate_tool_call contract question message = do
    extracted ← extract_tool_call python.py_str message
    evaluate_call contract question extracted

-- `run_probe`: `llm_fn` acts on a world.
module _ (python : Python) {W : Type 0} (llm_fn : AgentQuestion → ToolContract → W → Fields × W)
    (contract : ToolContract) (model : String) where
  abbrev pub in_round : AgentQuestion → ℕ → ParamFillResult → ParamFillResult
  in_round question round_index result = record {
    question_id = result.question_id;
    round = round_index;
    model = model;
    tool_call = result.tool_call;
    checks = result.checks;
    passed = result.passed;
    notes = result.notes;
    failure_mode = classify_failure result;
    difficulty = question.difficulty;
    provider_id = contract.provider_id;
    access_path_id = contract.access_path_id;
  }

  unfoldable pub run_rounds :
      AgentQuestion → List ℕ → W → Result TrialError (List ParamFillResult × W)
  run_rounds question [] w = ok ([], w)
  run_rounds question (round_index ∷ rounds) w = do
    let (message, w') = llm_fn question contract w
    result ← evaluate_tool_call python contract question message
    rest ← run_rounds question rounds w'
    ok (in_round question round_index result ∷ rest.0, rest.1)

  unfoldable pub run_probe :
      List AgentQuestion → ℕ → W → Result TrialError (List ParamFillResult × W)
  unfolding run_rounds
  run_probe [] rounds w = ok ([], w)
  run_probe (question ∷ questions) rounds w = do
    first ← run_rounds question (range_from 1 rounds) w
    rest ← run_probe questions rounds first.1
    ok (first.0 ++ rest.0, rest.1)
