-- ===== src/Agents.antt =====
-- src/qveris_bench/agents/base.py: one trial of an agent with its frozen tool. The client, the
-- tool, the clock and the JSON parser are parameters; times are counted in ticks of the clock.
pub mod OneCall
pub mod Bounded
mod Tests
use qveris_capability_benchm.Prelude.{
  ℕ, ◌-◌, String, Bool, true, false, not, ◌&&◌, ◌||◌, Option, none, some, List, [], ◌∷◌, ◌==◌,
  string_eq, contains, all, any, select, subset, ltb, if◌then◌else◌, Result, ok, err, ◌>>=◌, ◌>>◌,
  raise_if, require, for_each,
}
use qveris_capability_benchm.Prelude.Dict.{Dict}
use qveris_capability_benchm.Prelude.Int.{ℤ, pos, negsuc}
use qveris_capability_benchm.Models.Value.{
  Value, null, bool, int, float, str, list, dict, nil, Fields, end, field,
}
use qveris_capability_benchm.AgentTrial.Messages.{get_field, get_or, field_names, items, test_or}
use qveris_capability_benchm.AgentTrial.ParamFill.{is_number, is_boolean}

pub data AgentTrialError : Type 0 where
  not_one_function_call unsupported_output_item malformed_call usage_required malformed_usage
        unsupported_response exceeded_token_budget non_canonical_tool invalid_json not_an_object
        malformed_schema omits_required unknown_field unhashable exceeded_timeout :
      AgentTrialError
  invalid_type : String → AgentTrialError
  raised : String → AgentTrialError

-- A response: a dict, an object whose `model_dump()` gives a value, or another object
pub data Response : Type 0 where
  mapping : Fields → Response
  model : Value → Response
  other : Response

pub record FunctionCall : Type 0 where
  pub name : String
  pub arguments : String

pub record AgentTrace : Type 0 where
  pub calls : ℕ
  pub elapsed : ℕ
  pub output_tokens : ℕ
  pub arguments : Fields
  pub tool_result : Value

-- `isinstance(value, dict)`, `isinstance(value, list)` and `isinstance(value, str)`
abbrev pub dict_of : Value → Option Fields
dict_of (dict fields) = some fields
dict_of _ = none

abbrev pub list_of : Value → Option (List Value)
list_of (list vs) = some (items vs)
list_of _ = none

abbrev pub str_of : Value → Option String
str_of (str s) = some s
str_of _ = none

-- `isinstance(tokens, int) and tokens >= 0`; a bool is an int.
abbrev pub count_of : Value → Option ℕ
count_of (int (pos n)) = some n
count_of (bool true) = some 1
count_of (bool false) = some 0
count_of _ = none

-- `_response_mapping`
abbrev pub response_mapping : Response → Result AgentTrialError Fields
response_mapping (mapping fields) = ok fields
response_mapping (model value) = require unsupported_response (dict_of value)
response_mapping other = err unsupported_response

-- `item.get("type") in {…}` of an item that is a dict: a list or a dict is not hashable.
abbrev pub has_kind : List String → Value → Result AgentTrialError Bool
has_kind kinds (str s) = ok (contains kinds s)
has_kind kinds (list vs) = err unhashable
has_kind kinds (dict fields) = err unhashable
has_kind kinds _ = ok false

-- The items of the output, each a reasoning item or a function call
unfoldable pub output_items : List Value → Result AgentTrialError (List Fields)
output_items [] = ok []
output_items (item ∷ rest) = do
  fields ← require unsupported_output_item (dict_of item)
  known ← has_kind ("reasoning" ∷ "function_call" ∷ []) (get_or null "type" fields)
  raise_if (not known) unsupported_output_item
  others ← output_items rest
  ok (fields ∷ others)

-- `item.get("type") == "function_call"`
abbrev pub is_call : Fields → Bool
is_call item = test_or false (λ s. s == "function_call") (str_of (get_or null "type" item))

abbrev pub only_one : List Fields → Result AgentTrialError Fields
only_one [] = err not_one_function_call
only_one (call ∷ []) = ok call
only_one (call ∷ next ∷ calls) = err not_one_function_call

-- `_function_call`
unfoldable pub function_call : Response → Result AgentTrialError FunctionCall
unfolding output_items
function_call response = do
  fields ← response_mapping response
  output ← require not_one_function_call (list_of (get_or null "output" fields))
  listed ← output_items output
  call ← only_one (select is_call listed)
  name ← require malformed_call (str_of (get_or null "name" call))
  arguments ← require malformed_call (str_of (get_or null "arguments" call))
  ok (record { name = name; arguments = arguments })

-- `_output_tokens`
unfoldable pub output_tokens : Response → Result AgentTrialError ℕ
output_tokens response = do
  fields ← response_mapping response
  usage ← require usage_required (dict_of (get_or null "usage" fields))
  require malformed_usage (count_of (get_or null "output_tokens" usage))

abbrev pub field_items : Fields → Dict String Value
field_items end = []
field_items (field name value fields) = (name, value) ∷ field_items fields

abbrev pub is_text : Value → Bool
is_text (str s) = true
is_text _ = false

-- A value has the type that its definition expects; a type that is not a text is never expected.
abbrev pub has_expected_type : Value → Value → Bool
has_expected_type null value = true
has_expected_type (str expected) value =
    expected == "string" && is_text value
    || expected == "number" && is_number value
    || expected == "boolean" && is_boolean value
has_expected_type _ value = false

abbrev pub is_false : Value → Bool
is_false (bool false) = true
is_false _ = false

abbrev pub check_argument : Fields → String × Value → Result AgentTrialError (Unit {0})
check_argument properties (name, value) =
    raise_if
      (test_or false (λ definition. not (has_expected_type (get_or null "type" definition) value))
        (dict_of (get_or null name properties)))
      (invalid_type name)

abbrev pub is_given : Fields → Value → Bool
is_given arguments name = test_or false (contains (field_names arguments)) (str_of name)

-- `_validate_arguments`
unfoldable pub validate_arguments : Fields → Fields → Result AgentTrialError (Unit {0})
validate_arguments schema arguments = do
  properties ← require malformed_schema (dict_of (get_or (dict end) "properties" schema))
  required ← require malformed_schema (list_of (get_or (list nil) "required" schema))
  raise_if (not (all (is_given arguments) required)) omits_required
  raise_if
      (is_false (get_or null "additionalProperties" schema)
        && not (subset (field_names arguments) (field_names properties)))
      unknown_field
  for_each (check_argument properties) (field_items arguments)

-- `AgentTrial`: what the protocol freezes, and the schema of the tool. `timeout` is in ticks.
pub record Trial : Type 0 where
  pub model_name : String
  pub canonical_tool : String
  pub token_budget : ℕ
  pub timeout : ℕ
  pub input_schema : Fields

module _ (loads : String → Option Value) (trial : Trial) where
  -- The checks of the response, up to the arguments of the tool
  unfoldable pub accept : Response → Result AgentTrialError (Fields × ℕ)
  unfolding function_call output_tokens validate_arguments
  accept response = do
    call ← function_call response
    tokens ← output_tokens response
    raise_if (ltb trial.token_budget tokens) exceeded_token_budget
    raise_if (not (call.name == trial.canonical_tool)) non_canonical_tool
    value ← require invalid_json (loads call.arguments)
    arguments ← require not_an_object (dict_of value)
    validate_arguments trial.input_schema arguments
    ok (arguments, tokens)

  module _ {W : Type 0} (monotonic : W → ℕ × W) (millisecond : ℕ)
      (create : String → String → Trial → W → Result AgentTrialError Response × W) where
    -- What the tool gives: a value, or something that is awaited for a time
    pub data Invoked : Type 0 where
      returned : Value → Invoked
      awaits : (ℕ → W → Result AgentTrialError Value × W) → Invoked

    -- `max(0.001, timeout - elapsed)`
    abbrev pub remaining : ℕ → ℕ
    remaining elapsed =
        let left = trial.timeout - elapsed in if ltb left millisecond then millisecond else left

    await_result : ℕ → Invoked → W → Result AgentTrialError Value × W
    await_result started (returned value) w = (ok value, w)
    await_result started (awaits wait) w =
        let (now, w') = monotonic w in wait (remaining (now - started)) w'

    -- The last part of a trial: its trace, unless it took too long
    finish :
        ℕ → Fields → ℕ → Result AgentTrialError Value × W → Result AgentTrialError AgentTrace × W
    finish started arguments tokens (err e, w) = (err e, w)
    finish started arguments tokens (ok result, w) =
        let (now, w') = monotonic w in
        let elapsed = now - started in
        (
          raise_if (ltb trial.timeout elapsed) exceeded_timeout
              >> ok record {
                calls = 1;
                elapsed = elapsed;
                output_tokens = tokens;
                arguments = arguments;
                tool_result = result;
              },
          w',
        )

    module _ (invoke : Fields → W → Result AgentTrialError Invoked × W) where
      awaited :
          ℕ
          → Fields
          → ℕ
          → Result AgentTrialError Invoked × W
          → Result AgentTrialError AgentTrace × W
      unfolding await_result finish
      awaited started arguments tokens (err e, w) = (err e, w)
      awaited started arguments tokens (ok invoked, w) =
          finish started arguments tokens (await_result started invoked w)

      called : ℕ → Result AgentTrialError (Fields × ℕ) → W → Result AgentTrialError AgentTrace × W
      unfolding awaited
      called started (err e) w = (err e, w)
      called started (ok (arguments, tokens)) w =
          awaited started arguments tokens (invoke arguments w)

      answered : ℕ → Result AgentTrialError Response × W → Result AgentTrialError AgentTrace × W
      unfolding accept called
      answered started (err e, w) = (err e, w)
      answered started (ok response, w) = called started (accept response) w

      -- `AgentTrial.run`
      unfoldable pub run_trial : String → W → Result AgentTrialError AgentTrace × W
      unfolding answered
      run_trial prompt w =
          let (started, w1) = monotonic w in
          answered started (create trial.model_name prompt trial w1)
