-- ===== src/Agents/Bounded.antt =====
-- A trial that returns has kept to what the protocol freezes.
use qveris_capability_benchm.Prelude.{
  ℕ, ◌-◌, ◌≤◌, String, ◌≡◌, true, Option, some, List, string_eq, contains, All, Result, ok,
}
use qveris_capability_benchm.Models.Value.{Value, null, list, dict, nil, Fields, end}
use qveris_capability_benchm.AgentTrial.Messages.{get_or, field_names}
use qveris_capability_benchm.Agents.{
  AgentTrialError, Response, AgentTrace, Trial, Invoked, dict_of, list_of, output_tokens, returned,
  awaits, remaining, check_argument, field_items, is_given, is_false,
}
use qveris_capability_benchm.Agents.OneCall.{OneCall, Counts}

-- Arguments that fit the schema: every required field is given, no field is unknown where the
-- schema allows no others, and each has the type that the schema names.
pub record Fits (schema arguments : Fields) : Type 0 where
  pub properties : Fields
  pub of_schema : dict_of (get_or (dict end) "properties" schema) ≡ some properties
  pub required : List Value
  pub listed : list_of (get_or (list nil) "required" schema) ≡ some required
  pub given : All (λ name. is_given arguments name ≡ true) required
  pub known :
      is_false (get_or null "additionalProperties" schema) ≡ true
      → (k : String) → contains (field_names arguments) k ≡ true
      → contains (field_names properties) k ≡ true
  pub typed : All (λ item. check_argument properties item ≡ ok tt) (field_items arguments)

module _ (loads : String → Option Value) (trial : Trial) where
  -- A response that is accepted
  pub record Accepted (response : Response) (arguments : Fields) (tokens : ℕ) : Type 0 where
    pub text : String
    pub one : OneCall response trial.canonical_tool text
    pub counted : Counts response tokens
    pub budget : tokens ≤ trial.token_budget
    pub parsed : loads text ≡ some (dict arguments)
    pub fits : Fits trial.input_schema arguments

  module _ {W : Type 0} (monotonic : W → ℕ × W) (millisecond : ℕ)
      (create : String → String → Trial → W → Result AgentTrialError Response × W)
      (invoke : Fields
        → W
        → Result AgentTrialError (Invoked loads trial monotonic millisecond create) × W) where
    -- The trace of a trial that kept its time
    pub record InTime (arguments : Fields) (tokens : ℕ) (r : Result AgentTrialError Value × W)
        (trace : AgentTrace) : Type 0 where
      pub one_call : trace.calls ≡ 1
      pub time : trace.elapsed ≤ trial.timeout
      pub same_arguments : trace.arguments ≡ arguments
      pub same_tokens : trace.output_tokens ≡ tokens
      pub same_result : r.0 ≡ ok trace.tool_result

    -- What the tool gives in a world: the value that it returns, or what is awaited for the time that
    -- is left
    abbrev pub Gives : ℕ → Invoked loads trial monotonic millisecond create → W → Value → Type 0
    Gives started (returned v) w value = v ≡ value
    Gives started (awaits wait) w value =
        let (now, w') = monotonic w in
        (wait (remaining loads trial monotonic millisecond create (now - started)) w').0 ≡ ok value

    -- The tool was run on the arguments, in the world behind the answer, and gave the value.
    pub record Ran (started : ℕ) (arguments : Fields) (w : W) (value : Value) : Type 0 where
      pub invoked : Invoked loads trial monotonic millisecond create
      pub run : (invoke arguments w).0 ≡ ok invoked
      pub gave : Gives started invoked (invoke arguments w).1 value

    -- The trace of a call that was awaited
    pub record Awaited (started : ℕ) (arguments : Fields) (tokens : ℕ)
        (r : Result AgentTrialError (Invoked loads trial monotonic millisecond create) × W)
        (trace : AgentTrace) : Type 0 where
      pub one_call : trace.calls ≡ 1
      pub time : trace.elapsed ≤ trial.timeout
      pub same_arguments : trace.arguments ≡ arguments
      pub same_tokens : trace.output_tokens ≡ tokens
      pub invoked : Invoked loads trial monotonic millisecond create
      pub run : r.0 ≡ ok invoked
      pub gave : Gives started invoked r.1 trace.tool_result

    -- A trial that keeps to its protocol: the client answered with one call of the canonical tool,
    -- within the token budget, the tool was run once on the arguments of that call, which fit the
    -- schema, and gave the trace's result, and the whole took no more than the timeout.
    pub record Keeps (prompt : String) (w : W) (trace : AgentTrace) : Type 0 where
      pub response : Response
      pub answer : (create trial.model_name prompt trial (monotonic w).1).0 ≡ ok response
      pub accepted : Accepted response trace.arguments trace.output_tokens
      pub ran :
          Ran
            (monotonic w).0
            trace.arguments
            (create trial.model_name prompt trial (monotonic w).1).1
            trace.tool_result
      pub one_call : trace.calls ≡ 1
      pub time : trace.elapsed ≤ trial.timeout
