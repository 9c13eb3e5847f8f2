-- ===== src/AgentTrial/ErrorRecovery/Recovered.antt =====
-- When a retry recovers from a failure.
use qveris_capability_benchm.Prelude.{
  String, ◌≡◌, ◌⊎◌, refl, ap, ◌∙◌, Bool, true, false, Option, none, some, [], ◌∷◌, arith, string_eq,
  contains, all, all-All, any, any-false-All, All, All-map, difference, difference-nil, else_branch,
  then_branch, Bool-cases, inl, inr, ok, >>=-eq-ok, ok-injective,
}
use qveris_capability_benchm.Models.Release.{is_empty}
use qveris_capability_benchm.Models.Value.{Value, null, bool, int, float, str, list, dict, Fields}
use qveris_capability_benchm.AgentTrial.Messages.{
  get_field, get_or, field_names, as_list, extract_tool_call, extract_tool_call-some,
}
use qveris_capability_benchm.AgentTrial.ParamFill.{
  ToolContract, declared_params, Python, normalize_value, is_expected, is_tool, load_arguments,
  function_of,
}
use qveris_capability_benchm.AgentTrial.ParamFill.Passed.{nothing, is_tool-str, expected_of}
use qveris_capability_benchm.AgentTrial.ErrorRecovery.{
  RecoveryQuestion, RecoveryResult, recovery_passed, recovery_checks, recover_arguments,
  recover_call, evaluate_recovery, content_of,
}

module _ (python : Python) (lower : String → String) (is_in : String → String → Bool)
    (contract : ToolContract) (question : RecoveryQuestion) where
  -- A call that recovers: it is the contract's tool, and its arguments are an object with the
  -- expected values and nothing undeclared or forbidden.
  pub record Recovers (tool_call : Value) : Type 0 where
    pub function : Fields
    pub called : function_of python tool_call ≡ ok function
    pub name : String
    pub named : get_or null "name" function ≡ str name
    pub is_the_tool : (name ≡ contract.tool_id) ⊎ (name ≡ python.sanitize contract.tool_id)
    pub arguments : Fields
    pub parsed :
        load_arguments python (get_or null "arguments" function) ≡ ok (some (dict arguments))
    pub declared :
        (k : String)
        → contains (field_names arguments) k ≡ true
        → contains (declared_params contract) k ≡ true
    pub allowed : All (λ k. contains (field_names arguments) k ≡ false) question.forbidden_params
    pub expected :
        All
          (λ (q : String × String).
            (v : Value) × (get_field q.0 arguments ≡ some v)
            × (normalize_value python v ≡ normalize_value python (str q.1)))
          question.expected_retry_params

  -- A result that passes exactly when the checks that count hold
  abbrev pub IsScored : RecoveryResult → Type 0
  IsScored result = result.passed ≡ recovery_passed result.checks

  recover_arguments-IsScored :
      (content : String) (tool_call : Value) (note : String) (o : Option Value)
      → IsScored (recover_arguments python lower is_in contract question content tool_call note o)
  unfolding recover_arguments
  recover_arguments-IsScored content tool_call note none = refl
  recover_arguments-IsScored content tool_call note (some (dict arguments)) = refl
  recover_arguments-IsScored content tool_call note (some null) = refl
  recover_arguments-IsScored content tool_call note (some (bool b)) = refl
  recover_arguments-IsScored content tool_call note (some (int n)) = refl
  recover_arguments-IsScored content tool_call note (some (float x)) = refl
  recover_arguments-IsScored content tool_call note (some (str s)) = refl
  recover_arguments-IsScored content tool_call note (some (list vs)) = refl

  recover_arguments-dict :
      (content : String) (tool_call : Value) (note : String) (o : Option Value)
      → (recover_arguments python lower is_in contract question content tool_call note o).passed
        ≡ true
      → (arguments : Fields) × (o ≡ some (dict arguments))
        × (recovery_passed (recovery_checks python lower is_in contract question content arguments)
            ≡ true)
  unfolding recover_arguments
  recover_arguments-dict content tool_call note none h = absurd (cc)
  recover_arguments-dict content tool_call note (some (dict arguments)) h = (arguments, refl, h)
  recover_arguments-dict content tool_call note (some null) h = absurd (cc)
  recover_arguments-dict content tool_call note (some (bool b)) h = absurd (cc)
  recover_arguments-dict content tool_call note (some (int n)) h = absurd (cc)
  recover_arguments-dict content tool_call note (some (float x)) h = absurd (cc)
  recover_arguments-dict content tool_call note (some (str s)) h = absurd (cc)
  recover_arguments-dict content tool_call note (some (list vs)) h = absurd (cc)

  recovers :
      (content : String) (tool_call : Value) (function arguments : Fields) (s : String)
      → function_of python tool_call ≡ ok function
      → get_or null "name" function ≡ str s
      → (s ≡ contract.tool_id) ⊎ (s ≡ python.sanitize contract.tool_id)
      → load_arguments python (get_or null "arguments" function) ≡ ok (some (dict arguments))
      → recovery_passed (recovery_checks python lower is_in contract question content arguments)
        ≡ true
      → Recovers tool_call
  unfolding recovery_checks
  recovers content tool_call function arguments s c n t l h =
      let e : is_empty (difference (field_names arguments) (declared_params contract)) ≡ true =
        ground arith in
      let f : any (contains (field_names arguments)) question.forbidden_params ≡ false =
        ground arith in
      let x : all (is_expected python arguments) question.expected_retry_params ≡ true =
        ground arith in
      record {
        function = function;
        called = c;
        name = s;
        named = n;
        is_the_tool = t;
        arguments = arguments;
        parsed = l;
        declared = difference-nil (field_names arguments) (declared_params contract) (nothing _ e);
        allowed = any-false-All _ question.forbidden_params f;
        expected =
            All-map (λ q h. expected_of python arguments q h) question.expected_retry_params
              (all-All _ question.expected_retry_params x);
      }

  abbrev IsJudged : Option Value → RecoveryResult → Type 0
  IsJudged call result =
      IsScored result
      × (result.passed ≡ true → (tool_call : Value) × (call ≡ some tool_call) × Recovers tool_call)

  recover_call-IsJudged :
      (content : String) (extracted : Option Value × String) {result : RecoveryResult}
      → recover_call python lower is_in contract question content extracted ≡ ok result
      → IsJudged extracted.0 result
  unfolding recover_call
  recover_call-IsJudged content (none, note) h = rw (ok-injective h) (refl, λ p. absurd (cc))
  recover_call-IsJudged content (some tool_call, note) h =
      let (function, c, h1) = >>=-eq-ok (function_of python tool_call) _ h in
      let name = get_or null "name" function in
      let (matches, m, h2) = >>=-eq-ok (is_tool python contract name) _ h1 in
      elim (Bool-cases matches) [
        | inl t ↦
            (let right = else_branch _ _ matches t h2 in
              let (o, l, h3) =
                >>=-eq-ok (load_arguments python (get_or null "arguments" function)) _ right in
              rw (ok-injective h3) (
                recover_arguments-IsScored content tool_call note o,
                λ p.
                    let (arguments, e, k) = recover_arguments-dict content tool_call note o p in
                    let (s, n, g) = is_tool-str python contract name (m ∙ ap ok t) in
                    (
                      tool_call,
                      refl,
                      recovers content tool_call function arguments s c n g (l ∙ ap ok e) k,
                    ),
              ))
        | inr f ↦ rw (ok-injective (then_branch _ _ matches f h2)) (refl, λ p. absurd (cc))
      ]

  -- A retry passes exactly when it is one call of the tool with the expected values and nothing
  -- forbidden, by its checks. If it passes, the message has one tool call, whose function is the
  -- contract's tool, and whose arguments parse to an object with the expected values and nothing
  -- undeclared or forbidden.
  pub evaluate_recovery_sound :
      (message : Fields) (result : RecoveryResult)
      → evaluate_recovery python lower is_in contract question message ≡ ok result
      → IsScored result
        × (result.passed ≡ true
            → (tool_call : Value) × (as_list (get_or null "tool_calls" message)
                ≡ ok (tool_call ∷ []))
              × Recovers tool_call)
  unfolding evaluate_recovery
  evaluate_recovery_sound message result h =
      let ((call, note), x, h1) = >>=-eq-ok (extract_tool_call python.py_str message) _ h in
      let judged =
        recover_call-IsJudged (content_of python lower is_in contract message) (call, note) h1 in
      (
        judged.0,
        λ p.
            let (tool_call, e, k) = judged.1 p in
            let found : extract_tool_call python.py_str message ≡ ok (some tool_call, note) =
              x ∙ ap (λ c. ok (c, note)) e in
            (tool_call, extract_tool_call-some python.py_str message found, k),
      )
