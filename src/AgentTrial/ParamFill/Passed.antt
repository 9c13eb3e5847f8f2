-- ===== src/AgentTrial/ParamFill/Passed.antt =====
-- When a tool call passes, and how a failure is classified.
use qveris_capability_benchm.Prelude.{
  String, ◌⊎◌, else_branch, then_branch, ◌≡◌, ◌≢◌, ◌↔◌, refl, ap, ◌∙◌, sym, Bool, true, false, not,
  ◌||◌, Option, none, some, List, [], ◌∷◌, arith, ◌==◌, ==_iff, string_eq, contains, all, all-All,
  any, any-false-All, All, All-map, select, difference, difference-nil, Bool-cases, inl, inr, ok,
  >>=-eq-ok, ok-injective,
}
use qveris_capability_benchm.Models.Release.{is_empty}
use qveris_capability_benchm.Models.Value.{Value, null, bool, int, float, str, list, dict, Fields}
use qveris_capability_benchm.AgentTrial.Messages.{
  test_or, get_field, get_or, field_names, as_list, extract_tool_call, extract_tool_call-some,
}
use qveris_capability_benchm.AgentTrial.ParamFill.{
  pass, ParamSpec, ToolContract, AgentQuestion, ParamFillChecks, ParamFillResult, declared_params,
  checks_passed, failed_checks, tool_failure, classify_failure, result_of, Python, normalize_value,
  is_blank, type_valid, is_present, has_type, is_expected, checks_of, is_tool, load_arguments,
  evaluate_arguments, evaluate_function, function_of, evaluate_call, evaluate_tool_call,
}

-- A result that passes exactly when its checks all hold, and is classified as PASS exactly then.
pub record IsClassified (result : ParamFillResult) : Type 0 where
  pub checked : result.passed ≡ checks_passed result.checks
  pub classified : (result.passed ≡ true) ↔ (result.failure_mode ≡ pass)

tool_failure-pass : (notes : String) → tool_failure notes ≢ pass
unfolding tool_failure
tool_failure-pass notes h = ground arith

pub result_of-IsClassified :
    (question : AgentQuestion) (tool_call : Option Value) (checks : ParamFillChecks) (passed : Bool)
    (notes : String)
    → passed ≡ checks_passed checks
    → IsClassified (result_of question tool_call checks passed notes)
unfolding classify_failure
result_of-IsClassified question tool_call checks passed notes h = record {
  checked = h;
  classified = (λ t. ground arith, λ f. ground (arith, tool_failure-pass notes));
}

pub test_or-some {ℓ} :
    {A : Type ℓ} (test : A → Bool) (o : Option A)
    → test_or false test o ≡ true
    → (a : A) × (o ≡ some a) × (test a ≡ true)
test_or-some test none h = absurd (cc)
test_or-some test (some a) h = (a, refl, h)

pub nothing {ℓ} : {A : Type ℓ} (xs : List A) → is_empty xs ≡ true → xs ≡ []
nothing [] h = refl
nothing (x ∷ xs) h = absurd (cc)

module _ (python : Python) where
  pub expected_of :
      (arguments : Fields) (q : String × String)
      → is_expected python arguments q ≡ true
      → (v : Value) × (get_field q.0 arguments ≡ some v)
        × (normalize_value python v ≡ normalize_value python (str q.1))
  expected_of arguments q h =
      let (v, f, t) = test_or-some _ (get_field q.0 arguments) h in (v, f, (==_iff _ _).0 t)

  pub is_tool-str :
      (contract : ToolContract) (name : Value)
      → is_tool python contract name ≡ ok true
      → (s : String) × (name ≡ str s)
        × ((s ≡ contract.tool_id) ⊎ (s ≡ python.sanitize contract.tool_id))
  unfolding is_tool
  is_tool-str contract (str s) h =
      let t : (s == contract.tool_id || s == python.sanitize contract.tool_id) ≡ true =
        sym (ok-injective h) in
      (s, refl, ground arith)
  is_tool-str contract null h = absurd (cc)
  is_tool-str contract (bool b) h = absurd (cc)
  is_tool-str contract (int n) h = absurd (cc)
  is_tool-str contract (float x) h = absurd (cc)
  is_tool-str contract (list vs) h = absurd (cc)
  is_tool-str contract (dict fields) h = absurd (cc)

module _ (python : Python) (contract : ToolContract) (question : AgentQuestion) where
  -- Arguments that meet the contract and the question: every required parameter, values of the
  -- declared types, nothing undeclared or forbidden, and the expected values.
  pub record Meets (arguments : Fields) : Type 0 where
    pub required :
        All
          (λ (p : ParamSpec).
            p.required ≡ true
            → (v : Value) × (get_field p.name arguments ≡ some v) × (is_blank v ≡ false))
          contract.params
    pub typed :
        All
          (λ (p : ParamSpec).
            (v : Value) → get_field p.name arguments ≡ some v → type_valid python p v ≡ true)
          contract.params
    pub declared :
        (k : String)
        → contains (field_names arguments) k ≡ true
        → contains (declared_params contract) k ≡ true
    pub allowed : All (λ k. contains (field_names arguments) k ≡ false) question.forbidden_params
    pub expected :
        All
          (λ (q : String × String).
            (v : Value) × (get_field q.0 arguments ≡ some v)
            × (normalize_value python v ≡ normalize_value python (str q.1)))
          question.expected_params

  present_of :
      (arguments : Fields) (p : ParamSpec)
      → is_present python arguments p ≡ true
      → (v : Value) × (get_field p.name arguments ≡ some v) × (is_blank v ≡ false)
  present_of arguments p h =
      let (v, f, t) = test_or-some (λ v. not (is_blank v)) (get_field p.name arguments) h in
      (v, f, ground arith)

  required_of :
      (arguments : Fields) (ps : List ParamSpec)
      → all (is_present python arguments) (select (λ (p : ParamSpec). p.required) ps) ≡ true
      → All
          (λ (p : ParamSpec).
            p.required ≡ true
            → (v : Value) × (get_field p.name arguments ≡ some v) × (is_blank v ≡ false))
          ps
  required_of arguments [] h = tt
  required_of arguments (p ∷ ps) h =
      (λ t. present_of arguments p (ground arith), required_of arguments ps (ground arith))

  typed_of :
      (arguments : Fields) (p : ParamSpec)
      → has_type python arguments p ≡ true
      → (v : Value) → get_field p.name arguments ≡ some v
      → type_valid python p v ≡ true
  typed_of arguments p h v f = rw f at h

  checks-Meets :
      (arguments : Fields)
      → checks_passed (checks_of python contract question arguments) ≡ true
      → Meets arguments
  unfolding checks_of
  checks-Meets arguments h =
      let r : all (is_present python arguments)
            (select (λ (p : ParamSpec). p.required) contract.params)
          ≡ true =
        ground arith in
      let t : all (has_type python arguments) contract.params ≡ true = ground arith in
      let e : is_empty (difference (field_names arguments) (declared_params contract)) ≡ true =
        ground arith in
      let f : any (contains (field_names arguments)) question.forbidden_params ≡ false =
        ground arith in
      let s : all (is_expected python arguments) question.expected_params ≡ true = ground arith in
      record {
        required = required_of arguments contract.params r;
        typed = All-map (typed_of arguments) contract.params (all-All _ contract.params t);
        declared = difference-nil (field_names arguments) (declared_params contract) (nothing _ e);
        allowed = any-false-All _ question.forbidden_params f;
        expected =
            All-map (expected_of python arguments) question.expected_params
              (all-All _ question.expected_params s);
      }

  no_object :
      (tool_call : Value)
      → IsClassified
          (result_of question (some tool_call) (failed_checks true) false "arguments not an object")
  no_object tool_call =
      result_of-IsClassified question (some tool_call) (failed_checks true) false
        "arguments not an object" refl

  evaluate_arguments-Meets :
      (tool_call : Value) (note : String) (o : Option Value) {result : ParamFillResult}
      → evaluate_arguments python contract question tool_call note o ≡ result
      → result.passed ≡ true
      → (arguments : Fields) × (o ≡ some (dict arguments)) × Meets arguments
  unfolding evaluate_arguments
  evaluate_arguments-Meets tool_call note none e h = absurd (cc)
  evaluate_arguments-Meets tool_call note (some (dict arguments)) e h =
      (arguments, refl, checks-Meets arguments (rw (sym e) at h))
  evaluate_arguments-Meets tool_call note (some null) e h = absurd (cc)
  evaluate_arguments-Meets tool_call note (some (bool b)) e h = absurd (cc)
  evaluate_arguments-Meets tool_call note (some (int n)) e h = absurd (cc)
  evaluate_arguments-Meets tool_call note (some (float x)) e h = absurd (cc)
  evaluate_arguments-Meets tool_call note (some (str s)) e h = absurd (cc)
  evaluate_arguments-Meets tool_call note (some (list vs)) e h = absurd (cc)

  evaluate_arguments-IsClassified :
      (tool_call : Value) (note : String) (o : Option Value)
      → IsClassified (evaluate_arguments python contract question tool_call note o)
  unfolding evaluate_arguments
  evaluate_arguments-IsClassified tool_call note none =
      result_of-IsClassified question (some tool_call) (failed_checks true) false
        "malformed arguments" refl
  evaluate_arguments-IsClassified tool_call note (some (dict arguments)) =
      result_of-IsClassified question (some tool_call)
        (checks_of python contract question arguments) _ note refl
  evaluate_arguments-IsClassified tool_call note (some null) = no_object tool_call
  evaluate_arguments-IsClassified tool_call note (some (bool b)) = no_object tool_call
  evaluate_arguments-IsClassified tool_call note (some (int n)) = no_object tool_call
  evaluate_arguments-IsClassified tool_call note (some (float x)) = no_object tool_call
  evaluate_arguments-IsClassified tool_call note (some (str s)) = no_object tool_call
  evaluate_arguments-IsClassified tool_call note (some (list vs)) = no_object tool_call

  -- A passing call: its function is the contract's tool, and its arguments are an object that
  -- meets the contract and the question.
  pub record Passes (tool_call : Value) : Type 0 where
    pub function : Fields
    pub called : function_of python tool_call ≡ ok function
    pub name : String
    pub named : get_or null "name" function ≡ str name
    pub is_the_tool : (name ≡ contract.tool_id) ⊎ (name ≡ python.sanitize contract.tool_id)
    pub arguments : Fields
    pub parsed :
        load_arguments python (get_or null "arguments" function) ≡ ok (some (dict arguments))
    pub meets : Meets arguments

  -- What a result says of the call that was extracted.
  pub record IsJudged (call : Option Value) (result : ParamFillResult) : Type 0 where
    pub classification : IsClassified result
    pub passes :
        result.passed ≡ true → (tool_call : Value) × (call ≡ some tool_call) × Passes tool_call

  evaluate_function-IsJudged :
      (tool_call : Value) (note : String) (function : Fields) {result : ParamFillResult}
      → function_of python tool_call ≡ ok function
      → evaluate_function python contract question tool_call note function ≡ ok result
      → IsJudged (some tool_call) result
  unfolding evaluate_function
  evaluate_function-IsJudged tool_call note function c h =
      let name = get_or null "name" function in
      let (matches, m, h1) = >>=-eq-ok (is_tool python contract name) _ h in
      elim (Bool-cases matches) [
        | inl t ↦
            (let right = else_branch _ _ matches t h1 in
              let (o, l, h2) =
                >>=-eq-ok (load_arguments python (get_or null "arguments" function)) _ right in
              rw (ok-injective h2) record {
                classification = evaluate_arguments-IsClassified tool_call note o;
                passes = λ p.
                    let (arguments, e, k) = evaluate_arguments-Meets tool_call note o refl p in
                    let (s, f, g) = is_tool-str python contract name (m ∙ ap ok t) in
                    (
                      tool_call,
                      refl,
                      record {
                        function = function;
                        called = c;
                        name = s;
                        named = f;
                        is_the_tool = g;
                        arguments = arguments;
                        parsed = l ∙ ap ok e;
                        meets = k;
                      },
                    );
              })
        | inr f ↦
            (let wrong = then_branch _ _ matches f h1 in
              rw (ok-injective wrong) record {
                classification =
                    result_of-IsClassified question (some tool_call) (failed_checks false) false _
                      refl;
                passes = λ p. absurd (cc);
              })
      ]

  evaluate_call-IsJudged :
      (extracted : Option Value × String) {result : ParamFillResult}
      → evaluate_call python contract question extracted ≡ ok result
      → IsJudged extracted.0 result
  unfolding evaluate_call
  evaluate_call-IsJudged (none, note) h = rw (ok-injective h) record {
    classification = result_of-IsClassified question none (failed_checks false) false note refl;
    passes = λ p. absurd (cc);
  }
  evaluate_call-IsJudged (some tool_call, note) h =
      let (function, f, h1) = >>=-eq-ok (function_of python tool_call) _ h in
      evaluate_function-IsJudged tool_call note function f h1

  -- A result says PASS exactly when it passed, and it passed exactly when its five checks hold. If
  -- it passed, the message has one tool call, whose function is the contract's tool; its arguments
  -- parse to an object that has every required parameter, values of the declared types, nothing
  -- undeclared or forbidden, and the expected values.
  pub evaluate_tool_call_sound :
      (message : Fields) (result : ParamFillResult)
      → evaluate_tool_call python contract question message ≡ ok result
      → IsClassified result
        × (result.passed ≡ true
            → (tool_call : Value) × (as_list (get_or null "tool_calls" message)
                ≡ ok (tool_call ∷ []))
              × Passes tool_call)
  unfolding evaluate_tool_call
  evaluate_tool_call_sound message result h =
      let ((call, note), x, h1) = >>=-eq-ok (extract_tool_call python.py_str message) _ h in
      let judged = evaluate_call-IsJudged (call, note) h1 in
      (
        judged.classification,
        λ p.
            let (tool_call, e, k) = judged.passes p in
            let found : extract_tool_call python.py_str message ≡ ok (some tool_call, note) =
              x ∙ ap (λ c. ok (c, note)) e in
            (tool_call, extract_tool_call-some python.py_str message found, k),
      )
