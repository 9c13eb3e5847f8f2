-- ===== src/AgentTrial/Messages.antt =====
-- src/qveris_bench/agent_trial/param_fill.py: `extract_tool_call` on a message that is JSON, with
-- what Python does to values of other types.
use qveris_capability_benchm.Prelude.{
  ◌≡◌, ap, ◌∙◌, inl, inr, Bool-cases, else_branch, then_branch, >>=-eq-ok, String, Bool, true,
  false, not, Option, none, some, List, [], ◌∷◌, ◌==◌, string_eq, if◌then◌else◌, Result, ok, err,
  ◌>>=◌,
}
use qveris_capability_benchm.Prelude.Int.{pos, int_eq}
use qveris_capability_benchm.Prelude.Text.{join}
use qveris_capability_benchm.Models.Value.{
  Value, null, bool, int, float, str, list, dict, Values, nil, cons, Fields, end, field, finite,
  infinity, nan,
}

-- What Python raises: no such attribute, or an operand of the wrong type
pub data TrialError : Type 0 where
  attribute_error type_error : TrialError

-- `fields.get(key)`, where `none` is a missing key
abbrev pub get_field : String → Fields → Option Value
get_field k end = none
get_field k (field j v fields) = let rest = get_field k fields in if k == j then some v else rest

-- `fields.get(key, default)`
abbrev pub get_or : Value → String → Fields → Value
get_or default k fields = elim (get_field k fields) [ none ↦ default | some v ↦ v ]

-- A test of what was found, with what it says of a missing value
abbrev pub test_or {ℓ} : {A : Type ℓ} → Bool → (A → Bool) → Option A → Bool
test_or missing test none = missing
test_or missing test (some a) = test a

abbrev pub field_names : Fields → List String
field_names end = []
field_names (field j v fields) = j ∷ field_names fields

abbrev pub items : Values → List Value
items nil = []
items (cons v vs) = v ∷ items vs

-- `bool(value)`
abbrev pub truthy : Value → Bool
truthy null = false
truthy (bool b) = b
truthy (int n) = not (n == pos 0)
truthy (float (finite x)) = not (x == pos 0)
truthy (float (infinity b)) = true
truthy (float nan) = true
truthy (str s) = not (s == "")
truthy (list nil) = false
truthy (list (cons v vs)) = true
truthy (dict end) = false
truthy (dict (field j v fields)) = true

-- The receiver of `.get`
abbrev pub as_dict : Value → Result TrialError Fields
as_dict (dict fields) = ok fields
as_dict _ = err attribute_error

-- A true value that is indexed and counted and whose items are dicts: any but a list raises.
abbrev pub as_list : Value → Result TrialError (List Value)
as_list (list vs) = ok (items vs)
as_list _ = err type_error

abbrev pub not_null : Value → Option Value
not_null null = none
not_null (bool b) = some (bool b)
not_null (int n) = some (int n)
not_null (float x) = some (float x)
not_null (str s) = some (str s)
not_null (list vs) = some (list vs)
not_null (dict fields) = some (dict fields)

-- `py_str` is Python's `str`.
module _ (py_str : Value → String) where
  describe_call : Value → Result TrialError String
  describe_call call = do
    fields ← as_dict call
    function ← as_dict (get_or (dict end) "function" fields)
    ok (
        join "" (
          py_str (get_or (str "?") "name" function)
          ∷ "("
          ∷ py_str (get_or (str "") "arguments" function)
          ∷ ")"
          ∷ []))

  describe_calls : List Value → Result TrialError (List String)
  unfolding describe_call
  describe_calls [] = ok []
  describe_calls (call ∷ calls) = do
    text ← describe_call call
    rest ← describe_calls calls
    ok (text ∷ rest)

  only_call : List Value → Result TrialError (Option Value × String)
  unfolding describe_calls
  only_call [] = ok (none, "no tool call")
  only_call (call ∷ []) = ok (not_null call, "")
  only_call (call ∷ other ∷ calls) = do
    texts ← describe_calls (call ∷ other ∷ calls)
    ok (none, join "" ("multiple tool calls: " ∷ join " | " texts ∷ []))

  -- The tool call, `none` where there is not exactly one, and a note
  unfoldable pub extract_tool_call : Fields → Result TrialError (Option Value × String)
  unfolding only_call
  extract_tool_call message =
      let tool_calls = get_or null "tool_calls" message in
      let several = (do calls ← as_list tool_calls; only_call calls) in
      if not (truthy tool_calls) then ok (none, "no tool call") else several

  not_null-some : (value : Value) {v : Value} → not_null value ≡ some v → value ≡ v
  not_null-some null h = absurd (cc)
  not_null-some (bool b) h = cc
  not_null-some (int n) h = cc
  not_null-some (float x) h = cc
  not_null-some (str s) h = cc
  not_null-some (list vs) h = cc
  not_null-some (dict fields) h = cc

  only_call-some :
      (calls : List Value) {call : Value} {note : String}
      → only_call calls ≡ ok (some call, note)
      → calls ≡ call ∷ []
  unfolding only_call
  only_call-some [] h = absurd (cc)
  only_call-some (c ∷ []) {call} h =
      let e : not_null c ≡ some call = cc in let same = not_null-some c e in cc
  only_call-some (c ∷ d ∷ calls) h =
      let (texts, t, h1) = >>=-eq-ok (describe_calls (c ∷ d ∷ calls)) _ h in absurd (cc)

  -- A call is extracted only where the message has it as its one tool call.
  pub extract_tool_call-some :
      (message : Fields) {call : Value} {note : String}
      → extract_tool_call message ≡ ok (some call, note)
      → as_list (get_or null "tool_calls" message) ≡ ok (call ∷ [])
  unfolding extract_tool_call
  extract_tool_call-some message h =
      let tool_calls = get_or null "tool_calls" message in
      elim (Bool-cases (truthy tool_calls)) [
        | inl t ↦
            (let (calls, l, h1) =
                >>=-eq-ok (as_list tool_calls) _ (else_branch _ _ (truthy tool_calls) t h) in
              l ∙ ap ok (only_call-some calls h1))
        | inr f ↦ absurd (cc (then_branch _ _ (truthy tool_calls) f h))
      ]
