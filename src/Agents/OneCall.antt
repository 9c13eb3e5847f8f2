-- ===== src/Agents/OneCall.antt =====
-- What a response holds from which a function call was taken.
use qveris_capability_benchm.Prelude.{
  ℕ, String, ◌≡◌, refl, sym, ap, subst, ◌∙◌, ◌⊎◌, inl, inr, Bool, true, false, not, Bool-cases,
  ◌||◌, ◌==◌, ==_iff, string_eq, arith, some, List, [], ◌∷◌, ◌++◌, map, select, All, ok, raise_if,
  require, >>=-eq-ok, >>-eq-ok, raise_if-eq-ok, require-eq-ok, ok-injective,
}
use qveris_capability_benchm.Models.Value.{Value, null, str, dict, Fields}
use qveris_capability_benchm.AgentTrial.Messages.{get_or}
use qveris_capability_benchm.Agents.{
  Response, mapping, model, other, FunctionCall, dict_of, list_of, str_of, response_mapping,
  count_of, output_tokens, usage_required, malformed_usage, has_kind, output_items, is_call,
  only_one, function_call, malformed_call, not_one_function_call, unsupported_output_item,
  unsupported_response,
}

-- `item.get("type") == kind`
abbrev pub HasType : String → Fields → Type 0
HasType kind item = get_or null "type" item ≡ str kind

-- The response is a dict or dumps to one.
abbrev pub DumpsTo : Fields → Response → Type 0
DumpsTo fields response = (response ≡ mapping fields) ⊎ (response ≡ model (dict fields))

-- The usage of the response says how many tokens the output has.
pub record Counts (response : Response) (tokens : ℕ) : Type 0 where
  pub fields : Fields
  pub dumped : DumpsTo fields response
  pub usage : Fields
  pub used : get_or null "usage" fields ≡ dict usage
  pub counted : count_of (get_or null "output_tokens" usage) ≡ some tokens

-- The response is a dict or dumps to one, and its output is a list of dicts: reasoning items and
-- between them one function call, which has the name and the arguments.
pub record OneCall (response : Response) (name arguments : String) : Type 0 where
  pub fields : Fields
  pub dumped : DumpsTo fields response
  pub before : List Fields
  pub call : Fields
  pub after : List Fields
  pub output : list_of (get_or null "output" fields) ≡ some (map dict (before ++ call ∷ after))
  pub reasoning : All (HasType "reasoning") before × All (HasType "reasoning") after
  pub is_function_call : HasType "function_call" call
  pub of_name : get_or null "name" call ≡ str name
  pub of_arguments : get_or null "arguments" call ≡ str arguments

pub dict_of-dict :
    (value : Value) {fields : Fields} → dict_of value ≡ some fields → value ≡ dict fields
dict_of-dict (dict f) h = cc
dict_of-dict _ h = absurd (cc)

str_of-str : (value : Value) {s : String} → str_of value ≡ some s → value ≡ str s
str_of-str (str t) h = cc
str_of-str _ h = absurd (cc)

response-dumped :
    (response : Response) {fields : Fields}
    → response_mapping response ≡ ok fields
    → DumpsTo fields response
response-dumped (mapping f) h = inl (ap mapping (sym (ok-injective h)))
response-dumped (model value) h =
    inr (ap model (dict_of-dict value (require-eq-ok unsupported_response (dict_of value) h)))
response-dumped other h = absurd (cc)

-- A supported item is a reasoning item or a function call.
abbrev Supported : Fields → Type 0
Supported item = HasType "reasoning" item ⊎ HasType "function_call" item

second : (a b : Bool) → a ≡ false → true ≡ (a || (b || false)) → b ≡ true
second a b e h = ground arith

has_kind-Supported :
    (value : Value)
    → has_kind ("reasoning" ∷ "function_call" ∷ []) value ≡ ok true
    → (value ≡ str "reasoning") ⊎ (value ≡ str "function_call")
has_kind-Supported (str s) h = elim (Bool-cases (s == "reasoning")) [
  | inl e ↦ inl (ap str ((==_iff s "reasoning").0 e))
  | inr e ↦ inr (
      ap str (
        (==_iff s "function_call").0
          (second (s == "reasoning") (s == "function_call") e (ok-injective h))))
]
has_kind-Supported _ h = absurd (cc)

pub not-true : (b : Bool) → not b ≡ false → b ≡ true
not-true b h = ground arith

consed :
    {item first : Value} {rest others : List Value}
    → item ≡ first
    → rest ≡ others
    → item ∷ rest ≡ first ∷ others
consed e f = rw (e, f) refl

output_items-Supported :
    (output : List Value) {listed : List Fields}
    → output_items output ≡ ok listed
    → (output ≡ map dict listed) × All Supported listed
unfolding output_items
output_items-Supported [] h = rw (ok-injective h) (refl, tt)
output_items-Supported (item ∷ rest) h =
    let (fields, f, h1) = >>=-eq-ok (require unsupported_output_item (dict_of item)) _ h in
    let (known, k, h2) =
      >>=-eq-ok (has_kind ("reasoning" ∷ "function_call" ∷ []) (get_or null "type" fields)) _ h1 in
    let (t, h3) = >>-eq-ok (raise_if (not known) unsupported_output_item) _ h2 in
    let (others, o, h4) = >>=-eq-ok (output_items rest) _ h3 in
    let (same, all) = output_items-Supported rest o in
    rw (ok-injective h4) (
      consed (dict_of-dict item (require-eq-ok unsupported_output_item _ f)) same,
      (has_kind-Supported _ (k ∙ ap ok (not-true known (raise_if-eq-ok _ _ t))), all),
    )

-- Supported items without a function call are reasoning items.
select-reasoning :
    (listed : List Fields)
    → All Supported listed
    → select is_call listed ≡ []
    → All (HasType "reasoning") listed
unfolding string_eq
select-reasoning [] a h = tt
select-reasoning (item ∷ rest) (inl r, a) h = (r, select-reasoning rest a (rw r at h))
select-reasoning (item ∷ rest) (inr c, a) h = absurd (cc (rw c at h))

-- The items around the only function call
select-one :
    (listed : List Fields) (call : Fields)
    → All Supported listed
    → select is_call listed ≡ call ∷ []
    → (before : List Fields) × (after : List Fields) × (listed ≡ before ++ call ∷ after)
      × All (HasType "reasoning") before
      × All (HasType "reasoning") after
      × HasType "function_call" call
unfolding string_eq
select-one [] call a h = absurd (cc)
select-one (item ∷ rest) call (inl r, a) h =
    let (before, after, split, b, c, t) = select-one rest call a (rw r at h) in
    (item ∷ before, after, ap (λ items. item ∷ items) split, (r, b), c, t)
select-one (item ∷ rest) call (inr c, a) h =
    let found : item ∷ select is_call rest ≡ call ∷ [] = rw c at h in
    let same : item ≡ call = cc found in
    (
      [],
      rest,
      ap (λ x. x ∷ rest) same,
      tt,
      select-reasoning rest a (cc found),
      subst (HasType "function_call") same c,
    )

only_one-list : (calls : List Fields) {call : Fields} → only_one calls ≡ ok call → calls ≡ call ∷ []
only_one-list [] h = absurd (cc)
only_one-list (c ∷ []) h = rw (ok-injective h) refl
only_one-list (c ∷ d ∷ calls) h = absurd (cc)

-- A function call that is taken from a response is the only one in it.
pub function_call-OneCall :
    (response : Response) (call : FunctionCall)
    → function_call response ≡ ok call
    → OneCall response call.name call.arguments
unfolding function_call
function_call-OneCall response call h =
    let (fields, f, h1) = >>=-eq-ok (response_mapping response) _ h in
    let (output, o, h2) =
      >>=-eq-ok (require not_one_function_call (list_of (get_or null "output" fields))) _ h1 in
    let (listed, l, h3) = >>=-eq-ok (output_items output) _ h2 in
    let (item, i, h4) = >>=-eq-ok (only_one (select is_call listed)) _ h3 in
    let (name, n, h5) =
      >>=-eq-ok (require malformed_call (str_of (get_or null "name" item))) _ h4 in
    let (arguments, a, h6) =
      >>=-eq-ok (require malformed_call (str_of (get_or null "arguments" item))) _ h5 in
    let (same, supported) = output_items-Supported output l in
    let (before, after, split, r, s, c) =
      select-one listed item supported (only_one-list (select is_call listed) i) in
    rw (ok-injective h6) record {
      fields = fields;
      dumped = response-dumped response f;
      before = before;
      call = item;
      after = after;
      output = require-eq-ok _ _ o ∙ ap some (same ∙ ap (map dict) split);
      reasoning = (r, s);
      is_function_call = c;
      of_name = str_of-str _ (require-eq-ok _ _ n);
      of_arguments = str_of-str _ (require-eq-ok _ _ a);
    }

pub output_tokens-Counts :
    (response : Response) (tokens : ℕ) → output_tokens response ≡ ok tokens → Counts response tokens
unfolding output_tokens
output_tokens-Counts response tokens h =
    let (fields, f, h1) = >>=-eq-ok (response_mapping response) _ h in
    let (usage, u, h2) =
      >>=-eq-ok (require usage_required (dict_of (get_or null "usage" fields))) _ h1 in
    record {
      fields = fields;
      dumped = response-dumped response f;
      usage = usage;
      used = dict_of-dict _ (require-eq-ok _ _ u);
      counted = require-eq-ok malformed_usage _ h2;
    }
