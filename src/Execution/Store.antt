-- ===== src/Execution/Store.antt =====
-- src/qveris_bench/execution/resume.py: the run states on disk. The file holds the JSON document of
-- the fingerprint of the suite and the states, as the value that its text parses to; every write
-- replaces the whole file. Failures of the file system are not modelled.
use qveris_capability_benchm.Prelude.{
  String, Bool, true, false, not, ◌≡◌, ◌≢◌, refl, ◌∙◌, Option, none, some, List, [], ◌∷◌, ◌==◌,
  ==_iff, string_eq, Bool-cases, inl, inr, if◌then◌else◌, Result, ok, err, ◌>>=◌, ◌>>◌, raise_if,
  require,
}
use qveris_capability_benchm.Prelude.Dict.{Dict}
use qveris_capability_benchm.Prelude.Sort.{sort_keys}
use qveris_capability_benchm.Models.Enums.{
  CellState, planned, running, completed, provider_negative, infra_blocked, not_applicable,
  excluded, cell_state_eq, cell_state_value,
}
use qveris_capability_benchm.Models.Value.{Value, str, dict, Fields, end, field}
use qveris_capability_benchm.AgentTrial.Messages.{get_field}
use qveris_capability_benchm.Execution.Retry.{Failure, exception}

abbrev pub States : Type 0
States = Dict String CellState

-- `{key: value.value for key, value in states.items()}`
abbrev pub state_fields : States → Fields
state_fields [] = end
state_fields ((k, s) ∷ d) = field k (str (cell_state_value s)) (state_fields d)

-- `RunStateStore.write`: the new document of the file, its keys sorted on both levels
unfoldable pub write : String → States → Option Value
write fingerprint states = some (
    dict (
      field "states" (dict (state_fields (sort_keys states)))
        (field "suite_fingerprint" (str fingerprint) end)))

-- The receiver of a key or of `.items()`
abbrev pub mapping_of : Value → Result Failure Fields
mapping_of (dict fields) = ok fields
mapping_of _ = err (exception "not a mapping")

-- `value == text`
abbrev pub is_text : String → Value → Bool
is_text text (str s) = s == text
is_text text _ = false

-- The first state with the value, of the members that are left
abbrev pub state_named : String → List CellState → Result Failure CellState
state_named s [] = err (exception "not a valid CellState")
state_named s (c ∷ cs) =
    let rest = state_named s cs in if cell_state_value c == s then ok c else rest

-- `CellState(value)`
unfoldable pub cell_state_of : Value → Result Failure CellState
cell_state_of (str s) = state_named s (
    planned ∷ running ∷ completed ∷ provider_negative ∷ infra_blocked ∷ not_applicable ∷ excluded
    ∷ [])
cell_state_of _ = err (exception "not a valid CellState")

-- `{key: CellState(value) for key, value in values.items()}`
unfoldable pub states_of : Fields → Result Failure States
unfolding cell_state_of
states_of end = ok []
states_of (field k v fields) = do s ← cell_state_of v; d ← states_of fields; ok ((k, s) ∷ d)

-- `RunStateStore.read`
unfoldable pub read : String → Option Value → Result Failure States
unfolding states_of
read fingerprint none = ok []
read fingerprint (some text) = do
  document ← mapping_of text
  found ← require (exception "'suite_fingerprint'") (get_field "suite_fingerprint" document)
  raise_if (not (is_text fingerprint found))
      (exception "run state fingerprint does not match the frozen plan")
  listed ← require (exception "'states'") (get_field "states" document)
  values ← mapping_of listed
  states_of values

-- The keys of the entries with one state, in the order of the dict.
unfoldable pub keys_with : CellState → States → List String
keys_with s [] = []
keys_with s ((k, t) ∷ d) = let rest = keys_with s d in if t == s then k ∷ rest else rest

-- `RunStateStore.resumable_keys`
pub resumable_keys : String → Option Value → Result Failure (List String)
unfolding keys_with
resumable_keys fingerprint disk = do
  states ← read fingerprint disk
  ok (keys_with infra_blocked states)

cell_state_of-value : (s : CellState) → cell_state_of (str (cell_state_value s)) ≡ ok s
unfolding cell_state_of string_eq
cell_state_of-value planned = refl
cell_state_of-value running = refl
cell_state_of-value completed = refl
cell_state_of-value provider_negative = refl
cell_state_of-value infra_blocked = refl
cell_state_of-value not_applicable = refl
cell_state_of-value excluded = refl

states_of-state_fields : (states : States) → states_of (state_fields states) ≡ ok states
unfolding states_of
states_of-state_fields [] = refl
states_of-state_fields ((k, s) ∷ d) = rw (cell_state_of-value s, states_of-state_fields d) refl

pub read-written :
    (fingerprint : String) (states : States)
    → read fingerprint (write fingerprint states) ≡ ok (sort_keys states)
unfolding read write string_eq
read-written fingerprint states =
    passes (fingerprint == fingerprint) ((==_iff fingerprint fingerprint).1 refl)
    ∙ states_of-state_fields (sort_keys states)
  where
    passes :
        (b : Bool)
        → b ≡ true
        → (raise_if (not b) (exception "run state fingerprint does not match the frozen plan")
            >> states_of (state_fields (sort_keys states)))
          ≡ states_of (state_fields (sort_keys states))
    passes true h = refl
    passes false h = absurd (cc)

-- The document that is written for a fingerprint is read back for it with every state, up to the
-- order of the keys, and it is refused for any other fingerprint.
pub read-write :
    (fingerprint other : String) (states : States)
    → fingerprint ≢ other
    → (read fingerprint (write fingerprint states) ≡ ok (sort_keys states))
      × (read other (write fingerprint states)
          ≡ err (exception "run state fingerprint does not match the frozen plan"))
unfolding read write string_eq
read-write fingerprint other states differs = (
  read-written fingerprint states,
  elim (Bool-cases (fingerprint == other)) [
    | inl same ↦ absurd (differs ((==_iff fingerprint other).0 same))
    | inr distinct ↦ refused (fingerprint == other) distinct
  ],
)
  where
    refused :
        (b : Bool)
        → b ≡ false
        → (raise_if (not b) (exception "run state fingerprint does not match the frozen plan")
            >> states_of (state_fields (sort_keys states)))
          ≡ err (exception "run state fingerprint does not match the frozen plan")
    refused true h = absurd (cc)
    refused false h = refl
