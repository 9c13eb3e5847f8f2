-- ===== src/QuestionBank.antt =====
-- src/qveris_bench/question_bank: the models and the cross references of the question bank, behind
-- the reading of its files: the public Harbor capabilities and what the CAP packs' files hold are
-- given. The parameters are those of `compile_suite`.
pub mod Packs
pub mod Sound
mod Tests
use qveris_capability_benchm.Prelude.{
  String, Bool, true, false, not, ◌&&◌, ◌||◌, Option, none, some, List, [], ◌∷◌, ◌++◌, map, ◌==◌,
  Eq, string_eq, option_eq, contains, any, select, subset, difference, is_distinct, if◌then◌else◌,
  Result, ok, err, ◌>>=◌, ◌>>◌, raise_if, require, for_each,
}
use qveris_capability_benchm.Prelude.Dict.{Dict, lookup, insert, keys, index_on}
use qveris_capability_benchm.Prelude.Sort.{sort_by, str_lt}
use qveris_capability_benchm.Models.Release.{is_empty}
use qveris_capability_benchm.Models.Run.{SourceReference}
use qveris_capability_benchm.Models.Value.{Fields}
use qveris_capability_benchm.AgentTrial.Messages.{test_or}
use qveris_capability_benchm.Suites.Compiler.{
  CapDefinition, CompiledSuite, Documents, Snapshot, compile_suite,
}
use qveris_capability_benchm.Suites.Resolution.{CompilationError}

pub data AuthorityTier : Type 0 where
  official_api official_market_source external_benchmark : AuthorityTier

pub data Lifecycle : Type 0 where
  runnable candidate : Lifecycle

pub data QuestionRole : Type 0 where
  core_positive boundary_negative coverage freshness_precision shape_completeness agent_contract :
      QuestionRole

pub Lifecycle-discrete : Discrete Lifecycle
Lifecycle-discrete = hlevel

instance unfoldable pub lifecycle_eq : Eq Lifecycle
unfolding Lifecycle-discrete
lifecycle_eq = record { dec = Lifecycle-discrete }

pub QuestionRole-discrete : Discrete QuestionRole
QuestionRole-discrete = hlevel

instance unfoldable pub question_role_eq : Eq QuestionRole
unfolding QuestionRole-discrete
question_role_eq = record { dec = QuestionRole-discrete }

pub record QuestionSource : Type 0 where
  pub source_id : String
  pub name : String
  pub reference_url : String
  pub authority_tier : AuthorityTier
  pub repository_commit : Option String
  pub source_task_ids : List String

pub record CandidateCapability : Type 0 where
  pub cap_id : String
  pub name : String
  pub lifecycle : Lifecycle
  pub business_use : String
  pub source_id : String
  pub harbor_capability_id : String

pub record QuestionEvaluationContract : Type 0 where
  pub market : String
  pub language : String
  pub as_of : String
  pub reference_source_ids : List String
  pub reference_rule : String
  pub tolerance_rule : String
  pub interface_expectations : List String
  pub selection_implication : String

pub record BankQuestion : Type 0 where
  pub question_id : String
  pub cap_id : String
  pub role : QuestionRole
  pub task : String
  pub input : Fields
  pub required_observations : List String
  pub completion_conditions : List String
  pub source_ids : List String
  pub evaluation_contract : Option QuestionEvaluationContract
  pub selection_rationale : String

-- A `cap.yaml` of a CAP pack: whether its folder's name starts with an underscore, the CAP unless
-- the file is invalid, and what it and the files of its suite beside it hold, unless one of them
-- cannot be read
pub record PackFile : Type 0 where
  pub is_private : Bool
  pub cap : Option CapDefinition
  pub documents : Option Documents

pub record CapPack : Type 0 where
  pub cap : CapDefinition
  pub documents : Option Documents

pub data QuestionBankValidationError : Type 0 where
  duplicate_source_ids duplicate_capability_ids duplicate_question_ids unknown_capability
        unknown_source uncited_reference no_authoritative_source invalid_contracts invalid_cap_pack
        no_compilable_pack :
      QuestionBankValidationError
  unknown_capability_source not_from_harbor missing_from_harbor no_pack harbor_mismatch
        candidate_with_pack :
      String → QuestionBankValidationError
  missing_roles : String → List QuestionRole → QuestionBankValidationError
  orphan_packs : List String → QuestionBankValidationError

-- `packs.get(cap_id, ())`
abbrev pub packs_of : Dict String (List CapPack) → String → List CapPack
packs_of packs cap_id = elim (lookup cap_id packs) [ none ↦ [] | some ps ↦ ps ]

-- `_cap_packs_by_id`
unfoldable pub cap_packs_by_id :
    Dict String (List CapPack)
    → List PackFile
    → Result QuestionBankValidationError (Dict String (List CapPack))
cap_packs_by_id packs [] = ok packs
cap_packs_by_id packs (file ∷ files) =
    let skipped = cap_packs_by_id packs files in
    let added = (do
      cap ← require invalid_cap_pack file.cap
      let pack : CapPack = record { cap = cap; documents = file.documents }
      cap_packs_by_id (insert cap.cap_id (packs_of packs cap.cap_id ++ (pack ∷ [])) packs) files) in
    if file.is_private then skipped else added

abbrev pub source_ids_of : List QuestionSource → List String
source_ids_of sources = map (λ (s : QuestionSource). s.source_id) sources

abbrev pub capability_ids_of : List CandidateCapability → List String
capability_ids_of capabilities = map (λ (c : CandidateCapability). c.cap_id) capabilities

abbrev pub question_ids_of : List BankQuestion → List String
question_ids_of questions = map (λ (q : BankQuestion). q.question_id) questions

abbrev pub is_authoritative : QuestionSource → Bool
is_authoritative source = elim source.authority_tier [
  | official_api ↦ true
  | official_market_source ↦ true
  | external_benchmark ↦ false
]

-- The check of a contract. Its references are known sources here, so each of them is found.
unfoldable pub check_contract :
    List QuestionSource
    → BankQuestion
    → Option QuestionEvaluationContract
    → Result QuestionBankValidationError (Unit {0})
check_contract sources question none = ok tt
check_contract sources question (some contract) = do
  let sources_by_id = index_on (λ (s : QuestionSource). s.source_id) [] sources
  raise_if (not (subset contract.reference_source_ids question.source_ids)) uncited_reference
  raise_if
      (not (
        any (λ i. test_or false is_authoritative (lookup i sources_by_id))
          contract.reference_source_ids))
      no_authoritative_source

unfoldable pub check_question :
    List QuestionSource
    → List CandidateCapability
    → BankQuestion
    → Result QuestionBankValidationError (Unit {0})
unfolding check_contract
check_question sources capabilities question = do
  raise_if (not (contains (capability_ids_of capabilities) question.cap_id)) unknown_capability
  raise_if (not (subset question.source_ids (source_ids_of sources))) unknown_source
  check_contract sources question question.evaluation_contract

-- The roles of the questions of a capability
abbrev pub roles_of : List BankQuestion → String → List QuestionRole
roles_of questions cap_id =
    map (λ (q : BankQuestion). q.role) (select (λ (q : BankQuestion). q.cap_id == cap_id) questions)

unfoldable pub check_capability :
    List QuestionSource
    → List BankQuestion
    → List String
    → CandidateCapability
    → Result QuestionBankValidationError (Unit {0})
check_capability sources questions harbor_ids capability = do
  raise_if (not (contains (source_ids_of sources) capability.source_id))
      (unknown_capability_source capability.cap_id)
  raise_if (not (capability.source_id == "harbor-capability-catalog"))
      (not_from_harbor capability.cap_id)
  raise_if (not (contains harbor_ids capability.harbor_capability_id))
      (missing_from_harbor capability.cap_id)
  let missing =
      difference (boundary_negative ∷ core_positive ∷ []) (roles_of questions capability.cap_id)
  raise_if (not (is_empty missing)) (missing_roles capability.cap_id missing)

-- The CAP of a pack has a source of the capability.
abbrev pub matches_harbor : CandidateCapability → CapPack → Bool
matches_harbor capability pack =
    any (λ (s : SourceReference). s.harbor_capability_id == capability.harbor_capability_id)
      pack.cap.sources

-- Whether `compile_suite` returns; an exception of it or of the reading of a file is caught. The
-- KeyError of a missing binding, which would not be, is not raised behind the comparison of the
-- identities of bindings and access paths.
abbrev pub has_returned : Result CompilationError CompiledSuite → Bool
has_returned (ok compiled) = true
has_returned (err e) = false

module _ (validate_harbor_source : SourceReference → Result String (Unit {0}))
    (suite_fingerprint : Snapshot → String) where
  abbrev pub pack_compiles : CapPack → Bool
  pack_compiles pack =
      test_or false
        (λ documents.
          has_returned (compile_suite validate_harbor_source suite_fingerprint documents))
        pack.documents

  -- The checks of a runnable capability: one pack compiles, and every pack matches
  unfoldable pub check_runnable :
      CandidateCapability → List CapPack → Result QuestionBankValidationError (Unit {0})
  check_runnable capability packs = do
    raise_if (not (any pack_compiles packs)) no_compilable_pack
    raise_if (any (λ p. not (matches_harbor capability p)) packs)
        (harbor_mismatch capability.cap_id)

  unfoldable pub check_packs :
      Lifecycle → CandidateCapability → List CapPack → Result QuestionBankValidationError (Unit {0})
  unfolding check_runnable
  check_packs runnable capability own = do
    raise_if (is_empty own) (no_pack capability.cap_id)
    check_runnable capability own
  check_packs candidate capability own =
      raise_if (not (is_empty own)) (candidate_with_pack capability.cap_id)

  -- The checks of a capability against the CAP packs
  unfoldable pub check_lifecycle :
      Dict String (List CapPack)
      → CandidateCapability
      → Result QuestionBankValidationError (Unit {0})
  unfolding check_packs
  check_lifecycle packs capability =
      check_packs capability.lifecycle capability (packs_of packs capability.cap_id)

  -- `_validate_cross_references`; `harbor_ids` is `none` where the public contracts are invalid.
  unfoldable pub validate_cross_references :
      List QuestionSource
      → List CandidateCapability
      → List BankQuestion
      → List PackFile
      → Option (List String)
      → Result QuestionBankValidationError (Unit {0})
  unfolding check_question check_capability check_lifecycle
  validate_cross_references sources capabilities questions files public_harbor_ids = do
    raise_if (not (is_distinct (source_ids_of sources))) duplicate_source_ids
    raise_if (not (is_distinct (capability_ids_of capabilities))) duplicate_capability_ids
    raise_if (not (is_distinct (question_ids_of questions))) duplicate_question_ids
    harbor_ids ← require invalid_contracts public_harbor_ids
    for_each (check_question sources capabilities) questions
    for_each (check_capability sources questions harbor_ids) capabilities
    packs ← cap_packs_by_id [] files
    let orphans = difference (keys packs) (capability_ids_of capabilities)
    raise_if (not (is_empty orphans)) (orphan_packs (sort_by str_lt orphans))
    for_each (check_lifecycle packs) capabilities
