-- ===== src/QuestionBank/Sound.antt =====
-- What the cross references of an accepted question bank guarantee.
use qveris_capability_benchm.Prelude.{
  String, ◌≡◌, ◌≢◌, refl, Result, Bool, true, false, not, some, List, [], ◌∷◌, ◌==◌, ==_iff,
  string_eq, contains, any, subset, subset_trans, difference, difference-nil, is_distinct,
  is_distinct_iff, Distinct, All, All-map, ok, raise_if, for_each, >>=-eq-ok, >>-eq-ok,
  raise_if-eq-ok, for_each-All,
}
use mathlib.Core.List.{Memᴰ}
use qveris_capability_benchm.Prelude.Dict.{lookup, keys, index_on}
use qveris_capability_benchm.Prelude.Index.{lookup-index_on}
use qveris_capability_benchm.Prelude.Sort.{sort_by, str_lt}
use qveris_capability_benchm.Models.Release.{is_empty}
use qveris_capability_benchm.AgentTrial.Messages.{test_or}
use qveris_capability_benchm.AgentTrial.ParamFill.Passed.{nothing, test_or-some}
use qveris_capability_benchm.Models.Run.{SourceReference}
use qveris_capability_benchm.Suites.Compiler.{Snapshot}
use qveris_capability_benchm.QuestionBank.{
  core_positive, boundary_negative, question_role_eq, QuestionSource, CandidateCapability,
  QuestionEvaluationContract, BankQuestion, PackFile, source_ids_of, capability_ids_of,
  question_ids_of, is_authoritative, check_contract, check_question, roles_of, check_capability,
  check_lifecycle, cap_packs_by_id, validate_cross_references, duplicate_source_ids,
  duplicate_capability_ids, duplicate_question_ids, unknown_capability, unknown_source,
  uncited_reference, no_authoritative_source, unknown_capability_source, not_from_harbor,
  missing_from_harbor, missing_roles, orphan_packs,
}
use qveris_capability_benchm.QuestionBank.Packs.{
  any-found, not-true, packs_for, Readable, cap_packs_by_id-Readable, cap_packs_by_id-packs_for,
  packs_for-keys, IsPlaced, capability-IsPlaced,
}

module _ (sources : List QuestionSource) (capabilities : List CandidateCapability)
    (questions : List BankQuestion) (harbor_ids : List String) where
  -- A contract refers to what its question cites, and to an authoritative source among that.
  pub record IsGrounded (question : BankQuestion) (contract : QuestionEvaluationContract)
      : Type 0 where
    pub cited :
        (i : String)
        → contains contract.reference_source_ids i ≡ true
        → contains question.source_ids i ≡ true
    pub authority : QuestionSource
    pub known : Memᴰ authority sources
    pub referred : Memᴰ authority.source_id contract.reference_source_ids
    pub authoritative : is_authoritative authority ≡ true

  pub record IsLinked (question : BankQuestion) : Type 0 where
    pub capability : contains (capability_ids_of capabilities) question.cap_id ≡ true
    pub cites :
        (i : String)
        → contains question.source_ids i ≡ true
        → contains (source_ids_of sources) i ≡ true
    pub contract :
        (c : QuestionEvaluationContract)
        → question.evaluation_contract ≡ some c
        → IsGrounded question c

  pub record IsCovered (capability : CandidateCapability) : Type 0 where
    pub source : contains (source_ids_of sources) capability.source_id ≡ true
    pub origin : capability.source_id ≡ "harbor-capability-catalog"
    pub public : contains harbor_ids capability.harbor_capability_id ≡ true
    pub positive : contains (roles_of questions capability.cap_id) core_positive ≡ true
    pub negative : contains (roles_of questions capability.cap_id) boundary_negative ≡ true

  contract-IsGrounded :
      (question : BankQuestion) (contract : QuestionEvaluationContract)
      → check_contract sources question (some contract) ≡ ok tt
      → IsGrounded question contract
  unfolding check_contract
  contract-IsGrounded question contract h =
      let by_id = index_on (λ (s : QuestionSource). s.source_id) [] sources in
      let test : String → Bool = λ i. test_or false is_authoritative (lookup i by_id) in
      let (c, h1) =
        >>-eq-ok
          (raise_if (not (subset contract.reference_source_ids question.source_ids))
            uncited_reference)
          _ h in
      let held = not-true _ (
        raise_if-eq-ok (not (any test contract.reference_source_ids)) no_authoritative_source h1) in
      let (i, m, t) = any-found test contract.reference_source_ids held in
      let (source, f, a) = test_or-some is_authoritative (lookup i by_id) t in
      let (n, same) = lookup-index_on (λ (s : QuestionSource). s.source_id) sources i source f in
      record {
        cited = λ j k.
            subset_trans contract.reference_source_ids question.source_ids j
              (not-true _ (raise_if-eq-ok _ _ c)) k;
        authority = source;
        known = n;
        referred = rw same m;
        authoritative = a;
      }

  question-IsLinked :
      (question : BankQuestion)
      → check_question sources capabilities question ≡ ok tt
      → IsLinked question
  unfolding check_question
  question-IsLinked question h =
      let (a, h1) =
        >>-eq-ok
          (raise_if (not (contains (capability_ids_of capabilities) question.cap_id))
            unknown_capability)
          _ h in
      let (b, h2) =
        >>-eq-ok
          (raise_if (not (subset question.source_ids (source_ids_of sources))) unknown_source) _
          h1 in
      record {
        capability = not-true _ (raise_if-eq-ok _ _ a);
        cites = λ j k.
            subset_trans question.source_ids (source_ids_of sources) j
              (not-true _ (raise_if-eq-ok _ _ b)) k;
        contract = λ c e. contract-IsGrounded question c (rw e at h2);
      }

  capability-IsCovered :
      (capability : CandidateCapability)
      → check_capability sources questions harbor_ids capability ≡ ok tt
      → IsCovered capability
  unfolding check_capability question_role_eq
  capability-IsCovered capability h =
      let roles = roles_of questions capability.cap_id in
      let missing = difference (boundary_negative ∷ core_positive ∷ []) roles in
      let (a, h1) =
        >>-eq-ok
          (raise_if (not (contains (source_ids_of sources) capability.source_id))
            (unknown_capability_source capability.cap_id))
          _ h in
      let (b, h2) =
        >>-eq-ok
          (raise_if (not (capability.source_id == "harbor-capability-catalog"))
            (not_from_harbor capability.cap_id))
          _ h1 in
      let (c, h3) =
        >>-eq-ok
          (raise_if (not (contains harbor_ids capability.harbor_capability_id))
            (missing_from_harbor capability.cap_id))
          _ h2 in
      let none_missing : missing ≡ [] = nothing missing (
        not-true _
          (raise_if-eq-ok (not (is_empty missing)) (missing_roles capability.cap_id missing) h3)) in
      record {
        source = not-true _ (raise_if-eq-ok _ _ a);
        origin = (==_iff _ _).0 (not-true _ (raise_if-eq-ok _ _ b));
        public = not-true _ (raise_if-eq-ok _ _ c);
        positive =
            difference-nil (boundary_negative ∷ core_positive ∷ []) roles none_missing core_positive
              refl;
        negative =
            difference-nil (boundary_negative ∷ core_positive ∷ []) roles none_missing
              boundary_negative refl;
      }

module _ (validate_harbor_source : SourceReference → Result String (Unit {0}))
    (suite_fingerprint : Snapshot → String) where
  -- An accepted question bank
  pub record IsConsistent (sources : List QuestionSource) (capabilities : List CandidateCapability)
      (questions : List BankQuestion) (files : List PackFile) (harbor_ids : List String)
      : Type 0 where
    pub sources_differ : Distinct (source_ids_of sources)
    pub capabilities_differ : Distinct (capability_ids_of capabilities)
    pub questions_differ : Distinct (question_ids_of questions)
    pub readable : All Readable files
    pub linked : All (IsLinked sources capabilities questions harbor_ids) questions
    pub covered : All (IsCovered sources capabilities questions harbor_ids) capabilities
    pub placed : All (IsPlaced validate_harbor_source suite_fingerprint files) capabilities
    pub known :
        (i : String) → packs_for i files ≢ [] → contains (capability_ids_of capabilities) i ≡ true

  -- In a question bank that is accepted, identities differ; every question is of a known capability
  -- and cites known sources, and its contract refers to an authoritative one that it cites; every
  -- capability is a public Harbor one with a positive and a negative question; a runnable one has a
  -- pack whose suite compiles, and each of its packs has a source with the capability's Harbor
  -- identity; a candidate has no pack; every public pack file holds a CAP, of a known capability.
  pub validate_cross_references_sound :
      (sources : List QuestionSource) (capabilities : List CandidateCapability)
      (questions : List BankQuestion) (files : List PackFile) (harbor_ids : List String)
      → validate_cross_references validate_harbor_source suite_fingerprint sources capabilities
          questions files
          (some harbor_ids)
        ≡ ok tt
      → IsConsistent sources capabilities questions files harbor_ids
  unfolding validate_cross_references lookup
  validate_cross_references_sound sources capabilities questions files harbor_ids h =
      let (a, h1) =
        >>-eq-ok (raise_if (not (is_distinct (source_ids_of sources))) duplicate_source_ids) _ h in
      let (b, h2) =
        >>-eq-ok
          (raise_if (not (is_distinct (capability_ids_of capabilities))) duplicate_capability_ids) _
          h1 in
      let (c, h3) =
        >>-eq-ok (raise_if (not (is_distinct (question_ids_of questions))) duplicate_question_ids) _
          h2 in
      let (q, h4) = >>-eq-ok (for_each (check_question sources capabilities) questions) _ h3 in
      let (d, h5) =
        >>-eq-ok (for_each (check_capability sources questions harbor_ids) capabilities) _ h4 in
      let (packs, p, h6) = >>=-eq-ok (cap_packs_by_id [] files) _ h5 in
      let orphans = difference (keys packs) (capability_ids_of capabilities) in
      let (o, h7) =
        >>-eq-ok (raise_if (not (is_empty orphans)) (orphan_packs (sort_by str_lt orphans))) _ h6 in
      record {
        sources_differ = (is_distinct_iff _).0 (not-true _ (raise_if-eq-ok _ _ a));
        capabilities_differ = (is_distinct_iff _).0 (not-true _ (raise_if-eq-ok _ _ b));
        questions_differ = (is_distinct_iff _).0 (not-true _ (raise_if-eq-ok _ _ c));
        readable = cap_packs_by_id-Readable files [] packs p;
        linked =
            All-map (question-IsLinked sources capabilities questions harbor_ids) questions
              (for_each-All (check_question sources capabilities) questions q);
        covered =
            All-map (capability-IsCovered sources capabilities questions harbor_ids) capabilities
              (for_each-All (check_capability sources questions harbor_ids) capabilities d);
        placed =
            All-map
              (λ c.
                capability-IsPlaced validate_harbor_source suite_fingerprint files packs c
                  (cap_packs_by_id-packs_for files [] packs c.cap_id p))
              capabilities
              (for_each-All (check_lifecycle validate_harbor_source suite_fingerprint packs)
                capabilities h7);
        known = λ i some_pack.
            difference-nil (keys packs) (capability_ids_of capabilities)
              (nothing orphans (not-true _ (raise_if-eq-ok (not (is_empty orphans)) _ o))) i
              (packs_for-keys files packs i p some_pack);
      }
