-- ===== src/QuestionBank/Tests.antt =====
-- A bank of one runnable capability with two questions.
use qveris_capability_benchm.Prelude.{
  String, ◌≡◌, refl, false, none, some, List, [], ◌∷◌, ok, string_eq, nat_eq, list_eq, count,
  is_distinct,
}
use qveris_capability_benchm.Prelude.Dict.{lookup, insert}
use mathlib.Core.List.{flat_map}
use qveris_capability_benchm.Prelude.Sort.{sort_keys}
use qveris_capability_benchm.Prelude.Text.{decimal}
use qveris_capability_benchm.Models.Enums.{qualification_disposition_eq}
use qveris_capability_benchm.Models.Value.{end}
use qveris_capability_benchm.QuestionBank.{
  official_api, runnable, QuestionRole, core_positive, boundary_negative, question_role_eq,
  QuestionSource, CandidateCapability, BankQuestion, PackFile, check_question, check_contract,
  check_capability, cap_packs_by_id, check_packs, check_lifecycle, check_runnable,
  validate_cross_references,
}
use qveris_capability_benchm.Providers.Registry.{cohort_check, is_denied}
use qveris_capability_benchm.Suites.Compiler.{compile_suite}
use qveris_capability_benchm.Suites.Documents.{
  load_cases, load_provider_bindings, validate_provider_bindings, validate_outcome_rules,
}
use qveris_capability_benchm.Suites.Matrix.{
  expand_run_plan, duplicates, plan_cell, canonical_run_key,
}
use qveris_capability_benchm.Suites.Tests.{cap, source, documents, any_source, fingerprint}
use qveris_capability_benchm.QuestionBank.Sound.{IsConsistent, validate_cross_references_sound}

abbrev catalog : QuestionSource
catalog = record {
  source_id = "harbor-capability-catalog";
  name = "Catalog";
  reference_url = "https";
  authority_tier = official_api;
  repository_commit = none;
  source_task_ids = [];
}

abbrev capability : CandidateCapability
capability = record {
  cap_id = "cap";
  name = "Price";
  lifecycle = runnable;
  business_use = "to look up prices";
  source_id = "harbor-capability-catalog";
  harbor_capability_id = source.harbor_capability_id;
}

abbrev question : String → QuestionRole → BankQuestion
question question_id role = record {
  question_id = question_id;
  cap_id = "cap";
  role = role;
  task = "the price";
  input = end;
  required_observations = "price" ∷ [];
  completion_conditions = "price" ∷ [];
  source_ids = "harbor-capability-catalog" ∷ [];
  evaluation_contract = some record {
    market = "US";
    language = "en";
    as_of = "2026";
    reference_source_ids = "harbor-capability-catalog" ∷ [];
    reference_rule = "as published";
    tolerance_rule = "none";
    interface_expectations = "price" ∷ [];
    selection_implication = "the price is there";
  };
  selection_rationale = "a common need";
}

abbrev pack : PackFile
pack = record { is_private = false; cap = some cap; documents = some documents }

abbrev questions : List BankQuestion
questions = question "one" core_positive ∷ question "two" boundary_negative ∷ []

bank_passes :
    validate_cross_references any_source fingerprint
      (catalog ∷ [])
      (capability ∷ [])
      questions
      (pack ∷ [])
      (some (source.harbor_capability_id ∷ []))
    ≡ ok tt
unfolding validate_cross_references check_question check_contract check_capability check_lifecycle
    check_packs check_runnable cap_packs_by_id is_distinct nat_eq string_eq question_role_eq lookup
    insert compile_suite load_cases duplicates count load_provider_bindings validate_outcome_rules
    list_eq cohort_check flat_map sort_keys is_denied qualification_disposition_eq
    validate_provider_bindings plan_cell canonical_run_key decimal expand_run_plan
bank_passes = refl

validate_cross_references_sound_example :
    IsConsistent any_source fingerprint
      (catalog ∷ [])
      (capability ∷ [])
      questions
      (pack ∷ [])
      (source.harbor_capability_id ∷ [])
validate_cross_references_sound_example =
    validate_cross_references_sound any_source fingerprint (catalog ∷ []) (capability ∷ [])
      questions (pack ∷ []) (source.harbor_capability_id ∷ []) bank_passes
