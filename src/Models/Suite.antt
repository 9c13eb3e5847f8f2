-- ===== src/Models/Suite.antt =====
-- src/qveris_bench/models/suite.py
use qveris_capability_benchm.Prelude.{
  ℕ, String, Bool, true, false, not, ◌&&◌, Option, none, some, List, contains, is_distinct,
  string_eq, Result, ok, ◌>>◌, raise_if, for_each,
}
use qveris_capability_benchm.Prelude.Int.{ℤ}
use qveris_capability_benchm.Models.Enums.{RunMode, direct, agent_trial, run_mode_eq}
use qveris_capability_benchm.Models.Value.{Value}

pub record BenchmarkCase : Type 0 where
  pub case_id : String
  pub cap_id : String
  pub question : String
  pub input : Value
  pub negative_control : Bool
  pub expected_observations : List String
  pub completion_conditions : List String
  pub disclosure_limits : List String
  pub applicable_provider_ids : List String

pub record AgentProtocol : Type 0 where
  pub model : String
  pub prompt_version : String
  pub canonical_tool : String
  pub maximum_calls : ℕ
  pub token_budget : ℕ
  pub timeout_seconds : ℤ

pub record ApplicabilityRule : Type 0 where
  pub case_id : String
  pub access_path_id : String
  pub mode : Option RunMode
  pub reason : String

pub record BenchmarkSuite : Type 0 where
  pub suite_id : String
  pub version : String
  pub cap_id : String
  pub cap_version : String
  pub case_ids : List String
  pub access_path_ids : List String
  pub modes : List RunMode
  pub rounds : ℕ
  pub environment : List (String × String)
  pub outcome_rules_file : String
  pub agent_protocol : Option AgentProtocol
  pub not_applicable : List ApplicabilityRule

pub data SuiteError : Type 0 where
  duplicate : String → SuiteError
  modes_must_include_direct : SuiteError
  agent_trial_requires_protocol : SuiteError
  rule_references_case : String → SuiteError
  rule_references_access_path : String → SuiteError
  rule_references_mode : RunMode → SuiteError

-- `x is not None`
abbrev pub is_some {ℓ} : {A : Type ℓ} → Option A → Bool
is_some none = false
is_some (some a) = true

abbrev pub is_none {ℓ} : {A : Type ℓ} → Option A → Bool
is_none none = true
is_none (some a) = false

-- `rule.mode is not None and rule.mode not in self.modes`
require_rule_mode : List RunMode → Option RunMode → Result SuiteError (Unit {0})
require_rule_mode modes none = ok tt
require_rule_mode modes (some mode) =
    raise_if (not (contains modes mode)) (SuiteError.rule_references_mode mode)

require_rule : BenchmarkSuite → ApplicabilityRule → Result SuiteError (Unit {0})
require_rule suite rule = do
  raise_if (not (contains suite.case_ids rule.case_id)) (rule_references_case rule.case_id)
  raise_if (not (contains suite.access_path_ids rule.access_path_id))
      (rule_references_access_path rule.access_path_id)
  require_rule_mode suite.modes rule.mode

-- `BenchmarkSuite.require_agent_protocol`
pub require_agent_protocol : BenchmarkSuite → Result SuiteError (Unit {0})
unfolding require_rule require_rule_mode
require_agent_protocol suite = do
  raise_if (not (is_distinct suite.case_ids)) (duplicate "case_ids")
  raise_if (not (is_distinct suite.access_path_ids)) (duplicate "access_path_ids")
  raise_if (not (is_distinct suite.modes)) (duplicate "modes")
  raise_if (not (contains suite.modes direct)) modes_must_include_direct
  raise_if (contains suite.modes agent_trial && is_none suite.agent_protocol)
      agent_trial_requires_protocol
  for_each (require_rule suite) suite.not_applicable
