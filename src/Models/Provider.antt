-- ===== src/Models/Provider.antt =====
-- src/qveris_bench/models/provider.py
use qveris_capability_benchm.Prelude.{String, Bool, Option, List}
use qveris_capability_benchm.Models.Enums.{
  AccessPathType, AccessProtocol, DisclosureLevel, LicenseStatus, QualificationDisposition,
}

-- `Literal["provider_wide"] | tuple[StableId, ...]`
pub data PricingScope : Type 0 where
  provider_wide : PricingScope
  paths : List String → PricingScope

pub record OfficialPricingFact : Type 0 where
  pub pricing_id : String
  pub pricing_url : String
  pub applies_to : PricingScope
  pub currencies : List String
  pub free_tier : String
  pub paid_plans : String
  pub verified_at : String
  pub source_digest : String
  pub extractor_version : String
  pub suite_fingerprint : String
  pub disclosure_level : DisclosureLevel
  pub license_status : LicenseStatus

pub record ProviderProfile : Type 0 where
  pub provider_id : String
  pub official_name : String
  pub website : String
  pub market_coverage : List String
  pub official_pricing : List OfficialPricingFact

pub record QualificationDecision : Type 0 where
  pub disposition : QualificationDisposition
  pub reason : String
  pub evidence_digest : String

pub record AccessPath : Type 0 where
  pub access_path_id : String
  pub provider_id : String
  pub path_type : AccessPathType
  pub official_source : String
  pub plan_name : Option String
  pub authorization : String
  pub canonical_interface : String
  pub protocol : AccessProtocol
  pub endpoint_url : Option String
  pub authentication : String
  pub agent_trial_eligible : Bool
  pub qualification : Option QualificationDecision
