-- ===== src/Models/Evidence.antt =====
-- src/qveris_bench/models/evidence.py
use qveris_capability_benchm.Prelude.{String, Option}
use qveris_capability_benchm.Models.Enums.{DisclosureLevel, LicenseStatus, RedactionStatus}
use qveris_capability_benchm.Models.Value.{Float}

pub record EvidenceBundle : Type 0 where
  pub evidence_id : String
  pub run_key : String
  pub raw_digest : String
  pub public_digest : Option String
  pub redaction_status : RedactionStatus
  pub disclosure_level : DisclosureLevel
  pub license_status : LicenseStatus
  pub extractor_version : String
  pub suite_fingerprint : String
  pub latency_ms : Option Float
  pub cost_credits : Option Float
