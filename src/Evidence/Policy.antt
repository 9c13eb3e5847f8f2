-- ===== src/Evidence/Policy.antt =====
-- src/qveris_bench/evidence/policy.py and index.py's `EvidenceIndexEntry.from_bundle`
use qveris_capability_benchm.Prelude.{
  String, ◌≡◌, ◌≢◌, ◌↔◌, not, Option, none, some, ◌==◌, arith, Result, ok, err, ◌>>◌, raise_if,
}
use qveris_capability_benchm.Models.Enums.{
  sanitized, redaction_status_eq, DisclosureLevel, sanitized_public, disclosure_level_eq,
  LicenseStatus, cleared, license_status_eq,
}
use qveris_capability_benchm.Models.Evidence.{EvidenceBundle}
use qveris_capability_benchm.Models.Suite.{is_none}

pub data PublicationPolicyError : Type 0 where
  must_be_sanitized : PublicationPolicyError
  requires_public_disclosure : PublicationPolicyError
  requires_cleared_license : PublicationPolicyError
  requires_public_digest : PublicationPolicyError

unfoldable pub validate_publication : EvidenceBundle → Result PublicationPolicyError (Unit {0})
validate_publication bundle = do
  raise_if (not (bundle.redaction_status == sanitized)) must_be_sanitized
  raise_if (not (bundle.disclosure_level == sanitized_public)) requires_public_disclosure
  raise_if (not (bundle.license_status == cleared)) requires_cleared_license
  raise_if (is_none bundle.public_digest) requires_public_digest

-- What may be published: sanitized, meant for the public, free of claims and with a public digest.
pub record IsPublishable (bundle : EvidenceBundle) : Type 0 where
  pub redacted : bundle.redaction_status ≡ sanitized
  pub disclosed : bundle.disclosure_level ≡ sanitized_public
  pub licensed : bundle.license_status ≡ cleared
  pub digested : bundle.public_digest ≢ none

-- The policy accepts a bundle exactly when it may be published.
pub validate_publication_iff :
    (bundle : EvidenceBundle) → (validate_publication bundle ≡ ok tt) ↔ IsPublishable bundle
unfolding validate_publication
validate_publication_iff bundle = (λ h. ground arith, λ h. ground arith)

pub record EvidenceIndexEntry : Type 0 where
  pub evidence_id : String
  pub run_key : String
  pub raw_digest : String
  pub public_digest : String
  pub extractor_version : String
  pub suite_fingerprint : String
  pub disclosure_level : DisclosureLevel
  pub license_status : LicenseStatus

pub data IndexError : Type 0 where
  policy : PublicationPolicyError → IndexError
  index_requires_public_digest : IndexError

entry_with : EvidenceBundle → Option String → Result IndexError EvidenceIndexEntry
entry_with bundle none = err index_requires_public_digest
entry_with bundle (some digest) = ok (record {
  evidence_id = bundle.evidence_id;
  run_key = bundle.run_key;
  raw_digest = bundle.raw_digest;
  public_digest = digest;
  extractor_version = bundle.extractor_version;
  suite_fingerprint = bundle.suite_fingerprint;
  disclosure_level = bundle.disclosure_level;
  license_status = bundle.license_status;
})

-- `EvidenceIndexEntry.from_bundle`
pub from_bundle : EvidenceBundle → Result IndexError EvidenceIndexEntry
unfolding entry_with
from_bundle bundle = elim (validate_publication bundle) [
  | err e ↦ err (policy e)
  | ok u ↦ entry_with bundle bundle.public_digest
]
