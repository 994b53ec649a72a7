-- ===== src/Verification/Results.antt =====
-- oprow/verification/result.py: the layered results. Diagnostics dicts are left out.
use watermarks_po_c.Common.{Bool, false, ◌&&◌, Option, none, some, List, String}
use watermarks_po_c.Core.Identifiers.{FixedBytesIdentifier}
use watermarks_po_c.Core.Manifest.{Claim, ManifestEnvelope, SignatureRecord, SignedManifest}
use watermarks_po_c.Resolution.{ResolutionResult}
use watermarks_po_c.Verification.Signatures.{ManifestSignatureReport, has_valid_signature}

pub data VerificationStatus : Type 0 where
  verified partially_verified signed_but_untrusted no_watermark manifest_not_found resolution_error
        resolution_candidate_flood index_proof_failed manifest_key_mismatch
        manifest_short_id_mismatch unsupported_pointer_mode no_valid_signatures
        signature_policy_failed unsupported_essence_profile essence_computation_failed
        content_mismatch ambiguous_multiple_valid conflicting_provenance no_valid_candidate :
      VerificationStatus

pub data EssenceReason : Type 0 where
  unsupported_profile hash_mismatch matched_reason : EssenceReason
  computation_error : String → EssenceReason

pub record EssenceCheck : Type 0 where
  pub alg_id : String
  pub expected_hash : FixedBytesIdentifier
  pub computed_hash : Option FixedBytesIdentifier
  pub matched : Bool
  pub reason : EssenceReason

pub record TrustDecision : Type 0 where
  pub accepted : Bool
  pub trusted_signatures : List SignatureRecord
  pub untrusted_valid_signatures : List SignatureRecord
  pub accepted_claims : List Claim
  pub reasons : List String

pub record CandidateVerification : Type 0 where
  pub envelope : ManifestEnvelope
  pub source : String
  pub status : VerificationStatus
  pub locator_ok : Bool
  pub signature_report : Option ManifestSignatureReport
  pub essence_check : Option EssenceCheck
  pub trust_decision : Option TrustDecision
  pub warnings : List String

abbrev pub manifest_of : CandidateVerification → SignedManifest
manifest_of r = r.envelope.manifest

abbrev pub report_valid : Option ManifestSignatureReport → Bool
report_valid none = false
report_valid (some report) = has_valid_signature report

abbrev pub essence_matched : Option EssenceCheck → Bool
essence_matched none = false
essence_matched (some check) = check.matched

abbrev pub trust_accepted : Option TrustDecision → Bool
trust_accepted none = false
trust_accepted (some decision) = decision.accepted

unfoldable pub cryptographically_valid : CandidateVerification → Bool
cryptographically_valid r =
    r.locator_ok && (report_valid r.signature_report && essence_matched r.essence_check)

unfoldable pub trusted_valid : CandidateVerification → Bool
unfolding cryptographically_valid
trusted_valid r = cryptographically_valid r && trust_accepted r.trust_decision

pub record VerificationResult : Type 0 where
  pub status : VerificationStatus
  pub verified_manifests : List SignedManifest
  pub trusted_claims : List Claim
  pub valid_signatures : List SignatureRecord
  pub candidate_reports : List CandidateVerification
  pub resolution : Option ResolutionResult
  pub warnings : List String
