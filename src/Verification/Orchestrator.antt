-- ===== src/Verification/Orchestrator.antt =====
-- `ProvenanceVerifier` of oprow/verification/orchestrator.py. The resolver, the key resolver, the
-- cryptography and the essence registry are parameters; what they raise is caught as in the code.
-- A warning keeps the fixed part of its text.
pub mod Spec
use watermarks_po_c.Common.{
  ℕ, Bool, true, false, not, ◌&&◌, ◌||◌, Option, none, some, List, [], ◌∷◌, ◌++◌, map, String,
  str_eq, bytes_eq, ltb, if◌then◌else◌, length, take, any, all, keep, contains, Result, ok, err,
}
use watermarks_po_c.Core.Hashes.{HashFunction}
use watermarks_po_c.Core.Identifiers.{is_full, FixedBytesIdentifier, identifier_eq, ManifestLocator}
use watermarks_po_c.Core.Manifest.{
  Claim, SignatureRecord, SignedManifest, verify_locator_self_consistency,
}
use watermarks_po_c.Resolution
use watermarks_po_c.Resolution.{
  ResolutionRequest, ResolutionResult, ResolutionStatus, ResolutionCandidate, is_locator_match,
}
use watermarks_po_c.Resolution.Composite.{Resolver}
use watermarks_po_c.Verification.Results.{
  VerificationStatus, EssenceCheck, EssenceReason, unsupported_profile, hash_mismatch,
  matched_reason, computation_error, TrustDecision, CandidateVerification, VerificationResult,
  manifest_of, cryptographically_valid, trusted_valid,
}
use watermarks_po_c.Verification.Results
use watermarks_po_c.Verification.Signatures.{
  Outcome, value, raised, Cryptography, PublicKeyRecord, ManifestSignatureReport,
  has_valid_signature, valid_checks, records_of, verify_manifest_signatures,
}
use watermarks_po_c.Verification.Trust.{ResolutionLimits, TrustPolicyStub, evaluate}

pub record Artifact : Type 0 where
  pub media_type : String
  pub bytes : List ℕ

-- What `essence_registry.compute_hash` does: a hash, an UnsupportedAlgorithmError, another exception.
pub data EssenceOutcome : Type 0 where
  computed : FixedBytesIdentifier → EssenceOutcome
  unsupported_algorithm : EssenceOutcome
  failed : String → EssenceOutcome

pub record VerificationContext : Type 0 where
  pub sha : HashFunction
  pub resolver : Resolver
  pub resolve_key : String → Outcome (Option PublicKeyRecord)
  pub crypto : Cryptography
  pub compute_hash : Artifact → String → EssenceOutcome
  pub trust_policy : TrustPolicyStub
  pub limits : Option ResolutionLimits
  pub require_resolver_locator_match : Bool

abbrev pub limits_or : Option ResolutionLimits → ResolutionLimits → ResolutionLimits
limits_or none default = default
limits_or (some limits) default = limits

pub record VerificationInput : Type 0 where
  pub artifact : Artifact
  pub locator : ManifestLocator
  pub allow_network : Bool

abbrev pub empty_result :
    VerificationStatus → Option ResolutionResult → List String → VerificationResult
empty_result status resolution warnings = record {
  status = status;
  verified_manifests = [];
  trusted_claims = [];
  valid_signatures = [];
  candidate_reports = [];
  resolution = resolution;
  warnings = warnings;
}

unfoldable pub locator_mismatch_status : ManifestLocator → VerificationStatus
locator_mismatch_status l =
    if is_full l.mode
    then VerificationStatus.manifest_key_mismatch
    else VerificationStatus.manifest_short_id_mismatch

abbrev pub essence_status : EssenceReason → VerificationStatus
essence_status unsupported_profile = VerificationStatus.unsupported_essence_profile
essence_status (computation_error e) = VerificationStatus.essence_computation_failed
essence_status _ = VerificationStatus.content_mismatch

abbrev pub essence_check_of : String → FixedBytesIdentifier → EssenceOutcome → EssenceCheck
essence_check_of alg expected unsupported_algorithm = record {
  alg_id = alg;
  expected_hash = expected;
  computed_hash = none;
  matched = false;
  reason = unsupported_profile;
}
essence_check_of alg expected (failed e) = record {
  alg_id = alg;
  expected_hash = expected;
  computed_hash = none;
  matched = false;
  reason = computation_error e;
}
essence_check_of alg expected (computed h) = record {
  alg_id = alg;
  expected_hash = expected;
  computed_hash = some h;
  matched = identifier_eq h expected;
  reason = if identifier_eq h expected then matched_reason else hash_mismatch;
}

module _ (ctx : VerificationContext) where
  unfoldable pub check_essence : Artifact → SignedManifest → EssenceCheck
  check_essence artifact m =
      let binding = m.core.artifact in
      essence_check_of binding.essence_alg_id binding.essence_hash
        (ctx.compute_hash artifact binding.essence_alg_id)

  -- The locator test, and the warning when the resolver did not mark the candidate as a match.
  abbrev pub resolver_rejects : ResolutionCandidate → Bool
  resolver_rejects c =
      ctx.require_resolver_locator_match && not (is_locator_match c.validation_status)

  unfoldable pub locator_passes : ManifestLocator → ResolutionCandidate → Bool
  locator_passes l c =
      verify_locator_self_consistency ctx.sha (Resolution.manifest_of c) l
      && not (resolver_rejects c)

  abbrev pub locator_warnings : ResolutionCandidate → List String
  locator_warnings c =
      if resolver_rejects c then "resolver candidate was not marked locator_match" ∷ [] else []

  abbrev pub report_with :
      ResolutionCandidate
      → VerificationStatus
      → Bool
      → Option ManifestSignatureReport
      → Option EssenceCheck
      → Option TrustDecision
      → List String
      → CandidateVerification
  report_with c status locator_ok signatures essence trust warnings = record {
    envelope = c.envelope;
    source = c.source;
    status = status;
    locator_ok = locator_ok;
    signature_report = signatures;
    essence_check = essence;
    trust_decision = trust;
    warnings = warnings;
  }

  -- The last two stages of `verify_candidate`: essence, then trust.
  unfoldable pub after_signatures :
      Artifact → ResolutionCandidate → ManifestSignatureReport → CandidateVerification
  after_signatures artifact c report =
      let essence = check_essence artifact (Resolution.manifest_of c) in
      let decision = evaluate ctx.trust_policy (Resolution.manifest_of c) report in
      if not essence.matched
      then report_with c (essence_status essence.reason) true (some report) (some essence) none
          (locator_warnings c)
      else if not decision.accepted
      then report_with c VerificationStatus.signed_but_untrusted true (some report) (some essence)
          (some decision) (locator_warnings c)
      else report_with c VerificationStatus.verified true (some report) (some essence)
          (some decision) (locator_warnings c)

  unfoldable pub after_locator :
      Artifact → ResolutionCandidate → Outcome ManifestSignatureReport → CandidateVerification
  after_locator artifact c (raised e) =
      report_with c VerificationStatus.no_valid_signatures true none none none
        (locator_warnings c ++ "signature verification raised" ∷ [])
  after_locator artifact c (value report) =
      if not (has_valid_signature report)
      then report_with c VerificationStatus.no_valid_signatures true (some report) none none
          (locator_warnings c)
      else after_signatures artifact c report

  unfoldable pub verify_candidate :
      Artifact → ManifestLocator → ResolutionCandidate → CandidateVerification
  verify_candidate artifact l c =
      if not (locator_passes l c)
      then report_with c (locator_mismatch_status l) false none none none (locator_warnings c)
      else after_locator artifact c
          (verify_manifest_signatures ctx.crypto ctx.resolve_key (Resolution.manifest_of c))
