-- ===== src/Verification/Classify.antt =====
-- `classify_reports` and `verify` of oprow/verification/orchestrator.py.
pub mod Outcome
pub mod Safety
pub mod Unique
use watermarks_po_c.Common.{
  ◌*◌, Bool, true, false, not, ◌&&◌, Option, none, some, List, [], ◌∷◌, ◌++◌, map, String, str_eq,
  bytes_eq, ltb, is_empty, if◌then◌else◌, length, take, any, all, keep, contains, Result, ok, err,
}
use watermarks_po_c.Core.Manifest.{Claim, SignatureRecord}
use watermarks_po_c.Resolution.{ResolutionRequest, ResolutionResult, ResolutionStatus}
use watermarks_po_c.Verification.Results.{
  VerificationStatus, verified, signed_but_untrusted, manifest_not_found, resolution_error,
  resolution_candidate_flood, index_proof_failed, manifest_key_mismatch, manifest_short_id_mismatch,
  unsupported_pointer_mode, no_valid_signatures, unsupported_essence_profile,
  essence_computation_failed, content_mismatch, ambiguous_multiple_valid, conflicting_provenance,
  no_valid_candidate, TrustDecision, CandidateVerification, VerificationResult, manifest_of,
  cryptographically_valid, trusted_valid,
}
use watermarks_po_c.Verification.Signatures.{ManifestSignatureReport, valid_checks, records_of}
use watermarks_po_c.Verification.Trust.{ResolutionLimits}
use watermarks_po_c.Verification.Orchestrator.{
  VerificationContext, VerificationInput, limits_or, empty_result, verify_candidate,
}

-- `status == other`, for the statuses in the list of priorities.
abbrev pub is_status : VerificationStatus → VerificationStatus → Bool
is_status content_mismatch content_mismatch = true
is_status essence_computation_failed essence_computation_failed = true
is_status unsupported_essence_profile unsupported_essence_profile = true
is_status no_valid_signatures no_valid_signatures = true
is_status manifest_key_mismatch manifest_key_mismatch = true
is_status manifest_short_id_mismatch manifest_short_id_mismatch = true
is_status unsupported_pointer_mode unsupported_pointer_mode = true
is_status _ _ = false

abbrev pub records_of_report : Option ManifestSignatureReport → List SignatureRecord
records_of_report none = []
records_of_report (some report) = records_of (valid_checks report)

abbrev pub claims_of : Option TrustDecision → List Claim
claims_of none = []
claims_of (some decision) = decision.accepted_claims

unfoldable pub collect_valid_signatures : List CandidateVerification → List SignatureRecord
collect_valid_signatures [] = []
collect_valid_signatures (r ∷ rest) =
    records_of_report r.signature_report ++ collect_valid_signatures rest

unfoldable pub same_manifest_core : List CandidateVerification → Bool
same_manifest_core [] = false
same_manifest_core (first ∷ rest) =
    all
      (λ r. bytes_eq (manifest_of r).core.canonical_bytes (manifest_of first).core.canonical_bytes)
      (first ∷ rest)

-- The set of claim types of a report's manifest.
abbrev pub claim_types : CandidateVerification → List String
claim_types r = map (λ c. c.type) (manifest_of r).core.claims

abbrev pub capture_only : List String → Bool
capture_only s = contains s "capture" && (not (contains s "generation") && not (contains s "edit"))

abbrev pub generation_only : List String → Bool
generation_only s =
    contains s "generation" && (not (contains s "capture") && not (contains s "edit"))

unfoldable pub has_obvious_claim_conflict : List CandidateVerification → Bool
has_obvious_claim_conflict reports =
    any (λ r. capture_only (claim_types r)) reports
    && any (λ r. generation_only (claim_types r)) reports

abbrev pub priority : List VerificationStatus
priority =
    content_mismatch ∷ essence_computation_failed ∷ unsupported_essence_profile
    ∷ no_valid_signatures ∷ manifest_key_mismatch ∷ manifest_short_id_mismatch
    ∷ unsupported_pointer_mode ∷ []

-- The first status of the list that some report has.
unfoldable pub first_status :
    List VerificationStatus → List CandidateVerification → VerificationStatus
first_status [] reports = no_valid_candidate
first_status (s ∷ rest) reports =
    if any (λ r. is_status s r.status) reports then s else first_status rest reports

unfoldable pub best_failure_status : List CandidateVerification → VerificationStatus
unfolding first_status
best_failure_status [] = manifest_not_found
best_failure_status (r ∷ rest) = first_status priority (r ∷ rest)

unfoldable pub all_warnings : List CandidateVerification → List String
all_warnings [] = []
all_warnings (r ∷ rest) = r.warnings ++ all_warnings rest

-- The branch of two or more trusted reports.
unfoldable pub classify_many :
    List CandidateVerification
    → List CandidateVerification
    → Option ResolutionResult
    → List Claim
    → VerificationResult
classify_many trusted reports resolution claims =
    if same_manifest_core trusted
    then record {
      status = verified;
      verified_manifests = map manifest_of trusted;
      trusted_claims = claims;
      valid_signatures = collect_valid_signatures trusted;
      candidate_reports = reports;
      resolution = resolution;
      warnings =
          all_warnings reports ++ "multiple valid candidates share the same ManifestCore" ∷ [];
    }
    else if has_obvious_claim_conflict trusted
    then record {
      status = conflicting_provenance;
      verified_manifests = map manifest_of trusted;
      trusted_claims = [];
      valid_signatures = collect_valid_signatures trusted;
      candidate_reports = reports;
      resolution = resolution;
      warnings =
          all_warnings reports
          ++ "multiple trusted candidates make conflicting top-level origin claims" ∷ [];
    }
    else record {
      status = ambiguous_multiple_valid;
      verified_manifests = map manifest_of trusted;
      trusted_claims = [];
      valid_signatures = collect_valid_signatures trusted;
      candidate_reports = reports;
      resolution = resolution;
      warnings =
          all_warnings reports
          ++ "multiple trusted candidates passed; policy disambiguation required" ∷ [];
    }

-- The branches without a trusted report, by the cryptographically valid ones.
unfoldable pub classify_untrusted :
    List CandidateVerification
    → List CandidateVerification
    → Option ResolutionResult
    → VerificationResult
classify_untrusted [] reports resolution = record {
  status = best_failure_status reports;
  verified_manifests = [];
  trusted_claims = [];
  valid_signatures = [];
  candidate_reports = reports;
  resolution = resolution;
  warnings = all_warnings reports;
}
classify_untrusted (v ∷ valid) reports resolution = record {
  status = signed_but_untrusted;
  verified_manifests = map manifest_of (v ∷ valid);
  trusted_claims = [];
  valid_signatures = collect_valid_signatures (v ∷ valid);
  candidate_reports = reports;
  resolution = resolution;
  warnings =
      all_warnings reports ++ "signed and content-bound, but not trusted under local policy" ∷ [];
}

-- The tests on `len(trusted_valid)`.
unfoldable pub classify_by :
    List CandidateVerification
    → List CandidateVerification
    → Option ResolutionResult
    → VerificationResult
unfolding classify_many classify_untrusted
classify_by [] reports resolution =
    classify_untrusted (keep cryptographically_valid reports) reports resolution
classify_by (r ∷ []) reports resolution = record {
  status = verified;
  verified_manifests = manifest_of r ∷ [];
  trusted_claims = claims_of r.trust_decision;
  valid_signatures = records_of_report r.signature_report;
  candidate_reports = reports;
  resolution = resolution;
  warnings = all_warnings reports;
}
classify_by (r ∷ s ∷ rest) reports resolution =
    classify_many (r ∷ s ∷ rest) reports resolution (manifest_of r).core.claims

unfoldable pub classify_reports :
    List CandidateVerification → Option ResolutionResult → VerificationResult
unfolding classify_by
classify_reports reports resolution = classify_by (keep trusted_valid reports) reports resolution

abbrev pub is_error : ResolutionStatus → Bool
is_error ResolutionStatus.error = true
is_error _ = false

abbrev or_default : List String → List String → List String
or_default [] default = default
or_default (w ∷ ws) default = w ∷ ws

unfoldable pub unresolved : ResolutionResult → VerificationResult
unresolved resolution =
    if is_error resolution.status
    then (if any (λ e. str_eq e.event "index_proof_failed") resolution.diagnostics
        then empty_result index_proof_failed (some resolution)
            (or_default resolution.errors ("authenticated index proof failed" ∷ []))
        else empty_result resolution_error (some resolution)
            (or_default resolution.errors ("resolver returned error" ∷ [])))
    else empty_result manifest_not_found (some resolution)
        ("no candidate manifest resolved for locator" ∷ [])

module _ (ctx : VerificationContext) where
  abbrev pub effective_limits : ResolutionLimits
  effective_limits = limits_or ctx.limits ctx.trust_policy.limits

  abbrev pub request_of : VerificationInput → ResolutionRequest
  request_of input = record {
    locator = input.locator;
    allow_network = input.allow_network;
    max_candidates = effective_limits.max_candidates;
    max_bytes = 8 * 1024 * 1024;
  }

  -- The reports on the first `max_manifest_fetches` candidates.
  abbrev pub reports_of : VerificationInput → ResolutionResult → List CandidateVerification
  reports_of input resolution =
      map (verify_candidate ctx input.artifact input.locator)
        (take effective_limits.max_manifest_fetches resolution.candidates)

  unfoldable pub after_resolution : VerificationInput → ResolutionResult → VerificationResult
  unfolding unresolved
  after_resolution input resolution =
      if is_empty resolution.candidates
      then unresolved resolution
      else if ltb effective_limits.max_candidates (length resolution.candidates)
      then empty_result resolution_candidate_flood (some resolution) ("too many candidates" ∷ [])
      else if ltb effective_limits.max_manifest_fetches (length resolution.candidates)
      then record {
        status = resolution_candidate_flood;
        verified_manifests = [];
        trusted_claims = [];
        valid_signatures = [];
        candidate_reports = reports_of input resolution;
        resolution = some resolution;
        warnings = "candidate fetch limit exceeded" ∷ [];
      }
      else classify_reports (reports_of input resolution) (some resolution)

  abbrev pub after_resolve : VerificationInput → Result ResolutionResult → VerificationResult
  after_resolve input (err e) = empty_result resolution_error none ("resolver raised" ∷ [])
  after_resolve input (ok resolution) = after_resolution input resolution

  unfoldable pub verify : VerificationInput → VerificationResult
  unfolding after_resolution
  verify input = after_resolve input (ctx.resolver.resolve (request_of input))
