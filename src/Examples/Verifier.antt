-- ===== src/Examples/Verifier.antt =====
-- A verifier with one candidate: the parameters of oprow/verification are concrete functions.
use watermarks_po_c.Common.{
  ℕ, ◌+◌, ◌%◌, true, false, ◌≡◌, refl, sym, ◌∙◌, ◌↔◌, none, some, List, [], ◌∷◌, replicate,
  bytes_eq, if◌then◌else◌, ok, arith,
}
use watermarks_po_c.Core.Hashes.{
  HashFunction, frame_parts, frame_fields, frame_field, u64be, to_bytes_be,
}
use watermarks_po_c.Core.Identifiers.{
  FixedBytesIdentifier, IdentifierClass, PointerMode, ManifestLocator, identifier_eq,
}
use watermarks_po_c.Core.Manifest.{
  SignedManifest, SignatureRecord, key_of, verify_locator_self_consistency,
}
use watermarks_po_c.Resolution.{
  ResolutionCandidate, ResolutionResult, ResolutionStatus, CandidateValidationStatus,
}
use watermarks_po_c.Verification.Signatures.{
  value, Cryptography, LoadedKey, Verdict, ManifestSignatureReport, verify_manifest_signatures,
  verify_signatures, verify_signature_record, try_signature, signature_preimage, load_public_key,
  check_with_key,
}
use watermarks_po_c.Verification.Results.{VerificationStatus, trusted_valid}
use watermarks_po_c.Verification.Trust.{TrustPolicyStub, role_accepted, kid_accepted}
use watermarks_po_c.Verification.Orchestrator.{
  Artifact, EssenceOutcome, VerificationContext, VerificationInput, verify_candidate,
}
use watermarks_po_c.Verification.Orchestrator.Spec.{Accepts, verify_candidate-Accepts}
use watermarks_po_c.Verification.Classify.{verify, after_resolution}
use watermarks_po_c.Verification.Classify.Safety.{Evidence, verify-verified, verify-trusted_claims}
use watermarks_po_c.Verification.Classify.Unique.{verify_unique}

abbrev total : List ℕ → ℕ
total [] = 0
total (b ∷ bs) = b + total bs

abbrev toy_sha : HashFunction
toy_sha = record { digest = λ raw. replicate 32 (total raw % 256); digest_size = λ raw. refl }

abbrev content_hash : FixedBytesIdentifier
content_hash = record { kind = IdentifierClass.hash256; value = replicate 32 7 }

abbrev signature : SignatureRecord
signature = record { kid = "k1"; alg = "Ed25519"; signature = 9 ∷ []; role = "creator" }

abbrev manifest : SignedManifest
manifest = record {
  core = record {
    artifact = record { essence_alg_id = "raw"; essence_hash = content_hash };
    claims = record { type = "capture"; body = [] } ∷ [];
    canonical_bytes = 1 ∷ 2 ∷ 3 ∷ [];
  };
  signatures = signature ∷ [];
  canonical_bytes = 1 ∷ 2 ∷ 3 ∷ 4 ∷ [];
}

abbrev locator : ManifestLocator
locator = record {
  mode = PointerMode.full160;
  value = key_of toy_sha manifest;
  namespace_id = none;
  hdc_profile_id = none;
  derivation_profile = "h160";
}

abbrev candidate : ResolutionCandidate
candidate = record {
  envelope = record { manifest = manifest; locator = locator };
  source = "cas";
  validation_status = CandidateValidationStatus.locator_match;
  raw_bytes = none;
}

abbrev toy_crypto : Cryptography
toy_crypto = record {
  ed25519_from_public_bytes = λ raw. value (LoadedKey.ed25519_key raw);
  load_der_public_key = λ raw. value (LoadedKey.other_key raw);
  verify_ed25519 = λ key sig message.
      value (if bytes_eq sig (9 ∷ []) then Verdict.accepted else Verdict.invalid_signature);
  verify_ecdsa_sha256 = λ key sig message. value Verdict.invalid_signature;
  protected_header_bytes = λ r. value (0 ∷ []);
}

abbrev policy : TrustPolicyStub
policy = record {
  trusted_key_ids = "k1" ∷ [];
  accepted_roles = "creator" ∷ [];
  limits = record { max_candidates = 2; max_manifest_fetches = 2 };
}

abbrev resolution_of : List ResolutionCandidate → ResolutionResult
resolution_of candidates = record {
  status = ResolutionStatus.found;
  candidates = candidates;
  diagnostics = [];
  errors = [];
}

abbrev context : List ResolutionCandidate → VerificationContext
context candidates = record {
  sha = toy_sha;
  resolver = record { name = "memory"; resolve = λ request. ok (resolution_of candidates) };
  resolve_key =
      λ kid. value (some (record { alg = "Ed25519"; encoding = "raw"; public_key_bytes = 5 ∷ [] }));
  crypto = toy_crypto;
  compute_hash = λ artifact alg.
      EssenceOutcome.computed (record { kind = IdentifierClass.hash256; value = artifact.bytes });
  trust_policy = policy;
  limits = none;
  require_resolver_locator_match = true;
}

abbrev artifact : Artifact
artifact = record { media_type = "image/png"; bytes = replicate 32 7 }

abbrev input : VerificationInput
input = record { artifact = artifact; locator = locator; allow_network = false }

report : ManifestSignatureReport
report = record { checks = record { record' = signature; valid = true; reason = "valid" } ∷ [] }

signatures-checked :
    verify_manifest_signatures toy_crypto (context (candidate ∷ [])).resolve_key manifest
    ≡ value report
unfolding verify_manifest_signatures verify_signatures verify_signature_record try_signature
    signature_preimage load_public_key check_with_key bytes_eq frame_parts frame_fields frame_field
    u64be to_bytes_be report
signatures-checked = refl

candidate-Accepts : Accepts (context (candidate ∷ [])) artifact locator candidate
unfolding verify_locator_self_consistency identifier_eq bytes_eq role_accepted kid_accepted report
candidate-Accepts = record {
  locator = refl;
  marked = refl;
  report = report;
  checked = signatures-checked;
  signed = refl;
  essence = refl;
  trusted = refl;
}

verify_unique_example :
    ((verify (context (candidate ∷ [])) input).status ≡ VerificationStatus.verified)
    × ((verify (context (candidate ∷ [])) input).verified_manifests ≡ manifest ∷ [])
verify_unique_example =
    verify_unique (context (candidate ∷ [])) input (resolution_of (candidate ∷ [])) [] [] candidate
      refl refl (omega arith) (omega arith) tt candidate-Accepts tt

example-verified : (verify (context (candidate ∷ [])) input).status ≡ VerificationStatus.verified
example-verified =
    (verify_unique (context (candidate ∷ [])) input (resolution_of (candidate ∷ [])) [] [] candidate
      refl refl (omega arith) (omega arith) tt candidate-Accepts tt).0

verify-verified_example :
    Evidence (context (candidate ∷ [])) input (verify (context (candidate ∷ [])) input)
verify-verified_example = verify-verified (context (candidate ∷ [])) input example-verified

verify_candidate-Accepts_example :
    (trusted_valid (verify_candidate (context (candidate ∷ [])) artifact locator candidate) ≡ true)
    ↔ Accepts (context (candidate ∷ [])) artifact locator candidate
verify_candidate-Accepts_example =
    verify_candidate-Accepts (context (candidate ∷ [])) artifact locator candidate

abbrev flood : List ResolutionCandidate
flood = candidate ∷ candidate ∷ candidate ∷ []

verify-flood : (verify (context flood) input).status ≡ VerificationStatus.resolution_candidate_flood
unfolding verify after_resolution
verify-flood = refl

flood-≢ : (verify (context flood) input).status ≡ VerificationStatus.verified → ⊥
flood-≢ h = absurd (distinct (sym verify-flood ∙ h))
  where
    distinct : VerificationStatus.resolution_candidate_flood ≡ VerificationStatus.verified → ⊥
    distinct e = cc

verify-trusted_claims_example : (verify (context flood) input).trusted_claims ≡ []
verify-trusted_claims_example = verify-trusted_claims (context flood) input flood-≢
