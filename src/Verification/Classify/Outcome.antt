-- ===== src/Verification/Classify/Outcome.antt =====
-- The answers of `classify_reports` of oprow/verification/orchestrator.py, and those before any report.
use watermarks_po_c.Common.{
  true, ◌≡◌, ◌≢◌, refl, Option, List, [], ◌∷◌, map, arith, bytes_eq→≡, All, All-weaken, All-map,
  All-all,
}
use watermarks_po_c.Core.Manifest.{SignedManifest}
use watermarks_po_c.Resolution.{ResolutionResult}
use watermarks_po_c.Verification.Results.{VerificationStatus, CandidateVerification, manifest_of}
use watermarks_po_c.Verification.Classify.{
  same_manifest_core, first_status, priority, best_failure_status, classify_many,
  classify_untrusted, classify_by, unresolved,
}

first_status-≢ :
    (reports : List CandidateVerification)
    → first_status priority reports ≢ VerificationStatus.verified
unfolding first_status
first_status-≢ reports h = ground arith

best_failure_status-≢ :
    (reports : List CandidateVerification)
    → best_failure_status reports ≢ VerificationStatus.verified
unfolding best_failure_status
best_failure_status-≢ [] h = cc
best_failure_status-≢ (r ∷ rest) h = first_status-≢ (r ∷ rest) h

-- At least one manifest, and all with the same ManifestCore bytes.
abbrev pub OneCore : List SignedManifest → Type 0
OneCore [] = ⊥
OneCore (m ∷ rest) = All (λ n. n.core.canonical_bytes ≡ m.core.canonical_bytes) (m ∷ rest)

module _ (reports : List CandidateVerification) (resolution : Option ResolutionResult) where
  classify_many_verified :
      (r : CandidateVerification) (rest : List CandidateVerification) (claims : _)
      → (classify_many (r ∷ rest) reports resolution claims).status ≡ VerificationStatus.verified
      → (same_manifest_core (r ∷ rest) ≡ true)
        × ((classify_many (r ∷ rest) reports resolution claims).verified_manifests
            ≡ map manifest_of (r ∷ rest))
  unfolding classify_many
  classify_many_verified r rest claims h = ground arith

  same_manifest_core-OneCore :
      (r : CandidateVerification) (rest : List CandidateVerification)
      → same_manifest_core (r ∷ rest) ≡ true
      → OneCore (map manifest_of (r ∷ rest))
  unfolding same_manifest_core
  same_manifest_core-OneCore r rest h =
      All-map _ manifest_of (r ∷ rest)
        (All-weaken (λ s e. bytes_eq→≡ _ _ e) (r ∷ rest) (All-all _ (r ∷ rest) h))

  classify_untrusted-≢ :
      (valid : List CandidateVerification)
      → (classify_untrusted valid reports resolution).status ≢ VerificationStatus.verified
  unfolding classify_untrusted
  classify_untrusted-≢ [] h = best_failure_status-≢ reports h
  classify_untrusted-≢ (v ∷ valid) h = cc

  pub classify_by_verified :
      (trusted : List CandidateVerification)
      → (classify_by trusted reports resolution).status ≡ VerificationStatus.verified
      → OneCore (map manifest_of trusted)
        × ((classify_by trusted reports resolution).verified_manifests ≡ map manifest_of trusted)
  unfolding classify_by
  classify_by_verified [] h = absurd (classify_untrusted-≢ _ h)
  classify_by_verified (r ∷ []) h = ((refl, tt), refl)
  classify_by_verified (r ∷ s ∷ rest) h =
      let (same, manifests) = classify_many_verified r (s ∷ rest) _ h in
      (same_manifest_core-OneCore r (s ∷ rest) same, manifests)

pub unresolved-≢ :
    (resolution : ResolutionResult) → (unresolved resolution).status ≢ VerificationStatus.verified
unfolding unresolved
unresolved-≢ resolution h = ground arith
