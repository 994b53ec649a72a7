-- ===== src/Verification/Classify/Safety.antt =====
-- `ProvenanceVerifier.verify` of oprow/verification/orchestrator.py: when it answers VERIFIED, and what it
-- then reports.
use watermarks_po_c.Common.{
  true, ◌≡◌, ◌≢◌, ◌≤◌, refl, sym, ap, ◌∙◌, some, [], map, Memᴰ, arith, keep, length, All,
  All-weaken, All-Memᴰ, All-map, keep-All, take_of_length-le, Result, ok, err,
}
use watermarks_po_c.Core.Manifest.{SignedManifest}
use watermarks_po_c.Resolution
use watermarks_po_c.Resolution.{ResolutionCandidate, ResolutionResult, ResolutionStatus}
use watermarks_po_c.Verification.Results.{
  VerificationStatus, VerificationResult, manifest_of, trusted_valid,
}
use watermarks_po_c.Verification.Orchestrator.{
  VerificationContext, VerificationInput, verify_candidate,
}
use watermarks_po_c.Verification.Orchestrator.Spec.{
  Accepts, verify_candidate-Accepts, verify_candidate-manifest,
}
use watermarks_po_c.Verification.Classify.{
  classify_many, classify_untrusted, classify_by, classify_reports, unresolved, effective_limits,
  request_of, reports_of, after_resolution, after_resolve, verify,
}
use watermarks_po_c.Verification.Classify.Outcome.{OneCore, classify_by_verified, unresolved-≢}

module _ (ctx : VerificationContext) (input : VerificationInput) where
  -- A manifest of a candidate that the resolver returned and that passes every check.
  abbrev pub AcceptedFrom : ResolutionResult → SignedManifest → Type 0
  AcceptedFrom resolution m =
      (c : ResolutionCandidate) × Memᴰ c resolution.candidates
      × (Resolution.manifest_of c ≡ m)
      × Accepts ctx input.artifact input.locator c

  after_resolution_verified :
      (resolution : ResolutionResult)
      → (after_resolution ctx input resolution).status ≡ VerificationStatus.verified
      → (length resolution.candidates ≤ (effective_limits ctx).max_candidates)
        × (length resolution.candidates ≤ (effective_limits ctx).max_manifest_fetches)
        × (after_resolution ctx input resolution
            ≡ classify_reports (reports_of ctx input resolution) (some resolution))
  unfolding after_resolution
  after_resolution_verified resolution h = ground (arith, unresolved-≢ resolution)

  reports-AcceptedFrom :
      (resolution : ResolutionResult)
      → length resolution.candidates ≤ (effective_limits ctx).max_manifest_fetches
      → All
          (λ r. trusted_valid r ≡ true → AcceptedFrom resolution (manifest_of r))
          (reports_of ctx input resolution)
  reports-AcceptedFrom resolution h =
      rw (take_of_length-le (effective_limits ctx).max_manifest_fetches resolution.candidates h) (
        All-map _ (verify_candidate ctx input.artifact input.locator) resolution.candidates (
          All-weaken
            (λ c m. λ e. (
              c,
              m,
              sym (verify_candidate-manifest ctx input.artifact input.locator c),
              (verify_candidate-Accepts ctx input.artifact input.locator c).0 e,
            ))
            resolution.candidates (All-Memᴰ resolution.candidates)))

  trusted-AcceptedFrom :
      (resolution : ResolutionResult)
      → length resolution.candidates ≤ (effective_limits ctx).max_manifest_fetches
      → All
          (AcceptedFrom resolution)
          (map manifest_of (keep trusted_valid (reports_of ctx input resolution)))
  trusted-AcceptedFrom resolution h = All-map (AcceptedFrom resolution) manifest_of _ (
      All-weaken (λ r p. p.0 p.1) _
        (keep-All _ trusted_valid (reports_of ctx input resolution)
          (reports-AcceptedFrom resolution h)))

  resolved_verified :
      (resolution : ResolutionResult)
      → (after_resolution ctx input resolution).status ≡ VerificationStatus.verified
      → OneCore (after_resolution ctx input resolution).verified_manifests
        × All (AcceptedFrom resolution) (after_resolution ctx input resolution).verified_manifests
  unfolding classify_reports
  resolved_verified resolution h =
      let (few, fetched, e) = after_resolution_verified resolution h in
      let (core, manifests) =
        classify_by_verified (reports_of ctx input resolution) (some resolution)
          (keep trusted_valid (reports_of ctx input resolution)) (sym (ap (λ r. r.status) e) ∙ h) in
      let m = ap (λ r. r.verified_manifests) e ∙ manifests in
      (rw m core, rw m (trusted-AcceptedFrom resolution fetched))

  -- A resolution within both limits, and reported manifests that have one core and are each the manifest
  -- of an accepted candidate.
  pub record Evidence (result : VerificationResult) : Type 0 where
    pub resolution : ResolutionResult
    pub resolved : ctx.resolver.resolve (request_of ctx input) ≡ ok resolution
    pub within_candidates : length resolution.candidates ≤ (effective_limits ctx).max_candidates
    pub within_fetches : length resolution.candidates ≤ (effective_limits ctx).max_manifest_fetches
    pub one_core : OneCore result.verified_manifests
    pub accepted : All (AcceptedFrom resolution) result.verified_manifests

  resolve-Evidence :
      (o : Result ResolutionResult)
      → ctx.resolver.resolve (request_of ctx input) ≡ o
      → (after_resolve ctx input o).status ≡ VerificationStatus.verified
      → Evidence (after_resolve ctx input o)
  resolve-Evidence (err e) r h = cc
  resolve-Evidence (ok resolution) r h =
      let (few, fetched, e) = after_resolution_verified resolution h in
      let (core, accepted) = resolved_verified resolution h in
      record {
        resolution = resolution;
        resolved = r;
        within_candidates = few;
        within_fetches = fetched;
        one_core = core;
        accepted = accepted;
      }

  -- What an answer with the status VERIFIED is evidence of: the resolver returned a resolution, within both limits
  -- on the number of candidates; at least one manifest is reported; all the reported ones have the same
  -- ManifestCore bytes; and each is the manifest of a resolved candidate that meets every condition of `Accepts`.
  pub verify-verified :
      (verify ctx input).status ≡ VerificationStatus.verified → Evidence (verify ctx input)
  unfolding verify
  verify-verified h = resolve-Evidence (ctx.resolver.resolve (request_of ctx input)) refl h

  claims_lem :
      (resolution : ResolutionResult)
      → (after_resolution ctx input resolution).status ≢ VerificationStatus.verified
      → (after_resolution ctx input resolution).trusted_claims ≡ []
  unfolding after_resolution unresolved classify_reports classify_by classify_untrusted
      classify_many
  claims_lem resolution h = ground arith

  -- Whatever the resolver returns or raises, an answer that is not VERIFIED trusts no claim.
  pub verify-trusted_claims :
      (verify ctx input).status ≢ VerificationStatus.verified
      → (verify ctx input).trusted_claims ≡ []
  unfolding verify
  verify-trusted_claims h = resolve_cases (ctx.resolver.resolve (request_of ctx input)) h
    where
      resolve_cases :
          (o : Result ResolutionResult)
          → (after_resolve ctx input o).status ≢ VerificationStatus.verified
          → (after_resolve ctx input o).trusted_claims ≡ []
      resolve_cases (err e) h = refl
      resolve_cases (ok resolution) h = claims_lem resolution h
