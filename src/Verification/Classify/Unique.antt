-- ===== src/Verification/Classify/Unique.antt =====
-- `ProvenanceVerifier.verify` of oprow/verification/orchestrator.py with one accepted candidate.
use watermarks_po_c.Common.{
  false, ◌≡◌, ◌≤◌, refl, ap, ◌∙◌, inl, inr, List, [], ◌∷◌, ◌++◌, map, keep, length, is_empty, All,
  take_of_length-le, Bool-cases, ok, le→not-ltb,
}
use watermarks_po_c.Resolution
use watermarks_po_c.Resolution.{ResolutionCandidate, ResolutionResult, ResolutionStatus}
use watermarks_po_c.Verification.Results.{
  VerificationStatus, CandidateVerification, manifest_of, trusted_valid,
}
use watermarks_po_c.Verification.Orchestrator.{
  VerificationContext, VerificationInput, verify_candidate,
}
use watermarks_po_c.Verification.Orchestrator.Spec.{
  Accepts, verify_candidate-Accepts, verify_candidate-manifest,
}
use watermarks_po_c.Verification.Classify.{
  classify_by, classify_reports, effective_limits, request_of, after_resolution, verify,
}

module _ (ctx : VerificationContext) (input : VerificationInput) where
  keep_none :
      (cs : List ResolutionCandidate)
      → All (λ c. ¬ Accepts ctx input.artifact input.locator c) cs
      → keep trusted_valid (map (verify_candidate ctx input.artifact input.locator) cs) ≡ []
  keep_none [] h = refl
  keep_none (c ∷ cs) h =
      elim (Bool-cases (trusted_valid (verify_candidate ctx input.artifact input.locator c))) [
        | inl e ↦ absurd (h.0 ((verify_candidate-Accepts ctx input.artifact input.locator c).0 e))
        | inr e ↦ rw e (keep_none cs h.1)
      ]

  keep_one :
      (before after : List ResolutionCandidate) (c : ResolutionCandidate)
      → All (λ c. ¬ Accepts ctx input.artifact input.locator c) before
      → Accepts ctx input.artifact input.locator c
      → All (λ c. ¬ Accepts ctx input.artifact input.locator c) after
      → keep trusted_valid
          (map (verify_candidate ctx input.artifact input.locator) (before ++ c ∷ after))
        ≡ verify_candidate ctx input.artifact input.locator c ∷ []
  keep_one [] after c none_before passes none_after =
      rw ((verify_candidate-Accepts ctx input.artifact input.locator c).1 passes) (
        ap (λ rs. verify_candidate ctx input.artifact input.locator c ∷ rs)
          (keep_none after none_after))
  keep_one (b ∷ before) after c none_before passes none_after =
      elim (Bool-cases (trusted_valid (verify_candidate ctx input.artifact input.locator b))) [
        | inl e ↦
            absurd
              (none_before.0 ((verify_candidate-Accepts ctx input.artifact input.locator b).0 e))
        | inr e ↦ rw e (keep_one before after c none_before.1 passes none_after)
      ]

  one_lem :
      (resolution : ResolutionResult) (r : CandidateVerification)
      → is_empty resolution.candidates ≡ false
      → length resolution.candidates ≤ (effective_limits ctx).max_candidates
      → length resolution.candidates ≤ (effective_limits ctx).max_manifest_fetches
      → keep trusted_valid
          (map (verify_candidate ctx input.artifact input.locator) resolution.candidates)
        ≡ r ∷ []
      → ((after_resolution ctx input resolution).status ≡ VerificationStatus.verified)
        × ((after_resolution ctx input resolution).verified_manifests ≡ manifest_of r ∷ [])
  unfolding after_resolution classify_reports classify_by
  one_lem resolution r nonempty few fetched e = rw nonempty (
      rw (le→not-ltb _ _ few) (
        rw (le→not-ltb _ _ fetched) (
          rw
            (take_of_length-le (effective_limits ctx).max_manifest_fetches resolution.candidates
              fetched)
            (rw e (refl, refl)))))

  nonempty_lem :
      (before after : List ResolutionCandidate) (c : ResolutionCandidate)
      → is_empty (before ++ c ∷ after) ≡ false
  nonempty_lem [] after c = refl
  nonempty_lem (b ∷ before) after c = refl

  -- When the resolver returns candidates within both limits of which exactly one meets every condition
  -- of `Accepts`, the answer is VERIFIED and reports the manifest of that candidate alone.
  pub verify_unique :
      (resolution : ResolutionResult) (before after : List ResolutionCandidate)
      (c : ResolutionCandidate)
      → ctx.resolver.resolve (request_of ctx input) ≡ ok resolution
      → resolution.candidates ≡ before ++ c ∷ after
      → length resolution.candidates ≤ (effective_limits ctx).max_candidates
      → length resolution.candidates ≤ (effective_limits ctx).max_manifest_fetches
      → All (λ c. ¬ Accepts ctx input.artifact input.locator c) before
      → Accepts ctx input.artifact input.locator c
      → All (λ c. ¬ Accepts ctx input.artifact input.locator c) after
      → ((verify ctx input).status ≡ VerificationStatus.verified)
        × ((verify ctx input).verified_manifests ≡ Resolution.manifest_of c ∷ [])
  unfolding verify
  verify_unique resolution before after c r e few fetched none_before passes none_after = rw r (
      let (status, manifests) =
        one_lem resolution (verify_candidate ctx input.artifact input.locator c)
          (ap is_empty e ∙ nonempty_lem before after c) few fetched
          (ap
              (λ cs.
                keep trusted_valid (map (verify_candidate ctx input.artifact input.locator) cs))
              e
            ∙ keep_one before after c none_before passes none_after) in
      (
        status,
        manifests ∙ ap (λ m. m ∷ []) (verify_candidate-manifest ctx input.artifact input.locator c),
      ))
