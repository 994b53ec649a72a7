-- ===== src/Verification/Orchestrator/Spec.antt =====
-- What it means that `verify_candidate` of oprow/verification/orchestrator.py accepts a candidate, stated
-- without the order of its checks.
use watermarks_po_c.Common.{
  true, false, not, ◌&&◌, ◌≡◌, refl, sym, ◌∙◌, ◌↔◌, List, [], ◌∷◌, String, arith, any, keep,
  is_empty, keep-nonempty, any-keep,
}
use watermarks_po_c.Core.Identifiers.{ManifestLocator, FixedBytesIdentifier, identifier_eq_iff}
use watermarks_po_c.Core.Manifest.{SignedManifest, verify_locator_self_consistency}
use watermarks_po_c.Resolution
use watermarks_po_c.Resolution.{ResolutionCandidate}
use watermarks_po_c.Verification.Results.{cryptographically_valid, trusted_valid}
use watermarks_po_c.Verification.Results
use watermarks_po_c.Verification.Signatures.{
  Outcome, value, raised, SignatureCheck, ManifestSignatureReport, has_valid_signature,
  valid_checks, verify_manifest_signatures,
}
use watermarks_po_c.Verification.Trust.{TrustPolicyStub, is_trusted, decide, evaluate}
use watermarks_po_c.Verification.Orchestrator.{
  VerificationContext, Artifact, EssenceOutcome, computed, unsupported_algorithm, failed,
  essence_check_of, check_essence, resolver_rejects, locator_passes, after_signatures,
  after_locator, verify_candidate,
}

-- A valid signature whose role and key the policy accepts.
abbrev pub TrustedBy : TrustPolicyStub → ManifestSignatureReport → Type 0
TrustedBy policy report = any (λ c. c.valid && is_trusted policy c) report.checks ≡ true

decide_lem :
    (policy : TrustPolicyStub) (m : SignedManifest) (v : SignatureCheck)
    (valid trusted : List SignatureCheck)
    → (decide policy m (v ∷ valid) trusted).accepted ≡ not (is_empty trusted)
unfolding decide
decide_lem policy m v valid [] = refl
decide_lem policy m v valid (t ∷ trusted) = refl

evaluate_valid :
    (policy : TrustPolicyStub) (m : SignedManifest) (valid : List SignatureCheck)
    → (decide policy m valid (keep (is_trusted policy) valid)).accepted
      ≡ any (is_trusted policy) valid
unfolding decide
evaluate_valid policy m [] = refl
evaluate_valid policy m (v ∷ valid) =
    decide_lem policy m v valid _ ∙ keep-nonempty (is_trusted policy) (v ∷ valid)

pub evaluate-accepted :
    (policy : TrustPolicyStub) (m : SignedManifest) (report : ManifestSignatureReport)
    → (evaluate policy m report).accepted ≡ any (λ c. c.valid && is_trusted policy c) report.checks
unfolding evaluate
evaluate-accepted policy m report =
    evaluate_valid policy m (valid_checks report)
    ∙ any-keep (is_trusted policy) (λ c. c.valid) report.checks

module _ (ctx : VerificationContext) (artifact : Artifact) (l : ManifestLocator)
    (c : ResolutionCandidate) where
  -- Every condition that the safety rule of the verifier names.
  pub record Accepts : Type 0 where
    pub locator : verify_locator_self_consistency ctx.sha (Resolution.manifest_of c) l ≡ true
    pub marked : resolver_rejects ctx c ≡ false
    pub report : ManifestSignatureReport
    pub checked :
        verify_manifest_signatures ctx.crypto ctx.resolve_key (Resolution.manifest_of c)
        ≡ value report
    pub signed : has_valid_signature report ≡ true
    pub essence :
        ctx.compute_hash artifact (Resolution.manifest_of c).core.artifact.essence_alg_id
        ≡ computed (Resolution.manifest_of c).core.artifact.essence_hash
    pub trusted : any (λ s. s.valid && is_trusted ctx.trust_policy s) report.checks ≡ true

  essence_lem :
      (h : FixedBytesIdentifier) (o : EssenceOutcome) (alg : String)
      → ((essence_check_of alg h o).matched ≡ true) ↔ (o ≡ computed h)
  essence_lem h (computed k) alg = ground (arith, identifier_eq_iff k h)
  essence_lem h unsupported_algorithm alg = (λ e. cc, λ e. cc)
  essence_lem h (failed e) alg = (λ e. cc, λ e. cc)

  locator_lem : (locator_passes ctx l c ≡ true) ↔ (
      (verify_locator_self_consistency ctx.sha (Resolution.manifest_of c) l ≡ true)
      × (resolver_rejects ctx c ≡ false))
  unfolding locator_passes
  locator_lem = ground arith

  after_signatures_lem :
      (report : ManifestSignatureReport)
      → (trusted_valid (after_signatures ctx artifact c report) ≡ true) ↔ (
          (has_valid_signature report ≡ true)
          × ((check_essence ctx artifact (Resolution.manifest_of c)).matched ≡ true)
          × ((evaluate ctx.trust_policy (Resolution.manifest_of c) report).accepted ≡ true))
  unfolding after_signatures trusted_valid
  after_signatures_lem report = ground arith

  after_locator_lem :
      (o : Outcome ManifestSignatureReport)
      → trusted_valid (after_locator ctx artifact c o) ≡ true
      → (report : ManifestSignatureReport) × (o ≡ value report)
        × (trusted_valid (after_signatures ctx artifact c report) ≡ true)
  unfolding after_locator trusted_valid
  after_locator_lem (raised e) h = cc
  after_locator_lem (value report) h = (report, refl, ground arith)

  verify_candidate_passes :
      trusted_valid (verify_candidate ctx artifact l c) ≡ true
      → (locator_passes ctx l c ≡ true)
        × (trusted_valid (
              after_locator ctx artifact c
                (verify_manifest_signatures ctx.crypto ctx.resolve_key (Resolution.manifest_of c)))
            ≡ true)
  unfolding verify_candidate trusted_valid
  verify_candidate_passes h = ground arith

  sound : trusted_valid (verify_candidate ctx artifact l c) ≡ true → Accepts
  unfolding check_essence
  sound h =
      let (passes, located) = verify_candidate_passes h in
      let (report, checked, decided) = after_locator_lem _ located in
      let (signed, matched, accepted) = (after_signatures_lem report).0 decided in
      record {
        locator = (locator_lem.0 passes).0;
        marked = (locator_lem.0 passes).1;
        report = report;
        checked = checked;
        signed = signed;
        essence =
            (essence_lem _ _ (Resolution.manifest_of c).core.artifact.essence_alg_id).0 matched;
        trusted =
            sym (evaluate-accepted ctx.trust_policy (Resolution.manifest_of c) report) ∙ accepted;
      }

  complete_step :
      (o : Outcome ManifestSignatureReport) (report : ManifestSignatureReport)
      → o ≡ value report
      → has_valid_signature report ≡ true
      → trusted_valid (after_signatures ctx artifact c report) ≡ true
      → trusted_valid (after_locator ctx artifact c o) ≡ true
  unfolding after_locator
  complete_step o report e signed h = rw e (rw signed h)

  complete : Accepts → trusted_valid (verify_candidate ctx artifact l c) ≡ true
  unfolding verify_candidate
  complete a = rw (locator_lem.1 (a.locator, a.marked)) (
      complete_step _ a.report a.checked a.signed (
        (after_signatures_lem a.report).1 (
          a.signed,
          unfold check_essence in
              (essence_lem _ _ (Resolution.manifest_of c).core.artifact.essence_alg_id).1 a.essence,
          evaluate-accepted ctx.trust_policy (Resolution.manifest_of c) a.report ∙ a.trusted,
        )))

  -- A candidate's report is trusted exactly when its manifest derives the locator, the resolver marked it where
  -- that is required, its signatures could be checked and one of them is valid, the essence of
  -- the artifact is the signed one, and a valid signature has a role and a key that the policy accepts.
  pub verify_candidate-Accepts :
      (trusted_valid (verify_candidate ctx artifact l c) ≡ true) ↔ Accepts
  verify_candidate-Accepts = (sound, complete)

  -- The envelope in the report is the candidate's, on every branch.
  pub verify_candidate-manifest :
      Results.manifest_of (verify_candidate ctx artifact l c) ≡ Resolution.manifest_of c
  unfolding verify_candidate after_locator after_signatures
  verify_candidate-manifest = ground arith
