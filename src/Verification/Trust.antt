-- ===== src/Verification/Trust.antt =====
-- oprow/verification/trust.py and the policy of oprow/core/policy.py. A set of texts is a list.
-- The two sorted lists of a decision's evidence are left out; its reason is the list of reasons that
-- the code joins with ";".
use watermarks_po_c.Common.{
  ℕ, Bool, true, false, not, ◌&&◌, ◌||◌, List, [], ◌∷◌, ◌++◌, String, any, keep, contains, is_empty,
  if◌then◌else◌,
}
use watermarks_po_c.Core.Manifest.{SignedManifest}
use watermarks_po_c.Verification.Results.{TrustDecision}
use watermarks_po_c.Verification.Signatures.{
  SignatureCheck, ManifestSignatureReport, valid_checks, records_of,
}

pub record ResolutionLimits : Type 0 where
  pub max_candidates : ℕ
  pub max_manifest_fetches : ℕ

pub record TrustPolicyStub : Type 0 where
  pub trusted_key_ids : List String
  pub accepted_roles : List String
  pub limits : ResolutionLimits

module _ (policy : TrustPolicyStub) where
  unfoldable pub role_accepted : SignatureCheck → Bool
  role_accepted check = contains policy.accepted_roles check.record'.role

  unfoldable pub kid_accepted : SignatureCheck → Bool
  kid_accepted check =
      contains policy.trusted_key_ids "*" || contains policy.trusted_key_ids check.record'.kid

  abbrev pub is_trusted : SignatureCheck → Bool
  is_trusted check = role_accepted check && kid_accepted check

  abbrev rejection_reasons : List SignatureCheck → List String
  rejection_reasons valid =
      (if is_empty policy.trusted_key_ids then "no_trusted_key_ids_configured" ∷ [] else [])
      ++ ((if any (λ c. not (role_accepted c)) valid then "role_not_accepted" ∷ [] else [])
          ++ (if any (λ c. not (kid_accepted c)) valid then "kid_not_trusted" ∷ [] else []))

  -- The branches of `evaluate`, on the valid checks and on those of them that are trusted.
  unfoldable pub decide : SignedManifest → List SignatureCheck → List SignatureCheck → TrustDecision
  decide m [] trusted = record {
    accepted = false;
    trusted_signatures = [];
    untrusted_valid_signatures = [];
    accepted_claims = [];
    reasons = "no_valid_signatures" ∷ [];
  }
  decide m (v ∷ valid) [] = record {
    accepted = false;
    trusted_signatures = [];
    untrusted_valid_signatures = records_of (v ∷ valid);
    accepted_claims = [];
    reasons = rejection_reasons (v ∷ valid);
  }
  decide m (v ∷ valid) (t ∷ trusted) = record {
    accepted = true;
    trusted_signatures = records_of (t ∷ trusted);
    untrusted_valid_signatures = records_of (keep (λ c. not (is_trusted c)) (v ∷ valid));
    accepted_claims = m.core.claims;
    reasons =
        (if contains policy.trusted_key_ids "*"
          then "accepted_by_wildcard_policy_for_testing"
          else "accepted_by_local_key_policy")
        ∷ [];
  }

  unfoldable pub evaluate : SignedManifest → ManifestSignatureReport → TrustDecision
  unfolding decide
  evaluate m report = decide m (valid_checks report) (keep is_trusted (valid_checks report))
