-- ===== src/Resolution.antt =====
-- oprow/resolution/base.py and composite.py: candidates for a locator, and resolvers in a row.
-- The `data` dicts of diagnostic events, the metadata of requests and the storage hints are left out.
pub mod Composite
pub mod Cas
pub mod Distinct
use text.Mathlib.Text.{◌==◌ as str_eq}
use watermarks_po_c.Common.{
  ℕ, Bool, true, false, not, ◌&&◌, ◌||◌, Option, none, some, List, [], ◌∷◌, ◌++◌, String, bytes_eq,
  ltb, leb, ◌==◌, if◌then◌else◌, length, any, keep, Result, ok, err, ◌>>=◌, ◌>>◌, raise_if, Error,
  validation_error,
}
use watermarks_po_c.Core.Hashes.{HashFunction}
use watermarks_po_c.Core.Identifiers.{PointerMode, is_full, ManifestLocator, FixedBytesIdentifier}
use watermarks_po_c.Core.Manifest.{
  SignedManifest, ManifestEnvelope, key_of, verify_locator_self_consistency,
}

pub data ResolutionStatus : Type 0 where
  found not_found partial error unsupported : ResolutionStatus

pub data CandidateValidationStatus : Type 0 where
  locator_match locator_mismatch decode_failed unsupported_derivation : CandidateValidationStatus

abbrev pub is_locator_match : CandidateValidationStatus → Bool
is_locator_match locator_match = true
is_locator_match _ = false

pub record ResolutionRequest : Type 0 where
  pub locator : ManifestLocator
  pub allow_network : Bool
  pub max_candidates : ℕ
  pub max_bytes : ℕ

pub record ResolutionCandidate : Type 0 where
  pub envelope : ManifestEnvelope
  pub source : String
  pub validation_status : CandidateValidationStatus
  pub raw_bytes : Option (List ℕ)

abbrev pub manifest_of : ResolutionCandidate → SignedManifest
manifest_of c = c.envelope.manifest

pub record ResolverDiagnosticEvent : Type 0 where
  pub resolver : String
  pub event : String
  pub detail : String

pub record ResolutionResult : Type 0 where
  pub status : ResolutionStatus
  pub candidates : List ResolutionCandidate
  pub diagnostics : List ResolverDiagnosticEvent
  pub errors : List String

unfoldable pub not_found_result : String → String → ResolutionResult
not_found_result resolver detail = record {
  status = not_found;
  candidates = [];
  diagnostics = record { resolver = resolver; event = "not_found"; detail = detail } ∷ [];
  errors = [];
}

unfoldable pub unsupported_result : String → String → ResolutionResult
unsupported_result resolver detail = record {
  status = unsupported;
  candidates = [];
  diagnostics = record { resolver = resolver; event = "unsupported"; detail = detail } ∷ [];
  errors = [];
}

module _ (sha : HashFunction) where
  -- `_candidate_key`: the derived FULL160 key.
  abbrev pub candidate_key : ResolutionCandidate → List ℕ
  candidate_key c = (key_of sha (manifest_of c)).value

  abbrev pub seen_before : List (List ℕ) → ResolutionCandidate → Bool
  seen_before seen c = any (bytes_eq (candidate_key c)) seen

  -- The loop over the candidates with the set of keys that were seen.
  unfoldable pub deduplicate_loop :
      List (List ℕ) → List ResolutionCandidate → List ResolutionCandidate
  deduplicate_loop seen [] = []
  deduplicate_loop seen (c ∷ rest) =
      let skipped = deduplicate_loop seen rest in
      let kept = c ∷ deduplicate_loop (candidate_key c ∷ seen) rest in
      if seen_before seen c then skipped else kept

  unfoldable pub deduplicate_candidates : List ResolutionCandidate → List ResolutionCandidate
  unfolding deduplicate_loop
  deduplicate_candidates candidates = deduplicate_loop [] candidates

  unfoldable pub filter_matching_candidates : List ResolutionCandidate → List ResolutionCandidate
  filter_matching_candidates = keep (λ c. is_locator_match c.validation_status)

  -- `decode` stands for `decode_manifest_document` of oprow/manifest/codec.py.
  unfoldable pub candidate_from_document_bytes :
      (List ℕ → Result ManifestEnvelope)
      → List ℕ
      → ManifestLocator
      → String
      → Result ResolutionCandidate
  candidate_from_document_bytes decode raw locator source = do
    envelope ← decode raw
    ok (record {
      envelope = envelope;
      source = source;
      validation_status =
          if not (is_full locator.mode) && not (str_eq locator.derivation_profile "hash_truncated")
          then unsupported_derivation
          else if verify_locator_self_consistency sha envelope.manifest locator
          then locator_match
          else locator_mismatch;
      raw_bytes = some raw;
    })

  abbrev pub status_of : List ResolutionCandidate → ResolutionStatus
  status_of [] = not_found
  status_of (c ∷ rest) = found

  unfoldable pub result_from_candidates :
      String → List ResolutionCandidate → List ResolverDiagnosticEvent → ResolutionResult
  unfolding deduplicate_candidates filter_matching_candidates
  result_from_candidates resolver candidates diagnostics =
      let matching = filter_matching_candidates (deduplicate_candidates candidates) in
      record {
        status = status_of matching;
        candidates = matching;
        diagnostics =
            diagnostics ++ record { resolver = resolver; event = "candidates"; detail = "" } ∷ [];
        errors = [];
      }
