-- ===== src/Resolution/Cas.antt =====
-- oprow/resolution/cas.py: the in-memory store and the resolver over several stores. The document of a
-- manifest is its canonical bytes (`signed_manifest_to_bytes` of oprow/manifest/codec.py); `decode` stands for
-- `decode_manifest_document`. The file store has the same keys, in files. The source of a
-- candidate keeps the store's name, without the prefix `cas:`.
pub mod Sound
use watermarks_po_c.Common.{
  ℕ, Bool, true, false, not, Option, none, some, List, [], ◌∷◌, ◌++◌, String, ltb, leb,
  if◌then◌else◌, length, Result, ok, err, ◌>>=◌, ◌>>◌, raise_if, validation_error, dict_get,
  dict_set,
}
use watermarks_po_c.Core.Hashes.{HashFunction}
use watermarks_po_c.Core.Identifiers.{
  FixedBytesIdentifier, IdentifierClass, class_eq, identifier_eq, is_full,
}
use watermarks_po_c.Core.Manifest.{ManifestEnvelope, key_from_manifest_bytes, addressed_key}
use watermarks_po_c.Resolution.{
  ResolutionRequest, ResolutionResult, ResolutionCandidate, ResolverDiagnosticEvent,
  not_found_result, unsupported_result, candidate_from_document_bytes, result_from_candidates,
}

-- The `CASStore` protocol, as the resolver uses it: `get_bytes` may raise.
pub record CasStore : Type 0 where
  pub name : String
  pub get_bytes : FixedBytesIdentifier → Result (Option (List ℕ))

-- The `_items` of a `MemoryCAS`.
abbrev pub Items : Type 0
Items = List (FixedBytesIdentifier × List ℕ)

unfoldable pub get_bytes : Items → FixedBytesIdentifier → Option (List ℕ)
get_bytes items key = dict_get identifier_eq items key

abbrev pub memory_store : String → Items → CasStore
memory_store name items = record { name = name; get_bytes = λ key. ok (get_bytes items key) }

abbrev event : String → String → ResolverDiagnosticEvent
event name what = record { resolver = name; event = what; detail = "" }

module _ (sha : HashFunction) where
  unfoldable pub put_bytes : Items → List ℕ → Result (FixedBytesIdentifier × Items)
  put_bytes items data' = do
    key ← key_from_manifest_bytes sha data'
    ok (key, dict_set identifier_eq items key data')

  -- `canonical_bytes` is what `manifest.canonical_bytes()` returns or raises, for the document and again for
  -- `manifest.manifest_key()`.
  unfoldable pub put_manifest : Items → Result (List ℕ) → Result (FixedBytesIdentifier × Items)
  unfolding put_bytes addressed_key
  put_manifest items canonical_bytes = do
    data' ← canonical_bytes
    (key, items') ← put_bytes items data'
    addressed ← addressed_key sha canonical_bytes
    raise_if (not (identifier_eq key addressed)) (validation_error "CAS key mismatch for manifest")
    ok (key, items')

  module _ (decode : List ℕ → Result ManifestEnvelope) (name : String)
      (request : ResolutionRequest) where
    -- What one store adds: a candidate, or an event that tells why there is none.
    abbrev pub from_document :
        Result ResolutionCandidate → List ResolutionCandidate × List ResolverDiagnosticEvent
    from_document (ok c) = (c ∷ [], [])
    from_document (err e) = ([], event name "decode_failed" ∷ [])

    unfoldable pub from_answer :
        String → Result (Option (List ℕ)) → List ResolutionCandidate × List ResolverDiagnosticEvent
    from_answer store (err e) = ([], event name "store_error" ∷ [])
    from_answer store (ok none) = ([], event name "miss" ∷ [])
    from_answer store (ok (some raw)) =
        if ltb request.max_bytes (length raw)
        then ([], event name "too_large" ∷ [])
        else from_document (candidate_from_document_bytes sha decode raw request.locator store)

    -- The loop over the stores, with the candidates and the events so far.
    unfoldable pub resolve_stores :
        List CasStore
        → List ResolutionCandidate
        → List ResolverDiagnosticEvent
        → List ResolutionCandidate × List ResolverDiagnosticEvent
    resolve_stores [] candidates diagnostics = (candidates, diagnostics)
    resolve_stores (s ∷ stores) candidates diagnostics =
        let added = from_answer s.name (s.get_bytes request.locator.value) in
        let later = resolve_stores stores (candidates ++ added.0) (diagnostics ++ added.1) in
        if leb request.max_candidates (length candidates)
        then (candidates, diagnostics ++ event name "candidate_cap" ∷ [])
        else later

    abbrev pub result_of :
        List ResolutionCandidate × List ResolverDiagnosticEvent → ResolutionResult
    result_of ([], diagnostics) =
        not_found_result name "CAS stores did not return a matching manifest"
    result_of (c ∷ candidates, diagnostics) =
        result_from_candidates sha name (c ∷ candidates) diagnostics

    unfoldable pub resolve_cas : List CasStore → ResolutionResult
    unfolding resolve_stores from_answer
    resolve_cas stores =
        if not (is_full request.locator.mode)
        then unsupported_result name "CASResolver handles FULL160-like locators"
        else if not (class_eq request.locator.value.kind IdentifierClass.manifest_key)
        then unsupported_result name "locator value is not a ManifestKey"
        else result_of (resolve_stores stores [] [])
