-- ===== src/Resolution/Cas/Sound.antt =====
-- What the resolver of oprow/resolution/cas.py returns, whatever its stores hold.
use watermarks_po_c.Common.{
  Error, ◌⊎◌, ap, sym, ◌∙◌, dict_get, ℕ, ◌≤◌, ◌<◌, ◌≡◌, refl, subst, inl, inr, Bool, true, false,
  Option, none, some, List, [], ◌∷◌, ◌++◌, String, ltb, leb, if◌then◌else◌, length, length-append,
  keep, All, All-append, All-weaken, keep-All, Bool-cases, Result, ok, err, >>=-eq-ok,
  Result-ok-inj, arith, dict_set, dict_get-dict_set, dict_get-dict_set_other,
}
use watermarks_po_c.Core.Hashes.{HashFunction}
use watermarks_po_c.Core.Identifiers.{
  FixedBytesIdentifier, identifier_eq, identifier_eq_iff, ManifestLocator,
}
use watermarks_po_c.Core.Manifest.{
  h160_key, ManifestEnvelope, key_from_manifest_bytes_lem, verify_locator_self_consistency,
}
use watermarks_po_c.Resolution.{
  ResolutionRequest, ResolutionCandidate, ResolverDiagnosticEvent, manifest_of, is_locator_match,
  deduplicate_candidates, deduplicate_loop, filter_matching_candidates, not_found_result,
  unsupported_result, candidate_from_document_bytes, result_from_candidates, seen_before,
  candidate_key, CandidateValidationStatus,
}
use watermarks_po_c.Resolution.Cas.{
  CasStore, Items, get_bytes, put_bytes, put_manifest, from_document, from_answer, resolve_stores,
  result_of, resolve_cas,
}

-- The manifest of a candidate derives the locator.
abbrev pub Derives : HashFunction → ManifestLocator → ResolutionCandidate → Type 0
Derives sha l c = verify_locator_self_consistency sha (manifest_of c) l ≡ true

module _ (sha : HashFunction) where
  -- A candidate that is marked as a match derives the locator.
  Marked : ManifestLocator → ResolutionCandidate → Type 0
  Marked l c = is_locator_match c.validation_status ≡ true → Derives sha l c

  mark_lem :
      (unsupported_mode v : Bool)
      → is_locator_match (
          if unsupported_mode
          then CandidateValidationStatus.unsupported_derivation
          else if v
          then CandidateValidationStatus.locator_match
          else CandidateValidationStatus.locator_mismatch)
        ≡ true
      → v ≡ true
  mark_lem unsupported_mode v h = ground arith

  candidate-Marked :
      (decode : List ℕ → Result ManifestEnvelope) (raw : List ℕ) (l : ManifestLocator)
      (source : String) (c : ResolutionCandidate)
      → candidate_from_document_bytes sha decode raw l source ≡ ok c
      → Marked l c
  unfolding candidate_from_document_bytes Marked
  candidate-Marked decode raw l source c e =
      let (envelope, d, r) = >>=-eq-ok (decode raw) _ e in
      subst (λ c. Marked l c) (Result-ok-inj r) (λ h. mark_lem _ _ h)

  deduplicate-All :
      (P : ResolutionCandidate → Type 0) (seen : List (List ℕ)) (cs : List ResolutionCandidate)
      → All P cs
      → All P (deduplicate_loop sha seen cs)
  unfolding deduplicate_loop
  deduplicate-All P seen [] h = tt
  deduplicate-All P seen (c ∷ cs) h = elim (Bool-cases (seen_before sha seen c)) [
    | inl e ↦ rw e (deduplicate-All P seen cs h.1)
    | inr e ↦ rw e (h.0, deduplicate-All P (candidate_key sha c ∷ seen) cs h.1)
  ]

  length-deduplicate-le :
      (seen : List (List ℕ)) (cs : List ResolutionCandidate)
      → length (deduplicate_loop sha seen cs) ≤ length cs
  unfolding deduplicate_loop
  length-deduplicate-le seen [] = omega arith
  length-deduplicate-le seen (c ∷ cs) = elim (Bool-cases (seen_before sha seen c)) [
    | inl e ↦ rw e (omega (arith, length-deduplicate-le seen cs))
    | inr e ↦ rw e (omega (arith, length-deduplicate-le (candidate_key sha c ∷ seen) cs))
  ]

  length-keep-le :
      (p : ResolutionCandidate → Bool) (cs : List ResolutionCandidate)
      → length (keep p cs) ≤ length cs
  length-keep-le p [] = omega arith
  length-keep-le p (c ∷ cs) = ground (arith, length-keep-le p cs)

  -- What the filter leaves of marked candidates derives the locator.
  matching-Derives :
      (l : ManifestLocator) (cs : List ResolutionCandidate)
      → All (Marked l) cs
      → All (Derives sha l) (filter_matching_candidates sha (deduplicate_candidates sha cs))
  unfolding filter_matching_candidates deduplicate_candidates Marked
  matching-Derives l cs h =
      All-weaken (λ c p. p.0 p.1) _
        (keep-All (Marked l) (λ c. is_locator_match c.validation_status) _
          (deduplicate-All (Marked l) [] cs h))

  length-matching-le :
      (cs : List ResolutionCandidate)
      → length (filter_matching_candidates sha (deduplicate_candidates sha cs)) ≤ length cs
  unfolding filter_matching_candidates deduplicate_candidates
  length-matching-le cs = omega (
    arith,
    length-keep-le (λ c. is_locator_match c.validation_status) (deduplicate_loop sha [] cs),
    length-deduplicate-le [] cs,
  )

  module _ (decode : List ℕ → Result ManifestEnvelope) (name : String)
      (request : ResolutionRequest) where
    document_lem :
        (raw : List ℕ) (store : String) (r : Result ResolutionCandidate)
        → candidate_from_document_bytes sha decode raw request.locator store ≡ r
        → All (Marked request.locator) (from_document sha decode name request r).0
          × (length (from_document sha decode name request r).0 ≤ 1)
    document_lem raw store (ok c) e =
        ((candidate-Marked decode raw request.locator store c e, tt), omega arith)
    document_lem raw store (err x) e = (tt, omega arith)

    answer-Marked :
        (store : String) (answer : Result (Option (List ℕ)))
        → All (Marked request.locator) (from_answer sha decode name request store answer).0
          × (length (from_answer sha decode name request store answer).0 ≤ 1)
    unfolding from_answer
    answer-Marked store (err e) = (tt, omega arith)
    answer-Marked store (ok none) = (tt, omega arith)
    answer-Marked store (ok (some raw)) = elim (Bool-cases (ltb request.max_bytes (length raw))) [
      | inl e ↦ rw e (tt, omega arith)
      | inr e ↦ rw e (
          document_lem raw store
            (candidate_from_document_bytes sha decode raw request.locator store) refl)
    ]

    stores-Marked :
        (stores : List CasStore) (cs : List ResolutionCandidate) (ds : List ResolverDiagnosticEvent)
        → All (Marked request.locator) cs
        → length cs ≤ request.max_candidates
        → All (Marked request.locator) (resolve_stores sha decode name request stores cs ds).0
          × (length (resolve_stores sha decode name request stores cs ds).0
              ≤ request.max_candidates)
    unfolding resolve_stores
    stores-Marked [] cs ds h few = (h, few)
    stores-Marked (s ∷ stores) cs ds h few =
        elim (Bool-cases (leb request.max_candidates (length cs))) [
          | inl e ↦ rw e (h, few)
          | inr e ↦
              let added =
                from_answer sha decode name request s.name (s.get_bytes request.locator.value) in
              let (marked, one) = answer-Marked s.name (s.get_bytes request.locator.value) in
              rw e (
                stores-Marked stores (cs ++ added.0) (ds ++ added.1)
                  (All-append (Marked request.locator) cs added.0 h marked)
                  (omega (arith, length-append cs added.0, room (length cs) e)))
        ]
      where
        room : (n : ℕ) → leb request.max_candidates n ≡ false → n < request.max_candidates
        room n e = ground arith

    result-Derives :
        (found : List ResolutionCandidate × List ResolverDiagnosticEvent)
        → All (Marked request.locator) found.0
        → length found.0 ≤ request.max_candidates
        → All (Derives sha request.locator) (result_of sha decode name request found).candidates
          × (length (result_of sha decode name request found).candidates ≤ request.max_candidates)
    unfolding not_found_result result_from_candidates
    result-Derives ([], ds) h few = (tt, omega arith)
    result-Derives (c ∷ cs, ds) h few = (
      matching-Derives request.locator (c ∷ cs) h,
      omega (arith, length-matching-le (c ∷ cs), few),
    )

    -- Whatever the stores answer or raise, and whatever `decode` makes of their bytes: the manifest of every candidate
    -- that the resolver returns derives the requested locator, and there are at most `max_candidates`.
    pub resolve_cas-Derives :
        (stores : List CasStore)
        → All (Derives sha request.locator) (resolve_cas sha decode name request stores).candidates
          × (length (resolve_cas sha decode name request stores).candidates
              ≤ request.max_candidates)
    unfolding resolve_cas unsupported_result
    resolve_cas-Derives stores =
        let (marked, few) = stores-Marked stores [] [] tt (omega arith) in
        let found =
          result-Derives (resolve_stores sha decode name request stores [] []) marked few in
        ground arith

  -- Storing a manifest in the in-memory store raises exactly what its canonical bytes raise. Where they are
  -- returned, the store returns their key; then a lookup of that key finds them, and a lookup of any
  -- other key finds what it found before.
  pub put_manifest-get_bytes :
      (items : Items) (canonical_bytes : Result (List ℕ)) (sought : FixedBytesIdentifier)
      → ((e : Error) × (canonical_bytes ≡ err e) × (put_manifest sha items canonical_bytes ≡ err e))
        ⊎ ((data' : List ℕ) × (stored : Items) × (canonical_bytes ≡ ok data')
            × (put_manifest sha items canonical_bytes ≡ ok (h160_key sha data', stored))
            × (get_bytes stored sought ≡ (
                if identifier_eq (h160_key sha data') sought
                then some data'
                else get_bytes items sought)))
  unfolding put_manifest put_bytes get_bytes
  put_manifest-get_bytes items (err e) sought = inl (e, refl, refl)
  put_manifest-get_bytes items (ok data') sought = inr (
    data',
    dict_set identifier_eq items (h160_key sha data') data',
    refl,
    rw (key_from_manifest_bytes_lem sha data')
        (rw ((identifier_eq_iff (h160_key sha data') (h160_key sha data')).1 refl) refl),
    elim (Bool-cases (identifier_eq (h160_key sha data') sought)) [
      | inl e ↦ rw e (
          ap (dict_get identifier_eq (dict_set identifier_eq items (h160_key sha data') data'))
            (sym ((identifier_eq_iff (h160_key sha data') sought).0 e))
          ∙ dict_get-dict_set identifier_eq identifier_eq_iff items (h160_key sha data') data')
      | inr e ↦ rw e (
          dict_get-dict_set_other identifier_eq identifier_eq_iff items (h160_key sha data') sought
            data' e)
    ],
  )
