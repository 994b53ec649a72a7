-- ===== src/Examples/Indexes.antt =====
-- A content-addressed store and a SHORT64 index with a few entries.
use watermarks_po_c.Common.{
  Error, err, ◌⊎◌, Memᴰ, ◌++◌, if◌then◌else◌, ℕ, ◌+◌, ◌%◌, ◌≤◌, ◌≡◌, ◌≢◌, ◌↔◌, refl, ap, bytes_eq,
  true, false, none, some, List, [], ◌∷◌, replicate, length, take, All, Result, ok, err,
  validation_error, arith,
}
use watermarks_po_c.Core.Hashes.{HashFunction}
use watermarks_po_c.Core.Identifiers.{
  FixedBytesIdentifier, IdentifierClass, PointerMode, manifest_locator, identifier_eq,
}
use watermarks_po_c.Core.Manifest.Locator.{locator_from_signed_manifest-verify}
use watermarks_po_c.Core.Manifest.{
  locator_from_signed_manifest, verify_locator_self_consistency, SignedManifest, ManifestEnvelope,
  key_of, h160_key,
}
use watermarks_po_c.Resolution.{
  ResolutionCandidate, ResolutionRequest, CandidateValidationStatus, deduplicate_candidates,
}
use watermarks_po_c.Resolution.Distinct.{DistinctKeys, has_key, deduplicate_candidates-DistinctKeys}
use watermarks_po_c.Resolution.Cas.{Items, get_bytes, put_manifest, memory_store, resolve_cas}
use watermarks_po_c.Resolution.Cas.Sound.{Derives, resolve_cas-Derives, put_manifest-get_bytes}
use watermarks_po_c.Short64.{
  Short64IndexReference, Short64LookupResult, Records, bucket_of, add_reference, matching, lookup,
  capped,
}
use watermarks_po_c.Short64.Lookup.{SameReference, lookup-complete, bucket_of-add_reference}

abbrev total : List ℕ → ℕ
total [] = 0
total (b ∷ bs) = b + total bs

abbrev toy_sha : HashFunction
toy_sha = record { digest = λ raw. replicate 32 (total raw % 256); digest_size = λ raw. refl }

abbrev manifest : SignedManifest
manifest = record {
  core = record {
    artifact = record {
      essence_alg_id = "raw";
      essence_hash = record { kind = IdentifierClass.hash256; value = replicate 32 7 };
    };
    claims = [];
    canonical_bytes = 1 ∷ 2 ∷ [];
  };
  signatures = [];
  canonical_bytes = 1 ∷ 2 ∷ 3 ∷ [];
}

abbrev envelope : ManifestEnvelope
envelope = record {
  manifest = manifest;
  locator = record {
    mode = PointerMode.full160;
    value = key_of toy_sha manifest;
    namespace_id = none;
    hdc_profile_id = none;
    derivation_profile = "h160";
  };
}

abbrev request : ResolutionRequest
request = record {
  locator = envelope.locator;
  allow_network = false;
  max_candidates = 2;
  max_bytes = 100;
}

abbrev decode_one : List ℕ → Result ManifestEnvelope
decode_one [] = err (validation_error "empty")
decode_one (b ∷ bs) = ok envelope

abbrev items : Items
items = (key_of toy_sha manifest, 1 ∷ 2 ∷ 3 ∷ []) ∷ []

resolve_cas-Derives_example :
    All
      (Derives toy_sha request.locator)
      (resolve_cas toy_sha decode_one "cas" request
        (memory_store "a" items ∷ memory_store "b" [] ∷ [])).candidates
    × (length
          (resolve_cas toy_sha decode_one "cas" request
            (memory_store "a" items ∷ memory_store "b" [] ∷ [])).candidates
        ≤ 2)
resolve_cas-Derives_example =
    resolve_cas-Derives toy_sha decode_one "cas" request
      (memory_store "a" items ∷ memory_store "b" [] ∷ [])

abbrev canonical_answer : Result (List ℕ)
canonical_answer = ok (1 ∷ 2 ∷ 3 ∷ [])

put_manifest-get_bytes_example :
    ((e : Error) × (canonical_answer ≡ err e) × (put_manifest toy_sha [] canonical_answer ≡ err e))
    ⊎ ((data' : List ℕ) × (stored : Items) × (canonical_answer ≡ ok data')
        × (put_manifest toy_sha [] canonical_answer ≡ ok (h160_key toy_sha data', stored))
        × (get_bytes stored (key_of toy_sha manifest) ≡ (
            if identifier_eq (h160_key toy_sha data') (key_of toy_sha manifest)
            then some data'
            else get_bytes [] (key_of toy_sha manifest))))
put_manifest-get_bytes_example =
    put_manifest-get_bytes toy_sha [] canonical_answer (key_of toy_sha manifest)

abbrev candidate : ResolutionCandidate
candidate = record {
  envelope = envelope;
  source = "cas";
  validation_status = CandidateValidationStatus.locator_match;
  raw_bytes = none;
}

deduplicate_candidates-DistinctKeys_example :
    DistinctKeys toy_sha (deduplicate_candidates toy_sha (candidate ∷ candidate ∷ []))
    × All
        (λ c.
          has_key toy_sha (deduplicate_candidates toy_sha (candidate ∷ candidate ∷ [])) c ≡ true)
        (candidate ∷ candidate ∷ [])
deduplicate_candidates-DistinctKeys_example =
    deduplicate_candidates-DistinctKeys toy_sha (candidate ∷ candidate ∷ [])

abbrev short : ℕ → FixedBytesIdentifier
short b = record { kind = IdentifierClass.short_id; value = b ∷ [] }

abbrev reference : ℕ → Short64IndexReference
reference b = record {
  short_id = short 1;
  manifest_key = some (record { kind = IdentifierClass.manifest_key; value = b ∷ [] });
  document_bytes = none;
  storage_hints = [];
  namespace_id = none;
  derivation_profile = "hash_truncated";
}

abbrev records : Records
records = (short 1, reference 5 ∷ reference 6 ∷ []) ∷ []

short-other : short 1 ≢ short 2
short-other e = omega (arith, ap (λ (k : FixedBytesIdentifier). total k.value) e)

bucket_of-add_reference_example :
    (e : Short64IndexReference) × Memᴰ e (bucket_of (add_reference records (reference 7)) (short 1))
    × SameReference e (reference 7)
    × ((bucket_of (add_reference records (reference 7)) (short 1) ≡ bucket_of records (short 1))
        ⊎ (bucket_of (add_reference records (reference 7)) (short 1)
            ≡ bucket_of records (short 1) ++ reference 7 ∷ []))
    × (bucket_of (add_reference records (reference 7)) (short 2) ≡ bucket_of records (short 2))
bucket_of-add_reference_example =
    bucket_of-add_reference records (reference 7) (short 2) short-other

abbrev first_of_two : Short64LookupResult
first_of_two = record {
  short_id = short 1;
  references = reference 5 ∷ [];
  complete = false;
  total_available = 2;
}

lookup-one : lookup records (short 1) none none (some 1) ≡ ok first_of_two
unfolding lookup capped matching identifier_eq bytes_eq
lookup-one = refl

lookup-complete_example :
    ((false ≡ true) ↔ (reference 5 ∷ [] ≡ matching records (short 1) none none))
    × (1 ≤ 1)
    × (reference 5 ∷ [] ≡ take 1 (matching records (short 1) none none))
lookup-complete_example = lookup-complete records (short 1) none none 1 first_of_two lookup-one

located :
    locator_from_signed_manifest toy_sha manifest PointerMode.full160 none none "hash_truncated"
    ≡ ok envelope.locator
unfolding locator_from_signed_manifest manifest_locator
located = refl

locator_from_signed_manifest-verify_example :
    verify_locator_self_consistency toy_sha manifest envelope.locator ≡ true
locator_from_signed_manifest-verify_example =
    locator_from_signed_manifest-verify toy_sha manifest PointerMode.full160 none none
      "hash_truncated" envelope.locator located
