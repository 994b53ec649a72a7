-- ===== src/Short64.antt =====
-- oprow/short64/models.py and index.py: the in-memory SHORT64 index. Dates and metadata are left out; a
-- storage hint is its URI. The file store and the snapshots are not modelled.
pub mod Lookup
use watermarks_po_c.Common.{
  ℕ, Bool, true, false, not, ◌&&◌, Option, none, some, List, [], ◌∷◌, ◌++◌, String, str_eq,
  bytes_eq, ltb, ◌==◌, if◌then◌else◌, length, take, keep, any, is_empty, contains, Result, ok, err,
  ◌>>=◌, ◌>>◌, raise_if, validation_error, dict_get_or, dict_set,
}
use watermarks_po_c.Core.Hashes.{HashFunction}
use watermarks_po_c.Core.Identifiers.{FixedBytesIdentifier, identifier_eq}
use watermarks_po_c.Core.Manifest.{SignedManifest, key_of, short_id_of}

pub record Short64IndexReference : Type 0 where
  pub short_id : FixedBytesIdentifier
  pub manifest_key : Option FixedBytesIdentifier
  pub document_bytes : Option (List ℕ)
  pub storage_hints : List String
  pub namespace_id : Option (List ℕ)
  pub derivation_profile : String

abbrev pub supported_short64_derivations : List String
supported_short64_derivations = "hash_truncated" ∷ "namespaced_registry" ∷ []

abbrev pub retrievable : Option (List ℕ) → Option FixedBytesIdentifier → List String → Bool
retrievable none none hints = not (is_empty hints)
retrievable _ _ hints = true

-- The constructor with its `__post_init__`.
unfoldable pub short64_index_reference : Short64IndexReference → Result Short64IndexReference
short64_index_reference r = do
  raise_if (not (contains supported_short64_derivations r.derivation_profile))
      (validation_error "unsupported SHORT64 derivation profile")
  raise_if (not (retrievable r.document_bytes r.manifest_key r.storage_hints)) (
      validation_error
        "Short64IndexReference requires document_bytes, manifest_key, or storage_hints")
  ok r

unfoldable pub reference_from_signed_manifest :
    HashFunction → SignedManifest → Bool → List String → Result Short64IndexReference
reference_from_signed_manifest sha m include_document_bytes storage_hints =
    short64_index_reference (record {
      short_id = short_id_of sha m;
      manifest_key = some (key_of sha m);
      document_bytes = if include_document_bytes then some m.canonical_bytes else none;
      storage_hints = storage_hints;
      namespace_id = none;
      derivation_profile = "hash_truncated";
    })

pub record Short64LookupResult : Type 0 where
  pub short_id : FixedBytesIdentifier
  pub references : List Short64IndexReference
  pub complete : Bool
  pub total_available : ℕ

-- `x.value if x else b""` and `x or b""`.
abbrev pub key_bytes : Option FixedBytesIdentifier → List ℕ
key_bytes none = []
key_bytes (some key) = key.value

abbrev pub bytes_or_empty : Option (List ℕ) → List ℕ
bytes_or_empty none = []
bytes_or_empty (some raw) = raw

-- `_dedupe_key(a) == _dedupe_key(b)`
unfoldable pub same_dedupe_key : Short64IndexReference → Short64IndexReference → Bool
same_dedupe_key a b =
    bytes_eq (key_bytes a.manifest_key) (key_bytes b.manifest_key)
    && (bytes_eq (bytes_or_empty a.document_bytes) (bytes_or_empty b.document_bytes)
        && str_eq a.derivation_profile b.derivation_profile)

-- `_records`: the buckets.
abbrev pub Records : Type 0
Records = List (FixedBytesIdentifier × List Short64IndexReference)

abbrev pub bucket_of : Records → FixedBytesIdentifier → List Short64IndexReference
bucket_of records short_id = dict_get_or identifier_eq records short_id []

-- A bucket that `setdefault` makes is empty, and then gets the reference.
unfoldable pub add_reference : Records → Short64IndexReference → Records
add_reference records r =
    if any (λ existing. same_dedupe_key existing r) (bucket_of records r.short_id)
    then records
    else dict_set identifier_eq records r.short_id (bucket_of records r.short_id ++ r ∷ [])

unfoldable pub add_manifest :
    HashFunction
    → Records
    → SignedManifest
    → Bool
    → List String
    → Result (Short64IndexReference × Records)
unfolding add_reference
add_manifest sha records m include_document_bytes storage_hints = do
  r ← reference_from_signed_manifest sha m include_document_bytes storage_hints
  ok (r, add_reference records r)

abbrev pub namespace_matches : Option (List ℕ) → Short64IndexReference → Bool
namespace_matches none r = true
namespace_matches (some ns) r = same_namespace r.namespace_id ns
  where
    same_namespace : Option (List ℕ) → List ℕ → Bool
    same_namespace none ns = false
    same_namespace (some other) ns = bytes_eq other ns

abbrev pub profile_matches : Option String → Short64IndexReference → Bool
profile_matches none r = true
profile_matches (some profile) r = str_eq r.derivation_profile profile

-- The references of a bucket that pass both filters.
unfoldable pub matching :
    Records → FixedBytesIdentifier → Option (List ℕ) → Option String → List Short64IndexReference
matching records short_id namespace_id derivation_profile =
    keep (profile_matches derivation_profile)
      (keep (namespace_matches namespace_id) (bucket_of records short_id))

-- The cut at `max_results`; a negative limit takes the branch of 0.
unfoldable pub capped :
    FixedBytesIdentifier → Option ℕ → List Short64IndexReference → Result Short64LookupResult
capped short_id none refs = ok (record {
  short_id = short_id;
  references = refs;
  complete = true;
  total_available = length refs;
})
capped short_id (some max_results) refs = do
  raise_if (max_results == 0) (validation_error "max_results must be positive")
  ok (record {
    short_id = short_id;
    references = if ltb max_results (length refs) then take max_results refs else refs;
    complete = not (ltb max_results (length refs));
    total_available = length refs;
  })

unfoldable pub lookup :
    Records
    → FixedBytesIdentifier
    → Option (List ℕ)
    → Option String
    → Option ℕ
    → Result Short64LookupResult
lookup records short_id namespace_id derivation_profile max_results =
    capped short_id max_results (matching records short_id namespace_id derivation_profile)
