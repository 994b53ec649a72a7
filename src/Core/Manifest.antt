-- ===== src/Core/Manifest.antt =====
-- oprow/core/models.py: manifests and envelopes, in the fields that resolution and verification
-- read. The canonical CBOR bytes of a core and of a signed manifest are fields of their own.
pub mod Locator
use watermarks_po_c.Common.{
  ℕ, Bool, false, not, ◌||◌, Option, none, List, String, ◌≡◌, arith, if◌then◌else◌, take,
  length-take, Result, ok, err, ◌>>=◌, ◌>>◌, raise_if, validation_error,
}
use text.Mathlib.Text.{◌==◌ as str_eq}
use watermarks_po_c.Core.Hashes.{HashFunction, h160, trunc64}
use watermarks_po_c.Core.Identifiers.{
  PointerMode, is_full, FixedBytesIdentifier, manifest_key, short_id, fixed_bytes_identifier,
  identifier_eq, ManifestLocator, manifest_locator,
}

pub record Claim : Type 0 where
  pub type : String
  pub body : List ℕ

pub record ArtifactBinding : Type 0 where
  pub essence_alg_id : String
  pub essence_hash : FixedBytesIdentifier

pub record SignatureRecord : Type 0 where
  pub kid : String
  pub alg : String
  pub signature : List ℕ
  pub role : String

pub record ManifestCore : Type 0 where
  pub artifact : ArtifactBinding
  pub claims : List Claim
  pub canonical_bytes : List ℕ

pub record SignedManifest : Type 0 where
  pub core : ManifestCore
  pub signatures : List SignatureRecord
  pub canonical_bytes : List ℕ

pub record ManifestEnvelope : Type 0 where
  pub manifest : SignedManifest
  pub locator : ManifestLocator

module _ (sha : HashFunction) where
  open sha use {digest, digest_size}

  -- `ManifestKey.from_manifest_bytes` and `ShortId.from_manifest_bytes_hash_truncated`.
  unfoldable pub key_from_manifest_bytes : List ℕ → Result FixedBytesIdentifier
  key_from_manifest_bytes raw = do key ← h160 sha raw; fixed_bytes_identifier manifest_key key

  unfoldable pub short_id_from_manifest_bytes : List ℕ → Result FixedBytesIdentifier
  short_id_from_manifest_bytes raw = do sid ← trunc64 sha raw; fixed_bytes_identifier short_id sid

  -- What they return: their checks of sizes never fail.
  abbrev pub h160_key : List ℕ → FixedBytesIdentifier
  h160_key raw = record { kind = manifest_key; value = take 20 (digest raw) }

  abbrev pub truncated_id : List ℕ → FixedBytesIdentifier
  truncated_id raw = record { kind = short_id; value = take 8 (digest raw) }

  pub key_from_manifest_bytes_lem : (raw : List ℕ) → key_from_manifest_bytes raw ≡ ok (h160_key raw)
  unfolding key_from_manifest_bytes h160 fixed_bytes_identifier
  key_from_manifest_bytes_lem raw = ground (arith, digest_size raw, length-take 20 (digest raw))

  pub short_id_from_manifest_bytes_lem :
      (raw : List ℕ) → short_id_from_manifest_bytes raw ≡ ok (truncated_id raw)
  unfolding short_id_from_manifest_bytes trunc64 fixed_bytes_identifier
  short_id_from_manifest_bytes_lem raw = ground (arith, digest_size raw, length-take 8 (digest raw))

  -- `SignedManifest.manifest_key()` and `short_id_hash_truncated()`, on what `canonical_bytes()` returns or raises.
  unfoldable pub addressed_key : Result (List ℕ) → Result FixedBytesIdentifier
  addressed_key canonical_bytes = do raw ← canonical_bytes; key_from_manifest_bytes raw

  unfoldable pub addressed_short_id : Result (List ℕ) → Result FixedBytesIdentifier
  addressed_short_id canonical_bytes = do raw ← canonical_bytes; short_id_from_manifest_bytes raw

  -- What they return for a manifest whose canonical bytes were returned. A manifest that cannot be
  -- canonicalized is no value of `SignedManifest` here.
  abbrev pub key_of : SignedManifest → FixedBytesIdentifier
  key_of m = h160_key m.canonical_bytes

  abbrev pub short_id_of : SignedManifest → FixedBytesIdentifier
  short_id_of m = truncated_id m.canonical_bytes

  pub addressed_key_lem :
      (m : SignedManifest) → addressed_key (ok m.canonical_bytes) ≡ ok (key_of m)
  unfolding addressed_key
  addressed_key_lem m = key_from_manifest_bytes_lem m.canonical_bytes

  pub addressed_short_id_lem :
      (m : SignedManifest) → addressed_short_id (ok m.canonical_bytes) ≡ ok (short_id_of m)
  unfolding addressed_short_id
  addressed_short_id_lem m = short_id_from_manifest_bytes_lem m.canonical_bytes

  unfoldable pub locator_from_signed_manifest :
      SignedManifest
      → PointerMode
      → Option (List ℕ)
      → Option String
      → String
      → Result ManifestLocator
  locator_from_signed_manifest m mode namespace_id hdc_profile_id derivation_profile =
      if is_full mode
      then manifest_locator (record {
        mode = mode;
        value = key_of m;
        namespace_id = namespace_id;
        hdc_profile_id = none;
        derivation_profile = "h160";
      })
      else if not (str_eq derivation_profile "hash_truncated")
      then err (validation_error "cannot derive registry-assigned short ID from manifest bytes")
      else manifest_locator (record {
        mode = mode;
        value = short_id_of m;
        namespace_id = namespace_id;
        hdc_profile_id = hdc_profile_id;
        derivation_profile = derivation_profile;
      })

  -- `verify_locator_self_consistency` of oprow/manifest/verification.py.
  unfoldable pub verify_locator_self_consistency : SignedManifest → ManifestLocator → Bool
  verify_locator_self_consistency m l =
      if is_full l.mode
      then identifier_eq l.value (key_of m)
      else if not (str_eq l.derivation_profile "hash_truncated")
      then false
      else identifier_eq l.value (short_id_of m)

  unfoldable pub require_locator_self_consistency :
      SignedManifest → ManifestLocator → Result (Unit {0})
  require_locator_self_consistency m l =
      raise_if (not (verify_locator_self_consistency m l))
        (validation_error "manifest does not match locator")

  -- `ManifestEnvelope.__post_init__`: a locator that can be derived again must be the derived one.
  unfoldable pub manifest_envelope : SignedManifest → ManifestLocator → Result ManifestEnvelope
  manifest_envelope m l =
      if is_full l.mode || str_eq l.derivation_profile "hash_truncated"
      then (do
        expected ←
            locator_from_signed_manifest m l.mode l.namespace_id l.hdc_profile_id
              l.derivation_profile
        raise_if (not (identifier_eq expected.value l.value))
            (validation_error "locator does not match SignedManifest canonical bytes")
        ok (record { manifest = m; locator = l }))
      else ok (record { manifest = m; locator = l })
