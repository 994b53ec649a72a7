-- ===== src/Verification/Signatures.antt =====
-- `verify_signature_record` of oprow/manifest/signatures.py, `load_public_key` of keys.py and the
-- reports of oprow/manifest/verification.py. The cryptography package is a parameter, and so are the
-- canonical bytes of the protected header that is rebuilt from a record.
use watermarks_po_c.Common.{
  ℕ, Bool, true, false, not, Option, none, some, List, [], ◌∷◌, map, String, str_eq, ascii, any,
  keep, if◌then◌else◌, Result, ok, err, Error, validation_error, identifier_error,
  canonicalization_error, unsupported_algorithm_error, value_error, recursion_error, overflow_error,
}
use watermarks_po_c.Core.Hashes.{frame_parts}
use watermarks_po_c.Core.Manifest.{ManifestCore, SignatureRecord, SignedManifest}

-- What a call returns, or the name of the class of the exception that it raises.
pub data Outcome {ℓ} (A : Type ℓ) : Type ℓ where
  value : A → Outcome A
  raised : String → Outcome A

infixl 5 ◌>>=◌
abbrev pub ◌>>=◌ {ℓ κ} : {A : Type ℓ} {B : Type κ} → Outcome A → (A → Outcome B) → Outcome B
value a >>= f = f a
raised e >>= f = raised e

abbrev error_class : Error → String
error_class (validation_error m) = "ValidationError"
error_class (identifier_error m) = "IdentifierError"
error_class (canonicalization_error m) = "CanonicalizationError"
error_class (unsupported_algorithm_error m) = "UnsupportedAlgorithmError"
error_class (value_error m) = "ValueError"
error_class (recursion_error m) = "RecursionError"
error_class (overflow_error m) = "OverflowError"

abbrev attempt {ℓ} : {A : Type ℓ} → Result A → Outcome A
attempt (ok a) = value a
attempt (err e) = raised (error_class e)

pub record PublicKeyRecord : Type 0 where
  pub alg : String
  pub encoding : String
  pub public_key_bytes : List ℕ

-- A key object of the cryptography package: an Ed25519 key, or one of another class.
pub data LoadedKey : Type 0 where
  ed25519_key other_key : List ℕ → LoadedKey

pub data Verdict : Type 0 where
  accepted invalid_signature : Verdict

pub record Cryptography : Type 0 where
  pub ed25519_from_public_bytes : List ℕ → Outcome LoadedKey
  pub load_der_public_key : List ℕ → Outcome LoadedKey
  pub verify_ed25519 : List ℕ → List ℕ → List ℕ → Outcome Verdict
  pub verify_ecdsa_sha256 : LoadedKey → List ℕ → List ℕ → Outcome Verdict
  pub protected_header_bytes : SignatureRecord → Outcome (List ℕ)

pub record SignatureCheck : Type 0 where
  pub record' : SignatureRecord
  pub valid : Bool
  pub reason : String

pub record ManifestSignatureReport : Type 0 where
  pub checks : List SignatureCheck

abbrev pub valid_checks : ManifestSignatureReport → List SignatureCheck
valid_checks report = keep (λ c. c.valid) report.checks

abbrev pub has_valid_signature : ManifestSignatureReport → Bool
has_valid_signature report = any (λ c. c.valid) report.checks

abbrev pub records_of : List SignatureCheck → List SignatureRecord
records_of = map (λ c. c.record')

module _ (crypto : Cryptography) where
  open crypto use {
    ed25519_from_public_bytes, load_der_public_key, verify_ed25519, verify_ecdsa_sha256,
    protected_header_bytes,
  }

  unfoldable pub load_public_key : PublicKeyRecord → Outcome LoadedKey
  load_public_key key =
      if str_eq key.alg "Ed25519"
      then (if not (str_eq key.encoding "raw")
          then raised "UnsupportedAlgorithmError"
          else ed25519_from_public_bytes key.public_key_bytes)
      else if str_eq key.alg "ES256"
      then (if not (str_eq key.encoding "spki-der")
          then raised "UnsupportedAlgorithmError"
          else load_der_public_key key.public_key_bytes)
      else raised "UnsupportedAlgorithmError"

  unfoldable pub signature_preimage : ManifestCore → List ℕ → Result (List ℕ)
  signature_preimage core header =
      frame_parts (ascii "oprow-signature-preimage-v1") (header ∷ core.canonical_bytes ∷ [])

  abbrev verdict_reason : Outcome Verdict → Bool × String
  verdict_reason (value accepted) = (true, "valid")
  verdict_reason (value invalid_signature) = (false, "invalid_signature")
  verdict_reason (raised e) = (false, "verification_error")

  -- The branch on the algorithm, once the key object and the message are there.
  unfoldable pub check_with_key : String → LoadedKey → List ℕ → List ℕ → Bool × String
  check_with_key alg (ed25519_key pk) signature message =
      if str_eq alg "Ed25519"
      then verdict_reason (verify_ed25519 pk signature message)
      else if str_eq alg "ES256"
      then verdict_reason (verify_ecdsa_sha256 (ed25519_key pk) signature message)
      else (false, "unsupported_algorithm")
  check_with_key alg (other_key pk) signature message =
      if str_eq alg "Ed25519"
      then (false, "wrong_public_key_type")
      else if str_eq alg "ES256"
      then verdict_reason (verify_ecdsa_sha256 (other_key pk) signature message)
      else (false, "unsupported_algorithm")

  abbrev after_loading : String → List ℕ → Outcome (LoadedKey × List ℕ) → Bool × String
  after_loading alg signature (value (key, message)) = check_with_key alg key signature message
  after_loading alg signature (raised e) = (false, "verification_error")

  -- The `try` block: the message, the key object, the verification.
  unfoldable pub try_signature : ManifestCore → SignatureRecord → PublicKeyRecord → Bool × String
  unfolding check_with_key
  try_signature core record' key = after_loading record'.alg record'.signature (do
    header ← protected_header_bytes record'
    message ← attempt (signature_preimage core header)
    pk ← load_public_key key
    value (pk, message))

  unfoldable pub verify_signature_record :
      ManifestCore → SignatureRecord → Option PublicKeyRecord → SignatureCheck
  verify_signature_record core record' none = record {
    record' = record';
    valid = false;
    reason = "missing_public_key";
  }
  verify_signature_record core record' (some key) =
      if not (str_eq record'.alg key.alg)
      then record { record' = record'; valid = false; reason = "algorithm_mismatch" }
      else (let (valid, reason) = try_signature core record' key in
          record { record' = record'; valid = valid; reason = reason })

  -- The loop over the signatures; the key resolver may raise.
  unfoldable pub verify_signatures :
      (String → Outcome (Option PublicKeyRecord))
      → ManifestCore
      → List SignatureRecord
      → Outcome (List SignatureCheck)
  verify_signatures resolve core [] = value []
  verify_signatures resolve core (r ∷ rest) = do
    key ← resolve r.kid
    checks ← verify_signatures resolve core rest
    value (verify_signature_record core r key ∷ checks)

  unfoldable pub verify_manifest_signatures :
      (String → Outcome (Option PublicKeyRecord)) → SignedManifest → Outcome ManifestSignatureReport
  unfolding verify_signatures
  verify_manifest_signatures resolve m = do
    checks ← verify_signatures resolve m.core m.signatures
    value (record { checks = checks })
