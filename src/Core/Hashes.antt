-- ===== src/Core/Hashes.antt =====
-- oprow/core/hashes.py: length-framed preimages. SHA-256 is a parameter, a function on byte lists.
pub mod Integers
pub mod Framing
use watermarks_po_c.Common.{
  ◌≡◌, ℕ, zero, suc, ◌+◌, ◌*◌, ◌/◌, ◌%◌, ◌^◌, List, [], ◌∷◌, ◌++◌, leb, if◌then◌else◌, length, take,
  Result, ok, err, ◌>>=◌, value_error, unsupported_algorithm_error, not, ◌==◌,
}

-- `n.to_bytes(width, "big")`
unfoldable pub to_bytes_be : ℕ → ℕ → List ℕ
to_bytes_be n zero = []
to_bytes_be n (suc width) = (n / 256 ^ width % 256) ∷ to_bytes_be n width

-- `int.from_bytes(raw, "big")`, with what was read before.
abbrev pub from_bytes_be : ℕ → List ℕ → ℕ
from_bytes_be acc [] = acc
from_bytes_be acc (b ∷ bs) = from_bytes_be (acc * 256 + b) bs

unfoldable pub u64be : ℕ → Result (List ℕ)
u64be n =
    if leb (2 ^ 64) n then err (value_error "length out of u64 range") else ok (to_bytes_be n 8)

-- `out.extend(_u64be(len(part))); out.extend(part)`
unfoldable pub frame_field : List ℕ → Result (List ℕ)
frame_field part = do n ← u64be (length part); ok (n ++ part)

unfoldable pub frame_fields : List (List ℕ) → Result (List ℕ)
frame_fields [] = ok []
frame_fields (part ∷ parts) = do
  field ← frame_field part
  rest ← frame_fields parts
  ok (field ++ rest)

-- b"OProW-FRAME-v1"
abbrev pub frame_magic : List ℕ
frame_magic = 79 ∷ 80 ∷ 114 ∷ 111 ∷ 87 ∷ 45 ∷ 70 ∷ 82 ∷ 65 ∷ 77 ∷ 69 ∷ 45 ∷ 118 ∷ 49 ∷ []

-- The domain is given by its UTF-8 bytes.
unfoldable pub frame_parts : List ℕ → List (List ℕ) → Result (List ℕ)
frame_parts domain parts = do
  domain_field ← frame_field domain
  rest ← frame_fields parts
  ok (frame_magic ++ domain_field ++ rest)

-- SHA-256 of hashlib: a digest has 32 bytes.
pub record HashFunction : Type 0 where
  pub digest : List ℕ → List ℕ
  pub digest_size : (raw : List ℕ) → length (digest raw) ≡ 32

module _ (sha : HashFunction) where
  open sha use {digest}

  -- `h256` checks the size of what the hash function returns.
  unfoldable pub h256 : List ℕ → Result (List ℕ)
  h256 raw =
      if not (length (digest raw) == 32)
      then err (unsupported_algorithm_error "hash returned another number of bytes than 32")
      else ok (digest raw)

  unfoldable pub h160 : List ℕ → Result (List ℕ)
  unfolding h256
  h160 raw = do d ← h256 raw; ok (take 20 d)

  unfoldable pub trunc64 : List ℕ → Result (List ℕ)
  unfolding h256
  trunc64 raw = do d ← h256 raw; ok (take 8 d)

  unfoldable pub hash_framed : List ℕ → List (List ℕ) → Result (List ℕ)
  unfolding frame_parts h256
  hash_framed domain parts = do preimage ← frame_parts domain parts; h256 preimage
