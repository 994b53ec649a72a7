-- ===== src/Authmap/SparseMerkle/Hashing.antt =====
-- The framed hashes of oprow/authmap/sparse_merkle.py, and the interface of the tree filled by them.
pub mod Preimages
use watermarks_po_c.Common.{
  ℕ, ◌≡◌, ◌^◌, refl, List, [], ◌∷◌, length, All, if◌then◌else◌, leb, ascii, Result, ok, err, ◌>>=◌,
  validation_error, arith,
}
use watermarks_po_c.Core.Hashes.{HashFunction, h256, hash_framed, to_bytes_be}
use watermarks_po_c.Core.Hashes.Framing.{Short, frame_parts-Short}
use watermarks_po_c.Core.Identifiers.{FixedBytesIdentifier, IdentifierClass, fixed_bytes_identifier}
use watermarks_po_c.Authmap.SparseMerkle.{TreeHashes, smt_alg_id, smt_depth}

unfoldable pub u16 : ℕ → Result (List ℕ)
u16 n =
    if leb (2 ^ 16) n
    then err (validation_error "integer out of u16 range")
    else ok (to_bytes_be n 2)

module _ (sha : HashFunction) where
  open sha use {digest, digest_size}

  -- `Hash256.from_data`
  unfoldable pub hash256_from_data : List ℕ → Result FixedBytesIdentifier
  hash256_from_data raw = do d ← h256 sha raw; fixed_bytes_identifier IdentifierClass.hash256 d

  unfoldable pub framed_hash256 : List ℕ → List (List ℕ) → Result FixedBytesIdentifier
  framed_hash256 domain parts = do
    d ← hash_framed sha domain parts
    fixed_bytes_identifier IdentifierClass.hash256 d

  unfoldable pub framed_leaf_hash : FixedBytesIdentifier → List ℕ → Result FixedBytesIdentifier
  framed_leaf_hash key value = do
    value_hash ← hash256_from_data value
    framed_hash256 (ascii "oprow-smt-leaf-v1")
        (ascii smt_alg_id ∷ key.value ∷ value_hash.value ∷ [])

  unfoldable pub framed_node_hash :
      FixedBytesIdentifier → FixedBytesIdentifier → Result FixedBytesIdentifier
  framed_node_hash left right =
      framed_hash256 (ascii "oprow-smt-node-v1") (ascii smt_alg_id ∷ left.value ∷ right.value ∷ [])

  unfoldable pub framed_empty_leaf_hash : Result FixedBytesIdentifier
  framed_empty_leaf_hash = do
    depth ← u16 smt_depth
    framed_hash256 (ascii "oprow-smt-empty-leaf-v1") (ascii smt_alg_id ∷ depth ∷ [])

  -- What a call returns; the bytes of no identifier stand for an exception.
  abbrev returned : Result FixedBytesIdentifier → FixedBytesIdentifier
  returned (ok h) = h
  returned (err e) = record { kind = IdentifierClass.hash256; value = [] }

  unfoldable pub framed_tree_hashes : TreeHashes
  framed_tree_hashes = record {
    sparse_leaf_hash = λ key value. returned (framed_leaf_hash key value);
    sparse_node_hash = λ left right. returned (framed_node_hash left right);
    empty_leaf_hash = returned framed_empty_leaf_hash;
  }

  of_digest :
      (raw : List ℕ)
      → fixed_bytes_identifier IdentifierClass.hash256 (digest raw)
        ≡ ok (record { kind = IdentifierClass.hash256; value = digest raw })
  unfolding fixed_bytes_identifier
  of_digest raw = rw (digest_size raw) refl

  h256_lem : (raw : List ℕ) → h256 sha raw ≡ ok (digest raw)
  unfolding h256
  h256_lem raw = rw (digest_size raw) refl

  short_lem : (raw : List ℕ) → length raw ≡ 32 → Short raw
  short_lem raw e = omega arith

  from_data_lem :
      (raw : List ℕ)
      → hash256_from_data raw ≡ ok (record { kind = IdentifierClass.hash256; value = digest raw })
  unfolding hash256_from_data
  from_data_lem raw = rw (h256_lem raw) (of_digest raw)
