-- ===== src/Examples/Maps.antt =====
-- A sparse Merkle map with two entries, over the framed hashes.
use watermarks_po_c.Common.{
  ℕ, ◌+◌, ◌%◌, ◌<◌, ◌≡◌, ◌⊎◌, refl, true, List, [], ◌∷◌, replicate, ok, All, All-replicate, arith,
}
use watermarks_po_c.Core.Hashes.{HashFunction, h256}
use watermarks_po_c.Core.Identifiers.{FixedBytesIdentifier, IdentifierClass}
use watermarks_po_c.Authmap.SparseMerkle.{
  Entries, AuthenticatedMapOpening, verify_opening, open_key, sparse_merkle_proof,
}
use watermarks_po_c.Authmap.SparseMerkle.Hashing.{
  framed_tree_hashes, framed_leaf_hash, hash256_from_data,
}
use watermarks_po_c.Authmap.SparseMerkle.Hashing.Preimages.{
  leaf_of, hash_of, ShaCollision, framed_tree_hashes-binding,
}
use watermarks_po_c.Authmap.SparseMerkle.Keys.{IsKey}
use watermarks_po_c.Authmap.SparseMerkle.Opening.{open_key-verify_opening}
use watermarks_po_c.Authmap.SparseMerkle.Binding.{Collision, verify_opening-binding}

abbrev total : List ℕ → ℕ
total [] = 0
total (b ∷ bs) = b + total bs

abbrev toy_sha : HashFunction
toy_sha = record { digest = λ raw. replicate 32 (total raw % 256); digest_size = λ raw. refl }

abbrev key_of : ℕ → FixedBytesIdentifier
key_of b = record { kind = IdentifierClass.hash256; value = replicate 32 b }

key_of-IsKey : (b : ℕ) → b < 256 → IsKey (key_of b)
key_of-IsKey b h = record { kind = refl; size = refl; bytes = All-replicate (λ x. x < 256) 32 b h }

abbrev two_entries : Entries
two_entries = (key_of 1, 10 ∷ 20 ∷ []) ∷ (key_of 2, 30 ∷ []) ∷ []

two_entries-IsKey : All (λ e. IsKey e.0) two_entries
two_entries-IsKey = (key_of-IsKey 1 (omega arith), (key_of-IsKey 2 (omega arith), tt))

toy_leaf :
    hash_of toy_sha (leaf_of (key_of 1) (7 ∷ 2 ∷ []))
    ≡ hash_of toy_sha (leaf_of (key_of 1) (2 ∷ 7 ∷ []))
unfolding framed_tree_hashes framed_leaf_hash hash256_from_data h256
toy_leaf = refl

-- The two values have the same sum, and so the same digest under the toy hash.
framed_tree_hashes-binding_example :
    (leaf_of (key_of 1) (7 ∷ 2 ∷ []) ≡ leaf_of (key_of 1) (2 ∷ 7 ∷ [])) ⊎ ShaCollision toy_sha
framed_tree_hashes-binding_example =
    framed_tree_hashes-binding toy_sha (leaf_of (key_of 1) (7 ∷ 2 ∷ []))
      (leaf_of (key_of 1) (2 ∷ 7 ∷ [])) (refl, refl) (refl, refl) toy_leaf

open_key-verify_opening_example :
    verify_opening
      (framed_tree_hashes toy_sha)
      (open_key (framed_tree_hashes toy_sha) two_entries (key_of 2))
    ≡ true
open_key-verify_opening_example =
    open_key-verify_opening (framed_tree_hashes toy_sha) two_entries (key_of 2) two_entries-IsKey
      (key_of-IsKey 2 (omega arith))

abbrev opening : AuthenticatedMapOpening
opening = open_key (framed_tree_hashes toy_sha) two_entries (key_of 2)

opening-valid : sparse_merkle_proof opening.proof ≡ ok opening.proof
unfolding sparse_merkle_proof open_key
opening-valid = refl

verify_opening-binding_example :
    (opening.value ≡ opening.value) ⊎ Collision (framed_tree_hashes toy_sha)
verify_opening-binding_example =
    verify_opening-binding (framed_tree_hashes toy_sha) opening opening refl refl opening-valid
      opening-valid
      (open_key-verify_opening (framed_tree_hashes toy_sha) two_entries (key_of 2) two_entries-IsKey
        (key_of-IsKey 2 (omega arith)))
      (open_key-verify_opening (framed_tree_hashes toy_sha) two_entries (key_of 2) two_entries-IsKey
        (key_of-IsKey 2 (omega arith)))
