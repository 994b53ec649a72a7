-- ===== src/Authmap/SparseMerkle.antt =====
-- oprow/authmap/sparse_merkle.py: proofs and the map. Keys are fixed_bytes_identifiers of class
-- `hash256`. The three hashes of the tree are an interface, `TreeHashes`, that SparseMerkle/Hashing fills
-- with the framed SHA-256 of the code. The cached levels `_nodes_by_level` are computed from the
-- entries, which is what `_mark_dirty` and `_ensure_built` amount to. Metadata and canonical forms are left out.
pub mod Hashing
pub mod Keys
pub mod Levels
pub mod Opening
pub mod Binding
use watermarks_po_c.Common.{
  ℕ, zero, suc, ◌+◌, ◌-◌, ◌*◌, ◌/◌, ◌%◌, ◌^◌, Bool, true, false, not, ◌&&◌, Option, none, some,
  List, [], ◌∷◌, map, String, str_eq, bit_xor, if◌then◌else◌, ◌==◌, leb, keep, any, length, Result,
  ok, err, ◌>>=◌, ◌>>◌, raise_if, validation_error, dict_get, dict_get_or, dict_set, dict_del,
}
use watermarks_po_c.Core.Hashes.{from_bytes_be}
use watermarks_po_c.Core.Identifiers.{FixedBytesIdentifier, identifier_eq}

abbrev pub smt_alg_id : String
smt_alg_id = "OPROW-SMT-SHA256-V1"

abbrev pub smt_depth : ℕ
smt_depth = 256

-- The hashes of leaves, of inner nodes and of the empty leaf.
pub record TreeHashes : Type 0 where
  pub sparse_leaf_hash : FixedBytesIdentifier → List ℕ → FixedBytesIdentifier
  pub sparse_node_hash : FixedBytesIdentifier → FixedBytesIdentifier → FixedBytesIdentifier
  pub empty_leaf_hash : FixedBytesIdentifier

abbrev pub key_to_int : FixedBytesIdentifier → ℕ
key_to_int key = from_bytes_be 0 key.value

-- A level is a natural number, so that it is never negative.
unfoldable pub key_bit : FixedBytesIdentifier → ℕ → ℕ → Result ℕ
key_bit key level depth =
    if leb depth level
    then err (validation_error "level out of range")
    else ok (key_to_int key / 2 ^ (depth - 1 - level) % 2)

pub record SparseMerkleProof : Type 0 where
  pub key : FixedBytesIdentifier
  pub siblings : List FixedBytesIdentifier
  pub exists : Bool
  pub alg_id : String
  pub depth : ℕ

-- The constructor's checks (`__post_init__`).
unfoldable pub sparse_merkle_proof : SparseMerkleProof → Result SparseMerkleProof
sparse_merkle_proof proof = do
  raise_if (not (str_eq proof.alg_id smt_alg_id))
      (validation_error "unsupported sparse Merkle proof algorithm")
  raise_if (not (proof.depth == smt_depth))
      (validation_error "this draft supports only depth-256 sparse Merkle proofs")
  raise_if (not (length proof.siblings == proof.depth))
      (validation_error "wrong number of sibling hashes")
  ok proof

pub record AuthenticatedMapOpening : Type 0 where
  pub key : FixedBytesIdentifier
  pub value : Option (List ℕ)
  pub proof : SparseMerkleProof
  pub root_hash : FixedBytesIdentifier

-- The map: its entries, in the order of insertion.
abbrev pub Entries : Type 0
Entries = List (FixedBytesIdentifier × List ℕ)

unfoldable pub get : Entries → FixedBytesIdentifier → Option (List ℕ)
get entries key = dict_get identifier_eq entries key

unfoldable pub set : Entries → FixedBytesIdentifier → List ℕ → Entries
set entries key value = dict_set identifier_eq entries key value

unfoldable pub delete : Entries → FixedBytesIdentifier → Entries
delete entries key = dict_del identifier_eq entries key

-- A level of the tree: the nodes that are not the default, by their index.
abbrev pub Nodes : Type 0
Nodes = List (ℕ × FixedBytesIdentifier)

-- The keys of the entries are distinct, so that the order of the assignments does not matter.
-- The set `{child_index >> 1 for child_index in child_map}`.
unfoldable pub parent_indices : Nodes → List ℕ
parent_indices [] = []
parent_indices ((child_index, node) ∷ nodes) =
    let rest = parent_indices nodes in
    if any (λ i. i == child_index / 2) rest then rest else (child_index / 2) ∷ rest

abbrev pub is_some : Option (List ℕ) → Bool
is_some none = false
is_some (some value) = true

module _ (h : TreeHashes) where
  open h use {sparse_leaf_hash, sparse_node_hash, empty_leaf_hash}

  -- The empty subtree of a height: the level `depth - height` of the recurrence.
  unfoldable pub default_hash_of_height : ℕ → FixedBytesIdentifier
  default_hash_of_height zero = empty_leaf_hash
  default_hash_of_height (suc height) =
      let child = default_hash_of_height height in sparse_node_hash child child

  unfoldable pub default_hash_for_level : ℕ → ℕ → Result FixedBytesIdentifier
  unfolding default_hash_of_height
  default_hash_for_level level depth = do
    raise_if (not (depth == smt_depth))
        (validation_error "this draft supports only 256-bit sparse maps")
    raise_if (leb (suc depth) level) (validation_error "level out of range")
    ok (default_hash_of_height (depth - level))

  abbrev pub combine : ℕ → FixedBytesIdentifier → FixedBytesIdentifier → FixedBytesIdentifier
  combine bit node sibling =
      if bit == 0 then sparse_node_hash node sibling else sparse_node_hash sibling node

  -- The loop from the last level up to `level`; the siblings are those from `level` on.
  unfoldable pub compute_node :
      FixedBytesIdentifier
      → ℕ
      → ℕ
      → List FixedBytesIdentifier
      → FixedBytesIdentifier
      → Result FixedBytesIdentifier
  compute_node key depth level [] node = ok node
  compute_node key depth level (sibling ∷ siblings) node = do
    below ← compute_node key depth (suc level) siblings node
    bit ← key_bit key level depth
    ok (combine bit below sibling)

  unfoldable pub start_node : SparseMerkleProof → Option (List ℕ) → Result FixedBytesIdentifier
  unfolding default_hash_for_level
  start_node proof none = do
    raise_if proof.exists (validation_error "proof is marked exists=True but no value was supplied")
    default_hash_for_level proof.depth proof.depth
  start_node proof (some value) = do
    raise_if (not proof.exists)
        (validation_error "proof is marked exists=False but a value was supplied")
    ok (sparse_leaf_hash proof.key value)

  unfoldable pub compute_root : SparseMerkleProof → Option (List ℕ) → Result FixedBytesIdentifier
  unfolding start_node compute_node
  compute_root proof value = do
    node ← start_node proof value
    compute_node proof.key proof.depth 0 proof.siblings node

  abbrev pub root_matches : FixedBytesIdentifier → Result FixedBytesIdentifier → Bool
  root_matches root (ok computed) = identifier_eq computed root
  root_matches root (err e) = false

  -- `SparseMerkleProof.verify`; a root of 32 bytes has no other exception to raise.
  unfoldable pub verify : SparseMerkleProof → FixedBytesIdentifier → Option (List ℕ) → Bool
  unfolding compute_root
  verify proof root value = root_matches root (compute_root proof value)

  unfoldable pub verify_opening : AuthenticatedMapOpening → Bool
  unfolding verify
  verify_opening opening =
      identifier_eq opening.proof.key opening.key
      && verify opening.proof opening.root_hash opening.value

  unfoldable pub leaves : Entries → Nodes
  leaves [] = []
  leaves ((key, value) ∷ entries) =
      dict_set ◌==◌ (leaves entries) (key_to_int key) (sparse_leaf_hash key value)

  abbrev pub parent_hash : Nodes → FixedBytesIdentifier → ℕ → FixedBytesIdentifier
  parent_hash child_map child_default parent_index =
      sparse_node_hash (dict_get_or ◌==◌ child_map (parent_index * 2) child_default)
        (dict_get_or ◌==◌ child_map (parent_index * 2 + 1) child_default)

  unfoldable pub parent_map : Nodes → FixedBytesIdentifier → FixedBytesIdentifier → List ℕ → Nodes
  parent_map child_map child_default parent_default [] = []
  parent_map child_map child_default parent_default (i ∷ indices) =
      let rest = parent_map child_map child_default parent_default indices in
      let node = parent_hash child_map child_default i in
      if not (identifier_eq node parent_default) then (i, node) ∷ rest else rest

  -- `_nodes_by_level[depth - height]`
  unfoldable pub nodes_of_height : Entries → ℕ → Nodes
  unfolding leaves parent_map parent_indices
  nodes_of_height entries zero = leaves entries
  nodes_of_height entries (suc height) =
      let child_map = nodes_of_height entries height in
      parent_map child_map (default_hash_of_height height) (default_hash_of_height (suc height))
        (parent_indices child_map)

  -- `nodes_by_level[depth - height].get(index, default_hash_for_level(depth - height))`
  unfoldable pub node_at : Entries → ℕ → ℕ → FixedBytesIdentifier
  unfolding nodes_of_height
  node_at entries height index =
      dict_get_or ◌==◌ (nodes_of_height entries height) index (default_hash_of_height height)

  unfoldable pub root_hash : Entries → FixedBytesIdentifier
  unfolding node_at
  root_hash entries = node_at entries smt_depth 0

  -- The siblings on the path, from a height down to the leaves.
  unfoldable pub siblings_from : Entries → ℕ → ℕ → List FixedBytesIdentifier
  unfolding node_at
  siblings_from entries key_int zero = []
  siblings_from entries key_int (suc height) =
      node_at entries height (bit_xor (key_int / 2 ^ height) 1)
      ∷ siblings_from entries key_int height

  unfoldable pub open_key : Entries → FixedBytesIdentifier → AuthenticatedMapOpening
  unfolding get siblings_from root_hash
  open_key entries key = record {
    key = key;
    value = get entries key;
    proof = record {
      key = key;
      siblings = siblings_from entries (key_to_int key) smt_depth;
      exists = is_some (get entries key);
      alg_id = smt_alg_id;
      depth = smt_depth;
    };
    root_hash = root_hash entries;
  }
