-- ===== src/Authmap/SparseMerkle/Opening.antt =====
-- `SparseMerkleMap.open` against `SparseMerkleProof.verify` of oprow/authmap/sparse_merkle.py.
use watermarks_po_c.Common.{
  ℕ, zero, suc, ◌-◌, ◌/◌, ◌%◌, ◌^◌, ◌≤◌, ◌≡◌, refl, sym, ap, ◌∙◌, true, Option, none, some, List,
  All, ok, dict_get, arith, lt→not-leb,
}
use native.Mathlib.Nat.{pow-suc, div-div-eq-div-mul, div-eq_of_lt}
use watermarks_po_c.Core.Identifiers.{FixedBytesIdentifier, identifier_eq, identifier_eq_iff}
use watermarks_po_c.Authmap.SparseMerkle.{
  TreeHashes, key_to_int, key_bit, default_hash_of_height, default_hash_for_level, compute_node,
  start_node, compute_root, verify, verify_opening, Entries, nodes_of_height, node_at, root_hash,
  siblings_from, is_some, open_key, smt_depth, smt_alg_id, get,
}
use watermarks_po_c.Authmap.SparseMerkle.Keys.{IsKey, key_to_int-lt}
use watermarks_po_c.Authmap.SparseMerkle.Levels.{leaf_of, leaves_lem, combine_lem}

module _ (h : TreeHashes) where
  open h use {sparse_leaf_hash, sparse_node_hash, empty_leaf_hash}

  key_bit_lem :
      (key : FixedBytesIdentifier) (height : ℕ)
      → suc height ≤ smt_depth
      → key_bit key (smt_depth - suc height) smt_depth ≡ ok (key_to_int key / 2 ^ height % 2)
  unfolding key_bit
  key_bit_lem key height small =
      rw (lt→not-leb smt_depth (smt_depth - suc height) (omega arith))
        (ap (λ z. ok (key_to_int key / 2 ^ z % 2)) (omega arith))

  -- The walk over the siblings of an opening reaches the node that the map has on the path.
  climb_lem :
      (entries : Entries) (key : FixedBytesIdentifier) (height : ℕ)
      → height ≤ smt_depth
      → compute_node h key smt_depth
          (smt_depth - height)
          (siblings_from h entries (key_to_int key) height)
          (node_at h entries 0 (key_to_int key))
        ≡ ok (node_at h entries height (key_to_int key / 2 ^ height))
  unfolding compute_node siblings_from
  climb_lem entries key zero small = ap (λ z. ok (node_at h entries 0 z)) (omega arith)
  climb_lem entries key (suc height) small = rw (level_lem height small) (
      rw (climb_lem entries key height (omega arith)) (
        rw (key_bit_lem key height small) (
          ap ok (combine_lem h entries height (key_to_int key / 2 ^ height))
          ∙ ap (λ z. ok (node_at h entries (suc height) z))
              (div-div-eq-div-mul (key_to_int key) (2 ^ height) 2
                ∙ ap (λ z. key_to_int key / z) (sym (pow-suc 2 height))))))
    where
      level_lem :
          (height : ℕ) → suc height ≤ smt_depth → suc (smt_depth - suc height) ≡ smt_depth - height
      level_lem height small = omega arith

  leaf_node_lem :
      (entries : Entries) (key : FixedBytesIdentifier)
      → All (λ e. IsKey e.0) entries
      → IsKey key
      → node_at h entries 0 (key_to_int key) ≡ leaf_of h key (dict_get identifier_eq entries key)
  unfolding node_at nodes_of_height default_hash_of_height
  leaf_node_lem entries key p k = leaves_lem h entries key p k

  start_node_lem :
      (value : Option (List ℕ)) (key : FixedBytesIdentifier) (siblings : List FixedBytesIdentifier)
      → start_node h
          (record {
            key = key;
            siblings = siblings;
            exists = is_some value;
            alg_id = smt_alg_id;
            depth = smt_depth;
          })
          value
        ≡ ok (leaf_of h key value)
  unfolding start_node default_hash_for_level default_hash_of_height leaf_of
  start_node_lem none key siblings = refl
  start_node_lem (some value) key siblings = refl

  verify_lem :
      (key root : FixedBytesIdentifier) (value : Option (List ℕ))
      (siblings : List FixedBytesIdentifier)
      → compute_node h key smt_depth 0 siblings (leaf_of h key value) ≡ ok root
      → verify_opening h (record {
        key = key;
        value = value;
        proof = record {
          key = key;
          siblings = siblings;
          exists = is_some value;
          alg_id = smt_alg_id;
          depth = smt_depth;
        };
        root_hash = root;
      })
        ≡ true
  unfolding verify_opening verify compute_root
  verify_lem key root value siblings e =
      rw ((identifier_eq_iff key key).1 refl)
        (rw (start_node_lem value key siblings) (rw e ((identifier_eq_iff root root).1 refl)))

  root_lem :
      (entries : Entries) (key : FixedBytesIdentifier)
      → IsKey key
      → node_at h entries smt_depth (key_to_int key / 2 ^ smt_depth) ≡ root_hash h entries
  unfolding root_hash
  root_lem entries key k =
      ap (λ z. node_at h entries smt_depth z) (div-eq_of_lt (key_to_int-lt key k))

  -- Whatever the map holds, as long as its keys have 32 bytes: the opening of any key of 32 bytes,
  -- which shows the stored value or that there is none, is accepted against the map's root.
  pub open_key-verify_opening :
      (entries : Entries) (key : FixedBytesIdentifier)
      → All (λ e. IsKey e.0) entries
      → IsKey key
      → verify_opening h (open_key h entries key) ≡ true
  unfolding open_key get
  open_key-verify_opening entries key p k =
      verify_lem key (root_hash h entries) (dict_get identifier_eq entries key)
        (siblings_from h entries (key_to_int key) smt_depth)
        (ap
            (λ z.
              compute_node h key smt_depth 0 (siblings_from h entries (key_to_int key) smt_depth) z)
            (sym (leaf_node_lem entries key p k))
          ∙ (climb_lem entries key smt_depth (omega arith) ∙ ap ok (root_lem entries key k)))
