-- ===== src/Authmap/SparseMerkle/Levels.antt =====
-- The levels of the map of oprow/authmap/sparse_merkle.py: what `_ensure_built` stores, and how a path
-- of `open` goes through it.
use watermarks_po_c.Common.{
  ℕ, suc, ◌+◌, ◌*◌, ◌/◌, ◌%◌, ◌≡◌, refl, sym, ap, ap₂, ◌∙◌, ◌⊎◌, inl, inr, Bool, true, false,
  Option, none, some, List, [], ◌∷◌, bit_xor, bit_xor_step, bit_xor-zero, if◌then◌else◌, ◌==◌,
  ==_iff, any, All, Bool-cases, dict_get, dict_get_or, dict_set, dict_get-dict_set,
  dict_get-dict_set_other, arith, get_or,
}
use mathlib.Core.Bool.{true≢false}
use watermarks_po_c.Core.Identifiers.{FixedBytesIdentifier, identifier_eq, identifier_eq_iff}
use watermarks_po_c.Authmap.SparseMerkle.{
  TreeHashes, key_to_int, default_hash_of_height, combine, Entries, Nodes, leaves, parent_indices,
  parent_hash, parent_map, nodes_of_height, node_at,
}
use watermarks_po_c.Authmap.SparseMerkle.Keys.{IsKey, key_to_int_≢}

has_index : ℕ → Nodes → Bool
has_index i cm = any (λ j. j == i) (parent_indices cm)

has_index_here :
    (j i : ℕ) (n : FixedBytesIdentifier) (cm : Nodes) → j / 2 ≡ i → has_index i ((j, n) ∷ cm) ≡ true
unfolding has_index parent_indices
has_index_here j i n cm e = rw (sym e) (ground arith)

has_index_there :
    (j i : ℕ) (n : FixedBytesIdentifier) (cm : Nodes)
    → has_index i ((j, n) ∷ cm) ≡ false
    → has_index i cm ≡ false
unfolding has_index parent_indices
has_index_there j i n cm e = ground arith

-- A child whose parent is not an index is not stored.
absent_lem : (cm : Nodes) (i c : ℕ) → has_index i cm ≡ false → c / 2 ≡ i → dict_get ◌==◌ cm c ≡ none
absent_lem [] i c none_there e = refl
absent_lem ((j, n) ∷ cm) i c none_there e = elim (Bool-cases (j == c)) [
  | inl same ↦ absurd (
      true≢false
        (sym (has_index_here j i n cm (ap (λ z. z / 2) ((==_iff j c).0 same) ∙ e)) ∙ none_there))
  | inr other ↦ rw other (absent_lem cm i c (has_index_there j i n cm none_there) e)
]

even_or_odd :
    (c : ℕ)
    → ((c % 2 ≡ 0) × (c / 2 * 2 ≡ c) × (bit_xor c 1 ≡ c / 2 * 2 + 1))
      ⊎ ((c % 2 ≡ 1) × (c / 2 * 2 + 1 ≡ c) × (bit_xor c 1 ≡ c / 2 * 2))
even_or_odd c = elim (Bool-cases (c % 2 == 0)) [
  | inl e ↦ inl (ground arith, ground arith, xor_one c ∙ ground arith)
  | inr e ↦ inr (ground arith, ground arith, xor_one c ∙ ground arith)
]
  where
    xor_one : (c : ℕ) → bit_xor c 1 ≡ c / 2 * 2 + (c + 1) % 2
    xor_one c = bit_xor_step c 1 ∙ ap (λ z. z * 2 + (c + 1) % 2) (bit_xor-zero (c / 2))

module _ (h : TreeHashes) where
  open h use {sparse_leaf_hash, sparse_node_hash, empty_leaf_hash}

  unfoldable pub leaf_of : FixedBytesIdentifier → Option (List ℕ) → FixedBytesIdentifier
  leaf_of key none = empty_leaf_hash
  leaf_of key (some value) = sparse_leaf_hash key value

  pub leaves_lem :
      (entries : Entries) (key : FixedBytesIdentifier)
      → All (λ e. IsKey e.0) entries
      → IsKey key
      → dict_get_or ◌==◌ (leaves h entries) (key_to_int key) empty_leaf_hash
        ≡ leaf_of key (dict_get identifier_eq entries key)
  unfolding leaves leaf_of
  leaves_lem [] key p k = refl
  leaves_lem ((j, v) ∷ entries) key p k = elim (Bool-cases (identifier_eq j key)) [
    | inl e ↦ rw e (
        ap
          (λ z.
            get_or
              (dict_get ◌==◌
                (dict_set ◌==◌ (leaves h entries) (key_to_int j) (sparse_leaf_hash j v))
                (key_to_int z))
              empty_leaf_hash)
          (sym ((identifier_eq_iff j key).0 e))
        ∙ (ap (λ o. get_or o empty_leaf_hash)
              (dict_get-dict_set ◌==◌ ==_iff (leaves h entries) (key_to_int j) _)
            ∙ ap (λ z. sparse_leaf_hash z v) ((identifier_eq_iff j key).0 e)))
    | inr e ↦ rw e (
        ap (λ o. get_or o empty_leaf_hash)
          (dict_get-dict_set_other ◌==◌ ==_iff (leaves h entries) (key_to_int j) (key_to_int key) _
            (key_to_int_≢ j key p.0 k e))
        ∙ leaves_lem entries key p.1 k)
  ]

  -- What a level holds at an index.
  parent_map_lem :
      (cm : Nodes) (cd pd : FixedBytesIdentifier) (indices : List ℕ) (i : ℕ)
      → dict_get_or ◌==◌ (parent_map h cm cd pd indices) i pd
        ≡ (if any (λ j. j == i) indices then parent_hash h cm cd i else pd)
  unfolding parent_map
  parent_map_lem cm cd pd [] i = refl
  parent_map_lem cm cd pd (j ∷ indices) i =
      ground
        (arith, parent_map_lem cm cd pd indices i, identifier_eq_iff (parent_hash h cm cd j) pd)

  -- A level's node is the hash of its two children.
  pub node_at_lem :
      (entries : Entries) (height i : ℕ)
      → node_at h entries (suc height) i
        ≡ sparse_node_hash (node_at h entries height (i * 2)) (node_at h entries height (i * 2 + 1))
  unfolding node_at nodes_of_height default_hash_of_height has_index
  node_at_lem entries height i =
      parent_map_lem (nodes_of_height h entries height) (default_hash_of_height h height)
        (default_hash_of_height h (suc height)) (parent_indices (nodes_of_height h entries height))
        i
      ∙ parent_lem (nodes_of_height h entries height) i height
    where
      parent_lem :
          (cm : Nodes) (i height : ℕ)
          → (if has_index i cm
              then parent_hash h cm (default_hash_of_height h height) i
              else default_hash_of_height h (suc height))
            ≡ parent_hash h cm (default_hash_of_height h height) i
      parent_lem cm i height = elim (Bool-cases (has_index i cm)) [
        | inl e ↦ rw e refl
        | inr e ↦ rw e (
            sym (
              ap₂
                (λ x y.
                  sparse_node_hash (get_or x (default_hash_of_height h height))
                    (get_or y (default_hash_of_height h height)))
                (absent_lem cm i (i * 2) e (omega arith))
                (absent_lem cm i (i * 2 + 1) e (omega arith))))
      ]

  -- The children of a node, in the order that a bit of the key gives them.
  pub combine_lem :
      (entries : Entries) (height c : ℕ)
      → combine h (c % 2) (node_at h entries height c) (node_at h entries height (bit_xor c 1))
        ≡ node_at h entries (suc height) (c / 2)
  combine_lem entries height c = elim (even_or_odd c) [
    | inl (even, e, sibling) ↦ rw even (
        rw sibling (
          sym (
            node_at_lem entries height (c / 2)
            ∙ ap
                (λ z.
                  sparse_node_hash (node_at h entries height z)
                    (node_at h entries height (c / 2 * 2 + 1)))
                e)))
    | inr (odd, e, sibling) ↦ rw odd (
        rw sibling (
          sym (
            node_at_lem entries height (c / 2)
            ∙ ap
                (λ z.
                  sparse_node_hash (node_at h entries height (c / 2 * 2))
                    (node_at h entries height z))
                e)))
  ]
