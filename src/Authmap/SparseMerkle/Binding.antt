-- ===== src/Authmap/SparseMerkle/Binding.antt =====
-- Two openings of one key that `AuthenticatedMapOpening.verify` of oprow/authmap/sparse_merkle.py accepts.
use watermarks_po_c.Common.{
  ℕ, suc, ◌≡◌, ◌≢◌, refl, sym, ap, ap₂, not, raise_if, ◌∙◌, ◌⊎◌, inl, inr, Bool, true, false, ◌&&◌,
  Option, none, some, List, [], ◌∷◌, ◌==◌, length, Bool-cases, ok, >>=-eq-ok, Result-ok-inj, Result,
  err, arith, bytes_eq, bytes_eq_iff,
}
use mathlib.Core.Bool.{true≢false}
use watermarks_po_c.Core.Identifiers.{FixedBytesIdentifier, identifier_eq, identifier_eq_iff}
use watermarks_po_c.Authmap.SparseMerkle.{
  TreeHashes, key_bit, combine, compute_node, start_node, compute_root, verify, verify_opening,
  default_hash_for_level, default_hash_of_height, AuthenticatedMapOpening, SparseMerkleProof,
  sparse_merkle_proof, smt_depth, root_matches,
}

-- Two distinct inputs that one of the hashes of the tree, or two of them, send to one value.
pub data Collision (h : TreeHashes) : Type 0 where
  node_collision :
      (a b c d : FixedBytesIdentifier)
      → ¬ ((a ≡ c) × (b ≡ d))
      → h.sparse_node_hash a b ≡ h.sparse_node_hash c d
      → Collision h
  leaf_collision :
      (key : FixedBytesIdentifier) (v w : List ℕ)
      → v ≢ w
      → h.sparse_leaf_hash key v ≡ h.sparse_leaf_hash key w
      → Collision h
  empty_collision :
      (key : FixedBytesIdentifier) (v : List ℕ)
      → h.sparse_leaf_hash key v ≡ h.empty_leaf_hash
      → Collision h

module _ (h : TreeHashes) where
  open h use {sparse_leaf_hash, sparse_node_hash, empty_leaf_hash}

  decide_identifier : (a b : FixedBytesIdentifier) → (a ≡ b) ⊎ (a ≢ b)
  decide_identifier a b = elim (Bool-cases (identifier_eq a b)) [
    | inl e ↦ inl ((identifier_eq_iff a b).0 e)
    | inr e ↦ inr (λ same. true≢false (sym ((identifier_eq_iff a b).1 same) ∙ e))
  ]

  node_lem :
      (a b c d : FixedBytesIdentifier)
      → sparse_node_hash a b ≡ sparse_node_hash c d
      → ((a ≡ c) × (b ≡ d)) ⊎ Collision h
  node_lem a b c d e = elim (decide_identifier a c) [
    | inr different ↦ inr (Collision.node_collision a b c d (λ p. different p.0) e)
    | inl same ↦ elim (decide_identifier b d) [
      | inl also ↦ inl (same, also)
      | inr different ↦ inr (Collision.node_collision a b c d (λ p. different p.1) e)
    ]
  ]

  combine_inj :
      (bit : ℕ) (a s b t : FixedBytesIdentifier)
      → combine h bit a s ≡ combine h bit b t
      → (a ≡ b) ⊎ Collision h
  combine_inj bit a s b t e = elim (Bool-cases (bit == 0)) [
    | inl left ↦ first (node_lem a s b t (rw_left left e))
    | inr right ↦ second (node_lem s a t b (rw_right right e))
  ]
    where
      first : ((a ≡ b) × (s ≡ t)) ⊎ Collision h → (a ≡ b) ⊎ Collision h
      first (inl p) = inl p.0
      first (inr c) = inr c

      second : ((s ≡ t) × (a ≡ b)) ⊎ Collision h → (a ≡ b) ⊎ Collision h
      second (inl p) = inl p.1
      second (inr c) = inr c

      rw_left :
          (bit == 0) ≡ true
          → combine h bit a s ≡ combine h bit b t
          → sparse_node_hash a s ≡ sparse_node_hash b t
      rw_left left e = ground (arith)

      rw_right :
          (bit == 0) ≡ false
          → combine h bit a s ≡ combine h bit b t
          → sparse_node_hash s a ≡ sparse_node_hash t b
      rw_right right e = ground (arith)

  -- Walks of one length over one key that end in one node started from one node.
  compute_node_inj :
      (key : FixedBytesIdentifier) (level : ℕ) (ss ts : List FixedBytesIdentifier)
      (a b root : FixedBytesIdentifier)
      → length ss ≡ length ts
      → compute_node h key smt_depth level ss a ≡ ok root
      → compute_node h key smt_depth level ts b ≡ ok root
      → (a ≡ b) ⊎ Collision h
  unfolding compute_node
  compute_node_inj key level [] [] a b root n p q = inl (Result-ok-inj (p ∙ sym q))
  compute_node_inj key level [] (t ∷ ts) a b root n p q = absurd (omega arith)
  compute_node_inj key level (s ∷ ss) [] a b root n p q = absurd (omega arith)
  compute_node_inj key level (s ∷ ss) (t ∷ ts) a b root n p q =
      let (below, walked, rest) = >>=-eq-ok (compute_node h key smt_depth (suc level) ss a) _ p in
      let (below', walked', rest') =
        >>=-eq-ok (compute_node h key smt_depth (suc level) ts b) _ q in
      let (bit, at, e) = >>=-eq-ok (key_bit key level smt_depth) _ rest in
      let (bit', at', e') = >>=-eq-ok (key_bit key level smt_depth) _ rest' in
      elim (combine_inj bit below s below' t (
        Result-ok-inj (
          rest_lem bit below s e
          ∙ sym (ap (λ z. ok (combine h z below' t)) (Result-ok-inj (sym at ∙ at')) ∙ e')))) [
            | inl same ↦
                compute_node_inj key (suc level) ss ts a b below (omega arith) walked
                  (walked' ∙ ap ok (sym same))
            | inr c ↦ inr c
          ]
    where
      rest_lem :
          (bit : ℕ) (below s : FixedBytesIdentifier)
          → ok (combine h bit below s) ≡ ok root
          → ok (combine h bit below s) ≡ ok root
      rest_lem bit below s e = e

  abbrev leaf_of : FixedBytesIdentifier → Option (List ℕ) → FixedBytesIdentifier
  leaf_of key none = empty_leaf_hash
  leaf_of key (some value) = sparse_leaf_hash key value

  leaf_of-inj :
      (key : FixedBytesIdentifier) (v w : Option (List ℕ))
      → leaf_of key v ≡ leaf_of key w
      → (v ≡ w) ⊎ Collision h
  leaf_of-inj key none none e = inl refl
  leaf_of-inj key none (some w) e = inr (Collision.empty_collision key w (sym e))
  leaf_of-inj key (some v) none e = inr (Collision.empty_collision key v e)
  leaf_of-inj key (some v) (some w) e = elim (Bool-cases (bytes_eq v w)) [
    | inl same ↦ inl (ap some ((bytes_eq_iff v w).0 same))
    | inr other ↦ inr (
        Collision.leaf_collision key v w
          (λ same. true≢false (sym ((bytes_eq_iff v w).1 same) ∙ other)) e)
  ]

  default_lem :
      (depth : ℕ) → depth ≡ smt_depth → default_hash_for_level h depth depth ≡ ok empty_leaf_hash
  unfolding default_hash_for_level default_hash_of_height
  default_lem depth e = rw e refl

  start_node-ok :
      (proof : SparseMerkleProof) (value : Option (List ℕ)) (node : FixedBytesIdentifier)
      → proof.depth ≡ smt_depth
      → start_node h proof value ≡ ok node
      → leaf_of proof.key value ≡ node
  unfolding start_node
  start_node-ok proof none node depth e =
      let (u, r, rest) = >>=-eq-ok (raise_if proof.exists _) _ e in
      Result-ok-inj (sym (default_lem proof.depth depth) ∙ rest)
  start_node-ok proof (some value) node depth e =
      let (u, r, rest) = >>=-eq-ok (raise_if (not proof.exists) _) _ e in Result-ok-inj rest

  -- What an accepted opening of a proof that the constructor admits consists of.
  record Walked (o : AuthenticatedMapOpening) : Type 0 where
    key : o.proof.key ≡ o.key
    size : length o.proof.siblings ≡ smt_depth
    walk :
        compute_node h o.key smt_depth 0 o.proof.siblings (leaf_of o.key o.value) ≡ ok o.root_hash

  sparse_merkle_proof-ok :
      (p : SparseMerkleProof)
      → sparse_merkle_proof p ≡ ok p
      → (p.depth ≡ smt_depth) × (length p.siblings ≡ smt_depth)
  unfolding sparse_merkle_proof
  sparse_merkle_proof-ok p e = ground arith

  and_lem : (a b : Bool) → (a && b) ≡ true → (a ≡ true) × (b ≡ true)
  and_lem a b e = ground arith

  root_matches_lem :
      (root : FixedBytesIdentifier) (r : Result FixedBytesIdentifier)
      → root_matches h root r ≡ true
      → r ≡ ok root
  root_matches_lem root (ok computed) e = ap ok ((identifier_eq_iff computed root).0 e)
  root_matches_lem root (err x) e = cc

  walked :
      (o : AuthenticatedMapOpening)
      → sparse_merkle_proof o.proof ≡ ok o.proof
      → verify_opening h o ≡ true
      → Walked o
  unfolding verify_opening verify compute_root
  walked o valid accepted =
      let (depth, size) = sparse_merkle_proof-ok o.proof valid in
      let (keys, matched) = and_lem _ _ accepted in
      let same = (identifier_eq_iff o.proof.key o.key).0 keys in
      let (node, start, walk) =
        >>=-eq-ok (start_node h o.proof o.value) _ (root_matches_lem o.root_hash _ matched) in
      record {
        key = same;
        size = size;
        walk =
            ap₂ (λ k n. compute_node h k smt_depth 0 o.proof.siblings n) (sym same)
              (ap (λ k. leaf_of k o.value) (sym same)
                ∙ start_node-ok o.proof o.value node depth start)
            ∙ (ap (λ d. compute_node h o.proof.key d 0 o.proof.siblings node) (sym depth) ∙ walk);
      }

  -- Two openings of one key against one root, whose proofs the constructor admits and which are both
  -- accepted, show the same value, or both that there is none, unless they give a collision of the
  -- hashes of the tree.
  pub verify_opening-binding :
      (o p : AuthenticatedMapOpening)
      → o.key ≡ p.key
      → o.root_hash ≡ p.root_hash
      → sparse_merkle_proof o.proof ≡ ok o.proof
      → sparse_merkle_proof p.proof ≡ ok p.proof
      → verify_opening h o ≡ true
      → verify_opening h p ≡ true
      → (o.value ≡ p.value) ⊎ Collision h
  verify_opening-binding o p keys roots valid valid' accepted accepted' =
      let first = walked o valid accepted in
      let second = walked p valid' accepted' in
      elim (compute_node_inj o.key 0 o.proof.siblings p.proof.siblings (leaf_of o.key o.value)
        (leaf_of o.key p.value) o.root_hash (first.size ∙ sym second.size) first.walk
        (ap₂ (λ k n. compute_node h k smt_depth 0 p.proof.siblings n) keys
            (ap (λ k. leaf_of k p.value) keys)
          ∙ (second.walk ∙ ap ok (sym roots)))) [
            | inl same ↦ leaf_of-inj o.key o.value p.value same
            | inr c ↦ inr c
          ]
