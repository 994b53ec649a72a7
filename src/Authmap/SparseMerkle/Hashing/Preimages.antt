-- ===== src/Authmap/SparseMerkle/Hashing/Preimages.antt =====
-- What the framed hashes of oprow/authmap/sparse_merkle.py commit to.
use mathlib.Core.Bool.{true≢false}
use watermarks_po_c.Common.{
  ℕ, ◌≡◌, ◌≢◌, ◌⊎◌, inl, inr, refl, sym, ap, ◌∙◌, List, [], ◌∷◌, length, All, ascii, ok, Bool-cases,
  bytes_eq, bytes_eq_iff, arith, Bool, true, false,
}
use watermarks_po_c.Core.Hashes.{HashFunction, frame_parts, hash_framed, to_bytes_be}
use watermarks_po_c.Core.Hashes.Framing.{Short, frame_parts-Short, frame_parts-inj}
use watermarks_po_c.Core.Identifiers.{FixedBytesIdentifier, IdentifierClass}
use watermarks_po_c.Authmap.SparseMerkle.{smt_alg_id}
use watermarks_po_c.Authmap.SparseMerkle.Hashing.{
  framed_tree_hashes, framed_hash256, framed_leaf_hash, framed_node_hash, framed_empty_leaf_hash,
  u16, returned, of_digest, h256_lem, from_data_lem, short_lem,
}

-- What a node of the tree stands for.
pub data Preimage : Type 0 where
  leaf_of : FixedBytesIdentifier → List ℕ → Preimage
  node_of : FixedBytesIdentifier → FixedBytesIdentifier → Preimage
  empty_leaf : Preimage

-- A Hash256.
abbrev pub IsHash256 : FixedBytesIdentifier → Type 0
IsHash256 h = (h.kind ≡ IdentifierClass.hash256) × (length h.value ≡ 32)

abbrev pub Fits : Preimage → Type 0
Fits (leaf_of key value) = IsHash256 key
Fits (node_of left right) = IsHash256 left × IsHash256 right
Fits empty_leaf = Unit

Hash256-≡ : (a b : FixedBytesIdentifier) → IsHash256 a → IsHash256 b → a.value ≡ b.value → a ≡ b
Hash256-≡ a b (p, m) (q, n) e = fields a b (p ∙ sym q) e
  where
    fields : (a b : FixedBytesIdentifier) → a.kind ≡ b.kind → a.value ≡ b.value → a ≡ b
    fields a b p q = cc

three_parts :
    {x y z x' y' z' : List ℕ} → (x ∷ y ∷ z ∷ []) ≡ (x' ∷ y' ∷ z' ∷ []) → (y ≡ y') × (z ≡ z')
three_parts e = (cc, cc)

leaf_apart : ascii "oprow-smt-leaf-v1" ≢ ascii "oprow-smt-node-v1"
unfolding bytes_eq
leaf_apart e =
    true≢false (sym ((bytes_eq_iff (ascii "oprow-smt-leaf-v1") (ascii "oprow-smt-node-v1")).1 e))

module _ (sha : HashFunction) where
  -- Two different byte strings with one digest.
  abbrev pub ShaCollision : Type 0
  ShaCollision = (a : List ℕ) × (b : List ℕ) × (a ≢ b) × (sha.digest a ≡ sha.digest b)

  abbrev pub hash_of : Preimage → FixedBytesIdentifier
  hash_of (leaf_of key value) = (framed_tree_hashes sha).sparse_leaf_hash key value
  hash_of (node_of left right) = (framed_tree_hashes sha).sparse_node_hash left right
  hash_of empty_leaf = (framed_tree_hashes sha).empty_leaf_hash

  abbrev domain_of : Preimage → List ℕ
  domain_of (leaf_of key value) = ascii "oprow-smt-leaf-v1"
  domain_of (node_of left right) = ascii "oprow-smt-node-v1"
  domain_of empty_leaf = ascii "oprow-smt-empty-leaf-v1"

  abbrev parts_of : Preimage → List (List ℕ)
  parts_of (leaf_of key value) = ascii smt_alg_id ∷ key.value ∷ sha.digest value ∷ []
  parts_of (node_of left right) = ascii smt_alg_id ∷ left.value ∷ right.value ∷ []
  parts_of empty_leaf = ascii smt_alg_id ∷ (1 ∷ 0 ∷ []) ∷ []

  equal_or_collision : (a b : List ℕ) → sha.digest a ≡ sha.digest b → (a ≡ b) ⊎ ShaCollision
  equal_or_collision a b e = elim (Bool-cases (bytes_eq a b)) [
    | inl same ↦ inl ((bytes_eq_iff a b).0 same)
    | inr different ↦
        inr (a, b, (λ same. absurd (contradiction ((bytes_eq_iff a b).1 same) different)), e)
  ]
    where
      contradiction : {t : Bool} → t ≡ true → t ≡ false → ⊥
      contradiction p q = cc

  -- The hash is the digest of the framed parts.
  Framed : FixedBytesIdentifier → List ℕ → List (List ℕ) → Type 0
  Framed h domain parts =
      (raw : List ℕ) × (frame_parts domain parts ≡ ok raw) × (h.value ≡ sha.digest raw)

  framed_hash256-Framed :
      (domain : List ℕ) (parts : List (List ℕ))
      → Short domain
      → All Short parts
      → Framed (returned sha (framed_hash256 sha domain parts)) domain parts
  unfolding Framed framed_hash256 hash_framed
  framed_hash256-Framed domain parts d p =
      let (raw, e) = frame_parts-Short domain parts d p in
      (raw, e, rw e (rw (h256_lem sha raw) (rw (of_digest sha raw) refl)))

  hash_of-Framed : (a : Preimage) → Fits a → Framed (hash_of a) (domain_of a) (parts_of a)
  unfolding framed_tree_hashes framed_leaf_hash framed_node_hash framed_empty_leaf_hash u16
      to_bytes_be
  hash_of-Framed (leaf_of key value) k = rw (from_data_lem sha value) (
      framed_hash256-Framed (ascii "oprow-smt-leaf-v1")
        (ascii smt_alg_id ∷ key.value ∷ sha.digest value ∷ []) (omega arith)
        (
          omega arith,
          (
            short_lem sha key.value k.1,
            (short_lem sha (sha.digest value) (sha.digest_size value), tt),
          ),
        ))
  hash_of-Framed (node_of left right) (l, r) =
      framed_hash256-Framed (ascii "oprow-smt-node-v1")
        (ascii smt_alg_id ∷ left.value ∷ right.value ∷ []) (omega arith)
        (omega arith, (short_lem sha left.value l.1, (short_lem sha right.value r.1, tt)))
  hash_of-Framed empty_leaf t =
      framed_hash256-Framed (ascii "oprow-smt-empty-leaf-v1") (ascii smt_alg_id ∷ (1 ∷ 0 ∷ []) ∷ [])
        (omega arith) (omega arith, (omega arith, tt))

  same_frame :
      (a b : Preimage)
      → Fits a
      → Fits b
      → domain_of a ≡ domain_of b
      → parts_of a ≡ parts_of b
      → (a ≡ b) ⊎ ShaCollision
  same_frame (leaf_of k v) (leaf_of k' v') p q e f =
      elim (equal_or_collision v v' (three_parts f).1) [
        | inl same ↦ inl (both (Hash256-≡ k k' p q (three_parts f).0) same)
        | inr found ↦ inr found
      ]
    where
      both : k ≡ k' → v ≡ v' → leaf_of k v ≡ leaf_of k' v'
      both e f = cc
  same_frame (node_of l r) (node_of l' r') p q e f =
      inl
        (both (Hash256-≡ l l' p.0 q.0 (three_parts f).0) (Hash256-≡ r r' p.1 q.1 (three_parts f).1))
    where
      both : l ≡ l' → r ≡ r' → node_of l r ≡ node_of l' r'
      both e f = cc
  same_frame empty_leaf empty_leaf p q e f = inl refl
  same_frame (leaf_of k v) (node_of l r) p q e f = absurd (leaf_apart e)
  same_frame (node_of l r) (leaf_of k v) p q e f = absurd (leaf_apart (sym e))
  same_frame (leaf_of k v) empty_leaf p q e f = absurd (omega (arith, ap length e))
  same_frame empty_leaf (leaf_of k v) p q e f = absurd (omega (arith, ap length e))
  same_frame (node_of l r) empty_leaf p q e f = absurd (omega (arith, ap length e))
  same_frame empty_leaf (node_of l r) p q e f = absurd (omega (arith, ap length e))

  -- For keys and nodes that are Hash256: the framed hashes of two leaves, nodes or empty leaves are equal
  -- only when these are the same, with the same key and value or the same children, or when two different
  -- byte strings with one SHA-256 digest are found.
  pub framed_tree_hashes-binding :
      (a b : Preimage) → Fits a → Fits b → hash_of a ≡ hash_of b → (a ≡ b) ⊎ ShaCollision
  unfolding Framed
  framed_tree_hashes-binding a b p q e =
      let (raw, ra, ha) = hash_of-Framed a p in
      let (other, rb, hb) = hash_of-Framed b q in
      elim (equal_or_collision raw other
        (sym ha ∙ (ap (λ (h : FixedBytesIdentifier). h.value) e ∙ hb))) [
          | inl same ↦
              let (domains, parts) =
                frame_parts-inj (domain_of a) (domain_of b) (parts_of a) (parts_of b) raw ra
                  (rb ∙ ap ok (sym same)) in
              same_frame a b p q domains parts
          | inr found ↦ inr found
        ]
