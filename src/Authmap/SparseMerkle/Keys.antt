-- ===== src/Authmap/SparseMerkle/Keys.antt =====
-- Keys of the map of oprow/authmap/sparse_merkle.py as integers.
use watermarks_po_c.Common.{
  ℕ, ◌+◌, ◌*◌, ◌^◌, ◌<◌, ◌≡◌, refl, sym, ◌∙◌, inl, inr, false, List, ◌==◌, ==_iff, length, All,
  Bool-cases,
}
use mathlib.Core.Bool.{true≢false}
use watermarks_po_c.Core.Identifiers.{
  FixedBytesIdentifier, IdentifierClass, identifier_eq, identifier_eq_iff,
}
use watermarks_po_c.Core.Hashes.Integers.{from_bytes_be-inj, from_bytes_be-lt}
use watermarks_po_c.Authmap.SparseMerkle.{key_to_int, smt_depth}

-- A key: 32 bytes.
pub record IsKey (key : FixedBytesIdentifier) : Type 0 where
  pub kind : key.kind ≡ IdentifierClass.hash256
  pub size : length key.value ≡ 32
  pub bytes : All (λ b. b < 256) key.value

key_to_int-inj :
    (a b : FixedBytesIdentifier) → IsKey a → IsKey b → key_to_int a ≡ key_to_int b → a ≡ b
key_to_int-inj a b p q e =
    let bytes = (from_bytes_be-inj a.value b.value 0 0 (p.size ∙ sym q.size) p.bytes q.bytes e).1 in
    let kinds = p.kind ∙ sym q.kind in cc

pub key_to_int_≢ :
    (a b : FixedBytesIdentifier)
    → IsKey a
    → IsKey b
    → identifier_eq a b ≡ false
    → (key_to_int a == key_to_int b) ≡ false
key_to_int_≢ a b p q e = elim (Bool-cases (key_to_int a == key_to_int b)) [
  | inl same ↦ absurd (
      true≢false
        (sym ((identifier_eq_iff a b).1 (key_to_int-inj a b p q ((==_iff _ _).0 same))) ∙ e))
  | inr other ↦ other
]

pub key_to_int-lt : (key : FixedBytesIdentifier) → IsKey key → key_to_int key < 2 ^ smt_depth
key_to_int-lt key k = rw (sym (pow_lem key.value k.size)) (from_bytes_be-lt key.value 0 k.bytes)
  where
    pow_lem : (value : List ℕ) → length value ≡ 32 → (0 + 1) * 256 ^ length value ≡ 2 ^ smt_depth
    pow_lem value e = rw e refl
