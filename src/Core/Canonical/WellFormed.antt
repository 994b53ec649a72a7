-- ===== src/Core/Canonical/WellFormed.antt =====
-- The values that oprow/core/canonical.py encodes and decodes: their texts, the keys of their maps.
use watermarks_po_c.Common.{
  ℕ, ◌-◌, ◌<◌, ◌≡◌, refl, subst, ap, Option, none, some, List, [], ◌∷◌, ◌++◌, Bool, true, false,
  length, any, bytes_eq, length-append, take, take-append, Result, ok, err, >>=-eq-ok,
  Result-ok-inj, arith, pos, negsuc,
}
use watermarks_po_c.Core.Canonical.{
  Value, Items, Fields, null, bool, int, bytes, text, array, dict, no_items, item, no_fields, field,
  head, encode_text, insert_pair, sort_pairs, encode, encode_items, encode_fields, out_of_order,
}
use watermarks_po_c.Core.Canonical.Head.{head_pos}

-- The pairs of an encoded map in the order of their keys.
abbrev pub Ordered : Option (List ℕ) → List (List ℕ × List ℕ) → Type 0
Ordered last [] = Unit
Ordered last (p ∷ ps) = (out_of_order last p.0 ≡ false) × Ordered (some p.0) ps

pub sort_pairs-Ordered :
    (last : Option (List ℕ)) (pairs : List (List ℕ × List ℕ))
    → Ordered last pairs
    → sort_pairs pairs ≡ pairs
unfolding sort_pairs insert_pair
sort_pairs-Ordered last [] h = refl
sort_pairs-Ordered last (p ∷ []) h = refl
sort_pairs-Ordered last (p ∷ q ∷ qs) h =
    rw (sort_pairs-Ordered (some p.0) (q ∷ qs) h.1) (rw h.1.0 refl)

-- The bytes of an encoded text, and none for a text of 2 ^ 64 bytes or more.
abbrev pub bytes_of : Result (List ℕ) → List ℕ
bytes_of (ok raw) = raw
bytes_of (err e) = []

-- A value that Python can hold and that lists its maps in the order of the encoded keys: texts
-- are UTF-8, and a map has each key once.
unfoldable mutual
  pub WellFormed : (List ℕ → Bool) → Value → Type 0
  WellFormed is_utf8 (text raw) = is_utf8 raw ≡ true
  WellFormed is_utf8 (array xs) = WellFormedItems is_utf8 xs
  WellFormed is_utf8 (dict fs) = WellFormedFields is_utf8 [] none fs
  WellFormed is_utf8 _ = Unit

  pub WellFormedItems : (List ℕ → Bool) → Items → Type 0
  WellFormedItems is_utf8 no_items = Unit
  WellFormedItems is_utf8 (item v xs) = WellFormed is_utf8 v × WellFormedItems is_utf8 xs

  pub WellFormedFields : (List ℕ → Bool) → List (List ℕ) → Option (List ℕ) → Fields → Type 0
  WellFormedFields is_utf8 before last no_fields = Unit
  WellFormedFields is_utf8 before last (field k v fs) =
      (is_utf8 k ≡ true)
      × (any (bytes_eq k) before ≡ false)
      × (out_of_order last (bytes_of (encode_text k)) ≡ false)
      × WellFormed is_utf8 v
      × WellFormedFields is_utf8 (k ∷ before) (some (bytes_of (encode_text k))) fs

pub encode_fields-Ordered :
    (is_utf8 : List ℕ → Bool) (before : List (List ℕ)) (last : Option (List ℕ)) (fs : Fields)
    (pairs : List (List ℕ × List ℕ))
    → WellFormedFields is_utf8 before last fs
    → encode_fields fs ≡ ok pairs
    → Ordered last pairs
unfolding encode_fields WellFormedFields
encode_fields-Ordered is_utf8 before last no_fields pairs w e =
    subst (Ordered last) (Result-ok-inj e) tt
encode_fields-Ordered is_utf8 before last (field k v fs) pairs w e =
    let (u, fresh, ordered, wv, wfs) = w in
    let (key, ek, e1) = >>=-eq-ok (encode_text k) _ e in
    let (value, ev, e2) = >>=-eq-ok (encode v) _ e1 in
    let (more, em, e3) = >>=-eq-ok (encode_fields fs) _ e2 in
    subst (Ordered last) (Result-ok-inj e3) (
      subst (λ r. out_of_order last (bytes_of r) ≡ false) ek ordered,
      subst (λ r. Ordered (some (bytes_of r)) more) ek
          (encode_fields-Ordered is_utf8 (k ∷ before) (some (bytes_of (encode_text k))) fs more wfs
            em),
    )

append_pos : (h body raw : List ℕ) → 0 < length h → h ++ body ≡ raw → 0 < length raw
append_pos h body raw pos_h e = omega (arith, length-append h body, ap length e)

pub encode_text_pos : (k raw : List ℕ) → encode_text k ≡ ok raw → 0 < length raw
unfolding encode_text
encode_text_pos k raw e =
    let (h, eh, e1) = >>=-eq-ok (head 3 (length k)) _ e in
    append_pos h k raw (head_pos 3 (length k) h eh) (Result-ok-inj e1)

pub encode_pos : (v : Value) (raw : List ℕ) → encode v ≡ ok raw → 0 < length raw
unfolding encode
encode_pos null raw e = omega (arith, ap length (Result-ok-inj e))
encode_pos (bool false) raw e = omega (arith, ap length (Result-ok-inj e))
encode_pos (bool true) raw e = omega (arith, ap length (Result-ok-inj e))
encode_pos (int (pos n)) raw e = head_pos 0 n raw e
encode_pos (int (negsuc n)) raw e = head_pos 1 n raw e
encode_pos (bytes b) raw e =
    let (h, eh, e1) = >>=-eq-ok (head 2 (length b)) _ e in
    append_pos h b raw (head_pos 2 (length b) h eh) (Result-ok-inj e1)
encode_pos (text k) raw e = encode_text_pos k raw e
encode_pos (array xs) raw e =
    let (parts, ep, e1) = >>=-eq-ok (encode_items xs) _ e in
    let (h, eh, e2) = >>=-eq-ok (head 4 (length parts)) _ e1 in
    append_pos h _ raw (head_pos 4 (length parts) h eh) (Result-ok-inj e2)
encode_pos (dict fs) raw e =
    let (pairs, ep, e1) = >>=-eq-ok (encode_fields fs) _ e in
    let (h, eh, e2) = >>=-eq-ok (head 5 (length pairs)) _ e1 in
    append_pos h _ raw (head_pos 5 (length pairs) h eh) (Result-ok-inj e2)

-- The key that the loop over a map cuts out of the input.
pub take-key : (key rest : List ℕ) → take (length (key ++ rest) - length rest) (key ++ rest) ≡ key
take-key key rest = take-append _ key rest (omega (arith, length-append key rest))
