-- ===== src/Core/Canonical/Stack.antt =====
-- The stack that the encoder of oprow/core/canonical.py needs.
use watermarks_po_c.Common.{
  ℕ, zero, suc, ◌≤◌, ◌<◌, ◌≡◌, refl, subst, sym, ap, ◌∙◌, Option, none, List, [], ◌∷◌, ◌++◌, Bool,
  true, false, length, length-append, ok, >>=-eq-ok, Result-ok-inj, arith, pos, negsuc,
}
use watermarks_po_c.Core.Canonical.{
  Value, Items, Fields, null, bool, int, bytes, text, array, dict, no_items, item, no_fields, field,
  head, encode_text, join, join_pairs, encode, encode_items, encode_fields, encode_key_at,
  encode_at, encode_items_at, encode_fields_at, to_canonical_primitive, primitive_items,
  primitive_fields, canonical_cbor_dumps,
}
use watermarks_po_c.Core.Canonical.Head.{head_pos}
use watermarks_po_c.Core.Canonical.WellFormed.{
  sort_pairs-Ordered, WellFormed, WellFormedItems, WellFormedFields, encode_fields-Ordered,
  encode_pos, encode_text_pos,
}

pub append-le : (xs ys : List ℕ) (n : ℕ) → length (xs ++ ys) ≤ n → (length xs ≤ n) × (length ys ≤ n)
append-le xs ys n h = (omega (arith, length-append xs ys), omega (arith, length-append xs ys))

-- A body after a head.
pub body-le :
    (h body raw : List ℕ) (depth : ℕ)
    → 0 < length h
    → h ++ body ≡ raw
    → length raw ≤ suc depth
    → length body ≤ depth
body-le h body raw depth pos_h e small = omega (arith, length-append h body, ap length e)

encode_key_at_lem :
    (depth : ℕ) (k key : List ℕ)
    → encode_text k ≡ ok key
    → length key ≤ depth
    → encode_key_at depth k ≡ ok key
unfolding encode_key_at
encode_key_at_lem zero k key e h = absurd (omega (arith, encode_text_pos k key e))
encode_key_at_lem (suc depth) k key e h = e

module _ (is_utf8 : List ℕ → Bool) where
  mutual
    unfolding WellFormed WellFormedItems WellFormedFields encode encode_items encode_fields
        encode_at encode_items_at encode_fields_at to_canonical_primitive primitive_items
        primitive_fields

    -- A depth of the number of bytes is enough, for the copy and for the encoder.
    pub encode_at_lem :
        (v : Value) (depth : ℕ) (raw : List ℕ)
        → WellFormed is_utf8 v
        → encode v ≡ ok raw
        → length raw ≤ depth
        → (to_canonical_primitive depth v ≡ ok v) × (encode_at depth v ≡ ok raw)
    encode_at_lem v zero raw w e h = absurd (omega (arith, encode_pos v raw e))
    encode_at_lem null (suc depth) raw w e h = (refl, e)
    encode_at_lem (bool false) (suc depth) raw w e h = (refl, e)
    encode_at_lem (bool true) (suc depth) raw w e h = (refl, e)
    encode_at_lem (int (pos n)) (suc depth) raw w e h = (refl, e)
    encode_at_lem (int (negsuc n)) (suc depth) raw w e h = (refl, e)
    encode_at_lem (bytes b) (suc depth) raw w e h = (refl, e)
    encode_at_lem (text k) (suc depth) raw w e h = (refl, e)
    encode_at_lem (array xs) (suc depth) raw w e h =
        let (parts, ep, e1) = >>=-eq-ok (encode_items xs) _ e in
        let (hd, eh, e2) = >>=-eq-ok (head 4 (length parts)) _ e1 in
        let (copied, written) = encode_items_at_lem xs depth parts w ep (
          body-le hd (join parts) raw depth (head_pos 4 (length parts) hd eh) (Result-ok-inj e2)
            h) in
        (rw copied refl, rw written (rw eh e2))
    encode_at_lem (dict fs) (suc depth) raw w e h =
        let (pairs, ep, e1) = >>=-eq-ok (encode_fields fs) _ e in
        let (hd, eh, e2) = >>=-eq-ok (head 5 (length pairs)) _ e1 in
        let sorted =
          sort_pairs-Ordered none pairs (encode_fields-Ordered is_utf8 [] none fs pairs w ep) in
        let body = ap (λ ps. hd ++ join_pairs ps) (sym sorted) ∙ Result-ok-inj e2 in
        let (copied, written) =
          encode_fields_at_lem fs depth [] none pairs w ep
            (body-le hd (join_pairs pairs) raw depth (head_pos 5 (length pairs) hd eh) body h) in
        (rw copied refl, rw written (rw eh e2))

    encode_items_at_lem :
        (xs : Items) (depth : ℕ) (parts : List (List ℕ))
        → WellFormedItems is_utf8 xs
        → encode_items xs ≡ ok parts
        → length (join parts) ≤ depth
        → (primitive_items depth xs ≡ ok xs) × (encode_items_at depth xs ≡ ok parts)
    encode_items_at_lem no_items depth parts w e h = (refl, e)
    encode_items_at_lem (item v xs) depth parts (wv, ws) e h =
        let (part, ev, e1) = >>=-eq-ok (encode v) _ e in
        let (more, em, e2) = >>=-eq-ok (encode_items xs) _ e1 in
        let small : length (part ++ join more) ≤ depth =
          subst (λ ps. length (join ps) ≤ depth) (sym (Result-ok-inj e2)) h in
        let (small_part, small_more) = append-le part (join more) depth small in
        let (copied, written) = encode_at_lem v depth part wv ev small_part in
        let (copied_more, written_more) = encode_items_at_lem xs depth more ws em small_more in
        (rw copied (rw copied_more refl), rw written (rw written_more e2))

    encode_fields_at_lem :
        (fs : Fields) (depth : ℕ) (before : List (List ℕ)) (last : Option (List ℕ))
        (pairs : List (List ℕ × List ℕ))
        → WellFormedFields is_utf8 before last fs
        → encode_fields fs ≡ ok pairs
        → length (join_pairs pairs) ≤ depth
        → (primitive_fields depth fs ≡ ok fs) × (encode_fields_at depth fs ≡ ok pairs)
    encode_fields_at_lem no_fields depth before last pairs w e h = (refl, e)
    encode_fields_at_lem (field k v fs) depth before last pairs (u, fresh, ordered, wv, wfs) e h =
        let (key, ek, e1) = >>=-eq-ok (encode_text k) _ e in
        let (value, ev, e2) = >>=-eq-ok (encode v) _ e1 in
        let (more, em, e3) = >>=-eq-ok (encode_fields fs) _ e2 in
        let small : length ((key ++ value) ++ join_pairs more) ≤ depth =
          subst (λ ps. length (join_pairs ps) ≤ depth) (sym (Result-ok-inj e3)) h in
        let (small_pair, small_more) = append-le (key ++ value) (join_pairs more) depth small in
        let (small_key, small_value) = append-le key value depth small_pair in
        let (copied, written) = encode_at_lem v depth value wv ev small_value in
        let (copied_more, written_more) =
          encode_fields_at_lem fs depth (k ∷ before) _ more wfs em small_more in
        (
          rw copied (rw copied_more refl),
          rw (encode_key_at_lem depth k key ek small_key) (rw written (rw written_more e3)),
        )

  pub canonical_cbor_dumps_lem :
      (v : Value) (depth : ℕ) (raw : List ℕ)
      → WellFormed is_utf8 v
      → encode v ≡ ok raw
      → length raw ≤ depth
      → canonical_cbor_dumps depth v ≡ ok raw
  unfolding canonical_cbor_dumps
  canonical_cbor_dumps_lem v depth raw w e h =
      let (copied, written) = encode_at_lem v depth raw w e h in rw copied written

encode_key_at-encode_text :
    (depth : ℕ) (k key : List ℕ) → encode_key_at depth k ≡ ok key → encode_text k ≡ ok key
unfolding encode_key_at
encode_key_at-encode_text zero k key e = cc
encode_key_at-encode_text (suc depth) k key e = e

mutual
  unfolding encode encode_items encode_fields encode_at encode_items_at encode_fields_at

  -- What the encoder returns on the stack are the bytes of `encode`.
  pub encode_at-encode :
      (v : Value) (depth : ℕ) (raw : List ℕ) → encode_at depth v ≡ ok raw → encode v ≡ ok raw
  encode_at-encode v zero raw e = cc
  encode_at-encode null (suc depth) raw e = e
  encode_at-encode (bool false) (suc depth) raw e = e
  encode_at-encode (bool true) (suc depth) raw e = e
  encode_at-encode (int (pos n)) (suc depth) raw e = e
  encode_at-encode (int (negsuc n)) (suc depth) raw e = e
  encode_at-encode (bytes b) (suc depth) raw e = e
  encode_at-encode (text k) (suc depth) raw e = e
  encode_at-encode (array xs) (suc depth) raw e =
      let (parts, ep, e1) = >>=-eq-ok (encode_items_at depth xs) _ e in
      let (hd, eh, e2) = >>=-eq-ok (head 4 (length parts)) _ e1 in
      rw (encode_items_at-encode_items xs depth parts ep) (rw eh e2)
  encode_at-encode (dict fs) (suc depth) raw e =
      let (pairs, ep, e1) = >>=-eq-ok (encode_fields_at depth fs) _ e in
      let (hd, eh, e2) = >>=-eq-ok (head 5 (length pairs)) _ e1 in
      rw (encode_fields_at-encode_fields fs depth pairs ep) (rw eh e2)

  encode_items_at-encode_items :
      (xs : Items) (depth : ℕ) (parts : List (List ℕ))
      → encode_items_at depth xs ≡ ok parts
      → encode_items xs ≡ ok parts
  encode_items_at-encode_items no_items depth parts e = e
  encode_items_at-encode_items (item v xs) depth parts e =
      let (part, ev, e1) = >>=-eq-ok (encode_at depth v) _ e in
      let (more, em, e2) = >>=-eq-ok (encode_items_at depth xs) _ e1 in
      rw (encode_at-encode v depth part ev) (rw (encode_items_at-encode_items xs depth more em) e2)

  encode_fields_at-encode_fields :
      (fs : Fields) (depth : ℕ) (pairs : List (List ℕ × List ℕ))
      → encode_fields_at depth fs ≡ ok pairs
      → encode_fields fs ≡ ok pairs
  encode_fields_at-encode_fields no_fields depth pairs e = e
  encode_fields_at-encode_fields (field k v fs) depth pairs e =
      let (key, ek, e1) = >>=-eq-ok (encode_key_at depth k) _ e in
      let (value, ev, e2) = >>=-eq-ok (encode_at depth v) _ e1 in
      let (more, em, e3) = >>=-eq-ok (encode_fields_at depth fs) _ e2 in
      rw (encode_key_at-encode_text depth k key ek) (
        rw (encode_at-encode v depth value ev)
          (rw (encode_fields_at-encode_fields fs depth more em) e3))
