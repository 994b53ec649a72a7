-- ===== src/Core/Canonical/RoundTrip.antt =====
-- Decoding the encodings of oprow/core/canonical.py.
use mathlib.Core.List.{append_assoc, append-nil}
use watermarks_po_c.Common.{
  ℕ, zero, suc, ◌≤◌, ◌≡◌, refl, subst, sym, ap, ◌∙◌, Option, none, some, List, [], ◌∷◌, ◌++◌, Bool,
  true, false, length, bytes_eq_refl, if◌then◌else◌, length-append, take-append, drop-append,
  le→not-ltb, ok, >>=-eq-ok, Result-ok-inj, arith, pos, negsuc,
}
use watermarks_po_c.Core.Canonical.{
  Value, Items, Fields, null, bool, int, bytes, text, array, dict, no_items, item, no_fields, field,
  head, encode_text, join, join_pairs, encode, encode_items, encode_fields, decode_info,
  decode_head, decode_items, out_of_order, decode_fields, decode_bytes, decode_text, decode_simple,
  decode_major, decode_at, canonical_cbor_dumps, canonical_cbor_loads, recoded,
}
use watermarks_po_c.Core.Canonical.Head.{decode_head-head, head_pos}
use watermarks_po_c.Core.Canonical.Stack.{canonical_cbor_dumps_lem, append-le, body-le}
use watermarks_po_c.Core.Canonical.WellFormed.{
  take-key, sort_pairs-Ordered, bytes_of, WellFormed, WellFormedItems, WellFormedFields,
  encode_fields-Ordered, encode_pos, encode_text_pos,
}

module _ (is_utf8 : List ℕ → Bool) where
  decode_at-head :
      (depth major n : ℕ) (h body : List ℕ)
      → head major n ≡ ok h
      → decode_at is_utf8 (suc depth) (h ++ body)
        ≡ decode_major is_utf8 (decode_at is_utf8 depth) major n body
  unfolding decode_at
  decode_at-head depth major n h body e = rw (decode_head-head major n h body e) refl

  decode_at-encode_text :
      (depth : ℕ) (k raw rest : List ℕ)
      → is_utf8 k ≡ true
      → encode_text k ≡ ok raw
      → decode_at is_utf8 (suc depth) (raw ++ rest) ≡ ok (text k, rest)
  unfolding encode_text decode_major decode_text
  decode_at-encode_text depth k raw rest u e =
      let (h, eh, e1) = >>=-eq-ok (head 3 (length k)) _ e in
      ap (λ r. decode_at is_utf8 (suc depth) (r ++ rest)) (sym (Result-ok-inj e1))
      ∙ (ap (decode_at is_utf8 (suc depth)) (append_assoc h k rest)
          ∙ (decode_at-head depth 3 (length k) h (k ++ rest) eh
              ∙ rw
                  (le→not-ltb (length k) (length (k ++ rest)) (omega (arith, length-append k rest)))
                  (rw (take-append (length k) k rest refl)
                    (rw u (rw (drop-append (length k) k rest refl) refl)))))

  decode_bytes_front :
      (raw rest : List ℕ) → decode_bytes is_utf8 (length raw) (raw ++ rest) ≡ ok (bytes raw, rest)
  unfolding decode_bytes
  decode_bytes_front raw rest =
      rw (le→not-ltb (length raw) (length (raw ++ rest)) (omega (arith, length-append raw rest))) (
        rw (take-append (length raw) raw rest refl)
          (rw (drop-append (length raw) raw rest refl) refl))

  decode_null :
      (depth : ℕ) (rest : List ℕ) → decode_at is_utf8 (suc depth) (0xF6 ∷ rest) ≡ ok (null, rest)
  unfolding decode_at decode_head decode_info decode_major decode_simple
  decode_null depth rest = refl

  decode_false :
      (depth : ℕ) (rest : List ℕ)
      → decode_at is_utf8 (suc depth) (0xF4 ∷ rest) ≡ ok (bool false, rest)
  unfolding decode_at decode_head decode_info decode_major decode_simple
  decode_false depth rest = refl

  decode_true :
      (depth : ℕ) (rest : List ℕ)
      → decode_at is_utf8 (suc depth) (0xF5 ∷ rest) ≡ ok (bool true, rest)
  unfolding decode_at decode_head decode_info decode_major decode_simple
  decode_true depth rest = refl

  decode_key :
      (depth : ℕ) (k key rest : List ℕ)
      → is_utf8 k ≡ true
      → encode_text k ≡ ok key
      → length key ≤ depth
      → decode_at is_utf8 depth (key ++ rest) ≡ ok (text k, rest)
  decode_key zero k key rest u e h = absurd (omega (arith, encode_text_pos k key e))
  decode_key (suc depth) k key rest u e h = decode_at-encode_text depth k key rest u e

  decode_at-parts :
      (depth major n : ℕ) (h body raw rest : List ℕ)
      → head major n ≡ ok h
      → h ++ body ≡ raw
      → decode_at is_utf8 (suc depth) (raw ++ rest)
        ≡ decode_major is_utf8 (decode_at is_utf8 depth) major n (body ++ rest)
  decode_at-parts depth major n h body raw rest eh e =
      ap (λ r. decode_at is_utf8 (suc depth) (r ++ rest)) (sym e)
      ∙ (ap (decode_at is_utf8 (suc depth)) (append_assoc h body rest)
          ∙ decode_at-head depth major n h (body ++ rest) eh)

  mutual
    unfolding WellFormed decode_major WellFormedItems WellFormedFields encode encode_items
        encode_fields decode_items decode_fields

    decode_value :
        (v : Value) (depth : ℕ) (raw rest : List ℕ)
        → WellFormed is_utf8 v
        → encode v ≡ ok raw
        → length raw ≤ depth
        → decode_at is_utf8 depth (raw ++ rest) ≡ ok (v, rest)
    decode_value v zero raw rest w e h = absurd (omega (arith, encode_pos v raw e))
    decode_value null (suc depth) raw rest w e h =
        subst (λ r. decode_at is_utf8 (suc depth) (r ++ rest) ≡ ok (null, rest)) (Result-ok-inj e)
          (decode_null depth rest)
    decode_value (bool false) (suc depth) raw rest w e h =
        subst (λ r. decode_at is_utf8 (suc depth) (r ++ rest) ≡ ok (bool false, rest))
          (Result-ok-inj e) (decode_false depth rest)
    decode_value (bool true) (suc depth) raw rest w e h =
        subst (λ r. decode_at is_utf8 (suc depth) (r ++ rest) ≡ ok (bool true, rest))
          (Result-ok-inj e) (decode_true depth rest)
    decode_value (int (pos n)) (suc depth) raw rest w e h = decode_at-head depth 0 n raw rest e
    decode_value (int (negsuc n)) (suc depth) raw rest w e h = decode_at-head depth 1 n raw rest e
    decode_value (bytes b) (suc depth) raw rest w e h =
        let (hd, eh, e1) = >>=-eq-ok (head 2 (length b)) _ e in
        decode_at-parts depth 2 (length b) hd b raw rest eh (Result-ok-inj e1)
        ∙ decode_bytes_front b rest
    decode_value (text k) (suc depth) raw rest w e h = decode_at-encode_text depth k raw rest w e
    decode_value (array xs) (suc depth) raw rest w e h =
        let (parts, ep, e1) = >>=-eq-ok (encode_items xs) _ e in
        let (hd, eh, e2) = >>=-eq-ok (head 4 (length parts)) _ e1 in
        decode_at-parts depth 4 (length parts) hd (join parts) raw rest eh (Result-ok-inj e2)
        ∙ rw
            (decode_array xs depth parts rest w ep (
              body-le hd (join parts) raw depth (head_pos 4 (length parts) hd eh) (Result-ok-inj e2)
                h))
            refl
    decode_value (dict fs) (suc depth) raw rest w e h =
        let (pairs, ep, e1) = >>=-eq-ok (encode_fields fs) _ e in
        let (hd, eh, e2) = >>=-eq-ok (head 5 (length pairs)) _ e1 in
        let sorted =
          sort_pairs-Ordered none pairs (encode_fields-Ordered is_utf8 [] none fs pairs w ep) in
        let body = ap (λ ps. hd ++ join_pairs ps) (sym sorted) ∙ Result-ok-inj e2 in
        decode_at-parts depth 5 (length pairs) hd (join_pairs pairs) raw rest eh body
        ∙ rw
            (decode_map fs depth [] none pairs rest w ep
              (body-le hd (join_pairs pairs) raw depth (head_pos 5 (length pairs) hd eh) body h))
            refl

    decode_array :
        (xs : Items) (depth : ℕ) (parts : List (List ℕ)) (rest : List ℕ)
        → WellFormedItems is_utf8 xs
        → encode_items xs ≡ ok parts
        → length (join parts) ≤ depth
        → decode_items (decode_at is_utf8 depth) (length parts) (join parts ++ rest) ≡ ok (xs, rest)
    decode_array no_items depth parts rest w e h =
        subst
          (λ ps.
            decode_items (decode_at is_utf8 depth) (length ps) (join ps ++ rest)
            ≡ ok (no_items, rest))
          (Result-ok-inj e) refl
    decode_array (item v xs) depth parts rest (wv, ws) e h =
        let (part, ev, e1) = >>=-eq-ok (encode v) _ e in
        let (more, em, e2) = >>=-eq-ok (encode_items xs) _ e1 in
        let all_parts : part ∷ more ≡ parts = Result-ok-inj e2 in
        let small : length (part ++ join more) ≤ depth =
          subst (λ ps. length (join ps) ≤ depth) (sym all_parts) h in
        let (small_part, small_more) = append-le part (join more) depth small in
        subst
          (λ ps.
            decode_items (decode_at is_utf8 depth) (length ps) (join ps ++ rest)
            ≡ ok (item v xs, rest))
          all_parts
          (rw (append_assoc part (join more) rest) (
            rw (decode_value v depth part (join more ++ rest) wv ev small_part)
              (rw (decode_array xs depth more rest ws em small_more) refl)))

    decode_map :
        (fs : Fields) (depth : ℕ) (before : List (List ℕ)) (last : Option (List ℕ))
        (pairs : List (List ℕ × List ℕ)) (rest : List ℕ)
        → WellFormedFields is_utf8 before last fs
        → encode_fields fs ≡ ok pairs
        → length (join_pairs pairs) ≤ depth
        → decode_fields
            (decode_at is_utf8 depth)
            (length pairs)
            before
            last
            (join_pairs pairs ++ rest)
          ≡ ok (fs, rest)
    decode_map no_fields depth before last pairs rest w e h =
        subst
          (λ ps.
            decode_fields (decode_at is_utf8 depth) (length ps) before last (join_pairs ps ++ rest)
            ≡ ok (no_fields, rest))
          (Result-ok-inj e) refl
    decode_map (field k v fs) depth before last pairs rest (u, fresh, ordered, wv, wfs) e h =
        let (key, ek, e1) = >>=-eq-ok (encode_text k) _ e in
        let (value, ev, e2) = >>=-eq-ok (encode v) _ e1 in
        let (more, em, e3) = >>=-eq-ok (encode_fields fs) _ e2 in
        let all_pairs : (key, value) ∷ more ≡ pairs = Result-ok-inj e3 in
        let small : length ((key ++ value) ++ join_pairs more) ≤ depth =
          subst (λ ps. length (join_pairs ps) ≤ depth) (sym all_pairs) h in
        let (small_pair, small_more) = append-le (key ++ value) (join_pairs more) depth small in
        let (small_key, small_value) = append-le key value depth small_pair in
        let tail = join_pairs more ++ rest in
        let after_key = value ++ tail in
        subst
          (λ ps.
            decode_fields (decode_at is_utf8 depth) (length ps) before last (join_pairs ps ++ rest)
            ≡ ok (field k v fs, rest))
          all_pairs
          (rw (append_assoc (key ++ value) (join_pairs more) rest ∙ append_assoc key value tail) (
            rw (decode_key depth k key after_key u ek small_key) (
              rw (take-key key after_key) (
                rw fresh (
                  rw (subst (λ r. out_of_order last (bytes_of r) ≡ false) ek ordered) (
                    rw (decode_value v depth value tail wv ev small_value) (
                      rw
                        (decode_map fs depth (k ∷ before) (some key) more rest
                          (subst (λ r. WellFormedFields is_utf8 (k ∷ before) (some (bytes_of r)) fs)
                            ek wfs)
                          em small_more)
                        refl)))))))

  -- For a well-formed value with an encoding, and room on the stack for as many nested calls of the decoder,
  -- and of the encoder, as there are bytes: the encoder writes that encoding, and decoding it gives the
  -- value back, whether or not the canonical form is asked for.
  pub canonical_cbor_loads-encode :
      (require_canonical : Bool) (depth encode_depth : ℕ) (v : Value) (raw : List ℕ)
      → WellFormed is_utf8 v
      → encode v ≡ ok raw
      → length raw ≤ depth
      → length raw ≤ encode_depth
      → (canonical_cbor_dumps encode_depth v ≡ ok raw)
        × (canonical_cbor_loads is_utf8 require_canonical depth encode_depth raw ≡ ok v)
  unfolding canonical_cbor_loads recoded
  canonical_cbor_loads-encode require_canonical depth encode_depth v raw w e h k = (
    written,
    rw (ap (decode_at is_utf8 depth) (sym (append-nil raw)) ∙ decode_value v depth raw [] w e h)
        (finish require_canonical),
  )
    where
      written : canonical_cbor_dumps encode_depth v ≡ ok raw
      written = canonical_cbor_dumps_lem is_utf8 v encode_depth raw w e k

      finish : (r : Bool) → (if r then recoded encode_depth v raw else ok v) ≡ ok v
      finish false = refl
      finish true = rw written (rw (bytes_eq_refl raw) refl)

  -- Two well-formed values with the same encoding are equal.
  pub encode-inj :
      (v w : Value) (raw : List ℕ)
      → WellFormed is_utf8 v
      → WellFormed is_utf8 w
      → encode v ≡ ok raw
      → encode w ≡ ok raw
      → v ≡ w
  encode-inj v w raw p q ev ew = Result-ok-inj (
      sym
        (canonical_cbor_loads-encode false (length raw) (length raw) v raw p ev (omega arith)
          (omega arith)).1
      ∙ (canonical_cbor_loads-encode false (length raw) (length raw) w raw q ew (omega arith)
          (omega arith)).1)
