-- ===== src/Core/Canonical/Accepts.antt =====
-- What the decoder of oprow/core/canonical.py accepts.
use mathlib.Core.List.{append_assoc, append-nil}
use watermarks_po_c.Common.{
  ℕ, zero, suc, ◌≤◌, ◌≡◌, refl, subst, ◌⊎◌, sym, ap, ◌∙◌, ◌==◌, inl, inr, none, List, [], ◌∷◌, ◌++◌,
  Bool, true, false, not, Bool-cases, length, take, drop, bytes_eq, bytes_eq_refl, if◌then◌else◌,
  length-take, length-append, raise_if, canonicalization_error, take-append-drop, Result-cases, ok,
  >>=-eq-ok, Result-ok-inj, arith, Error,
}
use watermarks_po_c.Core.Canonical.{
  Value, null, bool, bytes, text, head, encode_text, join, join_pairs, encode, Decoder, decode_head,
  decode_items, decode_fields, decode_bytes, decode_text, decode_simple, decode_major, decode_at,
  canonical_cbor_dumps, canonical_cbor_loads, recoded,
}
use watermarks_po_c.Core.Canonical.Head.{head-decode_head}
use watermarks_po_c.Core.Canonical.Stack.{canonical_cbor_dumps_lem}
use watermarks_po_c.Core.Canonical.WellFormed.{sort_pairs-Ordered, WellFormed}
use watermarks_po_c.Core.Canonical.Strict.{
  IsBytes, IsBytes-rest, Reads, StrictDecoder, decode_items_strict, decode_fields_strict,
}

recoded-value :
    (r : Bool) (encode_depth : ℕ) (value v : Value) (input : List ℕ)
    → (if r then recoded encode_depth value input else ok value) ≡ ok v
    → value ≡ v
unfolding recoded
recoded-value false encode_depth value v input e = Result-ok-inj e
recoded-value true encode_depth value v input e =
    let (encoded, ee, e1) = >>=-eq-ok (canonical_cbor_dumps encode_depth value) _ e in
    let (done, ed, e2) =
      >>=-eq-ok
        (raise_if (not (bytes_eq encoded input))
          (canonicalization_error "CBOR input is not in OProW canonical form"))
        _ e1 in
    Result-ok-inj e2

at_end-nil :
    (rest : List ℕ) (e : Error) {u : Unit {0}}
    → raise_if (not (length rest == 0)) e ≡ ok u
    → rest ≡ []
at_end-nil [] e h = refl
at_end-nil (b ∷ rest) e h = absurd (ground arith)

module _ (is_utf8 : List ℕ → Bool) where
  -- A decoder of the members of arrays and maps.
  module _ (decode : Decoder) (strict : StrictDecoder is_utf8 decode) where
    decode_bytes_strict :
        (arg : ℕ) (rest : List ℕ) (r : Value × List ℕ)
        → decode_bytes is_utf8 arg rest ≡ ok r
        → (arg ≤ length rest) × ((bytes (take arg rest), drop arg rest) ≡ r)
    unfolding decode_bytes
    decode_bytes_strict arg rest r e = ground arith

    decode_text_strict :
        (arg : ℕ) (rest : List ℕ) (r : Value × List ℕ)
        → decode_text is_utf8 arg rest ≡ ok r
        → (arg ≤ length rest)
          × (is_utf8 (take arg rest) ≡ true)
          × ((text (take arg rest), drop arg rest) ≡ r)
    unfolding decode_text
    decode_text_strict arg rest r e = ground arith

    slice_lem :
        (arg : ℕ) (raw rest input : List ℕ)
        → raw ++ rest ≡ input
        → (raw ++ take arg rest) ++ drop arg rest ≡ input
    slice_lem arg raw rest input cut =
        append_assoc raw (take arg rest) (drop arg rest)
        ∙ (ap (λ t. raw ++ t) (take-append-drop arg rest) ∙ cut)

    sized_head :
        (major arg : ℕ) (raw rest : List ℕ)
        → head major arg ≡ ok raw
        → arg ≤ length rest
        → head major (length (take arg rest)) ≡ ok raw
    sized_head major arg raw rest eh enough =
        ap (head major) (omega (arith, length-take arg rest)) ∙ eh

    bytes_strict :
        (input raw rest : List ℕ) (arg : ℕ) (r : Value × List ℕ)
        → head 2 arg ≡ ok raw
        → raw ++ rest ≡ input
        → decode_bytes is_utf8 arg rest ≡ ok r
        → Reads is_utf8 input r
    unfolding encode WellFormed
    bytes_strict input raw rest arg r eh cut e =
        let (enough, same) = decode_bytes_strict arg rest r e in
        subst (Reads is_utf8 input) same (
          raw ++ take arg rest,
          tt,
          rw (sized_head 2 arg raw rest eh enough) refl,
          slice_lem arg raw rest input cut,
        )

    text_strict :
        (input raw rest : List ℕ) (arg : ℕ) (r : Value × List ℕ)
        → head 3 arg ≡ ok raw
        → raw ++ rest ≡ input
        → decode_text is_utf8 arg rest ≡ ok r
        → Reads is_utf8 input r
    unfolding encode encode_text WellFormed
    text_strict input raw rest arg r eh cut e =
        let (enough, u, same) = decode_text_strict arg rest r e in
        subst (Reads is_utf8 input) same (
          raw ++ take arg rest,
          u,
          rw (sized_head 3 arg raw rest eh enough) refl,
          slice_lem arg raw rest input cut,
        )

    simple_cases :
        (arg : ℕ) (rest : List ℕ) (r : Value × List ℕ)
        → decode_simple is_utf8 arg rest ≡ ok r
        → ((arg ≡ 20) × ((bool false, rest) ≡ r))
          ⊎ (((arg ≡ 21) × ((bool true, rest) ≡ r)) ⊎ ((arg ≡ 22) × ((null, rest) ≡ r)))
    unfolding decode_simple
    simple_cases arg rest r e = ground arith

    simple_strict :
        (input raw rest : List ℕ) (arg : ℕ) (r : Value × List ℕ)
        → head 7 arg ≡ ok raw
        → raw ++ rest ≡ input
        → decode_simple is_utf8 arg rest ≡ ok r
        → Reads is_utf8 input r
    unfolding head encode WellFormed
    simple_strict input raw rest arg r eh cut e = elim (simple_cases arg rest r e) [
      | inl (is, same) ↦ subst (Reads is_utf8 input) same (raw, tt, sym (ap (head 7) is) ∙ eh, cut)
      | inr (inl (is, same)) ↦
          subst (Reads is_utf8 input) same (raw, tt, sym (ap (head 7) is) ∙ eh, cut)
      | inr (inr (is, same)) ↦
          subst (Reads is_utf8 input) same (raw, tt, sym (ap (head 7) is) ∙ eh, cut)
    ]

    array_strict :
        (input raw rest : List ℕ) (arg : ℕ) (r : Value × List ℕ)
        → IsBytes rest
        → head 4 arg ≡ ok raw
        → raw ++ rest ≡ input
        → decode_major is_utf8 decode 4 arg rest ≡ ok r
        → Reads is_utf8 input r
    unfolding decode_major encode WellFormed
    array_strict input raw rest arg r small eh cut e =
        let ((xs, after), exs, e1) = >>=-eq-ok (decode_items decode arg rest) _ e in
        let (parts, w, ep, size, cut_parts) =
          decode_items_strict is_utf8 decode strict arg rest (xs, after) small exs in
        subst (Reads is_utf8 input) (Result-ok-inj e1) (
          raw ++ join parts,
          w,
          rw ep (rw (ap (head 4) size ∙ eh) refl),
          append_assoc raw (join parts) after ∙ (ap (λ t. raw ++ t) cut_parts ∙ cut),
        )

    dict_strict :
        (input raw rest : List ℕ) (arg : ℕ) (r : Value × List ℕ)
        → IsBytes rest
        → head 5 arg ≡ ok raw
        → raw ++ rest ≡ input
        → decode_major is_utf8 decode 5 arg rest ≡ ok r
        → Reads is_utf8 input r
    unfolding decode_major encode WellFormed
    dict_strict input raw rest arg r small eh cut e =
        let ((fs, after), efs, e1) = >>=-eq-ok (decode_fields decode arg [] none rest) _ e in
        let (pairs, w, ep, size, order, cut_pairs) =
          decode_fields_strict is_utf8 decode strict arg [] none rest (fs, after) small efs in
        subst (Reads is_utf8 input) (Result-ok-inj e1) (
          raw ++ join_pairs pairs,
          w,
          rw ep (rw (ap (head 5) size ∙ eh) (rw (sort_pairs-Ordered none pairs order) refl)),
          append_assoc raw (join_pairs pairs) after ∙ (ap (λ t. raw ++ t) cut_pairs ∙ cut),
        )

    decode_major_strict :
        (major arg : ℕ) (input raw rest : List ℕ) (r : Value × List ℕ)
        → IsBytes rest
        → head major arg ≡ ok raw
        → raw ++ rest ≡ input
        → decode_major is_utf8 decode major arg rest ≡ ok r
        → Reads is_utf8 input r
    unfolding decode_major WellFormed encode
    decode_major_strict zero arg input raw rest r small eh cut e =
        subst (Reads is_utf8 input) (Result-ok-inj e) (raw, tt, eh, cut)
    decode_major_strict (suc zero) arg input raw rest r small eh cut e =
        subst (Reads is_utf8 input) (Result-ok-inj e) (raw, tt, eh, cut)
    decode_major_strict (suc (suc zero)) arg input raw rest r small eh cut e =
        bytes_strict input raw rest arg r eh cut e
    decode_major_strict (suc (suc (suc zero))) arg input raw rest r small eh cut e =
        text_strict input raw rest arg r eh cut e
    decode_major_strict (suc (suc (suc (suc zero)))) arg input raw rest r small eh cut e =
        array_strict input raw rest arg r small eh cut e
    decode_major_strict (suc (suc (suc (suc (suc zero))))) arg input raw rest r small eh cut e =
        dict_strict input raw rest arg r small eh cut e
    decode_major_strict (suc (suc (suc (suc (suc (suc (suc zero))))))) arg input raw rest r small eh
          cut e =
        simple_strict input raw rest arg r eh cut e
    decode_major_strict (suc (suc (suc (suc (suc (suc zero)))))) arg input raw rest r small eh cut
          e =
        absurd (ground arith)
    decode_major_strict (suc (suc (suc (suc (suc (suc (suc (suc m)))))))) arg input raw rest r small
          eh cut e =
        absurd (ground arith)

  pub decode_at_strict : (depth : ℕ) → StrictDecoder is_utf8 (decode_at is_utf8 depth)
  unfolding decode_at
  decode_at_strict zero input r small e = absurd (ground arith)
  decode_at_strict (suc depth) input r small e =
      let ((major, arg, rest), eh, e1) = >>=-eq-ok (decode_head input) _ e in
      let (raw, written, cut, bound) = head-decode_head input rest major arg small eh in
      decode_major_strict (decode_at is_utf8 depth) (decode_at_strict depth) major arg input raw
        rest r (IsBytes-rest raw rest input small cut) written cut e1

  -- Whatever the decoder accepts, with or without asking for the canonical form, is the encoding
  -- of its result, and the result is well formed.
  pub canonical_cbor_loads-canonical :
      (require_canonical : Bool) (depth encode_depth : ℕ) (input : List ℕ) (v : Value)
      → IsBytes input
      → canonical_cbor_loads is_utf8 require_canonical depth encode_depth input ≡ ok v
      → WellFormed is_utf8 v × (encode v ≡ ok input)
  unfolding canonical_cbor_loads recoded
  canonical_cbor_loads-canonical require_canonical depth encode_depth input v small e =
      let ((value, rest), ev, e1) = >>=-eq-ok (decode_at is_utf8 depth input) _ e in
      let (done, at_end, e2) =
        >>=-eq-ok
          (raise_if (not (length rest == 0))
            (canonicalization_error "trailing bytes after CBOR object"))
          _ e1 in
      let (raw, w, written, cut) = decode_at_strict depth input (value, rest) small ev in
      let same = recoded-value require_canonical encode_depth value v input e2 in
      let whole = ap (λ t. raw ++ t) (at_end-nil rest _ at_end) in
      subst (λ u. WellFormed is_utf8 u × (encode u ≡ ok input)) same
        (w, written ∙ ap ok (sym (append-nil raw) ∙ (sym whole ∙ cut)))

  -- Asking for the canonical form changes no result on bytes, for whatever room the decoder has on the
  -- stack, when the encoder has room for as many nested calls as there are bytes: every input that the
  -- decoder accepts is canonical already.
  pub canonical_cbor_loads-require_canonical :
      (depth encode_depth : ℕ) (input : List ℕ)
      → IsBytes input
      → length input ≤ encode_depth
      → canonical_cbor_loads is_utf8 true depth encode_depth input
        ≡ canonical_cbor_loads is_utf8 false depth encode_depth input
  unfolding canonical_cbor_loads recoded
  canonical_cbor_loads-require_canonical depth encode_depth input small h =
      elim (Result-cases (decode_at is_utf8 depth input)) [
        | inl (e, failed) ↦ rw failed refl
        | inr ((value, rest), read) ↦ elim (Bool-cases (length rest == 0)) [
          | inl at_end ↦
              let (raw, w, written, cut) = decode_at_strict depth input (value, rest) small read in
              let dumped =
                canonical_cbor_dumps_lem is_utf8 value encode_depth raw w written
                  (omega (arith, h, length-append raw rest, ap length cut)) in
              rw read (rw at_end (rw dumped (rw (whole_lem raw rest input at_end cut) refl)))
          | inr more ↦ rw read (rw more refl)
        ]
      ]
    where
      whole_lem :
          (raw rest input : List ℕ)
          → (length rest == 0) ≡ true
          → raw ++ rest ≡ input
          → bytes_eq raw input ≡ true
      whole_lem raw [] input at_end cut =
          ap (bytes_eq raw) (sym cut ∙ append-nil raw) ∙ bytes_eq_refl raw
      whole_lem raw (b ∷ rest) input at_end cut = absurd (ground arith)
