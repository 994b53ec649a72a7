-- ===== src/Core/Canonical/Strict.antt =====
-- The loops over arrays and maps in the decoder of oprow/core/canonical.py, for any decoder of the members.
use mathlib.Core.List.{append_assoc}
use watermarks_po_c.Common.{
  raise_if-ok, ℕ, zero, suc, ◌-◌, ◌<◌, ◌≡◌, refl, subst, sym, ap, ◌∙◌, Option, some, List, [], ◌∷◌,
  ◌++◌, Bool, true, false, length, take, drop, any, bytes_eq, raise_if, canonicalization_error, ok,
  >>=-eq-ok, Result-ok-inj, arith, All,
}
use watermarks_po_c.Core.Canonical.{
  Value, Items, Fields, null, bool, int, bytes, text, array, dict, field, encode_text, join,
  join_pairs, encode, encode_items, encode_fields, Decoder, text_key, decode_items, out_of_order,
  decode_fields,
}
use watermarks_po_c.Core.Canonical.WellFormed.{
  Ordered, take-key, bytes_of, WellFormed, WellFormedItems, WellFormedFields,
}

abbrev pub IsBytes : List ℕ → Type 0
IsBytes = All (λ b. b < 256)

-- Of bytes that end in `rest`, `rest` is bytes.
pub IsBytes-rest : (xs ys zs : List ℕ) → IsBytes zs → xs ++ ys ≡ zs → IsBytes ys
IsBytes-rest [] ys zs h e = subst IsBytes (sym e) h
IsBytes-rest (x ∷ xs) ys [] h e = absurd (omega (arith, ap length e))
IsBytes-rest (x ∷ xs) ys (z ∷ zs) h e = IsBytes-rest xs ys zs h.1 (ap (drop 1) e)

text_key-ok : (v : Value) (k : List ℕ) → text_key v ≡ ok k → v ≡ text k
text_key-ok (text raw) k e = ap text (Result-ok-inj e)
text_key-ok null k e = cc
text_key-ok (bool b) k e = cc
text_key-ok (int n) k e = cc
text_key-ok (bytes b) k e = cc
text_key-ok (array xs) k e = cc
text_key-ok (dict fs) k e = cc

module _ (is_utf8 : List ℕ → Bool) where
  -- A value was read from the front of the input, which is its encoding.
  abbrev pub Reads : List ℕ → Value × List ℕ → Type 0
  Reads input (v, rest) =
      (raw : List ℕ) × WellFormed is_utf8 v × (encode v ≡ ok raw) × (raw ++ rest ≡ input)

  abbrev pub ReadsItems : ℕ → List ℕ → Items × List ℕ → Type 0
  ReadsItems n input (xs, rest) =
      (parts : List (List ℕ)) × WellFormedItems is_utf8 xs
      × (encode_items xs ≡ ok parts)
      × (length parts ≡ n)
      × (join parts ++ rest ≡ input)

  abbrev pub ReadsFields : ℕ → List (List ℕ) → Option (List ℕ) → List ℕ → Fields × List ℕ → Type 0
  ReadsFields n before last input (fs, rest) =
      (pairs : List (List ℕ × List ℕ)) × WellFormedFields is_utf8 before last fs
      × (encode_fields fs ≡ ok pairs)
      × (length pairs ≡ n)
      × Ordered last pairs
      × (join_pairs pairs ++ rest ≡ input)

  -- One pair of a map.
  fields_step :
      (n : ℕ) (before : List (List ℕ)) (last : Option (List ℕ)) (input raw_key after_key k : List ℕ)
      (v : Value) (after end : List ℕ) (more : Fields)
      → is_utf8 k ≡ true
      → encode_text k ≡ ok raw_key
      → raw_key ++ after_key ≡ input
      → any (bytes_eq k) before ≡ false
      → out_of_order last (take (length input - length after_key) input) ≡ false
      → Reads after_key (v, after)
      → ReadsFields n
          (k ∷ before)
          (some (take (length input - length after_key) input))
          after
          (more, end)
      → ReadsFields (suc n) before last input (field k v more, end)
  unfolding encode_fields WellFormedFields
  fields_step n before last input raw_key after_key k v after end more u ek cut_key fresh ordered
        (raw, wv, ev, cut) (pairs, wm, ep, size, order, cut_more) =
      let key_lem : take (length input - length after_key) input ≡ raw_key =
        subst (λ i. take (length i - length after_key) i ≡ raw_key) cut_key
          (take-key raw_key after_key) in
      let in_bytes : bytes_of (encode_text k) ≡ raw_key = ap bytes_of ek in
      (
        (raw_key, raw) ∷ pairs,
        (
          u,
          fresh,
          subst (λ b. out_of_order last b ≡ false) (key_lem ∙ sym in_bytes) ordered,
          wv,
          subst (λ b. WellFormedFields is_utf8 (k ∷ before) (some b) more) (key_lem ∙ sym in_bytes)
              wm,
        ),
        rw ek (rw ev (rw ep refl)),
        ap suc size,
        (
          subst (λ b. out_of_order last b ≡ false) key_lem ordered,
          subst (λ b. Ordered (some b) pairs) key_lem order,
        ),
        append_assoc (raw_key ++ raw) (join_pairs pairs) end
            ∙ (append_assoc raw_key raw (join_pairs pairs ++ end)
                ∙ (ap (λ t. raw_key ++ (raw ++ t)) cut_more
                    ∙ (ap (λ t. raw_key ++ t) cut ∙ cut_key))),
      )

  abbrev pub StrictDecoder : Decoder → Type 0
  StrictDecoder decode =
      (input : List ℕ) (r : Value × List ℕ) → IsBytes input → decode input ≡ ok r → Reads input r

  module _ (decode : Decoder) (strict : StrictDecoder decode) where
    pub decode_items_strict :
        (n : ℕ) (input : List ℕ) (r : Items × List ℕ)
        → IsBytes input
        → decode_items decode n input ≡ ok r
        → ReadsItems n input r
    unfolding decode_items encode_items WellFormedItems
    decode_items_strict zero input r small e =
        subst (ReadsItems 0 input) (Result-ok-inj e) ([], tt, refl, refl, refl)
    decode_items_strict (suc n) input r small e =
        let ((v, after), ev, e1) = >>=-eq-ok (decode input) _ e in
        let ((more, end), em, e2) = >>=-eq-ok (decode_items decode n after) _ e1 in
        let (raw, wv, er, cut) = strict input (v, after) small ev in
        let (parts, wm, ep, size, cut_more) =
          decode_items_strict n after (more, end) (IsBytes-rest raw after input small cut) em in
        subst (ReadsItems (suc n) input) (Result-ok-inj e2) (
          raw ∷ parts,
          (wv, wm),
          rw er (rw ep refl),
          ap suc size,
          append_assoc raw (join parts) end ∙ (ap (λ t. raw ++ t) cut_more ∙ cut),
        )

    pub decode_fields_strict :
        (n : ℕ) (before : List (List ℕ)) (last : Option (List ℕ)) (input : List ℕ)
        (r : Fields × List ℕ)
        → IsBytes input
        → decode_fields decode n before last input ≡ ok r
        → ReadsFields n before last input r
    unfolding decode_fields encode_fields WellFormedFields WellFormed encode
    decode_fields_strict zero before last input r small e =
        subst (ReadsFields 0 before last input) (Result-ok-inj e) ([], tt, refl, refl, tt, refl)
    decode_fields_strict (suc n) before last input r small e =
        let ((key, after_key), ek, e1) = >>=-eq-ok (decode input) _ e in
        let key_encoding = take (length input - length after_key) input in
        let (k, is_text, e2) = >>=-eq-ok (text_key key) _ e1 in
        let (done, fresh, e3) =
          >>=-eq-ok
            (raise_if (any (bytes_eq k) before) (canonicalization_error "duplicate CBOR map key")) _
            e2 in
        let (done2, ordered, e4) =
          >>=-eq-ok
            (raise_if (out_of_order last key_encoding) (
              canonicalization_error
                "non-canonical CBOR: map keys are not sorted by encoded bytes"))
            _ e3 in
        let ((v, after), ev, e5) = >>=-eq-ok (decode after_key) _ e4 in
        let ((more, end), em, e6) =
          >>=-eq-ok (decode_fields decode n (k ∷ before) (some key_encoding) after) _ e5 in
        let (raw_key, wk, erk, cut_key) = strict input (key, after_key) small ek in
        let small_key = IsBytes-rest raw_key after_key input small cut_key in
        let (raw, wv, er, cut) = strict after_key (v, after) small_key ev in
        let same_key = text_key-ok key k is_text in
        let read_more =
          decode_fields_strict n (k ∷ before) (some key_encoding) after (more, end)
            (IsBytes-rest raw after after_key small_key cut) em in
        subst (ReadsFields (suc n) before last input) (Result-ok-inj e6) (
          fields_step n before last input raw_key after_key k v after end more
            (subst (WellFormed is_utf8) same_key wk) (sym (ap encode same_key) ∙ erk) cut_key
            (raise_if-ok _ _ fresh) (raise_if-ok _ _ ordered) (raw, wv, er, cut) read_more)
