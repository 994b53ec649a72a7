-- ===== src/Core/Canonical/Remaining.antt =====
-- How much of the input the decoder of oprow/core/canonical.py leaves.
use watermarks_po_c.Common.{
  ℕ, zero, suc, ◌/◌, ◌-◌, ◌%◌, ◌<◌, ◌≤◌, ◌≡◌, subst, ◌==◌, Option, none, some, List, [], ◌∷◌, Bool,
  true, false, length, take, any, bytes_eq, if◌then◌else◌, length-drop, raise_if,
  canonicalization_error, Result, ok, ◌>>=◌, >>=-eq-ok, Result-ok-inj, arith,
}
use watermarks_po_c.Core.Canonical.{
  Value, Items, Fields, Decoder, array, dict, text_key, decode_argument, decode_info, decode_head,
  decode_items, out_of_order, decode_fields, decode_bytes, decode_text, decode_simple, decode_major,
  decode_at,
}

decode_info-length :
    (info major : ℕ) (rest : List ℕ) (r : ℕ × ℕ × List ℕ)
    → decode_info info major rest ≡ ok r
    → length r.2 ≤ length rest
unfolding decode_info decode_argument
decode_info-length info major rest r e =
    ground (arith, length-drop 1 rest, length-drop 2 rest, length-drop 4 rest, length-drop 8 rest)

pub decode_head-length :
    (input : List ℕ) (r : ℕ × ℕ × List ℕ) → decode_head input ≡ ok r → length r.2 < length input
unfolding decode_head
decode_head-length [] r e = cc
decode_head-length (first ∷ rest) r e =
    omega (arith, decode_info-length (first % 32) (first / 32) rest r e)

-- What is left is no longer than the input.
abbrev pub Shrinks : Decoder → Type 0
Shrinks decode =
    (input : List ℕ) (r : Value × List ℕ) → decode input ≡ ok r → length r.1 ≤ length input

module _ (decode : Decoder) (shrinks : Shrinks decode) where
  decode_items-length :
      (n : ℕ) (input : List ℕ) (r : Items × List ℕ)
      → decode_items decode n input ≡ ok r
      → length r.1 ≤ length input
  unfolding decode_items
  decode_items-length zero input r e =
      subst (λ t. length t.1 ≤ length input) (Result-ok-inj e) (omega arith)
  decode_items-length (suc n) input r e =
      let ((v, after), ev, e1) = >>=-eq-ok (decode input) _ e in
      let ((more, end), em, e2) = >>=-eq-ok (decode_items decode n after) _ e1 in
      subst (λ t. length t.1 ≤ length input) (Result-ok-inj e2)
        (omega (arith, shrinks input (v, after) ev, decode_items-length n after (more, end) em))

  decode_fields-length :
      (n : ℕ) (before : List (List ℕ)) (last : Option (List ℕ)) (input : List ℕ)
      (r : Fields × List ℕ)
      → decode_fields decode n before last input ≡ ok r
      → length r.1 ≤ length input
  unfolding decode_fields
  decode_fields-length zero before last input r e =
      subst (λ t. length t.1 ≤ length input) (Result-ok-inj e) (omega arith)
  decode_fields-length (suc n) before last input r e =
      let ((key, after_key), ek, e1) = >>=-eq-ok (decode input) _ e in
      let key_encoding = take (length input - length after_key) input in
      let (k, is_text, e2) = >>=-eq-ok (text_key key) _ e1 in
      let (done, fresh, e3) =
        >>=-eq-ok
          (raise_if (any (bytes_eq k) before) (canonicalization_error "duplicate CBOR map key")) _
          e2 in
      let (done2, ordered, e4) =
        >>=-eq-ok
          (raise_if (out_of_order last key_encoding)
            (canonicalization_error "non-canonical CBOR: map keys are not sorted by encoded bytes"))
          _ e3 in
      let ((v, after), ev, e5) = >>=-eq-ok (decode after_key) _ e4 in
      let ((more, end), em, e6) =
        >>=-eq-ok (decode_fields decode n (k ∷ before) (some key_encoding) after) _ e5 in
      subst (λ t. length t.1 ≤ length input) (Result-ok-inj e6)
        (omega (
          arith,
          shrinks input (key, after_key) ek,
          shrinks after_key (v, after) ev,
          decode_fields-length n (k ∷ before) (some key_encoding) after (more, end) em,
        ))

module _ (is_utf8 : List ℕ → Bool) where
  -- A result that leaves at most `n` bytes.
  abbrev Leaves : ℕ → Result (Value × List ℕ) → Type 0
  Leaves n result = (r : Value × List ℕ) → result ≡ ok r → length r.1 ≤ n

  if-Leaves :
      (n : ℕ) (b : Bool) {r s : Result (Value × List ℕ)}
      → Leaves n r
      → Leaves n s
      → Leaves n (if b then r else s)
  if-Leaves n true p q = p
  if-Leaves n false p q = q

  ok-Leaves : (n : ℕ) (v : Value) (rest : List ℕ) → length rest ≤ n → Leaves n (ok (v, rest))
  ok-Leaves n v rest h r e = subst (λ t. length t.1 ≤ n) (Result-ok-inj e) h

  decode_bytes-Leaves :
      (arg : ℕ) (rest : List ℕ) → Leaves (length rest) (decode_bytes is_utf8 arg rest)
  unfolding decode_bytes
  decode_bytes-Leaves arg rest r e = ground (arith, length-drop arg rest)

  decode_text-Leaves :
      (arg : ℕ) (rest : List ℕ) → Leaves (length rest) (decode_text is_utf8 arg rest)
  unfolding decode_text
  decode_text-Leaves arg rest r e = ground (arith, length-drop arg rest)

  decode_simple-Leaves :
      (arg : ℕ) (rest : List ℕ) → Leaves (length rest) (decode_simple is_utf8 arg rest)
  unfolding decode_simple
  decode_simple-Leaves arg rest r e = ground arith

  decode_major-Leaves :
      (decode : Decoder) (shrinks : Shrinks decode) (major arg : ℕ) (rest : List ℕ)
      → Leaves (length rest) (decode_major is_utf8 decode major arg rest)
  unfolding decode_major
  decode_major-Leaves decode shrinks major arg rest =
      if-Leaves _ (major == 0) (ok-Leaves _ _ rest (omega arith)) (
        if-Leaves _ (major == 1) (ok-Leaves _ _ rest (omega arith)) (
          if-Leaves _ (major == 2) (decode_bytes-Leaves arg rest) (
            if-Leaves _ (major == 3) (decode_text-Leaves arg rest) (
              if-Leaves _ (major == 4) array_case (
                if-Leaves _ (major == 5) dict_case
                  (if-Leaves _ (major == 7) (decode_simple-Leaves arg rest) (λ r e. cc)))))))
    where
      array_case : Leaves (length rest) (decode_items decode arg rest >>= λ p. ok (array p.0, p.1))
      array_case r e =
          let (p, ep, e1) = >>=-eq-ok (decode_items decode arg rest) _ e in
          ok-Leaves _ _ p.1 (decode_items-length decode shrinks arg rest p ep) r e1

      dict_case :
          Leaves (length rest) (decode_fields decode arg [] none rest >>= λ p. ok (dict p.0, p.1))
      dict_case r e =
          let (p, ep, e1) = >>=-eq-ok (decode_fields decode arg [] none rest) _ e in
          ok-Leaves _ _ p.1 (decode_fields-length decode shrinks arg [] none rest p ep) r e1

  pub decode_at-Shrinks : (depth : ℕ) → Shrinks (decode_at is_utf8 depth)
  unfolding decode_at
  decode_at-Shrinks zero input r e = cc
  decode_at-Shrinks (suc depth) input r e =
      let ((major, arg, rest), eh, e1) = >>=-eq-ok (decode_head input) _ e in
      omega (
        arith,
        decode_head-length input (major, arg, rest) eh,
        decode_major-Leaves (decode_at is_utf8 depth) (decode_at-Shrinks depth) major arg rest r e1,
      )
