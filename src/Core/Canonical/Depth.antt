-- ===== src/Core/Canonical/Depth.antt =====
-- The recursion depth that the decoder of oprow/core/canonical.py needs.
use watermarks_po_c.Common.{
  ℕ, zero, suc, ◌/◌, ◌-◌, ◌%◌, ◌<◌, ◌≤◌, ◌≡◌, ◌≢◌, refl, subst, sym, ◌==◌, Option, none, some, List,
  [], ◌∷◌, Bool, true, false, not, length, take, any, bytes_eq, if◌then◌else◌, raise_if,
  canonicalization_error, String, recursion_error, Result, ok, err, ◌>>=◌, arith,
}
use watermarks_po_c.Core.Canonical.{
  Value, Decoder, null, bool, int, bytes, text, array, dict, text_key, decode_argument, decode_info,
  decode_head, decode_items, out_of_order, decode_fields, decode_bytes, decode_text, decode_simple,
  decode_major, decode_at, canonical_cbor_loads,
}
use watermarks_po_c.Core.Canonical.Strict.{IsBytes}
use watermarks_po_c.Core.Canonical.Remaining.{Shrinks, decode_head-length, decode_at-Shrinks}
use watermarks_po_c.Core.Canonical.Accepts.{canonical_cbor_loads-require_canonical}

-- A result other than the end of the stack.
abbrev NotDeep {ℓ} : {A : Type ℓ} → Result A → Type ℓ
NotDeep r = (m : String) → r ≢ err (recursion_error m)

>>=-NotDeep {ℓ κ} :
    {A : Type ℓ} {B : Type κ} (m : Result A) (next : A → Result B)
    → NotDeep m
    → ((a : A) → m ≡ ok a → NotDeep (next a))
    → NotDeep (m >>= next)
>>=-NotDeep (ok a) next p q = q a refl
>>=-NotDeep (err error) next p q = λ m e. p m cc

raise_if-NotDeep : (b : Bool) (msg : String) → NotDeep (raise_if b (canonicalization_error msg))
raise_if-NotDeep b msg m e = ground arith

text_key-NotDeep : (v : Value) → NotDeep (text_key v)
text_key-NotDeep (text raw) m e = cc
text_key-NotDeep null m e = cc
text_key-NotDeep (bool b) m e = cc
text_key-NotDeep (int n) m e = cc
text_key-NotDeep (bytes b) m e = cc
text_key-NotDeep (array xs) m e = cc
text_key-NotDeep (dict fs) m e = cc

decode_argument-NotDeep :
    (width least : ℕ) (msg : String) (major : ℕ) (rest : List ℕ)
    → NotDeep (decode_argument width least msg major rest)
unfolding decode_argument
decode_argument-NotDeep width least msg major rest m e = ground arith

decode_info-NotDeep : (info major : ℕ) (rest : List ℕ) → NotDeep (decode_info info major rest)
unfolding decode_info decode_argument
decode_info-NotDeep info major rest m e = ground arith

decode_head-NotDeep : (input : List ℕ) → NotDeep (decode_head input)
unfolding decode_head
decode_head-NotDeep [] m e = cc
decode_head-NotDeep (first ∷ rest) m e = decode_info-NotDeep (first % 32) (first / 32) rest m e

-- The decoder does not reach the end of the stack on inputs of at most `n` bytes.
abbrev Serves : Decoder → ℕ → Type 0
Serves decode n = (input : List ℕ) → length input ≤ n → NotDeep (decode input)

module _ (decode : Decoder) (shrinks : Shrinks decode) where
  module _ (bound : ℕ) (serves : Serves decode bound) where
    decode_items-NotDeep :
        (n : ℕ) (input : List ℕ) → length input ≤ bound → NotDeep (decode_items decode n input)
    unfolding decode_items
    decode_items-NotDeep zero input h = λ m e. cc
    decode_items-NotDeep (suc n) input h = >>=-NotDeep (decode input) _ (serves input h) λ r er.
        >>=-NotDeep (decode_items decode n r.1) _
          (decode_items-NotDeep n r.1 (omega (arith, shrinks input r er))) (λ more em m e. cc)

    decode_fields-NotDeep :
        (n : ℕ) (before : List (List ℕ)) (last : Option (List ℕ)) (input : List ℕ)
        → length input ≤ bound
        → NotDeep (decode_fields decode n before last input)
    unfolding decode_fields
    decode_fields-NotDeep zero before last input h = λ m e. cc
    decode_fields-NotDeep (suc n) before last input h =
        >>=-NotDeep (decode input) _ (serves input h) λ r er.
          >>=-NotDeep (text_key r.0) _ (text_key-NotDeep r.0) λ k ek.
            >>=-NotDeep (raise_if (any (bytes_eq k) before) _) _ (raise_if-NotDeep _ _) λ done ed.
              >>=-NotDeep (raise_if (out_of_order last (take (length input - length r.1) input)) _)
                _ (raise_if-NotDeep _ _)
                λ done2 ed2.
                  >>=-NotDeep (decode r.1) _ (serves r.1 (omega (arith, shrinks input r er)))
                    λ v ev.
                      >>=-NotDeep
                        (decode_fields decode n (k ∷ before)
                          (some (take (length input - length r.1) input)) v.1)
                        _
                        (decode_fields-NotDeep n (k ∷ before)
                          (some (take (length input - length r.1) input)) v.1
                          (omega (arith, shrinks input r er, shrinks r.1 v ev)))
                        (λ more em m e. cc)

module _ (is_utf8 : List ℕ → Bool) where
  decode_simple-NotDeep : (arg : ℕ) (rest : List ℕ) → NotDeep (decode_simple is_utf8 arg rest)
  unfolding decode_simple
  decode_simple-NotDeep arg rest m e = ground arith

  decode_text-NotDeep : (arg : ℕ) (rest : List ℕ) → NotDeep (decode_text is_utf8 arg rest)
  unfolding decode_text
  decode_text-NotDeep arg rest m e = ground arith

  decode_bytes-NotDeep : (arg : ℕ) (rest : List ℕ) → NotDeep (decode_bytes is_utf8 arg rest)
  unfolding decode_bytes
  decode_bytes-NotDeep arg rest m e = ground arith

  if-NotDeep {ℓ} :
      {A : Type ℓ} (b : Bool) {r s : Result A}
      → NotDeep r
      → NotDeep s
      → NotDeep (if b then r else s)
  if-NotDeep true p q = p
  if-NotDeep false p q = q

  decode_major-NotDeep :
      (decode : Decoder) (shrinks : Shrinks decode) (bound : ℕ) (serves : Serves decode bound)
      (major arg : ℕ) (rest : List ℕ)
      → length rest ≤ bound
      → NotDeep (decode_major is_utf8 decode major arg rest)
  unfolding decode_major
  decode_major-NotDeep decode shrinks bound serves major arg rest h =
      if-NotDeep (major == 0) (λ m e. cc)
        (if-NotDeep (major == 1) (λ m e. cc)
          (if-NotDeep (major == 2) (decode_bytes-NotDeep arg rest) (
            if-NotDeep (major == 3) (decode_text-NotDeep arg rest) (
              if-NotDeep (major == 4)
                (>>=-NotDeep (decode_items decode arg rest) _
                  (decode_items-NotDeep decode shrinks bound serves arg rest h) (λ r er m e. cc))
                (if-NotDeep (major == 5)
                  (>>=-NotDeep (decode_fields decode arg [] none rest) _
                    (decode_fields-NotDeep decode shrinks bound serves arg [] none rest h)
                    (λ r er m e. cc))
                  (if-NotDeep (major == 7) (decode_simple-NotDeep arg rest) (λ m e. cc)))))))

  decode_at-NotDeep :
      (depth : ℕ) (input : List ℕ) → length input < depth → NotDeep (decode_at is_utf8 depth input)
  unfolding decode_at
  decode_at-NotDeep zero input h = absurd (omega arith)
  decode_at-NotDeep (suc depth) input h =
      >>=-NotDeep (decode_head input) _ (decode_head-NotDeep input) λ hd eh.
        decode_major-NotDeep (decode_at is_utf8 depth) (decode_at-Shrinks is_utf8 depth)
          (length hd.2)
          (λ short small.
            decode_at-NotDeep depth short (omega (arith, decode_head-length input hd eh)))
          hd.0 hd.1 hd.2 (omega arith)

  loads-NotDeep :
      (depth encode_depth : ℕ) (input : List ℕ)
      → length input < depth
      → NotDeep (canonical_cbor_loads is_utf8 false depth encode_depth input)
  unfolding canonical_cbor_loads
  loads-NotDeep depth encode_depth input h =
      >>=-NotDeep (decode_at is_utf8 depth input) _ (decode_at-NotDeep depth input h) λ r er.
        >>=-NotDeep (raise_if (not (length r.1 == 0)) _) _ (raise_if-NotDeep _ _) λ done ed m e. cc

  -- The decoder ends with a value or with an error about the input, and never at the end of the stack,
  -- when the stack has room for more nested calls of the decoder than the input has bytes and, where the
  -- canonical form is asked for, for at least as many nested calls of the encoder.
  pub canonical_cbor_loads-depth :
      (require_canonical : Bool) (depth encode_depth : ℕ) (input : List ℕ) (message : String)
      → IsBytes input
      → length input < depth
      → (require_canonical ≡ true → length input ≤ encode_depth)
      → canonical_cbor_loads is_utf8 require_canonical depth encode_depth input
        ≢ err (recursion_error message)
  canonical_cbor_loads-depth false depth encode_depth input message small h room =
      loads-NotDeep depth encode_depth input h message
  canonical_cbor_loads-depth true depth encode_depth input message small h room =
      subst (λ r. r ≢ err (recursion_error message))
        (sym (
          canonical_cbor_loads-require_canonical is_utf8 depth encode_depth input small
            (room refl)))
        (loads-NotDeep depth encode_depth input h message)
