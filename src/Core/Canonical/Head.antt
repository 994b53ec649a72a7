-- ===== src/Core/Canonical/Head.antt =====
-- The heads of oprow/core/canonical.py: a major type and an argument.
use native.Mathlib.Nat.{div-add-mod}
use watermarks_po_c.Common.{
  ℕ, ◌+◌, ◌*◌, ◌/◌, ◌%◌, ◌^◌, ◌<◌, ◌≤◌, ◌≡◌, refl, sym, ap, ap₂, ◌∙◌, ◌⊎◌, inl, inr, List, [], ◌∷◌,
  ◌++◌, length, take, drop, false, ltb, ◌==◌, Bool-cases, ok, Result-ok-inj, arith, All, le→not-ltb,
  lt→ltb, ==_iff, subst, take-append, take-append-drop, length-append, length-take, All-take,
  drop-append, digit_of_parts, mod_of_parts, ltb→lt, String,
}
use watermarks_po_c.Core.Hashes.{to_bytes_be, from_bytes_be}
use watermarks_po_c.Core.Hashes.Integers.{
  length-to_bytes_be, from_bytes_be-to_bytes_be, to_bytes_be-from_bytes_be, from_bytes_be-lt,
}
use watermarks_po_c.Core.Canonical.{first_byte, head, decode_argument, decode_info, decode_head}

-- The four wide forms: the additional information, the width, and the least argument.
data Wide : ℕ → ℕ → ℕ → Type 0 where
  one : Wide 24 1 24
  two : Wide 25 2 0x100
  four : Wide 26 4 0x10000
  eight : Wide 27 8 0x100000000

head_short : (major n : ℕ) → n < 24 → head major n ≡ ok (first_byte major n ∷ [])
unfolding head
head_short major n small = ground arith

head-Wide :
    {info width least : ℕ}
    → Wide info width least
    → (major n : ℕ) → least ≤ n
    → n < 256 ^ width
    → head major n ≡ ok (first_byte major info ∷ to_bytes_be n width)
unfolding head
head-Wide one major n low high = ground arith
head-Wide two major n low high = ground arith
head-Wide four major n low high = ground arith
head-Wide eight major n low high = ground arith

pub head-lt : (major n : ℕ) (raw : List ℕ) → head major n ≡ ok raw → n < 2 ^ 64
unfolding head
head-lt major n raw e = ground arith

-- The form that an argument gets.
head-cases :
    (n : ℕ)
    → n < 2 ^ 64
    → (n < 24)
      ⊎ ((info : ℕ) × (width : ℕ) × (least : ℕ) × Wide info width least
          × (least ≤ n)
          × (n < 256 ^ width))
head-cases n high = elim (Bool-cases (ltb n 24)) [
  | inl a ↦ inl (ltb→lt n 24 a)
  | inr a ↦ elim (Bool-cases (ltb n 0x100)) [
    | inl b ↦ inr (24, 1, 24, one, ground arith, ltb→lt n 0x100 b)
    | inr b ↦ elim (Bool-cases (ltb n 0x10000)) [
      | inl c ↦ inr (25, 2, 0x100, two, ground arith, ltb→lt n 0x10000 c)
      | inr c ↦ elim (Bool-cases (ltb n 0x100000000)) [
        | inl d ↦ inr (26, 4, 0x10000, four, ground arith, ltb→lt n 0x100000000 d)
        | inr d ↦ inr (27, 8, 0x100000000, eight, ground arith, high)
      ]
    ]
  ]
]

first_byte-parts :
    (major info : ℕ)
    → info < 32
    → (first_byte major info / 32 ≡ major) × (first_byte major info % 32 ≡ info)
first_byte-parts major info h =
    (digit_of_parts major 32 info h, mod_of_parts 32 major info _ (omega arith) h)

-- A first byte is read as its parts.
decode_head-first_byte :
    (major info : ℕ) (rest : List ℕ)
    → info < 32
    → decode_head (first_byte major info ∷ rest) ≡ decode_info info major rest
unfolding decode_head
decode_head-first_byte major info rest h =
    let (q, r) = first_byte-parts major info h in ap₂ (λ i m. decode_info i m rest) r q

decode_argument-to_bytes_be :
    (width least : ℕ) (msg : String) (major n : ℕ) (rest : List ℕ)
    → least ≤ n
    → n < 256 ^ width
    → decode_argument width least msg major (to_bytes_be n width ++ rest) ≡ ok (major, n, rest)
unfolding decode_argument
decode_argument-to_bytes_be width least msg major n rest low high =
    let field = to_bytes_be n width in
    let size = length-to_bytes_be n width in
    rw (le→not-ltb width (length (field ++ rest)) (omega (arith, size, length-append field rest))) (
      rw (take-append width field rest size) (
        rw (from_bytes_be-to_bytes_be n width high)
          (rw (le→not-ltb least n low) (rw (drop-append width field rest size) refl))))

decode_info-Wide :
    {info width least : ℕ}
    → Wide info width least
    → (major : ℕ) (rest : List ℕ)
    → (msg : String) × (decode_info info major rest ≡ decode_argument width least msg major rest)
unfolding decode_info
decode_info-Wide one major rest = (_, refl)
decode_info-Wide two major rest = (_, refl)
decode_info-Wide four major rest = (_, refl)
decode_info-Wide eight major rest = (_, refl)

decode_info_short :
    (info major : ℕ) (rest : List ℕ)
    → info < 24
    → decode_info info major rest ≡ ok (major, info, rest)
unfolding decode_info
decode_info_short info major rest h = rw (lt→ltb info 24 h) refl

Wide-lt : {info width least : ℕ} → Wide info width least → info < 32
Wide-lt one = omega arith
Wide-lt two = omega arith
Wide-lt four = omega arith
Wide-lt eight = omega arith

-- Reading a head that was written, whatever follows it.
pub decode_head-head :
    (major n : ℕ) (raw rest : List ℕ)
    → head major n ≡ ok raw
    → decode_head (raw ++ rest) ≡ ok (major, n, rest)
decode_head-head major n raw rest e = elim (head-cases n (head-lt major n raw e)) [
  | inl small ↦
      ap (λ r. decode_head (r ++ rest)) (Result-ok-inj (sym e ∙ head_short major n small))
      ∙ (decode_head-first_byte major n rest (omega arith) ∙ decode_info_short n major rest small)
  | inr (info, width, least, w, low, high) ↦
      ap (λ r. decode_head (r ++ rest)) (Result-ok-inj (sym e ∙ head-Wide w major n low high))
      ∙ (decode_head-first_byte major info _ (Wide-lt w)
          ∙ ((decode_info-Wide w major _).1
              ∙ decode_argument-to_bytes_be width least _ major n rest low high))
]

first_byte-digits : (first : ℕ) → first_byte (first / 32) (first % 32) ≡ first
first_byte-digits first = omega (arith, div-add-mod first 32)

-- The converse, on bytes.
decode_info-cases :
    (info major : ℕ) (rest : List ℕ) (r : ℕ × ℕ × List ℕ)
    → decode_info info major rest ≡ ok r
    → (info < 24) ⊎ ((width : ℕ) × (least : ℕ) × Wide info width least)
unfolding decode_info
decode_info-cases info major rest r e = elim (Bool-cases (ltb info 24)) [
  | inl a ↦ inl (ltb→lt info 24 a)
  | inr a ↦ elim (Bool-cases (info == 24)) [
    | inl b ↦ inr (1, 24, subst (λ i. Wide i 1 24) (sym ((==_iff _ _).0 b)) one)
    | inr b ↦ elim (Bool-cases (info == 25)) [
      | inl c ↦ inr (2, 0x100, subst (λ i. Wide i 2 0x100) (sym ((==_iff _ _).0 c)) two)
      | inr c ↦ elim (Bool-cases (info == 26)) [
        | inl d ↦ inr (4, 0x10000, subst (λ i. Wide i 4 0x10000) (sym ((==_iff _ _).0 d)) four)
        | inr d ↦ elim (Bool-cases (info == 27)) [
          | inl f ↦
              inr (8, 0x100000000, subst (λ i. Wide i 8 0x100000000) (sym ((==_iff _ _).0 f)) eight)
          | inr f ↦ absurd (refused a b c d f e)
        ]
      ]
    ]
  ]
]
  where
    refused :
        ltb info 24 ≡ false
        → (info == 24) ≡ false
        → (info == 25) ≡ false
        → (info == 26) ≡ false
        → (info == 27) ≡ false
        → decode_info info major rest ≡ ok r
        → ⊥
    refused a b c d f e = ground arith

decode_argument-parts :
    (width least : ℕ) (msg : String) (m major n : ℕ) (rest after : List ℕ)
    → decode_argument width least msg m rest ≡ ok (major, n, after)
    → (width ≤ length rest)
      × (least ≤ from_bytes_be 0 (take width rest))
      × (m ≡ major)
      × (from_bytes_be 0 (take width rest) ≡ n)
      × (drop width rest ≡ after)
unfolding decode_argument
decode_argument-parts width least msg m major n rest after e = ground arith

decode_argument_inv :
    (width least : ℕ) (msg : String) (m major n : ℕ) (rest after : List ℕ)
    → All (λ b. b < 256) rest
    → decode_argument width least msg m rest ≡ ok (major, n, after)
    → (m ≡ major) × (least ≤ n) × (n < 256 ^ width) × (to_bytes_be n width ++ after ≡ rest)
unfolding decode_argument
decode_argument_inv width least msg m major n rest after small e =
    let (enough, low, same_major, same_n, same_after) =
      decode_argument-parts width least msg m major n rest after e in
    let field = take width rest in
    let size : length field ≡ width = omega (arith, length-take width rest) in
    let bytes_small = All-take _ width rest small in
    (
      same_major,
      omega arith,
      subst (λ v. v < 256 ^ width) same_n
          (subst (λ w. from_bytes_be 0 field < 256 ^ w) size
            (below _ (from_bytes_be-lt field 0 bytes_small))),
      subst (λ v. to_bytes_be v width ++ after ≡ rest) same_n
          (subst (λ w. to_bytes_be (from_bytes_be 0 field) w ++ after ≡ rest) size
            (ap₂ ◌++◌ (to_bytes_be-from_bytes_be field bytes_small) (sym same_after)
              ∙ take-append-drop width rest)),
    )
  where
    below : {v : ℕ} (p : ℕ) → v < (0 + 1) * p → v < p
    below p h = omega arith

-- A head that was read is written as the bytes that were read.
pub head-decode_head :
    (input rest : List ℕ) (major n : ℕ)
    → All (λ b. b < 256) input
    → decode_head input ≡ ok (major, n, rest)
    → (raw : List ℕ) × (head major n ≡ ok raw) × (raw ++ rest ≡ input) × (major < 8)
unfolding decode_head
head-decode_head [] rest major n small e = absurd (ground arith)
head-decode_head (first ∷ tail) rest major n (small, smalls) e =
    elim (decode_info-cases (first % 32) (first / 32) tail _ e) [
      | inl short ↦
          let same =
            Result-ok-inj (sym (decode_info_short (first % 32) (first / 32) tail short) ∙ e) in
          let same_major : first / 32 ≡ major = ap (λ (t : ℕ × ℕ × List ℕ). t.0) same in
          let same_n : first % 32 ≡ n = ap (λ (t : ℕ × ℕ × List ℕ). t.1) same in
          (
            first_byte major n ∷ [],
            head_short major n (omega (arith, same_n)),
            ap₂ ◌∷◌ (sym (ap₂ first_byte same_major same_n) ∙ first_byte-digits first)
                (sym (ap (λ (t : ℕ × ℕ × List ℕ). t.2) same)),
            omega (arith, same_major),
          )
      | inr (width, least, w) ↦
          let (msg, wide) = decode_info-Wide w (first / 32) tail in
          let (same_major, low, high, written) =
            decode_argument_inv width least msg (first / 32) major n tail rest smalls
              (sym wide ∙ e) in
          (
            first_byte major (first % 32) ∷ to_bytes_be n width,
            head-Wide w major n low high,
            ap₂ ◌∷◌ (ap (λ m. first_byte m (first % 32)) (sym same_major) ∙ first_byte-digits first)
                written,
            omega (arith, same_major),
          )
    ]

pub head_pos : (major n : ℕ) (raw : List ℕ) → head major n ≡ ok raw → 0 < length raw
unfolding head
head_pos major n raw e = ground arith
