-- ===== src/Core/Hashes/Framing.antt =====
-- The length framing of oprow/core/hashes.py.
use native.Mathlib.Nat.{mod-eq_of_lt}
use mathlib.Core.List.{append_assoc}
use watermarks_po_c.Common.{
  ℕ, ◌^◌, ◌<◌, ◌≡◌, ◌≢◌, refl, sym, ap, ap₂, ◌∙◌, inl, inr, List, [], ◌∷◌, ◌++◌, length, append_inj,
  true, false, leb, Bool-cases, ok, >>=-eq-ok, Result-ok-inj, arith, All, lt→not-leb,
}
use watermarks_po_c.Core.Hashes.Integers.{length-to_bytes_be, to_bytes_be-inj}
use watermarks_po_c.Core.Hashes.{
  to_bytes_be, u64be, frame_field, frame_fields, frame_magic, frame_parts,
}

not-leb→lt : (n : ℕ) → leb (2 ^ 64) n ≡ false → n < 2 ^ 64
not-leb→lt n h = ground arith

u64be_value : (n : ℕ) → leb (2 ^ 64) n ≡ false → u64be n ≡ ok (to_bytes_be n 8)
unfolding u64be
u64be_value n small = rw small refl

u64be-ok : (n : ℕ) (raw : List ℕ) → u64be n ≡ ok raw → (n < 2 ^ 64) × (to_bytes_be n 8 ≡ raw)
unfolding u64be
u64be-ok n raw e = elim (Bool-cases (leb (2 ^ 64) n)) [
  | inl big ↦ absurd (refused big e)
  | inr small ↦ (omega (arith, not-leb→lt n small), accepted small e)
]
  where
    refused : leb (2 ^ 64) n ≡ true → u64be n ≡ ok raw → ⊥
    refused big e = ground arith

    accepted : leb (2 ^ 64) n ≡ false → u64be n ≡ ok raw → to_bytes_be n 8 ≡ raw
    accepted small e = Result-ok-inj (sym (u64be_value n small) ∙ e)

-- Two framed fields at the front of one sequence of bytes.
frame_field-inj :
    (a b fa fb x y : List ℕ)
    → frame_field a ≡ ok fa
    → frame_field b ≡ ok fb
    → fa ++ x ≡ fb ++ y
    → (a ≡ b) × (x ≡ y)
unfolding frame_field
frame_field-inj a b fa fb x y p q e =
    let (na, ea, ra) = >>=-eq-ok (u64be (length a)) _ p in
    let (nb, eb, rb) = >>=-eq-ok (u64be (length b)) _ q in
    let (small_a, bytes_a) = u64be-ok (length a) na ea in
    let (small_b, bytes_b) = u64be-ok (length b) nb eb in
    let (counts, rest) =
      append_inj na nb (a ++ x) (b ++ y)
        (ap length (sym bytes_a)
          ∙ (length-to_bytes_be (length a) 8
              ∙ (sym (length-to_bytes_be (length b) 8) ∙ ap length bytes_b)))
        (sym (append_assoc na a x)
          ∙ (ap (λ f. f ++ x) (Result-ok-inj ra)
              ∙ (e ∙ (ap (λ f. f ++ y) (sym (Result-ok-inj rb)) ∙ append_assoc nb b y)))) in
    append_inj a b x y
      (sym (mod-eq_of_lt small_a)
        ∙ (to_bytes_be-inj 8 (length a) (length b) (bytes_a ∙ (counts ∙ sym bytes_b))
            ∙ mod-eq_of_lt small_b))
      rest

frame_field-nonempty : (a fa x : List ℕ) → frame_field a ≡ ok fa → fa ++ x ≢ []
unfolding frame_field
frame_field-nonempty a fa x p e =
    let (na, ea, ra) = >>=-eq-ok (u64be (length a)) _ p in
    absurd (
      long_lem na a x
        (ap length (sym (u64be-ok (length a) na ea).1) ∙ length-to_bytes_be (length a) 8)
        (ap (λ f. f ++ x) (Result-ok-inj ra) ∙ e))
  where
    long_lem : (na a x : List ℕ) → length na ≡ 8 → (na ++ a) ++ x ≡ [] → ⊥
    long_lem [] a x h e = omega arith
    long_lem (n ∷ na) a x h e = cc

frame_fields-inj :
    (ps qs : List (List ℕ)) (fp fq : List ℕ)
    → frame_fields ps ≡ ok fp
    → frame_fields qs ≡ ok fq
    → fp ≡ fq
    → ps ≡ qs
unfolding frame_fields
frame_fields-inj [] [] fp fq p q e = refl
frame_fields-inj [] (b ∷ qs) fp fq p q e =
    let (fb, eb, restb) = >>=-eq-ok (frame_field b) _ q in
    let (ys, eys, okq) = >>=-eq-ok (frame_fields qs) _ restb in
    absurd (frame_field-nonempty b fb ys eb (Result-ok-inj okq ∙ (sym e ∙ sym (Result-ok-inj p))))
frame_fields-inj (a ∷ ps) [] fp fq p q e =
    let (fa, ea, resta) = >>=-eq-ok (frame_field a) _ p in
    let (xs, exs, okp) = >>=-eq-ok (frame_fields ps) _ resta in
    absurd (frame_field-nonempty a fa xs ea (Result-ok-inj okp ∙ (e ∙ sym (Result-ok-inj q))))
frame_fields-inj (a ∷ ps) (b ∷ qs) fp fq p q e =
    let (fa, ea, resta) = >>=-eq-ok (frame_field a) _ p in
    let (xs, exs, okp) = >>=-eq-ok (frame_fields ps) _ resta in
    let (fb, eb, restb) = >>=-eq-ok (frame_field b) _ q in
    let (ys, eys, okq) = >>=-eq-ok (frame_fields qs) _ restb in
    let (heads, tails) =
      frame_field-inj a b fa fb xs ys ea eb (Result-ok-inj okp ∙ (e ∙ sym (Result-ok-inj okq))) in
    ap₂ ◌∷◌ heads (frame_fields-inj ps qs xs ys exs eys tails)

-- The framing is injective: when two domains with their fields give the same preimage, the
-- domains are equal and so are the fields, their number included.
pub frame_parts-inj :
    (domain other : List ℕ) (parts others : List (List ℕ)) (preimage : List ℕ)
    → frame_parts domain parts ≡ ok preimage
    → frame_parts other others ≡ ok preimage
    → (domain ≡ other) × (parts ≡ others)
unfolding frame_parts
frame_parts-inj domain other parts others preimage p q =
    let (fd, ed, restd) = >>=-eq-ok (frame_field domain) _ p in
    let (xs, exs, okp) = >>=-eq-ok (frame_fields parts) _ restd in
    let (fo, eo, resto) = >>=-eq-ok (frame_field other) _ q in
    let (ys, eys, okq) = >>=-eq-ok (frame_fields others) _ resto in
    let (magic, rest) =
      append_inj frame_magic frame_magic (fd ++ xs) (fo ++ ys) refl
        (Result-ok-inj okp ∙ sym (Result-ok-inj okq)) in
    let (domains, fields) = frame_field-inj domain other fd fo xs ys ed eo rest in
    (domains, frame_fields-inj parts others xs ys exs eys fields)

-- A part whose length fits in 64 bits.
abbrev pub Short : List ℕ → Type 0
Short part = length part < 2 ^ 64

frame_field-Short : (a : List ℕ) → Short a → frame_field a ≡ ok (to_bytes_be (length a) 8 ++ a)
unfolding frame_field
frame_field-Short a h = rw (u64be_value (length a) (lt→not-leb (2 ^ 64) (length a) h)) refl

frame_fields-Short :
    (parts : List (List ℕ)) → All Short parts → (raw : List ℕ) × (frame_fields parts ≡ ok raw)
unfolding frame_fields
frame_fields-Short [] p = ([], refl)
frame_fields-Short (a ∷ parts) (pa, p) =
    let (rest, e) = frame_fields-Short parts p in
    ((to_bytes_be (length a) 8 ++ a) ++ rest, rw (frame_field-Short a pa) (rw e refl))

pub frame_parts-Short :
    (domain : List ℕ) (parts : List (List ℕ))
    → Short domain
    → All Short parts
    → (raw : List ℕ) × (frame_parts domain parts ≡ ok raw)
unfolding frame_parts
frame_parts-Short domain parts d p =
    let (rest, e) = frame_fields-Short parts p in
    (
      frame_magic ++ ((to_bytes_be (length domain) 8 ++ domain) ++ rest),
      rw (frame_field-Short domain d) (rw e refl),
    )
