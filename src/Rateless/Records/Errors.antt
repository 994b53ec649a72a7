-- ===== src/Rateless/Records/Errors.antt =====
-- One wrong bit in a tile record of oprow/rateless/records.py.
use watermarks_po_c.Common.{
  ℕ, zero, suc, ◌*◌, ◌^◌, ◌<◌, ◌≡◌, ◌≢◌, refl, sym, ap, ap₂, ◌∙◌, inl, inr, arith, true, List, [],
  ◌∷◌, ◌++◌, length, take, drop, length-take, length-drop, take-append-drop, take_of_length-le, All,
  All-take, All-drop, All-append_inv, Result-ok-inj, Result-cases, Error, err, subst, ok,
}
use watermarks_po_c.Watermark.Bits.{shifted_bits}
use watermarks_po_c.Watermark.Bits.RoundTrip.{
  IsBit, IsByte, value_of, value_of-lt, value_of-shifted_bits, shifted_bits-value_of,
}
use watermarks_po_c.Watermark.Bits.Bytes.{bytes_of}
use watermarks_po_c.Watermark.Crc.{crc16_ccitt_false}
use watermarks_po_c.Watermark.Crc.Detect.{crc16_detects_byte}
use watermarks_po_c.Rateless.Records.{
  RatelessTileRecord, rateless_tile_preamble_bits, to_bits, decode_bits,
}
use watermarks_po_c.Rateless.Records.RoundTrip.{
  IsTileRecord, protected, protected-IsBit, length-protected, length-encoded, checksum, checksum-lt,
  encoded, to_bits_lem,
}
use watermarks_po_c.Rateless.Records.Strict.{decode_bits-accepts}
use watermarks_po_c.Rateless.Records.Difference.{
  OneDifference, OneDifference-irrefl, OneDifference-length, OneDifference-append,
  OneDifference-parts,
}

value_of_inj :
    (xs ys : List ℕ)
    → All IsBit xs
    → All IsBit ys
    → length xs ≡ length ys
    → value_of xs ≡ value_of ys
    → xs ≡ ys
value_of_inj xs ys h k size e =
    sym (shifted_bits-value_of xs h) ∙ (ap₂ shifted_bits e size ∙ shifted_bits-value_of ys k)

-- One wrong bit is one wrong byte.
bytes_of-OneDifference :
    (n : ℕ) (xs ys : List ℕ)
    → All IsBit xs
    → All IsBit ys
    → length xs ≡ n * 8
    → length ys ≡ n * 8
    → OneDifference xs ys
    → OneDifference (bytes_of n xs) (bytes_of n ys)
unfolding OneDifference
bytes_of-OneDifference zero [] ys h k e f d = absurd d
bytes_of-OneDifference zero (x ∷ xs) ys h k e f d = absurd (omega (arith, e))
bytes_of-OneDifference (suc n) xs ys h k e f d =
    let group : length (take 8 xs) ≡ length (take 8 ys) =
      omega (arith, length-take 8 xs, length-take 8 ys, e, f) in
    elim (OneDifference-append (take 8 xs) (take 8 ys) (drop 8 xs) (drop 8 ys) group (
      subst (λ zs. OneDifference zs (take 8 ys ++ drop 8 ys)) (sym (take-append-drop 8 xs))
        (subst (OneDifference xs) (sym (take-append-drop 8 ys)) d))) [
          | inl (here, rest) ↦ inl (
            λ same. OneDifference-irrefl (take 8 ys) (
                subst (λ zs. OneDifference zs (take 8 ys))
                  (value_of_inj (take 8 xs) (take 8 ys) (All-take IsBit 8 xs h)
                    (All-take IsBit 8 ys k) group same)
                  here),
            ap (bytes_of n) rest,
          )
          | inr (same, later) ↦ inr (
            ap value_of same,
            bytes_of-OneDifference n (drop 8 xs) (drop 8 ys) (All-drop IsBit 8 xs h)
                (All-drop IsBit 8 ys k) (omega (arith, length-drop 8 xs, e))
                (omega (arith, length-drop 8 ys, f)) later,
          )
        ]

crc_detects :
    (xs ys : List ℕ)
    → All IsByte xs
    → All IsByte ys
    → OneDifference xs ys
    → crc16_ccitt_false xs ≢ crc16_ccitt_false ys
crc_detects xs ys h k d e =
    let (before, a, b, after, ne, ex, ey) = OneDifference-parts xs ys d in
    let (before_bytes, rest) = All-append_inv IsByte before (a ∷ after) (subst (All IsByte) ex h) in
    let (same, other) = All-append_inv IsByte before (b ∷ after) (subst (All IsByte) ey k) in
    crc16_detects_byte before a b after before_bytes rest.0 other.0 rest.1 ne
      (ap crc16_ccitt_false (sym ex) ∙ (e ∙ ap crc16_ccitt_false ey))

bytes_of-IsByte :
    (n : ℕ) (xs : List ℕ) → All IsBit xs → length xs ≡ n * 8 → All IsByte (bytes_of n xs)
bytes_of-IsByte zero xs h e = tt
bytes_of-IsByte (suc n) xs h e =
    let eight : length (take 8 xs) ≡ 8 = omega (arith, length-take 8 xs, e) in
    (
      subst (λ m. value_of (take 8 xs) < 2 ^ m) eight
          (value_of-lt (take 8 xs) (All-take IsBit 8 xs h)),
      bytes_of-IsByte n (drop 8 xs) (All-drop IsBit 8 xs h) (omega (arith, length-drop 8 xs, e)),
    )

-- Two records are never written with one difference.
encoded-OneDifference :
    (r s : RatelessTileRecord) (valid_r : IsTileRecord r) (valid_s : IsTileRecord s)
    → ¬ OneDifference (encoded r valid_r) (encoded s valid_s)
encoded-OneDifference r s vr vs d =
    elim (OneDifference-append rateless_tile_preamble_bits rateless_tile_preamble_bits
      (protected r vr ++ shifted_bits (checksum r vr) 16)
      (protected s vs ++ shifted_bits (checksum s vs) 16) refl d) [
        | inl (here, rest) ↦ OneDifference-irrefl rateless_tile_preamble_bits here
        | inr (same, later) ↦
            elim (OneDifference-append (protected r vr) (protected s vs)
              (shifted_bits (checksum r vr) 16) (shifted_bits (checksum s vs) 16)
              (length-protected r vr ∙ sym (length-protected s vs)) later) [
                | inl (here, rest) ↦
                    crc_detects (bytes_of 3 (protected r vr)) (bytes_of 3 (protected s vs))
                      (bytes_of-IsByte 3 (protected r vr) (protected-IsBit r vr)
                        (length-protected r vr))
                      (bytes_of-IsByte 3 (protected s vs) (protected-IsBit s vs)
                        (length-protected s vs))
                      (bytes_of-OneDifference 3 (protected r vr) (protected s vs)
                        (protected-IsBit r vr) (protected-IsBit s vs) (length-protected r vr)
                        (length-protected s vs) here)
                      (checksums-eq rest)
                | inr (same', last) ↦ OneDifference-irrefl (shifted_bits (checksum s vs) 16) (
                    subst (λ n. OneDifference (shifted_bits n 16) (shifted_bits (checksum s vs) 16))
                      (ap (λ p. crc16_ccitt_false (bytes_of 3 p)) same') last)
              ]
      ]
  where
    checksums-eq :
        shifted_bits (checksum r vr) 16 ≡ shifted_bits (checksum s vs) 16
        → checksum r vr ≡ checksum s vs
    checksums-eq e = omega (
      arith,
      value_of-shifted_bits (checksum r vr) 16,
      value_of-shifted_bits (checksum s vs) 16,
      ap value_of e,
      checksum-lt r vr,
      checksum-lt s vs,
    )

-- For a record whose fields are in range: when exactly one of its 56 bits is wrong, wherever it is, the
-- decoder that checks the CRC raises.
pub decode_bits-OneDifference :
    (r : RatelessTileRecord) (bits received : List ℕ)
    → IsTileRecord r
    → to_bits r ≡ ok bits
    → All IsBit received
    → OneDifference bits received
    → (e : Error) × (decode_bits received true ≡ err e)
decode_bits-OneDifference r bits received valid written h d =
    elim (Result-cases (decode_bits received true)) [
      | inl raised ↦ raised
      | inr (s, accepted) ↦ absurd (refuted s accepted)
    ]
  where
    same : encoded r valid ≡ bits
    same = Result-ok-inj (sym (to_bits_lem r valid) ∙ written)

    size : length received ≡ 56
    size =
        sym (OneDifference-length bits received d) ∙ (ap length (sym same) ∙ length-encoded r valid)

    refuted : (s : RatelessTileRecord) → ¬ (decode_bits received true ≡ ok s)
    refuted s accepted =
        let (valid_s, rewritten) = decode_bits-accepts received s h accepted in
        let again : encoded s valid_s ≡ received =
          Result-ok-inj (sym (to_bits_lem s valid_s) ∙ rewritten)
          ∙ take_of_length-le 56 received (omega (arith, size)) in
        encoded-OneDifference r s valid valid_s (
          subst (λ zs. OneDifference zs (encoded s valid_s)) (sym same)
            (subst (OneDifference bits) (sym again) d))
