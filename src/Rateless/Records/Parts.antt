-- ===== src/Rateless/Records/Parts.antt =====
-- The parts of the 56 bits of a tile record in oprow/rateless/records.py.
use watermarks_po_c.Common.{
  ℕ, zero, suc, ◌-◌, ◌^◌, ◌≤◌, ◌<◌, ◌≡◌, refl, sym, ap, ap₂, ◌∙◌, arith, List, [], ◌∷◌, ◌++◌,
  length, take, drop, length-take, length-drop, take-append-drop, take_of_length-le, All, All-take,
  All-drop, Result-ok-inj, subst, ok,
}
use watermarks_po_c.Watermark.Bits.{shifted_bits, bits_to_int}
use watermarks_po_c.Watermark.Bits.RoundTrip.{
  IsBit, bits_to_int_lem, value_of, value_of-lt, shifted_bits-value_of,
}
use watermarks_po_c.Watermark.Payload.{slice}
use watermarks_po_c.Rateless.Records.{
  RatelessTileRecord, rateless_tile_preamble_bits, rateless_record_bits,
}
use watermarks_po_c.Rateless.Records.RoundTrip.{IsTileRecord, checksum, encoded}

-- A part of the bits with what follows it.
slice-drop : (i j : ℕ) (b : List ℕ) → i ≤ j → slice i j b ++ drop j b ≡ drop i b
slice-drop zero j b h = subst (λ n. take n b ++ drop j b ≡ b) (omega arith) (take-append-drop j b)
slice-drop (suc i) zero b h = absurd (omega arith)
slice-drop (suc i) (suc j) [] h =
    rw (take_of_length-le {A = ℕ} (suc j - suc i) [] (omega arith)) refl
slice-drop (suc i) (suc j) (x ∷ b) h =
    subst (λ n. take n (drop i b) ++ drop j b ≡ drop i b) (omega arith)
      (slice-drop i j b (omega arith))

-- A number that was read, with the bits it came from.
read_part :
    (part : List ℕ) (w v : ℕ)
    → All IsBit part
    → length part ≡ w
    → bits_to_int part ≡ ok v
    → (v < 2 ^ w) × (shifted_bits v w ≡ part)
read_part part w v h e read =
    let same : v ≡ value_of part = Result-ok-inj (sym read ∙ bits_to_int_lem part h) in
    (
      subst (λ n. v < 2 ^ n) e (subst (λ n. n < 2 ^ length part) (sym same) (value_of-lt part h)),
      subst (λ n. shifted_bits n w ≡ part) (sym same)
          (subst (λ n. shifted_bits (value_of part) n ≡ part) e (shifted_bits-value_of part h)),
    )

all_parts :
    (b : List ℕ)
    → length b ≡ rateless_record_bits
    → take 16 b
        ++ (slice 16 20 b ++ (slice 20 36 b ++ (slice 36 37 b ++ (slice 37 40 b ++ slice 40 56 b))))
      ≡ b
all_parts b e = rw (take_of_length-le 16 (drop 40 b) (omega (arith, length-drop 40 b, e))) (
    rw (slice-drop 37 40 b (omega arith)) (
      rw (slice-drop 36 37 b (omega arith)) (
        rw (slice-drop 20 36 b (omega arith))
          (rw (slice-drop 16 20 b (omega arith)) (take-append-drop 16 b)))))

encoded_parts :
    (r : RatelessTileRecord) (valid : IsTileRecord r)
    → encoded r valid
      ≡ rateless_tile_preamble_bits
        ++ (shifted_bits r.version 4
            ++ (shifted_bits r.equation_id 16
                ++ (shifted_bits r.rhs 1
                    ++ (shifted_bits r.reserved 3 ++ shifted_bits (checksum r valid) 16))))
unfolding shifted_bits
encoded_parts r valid =
    ap
      (λ d.
        rateless_tile_preamble_bits
        ++ (shifted_bits r.version 4
            ++ (shifted_bits r.equation_id 16
                ++ ((d ∷ [])
                    ++ (shifted_bits r.reserved 3 ++ shifted_bits (checksum r valid) 16)))))
      (omega (arith, valid.rhs_fits))

-- The bits of a record whose fields were read from `b`.
pub encoded-read :
    (b : List ℕ) (r : RatelessTileRecord) (valid : IsTileRecord r)
    → length b ≡ rateless_record_bits
    → take 16 b ≡ rateless_tile_preamble_bits
    → shifted_bits r.version 4 ≡ slice 16 20 b
    → shifted_bits r.equation_id 16 ≡ slice 20 36 b
    → shifted_bits r.rhs 1 ≡ slice 36 37 b
    → shifted_bits r.reserved 3 ≡ slice 37 40 b
    → shifted_bits (checksum r valid) 16 ≡ slice 40 56 b
    → encoded r valid ≡ b
encoded-read b r valid e preamble version equation_id rhs reserved crc =
    encoded_parts r valid
    ∙ (ap₂ ◌++◌ (sym preamble)
          (ap₂ ◌++◌ version (ap₂ ◌++◌ equation_id (ap₂ ◌++◌ rhs (ap₂ ◌++◌ reserved crc))))
        ∙ all_parts b e)

length-slice :
    (i j : ℕ) (b : List ℕ)
    → length b ≡ rateless_record_bits
    → i ≤ j
    → j ≤ rateless_record_bits
    → length (slice i j b) ≡ j - i
length-slice i j b e h k = omega (arith, length-take (j - i) (drop i b), length-drop i b, e)

All-slice : (i j : ℕ) (b : List ℕ) → All IsBit b → All IsBit (slice i j b)
All-slice i j b h = All-take IsBit (j - i) (drop i b) (All-drop IsBit i b h)

pub read_slice :
    (i j v : ℕ) (b : List ℕ)
    → length b ≡ rateless_record_bits
    → All IsBit b
    → i ≤ j
    → j ≤ rateless_record_bits
    → bits_to_int (slice i j b) ≡ ok v
    → (v < 2 ^ (j - i)) × (shifted_bits v (j - i) ≡ slice i j b)
read_slice i j v b e h le top read =
    read_part (slice i j b) (j - i) v (All-slice i j b h) (length-slice i j b e le top) read
