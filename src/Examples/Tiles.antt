-- ===== src/Examples/Tiles.antt =====
-- A tile record, and three copies of it with two bits read wrongly.
use watermarks_po_c.Common.{
  and_parts, Error, err, ◌↔◌, ◌≢◌, inl, inr, ℕ, suc, ◌*◌, ◌≡◌, refl, arith, Bool, true, ◌&&◌, List,
  [], ◌∷◌, ◌++◌, ltb, ltb→lt, all, take, drop, All, All-all, All-weaken, ok,
}
use watermarks_po_c.Watermark.Bits.{shifted_bits}
use watermarks_po_c.Watermark.Bits.RoundTrip.{IsBit}
use watermarks_po_c.Watermark.Crc.{crc16_ccitt_false}
use watermarks_po_c.Rateless.Records.{
  RatelessTileRecord, RepeatedRecordDecode, to_bits, decode_bits, majority_decode_repeated_record,
}
use watermarks_po_c.Rateless.Records.RoundTrip.{IsTileRecord, to_bits_lem}
use watermarks_po_c.Rateless.Records.Strict.{decode_bits-to_bits_iff}
use watermarks_po_c.Rateless.Records.Errors.{decode_bits-OneDifference}
use watermarks_po_c.Rateless.Records.Difference.{OneDifference}
use watermarks_po_c.Rateless.Records.Majority.{
  count_agreeing, MostAgree, majority_decode_repeated_record-MostAgree,
}

abbrev tile : RatelessTileRecord
tile = record { equation_id = 5; rhs = 1; version = 1; reserved = 0 }

tile-IsTileRecord : IsTileRecord tile
tile-IsTileRecord = record {
  version_fits = omega arith;
  equation_id_fits = omega arith;
  rhs_fits = omega arith;
  reserved_fits = omega arith;
}

abbrev tile_bits : List ℕ
tile_bits =
    0 ∷ 1 ∷ 0 ∷ 0 ∷ 1 ∷ 1 ∷ 1 ∷ 1 ∷ 0 ∷ 1 ∷ 0 ∷ 1 ∷ 0 ∷ 0 ∷ 1 ∷ 0 ∷ 0 ∷ 0 ∷ 0 ∷ 1 ∷ 0 ∷ 0 ∷ 0 ∷ 0
    ∷ 0 ∷ 0 ∷ 0 ∷ 0 ∷ 0 ∷ 0 ∷ 0 ∷ 0 ∷ 0 ∷ 1 ∷ 0 ∷ 1 ∷ 1 ∷ 0 ∷ 0 ∷ 0 ∷ 0 ∷ 1 ∷ 0 ∷ 1 ∷ 0 ∷ 1 ∷ 0 ∷ 0
    ∷ 0 ∷ 0 ∷ 0 ∷ 0 ∷ 0 ∷ 0 ∷ 1 ∷ 0 ∷ []

tile-to_bits : to_bits tile ≡ ok tile_bits
unfolding shifted_bits crc16_ccitt_false
tile-to_bits = to_bits_lem tile tile-IsTileRecord

bits-IsBit : (bits : List ℕ) → all (λ b. ltb b 2) bits ≡ true → All IsBit bits
bits-IsBit bits e = All-weaken (λ b h. ltb→lt b 2 h) bits (All-all (λ b. ltb b 2) bits e)

decode_bits-to_bits_iff_example :
    (decode_bits (tile_bits ++ (1 ∷ 0 ∷ [])) true ≡ ok tile)
    ↔ (IsTileRecord tile × (to_bits tile ≡ ok tile_bits))
decode_bits-to_bits_iff_example =
    decode_bits-to_bits_iff (tile_bits ++ (1 ∷ 0 ∷ [])) tile
      (bits-IsBit (tile_bits ++ (1 ∷ 0 ∷ [])) refl)

OneDifference-here :
    (before : List ℕ) (a b : ℕ) (after : List ℕ)
    → a ≢ b
    → OneDifference (before ++ a ∷ after) (before ++ b ∷ after)
unfolding OneDifference
OneDifference-here [] a b after ne = inl (ne, refl)
OneDifference-here (x ∷ before) a b after ne = inr (refl, OneDifference-here before a b after ne)

-- The last bit of the equation id is lost.
abbrev wrong_bits : List ℕ
wrong_bits = take 35 tile_bits ++ (0 ∷ drop 36 tile_bits)

decode_bits-OneDifference_example : (e : Error) × (decode_bits wrong_bits true ≡ err e)
decode_bits-OneDifference_example =
    decode_bits-OneDifference tile tile_bits wrong_bits tile-IsTileRecord tile-to_bits
      (bits-IsBit wrong_bits refl)
      (OneDifference-here (take 35 tile_bits) 1 0 (drop 36 tile_bits) (omega arith))

-- The first copy has a wrong bit in front, the second a wrong last bit.
abbrev three_copies : List ℕ
three_copies = (1 ∷ drop 1 tile_bits) ++ (take 55 tile_bits ++ (1 ∷ tile_bits))

-- The test of `MostAgree`.
unfoldable most_agree : List ℕ → ℕ → ℕ → List ℕ → Bool
most_agree carrier repetitions i [] = true
most_agree carrier repetitions i (b ∷ bits) =
    ltb repetitions (count_agreeing carrier i b repetitions * 2)
    && most_agree carrier repetitions (suc i) bits

most_agree-MostAgree :
    (carrier : List ℕ) (repetitions i : ℕ) (bits : List ℕ)
    → most_agree carrier repetitions i bits ≡ true
    → MostAgree carrier repetitions i bits
unfolding most_agree MostAgree
most_agree-MostAgree carrier repetitions i [] e = tt
most_agree-MostAgree carrier repetitions i (b ∷ bits) e =
    let (here, later) =
      and_parts (ltb repetitions (count_agreeing carrier i b repetitions * 2)) e in
    (ltb→lt repetitions _ here, most_agree-MostAgree carrier repetitions (suc i) bits later)

three_copies-MostAgree : MostAgree three_copies 3 0 tile_bits
unfolding most_agree count_agreeing
three_copies-MostAgree = most_agree-MostAgree three_copies 3 0 tile_bits refl

majority_decode_repeated_record-MostAgree_example :
    (d : RepeatedRecordDecode) × (majority_decode_repeated_record three_copies 3 ≡ ok d)
    × (d.decoded_record ≡ tile)
majority_decode_repeated_record-MostAgree_example =
    majority_decode_repeated_record-MostAgree tile tile_bits three_copies 3 tile-IsTileRecord
      tile-to_bits (bits-IsBit three_copies refl) (omega arith) (omega arith) three_copies-MostAgree
