-- ===== src/Rateless/Records.antt =====
-- oprow/rateless/records.py: the record of 56 bits that one tile carries, and its repetition by whole
-- copies. The confidence, a float, is left out.
pub mod RoundTrip
pub mod Majority
pub mod Parts
pub mod Strict
pub mod Difference
pub mod Errors
use watermarks_po_c.Common.{
  ℕ, zero, suc, ◌+◌, ◌-◌, ◌*◌, ◌%◌, ◌^◌, Bool, true, false, not, ◌&&◌, List, [], ◌∷◌, ◌++◌, ltb,
  leb, bytes_eq, ◌==◌, if◌then◌else◌, length, take, drop, Option, none, some, get_elem?, get_or,
  Result, ok, err, ◌>>=◌, ◌>>◌, raise_if, validation_error, value_error, pos,
}
use Prim.Native.Nat.{min}
use watermarks_po_c.Watermark.Bits.{int_to_bits, bits_to_int, bits_to_bytes, normalize_bits}
use watermarks_po_c.Watermark.Crc.{crc16_ccitt_false}
use watermarks_po_c.Watermark.Payload.{slice}

-- `bytes_to_bits(b"OR")`
abbrev pub rateless_tile_preamble_bits : List ℕ
rateless_tile_preamble_bits = 0 ∷ 1 ∷ 0 ∷ 0 ∷ 1 ∷ 1 ∷ 1 ∷ 1 ∷ 0 ∷ 1 ∷ 0 ∷ 1 ∷ 0 ∷ 0 ∷ 1 ∷ 0 ∷ []

abbrev pub rateless_record_bits : ℕ
rateless_record_bits = 56

pub record RatelessTileRecord : Type 0 where
  pub equation_id : ℕ
  pub rhs : ℕ
  pub version : ℕ
  pub reserved : ℕ

-- The constructor's checks (`__post_init__`); the fields are never negative.
unfoldable pub rateless_tile_record : RatelessTileRecord → Result RatelessTileRecord
rateless_tile_record r = do
  raise_if (not (ltb r.version 16)) (validation_error "rateless record version must fit in 4 bits")
  raise_if (not (ltb r.equation_id (2 ^ 16))) (validation_error "equation_id must fit in 16 bits")
  raise_if (not (ltb r.rhs 2)) (validation_error "rateless record rhs must be 0/1")
  raise_if (not (ltb r.reserved 8)) (validation_error "rateless record reserved field out of range")
  ok r

unfoldable pub protected_bits : RatelessTileRecord → Result (List ℕ)
protected_bits r = do
  version ← int_to_bits (pos r.version) (pos 4)
  equation_id ← int_to_bits (pos r.equation_id) (pos 16)
  reserved ← int_to_bits (pos r.reserved) (pos 3)
  ok (version ++ (equation_id ++ (r.rhs ∷ reserved)))

unfoldable pub crc16 : RatelessTileRecord → Result ℕ
crc16 r = do bits ← protected_bits r; bytes ← bits_to_bytes bits true; ok (crc16_ccitt_false bytes)

-- The AssertionError on another length is a `value_error` here.
unfoldable pub to_bits : RatelessTileRecord → Result (List ℕ)
to_bits r = do
  protected ← protected_bits r
  crc ← crc16 r
  crc_bits ← int_to_bits (pos crc) (pos 16)
  let bits = rateless_tile_preamble_bits ++ (protected ++ crc_bits)
  raise_if (not (length bits == rateless_record_bits))
      (value_error "rateless record layout length mismatch")
  ok bits

unfoldable pub check_crc : Bool → RatelessTileRecord → ℕ → Result RatelessTileRecord
check_crc false r crc = ok r
check_crc true r crc = do
  expected ← crc16 r
  raise_if (not (expected == crc)) (validation_error "rateless tile CRC mismatch")
  ok r

unfoldable pub decode_bits : List ℕ → Bool → Result RatelessTileRecord
decode_bits bits require_crc = do
  normalized ← normalize_bits bits
  raise_if (ltb (length normalized) rateless_record_bits)
      (validation_error "rateless tile record needs 56 bits")
  let b = take rateless_record_bits normalized
  raise_if (not (bytes_eq (take 16 b) rateless_tile_preamble_bits))
      (validation_error "rateless tile preamble not found")
  version ← bits_to_int (slice 16 20 b)
  equation_id ← bits_to_int (slice 20 36 b)
  rhs ← bits_to_int (slice 36 37 b)
  reserved ← bits_to_int (slice 37 40 b)
  crc ← bits_to_int (slice 40 56 b)
  r ←
      rateless_tile_record
        (record { equation_id = equation_id; rhs = rhs; version = version; reserved = reserved })
  check_crc require_crc r crc

-- `base * repetitions`
unfoldable pub copies : ℕ → List ℕ → List ℕ
copies zero base = []
copies (suc n) base = base ++ copies n base

unfoldable pub encode_repeated_record : RatelessTileRecord → ℕ → Result (List ℕ)
encode_repeated_record r repetitions = do
  raise_if (repetitions == 0) (validation_error "record repetitions must be positive")
  base ← to_bits r
  ok (copies repetitions base)

-- `carrier[i + copy * RATELESS_RECORD_BITS]` summed over the copies; the length was checked.
unfoldable pub count_votes : List ℕ → ℕ → ℕ → ℕ
count_votes carrier i zero = 0
count_votes carrier i (suc copy) =
    count_votes carrier i copy + get_or (get_elem? carrier (i + copy * rateless_record_bits)) 0

-- The majority of each position from `i` on, with the positions that are left.
unfoldable pub majority_bits : List ℕ → ℕ → ℕ → ℕ → List ℕ
majority_bits carrier repetitions i zero = []
majority_bits carrier repetitions i (suc left) =
    let ones = count_votes carrier i repetitions in
    (if ltb (repetitions - ones) ones then 1 else 0)
    ∷ majority_bits carrier repetitions (suc i) left

unfoldable pub count_disagreements : List ℕ → ℕ → ℕ → ℕ → ℕ
count_disagreements carrier repetitions i zero = 0
count_disagreements carrier repetitions i (suc left) =
    let ones = count_votes carrier i repetitions in
    min ones (repetitions - ones) + count_disagreements carrier repetitions (suc i) left

pub record RepeatedRecordDecode : Type 0 where
  pub decoded_record : RatelessTileRecord
  pub repetitions : ℕ
  pub bit_disagreements : ℕ

unfoldable pub majority_decode_repeated_record : List ℕ → ℕ → Result RepeatedRecordDecode
majority_decode_repeated_record bits repetitions = do
  raise_if (repetitions == 0) (validation_error "record repetitions must be positive")
  carrier ← normalize_bits bits
  raise_if (ltb (length carrier) (rateless_record_bits * repetitions))
      (validation_error "not enough tile carrier bits")
  r ← decode_bits (majority_bits carrier repetitions 0 rateless_record_bits) true
  ok (record {
    decoded_record = r;
    repetitions = repetitions;
    bit_disagreements = count_disagreements carrier repetitions 0 rateless_record_bits;
  })
