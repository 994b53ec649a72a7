-- ===== src/Watermark/Bits.antt =====
-- oprow/watermark/bits.py: bits are the numbers 0 and 1, most significant bit first.
-- A Python int that may be negative is a ℤ; the elements of bit and byte sequences are ℕ, and a
-- negative element would take the branch of every other element that is not 0 or 1.
pub mod RoundTrip
pub mod Bytes
use watermarks_po_c.Common.{
  ℕ, zero, suc, ◌+◌, ◌-◌, ◌*◌, ◌/◌, ◌%◌, ◌^◌, bit_xor, Bool, true, false, not, ◌||◌, List, [], ◌∷◌,
  ◌++◌, ltb, leb, ◌==◌, if◌then◌else◌, length, take, drop, replicate, Result, ok, err, ◌>>=◌, ◌>>◌,
  raise_if, Error, validation_error, ℤ, pos, negsuc,
}

unfoldable pub validate_bit : ℕ → Result ℕ
validate_bit bit =
    if bit == 0 || bit == 1 then ok bit else err (validation_error "expected bit 0 or 1")

unfoldable pub normalize_bits : List ℕ → Result (List ℕ)
unfolding validate_bit
normalize_bits [] = ok []
normalize_bits (b ∷ bits) = do b' ← validate_bit b; rest ← normalize_bits bits; ok (b' ∷ rest)

-- `[(value >> shift) & 1 for shift in range(width - 1, -1, -1)]`
unfoldable pub shifted_bits : ℕ → ℕ → List ℕ
shifted_bits value zero = []
shifted_bits value (suc shift) = (value / 2 ^ shift % 2) ∷ shifted_bits value shift

unfoldable pub int_to_bits : ℤ → ℤ → Result (List ℕ)
int_to_bits value (negsuc w) = err (validation_error "bit width must be non-negative")
int_to_bits (negsuc v) (pos w) =
    err (validation_error "cannot encode negative integers as unsigned bits")
int_to_bits (pos v) (pos w) =
    if w == 0
    then (if not (v == 0)
        then err (validation_error "non-zero value cannot be encoded with width 0")
        else ok [])
    else if leb (2 ^ w) v
    then err (validation_error "value does not fit in bits")
    else ok (shifted_bits v w)

-- `out = (out << 1) | validate_bit(b)`: the shifted value is even and the bit is 0 or 1, so that
-- the bitwise or is a sum.
unfoldable pub bits_to_int_loop : ℕ → List ℕ → Result ℕ
unfolding validate_bit
bits_to_int_loop out [] = ok out
bits_to_int_loop out (b ∷ bits) = do b' ← validate_bit b; bits_to_int_loop (out * 2 + b') bits

unfoldable pub bits_to_int : List ℕ → Result ℕ
unfolding bits_to_int_loop
bits_to_int bits = bits_to_int_loop 0 bits

unfoldable pub bytes_to_bits : List ℕ → Result (List ℕ)
unfolding int_to_bits shifted_bits
bytes_to_bits [] = ok []
bytes_to_bits (byte ∷ data') = do
  bits ← int_to_bits (pos byte) (pos 8)
  rest ← bytes_to_bits data'
  ok (bits ++ rest)

-- `for i in range(0, len(normalized), 8)`: one round for each group of eight bits.
unfoldable pub pack_groups : ℕ → List ℕ → Result (List ℕ)
unfolding bits_to_int
pack_groups zero bits = ok []
pack_groups (suc groups) bits = do
  byte ← bits_to_int (take 8 bits)
  rest ← pack_groups groups (drop 8 bits)
  ok (byte ∷ rest)

-- The zeros that fill the last byte, or the error when padding is off.
unfoldable pub pad_bits : List ℕ → Bool → Result (List ℕ)
pad_bits normalized pad =
    if length normalized % 8 == 0
    then ok normalized
    else if pad
    then ok (normalized ++ replicate (8 - length normalized % 8) 0)
    else err (validation_error "bit length is not byte-aligned")

unfoldable pub bits_to_bytes : List ℕ → Bool → Result (List ℕ)
unfolding normalize_bits pad_bits pack_groups
bits_to_bytes bits pad = do
  normalized ← normalize_bits bits
  padded ← pad_bits normalized pad
  pack_groups (length padded / 8) padded

xor_pairs : List ℕ → List ℕ → Result (List ℕ)
unfolding validate_bit
xor_pairs (a ∷ left) (b ∷ right) = do
  a' ← validate_bit a
  b' ← validate_bit b
  rest ← xor_pairs left right
  ok (bit_xor a' b' ∷ rest)
xor_pairs _ _ = ok []

unfoldable pub xor_bits : List ℕ → List ℕ → Result (List ℕ)
unfolding xor_pairs
xor_bits left right = do
  raise_if (not (length left == length right))
      (validation_error "xor_bits requires equal-length inputs")
  xor_pairs left right
