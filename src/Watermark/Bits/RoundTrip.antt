-- ===== src/Watermark/Bits/RoundTrip.antt =====
-- The values of bit lists, for oprow/watermark/bits.py.
use native.Mathlib.Nat.{pow-suc, mul-add-div_right}
use watermarks_po_c.Common.{
  ℕ, zero, suc, ◌+◌, ◌*◌, ◌/◌, ◌%◌, ◌^◌, ◌<◌, ◌≡◌, refl, ap, ◌∙◌, List, [], ◌∷◌, arith, length, All,
  ok, mod_two_pow_suc, two_pow_pos, bit_parts-lt, digit_of_parts,
}
use watermarks_po_c.Watermark.Bits.{
  validate_bit, normalize_bits, shifted_bits, bits_to_int_loop, bits_to_int,
}

abbrev pub IsBit : ℕ → Type 0
IsBit b = b < 2

abbrev pub IsByte : ℕ → Type 0
IsByte b = b < 256

pub validate_bit_lem : (b : ℕ) → IsBit b → validate_bit b ≡ ok b
unfolding validate_bit
validate_bit_lem b h = ground arith

pub normalize_bits_lem : (bits : List ℕ) → All IsBit bits → normalize_bits bits ≡ ok bits
unfolding normalize_bits
normalize_bits_lem [] h = refl
normalize_bits_lem (b ∷ bits) h = ground (arith, normalize_bits_lem bits h.1)

pub length-shifted_bits : (v w : ℕ) → length (shifted_bits v w) ≡ w
unfolding shifted_bits
length-shifted_bits v zero = refl
length-shifted_bits v (suc w) = ap suc (length-shifted_bits v w)

pub shifted_bits-IsBit : (v w : ℕ) → All IsBit (shifted_bits v w)
unfolding shifted_bits
shifted_bits-IsBit v zero = tt
shifted_bits-IsBit v (suc w) = (omega arith, shifted_bits-IsBit v w)

-- The value that an unsigned bit list stands for.
abbrev pub value_of : List ℕ → ℕ
value_of [] = 0
value_of (b ∷ bits) = b * 2 ^ length bits + value_of bits

loop_step : (out b p v : ℕ) → (out * 2 + b) * p + v ≡ out * (p * 2) + (b * p + v)
loop_step out b p v = grind arith

pub bits_to_int_loop_lem :
    (out : ℕ) (bits : List ℕ)
    → All IsBit bits
    → bits_to_int_loop out bits ≡ ok (out * 2 ^ length bits + value_of bits)
unfolding bits_to_int_loop
bits_to_int_loop_lem out [] h = ap ok (omega arith)
bits_to_int_loop_lem out (b ∷ bits) h = ground (
  arith,
  bits_to_int_loop_lem (out * 2 + b) bits h.1,
  loop_step out b (2 ^ length bits) (value_of bits),
  pow-suc 2 (length bits),
)

pub bits_to_int_lem : (bits : List ℕ) → All IsBit bits → bits_to_int bits ≡ ok (value_of bits)
unfolding bits_to_int
bits_to_int_lem bits h = bits_to_int_loop_lem 0 bits h ∙ ap ok (omega arith)

pub value_of-shifted_bits : (v w : ℕ) → value_of (shifted_bits v w) ≡ v % 2 ^ w
unfolding shifted_bits
value_of-shifted_bits v zero = omega arith
value_of-shifted_bits v (suc w) =
    rw (length-shifted_bits v w) (omega (arith, value_of-shifted_bits v w, mod_two_pow_suc v w))

pub value_of-lt : (bits : List ℕ) → All IsBit bits → value_of bits < 2 ^ length bits
value_of-lt [] h = omega arith
value_of-lt (b ∷ bits) h =
    rw (pow-suc 2 (length bits))
      (bit_parts-lt b (2 ^ length bits) (value_of bits) h.0 (value_of-lt bits h.1))

high_part : (q p v : ℕ) → 0 < p → (q * (p * 2) + v) / p % 2 ≡ v / p % 2
high_part q p v h = omega (
  arith,
  mul-add-div_right {m = p} h (q * 2) v,
  loop_step q 0 p v,
  ap (λ (t : ℕ). t / p) (regroup q p v),
)
  where
    regroup : (q p v : ℕ) → q * (p * 2) + v ≡ q * 2 * p + v
    regroup q p v = omega arith

-- Bits above the width are not read.
pub shifted_bits-add : (q v w : ℕ) → shifted_bits (q * 2 ^ w + v) w ≡ shifted_bits v w
unfolding shifted_bits
shifted_bits-add q v zero = refl
shifted_bits-add q v (suc w) = ground (
  arith,
  pow-suc 2 w,
  high_part q (2 ^ w) v (two_pow_pos w),
  shifted_bits-add (q * 2) v w,
  loop_step q 0 (2 ^ w) v,
)

pub shifted_bits-value_of :
    (bits : List ℕ) → All IsBit bits → shifted_bits (value_of bits) (length bits) ≡ bits
unfolding shifted_bits
shifted_bits-value_of [] h = refl
shifted_bits-value_of (b ∷ bits) h = ground (
  arith,
  shifted_bits-add b (value_of bits) (length bits),
  shifted_bits-value_of bits h.1,
  digit_of_parts b (2 ^ length bits) (value_of bits) (value_of-lt bits h.1),
)
