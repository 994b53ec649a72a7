-- ===== src/Rateless/Gf2/Digits.antt =====
-- Counting digits, as `int.bit_count` and `int.bit_length` of oprow/rateless/gf2.py do.
use native.Mathlib.Nat.{pow-suc}
use watermarks_po_c.Common.{
  ℕ, zero, suc, ◌+◌, ◌-◌, ◌*◌, ◌/◌, ◌%◌, ◌^◌, ◌≤◌, ◌<◌, ◌≡◌, refl, ap, ◌∙◌, arith, bit_and, bit_xor,
  halving_induction, zero-bit_xor, zero-bit_and, half-bit_xor, mod-bit_xor, bit_and-bit_xor,
  bit_and_comm, digit_of_parts,
}
use watermarks_po_c.Rateless.Gf2.{count_ones, bit_count, count_digits, bit_length, parity_int}

count_ones-zero : (k : ℕ) → count_ones k 0 ≡ 0
unfolding count_ones
count_ones-zero zero = refl
count_ones-zero (suc k) = refl

count_ones-suc : (k v : ℕ) → count_ones (suc k) v ≡ count_ones k (v / 2) + v % 2
unfolding count_ones
count_ones-suc k zero = omega (arith, count_ones-zero k)
count_ones-suc k (suc v) = ground arith

count_ones-enough : (v k l : ℕ) → v ≤ k → v ≤ l → count_ones k v ≡ count_ones l v
unfolding count_ones
count_ones-enough zero k l p q = omega (arith, count_ones-zero k, count_ones-zero l)
count_ones-enough (suc v) zero l p q = absurd (omega arith)
count_ones-enough (suc v) (suc k) zero p q = absurd (omega arith)
count_ones-enough (suc v) (suc k) (suc l) p q = omega (
  arith,
  count_ones-suc k (suc v),
  count_ones-suc l (suc v),
  count_ones-enough (suc v / 2) k l (omega arith) (omega arith),
)

bit_count_step : (v : ℕ) → bit_count v ≡ bit_count (v / 2) + v % 2
unfolding count_ones
bit_count_step zero = refl
bit_count_step (suc v) = omega (
  arith,
  count_ones-suc v (suc v),
  count_ones-enough (suc v / 2) v (suc v / 2) (omega arith) (omega arith),
)

pub parity_step : (v : ℕ) → parity_int v ≡ (parity_int (v / 2) + v % 2) % 2
parity_step v = omega (arith, bit_count_step v)

zero_parity : (b : ℕ) → parity_int b ≡ (parity_int 0 + parity_int b) % 2
unfolding count_ones
zero_parity b = omega arith

-- The parity of a sum over GF(2).
pub parity_int-bit_xor : (a b : ℕ) → parity_int (bit_xor a b) ≡ (parity_int a + parity_int b) % 2
parity_int-bit_xor =
    halving_induction (λ a. (b : ℕ) → parity_int (bit_xor a b) ≡ (parity_int a + parity_int b) % 2)
      (λ b. ap parity_int (zero-bit_xor b) ∙ zero_parity b)
      (λ n ih b. omega (
        arith,
        parity_step (bit_xor n b),
        parity_step n,
        parity_step b,
        ap parity_int (half-bit_xor n b),
        mod-bit_xor n b,
        ih (b / 2),
      ))

-- The inner product over GF(2).
abbrev pub dot : ℕ → ℕ → ℕ
dot mask x = parity_int (bit_and mask x)

pub dot-lt : (mask x : ℕ) → dot mask x < 2
dot-lt mask x = omega arith

pub dot-bit_xor : (a b x : ℕ) → dot (bit_xor a b) x ≡ (dot a x + dot b x) % 2
dot-bit_xor a b x =
    ap parity_int (bit_and-bit_xor a b x) ∙ parity_int-bit_xor (bit_and a x) (bit_and b x)

pub dot_comm : (a x : ℕ) → dot a x ≡ dot x a
dot_comm a x = ap parity_int (bit_and_comm a x)

count_digits-zero : (k : ℕ) → count_digits k 0 ≡ 0
unfolding count_digits
count_digits-zero zero = refl
count_digits-zero (suc k) = refl

count_digits-pos : (k v : ℕ) → 0 < v → count_digits (suc k) v ≡ suc (count_digits k (v / 2))
unfolding count_digits
count_digits-pos k zero p = absurd (omega arith)
count_digits-pos k (suc v) p = ground arith

pub parity_zero : (x : ℕ) → dot 0 x ≡ 0
unfolding count_ones
parity_zero x = ap parity_int (zero-bit_and x)

-- The top digit of a positive number.
count_digits-bounds :
    (k v : ℕ)
    → v ≤ k
    → 0 < v
    → (top : ℕ) × (count_digits k v ≡ suc top) × (2 ^ top ≤ v) × (v < 2 ^ top * 2)
count_digits-bounds zero v h p = absurd (omega arith)
count_digits-bounds (suc k) zero h p = absurd (omega arith)
count_digits-bounds (suc k) (suc zero) h p =
    (0, count_digits-pos k 1 p ∙ ap suc (count_digits-zero k), omega arith, omega arith)
count_digits-bounds (suc k) (suc (suc v)) h p =
    let half = suc (suc v) / 2 in
    let (top, count, low, high) = count_digits-bounds k half (omega arith) (omega arith) in
    (
      suc top,
      count_digits-pos k (suc (suc v)) p ∙ ap suc count,
      rw (pow-suc 2 top) (omega arith),
      rw (pow-suc 2 top) (omega arith),
    )

-- The pivot of a positive mask is its top digit.
pub bit_length-top :
    (v : ℕ) → 0 < v → (v / 2 ^ (bit_length v - 1) ≡ 1) × (2 ^ (bit_length v - 1) ≤ v)
bit_length-top v p =
    let (top, count, low, high) = count_digits-bounds v v (omega arith) p in
    let pivot : bit_length v - 1 ≡ top = omega (arith, count) in
    rw pivot (digit_lem (2 ^ top) low high, low)
  where
    digit_lem : (q : ℕ) → q ≤ v → v < q * 2 → v / q ≡ 1
    digit_lem q low high =
        ap (λ (t : ℕ). t / q) (split q low) ∙ digit_of_parts 1 q (v - q) (omega arith)
      where
        split : (q : ℕ) → q ≤ v → v ≡ 1 * q + (v - q)
        split q low = omega arith
