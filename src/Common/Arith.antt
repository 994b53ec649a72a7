-- ===== src/Common/Arith.antt =====
-- Facts of arithmetic on powers of two that the bit-level parts share.
use Prim.Native.Nat.{ℕ, zero, suc, ◌+◌, ◌*◌, ◌/◌, ◌%◌, ◌^◌, ◌≤◌, ◌<◌}
use native.Mathlib.Nat.{
  mul-add-mod_self_left, mod-eq_of_lt, div-add-mod, mod-lt, pow-suc, one-le-pow, mul-add-div_right,
  div-eq_of_lt,
}
use mathlib.Core.Path.{◌≡◌, ap, ◌∙◌}
use native.Mathlib.Omega.{arith}

pub mod_of_parts : (m q r n : ℕ) → n ≡ m * q + r → r < m → n % m ≡ r
mod_of_parts m q r n e h = rw e (mul-add-mod_self_left m q r ∙ mod-eq_of_lt h)

bit_mul-le : (b p : ℕ) → b < 2 → b * p ≤ p
bit_mul-le zero p h = omega arith
bit_mul-le (suc zero) p h = omega arith
bit_mul-le (suc (suc b)) p h = absurd (omega arith)

bit_part : (v p : ℕ) → 0 < p → v / p % 2 * p + v % p < p * 2
bit_part v p h = omega (arith, mod-lt v h, bit_mul-le (v / p % 2) p (omega arith))

pub mod_double : (v p : ℕ) → 0 < p → v % (p * 2) ≡ v / p % 2 * p + v % p
mod_double v p h =
    mod_of_parts (p * 2) (v / p / 2) (v / p % 2 * p + v % p) v
      (omega (arith, div-add-mod v p, ap (λ (t : ℕ). p * t) (div-add-mod (v / p) 2)))
      (bit_part v p h)

pub two_pow_pos : (w : ℕ) → 0 < 2 ^ w
two_pow_pos w = one-le-pow w 2 (omega arith)

pub mod_two_pow_suc : (v w : ℕ) → v % 2 ^ suc w ≡ v / 2 ^ w % 2 * 2 ^ w + v % 2 ^ w
mod_two_pow_suc v w = rw (pow-suc 2 w) (mod_double v (2 ^ w) (two_pow_pos w))

-- The digits of `q * p + r` at the weight `p`.
pub digit_of_parts : (q p r : ℕ) → r < p → (q * p + r) / p ≡ q
digit_of_parts q p r h = omega (arith, mul-add-div_right {m = p} (omega arith) q r, div-eq_of_lt h)

pub bit_parts-lt : (b p v : ℕ) → b < 2 → v < p → b * p + v < p * 2
bit_parts-lt b p v h k = omega (arith, bit_mul-le b p h)

pub mod_double_low : (v p : ℕ) → 0 < p → v % (p * 2) ≡ v / 2 % p * 2 + v % 2
mod_double_low v p h =
    mod_of_parts (p * 2) (v / 2 / p) (v / 2 % p * 2 + v % 2) v
      (omega (arith, div-add-mod (v / 2) p)) (omega (arith, mod-lt (v / 2) h))
