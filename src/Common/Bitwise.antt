-- ===== src/Common/Bitwise.antt =====
-- Laws of `^` and `&` on Python's non-negative integers, from the recursion on binary digits that
-- the native operations stand for.
use Prim.Native.Nat.{
  ℕ, zero, suc, ◌+◌, ◌-◌, ◌*◌, ◌/◌, ◌%◌, ◌^◌, ◌≤◌, ◌<◌, min, digits, differ, bitwise, bit_and,
  bit_or, bit_or-bitwise, max, bit_xor, bit_and-bitwise, bit_xor-bitwise,
}
use mathlib.Core.Path.{◌≡◌, refl, sym, ap, ap₂, ◌∙◌}
use native.Mathlib.Nat.{mod-one, pow-suc, pow-succ', div-div-eq-div-mul}
use native.Mathlib.Omega.{arith}
use watermarks_po_c.Common.Arith.{two_pow_pos, mod_double_low}

-- Induction from `n / 2` to `n`.
module _ {ℓ} (P : ℕ → Type ℓ) (base : P 0) (step : (n : ℕ) → P (n / 2) → P n) where
  halving_below : (k n : ℕ) → n ≤ k → P n
  halving_below k zero h = base
  halving_below zero (suc n) h = absurd (omega arith)
  halving_below (suc k) (suc n) h = step (suc n) (halving_below k (suc n / 2) (omega arith))

  pub halving_induction : (n : ℕ) → P n
  halving_induction n = halving_below n n (omega arith)

module _ (z : ℕ → ℕ) (f : ℕ → ℕ → ℕ) where
  -- Counts of digits that the first number cannot exceed give the same result.
  digits-count : (a b k l : ℕ) → a ≤ k → a ≤ l → digits z f k a b ≡ digits z f l a b
  digits-count zero b zero zero small also = refl
  digits-count zero b (suc k) zero small also = refl
  digits-count zero b zero (suc l) small also = refl
  digits-count zero b (suc k) (suc l) small also = refl
  digits-count (suc a) b zero l small also = absurd (omega arith)
  digits-count (suc a) b (suc k) zero small also = absurd (omega arith)
  digits-count (suc a) b (suc k) (suc l) small also =
      ap (λ (t : ℕ). t * 2 + f (suc a % 2) (b % 2))
        (digits-count (suc a / 2) (b / 2) k l (omega arith) (omega arith))

  bitwise_step :
      (x y : ℕ)
      → bitwise z f (suc x) y ≡ bitwise z f (suc x / 2) (y / 2) * 2 + f (suc x % 2) (y % 2)
  bitwise_step x y =
      ap (λ (t : ℕ). t * 2 + f (suc x % 2) (y % 2))
        (digits-count (suc x / 2) (y / 2) x (suc x / 2) (omega arith) (omega arith))

differ_lem : (x y : ℕ) → x < 2 → y < 2 → differ x y ≡ (x + y) % 2
differ_lem zero zero h k = refl
differ_lem zero (suc zero) h k = refl
differ_lem (suc zero) zero h k = refl
differ_lem (suc zero) (suc zero) h k = refl
differ_lem zero (suc (suc y)) h k = absurd (omega arith)
differ_lem (suc zero) (suc (suc y)) h k = absurd (omega arith)
differ_lem (suc (suc x)) y h k = absurd (omega arith)

pub bit_xor_step : (a b : ℕ) → bit_xor a b ≡ bit_xor (a / 2) (b / 2) * 2 + (a + b) % 2
bit_xor_step zero b = simp bit_xor-bitwise (omega arith)
bit_xor_step (suc a) b = omega (
  arith,
  bit_xor-bitwise (suc a) b,
  bit_xor-bitwise (suc a / 2) (b / 2),
  bitwise_step (λ b. b) differ a b,
  differ_lem (suc a % 2) (b % 2) (omega arith) (omega arith),
)

pub bit_and_step : (x y : ℕ) → bit_and x y ≡ bit_and (x / 2) (y / 2) * 2 + min (x % 2) (y % 2)
bit_and_step (suc x) y = omega (
  arith,
  bitwise_step (λ d. zero) min x y,
  bit_and-bitwise (suc x / 2) (y / 2),
  bit_and-bitwise (suc x) y,
)
bit_and_step zero y = simp bit_and-bitwise (omega arith)

pub zero-bit_xor : (b : ℕ) → bit_xor 0 b ≡ b
zero-bit_xor b = bit_xor-bitwise 0 b

pub bit_xor-zero : (a : ℕ) → bit_xor a 0 ≡ a
bit_xor-zero =
    halving_induction (λ a. bit_xor a 0 ≡ a) refl (λ n ih. omega (arith, bit_xor_step n 0, ih))

pub bit_xor_self : (a : ℕ) → bit_xor a a ≡ 0
bit_xor_self =
    halving_induction (λ a. bit_xor a a ≡ 0) refl (λ n ih. omega (arith, bit_xor_step n n, ih))

pub bit_xor_comm : (a b : ℕ) → bit_xor a b ≡ bit_xor b a
bit_xor_comm =
    halving_induction (λ a. (b : ℕ) → bit_xor a b ≡ bit_xor b a)
      (λ b. zero-bit_xor b ∙ sym (bit_xor-zero b))
      (λ n ih b. omega (arith, bit_xor_step n b, bit_xor_step b n, ih (b / 2)))

-- The two lowest digits of a sum of three, whatever the grouping.
pub half-bit_xor : (a b : ℕ) → bit_xor a b / 2 ≡ bit_xor (a / 2) (b / 2)
half-bit_xor a b = omega (arith, bit_xor_step a b)

pub mod-bit_xor : (a b : ℕ) → bit_xor a b % 2 ≡ (a + b) % 2
mod-bit_xor a b = omega (arith, bit_xor_step a b)

pub bit_xor_assoc : (a b c : ℕ) → bit_xor (bit_xor a b) c ≡ bit_xor a (bit_xor b c)
bit_xor_assoc =
    halving_induction (λ a. (b c : ℕ) → bit_xor (bit_xor a b) c ≡ bit_xor a (bit_xor b c))
      (λ b c. ap (λ t. bit_xor t c) (zero-bit_xor b) ∙ sym (zero-bit_xor (bit_xor b c)))
      (λ n ih b c.
        bit_xor_step (bit_xor n b) c
        ∙ (ap (λ (t : ℕ). bit_xor t (c / 2) * 2 + (bit_xor n b + c) % 2) (half-bit_xor n b)
            ∙ (omega (arith, ih (b / 2) (c / 2), mod-bit_xor n b, mod-bit_xor b c)
                ∙ (ap (λ (t : ℕ). bit_xor (n / 2) t * 2 + (n + bit_xor b c) % 2)
                      (sym (half-bit_xor b c))
                    ∙ sym (bit_xor_step n (bit_xor b c))))))

pub bit_xor_cancel : (a b : ℕ) → bit_xor (bit_xor a b) b ≡ a
bit_xor_cancel a b = bit_xor_assoc a b b ∙ (ap (bit_xor a) (bit_xor_self b) ∙ bit_xor-zero a)

pub bit_xor_inj_left : (a b c : ℕ) → bit_xor a c ≡ bit_xor b c → a ≡ b
bit_xor_inj_left a b c e = sym (bit_xor_cancel a c) ∙ (ap (λ t. bit_xor t c) e ∙ bit_xor_cancel b c)

pub bit_xor_inj_right : (a b c : ℕ) → bit_xor c a ≡ bit_xor c b → a ≡ b
bit_xor_inj_right a b c e = bit_xor_inj_left a b c (bit_xor_comm a c ∙ (e ∙ bit_xor_comm c b))

-- The result has no digit that neither number has.
pub bit_xor-lt : (k a b : ℕ) → a < 2 ^ k → b < 2 ^ k → bit_xor a b < 2 ^ k
bit_xor-lt zero zero b h l = omega (arith, zero-bit_xor b)
bit_xor-lt zero (suc a) b h l = absurd (omega arith)
bit_xor-lt (suc k) a b h l = omega (
  arith,
  bit_xor_step a b,
  pow-suc 2 k,
  bit_xor-lt k (a / 2) (b / 2) (half-lt k a h) (half-lt k b l),
)
  where
    half-lt : (k a : ℕ) → a < 2 ^ suc k → a / 2 < 2 ^ k
    half-lt k a h = omega (arith, pow-suc 2 k)

-- A mask of `k` ones is the remainder by `2 ^ k`.
pub bit_and-zero : (a : ℕ) → bit_and a 0 ≡ 0
bit_and-zero =
    halving_induction (λ a. bit_and a 0 ≡ 0) refl (λ n ih. omega (arith, bit_and_step n 0, ih))

pub bit_and-mask : (k a : ℕ) → bit_and a (2 ^ k - 1) ≡ a % 2 ^ k
bit_and-mask zero a = bit_and-zero a ∙ omega arith
bit_and-mask (suc k) a =
    bit_and_step a (2 ^ suc k - 1)
    ∙ (ap (λ (t : ℕ). bit_and (a / 2) t * 2 + min (a % 2) ((2 ^ suc k - 1) % 2)) (half-mask k)
        ∙ (ap (λ (t : ℕ). t * 2 + min (a % 2) ((2 ^ suc k - 1) % 2)) (bit_and-mask k (a / 2))
            ∙ mod-half k a))
  where
    half-mask : (k : ℕ) → (2 ^ suc k - 1) / 2 ≡ 2 ^ k - 1
    half-mask k = omega (arith, pow-suc 2 k, two_pow_pos k)

    mod-half : (k a : ℕ) → a / 2 % 2 ^ k * 2 + min (a % 2) ((2 ^ suc k - 1) % 2) ≡ a % 2 ^ suc k
    mod-half k a =
        rw (pow-suc 2 k) (omega (arith, mod_double_low a (2 ^ k) (two_pow_pos k), two_pow_pos k))

-- Dropping the digits above `k` commutes with exclusive or.
pub mod-two_pow-bit_xor : (k a b : ℕ) → bit_xor a b % 2 ^ k ≡ bit_xor (a % 2 ^ k) (b % 2 ^ k)
mod-two_pow-bit_xor zero a b = mod-one (bit_xor a b) ∙ sym (ap₂ bit_xor (mod-one a) (mod-one b))
mod-two_pow-bit_xor (suc k) a b = rw (pow-suc 2 k) (
    mod_double_low (bit_xor a b) (2 ^ k) (two_pow_pos k)
    ∙ (ap (λ (t : ℕ). t % 2 ^ k * 2 + bit_xor a b % 2) (half-bit_xor a b)
        ∙ (ap (λ (t : ℕ). t * 2 + bit_xor a b % 2) (mod-two_pow-bit_xor k (a / 2) (b / 2))
            ∙ sym (low_parts k))))
  where
    low_half : (k a : ℕ) → a % (2 ^ k * 2) / 2 ≡ a / 2 % 2 ^ k
    low_half k a = omega (arith, mod_double_low a (2 ^ k) (two_pow_pos k))

    low_mod : (k a : ℕ) → a % (2 ^ k * 2) % 2 ≡ a % 2
    low_mod k a = omega (arith, mod_double_low a (2 ^ k) (two_pow_pos k))

    low_parts :
        (k : ℕ)
        → bit_xor (a % (2 ^ k * 2)) (b % (2 ^ k * 2))
          ≡ bit_xor (a / 2 % 2 ^ k) (b / 2 % 2 ^ k) * 2 + bit_xor a b % 2
    low_parts k =
        bit_xor_step (a % (2 ^ k * 2)) (b % (2 ^ k * 2))
        ∙ (ap₂ (λ (s t : ℕ). bit_xor s t * 2 + (a % (2 ^ k * 2) + b % (2 ^ k * 2)) % 2)
              (low_half k a) (low_half k b)
            ∙ omega (arith, low_mod k a, low_mod k b, mod-bit_xor a b))

pub zero-bit_and : (b : ℕ) → bit_and 0 b ≡ 0
zero-bit_and b = bit_and-bitwise 0 b

-- Testing one digit.
pub bit_and-two_pow : (k a : ℕ) → bit_and a (2 ^ k) ≡ a / 2 ^ k % 2 * 2 ^ k
bit_and-two_pow zero a = omega (arith, bit_and-mask 1 a)
bit_and-two_pow (suc k) a =
    bit_and_step a (2 ^ suc k)
    ∙ (ap (λ (t : ℕ). bit_and (a / 2) t * 2 + min (a % 2) (2 ^ suc k % 2)) (half-pow k)
        ∙ (ap (λ (t : ℕ). t * 2 + min (a % 2) (2 ^ suc k % 2)) (bit_and-two_pow k (a / 2))
            ∙ two_pow_digit k))
  where
    half-pow : (k : ℕ) → 2 ^ suc k / 2 ≡ 2 ^ k
    half-pow k = omega (arith, pow-suc 2 k)

    two_pow_digit :
        (k : ℕ)
        → a / 2 / 2 ^ k % 2 * 2 ^ k * 2 + min (a % 2) (2 ^ suc k % 2)
          ≡ a / 2 ^ suc k % 2 * 2 ^ suc k
    two_pow_digit k =
        rw (pow-succ' 2 k)
          (omega (arith, ap (λ (t : ℕ). t % 2 * (2 * 2 ^ k)) (div-div-eq-div-mul a 2 (2 ^ k))))

pub half-bit_and : (a x : ℕ) → bit_and a x / 2 ≡ bit_and (a / 2) (x / 2)
half-bit_and a x = omega (arith, bit_and_step a x)

pub mod-bit_and : (a x : ℕ) → bit_and a x % 2 ≡ min (a % 2) (x % 2)
mod-bit_and a x = omega (arith, bit_and_step a x)

pub bit_and_comm : (a b : ℕ) → bit_and a b ≡ bit_and b a
bit_and_comm =
    halving_induction (λ a. (b : ℕ) → bit_and a b ≡ bit_and b a)
      (λ b. zero-bit_and b ∙ sym (bit_and-zero b))
      (λ n ih b. omega (arith, bit_and_step n b, bit_and_step b n, ih (b / 2)))

-- `&` distributes over `^`.
pub bit_and-bit_xor : (a b x : ℕ) → bit_and (bit_xor a b) x ≡ bit_xor (bit_and a x) (bit_and b x)
bit_and-bit_xor =
    halving_induction
      (λ a. (b x : ℕ) → bit_and (bit_xor a b) x ≡ bit_xor (bit_and a x) (bit_and b x))
      (λ b x.
        ap (λ t. bit_and t x) (zero-bit_xor b)
        ∙ sym (ap (λ t. bit_xor t (bit_and b x)) (zero-bit_and x) ∙ zero-bit_xor (bit_and b x)))
      (λ n ih b x.
        bit_and_step (bit_xor n b) x
        ∙ (ap (λ (t : ℕ). bit_and t (x / 2) * 2 + min (bit_xor n b % 2) (x % 2)) (half-bit_xor n b)
            ∙ (ap (λ (t : ℕ). t * 2 + min (bit_xor n b % 2) (x % 2)) (ih (b / 2) (x / 2))
                ∙ (ap₂ (λ (s t : ℕ). bit_xor s t * 2 + min (bit_xor n b % 2) (x % 2))
                      (sym (half-bit_and n x)) (sym (half-bit_and b x))
                    ∙ (omega (arith, mod-bit_xor n b, mod-bit_and n x, mod-bit_and b x)
                        ∙ sym (bit_xor_step (bit_and n x) (bit_and b x)))))))

bit_or_step : (x y : ℕ) → bit_or x y ≡ bit_or (x / 2) (y / 2) * 2 + max (x % 2) (y % 2)
bit_or_step zero y = simp bit_or-bitwise (omega arith)
bit_or_step (suc x) y = omega (
  arith,
  bitwise_step (λ d. d) max x y,
  bit_or-bitwise (suc x / 2) (y / 2),
  bit_or-bitwise (suc x) y,
)

-- `|` of numbers without a common digit.
pub bit_or_disjoint : (a b : ℕ) → bit_and a b ≡ 0 → bit_or a b ≡ bit_xor a b
bit_or_disjoint =
    halving_induction (λ a. (b : ℕ) → bit_and a b ≡ 0 → bit_or a b ≡ bit_xor a b)
      (λ b h. bit_or-bitwise 0 b ∙ sym (zero-bit_xor b))
      (λ n ih b h. omega (
        arith,
        bit_or_step n b,
        bit_xor_step n b,
        bit_and_step n b,
        ih (b / 2) (omega (arith, bit_and_step n b)),
      ))

pub bit_or-lt : (k a b : ℕ) → a < 2 ^ k → b < 2 ^ k → bit_or a b < 2 ^ k
bit_or-lt zero zero b h l = omega (arith, bit_or-bitwise 0 b)
bit_or-lt zero (suc a) b h l = absurd (omega arith)
bit_or-lt (suc k) a b h l = omega (
  arith,
  bit_or_step a b,
  pow-suc 2 k,
  bit_or-lt k (a / 2) (b / 2) (omega (arith, pow-suc 2 k)) (omega (arith, pow-suc 2 k)),
)
