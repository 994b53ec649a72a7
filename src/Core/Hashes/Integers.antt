-- ===== src/Core/Hashes/Integers.antt =====
-- Big-endian integers, as `int.to_bytes` and `int.from_bytes` of oprow/core/hashes.py and its users.
use native.Mathlib.Nat.{
  mod-eq_of_lt, div-add-mod, mod-lt, mul-le-mul_right, pow-suc, one-le-pow, pow-succ',
}
use watermarks_po_c.Common.{
  ℕ, zero, suc, ◌+◌, ◌*◌, ◌/◌, ◌%◌, ◌^◌, ◌<◌, ◌≤◌, ◌≡◌, refl, sym, ap, ap₂, ◌∙◌, List, [], ◌∷◌,
  length, mod_of_parts, arith, All,
}
use watermarks_po_c.Core.Hashes.{to_bytes_be, from_bytes_be}

pub length-to_bytes_be : (n width : ℕ) → length (to_bytes_be n width) ≡ width
unfolding to_bytes_be
length-to_bytes_be n zero = refl
length-to_bytes_be n (suc width) = ap suc (length-to_bytes_be n width)

-- The digits of a number below 256 ^ width determine it.
digit_lem : (n p : ℕ) → 1 ≤ p → n % (p * 256) ≡ n / p % 256 * p + n % p
digit_lem n p h =
    mod_of_parts (p * 256) (n / p / 256) (n / p % 256 * p + n % p) n
      (omega (arith, div-add-mod n p, ap (λ (t : ℕ). p * t) (div-add-mod (n / p) 256)))
      (omega (arith, mod-lt n h, mul-le-mul_right {m = n / p % 256} {n = 255} p (omega arith)))

pub to_bytes_be-inj :
    (width n m : ℕ) → to_bytes_be n width ≡ to_bytes_be m width → n % 256 ^ width ≡ m % 256 ^ width
unfolding to_bytes_be
to_bytes_be-inj zero n m e = omega arith
to_bytes_be-inj (suc width) n m e = rw (pow-suc 256 width) (
    digit_lem n (256 ^ width) (one-le-pow width 256 (omega arith))
    ∙ (ap₂ (λ d r. d * 256 ^ width + r) (head_lem e) (to_bytes_be-inj width n m (tail_lem e))
        ∙ sym (digit_lem m (256 ^ width) (one-le-pow width 256 (omega arith)))))
  where
    head_lem : {x y : ℕ} {xs ys : List ℕ} → x ∷ xs ≡ y ∷ ys → x ≡ y
    head_lem e = cc

    tail_lem : {x y : ℕ} {xs ys : List ℕ} → x ∷ xs ≡ y ∷ ys → xs ≡ ys
    tail_lem e = cc

pub from_bytes_be-inj :
    (xs ys : List ℕ) (a b : ℕ)
    → length xs ≡ length ys
    → All (λ x. x < 256) xs
    → All (λ y. y < 256) ys
    → from_bytes_be a xs ≡ from_bytes_be b ys
    → (a ≡ b) × (xs ≡ ys)
from_bytes_be-inj [] [] a b h p q e = (e, refl)
from_bytes_be-inj [] (y ∷ ys) a b h p q e = absurd (omega arith)
from_bytes_be-inj (x ∷ xs) [] a b h p q e = absurd (omega arith)
from_bytes_be-inj (x ∷ xs) (y ∷ ys) a b h (px, p) (qy, q) e =
    let (heads, tails) = from_bytes_be-inj xs ys (a * 256 + x) (b * 256 + y) (omega arith) p q e in
    (omega arith, ap₂ ◌∷◌ (omega arith) tails)

pub from_bytes_be-lt :
    (xs : List ℕ) (a : ℕ) → All (λ x. x < 256) xs → from_bytes_be a xs < (a + 1) * 256 ^ length xs
from_bytes_be-lt [] a p = omega arith
from_bytes_be-lt (x ∷ xs) a (px, p) =
    rw (pow-succ' 256 (length xs))
      (lt_step _ a x (256 ^ length xs) px (from_bytes_be-lt xs (a * 256 + x) p))
  where
    pow_step : (a q : ℕ) → (a + 1) * 256 * q ≡ (a + 1) * (256 * q)
    pow_step a q = omega arith

    lt_step : (v a x q : ℕ) → x < 256 → v < (a * 256 + x + 1) * q → v < (a + 1) * (256 * q)
    lt_step v a x q below hyp = omega (
      arith,
      hyp,
      mul-le-mul_right {m = a * 256 + x + 1} {n = (a + 1) * 256} q (omega arith),
      pow_step a q,
    )

to_bytes_be-All : (n width : ℕ) → All (λ b. b < 256) (to_bytes_be n width)
unfolding to_bytes_be
to_bytes_be-All n zero = tt
to_bytes_be-All n (suc width) = (mod-lt (n / 256 ^ width) (omega arith), to_bytes_be-All n width)

from_bytes_be-to_bytes_be_acc :
    (acc n width : ℕ)
    → from_bytes_be acc (to_bytes_be n width) ≡ acc * 256 ^ width + n % 256 ^ width
unfolding to_bytes_be
from_bytes_be-to_bytes_be_acc acc n zero = omega arith
from_bytes_be-to_bytes_be_acc acc n (suc width) =
    from_bytes_be-to_bytes_be_acc (acc * 256 + n / 256 ^ width % 256) n width
    ∙ (step acc (n / 256 ^ width % 256) (256 ^ width) (n % 256 ^ width)
        ∙ ap₂ (λ p r. acc * p + r) (sym (pow-suc 256 width))
            (sym (digit_lem n (256 ^ width) (one-le-pow width 256 (omega arith)))
              ∙ ap (λ p. n % p) (sym (pow-suc 256 width))))
  where
    step : (a d p r : ℕ) → (a * 256 + d) * p + r ≡ a * (p * 256) + (d * p + r)
    step a d p r = omega arith

-- Reading what was written.
pub from_bytes_be-to_bytes_be :
    (n width : ℕ) → n < 256 ^ width → from_bytes_be 0 (to_bytes_be n width) ≡ n
from_bytes_be-to_bytes_be n width small =
    from_bytes_be-to_bytes_be_acc 0 n width ∙ (zero_step (256 ^ width) _ ∙ mod-eq_of_lt small)
  where
    zero_step : (p r : ℕ) → 0 * p + r ≡ r
    zero_step p r = omega arith

-- Writing what was read.
pub to_bytes_be-from_bytes_be :
    (raw : List ℕ) → All (λ b. b < 256) raw → to_bytes_be (from_bytes_be 0 raw) (length raw) ≡ raw
to_bytes_be-from_bytes_be raw small =
    (from_bytes_be-inj (to_bytes_be (from_bytes_be 0 raw) (length raw)) raw 0 0
      (length-to_bytes_be _ (length raw)) (to_bytes_be-All _ (length raw)) small
      (from_bytes_be-to_bytes_be (from_bytes_be 0 raw) (length raw)
        (below _ (from_bytes_be-lt raw 0 small)))).1
  where
    below : {v : ℕ} (p : ℕ) → v < (0 + 1) * p → v < p
    below p h = omega arith
