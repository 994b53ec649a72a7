-- ===== src/Rateless/Gf2/Solution.antt =====
-- The solution that `solve_gf2` of oprow/rateless/gf2.py reads from the basis.
use native.Mathlib.Nat.{pow-suc, pow-succ', div-eq_of_lt, pow-le-pow_right, div-div-eq-div-mul}
use watermarks_po_c.Common.{
  ℕ, zero, suc, ◌+◌, ◌*◌, ◌/◌, ◌%◌, ◌^◌, ◌<◌, ◌≡◌, ◌≢◌, refl, ap, ap₂, sym, ◌∙◌, arith, inl, inr,
  subst, bit_xor, bit_or, ◌==◌, if◌then◌else◌, Bool-cases, [], ◌∷◌, All, All-weaken, All-zip,
  ==_iff, bit_or_disjoint, bit_and-two_pow, mod-bit_xor, two_pow_pos, bit_xor-lt,
}
use watermarks_po_c.Rateless.Gf2.{Basis, read_solution, parity_int, count_ones}
use watermarks_po_c.Rateless.Gf2.Digits.{dot, dot-bit_xor, dot_comm, parity_step, parity_zero}
use watermarks_po_c.Rateless.Gf2.Rows.{coeff, div_two_pow-bit_xor, SatisfiesAll}
use watermarks_po_c.Rateless.Gf2.Reduced.{Reduced}

pub digit-bit_xor : (a b q : ℕ) → bit_xor a b / 2 ^ q % 2 ≡ (a / 2 ^ q % 2 + b / 2 ^ q % 2) % 2
digit-bit_xor a b q =
    ap (λ (t : ℕ). t % 2) (div_two_pow-bit_xor q a b)
    ∙ omega (arith, mod-bit_xor (a / 2 ^ q) (b / 2 ^ q))

two_pow_div-half : (p q : ℕ) → 2 ^ suc p / 2 ^ suc q ≡ 2 ^ p / 2 ^ q
two_pow_div-half p q = rw (pow-succ' 2 q) (
    sym (div-div-eq-div-mul (2 ^ suc p) 2 (2 ^ q))
    ∙ ap (λ (t : ℕ). t / 2 ^ q) (omega (arith, pow-suc 2 p)))

pub two_pow-digit : (p q : ℕ) → p ≢ q → 2 ^ p / 2 ^ q % 2 ≡ 0
two_pow-digit zero zero h = absurd (h refl)
two_pow-digit zero (suc q) h =
    ap (λ (t : ℕ). t % 2)
      (div-eq_of_lt {n = 1} {m = 2 ^ suc q} (omega (arith, pow-suc 2 q, two_pow_pos q)))
two_pow-digit (suc p) zero h = omega (arith, pow-suc 2 p)
two_pow-digit (suc p) (suc q) h =
    ap (λ (t : ℕ). t % 2) (two_pow_div-half p q) ∙ two_pow-digit p q (λ e. h (ap suc e))

parity_two_pow : (p : ℕ) → parity_int (2 ^ p) ≡ 1
unfolding count_ones
parity_two_pow zero = refl
parity_two_pow (suc p) =
    omega (arith, parity_step (2 ^ suc p), pow-suc 2 p, parity_two_pow p, ap parity_int (half p))
  where
    half : (p : ℕ) → 2 ^ suc p / 2 ≡ 2 ^ p
    half p = omega (arith, pow-suc 2 p)

-- The inner product with one variable is its coefficient.
pub dot-two_pow : (m p : ℕ) → dot m (2 ^ p) ≡ m / 2 ^ p % 2
unfolding count_ones
dot-two_pow m p = ap parity_int (bit_and-two_pow p m) ∙ digit_lem (m / 2 ^ p % 2) (omega arith)
  where
    parity_none : parity_int 0 ≡ 0
    parity_none = refl

    digit_lem : (c : ℕ) → c < 2 → parity_int (c * 2 ^ p) ≡ c
    digit_lem zero h = ap parity_int {x = 0 * 2 ^ p} {y = 0} (omega arith) ∙ parity_none
    digit_lem (suc zero) h =
        ap parity_int {x = 1 * 2 ^ p} {y = 2 ^ p} (omega arith) ∙ parity_two_pow p
    digit_lem (suc (suc c)) h = absurd (omega arith)

-- The solution as a sum over GF(2).
sum_of : Basis → ℕ
sum_of [] = 0
sum_of ((p, r) ∷ basis) =
    let rest = sum_of basis in if r % 2 == 1 then bit_xor rest (2 ^ p) else rest

sum_of-free : (basis : Basis) (q : ℕ) → All (λ o. o.0 ≢ q) basis → sum_of basis / 2 ^ q % 2 ≡ 0
unfolding sum_of
sum_of-free [] q h = ap (λ (t : ℕ). t % 2) (div-eq_of_lt {n = 0} {m = 2 ^ q} (two_pow_pos q))
sum_of-free ((p, r) ∷ basis) q (h, hs) = elim (Bool-cases (r % 2 == 1)) [
  | inl e ↦ rw e (
      digit-bit_xor (sum_of basis) (2 ^ p) q
      ∙ omega (arith, sum_of-free basis q hs, two_pow-digit p q h))
  | inr e ↦ rw e (sum_of-free basis q hs)
]

-- The pivots of a reduced basis are distinct.
pub pivots_apart : (e : ℕ × ℕ) (basis : Basis) → Reduced (e ∷ basis) → All (λ o. o.0 ≢ e.0) basis
pivots_apart e basis (own, clears, frees, rest) =
    All-weaken (λ o clear same. omega (arith, own, clear, ap (λ i. coeff e.1 i) same)) basis clears

zero_times : (t : ℕ) → 0 * t ≡ 0
zero_times t = omega arith

read_solution-sum_of : (basis : Basis) → Reduced basis → read_solution basis ≡ sum_of basis
unfolding read_solution sum_of
read_solution-sum_of [] h = refl
read_solution-sum_of ((p, r) ∷ basis) h = elim (Bool-cases (r % 2 == 1)) [
  | inl e ↦ rw e (
      ap (λ s. bit_or s (2 ^ p)) (read_solution-sum_of basis h.3)
      ∙ bit_or_disjoint (sum_of basis) (2 ^ p) (
          bit_and-two_pow p (sum_of basis)
          ∙ ap (λ (t : ℕ). t * 2 ^ p) (sum_of-free basis p (pivots_apart (p, r) basis h))
          ∙ zero_times (2 ^ p)))
  | inr e ↦ rw e (read_solution-sum_of basis h.3)
]

-- One entry adds its right-hand side times its coefficient.
dot-sum_of :
    (m p r : ℕ) (basis : Basis)
    → dot m (sum_of ((p, r) ∷ basis)) ≡ (dot m (sum_of basis) + (r % 2) * (m / 2 ^ p % 2)) % 2
unfolding sum_of
dot-sum_of m p r basis = elim (Bool-cases (r % 2 == 1)) [
  | inl e ↦ rw e (
      dot_comm m (bit_xor (sum_of basis) (2 ^ p))
      ∙ (dot-bit_xor (sum_of basis) (2 ^ p) m
          ∙ (ap₂ (λ (a b : ℕ). (a + b) % 2) (dot_comm (sum_of basis) m)
                (dot_comm (2 ^ p) m ∙ dot-two_pow m p)
              ∙ one_lem (dot m (sum_of basis)) (r % 2) (m / 2 ^ p % 2) ((==_iff _ _).0 e))))
  | inr e ↦
      rw e (zero_lem (dot m (sum_of basis)) (r % 2) (m / 2 ^ p % 2) (omega arith) (ground arith))
]
  where
    one_lem : (d b c : ℕ) → b ≡ 1 → (d + c) % 2 ≡ (d + b * c) % 2
    one_lem d b c e = rw e (omega arith)

    zero_lem : (d b c : ℕ) → d < 2 → b ≡ 0 → d ≡ (d + b * c) % 2
    zero_lem d b c h e = rw e (omega arith)

dot-sum_of_free :
    (m : ℕ) (basis : Basis) → All (λ o. m / 2 ^ o.0 % 2 ≡ 0) basis → dot m (sum_of basis) ≡ 0
unfolding sum_of
dot-sum_of_free m [] h = dot_comm m 0 ∙ parity_zero m
dot-sum_of_free m ((p, r) ∷ basis) (h, hs) =
    dot-sum_of m p r basis
    ∙ free_lem (dot m (sum_of basis)) (r % 2) (m / 2 ^ p % 2) (dot-sum_of_free m basis hs) h
  where
    free_lem : (d b c : ℕ) → d ≡ 0 → c ≡ 0 → (d + b * c) % 2 ≡ 0
    free_lem d b c e h = rw e (rw h (omega arith))

sum_of-Satisfies : (basis : Basis) → Reduced basis → SatisfiesAll (sum_of basis) basis
sum_of-Satisfies [] h = tt
sum_of-Satisfies ((p, r) ∷ basis) (own, clears, frees, rest) = (
  dot-sum_of (r / 2) p r basis
      ∙ own_lem (dot (r / 2) (sum_of basis)) (r % 2) (r / 2 / 2 ^ p % 2) (omega arith)
          (dot-sum_of_free (r / 2) basis clears) own,
  All-zip
      (λ o free s.
        dot-sum_of (o.1 / 2) p r basis
        ∙ (other_lem (dot (o.1 / 2) (sum_of basis)) (r % 2) (o.1 / 2 / 2 ^ p % 2) (omega arith) free
            ∙ s))
      basis frees (sum_of-Satisfies basis rest),
)
  where
    own_lem : (d b c : ℕ) → b < 2 → d ≡ 0 → c ≡ 1 → (d + b * c) % 2 ≡ b
    own_lem d b c h e k = rw e (rw k (omega arith))

    other_lem : (d b c : ℕ) → d < 2 → c ≡ 0 → (d + b * c) % 2 ≡ d
    other_lem d b c h k = rw k (omega arith)

-- What the code reads from a reduced basis satisfies each of its rows.
pub read_solution-Satisfies :
    (basis : Basis) → Reduced basis → SatisfiesAll (read_solution basis) basis
read_solution-Satisfies basis h =
    subst (λ x. SatisfiesAll x basis) (sym (read_solution-sum_of basis h))
      (sum_of-Satisfies basis h)

pub read_solution-lt :
    (width : ℕ) (basis : Basis)
    → Reduced basis
    → All (λ o. o.0 < width) basis
    → read_solution basis < 2 ^ width
unfolding sum_of
read_solution-lt width basis h below =
    subst (λ (s : ℕ). s < 2 ^ width) (sym (read_solution-sum_of basis h)) (sum_of-lt basis below)
  where
    pow_lt : (p : ℕ) → p < width → 2 ^ p < 2 ^ width
    pow_lt p h = omega (
      arith,
      pow-suc 2 p,
      two_pow_pos p,
      pow-le-pow_right {n = 2} (omega arith) {i = suc p} {j = width} h,
    )

    sum_of-lt : (basis : Basis) → All (λ o. o.0 < width) basis → sum_of basis < 2 ^ width
    sum_of-lt [] h = two_pow_pos width
    sum_of-lt ((p, r) ∷ basis) (h, hs) = elim (Bool-cases (r % 2 == 1)) [
      | inl e ↦ rw e (bit_xor-lt width (sum_of basis) (2 ^ p) (sum_of-lt basis hs) (pow_lt p h))
      | inr e ↦ rw e (sum_of-lt basis hs)
    ]

-- A variable that is no pivot is 0 in it.
pub read_solution-free :
    (basis : Basis) (i : ℕ)
    → Reduced basis
    → All (λ o. o.0 ≢ i) basis
    → read_solution basis / 2 ^ i % 2 ≡ 0
read_solution-free basis i h out =
    ap (λ (s : ℕ). s / 2 ^ i % 2) (read_solution-sum_of basis h) ∙ sum_of-free basis i out
