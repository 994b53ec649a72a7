-- ===== src/Rateless/Gf2/Rows.antt =====
-- Rows of oprow/rateless/gf2.py: their coefficients, and the assignments that satisfy them.
use watermarks_po_c.Common.{
  ℕ, zero, suc, ◌+◌, ◌/◌, ◌%◌, ◌^◌, ◌<◌, ◌≡◌, ap, ap₂, sym, ◌∙◌, arith, inl, inr, bit_xor,
  half-bit_xor, mod-bit_xor, if◌then◌else◌, Bool-cases, [], ◌∷◌, All,
}
use native.Mathlib.Nat.{pow-succ', div-div-eq-div-mul}
use watermarks_po_c.Rateless.Gf2.{has_pivot, augmented, Basis, reduce_row, clear_pivot}
use watermarks_po_c.Rateless.Gf2.Digits.{dot, dot-bit_xor, dot-lt}

-- The coefficient of a variable in a row.
abbrev pub coeff : ℕ → ℕ → ℕ
coeff row i = row / 2 / 2 ^ i % 2

pub div_two_pow-bit_xor : (k a b : ℕ) → bit_xor a b / 2 ^ k ≡ bit_xor (a / 2 ^ k) (b / 2 ^ k)
div_two_pow-bit_xor zero a b = div_one (bit_xor a b) ∙ sym (ap₂ bit_xor (div_one a) (div_one b))
  where
    div_one : (v : ℕ) → v / 2 ^ 0 ≡ v
    div_one v = omega arith
div_two_pow-bit_xor (suc k) a b =
    div_lem (bit_xor a b)
    ∙ (ap (λ (t : ℕ). t / 2 ^ k) (half-bit_xor a b)
        ∙ (div_two_pow-bit_xor k (a / 2) (b / 2) ∙ sym (ap₂ bit_xor (div_lem a) (div_lem b))))
  where
    div_lem : (v : ℕ) → v / 2 ^ suc k ≡ v / 2 / 2 ^ k
    div_lem v = rw (pow-succ' 2 k) (sym (div-div-eq-div-mul v 2 (2 ^ k)))

pub coeff-bit_xor : (r s i : ℕ) → coeff (bit_xor r s) i ≡ (coeff r i + coeff s i) % 2
coeff-bit_xor r s i =
    ap (λ (t : ℕ). t / 2 ^ i % 2) (half-bit_xor r s)
    ∙ (ap (λ (t : ℕ). t % 2) (div_two_pow-bit_xor i (r / 2) (s / 2))
        ∙ omega (arith, mod-bit_xor (r / 2 / 2 ^ i) (s / 2 / 2 ^ i)))

-- An assignment, as a number, satisfies a row.
abbrev pub Satisfies : ℕ → ℕ → Type 0
Satisfies x row = dot (row / 2) x ≡ row % 2

pub Satisfies-bit_xor :
    (x r s : ℕ)
    → Satisfies x r
    → (Satisfies x (bit_xor s r) → Satisfies x s) × (Satisfies x s → Satisfies x (bit_xor s r))
Satisfies-bit_xor x r s h = (
  λ e. omega (arith, sum, mod-bit_xor s r, dot-lt (s / 2) x),
  λ e. omega (arith, sum, mod-bit_xor s r),
)
  where
    sum : dot (bit_xor s r / 2) x ≡ (dot (s / 2) x + dot (r / 2) x) % 2
    sum = ap (λ m. dot m x) (half-bit_xor s r) ∙ dot-bit_xor (s / 2) (r / 2) x

pub Satisfies-augmented :
    (x mask rhs : ℕ)
    → rhs < 2
    → (Satisfies x (augmented mask rhs) → dot mask x ≡ rhs)
      × (dot mask x ≡ rhs → Satisfies x (augmented mask rhs))
Satisfies-augmented x mask rhs h =
    (λ e. sym (mask_lem) ∙ (e ∙ rhs_lem), λ e. mask_lem ∙ (e ∙ sym rhs_lem))
  where
    mask_lem : dot (augmented mask rhs / 2) x ≡ dot mask x
    mask_lem = ap (λ m. dot m x) (omega arith)

    rhs_lem : augmented mask rhs % 2 ≡ rhs
    rhs_lem = omega arith

abbrev pub SatisfiesAll : ℕ → Basis → Type 0
SatisfiesAll x basis = All (λ e. Satisfies x e.1) basis

-- The row after the reduction by one pivot.
pub reduced-Satisfies :
    (x row pivot pivot_row : ℕ)
    → Satisfies x pivot_row
    → (Satisfies x (if has_pivot row pivot then bit_xor row pivot_row else row) → Satisfies x row)
      × (Satisfies x row → Satisfies x (if has_pivot row pivot then bit_xor row pivot_row else row))
reduced-Satisfies x row pivot pivot_row h = elim (Bool-cases (has_pivot row pivot)) [
  | inl e ↦ rw e (Satisfies-bit_xor x pivot_row row h)
  | inr e ↦ rw e (λ s. s, λ s. s)
]

pub reduce_row-Satisfies :
    (x : ℕ) (basis : Basis) (row : ℕ)
    → SatisfiesAll x basis
    → (Satisfies x (reduce_row basis row) → Satisfies x row)
      × (Satisfies x row → Satisfies x (reduce_row basis row))
unfolding reduce_row
reduce_row-Satisfies x [] row h = (λ s. s, λ s. s)
reduce_row-Satisfies x ((pivot, pivot_row) ∷ basis) row (h, hs) =
    let (back, forth) = reduced-Satisfies x row pivot pivot_row h in
    let (backs, forths) =
      reduce_row-Satisfies x basis (if has_pivot row pivot then bit_xor row pivot_row else row)
        hs in
    (λ s. back (backs s), λ s. forths (forth s))

pub clear_pivot-Satisfies :
    (x pivot row : ℕ) (basis : Basis)
    → Satisfies x row
    → (SatisfiesAll x (clear_pivot pivot row basis) → SatisfiesAll x basis)
      × (SatisfiesAll x basis → SatisfiesAll x (clear_pivot pivot row basis))
unfolding clear_pivot
clear_pivot-Satisfies x pivot row [] h = (λ s. tt, λ s. tt)
clear_pivot-Satisfies x pivot row ((p, r) ∷ basis) h =
    let (back, forth) = reduced-Satisfies x r pivot row h in
    let (backs, forths) = clear_pivot-Satisfies x pivot row basis h in
    (λ s. (back s.0, backs s.1), λ s. (forth s.0, forths s.1))
