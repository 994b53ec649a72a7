-- ===== src/Rateless/Gf2/Elimination.antt =====
-- The elimination loop of `solve_gf2` of oprow/rateless/gf2.py, and the assignments it is about.
use watermarks_po_c.Common.{
  ℕ, suc, ◌-◌, ◌/◌, ◌%◌, ◌^◌, ◌<◌, ◌≡◌, ◌⊎◌, ap, sym, ◌∙◌, arith, inl, inr, bit_xor, subst,
  if◌then◌else◌, Bool-cases, List, [], ◌∷◌, All, All-append, All-append_inv, ltb→lt, bit_xor-lt, ok,
  >>=-eq-ok, Result-ok-inj, ltb,
}
use native.Mathlib.Nat.{pow-suc, pow-le-pow_right}
use watermarks_po_c.Rateless.Gf2.{
  has_pivot, Basis, sorted_descending, reduce_row, clear_pivot, with_pivot, bit_length, Step,
  contradiction, redundant_row, new_basis, classify_row, add_equation, validate_row, augmented,
}
use watermarks_po_c.Rateless.Gf2.Digits.{dot, bit_length-top, parity_zero}
use watermarks_po_c.Rateless.Gf2.Rows.{
  coeff, Satisfies, SatisfiesAll, Satisfies-augmented, reduce_row-Satisfies, clear_pivot-Satisfies,
}
use watermarks_po_c.Rateless.Gf2.Reduced.{
  Reduced, All-sorted_descending, All-sorted_descending_back, sorted_descending-Reduced,
  reduce_row-clear, with_pivot-Reduced,
}

-- An assignment satisfies every equation.
abbrev pub Solves : ℕ → List (ℕ × ℕ) → Type 0
Solves x equations = All (λ e. dot e.0 x ≡ e.1) equations

-- The pivots and the rows fit in the width.
abbrev pub Fits : ℕ → Basis → Type 0
Fits width basis = All (λ e. (e.0 < width) × (e.1 < 2 ^ suc width)) basis

-- What a row does to the basis.
classify_row-cases :
    (basis : Basis) (row : ℕ)
    → ((classify_row basis row ≡ contradiction) × (row / 2 ≡ 0) × (row % 2 ≡ 1))
      ⊎ (((classify_row basis row ≡ redundant_row) × (row / 2 ≡ 0) × (row % 2 ≡ 0))
          ⊎ ((classify_row basis row ≡ new_basis (with_pivot basis row)) × (0 < row / 2)))
unfolding classify_row
classify_row-cases basis row = ground arith

Satisfies-zero :
    (x row : ℕ) → row / 2 ≡ 0 → (Satisfies x row → row % 2 ≡ 0) × (row % 2 ≡ 0 → Satisfies x row)
Satisfies-zero x row h = (λ e. sym e ∙ none_left, λ e. none_left ∙ sym e)
  where
    none_left : dot (row / 2) x ≡ 0
    none_left = ap (λ m. dot m x) h ∙ parity_zero x

reduce_row-lt :
    (width : ℕ) (basis : Basis) (row : ℕ)
    → Fits width basis
    → row < 2 ^ suc width
    → reduce_row basis row < 2 ^ suc width
unfolding reduce_row
reduce_row-lt width [] row fs h = h
reduce_row-lt width ((p, r) ∷ basis) row (f, fs) h =
    reduce_row-lt width basis (if has_pivot row p then bit_xor row r else row) fs
      (elim (Bool-cases (has_pivot row p)) [
        | inl e ↦ rw e (bit_xor-lt (suc width) row r h f.1)
        | inr e ↦ rw e h
      ])

clear_pivot-Fits :
    (width pivot row : ℕ) (basis : Basis)
    → row < 2 ^ suc width
    → Fits width basis
    → Fits width (clear_pivot pivot row basis)
unfolding clear_pivot
clear_pivot-Fits width pivot row [] h fs = tt
clear_pivot-Fits width pivot row ((p, r) ∷ basis) h (f, fs) = (
  (
    f.0,
    elim (Bool-cases (has_pivot r pivot)) [
      | inl e ↦ rw e (bit_xor-lt (suc width) r row f.1 h)
      | inr e ↦ rw e f.1
    ],
  ),
  clear_pivot-Fits width pivot row basis h fs,
)

pivot-lt : (width mask : ℕ) → 0 < mask → mask < 2 ^ width → bit_length mask - 1 < width
pivot-lt width mask p h = elim (Bool-cases (ltb (bit_length mask - 1) width)) [
  | inl e ↦ ltb→lt _ width e
  | inr e ↦ absurd (
      omega (
        arith,
        (bit_length-top mask p).1,
        pow-le-pow_right {n = 2} (omega arith) {i = width} {j = bit_length mask - 1} (ground arith),
      ))
]

with_pivot-Fits :
    (width : ℕ) (basis : Basis) (row : ℕ)
    → 0 < row / 2
    → row < 2 ^ suc width
    → Fits width basis
    → Fits width (with_pivot basis row)
unfolding with_pivot
with_pivot-Fits width basis row pos_row h fs =
    All-append _ (clear_pivot _ row basis) _ (clear_pivot-Fits width _ row basis h fs)
      ((pivot-lt width (row / 2) pos_row (omega (arith, pow-suc 2 width)), h), tt)

with_pivot-Satisfies :
    (x : ℕ) (basis : Basis) (row : ℕ)
    → (SatisfiesAll x (with_pivot basis row) → SatisfiesAll x basis × Satisfies x row)
      × (SatisfiesAll x basis → Satisfies x row → SatisfiesAll x (with_pivot basis row))
unfolding with_pivot
with_pivot-Satisfies x basis row = (
  λ s.
      let (cleared, own) =
        All-append_inv _ (clear_pivot (bit_length (row / 2) - 1) row basis) _ s in
      ((clear_pivot-Satisfies x (bit_length (row / 2) - 1) row basis own.0).0 cleared, own.0),
  λ s own.
      All-append _ (clear_pivot (bit_length (row / 2) - 1) row basis) _
        ((clear_pivot-Satisfies x (bit_length (row / 2) - 1) row basis own).1 s) (own, tt),
)

-- The row of an equation, reduced: on the assignments of the basis it says what the equation says.
abbrev reduced : Basis → ℕ → ℕ → ℕ
reduced basis mask rhs = reduce_row (sorted_descending basis) (augmented mask rhs)

reduced-Satisfies :
    (x : ℕ) (basis : Basis) (mask rhs : ℕ)
    → rhs < 2
    → SatisfiesAll x basis
    → (Satisfies x (reduced basis mask rhs) → dot mask x ≡ rhs)
      × (dot mask x ≡ rhs → Satisfies x (reduced basis mask rhs))
reduced-Satisfies x basis mask rhs h s =
    let (back, forth) =
      reduce_row-Satisfies x (sorted_descending basis) (augmented mask rhs)
        (All-sorted_descending (λ e. Satisfies x e.1) basis s) in
    let (to, from) = Satisfies-augmented x mask rhs h in (λ e. to (back e), λ e. forth (from e))

validate_row-ok :
    (mask_raw rhs_raw width : ℕ) (r : ℕ × ℕ)
    → validate_row mask_raw rhs_raw width ≡ ok r
    → ((mask_raw, rhs_raw) ≡ r) × (mask_raw < 2 ^ width) × (rhs_raw < 2)
unfolding validate_row
validate_row-ok mask_raw rhs_raw width r e = ground arith

-- The good state of the loop.
pub record GoodBasis (width : ℕ) (basis : Basis) : Type 0 where
  pub is_reduced : Reduced basis
  pub fits : Fits width basis

good_extension :
    (width : ℕ) (basis : Basis) (mask rhs : ℕ)
    → GoodBasis width basis
    → mask < 2 ^ width
    → rhs < 2
    → 0 < reduced basis mask rhs / 2
    → GoodBasis width (with_pivot basis (reduced basis mask rhs))
good_extension width basis mask rhs good small bit pos_row =
    let row = reduced basis mask rhs in
    let sorted = sorted_descending basis in
    record {
      is_reduced =
          with_pivot-Reduced basis row pos_row
            (All-sorted_descending_back (λ o. coeff row o.0 ≡ 0) basis
              (reduce_row-clear sorted (augmented mask rhs)
                (sorted_descending-Reduced basis good.is_reduced)))
            good.is_reduced;
      fits =
          with_pivot-Fits width basis row pos_row
            (reduce_row-lt width sorted (augmented mask rhs)
              (All-sorted_descending _ basis good.fits) (omega (arith, pow-suc 2 width)))
            good.fits;
    }

-- What one equation does to a good basis.
pub data Effect (width : ℕ) (basis : Basis) (mask rhs : ℕ) : Step → Type 0 where
  refuted :
      ((x : ℕ) → SatisfiesAll x basis → dot mask x ≡ rhs → ⊥)
      → Effect width basis mask rhs contradiction
  implied :
      ((x : ℕ) → SatisfiesAll x basis → dot mask x ≡ rhs)
      → Effect width basis mask rhs redundant_row
  extended :
      (more : Basis)
      → GoodBasis width more
      → ((x : ℕ) → SatisfiesAll x more → SatisfiesAll x basis × (dot mask x ≡ rhs))
      → ((x : ℕ) → SatisfiesAll x basis → dot mask x ≡ rhs → SatisfiesAll x more)
      → Effect width basis mask rhs (new_basis more)

pub add_equation-Effect :
    (width : ℕ) (basis : Basis) (mask rhs : ℕ) (step : Step)
    → GoodBasis width basis
    → add_equation width basis mask rhs ≡ ok step
    → Effect width basis mask rhs step
unfolding add_equation
add_equation-Effect width basis mask rhs step good e =
    let ((m, b), ev, e1) = >>=-eq-ok (validate_row mask rhs width) _ e in
    let (same, small, bit) = validate_row-ok mask rhs width (m, b) ev in
    let step_eq : classify_row basis (reduced basis mask rhs) ≡ step =
      ap (λ (p : ℕ × ℕ). classify_row basis (reduced basis p.0 p.1)) same ∙ Result-ok-inj e1 in
    let row = reduced basis mask rhs in
    subst (Effect width basis mask rhs) step_eq (elim (classify_row-cases basis row) [
      | inl (is, no_mask, odd) ↦ subst (Effect width basis mask rhs) (sym is) (
          Effect.refuted λ x s h. omega (
            arith,
            odd,
            (Satisfies-zero x row no_mask).0 ((reduced-Satisfies x basis mask rhs bit s).1 h),
          ))
      | inr (inl (is, no_mask, even)) ↦ subst (Effect width basis mask rhs) (sym is) (
          Effect.implied λ x s.
            (reduced-Satisfies x basis mask rhs bit s).0 ((Satisfies-zero x row no_mask).1 even))
      | inr (inr (is, pos_row)) ↦ subst (Effect width basis mask rhs) (sym is) (
          Effect.extended (with_pivot basis row)
            (good_extension width basis mask rhs good small bit pos_row)
            (λ x s.
              let (old, own) = (with_pivot-Satisfies x basis row).0 s in
              (old, (reduced-Satisfies x basis mask rhs bit old).0 own))
            (λ x s h.
              (with_pivot-Satisfies x basis row).1 s
                ((reduced-Satisfies x basis mask rhs bit s).1 h)))
    ])
