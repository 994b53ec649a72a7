-- ===== src/Rateless/Gf2/Loop.antt =====
-- The results of `solve_gf2` of oprow/rateless/gf2.py, in terms of the assignments of the equations.
use watermarks_po_c.Common.{
  ℕ, suc, ◌^◌, ◌<◌, ◌≡◌, refl, arith, subst, ◌==◌, if◌then◌else◌, true, false, List, [], ◌∷◌,
  length, All, some, none, Result, ok, >>=-eq-ok, lt→not-leb, lt→ltb, Result-ok-inj,
}
use watermarks_po_c.Rateless.Gf2.{
  Basis, Gf2SolveResult, Step, contradiction, redundant_row, new_basis, add_equation, validate_row,
  classify_row, reduce_row, sorted_descending, augmented, read_solution, final_result,
  inconsistent_result, solve_loop,
}
use watermarks_po_c.Rateless.Gf2.Rows.{SatisfiesAll}
use watermarks_po_c.Rateless.Gf2.Elimination.{Solves, GoodBasis, Effect, add_equation-Effect}

-- The two ways in which the loop ends.
pub data Outcome (width : ℕ) (basis : Basis) (equations : List (ℕ × ℕ)) (r : Gf2SolveResult)
    : Type 0 where
  inconsistent :
      (last : Basis)
      → GoodBasis width last
      → r.consistent ≡ false
      → r.width ≡ width
      → r.rank ≡ length last
      → r.solution ≡ none
      → ((x : ℕ) → SatisfiesAll x basis → Solves x equations → ⊥)
      → Outcome width basis equations r
  consistent :
      (last : Basis)
      → GoodBasis width last
      → r.consistent ≡ true
      → r.width ≡ width
      → r.rank ≡ length last
      → r.solution ≡ (if length last == width then some (read_solution last) else none)
      → ((x : ℕ) → SatisfiesAll x basis → Solves x equations → SatisfiesAll x last)
      → ((x : ℕ) → SatisfiesAll x last → SatisfiesAll x basis × Solves x equations)
      → Outcome width basis equations r

-- The rest of the loop, after one equation.
abbrev continue_with : ℕ → Basis → ℕ → ℕ → List (ℕ × ℕ) → Step → Result Gf2SolveResult
continue_with width basis seen redundant equations contradiction =
    ok (inconsistent_result width basis (suc seen) redundant)
continue_with width basis seen redundant equations redundant_row =
    solve_loop width basis (suc seen) (suc redundant) equations
continue_with width basis seen redundant equations (new_basis more) =
    solve_loop width more (suc seen) redundant equations

Outcome-step :
    (width : ℕ) (basis : Basis) (seen redundant mask rhs : ℕ) (equations : List (ℕ × ℕ))
    (r : Gf2SolveResult) (step : Step)
    → GoodBasis width basis
    → Effect width basis mask rhs step
    → continue_with width basis seen redundant equations step ≡ ok r
    → ((b : Basis) (s n : ℕ)
        → GoodBasis width b
        → solve_loop width b s n equations ≡ ok r
        → Outcome width b equations r)
    → Outcome width basis ((mask, rhs) ∷ equations) r
unfolding inconsistent_result
Outcome-step width basis seen redundant mask rhs equations r contradiction good
      (Effect.refuted never) e rest =
    subst (Outcome width basis ((mask, rhs) ∷ equations)) (Result-ok-inj e)
      (Outcome.inconsistent basis good refl refl refl refl (λ x s h. never x s h.0))
Outcome-step width basis seen redundant mask rhs equations r redundant_row good
      (Effect.implied always) e rest =
    implied_outcome (rest basis (suc seen) (suc redundant) good e)
  where
    implied_outcome :
        Outcome width basis equations r → Outcome width basis ((mask, rhs) ∷ equations) r
    implied_outcome (Outcome.inconsistent last g c w n sol never) =
        Outcome.inconsistent last g c w n sol (λ x s h. never x s h.1)
    implied_outcome (Outcome.consistent last g c w n sol to from) =
        Outcome.consistent last g c w n sol (λ x s h. to x s h.1)
          (λ x s. let (old, solves) = from x s in (old, (always x old, solves)))
Outcome-step width basis seen redundant mask rhs equations r (new_basis more) good
      (Effect.extended more' g back forth) e rest =
    extended_outcome (rest more (suc seen) redundant g e)
  where
    extended_outcome :
        Outcome width more equations r → Outcome width basis ((mask, rhs) ∷ equations) r
    extended_outcome (Outcome.inconsistent last g c w n sol never) =
        Outcome.inconsistent last g c w n sol (λ x s h. never x (forth x s h.0) h.1)
    extended_outcome (Outcome.consistent last g c w n sol to from) =
        Outcome.consistent last g c w n sol (λ x s h. to x (forth x s h.0) h.1)
          (λ x s.
            let (mid, solves) = from x s in let (old, this) = back x mid in (old, (this, solves)))

pub solve_loop-Outcome :
    (width : ℕ) (basis : Basis) (seen redundant : ℕ) (equations : List (ℕ × ℕ)) (r : Gf2SolveResult)
    → GoodBasis width basis
    → solve_loop width basis seen redundant equations ≡ ok r
    → Outcome width basis equations r
unfolding solve_loop final_result
solve_loop-Outcome width basis seen redundant [] r good e =
    subst (Outcome width basis []) (Result-ok-inj e)
      (Outcome.consistent basis good refl refl refl refl (λ x s h. s) (λ x s. (s, tt)))
solve_loop-Outcome width basis seen redundant ((mask, rhs) ∷ equations) r good e =
    let (step, es, e1) = >>=-eq-ok (add_equation width basis mask rhs) _ e in
    Outcome-step width basis seen redundant mask rhs equations r step good
      (add_equation-Effect width basis mask rhs step good es) e1
      (λ b s n g h. solve_loop-Outcome width b s n equations r g h)

-- An equation that `validate_row` accepts, at a positive width.
abbrev pub Valid : ℕ → ℕ × ℕ → Type 0
Valid width e = (e.0 < 2 ^ width) × (e.1 < 2)

validate_row-Valid :
    (width mask rhs : ℕ)
    → 0 < width
    → Valid width (mask, rhs)
    → validate_row mask rhs width ≡ ok (mask, rhs)
unfolding validate_row
validate_row-Valid width mask rhs p (small, bit) =
    rw (zero_lem width p) (rw (lt→not-leb (2 ^ width) mask small) (rw (lt→ltb rhs 2 bit) refl))
  where
    zero_lem : (w : ℕ) → 0 < w → (w == 0) ≡ false
    zero_lem w p = ground arith

add_equation-Valid :
    (width : ℕ) (basis : Basis) (mask rhs : ℕ)
    → 0 < width
    → Valid width (mask, rhs)
    → add_equation width basis mask rhs
      ≡ ok (classify_row basis (reduce_row (sorted_descending basis) (augmented mask rhs)))
unfolding add_equation
add_equation-Valid width basis mask rhs p v = rw (validate_row-Valid width mask rhs p v) refl

continue_with-returns :
    (width : ℕ) (basis : Basis) (seen redundant : ℕ) (equations : List (ℕ × ℕ)) (step : Step)
    → ((b : Basis) (s n : ℕ) → (r : Gf2SolveResult) × (solve_loop width b s n equations ≡ ok r))
    → (r : Gf2SolveResult) × (continue_with width basis seen redundant equations step ≡ ok r)
continue_with-returns width basis seen redundant equations contradiction rest = (_, refl)
continue_with-returns width basis seen redundant equations redundant_row rest =
    rest basis (suc seen) (suc redundant)
continue_with-returns width basis seen redundant equations (new_basis more) rest =
    rest more (suc seen) redundant

pub solve_loop-returns :
    (width : ℕ) (equations : List (ℕ × ℕ)) (basis : Basis) (seen redundant : ℕ)
    → 0 < width
    → All (Valid width) equations
    → (r : Gf2SolveResult) × (solve_loop width basis seen redundant equations ≡ ok r)
unfolding solve_loop
solve_loop-returns width [] basis seen redundant p valid = (_, refl)
solve_loop-returns width ((mask, rhs) ∷ equations) basis seen redundant p (v, vs) =
    let step = classify_row basis (reduce_row (sorted_descending basis) (augmented mask rhs)) in
    let (r, rest) =
      continue_with-returns width basis seen redundant equations step
        (λ b s n. solve_loop-returns width equations b s n p vs) in
    (r, rw (add_equation-Valid width basis mask rhs p v) rest)
