-- ===== src/Rateless/Gf2/Solve.antt =====
-- `solve_gf2` of oprow/rateless/gf2.py as a whole.
use mathlib.Core.Bool.{true≢false}
use watermarks_po_c.Common.{
  ◌≢◌, ◌⊎◌, ℕ, ◌+◌, ◌^◌, ◌<◌, ◌≤◌, ◌≡◌, ◌↔◌, refl, ap, sym, ◌∙◌, arith, inl, inr, subst, ◌==◌,
  if◌then◌else◌, true, false, Bool-cases, List, [], length, All, All-weaken, none, some, ok,
  >>=-eq-ok, raise_if, validation_error,
}
use watermarks_po_c.Rateless.Gf2.{
  Basis, Gf2SolveResult, solved, missing_rank, read_solution, solve_gf2,
}
use watermarks_po_c.Rateless.Gf2.Elimination.{Solves, GoodBasis}
use watermarks_po_c.Rateless.Gf2.Loop.{Outcome, solve_loop-Outcome, Valid, solve_loop-returns}
use watermarks_po_c.Rateless.Gf2.Solution.{read_solution-Satisfies, read_solution-lt}
use watermarks_po_c.Rateless.Gf2.Free.{other_solution}
use watermarks_po_c.Rateless.Gf2.Unique.{full_rank_unique, length-Reduced}

solve_gf2-Outcome :
    (equations : List (ℕ × ℕ)) (width : ℕ) (r : Gf2SolveResult)
    → solve_gf2 equations width ≡ ok r
    → Outcome width [] equations r
unfolding solve_gf2
solve_gf2-Outcome equations width r e =
    let (done, positive, e1) =
      >>=-eq-ok (raise_if (width == 0) (validation_error "GF(2) width must be positive")) _ e in
    solve_loop-Outcome width [] 0 0 equations r (record { is_reduced = tt; fits = tt }) e1

-- A system that the solver calls inconsistent has no solution, and one that it calls consistent has one.
pub solve_gf2-consistent :
    (equations : List (ℕ × ℕ)) (width : ℕ) (r : Gf2SolveResult)
    → solve_gf2 equations width ≡ ok r
    → (r.consistent ≡ true) ↔ ((x : ℕ) × Solves x equations)
solve_gf2-consistent equations width r e = elim (solve_gf2-Outcome equations width r e) [
  | Outcome.inconsistent last good c w n sol never ↦
      (λ h. absurd (true≢false (sym h ∙ c)), λ (x, s). absurd (never x tt s))
  | Outcome.consistent last good c w n sol to from ↦ (
    λ h. (
      read_solution last,
      (from (read_solution last) (read_solution-Satisfies last good.is_reduced)).1,
    ),
    λ p. c,
  )
]

-- When the solver reports a solution, that number fits in the width and satisfies every
-- equation, and no other number of that width does.
pub solve_gf2_unique :
    (equations : List (ℕ × ℕ)) (width : ℕ) (r : Gf2SolveResult) (solution : ℕ)
    → solve_gf2 equations width ≡ ok r
    → r.solution ≡ some solution
    → (solution < 2 ^ width)
      × Solves solution equations
      × ((x : ℕ) → x < 2 ^ width → Solves x equations → x ≡ solution)
solve_gf2_unique equations width r solution e found = elim (solve_gf2-Outcome equations width r e) [
  | Outcome.inconsistent last good c w n sol never ↦ absurd (none_lem (sym sol ∙ found))
  | Outcome.consistent last good c w n sol to from ↦
      let (full, read) = reads last (sym sol ∙ found) in
      let satisfied = read_solution-Satisfies last good.is_reduced in
      (
        subst (λ (s : ℕ). s < 2 ^ width) read
            (read_solution-lt width last good.is_reduced (All-weaken (λ o f. f.0) last good.fits)),
        subst (λ s. Solves s equations) read (from (read_solution last) satisfied).1,
        λ x small solves.
            full_rank_unique width last good.is_reduced good.fits full x (read_solution last) small
              (read_solution-lt width last good.is_reduced (All-weaken (λ o f. f.0) last good.fits))
              (to x tt solves) satisfied
            ∙ read,
      )
]
  where
    none_lem : {s : ℕ} → none ≡ some s → ⊥
    none_lem e = cc

    reads :
        (last : Basis)
        → (if length last == width then some (read_solution last) else none) ≡ some solution
        → (length last ≡ width) × (read_solution last ≡ solution)
    reads last e = ground arith

-- The rank never exceeds the width, and the count of missing equations is what is left to it.
pub solve_gf2-rank :
    (equations : List (ℕ × ℕ)) (width : ℕ) (r : Gf2SolveResult)
    → solve_gf2 equations width ≡ ok r
    → (r.rank ≤ width) × (r.rank + missing_rank r ≡ width)
solve_gf2-rank equations width r e = elim (solve_gf2-Outcome equations width r e) [
  | Outcome.inconsistent last good c w n sol never ↦ rank_lem last good w n
  | Outcome.consistent last good c w n sol to from ↦ rank_lem last good w n
]
  where
    rank_lem :
        (last : Basis)
        → GoodBasis width last
        → r.width ≡ width
        → r.rank ≡ length last
        → (r.rank ≤ width) × (r.rank + missing_rank r ≡ width)
    rank_lem last good w n =
        let bound = length-Reduced width last good.is_reduced good.fits in
        (omega arith, omega arith)

-- The solver returns a result for every system of a positive width whose masks fit in it and
-- whose right-hand sides are bits.
pub solve_gf2-returns :
    (equations : List (ℕ × ℕ)) (width : ℕ)
    → 0 < width
    → All (Valid width) equations
    → (r : Gf2SolveResult) × (solve_gf2 equations width ≡ ok r)
unfolding solve_gf2
solve_gf2-returns equations width positive valid =
    let (r, e) = solve_loop-returns width equations [] 0 0 positive valid in
    (r, rw (zero_lem width positive) e)
  where
    zero_lem : (w : ℕ) → 0 < w → (w == 0) ≡ false
    zero_lem w p = ground arith

-- On a system that an assignment of the width solves, the solver reports that assignment when it is the
-- only one of the width, and otherwise reports no solution: then some other one solves the system too.
pub solve_gf2-finds :
    (equations : List (ℕ × ℕ)) (width : ℕ) (r : Gf2SolveResult) (x : ℕ)
    → solve_gf2 equations width ≡ ok r
    → x < 2 ^ width
    → Solves x equations
    → ((solved r ≡ true)
        × (r.solution ≡ some x)
        × ((y : ℕ) → y < 2 ^ width → Solves y equations → y ≡ x))
      ⊎ ((solved r ≡ false)
          × (r.solution ≡ none)
          × (y : ℕ) × (y < 2 ^ width)
          × (y ≢ x)
          × Solves y equations)
solve_gf2-finds equations width r x e small solves = elim (solve_gf2-Outcome equations width r e) [
  | Outcome.inconsistent last good c w n sol never ↦ absurd (never x tt solves)
  | Outcome.consistent last good c w n sol to from ↦ elim (Bool-cases (length last == width)) [
    | inl full ↦
        let read : r.solution ≡ some (read_solution last) = sol ∙ rw full refl in
        let (bound, ok_solution, only) =
          solve_gf2_unique equations width r (read_solution last) e read in
        let same : x ≡ read_solution last = only x small solves in
        inl (
          rw c (rw read (rw w (rw n (rw full refl)))),
          read ∙ ap some (sym same),
          λ y below also. only y below also ∙ sym same,
        )
    | inr short ↦
        let (y, below, other, also) =
          other_solution width last x good.is_reduced good.fits (fewer last good short) small
            (to x tt solves) in
        inr (
          rw w (rw n (rw short (rw c refl))),
          sol ∙ rw short refl,
          y,
          below,
          other,
          (from y also).1,
        )
  ]
]
  where
    fewer :
        (last : Basis) → GoodBasis width last → (length last == width) ≡ false → length last < width
    fewer last good short =
        below (length last) (length-Reduced width last good.is_reduced good.fits) short
      where
        below : (n : ℕ) → n ≤ width → (n == width) ≡ false → n < width
        below n bound e = ground arith
