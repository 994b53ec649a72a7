-- ===== src/Rateless/Gf2.antt =====
-- oprow/rateless/gf2.py: linear algebra over GF(2). A row is a number: the right-hand side is its
-- lowest bit, and the mask of the variables is the rest. Python's `bit_count` and
-- `bit_length` are written by recursion on the digits.
pub mod Digits
pub mod Rows
pub mod Reduced
pub mod Elimination
pub mod Loop
pub mod Solution
pub mod Distinct
pub mod Unique
pub mod Free
pub mod Solve
use watermarks_po_c.Common.{
  ℕ, zero, suc, ◌+◌, ◌-◌, ◌*◌, ◌/◌, ◌%◌, ◌^◌, bit_and, bit_or, bit_xor, ltb, leb, ◌==◌,
  if◌then◌else◌, Bool, true, false, not, ◌&&◌, Option, none, some, List, [], ◌∷◌, ◌++◌, length,
  Result, ok, err, ◌>>=◌, ◌>>◌, raise_if, validation_error,
}
use watermarks_po_c.Core.Hashes.{to_bytes_be, from_bytes_be}

-- The ones among the lowest digits of a number; `value` digits are enough for `value`.
unfoldable pub count_ones : ℕ → ℕ → ℕ
count_ones zero value = 0
count_ones (suc digits) value = elim (value == 0) [
  | true ↦ 0
  | false ↦ count_ones digits (value / 2) + value % 2
]

abbrev pub bit_count : ℕ → ℕ
bit_count value = count_ones value value

unfoldable pub count_digits : ℕ → ℕ → ℕ
count_digits zero value = 0
count_digits (suc digits) value = elim (value == 0) [
  | true ↦ 0
  | false ↦ suc (count_digits digits (value / 2))
]

abbrev pub bit_length : ℕ → ℕ
bit_length value = count_digits value value

-- A number is never negative.
abbrev pub parity_int : ℕ → ℕ
parity_int value = bit_count value % 2

abbrev pub bytes_to_int_be : List ℕ → ℕ
bytes_to_int_be raw = from_bytes_be 0 raw

unfoldable pub int_to_fixed_bytes_be : ℕ → ℕ → Result (List ℕ)
int_to_fixed_bytes_be value size = do
  raise_if (leb (2 ^ (8 * size)) value) (validation_error "integer does not fit in the bytes")
  ok (to_bytes_be value size)

pub record Gf2SolveResult : Type 0 where
  pub width : ℕ
  pub equations_seen : ℕ
  pub rank : ℕ
  pub consistent : Bool
  pub solution : Option ℕ
  pub redundant_equations : ℕ
  pub inconsistent_equations : ℕ

abbrev pub is_solution : Option ℕ → Bool
is_solution none = false
is_solution (some value) = true

abbrev pub solved : Gf2SolveResult → Bool
solved r = r.consistent && (r.rank == r.width && is_solution r.solution)

-- Natural subtraction stops at 0, as the code's `max(0, ...)` does.
abbrev pub missing_rank : Gf2SolveResult → ℕ
missing_rank r = r.width - r.rank

unfoldable pub validate_row : ℕ → ℕ → ℕ → Result (ℕ × ℕ)
validate_row mask rhs width = do
  raise_if (width == 0) (validation_error "GF(2) width must be positive")
  raise_if (leb (2 ^ width) mask) (validation_error "GF(2) row mask exceeds width")
  raise_if (not (ltb rhs 2)) (validation_error "GF(2) RHS must be 0/1")
  ok (mask, rhs)

-- `(mask << 1) | rhs` for a bit `rhs`.
abbrev pub augmented : ℕ → ℕ → ℕ
augmented mask rhs = mask * 2 + rhs

-- `((row >> 1) >> pivot) & 1`
abbrev pub has_pivot : ℕ → ℕ → Bool
has_pivot row pivot = row / 2 / 2 ^ pivot % 2 == 1

-- The dict from pivots to rows. A pivot stands once.
abbrev pub Basis : Type 0
Basis = List (ℕ × ℕ)

-- `sorted(basis.keys(), reverse=True)`, with the row of each pivot.
unfoldable pub insert_descending : ℕ × ℕ → Basis → Basis
insert_descending entry [] = entry ∷ []
insert_descending entry (other ∷ basis) =
    let rest = insert_descending entry basis in
    if ltb entry.0 other.0 then other ∷ rest else entry ∷ other ∷ basis

unfoldable pub sorted_descending : Basis → Basis
sorted_descending [] = []
sorted_descending (entry ∷ basis) = insert_descending entry (sorted_descending basis)

-- The reduction against every pivot.
unfoldable pub reduce_row : Basis → ℕ → ℕ
reduce_row [] row = row
reduce_row ((pivot, pivot_row) ∷ basis) row =
    reduce_row basis (if has_pivot row pivot then bit_xor row pivot_row else row)

-- The new pivot is removed from the existing rows.
unfoldable pub clear_pivot : ℕ → ℕ → Basis → Basis
clear_pivot pivot row [] = []
clear_pivot pivot row ((existing_pivot, existing_row) ∷ basis) =
    (
      existing_pivot,
      if has_pivot existing_row pivot then bit_xor existing_row row else existing_row,
    )
    ∷ clear_pivot pivot row basis

-- What an equation does to the basis. A new pivot goes to the end of the dict.
pub data Step : Type 0 where
  contradiction redundant_row : Step
  new_basis : Basis → Step

unfoldable pub with_pivot : Basis → ℕ → Basis
with_pivot basis row =
    let pivot = bit_length (row / 2) - 1 in clear_pivot pivot row basis ++ (pivot, row) ∷ []

unfoldable pub classify_row : Basis → ℕ → Step
classify_row basis row =
    if row / 2 == 0
    then (if row % 2 == 1 then contradiction else redundant_row)
    else new_basis (with_pivot basis row)

unfoldable pub add_equation : ℕ → Basis → ℕ → ℕ → Result Step
add_equation width basis mask_raw rhs_raw = do
  (mask, rhs) ← validate_row mask_raw rhs_raw width
  ok (classify_row basis (reduce_row (sorted_descending basis) (augmented mask rhs)))

-- `sol |= 1 << pivot` for the rows with a right-hand side of 1.
unfoldable pub read_solution : Basis → ℕ
read_solution [] = 0
read_solution ((pivot, row) ∷ basis) =
    let rest = read_solution basis in if row % 2 == 1 then bit_or rest (2 ^ pivot) else rest

unfoldable pub final_result : ℕ → Basis → ℕ → ℕ → Gf2SolveResult
final_result width basis seen redundant = record {
  width = width;
  equations_seen = seen;
  rank = length basis;
  consistent = true;
  solution = if length basis == width then some (read_solution basis) else none;
  redundant_equations = redundant;
  inconsistent_equations = 0;
}

unfoldable pub inconsistent_result : ℕ → Basis → ℕ → ℕ → Gf2SolveResult
inconsistent_result width basis seen redundant = record {
  width = width;
  equations_seen = seen;
  rank = length basis;
  consistent = false;
  solution = none;
  redundant_equations = redundant;
  inconsistent_equations = 1;
}

unfoldable pub solve_loop : ℕ → Basis → ℕ → ℕ → List (ℕ × ℕ) → Result Gf2SolveResult
solve_loop width basis seen redundant [] = ok (final_result width basis seen redundant)
solve_loop width basis seen redundant ((mask, rhs) ∷ equations) =
    add_equation width basis mask rhs >>= λ step. elim step [
      | contradiction ↦ ok (inconsistent_result width basis (suc seen) redundant)
      | redundant_row ↦ solve_loop width basis (suc seen) (suc redundant) equations
      | new_basis more ↦ solve_loop width more (suc seen) redundant equations
    ]

unfoldable pub solve_gf2 : List (ℕ × ℕ) → ℕ → Result Gf2SolveResult
solve_gf2 equations width = do
  raise_if (width == 0) (validation_error "GF(2) width must be positive")
  solve_loop width [] 0 0 equations
