-- ===== src/Rateless/Gf2/Reduced.antt =====
-- The reduced echelon form that the basis of oprow/rateless/gf2.py is kept in.
use watermarks_po_c.Common.{
  ℕ, ◌-◌, ◌/◌, ◌<◌, ◌≡◌, refl, ◌∙◌, arith, inl, inr, bit_xor, subst, if◌then◌else◌, true, false,
  Bool-cases, [], ◌∷◌, ◌++◌, All, All-append, ==_iff, ltb,
}
use watermarks_po_c.Rateless.Gf2.{
  has_pivot, Basis, insert_descending, sorted_descending, reduce_row, clear_pivot, with_pivot,
  bit_length,
}
use watermarks_po_c.Rateless.Gf2.Digits.{bit_length-top}
use watermarks_po_c.Rateless.Gf2.Rows.{coeff, coeff-bit_xor}

-- Each pivot has the coefficient 1 in its own row and 0 in all others.
abbrev pub Reduced : Basis → Type 0
Reduced [] = Unit
Reduced (e ∷ basis) =
    (coeff e.1 e.0 ≡ 1)
    × All (λ o. coeff e.1 o.0 ≡ 0) basis
    × All (λ o. coeff o.1 e.0 ≡ 0) basis
    × Reduced basis

swap : (e o : ℕ × ℕ) (basis : Basis) → Reduced (e ∷ o ∷ basis) → Reduced (o ∷ e ∷ basis)
swap e o basis (own, (clear_o, clears), (free_o, frees), (own_o, clears_o, frees_o, rest)) =
    (own_o, (free_o, clears_o), (clear_o, frees_o), (own, clears, frees, rest))

insert_below :
    (e o : ℕ × ℕ) (basis : Basis)
    → ltb e.0 o.0 ≡ true
    → insert_descending e (o ∷ basis) ≡ o ∷ insert_descending e basis
unfolding insert_descending
insert_below e o basis h = rw h refl

insert_above :
    (e o : ℕ × ℕ) (basis : Basis)
    → ltb e.0 o.0 ≡ false
    → insert_descending e (o ∷ basis) ≡ e ∷ o ∷ basis
unfolding insert_descending
insert_above e o basis h = rw h refl

-- Sorting keeps what holds of every entry.
module _ {ℓ} (P : ℕ × ℕ → Type ℓ) where
  All-insert_descending :
      (e : ℕ × ℕ) (basis : Basis) → P e → All P basis → All P (insert_descending e basis)
  unfolding insert_descending
  All-insert_descending e [] p ps = (p, tt)
  All-insert_descending e (o ∷ basis) p (po, ps) = elim (Bool-cases (ltb e.0 o.0)) [
    | inl below ↦ rw below (po, All-insert_descending e basis p ps)
    | inr above ↦ rw above (p, (po, ps))
  ]

  All-insert_descending_back :
      (e : ℕ × ℕ) (basis : Basis) → All P (insert_descending e basis) → P e × All P basis
  unfolding insert_descending
  All-insert_descending_back e [] ps = (ps.0, tt)
  All-insert_descending_back e (o ∷ basis) ps = elim (Bool-cases (ltb e.0 o.0)) [
    | inl below ↦
        let moved = subst (All P) (insert_below e o basis below) ps in
        let (p, rest) = All-insert_descending_back e basis moved.1 in (p, (moved.0, rest))
    | inr above ↦ subst (All P) (insert_above e o basis above) ps
  ]

  pub All-sorted_descending : (basis : Basis) → All P basis → All P (sorted_descending basis)
  unfolding sorted_descending
  All-sorted_descending [] ps = tt
  All-sorted_descending (e ∷ basis) (p, ps) =
      All-insert_descending e (sorted_descending basis) p (All-sorted_descending basis ps)

  pub All-sorted_descending_back : (basis : Basis) → All P (sorted_descending basis) → All P basis
  unfolding sorted_descending
  All-sorted_descending_back [] ps = tt
  All-sorted_descending_back (e ∷ basis) ps =
      let (p, rest) = All-insert_descending_back e (sorted_descending basis) ps in
      (p, All-sorted_descending_back basis rest)

insert_descending-Reduced :
    (e : ℕ × ℕ) (basis : Basis) → Reduced (e ∷ basis) → Reduced (insert_descending e basis)
unfolding insert_descending
insert_descending-Reduced e [] r = r
insert_descending-Reduced e (o ∷ basis) r = elim (Bool-cases (ltb e.0 o.0)) [
  | inl below ↦
      let (own_o, (clear_e, clears), (free_e, frees), rest) = swap e o basis r in
      rw below (
        own_o,
        All-insert_descending (λ p. coeff o.1 p.0 ≡ 0) e basis clear_e clears,
        All-insert_descending (λ p. coeff p.1 o.0 ≡ 0) e basis free_e frees,
        insert_descending-Reduced e basis rest,
      )
  | inr above ↦ rw above r
]

pub sorted_descending-Reduced : (basis : Basis) → Reduced basis → Reduced (sorted_descending basis)
unfolding sorted_descending
sorted_descending-Reduced [] r = tt
sorted_descending-Reduced (e ∷ basis) (own, clears, frees, rest) =
    insert_descending-Reduced e (sorted_descending basis) (
      own,
      All-sorted_descending (λ p. coeff e.1 p.0 ≡ 0) basis clears,
      All-sorted_descending (λ p. coeff p.1 e.0 ≡ 0) basis frees,
      sorted_descending-Reduced basis rest,
    )

eliminate-pivot :
    (row pivot pivot_row : ℕ)
    → coeff pivot_row pivot ≡ 1
    → coeff (if has_pivot row pivot then bit_xor row pivot_row else row) pivot ≡ 0
eliminate-pivot row pivot pivot_row own = elim (Bool-cases (has_pivot row pivot)) [
  | inl e ↦ rw e (omega (arith, coeff-bit_xor row pivot_row pivot, (==_iff _ _).0 e))
  | inr e ↦ rw e (ground arith)
]

eliminate-other :
    (row pivot pivot_row i : ℕ)
    → coeff pivot_row i ≡ 0
    → coeff (if has_pivot row pivot then bit_xor row pivot_row else row) i ≡ coeff row i
eliminate-other row pivot pivot_row i free = elim (Bool-cases (has_pivot row pivot)) [
  | inl e ↦ rw e (omega (arith, coeff-bit_xor row pivot_row i))
  | inr e ↦ rw e refl
]

-- At a variable that no row of the basis has, the reduction changes nothing.
reduce_row-free :
    (basis : Basis) (row i : ℕ)
    → All (λ o. coeff o.1 i ≡ 0) basis
    → coeff (reduce_row basis row) i ≡ coeff row i
unfolding reduce_row
reduce_row-free [] row i frees = refl
reduce_row-free ((p, r) ∷ basis) row i (free, frees) =
    reduce_row-free basis (if has_pivot row p then bit_xor row r else row) i frees
    ∙ eliminate-other row p r i free

-- A reduced row has no pivot of the basis.
pub reduce_row-clear :
    (basis : Basis) (row : ℕ)
    → Reduced basis
    → All (λ o. coeff (reduce_row basis row) o.0 ≡ 0) basis
unfolding reduce_row
reduce_row-clear [] row h = tt
reduce_row-clear ((p, r) ∷ basis) row (own, clears, frees, rest) = (
  reduce_row-free basis (if has_pivot row p then bit_xor row r else row) p frees
      ∙ eliminate-pivot row p r own,
  reduce_row-clear basis (if has_pivot row p then bit_xor row r else row) rest,
)

-- The existing rows, cleared of the new pivot.
clear_pivot-free :
    (pivot row : ℕ) (basis : Basis)
    → coeff row pivot ≡ 1
    → All (λ o. coeff o.1 pivot ≡ 0) (clear_pivot pivot row basis)
unfolding clear_pivot
clear_pivot-free pivot row [] own = tt
clear_pivot-free pivot row ((p, r) ∷ basis) own =
    (eliminate-pivot r pivot row own, clear_pivot-free pivot row basis own)

clear_pivot-clears :
    (pivot row i : ℕ) (basis : Basis)
    → coeff row i ≡ 0
    → All (λ o. coeff o.1 i ≡ 0) basis
    → All (λ o. coeff o.1 i ≡ 0) (clear_pivot pivot row basis)
unfolding clear_pivot
clear_pivot-clears pivot row i [] h frees = tt
clear_pivot-clears pivot row i ((p, r) ∷ basis) h (free, frees) =
    (eliminate-other r pivot row i h ∙ free, clear_pivot-clears pivot row i basis h frees)

-- The pivots stay.
pub clear_pivot-pivots {ℓ} :
    (P : ℕ → Type ℓ) (pivot row : ℕ) (basis : Basis)
    → All (λ o. P o.0) basis
    → All (λ o. P o.0) (clear_pivot pivot row basis)
unfolding clear_pivot
clear_pivot-pivots P pivot row [] h = tt
clear_pivot-pivots P pivot row ((p, r) ∷ basis) (h, hs) =
    (h, clear_pivot-pivots P pivot row basis hs)

clear_pivot-rows :
    (pivot row : ℕ) (e : ℕ) (er : ℕ) (basis : Basis)
    → coeff row e ≡ 0
    → All (λ o. coeff row o.0 ≡ 0) basis
    → All (λ o. coeff er o.0 ≡ 0) basis
    → All
        (λ o. coeff (if has_pivot er pivot then bit_xor er row else er) o.0 ≡ 0)
        (clear_pivot pivot row basis)
unfolding clear_pivot
clear_pivot-rows pivot row e er [] h ks cs = tt
clear_pivot-rows pivot row e er ((p, r) ∷ basis) h (k, ks) (c, cs) =
    (eliminate-other er pivot row p k ∙ c, clear_pivot-rows pivot row e er basis h ks cs)

clear_pivot-Reduced :
    (pivot row : ℕ) (basis : Basis)
    → All (λ o. coeff row o.0 ≡ 0) basis
    → Reduced basis
    → Reduced (clear_pivot pivot row basis)
unfolding clear_pivot
clear_pivot-Reduced pivot row [] ks h = tt
clear_pivot-Reduced pivot row ((p, r) ∷ basis) (k, ks) (own, clears, frees, rest) = (
  eliminate-other r pivot row p k ∙ own,
  clear_pivot-rows pivot row p r basis k ks clears,
  clear_pivot-clears pivot row p basis k frees,
  clear_pivot-Reduced pivot row basis ks rest,
)

-- A row at the end of a reduced basis.
append-Reduced :
    (basis : Basis) (pivot row : ℕ)
    → coeff row pivot ≡ 1
    → All (λ o. coeff row o.0 ≡ 0) basis
    → All (λ o. coeff o.1 pivot ≡ 0) basis
    → Reduced basis
    → Reduced (basis ++ (pivot, row) ∷ [])
append-Reduced [] pivot row own ks frees h = (own, tt, tt, tt)
append-Reduced (e ∷ basis) pivot row own (k, ks) (f, fs) (own_e, clears, frees, rest) = (
  own_e,
  All-append (λ o. coeff e.1 o.0 ≡ 0) basis ((pivot, row) ∷ []) clears (f, tt),
  All-append (λ o. coeff o.1 e.0 ≡ 0) basis ((pivot, row) ∷ []) frees (k, tt),
  append-Reduced basis pivot row own ks fs rest,
)

pub with_pivot-Reduced :
    (basis : Basis) (row : ℕ)
    → 0 < row / 2
    → All (λ o. coeff row o.0 ≡ 0) basis
    → Reduced basis
    → Reduced (with_pivot basis row)
unfolding with_pivot
with_pivot-Reduced basis row pos_row ks h =
    let pivot = bit_length (row / 2) - 1 in
    let own : coeff row pivot ≡ 1 = omega (arith, (bit_length-top (row / 2) pos_row).0) in
    append-Reduced (clear_pivot pivot row basis) pivot row own
      (clear_pivot-pivots (λ p. coeff row p ≡ 0) pivot row basis ks)
      (clear_pivot-free pivot row basis own) (clear_pivot-Reduced pivot row basis ks h)
