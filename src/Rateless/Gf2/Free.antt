-- ===== src/Rateless/Gf2/Free.antt =====
-- A basis of less than full rank in oprow/rateless/gf2.py: a variable that is no pivot can be changed.
use watermarks_po_c.Common.{
  ℕ, suc, ◌+◌, ◌*◌, ◌/◌, ◌%◌, ◌^◌, ◌<◌, ◌≡◌, ◌≢◌, refl, ap, ap₂, sym, ◌∙◌, arith, bit_xor,
  bit_xor-lt, two_pow_pos, map, length, [], ◌∷◌, All, All-weaken, All-map, All-map_back, All-zip,
}
use native.Mathlib.Nat.{pow-suc, pow-le-pow_right}
use watermarks_po_c.Rateless.Gf2.{Basis, read_solution}
use watermarks_po_c.Rateless.Gf2.Digits.{dot, dot-bit_xor, dot_comm}
use watermarks_po_c.Rateless.Gf2.Rows.{coeff, Satisfies, SatisfiesAll}
use watermarks_po_c.Rateless.Gf2.Reduced.{Reduced}
use watermarks_po_c.Rateless.Gf2.Elimination.{Fits}
use watermarks_po_c.Rateless.Gf2.Distinct.{absent_below}
use watermarks_po_c.Rateless.Gf2.Unique.{length-pivots, own_digit}
use watermarks_po_c.Rateless.Gf2.Solution.{
  dot-two_pow, digit-bit_xor, read_solution-Satisfies, read_solution-lt, read_solution-free,
}

-- The right-hand side of a row becomes its coefficient of the variable `i`.
relabel : ℕ → ℕ × ℕ → ℕ × ℕ
relabel i e = (e.0, e.1 / 2 * 2 + coeff e.1 i)

relabel-mask : (i : ℕ) (e : ℕ × ℕ) → (relabel i e).1 / 2 ≡ e.1 / 2
unfolding relabel
relabel-mask i e = omega arith

relabel-coeff : (i : ℕ) (e : ℕ × ℕ) (j : ℕ) → coeff (relabel i e).1 j ≡ coeff e.1 j
relabel-coeff i e j = ap (λ (m : ℕ). m / 2 ^ j % 2) (relabel-mask i e)

relabel-rhs : (i : ℕ) (e : ℕ × ℕ) → (relabel i e).1 % 2 ≡ coeff e.1 i
unfolding relabel
relabel-rhs i e = omega arith

relabel-pivot : (i : ℕ) (e : ℕ × ℕ) → (relabel i e).0 ≡ e.0
unfolding relabel
relabel-pivot i e = refl

relabel-Reduced : (i : ℕ) (basis : Basis) → Reduced basis → Reduced (map (relabel i) basis)
unfolding relabel
relabel-Reduced i [] h = tt
relabel-Reduced i (e ∷ basis) (own, clears, frees, rest) = (
  relabel-coeff i e e.0 ∙ own,
  All-map _ (relabel i) basis (All-weaken (λ o c. relabel-coeff i e o.0 ∙ c) basis clears),
  All-map _ (relabel i) basis (All-weaken (λ o c. relabel-coeff i o e.0 ∙ c) basis frees),
  relabel-Reduced i basis rest,
)

module _ (width : ℕ) (basis : Basis) (reduced : Reduced basis) (fits : Fits width basis) (i : ℕ)
    (small : i < width) (free : All (λ o. o.0 ≢ i) basis) where
  relabeled : Basis
  relabeled = map (relabel i) basis

  -- What every row is orthogonal to.
  kernel : ℕ
  unfolding relabeled
  kernel = bit_xor (read_solution relabeled) (2 ^ i)

  kernel-lt : kernel < 2 ^ width
  unfolding kernel relabeled relabel
  kernel-lt =
      bit_xor-lt width (read_solution (map (relabel i) basis)) (2 ^ i)
        (read_solution-lt width (map (relabel i) basis) (relabel-Reduced i basis reduced)
          (All-map _ (relabel i) basis (All-weaken (λ o f. f.0) basis fits)))
        (omega (
          arith,
          pow-suc 2 i,
          two_pow_pos i,
          pow-le-pow_right {n = 2} (omega arith) {i = suc i} {j = width} small,
        ))

  kernel-digit : kernel / 2 ^ i % 2 ≡ 1
  unfolding kernel relabeled relabel
  kernel-digit =
      digit-bit_xor (read_solution (map (relabel i) basis)) (2 ^ i) i
      ∙ ap₂ (λ (a b : ℕ). (a + b) % 2)
          (read_solution-free (map (relabel i) basis) i (relabel-Reduced i basis reduced)
            (All-map _ (relabel i) basis free))
          (own_digit i)

  kernel-dot : All (λ o. dot (o.1 / 2) kernel ≡ 0) basis
  unfolding kernel relabeled
  kernel-dot =
      All-weaken
        (λ o s.
          dot_comm (o.1 / 2) (bit_xor (read_solution (map (relabel i) basis)) (2 ^ i))
          ∙ (dot-bit_xor (read_solution (map (relabel i) basis)) (2 ^ i) (o.1 / 2)
              ∙ (ap₂ (λ (a b : ℕ). (a + b) % 2)
                    (dot_comm (read_solution (map (relabel i) basis)) (o.1 / 2)
                      ∙ (ap (λ m. dot m (read_solution (map (relabel i) basis)))
                            (sym (relabel-mask i o))
                          ∙ (s ∙ relabel-rhs i o)))
                    (dot_comm (2 ^ i) (o.1 / 2) ∙ dot-two_pow (o.1 / 2) i)
                  ∙ twice (coeff o.1 i))))
        basis
        (All-map_back (λ o. Satisfies (read_solution (map (relabel i) basis)) o.1) (relabel i) basis
          (read_solution-Satisfies (map (relabel i) basis) (relabel-Reduced i basis reduced)))
    where
      twice : (c : ℕ) → (c + c) % 2 ≡ 0
      twice c = omega arith

  other_assignment :
      (x : ℕ)
      → x < 2 ^ width
      → SatisfiesAll x basis
      → (y : ℕ) × (y < 2 ^ width) × (y ≢ x) × SatisfiesAll y basis
  other_assignment x bound s = (
    bit_xor x kernel,
    bit_xor-lt width x kernel bound kernel-lt,
    λ same. moved (x / 2 ^ i % 2) (omega arith) (
        sym (ap (λ (v : ℕ). v / 2 ^ i % 2) same)
        ∙ (digit-bit_xor x kernel i ∙ ap (λ (d : ℕ). (x / 2 ^ i % 2 + d) % 2) kernel-digit)),
    All-zip
        (λ o orthogonal satisfied.
          dot_comm (o.1 / 2) (bit_xor x kernel)
          ∙ (dot-bit_xor x kernel (o.1 / 2)
              ∙ (ap₂ (λ (a b : ℕ). (a + b) % 2) (dot_comm x (o.1 / 2) ∙ satisfied)
                    (dot_comm kernel (o.1 / 2) ∙ orthogonal)
                  ∙ omega arith)))
        basis kernel-dot s,
  )
    where
      moved : (d : ℕ) → d < 2 → d ≡ (d + 1) % 2 → ⊥
      moved d h e = omega (arith, h, e)

-- Below full rank, an assignment of the rows is never the only one.
pub other_solution :
    (width : ℕ) (basis : Basis) (x : ℕ)
    → Reduced basis
    → Fits width basis
    → length basis < width
    → x < 2 ^ width
    → SatisfiesAll x basis
    → (y : ℕ) × (y < 2 ^ width) × (y ≢ x) × SatisfiesAll y basis
other_solution width basis x reduced fits short bound s =
    let (i, small, out) =
      absent_below width (map (λ o. o.0) basis) (omega (arith, short, length-pivots basis)) in
    other_assignment width basis reduced fits i small
      (All-map_back (λ m. m ≢ i) (λ o. o.0) basis out) x bound s
