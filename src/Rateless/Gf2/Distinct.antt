-- ===== src/Rateless/Gf2/Distinct.antt =====
-- Distinct numbers below a bound, and numbers given by their digits, for oprow/rateless/gf2.py.
use native.Mathlib.Nat.{pow-suc, pow-succ', div-div-eq-div-mul}
use watermarks_po_c.Common.{
  ℕ, zero, suc, ◌/◌, ◌%◌, ◌^◌, ◌≤◌, ◌<◌, ◌≡◌, ◌≢◌, refl, ap, sym, ◌∙◌, arith, inl, inr, subst, not,
  any, keep, length, ◌==◌, true, false, Bool-cases, List, [], ◌∷◌, length, All, ==_iff,
}

-- Distinct numbers.
abbrev pub Apart : List ℕ → Type 0
Apart [] = Unit
Apart (n ∷ ns) = All (λ m. m ≢ n) ns × Apart ns

abbrev without : ℕ → List ℕ → List ℕ
without n ns = keep (λ m. not (m == n)) ns

not-== : (m n : ℕ) → m ≢ n → (m == n) ≡ false
not-== m n h = ground arith

without-All {ℓ} : (P : ℕ → Type ℓ) (n : ℕ) (ns : List ℕ) → All P ns → All P (without n ns)
without-All P n [] h = tt
without-All P n (m ∷ ns) (p, ps) = elim (Bool-cases (m == n)) [
  | inl e ↦ rw e (without-All P n ns ps)
  | inr e ↦ rw e (p, without-All P n ns ps)
]

without-Apart : (n : ℕ) (ns : List ℕ) → Apart ns → Apart (without n ns)
without-Apart n [] h = tt
without-Apart n (m ∷ ns) (h, hs) = elim (Bool-cases (m == n)) [
  | inl e ↦ rw e (without-Apart n ns hs)
  | inr e ↦ rw e (without-All (λ k. k ≢ m) n ns h, without-Apart n ns hs)
]

without-absent : (n : ℕ) (ns : List ℕ) → All (λ m. m ≢ n) ns → without n ns ≡ ns
without-absent n [] h = refl
without-absent n (m ∷ ns) (h, hs) = rw (not-== m n h) (ap (◌∷◌ m) (without-absent n ns hs))

length-without : (n : ℕ) (ns : List ℕ) → Apart ns → length ns ≤ suc (length (without n ns))
length-without n [] h = omega arith
length-without n (m ∷ ns) (h, hs) = elim (Bool-cases (m == n)) [
  | inl e ↦ rw e (
      omega (
        arith,
        ap length (without-absent n ns (subst (λ k. All (λ i. i ≢ k) ns) ((==_iff m n).0 e) h)),
      ))
  | inr e ↦ rw e (omega (arith, length-without n ns hs))
]

without-lt : (n : ℕ) (ns : List ℕ) → All (λ m. m < suc n) ns → All (λ m. m < n) (without n ns)
without-lt n [] h = tt
without-lt n (m ∷ ns) (h, hs) = elim (Bool-cases (m == n)) [
  | inl e ↦ rw e (without-lt n ns hs)
  | inr e ↦ rw e (ground arith, without-lt n ns hs)
]

-- Distinct numbers below `n` are at most `n` many.
pub length-Apart : (n : ℕ) (ns : List ℕ) → Apart ns → All (λ m. m < n) ns → length ns ≤ n
length-Apart zero [] h l = omega arith
length-Apart zero (m ∷ ns) h (l, ls) = absurd (omega arith)
length-Apart (suc n) ns h l = omega (
  arith,
  length-without n ns h,
  length-Apart n (without n ns) (without-Apart n ns h) (without-lt n ns l),
)

any-absent : (i : ℕ) (ns : List ℕ) → any (λ m. m == i) ns ≡ false → All (λ m. m ≢ i) ns
any-absent i [] h = tt
any-absent i (m ∷ ns) h = (λ e. ground arith, any-absent i ns (ground arith))

-- When they are `n` many, each number below `n` is among them.
pub present_below :
    (n : ℕ) (ns : List ℕ)
    → Apart ns
    → All (λ m. m < n) ns
    → length ns ≡ n
    → (i : ℕ) → i < n
    → any (λ m. m == i) ns ≡ true
present_below n ns h l size i small = elim (Bool-cases (any (λ m. m == i) ns)) [
  | inl e ↦ e
  | inr e ↦ absurd (omega (arith, length-Apart n (i ∷ ns) (any-absent i ns e, h) (small, l)))
]

-- Numbers with the same digits.
pub digits_ext :
    (width a b : ℕ)
    → a < 2 ^ width
    → b < 2 ^ width
    → ((j : ℕ) → j < width → a / 2 ^ j % 2 ≡ b / 2 ^ j % 2)
    → a ≡ b
digits_ext zero a b p q h = omega arith
digits_ext (suc width) a b p q h =
    let halves : a / 2 ≡ b / 2 =
      digits_ext width (a / 2) (b / 2) (omega (arith, pow-suc 2 width))
        (omega (arith, pow-suc 2 width))
        (λ j small.
          ap (λ (t : ℕ). t % 2) (div_lem j a)
          ∙ (h (suc j) (omega arith) ∙ ap (λ (t : ℕ). t % 2) (sym (div_lem j b)))) in
    omega (arith, halves, h 0 (omega arith))
  where
    div_lem : (j v : ℕ) → v / 2 / 2 ^ j ≡ v / 2 ^ suc j
    div_lem j v = rw (pow-succ' 2 j) (div-div-eq-div-mul v 2 (2 ^ j))

All-without_back :
    (n i : ℕ) (ns : List ℕ) → i < n → All (λ m. m ≢ i) (without n ns) → All (λ m. m ≢ i) ns
All-without_back n i [] small h = tt
All-without_back n i (m ∷ ns) small h = elim (Bool-cases (m == n)) [
  | inl e ↦ (
    λ same. ground arith,
    All-without_back n i ns small (subst (All (λ m. m ≢ i)) (removed n m ns e) h),
  )
  | inr e ↦
      let (here, later) = subst (All (λ m. m ≢ i)) (kept n m ns e) h in
      (here, All-without_back n i ns small later)
]
  where
    removed : (n m : ℕ) (ns : List ℕ) → (m == n) ≡ true → without n (m ∷ ns) ≡ without n ns
    removed n m ns e = rw e refl

    kept : (n m : ℕ) (ns : List ℕ) → (m == n) ≡ false → without n (m ∷ ns) ≡ m ∷ without n ns
    kept n m ns e = rw e refl

length-without_le : (n : ℕ) (ns : List ℕ) → length (without n ns) ≤ length ns
length-without_le n [] = omega arith
length-without_le n (m ∷ ns) = elim (Bool-cases (m == n)) [
  | inl e ↦ rw e (omega (arith, length-without_le n ns))
  | inr e ↦ rw e (omega (arith, length-without_le n ns))
]

length-without_lt :
    (n : ℕ) (ns : List ℕ) → any (λ m. m == n) ns ≡ true → length (without n ns) < length ns
length-without_lt n [] h = absurd (ground arith)
length-without_lt n (m ∷ ns) h = elim (Bool-cases (m == n)) [
  | inl e ↦ rw e (omega (arith, length-without_le n ns))
  | inr e ↦ rw e (omega (arith, length-without_lt n ns (ground arith)))
]

-- Fewer than `n` numbers leave one below `n` out.
pub absent_below : (n : ℕ) (ns : List ℕ) → length ns < n → (i : ℕ) × (i < n) × All (λ m. m ≢ i) ns
absent_below zero ns h = absurd (omega arith)
absent_below (suc n) ns h = elim (Bool-cases (any (λ m. m == n) ns)) [
  | inl e ↦
      let (i, small, out) =
        absent_below n (without n ns) (omega (arith, h, length-without_lt n ns e)) in
      (i, omega (arith, small), All-without_back n i ns small out)
  | inr e ↦ (n, omega arith, any-absent n ns e)
]
