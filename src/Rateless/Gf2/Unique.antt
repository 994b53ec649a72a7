-- ===== src/Rateless/Gf2/Unique.antt =====
-- A basis of full rank in oprow/rateless/gf2.py: every variable is a pivot.
use native.Mathlib.Nat.{pow-suc, pow-le-pow_right}
use mathlib.Core.List.{Memᴰ}
use watermarks_po_c.Common.{
  ℕ, suc, ◌+◌, ◌*◌, ◌/◌, ◌%◌, ◌^◌, ◌≤◌, ◌<◌, ◌≡◌, ◌≢◌, refl, ap, sym, ◌∙◌, arith, inl, inr, subst,
  any, map, length, ◌==◌, true, Bool-cases, List, [], ◌∷◌, length, All, All-weaken, All-map, ==_iff,
  two_pow_pos, digit_of_parts,
}
use watermarks_po_c.Rateless.Gf2.{Basis}
use watermarks_po_c.Rateless.Gf2.Digits.{dot, dot_comm}
use watermarks_po_c.Rateless.Gf2.Rows.{coeff, Satisfies, SatisfiesAll}
use watermarks_po_c.Rateless.Gf2.Reduced.{Reduced}
use watermarks_po_c.Rateless.Gf2.Elimination.{Fits}
use watermarks_po_c.Rateless.Gf2.Solution.{dot-two_pow, two_pow-digit, pivots_apart}
use watermarks_po_c.Rateless.Gf2.Distinct.{Apart, length-Apart, present_below, digits_ext}

abbrev pub pivots : Basis → List ℕ
pivots basis = map (λ e. e.0) basis

pivots-Apart : (basis : Basis) → Reduced basis → Apart (pivots basis)
pivots-Apart [] h = tt
pivots-Apart (e ∷ basis) h =
    (All-map (λ m. m ≢ e.0) (λ o. o.0) basis (pivots_apart e basis h), pivots-Apart basis h.3)

pub length-pivots : (basis : Basis) → length (pivots basis) ≡ length basis
length-pivots [] = refl
length-pivots (e ∷ basis) = ap suc (length-pivots basis)

-- The entry of a pivot.
entry_of :
    (i : ℕ) (basis : Basis)
    → any (λ m. m == i) (pivots basis) ≡ true
    → (e : ℕ × ℕ) × Memᴰ e basis × (e.0 ≡ i)
entry_of i [] h = absurd (ground arith)
entry_of i (e ∷ basis) h = elim (Bool-cases (e.0 == i)) [
  | inl here ↦ (e, Memᴰ.head refl, (==_iff _ _).0 here)
  | inr other ↦ let (o, m, is) = entry_of i basis (ground arith) in (o, Memᴰ.tail m, is)
]

All-Mem {ℓ} : (P : ℕ × ℕ → Type ℓ) (basis : Basis) (e : ℕ × ℕ) → All P basis → Memᴰ e basis → P e
All-Mem P [] e h m = elim m [ ]
All-Mem P (o ∷ basis) e (p, ps) (Memᴰ.head same) = subst P (sym same) p
All-Mem P (o ∷ basis) e (p, ps) (Memᴰ.tail m) = All-Mem P basis e ps m

own_coeff : (basis : Basis) (e : ℕ × ℕ) → Reduced basis → Memᴰ e basis → coeff e.1 e.0 ≡ 1
own_coeff [] e h m = elim m [ ]
own_coeff (o ∷ basis) e h (Memᴰ.head same) = subst (λ p. coeff p.1 p.0 ≡ 1) (sym same) h.0
own_coeff (o ∷ basis) e h (Memᴰ.tail m) = own_coeff basis e h.3 m

other_coeff :
    (basis : Basis) (e o : ℕ × ℕ)
    → Reduced basis
    → Memᴰ e basis
    → Memᴰ o basis
    → e.0 ≢ o.0
    → coeff e.1 o.0 ≡ 0
other_coeff [] e o h m n apart = elim m [ ]
other_coeff (p ∷ basis) e o h (Memᴰ.head s) (Memᴰ.head t) apart =
    absurd (apart (ap (λ (x : ℕ × ℕ). x.0) (s ∙ sym t)))
other_coeff (p ∷ basis) e o h (Memᴰ.head s) (Memᴰ.tail m) apart =
    subst (λ x. coeff x.1 o.0 ≡ 0) (sym s) (All-Mem (λ x. coeff p.1 x.0 ≡ 0) basis o h.1 m)
other_coeff (p ∷ basis) e o h (Memᴰ.tail m) (Memᴰ.head t) apart =
    subst (λ x. coeff e.1 x.0 ≡ 0) (sym t) (All-Mem (λ x. coeff x.1 p.0 ≡ 0) basis e h.2 m)
other_coeff (p ∷ basis) e o h (Memᴰ.tail m) (Memᴰ.tail n) apart =
    other_coeff basis e o h.3 m n apart

pub own_digit : (p : ℕ) → 2 ^ p / 2 ^ p % 2 ≡ 1
own_digit p =
    ap (λ (t : ℕ). t % 2)
      (ap (λ (t : ℕ). t / 2 ^ p) (one_times (2 ^ p)) ∙ digit_of_parts 1 (2 ^ p) 0 (two_pow_pos p))
  where
    one_times : (q : ℕ) → q ≡ 1 * q + 0
    one_times q = omega arith

module _ (width : ℕ) (basis : Basis) (reduced : Reduced basis) (fits : Fits width basis)
    (full : length basis ≡ width) where
  pivot_entry : (i : ℕ) → i < width → (e : ℕ × ℕ) × Memᴰ e basis × (e.0 ≡ i)
  pivot_entry i small = entry_of i basis (
      present_below width (pivots basis) (pivots-Apart basis reduced)
        (All-map (λ m. m < width) (λ o. o.0) basis (All-weaken (λ o f. f.0) basis fits))
        (length-pivots basis ∙ full) i small)

  -- The mask of a row is its pivot alone.
  mask_lem : (e : ℕ × ℕ) → Memᴰ e basis → e.1 / 2 ≡ 2 ^ e.0
  mask_lem e m =
      let (small, fit) = All-Mem _ basis e fits m in
      digits_ext width (e.1 / 2) (2 ^ e.0) (omega (arith, pow-suc 2 width)) (pow_lt e.0 small)
        λ j below.
          let (o, mo, is) = pivot_entry j below in
          elim (Bool-cases (e.0 == j)) [
            | inl same ↦
                subst (λ k. e.1 / 2 / 2 ^ k % 2 ≡ 2 ^ e.0 / 2 ^ k % 2) ((==_iff _ _).0 same)
                  (own_coeff basis e reduced m ∙ sym (own_digit e.0))
            | inr different ↦
                subst (λ k. e.1 / 2 / 2 ^ k % 2 ≡ 0) is
                  (other_coeff basis e o reduced m mo (λ same. ground arith))
                ∙ sym (two_pow-digit e.0 j (λ same. ground arith))
          ]
    where
      pow_lt : (p : ℕ) → p < width → 2 ^ p < 2 ^ width
      pow_lt p h = omega (
        arith,
        pow-suc 2 p,
        two_pow_pos p,
        pow-le-pow_right {n = 2} (omega arith) {i = suc p} {j = width} h,
      )

  -- Each digit of an assignment is the right-hand side of the row of that pivot.
  digit_lem :
      (x : ℕ) → SatisfiesAll x basis → (e : ℕ × ℕ) → Memᴰ e basis → x / 2 ^ e.0 % 2 ≡ e.1 % 2
  digit_lem x s e m =
      sym (dot-two_pow x e.0)
      ∙ (dot_comm x (2 ^ e.0)
          ∙ (ap (λ k. dot k x) (sym (mask_lem e m)) ∙ All-Mem (λ o. Satisfies x o.1) basis e s m))

  -- At most one assignment satisfies a basis of full rank.
  pub full_rank_unique :
      (x y : ℕ)
      → x < 2 ^ width
      → y < 2 ^ width
      → SatisfiesAll x basis
      → SatisfiesAll y basis
      → x ≡ y
  full_rank_unique x y p q sx sy = digits_ext width x y p q λ j below.
      let (e, m, is) = pivot_entry j below in
      subst (λ k. x / 2 ^ k % 2 ≡ y / 2 ^ k % 2) is (digit_lem x sx e m ∙ sym (digit_lem y sy e m))

-- A reduced basis has at most as many rows as there are variables.
pub length-Reduced :
    (width : ℕ) (basis : Basis) → Reduced basis → Fits width basis → length basis ≤ width
length-Reduced width basis reduced fits = omega (
  arith,
  length-pivots basis,
  length-Apart width (pivots basis) (pivots-Apart basis reduced)
      (All-map (λ m. m < width) (λ o. o.0) basis (All-weaken (λ o f. f.0) basis fits)),
)
