-- ===== src/Rateless/Records/Difference.antt =====
-- Lists that differ at one position: what one wrong bit or byte of oprow/rateless/records.py gives.
use watermarks_po_c.Common.{
  ℕ, suc, ◌≡◌, ◌≢◌, refl, sym, ap, ap₂, ◌⊎◌, inl, inr, arith, List, [], ◌∷◌, ◌++◌, length,
  append_inj,
}

-- Lists of one length that differ at one position.
unfoldable pub OneDifference : List ℕ → List ℕ → Type 0
OneDifference [] ys = ⊥
OneDifference (x ∷ xs) [] = ⊥
OneDifference (x ∷ xs) (y ∷ ys) = ((x ≢ y) × (xs ≡ ys)) ⊎ ((x ≡ y) × OneDifference xs ys)

pub OneDifference-irrefl : (xs : List ℕ) → ¬ OneDifference xs xs
unfolding OneDifference
OneDifference-irrefl [] d = d
OneDifference-irrefl (x ∷ xs) (inl d) = d.0 refl
OneDifference-irrefl (x ∷ xs) (inr d) = OneDifference-irrefl xs d.1

pub OneDifference-length : (xs ys : List ℕ) → OneDifference xs ys → length xs ≡ length ys
unfolding OneDifference
OneDifference-length [] ys d = absurd d
OneDifference-length (x ∷ xs) [] d = absurd d
OneDifference-length (x ∷ xs) (y ∷ ys) (inl d) = ap (λ zs. suc (length zs)) d.1
OneDifference-length (x ∷ xs) (y ∷ ys) (inr d) = ap suc (OneDifference-length xs ys d.1)

-- The difference is in the front or in the rest.
pub OneDifference-append :
    (xs ys xs' ys' : List ℕ)
    → length xs ≡ length ys
    → OneDifference (xs ++ xs') (ys ++ ys')
    → (OneDifference xs ys × (xs' ≡ ys')) ⊎ ((xs ≡ ys) × OneDifference xs' ys')
unfolding OneDifference
OneDifference-append [] [] xs' ys' e d = inr (refl, d)
OneDifference-append [] (y ∷ ys) xs' ys' e d = absurd (omega (arith, e))
OneDifference-append (x ∷ xs) [] xs' ys' e d = absurd (omega (arith, e))
OneDifference-append (x ∷ xs) (y ∷ ys) xs' ys' e (inl d) =
    let (here, rest) = append_inj xs ys xs' ys' (omega (arith, e)) d.1 in
    inl (inl (d.0, here), rest)
OneDifference-append (x ∷ xs) (y ∷ ys) xs' ys' e (inr d) =
    elim (OneDifference-append xs ys xs' ys' (omega (arith, e)) d.1) [
      | inl (here, same) ↦ inl (inr (d.0, here), same)
      | inr (same, later) ↦ inr (ap₂ ◌∷◌ d.0 same, later)
    ]

pub OneDifference-parts :
    (xs ys : List ℕ)
    → OneDifference xs ys
    → (before : List ℕ) × (a : ℕ) × (b : ℕ) × (after : List ℕ) × (a ≢ b)
      × (xs ≡ before ++ a ∷ after)
      × (ys ≡ before ++ b ∷ after)
unfolding OneDifference
OneDifference-parts [] ys d = absurd d
OneDifference-parts (x ∷ xs) [] d = absurd d
OneDifference-parts (x ∷ xs) (y ∷ ys) (inl d) = ([], x, y, xs, d.0, refl, ap (◌∷◌ y) (sym d.1))
OneDifference-parts (x ∷ xs) (y ∷ ys) (inr d) =
    let (before, a, b, after, ne, ex, ey) = OneDifference-parts xs ys d.1 in
    (x ∷ before, a, b, after, ne, ap (◌∷◌ x) ex, ap₂ ◌∷◌ (sym d.0) ey)
