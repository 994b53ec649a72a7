-- ===== src/Rateless/Equations/Masks.antt =====
-- The masks that oprow/rateless/equations.py derives from hash blocks.
use native.Mathlib.Nat.{pow-suc, pow-le-pow_right, mod-lt}
use watermarks_po_c.Common.{
  ℕ, zero, suc, ◌+◌, ◌*◌, ◌%◌, ◌^◌, ◌<◌, ◌≡◌, arith, inl, inr, Bool-cases, if◌then◌else◌, any, ◌==◌,
  leb, length, Option, some, List, [], ◌∷◌, All, bit_or-lt, two_pow_pos, ok, >>=-eq-ok, Result,
  Result-ok-inj, raise_if, validation_error, ltb, ascii, subst,
}
use watermarks_po_c.Core.Hashes.{HashFunction}
use watermarks_po_c.Rateless.Equations.{
  RatelessEquationProfile, hash_block, add_position, mask_of, Progress, mask_found,
  positions_so_far, sample_chunks, sample_blocks, sparse_mask_for_equation,
}

-- Positions below the width.
abbrev Positions : ℕ → List ℕ → Type 0
Positions width positions = All (λ p. p < width) positions

mask_of-lt :
    (width : ℕ) (positions : List ℕ) → Positions width positions → mask_of positions < 2 ^ width
unfolding mask_of
mask_of-lt width [] h = two_pow_pos width
mask_of-lt width (p ∷ positions) (h, hs) =
    bit_or-lt width (mask_of positions) (2 ^ p) (mask_of-lt width positions hs) (
      omega (
        arith,
        pow-suc 2 p,
        two_pow_pos p,
        pow-le-pow_right {n = 2} (omega arith) {i = suc p} {j = width} h,
      ))

add_position-Positions :
    (width p : ℕ) (positions : List ℕ)
    → p < width
    → Positions width positions
    → Positions width (add_position p positions)
unfolding add_position
add_position-Positions width p positions h hs = elim (Bool-cases (any (λ q. q == p) positions)) [
  | inl e ↦ rw e hs
  | inr e ↦ rw e (h, hs)
]

-- What a block leads to: a mask that fits, or positions that fit.
abbrev ProgressFits : ℕ → Progress → Type 0
ProgressFits width (mask_found mask) = mask < 2 ^ width
ProgressFits width (positions_so_far positions) = Positions width positions

-- The test of the weight, once the positions are known to fit.
weight_test :
    (profile : RatelessEquationProfile) (more : List ℕ) (rest : Progress)
    → Positions profile.width more
    → ProgressFits profile.width rest
    → ProgressFits profile.width
        (if leb profile.equation_weight (length more) then mask_found (mask_of more) else rest)
weight_test profile more rest h k = elim (Bool-cases (leb profile.equation_weight (length more))) [
  | inl enough ↦ rw enough (mask_of-lt profile.width more h)
  | inr few ↦ rw few k
]

sample_chunks-ProgressFits :
    (profile : RatelessEquationProfile) (positions bytes : List ℕ)
    → 0 < profile.width
    → Positions profile.width positions
    → ProgressFits profile.width (sample_chunks profile positions bytes)
unfolding sample_chunks
sample_chunks-ProgressFits profile positions [] h hs = hs
sample_chunks-ProgressFits profile positions (b ∷ []) h hs =
    let more = add_position-Positions profile.width (b % profile.width) positions (mod-lt b h) hs in
    weight_test profile (add_position (b % profile.width) positions)
      (positions_so_far (add_position (b % profile.width) positions)) more more
sample_chunks-ProgressFits profile positions (high ∷ low ∷ bytes) h hs =
    let position = (high * 256 + low) % profile.width in
    let more =
      add_position-Positions profile.width position positions (mod-lt (high * 256 + low) h) hs in
    weight_test profile (add_position position positions)
      (sample_chunks profile (add_position position positions) bytes) more
      (sample_chunks-ProgressFits profile (add_position position positions) bytes h more)

after_block-lt :
    (width : ℕ) (progress : Progress) (next : List ℕ → Result (Option ℕ)) (mask : ℕ)
    → ProgressFits width progress
    → ((more : List ℕ) → Positions width more → next more ≡ ok (some mask) → mask < 2 ^ width)
    → (elim progress [ mask_found m ↦ ok (some m) | positions_so_far more ↦ next more ])
      ≡ ok (some mask)
    → mask < 2 ^ width
after_block-lt width (mask_found m) next mask h rest e =
    subst (λ (k : ℕ). k < 2 ^ width) (some_inj (Result-ok-inj e)) h
  where
    some_inj : {a b : ℕ} → some a ≡ some b → a ≡ b
    some_inj e = cc
after_block-lt width (positions_so_far more) next mask h rest e = rest more h e

sample_blocks-lt :
    (sha : HashFunction) (profile : RatelessEquationProfile) (equation_id blocks counter : ℕ)
    (positions : List ℕ) (mask : ℕ)
    → 0 < profile.width
    → Positions profile.width positions
    → sample_blocks sha profile equation_id blocks counter positions ≡ ok (some mask)
    → mask < 2 ^ profile.width
unfolding sample_blocks
sample_blocks-lt sha profile equation_id zero counter positions mask h hs e = cc
sample_blocks-lt sha profile equation_id (suc blocks) counter positions mask h hs e =
    let (block, hashed, e1) =
      >>=-eq-ok (hash_block sha profile.seed (ascii "mask") equation_id counter) _ e in
    after_block-lt profile.width (sample_chunks profile positions block)
      (sample_blocks sha profile equation_id blocks (suc counter)) mask
      (sample_chunks-ProgressFits profile positions _ h hs)
      (λ more fits found.
        sample_blocks-lt sha profile equation_id blocks (suc counter) more mask h fits found)
      e1

pub sparse_mask_for_equation-lt :
    (sha : HashFunction) (blocks : ℕ) (profile : RatelessEquationProfile) (equation_id mask : ℕ)
    → 0 < profile.width
    → sparse_mask_for_equation sha blocks profile equation_id ≡ ok (some mask)
    → mask < 2 ^ profile.width
unfolding sparse_mask_for_equation
sparse_mask_for_equation-lt sha blocks profile equation_id mask h e =
    let (done, in_range, e1) =
      >>=-eq-ok
        (raise_if (ltb profile.max_equation_id equation_id)
          (validation_error "equation_id outside profile range"))
        _ e in
    sample_blocks-lt sha profile equation_id blocks 0 [] mask h tt e1
