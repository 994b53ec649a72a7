-- ===== src/Rateless/Equations/Enough.antt =====
-- How many hash blocks of oprow/rateless/equations.py are enough for a mask.
use watermarks_po_c.Common.{
  ℕ, zero, suc, ◌+◌, ◌*◌, ◌%◌, ◌^◌, ◌≤◌, ◌<◌, ◌≡◌, ◌⊎◌, refl, ap, ◌∙◌, arith, inl, inr, Bool-cases,
  if◌then◌else◌, leb, length, Option, some, List, [], ◌∷◌, ◌++◌, Result, ok, ◌>>=◌, ascii,
  lt→not-leb, le→not-ltb,
}
use watermarks_po_c.Core.Hashes.{HashFunction, to_bytes_be}
use watermarks_po_c.Rateless.Equations.{
  RatelessEquationProfile, hash_block, add_position, mask_of, Progress, mask_found,
  positions_so_far, sample_chunks, sample_blocks, sparse_mask_for_equation,
}

-- The positions that the chunks of one block stand for.
abbrev pub chunk_positions : ℕ → List ℕ → List ℕ
chunk_positions width [] = []
chunk_positions width (byte ∷ []) = byte % width ∷ []
chunk_positions width (high ∷ low ∷ bytes) =
    (high * 256 + low) % width ∷ chunk_positions width bytes

abbrev pub add_positions : List ℕ → List ℕ → List ℕ
add_positions positions [] = positions
add_positions positions (p ∷ ps) = add_positions (add_position p positions) ps

abbrev pub block_of : HashFunction → RatelessEquationProfile → ℕ → ℕ → List ℕ
block_of sha profile equation_id counter =
    sha.digest (
      profile.seed
      ++ 0 ∷ (ascii "mask" ++ 0 ∷ (to_bytes_be equation_id 8 ++ to_bytes_be counter 4)))

-- All the different positions of a number of blocks, without a look at the weight.
abbrev pub gathered : HashFunction → RatelessEquationProfile → ℕ → ℕ → ℕ → List ℕ → List ℕ
gathered sha profile equation_id zero counter positions = positions
gathered sha profile equation_id (suc blocks) counter positions =
    gathered sha profile equation_id blocks (suc counter) (
      add_positions positions
        (chunk_positions profile.width (block_of sha profile equation_id counter)))

-- The blocks hold as many different positions as the mask of that equation has ones.
abbrev pub EnoughBlocks : HashFunction → ℕ → RatelessEquationProfile → ℕ → Type 0
EnoughBlocks sha blocks profile equation_id =
    profile.equation_weight ≤ length (gathered sha profile equation_id blocks 0 [])

hash_block_lem :
    (sha : HashFunction) (profile : RatelessEquationProfile) (equation_id counter : ℕ)
    → equation_id < 2 ^ 64
    → counter < 2 ^ 32
    → hash_block sha profile.seed (ascii "mask") equation_id counter
      ≡ ok (block_of sha profile equation_id counter)
unfolding hash_block
hash_block_lem sha profile equation_id counter h k =
    rw (lt→not-leb (2 ^ (8 * 8)) equation_id h) (rw (lt→not-leb (2 ^ (8 * 4)) counter k) refl)

-- A block gives the mask, or its positions are added and are still too few.
abbrev Sampled : RatelessEquationProfile → List ℕ → Progress → Type 0
Sampled profile all progress =
    ((mask : ℕ) × (progress ≡ mask_found mask))
    ⊎ ((progress ≡ positions_so_far all) × (length all < profile.equation_weight))

weight_cases :
    (profile : RatelessEquationProfile) (more all : List ℕ) (rest : Progress)
    → (length more < profile.equation_weight → Sampled profile all rest)
    → Sampled profile all
        (if leb profile.equation_weight (length more) then mask_found (mask_of more) else rest)
weight_cases profile more all rest later =
    elim (Bool-cases (leb profile.equation_weight (length more))) [
      | inl enough ↦ inl (mask_of more, rw enough refl)
      | inr few ↦ rw few (later (ground arith))
    ]

sample_chunks-Sampled :
    (profile : RatelessEquationProfile) (positions bytes : List ℕ)
    → length positions < profile.equation_weight
    → Sampled profile
        (add_positions positions (chunk_positions profile.width bytes))
        (sample_chunks profile positions bytes)
unfolding sample_chunks
sample_chunks-Sampled profile positions [] h = inr (refl, h)
sample_chunks-Sampled profile positions (b ∷ []) h =
    weight_cases profile (add_position (b % profile.width) positions) _ _ (λ few. inr (refl, few))
sample_chunks-Sampled profile positions (high ∷ low ∷ bytes) h =
    weight_cases profile (add_position ((high * 256 + low) % profile.width) positions) _ _ (λ few.
      sample_chunks-Sampled profile (add_position ((high * 256 + low) % profile.width) positions)
        bytes few)

abbrev after_block : (List ℕ → Result (Option ℕ)) → Progress → Result (Option ℕ)
after_block next progress = elim progress [
  | mask_found mask ↦ ok (some mask)
  | positions_so_far more ↦ next more
]

sample_blocks-step :
    (sha : HashFunction) (profile : RatelessEquationProfile) (equation_id blocks counter : ℕ)
    (positions block : List ℕ) (progress : Progress)
    → hash_block sha profile.seed (ascii "mask") equation_id counter ≡ ok block
    → sample_chunks profile positions block ≡ progress
    → sample_blocks sha profile equation_id (suc blocks) counter positions
      ≡ after_block (sample_blocks sha profile equation_id blocks (suc counter)) progress
unfolding sample_blocks
sample_blocks-step sha profile equation_id blocks counter positions block progress hashed sampled =
    ap
      (λ m. m >>= λ b.
        after_block (sample_blocks sha profile equation_id blocks (suc counter))
          (sample_chunks profile positions b))
      hashed
    ∙ ap (after_block (sample_blocks sha profile equation_id blocks (suc counter))) sampled

sample_blocks-finds :
    (sha : HashFunction) (profile : RatelessEquationProfile) (equation_id blocks counter : ℕ)
    (positions : List ℕ)
    → equation_id < 2 ^ 64
    → counter + blocks ≤ 2 ^ 32
    → length positions < profile.equation_weight
    → profile.equation_weight ≤ length (gathered sha profile equation_id blocks counter positions)
    → (mask : ℕ) × (sample_blocks sha profile equation_id blocks counter positions ≡ ok (some mask))
sample_blocks-finds sha profile equation_id zero counter positions h k few enough =
    absurd (omega (arith, few, enough))
sample_blocks-finds sha profile equation_id (suc blocks) counter positions h k few enough =
    let hashed = hash_block_lem sha profile equation_id counter h (omega (arith, k)) in
    elim (sample_chunks-Sampled profile positions (block_of sha profile equation_id counter) few) [
      | inl (mask, found) ↦ (
        mask,
        sample_blocks-step sha profile equation_id blocks counter positions _ _ hashed found,
      )
      | inr (more, still_few) ↦
          let (mask, later) =
            sample_blocks-finds sha profile equation_id blocks (suc counter) _ h (omega (arith, k))
              still_few enough in
          (
            mask,
            sample_blocks-step sha profile equation_id blocks counter positions _ _ hashed more
                ∙ later,
          )
    ]

pub sparse_mask_for_equation-finds :
    (sha : HashFunction) (blocks : ℕ) (profile : RatelessEquationProfile) (equation_id : ℕ)
    → 0 < profile.equation_weight
    → blocks ≤ 2 ^ 32
    → equation_id < 2 ^ 64
    → equation_id ≤ profile.max_equation_id
    → EnoughBlocks sha blocks profile equation_id
    → (mask : ℕ) × (sparse_mask_for_equation sha blocks profile equation_id ≡ ok (some mask))
unfolding sparse_mask_for_equation
sparse_mask_for_equation-finds sha blocks profile equation_id positive bound small in_range enough =
    let (mask, found) =
      sample_blocks-finds sha profile equation_id blocks 0 [] small (omega (arith, bound)) positive
        enough in
    (mask, rw (le→not-ltb equation_id profile.max_equation_id in_range) found)
