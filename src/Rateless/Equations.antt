-- ===== src/Rateless/Equations.antt =====
-- oprow/rateless/equations.py: equations about a manifest key. A confidence is a float, of which only
-- comparisons are used: its type and `>` on it are parameters. The hash blocks of
-- `sparse_mask_for_equation`, which end only when their counter overflows, are cut after a number of blocks. Metadata and sources are left out.
pub mod Masks
pub mod Kept
pub mod Recovery
pub mod Enough
pub mod Generate
use watermarks_po_c.Common.{
  ℕ, zero, suc, ◌+◌, ◌*◌, ◌/◌, ◌%◌, ◌^◌, bit_and, bit_or, ltb, leb, ◌==◌, if◌then◌else◌, Bool, true,
  false, not, ◌||◌, Option, none, some, List, [], ◌∷◌, ◌++◌, length, take, drop, any, map, String,
  Result, ok, err, ◌>>=◌, ◌>>◌, raise_if, validation_error, overflow_error, ascii, dict_get,
  dict_set,
}
use watermarks_po_c.Core.Hashes.{HashFunction, to_bytes_be}
use watermarks_po_c.Core.Identifiers.{
  FixedBytesIdentifier, IdentifierClass, fixed_bytes_identifier, manifest_key,
}
use watermarks_po_c.Rateless.Gf2.{
  Gf2SolveResult, solved, solve_gf2, parity_int, bytes_to_int_be, int_to_fixed_bytes_be,
}

abbrev pub rateless_full160_width : ℕ
rateless_full160_width = 160

abbrev pub rateless_full160_key_bytes : ℕ
rateless_full160_key_bytes = 20

pub record RatelessEquationProfile : Type 0 where
  pub width : ℕ
  pub equation_weight : ℕ
  pub seed : List ℕ
  pub max_equation_id : ℕ

-- The constructor's checks (`__post_init__`).
unfoldable pub rateless_equation_profile : RatelessEquationProfile → Result RatelessEquationProfile
rateless_equation_profile p = do
  raise_if (not (p.width == rateless_full160_width))
      (validation_error "Step 13 rateless profile is fixed to width 160")
  raise_if (p.equation_weight == 0 || ltb p.width p.equation_weight)
      (validation_error "equation_weight must be in 1..width")
  raise_if (p.max_equation_id == 0) (validation_error "max_equation_id must be positive")
  ok p

abbrev pub default_profile : RatelessEquationProfile
default_profile = record {
  width = rateless_full160_width;
  equation_weight = 41;
  seed = ascii "OProW-Rateless-FULL160-SPARSE-GF2-1";
  max_equation_id = 65535;
}

-- `value.to_bytes(size, "big")`
abbrev pub int_to_bytes : ℕ → ℕ → Result (List ℕ)
int_to_bytes value size = do
  raise_if (leb (2 ^ (8 * size)) value) (overflow_error "int too big to convert")
  ok (to_bytes_be value size)

-- One block of `_hash_blocks`: SHA-256 of seed, label, equation ID and counter.
unfoldable pub hash_block : HashFunction → List ℕ → List ℕ → ℕ → ℕ → Result (List ℕ)
hash_block sha seed label equation_id counter = do
  eid ← int_to_bytes equation_id 8
  ctr ← int_to_bytes counter 4
  ok (sha.digest (seed ++ 0 ∷ (label ++ 0 ∷ (eid ++ ctr))))

-- `positions.add(position)`
unfoldable pub add_position : ℕ → List ℕ → List ℕ
add_position position positions =
    if any (λ p. p == position) positions then positions else position ∷ positions

-- `mask |= 1 << pos` over the positions.
unfoldable pub mask_of : List ℕ → ℕ
mask_of [] = 0
mask_of (position ∷ positions) = bit_or (mask_of positions) (2 ^ position)

-- The chunks of 16 bits of one block: the mask when the weight is reached, else the positions.
pub data Progress : Type 0 where
  mask_found : ℕ → Progress
  positions_so_far : List ℕ → Progress

unfoldable pub sample_chunks : RatelessEquationProfile → List ℕ → List ℕ → Progress
sample_chunks profile positions [] = positions_so_far positions
sample_chunks profile positions (byte ∷ []) =
    let more = add_position (byte % profile.width) positions in
    if leb profile.equation_weight (length more)
    then mask_found (mask_of more)
    else positions_so_far more
sample_chunks profile positions (high ∷ low ∷ bytes) =
    let more = add_position ((high * 256 + low) % profile.width) positions in
    let rest = sample_chunks profile more bytes in
    if leb profile.equation_weight (length more) then mask_found (mask_of more) else rest

unfoldable pub sample_blocks :
    HashFunction → RatelessEquationProfile → ℕ → ℕ → ℕ → List ℕ → Result (Option ℕ)
sample_blocks sha profile equation_id zero counter positions = ok none
sample_blocks sha profile equation_id (suc blocks) counter positions =
    hash_block sha profile.seed (ascii "mask") equation_id counter >>= λ block.
    elim (sample_chunks profile positions block) [
      | mask_found mask ↦ ok (some mask)
      | positions_so_far more ↦ sample_blocks sha profile equation_id blocks (suc counter) more
    ]

-- None when the blocks were not enough.
unfoldable pub sparse_mask_for_equation :
    HashFunction → ℕ → RatelessEquationProfile → ℕ → Result (Option ℕ)
sparse_mask_for_equation sha blocks profile equation_id = do
  raise_if (ltb profile.max_equation_id equation_id)
      (validation_error "equation_id outside profile range")
  sample_blocks sha profile equation_id blocks 0 []

abbrev pub manifest_key_to_int : FixedBytesIdentifier → ℕ
manifest_key_to_int key = bytes_to_int_be key.value

-- The data of an equation with confidences of a type `C`.
pub record RatelessEquation (C : Type 0) : Type 0 where
  pub equation_id : ℕ
  pub mask : ℕ
  pub rhs : ℕ
  pub confidence : C

-- The constructor's checks (`__post_init__`); numbers and confidences are never negative.
unfoldable pub rateless_equation : {C : Type 0} → RatelessEquation C → Result (RatelessEquation C)
rateless_equation eq = do
  raise_if (not (ltb eq.rhs 2)) (validation_error "equation rhs must be 0/1")
  ok eq

unfoldable pub equation_rhs_for_mask : ℕ → FixedBytesIdentifier → ℕ
equation_rhs_for_mask mask key = parity_int (bit_and mask (manifest_key_to_int key))

-- None when the blocks were not enough for the mask.
unfoldable pub equation_with_mask :
    {C : Type 0} → ℕ → FixedBytesIdentifier → C → Option ℕ → Result (Option (RatelessEquation C))
equation_with_mask equation_id key confidence none = ok none
equation_with_mask equation_id key confidence (some mask) = do
  eq ← rateless_equation (record {
    equation_id = equation_id;
    mask = mask;
    rhs = equation_rhs_for_mask mask key;
    confidence = confidence;
  })
  ok (some eq)

unfoldable pub equation_for_key :
    {C : Type 0}
    → HashFunction
    → ℕ
    → RatelessEquationProfile
    → ℕ
    → FixedBytesIdentifier
    → C
    → Result (Option (RatelessEquation C))
equation_for_key sha blocks profile equation_id key confidence = do
  found ← sparse_mask_for_equation sha blocks profile equation_id
  equation_with_mask equation_id key confidence found

-- `best`: the equations by their ID.
abbrev pub Best : Type 0 → Type 0
Best C = List (ℕ × RatelessEquation C)

-- `sorted(best)` with the equation of each ID.
unfoldable pub insert_by_id : {C : Type 0} → ℕ × RatelessEquation C → Best C → Best C
insert_by_id entry [] = entry ∷ []
insert_by_id entry (other ∷ best) =
    let rest = insert_by_id entry best in
    if ltb other.0 entry.0 then other ∷ rest else entry ∷ other ∷ best

unfoldable pub sorted_by_id : {C : Type 0} → Best C → Best C
sorted_by_id [] = []
sorted_by_id (entry ∷ best) = insert_by_id entry (sorted_by_id best)

module _ {C : Type 0} (above : C → C → Bool) where
  -- `current is None or eq.confidence > current.confidence`
  abbrev pub improves : RatelessEquation C → Option (RatelessEquation C) → Bool
  improves eq none = true
  improves eq (some current) = above eq.confidence current.confidence

  unfoldable pub collect_best : Best C → List (RatelessEquation C) → Best C
  collect_best best [] = best
  collect_best best (eq ∷ equations) =
      collect_best
        (if improves eq (dict_get ◌==◌ best eq.equation_id)
          then dict_set ◌==◌ best eq.equation_id eq
          else best)
        equations

  unfoldable pub deduplicate_equations : List (RatelessEquation C) → List (RatelessEquation C)
  deduplicate_equations equations = map (λ e. e.1) (sorted_by_id (collect_best [] equations))

pub record RatelessDecodeResult : Type 0 where
  pub equations_seen : ℕ
  pub unique_equations : ℕ
  pub solve_report : Gf2SolveResult
  pub recovered_key : Option FixedBytesIdentifier

-- `ManifestKey(int_to_fixed_bytes_be(report.solution, RATELESS_FULL160_KEY_BYTES))`
unfoldable pub key_from_solution : Option ℕ → Result (Option FixedBytesIdentifier)
key_from_solution none = ok none
key_from_solution (some solution) = do
  raw ← int_to_fixed_bytes_be solution rateless_full160_key_bytes
  key ← fixed_bytes_identifier manifest_key raw
  ok (some key)

unfoldable pub recover_key : Gf2SolveResult → Result (Option FixedBytesIdentifier)
recover_key report = if solved report then key_from_solution report.solution else ok none

abbrev pub pair : {C : Type 0} → RatelessEquation C → ℕ × ℕ
pair eq = (eq.mask, eq.rhs)

unfoldable pub solve_manifest_key_from_equations :
    {C : Type 0}
    → (C → C → Bool)
    → RatelessEquationProfile
    → List (RatelessEquation C)
    → Result RatelessDecodeResult
solve_manifest_key_from_equations above profile equations =
    let unique = deduplicate_equations above equations in
    do
      report ← solve_gf2 (map pair unique) profile.width
      recovered ← recover_key report
      ok (record {
        equations_seen = length equations;
        unique_equations = length unique;
        solve_report = report;
        recovered_key = recovered;
      })
