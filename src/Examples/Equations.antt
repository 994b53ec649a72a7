-- ===== src/Examples/Equations.antt =====
-- A small system, and two equations of a manifest key.
use watermarks_po_c.Common.{
  ◌⊎◌, ◌≢◌, false, length, Memᴰ, ℕ, ◌+◌, ◌^◌, ◌<◌, ◌≤◌, ◌≡◌, ◌↔◌, refl, true, List, [], ◌∷◌,
  replicate, ltb, some, none, ok, All, All-replicate, arith, ◌==◌, if◌then◌else◌,
}
use watermarks_po_c.Core.Hashes.{HashFunction}
use watermarks_po_c.Core.Identifiers.{FixedBytesIdentifier, IdentifierClass}
use watermarks_po_c.Rateless.Gf2.{
  Gf2SolveResult, solved, missing_rank, solve_gf2, count_ones, count_digits, solve_loop,
  add_equation, validate_row, classify_row, sorted_descending, insert_descending, reduce_row,
  clear_pivot, with_pivot, read_solution, final_result, inconsistent_result,
}
use watermarks_po_c.Rateless.Gf2.Elimination.{Solves}
use watermarks_po_c.Rateless.Gf2.Solve.{
  solve_gf2-consistent, solve_gf2_unique, solve_gf2-rank, solve_gf2-returns, solve_gf2-finds,
}
use watermarks_po_c.Rateless.Equations.{
  RatelessEquation, RatelessDecodeResult, RatelessEquationProfile, equation_for_key,
  equation_with_mask, sparse_mask_for_equation, sample_blocks, sample_chunks, hash_block,
  add_position, mask_of, equation_rhs_for_mask, rateless_equation, default_profile,
  solve_manifest_key_from_equations,
}
use watermarks_po_c.Rateless.Equations.Generate.{
  add_generated, generate_equations_for_key, generate_equations_for_key-recovers,
}
use watermarks_po_c.Rateless.Equations.Enough.{EnoughBlocks}
use watermarks_po_c.Rateless.Equations.Recovery.{
  Determines, Ambiguous, IsManifestKey, IsEquationOf, solve_manifest_key_from_equations-recovers,
}

-- x0 = 1, x1 = 0, x1 + x2 = 1, and the sum of the first and the last.
abbrev small_system : List (ℕ × ℕ)
small_system = (1, 1) ∷ (6, 1) ∷ (2, 0) ∷ (7, 0) ∷ []

abbrev small_result : Gf2SolveResult
small_result = record {
  width = 3;
  equations_seen = 4;
  rank = 3;
  consistent = true;
  solution = some 5;
  redundant_equations = 1;
  inconsistent_equations = 0;
}

small_system-solve_gf2 : solve_gf2 small_system 3 ≡ ok small_result
unfolding solve_gf2 count_ones count_digits solve_loop add_equation validate_row classify_row
    sorted_descending insert_descending reduce_row clear_pivot with_pivot read_solution final_result
    inconsistent_result
small_system-solve_gf2 = refl

small_system-Solves : Solves 5 small_system
unfolding count_ones
small_system-Solves = (refl, (refl, (refl, (refl, tt))))

solve_gf2-consistent_example : (small_result.consistent ≡ true) ↔ ((x : ℕ) × Solves x small_system)
solve_gf2-consistent_example =
    solve_gf2-consistent small_system 3 small_result small_system-solve_gf2

solve_gf2_unique_example :
    (5 < 2 ^ 3) × Solves 5 small_system × ((x : ℕ) → x < 2 ^ 3 → Solves x small_system → x ≡ 5)
solve_gf2_unique_example =
    solve_gf2_unique small_system 3 small_result 5 small_system-solve_gf2 refl

solve_gf2-rank_example :
    (small_result.rank ≤ 3) × (small_result.rank + missing_rank small_result ≡ 3)
solve_gf2-rank_example = solve_gf2-rank small_system 3 small_result small_system-solve_gf2

solve_gf2-finds_example :
    ((solved small_result ≡ true)
      × (small_result.solution ≡ some 5)
      × ((y : ℕ) → y < 2 ^ 3 → Solves y small_system → y ≡ 5))
    ⊎ ((solved small_result ≡ false)
        × (small_result.solution ≡ none)
        × (y : ℕ) × (y < 2 ^ 3)
        × (y ≢ 5)
        × Solves y small_system)
solve_gf2-finds_example =
    solve_gf2-finds small_system 3 small_result 5 small_system-solve_gf2 (omega arith)
      small_system-Solves

solve_gf2-returns_example : (r : Gf2SolveResult) × (solve_gf2 small_system 3 ≡ ok r)
solve_gf2-returns_example = solve_gf2-returns small_system 3 (omega arith) (
  (omega arith, omega arith),
  ((omega arith, omega arith), ((omega arith, omega arith), ((omega arith, omega arith), tt))),
)

abbrev some_key : FixedBytesIdentifier
some_key = record { kind = IdentifierClass.manifest_key; value = replicate 20 7 }

some_key-IsManifestKey : IsManifestKey some_key
some_key-IsManifestKey = record {
  kind = refl;
  size = refl;
  bytes = All-replicate (λ b. b < 256) 20 7 (omega arith);
}

-- The lowest bit of the key, and the sum of its bits 2 and 3; confidences are numbers here.
abbrev two_equations : List (RatelessEquation ℕ)
two_equations =
    record { equation_id = 4; mask = 1; rhs = 1; confidence = 9 }
    ∷ record { equation_id = 2; mask = 12; rhs = 1; confidence = 5 }
    ∷ []

two_equations-IsEquationOf : All (IsEquationOf some_key) two_equations
unfolding count_ones
two_equations-IsEquationOf = ((omega arith, refl), ((omega arith, refl), tt))

solve_manifest_key_from_equations-recovers_example :
    (r : RatelessDecodeResult) × (solve_manifest_key_from_equations
        (λ a b. ltb b a)
        default_profile
        two_equations
      ≡ ok r)
    × (r.solve_report.consistent ≡ true)
    × (((r.recovered_key ≡ some some_key) × Determines two_equations some_key)
        ⊎ ((r.recovered_key ≡ none) × Ambiguous two_equations some_key))
solve_manifest_key_from_equations-recovers_example =
    solve_manifest_key_from_equations-recovers (λ a b. ltb b a) default_profile two_equations
      some_key (λ id. if id == 4 then 1 else 12) refl some_key-IsManifestKey
      two_equations-IsEquationOf (refl, (refl, tt))

abbrev constant_sha : HashFunction
constant_sha = record { digest = λ raw. replicate 32 1; digest_size = λ raw. refl }

-- One position for each mask.
abbrev light_profile : RatelessEquationProfile
light_profile = record { width = 160; equation_weight = 1; seed = []; max_equation_id = 10 }

-- Three equations are generated; the third and the first are received, the third twice.
abbrev light_equations : List (RatelessEquation ℕ)
light_equations =
    record { equation_id = 3; mask = 2 ^ 97; rhs = 1; confidence = 1 }
    ∷ record { equation_id = 4; mask = 2 ^ 97; rhs = 1; confidence = 1 }
    ∷ record { equation_id = 5; mask = 2 ^ 97; rhs = 1; confidence = 1 }
    ∷ []

abbrev light_received : List (RatelessEquation ℕ)
light_received =
    record { equation_id = 5; mask = 2 ^ 97; rhs = 1; confidence = 1 }
    ∷ record { equation_id = 3; mask = 2 ^ 97; rhs = 1; confidence = 1 }
    ∷ record { equation_id = 5; mask = 2 ^ 97; rhs = 1; confidence = 1 }
    ∷ []

light_equations-generate_equations_for_key :
    generate_equations_for_key constant_sha 1 some_key 3 light_profile 3 1
    ≡ ok (some light_equations)
unfolding generate_equations_for_key add_generated equation_for_key equation_with_mask
    sparse_mask_for_equation sample_blocks sample_chunks hash_block add_position mask_of
    equation_rhs_for_mask rateless_equation count_ones
light_equations-generate_equations_for_key = refl

light_profile-EnoughBlocks : (id : ℕ) → EnoughBlocks constant_sha 1 light_profile id
unfolding add_position
light_profile-EnoughBlocks id = omega arith

generate_equations_for_key-recovers_example :
    (equations : List (RatelessEquation ℕ)) × (generate_equations_for_key constant_sha 1 some_key 3
        light_profile 3 1
      ≡ ok (some equations))
    × (length equations ≡ 3)
    × (r : RatelessDecodeResult) × (solve_manifest_key_from_equations
          (λ a b. ltb b a)
          light_profile
          light_received
        ≡ ok r)
    × (r.solve_report.consistent ≡ true)
    × (((r.recovered_key ≡ some some_key) × Determines light_received some_key)
        ⊎ ((r.recovered_key ≡ none) × Ambiguous light_received some_key))
generate_equations_for_key-recovers_example =
    generate_equations_for_key-recovers (λ a b. ltb b a) constant_sha 1 some_key 3 light_profile 3 1
      light_received refl (omega arith) (omega arith) (omega arith) (omega arith)
      (λ id low high. light_profile-EnoughBlocks id) some_key-IsManifestKey
      (
        (
          light_equations,
          light_equations-generate_equations_for_key,
          Memᴰ.tail (Memᴰ.tail (Memᴰ.head refl)),
        ),
        (
          (light_equations, light_equations-generate_equations_for_key, Memᴰ.head refl),
          (
            (
              light_equations,
              light_equations-generate_equations_for_key,
              Memᴰ.tail (Memᴰ.tail (Memᴰ.head refl)),
            ),
            tt,
          ),
        ),
      )
