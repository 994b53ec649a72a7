-- ===== src/Rateless/Equations/Recovery.antt =====
-- Solving the equations of a key in oprow/rateless/equations.py.
use watermarks_po_c.Common.{
  ◌≢◌, ◌⊎◌, All-zip, All-map_back, false, ℕ, ◌+◌, ◌*◌, ◌^◌, ◌<◌, ◌≡◌, refl, ap, arith, inl, inr,
  length, Bool, true, Option, none, some, List, map, All, All-map, All-weaken, ok, sym, ◌∙◌, subst,
  bit_and, lt→not-leb,
}
use watermarks_po_c.Core.Hashes.Integers.{to_bytes_be-from_bytes_be, from_bytes_be-lt}
use watermarks_po_c.Core.Hashes.{to_bytes_be}
use watermarks_po_c.Core.Identifiers.{FixedBytesIdentifier, IdentifierClass, fixed_bytes_identifier}
use watermarks_po_c.Rateless.Gf2.{
  Gf2SolveResult, solved, solve_gf2, parity_int, int_to_fixed_bytes_be,
}
use watermarks_po_c.Rateless.Gf2.Digits.{dot}
use watermarks_po_c.Rateless.Gf2.Elimination.{Solves}
use watermarks_po_c.Rateless.Gf2.Loop.{Valid}
use watermarks_po_c.Rateless.Gf2.Solve.{solve_gf2-consistent, solve_gf2-returns, solve_gf2-finds}
use watermarks_po_c.Rateless.Equations.Kept.{All-deduplicate_equations, deduplicate_equations-ids}
use watermarks_po_c.Rateless.Equations.{
  RatelessEquationProfile, RatelessEquation, deduplicate_equations, RatelessDecodeResult,
  key_from_solution, recover_key, pair, solve_manifest_key_from_equations, manifest_key_to_int,
  rateless_full160_width,
}

-- A manifest key: 20 bytes.
pub record IsManifestKey (key : FixedBytesIdentifier) : Type 0 where
  pub kind : key.kind ≡ IdentifierClass.manifest_key
  pub size : length key.value ≡ 20
  pub bytes : All (λ b. b < 256) key.value

-- An equation about the key: a mask that fits, and the parity of the key under it.
abbrev pub IsEquationOf : {C : Type 0} → FixedBytesIdentifier → RatelessEquation C → Type 0
IsEquationOf key eq =
    (eq.mask < 2 ^ 160) × (eq.rhs ≡ parity_int (bit_and eq.mask (manifest_key_to_int key)))

key_to_int-lt : (key : FixedBytesIdentifier) → IsManifestKey key → manifest_key_to_int key < 2 ^ 160
key_to_int-lt key k = pow_lem key.value k.size (from_bytes_be-lt key.value 0 k.bytes)
  where
    pow_lem :
        (value : List ℕ)
        → length value ≡ 20
        → {v : ℕ} → v < (0 + 1) * 256 ^ length value
        → v < 2 ^ 160
    pow_lem value e {v} h = subst (λ n. v < (0 + 1) * 256 ^ n) e h

key_from_solution-key :
    (key : FixedBytesIdentifier)
    → IsManifestKey key
    → key_from_solution (some (manifest_key_to_int key)) ≡ ok (some key)
unfolding key_from_solution int_to_fixed_bytes_be fixed_bytes_identifier
key_from_solution-key key k =
    let v = manifest_key_to_int key in
    let written : to_bytes_be v 20 ≡ key.value =
      subst (λ n. to_bytes_be v n ≡ key.value) k.size
        (to_bytes_be-from_bytes_be key.value k.bytes) in
    rw (lt→not-leb (2 ^ (8 * 20)) v (key_to_int-lt key k))
      (rw written (rw k.size (ap (λ c. ok (some c)) (same_key key k.kind))))
  where
    same_key :
        (key : FixedBytesIdentifier)
        → key.kind ≡ IdentifierClass.manifest_key
        → record { kind = IdentifierClass.manifest_key; value = key.value } ≡ key
    same_key key e = cc

recover_key-solved :
    (key : FixedBytesIdentifier) (report : Gf2SolveResult)
    → IsManifestKey key
    → solved report ≡ true
    → report.solution ≡ some (manifest_key_to_int key)
    → recover_key report ≡ ok (some key)
unfolding recover_key
recover_key-solved key report k is_solved found =
    rw is_solved (ap key_from_solution found ∙ key_from_solution-key key k)

recover_key-unsolved :
    (report : Gf2SolveResult) → solved report ≡ false → recover_key report ≡ ok none
unfolding recover_key
recover_key-unsolved report unsolved = rw unsolved refl

rhs_bit :
    (key : FixedBytesIdentifier) (mask rhs : ℕ)
    → rhs ≡ parity_int (bit_and mask (manifest_key_to_int key))
    → rhs < 2
rhs_bit key mask rhs h = omega (arith, h)

assemble_lem :
    {C : Type 0} (above : C → C → Bool) (profile : RatelessEquationProfile)
    (equations : List (RatelessEquation C)) (report : Gf2SolveResult)
    (recovered : Option FixedBytesIdentifier)
    → solve_gf2 (map pair (deduplicate_equations above equations)) profile.width ≡ ok report
    → recover_key report ≡ ok recovered
    → solve_manifest_key_from_equations above profile equations
      ≡ ok (record {
        equations_seen = length equations;
        unique_equations = length (deduplicate_equations above equations);
        solve_report = report;
        recovered_key = recovered;
      })
unfolding solve_manifest_key_from_equations
assemble_lem above profile equations report recovered e f = rw e (rw f refl)

-- The only 160-bit number that satisfies the equations is the key.
abbrev pub Determines : {C : Type 0} → List (RatelessEquation C) → FixedBytesIdentifier → Type 0
Determines equations key =
    (y : ℕ) → y < 2 ^ 160 → Solves y (map pair equations) → y ≡ manifest_key_to_int key

-- The equations also hold of another 160-bit number.
abbrev pub Ambiguous : {C : Type 0} → List (RatelessEquation C) → FixedBytesIdentifier → Type 0
Ambiguous equations key =
    (y : ℕ) × (y < 2 ^ 160) × (y ≢ manifest_key_to_int key) × Solves y (map pair equations)

-- What solves the equations that are kept solves all of them, when equations with one ID have one mask.
module _ {C : Type 0} (above : C → C → Bool) (equations : List (RatelessEquation C))
    (key : FixedBytesIdentifier) (masks : ℕ → ℕ) (eqs : All (IsEquationOf key) equations)
    (masked : All (λ e. e.mask ≡ masks e.equation_id) equations) where
  abbrev Agrees : ℕ → ℕ → Type 0
  Agrees y id = dot (masks id) y ≡ dot (masks id) (manifest_key_to_int key)

  unkept-Solves :
      (y : ℕ)
      → Solves y (map pair (deduplicate_equations above equations))
      → Solves y (map pair equations)
  unkept-Solves y h =
      All-map (λ e. dot e.0 y ≡ e.1) pair equations
        (All-zip (λ e facts agrees. solved_by e facts.0 facts.1 agrees) equations both
          (deduplicate_equations-ids (Agrees y) above equations kept))
    where
      both : All (λ e. IsEquationOf key e × (e.mask ≡ masks e.equation_id)) equations
      both = All-zip (λ e p q. (p, q)) equations eqs masked

      solved_by :
          (e : RatelessEquation C)
          → IsEquationOf key e
          → e.mask ≡ masks e.equation_id
          → Agrees y e.equation_id
          → dot e.mask y ≡ e.rhs
      solved_by e own same agrees =
          ap (λ m. dot m y) same
          ∙ (agrees ∙ (ap (λ m. dot m (manifest_key_to_int key)) (sym same) ∙ sym own.1))

      agrees_by :
          (e : RatelessEquation C)
          → IsEquationOf key e × (e.mask ≡ masks e.equation_id)
          → dot e.mask y ≡ e.rhs
          → Agrees y e.equation_id
      agrees_by e (own, same) holds =
          ap (λ m. dot m y) (sym same)
          ∙ (holds ∙ (own.1 ∙ ap (λ m. dot m (manifest_key_to_int key)) same))

      kept : All (λ e. Agrees y e.equation_id) (deduplicate_equations above equations)
      kept =
          All-zip agrees_by (deduplicate_equations above equations)
            (All-deduplicate_equations above
              (λ e. IsEquationOf key e × (e.mask ≡ masks e.equation_id)) equations both)
            (All-map_back (λ e. dot e.0 y ≡ e.1) pair (deduplicate_equations above equations) h)

  kept-Solves :
      (y : ℕ)
      → Solves y (map pair equations)
      → Solves y (map pair (deduplicate_equations above equations))
  kept-Solves y h =
      All-map (λ e. dot e.0 y ≡ e.1) pair (deduplicate_equations above equations)
        (All-deduplicate_equations above (λ e. dot e.mask y ≡ e.rhs) equations
          (All-map_back (λ e. dot e.0 y ≡ e.1) pair equations h))

-- With a profile of width 160, a manifest key of 20 bytes, and equations of that key in any order and with
-- any repetitions, where equations with one ID have one mask: the decoder returns a result without a
-- contradiction. It recovers the key exactly when the key is the only 160-bit number that satisfies all the
-- given equations, and no key when another such number satisfies them too.
pub solve_manifest_key_from_equations-recovers :
    {C : Type 0} (above : C → C → Bool) (profile : RatelessEquationProfile)
    (equations : List (RatelessEquation C)) (key : FixedBytesIdentifier) (masks : ℕ → ℕ)
    → profile.width ≡ rateless_full160_width
    → IsManifestKey key
    → All (IsEquationOf key) equations
    → All (λ e. e.mask ≡ masks e.equation_id) equations
    → (r : RatelessDecodeResult) × (solve_manifest_key_from_equations above profile equations
        ≡ ok r)
      × (r.solve_report.consistent ≡ true)
      × (((r.recovered_key ≡ some key) × Determines equations key)
          ⊎ ((r.recovered_key ≡ none) × Ambiguous equations key))
solve_manifest_key_from_equations-recovers {C} above profile equations key masks w k eqs masked =
    let unique = deduplicate_equations above equations in
    let facts = All-deduplicate_equations above (IsEquationOf key) equations eqs in
    let pairs = map pair unique in
    let x = manifest_key_to_int key in
    let solves : Solves x pairs =
      All-map (λ e. dot e.0 x ≡ e.1) pair unique (All-weaken (λ eq h. sym h.1) unique facts) in
    let valid : All (Valid 160) pairs =
      All-map (Valid 160) pair unique
        (All-weaken (λ eq h. (h.0, rhs_bit key eq.mask eq.rhs h.1)) unique facts) in
    let (report, e) = solve_gf2-returns pairs 160 (omega arith) valid in
    let consistent = (solve_gf2-consistent pairs 160 report e).1 (x, solves) in
    let solved_at = subst (λ n. solve_gf2 pairs n ≡ ok report) (sym w) e in
    elim (solve_gf2-finds pairs 160 report x e (key_to_int-lt key k) solves) [
      | inl (is_solved, found, only) ↦ (
        result_of report (some key),
        assemble_lem above profile equations report (some key) solved_at
            (recover_key-solved key report k is_solved found),
        consistent,
        inl (
          refl,
          λ y small all. only y small (kept-Solves above equations key masks eqs masked y all),
        ),
      )
      | inr (unsolved, none_found, y, small, other, also) ↦ (
        result_of report none,
        assemble_lem above profile equations report none solved_at
            (recover_key-unsolved report unsolved),
        consistent,
        inr (refl, (y, small, other, unkept-Solves above equations key masks eqs masked y also)),
      )
    ]
  where
    result_of : Gf2SolveResult → Option FixedBytesIdentifier → RatelessDecodeResult
    result_of report recovered = record {
      equations_seen = length equations;
      unique_equations = length (deduplicate_equations above equations);
      solve_report = report;
      recovered_key = recovered;
    }
