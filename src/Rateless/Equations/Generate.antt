-- ===== src/Rateless/Equations/Generate.antt =====
-- The equations of a key, made for the tiles of an image in oprow/rateless/equations.py.
use watermarks_po_c.Common.{
  ◌≤◌, ◌<◌, ◌+◌, ◌^◌, ◌⊎◌, arith, length, err, lt→ltb, ℕ, zero, suc, ◌≡◌, ◌∙◌, refl, ap, sym, subst,
  Bool, true, Option, none, some, List, [], ◌∷◌, Memᴰ, All, All-weaken, Result, ok, ◌>>=◌,
  Result-ok-inj, >>=-eq-ok, not, ltb, raise_if, validation_error,
}
use watermarks_po_c.Core.Hashes.{HashFunction}
use watermarks_po_c.Core.Identifiers.{FixedBytesIdentifier}
use watermarks_po_c.Rateless.Equations.{
  RatelessEquationProfile, RatelessEquation, equation_for_key, equation_with_mask,
  rateless_equation, equation_rhs_for_mask, sparse_mask_for_equation, rateless_full160_width,
  RatelessDecodeResult, solve_manifest_key_from_equations,
}
use watermarks_po_c.Rateless.Equations.Enough.{EnoughBlocks, sparse_mask_for_equation-finds}
use watermarks_po_c.Rateless.Equations.Masks.{sparse_mask_for_equation-lt}
use watermarks_po_c.Rateless.Equations.Recovery.{
  IsManifestKey, IsEquationOf, Determines, Ambiguous, solve_manifest_key_from_equations-recovers,
}

-- None when the blocks were not enough for one of the masks.
unfoldable pub add_generated : {A : Type 0} → Option A → Option (List A) → Option (List A)
add_generated none generated = none
add_generated (some eq) none = none
add_generated (some eq) (some generated) = some (eq ∷ generated)

unfoldable pub generate_equations_for_key :
    {C : Type 0}
    → HashFunction
    → ℕ
    → FixedBytesIdentifier
    → ℕ
    → RatelessEquationProfile
    → ℕ
    → C
    → Result (Option (List (RatelessEquation C)))
generate_equations_for_key sha blocks key zero profile start_equation_id confidence = ok (some [])
generate_equations_for_key sha blocks key (suc count) profile start_equation_id confidence = do
  eq ← equation_for_key sha blocks profile start_equation_id key confidence
  rest ← generate_equations_for_key sha blocks key count profile (suc start_equation_id) confidence
  ok (add_generated eq rest)

-- One of the equations that were generated.
abbrev pub IsGenerated :
    {C : Type 0} → Result (Option (List (RatelessEquation C))) → RatelessEquation C → Type 0
IsGenerated {C} generated e =
    (equations : List (RatelessEquation C)) × (generated ≡ ok (some equations)) × Memᴰ e equations

rateless_equation-ok :
    {C : Type 0} (eq eq' : RatelessEquation C) → rateless_equation eq ≡ ok eq' → eq ≡ eq'
unfolding rateless_equation
rateless_equation-ok eq eq' e =
    let (done, bit, e1) =
      >>=-eq-ok (raise_if (not (ltb eq.rhs 2)) (validation_error "equation rhs must be 0/1")) _ e in
    Result-ok-inj e1

equation_with_mask-IsEquationOf :
    {C : Type 0} (equation_id : ℕ) (key : FixedBytesIdentifier) (confidence : C) (found : Option ℕ)
    (eq : RatelessEquation C)
    → ((mask : ℕ) → found ≡ some mask → mask < 2 ^ 160)
    → equation_with_mask equation_id key confidence found ≡ ok (some eq)
    → (eq.equation_id ≡ equation_id) × IsEquationOf key eq
unfolding equation_with_mask equation_rhs_for_mask
equation_with_mask-IsEquationOf {C} equation_id key confidence none eq small e = cc
equation_with_mask-IsEquationOf {C} equation_id key confidence (some mask) eq small e =
    let (made, em, e1) = >>=-eq-ok (rateless_equation _) _ e in
    subst (λ q. (q.equation_id ≡ equation_id) × IsEquationOf key q)
      (rateless_equation-ok _ made em ∙ some_inj (Result-ok-inj e1)) (refl, (small mask refl, refl))
  where
    some_inj : {a b : RatelessEquation C} → some a ≡ some b → a ≡ b
    some_inj e = cc

-- An equation that the generator makes for a key is an equation of that key, when the width is
-- 160: its mask fits, and its right-hand side is the parity of the key under the mask.
equation_for_key-IsEquationOf :
    {C : Type 0} (sha : HashFunction) (blocks : ℕ) (profile : RatelessEquationProfile)
    (equation_id : ℕ) (key : FixedBytesIdentifier) (confidence : C) (eq : RatelessEquation C)
    → profile.width ≡ rateless_full160_width
    → equation_for_key sha blocks profile equation_id key confidence ≡ ok (some eq)
    → (eq.equation_id ≡ equation_id) × IsEquationOf key eq
unfolding equation_for_key
equation_for_key-IsEquationOf sha blocks profile equation_id key confidence eq w e =
    let (found, ef, e1) = >>=-eq-ok (sparse_mask_for_equation sha blocks profile equation_id) _ e in
    equation_with_mask-IsEquationOf equation_id key confidence found eq
      (λ mask is. fits mask (ef ∙ ap ok is)) e1
  where
    fits :
        (mask : ℕ)
        → sparse_mask_for_equation sha blocks profile equation_id ≡ ok (some mask)
        → mask < 2 ^ 160
    fits mask h =
        subst (λ w. mask < 2 ^ w) w
          (sparse_mask_for_equation-lt sha blocks profile equation_id mask
            (subst (λ n. 0 < n) (sym w) (omega arith)) h)

-- The mask that the blocks give to an ID.
abbrev mask_or_zero : Result (Option ℕ) → ℕ
mask_or_zero (err e) = 0
mask_or_zero (ok none) = 0
mask_or_zero (ok (some mask)) = mask

module _ {C : Type 0} (sha : HashFunction) (blocks : ℕ) (profile : RatelessEquationProfile)
    (key : FixedBytesIdentifier) (confidence : C) where
  abbrev mask_at : ℕ → ℕ
  mask_at id = mask_or_zero (sparse_mask_for_equation sha blocks profile id)

  -- An equation of the key, with the mask of its ID.
  abbrev Generated : RatelessEquation C → Type 0
  Generated eq = IsEquationOf key eq × (eq.mask ≡ mask_at eq.equation_id)

  abbrev made : ℕ → ℕ → RatelessEquation C
  made id mask = record {
    equation_id = id;
    mask = mask;
    rhs = equation_rhs_for_mask mask key;
    confidence = confidence;
  }

  made_lem :
      (id mask : ℕ) → equation_with_mask id key confidence (some mask) ≡ ok (some (made id mask))
  unfolding equation_with_mask rateless_equation equation_rhs_for_mask
  made_lem id mask = rw (lt→ltb (equation_rhs_for_mask mask key) 2 (omega arith)) refl

  equation_for_key_lem :
      (id mask : ℕ)
      → sparse_mask_for_equation sha blocks profile id ≡ ok (some mask)
      → equation_for_key sha blocks profile id key confidence ≡ ok (some (made id mask))
  unfolding equation_for_key
  equation_for_key_lem id mask found =
      ap (λ m. m >>= equation_with_mask id key confidence) found ∙ made_lem id mask

  equation_for_key-Generated :
      (id mask : ℕ)
      → profile.width ≡ rateless_full160_width
      → sparse_mask_for_equation sha blocks profile id ≡ ok (some mask)
      → Generated (made id mask)
  equation_for_key-Generated id mask w found = (
    (equation_for_key-IsEquationOf sha blocks profile id key confidence (made id mask) w
        (equation_for_key_lem id mask found)).1,
    ap mask_or_zero (sym found),
  )

  -- Every ID in the range gets an equation.
  generate_equations_for_key-Generated :
      (count start : ℕ)
      → profile.width ≡ rateless_full160_width
      → 0 < profile.equation_weight
      → blocks ≤ 2 ^ 32
      → profile.max_equation_id < 2 ^ 64
      → start + count ≤ suc profile.max_equation_id
      → ((id : ℕ) → start ≤ id → id < start + count → EnoughBlocks sha blocks profile id)
      → (equations : List (RatelessEquation C)) × (generate_equations_for_key sha blocks key count
            profile start confidence
          ≡ ok (some equations))
        × (length equations ≡ count)
        × All Generated equations
  unfolding generate_equations_for_key add_generated
  generate_equations_for_key-Generated zero start w positive bound fits range enough =
      ([], refl, refl, tt)
  generate_equations_for_key-Generated (suc count) start w positive bound fits range enough =
      let (mask, found) =
        sparse_mask_for_equation-finds sha blocks profile start positive bound
          (omega (arith, fits, range)) (omega (arith, range))
          (enough start (omega arith) (omega arith)) in
      let (more, later, size, all) =
        generate_equations_for_key-Generated count (suc start) w positive bound fits
          (omega (arith, range))
          (λ id low high. enough id (omega (arith, low)) (omega (arith, high))) in
      (
        made start mask ∷ more,
        rw (equation_for_key_lem start mask found) (rw later refl),
        ap suc size,
        (equation_for_key-Generated start mask w found, all),
      )

Memᴰ-All : {A : Type 0} (P : A → Type 0) (x : A) (xs : List A) → All P xs → Memᴰ x xs → P x
Memᴰ-All P x [] h m = elim m [ ]
Memᴰ-All P x (y ∷ xs) h (Memᴰ.head e) = subst P (sym e) h.0
Memᴰ-All P x (y ∷ xs) h (Memᴰ.tail m) = Memᴰ-All P x xs h.1 m

-- With a profile of width 160 and a positive weight, a manifest key of 20 bytes, IDs that the profile
-- admits and that fit in 8 bytes, and at most 2^32 blocks that for each ID hold as many different
-- positions as the weight: the generator returns as many equations as were asked for. From whichever of them
-- are received, in any order and with any repetitions, the decoder returns a result without a
-- contradiction. It recovers the key exactly when the key is the only 160-bit number that satisfies
-- all the received equations, and no key when another such number satisfies them too.
pub generate_equations_for_key-recovers :
    {C : Type 0} (above : C → C → Bool) (sha : HashFunction) (blocks : ℕ)
    (key : FixedBytesIdentifier) (count : ℕ) (profile : RatelessEquationProfile) (start : ℕ)
    (confidence : C) (received : List (RatelessEquation C))
    → profile.width ≡ rateless_full160_width
    → 0 < profile.equation_weight
    → blocks ≤ 2 ^ 32
    → profile.max_equation_id < 2 ^ 64
    → start + count ≤ suc profile.max_equation_id
    → ((id : ℕ) → start ≤ id → id < start + count → EnoughBlocks sha blocks profile id)
    → IsManifestKey key
    → All
        (IsGenerated (generate_equations_for_key sha blocks key count profile start confidence))
        received
    → (equations : List (RatelessEquation C)) × (generate_equations_for_key sha blocks key count
          profile start confidence
        ≡ ok (some equations))
      × (length equations ≡ count)
      × (r : RatelessDecodeResult) × (solve_manifest_key_from_equations above profile received
          ≡ ok r)
      × (r.solve_report.consistent ≡ true)
      × (((r.recovered_key ≡ some key) × Determines received key)
          ⊎ ((r.recovered_key ≡ none) × Ambiguous received key))
generate_equations_for_key-recovers {C} above sha blocks key count profile start confidence received
      w positive bound fits range enough k among =
    let (equations, made_all, size, facts) =
      generate_equations_for_key-Generated sha blocks profile key confidence count start w positive
        bound fits range enough in
    let own : All (Generated sha blocks profile key confidence) received =
      All-weaken
        (λ e (others, generated, m).
          Memᴰ-All (Generated sha blocks profile key confidence) e equations facts
            (subst (λ es. Memᴰ e es) (some_inj (Result-ok-inj (sym generated ∙ made_all))) m))
        received among in
    let (r, solved, consistent, outcome) =
      solve_manifest_key_from_equations-recovers above profile received key
        (mask_at sha blocks profile key confidence) w k (All-weaken (λ e g. g.0) received own)
        (All-weaken (λ e g. g.1) received own) in
    (equations, made_all, size, r, solved, consistent, outcome)
  where
    some_inj : {a b : List (RatelessEquation C)} → some a ≡ some b → a ≡ b
    some_inj e = cc
