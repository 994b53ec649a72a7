-- ===== src/Resolution/Distinct.antt =====
-- `deduplicate_candidates` of oprow/resolution/base.py.
use watermarks_po_c.Common.{
  ◌≡◌, ◌≢◌, refl, subst, sym, ◌∙◌, inl, inr, Bool, true, false, ◌||◌, ℕ, List, [], ◌∷◌, bytes_eq,
  bytes_eq_iff, bytes_eq_refl, any, All, All-weaken, Bool-cases, arith,
}
use mathlib.Core.Bool.{true≢false}
use watermarks_po_c.Core.Hashes.{HashFunction}
use watermarks_po_c.Resolution.{
  ResolutionCandidate, candidate_key, seen_before, deduplicate_loop, deduplicate_candidates,
}

module _ (sha : HashFunction) where
  -- No two candidates of the list have one FULL160 key.
  abbrev pub DistinctKeys : List ResolutionCandidate → Type 0
  DistinctKeys [] = Unit
  DistinctKeys (c ∷ cs) = All (λ d. candidate_key sha d ≢ candidate_key sha c) cs × DistinctKeys cs

  -- Some candidate of the list has the key of `c`.
  abbrev pub has_key : List ResolutionCandidate → ResolutionCandidate → Bool
  has_key cs c = any (λ d. bytes_eq (candidate_key sha c) (candidate_key sha d)) cs

  unseen_lem :
      (seen : List (List ℕ)) (cs : List ResolutionCandidate)
      → All (λ d. seen_before sha seen d ≡ false) (deduplicate_loop sha seen cs)
  unfolding deduplicate_loop
  unseen_lem seen [] = tt
  unseen_lem seen (c ∷ cs) = elim (Bool-cases (seen_before sha seen c)) [
    | inl e ↦ rw e (unseen_lem seen cs)
    | inr e ↦ rw e (
      e,
      All-weaken
          (λ d u.
            or_right (bytes_eq (candidate_key sha d) (candidate_key sha c)) (seen_before sha seen d)
              u)
          _ (unseen_lem (candidate_key sha c ∷ seen) cs),
    )
  ]
    where
      or_right : (a b : Bool) → a || b ≡ false → b ≡ false
      or_right a b u = ground arith

  distinct_lem :
      (seen : List (List ℕ)) (cs : List ResolutionCandidate)
      → DistinctKeys (deduplicate_loop sha seen cs)
  unfolding deduplicate_loop
  distinct_lem seen [] = tt
  distinct_lem seen (c ∷ cs) = elim (Bool-cases (seen_before sha seen c)) [
    | inl e ↦ rw e (distinct_lem seen cs)
    | inr e ↦ rw e (
      All-weaken (λ d u. other_key d (seen_before sha seen d) u) _
          (unseen_lem (candidate_key sha c ∷ seen) cs),
      distinct_lem (candidate_key sha c ∷ seen) cs,
    )
  ]
    where
      or_left : (a b : Bool) → a || b ≡ false → a ≡ false
      or_left a b u = ground arith

      other_key :
          (d : ResolutionCandidate) (later : Bool)
          → bytes_eq (candidate_key sha d) (candidate_key sha c) || later ≡ false
          → candidate_key sha d ≢ candidate_key sha c
      other_key d later u same = true≢false (
          sym ((bytes_eq_iff (candidate_key sha d) (candidate_key sha c)).1 same)
          ∙ or_left _ later u)

  loop_seen :
      (seen : List (List ℕ)) (c : ResolutionCandidate) (cs : List ResolutionCandidate)
      → seen_before sha seen c ≡ true
      → deduplicate_loop sha seen cs ≡ deduplicate_loop sha seen (c ∷ cs)
  unfolding deduplicate_loop
  loop_seen seen c cs e = rw e refl

  loop_new :
      (seen : List (List ℕ)) (c : ResolutionCandidate) (cs : List ResolutionCandidate)
      → seen_before sha seen c ≡ false
      → c ∷ deduplicate_loop sha (candidate_key sha c ∷ seen) cs
        ≡ deduplicate_loop sha seen (c ∷ cs)
  unfolding deduplicate_loop
  loop_new seen c cs e = rw e refl

  -- The candidates `cs` were seen before or have their key in `out`.
  abbrev Covered : List (List ℕ) → List ResolutionCandidate → List ResolutionCandidate → Type 0
  Covered seen cs out = All (λ c. seen_before sha seen c || has_key out c ≡ true) cs

  kept_lem :
      (seen : List (List ℕ)) (cs : List ResolutionCandidate)
      → Covered seen cs (deduplicate_loop sha seen cs)
  kept_lem seen [] = tt
  kept_lem seen (c ∷ cs) = elim (Bool-cases (seen_before sha seen c)) [
    | inl e ↦ subst (Covered seen (c ∷ cs)) (loop_seen seen c cs e) (here _ _ e, kept_lem seen cs)
    | inr e ↦ subst (Covered seen (c ∷ cs)) (loop_new seen c cs e) (
      first _ _ _ (bytes_eq_refl (candidate_key sha c)),
      All-weaken
          (λ d k.
            shift (bytes_eq (candidate_key sha d) (candidate_key sha c)) (seen_before sha seen d) _
              k)
          cs (kept_lem (candidate_key sha c ∷ seen) cs),
    )
  ]
    where
      here : (a b : Bool) → a ≡ true → a || b ≡ true
      here a b e = ground arith

      first : (a b r : Bool) → b ≡ true → a || (b || r) ≡ true
      first a b r e = ground arith

      shift : (a b r : Bool) → (a || b) || r ≡ true → b || (a || r) ≡ true
      shift a b r k = ground arith

  -- Deduplication keeps no two candidates with one FULL160 key, and for each candidate it keeps one with its
  -- key.
  pub deduplicate_candidates-DistinctKeys :
      (cs : List ResolutionCandidate)
      → DistinctKeys (deduplicate_candidates sha cs)
        × All (λ c. has_key (deduplicate_candidates sha cs) c ≡ true) cs
  unfolding deduplicate_candidates
  deduplicate_candidates-DistinctKeys cs = (distinct_lem [] cs, kept_lem [] cs)
