-- ===== src/Rateless/Equations/Kept.antt =====
-- What `deduplicate_equations` of oprow/rateless/equations.py keeps of the equations and of their IDs.
use mathlib.Core.Bool.{true≢false}
use watermarks_po_c.Common.{
  if◌then◌else◌, All-map, ap, ◌∙◌, false, All-map_back, Option-cases, ℕ, ◌≡◌, refl, sym, subst, inl,
  inr, Bool-cases, ltb, ◌==◌, ==_iff, Bool, true, some, List, [], ◌∷◌, All, dict_get, dict_set,
}
use watermarks_po_c.Rateless.Equations.{
  RatelessEquation, Best, insert_by_id, sorted_by_id, improves, collect_best, deduplicate_equations,
}

-- What holds of every equation holds of those that are kept.
module _ {C : Type 0} (above : C → C → Bool) (P : RatelessEquation C → Type 0) where
  All-insert_by_id :
      (e : ℕ × RatelessEquation C) (best : Best C)
      → P e.1
      → All (λ o. P o.1) best
      → All (λ o. P o.1) (insert_by_id e best)
  unfolding insert_by_id
  All-insert_by_id e [] h hs = (h, tt)
  All-insert_by_id e (o ∷ best) h (k, ks) = elim (Bool-cases (ltb o.0 e.0)) [
    | inl below ↦ rw below (k, All-insert_by_id e best h ks)
    | inr not_below ↦ rw not_below (h, (k, ks))
  ]

  All-sorted_by_id : (best : Best C) → All (λ o. P o.1) best → All (λ o. P o.1) (sorted_by_id best)
  unfolding sorted_by_id
  All-sorted_by_id [] hs = tt
  All-sorted_by_id (e ∷ best) (h, hs) =
      All-insert_by_id e (sorted_by_id best) h (All-sorted_by_id best hs)

  All-dict_set :
      (best : Best C) (k : ℕ) (eq : RatelessEquation C)
      → P eq
      → All (λ o. P o.1) best
      → All (λ o. P o.1) (dict_set ◌==◌ best k eq)
  All-dict_set [] k eq h hs = (h, tt)
  All-dict_set ((j, other) ∷ best) k eq h (p, ps) = elim (Bool-cases (j == k)) [
    | inl same ↦ rw same (h, ps)
    | inr different ↦ rw different (p, All-dict_set best k eq h ps)
  ]

  All-collect_best :
      (best : Best C) (equations : List (RatelessEquation C))
      → All (λ o. P o.1) best
      → All P equations
      → All (λ o. P o.1) (collect_best above best equations)
  unfolding collect_best
  All-collect_best best [] hs ps = hs
  All-collect_best best (eq ∷ equations) hs (p, ps) =
      All-collect_best
        (if improves above eq (dict_get ◌==◌ best eq.equation_id)
          then dict_set ◌==◌ best eq.equation_id eq
          else best)
        equations
        (elim (Bool-cases (improves above eq (dict_get ◌==◌ best eq.equation_id))) [
          | inl better ↦ rw better (All-dict_set best eq.equation_id eq p hs)
          | inr worse ↦ rw worse hs
        ])
        ps

  pub All-deduplicate_equations :
      (equations : List (RatelessEquation C))
      → All P equations
      → All P (deduplicate_equations above equations)
  unfolding deduplicate_equations
  All-deduplicate_equations equations ps =
      All-map P (λ o. o.1) (sorted_by_id (collect_best above [] equations))
        (All-sorted_by_id (collect_best above [] equations) (All-collect_best [] equations tt ps))

-- The entries of the dict stand under their own IDs.
abbrev Keyed : {C : Type 0} → Best C → Type 0
Keyed best = All (λ o. o.1.equation_id ≡ o.0) best

Keyed-dict_set :
    {C : Type 0} (best : Best C) (eq : RatelessEquation C)
    → Keyed best
    → Keyed (dict_set ◌==◌ best eq.equation_id eq)
Keyed-dict_set [] eq h = (refl, tt)
Keyed-dict_set ((j, w) ∷ best) eq (h, hs) = elim (Bool-cases (j == eq.equation_id)) [
  | inl e ↦ rw e (sym ((==_iff j eq.equation_id).0 e), hs)
  | inr e ↦ rw e (h, Keyed-dict_set best eq hs)
]

-- What holds of the IDs that are kept holds of the IDs of all equations.
module _ {C : Type 0} (Q : ℕ → Type 0) where
  abbrev Holds : Best C → Type 0
  Holds best = All (λ o. Q o.1.equation_id) best

  insert_below :
      (e o : ℕ × RatelessEquation C) (best : Best C)
      → ltb o.0 e.0 ≡ true
      → insert_by_id e (o ∷ best) ≡ o ∷ insert_by_id e best
  unfolding insert_by_id
  insert_below e o best h = rw h refl

  insert_above :
      (e o : ℕ × RatelessEquation C) (best : Best C)
      → ltb o.0 e.0 ≡ false
      → insert_by_id e (o ∷ best) ≡ e ∷ o ∷ best
  unfolding insert_by_id
  insert_above e o best h = rw h refl

  insert_back :
      (e : ℕ × RatelessEquation C) (best : Best C) → Holds (insert_by_id e best) → Holds (e ∷ best)
  unfolding insert_by_id
  insert_back e [] h = h
  insert_back e (o ∷ best) h = elim (Bool-cases (ltb o.0 e.0)) [
    | inl below ↦
        let moved = subst Holds (insert_below e o best below) h in
        let (own, rest) = insert_back e best moved.1 in (own, (moved.0, rest))
    | inr not_below ↦ subst Holds (insert_above e o best not_below) h
  ]

  sorted_back : (best : Best C) → Holds (sorted_by_id best) → Holds best
  unfolding sorted_by_id
  sorted_back [] h = tt
  sorted_back (e ∷ best) h =
      let (own, rest) = insert_back e (sorted_by_id best) h in (own, sorted_back best rest)

  set_here :
      (j k : ℕ) (w eq : RatelessEquation C) (best : Best C)
      → (j == k) ≡ true
      → dict_set ◌==◌ ((j, w) ∷ best) k eq ≡ (j, eq) ∷ best
  set_here j k w eq best e = rw e refl

  set_later :
      (j k : ℕ) (w eq : RatelessEquation C) (best : Best C)
      → (j == k) ≡ false
      → dict_set ◌==◌ ((j, w) ∷ best) k eq ≡ (j, w) ∷ dict_set ◌==◌ best k eq
  set_later j k w eq best e = rw e refl

  set_back :
      (best : Best C) (eq : RatelessEquation C)
      → Keyed best
      → Holds (dict_set ◌==◌ best eq.equation_id eq)
      → Q eq.equation_id × Holds best
  set_back [] eq keyed h = (h.0, tt)
  set_back ((j, w) ∷ best) eq (k, ks) h = elim (Bool-cases (j == eq.equation_id)) [
    | inl e ↦
        let moved = subst Holds (set_here j eq.equation_id w eq best e) h in
        (moved.0, (subst Q (sym (k ∙ (==_iff j eq.equation_id).0 e)) moved.0, moved.1))
    | inr e ↦
        let moved = subst Holds (set_later j eq.equation_id w eq best e) h in
        let (own, rest) = set_back best eq ks moved.1 in (own, (moved.0, rest))
  ]

  get_back :
      (best : Best C) (id : ℕ) (current : RatelessEquation C)
      → Keyed best
      → dict_get ◌==◌ best id ≡ some current
      → Holds best
      → Q id
  get_back [] id current keyed e h = cc
  get_back ((j, w) ∷ best) id current (k, ks) e h = elim (Bool-cases (j == id)) [
    | inl same ↦ subst Q (k ∙ (==_iff j id).0 same) h.0
    | inr different ↦ get_back best id current ks (sym (get_later j id w best different) ∙ e) h.1
  ]
    where
      get_later :
          (j id : ℕ) (w : RatelessEquation C) (best : Best C)
          → (j == id) ≡ false
          → dict_get ◌==◌ ((j, w) ∷ best) id ≡ dict_get ◌==◌ best id
      get_later j id w best e = rw e refl

  module _ (above : C → C → Bool) where
    not_improved :
        (best : Best C) (eq : RatelessEquation C)
        → Keyed best
        → improves above eq (dict_get ◌==◌ best eq.equation_id) ≡ false
        → Holds best
        → Q eq.equation_id
    not_improved best eq keyed e h = elim (Option-cases (dict_get ◌==◌ best eq.equation_id)) [
      | inl absent ↦ absurd (true≢false (sym (ap (improves above eq) absent) ∙ e))
      | inr (current, found) ↦ get_back best eq.equation_id current keyed found h
    ]

    collect_back :
        (best : Best C) (equations : List (RatelessEquation C))
        → Keyed best
        → Holds (collect_best above best equations)
        → Holds best × All (λ eq. Q eq.equation_id) equations
    unfolding collect_best
    collect_back best [] keyed h = (h, tt)
    collect_back best (eq ∷ equations) keyed h =
        elim (Bool-cases (improves above eq (dict_get ◌==◌ best eq.equation_id))) [
          | inl better ↦
              let (set, later) =
                collect_back (dict_set ◌==◌ best eq.equation_id eq) equations
                  (Keyed-dict_set best eq keyed)
                  (subst Holds (step_set best eq equations better) h) in
              let (own, before) = set_back best eq keyed set in (before, (own, later))
          | inr worse ↦
              let (before, later) =
                collect_back best equations keyed
                  (subst Holds (step_keep best eq equations worse) h) in
              (before, (not_improved best eq keyed worse before, later))
        ]
      where
        step_set :
            (best : Best C) (eq : RatelessEquation C) (equations : List (RatelessEquation C))
            → improves above eq (dict_get ◌==◌ best eq.equation_id) ≡ true
            → collect_best above best (eq ∷ equations)
              ≡ collect_best above (dict_set ◌==◌ best eq.equation_id eq) equations
        step_set best eq equations e = rw e refl

        step_keep :
            (best : Best C) (eq : RatelessEquation C) (equations : List (RatelessEquation C))
            → improves above eq (dict_get ◌==◌ best eq.equation_id) ≡ false
            → collect_best above best (eq ∷ equations) ≡ collect_best above best equations
        step_keep best eq equations e = rw e refl

    pub deduplicate_equations-ids :
        (equations : List (RatelessEquation C))
        → All (λ eq. Q eq.equation_id) (deduplicate_equations above equations)
        → All (λ eq. Q eq.equation_id) equations
    unfolding deduplicate_equations
    deduplicate_equations-ids equations h =
        (collect_back [] equations tt (
          sorted_back (collect_best above [] equations) (
            All-map_back (λ eq. Q eq.equation_id) (λ o. o.1)
              (sorted_by_id (collect_best above [] equations)) h))).1
