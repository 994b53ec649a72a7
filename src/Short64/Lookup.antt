-- ===== src/Short64/Lookup.antt =====
-- `add_reference` and `lookup` of oprow/short64/index.py.
use text.Mathlib.TextEquality.{eq_iff}
use watermarks_po_c.Common.{
  Memᴰ, bytes_eq, bytes_eq→≡, and_parts, ◌⊎◌, ℕ, ◌≤◌, ◌≡◌, ◌≢◌, ◌↔◌, refl, subst, raise_if,
  take_of_length-le, sym, ap, inl, inr, Bool, true, false, not, Option, some, List, [], ◌∷◌, ◌++◌,
  String, ltb, ltb→lt, ◌==◌, if◌then◌else◌, length, take, length-take, any, Bool-cases, ok,
  Result-ok-inj, >>=-eq-ok, arith, get_or, dict_get-dict_set, dict_get-dict_set_other,
}
use watermarks_po_c.Core.Identifiers.{FixedBytesIdentifier, identifier_eq, identifier_eq_iff}
use watermarks_po_c.Short64.{
  key_bytes, bytes_or_empty, Short64IndexReference, Short64LookupResult, same_dedupe_key, Records,
  bucket_of, add_reference, matching, capped, lookup,
}

not_ltb→le : (n m : ℕ) → ltb n m ≡ false → m ≤ n
not_ltb→le n m e = ground arith

capped_lem :
    (short_id : FixedBytesIdentifier) (max_results : ℕ) (refs : List Short64IndexReference)
    (r : Short64LookupResult)
    → capped short_id (some max_results) refs ≡ ok r
    → ((r.complete ≡ true) ↔ (r.references ≡ refs))
      × (length r.references ≤ max_results)
      × (r.references ≡ take (length r.references) refs)
unfolding capped
capped_lem short_id max_results refs r e =
    let (u, positive, same) = >>=-eq-ok (raise_if (max_results == 0) _) _ e in
    subst
      (λ (q : Short64LookupResult).
        ((q.complete ≡ true) ↔ (q.references ≡ refs))
        × (length q.references ≤ max_results)
        × (q.references ≡ take (length q.references) refs))
      (Result-ok-inj same) (cut_lem refs max_results)
  where
    cut_lem :
        (refs : List Short64IndexReference) (n : ℕ)
        → ((not (ltb n (length refs)) ≡ true)
            ↔ ((if ltb n (length refs) then take n refs else refs) ≡ refs))
          × (length (if ltb n (length refs) then take n refs else refs) ≤ n)
          × ((if ltb n (length refs) then take n refs else refs)
              ≡ take (length (if ltb n (length refs) then take n refs else refs)) refs)
    cut_lem refs n = elim (Bool-cases (ltb n (length refs))) [
      | inl e ↦ rw e (
        (
          λ h. cc,
          λ h. absurd (omega (arith, ap length h, length-take n refs, ltb→lt n (length refs) e)),
        ),
        omega (arith, length-take n refs),
        ap (λ k. take k refs) (omega (arith, length-take n refs, ltb→lt n (length refs) e)),
      )
      | inr e ↦ rw e (
        (λ h. refl, λ h. refl),
        not_ltb→le n (length refs) e,
        sym (take_of_length-le (length refs) refs (omega arith)),
      )
    ]

-- A lookup with a limit that succeeds says by `complete` whether it returns every reference of the bucket that
-- passes the filters; it returns no more than the limit, and what it returns are the first of them.
pub lookup-complete :
    (records : Records) (short_id : FixedBytesIdentifier) (namespace_id : Option (List ℕ))
    (profile : Option String) (max_results : ℕ) (r : Short64LookupResult)
    → lookup records short_id namespace_id profile (some max_results) ≡ ok r
    → ((r.complete ≡ true) ↔ (r.references ≡ matching records short_id namespace_id profile))
      × (length r.references ≤ max_results)
      × (r.references ≡ take (length r.references) (matching records short_id namespace_id profile))
unfolding lookup
lookup-complete records short_id namespace_id profile max_results r e =
    capped_lem short_id max_results (matching records short_id namespace_id profile) r e

any-Memᴰ :
    (p : Short64IndexReference → Bool) (xs : List Short64IndexReference)
    → any p xs ≡ true
    → (x : Short64IndexReference) × Memᴰ x xs × (p x ≡ true)
any-Memᴰ p [] h = absurd (ground arith)
any-Memᴰ p (x ∷ xs) h = elim (Bool-cases (p x)) [
  | inl e ↦ (x, Memᴰ.head refl, e)
  | inr e ↦ let (y, m, q) = any-Memᴰ p xs (ground arith) in (y, Memᴰ.tail m, q)
]

Memᴰ-last : (xs : List Short64IndexReference) (y : Short64IndexReference) → Memᴰ y (xs ++ y ∷ [])
Memᴰ-last [] y = Memᴰ.head refl
Memᴰ-last (x ∷ xs) y = Memᴰ.tail (Memᴰ-last xs y)

-- The same manifest key, document and profile; no key counts as an empty one, and no document as an empty one.
abbrev pub SameReference : Short64IndexReference → Short64IndexReference → Type 0
SameReference a b =
    (key_bytes a.manifest_key ≡ key_bytes b.manifest_key)
    × (bytes_or_empty a.document_bytes ≡ bytes_or_empty b.document_bytes)
    × (a.derivation_profile ≡ b.derivation_profile)

same_dedupe_key-SameReference :
    (a b : Short64IndexReference) → same_dedupe_key a b ≡ true → SameReference a b
unfolding same_dedupe_key
same_dedupe_key-SameReference a b h =
    let (keys, rest) =
      and_parts (bytes_eq (key_bytes a.manifest_key) (key_bytes b.manifest_key)) h in
    let (documents, profiles) =
      and_parts (bytes_eq (bytes_or_empty a.document_bytes) (bytes_or_empty b.document_bytes))
        rest in
    (
      bytes_eq→≡ _ _ keys,
      bytes_eq→≡ _ _ documents,
      (eq_iff a.derivation_profile b.derivation_profile).0 profiles,
    )

-- After a reference is added, its bucket holds a reference with the same manifest key, document and
-- derivation profile, where no key or document counts as an empty one. The bucket is as before or has
-- the reference at its end, and every other bucket is as before.
pub bucket_of-add_reference :
    (records : Records) (r : Short64IndexReference) (other : FixedBytesIdentifier)
    → r.short_id ≢ other
    → (e : Short64IndexReference) × Memᴰ e (bucket_of (add_reference records r) r.short_id)
      × SameReference e r
      × ((bucket_of (add_reference records r) r.short_id ≡ bucket_of records r.short_id)
          ⊎ (bucket_of (add_reference records r) r.short_id
              ≡ bucket_of records r.short_id ++ r ∷ []))
      × (bucket_of (add_reference records r) other ≡ bucket_of records other)
unfolding add_reference
bucket_of-add_reference records r other different =
    elim (Bool-cases
      (any (λ existing. same_dedupe_key existing r) (bucket_of records r.short_id))) [
        | inl e ↦
            let (x, m, same) =
              any-Memᴰ (λ existing. same_dedupe_key existing r) (bucket_of records r.short_id) e in
            rw e (x, m, same_dedupe_key-SameReference x r same, inl refl, refl)
        | inr e ↦
            let appended =
              ap (λ o. get_or o [])
                (dict_get-dict_set identifier_eq identifier_eq_iff records r.short_id
                  (bucket_of records r.short_id ++ r ∷ [])) in
            rw e (
              r,
              subst (Memᴰ r) (sym appended) (Memᴰ-last (bucket_of records r.short_id) r),
              (refl, refl, refl),
              inr appended,
              ap (λ o. get_or o [])
                  (dict_get-dict_set_other identifier_eq identifier_eq_iff records r.short_id other
                    (bucket_of records r.short_id ++ r ∷ []) (not_same r.short_id other different)),
            )
      ]
  where
    not_same : (a b : FixedBytesIdentifier) → a ≢ b → identifier_eq a b ≡ false
    not_same a b ne = elim (Bool-cases (identifier_eq a b)) [
      | inl e ↦ absurd (ne ((identifier_eq_iff a b).0 e))
      | inr e ↦ e
    ]
