-- ===== src/Core/Manifest/Locator.antt =====
-- Locators of manifests: oprow/core/models.py against oprow/manifest/verification.py.
use watermarks_po_c.Common.{
  ℕ, ◌≡◌, refl, subst, ◌∙◌, inl, inr, true, false, not, Option, none, List, String, str_eq,
  Bool-cases, ok, >>=-eq-ok, Result-ok-inj, raise_if, arith,
}
use watermarks_po_c.Core.Hashes.{HashFunction}
use watermarks_po_c.Core.Identifiers.{
  PointerMode, is_full, ManifestLocator, manifest_locator, class_eq, pointer_class,
  identifier_eq_iff,
}
use watermarks_po_c.Core.Manifest.{
  SignedManifest, key_of, short_id_of, locator_from_signed_manifest,
  verify_locator_self_consistency,
}

manifest_locator-ok : (l r : ManifestLocator) → manifest_locator l ≡ ok r → l ≡ r
unfolding manifest_locator
manifest_locator-ok l r e =
    let (u, checked, same) =
      >>=-eq-ok (raise_if (not (class_eq l.value.kind (pointer_class l.mode))) _) _ e in
    Result-ok-inj same

module _ (sha : HashFunction) where
  full_lem :
      (m : SignedManifest) (l : ManifestLocator)
      → is_full l.mode ≡ true
      → l.value ≡ key_of sha m
      → verify_locator_self_consistency sha m l ≡ true
  unfolding verify_locator_self_consistency
  full_lem m l full e = rw full ((identifier_eq_iff l.value (key_of sha m)).1 e)

  short_lem :
      (m : SignedManifest) (l : ManifestLocator)
      → is_full l.mode ≡ false
      → str_eq l.derivation_profile "hash_truncated" ≡ true
      → l.value ≡ short_id_of sha m
      → verify_locator_self_consistency sha m l ≡ true
  unfolding verify_locator_self_consistency
  short_lem m l full derived e =
      rw full (rw derived ((identifier_eq_iff l.value (short_id_of sha m)).1 e))

  -- A locator that is made from a manifest, in any mode, is consistent with that manifest.
  pub locator_from_signed_manifest-verify :
      (m : SignedManifest) (mode : PointerMode) (namespace_id : Option (List ℕ))
      (hdc_profile_id : Option String) (derivation_profile : String) (l : ManifestLocator)
      → locator_from_signed_manifest sha m mode namespace_id hdc_profile_id derivation_profile
        ≡ ok l
      → verify_locator_self_consistency sha m l ≡ true
  unfolding locator_from_signed_manifest
  locator_from_signed_manifest-verify m mode namespace_id hdc_profile_id derivation_profile l e =
      elim (Bool-cases (is_full mode)) [
        | inl full ↦
            let same = manifest_locator-ok _ l (full_case full ∙ e) in
            subst (λ l. verify_locator_self_consistency sha m l ≡ true) same
              (full_lem m _ full refl)
        | inr short ↦ elim (Bool-cases (str_eq derivation_profile "hash_truncated")) [
          | inl derived ↦
              let same = manifest_locator-ok _ l (short_case short derived ∙ e) in
              subst (λ l. verify_locator_self_consistency sha m l ≡ true) same
                (short_lem m _ short derived refl)
          | inr other ↦ absurd (no_case short other e)
        ]
      ]
    where
      full_case :
          is_full mode ≡ true
          → manifest_locator (record {
            mode = mode;
            value = key_of sha m;
            namespace_id = namespace_id;
            hdc_profile_id = none;
            derivation_profile = "h160";
          })
            ≡ locator_from_signed_manifest sha m mode namespace_id hdc_profile_id derivation_profile
      full_case full = rw full refl

      short_case :
          is_full mode ≡ false
          → str_eq derivation_profile "hash_truncated" ≡ true
          → manifest_locator (record {
            mode = mode;
            value = short_id_of sha m;
            namespace_id = namespace_id;
            hdc_profile_id = hdc_profile_id;
            derivation_profile = derivation_profile;
          })
            ≡ locator_from_signed_manifest sha m mode namespace_id hdc_profile_id derivation_profile
      short_case short derived = rw short (rw derived refl)

      no_case :
          is_full mode ≡ false
          → str_eq derivation_profile "hash_truncated" ≡ false
          → locator_from_signed_manifest sha m mode namespace_id hdc_profile_id derivation_profile
            ≡ ok l
          → ⊥
      no_case short other h = ground arith
