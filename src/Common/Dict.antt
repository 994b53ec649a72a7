-- ===== src/Common/Dict.antt =====
-- Dicts as association lists: a key stands at most once when the list is built by `dict_set`.
use mathlib.Core.Path.{◌≡◌, refl, ap, ◌∙◌}
use mathlib.Core.Logic.{◌↔◌, inl, inr}
use mathlib.Core.Bool.{Bool, true, false}
use mathlib.Core.Option.{Option, none, some}
use mathlib.Core.List.{List, [], ◌∷◌}
use watermarks_po_c.Common.Tests.{if◌then◌else◌, Bool-cases}

abbrev pub get_or {ℓ} : {A : Type ℓ} → Option A → A → A
get_or none default = default
get_or (some a) default = a

module _ {ℓ κ} {K : Type ℓ} {V : Type κ} where
  abbrev pub dict_get : (K → K → Bool) → List (K × V) → K → Option V
  dict_get eq [] k = none
  dict_get eq ((j, v) ∷ d) k = let rest = dict_get eq d k in if eq j k then some v else rest

  -- `d.get(k, default)`
  abbrev pub dict_get_or : (K → K → Bool) → List (K × V) → K → V → V
  dict_get_or eq d k default = get_or (dict_get eq d k) default

  -- `d[k] = v`: a key that is there keeps its place.
  abbrev pub dict_set : (K → K → Bool) → List (K × V) → K → V → List (K × V)
  dict_set eq [] k v = (k, v) ∷ []
  dict_set eq ((j, w) ∷ d) k v =
      let rest = dict_set eq d k v in if eq j k then (j, v) ∷ d else (j, w) ∷ rest

  abbrev pub dict_del : (K → K → Bool) → List (K × V) → K → List (K × V)
  dict_del eq [] k = []
  dict_del eq ((j, w) ∷ d) k = let rest = dict_del eq d k in if eq j k then rest else (j, w) ∷ rest

module _ {ℓ κ} {K : Type ℓ} {V : Type κ} (eq : K → K → Bool)
    (eq_iff : (a b : K) → (eq a b ≡ true) ↔ (a ≡ b)) where
  pub dict_get-dict_set :
      (d : List (K × V)) (k : K) (v : V) → dict_get eq (dict_set eq d k v) k ≡ some v
  dict_get-dict_set [] k v = rw ((eq_iff k k).1 refl) refl
  dict_get-dict_set ((j, w) ∷ d) k v = elim (Bool-cases (eq j k)) [
    | inl e ↦ rw e (rw e refl)
    | inr e ↦ rw e (rw e (dict_get-dict_set d k v))
  ]

  pub dict_get-dict_set_other :
      (d : List (K × V)) (k i : K) (v : V)
      → eq k i ≡ false
      → dict_get eq (dict_set eq d k v) i ≡ dict_get eq d i
  dict_get-dict_set_other [] k i v h = rw h refl
  dict_get-dict_set_other ((j, w) ∷ d) k i v h = elim (Bool-cases (eq j k)) [
    | inl e ↦ rw e (rw (ap (λ z. eq z i) ((eq_iff j k).0 e) ∙ h) refl)
    | inr e ↦ rw e (rw (dict_get-dict_set_other d k i v h) refl)
  ]

  pub dict_get-dict_del : (d : List (K × V)) (k : K) → dict_get eq (dict_del eq d k) k ≡ none
  dict_get-dict_del [] k = refl
  dict_get-dict_del ((j, w) ∷ d) k = elim (Bool-cases (eq j k)) [
    | inl e ↦ rw e (dict_get-dict_del d k)
    | inr e ↦ rw e (rw e (dict_get-dict_del d k))
  ]
