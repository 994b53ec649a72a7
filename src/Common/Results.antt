-- ===== src/Common/Results.antt =====
-- The exceptions of oprow/core/errors.py as values, and functions that may raise one.
-- A deep recursion ends in Python's RecursionError. A message keeps the fixed part of the text that the code formats.
use Prim.Native.String.{String}
use mathlib.Core.Path.{◌≡◌, refl}
use mathlib.Core.Logic.{◌⊎◌, inl, inr}
use mathlib.Core.Bool.{Bool, true, false, not}

pub data Error : Type 0 where
  validation_error identifier_error canonicalization_error unsupported_algorithm_error value_error
        recursion_error overflow_error :
      String → Error

pub data Result {ℓ} (A : Type ℓ) : Type ℓ where
  err : Error → Result A
  ok : A → Result A

-- `if test: raise error`
abbrev pub raise_if : Bool → Error → Result (Unit {0})
raise_if false error = ok tt
raise_if true error = err error

infixl 5 ◌>>=◌ ◌>>◌
abbrev pub ◌>>=◌ {ℓ κ} : {A : Type ℓ} {B : Type κ} → Result A → (A → Result B) → Result B
err error >>= next = err error
ok a >>= next = next a

abbrev pub ◌>>◌ {κ} : {B : Type κ} → Result (Unit {0}) → Result B → Result B
first >> second = first >>= λ done. second

-- Inversion of a successful bind.
pub >>=-eq-ok {ℓ κ} :
    {A : Type ℓ} {B : Type κ} (m : Result A) (next : A → Result B) {b : B}
    → m >>= next ≡ ok b
    → (a : A) × (m ≡ ok a) × (next a ≡ ok b)
>>=-eq-ok (err error) next h = cc
>>=-eq-ok (ok a) next h = (a, refl, h)

pub Result-ok-inj {ℓ} : {A : Type ℓ} {a b : A} → ok a ≡ ok b → a ≡ b
Result-ok-inj h = cc

pub Result-cases {ℓ} :
    {A : Type ℓ} (m : Result A) → ((e : Error) × (m ≡ err e)) ⊎ ((a : A) × (m ≡ ok a))
Result-cases (err e) = inl (e, refl)
Result-cases (ok a) = inr (a, refl)

-- Inversion of a failed bind.
pub >>=-eq-err {ℓ κ} :
    {A : Type ℓ} {B : Type κ} (m : Result A) (next : A → Result B) {e : Error}
    → m >>= next ≡ err e
    → (m ≡ err e) ⊎ ((a : A) × (m ≡ ok a) × (next a ≡ err e))
>>=-eq-err (err error) next h = inl cc
>>=-eq-err (ok a) next h = inr (a, refl, h)

-- The test of a check that was passed.
pub raise_if-ok : (b : Bool) (e : Error) {u : Unit {0}} → raise_if b e ≡ ok u → b ≡ false
raise_if-ok false e h = refl
raise_if-ok true e h = cc

pub raise_if-not-ok : (b : Bool) (e : Error) {u : Unit {0}} → raise_if (not b) e ≡ ok u → b ≡ true
raise_if-not-ok false e h = cc
raise_if-not-ok true e h = refl
