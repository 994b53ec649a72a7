-- ===== src/Core/Identifiers.antt =====
-- oprow/core/enums.py (`PointerMode`), oprow/core/identifiers.py (the fixed-size identifiers) and
-- `ManifestLocator` of oprow/core/models.py. Identifiers are their raw bytes; the textual forms
-- (hex, base64url, tags) are not modelled.
use mathlib.Core.Logic.{◌↔◌}
use watermarks_po_c.Common.{
  ℕ, Bool, true, false, not, ◌&&◌, Option, List, ◌≡◌, String, bytes_eq, bytes_eq_iff, arith, ◌==◌,
  if◌then◌else◌, length, Result, ok, err, ◌>>◌, raise_if, identifier_error, validation_error,
}

pub data PointerMode : Type 0 where
  full160 short64 short64_hv full160_rateless : PointerMode

-- `mode in (PointerMode.FULL160, PointerMode.FULL160_RATELESS)`
abbrev pub is_full : PointerMode → Bool
is_full full160 = true
is_full full160_rateless = true
is_full _ = false

pub data IdentifierClass : Type 0 where
  hash256 manifest_key short_id : IdentifierClass

abbrev pub class_eq : IdentifierClass → IdentifierClass → Bool
class_eq hash256 hash256 = true
class_eq manifest_key manifest_key = true
class_eq short_id short_id = true
class_eq _ _ = false

-- `SIZE_BYTES`
abbrev pub size_bytes : IdentifierClass → ℕ
size_bytes hash256 = 32
size_bytes manifest_key = 20
size_bytes short_id = 8

pub record FixedBytesIdentifier : Type 0 where
  pub kind : IdentifierClass
  pub value : List ℕ

-- `FixedBytesIdentifier.__init__` of each subclass.
unfoldable pub fixed_bytes_identifier : IdentifierClass → List ℕ → Result FixedBytesIdentifier
fixed_bytes_identifier kind raw =
    if not (length raw == size_bytes kind)
    then err (identifier_error "identifier has the wrong number of bytes")
    else ok (record { kind = kind; value = raw })

-- `__eq__`: the same class and the same bytes.
unfoldable pub identifier_eq : FixedBytesIdentifier → FixedBytesIdentifier → Bool
identifier_eq a b = class_eq a.kind b.kind && bytes_eq a.value b.value

pub class_eq_iff : (a b : IdentifierClass) → (class_eq a b ≡ true) ↔ (a ≡ b)
class_eq_iff a b = ground arith

pub identifier_eq_iff : (a b : FixedBytesIdentifier) → (identifier_eq a b ≡ true) ↔ (a ≡ b)
unfolding identifier_eq
identifier_eq_iff a b = ground (arith, class_eq_iff a.kind b.kind, bytes_eq_iff a.value b.value)

-- The metadata, and the namespace that only registry-assigned IDs carry, are opaque texts.
pub record ManifestLocator : Type 0 where
  pub mode : PointerMode
  pub value : FixedBytesIdentifier
  pub namespace_id : Option (List ℕ)
  pub hdc_profile_id : Option String
  pub derivation_profile : String

-- `isinstance(value, ManifestKey)` for the FULL modes, `isinstance(value, ShortId)` for the SHORT.
abbrev pub pointer_class : PointerMode → IdentifierClass
pointer_class full160 = manifest_key
pointer_class full160_rateless = manifest_key
pointer_class short64 = short_id
pointer_class short64_hv = short_id

-- The constructor with its `__post_init__`.
unfoldable pub manifest_locator : ManifestLocator → Result ManifestLocator
manifest_locator l = do
  raise_if (not (class_eq l.value.kind (pointer_class l.mode)))
      (validation_error "pointer mode requires another identifier class")
  ok l
