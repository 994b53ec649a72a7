-- ===== src/Watermark/Payload.antt =====
-- oprow/watermark/payload.py: the locator payload with its checksum.
-- Numbers that the constructor requires to be non-negative are ℕ; the `metadata` dict is left out.
pub mod Layout
pub mod RoundTrip
use watermarks_po_c.Common.{
  ℕ, zero, suc, ◌+◌, ◌-◌, ◌*◌, ◌/◌, ◌%◌, bit_and, bit_or, Bool, true, false, not, ◌&&◌, ◌||◌,
  Option, none, some, List, [], ◌∷◌, ◌++◌, String, ltb, leb, ◌==◌, if◌then◌else◌, length, take,
  drop, Result, ok, err, ◌>>=◌, ◌>>◌, raise_if, validation_error, ℤ, pos,
}
use watermarks_po_c.Core.Identifiers.{
  PointerMode, full160, short64, short64_hv, full160_rateless, is_full, FixedBytesIdentifier,
  manifest_key, short_id, class_eq, pointer_class, fixed_bytes_identifier, ManifestLocator,
  manifest_locator,
}
use watermarks_po_c.Watermark.Bits.{
  int_to_bits, bits_to_int, bytes_to_bits, bits_to_bytes, normalize_bits,
}
use watermarks_po_c.Watermark.Crc.{crc16_ccitt_false}

abbrev pub watermark_payload_version : ℕ
watermark_payload_version = 1

abbrev pub pointer_mode_flag_mask : ℕ
pointer_mode_flag_mask = 3

abbrev pub mode_to_flag : PointerMode → ℕ
mode_to_flag full160 = 0
mode_to_flag short64 = 1
mode_to_flag short64_hv = 2
mode_to_flag full160_rateless = 3

-- `none` is the KeyError.
abbrev pub flag_to_mode : ℕ → Option PointerMode
flag_to_mode flag =
    if flag == 0
    then some full160
    else if flag == 1
    then some short64
    else if flag == 2
    then some short64_hv
    else if flag == 3
    then some full160_rateless
    else none

abbrev pub header_bits : ℕ
header_bits = 24

abbrev pub crc_bits : ℕ
crc_bits = 16

abbrev pub full_pointer_bits : ℕ
full_pointer_bits = 160

abbrev pub short_pointer_bits : ℕ
short_pointer_bits = 64

pub record WatermarkPayload : Type 0 where
  pub version : ℕ
  pub wm_alg_id : ℕ
  pub pointer_mode : PointerMode
  pub pointer : FixedBytesIdentifier
  pub extra_flags : ℕ
  pub crc16 : Option ℕ
  pub hdc_profile_id : Option String
  pub derivation_profile : String

abbrev pub crc_fits : Option ℕ → Bool
crc_fits none = true
crc_fits (some crc) = leb crc 0xFFFF

-- The constructor: `__post_init__` on the fields.
unfoldable pub watermark_payload : WatermarkPayload → Result WatermarkPayload
watermark_payload p = do
  raise_if (not (leb p.version 0xF)) (validation_error "watermark version must fit in 4 bits")
  raise_if (not (leb p.wm_alg_id 0xFFF)) (validation_error "wm_alg_id must fit in 12 bits")
  raise_if (not (leb p.extra_flags 0xFC))
      (validation_error "extra_flags must fit in the non-mode bits of the 8-bit flags field")
  raise_if (not (bit_and p.extra_flags pointer_mode_flag_mask == 0))
      (validation_error "extra_flags must not set pointer-mode bits 0..1")
  raise_if (not (class_eq p.pointer.kind (pointer_class p.pointer_mode)))
      (validation_error "payload requires a pointer of the class of its mode")
  raise_if (not (crc_fits p.crc16)) (validation_error "crc16 must fit in 16 bits")
  ok p

unfoldable pub flags : WatermarkPayload → ℕ
flags p = bit_or p.extra_flags (mode_to_flag p.pointer_mode)

-- `pointer_bit_length`, also the choice that `payload_bit_length_for_mode` and `decode_bits` repeat.
unfoldable pub pointer_bit_length : PointerMode → ℕ
pointer_bit_length mode = if is_full mode then full_pointer_bits else short_pointer_bits

unfoldable pub payload_bit_length_for_mode : PointerMode → ℕ
unfolding pointer_bit_length
payload_bit_length_for_mode mode = header_bits + pointer_bit_length mode + crc_bits

unfoldable pub bits_without_crc : WatermarkPayload → Result (List ℕ)
unfolding flags
bits_without_crc p = do
  version_bits ← int_to_bits (pos p.version) (pos 4)
  alg_bits ← int_to_bits (pos p.wm_alg_id) (pos 12)
  flag_bits ← int_to_bits (pos (flags p)) (pos 8)
  pointer_bits ← bytes_to_bits p.pointer.value
  ok (version_bits ++ (alg_bits ++ (flag_bits ++ pointer_bits)))

unfoldable pub compute_crc16 : WatermarkPayload → Result ℕ
compute_crc16 p = do
  bits ← bits_without_crc p
  packed ← bits_to_bytes bits true
  ok (crc16_ccitt_false packed)

abbrev pub or_computed : Option ℕ → Result ℕ → Result ℕ
or_computed none computed = computed
or_computed (some crc) computed = ok crc

unfoldable pub to_bits : WatermarkPayload → Result (List ℕ)
to_bits p = do
  crc ← or_computed p.crc16 (compute_crc16 p)
  bits ← bits_without_crc p
  tail ← int_to_bits (pos crc) (pos 16)
  ok (bits ++ tail)

unfoldable pub with_computed_crc : WatermarkPayload → Result WatermarkPayload
with_computed_crc p = do crc ← compute_crc16 p; watermark_payload (record p { crc16 = some crc })

unfoldable pub from_locator : ManifestLocator → ℕ → ℕ → ℕ → Result WatermarkPayload
from_locator locator wm_alg_id version extra_flags = do
  payload ← watermark_payload (record {
    version = version;
    wm_alg_id = wm_alg_id;
    pointer_mode = locator.mode;
    pointer = locator.value;
    extra_flags = extra_flags;
    crc16 = none;
    hdc_profile_id = locator.hdc_profile_id;
    derivation_profile = locator.derivation_profile;
  })
  with_computed_crc payload

unfoldable pub to_locator : WatermarkPayload → Result ManifestLocator
to_locator p = manifest_locator (record {
  mode = p.pointer_mode;
  value = p.pointer;
  namespace_id = none;
  hdc_profile_id = p.hdc_profile_id;
  derivation_profile = if is_full p.pointer_mode then "h160" else p.derivation_profile;
})

-- `bits[start:stop]`
abbrev pub slice : ℕ → ℕ → List ℕ → List ℕ
slice start stop bits = take (stop - start) (drop start bits)

abbrev pub require_mode : Option PointerMode → Result PointerMode
require_mode none = err (validation_error "unknown pointer mode flag")
require_mode (some mode) = ok mode

-- `flags & ~POINTER_MODE_FLAG_MASK`: `~3` has every bit but the lowest two.
abbrev pub without_mode_bits : ℕ → ℕ
without_mode_bits flag_byte = flag_byte - bit_and flag_byte pointer_mode_flag_mask

-- `if require_crc and payload.compute_crc16() != crc: raise`
abbrev pub check_crc : Bool → WatermarkPayload → ℕ → Result (Unit {0})
check_crc false payload crc = ok tt
check_crc true payload crc = do
  computed ← compute_crc16 payload
  raise_if (not (computed == crc)) (validation_error "watermark payload CRC mismatch")

-- What follows the header, once the mode is known.
unfoldable pub decode_pointer :
    List ℕ → ℕ → ℕ → ℕ → PointerMode → Option String → String → Bool → Result WatermarkPayload
decode_pointer normalized version wm_alg_id flag_byte mode hdc_profile_id derivation_profile
      require_crc =
    do
      let pointer_bits = pointer_bit_length mode
      let total = header_bits + pointer_bits + crc_bits
      raise_if (ltb (length normalized) total)
          (validation_error "not enough bits to decode payload")
      pointer_bytes ←
          bits_to_bytes (slice header_bits (header_bits + pointer_bits) normalized) false
      pointer ←
          fixed_bytes_identifier
            (if pointer_bits == full_pointer_bits then manifest_key else short_id) pointer_bytes
      crc ← bits_to_int (slice (header_bits + pointer_bits) total normalized)
      payload ← watermark_payload (record {
        version = version;
        wm_alg_id = wm_alg_id;
        pointer_mode = mode;
        pointer = pointer;
        extra_flags = without_mode_bits flag_byte;
        crc16 = some crc;
        hdc_profile_id = hdc_profile_id;
        derivation_profile = derivation_profile;
      })
      check_crc require_crc payload crc
      ok payload

unfoldable pub decode_bits : List ℕ → Option String → String → Bool → Result WatermarkPayload
unfolding decode_pointer
decode_bits bits hdc_profile_id derivation_profile require_crc = do
  normalized ← normalize_bits bits
  raise_if (ltb (length normalized) header_bits)
      (validation_error "not enough bits to decode watermark payload header")
  version ← bits_to_int (slice 0 4 normalized)
  wm_alg_id ← bits_to_int (slice 4 16 normalized)
  flag_byte ← bits_to_int (slice 16 24 normalized)
  mode ← require_mode (flag_to_mode (bit_and flag_byte pointer_mode_flag_mask))
  decode_pointer normalized version wm_alg_id flag_byte mode hdc_profile_id derivation_profile
      require_crc
