-- ===== src/Watermark/Payload/Layout.antt =====
-- The bits of a payload, field by field, and its checksum.
use watermarks_po_c.Common.{
  ℕ, zero, suc, ◌+◌, ◌*◌, ◌%◌, ◌≤◌, ◌<◌, bit_and, bit_or, ◌≡◌, refl, Bool, true, not, ◌||◌, ◌&&◌,
  some, List, ◌++◌, arith, ◌==◌, length, length-append, All, All-append, ok, bit_and-mask,
}
use watermarks_po_c.Core.Identifiers.{
  PointerMode, full160, short64, short64_hv, full160_rateless, class_eq_iff, pointer_class,
  size_bytes,
}
use watermarks_po_c.Watermark.Bits.{shifted_bits}
use watermarks_po_c.Watermark.Bits.RoundTrip.{
  IsBit, IsByte, length-shifted_bits, shifted_bits-IsBit,
}
use watermarks_po_c.Watermark.Bits.Bytes.{
  int_to_bits_lem, bits_of, bytes_to_bits_lem, bits_of-IsBit, length-bits_of, bits_to_bytes_lem,
  pack_groups_lem, bytes_of,
}
use watermarks_po_c.Watermark.Crc.{crc16_ccitt_false}
use watermarks_po_c.Watermark.Payload.{
  WatermarkPayload, watermark_payload, flags, mode_to_flag, flag_to_mode, pointer_bit_length,
  bits_without_crc, compute_crc16, without_mode_bits, require_mode, crc_fits,
}

-- What the constructor guarantees, with the bytes of the pointer in range.
pub record IsValid (p : WatermarkPayload) : Type 0 where
  pub version_fits : p.version < 16
  pub alg_fits : p.wm_alg_id < 4096
  pub flags_fit : p.extra_flags ≤ 252
  pub mode_bits_clear : p.extra_flags % 4 ≡ 0
  pub pointer_kind : p.pointer.kind ≡ pointer_class p.pointer_mode
  pub pointer_size : length p.pointer.value ≡ size_bytes p.pointer.kind
  pub pointer_bytes : All IsByte p.pointer.value

low_two_bits : (x : ℕ) → bit_and x 3 ≡ x % 4
low_two_bits x = bit_and-mask 2 x

pub watermark_payload_lem :
    (p : WatermarkPayload) → IsValid p → crc_fits p.crc16 ≡ true → watermark_payload p ≡ ok p
unfolding watermark_payload
watermark_payload_lem p v fits = ground (
  arith,
  v.version_fits,
  low_two_bits p.extra_flags,
  class_eq_iff p.pointer.kind (pointer_class p.pointer_mode),
)

-- Setting the mode bits of a flags byte whose mode bits are clear.
or_table : ℕ → ℕ → Bool
or_table zero m = true
or_table (suc e) m = (not (e % 4 == 0) || bit_or e m == e + m) && or_table e m

or_table_sound : (n e m : ℕ) → or_table n m ≡ true → e < n → e % 4 ≡ 0 → bit_or e m ≡ e + m
unfolding or_table
or_table_sound zero e m t h k = absurd (omega arith)
or_table_sound (suc n) e m t h k = ground (arith, or_table_sound n e m)

or_mode_bits :
    (e : ℕ) (mode : PointerMode)
    → e ≤ 252
    → e % 4 ≡ 0
    → bit_or e (mode_to_flag mode) ≡ e + mode_to_flag mode
unfolding or_table
or_mode_bits e full160 h k = or_table_sound 256 e 0 refl (omega arith) k
or_mode_bits e short64 h k = or_table_sound 256 e 1 refl (omega arith) k
or_mode_bits e short64_hv h k = or_table_sound 256 e 2 refl (omega arith) k
or_mode_bits e full160_rateless h k = or_table_sound 256 e 3 refl (omega arith) k

mode_to_flag-lt : (mode : PointerMode) → mode_to_flag mode < 4
mode_to_flag-lt full160 = omega arith
mode_to_flag-lt short64 = omega arith
mode_to_flag-lt short64_hv = omega arith
mode_to_flag-lt full160_rateless = omega arith

flag_to_mode-mode_to_flag : (mode : PointerMode) → flag_to_mode (mode_to_flag mode) ≡ some mode
flag_to_mode-mode_to_flag full160 = refl
flag_to_mode-mode_to_flag short64 = refl
flag_to_mode-mode_to_flag short64_hv = refl
flag_to_mode-mode_to_flag full160_rateless = refl

module _ (p : WatermarkPayload) (v : IsValid p) where
  flags_lem : flags p ≡ p.extra_flags + mode_to_flag p.pointer_mode
  unfolding flags
  flags_lem = or_mode_bits p.extra_flags p.pointer_mode v.flags_fit v.mode_bits_clear

  pub flags-lt : flags p < 256
  flags-lt =
      omega (arith, flags_lem, mode_to_flag-lt p.pointer_mode, v.flags_fit, v.mode_bits_clear)

  mode_part : flags p % 4 ≡ mode_to_flag p.pointer_mode
  mode_part = omega (arith, flags_lem, mode_to_flag-lt p.pointer_mode, v.mode_bits_clear)

  pub decode_mode : require_mode (flag_to_mode (bit_and (flags p) 3)) ≡ ok p.pointer_mode
  decode_mode =
      rw (low_two_bits (flags p)) (rw mode_part (rw (flag_to_mode-mode_to_flag p.pointer_mode)))

  pub decode_flags : without_mode_bits (flags p) ≡ p.extra_flags
  decode_flags = omega (arith, low_two_bits (flags p), mode_part, flags_lem)

  pub pointer_bits_lem : length (bits_of p.pointer.value) ≡ pointer_bit_length p.pointer_mode
  unfolding pointer_bit_length
  pointer_bits_lem = ground (arith, length-bits_of p.pointer.value, v.pointer_size, v.pointer_kind)

  -- The header and the pointer, as bits.
  abbrev pub raw_bits : List ℕ
  raw_bits =
      shifted_bits p.version 4
      ++ (shifted_bits p.wm_alg_id 12 ++ (shifted_bits (flags p) 8 ++ bits_of p.pointer.value))

  pub bits_without_crc_lem : bits_without_crc p ≡ ok raw_bits
  unfolding bits_without_crc
  bits_without_crc_lem = rw (int_to_bits_lem p.version 4 v.version_fits) (
      rw (int_to_bits_lem p.wm_alg_id 12 v.alg_fits) (
        rw (int_to_bits_lem (flags p) 8 flags-lt)
          (rw (bytes_to_bits_lem p.pointer.value v.pointer_bytes))))

  pub raw_bits-IsBit : All IsBit raw_bits
  raw_bits-IsBit = All-append IsBit _ _ (shifted_bits-IsBit p.version 4) (
      All-append IsBit _ _ (shifted_bits-IsBit p.wm_alg_id 12)
        (All-append IsBit _ _ (shifted_bits-IsBit (flags p) 8) (bits_of-IsBit p.pointer.value)))

  pub length-raw_bits : length raw_bits ≡ (3 + length p.pointer.value) * 8
  length-raw_bits = omega (
    arith,
    length-append (shifted_bits p.version 4)
        (shifted_bits p.wm_alg_id 12 ++ (shifted_bits (flags p) 8 ++ bits_of p.pointer.value)),
    length-append (shifted_bits p.wm_alg_id 12)
        (shifted_bits (flags p) 8 ++ bits_of p.pointer.value),
    length-append (shifted_bits (flags p) 8) (bits_of p.pointer.value),
    length-shifted_bits p.version 4,
    length-shifted_bits p.wm_alg_id 12,
    length-shifted_bits (flags p) 8,
    length-bits_of p.pointer.value,
  )

  abbrev pub crc_of : ℕ
  crc_of = crc16_ccitt_false (bytes_of (3 + length p.pointer.value) raw_bits)

  pub compute_crc16_lem : compute_crc16 p ≡ ok crc_of
  unfolding compute_crc16
  compute_crc16_lem = rw bits_without_crc_lem (
      rw
        (bits_to_bytes_lem raw_bits true (3 + length p.pointer.value) raw_bits-IsBit
          length-raw_bits)
        (rw (pack_groups_lem (3 + length p.pointer.value) raw_bits raw_bits-IsBit)))
