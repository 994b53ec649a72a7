-- ===== src/Watermark/Payload/RoundTrip.antt =====
-- `to_bits` and `decode_bits` of oprow/watermark/payload.py.
use mathlib.Core.List.{append_assoc}
use native.Mathlib.Nat.{mod-eq_of_lt}
use watermarks_po_c.Common.{
  ℕ, ◌+◌, ◌-◌, ◌^◌, ◌≤◌, ◌<◌, ◌≡◌, refl, sym, ap, ◌∙◌, Bool, true, false, Option, some, List, ◌++◌,
  String, arith, le→not-ltb, bit_and, ◌==◌, ==_refl, if◌then◌else◌, length, take, drop, take-append,
  drop-append, length-append, All, All-append, ok,
}
use watermarks_po_c.Core.Identifiers.{
  PointerMode, full160, short64, short64_hv, full160_rateless, FixedBytesIdentifier, manifest_key,
  short_id, pointer_class, size_bytes, fixed_bytes_identifier,
}
use watermarks_po_c.Watermark.Bits.{bits_to_int, bits_to_bytes, shifted_bits}
use watermarks_po_c.Watermark.Bits.RoundTrip.{
  IsBit, normalize_bits_lem, length-shifted_bits, shifted_bits-IsBit, bits_to_int_lem,
  value_of-shifted_bits,
}
use watermarks_po_c.Watermark.Bits.Bytes.{
  bits_of, bits_of-IsBit, length-bits_of, bits_to_bytes-bits_of, int_to_bits_lem,
}
use watermarks_po_c.Watermark.Crc.Detect.{crc16_ccitt_false-IsCrc}
use watermarks_po_c.Watermark.Payload.{
  WatermarkPayload, watermark_payload, flags, flag_to_mode, pointer_bit_length,
  payload_bit_length_for_mode, compute_crc16, to_bits, with_computed_crc, slice, without_mode_bits,
  require_mode, decode_pointer, decode_bits, check_crc,
}
use watermarks_po_c.Watermark.Payload.Layout.{
  IsValid, watermark_payload_lem, flags-lt, decode_mode, decode_flags, pointer_bits_lem, raw_bits,
  raw_bits-IsBit, length-raw_bits, bits_without_crc_lem, crc_of, compute_crc16_lem,
}

-- The fields of a bit string, cut out again.
module _ (v a f q c rest : List ℕ) (n : ℕ) (lv : length v ≡ 4) (la : length a ≡ 12)
    (lf : length f ≡ 8) (lq : length q ≡ n) (lc : length c ≡ 16) where
  abbrev whole : List ℕ
  whole = v ++ (a ++ (f ++ (q ++ (c ++ rest))))

  whole_pointer : whole ≡ (v ++ (a ++ f)) ++ (q ++ (c ++ rest))
  whole_pointer = simp append_assoc

  whole_crc : whole ≡ (v ++ (a ++ (f ++ q))) ++ (c ++ rest)
  whole_crc = simp append_assoc

  length-whole : length whole ≡ 24 + n + 16 + length rest
  length-whole = omega (
    arith,
    length-append v (a ++ (f ++ (q ++ (c ++ rest)))),
    length-append a (f ++ (q ++ (c ++ rest))),
    length-append f (q ++ (c ++ rest)),
    length-append q (c ++ rest),
    length-append c rest,
    lv,
    la,
    lf,
    lq,
    lc,
  )

  slice_version : slice 0 4 whole ≡ v
  slice_version = take-append 4 v _ lv

  slice_alg : slice 4 16 whole ≡ a
  slice_alg = ap (take 12) (drop-append 4 v _ lv) ∙ take-append 12 a _ la

  slice_flags : slice 16 24 whole ≡ f
  slice_flags =
      ap (λ l. take 8 (drop 16 l)) (sym (append_assoc v a _))
      ∙ (ap (take 8) (drop-append 16 (v ++ a) _ (omega (arith, length-append v a, lv, la)))
          ∙ take-append 8 f _ lf)

  slice_pointer : slice 24 (24 + n) whole ≡ q
  slice_pointer =
      ap (λ l. take (24 + n - 24) (drop 24 l)) whole_pointer
      ∙ (ap (take (24 + n - 24)) (
            drop-append 24 (v ++ (a ++ f)) _
              (omega (arith, length-append v (a ++ f), length-append a f, lv, la, lf)))
          ∙ take-append (24 + n - 24) q _ (omega (arith, lq)))

  slice_crc : slice (24 + n) (24 + n + 16) whole ≡ c
  slice_crc =
      ap (λ l. take (24 + n + 16 - (24 + n)) (drop (24 + n) l)) whole_crc
      ∙ (ap (take (24 + n + 16 - (24 + n))) (
            drop-append (24 + n) (v ++ (a ++ (f ++ q))) _ (
              omega (
                arith,
                length-append v (a ++ (f ++ q)),
                length-append a (f ++ q),
                length-append f q,
                lv,
                la,
                lf,
                lq,
              )))
          ∙ take-append (24 + n + 16 - (24 + n)) c _ (omega (arith, lc)))

field_value : (v w : ℕ) → v < 2 ^ w → bits_to_int (shifted_bits v w) ≡ ok v
field_value v w h =
    bits_to_int_lem _ (shifted_bits-IsBit v w) ∙ ap ok (value_of-shifted_bits v w ∙ mod-eq_of_lt h)

class_of_length :
    (mode : PointerMode)
    → (if pointer_bit_length mode == 160 then manifest_key else short_id) ≡ pointer_class mode
unfolding pointer_bit_length
class_of_length full160 = refl
class_of_length short64 = refl
class_of_length short64_hv = refl
class_of_length full160_rateless = refl

fixed_bytes_identifier_lem :
    (i : FixedBytesIdentifier)
    → length i.value ≡ size_bytes i.kind
    → fixed_bytes_identifier i.kind i.value ≡ ok i
unfolding fixed_bytes_identifier
fixed_bytes_identifier_lem i h = ground arith

-- The steps of `decode_pointer`, each with what it returns.
decode_pointer_steps :
    (l : List ℕ) (version alg fl : ℕ) (mode : PointerMode) (hdc : Option String) (der : String)
    (req : Bool) (bytes : List ℕ) (i : FixedBytesIdentifier) (crc : ℕ) (q : WatermarkPayload)
    → 24 + pointer_bit_length mode + 16 ≤ length l
    → bits_to_bytes (slice 24 (24 + pointer_bit_length mode) l) false ≡ ok bytes
    → fixed_bytes_identifier
        (if pointer_bit_length mode == 160 then manifest_key else short_id)
        bytes
      ≡ ok i
    → bits_to_int (slice (24 + pointer_bit_length mode) (24 + pointer_bit_length mode + 16) l)
      ≡ ok crc
    → watermark_payload (record {
      version = version;
      wm_alg_id = alg;
      pointer_mode = mode;
      pointer = i;
      extra_flags = without_mode_bits fl;
      crc16 = some crc;
      hdc_profile_id = hdc;
      derivation_profile = der;
    })
      ≡ ok q
    → check_crc req q crc ≡ ok tt
    → decode_pointer l version alg fl mode hdc der req ≡ ok q
unfolding decode_pointer
decode_pointer_steps l version alg fl mode hdc der req bytes i crc q le eb ei ec ep ek =
    rw (le→not-ltb (24 + pointer_bit_length mode + 16) (length l) le)
      (rw (eb) (rw (ei) (rw (ec) (rw (ep) (rw ek)))))

decode_bits_steps :
    (l : List ℕ) (version alg fl : ℕ) (mode : PointerMode) (hdc : Option String) (der : String)
    (req : Bool) (q : WatermarkPayload)
    → All IsBit l
    → 24 ≤ length l
    → bits_to_int (slice 0 4 l) ≡ ok version
    → bits_to_int (slice 4 16 l) ≡ ok alg
    → bits_to_int (slice 16 24 l) ≡ ok fl
    → require_mode (flag_to_mode (bit_and fl 3)) ≡ ok mode
    → decode_pointer l version alg fl mode hdc der req ≡ ok q
    → decode_bits l hdc der req ≡ ok q
unfolding decode_bits
decode_bits_steps l version alg fl mode hdc der req q hl le ev ea ef em ep =
    rw (normalize_bits_lem l hl)
      (rw (le→not-ltb 24 (length l) le) (rw ev (rw ea (rw ef (rw em ep)))))

module _ (p : WatermarkPayload) (v : IsValid p) (rest : List ℕ) (h : All IsBit rest) where
  abbrev with_crc : WatermarkPayload
  with_crc = record p { crc16 = some (crc_of p v) }

  with_crc-IsValid : IsValid with_crc
  with_crc-IsValid = record {
    version_fits = v.version_fits;
    alg_fits = v.alg_fits;
    flags_fit = v.flags_fit;
    mode_bits_clear = v.mode_bits_clear;
    pointer_kind = v.pointer_kind;
    pointer_size = v.pointer_size;
    pointer_bytes = v.pointer_bytes;
  }

  crc_of-lt : crc_of p v < 2 ^ 16
  crc_of-lt = crc16_ccitt_false-IsCrc _

  with_computed_crc_lem : with_computed_crc p ≡ ok with_crc
  unfolding with_computed_crc
  with_computed_crc_lem =
      rw (compute_crc16_lem p v)
        (watermark_payload_lem with_crc with_crc-IsValid (ground (arith, crc_of-lt)))

  compute_with_crc : compute_crc16 with_crc ≡ ok (crc_of p v)
  unfolding flags
  compute_with_crc = compute_crc16_lem with_crc with_crc-IsValid

  abbrev encoded : List ℕ
  encoded = raw_bits p v ++ shifted_bits (crc_of p v) 16

  to_bits_lem : to_bits with_crc ≡ ok encoded
  unfolding to_bits flags
  to_bits_lem =
      rw (bits_without_crc_lem with_crc with_crc-IsValid)
        (rw (int_to_bits_lem (crc_of p v) 16 crc_of-lt))

  encoded-IsBit : All IsBit encoded
  encoded-IsBit = All-append IsBit _ _ (raw_bits-IsBit p v) (shifted_bits-IsBit (crc_of p v) 16)

  length-encoded : length encoded ≡ payload_bit_length_for_mode p.pointer_mode
  unfolding payload_bit_length_for_mode
  length-encoded = omega (
    arith,
    length-append (raw_bits p v) (shifted_bits (crc_of p v) 16),
    length-shifted_bits (crc_of p v) 16,
    length-raw_bits p v,
    length-bits_of p.pointer.value,
    pointer_bits_lem p v,
  )

  abbrev parts : List ℕ
  parts =
      whole (shifted_bits p.version 4) (shifted_bits p.wm_alg_id 12) (shifted_bits (flags p) 8)
        (bits_of p.pointer.value) (shifted_bits (crc_of p v) 16) rest
        (pointer_bit_length p.pointer_mode) (length-shifted_bits _ 4) (length-shifted_bits _ 12)
        (length-shifted_bits _ 8) (pointer_bits_lem p v) (length-shifted_bits _ 16)

  encoded-parts : encoded ++ rest ≡ parts
  encoded-parts = simp append_assoc

  parts-IsBit : All IsBit parts
  parts-IsBit = All-append IsBit _ _ (shifted_bits-IsBit _ 4) (
      All-append IsBit _ _ (shifted_bits-IsBit _ 12) (
        All-append IsBit _ _ (shifted_bits-IsBit _ 8) (
          All-append IsBit _ _ (bits_of-IsBit _)
            (All-append IsBit _ _ (shifted_bits-IsBit _ 16) h))))

  length-parts : length parts ≡ 24 + pointer_bit_length p.pointer_mode + 16 + length rest
  length-parts =
      length-whole (shifted_bits p.version 4) (shifted_bits p.wm_alg_id 12)
        (shifted_bits (flags p) 8) (bits_of p.pointer.value) (shifted_bits (crc_of p v) 16) rest
        (pointer_bit_length p.pointer_mode) (length-shifted_bits _ 4) (length-shifted_bits _ 12)
        (length-shifted_bits _ 8) (pointer_bits_lem p v) (length-shifted_bits _ 16)

  parts_pointer :
      bits_to_bytes (slice 24 (24 + pointer_bit_length p.pointer_mode) parts) false
      ≡ ok p.pointer.value
  parts_pointer =
      ap (λ l. bits_to_bytes l false)
        (slice_pointer (shifted_bits p.version 4) (shifted_bits p.wm_alg_id 12)
          (shifted_bits (flags p) 8) (bits_of p.pointer.value) (shifted_bits (crc_of p v) 16) rest
          (pointer_bit_length p.pointer_mode) (length-shifted_bits _ 4) (length-shifted_bits _ 12)
          (length-shifted_bits _ 8) (pointer_bits_lem p v) (length-shifted_bits _ 16))
      ∙ bits_to_bytes-bits_of p.pointer.value false v.pointer_bytes

  parts_crc :
      bits_to_int (
        slice
          (24 + pointer_bit_length p.pointer_mode)
          (24 + pointer_bit_length p.pointer_mode + 16)
          parts)
      ≡ ok (crc_of p v)
  parts_crc =
      ap bits_to_int (
        slice_crc (shifted_bits p.version 4) (shifted_bits p.wm_alg_id 12)
          (shifted_bits (flags p) 8) (bits_of p.pointer.value) (shifted_bits (crc_of p v) 16) rest
          (pointer_bit_length p.pointer_mode) (length-shifted_bits _ 4) (length-shifted_bits _ 12)
          (length-shifted_bits _ 8) (pointer_bits_lem p v) (length-shifted_bits _ 16))
      ∙ field_value (crc_of p v) 16 crc_of-lt

  parts_kind :
      fixed_bytes_identifier
        (if pointer_bit_length p.pointer_mode == 160 then manifest_key else short_id)
        p.pointer.value
      ≡ ok p.pointer
  parts_kind =
      ap (λ k. fixed_bytes_identifier k p.pointer.value)
        (class_of_length p.pointer_mode ∙ sym v.pointer_kind)
      ∙ fixed_bytes_identifier_lem p.pointer v.pointer_size

  check_with_crc : (require_crc : Bool) → check_crc require_crc with_crc (crc_of p v) ≡ ok tt
  check_with_crc false = refl
  check_with_crc true = rw compute_with_crc (rw (==_refl (crc_of p v)))

  decode_pointer_lem :
      (require_crc : Bool)
      → decode_pointer parts p.version p.wm_alg_id
          (flags p)
          p.pointer_mode
          p.hdc_profile_id
          p.derivation_profile
          require_crc
        ≡ ok with_crc
  decode_pointer_lem require_crc =
      decode_pointer_steps parts p.version p.wm_alg_id (flags p) p.pointer_mode p.hdc_profile_id
        p.derivation_profile require_crc p.pointer.value p.pointer (crc_of p v) with_crc
        (omega (arith, length-parts)) parts_pointer parts_kind parts_crc
        (rw (decode_flags p v)
          (watermark_payload_lem with_crc with_crc-IsValid (ground (arith, crc_of-lt))))
        (check_with_crc require_crc)

  decode_parts :
      (require_crc : Bool)
      → decode_bits parts p.hdc_profile_id p.derivation_profile require_crc ≡ ok with_crc
  decode_parts require_crc =
      decode_bits_steps parts p.version p.wm_alg_id (flags p) p.pointer_mode p.hdc_profile_id
        p.derivation_profile require_crc with_crc parts-IsBit (omega (arith, length-parts))
        (ap bits_to_int (
            slice_version _ _ _ _ _ rest _ (length-shifted_bits _ 4) (length-shifted_bits _ 12)
              (length-shifted_bits _ 8) (pointer_bits_lem p v) (length-shifted_bits _ 16))
          ∙ field_value p.version 4 v.version_fits)
        (ap bits_to_int (
            slice_alg _ _ _ _ _ rest _ (length-shifted_bits _ 4) (length-shifted_bits _ 12)
              (length-shifted_bits _ 8) (pointer_bits_lem p v) (length-shifted_bits _ 16))
          ∙ field_value p.wm_alg_id 12 v.alg_fits)
        (ap bits_to_int (
            slice_flags _ _ _ _ _ rest _ (length-shifted_bits _ 4) (length-shifted_bits _ 12)
              (length-shifted_bits _ 8) (pointer_bits_lem p v) (length-shifted_bits _ 16))
          ∙ field_value (flags p) 8 (flags-lt p v))
        (decode_mode p v) (decode_pointer_lem require_crc)

  -- A valid payload gets a checksum, and the payload with that checksum is written in as many bits
  -- as its mode says. Decoding those bits, with any bits after them, returns that payload, whether or not the
  -- checksum is required.
  pub decode_bits-to_bits :
      (require_crc : Bool)
      → (crc : ℕ) × (bits : List ℕ) × (with_computed_crc p ≡ ok (record p { crc16 = some crc }))
        × (to_bits (record p { crc16 = some crc }) ≡ ok bits)
        × All IsBit bits
        × (length bits ≡ payload_bit_length_for_mode p.pointer_mode)
        × (decode_bits (bits ++ rest) p.hdc_profile_id p.derivation_profile require_crc
            ≡ ok (record p { crc16 = some crc }))
  decode_bits-to_bits require_crc = (
    crc_of p v,
    encoded,
    with_computed_crc_lem,
    to_bits_lem,
    encoded-IsBit,
    length-encoded,
    rw encoded-parts (decode_parts require_crc),
  )
