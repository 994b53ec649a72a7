-- ===== src/Examples/Payloads.antt =====
-- A SHORT64 watermark payload, its frame and its carrier, and the codecs below them.
use mathlib.Core.List.{append-nil}
use watermarks_po_c.Common.{
  ℕ, ◌≡◌, ◌≢◌, refl, subst, sym, true, false, none, some, List, [], ◌∷◌, ◌++◌, length, drop, All,
  All-append, All-drop, ok, ◌>>=◌, pos, arith,
}
use watermarks_po_c.Core.Identifiers.{IdentifierClass, PointerMode}
use watermarks_po_c.Core.Hashes.{frame_parts, frame_fields, frame_field, u64be, to_bytes_be}
use watermarks_po_c.Core.Hashes.Framing.{frame_parts-inj}
use watermarks_po_c.Watermark.Bits.{
  int_to_bits, bits_to_int, bytes_to_bits, bits_to_bytes, shifted_bits, normalize_bits,
  validate_bit, pad_bits, pack_groups, bits_to_int_loop,
}
use watermarks_po_c.Watermark.Bits.RoundTrip.{IsBit}
use watermarks_po_c.Watermark.Bits.Bytes.{
  bits_to_int-int_to_bits, int_to_bits-bits_to_int, bits_to_bytes-bytes_to_bits,
}
use watermarks_po_c.Watermark.Ecc.{RepetitionCode, RepetitionDecodeReport, repeat_bits, decode}
use watermarks_po_c.Watermark.Ecc.Correct.{
  Received, decode-Received, repeat_bits-Received, repeat_bits-IsBit,
}
use watermarks_po_c.Watermark.Crc.{crc16_ccitt_false, crc_loop, crc_byte, crc_rounds, crc_round}
use watermarks_po_c.Watermark.Crc.Detect.{crc16_detects_byte}
use watermarks_po_c.Watermark.Payload.{
  WatermarkPayload, watermark_payload, with_computed_crc, compute_crc16, bits_without_crc, flags,
  to_bits, decode_bits, payload_bit_length_for_mode,
}
use watermarks_po_c.Watermark.Payload.Layout.{IsValid}
use watermarks_po_c.Watermark.Payload.RoundTrip.{decode_bits-to_bits}
use watermarks_po_c.Watermark.Frame.{
  WatermarkFrameCodec, WatermarkFrameDecodeReport, encode_payload, decode_payload,
  decode_payload_bits,
}
use watermarks_po_c.Watermark.Frame.RoundTrip.{
  frame_bits, frame_bits-IsBit, decode_payload_bits-Received, decode_payload-encode_payload,
}

bits_to_int-int_to_bits_example : (int_to_bits (pos 11) (pos 4) >>= bits_to_int) ≡ ok 11
bits_to_int-int_to_bits_example = bits_to_int-int_to_bits 11 4 (omega arith)

int_to_bits-bits_to_int_example :
    (bits_to_int (1 ∷ 0 ∷ 1 ∷ 1 ∷ []) >>= λ v. int_to_bits (pos v) (pos 4))
    ≡ ok (1 ∷ 0 ∷ 1 ∷ 1 ∷ [])
int_to_bits-bits_to_int_example = int_to_bits-bits_to_int (1 ∷ 0 ∷ 1 ∷ 1 ∷ []) (omega arith)

bits_to_bytes-bytes_to_bits_example :
    (bytes_to_bits (79 ∷ 80 ∷ []) >>= λ bits. bits_to_bytes bits false) ≡ ok (79 ∷ 80 ∷ [])
bits_to_bytes-bytes_to_bits_example = bits_to_bytes-bytes_to_bits (79 ∷ 80 ∷ []) false (omega arith)

abbrev three : RepetitionCode
three = record { repetitions = 3 }

-- One wrong bit in each of the two groups.
decode-Received_example :
    (report : RepetitionDecodeReport) × (decode three (1 ∷ 0 ∷ 1 ∷ 0 ∷ 0 ∷ 1 ∷ 1 ∷ []) ≡ ok report)
    × (report.decoded_bits ≡ 1 ∷ 0 ∷ [])
    × (report.groups_seen ≡ 2)
decode-Received_example =
    decode-Received three (1 ∷ 0 ∷ []) (1 ∷ 0 ∷ 1 ∷ 0 ∷ 0 ∷ 1 ∷ 1 ∷ []) (omega arith) (omega arith)
      (omega arith)

crc16_detects_byte_example :
    crc16_ccitt_false (49 ∷ 50 ∷ 51 ∷ []) ≢ crc16_ccitt_false (49 ∷ 58 ∷ 51 ∷ [])
crc16_detects_byte_example =
    crc16_detects_byte (49 ∷ []) 50 58 (51 ∷ []) (omega arith) (omega arith) (omega arith)
      (omega arith) (λ e. omega arith)

abbrev payload : WatermarkPayload
payload = record {
  version = 1;
  wm_alg_id = 2;
  pointer_mode = PointerMode.short64;
  pointer = record { kind = IdentifierClass.short_id; value = 1 ∷ 2 ∷ 3 ∷ 4 ∷ 5 ∷ 6 ∷ 7 ∷ 8 ∷ [] };
  extra_flags = 4;
  crc16 = none;
  hdc_profile_id = none;
  derivation_profile = "hash_truncated";
}

payload-IsValid : IsValid payload
payload-IsValid = record {
  version_fits = omega arith;
  alg_fits = omega arith;
  flags_fit = omega arith;
  mode_bits_clear = omega arith;
  pointer_kind = refl;
  pointer_size = refl;
  pointer_bytes = omega arith;
}

decode_bits-to_bits_example :
    (crc : ℕ) × (bits : List ℕ) × (with_computed_crc payload
      ≡ ok (record payload { crc16 = some crc }))
    × (to_bits (record payload { crc16 = some crc }) ≡ ok bits)
    × All IsBit bits
    × (length bits ≡ payload_bit_length_for_mode PointerMode.short64)
    × (decode_bits (bits ++ 1 ∷ []) none "hash_truncated" true
        ≡ ok (record payload { crc16 = some crc }))
decode_bits-to_bits_example =
    decode_bits-to_bits payload payload-IsValid (1 ∷ []) (omega arith) true

abbrev codec : WatermarkFrameCodec
codec = record { ecc = three; max_preamble_scan_bits = 4096 }

-- The first bit of the preamble with one of its three carrier bits wrong, and the rest of a frame.
abbrev noisy : List ℕ → List ℕ
noisy bits = 0 ∷ 1 ∷ 0 ∷ repeat_bits 3 (drop 1 (frame_bits bits)) ++ []

noisy-IsBit : (bits : List ℕ) → All IsBit bits → All IsBit (noisy bits)
noisy-IsBit bits h = (
  omega arith,
  (
    omega arith,
    (
      omega arith,
      All-append IsBit (repeat_bits 3 (drop 1 (frame_bits bits))) []
          (repeat_bits-IsBit 3 (drop 1 (frame_bits bits))
            (All-drop IsBit 1 (frame_bits bits) (frame_bits-IsBit bits h)))
          tt,
    ),
  ),
)

noisy-Received : (bits : List ℕ) → Received 3 (frame_bits bits ++ []) (noisy bits)
noisy-Received bits =
    subst (λ bs. Received 3 bs (noisy bits)) (sym (append-nil (frame_bits bits)))
      (omega arith, omega arith, repeat_bits-Received 3 (drop 1 (frame_bits bits)) [] (omega arith))

decode_payload_bits-Received_example :
    (frame : WatermarkFrameDecodeReport) × (decode_payload_bits codec (noisy (1 ∷ 0 ∷ []))
      ≡ ok frame)
    × (frame.payload_bits ≡ 1 ∷ 0 ∷ [])
    × (frame.preamble_offset ≡ 0)
decode_payload_bits-Received_example =
    decode_payload_bits-Received codec (1 ∷ 0 ∷ []) [] (noisy (1 ∷ 0 ∷ [])) (omega arith) tt
      (noisy-IsBit (1 ∷ 0 ∷ []) (omega arith)) (omega arith) (noisy-Received (1 ∷ 0 ∷ []))

abbrev payload_with_crc : WatermarkPayload
payload_with_crc = record payload { crc16 = some 24280 }

abbrev payload_bits : List ℕ
payload_bits =
    0 ∷ 0 ∷ 0 ∷ 1 ∷ 0 ∷ 0 ∷ 0 ∷ 0 ∷ 0 ∷ 0 ∷ 0 ∷ 0 ∷ 0 ∷ 0 ∷ 1 ∷ 0 ∷ 0 ∷ 0 ∷ 0 ∷ 0 ∷ 0 ∷ 1 ∷ 0 ∷ 1
    ∷ 0 ∷ 0 ∷ 0 ∷ 0 ∷ 0 ∷ 0 ∷ 0 ∷ 1 ∷ 0 ∷ 0 ∷ 0 ∷ 0 ∷ 0 ∷ 0 ∷ 1 ∷ 0 ∷ 0 ∷ 0 ∷ 0 ∷ 0 ∷ 0 ∷ 0 ∷ 1 ∷ 1
    ∷ 0 ∷ 0 ∷ 0 ∷ 0 ∷ 0 ∷ 1 ∷ 0 ∷ 0 ∷ 0 ∷ 0 ∷ 0 ∷ 0 ∷ 0 ∷ 1 ∷ 0 ∷ 1 ∷ 0 ∷ 0 ∷ 0 ∷ 0 ∷ 0 ∷ 1 ∷ 1 ∷ 0
    ∷ 0 ∷ 0 ∷ 0 ∷ 0 ∷ 0 ∷ 1 ∷ 1 ∷ 1 ∷ 0 ∷ 0 ∷ 0 ∷ 0 ∷ 1 ∷ 0 ∷ 0 ∷ 0 ∷ 0 ∷ 1 ∷ 0 ∷ 1 ∷ 1 ∷ 1 ∷ 1 ∷ 0
    ∷ 1 ∷ 1 ∷ 0 ∷ 1 ∷ 1 ∷ 0 ∷ 0 ∷ 0 ∷ []

payload-with_crc : with_computed_crc payload ≡ ok payload_with_crc
unfolding with_computed_crc compute_crc16 bits_without_crc flags int_to_bits shifted_bits
    bytes_to_bits bits_to_bytes normalize_bits validate_bit pad_bits pack_groups bits_to_int
    bits_to_int_loop crc16_ccitt_false crc_loop crc_byte crc_rounds crc_round watermark_payload
payload-with_crc = refl

payload-bits : to_bits payload_with_crc ≡ ok payload_bits
unfolding to_bits bits_without_crc flags int_to_bits shifted_bits bytes_to_bits
payload-bits = refl

decode_payload-encode_payload_example :
    (frame : WatermarkFrameDecodeReport) × (encode_payload codec payload_with_crc
      ≡ ok (repeat_bits 3 (frame_bits payload_bits)))
    × (decode_payload codec (noisy payload_bits) none "hash_truncated"
        ≡ ok (payload_with_crc, frame))
decode_payload-encode_payload_example =
    decode_payload-encode_payload codec payload payload_with_crc payload_bits []
      (noisy payload_bits) payload-IsValid payload-with_crc payload-bits tt
      (noisy-IsBit payload_bits (omega arith)) (noisy-Received payload_bits)

abbrev framed : List ℕ
framed =
    79 ∷ 80 ∷ 114 ∷ 111 ∷ 87 ∷ 45 ∷ 70 ∷ 82 ∷ 65 ∷ 77 ∷ 69 ∷ 45 ∷ 118 ∷ 49 ∷ 0 ∷ 0 ∷ 0 ∷ 0 ∷ 0 ∷ 0
    ∷ 0 ∷ 1 ∷ 1 ∷ 0 ∷ 0 ∷ 0 ∷ 0 ∷ 0 ∷ 0 ∷ 0 ∷ 2 ∷ 2 ∷ 3 ∷ []

framed-ok : frame_parts (1 ∷ []) ((2 ∷ 3 ∷ []) ∷ []) ≡ ok framed
unfolding frame_parts frame_fields frame_field u64be to_bytes_be
framed-ok = refl

abbrev framed_domain : List ℕ
framed_domain = 1 ∷ []

abbrev framed_fields : List (List ℕ)
framed_fields = (2 ∷ 3 ∷ []) ∷ []

frame_parts-inj_example : (framed_domain ≡ framed_domain) × (framed_fields ≡ framed_fields)
frame_parts-inj_example =
    frame_parts-inj framed_domain framed_domain framed_fields framed_fields framed framed-ok
      framed-ok
