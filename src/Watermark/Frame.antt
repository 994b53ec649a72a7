-- ===== src/Watermark/Frame.antt =====
-- `WatermarkFrameCodec` of oprow/watermark/payload.py: preamble, length and payload bits behind the
-- repetition code. `max_preamble_scan_bits` is taken to be non-negative.
pub mod RoundTrip
use Prim.Native.Nat.{min}
use watermarks_po_c.Common.{
  ℕ, zero, suc, ◌+◌, ◌-◌, ◌^◌, Bool, true, Option, none, some, List, [], ◌∷◌, ◌++◌, String, ltb,
  leb, bytes_eq, if◌then◌else◌, length, Result, ok, err, ◌>>=◌, ◌>>◌, raise_if, validation_error,
  pos,
}
use watermarks_po_c.Watermark.Bits.{int_to_bits, bits_to_int, bytes_to_bits, normalize_bits}
use watermarks_po_c.Watermark.Ecc
use watermarks_po_c.Watermark.Ecc.{RepetitionCode, RepetitionDecodeReport}
use watermarks_po_c.Watermark.Payload.{WatermarkPayload, to_bits, decode_bits, slice}

-- `bytes_to_bits(b"OPRW")`
abbrev pub frame_preamble_bits : List ℕ
frame_preamble_bits =
    0 ∷ 1 ∷ 0 ∷ 0 ∷ 1 ∷ 1 ∷ 1 ∷ 1 ∷ 0 ∷ 1 ∷ 0 ∷ 1 ∷ 0 ∷ 0 ∷ 0 ∷ 0 ∷ 0 ∷ 1 ∷ 0 ∷ 1 ∷ 0 ∷ 0 ∷ 1 ∷ 0
    ∷ 0 ∷ 1 ∷ 0 ∷ 1 ∷ 0 ∷ 1 ∷ 1 ∷ 1 ∷ []

abbrev pub frame_length_bits : ℕ
frame_length_bits = 16

pub record WatermarkFrameDecodeReport : Type 0 where
  pub payload_bits : List ℕ
  pub decoded_bits_seen : ℕ
  pub preamble_offset : ℕ
  pub repetition_report : RepetitionDecodeReport

pub record WatermarkFrameCodec : Type 0 where
  pub ecc : RepetitionCode
  pub max_preamble_scan_bits : ℕ

unfoldable pub encode_payload_bits : WatermarkFrameCodec → List ℕ → Result (List ℕ)
encode_payload_bits codec payload_bits = do
  norm ← normalize_bits payload_bits
  raise_if (leb (2 ^ frame_length_bits) (length norm))
      (validation_error "payload bitstream too long for 16-bit watermark frame length")
  length_field ← int_to_bits (pos (length norm)) (pos frame_length_bits)
  Ecc.encode codec.ecc (frame_preamble_bits ++ (length_field ++ norm))

unfoldable pub encode_payload : WatermarkFrameCodec → WatermarkPayload → Result (List ℕ)
encode_payload codec payload = do bits ← to_bits payload; encode_payload_bits codec bits

-- `for offset in range(...)`, with the rounds that are left; `none` is the offset -1.
unfoldable pub find_preamble : ℕ → ℕ → List ℕ → Option ℕ
find_preamble zero offset bits = none
find_preamble (suc rounds) offset bits =
    let later = find_preamble rounds (suc offset) bits in
    if bytes_eq (slice offset (offset + length frame_preamble_bits) bits) frame_preamble_bits
    then some offset
    else later

abbrev pub require_preamble : Option ℕ → Result ℕ
require_preamble none = err (validation_error "watermark sync preamble not found")
require_preamble (some offset) = ok offset

unfoldable pub search_limit : WatermarkFrameCodec → List ℕ → ℕ
search_limit codec bits =
    min codec.max_preamble_scan_bits (length bits - length frame_preamble_bits)

unfoldable pub read_frame : RepetitionDecodeReport → ℕ → Result WatermarkFrameDecodeReport
read_frame report preamble_offset = do
  let bits = report.decoded_bits
  let pos' = preamble_offset + length frame_preamble_bits
  raise_if (ltb (length bits) (pos' + frame_length_bits))
      (validation_error "watermark frame missing length field")
  payload_len ← bits_to_int (slice pos' (pos' + frame_length_bits) bits)
  let start = pos' + frame_length_bits
  let end = start + payload_len
  raise_if (ltb (length bits) end) (validation_error "watermark frame truncated")
  ok (record {
    payload_bits = slice start end bits;
    decoded_bits_seen = length bits;
    preamble_offset = preamble_offset;
    repetition_report = report;
  })

unfoldable pub decode_payload_bits :
    WatermarkFrameCodec → List ℕ → Result WatermarkFrameDecodeReport
unfolding read_frame search_limit
decode_payload_bits codec carrier_bits = do
  report ← Ecc.decode codec.ecc carrier_bits
  offset ←
      require_preamble
        (find_preamble (suc (search_limit codec report.decoded_bits)) 0 report.decoded_bits)
  read_frame report offset

unfoldable pub decode_payload :
    WatermarkFrameCodec
    → List ℕ
    → Option String
    → String
    → Result (WatermarkPayload × WatermarkFrameDecodeReport)
decode_payload codec carrier_bits hdc_profile_id derivation_profile = do
  frame ← decode_payload_bits codec carrier_bits
  payload ← decode_bits frame.payload_bits hdc_profile_id derivation_profile true
  ok (payload, frame)
