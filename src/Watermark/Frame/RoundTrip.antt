-- ===== src/Watermark/Frame/RoundTrip.antt =====
-- The frame codec of oprow/watermark/payload.py, on noisy carriers.
use native.Mathlib.Nat.{mod-eq_of_lt}
use mathlib.Core.List.{append-nil, append_assoc}
use watermarks_po_c.Common.{
  ℕ, suc, ◌+◌, ◌-◌, ◌^◌, ◌<◌, ◌≡◌, refl, sym, ap, ◌∙◌, true, some, List, [], ◌++◌, arith,
  le→not-ltb, lt→not-leb, bytes_eq, length, take, take-append, drop-append, length-append, All,
  All-append, ok, Result-ok-inj, subst,
}
use watermarks_po_c.Watermark.Bits.{bits_to_int, shifted_bits}
use watermarks_po_c.Watermark.Bits.RoundTrip.{
  IsBit, normalize_bits_lem, length-shifted_bits, shifted_bits-IsBit, bits_to_int_lem,
  value_of-shifted_bits,
}
use watermarks_po_c.Watermark.Bits.Bytes.{int_to_bits_lem}
use watermarks_po_c.Watermark.Ecc.{RepetitionDecodeReport, repeat_bits}
use watermarks_po_c.Watermark.Ecc.Correct.{Received, decode-Received, encode_lem}
use watermarks_po_c.Watermark.Payload.{
  WatermarkPayload, to_bits, decode_bits, slice, with_computed_crc, payload_bit_length_for_mode,
}
use watermarks_po_c.Core.Identifiers.{PointerMode, full160, short64, short64_hv, full160_rateless}
use watermarks_po_c.Watermark.Payload.Layout.{IsValid}
use watermarks_po_c.Watermark.Payload.RoundTrip.{decode_bits-to_bits}
use watermarks_po_c.Watermark.Frame.{
  WatermarkFrameCodec, WatermarkFrameDecodeReport, frame_preamble_bits, find_preamble, search_limit,
  read_frame, encode_payload_bits, encode_payload, decode_payload_bits, decode_payload,
}

-- What the codec hands to the repetition code.
abbrev pub frame_bits : List ℕ → List ℕ
frame_bits payload_bits =
    frame_preamble_bits ++ (shifted_bits (length payload_bits) 16 ++ payload_bits)

preamble-IsBit : All IsBit frame_preamble_bits
preamble-IsBit = omega arith

pub frame_bits-IsBit : (bits : List ℕ) → All IsBit bits → All IsBit (frame_bits bits)
frame_bits-IsBit bits h =
    All-append IsBit frame_preamble_bits _ preamble-IsBit (
      All-append IsBit (shifted_bits (length bits) 16) bits (shifted_bits-IsBit (length bits) 16) h)

pub encode_payload_bits_lem :
    (codec : WatermarkFrameCodec) (bits : List ℕ)
    → All IsBit bits
    → length bits < 2 ^ 16
    → encode_payload_bits codec bits ≡ ok (repeat_bits codec.ecc.repetitions (frame_bits bits))
unfolding encode_payload_bits
encode_payload_bits_lem codec bits h lt = rw (normalize_bits_lem bits h) (
    rw (lt→not-leb (2 ^ 16) (length bits) lt) (
      rw (int_to_bits_lem (length bits) 16 lt)
        (encode_lem codec.ecc (frame_bits bits) (frame_bits-IsBit bits h))))

find_preamble_front :
    (rounds : ℕ) (rest : List ℕ)
    → find_preamble (suc rounds) 0 (frame_preamble_bits ++ rest) ≡ some 0
unfolding find_preamble bytes_eq
find_preamble_front rounds rest = refl

module _ (bits junk : List ℕ) (report : RepetitionDecodeReport)
    (e : report.decoded_bits ≡ frame_bits bits ++ junk) (lt : length bits < 2 ^ 16) where
  length_decoded : length report.decoded_bits ≡ 48 + length bits + length junk
  length_decoded =
      ap length e
      ∙ omega (
        arith,
        length-append (shifted_bits (length bits) 16 ++ bits) junk,
        length-append (shifted_bits (length bits) 16) bits,
        length-shifted_bits (length bits) 16,
      )

  frame_parts_lem :
      report.decoded_bits ≡ frame_preamble_bits ++ (shifted_bits (length bits) 16 ++ (bits ++ junk))
  frame_parts_lem =
      e
      ∙ ap (λ l. frame_preamble_bits ++ l) (append_assoc (shifted_bits (length bits) 16) bits junk)

  slice-length : slice 32 48 report.decoded_bits ≡ shifted_bits (length bits) 16
  slice-length =
      ap (slice 32 48) frame_parts_lem
      ∙ take-append 16 (shifted_bits (length bits) 16) _ (length-shifted_bits (length bits) 16)

  read_length : bits_to_int (slice 32 48 report.decoded_bits) ≡ ok (length bits)
  read_length =
      ap bits_to_int slice-length
      ∙ (bits_to_int_lem _ (shifted_bits-IsBit (length bits) 16)
          ∙ ap ok (value_of-shifted_bits (length bits) 16 ∙ mod-eq_of_lt lt))

  slice_payload : slice 48 (48 + length bits) report.decoded_bits ≡ bits
  slice_payload =
      ap (slice 48 (48 + length bits)) frame_parts_lem
      ∙ (ap (take (48 + length bits - 48)) (
            drop-append 16 (shifted_bits (length bits) 16) (bits ++ junk)
              (length-shifted_bits (length bits) 16))
          ∙ take-append (48 + length bits - 48) bits junk (omega arith))

  read_frame_lem :
      read_frame report 0
      ≡ ok (record {
        payload_bits = bits;
        decoded_bits_seen = length report.decoded_bits;
        preamble_offset = 0;
        repetition_report = report;
      })
  unfolding read_frame
  read_frame_lem = rw (le→not-ltb 48 (length report.decoded_bits) (omega (arith, length_decoded))) (
      rw read_length (
        rw
          (le→not-ltb (48 + length bits) (length report.decoded_bits)
            (omega (arith, length_decoded)))
          (rw slice_payload)))

  find_lem :
      (codec : WatermarkFrameCodec)
      → find_preamble (suc (search_limit codec report.decoded_bits)) 0 report.decoded_bits ≡ some 0
  find_lem codec = ap (find_preamble _ 0) e ∙ find_preamble_front _ _

-- A carrier in which the repetition code can correct every group of a frame, and of whatever bits
-- follow it, is decoded to the payload bits, found at offset 0.
pub decode_payload_bits-Received :
    (codec : WatermarkFrameCodec) (bits junk carrier : List ℕ)
    → All IsBit bits
    → All IsBit junk
    → All IsBit carrier
    → length bits < 2 ^ 16
    → Received codec.ecc.repetitions (frame_bits bits ++ junk) carrier
    → (frame : WatermarkFrameDecodeReport) × (decode_payload_bits codec carrier ≡ ok frame)
      × (frame.payload_bits ≡ bits)
      × (frame.preamble_offset ≡ 0)
unfolding decode_payload_bits
decode_payload_bits-Received codec bits junk carrier hb hj hc lt rec =
    let (report, er, ed, eg) =
      decode-Received codec.ecc (frame_bits bits ++ junk) carrier
        (All-append IsBit (frame_bits bits) junk (frame_bits-IsBit bits hb) hj) hc rec in
    (
      record {
        payload_bits = bits;
        decoded_bits_seen = length report.decoded_bits;
        preamble_offset = 0;
        repetition_report = report;
      },
      rw er (rw (find_lem bits junk report ed lt codec) (read_frame_lem bits junk report ed lt)),
      refl,
      refl,
    )

payload_bit_length-lt : (mode : PointerMode) → payload_bit_length_for_mode mode < 2 ^ 16
unfolding payload_bit_length_for_mode
payload_bit_length-lt full160 = omega arith
payload_bit_length-lt short64 = omega arith
payload_bit_length-lt short64_hv = omega arith
payload_bit_length-lt full160_rateless = omega arith

-- A valid payload with its checksum is encoded as the repetition of its frame, and every carrier in which
-- the repetition code can correct the groups of that frame, and of whatever bits follow it, is
-- decoded to exactly that payload.
pub decode_payload-encode_payload :
    (codec : WatermarkFrameCodec) (p q : WatermarkPayload) (bits junk carrier : List ℕ)
    → IsValid p
    → with_computed_crc p ≡ ok q
    → to_bits q ≡ ok bits
    → All IsBit junk
    → All IsBit carrier
    → Received codec.ecc.repetitions (frame_bits bits ++ junk) carrier
    → (frame : WatermarkFrameDecodeReport) × (encode_payload codec q
        ≡ ok (repeat_bits codec.ecc.repetitions (frame_bits bits)))
      × (decode_payload codec carrier p.hdc_profile_id p.derivation_profile ≡ ok (q, frame))
unfolding encode_payload decode_payload
decode_payload-encode_payload codec p q bits junk carrier v hq ht hj hc rec =
    let (crc, bits', ec, eb, hb', el', ed) = decode_bits-to_bits p v [] tt true in
    let same_q : record p { crc16 = some crc } ≡ q = Result-ok-inj (sym ec ∙ hq) in
    let same_bits : bits' ≡ bits = Result-ok-inj (sym eb ∙ (ap to_bits same_q ∙ ht)) in
    let hb : All IsBit bits = subst (All IsBit) same_bits hb' in
    let lt : length bits < 2 ^ 16 =
      omega (arith, el', ap (length {A = ℕ}) same_bits, payload_bit_length-lt p.pointer_mode) in
    let (frame, ef, ep, eo) =
      decode_payload_bits-Received codec bits junk carrier hb hj hc lt rec in
    (
      frame,
      rw ht (encode_payload_bits_lem codec bits hb lt),
      rw ef (
          rw ep (
            rw (
              ap (λ l. decode_bits l p.hdc_profile_id p.derivation_profile true)
                (sym same_bits ∙ sym (append-nil bits'))
              ∙ (ed ∙ ap ok same_q)))),
    )
