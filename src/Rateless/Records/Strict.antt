-- ===== src/Rateless/Records/Strict.antt =====
-- What the decoder of oprow/rateless/records.py accepts is what the encoder writes.
use watermarks_po_c.Common.{
  ℕ, ◌≡◌, sym, ap, ◌∙◌, arith, true, not, List, ltb, bytes_eq, bytes_eq→≡, ◌==◌, ==_iff, length,
  take, drop, length-take, take-append-drop, All, All-take, All-drop, Result, Result-ok-inj, ◌>>=◌,
  >>=-eq-ok, raise_if-ok, raise_if-not-ok, raise_if, subst, ok, validation_error, not-ltb→le, ◌↔◌,
}
use watermarks_po_c.Watermark.Bits.{shifted_bits, bits_to_int, normalize_bits}
use watermarks_po_c.Watermark.Bits.RoundTrip.{IsBit, normalize_bits_lem}
use watermarks_po_c.Watermark.Payload.{slice}
use watermarks_po_c.Rateless.Records.{
  RatelessTileRecord, rateless_tile_record, rateless_tile_preamble_bits, rateless_record_bits,
  crc16, to_bits, check_crc, decode_bits,
}
use watermarks_po_c.Rateless.Records.Parts.{read_slice, encoded-read}
use watermarks_po_c.Rateless.Records.RoundTrip.{
  tile_decode_bits-to_bits, IsTileRecord, rateless_tile_record_lem, crc16_lem, checksum,
  to_bits_lem,
}

check_crc-ok :
    (r read : RatelessTileRecord) (crc : ℕ) (valid : IsTileRecord r)
    → check_crc true r crc ≡ ok read
    → (read ≡ r) × (checksum r valid ≡ crc)
unfolding check_crc
check_crc-ok r read crc valid e =
    let (expected, ee, e1) = >>=-eq-ok (crc16 r) _ e in
    let (u, passed, e2) =
      >>=-eq-ok (raise_if (not (expected == crc)) (validation_error "rateless tile CRC mismatch")) _
        e1 in
    (
      sym (Result-ok-inj e2),
      Result-ok-inj (sym (crc16_lem r valid) ∙ ee)
          ∙ (==_iff expected crc).0 (raise_if-not-ok (expected == crc) _ passed),
    )

-- The part of `decode_bits` after the preamble.
abbrev decode_fields : List ℕ → Result RatelessTileRecord
decode_fields b = do
  version ← bits_to_int (slice 16 20 b)
  equation_id ← bits_to_int (slice 20 36 b)
  rhs ← bits_to_int (slice 36 37 b)
  reserved ← bits_to_int (slice 37 40 b)
  crc ← bits_to_int (slice 40 56 b)
  r ←
      rateless_tile_record
        (record { equation_id = equation_id; rhs = rhs; version = version; reserved = reserved })
  check_crc true r crc

decode_fields-ok :
    (b : List ℕ) (read : RatelessTileRecord)
    → length b ≡ rateless_record_bits
    → All IsBit b
    → take 16 b ≡ rateless_tile_preamble_bits
    → decode_fields b ≡ ok read
    → IsTileRecord read × (to_bits read ≡ ok b)
decode_fields-ok b read size h preamble e =
    let (version, ev, e1) = >>=-eq-ok (bits_to_int (slice 16 20 b)) _ e in
    let (equation_id, ei, e2) = >>=-eq-ok (bits_to_int (slice 20 36 b)) _ e1 in
    let (rhs, er, e3) = >>=-eq-ok (bits_to_int (slice 36 37 b)) _ e2 in
    let (reserved, es, e4) = >>=-eq-ok (bits_to_int (slice 37 40 b)) _ e3 in
    let (crc, ec, e5) = >>=-eq-ok (bits_to_int (slice 40 56 b)) _ e4 in
    let (version_fits, version_bits) =
      read_slice 16 20 version b size h (omega arith) (omega arith) ev in
    let (equation_id_fits, equation_id_bits) =
      read_slice 20 36 equation_id b size h (omega arith) (omega arith) ei in
    let (rhs_fits, rhs_bits) = read_slice 36 37 rhs b size h (omega arith) (omega arith) er in
    let (reserved_fits, reserved_bits) =
      read_slice 37 40 reserved b size h (omega arith) (omega arith) es in
    let (crc_fits, crc_bits) = read_slice 40 56 crc b size h (omega arith) (omega arith) ec in
    let r : RatelessTileRecord = record {
      equation_id = equation_id;
      rhs = rhs;
      version = version;
      reserved = reserved;
    } in
    let valid : IsTileRecord r = record {
      version_fits = version_fits;
      equation_id_fits = equation_id_fits;
      rhs_fits = rhs_fits;
      reserved_fits = reserved_fits;
    } in
    let (made, em, e6) = >>=-eq-ok (rateless_tile_record r) _ e5 in
    let (same, checked) = check_crc-ok r read crc valid (
      subst (λ m. check_crc true m crc ≡ ok read)
        (Result-ok-inj (sym em ∙ rateless_tile_record_lem r valid)) e6) in
    subst (λ m. IsTileRecord m × (to_bits m ≡ ok b)) (sym same)
      (
        valid,
        to_bits_lem r valid
            ∙ ap ok (
                encoded-read b r valid size preamble version_bits equation_id_bits rhs_bits
                  reserved_bits (ap (λ n. shifted_bits n 16) checked ∙ crc_bits)),
      )

pub decode_bits-accepts :
    (bits : List ℕ) (r : RatelessTileRecord)
    → All IsBit bits
    → decode_bits bits true ≡ ok r
    → IsTileRecord r × (to_bits r ≡ ok (take rateless_record_bits bits))
unfolding decode_bits
decode_bits-accepts bits r h e =
    let (normalized, en, e1) = >>=-eq-ok (normalize_bits bits) _ e in
    let (u, long, e2) =
      >>=-eq-ok
        (raise_if (ltb (length normalized) rateless_record_bits)
          (validation_error "rateless tile record needs 56 bits"))
        _ e1 in
    let b = take rateless_record_bits normalized in
    let (v, found, e3) =
      >>=-eq-ok
        (raise_if (not (bytes_eq (take 16 b) rateless_tile_preamble_bits))
          (validation_error "rateless tile preamble not found"))
        _ e2 in
    let same : normalized ≡ bits = Result-ok-inj (sym en ∙ normalize_bits_lem bits h) in
    let size : length b ≡ rateless_record_bits = omega (
      arith,
      length-take rateless_record_bits normalized,
      not-ltb→le rateless_record_bits (length normalized) (raise_if-ok _ _ long),
    ) in
    let (valid, written) =
      decode_fields-ok b r size
        (All-take IsBit rateless_record_bits normalized (subst (All IsBit) (sym same) h))
        (bytes_eq→≡ _ _ (raise_if-not-ok _ _ found)) e3 in
    (valid, written ∙ ap (λ n. ok (take rateless_record_bits n)) same)

-- On bits, the decoder that checks the CRC returns a record exactly when the fields of that record are in
-- range and the first 56 bits are those that the encoder writes for it.
pub decode_bits-to_bits_iff :
    (bits : List ℕ) (r : RatelessTileRecord)
    → All IsBit bits
    → (decode_bits bits true ≡ ok r)
      ↔ (IsTileRecord r × (to_bits r ≡ ok (take rateless_record_bits bits)))
decode_bits-to_bits_iff bits r h = (decode_bits-accepts bits r h, reads)
  where
    reads :
        IsTileRecord r × (to_bits r ≡ ok (take rateless_record_bits bits))
        → decode_bits bits true ≡ ok r
    reads (valid, written) =
        subst (λ b. decode_bits b true ≡ ok r) (take-append-drop rateless_record_bits bits)
          (tile_decode_bits-to_bits r (take rateless_record_bits bits)
            (drop rateless_record_bits bits) true valid written
            (All-drop IsBit rateless_record_bits bits h))
