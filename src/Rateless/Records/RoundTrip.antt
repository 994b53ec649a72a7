-- ===== src/Rateless/Records/RoundTrip.antt =====
-- Writing and reading the tile records of oprow/rateless/records.py.
use native.Mathlib.Nat.{mod-eq_of_lt}
use watermarks_po_c.Common.{
  ℕ, ◌^◌, ◌<◌, ◌≡◌, refl, sym, ap, ◌∙◌, arith, Bool, true, false, List, [], ◌∷◌, ◌++◌, ltb,
  bytes_eq_refl, ==_refl, length, take, length-append, take-append, All, All-append, All-weaken,
  All-all, ltb→lt, lt→ltb, le→not-ltb, Result-ok-inj, subst, ok,
}
use watermarks_po_c.Watermark.Bits.{shifted_bits, bits_to_int}
use watermarks_po_c.Watermark.Bits.RoundTrip.{
  IsBit, shifted_bits-IsBit, normalize_bits_lem, bits_to_int_lem, value_of-shifted_bits,
}
use watermarks_po_c.Watermark.Bits.Bytes.{
  int_to_bits_lem, bits_to_bytes_lem, pack_groups_lem, bytes_of,
}
use watermarks_po_c.Watermark.Crc.{crc16_ccitt_false}
use watermarks_po_c.Watermark.Crc.Detect.{crc16_ccitt_false-IsCrc}
use watermarks_po_c.Watermark.Payload.{slice}
use watermarks_po_c.Rateless.Records.{
  RatelessTileRecord, rateless_tile_record, rateless_tile_preamble_bits, protected_bits, crc16,
  to_bits, check_crc, decode_bits,
}

-- What the constructor guarantees.
pub record IsTileRecord (r : RatelessTileRecord) : Type 0 where
  pub version_fits : r.version < 2 ^ 4
  pub equation_id_fits : r.equation_id < 2 ^ 16
  pub rhs_fits : r.rhs < 2
  pub reserved_fits : r.reserved < 2 ^ 3

pub read_field : (v w : ℕ) → v < 2 ^ w → bits_to_int (shifted_bits v w) ≡ ok v
read_field v w h =
    bits_to_int_lem (shifted_bits v w) (shifted_bits-IsBit v w)
    ∙ ap ok (value_of-shifted_bits v w ∙ mod-eq_of_lt h)

module _ (r : RatelessTileRecord) (valid : IsTileRecord r) where
  pub rateless_tile_record_lem : rateless_tile_record r ≡ ok r
  unfolding rateless_tile_record
  rateless_tile_record_lem = rw (lt→ltb r.version 16 valid.version_fits) (
      rw (lt→ltb r.equation_id (2 ^ 16) valid.equation_id_fits)
        (rw (lt→ltb r.rhs 2 valid.rhs_fits) (rw (lt→ltb r.reserved 8 valid.reserved_fits) refl)))

  abbrev pub protected : List ℕ
  protected =
      shifted_bits r.version 4
      ++ (shifted_bits r.equation_id 16 ++ (r.rhs ∷ shifted_bits r.reserved 3))

  pub protected_bits_lem : protected_bits r ≡ ok protected
  unfolding protected_bits
  protected_bits_lem = rw (int_to_bits_lem r.version 4 valid.version_fits) (
      rw (int_to_bits_lem r.equation_id 16 valid.equation_id_fits)
        (rw (int_to_bits_lem r.reserved 3 valid.reserved_fits) refl))

  pub protected-IsBit : All IsBit protected
  protected-IsBit = All-append IsBit (shifted_bits r.version 4) _ (shifted_bits-IsBit r.version 4) (
      All-append IsBit (shifted_bits r.equation_id 16) _ (shifted_bits-IsBit r.equation_id 16)
        (valid.rhs_fits, shifted_bits-IsBit r.reserved 3))

  pub length-protected : length protected ≡ 24
  unfolding shifted_bits
  length-protected = refl

  abbrev pub checksum : ℕ
  checksum = crc16_ccitt_false (bytes_of 3 protected)

  pub crc16_lem : crc16 r ≡ ok checksum
  unfolding crc16
  crc16_lem = rw protected_bits_lem (
      rw
        (bits_to_bytes_lem protected true 3 protected-IsBit (length-protected ∙ omega arith)
          ∙ pack_groups_lem 3 protected protected-IsBit)
        refl)

  pub checksum-lt : checksum < 2 ^ 16
  checksum-lt = crc16_ccitt_false-IsCrc _

  -- The bits of the record.
  abbrev pub encoded : List ℕ
  encoded = rateless_tile_preamble_bits ++ (protected ++ shifted_bits checksum 16)

  pub length-encoded : length encoded ≡ 56
  unfolding shifted_bits
  length-encoded = refl

  pub to_bits_lem : to_bits r ≡ ok encoded
  unfolding to_bits
  to_bits_lem =
      rw protected_bits_lem
        (rw crc16_lem (rw (int_to_bits_lem checksum 16 checksum-lt) (rw length-encoded refl)))

  pub encoded-IsBit : All IsBit encoded
  encoded-IsBit =
      All-append IsBit rateless_tile_preamble_bits _ preamble-IsBit
        (All-append IsBit protected _ protected-IsBit (shifted_bits-IsBit checksum 16))
    where
      preamble-IsBit : All IsBit rateless_tile_preamble_bits
      preamble-IsBit =
          All-weaken (λ b h. ltb→lt b 2 h) rateless_tile_preamble_bits
            (All-all (λ b. ltb b 2) rateless_tile_preamble_bits refl)

  slices :
      (take 16 encoded ≡ rateless_tile_preamble_bits)
      × (slice 16 20 encoded ≡ shifted_bits r.version 4)
      × (slice 20 36 encoded ≡ shifted_bits r.equation_id 16)
      × (slice 36 37 encoded ≡ r.rhs ∷ [])
      × (slice 37 40 encoded ≡ shifted_bits r.reserved 3)
      × (slice 40 56 encoded ≡ shifted_bits checksum 16)
  unfolding shifted_bits
  slices = (refl, refl, refl, refl, refl, refl)

  check_crc_lem : (require_crc : Bool) → check_crc require_crc r checksum ≡ ok r
  unfolding check_crc
  check_crc_lem false = refl
  check_crc_lem true = rw crc16_lem (rw (==_refl checksum) refl)

  read_rhs : bits_to_int (r.rhs ∷ []) ≡ ok r.rhs
  read_rhs = bits_to_int_lem (r.rhs ∷ []) (valid.rhs_fits, tt) ∙ ap ok (omega arith)

  pub decode_bits_lem :
      (rest : List ℕ) (require_crc : Bool)
      → All IsBit rest
      → decode_bits (encoded ++ rest) require_crc ≡ ok r
  unfolding decode_bits
  decode_bits_lem rest require_crc h =
      let (preamble, version, equation_id, rhs, reserved, crc) = slices in
      rw (normalize_bits_lem (encoded ++ rest) (All-append IsBit encoded rest encoded-IsBit h)) (
        rw
          (le→not-ltb 56 (length (encoded ++ rest))
            (omega (arith, length-append encoded rest, length-encoded)))
          (rw (take-append 56 encoded rest length-encoded) (
            rw preamble (
              rw (bytes_eq_refl rateless_tile_preamble_bits) (
                rw version (
                  rw (read_field r.version 4 valid.version_fits) (
                    rw equation_id (
                      rw (read_field r.equation_id 16 valid.equation_id_fits) (
                        rw rhs (
                          rw read_rhs (
                            rw reserved (
                              rw (read_field r.reserved 3 valid.reserved_fits) (
                                rw crc (
                                  rw (read_field checksum 16 checksum-lt) (
                                    rw rateless_tile_record_lem
                                      (check_crc_lem require_crc))))))))))))))))

-- A record is read back from its bits, whatever bits follow, with and without the check of the CRC.
pub tile_decode_bits-to_bits :
    (r : RatelessTileRecord) (bits rest : List ℕ) (require_crc : Bool)
    → IsTileRecord r
    → to_bits r ≡ ok bits
    → All IsBit rest
    → decode_bits (bits ++ rest) require_crc ≡ ok r
tile_decode_bits-to_bits r bits rest require_crc valid e h =
    subst (λ b. decode_bits (b ++ rest) require_crc ≡ ok r)
      (Result-ok-inj (sym (to_bits_lem r valid) ∙ e)) (decode_bits_lem r valid rest require_crc h)
