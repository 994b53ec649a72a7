-- ===== src/Rateless/Records/Majority.antt =====
-- The majority over whole copies of a tile record in oprow/rateless/records.py.
use mathlib.Core.List.{append-nil}
use watermarks_po_c.Common.{
  ℕ, zero, suc, ◌+◌, ◌*◌, ◌≤◌, ◌<◌, ◌≡◌, refl, sym, ap, ap₂, ◌∙◌, arith, true, false, List, [], ◌∷◌,
  ◌==◌, if◌then◌else◌, length, get_elem?, get_or, All, le→not-ltb, Result-ok-inj, subst, ok,
}
use watermarks_po_c.Watermark.Bits.RoundTrip.{IsBit, normalize_bits_lem}
use watermarks_po_c.Rateless.Records.{
  RatelessTileRecord, rateless_record_bits, to_bits, decode_bits, count_votes, count_disagreements,
  majority_bits, RepeatedRecordDecode, majority_decode_repeated_record,
}
use watermarks_po_c.Rateless.Records.RoundTrip.{
  IsTileRecord, to_bits_lem, encoded-IsBit, encoded, length-encoded, tile_decode_bits-to_bits,
}

-- The copies that carry a bit `b` at a position.
unfoldable pub count_agreeing : List ℕ → ℕ → ℕ → ℕ → ℕ
count_agreeing carrier i b zero = 0
count_agreeing carrier i b (suc copy) =
    count_agreeing carrier i b copy
    + (if get_or (get_elem? carrier (i + copy * rateless_record_bits)) 0 == b then 1 else 0)

-- At each position more than half of the copies carry the bit that was written.
unfoldable pub MostAgree : List ℕ → ℕ → ℕ → List ℕ → Type 0
MostAgree carrier repetitions i [] = Unit
MostAgree carrier repetitions i (b ∷ bits) =
    (repetitions < count_agreeing carrier i b repetitions * 2)
    × MostAgree carrier repetitions (suc i) bits

get_elem-IsBit : (bits : List ℕ) (i : ℕ) → All IsBit bits → get_or (get_elem? bits i) 0 < 2
get_elem-IsBit [] i h = omega arith
get_elem-IsBit (b ∷ bits) zero h = h.0
get_elem-IsBit (b ∷ bits) (suc i) h = get_elem-IsBit bits i h.1

count_votes-agreeing :
    (carrier : List ℕ) (i n : ℕ)
    → All IsBit carrier
    → (count_votes carrier i n ≡ count_agreeing carrier i 1 n)
      × (count_votes carrier i n + count_agreeing carrier i 0 n ≡ n)
unfolding count_votes count_agreeing
count_votes-agreeing carrier i zero h = (refl, omega arith)
count_votes-agreeing carrier i (suc copy) h =
    let (ones, zeros) = count_votes-agreeing carrier i copy h in
    let bit = get_elem-IsBit carrier (i + copy * rateless_record_bits) h in
    (ground arith, ground arith)

majority_bits-MostAgree :
    (carrier : List ℕ) (repetitions i : ℕ) (bits : List ℕ)
    → All IsBit carrier
    → All IsBit bits
    → MostAgree carrier repetitions i bits
    → majority_bits carrier repetitions i (length bits) ≡ bits
unfolding majority_bits MostAgree
majority_bits-MostAgree carrier repetitions i [] h k most = refl
majority_bits-MostAgree carrier repetitions i (zero ∷ bits) h k (m, ms) =
    let (ones, zeros) = count_votes-agreeing carrier i repetitions h in
    ap₂ ◌∷◌ (ground arith) (majority_bits-MostAgree carrier repetitions (suc i) bits h k.1 ms)
majority_bits-MostAgree carrier repetitions i (suc zero ∷ bits) h k (m, ms) =
    let (ones, zeros) = count_votes-agreeing carrier i repetitions h in
    ap₂ ◌∷◌ (ground arith) (majority_bits-MostAgree carrier repetitions (suc i) bits h k.1 ms)
majority_bits-MostAgree carrier repetitions i (suc (suc b) ∷ bits) h k (m, ms) =
    absurd (omega (arith, k.0))

not-==_zero : (n : ℕ) → 0 < n → (n == 0) ≡ false
not-==_zero n h = grind arith

-- When at each of the 56 positions more than half of the copies carry the bit that was written, the
-- majority decoder returns the record, for a record whose fields are in range and a carrier of bits that
-- holds all the copies, of which there is at least one.
pub majority_decode_repeated_record-MostAgree :
    (r : RatelessTileRecord) (bits carrier : List ℕ) (repetitions : ℕ)
    → IsTileRecord r
    → to_bits r ≡ ok bits
    → All IsBit carrier
    → 0 < repetitions
    → rateless_record_bits * repetitions ≤ length carrier
    → MostAgree carrier repetitions 0 bits
    → (d : RepeatedRecordDecode) × (majority_decode_repeated_record carrier repetitions ≡ ok d)
      × (d.decoded_record ≡ r)
unfolding majority_decode_repeated_record
majority_decode_repeated_record-MostAgree r bits carrier repetitions valid e h p long most =
    let voted : majority_bits carrier repetitions 0 rateless_record_bits ≡ bits = voted_bits in
    let decoded : decode_bits bits true ≡ ok r =
      subst (λ b. decode_bits b true ≡ ok r) (append-nil bits)
        (tile_decode_bits-to_bits r bits [] true valid e tt) in
    (
      record {
        decoded_record = r;
        repetitions = repetitions;
        bit_disagreements = count_disagreements carrier repetitions 0 rateless_record_bits;
      },
      rw (not-==_zero repetitions p) (
          rw (normalize_bits_lem carrier h) (
            rw (le→not-ltb (rateless_record_bits * repetitions) (length carrier) long)
              (rw voted (rw decoded refl)))),
      refl,
    )
  where
    same : encoded r valid ≡ bits
    same = Result-ok-inj (sym (to_bits_lem r valid) ∙ e)

    voted_bits : majority_bits carrier repetitions 0 rateless_record_bits ≡ bits
    voted_bits =
        subst (λ n. majority_bits carrier repetitions 0 n ≡ bits)
          (ap length (sym same) ∙ length-encoded r valid)
          (majority_bits-MostAgree carrier repetitions 0 bits h
            (subst (All IsBit) same (encoded-IsBit r valid)) most)
