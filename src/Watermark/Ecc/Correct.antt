-- ===== src/Watermark/Ecc/Correct.antt =====
-- The decoder of oprow/watermark/ecc.py on noisy carriers.
use mathlib.Core.List.{append_assoc}
use native.Mathlib.Nat.{suc-mul}
use watermarks_po_c.Common.{
  ℕ, zero, suc, ◌+◌, ◌*◌, ◌/◌, ◌≤◌, ◌<◌, ◌≡◌, refl, ap, ap₂, ◌∙◌, List, [], ◌∷◌, ◌++◌, arith,
  length, take, drop, replicate, take-append, drop-append, length-append, length-replicate,
  length-take, length-drop, All, All-append, All-replicate, All-take, All-drop, ok, digit_of_parts,
  if◌then◌else◌, ◌==◌,
}
use watermarks_po_c.Watermark.Bits.RoundTrip.{IsBit, normalize_bits_lem}
use watermarks_po_c.Watermark.Ecc.{
  RepetitionCode, RepetitionDecodeReport, repeat_bits, encode, decode, decode_groups, sum, majority,
}

-- How many bits of a group are not `b`.
abbrev pub wrong_bits : ℕ → List ℕ → ℕ
wrong_bits b [] = 0
wrong_bits b (c ∷ chunk) = (if c == b then 0 else 1) + wrong_bits b chunk

-- `carrier` is a noisy copy of the encoding of `bits`, followed by an incomplete group: in each
-- group of `r` carrier bits fewer than half are wrong.
abbrev pub Received : ℕ → List ℕ → List ℕ → Type 0
Received r [] carrier = length carrier < r
Received r (b ∷ bits) carrier =
    (r ≤ length carrier)
    × (2 * wrong_bits b (take r carrier) < r)
    × Received r bits (drop r carrier)

sum-zero : (chunk : List ℕ) → All IsBit chunk → sum chunk ≡ wrong_bits 0 chunk
sum-zero [] h = refl
sum-zero (c ∷ chunk) h = ground (arith, sum-zero chunk h.1)

sum-one : (chunk : List ℕ) → All IsBit chunk → sum chunk + wrong_bits 1 chunk ≡ length chunk
sum-one [] h = omega arith
sum-one (c ∷ chunk) h = ground (arith, sum-one chunk h.1)

majority_lem :
    (r b : ℕ) (chunk : List ℕ)
    → IsBit b
    → All IsBit chunk
    → length chunk ≡ r
    → 2 * wrong_bits b chunk < r
    → majority r chunk ≡ b
majority_lem r zero chunk hb h e w = ground (arith, sum-zero chunk h)
majority_lem r (suc zero) chunk hb h e w = ground (arith, sum-one chunk h)
majority_lem r (suc (suc b)) chunk hb h e w = absurd (omega arith)

decode_groups_lem :
    (r : ℕ) (bits carrier : List ℕ)
    → All IsBit bits
    → All IsBit carrier
    → Received r bits carrier
    → (decode_groups r (length bits) carrier).decoded_bits ≡ bits
unfolding decode_groups
decode_groups_lem r [] carrier hb hc rec = refl
decode_groups_lem r (b ∷ bits) carrier hb hc rec =
    ap₂ ◌∷◌
      (majority_lem r b (take r carrier) hb.0 (All-take IsBit r carrier hc)
        (omega (arith, length-take r carrier, rec.0)) rec.1)
      (decode_groups_lem r bits (drop r carrier) hb.1 (All-drop IsBit r carrier hc) rec.2)

groups_seen_lem : (r n : ℕ) (carrier : List ℕ) → (decode_groups r n carrier).groups_seen ≡ n
unfolding decode_groups
groups_seen_lem r zero carrier = refl
groups_seen_lem r (suc n) carrier = ap suc (groups_seen_lem r n (drop r carrier))

group_count :
    (r : ℕ) (bits carrier : List ℕ)
    → Received r bits carrier
    → (t : ℕ) × (t < r) × (length carrier ≡ length bits * r + t)
group_count r [] carrier rec = (length carrier, rec, omega arith)
group_count r (b ∷ bits) carrier rec =
    let (t, lt, e) = group_count r bits (drop r carrier) rec.2 in
    (t, lt, omega (arith, e, length-drop r carrier, rec.0, suc-mul (length bits) r))

length_groups :
    (r : ℕ) (bits carrier : List ℕ) → Received r bits carrier → length carrier / r ≡ length bits
length_groups r bits carrier rec =
    let (t, lt, e) = group_count r bits carrier rec in
    ap (λ n. n / r) e ∙ digit_of_parts (length bits) r t lt

-- A carrier that is a noisy copy of the encoding of `bits`, in the sense of `Received`, is decoded to
-- `bits`, with one group seen for each of them.
pub decode-Received :
    (code : RepetitionCode) (bits carrier : List ℕ)
    → All IsBit bits
    → All IsBit carrier
    → Received code.repetitions bits carrier
    → (report : RepetitionDecodeReport) × (decode code carrier ≡ ok report)
      × (report.decoded_bits ≡ bits)
      × (report.groups_seen ≡ length bits)
unfolding decode
decode-Received code bits carrier hb hc rec = (
  decode_groups code.repetitions (length bits) carrier,
  rw (normalize_bits_lem carrier hc) (rw (length_groups code.repetitions bits carrier rec)),
  decode_groups_lem code.repetitions bits carrier hb hc rec,
  groups_seen_lem code.repetitions (length bits) carrier,
)

wrong_bits-replicate : (n b : ℕ) → wrong_bits b (replicate n b) ≡ 0
wrong_bits-replicate zero b = refl
wrong_bits-replicate (suc n) b = ground (arith, wrong_bits-replicate n b)

-- A clean encoding is received, with any incomplete group after it.
pub repeat_bits-Received :
    (r : ℕ) (bits rest : List ℕ) → length rest < r → Received r bits (repeat_bits r bits ++ rest)
unfolding repeat_bits
repeat_bits-Received r [] rest h = h
repeat_bits-Received r (b ∷ bits) rest h =
    rw (append_assoc (replicate r b) (repeat_bits r bits) rest) (
      omega
          (arith, length-append (replicate r b) (repeat_bits r bits ++ rest), length-replicate r b),
      rw (take-append r (replicate r b) (repeat_bits r bits ++ rest) (length-replicate r b))
          (omega (arith, wrong_bits-replicate r b, h)),
      rw (drop-append r (replicate r b) (repeat_bits r bits ++ rest) (length-replicate r b))
          (repeat_bits-Received r bits rest h),
    )

pub repeat_bits-IsBit : (r : ℕ) (bits : List ℕ) → All IsBit bits → All IsBit (repeat_bits r bits)
unfolding repeat_bits
repeat_bits-IsBit r [] h = tt
repeat_bits-IsBit r (b ∷ bits) h =
    All-append IsBit (replicate r b) (repeat_bits r bits) (All-replicate IsBit r b h.0)
      (repeat_bits-IsBit r bits h.1)

pub encode_lem :
    (code : RepetitionCode) (bits : List ℕ)
    → All IsBit bits
    → encode code bits ≡ ok (repeat_bits code.repetitions bits)
unfolding encode
encode_lem code bits h = rw (normalize_bits_lem bits h)
