-- ===== src/Watermark/Ecc.antt =====
-- oprow/watermark/ecc.py: the odd repetition code with majority decoding.
-- A confidence `margin / repetitions` is kept as the pair of its two integers.
pub mod Correct
use watermarks_po_c.Common.{
  ℕ, zero, suc, ◌+◌, ◌-◌, ◌*◌, ◌/◌, ◌%◌, Bool, true, false, not, ◌||◌, List, [], ◌∷◌, ◌++◌, ltb,
  ◌==◌, if◌then◌else◌, length, take, drop, replicate, Result, ok, err, ◌>>=◌, ◌>>◌, raise_if,
  validation_error, ℤ, pos, negsuc,
}
use watermarks_po_c.Watermark.Bits.{normalize_bits}

pub record RepetitionDecodeReport : Type 0 where
  pub decoded_bits : List ℕ
  pub repetitions : ℕ
  pub groups_seen : ℕ
  pub corrected_groups : ℕ
  pub confidences : List (ℕ × ℕ)

pub record RepetitionCode : Type 0 where
  pub repetitions : ℕ

-- The constructor with its `__post_init__`.
unfoldable pub repetition_code : ℤ → Result RepetitionCode
repetition_code (negsuc n) = err (validation_error "repetitions must be positive")
repetition_code (pos n) =
    if n == 0
    then err (validation_error "repetitions must be positive")
    else if n % 2 == 0
    then err (validation_error "repetitions must be odd so majority decoding is unambiguous")
    else ok (record { repetitions = n })

unfoldable pub repeat_bits : ℕ → List ℕ → List ℕ
repeat_bits r [] = []
repeat_bits r (b ∷ bits) = replicate r b ++ repeat_bits r bits

unfoldable pub encode : RepetitionCode → List ℕ → Result (List ℕ)
encode code bits = do normalized ← normalize_bits bits; ok (repeat_bits code.repetitions normalized)

abbrev pub sum : List ℕ → ℕ
sum [] = 0
sum (b ∷ bits) = b + sum bits

-- `abs(a - b)`
abbrev pub abs_difference : ℕ → ℕ → ℕ
abs_difference a b = (a - b) + (b - a)

abbrev pub majority : ℕ → List ℕ → ℕ
majority r chunk = let ones = sum chunk in let zeros = r - ones in if ltb zeros ones then 1 else 0

abbrev pub confidence : ℕ → List ℕ → ℕ × ℕ
confidence r chunk = (abs_difference (sum chunk) (r - sum chunk), r)

-- 1 for a group whose carrier bits do not all agree.
abbrev pub corrected : ℕ → List ℕ → ℕ
corrected r chunk =
    let ones = sum chunk in let zeros = r - ones in if not (ones == 0 || zeros == 0) then 1 else 0

-- One round for each complete group; the report's lists grow at the front of the later rounds.
unfoldable pub decode_groups : ℕ → ℕ → List ℕ → RepetitionDecodeReport
decode_groups r zero bits = record {
  decoded_bits = [];
  repetitions = r;
  groups_seen = 0;
  corrected_groups = 0;
  confidences = [];
}
decode_groups r (suc groups) bits =
    let chunk = take r bits in
    let later = decode_groups r groups (drop r bits) in
    record {
      decoded_bits = majority r chunk ∷ later.decoded_bits;
      repetitions = r;
      groups_seen = suc later.groups_seen;
      corrected_groups = corrected r chunk + later.corrected_groups;
      confidences = confidence r chunk ∷ later.confidences;
    }

unfoldable pub decode : RepetitionCode → List ℕ → Result RepetitionDecodeReport
decode code carrier_bits = do
  bits ← normalize_bits carrier_bits
  ok (decode_groups code.repetitions (length bits / code.repetitions) bits)
