-- ===== src/Watermark/Crc/Detect.antt =====
-- The steps of the loop of oprow/watermark/crc.py, on checksums of 16 bits.
use watermarks_po_c.Common.{
  ℕ, zero, suc, ◌*◌, ◌/◌, ◌%◌, ◌^◌, ◌≤◌, ◌<◌, bit_and, bit_xor, ◌≡◌, ◌≢◌, sym, ◌∙◌, ◌⊎◌, inl, inr,
  List, [], ◌∷◌, ◌++◌, arith, All, bit_and-mask, mod-two_pow-bit_xor, bit_and-two_pow, bit_xor-lt,
  bit_xor_inj_left, bit_xor_inj_right, bit_xor_step,
}
use watermarks_po_c.Watermark.Bits.RoundTrip.{IsByte}
use watermarks_po_c.Watermark.Crc.{crc_round, crc_rounds, crc_byte, crc_loop, crc16_ccitt_false}

abbrev pub IsCrc : ℕ → Type 0
IsCrc crc = crc < 2 ^ 16

mask16 : (x : ℕ) → bit_and x 0xFFFF ≡ x % 2 ^ 16
mask16 x = bit_and-mask 16 x

top_bit : (x : ℕ) → IsCrc x → bit_and x 0x8000 ≡ x / 32768 * 32768
top_bit x h = omega (arith, bit_and-two_pow 15 x)

pub crc_round_low : (x : ℕ) → x < 32768 → crc_round x ≡ x * 2
unfolding crc_round
crc_round_low x h = ground (arith, top_bit x (omega arith), mask16 (x * 2))

pub crc_round_high : (x : ℕ) → IsCrc x → 32768 ≤ x → crc_round x ≡ bit_xor (x * 2 % 2 ^ 16) 0x1021
unfolding crc_round
crc_round_high x h k =
    ground
      (arith, top_bit x h, mask16 (bit_xor (x * 2) 0x1021), mod-two_pow-bit_xor 16 (x * 2) 0x1021)

pub crc_round-IsCrc : (x : ℕ) → IsCrc (crc_round x)
unfolding crc_round
crc_round-IsCrc x = ground (arith, mask16 (x * 2), mask16 (bit_xor (x * 2) 0x1021))

odd_high : (x : ℕ) → bit_xor (x * 2 % 2 ^ 16) 0x1021 % 2 ≡ 1
odd_high x = omega (arith, bit_xor_step (x * 2 % 2 ^ 16) 0x1021)

lt-or-ge : (x k : ℕ) → (x < k) ⊎ (k ≤ x)
lt-or-ge x k = grind arith

crc_round_inj : (x y : ℕ) → IsCrc x → IsCrc y → crc_round x ≡ crc_round y → x ≡ y
crc_round_inj x y hx hy e = elim (lt-or-ge x 32768) [
  | inl lx ↦ elim (lt-or-ge y 32768) [
    | inl ly ↦ omega (arith, crc_round_low x lx, crc_round_low y ly, e)
    | inr gy ↦ absurd (omega (arith, crc_round_low x lx, crc_round_high y hy gy, odd_high y, e))
  ]
  | inr gx ↦ elim (lt-or-ge y 32768) [
    | inl ly ↦ absurd (omega (arith, crc_round_low y ly, crc_round_high x hx gx, odd_high x, e))
    | inr gy ↦ omega (
      arith,
      bit_xor_inj_left (x * 2 % 2 ^ 16) (y * 2 % 2 ^ 16) 0x1021
          (sym (crc_round_high x hx gx) ∙ (e ∙ crc_round_high y hy gy)),
    )
  ]
]

crc_rounds_inj : (n x y : ℕ) → IsCrc x → IsCrc y → crc_rounds n x ≡ crc_rounds n y → x ≡ y
unfolding crc_rounds
crc_rounds_inj zero x y hx hy e = e
crc_rounds_inj (suc n) x y hx hy e =
    crc_round_inj x y hx hy
      (crc_rounds_inj n (crc_round x) (crc_round y) (crc_round-IsCrc x) (crc_round-IsCrc y) e)

crc_rounds-IsCrc : (n x : ℕ) → IsCrc x → IsCrc (crc_rounds n x)
unfolding crc_rounds
crc_rounds-IsCrc zero x h = h
crc_rounds-IsCrc (suc n) x h = crc_rounds-IsCrc n (crc_round x) (crc_round-IsCrc x)

shifted_byte : (b : ℕ) → IsByte b → b * 256 < 2 ^ 16
shifted_byte b h = omega arith

crc_byte-IsCrc : (x b : ℕ) → IsCrc x → IsByte b → IsCrc (crc_byte x b)
unfolding crc_byte
crc_byte-IsCrc x b h k =
    crc_rounds-IsCrc 8 (bit_xor x (b * 256)) (bit_xor-lt 16 x (b * 256) h (shifted_byte b k))

crc_byte_inj : (x y b : ℕ) → IsCrc x → IsCrc y → IsByte b → crc_byte x b ≡ crc_byte y b → x ≡ y
unfolding crc_byte
crc_byte_inj x y b hx hy hb e = bit_xor_inj_left x y (b * 256) (
    crc_rounds_inj 8 (bit_xor x (b * 256)) (bit_xor y (b * 256))
      (bit_xor-lt 16 x (b * 256) hx (shifted_byte b hb))
      (bit_xor-lt 16 y (b * 256) hy (shifted_byte b hb)) e)

crc_byte_inj_byte :
    (x a b : ℕ) → IsCrc x → IsByte a → IsByte b → crc_byte x a ≡ crc_byte x b → a ≡ b
unfolding crc_byte
crc_byte_inj_byte x a b hx ha hb e = omega (
  arith,
  bit_xor_inj_right (a * 256) (b * 256) x (
      crc_rounds_inj 8 (bit_xor x (a * 256)) (bit_xor x (b * 256))
        (bit_xor-lt 16 x (a * 256) hx (shifted_byte a ha))
        (bit_xor-lt 16 x (b * 256) hx (shifted_byte b hb)) e),
)

crc_loop_inj :
    (bytes : List ℕ) (x y : ℕ)
    → All IsByte bytes
    → IsCrc x
    → IsCrc y
    → crc_loop x bytes ≡ crc_loop y bytes
    → x ≡ y
unfolding crc_loop
crc_loop_inj [] x y hb hx hy e = omega (arith, mask16 x, mask16 y, e)
crc_loop_inj (b ∷ bytes) x y hb hx hy e = crc_byte_inj x y b hx hy hb.0 (
    crc_loop_inj bytes (crc_byte x b) (crc_byte y b) hb.1 (crc_byte-IsCrc x b hx hb.0)
      (crc_byte-IsCrc y b hy hb.0) e)

pub crc_loop-IsCrc : (x : ℕ) (bytes : List ℕ) → IsCrc (crc_loop x bytes)
unfolding crc_loop
crc_loop-IsCrc x [] = omega (arith, mask16 x)
crc_loop-IsCrc x (b ∷ bytes) = crc_loop-IsCrc (crc_byte x b) bytes

pub crc16_ccitt_false-IsCrc : (bytes : List ℕ) → IsCrc (crc16_ccitt_false bytes)
unfolding crc16_ccitt_false
crc16_ccitt_false-IsCrc bytes = crc_loop-IsCrc 0xFFFF bytes

detect_loop :
    (before : List ℕ) (x a b : ℕ) (after : List ℕ)
    → All IsByte before
    → IsCrc x
    → IsByte a
    → IsByte b
    → All IsByte after
    → crc_loop x (before ++ a ∷ after) ≡ crc_loop x (before ++ b ∷ after)
    → a ≡ b
unfolding crc_loop
detect_loop [] x a b after hp hx ha hb hs e = crc_byte_inj_byte x a b hx ha hb (
    crc_loop_inj after (crc_byte x a) (crc_byte x b) hs (crc_byte-IsCrc x a hx ha)
      (crc_byte-IsCrc x b hx hb) e)
detect_loop (c ∷ before) x a b after hp hx ha hb hs e =
    detect_loop before (crc_byte x c) a b after hp.1 (crc_byte-IsCrc x c hx hp.0) ha hb hs e

-- Two byte strings that differ in exactly one byte, at any position, have different checksums.
pub crc16_detects_byte :
    (before : List ℕ) (a b : ℕ) (after : List ℕ)
    → All IsByte before
    → IsByte a
    → IsByte b
    → All IsByte after
    → a ≢ b
    → crc16_ccitt_false (before ++ a ∷ after) ≢ crc16_ccitt_false (before ++ b ∷ after)
unfolding crc16_ccitt_false
crc16_detects_byte before a b after hp ha hb hs ne e =
    ne (detect_loop before 0xFFFF a b after hp (omega arith) ha hb hs e)
