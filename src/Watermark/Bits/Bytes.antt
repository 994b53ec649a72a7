-- ===== src/Watermark/Bits/Bytes.antt =====
-- Integers as bits and bytes as bits, in oprow/watermark/bits.py.
use native.Mathlib.Nat.{mod-eq_of_lt}
use watermarks_po_c.Common.{
  ℕ, zero, suc, ◌*◌, ◌^◌, ◌<◌, ◌≡◌, refl, sym, ap, ap₂, ◌∙◌, Bool, List, [], ◌∷◌, ◌++◌, arith,
  length, take, drop, take-append, drop-append, length-append, All, All-append, All-take, All-drop,
  take-append-drop, length-take, length-drop, ok, ◌>>=◌, pos,
}
use watermarks_po_c.Watermark.Bits.{
  shifted_bits, int_to_bits, bits_to_int, bytes_to_bits, pack_groups, pad_bits, bits_to_bytes,
}
use watermarks_po_c.Watermark.Bits.RoundTrip.{
  IsBit, IsByte, normalize_bits_lem, length-shifted_bits, shifted_bits-IsBit, value_of,
  bits_to_int_lem, value_of-shifted_bits, value_of-lt, shifted_bits-value_of,
}

pub int_to_bits_lem : (v w : ℕ) → v < 2 ^ w → int_to_bits (pos v) (pos w) ≡ ok (shifted_bits v w)
unfolding int_to_bits shifted_bits
int_to_bits_lem v zero h = ground arith
int_to_bits_lem v (suc w) h = ground arith

-- An integer that fits the width is read back from its bits.
pub bits_to_int-int_to_bits :
    (v w : ℕ) → v < 2 ^ w → (int_to_bits (pos v) (pos w) >>= bits_to_int) ≡ ok v
bits_to_int-int_to_bits v w h = rw (int_to_bits_lem v w h) (
    bits_to_int_lem (shifted_bits v w) (shifted_bits-IsBit v w)
    ∙ ap ok (value_of-shifted_bits v w ∙ mod-eq_of_lt h))

-- Bits are written again from the integer that they stand for.
pub int_to_bits-bits_to_int :
    (bits : List ℕ)
    → All IsBit bits
    → (bits_to_int bits >>= λ v. int_to_bits (pos v) (pos (length bits))) ≡ ok bits
int_to_bits-bits_to_int bits h = rw (bits_to_int_lem bits h) (
    int_to_bits_lem (value_of bits) (length bits) (value_of-lt bits h)
    ∙ ap ok (shifted_bits-value_of bits h))

-- The bits of a byte string, without the checks.
abbrev pub bits_of : List ℕ → List ℕ
bits_of [] = []
bits_of (byte ∷ rest) = shifted_bits byte 8 ++ bits_of rest

pub bytes_to_bits_lem :
    (bytes : List ℕ) → All IsByte bytes → bytes_to_bits bytes ≡ ok (bits_of bytes)
unfolding bytes_to_bits
bytes_to_bits_lem [] h = refl
bytes_to_bits_lem (b ∷ bytes) h = rw (int_to_bits_lem b 8 h.0) (rw (bytes_to_bits_lem bytes h.1))

pub bits_of-IsBit : (bytes : List ℕ) → All IsBit (bits_of bytes)
bits_of-IsBit [] = tt
bits_of-IsBit (b ∷ bytes) =
    All-append IsBit (shifted_bits b 8) (bits_of bytes) (shifted_bits-IsBit b 8)
      (bits_of-IsBit bytes)

pub length-bits_of : (bytes : List ℕ) → length (bits_of bytes) ≡ length bytes * 8
length-bits_of [] = omega arith
length-bits_of (b ∷ bytes) = omega (
  arith,
  length-append (shifted_bits b 8) (bits_of bytes),
  length-shifted_bits b 8,
  length-bits_of bytes,
)

pub pack_groups-bits_of :
    (bytes : List ℕ) → All IsByte bytes → pack_groups (length bytes) (bits_of bytes) ≡ ok bytes
unfolding pack_groups
pack_groups-bits_of [] h = refl
pack_groups-bits_of (b ∷ bytes) h =
    rw (take-append 8 (shifted_bits b 8) (bits_of bytes) (length-shifted_bits b 8)) (
      rw (drop-append 8 (shifted_bits b 8) (bits_of bytes) (length-shifted_bits b 8)) (
        rw (bits_to_int_lem (shifted_bits b 8) (shifted_bits-IsBit b 8)) (
          rw (pack_groups-bits_of bytes h.1)
            (rw (value_of-shifted_bits b 8) (rw (mod-eq_of_lt h.0))))))

pad_bits_lem :
    (bits : List ℕ) (pad : Bool) (n : ℕ) → length bits ≡ n * 8 → pad_bits bits pad ≡ ok bits
unfolding pad_bits
pad_bits_lem bits pad n h = ground arith

pub bits_to_bytes_lem :
    (bits : List ℕ) (pad : Bool) (n : ℕ)
    → All IsBit bits
    → length bits ≡ n * 8
    → bits_to_bytes bits pad ≡ pack_groups n bits
unfolding bits_to_bytes
bits_to_bytes_lem bits pad n h e =
    rw (normalize_bits_lem bits h)
      (rw (pad_bits_lem bits pad n e) (ap (λ k. pack_groups k bits) (omega (arith, e))))

pub bits_to_bytes-bits_of :
    (bytes : List ℕ) (pad : Bool) → All IsByte bytes → bits_to_bytes (bits_of bytes) pad ≡ ok bytes
bits_to_bytes-bits_of bytes pad h =
    bits_to_bytes_lem (bits_of bytes) pad (length bytes) (bits_of-IsBit bytes)
      (length-bits_of bytes)
    ∙ pack_groups-bits_of bytes h

-- Bytes are read back from their bits, whether the padding is on or off.
pub bits_to_bytes-bytes_to_bits :
    (bytes : List ℕ) (pad : Bool)
    → All IsByte bytes
    → (bytes_to_bits bytes >>= λ bits. bits_to_bytes bits pad) ≡ ok bytes
bits_to_bytes-bytes_to_bits bytes pad h =
    rw (bytes_to_bits_lem bytes h) (bits_to_bytes-bits_of bytes pad h)

-- The bytes that groups of eight bits stand for.
abbrev pub bytes_of : ℕ → List ℕ → List ℕ
bytes_of zero bits = []
bytes_of (suc n) bits = value_of (take 8 bits) ∷ bytes_of n (drop 8 bits)

pub pack_groups_lem :
    (n : ℕ) (bits : List ℕ) → All IsBit bits → pack_groups n bits ≡ ok (bytes_of n bits)
unfolding pack_groups
pack_groups_lem zero bits h = refl
pack_groups_lem (suc n) bits h =
    rw (bits_to_int_lem (take 8 bits) (All-take IsBit 8 bits h))
      (rw (pack_groups_lem n (drop 8 bits) (All-drop IsBit 8 bits h)))

pub bits_of-bytes_of :
    (n : ℕ) (bits : List ℕ)
    → All IsBit bits
    → length bits ≡ n * 8
    → bits_of (bytes_of n bits) ≡ bits
bits_of-bytes_of zero [] h e = refl
bits_of-bytes_of zero (b ∷ bits) h e = absurd (omega arith)
bits_of-bytes_of (suc n) bits h e =
    ap₂ ◌++◌
      (ap (shifted_bits (value_of (take 8 bits))) (sym (length_group e))
        ∙ shifted_bits-value_of (take 8 bits) (All-take IsBit 8 bits h))
      (bits_of-bytes_of n (drop 8 bits) (All-drop IsBit 8 bits h)
        (omega (arith, length-drop 8 bits, e)))
    ∙ take-append-drop 8 bits
  where
    length_group : length bits ≡ suc n * 8 → length (take 8 bits) ≡ 8
    length_group e = omega (arith, length-take 8 bits, e)
