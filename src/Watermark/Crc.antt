-- ===== src/Watermark/Crc.antt =====
-- oprow/watermark/crc.py: CRC-16/CCITT-FALSE.
pub mod Detect
use watermarks_po_c.Common.{
  ℕ, zero, suc, ◌*◌, bit_and, bit_xor, not, List, [], ◌∷◌, ◌==◌, if◌then◌else◌,
}

-- One round of `for _ in range(8)`; the test `crc & 0x8000` is true if it is not 0.
unfoldable pub crc_round : ℕ → ℕ
crc_round crc =
    if not (bit_and crc 0x8000 == 0)
    then bit_and (bit_xor (crc * 2) 0x1021) 0xFFFF
    else bit_and (crc * 2) 0xFFFF

unfoldable pub crc_rounds : ℕ → ℕ → ℕ
crc_rounds zero crc = crc
crc_rounds (suc n) crc = crc_rounds n (crc_round crc)

-- `crc ^= byte << 8`, then the eight rounds.
unfoldable pub crc_byte : ℕ → ℕ → ℕ
unfolding crc_rounds crc_round
crc_byte crc byte = crc_rounds 8 (bit_xor crc (byte * 256))

unfoldable pub crc_loop : ℕ → List ℕ → ℕ
crc_loop crc [] = bit_and crc 0xFFFF
crc_loop crc (byte ∷ rest) = crc_loop (crc_byte crc byte) rest

unfoldable pub crc16_ccitt_false : List ℕ → ℕ
unfolding crc_loop crc_byte
crc16_ccitt_false bytes = crc_loop 0xFFFF bytes
