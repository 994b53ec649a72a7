-- ===== src/Watermark.antt =====
-- oprow/watermark: the bit codec, the repetition code, the checksum, the payload and its frame.
pub mod Bits
pub mod Ecc
pub mod Crc
pub mod Payload
pub mod Frame
