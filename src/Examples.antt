-- ===== src/Examples.antt =====
-- The theorems at concrete inputs.
mod Verifier
mod Payloads
mod Maps
mod Indexes
mod Encodings
mod Equations
mod Tiles
