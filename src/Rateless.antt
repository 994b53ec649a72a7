-- ===== src/Rateless.antt =====
-- oprow/rateless: recovering a manifest key from linear equations over GF(2).
pub mod Gf2
pub mod Equations
pub mod Records
