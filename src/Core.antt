-- ===== src/Core.antt =====
-- oprow/core: pointer modes, fixed-size identifiers, locators, manifests, and hash inputs.
pub mod Identifiers
pub mod Hashes
pub mod Manifest
pub mod Canonical
