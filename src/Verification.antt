-- ===== src/Verification.antt =====
-- oprow/verification and the signature checks of oprow/manifest: candidates are accepted only after
-- the locator, the signatures, the essence and the local trust policy have been checked.
pub mod Signatures
pub mod Results
pub mod Trust
pub mod Orchestrator
pub mod Classify
