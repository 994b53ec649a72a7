-- ===== src/Authmap.antt =====
-- oprow/authmap: the authenticated map that commits to an index.
pub mod SparseMerkle
