-- ===== src/Sync.antt =====
-- Directory synchronisation, src/sync.rs.
pub mod Glob
pub mod Filter
pub mod Matching
pub mod Deciding
