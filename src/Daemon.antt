-- ===== src/Daemon.antt =====
-- The daemon's pure decisions.
pub mod Completeness
