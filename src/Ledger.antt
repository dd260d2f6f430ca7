-- ===== src/Ledger.antt =====
-- The decision ledger.
pub mod Groups
pub mod Fold
