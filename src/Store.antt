-- ===== src/Store.antt =====
-- store/: the runtime state held in SQLite, and the per-issue event log that it is folded from.
pub mod Types
pub mod Events
