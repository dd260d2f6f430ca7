-- ===== src/Github.antt =====
-- github/: the issue as the daemon reads it, and the parse of its `## Blocked by` section.
pub mod Types
pub mod Blocked
pub mod Ref
