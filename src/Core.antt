-- ===== src/Core.antt =====
-- core/: the label vocabulary, the admission gate and launch plan, and the moding pass.
pub mod Labels
pub mod Admission
pub mod Moding
