-- ===== src/Review.antt =====
-- The review loop's vocabulary.
pub mod Phase
pub mod Hosted
pub mod Worklist
pub mod Loop
