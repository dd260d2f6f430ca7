-- ===== src/Common/Int.antt =====
-- Whole numbers, for a count that may go below zero.
use Prim.Native.Nat.{ℕ}

-- `negsuc n` is -(n + 1).
pub data ℤ : Type 0 where
  pos : ℕ → ℤ
  negsuc : ℕ → ℤ

-- `Math.max(0, n)`
abbrev pub max_zero : ℤ → ℕ
max_zero (pos n) = n
max_zero (negsuc _) = 0
