-- ===== src/Base/Integers.antt =====
-- A Python int that a caller may give a negative value.
use Prim.Native.Nat.{ℕ}

-- `negsuc n` is -(n + 1).
pub data ℤ : Type 0 where
  pos negsuc : ℕ → ℤ
