-- ===== src/Common/Int.antt =====
-- Integers over the native numbers: `negsuc n` is -(n+1).
use Prim.Native.Nat.{ℕ}

pub data ℤ : Type 0 where
  pos : ℕ → ℤ
  negsuc : ℕ → ℤ
