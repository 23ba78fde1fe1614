-- ===== src/Prelude/Int.antt =====
-- The signed numbers that the AWS SDK returns, over the native ℕ.
use Prim.Native.Nat.{ℕ}

pub data ℤ : Type 0 where
  pos : ℕ → ℤ
  negsuc : ℕ → ℤ
