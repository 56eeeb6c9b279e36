-- ===== src/Base/Int.antt =====
-- Signed numbers over the native ones.
use Prim.Native.Nat.{ℕ}

pub data ℤ : Type 0 where
  pos : ℕ → ℤ
  negsuc : ℕ → ℤ
