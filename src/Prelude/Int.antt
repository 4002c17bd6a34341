-- ===== src/Prelude/Int.antt =====
-- Signed integers, for coordinates in millionths of a degree.
use Prim.Native.Nat.{ℕ}

-- `negsuc n` is -(n + 1).
pub data ℤ : Type 0 where
  pos : ℕ → ℤ
  negsuc : ℕ → ℤ
