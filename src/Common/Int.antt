-- ===== src/Common/Int.antt =====
-- C's `int`, as far as its sign matters to the program.
use Prim.Native.Nat.{ℕ}

-- `negsuc n` is -(n + 1).
pub data ℤ : Type 0 where
  pos : ℕ → ℤ
  negsuc : ℕ → ℤ
