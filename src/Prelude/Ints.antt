-- ===== src/Prelude/Ints.antt =====
-- The integers of `int` fields, over the native numbers.
use Prim.Native.Nat.{ℕ}

pub data ℤ : Type 0 where
  pos negsuc : ℕ → ℤ
