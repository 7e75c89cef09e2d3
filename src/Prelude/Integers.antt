-- ===== src/Prelude/Integers.antt =====
-- The integers, for a field of which the schema asks only that it is one.
use Prim.Native.Nat.{ℕ}

pub data ℤ : Type 0 where
  pos : ℕ → ℤ
  negsuc : ℕ → ℤ
