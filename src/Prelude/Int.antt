-- ===== src/Prelude/Int.antt =====
-- A JavaScript number that holds an integer. `negsuc n` is -(n + 1).
use Prim.Native.Nat.{ℕ}

pub data ℤ : Type 0 where
  pos : ℕ → ℤ
  negsuc : ℕ → ℤ
