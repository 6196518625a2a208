-- ===== src/Prelude/Int.antt =====
-- The integers that the program only passes on or matches: `i32`, `i64`.
use Prim.Native.Nat.{ℕ}

-- `negsuc n` is -(n + 1).
pub data ℤ : Type 0 where
  pos : ℕ → ℤ
  negsuc : ℕ → ℤ
