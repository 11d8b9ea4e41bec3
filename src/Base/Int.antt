-- ===== src/Base/Int.antt =====
-- Signed numbers, for the integer columns that the code decrements.
use Prim.Native.Nat.{ℕ, zero, suc}

-- `negsuc n` is -(n + 1).
pub data ℤ : Type 0 where
  pos : ℕ → ℤ
  negsuc : ℕ → ℤ

-- `{ decrement: 1 }`
abbrev pub pred : ℤ → ℤ
pred (pos zero) = negsuc 0
pred (pos (suc n)) = pos n
pred (negsuc n) = negsuc (suc n)
