-- ===== src/Prelude/Int.antt =====
-- Go's signed integers. The source compares them with 0 and with counters.
use Prim.Native.Nat.{ℕ, zero, suc}
use mathlib.Core.Bool.{Bool, true, false}
use memory_ai.Prelude.Tests.{ltb}

-- `negsuc n` is -(n + 1).
pub data ℤ : Type 0 where
  pos : ℕ → ℤ
  negsuc : ℕ → ℤ

-- i > 0 && n > i
abbrev pub exceeds : ℕ → ℤ → Bool
exceeds n (pos zero) = false
exceeds n (pos (suc m)) = ltb (suc m) n
exceeds n (negsuc m) = false

-- i > 0
abbrev pub is_positive : ℤ → Bool
is_positive (pos zero) = false
is_positive (pos (suc m)) = true
is_positive (negsuc m) = false
