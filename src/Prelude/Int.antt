-- ===== src/Prelude/Int.antt =====
-- Signed integers over the native numbers, and the bit pattern of an int32_t.
use Prim.Native.Nat.{ℕ, suc, ◌+◌, ◌-◌, ◌^◌, ◌≤◌, ◌<◌}
use mathlib.Core.Path.{◌≡◌}
use mathlib.Core.Bool.{Bool}
use native.Mathlib.Omega.{arith}
use gradido_node.Prelude.Tests.{ltb, if◌then◌else◌}

-- `negsuc n` is -(n + 1).
pub data ℤ : Type 0 where
  pos : ℕ → ℤ
  negsuc : ℕ → ℤ

abbrev pub pos_part : ℤ → ℕ
pos_part (pos n) = n
pos_part (negsuc n) = 0

abbrev pub neg_part : ℤ → ℕ
neg_part (pos n) = 0
neg_part (negsuc n) = suc n

abbrev pub ltb_ℤ : ℤ → ℤ → Bool
ltb_ℤ a b = ltb (pos_part a + neg_part b) (pos_part b + neg_part a)

-- The range of an int32_t.
abbrev pub IsInt32 : ℤ → Type 0
IsInt32 z = (pos_part z < 2 ^ 31) × (neg_part z ≤ 2 ^ 31)

-- The 32 bits of an int32_t, and the int32_t of 32 bits.
unfoldable pub bits32 : ℤ → ℕ
bits32 (pos n) = n
bits32 (negsuc n) = 2 ^ 32 - suc n

unfoldable pub signed32 : ℕ → ℤ
signed32 w = if ltb w (2 ^ 31) then pos w else negsuc (2 ^ 32 - w - 1)

pub signed32-bits32 : (z : ℤ) → IsInt32 z → signed32 (bits32 z) ≡ z
unfolding signed32 bits32
signed32-bits32 (pos n) h = ground arith
signed32-bits32 (negsuc n) h = ground arith

pub bits32-lt : (z : ℤ) → IsInt32 z → bits32 z < 2 ^ 32
unfolding bits32
bits32-lt (pos n) h = omega arith
bits32-lt (negsuc n) h = omega arith
