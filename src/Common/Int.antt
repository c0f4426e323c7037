-- ===== src/Common/Int.antt =====
-- Signed integers, for the numbers of the source that may be negative: `negsuc n` is -(n + 1).
use Prim.Native.Nat.{ℕ, suc, ◌+◌, ◌-◌}
use mathlib.Core.Path.{◌≡◌}
use mathlib.Core.Bool.{Bool}
use native.Mathlib.Omega.{arith}
use snow_mcp.Common.Tests.{ltb, leb, if◌then◌else◌}

pub data ℤ : Type 0 where
  pos : ℕ → ℤ
  negsuc : ℕ → ℤ

abbrev pub pos_part : ℤ → ℕ
pos_part (pos n) = n
pos_part (negsuc n) = 0

abbrev pub neg_part : ℤ → ℕ
neg_part (pos n) = 0
neg_part (negsuc n) = suc n

-- a - b, as an integer.
abbrev pub sub_ℕ : ℕ → ℕ → ℤ
sub_ℕ a b = if leb b a then pos (a - b) else negsuc (b - a - 1)

-- `z > 0` and `z !== 0`.
abbrev pub is_positive : ℤ → Bool
is_positive z = ltb 0 (pos_part z)

abbrev pub is_nonzero : ℤ → Bool
is_nonzero z = ltb 0 (pos_part z + neg_part z)

-- `Math.max(0, n + z)`.
abbrev pub add_clamped : ℕ → ℤ → ℕ
add_clamped n z = n + pos_part z - neg_part z

-- A refund of what was reserved beyond the actual use leaves the actual use.
pub add_clamped-sub_ℕ : (n a r : ℕ) → add_clamped (n + r) (sub_ℕ a r) ≡ n + a
add_clamped-sub_ℕ n a r = ground arith
