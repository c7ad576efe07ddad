-- ===== src/Common/Words.antt =====
-- Go's fixed-width integers as bit patterns: a w-bit value is a number below 2 ^ w, and a signed
-- value stands for its two's complement.
use Prim.Native.Nat.{ℕ, ◌+◌, ◌-◌, ◌%◌, ◌^◌}
use mathlib.Core.Bool.{Bool}
use vrata.Common.Tests.{ltb, leb}

-- a + b on int64 and uint64.
abbrev pub add64 : ℕ → ℕ → ℕ
add64 a b = (a + b) % 2 ^ 64

-- a + b on int32 and uint32.
abbrev pub add32 : ℕ → ℕ → ℕ
add32 a b = (a + b) % 2 ^ 32

-- The pattern of -1.
abbrev pub minus_one64 : ℕ
minus_one64 = 2 ^ 64 - 1

abbrev pub minus_one32 : ℕ
minus_one32 = 2 ^ 32 - 1

-- The signed order: both sides are moved up by half the range.
abbrev pub slt64 : ℕ → ℕ → Bool
slt64 a b = ltb ((a + 2 ^ 63) % 2 ^ 64) ((b + 2 ^ 63) % 2 ^ 64)

abbrev pub sle64 : ℕ → ℕ → Bool
sle64 a b = leb ((a + 2 ^ 63) % 2 ^ 64) ((b + 2 ^ 63) % 2 ^ 64)

-- v >= 0 on int32.
abbrev pub nonneg32 : ℕ → Bool
nonneg32 v = ltb v (2 ^ 31)
