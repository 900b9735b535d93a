-- ===== src/Base/Word.antt =====
-- 32-bit words as bit patterns below `2 ^ 32`: wrap-around, shifts and the signed reading.
use Prim.Native.Nat.{ℕ, ◌+◌, ◌-◌, ◌*◌, ◌/◌, ◌%◌, ◌^◌}
use mathlib.Core.Bool.{Bool}
use cvm.Base.Tests.{leb, if◌then◌else◌}
use cvm.Base.Int.{ℤ, pos, negsuc}

abbrev pub u32 : ℕ → ℕ
u32 n = n % 2 ^ 32

abbrev pub add32 : ℕ → ℕ → ℕ
add32 a b = u32 (a + b)

abbrev pub sub32 : ℕ → ℕ → ℕ
sub32 a b = u32 (a + 2 ^ 32 - b)

abbrev pub mul32 : ℕ → ℕ → ℕ
mul32 a b = u32 (a * b)

abbrev pub is_neg : ℕ → Bool
is_neg w = leb (2 ^ 31) w

-- The integer that an `int` with this bit pattern stands for.
abbrev pub signed : ℕ → ℤ
signed w = if is_neg w then negsuc (2 ^ 32 - w - 1) else pos w

-- `x << n` and `x >> n` on `unsigned int`, for `n < 32`.
abbrev pub shl32 : ℕ → ℕ → ℕ
shl32 x n = u32 (x * 2 ^ n)

abbrev pub shr32 : ℕ → ℕ → ℕ
shr32 x n = x / 2 ^ n

-- The 64-bit pattern of an `int`.
abbrev pub widen : ℕ → ℕ
widen n = if is_neg n then n + (2 ^ 64 - 2 ^ 32) else n
