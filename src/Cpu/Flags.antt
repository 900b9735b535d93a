-- ===== src/Cpu/Flags.antt =====
-- The status word's flags: the `REG_SW_` macros of simulator/cpu.h.
use cvm.Base.{ℕ, ◌-◌, ◌/◌, ◌%◌, ◌^◌, ◌<◌, ◌≡◌, Bool, not, bit_and, bit_or, ◌==◌, arith}
use native.Mathlib.Nat.{one-le-pow}
use cvm.Base.Bits.{bit_and_bit, bit_and_digit, bit_or_digit, bit_and-lt, bit_or-lt}
use cvm.Cpu.{Cpu, sw, set_reg, IsCpu, set_reg-IsCpu}

-- `REG_SW_SHIFT_N`, `_Z` and `_V`
abbrev pub shift_n : ℕ
shift_n = 0

abbrev pub shift_z : ℕ
shift_z = 1

abbrev pub shift_v : ℕ
shift_v = 3

-- `*(cc->sw) & (1 << s)`, read as a truth value
unfoldable pub get_flag : ℕ → Cpu → Bool
get_flag s c = not (bit_and (c.regs sw) (2 ^ s) == 0)

-- `*(cc->sw) |= (1 << s)`
unfoldable pub set_flag : ℕ → Cpu → Cpu
set_flag s c = set_reg c sw (bit_or (c.regs sw) (2 ^ s))

-- `*(cc->sw) &= ~(1 << s)`
unfoldable pub clear_flag : ℕ → Cpu → Cpu
clear_flag s c = set_reg c sw (bit_and (c.regs sw) (2 ^ 32 - 1 - 2 ^ s))

-- A flag is digit `s` of the status word.
pub get_flag_lem : (s : ℕ) (c : Cpu) → get_flag s c ≡ not (c.regs sw / 2 ^ s % 2 == 0)
unfolding get_flag
get_flag_lem s c = ground (arith, bit_and_bit s (c.regs sw), one-le-pow s 2)

pub set_n_digits :
    (c : Cpu)
    → ((set_flag shift_n c).regs sw / 2 ^ 0 % 2 ≡ 1)
      × ((set_flag shift_n c).regs sw / 2 ^ 1 % 2 ≡ c.regs sw / 2 ^ 1 % 2)
unfolding set_flag
set_n_digits c =
    omega (arith, bit_or_digit 0 (c.regs sw) (2 ^ 0), bit_or_digit 1 (c.regs sw) (2 ^ 0))

pub set_z_digits :
    (c : Cpu)
    → ((set_flag shift_z c).regs sw / 2 ^ 0 % 2 ≡ c.regs sw / 2 ^ 0 % 2)
      × ((set_flag shift_z c).regs sw / 2 ^ 1 % 2 ≡ 1)
unfolding set_flag
set_z_digits c =
    omega (arith, bit_or_digit 0 (c.regs sw) (2 ^ 1), bit_or_digit 1 (c.regs sw) (2 ^ 1))

pub clear_n_digits :
    (c : Cpu)
    → ((clear_flag shift_n c).regs sw / 2 ^ 0 % 2 ≡ 0)
      × ((clear_flag shift_n c).regs sw / 2 ^ 1 % 2 ≡ c.regs sw / 2 ^ 1 % 2)
unfolding clear_flag
clear_n_digits c = omega (
  arith,
  bit_and_digit 0 (c.regs sw) (2 ^ 32 - 1 - 2 ^ 0),
  bit_and_digit 1 (c.regs sw) (2 ^ 32 - 1 - 2 ^ 0),
)

pub clear_z_digits :
    (c : Cpu)
    → ((clear_flag shift_z c).regs sw / 2 ^ 0 % 2 ≡ c.regs sw / 2 ^ 0 % 2)
      × ((clear_flag shift_z c).regs sw / 2 ^ 1 % 2 ≡ 0)
unfolding clear_flag
clear_z_digits c = omega (
  arith,
  bit_and_digit 0 (c.regs sw) (2 ^ 32 - 1 - 2 ^ 1),
  bit_and_digit 1 (c.regs sw) (2 ^ 32 - 1 - 2 ^ 1),
)

pub set_flag-IsCpu : (s : ℕ) (c : Cpu) → 2 ^ s < 2 ^ 32 → IsCpu c → IsCpu (set_flag s c)
unfolding set_flag
set_flag-IsCpu s c fits h = set_reg-IsCpu c sw _ h (bit_or-lt 32 _ _ (h.regs_fit sw) fits)

pub clear_flag-IsCpu : (s : ℕ) (c : Cpu) → IsCpu c → IsCpu (clear_flag s c)
unfolding clear_flag
clear_flag-IsCpu s c h =
    set_reg-IsCpu c sw _ h (bit_and-lt 32 _ (2 ^ 32 - 1 - 2 ^ s) (h.regs_fit sw) (omega arith))
