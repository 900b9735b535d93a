-- ===== src/Mem.antt =====
-- The block of memory that a virtual machine runs in (`memory_t` of simulator/vm.h), and the
-- reads and writes that the simulator makes through pointers into it. An address is kept as its
-- distance from `mem.start`, an integer; an access that leaves the block is a fault, since C gives
-- it no meaning. Words are little-endian, as on the hosts that the simulator is built for.
pub mod Laws
use cvm.Base.{ℕ, ◌+◌, ◌-◌, ◌*◌, ◌/◌, ◌%◌, ◌^◌, ◌<◌, leb}
use cvm.Base.Int.{ℤ, pos, negsuc}
use cvm.Outcome.{Result, ok, fault, ◌>>=◌, check, out_of_bounds}
use cvm.Cpu.{update}

-- `start` and `end` are host addresses; `brk` is a distance from `start`, as the loader and the
-- calls of simulator/api/brk.c store it.
pub record Memory : Type 0 where
  pub start : ℕ
  pub end : ℕ
  pub brk : ℕ
  pub bytes : ℕ → ℕ

abbrev pub size : Memory → ℕ
size m = m.end - m.start

-- The distance `a` for an access of `n` bytes.
unfoldable pub place : Memory → ℤ → ℕ → Result ℕ
place m (pos a) n = check (leb (a + n) (size m)) out_of_bounds (ok a)
place m (negsuc a) n = fault out_of_bounds

-- `*(u8_t *)`, `*(u16_t *)` and `*(u32_t *)` at a place in the block
abbrev pub byte : Memory → ℕ → ℕ
byte m a = m.bytes a

abbrev pub half : Memory → ℕ → ℕ
half m a = m.bytes a + 2 ^ 8 * m.bytes (a + 1)

abbrev pub word : Memory → ℕ → ℕ
word m a = m.bytes a + 2 ^ 8 * m.bytes (a + 1) + 2 ^ 16 * m.bytes (a + 2) + 2 ^ 24 * m.bytes (a + 3)

abbrev pub set_byte : Memory → ℕ → ℕ → Memory
set_byte m a v = record m { bytes = update m.bytes a (v % 2 ^ 8) }

abbrev pub set_half : Memory → ℕ → ℕ → Memory
set_half m a v = set_byte (set_byte m a v) (a + 1) (v / 2 ^ 8)

abbrev pub set_word : Memory → ℕ → ℕ → Memory
set_word m a v = set_half (set_half m a v) (a + 2) (v / 2 ^ 16)

unfoldable pub load8 : Memory → ℤ → Result ℕ
unfolding place
load8 m p = do a ← place m p 1; ok (byte m a)

unfoldable pub load16 : Memory → ℤ → Result ℕ
unfolding place
load16 m p = do a ← place m p 2; ok (half m a)

unfoldable pub load32 : Memory → ℤ → Result ℕ
unfolding place
load32 m p = do a ← place m p 4; ok (word m a)

unfoldable pub store8 : Memory → ℤ → ℕ → Result Memory
unfolding place
store8 m p v = do a ← place m p 1; ok (set_byte m a v)

unfoldable pub store16 : Memory → ℤ → ℕ → Result Memory
unfolding place
store16 m p v = do a ← place m p 2; ok (set_half m a v)

unfoldable pub store32 : Memory → ℤ → ℕ → Result Memory
unfolding place
store32 m p v = do a ← place m p 4; ok (set_word m a v)

-- Every byte is one.
abbrev pub IsMemory : Memory → Type 0
IsMemory m = (a : ℕ) → m.bytes a < 2 ^ 8
