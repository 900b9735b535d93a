-- ===== src/Cpu.antt =====
-- The register file of simulator/cpu.h. `reg_t` is a 32-bit `int`, kept as its bit pattern below
-- `2 ^ 32`. The pointers `gp fp sp lr sw` and `pc epc hi lo` of the structs are set once, by
-- `cpu_init`, to fixed places of `regs`: here they are those places.
pub mod Opcode
pub mod Decode
pub mod Flags
use cvm.Base.{ℕ, ◌-◌, ◌^◌, ◌<◌, Bool, not, bit_and, bit_or, ◌==◌, if◌then◌else◌, arith}

-- A function changed at one place: an array after a store.
abbrev pub update : (ℕ → ℕ) → ℕ → ℕ → ℕ → ℕ
update f i v j = if j == i then v else f j

-- `core.regs` and `cp.regs`
pub record Cpu : Type 0 where
  pub regs : ℕ → ℕ
  pub cop : ℕ → ℕ

-- Sizes of the two arrays.
abbrev pub gpr_count : ℕ
gpr_count = 16

abbrev pub cpr_count : ℕ
cpr_count = 4

-- Places of the named registers, as `cpu_init` sets the pointers.
abbrev pub gp : ℕ
gp = 11

abbrev pub fp : ℕ
fp = 12

abbrev pub sp : ℕ
sp = 13

abbrev pub lr : ℕ
lr = 14

abbrev pub sw : ℕ
sw = 15

abbrev pub pc : ℕ
pc = 0

abbrev pub epc : ℕ
epc = 1

abbrev pub hi : ℕ
hi = 2

abbrev pub lo : ℕ
lo = 3

-- `REG_GPR(cc, n) = v` and `REG_C0R(cp, n) = v`
abbrev pub set_reg : Cpu → ℕ → ℕ → Cpu
set_reg c n v = record c { regs = update c.regs n v }

abbrev pub set_cop : Cpu → ℕ → ℕ → Cpu
set_cop c n v = record c { cop = update c.cop n v }

abbrev pub set_pc : Cpu → ℕ → Cpu
set_pc c v = set_cop c pc v

-- Every register holds a 32-bit pattern.
pub record IsCpu (c : Cpu) : Type 0 where
  pub regs_fit : (i : ℕ) → c.regs i < 2 ^ 32
  pub cop_fit : (i : ℕ) → c.cop i < 2 ^ 32

pub set_reg-IsCpu : (c : Cpu) (n v : ℕ) → IsCpu c → v < 2 ^ 32 → IsCpu (set_reg c n v)
set_reg-IsCpu c n v h fits = record {
  regs_fit = λ i. ground (arith, h.regs_fit i);
  cop_fit = h.cop_fit;
}

pub set_cop-IsCpu : (c : Cpu) (n v : ℕ) → IsCpu c → v < 2 ^ 32 → IsCpu (set_cop c n v)
set_cop-IsCpu c n v h fits = record {
  regs_fit = h.regs_fit;
  cop_fit = λ i. ground (arith, h.cop_fit i);
}
