-- ===== src/Exec/Arith.antt =====
-- Comparison, sums, products, bit counts and bitwise operations: the cases `OPC_CMP` to
-- `OPC_XOR` of `run_loop` (simulator/cpu.c). `int` sums and products wrap around, as with the
-- compiler flags of simulator/Makefile.
use cvm.Base.Word.{widen, add32, sub32, mul32, shl32, is_neg}
use cvm.Base.{
  ℕ, zero, suc, ◌+◌, true, false, not, ◌&&◌, bit_and, bit_or, bit_xor, ltb, ◌==◌, if◌then◌else◌,
}
use cvm.Cpu.{Cpu, set_reg}
use cvm.Cpu.Flags.{shift_n, shift_z, shift_v, set_flag, clear_flag}
use cvm.Cpu.Opcode.{ArithOp, cmp, add, addu, sub, clz, clo, subu, mul, and, or, xor}
use cvm.Cpu.Decode.{Fields}

-- The three tests of `OPC_CMP` on the difference `t`.
unfoldable pub cmp_flags : ℕ → Cpu → Cpu
cmp_flags t c =
    let c₁ : Cpu =
      if not (is_neg t) && not (t == 0) then clear_flag shift_z (clear_flag shift_n c) else c in
    let c₂ : Cpu = if t == 0 then set_flag shift_z (clear_flag shift_n c₁) else c₁ in
    if is_neg t then clear_flag shift_z (set_flag shift_n c₂) else c₂

-- `if (t > 0xFFFFFFFF) SET_V; ra = t & 0xFFFFFFFF`
unfoldable pub set_wide : ℕ → ℕ → Cpu → Cpu
set_wide ra t c =
    let c₁ : Cpu = if ltb 0xFFFFFFFF t then set_flag shift_v c else c in
    set_reg c₁ ra (bit_and t 0xFFFFFFFF)

-- `for (i = 0; (i < 32) && (n & mask); i++) n <<= 1;` with the rounds left
unfoldable pub count_loop : ℕ → ℕ → ℕ → ℕ → ℕ
count_loop zero mask i n = i
count_loop (suc left) mask i n = elim (bit_and n mask == 0) [
  | true ↦ i
  | false ↦ count_loop left mask (i + 1) (shl32 n 1)
]

-- `a == b` as the `int` that C makes of it. `n & 0x80000000 == 0` is `n & (0x80000000 == 0)`.
abbrev pub equal : ℕ → ℕ → ℕ
equal a b = if a == b then 1 else 0

unfoldable pub exec_arith : ArithOp → Fields → Cpu → Cpu
exec_arith cmp f c = cmp_flags (sub32 (c.regs f.ra) (c.regs f.rb)) c
exec_arith add f c = set_wide f.ra (widen (add32 (c.regs f.rb) (c.regs f.rc))) c
exec_arith addu f c = set_reg c f.ra (add32 (c.regs f.rb) (c.regs f.rc))
exec_arith sub f c = set_reg c f.ra (sub32 (c.regs f.rb) (c.regs f.rc))
exec_arith clz f c = set_reg c f.ra (count_loop 32 (equal 0x80000000 0) 0 (c.regs f.rb))
exec_arith clo f c = set_reg c f.ra (count_loop 32 (equal 0x80000000 0x80000000) 0 (c.regs f.rb))
exec_arith subu f c = set_reg c f.ra (sub32 (c.regs f.rb) (c.regs f.rc))
exec_arith mul f c = set_wide f.ra (widen (mul32 (c.regs f.rb) (c.regs f.rc))) c
exec_arith and f c = set_reg c f.ra (bit_and (c.regs f.rb) (c.regs f.rc))
exec_arith or f c = set_reg c f.ra (bit_or (c.regs f.rb) (c.regs f.rc))
exec_arith xor f c = set_reg c f.ra (bit_xor (c.regs f.rb) (c.regs f.rc))
