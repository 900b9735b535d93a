-- ===== src/Exec/Transfer.antt =====
-- Loads and stores: the cases `OPC_LD` to `OPC_SH` of `run_loop` (simulator/cpu.c).
use cvm.Base.{ℕ, bit_and}
use cvm.Base.Int.{ℤ, ◌+ℤ◌}
use cvm.Base.Word.{signed}
use cvm.Outcome.{Result, ok, ◌>>=◌}
use cvm.Cpu.{Cpu, set_reg}
use cvm.Cpu.Opcode.{MemOp, ld, st, lb, lbu, sb, lh, lhu, sh}
use cvm.Cpu.Decode.{Fields, sext}
use cvm.Mem.{Memory, load8, load16, load32, store8, store16, store32}
use cvm.Vm.{Vm, set_cpu, set_mem}

-- `base + REG_GPR(cc, rb) + c16`, as a distance from `base`: both terms are signed, and the sum
-- of pointers does not wrap at 32 bits.
abbrev pub address : Fields → Cpu → ℤ
address f c = signed (c.regs f.rb) +ℤ signed f.c16

abbrev pub to_reg : Vm → Fields → Result ℕ → Result Vm
to_reg vm f r = r >>= λ v. ok (set_cpu vm (set_reg vm.cpu f.ra v))

abbrev pub to_mem : Vm → Result Memory → Result Vm
to_mem vm r = r >>= λ m. ok (set_mem vm m)

unfoldable pub exec_mem : MemOp → Fields → Vm → Result Vm
exec_mem ld f vm = to_reg vm f (load32 vm.mem (address f vm.cpu))
exec_mem st f vm = to_mem vm (store32 vm.mem (address f vm.cpu) (vm.cpu.regs f.ra))
exec_mem lb f vm = to_reg vm f (load8 vm.mem (address f vm.cpu) >>= λ t. ok (sext 8 t))
exec_mem lbu f vm = to_reg vm f (load8 vm.mem (address f vm.cpu))
exec_mem sb f vm = to_mem vm (store8 vm.mem (address f vm.cpu) (bit_and (vm.cpu.regs f.ra) 0xFF))
exec_mem lh f vm = to_reg vm f (load16 vm.mem (address f vm.cpu) >>= λ t. ok (sext 16 t))
exec_mem lhu f vm = to_reg vm f (load16 vm.mem (address f vm.cpu))
exec_mem sh f vm = to_mem vm (store16 vm.mem (address f vm.cpu) (bit_and (vm.cpu.regs f.ra) 0xFFFF))
