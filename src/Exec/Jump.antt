-- ===== src/Exec/Jump.antt =====
-- Branches, jumps and calls: the cases `OPC_BEQ` to `OPC_BAL` and `OPC_JEQ` to `OPC_JR_RET` of
-- `run_loop` (simulator/cpu.c).
use cvm.Base.{ℕ, Bool, not, ◌&&◌, ◌||◌, ◌==◌, if◌then◌else◌}
use cvm.Base.Word.{add32}
use cvm.Cpu.{Cpu, sp, lr, pc, set_reg, set_pc}
use cvm.Cpu.Flags.{shift_n, shift_z, get_flag}
use cvm.Cpu.Opcode.{
  BranchOp, beq, bne, bal, JumpOp, jeq, jne, jlt, jgt, jle, jge, jalr, jsub, jr_ret,
}
use cvm.Cpu.Decode.{Fields}
use cvm.Vm.{Vm, set_cpu, set_thread}

-- `REG_PC(cp) += d`
abbrev pub jump_by : ℕ → Cpu → Cpu
jump_by d c = set_pc c (add32 (c.cop pc) d)

-- `REG_LR(cc) = REG_PC(cp)`
abbrev pub link : Cpu → Cpu
link c = set_reg c lr (c.cop pc)

-- `thread->prev_sp = REG_SP(cc)`
abbrev pub save_sp : ℕ → Vm → Vm
save_sp tid vm = set_thread vm tid (record (vm.threads tid) { prev_sp = vm.cpu.regs sp })

unfoldable pub exec_branch : BranchOp → Fields → ℕ → Vm → Vm
exec_branch beq f tid vm =
    if vm.cpu.regs f.ra == vm.cpu.regs f.rb then set_cpu vm (jump_by f.c16 vm.cpu) else vm
exec_branch bne f tid vm =
    if vm.cpu.regs f.ra == vm.cpu.regs f.rb then vm else set_cpu vm (jump_by f.c16 vm.cpu)
exec_branch bal f tid vm = save_sp tid (set_cpu vm (jump_by f.c24 (link vm.cpu)))

-- The test of the six jumps on flags; the others always jump.
unfoldable pub taken : JumpOp → Cpu → Bool
taken jeq c = not (get_flag shift_n c) && get_flag shift_z c
taken jne c = not (get_flag shift_z c)
taken jlt c = get_flag shift_n c && not (get_flag shift_z c)
taken jgt c = not (get_flag shift_n c) && not (get_flag shift_z c)
taken jle c = get_flag shift_n c || get_flag shift_z c
taken jge c = not (get_flag shift_n c) || get_flag shift_z c
taken _ c = Bool.true

abbrev jump_if : JumpOp → Fields → Vm → Vm
jump_if o f vm = if taken o vm.cpu then set_cpu vm (jump_by f.c24 vm.cpu) else vm

unfoldable pub exec_jump : JumpOp → Fields → ℕ → Vm → Vm
exec_jump jalr f tid vm = let c = link vm.cpu in save_sp tid (set_cpu vm (set_pc c (c.regs f.rb)))
exec_jump jsub f tid vm = save_sp tid (set_cpu vm (jump_by f.c24 (link vm.cpu)))
exec_jump jr_ret f tid vm = set_cpu vm (set_pc vm.cpu (vm.cpu.regs lr))
exec_jump o f tid vm = jump_if o f vm
