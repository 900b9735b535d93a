-- ===== src/Exec/Laws/Link.antt =====
-- Calls and the return from them.
use cvm.Base.{ℕ, ◌≡◌, ◌≢◌, arith}
use cvm.Cpu.{sp, lr, pc}
use cvm.Cpu.Opcode.{jsub, jalr, jr_ret}
use cvm.Cpu.Decode.{Fields}
use cvm.Vm.{Vm}
use cvm.Exec.Jump.{exec_jump}

-- The machine `vm'` after a call: it goes on at `target`, has the place of the call in `lr`, and
-- the thread remembers the stack pointer.
pub record IsCall (tid target : ℕ) (vm vm' : Vm) : Type 0 where
  pub goes : vm'.cpu.cop pc ≡ target
  pub links : vm'.cpu.regs lr ≡ vm.cpu.cop pc
  pub saves : (vm'.threads tid).prev_sp ≡ vm.cpu.regs sp
  pub keeps : (i : ℕ) → i ≢ lr → vm'.cpu.regs i ≡ vm.cpu.regs i

-- `OPC_JR_RET` goes to the instruction after the call, once `lr` again holds what the call left
-- in it, whatever registers its fields name.
return-call :
    (f g : Fields) (tid : ℕ) (vm body : Vm)
    → body.cpu.regs lr ≡ (exec_jump jsub f tid vm).cpu.regs lr
    → (exec_jump jr_ret g tid body).cpu.cop pc ≡ vm.cpu.cop pc
unfolding exec_jump
return-call f g tid vm body e = ground arith

-- `OPC_JALR` through `lr` goes on with the next instruction: `lr` is written before it is read.
jalr_through_lr :
    (f : Fields) (tid : ℕ) (vm : Vm)
    → f.rb ≡ lr
    → (exec_jump jalr f tid vm).cpu.cop pc ≡ vm.cpu.cop pc
unfolding exec_jump
jalr_through_lr f tid vm e = ground arith
