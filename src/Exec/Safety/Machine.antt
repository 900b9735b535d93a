-- ===== src/Exec/Safety/Machine.antt =====
-- Loads, stores, branches, jumps and system calls keep the machine well formed.
use cvm.Base.{ℕ, ◌^◌, ◌<◌, refl, Bool, true, false, if◌then◌else◌, arith}
use cvm.Outcome.{Result, Ensures, returns, Ensures-bind, Ensures-weaken}
use cvm.Cpu.{Cpu, sp, lr, pc, IsCpu, set_reg-IsCpu, set_cop-IsCpu}
use cvm.Cpu.Opcode.{
  MemOp, ld, st, lb, lbu, sb, lh, lhu, sh, BranchOp, beq, bne, bal, JumpOp, jeq, jne, jlt, jgt, jle,
  jge, jmp, jalr, jsub, jr_ret,
}
use cvm.Cpu.Decode.{Fields}
use cvm.Mem.{Memory}
use cvm.Mem.Laws.{Keeps, load8-lt, load16-lt, load32-lt, store8-Keeps, store16-Keeps, store32-Keeps}
use cvm.Vm.{Vm, set_cpu, set_mem, IsVm, set_mem-IsVm}
use cvm.Exec.Transfer.{to_reg, to_mem, exec_mem}
use cvm.Exec.Jump.{jump_by, link, save_sp, taken, exec_branch, exec_jump}
use cvm.Exec.Safety.Cases.{Kept, Kept-set_cpu}

Kept-set_mem : (vm : Vm) (m : Memory) → IsVm vm → Keeps vm.mem m → Kept vm (set_mem vm m)
Kept-set_mem vm m h k = record {
  is_vm = set_mem-IsVm vm m h k.is_memory;
  same_start = k.same_start;
  same_end = k.same_end;
  same_elf = refl;
  same_stack = refl;
}

module _ (vm : Vm) (h : IsVm vm) (f : Fields) where
  to_reg-Kept : {r : Result ℕ} → Ensures (λ v. v < 2 ^ 32) r → Ensures (Kept vm) (to_reg vm f r)
  to_reg-Kept e =
      Ensures-bind e
        λ v hv. returns (Kept-set_cpu vm _ h (set_reg-IsCpu vm.cpu f.ra v h.cpu_fits hv))

  to_mem-Kept : {r : Result Memory} → Ensures (Keeps vm.mem) r → Ensures (Kept vm) (to_mem vm r)
  to_mem-Kept e = Ensures-bind e λ m k. returns (Kept-set_mem vm m h k)

  pub exec_mem-Kept : (o : MemOp) → Ensures (Kept vm) (exec_mem o f vm)
  unfolding exec_mem
  exec_mem-Kept ld = to_reg-Kept (load32-lt vm.mem _ h.mem_fits)
  exec_mem-Kept st = to_mem-Kept (store32-Keeps vm.mem _ h.mem_fits _)
  exec_mem-Kept lb =
      to_reg-Kept (Ensures-bind (load8-lt vm.mem _ h.mem_fits) λ t ht. returns (ground arith))
  exec_mem-Kept lbu =
      to_reg-Kept (Ensures-weaken (load8-lt vm.mem _ h.mem_fits) λ v hv. omega arith)
  exec_mem-Kept sb = to_mem-Kept (store8-Keeps vm.mem _ h.mem_fits _)
  exec_mem-Kept lh =
      to_reg-Kept (Ensures-bind (load16-lt vm.mem _ h.mem_fits) λ t ht. returns (ground arith))
  exec_mem-Kept lhu =
      to_reg-Kept (Ensures-weaken (load16-lt vm.mem _ h.mem_fits) λ v hv. omega arith)
  exec_mem-Kept sh = to_mem-Kept (store16-Keeps vm.mem _ h.mem_fits _)

  jump_by-IsCpu : (d : ℕ) (c : Cpu) → IsCpu c → IsCpu (jump_by d c)
  jump_by-IsCpu d c hc = set_cop-IsCpu c pc _ hc (omega arith)

  link-IsCpu : IsCpu (link vm.cpu)
  link-IsCpu = set_reg-IsCpu vm.cpu lr _ h.cpu_fits (h.cpu_fits.cop_fit pc)

  save_sp-Kept : (tid : ℕ) (c : Cpu) → IsCpu c → Kept vm (save_sp tid (set_cpu vm c))
  save_sp-Kept tid c hc = record {
    is_vm = record {
      cpu_fits = hc;
      mem_fits = h.mem_fits;
      prev_sp_fits = λ j. ground (arith, h.prev_sp_fits j, hc.regs_fit sp);
    };
    same_start = refl;
    same_end = refl;
    same_elf = refl;
    same_stack = refl;
  }

  Kept-if : (b : Bool) {x y : Vm} → Kept vm x → Kept vm y → Kept vm (if b then x else y)
  Kept-if true kx ky = kx
  Kept-if false kx ky = ky

  stay : Kept vm vm
  stay = Kept-set_cpu vm vm.cpu h h.cpu_fits

  hop : (d : ℕ) → Kept vm (set_cpu vm (jump_by d vm.cpu))
  hop d = Kept-set_cpu vm _ h (jump_by-IsCpu d vm.cpu h.cpu_fits)

  pub exec_branch-Kept : (o : BranchOp) (tid : ℕ) → Kept vm (exec_branch o f tid vm)
  unfolding exec_branch
  exec_branch-Kept beq tid = Kept-if _ (hop f.c16) stay
  exec_branch-Kept bne tid = Kept-if _ stay (hop f.c16)
  exec_branch-Kept bal tid = save_sp-Kept tid _ (jump_by-IsCpu f.c24 _ link-IsCpu)

  pub exec_jump-Kept : (o : JumpOp) (tid : ℕ) → Kept vm (exec_jump o f tid vm)
  unfolding exec_jump
  exec_jump-Kept jalr tid =
      save_sp-Kept tid _ (set_cop-IsCpu _ pc _ link-IsCpu (link-IsCpu.regs_fit f.rb))
  exec_jump-Kept jsub tid = save_sp-Kept tid _ (jump_by-IsCpu f.c24 _ link-IsCpu)
  exec_jump-Kept jr_ret tid =
      Kept-set_cpu vm _ h (set_cop-IsCpu vm.cpu pc _ h.cpu_fits (h.cpu_fits.regs_fit lr))
  exec_jump-Kept jeq tid = Kept-if (taken jeq vm.cpu) (hop f.c24) stay
  exec_jump-Kept jne tid = Kept-if (taken jne vm.cpu) (hop f.c24) stay
  exec_jump-Kept jlt tid = Kept-if (taken jlt vm.cpu) (hop f.c24) stay
  exec_jump-Kept jgt tid = Kept-if (taken jgt vm.cpu) (hop f.c24) stay
  exec_jump-Kept jle tid = Kept-if (taken jle vm.cpu) (hop f.c24) stay
  exec_jump-Kept jge tid = Kept-if (taken jge vm.cpu) (hop f.c24) stay
  exec_jump-Kept jmp tid = Kept-if (taken jmp vm.cpu) (hop f.c24) stay
