-- ===== src/Exec/Safety/Rounds.antt =====
-- One round, and any run, keep the machine well formed and its block in place.
use cvm.Base.{
  ℕ, zero, suc, ◌^◌, ◌<◌, ◌∙◌, inl, inr, Bool-cases, Option, none, some, arith, ◌==◌, leb,
}
use cvm.Base.Word.{u32, add32, signed}
use cvm.Outcome.{Result, ok, ◌>>=◌, Ensures, returns, Ensures-bind, Ensures-map, Ensures-weaken}
use cvm.Cpu.{sp, pc, set_reg, set_pc, IsCpu, set_reg-IsCpu, set_cop-IsCpu}
use cvm.Cpu.Opcode.{Opcode, nop, ssc, mem, imm, branch, arith_op, shift, jump, hilo, cop}
use cvm.Cpu.Opcode.Table.{opcode_of}
use cvm.Cpu.Decode.{Fields, decode, decode_lem}
use cvm.Mem.{load32}
use cvm.Vm.{Vm, set_cpu, IsVm}
use cvm.Api.{Host}
use cvm.Exec.{
  State, state, exec_local, exec, Round, next, stop, after, round, loop, enter, run_loop,
}
use cvm.Exec.Bounds.{exec_imm-IsCpu, exec_arith-IsCpu}
use cvm.Exec.Safety.Cases.{Kept, Kept-set_cpu, exec_shift-IsCpu, exec_hilo-IsCpu, exec_cop-IsCpu}
use cvm.Exec.Safety.Machine.{exec_mem-Kept, exec_branch-Kept, exec_jump-Kept}
use cvm.Exec.Safety.Calls.{api_func-Kept}

Kept-trans : {a b c : Vm} → Kept a b → Kept b c → Kept a c
Kept-trans p q = record {
  is_vm = q.is_vm;
  same_start = q.same_start ∙ p.same_start;
  same_end = q.same_end ∙ p.same_end;
  same_elf = q.same_elf ∙ p.same_elf;
  same_stack = q.same_stack ∙ p.same_stack;
}

decode-c16-lt : (w : ℕ) → (decode w).c16 < 2 ^ 32
decode-c16-lt w = rw (decode_lem w) (ground arith)

module _ (f : Fields) (fits : f.c16 < 2 ^ 32) (tid : ℕ) (vm : Vm) (h : IsVm vm) where
  with_cpu :
      {r : Result cvm.Cpu.Cpu} → Ensures IsCpu r → Ensures (Kept vm) (r >>= λ c. ok (set_cpu vm c))
  with_cpu e = Ensures-bind e λ c hc. returns (Kept-set_cpu vm c h hc)

  exec_local-Kept : (o : Opcode) → Ensures (Kept vm) (exec_local o f tid vm)
  unfolding exec_local
  exec_local-Kept nop = returns (Kept-set_cpu vm vm.cpu h h.cpu_fits)
  exec_local-Kept ssc = returns (Kept-set_cpu vm vm.cpu h h.cpu_fits)
  exec_local-Kept (mem o) = exec_mem-Kept vm h f o
  exec_local-Kept (imm o) =
      returns (Kept-set_cpu vm _ h (exec_imm-IsCpu vm.cpu h.cpu_fits o f fits))
  exec_local-Kept (branch o) = returns (exec_branch-Kept vm h f o tid)
  exec_local-Kept (arith_op o) =
      returns (Kept-set_cpu vm _ h (exec_arith-IsCpu o f vm.cpu h.cpu_fits))
  exec_local-Kept (shift o) = with_cpu (exec_shift-IsCpu f vm.cpu h.cpu_fits o)
  exec_local-Kept (jump o) = returns (exec_jump-Kept vm h f o tid)
  exec_local-Kept (hilo o) = with_cpu (exec_hilo-IsCpu f vm.cpu h.cpu_fits o)
  exec_local-Kept (cop o) = with_cpu (exec_cop-IsCpu f vm.cpu h.cpu_fits o)

  module _ {W : Type 0} (host : Host W) (w : W) where
    lift :
        (o : Opcode)
        → Ensures
            (λ (s : State W). Kept vm s.vm)
            (exec_local o f tid vm >>= λ vm'. ok (state vm' w))
    lift o = Ensures-bind (exec_local-Kept o) λ vm' k. returns k

    exec-Kept :
        (o : Option Opcode)
        → Ensures (λ (s : State W). Kept vm s.vm) (exec host o f tid (state vm w))
    unfolding exec
    exec-Kept none = returns (Kept-set_cpu vm vm.cpu h h.cpu_fits)
    exec-Kept (some ssc) = Ensures-bind (api_func-Kept host vm tid w h f.c16) λ r k. returns k
    exec-Kept (some nop) = lift nop
    exec-Kept (some (mem o)) = lift (mem o)
    exec-Kept (some (imm o)) = lift (imm o)
    exec-Kept (some (branch o)) = lift (branch o)
    exec-Kept (some (arith_op o)) = lift (arith_op o)
    exec-Kept (some (shift o)) = lift (shift o)
    exec-Kept (some (jump o)) = lift (jump o)
    exec-Kept (some (hilo o)) = lift (hilo o)
    exec-Kept (some (cop o)) = lift (cop o)

-- The machine at the end of a round; a value that is returned is a word.
abbrev pub RoundKept : {W : Type 0} → Vm → Round W → Type 0
RoundKept vm (next s) = Kept vm s.vm
RoundKept vm (stop ret s) = Kept vm s.vm × (ret < 2 ^ 32)

abbrev pub RunKept : {W : Type 0} → Vm → Option (ℕ × State W) → Type 0
RunKept vm none = Unit
RunKept vm (some (ret, s)) = Kept vm s.vm × (ret < 2 ^ 32)

after-Kept : {W : Type 0} (vm : Vm) (s : State W) → Kept vm s.vm → RoundKept vm (after s)
unfolding after
after-Kept vm s k = elim (Bool-cases (s.vm.cpu.cop pc == 0)) [
  | inl t ↦ rw t (k, k.is_vm.cpu_fits.regs_fit 2)
  | inr t ↦ rw t k
]

module _ {W : Type 0} (host : Host W) (sp_end tid : ℕ) where
  pub round-Kept : (s : State W) → IsVm s.vm → Ensures (RoundKept s.vm) (round host sp_end tid s)
  unfolding round
  round-Kept s h = Ensures-map (load32 s.vm.mem (signed (s.vm.cpu.cop pc))) λ inst.
      let vm = set_cpu s.vm (set_pc s.vm.cpu (add32 (s.vm.cpu.cop pc) 4)) in
      let k : Kept s.vm vm =
        Kept-set_cpu s.vm _ h (set_cop-IsCpu s.vm.cpu pc _ h.cpu_fits (omega arith)) in
      elim (Bool-cases (leb (s.vm.cpu.regs sp) (u32 sp_end))) [
        | inl t ↦ rw t (returns (k, omega arith))
        | inr t ↦ rw t (
            Ensures-bind
              (exec-Kept (decode inst) (decode-c16-lt inst) tid vm k.is_vm host s.world
                (opcode_of (decode inst).op))
              λ s' k'. returns (after-Kept s.vm s' (Kept-trans k k')))
      ]

  RunKept-trans : {a b : Vm} (o : Option (ℕ × State W)) → Kept a b → RunKept b o → RunKept a o
  RunKept-trans none k r = tt
  RunKept-trans (some (ret, s)) k r = (Kept-trans k r.0, r.1)

  pub loop-Kept :
      (left : ℕ) (s : State W) → IsVm s.vm → Ensures (RunKept s.vm) (loop host left sp_end tid s)
  unfolding loop
  loop-Kept zero s h = returns tt
  loop-Kept (suc left) s h = Ensures-bind (round-Kept s h) (goes (λ s'. loop-Kept left s'))
    where
      goes :
          ((s' : State W) → IsVm s'.vm → Ensures (RunKept s'.vm) (loop host left sp_end tid s'))
          → (r : Round W) → RoundKept s.vm r
          → Ensures (RunKept s.vm) (elim r [
            | stop ret s' ↦ ok (some (ret, s'))
            | next s' ↦ loop host left sp_end tid s'
          ])
      goes ih (stop ret s') k = returns k
      goes ih (next s') k = Ensures-weaken (ih s' k.is_vm) λ o r. RunKept-trans o k r

enter-Kept : (tid : ℕ) (vm : Vm) → IsVm vm → Kept vm (enter tid vm)
unfolding enter
enter-Kept tid vm h =
    Kept-set_cpu vm _ h
      (set_reg-IsCpu _ sp _ (set_cop-IsCpu vm.cpu pc _ h.cpu_fits (omega arith)) (omega arith))

-- A run of a thread from a well-formed machine, if it ends within its bound and without a fault,
-- ends in a well-formed machine: every register and the value that is returned are 32-bit
-- patterns, every byte of memory is a byte, and the block, the symbols and the stack size are
-- those of the start. No system call is an exception, whatever the host answers.
pub run_loop-Kept :
    {W : Type 0} (host : Host W) (fuel tid : ℕ) (s : State W)
    → IsVm s.vm
    → Ensures (RunKept s.vm) (run_loop host fuel tid s)
unfolding run_loop
run_loop-Kept host fuel tid s h =
    let k = enter-Kept tid s.vm h in
    Ensures-weaken (loop-Kept host (s.vm.threads tid).sp_end tid fuel _ k.is_vm)
      λ o r. RunKept-trans host (s.vm.threads tid).sp_end tid o k r
