-- ===== src/Tests/Runs.antt =====
-- A program of two instructions: `addiu r2, r0, 42` and `jr_ret`, in a thread whose `lr` is 0.
use cvm.Base.{ℕ, ◌≡◌, refl, arith, Option, none, some, List, [], ◌∷◌}
use cvm.Outcome.{Result, ok, fault, Ensures, check}
use cvm.Cpu.{Cpu, set_reg, set_pc}
use cvm.Mem.{load32}
use cvm.Mem.Laws.{load32_pos}
use cvm.Vm.{Vm, set_cpu, vm_thread_init}
use cvm.Exec.{State, state, overflow_code, enter, round, run_loop}
use cvm.Exec.Imm.{exec_imm}
use cvm.Exec.Jump.{exec_jump}
use cvm.Exec.Safety.Rounds.{RunKept, run_loop-Kept}
use cvm.Exec.Laws.Stack.{small-stack}
use cvm.Tests.Samples.{sample_cpu, vm_of, vm_of-IsVm, sample_host}

abbrev program : List ℕ
program = 0x0920002A ∷ 0x3C000000 ∷ []

abbrev cpu : Cpu
cpu = set_pc (set_reg (set_reg sample_cpu 14 0) 13 2000) 0

run_loop-Kept_example :
    Ensures (RunKept (vm_of program)) (run_loop sample_host 5 0 (state (vm_of program) []))
run_loop-Kept_example =
    run_loop-Kept sample_host 5 0 (state (vm_of program) []) (vm_of-IsVm program)

-- A stack of 256 bytes.
abbrev tight : Vm
tight = record (vm_of program) { stack_size = 256 }

abbrev made : Vm
made = vm_thread_init tight 2 4

small-stack_example :
    run_loop sample_host 9 2 (state made [])
    ≡ ok (some (overflow_code, state (set_cpu made (set_pc (enter 2 made).cpu 8)) []))
unfolding vm_thread_init
small-stack_example =
    small-stack tight 2 4 sample_host [] 8 0x3C000000 (omega arith) (omega arith) (omega arith)
      (omega arith) (load32_pos tight.mem 4 (omega arith))

-- What a run returns, if it ends within the bound.
returned : {W : Type 0} → Result (Option (ℕ × State W)) → Option ℕ
returned (ok (some (ret, s))) = some ret
returned (ok none) = none
returned (fault e) = none

program_returns :
    returned (run_loop sample_host 3 0 (state (record (vm_of program) { cpu = cpu }) [])) ≡ some 42
unfolding returned run_loop round load32 check exec_imm exec_jump
program_returns = refl
