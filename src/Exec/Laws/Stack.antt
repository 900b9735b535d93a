-- ===== src/Exec/Laws/Stack.antt =====
-- What the test for stack overflow of simulator/cpu.c makes of a thread set up by
-- `vm_thread_init` (simulator/vm.c) with a small stack.
use cvm.Base.{ℕ, suc, ◌+◌, ◌-◌, ◌*◌, ◌%◌, ◌^◌, ◌≤◌, ◌<◌, ◌≡◌, arith, ap, ◌∙◌, true, some, leb}
use cvm.Base.Word.{u32, add32, signed}
use cvm.Outcome.{ok}
use cvm.Cpu.{set_pc}
use cvm.Mem.{size, load32}
use cvm.Vm.{Vm, set_cpu, stack_safe_hole, vm_thread_init}
use cvm.Api.{Host}
use cvm.Exec.{state, overflow_code, enter, round, loop, run_loop}

at_once :
    (n p stack : ℕ)
    → n < 2 ^ 32
    → p + 256 ≤ n
    → stack ≤ 256
    → leb
        (((n + 2 ^ 64 - p % 2 ^ 32 + 2 ^ 64 - 256) % 2 ^ 64) % 2 ^ 32)
        (((n + 2 ^ 64 - (p + stack) % 2 ^ 32) % 2 ^ 64) % 2 ^ 32)
      ≡ true
at_once n p stack small inside short = ground arith

next_stack : (tid stack : ℕ) → tid < 2 ^ 16 → (tid + 1) % 2 ^ 32 * stack ≡ tid * stack + stack
next_stack tid stack few =
    ap (λ k. k * stack) {x = (tid + 1) % 2 ^ 32} {y = tid + 1} (omega arith) ∙ grind arith

module _ (vm : Vm) (tid func : ℕ) where
  abbrev made : Vm
  made = vm_thread_init vm tid func

  own_start :
      (made.threads tid).sp
      ≡ (size vm.mem + 2 ^ 64 - tid * vm.stack_size % 2 ^ 32 + 2 ^ 64 - 256) % 2 ^ 64
  unfolding vm_thread_init
  own_start = ground arith

  own_end :
      (made.threads tid).sp_end
      ≡ (size vm.mem + 2 ^ 64 - (tid + 1) % 2 ^ 32 * vm.stack_size % 2 ^ 32) % 2 ^ 64
  unfolding vm_thread_init
  own_end = ground arith

  own_entry : (made.threads tid).entry ≡ func
  unfolding vm_thread_init
  own_entry = ground arith

  too_small :
      size vm.mem < 2 ^ 32
      → tid * vm.stack_size + stack_safe_hole ≤ size vm.mem
      → vm.stack_size ≤ stack_safe_hole
      → tid < 2 ^ 16
      → leb (u32 (made.threads tid).sp) (u32 (made.threads tid).sp_end) ≡ true
  too_small small inside short few =
      rw (own_start, own_end, next_stack tid vm.stack_size few)
        (at_once (size vm.mem) (tid * vm.stack_size) vm.stack_size small inside short)

  -- A thread with a number below 2 ^ 16 that `vm_thread_init` sets up with a stack of at most 256
  -- bytes, in a block of less than 2 ^ 32 bytes that below the stacks of the earlier numbers still
  -- has the 256 bytes of the safe hole, stops in its first round with the code of a stack overflow,
  -- whatever its program, host and bound of one round or more, provided its first word can be
  -- fetched.
  pub small-stack :
      {W : Type 0} (host : Host W) (w : W) (left inst : ℕ)
      → size vm.mem < 2 ^ 32
      → tid * vm.stack_size + stack_safe_hole ≤ size vm.mem
      → vm.stack_size ≤ stack_safe_hole
      → tid < 2 ^ 16
      → load32 made.mem (signed (u32 func)) ≡ ok inst
      → run_loop host (suc left) tid (state made w)
        ≡ ok (
            some (
              overflow_code,
              state (set_cpu made (set_pc (enter tid made).cpu (add32 (u32 func) 4))) w,
            ))
  unfolding run_loop loop round enter
  small-stack host w left inst small inside short few fetched =
      rw (own_entry, fetched, too_small small inside short few)
