-- ===== src/Sim/Laws.antt =====
-- What a call of `main` (simulator/sim.c) comes to.
use cvm.Base.{ℕ, suc, ◌-◌, ◌^◌, ◌≡◌, ◌≢◌, List, [], All}
use cvm.Outcome.{Result, fault, out_of_bounds}
use cvm.Mem.{load32}
use cvm.Vm.{vm_thread_init, vm_create_main_thread}
use cvm.Vm.Params.{push_all}
use cvm.Api.{Host}
use cvm.Elf.Laws.{Named, lookup, elf_resolve-lookup}
use cvm.Exec.{State, enter, round, loop, run_loop, vm_start}
use cvm.Sim.{Ending, call_symbol}

module _ {W : Type 0} (host : Host W) (s : State W) (name : List ℕ) (table : List (List ℕ × ℕ))
    (named : Named s.vm.elf.strs s.vm.elf.syms table) (text : All (λ d. d ≢ 0) name) where
  -- A call without parameters of a name that no symbol has ends in an access outside the block:
  -- the thread runs from the address -1, since `main` does not look at what `elf_resolve`
  -- returns.
  pub call_symbol-unknown :
      (left : ℕ) (go : State W → Result (Ending × State W))
      → lookup name table ≡ 2 ^ 32 - 1
      → call_symbol host (suc left) name [] s go ≡ fault out_of_bounds
  unfolding call_symbol vm_create_main_thread vm_thread_init push_all vm_start run_loop loop enter
      round load32
  call_symbol-unknown left go unknown = rw (elf_resolve-lookup s.vm table name named text, unknown)
