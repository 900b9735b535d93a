-- ===== src/Sim.antt =====
-- The host program: `main` of simulator/sim.c, from a machine that `vm_create` has made. The
-- messages are left out, except the last, which reads the string at the address returned.
pub mod Laws
use cvm.Base.{ℕ, zero, suc, ◌-◌, ◌^◌, not, Option, none, some, List, [], ◌∷◌, ◌==◌, if◌then◌else◌}
use cvm.Base.Int.{ℤ}
use cvm.Outcome.{Result, ok, ◌>>=◌}
use cvm.Vm.{Vm, vm_create_main_thread, abi_func_get_return_addr}
use cvm.Vm.Params.{push_all}
use cvm.Api.{Host}
use cvm.Elf.{elf_resolve}
use cvm.Exec.{State, state, vm_start}

abbrev pub init_name : List ℕ
init_name = b'_' ∷ b'_' ∷ b'i' ∷ b'n' ∷ b'i' ∷ b't' ∷ []

abbrev pub load_file_name : List ℕ
load_file_name = b'l' ∷ b'o' ∷ b'a' ∷ b'd' ∷ b'_' ∷ b'f' ∷ b'i' ∷ b'l' ∷ b'e' ∷ []

abbrev pub challenge_name : List ℕ
challenge_name =
    b'g' ∷ b'e' ∷ b't' ∷ b'_' ∷ b'c' ∷ b'h' ∷ b'a' ∷ b'l' ∷ b'l' ∷ b'e' ∷ b'n' ∷ b'g' ∷ b'e' ∷ b'_'
    ∷ b'p' ∷ b'w' ∷ b'd' ∷ []

-- How far `main` got: a call that reached the bound on its rounds, the return of -1 after a thread
-- that could not be created, or the address of the challenge.
pub data Ending : Type 0 where
  unfinished : Ending
  no_thread : Ending
  challenge : ℤ → Ending

module _ {W : Type 0} (host : Host W) (fuel : ℕ) where
  -- `elf_resolve`, `vm_create_main_thread`, the parameters and `vm_start`; what `vm_start` returns
  -- is not looked at.
  unfoldable pub call_symbol :
      List ℕ → List ℕ → State W → (State W → Result (Ending × State W)) → Result (Ending × State W)
  unfolding vm_create_main_thread elf_resolve push_all vm_start
  call_symbol name params s go = do
    symbol ← elf_resolve s.vm name
    let (r, vm) = vm_create_main_thread s.vm symbol
    if not (r == 0) then ok (no_thread, record s { vm = vm }) else do
      vm' ← push_all params vm
      run ← vm_start host fuel 0 (record s { vm = vm' })
      elim run [ none ↦ ok (unfinished, record s { vm = vm' }) | some r ↦ go r.1 ]

  unfoldable pub main : State W → Result (Ending × State W)
  unfolding call_symbol
  main s = call_symbol init_name [] s λ s₁. call_symbol load_file_name (0 ∷ []) s₁ λ s₂.
      call_symbol challenge_name [] s₂ λ s₃. ok (challenge (abi_func_get_return_addr s₃.vm 0), s₃)
