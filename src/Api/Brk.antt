-- ===== src/Api/Brk.antt =====
-- simulator/api/brk.c
use cvm.Base.{ℕ, ◌+◌, ◌-◌, ◌%◌, ◌^◌, leb, if◌then◌else◌}
use cvm.Base.Int.{pos, sub_ℕ, leb_ℤ}
use cvm.Base.Word.{u32}
use cvm.Outcome.{Result, ok, ◌>>=◌}
use cvm.Vm.{Vm, set_mem, abi_func_param_n, abi_func_set_return}

-- `vm->mem.brk = addr`
abbrev pub set_brk : Vm → ℕ → Vm
set_brk vm b = set_mem vm (record (vm.mem) { brk = b })

-- The failed calls return -1.
unfoldable pub brk_to : ℕ → Vm → Vm
brk_to addr vm =
    if leb vm.mem.end (vm.mem.start + addr)
    then abi_func_set_return vm (2 ^ 32 - 1)
    else abi_func_set_return (set_brk vm addr) 0

unfoldable pub cpu0_brk : Vm → ℕ → Result Vm
unfolding brk_to
cpu0_brk vm tid = do addr ← abi_func_param_n vm tid 1; ok (brk_to addr vm)

-- The test takes the distance `brk` from the host address `end`, as signed 64-bit numbers.
unfoldable pub sbrk_by : ℕ → Vm → Vm
sbrk_by incr vm =
    if leb_ℤ (sub_ℕ vm.mem.end vm.mem.brk) (pos incr)
    then abi_func_set_return vm (2 ^ 32 - 1)
    else abi_func_set_return (set_brk vm ((vm.mem.brk + incr) % 2 ^ 64)) (u32 vm.mem.brk)

unfoldable pub cpu0_sbrk : Vm → ℕ → Result Vm
unfolding sbrk_by
cpu0_sbrk vm tid = do incr ← abi_func_param_n vm tid 1; ok (sbrk_by incr vm)
