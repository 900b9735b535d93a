-- ===== src/Api/Laws/Break.antt =====
-- `brk` and `sbrk` (simulator/api/brk.c).
use cvm.Base.{ℕ, ◌+◌, ◌-◌, ◌%◌, ◌^◌, ◌≤◌, ◌<◌, ◌≡◌, arith, ap, ◌∙◌, false, leb, if◌then◌else◌}
use cvm.Base.Int.{pos, sub_ℕ, leb_ℤ}
use cvm.Base.Word.{u32}
use cvm.Mem.{Memory, size}
use cvm.Vm.{Vm, abi_func_set_return}
use cvm.Api.Brk.{set_brk, brk_to, sbrk_by}

inside : (m : Memory) (addr : ℕ) → m.start ≤ m.end → leb m.end (m.start + addr) ≡ leb (size m) addr
inside m addr order = ground arith

-- `brk` moves the break exactly to an address inside the block and returns 0; for any other
-- address it returns -1 and leaves the break alone.
brk_to_lem :
    (vm : Vm) (addr : ℕ)
    → vm.mem.start ≤ vm.mem.end
    → brk_to addr vm ≡ (
        if leb (size vm.mem) addr
        then abi_func_set_return vm (2 ^ 32 - 1)
        else abi_func_set_return (set_brk vm addr) 0)
unfolding brk_to
brk_to_lem vm addr order =
    ap
      (λ b.
        if b then abi_func_set_return vm (2 ^ 32 - 1) else abi_func_set_return (set_brk vm addr) 0)
      (inside vm.mem addr order)

far_off :
    (end brk incr : ℕ)
    → incr < 2 ^ 32
    → brk + 2 ^ 32 ≤ end
    → leb_ℤ (sub_ℕ end brk) (pos incr) ≡ false
far_off end brk incr small far = ground arith

-- `sbrk` does not fail where the end of the block, as a host address, is at least `2 ^ 32` above
-- the break: it gives the old break and moves the break, past the end of the block if need be.
pub sbrk_by_lem :
    (vm : Vm) (incr : ℕ)
    → incr < 2 ^ 32
    → vm.mem.brk + 2 ^ 32 ≤ vm.mem.end
    → vm.mem.brk + 2 ^ 32 < 2 ^ 64
    → sbrk_by incr vm ≡ abi_func_set_return (set_brk vm (vm.mem.brk + incr)) (u32 vm.mem.brk)
unfolding sbrk_by
sbrk_by_lem vm incr small far room =
    ap
      (λ b.
        if b
        then abi_func_set_return vm (2 ^ 32 - 1)
        else abi_func_set_return (set_brk vm ((vm.mem.brk + incr) % 2 ^ 64)) (u32 vm.mem.brk))
      (far_off vm.mem.end vm.mem.brk incr small far)
    ∙ ap (λ b. abi_func_set_return (set_brk vm b) (u32 vm.mem.brk))
        {x = (vm.mem.brk + incr) % 2 ^ 64} {y = vm.mem.brk + incr} (omega arith)
