-- ===== src/Vm/Stacks.antt =====
-- The stacks of the threads, as `vm_thread_init` lays them out below the end of the block.
use native.Mathlib.Nat.{mul-le-mul_right}
use cvm.Base.{ℕ, ◌+◌, ◌-◌, ◌*◌, ◌%◌, ◌^◌, ◌≤◌, ◌<◌, ◌≡◌, arith, ap, ◌∙◌}
use cvm.Mem.{size}
use cvm.Vm.{Vm, Thread, stack_safe_hole, vm_thread_init}

-- The block has `count` stacks in it.
pub record HasStacks (vm : Vm) (count : ℕ) : Type 0 where
  pub block : size vm.mem < 2 ^ 32
  pub room : count * vm.stack_size ≤ size vm.mem
  pub safe : stack_safe_hole ≤ vm.stack_size

distance : (n p : ℕ) → n < 2 ^ 32 → p ≤ n → (n + 2 ^ 64 - p % 2 ^ 32) % 2 ^ 64 + p ≡ n
distance n p small inside = omega arith

distance_safe :
    (n p : ℕ)
    → n < 2 ^ 32
    → p + 256 ≤ n
    → (n + 2 ^ 64 - p % 2 ^ 32 + 2 ^ 64 - 256) % 2 ^ 64 + p + 256 ≡ n
distance_safe n p small inside = omega arith

module _ (vm : Vm) (count tid func : ℕ) (h : HasStacks vm count) (inside : tid < count) where
  abbrev thread : Thread
  thread = (vm_thread_init vm tid func).threads tid

  below : tid * vm.stack_size + vm.stack_size ≤ size vm.mem
  below = grind (arith, h.room)

  next : (tid + 1) * vm.stack_size ≤ size vm.mem
  next = grind (arith, below)

  few : tid + 1 < 2 ^ 32
  few = grind (arith, h.block, h.safe, below)

  own_end :
      thread.sp_end ≡ (size vm.mem + 2 ^ 64 - (tid + 1) % 2 ^ 32 * vm.stack_size % 2 ^ 32) % 2 ^ 64
  unfolding vm_thread_init
  own_end = ground arith

  own_start :
      thread.sp ≡ (size vm.mem + 2 ^ 64 - tid * vm.stack_size % 2 ^ 32 + 2 ^ 64 - 256) % 2 ^ 64
  unfolding vm_thread_init
  own_start = ground arith

  one_more :
      (size vm.mem + 2 ^ 64 - (tid + 1) % 2 ^ 32 * vm.stack_size % 2 ^ 32) % 2 ^ 64
      ≡ (size vm.mem + 2 ^ 64 - (tid + 1) * vm.stack_size % 2 ^ 32) % 2 ^ 64
  one_more =
      ap (λ k. (size vm.mem + 2 ^ 64 - k * vm.stack_size % 2 ^ 32) % 2 ^ 64)
        {x = (tid + 1) % 2 ^ 32} {y = tid + 1} (omega (arith, few))

  stack_end : thread.sp_end + (tid + 1) * vm.stack_size ≡ size vm.mem
  stack_end =
      ap (λ e. e + (tid + 1) * vm.stack_size) (own_end ∙ one_more)
      ∙ distance (size vm.mem) ((tid + 1) * vm.stack_size) h.block next

  stack_start : thread.sp + tid * vm.stack_size + stack_safe_hole ≡ size vm.mem
  stack_start =
      ap (λ e. e + tid * vm.stack_size + 256) own_start
      ∙ distance_safe (size vm.mem) (tid * vm.stack_size) h.block (omega (arith, below, h.safe))

  -- A thread's own part of the block: `stack_size` bytes from `sp_end` on, with the safe hole
  -- above `sp`.
  whole : thread.sp_end + vm.stack_size ≡ thread.sp + stack_safe_hole
  whole = grind (arith, stack_end, stack_start)

init-HasStacks :
    (vm : Vm) (count tid func : ℕ)
    → HasStacks vm count
    → HasStacks (vm_thread_init vm tid func) count
unfolding vm_thread_init
init-HasStacks vm count tid func h = record { block = h.block; room = h.room; safe = h.safe }

module _ (vm : Vm) (tid other func : ℕ) (apart : other < tid) where
  end_kept : ((vm_thread_init vm tid func).threads other).sp_end ≡ (vm.threads other).sp_end
  unfolding vm_thread_init
  end_kept = ground arith

  start_kept : ((vm_thread_init vm tid func).threads other).sp ≡ (vm.threads other).sp
  unfolding vm_thread_init
  start_kept = ground arith

-- Two threads set up one after the other, in a block of less than 2 ^ 32 bytes with room for the
-- stacks up to theirs, where a stack has at least the 256 bytes of the safe hole: the stack of the
-- later number ends, its safe hole included, at or below the last byte of the other's, both are
-- `stack_size` bytes long with the safe hole, and the upper one ends inside the block.
pub stacks-disjoint :
    (vm : Vm) (count a b f g : ℕ)
    → HasStacks vm count
    → a < b
    → b < count
    → let both = (vm_thread_init (vm_thread_init vm a f) b g).threads in
      ((both b).sp + stack_safe_hole ≤ (both a).sp_end)
      × ((both a).sp_end + vm.stack_size ≡ (both a).sp + stack_safe_hole)
      × ((both b).sp_end + vm.stack_size ≡ (both b).sp + stack_safe_hole)
      × ((both a).sp + stack_safe_hole ≤ size vm.mem)
unfolding vm_thread_init
stacks-disjoint vm count a b f g h order inside =
    let one = vm_thread_init vm a f in
    let h1 = init-HasStacks vm count a f h in
    let in_a : a < count = omega (arith) in
    let end_a = end_kept one b a g order in
    let start_a = start_kept one b a g order in
    let same : (a + 1) * vm.stack_size ≤ b * vm.stack_size =
      mul-le-mul_right vm.stack_size (omega arith) in
    (
      omega
          (arith, end_a, stack_end vm count a f h in_a, stack_start one count b g h1 inside, same),
      omega (arith, end_a, start_a, whole vm count a f h in_a),
      whole one count b g h1 inside,
      omega (arith, start_a, stack_start vm count a f h in_a),
    )
