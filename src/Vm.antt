-- ===== src/Vm.antt =====
-- The machine's state (simulator/vm.h) and the functions of simulator/vm.c that set up a thread
-- and pass values between host and program. `cpu_ctx` and `flag` of `thread_ctx_t` are left out:
-- nothing reads or writes them. `thread->sp` and `sp_end` are pointers that hold distances from
-- `mem.start`, so they are 64-bit numbers here.
pub mod Params
pub mod Stacks
use cvm.Base.{
  ℕ, ◌+◌, ◌-◌, ◌*◌, ◌/◌, ◌%◌, ◌^◌, ◌<◌, Bool, Option, List, ltb, leb, ◌==◌, if◌then◌else◌,
}
use cvm.Base.Int.{ℤ, pos, ◌+ℤ◌}
use cvm.Base.Word.{u32, add32, sub32, mul32, signed}
use cvm.Outcome.{Result, ok, fault, ◌>>=◌}
use cvm.Cpu.{Cpu, set_reg, IsCpu}
use cvm.Mem.{Memory, size, load32, store32, IsMemory}

-- The parts of an `Elf32_Sym` that the simulator reads.
pub record Sym : Type 0 where
  pub st_name : ℕ
  pub st_value : ℕ

pub record ElfInfo : Type 0 where
  -- none for a symbol behind the bytes of the table
  pub syms : List (Option Sym)
  pub strs : List ℕ

pub record Thread : Type 0 where
  pub prev_sp : ℕ
  pub entry : ℕ
  pub sp : ℕ
  pub sp_end : ℕ

pub record Vm : Type 0 where
  pub elf : ElfInfo
  pub cpu : Cpu
  pub mem : Memory
  pub entry : ℕ
  pub stack_size : ℕ
  pub param_count : ℕ
  pub threads : ℕ → Thread

abbrev pub max_thread : ℕ
max_thread = 32

abbrev pub stack_safe_hole : ℕ
stack_safe_hole = 0x100

-- `vm->threads[tid] = t`
abbrev pub set_thread : Vm → ℕ → Thread → Vm
set_thread vm tid t = record vm { threads = λ j. if j == tid then t else vm.threads j }

abbrev pub set_cpu : Vm → Cpu → Vm
set_cpu vm c = record vm { cpu = c }

abbrev pub set_mem : Vm → Memory → Vm
set_mem vm m = record vm { mem = m }

-- Parameter `idx`, counted from 1: two in registers, the others on the caller's stack.
unfoldable pub abi_func_param_n : Vm → ℕ → ℕ → Result ℕ
abi_func_param_n vm tid idx =
    if idx == 1
    then ok (vm.cpu.regs 4)
    else if idx == 2
    then ok (vm.cpu.regs 5)
    else if ltb 2 idx
    then load32 vm.mem (signed (vm.threads tid).prev_sp +ℤ pos 4 +ℤ pos (mul32 (sub32 idx 2) 4))
    else ok (2 ^ 32 - 1)

-- `ret` is made a 32-bit pattern on the way in.
unfoldable pub abi_func_set_return : Vm → ℕ → Vm
abi_func_set_return vm ret = set_cpu vm (set_reg vm.cpu 3 (u32 ret))

unfoldable pub abi_func_get_return_int : Vm → ℕ → ℕ
abi_func_get_return_int vm tid = vm.cpu.regs 2

-- A host address.
unfoldable pub abi_func_get_return_addr : Vm → ℕ → ℤ
abi_func_get_return_addr vm tid = pos vm.mem.start +ℤ signed (vm.cpu.regs 2)

-- The stacks lie side by side below `mem.end`; `tid * stack_size` is a 32-bit product, the
-- differences are between pointers.
unfoldable pub vm_thread_init : Vm → ℕ → ℕ → Vm
vm_thread_init vm tid func_addr = set_thread vm tid (record (vm.threads tid) {
  entry = func_addr;
  sp = (size vm.mem + 2 ^ 64 - mul32 tid vm.stack_size + 2 ^ 64 - stack_safe_hole) % 2 ^ 64;
  sp_end = (size vm.mem + 2 ^ 64 - mul32 (add32 tid 1) vm.stack_size) % 2 ^ 64;
})

-- `vm_thread_init` always returns 0, so the error branch is never taken.
unfoldable pub vm_create_main_thread : Vm → ℕ → ℕ × Vm
vm_create_main_thread vm func = (0, vm_thread_init vm 0 (if func == 0 then vm.entry else func))

-- The register copies of the first two parameters.
unfoldable pub param_regs : ℕ → ℕ → Cpu → Cpu
param_regs count param c =
    if count == 0 then set_reg c 4 param else if count == 1 then set_reg c 5 param else c

-- Every parameter is also stored in its place on the stack.
unfoldable pub vm_push_main_thread_param : Vm → ℕ → Result Vm
unfolding param_regs
vm_push_main_thread_param vm param = do
  m ← store32 vm.mem (pos (u32 (vm.threads 0).sp + 4 * vm.param_count)) param
  ok (record vm {
    cpu = param_regs vm.param_count param vm.cpu;
    mem = m;
    param_count = add32 vm.param_count 1;
  })

-- Registers and stack pointers hold 32-bit patterns, and bytes are bytes.
pub record IsVm (vm : Vm) : Type 0 where
  pub cpu_fits : IsCpu vm.cpu
  pub mem_fits : IsMemory vm.mem
  pub prev_sp_fits : (tid : ℕ) → (vm.threads tid).prev_sp < 2 ^ 32

pub set_cpu-IsVm : (vm : Vm) (c : Cpu) → IsVm vm → IsCpu c → IsVm (set_cpu vm c)
set_cpu-IsVm vm c h hc = record {
  cpu_fits = hc;
  mem_fits = h.mem_fits;
  prev_sp_fits = h.prev_sp_fits;
}

pub set_mem-IsVm : (vm : Vm) (m : Memory) → IsVm vm → IsMemory m → IsVm (set_mem vm m)
set_mem-IsVm vm m h hm = record {
  cpu_fits = h.cpu_fits;
  mem_fits = hm;
  prev_sp_fits = h.prev_sp_fits;
}
