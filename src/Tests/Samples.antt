-- ===== src/Tests/Samples.antt =====
-- The data of the tests: registers, a block of memory with a program in it, and a host.
use cvm.Base.{ℕ, ◌+◌, ◌-◌, ◌*◌, ◌/◌, ◌%◌, ◌^◌, arith, List, [], ◌∷◌, ◌==◌, if◌then◌else◌, get_or}
use cvm.Cpu.{Cpu, IsCpu}
use cvm.Cpu.Decode.{Fields}
use cvm.Mem.{Memory, IsMemory}
use cvm.Vm.{Vm, IsVm}
use cvm.Api.{Host}

-- Register 1 holds -2, register 2 holds 5, register 4 holds 96, and the others hold their number.
abbrev pub sample_cpu : Cpu
sample_cpu = record {
  regs =
      λ i. if i == 1 then 2 ^ 32 - 2 else if i == 2 then 5 else if i == 4 then 96 else i % 2 ^ 32;
  cop = λ i. if i == 0 then 0x40 else i % 2 ^ 32;
}

pub sample_cpu-IsCpu : IsCpu sample_cpu
sample_cpu-IsCpu = record { regs_fit = λ i. ground arith; cop_fit = λ i. ground arith }

abbrev pub fields : ℕ → ℕ → ℕ → Fields
fields ra rb c16 = record { op = 0; ra = ra; rb = rb; rc = 3; c12 = 0; c16 = c16; c24 = 0x20 }

-- Words from address 0 on.
abbrev pub memory_of : List ℕ → Memory
memory_of words = record {
  start = 2 ^ 40;
  end = 2 ^ 40 + 4096;
  brk = 1024;
  bytes = λ a. get_or words (a / 4) 0 / 2 ^ (8 * (a % 4)) % 2 ^ 8;
}

pub memory_of-IsMemory : (words : List ℕ) → IsMemory (memory_of words)
memory_of-IsMemory words a = omega arith

abbrev pub vm_of : List ℕ → Vm
vm_of words = record {
  elf = record { syms = []; strs = [] };
  cpu = sample_cpu;
  mem = memory_of words;
  entry = 0;
  stack_size = 1024;
  param_count = 0;
  threads = λ tid. record { prev_sp = 2000; entry = 0; sp = 2000; sp_end = 1000 };
}

pub vm_of-IsVm : (words : List ℕ) → IsVm (vm_of words)
vm_of-IsVm words = record {
  cpu_fits = sample_cpu-IsCpu;
  mem_fits = memory_of-IsMemory words;
  prev_sp_fits = λ tid. omega arith;
}

-- A host that only keeps the lines printed.
abbrev pub sample_host : Host (List (List ℕ))
sample_host = record {
  file_open = λ name mode w. (3, w);
  file_read = λ fd n w. (0, [], w);
  file_write = λ fd bytes w. (0, w);
  file_close = λ fd w. (0, w);
  file_seek = λ fd offset whence w. (0, w);
  clock = λ w. (1, w);
  put_line = λ line w. (0, line ∷ w);
  stale = λ w. 0;
}
