-- ===== src/Tests/Loading.antt =====
-- A small ELF file: its loading, its symbol, and calls of it.
use cvm.Base.{
  ℕ, ◌+◌, ◌/◌, ◌%◌, ◌^◌, ◌≡◌, refl, arith, Option, none, some, List, [], ◌∷◌, ◌++◌, take, drop,
  replicate,
}
use cvm.Outcome.{Result, ok, fault, Ensures, check, out_of_bounds}
use cvm.Cpu.{set_reg}
use cvm.Vm.{Vm}
use cvm.Api.{Host}
use cvm.Elf.{elf_resolve}
use cvm.Elf.Laws.{ends, more, Named, no_symbol, one_symbol, lookup, elf_resolve-lookup}
use cvm.Exec.{state}
use cvm.Load.{vm_create}
use cvm.Load.Headers.{Heap, ◌>>=◌, Phdr, phdrs, shdrs, syms_of}
use cvm.Load.Segments.{load_segments}
use cvm.Load.Steps.{Loaded}
use cvm.Load.Laws.{InBlock, load_segments-InBlock, IsCreated, vm_create-IsCreated}
use cvm.Sim.{Ending, call_symbol}
use cvm.Sim.Laws.{call_symbol-unknown}
use cvm.Tests.Samples.{sample_cpu, sample_host, memory_of, memory_of-IsMemory, vm_of}

abbrev le32 : ℕ → List ℕ
le32 n = n % 2 ^ 8 ∷ n / 2 ^ 8 % 2 ^ 8 ∷ n / 2 ^ 16 % 2 ^ 8 ∷ n / 2 ^ 24 % 2 ^ 8 ∷ []

abbrev strings : List ℕ
strings = 0 ∷ b'f' ∷ 0 ∷ []

-- One segment of 8 bytes at address 0, and a symbol `f` at address 4, the entry.
abbrev file : List ℕ
file =
    replicate 24 0
    ++ le32 4
    ++ le32 52
    ++ le32 84
    ++ replicate 8 0
    ++ (1 ∷ 0 ∷ 40 ∷ 0 ∷ 2 ∷ 0 ∷ 0 ∷ 0 ∷ [])
    ++ le32 1
    ++ le32 183
    ++ le32 0
    ++ le32 0
    ++ le32 8
    ++ le32 8
    ++ le32 0
    ++ le32 4096
    ++ replicate 4 0
    ++ le32 3
    ++ replicate 8 0
    ++ le32 164
    ++ le32 3
    ++ replicate 16 0
    ++ replicate 4 0
    ++ le32 2
    ++ replicate 8 0
    ++ le32 167
    ++ le32 16
    ++ le32 0
    ++ replicate 8 0
    ++ le32 16
    ++ strings
    ++ le32 1
    ++ le32 4
    ++ replicate 8 0
    ++ le32 0x0920002A
    ++ le32 0x3C000000

-- A host with that file; its state is the place in it.
abbrev file_host : Host ℕ
file_host = record {
  file_open = λ name mode w. (3, w);
  file_read = λ fd n w. (n, take n (drop w file), w + n);
  file_write = λ fd bytes w. (0, w);
  file_close = λ fd w. (0, w);
  file_seek = λ fd offset whence w. (offset, offset);
  clock = λ w. (1, w);
  put_line = λ line w. (0, w);
  stale = λ w. 0;
}

abbrev file_heap : Heap ℕ
file_heap = record { malloc = λ n w. ok (some (2 ^ 40, λ a. 0), w) }

-- The entry, the break and the first byte of the program.
abbrev facts : Result (Option Vm × ℕ) → Option (ℕ × ℕ × ℕ)
facts (fault e) = none
facts (ok (none, w)) = none
facts (ok (some vm, w)) = some (vm.entry, vm.mem.brk, vm.mem.bytes 0)

loads : facts (vm_create file_host file_heap 4096 [] 8192 1024 0) ≡ some (4, 4096, 0x2A)
unfolding vm_create ◌>>=◌ check phdrs shdrs syms_of
loads = refl

vm_create-IsCreated_example :
    Ensures (Loaded (IsCreated 8192 1024)) (vm_create file_host file_heap 4096 [] 8192 1024 0)
vm_create-IsCreated_example = vm_create-IsCreated file_host file_heap 4096 [] 8192 1024 0

abbrev segments : List Phdr
segments =
    record { p_type = 1; p_offset = 183; p_vaddr = 0; p_filesz = 8; p_memsz = 8; p_align = 4096 }
    ∷ []

load_segments-InBlock_example :
    Ensures
      (Loaded (InBlock file_host 3 (memory_of []) segments))
      (load_segments file_host 3 segments (memory_of []) 0)
load_segments-InBlock_example =
    load_segments-InBlock file_host 3 segments (memory_of []) 0 (memory_of-IsMemory [])

-- `addiu r2, r0, 42` and `jr_ret`, with a symbol `f` at the second.
abbrev vm : Vm
vm = record (vm_of (0x0920002A ∷ 0x3C000000 ∷ [])) {
  cpu = set_reg sample_cpu 14 0;
  elf = record { syms = some (record { st_name = 1; st_value = 4 }) ∷ []; strs = strings };
}

abbrev entries : List (List ℕ × ℕ)
entries = (b'f' ∷ [], 4) ∷ []

named : Named strings vm.elf.syms entries
named = one_symbol (more (omega arith) ends) no_symbol

elf_resolve-lookup_example : elf_resolve vm (b'f' ∷ []) ≡ ok (lookup (b'f' ∷ []) entries)
elf_resolve-lookup_example = elf_resolve-lookup vm entries (b'f' ∷ []) named (omega arith, tt)

call_symbol-unknown_example :
    call_symbol sample_host 5 (b'g' ∷ []) [] (state vm []) (λ s. ok (Ending.no_thread, s))
    ≡ fault out_of_bounds
unfolding lookup
call_symbol-unknown_example =
    call_symbol-unknown sample_host (state vm []) (b'g' ∷ []) entries named (omega arith, tt) 4
      (λ s. ok (Ending.no_thread, s)) refl
