-- ===== src/Load.antt =====
-- The loading of a program and the making of a machine: `load_elf` of simulator/elf_load.c, and
-- `vm_init`, `load_program`, `vm_load` and `vm_create` of simulator/vm.c. The records of elf.h are
-- read at the offsets that the format of 32-bit ELF files gives their fields. A failed step ends
-- the rest with no value, as `goto failed` does; messages and the release of memory are left out.
pub mod Headers
pub mod Segments
pub mod Steps
pub mod Laws
use cvm.Base.{
  ℕ, ◌+◌, ◌-◌, ◌*◌, ◌/◌, ◌%◌, ◌^◌, Bool, not, Option, none, some, List, [], ◌∷◌, ◌==◌, ltb, leb,
  if◌then◌else◌,
}
use cvm.Base.Word.{is_neg, mul32}
use cvm.Outcome.{Result, ok, fault, out_of_bounds, bad_division}
use cvm.Cpu.{Cpu}
use cvm.Mem.{Memory}
use cvm.Vm.{Sym, ElfInfo, Thread, Vm, stack_safe_hole, set_mem}
use cvm.Api.{Host}
use cvm.Api.File.{o_rdwr}
use Headers.{
  Loader, ◌>>=◌, pure, fail, require, Heap, seek, read_exact, read_to, try_malloc, Shdr, ehdr_size,
  phdr_size, shdr_size, sym_size, e_entry, e_phoff, e_shoff, e_phnum, e_shnum, phdrs, shdrs,
  syms_of,
}
use Segments.{load_segments}

-- `SHT_SYMTAB`
abbrev sht_symtab : ℕ
sht_symtab = 2

-- The loop that looks for the table of symbols.
unfoldable pub find_symtab : List Shdr → Option Shdr
find_symtab [] = none
find_symtab (s ∷ ss) = let rest = find_symtab ss in if s.sh_type == sht_symtab then some s else rest

unfoldable pub section_at : List Shdr → ℕ → Option Shdr
section_at [] i = none
section_at (s ∷ ss) i = let rest = section_at ss (i - 1) in if i == 0 then some s else rest

module _ {W : Type 0} (host : Host W) (heap : Heap W) (fd : ℕ) where
  -- The strings and symbols of the tables; both places in the file must be found, as an `off_t` that
  -- is not negative.
  unfoldable pub load_symbols : List Shdr → Shdr → ℕ → Loader W ElfInfo
  load_symbols sections table count = elim (section_at sections table.sh_link) [
    | none ↦ λ w. fault out_of_bounds
    | some strings ↦ do
      placed ← try_malloc heap strings.sh_size
      place ← seek host fd strings.sh_offset
      _ ← require (ltb place (2 ^ 63))
      strs ← read_to host fd placed strings.sh_size
      placed ← try_malloc heap table.sh_size
      place ← seek host fd table.sh_offset
      _ ← require (ltb place (2 ^ 63))
      bytes ← read_to host fd placed table.sh_size
      pure (record { syms = syms_of count table.sh_size bytes; strs = strs })
  ]

  -- From the table of sections on; the number of symbols must not be 0.
  unfoldable pub load_table : List Shdr → Loader W ElfInfo
  unfolding load_symbols find_symtab section_at
  load_table sections = elim (find_symtab sections) [
    | none ↦ fail
    | some table ↦
        if table.sh_entsize == 0
        then (λ w. fault bad_division)
        else if table.sh_size / table.sh_entsize == 0
        then fail
        else load_symbols sections table (table.sh_size / table.sh_entsize)
  ]

  -- The value is the entry; the machine has the program in its block.
  unfoldable pub load_elf : Vm → Loader W (ℕ × Vm)
  unfolding load_segments load_table
  load_elf vm = do
    _ ← seek host fd 0
    ehdr ← read_exact host fd ehdr_size
    _ ← heap.malloc (phdr_size * e_phnum ehdr)
    _ ← seek host fd (e_phoff ehdr)
    segments ← read_exact host fd (phdr_size * e_phnum ehdr)
    (mem, addr) ← load_segments host fd (phdrs (e_phnum ehdr) segments) vm.mem
    _ ← seek host fd (e_shoff ehdr)
    _ ← heap.malloc (shdr_size * e_shnum ehdr)
    sections ← read_exact host fd (shdr_size * e_shnum ehdr)
    elf ← load_table (shdrs (e_shnum ehdr) sections)
    pure (e_entry ehdr, record vm { mem = record mem { brk = addr }; elf = elf })

  -- `load_program` and `vm_load`: an entry of -1 counts as a failure.
  unfoldable pub vm_load : Vm → Loader W Vm
  unfolding load_elf
  vm_load vm = do
    (entry, vm') ← load_elf vm
    _ ← require (not (entry == 2 ^ 32 - 1))
    pure (record vm' { entry = entry })

-- The machine after `memset` and `vm_init`: all zero, with the block of `memsize` bytes at `start`.
unfoldable pub vm_init : ℕ → ℕ → (ℕ → ℕ) → Vm
vm_init memsize start contents = record {
  elf = record { syms = []; strs = [] };
  cpu = record { regs = λ i. 0; cop = λ i. 0 };
  mem = record { start = start; end = start + memsize; brk = 0; bytes = λ a. contents a % 2 ^ 8 };
  entry = 0;
  stack_size = 0;
  param_count = 0;
  threads = λ tid. record { prev_sp = 0; entry = 0; sp = 0; sp_end = 0 };
}

-- `sizeof_vm` is the size of `vm_t`.
unfoldable pub vm_create :
    {W : Type 0}
    → Host W
    → Heap W
    → (sizeof_vm : ℕ) → List ℕ
    → (memsize stacksize : ℕ) → Loader W Vm
unfolding vm_init vm_load
vm_create host heap sizeof_vm bin memsize stacksize = do
  fd ← λ w. let (fd, w') = host.file_open bin o_rdwr w in ok (some fd, w')
  _ ← require (not (is_neg fd))
  _ ← require (leb stack_safe_hole (mul32 stacksize 2))
  _ ← heap.malloc sizeof_vm
  (start, contents) ← heap.malloc memsize
  vm ← vm_load host heap fd (vm_init memsize start contents)
  pure (record vm { stack_size = stacksize })
