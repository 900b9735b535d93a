-- ===== src/Lib.antt =====
-- CVM: a virtual machine for a 32-bit instruction set, with the host's system calls and a digest
-- program.
--
-- The simulator (simulator/) interprets programs for the machine inside a block of host memory.
-- `vm_create` allocates the block and loads a program, `vm_thread_init` lays out a thread's stack,
-- the host pushes parameters, and `run_loop` fetches and executes instructions until the program
-- counter is 0. An instruction `OPC_SSC` calls a function of `api_func`, which takes its
-- parameters by the machine's calling convention, works with the C library and leaves its result
-- in register 3. vapps/ has a program for the machine that computes MD5 digests. The programs call
-- the system through the stubs of the run-time library (rtlib/libs/), and take memory from its
-- allocator: a table of buckets, each with a free list of blocks of one size, in the order of
-- addresses. simulator/api/mem.c has the same allocator for the host.
--
-- Which file models what:
--   Cpu.antt              the registers and `cpu_init` (simulator/cpu.h)
--   Cpu/Opcode.antt       the opcodes (simulator/inst.h); Cpu/Opcode/Table.antt the choice of a case
--   Cpu/Decode.antt       the fields of an instruction (simulator/inst.h, head of `run_loop`)
--   Cpu/Flags.antt        the flag macros of simulator/cpu.h
--   Mem.antt, Mem/        the block of memory and the accesses to it (simulator/vm.h, cpu.c)
--   Vm.antt               the machine's state and the functions of simulator/vm.c on threads,
--                         parameters and results; Vm/Params.antt and Vm/Stacks.antt their laws
--   Exec.antt, Exec/      `run_loop` (simulator/cpu.c): `exec` is the `switch`, `round` the body of
--                         the loop, `loop` and `run_loop` the loop; one child for each group of
--                         cases (Transfer, Imm, Arith, Shift, HiLo, Cop, Jump)
--   Exec/Safety/          the invariant of a run; Exec/Laws/ what instructions do
--   Load.antt, Load/      `load_elf` (simulator/elf_load.c), `vm_init`, `load_program`, `vm_load` and
--                         `vm_create` (simulator/vm.c)
--   Elf.antt, Elf/        `elf_resolve` (simulator/elf_load.c)
--   Sim.antt, Sim/        `main` (simulator/sim.c)
--   Api.antt, Api/        the system calls (simulator/api/api.c, brk.c, file.c, std.c, printf.c)
--   Md5.antt, Md5/        vapps/md5.c and md5.h
--   Pool.antt             the free lists of simulator/api/mem.c and of rtlib/libs/mem.c:
--                         `pool_add_free`, `pool_pull_upper`, `pool_try_shrink`,
--                         `pool_alloc_continues`
--   Pool/Alloc.antt       `pool_create`, `pool_malloc`, `pool_free` of the same files
--   Pool/                 the invariant of a pool and what each operation does to it;
--                         Pool/Session.antt and Pool/Client.antt a client at work
--   Rt.antt, Rt/          the run-time library: `memcpy` and `memset` (rtlib/libs/api.h), the stubs
--                         (Rt/Stub.antt), `mem_init`, `malloc` and `free` (Rt/Heap.antt)
--   Outcome.antt          results and faults; Base.antt and Base/ shared names and lemmas
--   Tests.antt, Tests/    runs on concrete data, with the known digests of two messages
--
-- A register is its bit pattern, a number below `2 ^ 32`; where C reads it as an `int`, the model
-- takes the integer that the pattern stands for. `int` arithmetic wraps around. An address of the
-- program is a distance from the start of the block. What C leaves undefined is a fault, after
-- which the model says nothing: an access outside the block, a shift by 32 or more, a coprocessor
-- register past the fourth, a division by zero, a call through a null entry, a write through
-- a pointer that was never set, a place before the table of buckets. The reads and writes of the
-- host take the words of the block in little-endian order.
--
-- The allocator works on bytes by their addresses, with pointers of `ptr` bytes: 8 for the host, 4
-- for the machine. No block reaches the table of buckets, which is kept apart from the bytes.
--
-- Bounds: `run_loop` need not end, so `loop` takes a bound on its rounds; `none` means that the
-- bound was reached. The format of `printf` and a
-- string are read for at most as many bytes as the block has. The loop of `MD5Update` takes the
-- length of the input, divided by 64, as its bound. A loop along a free list takes `free_n`, which
-- the invariant makes the length of the list; a list that goes on is a fault. The loop that links
-- the pages takes the number of pages in the memory, the shifts of a size its 64 bits.
--
-- Parameters: `Host` (Api.antt) stands for the C library behind the system calls and the loader,
-- with a state of its own, and `Heap` (Load/Headers.antt) for `malloc`; nothing is assumed of their
-- answers. `mem_init` takes the stub of `sbrk` as an argument. The fields of the records of elf.h
-- are read at the offsets of the ELF format.
--
-- Not modelled: the unfinished files of simulator/api/plats; the messages printed on the host's
-- console and `pool_info`, which only prints; the code between `#if 0` and `#endif`; the compiler,
-- which is there as a binary. `memcpy` of the run-time library is modelled for a length of 0 or more.
pub mod Base
pub mod Cpu
pub mod Outcome
pub mod Mem
pub mod Vm
pub mod Api
pub mod Exec
pub mod Load
pub mod Elf
pub mod Sim
pub mod Pool
pub mod Rt
pub mod Md5
pub mod Tests
