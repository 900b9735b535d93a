-- ===== src/Api.antt =====
-- The host's side of the system calls. `Host` stands for the C library and the operating system
-- behind it, with an abstract state `W`.
pub mod Brk
pub mod File
pub mod Std
pub mod Printf
pub mod Table
pub mod Laws
use cvm.Base.{ℕ, List}
use cvm.Outcome.{Result, ok}
use cvm.Vm.{Vm, abi_func_set_return}

-- Return values are patterns of 32 bits for `int` and of 64 bits for `ssize_t` and `off_t`, and so
-- are sizes and offsets of 64 bits. `file_read` also gives the bytes that it read,
-- `clock` is `time(NULL)` and `put_line` is `puts`.
pub record Host (W : Type 0) : Type 0 where
  pub file_open : List ℕ → ℕ → W → ℕ × W
  pub file_read : ℕ → ℕ → W → ℕ × List ℕ × W
  pub file_write : ℕ → List ℕ → W → ℕ × W
  pub file_close : ℕ → W → ℕ × W
  pub file_seek : ℕ → ℕ → ℕ → W → ℕ × W
  pub clock : W → ℕ × W
  pub put_line : List ℕ → W → ℕ × W
  -- what an uninitialised `int` on the host's stack holds
  pub stale : W → ℕ

-- `API_CALL_PF`: a call changes the machine, which holds its result, and the host.
abbrev pub Call : Type 0 → Type 0
Call W = Vm → ℕ → W → Result (Vm × W)

-- `abi_func_set_return(vm, ret)` with what the host gave back.
abbrev pub return : {W : Type 0} → Vm → ℕ × W → Result (Vm × W)
return vm (ret, w) = ok (abi_func_set_return vm ret, w)
