-- ===== src/Rt/Stub.antt =====
-- The call stubs of the run-time library (rtlib/libs/brk.c, file.c, printf.c, std.c): each is the
-- macro of base.h, an instruction `SSC` with the number of a call and a store of register 3.
use cvm.Base.{ℕ, ◌≡◌, refl, some}
use cvm.Outcome.{Result, ok, fault, ◌>>=◌}
use cvm.Vm.{Vm}
use cvm.Api.{Host, Call}
use cvm.Api.Brk.{cpu0_brk, cpu0_sbrk}
use cvm.Api.File.{cpu0_open, cpu0_read, cpu0_write, cpu0_close, cpu0_lseek}
use cvm.Api.Std.{cpu0_time}
use cvm.Api.Printf.{cpu0_printf}
use cvm.Api.Table.{local, api_func}
use cvm.Exec.{State, state, exec}
use cvm.Cpu.Decode.{Fields}
use cvm.Cpu.Opcode.{ssc}

-- `API_PRINTF` to `API_TIME` of rtlib/libs/api.h
abbrev pub api_printf : ℕ
api_printf = 1

abbrev pub api_brk : ℕ
api_brk = 2

abbrev pub api_sbrk : ℕ
api_sbrk = 3

abbrev pub api_open : ℕ
api_open = 4

abbrev pub api_read : ℕ
api_read = 5

abbrev pub api_write : ℕ
api_write = 6

abbrev pub api_close : ℕ
api_close = 7

abbrev pub api_lseek : ℕ
api_lseek = 8

abbrev pub api_time : ℕ
api_time = 9

pub data Stub : Type 0 where
  printf : Stub
  brk : Stub
  sbrk : Stub
  open_path : Stub
  read : Stub
  write : Stub
  close : Stub
  lseek : Stub
  time : Stub

-- `SSC $0, id`
abbrev pub ssc_fields : ℕ → Fields
ssc_fields id = record { op = 0; ra = 0; rb = 0; rc = 0; c12 = id; c16 = id; c24 = id }

module _ {W : Type 0} (host : Host W) where
  -- `RT_API_WITH_RET(id, ret)`: what is stored in `ret`, and the state after the call.
  unfoldable pub rt_api_with_ret : ℕ → ℕ → State W → Result (ℕ × State W)
  unfolding exec
  rt_api_with_ret id tid s = do
    s' ← exec host (some ssc) (ssc_fields id) tid s
    ok (s'.vm.cpu.regs 3, s')

  -- The stubs; their parameters are already in place for the call.
  unfoldable pub rt_printf : ℕ → State W → Result (ℕ × State W)
  unfolding rt_api_with_ret
  rt_printf = rt_api_with_ret api_printf

  unfoldable pub rt_brk : ℕ → State W → Result (ℕ × State W)
  unfolding rt_api_with_ret
  rt_brk = rt_api_with_ret api_brk

  unfoldable pub rt_sbrk : ℕ → State W → Result (ℕ × State W)
  unfolding rt_api_with_ret
  rt_sbrk = rt_api_with_ret api_sbrk

  unfoldable pub rt_open : ℕ → State W → Result (ℕ × State W)
  unfolding rt_api_with_ret
  rt_open = rt_api_with_ret api_open

  unfoldable pub rt_read : ℕ → State W → Result (ℕ × State W)
  unfolding rt_api_with_ret
  rt_read = rt_api_with_ret api_read

  unfoldable pub rt_write : ℕ → State W → Result (ℕ × State W)
  unfolding rt_api_with_ret
  rt_write = rt_api_with_ret api_write

  unfoldable pub rt_close : ℕ → State W → Result (ℕ × State W)
  unfolding rt_api_with_ret
  rt_close = rt_api_with_ret api_close

  unfoldable pub rt_lseek : ℕ → State W → Result (ℕ × State W)
  unfolding rt_api_with_ret
  rt_lseek = rt_api_with_ret api_write

  unfoldable pub rt_time : ℕ → State W → Result (ℕ × State W)
  unfolding rt_api_with_ret
  rt_time = rt_api_with_ret api_time

  unfoldable pub stub : Stub → ℕ → State W → Result (ℕ × State W)
  unfolding rt_printf rt_brk rt_sbrk rt_open rt_read rt_write rt_close rt_lseek rt_time
  stub printf = rt_printf
  stub brk = rt_brk
  stub sbrk = rt_sbrk
  stub open_path = rt_open
  stub read = rt_read
  stub write = rt_write
  stub close = rt_close
  stub lseek = rt_lseek
  stub time = rt_time

  -- The host's function with the name of the stub.
  abbrev pub named : Stub → Call W
  named printf = cpu0_printf host
  named brk = local cpu0_brk
  named sbrk = local cpu0_sbrk
  named open_path = cpu0_open host
  named read = cpu0_read host
  named write = cpu0_write host
  named close = cpu0_close host
  named lseek = cpu0_lseek host
  named time = cpu0_time host

  -- The function that a stub of the library reaches.
  abbrev pub reached : Stub → Call W
  reached printf = named printf
  reached brk = named brk
  reached sbrk = named sbrk
  reached open_path = named open_path
  reached read = named read
  reached write = named write
  reached close = named close
  reached lseek = cpu0_write host
  reached time = named time

  abbrev pub left_in_3 : Vm × W → Result (ℕ × State W)
  left_in_3 (vm, w) = ok (vm.cpu.regs 3, state vm w)

  abbrev resumed : Vm × W → Result (State W)
  resumed (vm, w) = ok (state vm w)

  abbrev result_of : State W → Result (ℕ × State W)
  result_of s = ok (s.vm.cpu.regs 3, s)

  stored : (r : Result (Vm × W)) → (r >>= resumed >>= result_of) ≡ (r >>= left_in_3)
  stored (ok a) = refl
  stored (fault e) = refl

  -- For each of the nine stubs, in any state: it calls the host's function of its name and
  -- returns what that leaves in register 3, and faults where that does; but `lseek` calls the
  -- host's `write`.
  pub stub-reached :
      (f : Stub) (tid : ℕ) (s : State W) → stub f tid s ≡ (reached f s.vm tid s.world >>= left_in_3)
  unfolding stub rt_api_with_ret exec api_func
  stub-reached printf tid s = stored (reached printf s.vm tid s.world)
  stub-reached brk tid s = stored (reached brk s.vm tid s.world)
  stub-reached sbrk tid s = stored (reached sbrk s.vm tid s.world)
  stub-reached open_path tid s = stored (reached open_path s.vm tid s.world)
  stub-reached read tid s = stored (reached read s.vm tid s.world)
  stub-reached write tid s = stored (reached write s.vm tid s.world)
  stub-reached close tid s = stored (reached close s.vm tid s.world)
  stub-reached lseek tid s = stored (reached lseek s.vm tid s.world)
  stub-reached time tid s = stored (reached time s.vm tid s.world)
