-- ===== src/Exec.antt =====
-- The interpreter of simulator/cpu.c: one round of the loop of `run_loop`, and the loop. The
-- `switch` is split over the children, which have the cases in the groups of the source.
pub mod Transfer
pub mod Imm
pub mod Arith
pub mod Shift
pub mod HiLo
pub mod Cop
pub mod Jump
pub mod Bounds
pub mod Safety
pub mod Laws
use cvm.Base.{
  ℕ, zero, suc, ◌-◌, ◌^◌, Bool, true, false, Option, none, some, ◌==◌, leb, if◌then◌else◌,
}
use cvm.Base.Word.{u32, add32, signed}
use cvm.Outcome.{Result, ok, fault, ◌>>=◌}
use cvm.Cpu.{sp, pc, set_reg, set_pc}
use cvm.Cpu.Opcode.{Opcode, nop, ssc, mem, imm, branch, arith_op, shift, jump, hilo, cop}
use cvm.Cpu.Opcode.Table.{opcode_of}
use cvm.Cpu.Decode.{Fields, decode}
use cvm.Mem.{load32}
use cvm.Vm.{Vm, set_cpu}
use cvm.Api.{Host, Call}
use cvm.Api.Table.{api_func}
use Transfer.{exec_mem}
use Imm.{exec_imm}
use Arith.{exec_arith}
use Shift.{exec_shift}
use HiLo.{exec_hilo}
use Cop.{exec_cop}
use Jump.{exec_branch, exec_jump}

-- What the program runs on: the machine, and the host that its calls change.
pub record State (W : Type 0) : Type 0 where
  pub vm : Vm
  pub world : W

abbrev pub state : {W : Type 0} → Vm → W → State W
state vm w = record { vm = vm; world = w }

-- The cases of the `switch` that stay inside the machine. A system call is not one of them.
unfoldable pub exec_local : Opcode → Fields → ℕ → Vm → Result Vm
exec_local nop f tid vm = ok vm
exec_local ssc f tid vm = ok vm
exec_local (mem o) f tid vm = exec_mem o f vm
exec_local (imm o) f tid vm = ok (set_cpu vm (exec_imm o f vm.cpu))
exec_local (branch o) f tid vm = ok (exec_branch o f tid vm)
exec_local (arith_op o) f tid vm = ok (set_cpu vm (exec_arith o f vm.cpu))
exec_local (shift o) f tid vm = do c ← exec_shift o f vm.cpu; ok (set_cpu vm c)
exec_local (jump o) f tid vm = ok (exec_jump o f tid vm)
exec_local (hilo o) f tid vm = do c ← exec_hilo o f vm.cpu; ok (set_cpu vm c)
exec_local (cop o) f tid vm = do c ← exec_cop o f vm.cpu; ok (set_cpu vm c)

-- The end of a round.
pub data Round (W : Type 0) : Type 0 where
  next : State W → Round W
  stop : ℕ → State W → Round W

-- `if (!REG_PC(cp)) return REG_GPR(cc, 2);`
unfoldable pub after : {W : Type 0} → State W → Round W
after s = if s.vm.cpu.cop pc == 0 then stop (s.vm.cpu.regs 2) s else next s

-- `return -3` of the test for stack overflow
abbrev pub overflow_code : ℕ
overflow_code = 2 ^ 32 - 3

-- The registers at the start of a thread.
unfoldable pub enter : ℕ → Vm → Vm
enter tid vm =
    set_cpu vm (set_reg (set_pc vm.cpu (u32 (vm.threads tid).entry)) sp (u32 (vm.threads tid).sp))

-- `vm->param_count = 0` after the run
abbrev forget_params : {W : Type 0} → Option (ℕ × State W) → Option (ℕ × State W)
forget_params none = none
forget_params (some (r, s)) = some (r, record s { vm = record (s.vm) { param_count = 0 } })

module _ {W : Type 0} (host : Host W) where
  -- The `switch`; the `default` prints a message.
  unfoldable pub exec : Option Opcode → Fields → ℕ → State W → Result (State W)
  unfolding exec_local
  exec none f tid s = ok s
  exec (some ssc) f tid s = do (vm, w) ← api_func host f.c16 s.vm tid s.world; ok (state vm w)
  exec (some o) f tid s = do vm ← exec_local o f tid s.vm; ok (record s { vm = vm })

  -- The word at `pc` is fetched, and `pc` moved past it, before the stack is looked at.
  unfoldable pub round : (sp_end tid : ℕ) → State W → Result (Round W)
  unfolding exec after decode opcode_of
  round sp_end tid s = do
    inst ← load32 s.vm.mem (signed (s.vm.cpu.cop pc))
    let vm = set_cpu s.vm (set_pc s.vm.cpu (add32 (s.vm.cpu.cop pc) 4))
    if leb (vm.cpu.regs sp) (u32 sp_end) then ok (stop overflow_code (record s { vm = vm })) else do
      s' ← exec (opcode_of (decode inst).op) (decode inst) tid (record s { vm = vm })
      ok (after s')

  -- `while (1)` with a bound on the rounds: `none` means that it was reached.
  unfoldable pub loop : ℕ → (sp_end tid : ℕ) → State W → Result (Option (ℕ × State W))
  loop zero sp_end tid s = ok none
  loop (suc left) sp_end tid s = do
    r ← round sp_end tid s
    elim r [ stop ret s' ↦ ok (some (ret, s')) | next s' ↦ loop left sp_end tid s' ]

  unfoldable pub run_loop : ℕ → ℕ → State W → Result (Option (ℕ × State W))
  unfolding loop enter
  run_loop fuel tid s = loop fuel (s.vm.threads tid).sp_end tid (record s { vm = enter tid s.vm })

  unfoldable pub vm_start : ℕ → ℕ → State W → Result (Option (ℕ × State W))
  unfolding run_loop
  vm_start fuel tid s = do r ← run_loop fuel tid s; ok (forget_params r)
