-- ===== src/Exec/Cop.antt =====
-- Moves from and to the coprocessor: the cases `OPC_MFC0` to `OPC_C0MOV` of `run_loop`
-- (simulator/cpu.c). `cp.regs` has four places, behind which the struct holds pointers.
use cvm.Base.{ltb}
use cvm.Outcome.{Result, ok, check, bad_register}
use cvm.Cpu.{Cpu, cpr_count, set_reg, set_cop}
use cvm.Cpu.Opcode.{CopOp, mfc0, mtc0, c0mov}
use cvm.Cpu.Decode.{Fields}

-- `OPC_C0MOV` reads `cc->regs`, a general register.
unfoldable pub exec_cop : CopOp → Fields → Cpu → Result Cpu
exec_cop mfc0 f c = check (ltb f.rb cpr_count) bad_register (ok (set_reg c f.ra (c.cop f.rb)))
exec_cop mtc0 f c = check (ltb f.ra cpr_count) bad_register (ok (set_cop c f.ra (c.regs f.rb)))
exec_cop c0mov f c = check (ltb f.ra cpr_count) bad_register (ok (set_cop c f.ra (c.regs f.rb)))
