-- ===== src/Exec/Imm.antt =====
-- Immediates, conditional moves and set-on-less: the cases `OPC_ADDIU` to `OPC_SLTU` of
-- `run_loop` (simulator/cpu.c).
use cvm.Base.{ℕ, Bool, bit_and, bit_or, bit_xor, ltb, ◌==◌, if◌then◌else◌}
use cvm.Base.Int.{ltb_ℤ}
use cvm.Base.Word.{add32, shl32, signed}
use cvm.Cpu.{Cpu, set_reg}
use cvm.Cpu.Opcode.{ImmOp, addiu, movz, movn, andi, ori, xori, lui, slti, sltiu, slt, sltu}
use cvm.Cpu.Decode.{Fields}

abbrev pub truth : Bool → ℕ
truth b = if b then 1 else 0

unfoldable pub exec_imm : ImmOp → Fields → Cpu → Cpu
exec_imm addiu f c = set_reg c f.ra (add32 (c.regs f.rb) f.c16)
exec_imm movz f c = if c.regs f.rc == 0 then set_reg c f.ra (c.regs f.rb) else c
exec_imm movn f c = if c.regs f.rc == 0 then c else set_reg c f.ra (c.regs f.rb)
exec_imm andi f c = set_reg c f.ra (bit_and (c.regs f.rb) (bit_and f.c16 0xFFFF))
exec_imm ori f c = set_reg c f.ra (bit_or (c.regs f.rb) (bit_and f.c16 0xFFFF))
exec_imm xori f c = set_reg c f.ra (bit_xor (c.regs f.rb) (bit_and f.c16 0xFFFF))
exec_imm lui f c = set_reg c f.ra (shl32 (bit_and f.c16 0xFFFF) 16)
exec_imm slti f c = set_reg c f.ra (truth (ltb_ℤ (signed (c.regs f.rb)) (signed f.c16)))
exec_imm sltiu f c = set_reg c f.ra (truth (ltb (c.regs f.rb) f.c16))
exec_imm slt f c = set_reg c f.ra (truth (ltb_ℤ (signed (c.regs f.rb)) (signed (c.regs f.rc))))
exec_imm sltu f c = set_reg c f.ra (truth (ltb (c.regs f.rb) (c.regs f.rc)))
