-- ===== src/Exec/Laws/Constants.antt =====
-- `OPC_LUI` and `OPC_ORI` together: how a program makes a constant of 32 bits.
use cvm.Base.{ℕ, ◌*◌, ◌/◌, ◌%◌, ◌^◌, ◌<◌, ◌≡◌, arith, ap, ◌∙◌, bit_and, bit_or}
use cvm.Base.Bits.{bit_and_mask, bit_or_fields}
use cvm.Base.Word.{shl32}
use cvm.Cpu.{Cpu}
use cvm.Cpu.Opcode.{lui, ori}
use cvm.Cpu.Decode.{Fields, sext}
use cvm.Exec.Imm.{exec_imm}

-- The 16 bits of a constant, out of its sign extension.
half_of : (x : ℕ) → x < 2 ^ 16 → bit_and (sext 16 x) 0xFFFF ≡ x
half_of x h = bit_and_mask 16 (sext 16 x) ∙ ground arith

halves : (w : ℕ) → w < 2 ^ 32 → bit_or (shl32 (w / 2 ^ 16) 16) (w % 2 ^ 16) ≡ w
halves w h =
    ap (λ u. bit_or u (w % 2 ^ 16)) {x = shl32 (w / 2 ^ 16) 16} {y = w / 2 ^ 16 * 2 ^ 16}
      (omega arith)
    ∙ bit_or_fields 16 (w / 2 ^ 16) (w % 2 ^ 16) (omega arith)
    ∙ omega arith

-- `OPC_LUI` with the upper half of a word, then `OPC_ORI` of the same register with the lower half,
-- leave the word in the register that the second names, although both halves are sign-extended on
-- the way.
pub lui-ori :
    (f g : Fields) (c : Cpu) (w : ℕ)
    → w < 2 ^ 32
    → f.c16 ≡ sext 16 (w / 2 ^ 16)
    → g.c16 ≡ sext 16 (w % 2 ^ 16)
    → g.rb ≡ f.ra
    → (exec_imm ori g (exec_imm lui f c)).regs g.ra ≡ w
unfolding exec_imm
lui-ori f g c w small upper lower same =
    rw (upper, lower, same, half_of (w / 2 ^ 16) (omega arith), half_of (w % 2 ^ 16) (omega arith))
      (ground (arith, halves w small))
