-- ===== src/Cpu/Opcode.antt =====
-- The opcodes of simulator/inst.h, in the groups in which simulator/cpu.c treats them.
pub mod Table
use cvm.Base.{ℕ}

pub data MemOp : Type 0 where
  ld st lb lbu sb lh lhu sh : MemOp

pub data ImmOp : Type 0 where
  addiu movz movn andi ori xori lui slti sltiu slt sltu : ImmOp

pub data BranchOp : Type 0 where
  beq bne bal : BranchOp

pub data ArithOp : Type 0 where
  cmp add addu sub clz clo subu mul and or xor : ArithOp

pub data ShiftOp : Type 0 where
  roli rori sra shl shr srav shlv shrv rol ror : ShiftOp

pub data JumpOp : Type 0 where
  jeq jne jlt jgt jle jge jmp jalr jsub jr_ret : JumpOp

pub data HiLoOp : Type 0 where
  mult multu div divu mfhi mflo mthi mtlo : HiLoOp

pub data CopOp : Type 0 where
  mfc0 mtc0 c0mov : CopOp

pub data Opcode : Type 0 where
  nop ssc : Opcode
  mem : MemOp → Opcode
  imm : ImmOp → Opcode
  branch : BranchOp → Opcode
  arith_op : ArithOp → Opcode
  shift : ShiftOp → Opcode
  jump : JumpOp → Opcode
  hilo : HiLoOp → Opcode
  cop : CopOp → Opcode

-- The `OPC_` numbers.
abbrev pub code : Opcode → ℕ
code nop = 0x00
code ssc = 0x53
code (mem ld) = 0x01
code (mem st) = 0x02
code (mem lb) = 0x03
code (mem lbu) = 0x04
code (mem sb) = 0x05
code (mem lh) = 0x06
code (mem lhu) = 0x07
code (mem sh) = 0x08
code (imm addiu) = 0x09
code (imm movz) = 0x0A
code (imm movn) = 0x0B
code (imm andi) = 0x0C
code (imm ori) = 0x0D
code (imm xori) = 0x0E
code (imm lui) = 0x0F
code (imm slti) = 0x26
code (imm sltiu) = 0x27
code (imm slt) = 0x28
code (imm sltu) = 0x29
code (branch beq) = 0x37
code (branch bne) = 0x38
code (branch bal) = 0x3A
code (arith_op cmp) = 0x10
code (arith_op add) = 0x13
code (arith_op addu) = 0x11
code (arith_op sub) = 0x14
code (arith_op clz) = 0x15
code (arith_op clo) = 0x16
code (arith_op subu) = 0x12
code (arith_op mul) = 0x17
code (arith_op and) = 0x18
code (arith_op or) = 0x19
code (arith_op xor) = 0x1A
code (shift roli) = 0x1B
code (shift rori) = 0x1C
code (shift sra) = 0x1D
code (shift shl) = 0x1E
code (shift shr) = 0x1F
code (shift srav) = 0x20
code (shift shlv) = 0x21
code (shift shrv) = 0x22
code (shift rol) = 0x23
code (shift ror) = 0x24
code (jump jeq) = 0x30
code (jump jne) = 0x31
code (jump jlt) = 0x32
code (jump jgt) = 0x33
code (jump jle) = 0x34
code (jump jge) = 0x35
code (jump jmp) = 0x36
code (jump jalr) = 0x39
code (jump jsub) = 0x3B
code (jump jr_ret) = 0x3C
code (hilo mult) = 0x41
code (hilo multu) = 0x42
code (hilo div) = 0x43
code (hilo divu) = 0x44
code (hilo mfhi) = 0x46
code (hilo mflo) = 0x47
code (hilo mthi) = 0x48
code (hilo mtlo) = 0x49
code (cop mfc0) = 0x50
code (cop mtc0) = 0x51
code (cop c0mov) = 0x52
