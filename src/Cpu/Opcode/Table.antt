-- ===== src/Cpu/Opcode/Table.antt =====
-- The choice that the `switch (op)` of `run_loop` makes (simulator/cpu.c).
use cvm.Base.{ℕ, Option, none, some, List, [], ◌∷◌, ◌==◌, if◌then◌else◌}
use cvm.Cpu.Opcode.{
  Opcode, code, ld, st, lb, lbu, sb, lh, lhu, sh, addiu, movz, movn, andi, ori, xori, lui, slti,
  sltiu, slt, sltu, beq, bne, bal, cmp, add, addu, sub, clz, clo, subu, mul, and, or, xor, roli,
  rori, sra, shl, shr, srav, shlv, shrv, rol, ror, jeq, jne, jlt, jgt, jle, jge, jmp, jalr, jsub,
  jr_ret, mult, multu, div, divu, mfhi, mflo, mthi, mtlo, mfc0, mtc0, c0mov, nop, ssc, mem, imm,
  branch, arith_op, shift, jump, hilo, cop,
}

-- The `case` labels, in the order of the source.
all_ops : List Opcode
all_ops =
    nop
    ∷ mem ld
    ∷ mem st
    ∷ mem lb
    ∷ mem lbu
    ∷ mem sb
    ∷ mem lh
    ∷ mem lhu
    ∷ mem sh
    ∷ imm addiu
    ∷ imm movz
    ∷ imm movn
    ∷ imm andi
    ∷ imm ori
    ∷ imm xori
    ∷ imm lui
    ∷ imm slti
    ∷ imm sltiu
    ∷ imm slt
    ∷ imm sltu
    ∷ branch beq
    ∷ branch bne
    ∷ branch bal
    ∷ arith_op cmp
    ∷ arith_op add
    ∷ arith_op addu
    ∷ arith_op sub
    ∷ arith_op clz
    ∷ arith_op clo
    ∷ arith_op subu
    ∷ arith_op mul
    ∷ arith_op and
    ∷ arith_op or
    ∷ arith_op xor
    ∷ shift roli
    ∷ shift rori
    ∷ shift sra
    ∷ shift shl
    ∷ shift shr
    ∷ shift srav
    ∷ shift shlv
    ∷ shift shrv
    ∷ shift rol
    ∷ shift ror
    ∷ jump jeq
    ∷ jump jne
    ∷ jump jlt
    ∷ jump jgt
    ∷ jump jle
    ∷ jump jge
    ∷ jump jmp
    ∷ jump jalr
    ∷ jump jsub
    ∷ jump jr_ret
    ∷ hilo mult
    ∷ hilo multu
    ∷ hilo div
    ∷ hilo divu
    ∷ hilo mfhi
    ∷ hilo mflo
    ∷ hilo mthi
    ∷ hilo mtlo
    ∷ cop mfc0
    ∷ cop mtc0
    ∷ cop c0mov
    ∷ ssc
    ∷ []

find_op : List Opcode → ℕ → Option Opcode
find_op [] op = none
find_op (o ∷ os) op = if op == code o then some o else find_op os op

-- The `case` that `switch (op)` enters; `none` is its `default`.
unfoldable pub opcode_of : ℕ → Option Opcode
unfolding find_op all_ops
opcode_of op = find_op all_ops op
