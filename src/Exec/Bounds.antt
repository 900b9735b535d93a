-- ===== src/Exec/Bounds.antt =====
-- The cases of the `switch` that work on registers alone keep every register a 32-bit pattern.
use cvm.Base.{
  ℕ, zero, suc, ◌+◌, ◌^◌, ◌≤◌, ◌<◌, inl, inr, Bool, Bool-cases, true, false, bit_and, ◌==◌, not,
  ◌&&◌, ltb, if◌then◌else◌, arith,
}
use cvm.Base.Bits.{bit_and_mask, bit_and-lt, bit_or-lt, bit_xor-lt}
use cvm.Base.Word.{shl32, is_neg}
use cvm.Cpu.{Cpu, IsCpu, set_reg-IsCpu}
use cvm.Cpu.Flags.{shift_n, shift_z, shift_v, set_flag-IsCpu, clear_flag-IsCpu}
use cvm.Cpu.Opcode.{
  ImmOp, addiu, movz, movn, andi, ori, xori, lui, slti, sltiu, slt, sltu, ArithOp, cmp, add, addu,
  sub, clz, clo, subu, mul, and, or, xor,
}
use cvm.Cpu.Decode.{Fields}
use cvm.Exec.Imm.{exec_imm, truth}
use cvm.Exec.Arith.{equal, cmp_flags, set_wide, count_loop, exec_arith}

truth-lt : (b : Bool) → truth b < 2 ^ 32
truth-lt true = omega arith
truth-lt false = omega arith

module _ (c : Cpu) (h : IsCpu c) where
  low_half-lt : (x : ℕ) → x < 2 ^ 32 → bit_and x 0xFFFF < 2 ^ 32
  low_half-lt x hx = bit_and-lt 32 x 0xFFFF hx (omega arith)

  pub exec_imm-IsCpu : (o : ImmOp) (f : Fields) → f.c16 < 2 ^ 32 → IsCpu (exec_imm o f c)
  unfolding exec_imm
  exec_imm-IsCpu addiu f hf = set_reg-IsCpu c f.ra _ h (omega arith)
  exec_imm-IsCpu movz f hf = elim (Bool-cases (c.regs f.rc == 0)) [
    | inl t ↦ rw t (set_reg-IsCpu c f.ra _ h (h.regs_fit f.rb))
    | inr t ↦ rw t h
  ]
  exec_imm-IsCpu movn f hf = elim (Bool-cases (c.regs f.rc == 0)) [
    | inl t ↦ rw t h
    | inr t ↦ rw t (set_reg-IsCpu c f.ra _ h (h.regs_fit f.rb))
  ]
  exec_imm-IsCpu andi f hf =
      set_reg-IsCpu c f.ra _ h (bit_and-lt 32 _ _ (h.regs_fit f.rb) (low_half-lt f.c16 hf))
  exec_imm-IsCpu ori f hf =
      set_reg-IsCpu c f.ra _ h (bit_or-lt 32 _ _ (h.regs_fit f.rb) (low_half-lt f.c16 hf))
  exec_imm-IsCpu xori f hf =
      set_reg-IsCpu c f.ra _ h (bit_xor-lt 32 _ _ (h.regs_fit f.rb) (low_half-lt f.c16 hf))
  exec_imm-IsCpu lui f hf = set_reg-IsCpu c f.ra _ h (omega arith)
  exec_imm-IsCpu slti f hf = set_reg-IsCpu c f.ra _ h (truth-lt _)
  exec_imm-IsCpu sltiu f hf = set_reg-IsCpu c f.ra _ h (truth-lt _)
  exec_imm-IsCpu slt f hf = set_reg-IsCpu c f.ra _ h (truth-lt _)
  exec_imm-IsCpu sltu f hf = set_reg-IsCpu c f.ra _ h (truth-lt _)

if-IsCpu : (b : Bool) {x y : Cpu} → IsCpu x → IsCpu y → IsCpu (if b then x else y)
if-IsCpu true hx hy = hx
if-IsCpu false hx hy = hy

cmp_flags-IsCpu : (t : ℕ) (c : Cpu) → IsCpu c → IsCpu (cmp_flags t c)
unfolding cmp_flags
cmp_flags-IsCpu t c h =
    let h₁ =
      if-IsCpu (not (is_neg t) && not (t == 0))
        (clear_flag-IsCpu shift_z _ (clear_flag-IsCpu shift_n c h)) h in
    let h₂ =
      if-IsCpu (t == 0) (set_flag-IsCpu shift_z _ (omega arith) (clear_flag-IsCpu shift_n _ h₁))
        h₁ in
    if-IsCpu (is_neg t) (clear_flag-IsCpu shift_z _ (set_flag-IsCpu shift_n _ (omega arith) h₂)) h₂

set_wide-IsCpu : (ra t : ℕ) (c : Cpu) → IsCpu c → IsCpu (set_wide ra t c)
unfolding set_wide
set_wide-IsCpu ra t c h =
    set_reg-IsCpu _ ra _ (if-IsCpu (ltb 0xFFFFFFFF t) (set_flag-IsCpu shift_v c (omega arith) h) h)
      (omega (arith, bit_and_mask 32 t))

count_loop-le : (left mask i n : ℕ) → count_loop left mask i n ≤ i + left
unfolding count_loop
count_loop-le zero mask i n = omega arith
count_loop-le (suc left) mask i n = ground (arith, count_loop-le left mask (i + 1) (shl32 n 1))

pub exec_arith-IsCpu : (o : ArithOp) (f : Fields) (c : Cpu) → IsCpu c → IsCpu (exec_arith o f c)
unfolding exec_arith
exec_arith-IsCpu cmp f c h = cmp_flags-IsCpu _ c h
exec_arith-IsCpu add f c h = set_wide-IsCpu f.ra _ c h
exec_arith-IsCpu addu f c h = set_reg-IsCpu c f.ra _ h (omega arith)
exec_arith-IsCpu sub f c h = set_reg-IsCpu c f.ra _ h (omega arith)
exec_arith-IsCpu clz f c h =
    set_reg-IsCpu c f.ra _ h (omega (arith, count_loop-le 32 (equal 0x80000000 0) 0 (c.regs f.rb)))
exec_arith-IsCpu clo f c h =
    set_reg-IsCpu c f.ra _ h
      (omega (arith, count_loop-le 32 (equal 0x80000000 0x80000000) 0 (c.regs f.rb)))
exec_arith-IsCpu subu f c h = set_reg-IsCpu c f.ra _ h (omega arith)
exec_arith-IsCpu mul f c h = set_wide-IsCpu f.ra _ c h
exec_arith-IsCpu and f c h =
    set_reg-IsCpu c f.ra _ h (bit_and-lt 32 _ _ (h.regs_fit f.rb) (h.regs_fit f.rc))
exec_arith-IsCpu or f c h =
    set_reg-IsCpu c f.ra _ h (bit_or-lt 32 _ _ (h.regs_fit f.rb) (h.regs_fit f.rc))
exec_arith-IsCpu xor f c h =
    set_reg-IsCpu c f.ra _ h (bit_xor-lt 32 _ _ (h.regs_fit f.rb) (h.regs_fit f.rc))
