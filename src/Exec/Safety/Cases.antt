-- ===== src/Exec/Safety/Cases.antt =====
-- The groups of cases of the `switch`, one lemma each.
use cvm.Base.Word.{widen, mul32, shr32, is_neg}
use native.Mathlib.Nat.{div-le_self, mod-le}
use cvm.Base.{ℕ, ◌-◌, ◌/◌, ◌%◌, ◌^◌, ◌<◌, ◌≡◌, refl, Bool, true, false, arith}
use cvm.Base.Bits.{bit_and_mask, bit_and-lt, bit_or-lt}
use cvm.Outcome.{Ensures, returns, Ensures-bind, Ensures-check}
use cvm.Cpu.{Cpu, hi, lo, set_cop, IsCpu, set_reg-IsCpu, set_cop-IsCpu}
use cvm.Cpu.Opcode.{
  ShiftOp, roli, rori, sra, shl, shr, srav, shlv, shrv, rol, ror, HiLoOp, mult, multu, div, divu,
  mfhi, mflo, mthi, mtlo, CopOp, mfc0, mtc0, c0mov,
}
use cvm.Cpu.Decode.{Fields}
use cvm.Vm.{Vm, set_cpu, IsVm, set_cpu-IsVm}
use cvm.Exec.Shift.{
  rol32, ror32, sar32, shift_right_signed, shift_left, shift_right, shift_value, exec_shift,
}
use cvm.Exec.HiLo.{set_hi_lo, differ, negate_if, magnitude, quotient, remainder, exec_hilo}
use cvm.Exec.Cop.{exec_cop}

-- `vm'` is well formed, and has the block, the symbols and the stack size of `vm`.
pub record Kept (vm vm' : Vm) : Type 0 where
  pub is_vm : IsVm vm'
  pub same_start : vm'.mem.start ≡ vm.mem.start
  pub same_end : vm'.mem.end ≡ vm.mem.end
  pub same_elf : vm'.elf ≡ vm.elf
  pub same_stack : vm'.stack_size ≡ vm.stack_size

pub Kept-set_cpu : (vm : Vm) (c : Cpu) → IsVm vm → IsCpu c → Kept vm (set_cpu vm c)
Kept-set_cpu vm c h hc = record {
  is_vm = set_cpu-IsVm vm c h hc;
  same_start = refl;
  same_end = refl;
  same_elf = refl;
  same_stack = refl;
}

module _ (x n : ℕ) (hx : x < 2 ^ 32) where
  shr32-lt : (k : ℕ) → shr32 x k < 2 ^ 32
  shr32-lt k = omega (arith, div-le_self x (2 ^ k))

  rol32-lt : Ensures (λ v. v < 2 ^ 32) (rol32 x n)
  unfolding rol32
  rol32-lt = Ensures-check _ _ _ (bit_or-lt 32 _ _ (omega arith) (shr32-lt (32 - n)))

  ror32-lt : Ensures (λ v. v < 2 ^ 32) (ror32 x n)
  unfolding ror32
  ror32-lt = Ensures-check _ _ _ (bit_or-lt 32 _ _ (shr32-lt n) (omega arith))

  sar32-lt : sar32 x n < 2 ^ 32
  sar32-lt = ground (arith, shr32-lt n)

  shift_right_signed-lt : Ensures (λ v. v < 2 ^ 32) (shift_right_signed x n)
  unfolding shift_right_signed
  shift_right_signed-lt =
      Ensures-check _ _ _ (bit_or-lt 32 _ _ (bit_and-lt 32 x 0x80000000 hx (omega arith)) sar32-lt)

  shift_left-lt : Ensures (λ v. v < 2 ^ 32) (shift_left x n)
  unfolding shift_left
  shift_left-lt = Ensures-check _ _ _ (omega arith)

  shift_right-lt : Ensures (λ v. v < 2 ^ 32) (shift_right x n)
  unfolding shift_right
  shift_right-lt = Ensures-check _ _ _ (shr32-lt n)

magnitude-lt : (a : ℕ) → a < 2 ^ 32 → magnitude a < 2 ^ 32
magnitude-lt a h = ground arith

negate_if-lt : (b : Bool) (q : ℕ) → q < 2 ^ 32 → negate_if b q < 2 ^ 32
negate_if-lt true q h = omega arith
negate_if-lt false q h = h

quotient-lt : (a b : ℕ) → a < 2 ^ 32 → quotient a b < 2 ^ 32
unfolding quotient
quotient-lt a b h =
    negate_if-lt (differ (is_neg a) (is_neg b)) (magnitude a / magnitude b)
      (omega (arith, magnitude-lt a h, div-le_self (magnitude a) (magnitude b)))

remainder-lt : (a b : ℕ) → a < 2 ^ 32 → remainder a b < 2 ^ 32
unfolding remainder
remainder-lt a b h =
    negate_if-lt (is_neg a) (magnitude a % magnitude b)
      (omega (arith, magnitude-lt a h, mod-le (magnitude a) (magnitude b)))

module _ (f : Fields) (c : Cpu) (h : IsCpu c) where
  shift_value-lt : (o : ShiftOp) → Ensures (λ v. v < 2 ^ 32) (shift_value o f c)
  unfolding shift_value
  shift_value-lt roli = rol32-lt _ _ (h.regs_fit f.rb)
  shift_value-lt rori = ror32-lt _ _ (h.regs_fit f.rb)
  shift_value-lt sra = shift_right_signed-lt _ _ (h.regs_fit f.rb)
  shift_value-lt shl = shift_left-lt _ _ (h.regs_fit f.rb)
  shift_value-lt shr = shift_right-lt _ _ (h.regs_fit f.rb)
  shift_value-lt srav = shift_right_signed-lt _ _ (h.regs_fit f.rb)
  shift_value-lt shlv = shift_left-lt _ _ (h.regs_fit f.rb)
  shift_value-lt shrv = shift_right-lt _ _ (h.regs_fit f.rb)
  shift_value-lt rol = rol32-lt _ _ (h.regs_fit f.rb)
  shift_value-lt ror = ror32-lt _ _ (h.regs_fit f.rb)

  pub exec_shift-IsCpu : (o : ShiftOp) → Ensures IsCpu (exec_shift o f c)
  unfolding exec_shift
  exec_shift-IsCpu o =
      Ensures-bind (shift_value-lt o) (λ v hv. returns (set_reg-IsCpu c f.ra v h hv))

  set_hi_lo-IsCpu : (a b : ℕ) → a < 2 ^ 32 → b < 2 ^ 32 → IsCpu (set_hi_lo c a b)
  set_hi_lo-IsCpu a b ha hb = set_cop-IsCpu (set_cop c hi a) lo b (set_cop-IsCpu c hi a h ha) hb

  pub exec_cop-IsCpu : (o : CopOp) → Ensures IsCpu (exec_cop o f c)
  unfolding exec_cop
  exec_cop-IsCpu mfc0 = Ensures-check _ _ _ (set_reg-IsCpu c f.ra _ h (h.cop_fit f.rb))
  exec_cop-IsCpu mtc0 = Ensures-check _ _ _ (set_cop-IsCpu c f.ra _ h (h.regs_fit f.rb))
  exec_cop-IsCpu c0mov = Ensures-check _ _ _ (set_cop-IsCpu c f.ra _ h (h.regs_fit f.rb))

  pub exec_hilo-IsCpu : (o : HiLoOp) → Ensures IsCpu (exec_hilo o f c)
  unfolding exec_hilo quotient remainder
  exec_hilo-IsCpu mult = returns (
      set_hi_lo-IsCpu _ _ (omega arith)
        (omega (arith, bit_and_mask 32 (widen (mul32 (c.regs f.ra) (c.regs f.rb))))))
  exec_hilo-IsCpu multu = returns (
      set_hi_lo-IsCpu _ _ (omega arith)
        (omega (arith, bit_and_mask 32 (mul32 (c.regs f.ra) (c.regs f.rb)))))
  exec_hilo-IsCpu div = Ensures-check _ _ _ (
      set_hi_lo-IsCpu _ _ (remainder-lt (c.regs f.ra) (c.regs f.rb) (h.regs_fit f.ra))
        (quotient-lt (c.regs f.ra) (c.regs f.rb) (h.regs_fit f.ra)))
  exec_hilo-IsCpu divu = Ensures-check _ _ _ (
      set_hi_lo-IsCpu _ _ (omega (arith, h.regs_fit f.ra, mod-le (c.regs f.ra) (c.regs f.rb)))
        (omega (arith, h.regs_fit f.ra, div-le_self (c.regs f.ra) (c.regs f.rb))))
  exec_hilo-IsCpu mfhi = returns (set_reg-IsCpu c f.ra _ h (h.cop_fit hi))
  exec_hilo-IsCpu mflo = returns (set_reg-IsCpu c f.ra _ h (h.cop_fit lo))
  exec_hilo-IsCpu mthi = returns (set_cop-IsCpu c hi _ h (h.regs_fit f.ra))
  exec_hilo-IsCpu mtlo = returns (set_cop-IsCpu c lo _ h (h.regs_fit f.rb))
