-- ===== src/Exec/Laws/Count.antt =====
-- `OPC_CLZ`, `OPC_CLO`, and the overflow flag of `OPC_ADD` and `OPC_MUL`.
use cvm.Base.Word.{widen, add32, mul32, shl32, is_neg}
use cvm.Base.{ℕ, zero, suc, ◌+◌, ◌%◌, ◌^◌, ◌<◌, ◌≡◌, refl, ◌∙◌, ap, ap₂, arith, ltb, if◌then◌else◌}
use cvm.Base.Bits.{bit_and-zero, bit_and_mask}
use cvm.Cpu.{Cpu, set_reg}
use cvm.Cpu.Flags.{shift_v, set_flag}
use cvm.Cpu.Opcode.{add, mul, clz, clo}
use cvm.Cpu.Decode.{Fields}
use cvm.Exec.Arith.{count_loop, set_wide, exec_arith}

count_loop-zero : (left i n : ℕ) → count_loop left 0 i n ≡ i
unfolding count_loop
count_loop-zero zero i n = refl
count_loop-zero (suc left) i n = ground (arith, bit_and-zero n)

-- A doubled number has no lowest bit, so the loop stops at once after one round.
count_loop_even : (left i n : ℕ) → n % 2 ≡ 0 → count_loop left 1 i n ≡ i
unfolding count_loop
count_loop_even zero i n h = refl
count_loop_even (suc left) i n h = ground (arith, bit_and_mask 1 n)

count_loop_one : (left i n : ℕ) → count_loop (suc left) 1 i n ≡ i + n % 2
unfolding count_loop
count_loop_one left i n = ground (arith, bit_and_mask 1 n, count_loop_even left (i + 1) (shl32 n 1))

-- `OPC_CLZ` stores 0 for every operand, and `OPC_CLO` the operand's lowest bit: in both tests
-- `==` binds tighter than `&`, so neither counts leading bits.
pub clz-clo_lem :
    (f : Fields) (c : Cpu)
    → (exec_arith clz f c ≡ set_reg c f.ra 0)
      × (exec_arith clo f c ≡ set_reg c f.ra (c.regs f.rb % 2))
unfolding exec_arith
clz-clo_lem f c = (
  ap (set_reg c f.ra) (count_loop-zero 32 0 (c.regs f.rb)),
  ap (set_reg c f.ra) (count_loop_one 31 0 (c.regs f.rb) ∙ omega arith),
)

set_wide-widen :
    (ra s : ℕ) (c : Cpu)
    → s < 2 ^ 32
    → set_wide ra (widen s) c ≡ set_reg (if is_neg s then set_flag shift_v c else c) ra s
unfolding set_wide
set_wide-widen ra s c h =
    ap₂ (λ b v. set_reg (if b then set_flag shift_v c else c) ra v) {x = ltb 0xFFFFFFFF (widen s)}
      {y = is_neg s} (ground arith) (bit_and_mask 32 (widen s) ∙ ground arith)

-- `OPC_ADD` and `OPC_MUL` store the result modulo `2 ^ 32`, and set the overflow flag exactly when
-- the stored result is negative, whether or not it overflowed.
pub add-mul_lem :
    (f : Fields) (c : Cpu)
    → let s = add32 (c.regs f.rb) (c.regs f.rc) in
      let p = mul32 (c.regs f.rb) (c.regs f.rc) in
      (exec_arith add f c ≡ set_reg (if is_neg s then set_flag shift_v c else c) f.ra s)
      × (exec_arith mul f c ≡ set_reg (if is_neg p then set_flag shift_v c else c) f.ra p)
unfolding exec_arith
add-mul_lem f c = (set_wide-widen f.ra _ c (omega arith), set_wide-widen f.ra _ c (omega arith))
