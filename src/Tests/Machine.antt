-- ===== src/Tests/Machine.antt =====
-- Single instructions.
use cvm.Mem.{set_byte, set_half, set_word}
use cvm.Exec.Imm.{exec_imm}
use cvm.Cpu.Opcode.{
  lb, lbu, sb, lh, lhu, sh, mult, lui, ori, ld, st, cmp, add, mul, clz, clo, jlt, jge, div,
}
use cvm.Exec.Laws.Constants.{lui-ori}
use cvm.Exec.Laws.Divide.{mult_lem, IsDivision, div_lem}
use cvm.Exec.Laws.Transfers.{lb-sb, lh-sh, ld-st}
use cvm.Base.{ℕ, ◌-◌, ◌^◌, ◌≡◌, refl, arith, inr, true, false, []}
use cvm.Outcome.{ok, ◌>>=◌}
use cvm.Cpu.{Cpu, set_reg}
use cvm.Cpu.Flags.{shift_v, set_flag}
use cvm.Cpu.Decode.{decode, decode_lem}
use cvm.Vm.{Vm, set_cpu, set_mem}
use cvm.Exec.Transfer.{exec_mem}
use cvm.Exec.Arith.{exec_arith}
use cvm.Exec.HiLo.{exec_hilo, set_hi_lo}
use cvm.Exec.Jump.{taken}
use cvm.Exec.Laws.Compare.{taken-cmp, taken-cmp_overflow}
use cvm.Exec.Laws.Count.{clz-clo_lem, add-mul_lem}
use cvm.Tests.Samples.{sample_cpu, sample_cpu-IsCpu, fields, vm_of}

abbrev vm : Vm
vm = vm_of []

decode_lem_example :
    decode 0x0123FFFE
    ≡ record { op = 1; ra = 2; rb = 3; rc = 15; c12 = 2 ^ 32 - 2; c16 = 2 ^ 32 - 2; c24 = 0x23FFFE }
decode_lem_example = decode_lem 0x0123FFFE

taken-cmp_example : taken jlt (exec_arith cmp (fields 1 2 0) sample_cpu) ≡ true
taken-cmp_example =
    taken-cmp jlt (fields 1 2 0) sample_cpu sample_cpu-IsCpu (omega arith, omega arith)

abbrev far_cpu : Cpu
far_cpu = set_reg sample_cpu 1 (2 ^ 31)

taken-cmp_overflow_example :
    (taken jlt (exec_arith cmp (fields 1 2 0) far_cpu) ≡ false)
    × (taken jge (exec_arith cmp (fields 1 2 0) far_cpu) ≡ true)
taken-cmp_overflow_example =
    taken-cmp_overflow (fields 1 2 0) far_cpu
      (record {
        regs_fit = λ i. ground (arith, sample_cpu-IsCpu.regs_fit i);
        cop_fit = sample_cpu-IsCpu.cop_fit;
      })
      (inr (omega arith))

div_lem_example :
    (q : ℕ) × (r : ℕ) × (exec_hilo div (fields 4 1 0) sample_cpu ≡ ok (set_hi_lo sample_cpu r q))
    × IsDivision 96 (2 ^ 32 - 2) q r
div_lem_example = div_lem (fields 4 1 0) sample_cpu sample_cpu-IsCpu refl

clz-clo_lem_example :
    (exec_arith clz (fields 6 2 0) sample_cpu ≡ set_reg sample_cpu 6 0)
    × (exec_arith clo (fields 6 2 0) sample_cpu ≡ set_reg sample_cpu 6 1)
clz-clo_lem_example = clz-clo_lem (fields 6 2 0) sample_cpu

-- -2 + 3 = 1 and -2 * 3 = -6
add-mul_lem_example :
    (exec_arith add (fields 6 1 0) sample_cpu ≡ set_reg sample_cpu 6 1)
    × (exec_arith mul (fields 6 1 0) sample_cpu
        ≡ set_reg (set_flag shift_v sample_cpu) 6 (2 ^ 32 - 6))
add-mul_lem_example = add-mul_lem (fields 6 1 0) sample_cpu

ld-st_example :
    (exec_mem st (fields 1 4 8) vm >>= exec_mem ld (fields 7 4 8))
    ≡ ok (set_cpu (set_mem vm (set_word vm.mem 104 (2 ^ 32 - 2))) (set_reg vm.cpu 7 (2 ^ 32 - 2)))
ld-st_example =
    ld-st (fields 1 4 8) (fields 7 4 8) vm sample_cpu-IsCpu 104 refl refl refl (omega arith)

lb-sb_example :
    let vm' = set_mem vm (set_byte vm.mem 104 0xFE) in
    ((exec_mem sb (fields 1 4 8) vm >>= exec_mem lbu (fields 7 4 8))
      ≡ ok (set_cpu vm' (set_reg vm.cpu 7 0xFE)))
    × ((exec_mem sb (fields 1 4 8) vm >>= exec_mem lb (fields 7 4 8))
        ≡ ok (set_cpu vm' (set_reg vm.cpu 7 (2 ^ 32 - 2))))
lb-sb_example =
    lb-sb (fields 1 4 8) (fields 7 4 8) vm sample_cpu-IsCpu 104 refl refl refl (omega arith)

lh-sh_example :
    let vm' = set_mem vm (set_half vm.mem 104 0xFFFE) in
    ((exec_mem sh (fields 1 4 8) vm >>= exec_mem lhu (fields 7 4 8))
      ≡ ok (set_cpu vm' (set_reg vm.cpu 7 0xFFFE)))
    × ((exec_mem sh (fields 1 4 8) vm >>= exec_mem lh (fields 7 4 8))
        ≡ ok (set_cpu vm' (set_reg vm.cpu 7 (2 ^ 32 - 2))))
lh-sh_example =
    lh-sh (fields 1 4 8) (fields 7 4 8) vm sample_cpu-IsCpu 104 refl refl refl (omega arith)

mult_lem_example :
    exec_hilo mult (fields 1 2 0) sample_cpu ≡ ok (set_hi_lo sample_cpu (2 ^ 32 - 1) (2 ^ 32 - 10))
mult_lem_example = mult_lem (fields 1 2 0) sample_cpu

-- Register 6 gets 0x8765F321, both halves of which are negative as 16-bit numbers.
lui-ori_example :
    (exec_imm ori (fields 6 6 0xFFFFF321) (exec_imm lui (fields 6 0 0xFFFF8765) sample_cpu)).regs 6
    ≡ 0x8765F321
lui-ori_example =
    lui-ori (fields 6 0 0xFFFF8765) (fields 6 6 0xFFFFF321) sample_cpu 0x8765F321 (omega arith) refl
      refl refl
