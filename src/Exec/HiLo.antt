-- ===== src/Exec/HiLo.antt =====
-- Products and quotients into `hi` and `lo`, and the moves from and to them: the cases
-- `OPC_MULT` to `OPC_MTLO` of `run_loop` (simulator/cpu.c).
use cvm.Base.Word.{widen, u32, mul32, is_neg}
use cvm.Base.{ℕ, ◌-◌, ◌/◌, ◌%◌, ◌^◌, Bool, true, not, ◌&&◌, bit_and, ◌==◌, if◌then◌else◌}
use cvm.Outcome.{Result, ok, check, bad_division}
use cvm.Cpu.{Cpu, hi, lo, set_reg, set_cop}
use cvm.Cpu.Opcode.{HiLoOp, mult, multu, div, divu, mfhi, mflo, mthi, mtlo}
use cvm.Cpu.Decode.{Fields}

abbrev pub set_hi_lo : Cpu → ℕ → ℕ → Cpu
set_hi_lo c h l = set_cop (set_cop c hi h) lo l

abbrev pub magnitude : ℕ → ℕ
magnitude x = if is_neg x then 2 ^ 32 - x else x

abbrev pub negate_if : Bool → ℕ → ℕ
negate_if b x = if b then u32 (2 ^ 32 - x) else x

abbrev pub differ : Bool → Bool → Bool
differ true b = not b
differ _ b = b

-- `a / b` and `a % b` on `int`: towards zero, the remainder with the sign of `a`.
unfoldable pub quotient : ℕ → ℕ → ℕ
quotient a b = negate_if (differ (is_neg a) (is_neg b)) (magnitude a / magnitude b)

unfoldable pub remainder : ℕ → ℕ → ℕ
remainder a b = negate_if (is_neg a) (magnitude a % magnitude b)

-- The divisions that the host's processor carries out.
abbrev pub divides : ℕ → ℕ → Bool
divides a b = not (b == 0) && not ((a == 2 ^ 31) && (b == 2 ^ 32 - 1))

unfoldable pub exec_hilo : HiLoOp → Fields → Cpu → Result Cpu
exec_hilo mult f c =
    let t = widen (mul32 (c.regs f.ra) (c.regs f.rb)) in
    ok (set_hi_lo c (u32 (t / 2 ^ 32)) (bit_and t 0xFFFFFFFF))
exec_hilo multu f c =
    let t = mul32 (c.regs f.ra) (c.regs f.rb) in
    ok (set_hi_lo c (t / 2 ^ 32) (bit_and t 0xFFFFFFFF))
exec_hilo div f c =
    let a = c.regs f.ra in
    let b = c.regs f.rb in
    check (divides a b) bad_division (ok (set_hi_lo c (remainder a b) (quotient a b)))
exec_hilo divu f c =
    let a = c.regs f.ra in
    let b = c.regs f.rb in check (not (b == 0)) bad_division (ok (set_hi_lo c (a % b) (a / b)))
exec_hilo mfhi f c = ok (set_reg c f.ra (c.cop hi))
exec_hilo mflo f c = ok (set_reg c f.ra (c.cop lo))
exec_hilo mthi f c = ok (set_cop c hi (c.regs f.ra))
exec_hilo mtlo f c = ok (set_cop c lo (c.regs f.rb))
