-- ===== src/Exec/Shift.antt =====
-- Shifts and rotations: the cases `OPC_ROLI` to `OPC_ROR` of `run_loop` (simulator/cpu.c).
-- A shift by 32 or more is a fault; so is a rotation by 0, which shifts by 32 - 0.
use cvm.Base.{ℕ, ◌-◌, ◌/◌, ◌^◌, ◌&&◌, bit_and, bit_or, ltb, if◌then◌else◌}
use cvm.Base.Word.{shl32, shr32, is_neg}
use cvm.Outcome.{Result, ok, ◌>>=◌, check, bad_shift}
use cvm.Cpu.{Cpu, set_reg}
use cvm.Cpu.Opcode.{ShiftOp, roli, rori, sra, shl, shr, srav, shlv, shrv, rol, ror}
use cvm.Cpu.Decode.{Fields}

-- `ROL32` and `ROR32`
unfoldable pub rol32 : ℕ → ℕ → Result ℕ
rol32 x n = check (ltb 0 n && ltb n 32) bad_shift (ok (bit_or (shl32 x n) (shr32 x (32 - n))))

unfoldable pub ror32 : ℕ → ℕ → Result ℕ
ror32 x n = check (ltb 0 n && ltb n 32) bad_shift (ok (bit_or (shr32 x n) (shl32 x (32 - n))))

-- `>>` on an `int` copies the sign.
abbrev pub sar32 : ℕ → ℕ → ℕ
sar32 x n = if is_neg x then 2 ^ 32 - 1 - (2 ^ 32 - 1 - x) / 2 ^ n else x / 2 ^ n

unfoldable pub shift_right_signed : ℕ → ℕ → Result ℕ
shift_right_signed x n = check (ltb n 32) bad_shift (ok (bit_or (bit_and x 0x80000000) (sar32 x n)))

unfoldable pub shift_left : ℕ → ℕ → Result ℕ
shift_left x n = check (ltb n 32) bad_shift (ok (shl32 x n))

unfoldable pub shift_right : ℕ → ℕ → Result ℕ
shift_right x n = check (ltb n 32) bad_shift (ok (shr32 x n))

-- The amount of the immediate forms.
abbrev pub amount : Fields → ℕ
amount f = bit_and f.c12 0xFFF

-- What goes into `ra`.
unfoldable pub shift_value : ShiftOp → Fields → Cpu → Result ℕ
unfolding rol32 ror32 shift_right_signed shift_left shift_right
shift_value roli f c = rol32 (c.regs f.rb) (amount f)
shift_value rori f c = ror32 (c.regs f.rb) (amount f)
shift_value sra f c = shift_right_signed (c.regs f.rb) (amount f)
shift_value shl f c = shift_left (c.regs f.rb) (amount f)
shift_value shr f c = shift_right (c.regs f.rb) (amount f)
shift_value srav f c = shift_right_signed (c.regs f.rb) (c.regs f.rc)
shift_value shlv f c = shift_left (c.regs f.rb) (c.regs f.rc)
shift_value shrv f c = shift_right (c.regs f.rb) (c.regs f.rc)
shift_value rol f c = rol32 (c.regs f.rb) (c.regs f.rc)
shift_value ror f c = ror32 (c.regs f.rb) (c.regs f.rc)

unfoldable pub exec_shift : ShiftOp → Fields → Cpu → Result Cpu
unfolding shift_value
exec_shift o f c = do v ← shift_value o f c; ok (set_reg c f.ra v)
