-- ===== src/Cpu/Decode.antt =====
-- The fields of an instruction word (simulator/inst.h) and the sign extensions at the head of
-- the loop in simulator/cpu.c.
use cvm.Base.{
  ℕ, ◌+◌, ◌-◌, ◌/◌, ◌%◌, ◌^◌, ◌<◌, ◌≡◌, bit_and, bit_or, arith, ltb, ◌==◌, if◌then◌else◌,
}
use cvm.Base.Bits.{bit_and_mask, bit_and_bit, bit_or_fields_right}
use cvm.Base.Word.{shr32}

-- `op ra rb rc c12 c16 c24`; the three constants are sign-extended to 32-bit patterns.
pub record Fields : Type 0 where
  pub op : ℕ
  pub ra : ℕ
  pub rb : ℕ
  pub rc : ℕ
  pub c12 : ℕ
  pub c16 : ℕ
  pub c24 : ℕ

-- `(x & (1 << s)) ? x | ext : x`
extend : ℕ → ℕ → ℕ → ℕ
extend s ext x = if bit_and x (2 ^ s) == 0 then x else bit_or x ext

unfoldable pub decode : ℕ → Fields
unfolding extend
decode inst = record {
  op = shr32 inst 24;
  ra = bit_and (shr32 inst 20) 0xF;
  rb = bit_and (shr32 inst 16) 0xF;
  rc = bit_and (shr32 inst 12) 0xF;
  c12 = extend 11 0xFFFFF000 (bit_and inst 0xFFF);
  c16 = extend 15 0xFFFF0000 (bit_and inst 0xFFFF);
  c24 = extend 23 0xFF000000 (bit_and inst 0xFFFFFF);
}

-- Sign extension of a `k`-bit number, as arithmetic.
abbrev pub sext : ℕ → ℕ → ℕ
sext k x = if ltb x (2 ^ (k - 1)) then x else x + (2 ^ 32 - 2 ^ k)

extend-sext_12 : (x : ℕ) → x < 2 ^ 12 → extend 11 0xFFFFF000 x ≡ sext 12 x
unfolding extend
extend-sext_12 x h = ground (arith, bit_and_bit 11 x, bit_or_fields_right 12 0xFFFFF x)

extend-sext_16 : (x : ℕ) → x < 2 ^ 16 → extend 15 0xFFFF0000 x ≡ sext 16 x
unfolding extend
extend-sext_16 x h = ground (arith, bit_and_bit 15 x, bit_or_fields_right 16 0xFFFF x)

extend-sext_24 : (x : ℕ) → x < 2 ^ 24 → extend 23 0xFF000000 x ≡ sext 24 x
unfolding extend
extend-sext_24 x h = ground (arith, bit_and_bit 23 x, bit_or_fields_right 24 0xFF x)

-- The fields of every instruction word as arithmetic: quotients and remainders by powers of two,
-- and for the three constants the sign extension of 12, 16 or 24 bits.
pub decode_lem :
    (w : ℕ)
    → decode w ≡ record {
      op = w / 2 ^ 24;
      ra = w / 2 ^ 20 % 2 ^ 4;
      rb = w / 2 ^ 16 % 2 ^ 4;
      rc = w / 2 ^ 12 % 2 ^ 4;
      c12 = sext 12 (w % 2 ^ 12);
      c16 = sext 16 (w % 2 ^ 16);
      c24 = sext 24 (w % 2 ^ 24);
    }
unfolding decode
decode_lem w = ground (
  arith,
  bit_and_mask 4 (w / 2 ^ 20),
  bit_and_mask 4 (w / 2 ^ 16),
  bit_and_mask 4 (w / 2 ^ 12),
  bit_and_mask 12 w,
  bit_and_mask 16 w,
  bit_and_mask 24 w,
  extend-sext_12 (w % 2 ^ 12),
  extend-sext_16 (w % 2 ^ 16),
  extend-sext_24 (w % 2 ^ 24),
)
