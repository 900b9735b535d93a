-- ===== src/Exec/Laws/Compare.antt =====
-- `OPC_CMP` followed by one of the six jumps on its flags.
use cvm.Base.{ℕ, ◌+◌, ◌^◌, ◌≤◌, ◌<◌, ◌≡◌, refl, ◌⊎◌, Bool, true, false, not, ◌&&◌, arith, ◌==◌}
use cvm.Base.Int.{ℤ, pos_part, neg_part, ltb_ℤ, leb_ℤ}
use cvm.Base.Word.{sub32, is_neg, signed}
use cvm.Cpu.{Cpu, IsCpu}
use cvm.Cpu.Flags.{
  shift_n, shift_z, get_flag, set_flag, clear_flag, get_flag_lem, set_n_digits, set_z_digits,
  clear_n_digits, clear_z_digits,
}
use cvm.Cpu.Opcode.{cmp, JumpOp, jeq, jne, jlt, jgt, jle, jge, jmp, jalr, jsub, jr_ret}
use cvm.Cpu.Decode.{Fields}
use cvm.Exec.Arith.{cmp_flags, exec_arith}
use cvm.Exec.Jump.{taken}

-- The flags are the sign and the zeroness of the difference.
n_of_cmp : (t : ℕ) (c : Cpu) → get_flag shift_n (cmp_flags t c) ≡ is_neg t
unfolding cmp_flags
n_of_cmp t c = ground (
  arith,
  get_flag_lem shift_n (cmp_flags t c),
  clear_n_digits c,
  clear_z_digits (clear_flag shift_n c),
  set_n_digits c,
  clear_z_digits (set_flag shift_n c),
  set_z_digits (clear_flag shift_n c),
)

z_of_cmp : (t : ℕ) (c : Cpu) → get_flag shift_z (cmp_flags t c) ≡ (t == 0)
unfolding cmp_flags
z_of_cmp t c = ground (
  arith,
  get_flag_lem shift_z (cmp_flags t c),
  clear_z_digits (clear_flag shift_n c),
  clear_z_digits (set_flag shift_n c),
  set_z_digits (clear_flag shift_n c),
)

-- The comparison that each jump is named for; the jumps without a test always hold.
abbrev pub holds : JumpOp → ℤ → ℤ → Bool
holds jeq a b = leb_ℤ a b && leb_ℤ b a
holds jne a b = not (leb_ℤ a b && leb_ℤ b a)
holds jlt a b = ltb_ℤ a b
holds jgt a b = ltb_ℤ b a
holds jle a b = leb_ℤ a b
holds jge a b = leb_ℤ b a
holds _ a b = true

-- The difference of the two numbers is itself an `int`.
abbrev pub NoOverflow : ℤ → ℤ → Type 0
NoOverflow a b =
    (pos_part a + neg_part b < pos_part b + neg_part a + 2 ^ 31)
    × (pos_part b + neg_part a ≤ pos_part a + neg_part b + 2 ^ 31)

module _ (a b : ℕ) (ha : a < 2 ^ 32) (hb : b < 2 ^ 32) where
  neg-sub32 : NoOverflow (signed a) (signed b) → is_neg (sub32 a b) ≡ ltb_ℤ (signed a) (signed b)
  neg-sub32 fits = ground arith

  zero-sub32 : (sub32 a b == 0) ≡ (leb_ℤ (signed a) (signed b) && leb_ℤ (signed b) (signed a))
  zero-sub32 = ground arith

-- After `OPC_CMP` on two registers whose difference does not overflow, each jump is taken exactly
-- when the signed comparison that it is named for holds of the registers.
pub taken-cmp :
    (o : JumpOp) (f : Fields) (c : Cpu)
    → IsCpu c
    → NoOverflow (signed (c.regs f.ra)) (signed (c.regs f.rb))
    → taken o (exec_arith cmp f c) ≡ holds o (signed (c.regs f.ra)) (signed (c.regs f.rb))
unfolding exec_arith taken
taken-cmp jeq f c h fits = ground (
  arith,
  n_of_cmp (sub32 (c.regs f.ra) (c.regs f.rb)) c,
  z_of_cmp (sub32 (c.regs f.ra) (c.regs f.rb)) c,
  h.regs_fit f.ra,
  h.regs_fit f.rb,
  neg-sub32 (c.regs f.ra) (c.regs f.rb),
  zero-sub32 (c.regs f.ra) (c.regs f.rb),
)
taken-cmp jne f c h fits = ground (
  arith,
  n_of_cmp (sub32 (c.regs f.ra) (c.regs f.rb)) c,
  z_of_cmp (sub32 (c.regs f.ra) (c.regs f.rb)) c,
  h.regs_fit f.ra,
  h.regs_fit f.rb,
  neg-sub32 (c.regs f.ra) (c.regs f.rb),
  zero-sub32 (c.regs f.ra) (c.regs f.rb),
)
taken-cmp jlt f c h fits = ground (
  arith,
  n_of_cmp (sub32 (c.regs f.ra) (c.regs f.rb)) c,
  z_of_cmp (sub32 (c.regs f.ra) (c.regs f.rb)) c,
  h.regs_fit f.ra,
  h.regs_fit f.rb,
  neg-sub32 (c.regs f.ra) (c.regs f.rb),
  zero-sub32 (c.regs f.ra) (c.regs f.rb),
)
taken-cmp jgt f c h fits = ground (
  arith,
  n_of_cmp (sub32 (c.regs f.ra) (c.regs f.rb)) c,
  z_of_cmp (sub32 (c.regs f.ra) (c.regs f.rb)) c,
  h.regs_fit f.ra,
  h.regs_fit f.rb,
  neg-sub32 (c.regs f.ra) (c.regs f.rb),
  zero-sub32 (c.regs f.ra) (c.regs f.rb),
)
taken-cmp jle f c h fits = ground (
  arith,
  n_of_cmp (sub32 (c.regs f.ra) (c.regs f.rb)) c,
  z_of_cmp (sub32 (c.regs f.ra) (c.regs f.rb)) c,
  h.regs_fit f.ra,
  h.regs_fit f.rb,
  neg-sub32 (c.regs f.ra) (c.regs f.rb),
  zero-sub32 (c.regs f.ra) (c.regs f.rb),
)
taken-cmp jge f c h fits = ground (
  arith,
  n_of_cmp (sub32 (c.regs f.ra) (c.regs f.rb)) c,
  z_of_cmp (sub32 (c.regs f.ra) (c.regs f.rb)) c,
  h.regs_fit f.ra,
  h.regs_fit f.rb,
  neg-sub32 (c.regs f.ra) (c.regs f.rb),
  zero-sub32 (c.regs f.ra) (c.regs f.rb),
)
taken-cmp jmp f c h fits = refl
taken-cmp jalr f c h fits = refl
taken-cmp jsub f c h fits = refl
taken-cmp jr_ret f c h fits = refl

-- The difference of the two numbers is no `int`.
abbrev pub Overflows : ℤ → ℤ → Type 0
Overflows a b =
    (pos_part b + neg_part a + 2 ^ 31 ≤ pos_part a + neg_part b)
    ⊎ (pos_part a + neg_part b + 2 ^ 31 < pos_part b + neg_part a)

neg-sub32_overflow :
    (a b : ℕ)
    → a < 2 ^ 32
    → b < 2 ^ 32
    → Overflows (signed a) (signed b)
    → (is_neg (sub32 a b) ≡ not (ltb_ℤ (signed a) (signed b))) × ((sub32 a b == 0) ≡ false)
neg-sub32_overflow a b ha hb o = (ground arith, ground arith)

and-true : (b : Bool) → (b && true) ≡ b
and-true true = refl
and-true false = refl

-- After `OPC_CMP` on two registers whose difference overflows, `OPC_JLT` is taken exactly when the
-- first is not less than the second, and `OPC_JGE` exactly when it is less.
pub taken-cmp_overflow :
    (f : Fields) (c : Cpu)
    → IsCpu c
    → Overflows (signed (c.regs f.ra)) (signed (c.regs f.rb))
    → (taken jlt (exec_arith cmp f c) ≡ not (ltb_ℤ (signed (c.regs f.ra)) (signed (c.regs f.rb))))
      × (taken jge (exec_arith cmp f c) ≡ ltb_ℤ (signed (c.regs f.ra)) (signed (c.regs f.rb)))
unfolding exec_arith taken
taken-cmp_overflow f c h o =
    let facts = neg-sub32_overflow _ _ (h.regs_fit f.ra) (h.regs_fit f.rb) o in
    let n = n_of_cmp (sub32 (c.regs f.ra) (c.regs f.rb)) c in
    let z = z_of_cmp (sub32 (c.regs f.ra) (c.regs f.rb)) c in
    (rw (n, z, facts.0, facts.1) (and-true _), rw (n, z, facts.0, facts.1) (ground arith))
