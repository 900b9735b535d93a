-- ===== src/Exec/Laws/Divide.antt =====
-- What the products and quotients leave in `hi` and `lo`.
use cvm.Base.Word.{widen, mul32, is_neg}
use native.Mathlib.Nat.{mod-lt, div-add-mod, div-le_self, div-lt_self}
use cvm.Base.{
  ℕ, ◌+◌, ◌-◌, ◌*◌, ◌/◌, ◌%◌, ◌^◌, ◌≤◌, ◌<◌, ◌≡◌, refl, ◌≢◌, ◌⊎◌, inl, inr, Bool, true, false,
  Bool-cases, ==_iff, arith, ◌==◌, if◌then◌else◌, ap, ap₂, ◌∙◌,
}
use cvm.Base.Bits.{bit_and_mask}
use cvm.Outcome.{ok, check}
use cvm.Cpu.{Cpu, IsCpu}
use cvm.Cpu.Opcode.{mult, multu, div, divu}
use cvm.Cpu.Decode.{Fields}
use cvm.Exec.HiLo.{set_hi_lo, magnitude, negate_if, differ, quotient, remainder, divides, exec_hilo}

-- `OPC_MULTU` leaves the product modulo `2 ^ 32` in `lo` and always 0 in `hi`: the upper word of
-- the product is lost, since it is computed in 32 bits.
multu_lem :
    (f : Fields) (c : Cpu)
    → exec_hilo multu f c ≡ ok (set_hi_lo c 0 (c.regs f.ra * c.regs f.rb % 2 ^ 32))
unfolding exec_hilo
multu_lem f c = ap ok (
    ap₂ (set_hi_lo c) (omega arith)
      (bit_and_mask 32 (mul32 (c.regs f.ra) (c.regs f.rb)) ∙ omega arith))

-- `OPC_MULT` leaves the product modulo `2 ^ 32` in `lo`, and in `hi` 32 copies of its top bit.
pub mult_lem :
    (f : Fields) (c : Cpu)
    → let p = mul32 (c.regs f.ra) (c.regs f.rb) in
      exec_hilo mult f c ≡ ok (set_hi_lo c (if is_neg p then 2 ^ 32 - 1 else 0) p)
unfolding exec_hilo
mult_lem f c =
    let p = mul32 (c.regs f.ra) (c.regs f.rb) in
    ap ok (ap₂ (set_hi_lo c) (ground arith) (bit_and_mask 32 (widen p) ∙ ground arith))

-- `OPC_DIVU` by a register that is not 0 leaves quotient and remainder in `lo` and `hi`: the
-- remainder is below the divisor.
divu_lem :
    (f : Fields) (c : Cpu)
    → c.regs f.rb ≢ 0
    → (q : ℕ) × (r : ℕ) × (exec_hilo divu f c ≡ ok (set_hi_lo c r q))
      × (q * c.regs f.rb + r ≡ c.regs f.ra)
      × (r < c.regs f.rb)
unfolding exec_hilo check
divu_lem f c nz = (
  c.regs f.ra / c.regs f.rb,
  c.regs f.ra % c.regs f.rb,
  ground arith,
  omega (arith, div-add-mod (c.regs f.ra) (c.regs f.rb)),
  mod-lt _ (omega arith),
)

-- Division of integers towards zero, for two bit patterns.
pub record IsDivision (a b q r : ℕ) : Type 0 where
  pub exact : magnitude q * magnitude b + magnitude r ≡ magnitude a
  pub small : magnitude r < magnitude b
  pub quotient_sign : (q ≡ 0) ⊎ (is_neg q ≡ differ (is_neg a) (is_neg b))
  pub remainder_sign : (r ≡ 0) ⊎ (is_neg r ≡ is_neg a)

magnitude_bounds : (a : ℕ) → a < 2 ^ 32 → magnitude a ≤ 2 ^ 31
magnitude_bounds a h = ground arith

magnitude_pos : (b : ℕ) → b < 2 ^ 32 → (b == 0) ≡ false → 0 < magnitude b
magnitude_pos b h e = ground arith

-- A magnitude below `2 ^ 31`, or equal to it with the sign, comes back from the bit pattern.
signed_value :
    (s : Bool) (m : ℕ)
    → (m < 2 ^ 31) ⊎ ((m ≡ 2 ^ 31) × (s ≡ true))
    → (magnitude (negate_if s m) ≡ m) × ((negate_if s m ≡ 0) ⊎ (is_neg (negate_if s m) ≡ s))
signed_value true m h = elim (Bool-cases (m == 0)) [
  | inl z ↦ (ground arith, inl (ground arith))
  | inr z ↦ (ground arith, inr (ground arith))
]
signed_value false m h = (ground arith, inr (ground arith))

module _ (a b : ℕ) (ha : a < 2 ^ 32) (hb : b < 2 ^ 32) (fits : divides a b ≡ true) where
  nonzero : 0 < magnitude b
  nonzero = ground arith

  quotient_fits :
      (magnitude a / magnitude b < 2 ^ 31)
      ⊎ ((magnitude a / magnitude b ≡ 2 ^ 31) × (differ (is_neg a) (is_neg b) ≡ true))
  quotient_fits = elim (Bool-cases (a == 2 ^ 31)) [
    | inl e ↦ elim (Bool-cases (b == 1)) [
      | inl one ↦ rw ((==_iff a (2 ^ 31)).0 e, (==_iff b 1).0 one) (inr (refl, refl))
      | inr many ↦
          let big : 1 < magnitude b = ground arith in
          let pos_a : 0 < magnitude a = ground arith in
          inl (omega (arith, div-lt_self pos_a big, magnitude_bounds a ha))
    ]
    | inr e ↦
        let small_a : magnitude a < 2 ^ 31 = ground arith in
        inl (omega (arith, div-le_self (magnitude a) (magnitude b), small_a))
  ]

  remainder_fits :
      (magnitude a % magnitude b < 2 ^ 31)
      ⊎ ((magnitude a % magnitude b ≡ 2 ^ 31) × (is_neg a ≡ true))
  remainder_fits = inl (omega (arith, mod-lt (magnitude a) nonzero, magnitude_bounds b hb))

  quotient-IsDivision : IsDivision a b (quotient a b) (remainder a b)
  unfolding quotient remainder
  quotient-IsDivision =
      let q =
        signed_value (differ (is_neg a) (is_neg b)) (magnitude a / magnitude b) quotient_fits in
      let r = signed_value (is_neg a) (magnitude a % magnitude b) remainder_fits in
      record {
        exact = rw (q.0, r.0) (omega (arith, div-add-mod (magnitude a) (magnitude b)));
        small = rw r.0 (mod-lt (magnitude a) nonzero);
        quotient_sign = q.1;
        remainder_sign = r.1;
      }

-- `OPC_DIV` leaves in `lo` and `hi` the quotient and the remainder of the signed division towards
-- zero, for every divisor but 0, and but -1 under the least integer.
pub div_lem :
    (f : Fields) (c : Cpu)
    → IsCpu c
    → divides (c.regs f.ra) (c.regs f.rb) ≡ true
    → (q : ℕ) × (r : ℕ) × (exec_hilo div f c ≡ ok (set_hi_lo c r q))
      × IsDivision (c.regs f.ra) (c.regs f.rb) q r
unfolding exec_hilo check
div_lem f c h fits = (
  quotient (c.regs f.ra) (c.regs f.rb),
  remainder (c.regs f.ra) (c.regs f.rb),
  rw fits,
  quotient-IsDivision _ _ (h.regs_fit f.ra) (h.regs_fit f.rb) fits,
)
