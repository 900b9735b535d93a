-- ===== src/Exec/Laws/Rotate.antt =====
-- `ROL32` and `ROR32` undo one another.
use native.Mathlib.Nat.{pow-suc, one-le-pow, mul_comm, div-lt_iff_lt-mul, mod-lt, div-add-mod}
use cvm.Base.{
  ℕ, zero, suc, ◌+◌, ◌-◌, ◌*◌, ◌/◌, ◌%◌, ◌^◌, ◌<◌, ◌≡◌, ◌∙◌, sym, ap, ap₂, true, ◌&&◌, arith,
  bit_or, ltb,
}
use cvm.Base.Bits.{bit_or_fields, bit_or_fields_right}
use cvm.Outcome.{ok, ◌>>=◌, check}
use cvm.Exec.Shift.{rol32, ror32}

pow_add : (a b : ℕ) → 2 ^ (a + b) ≡ 2 ^ a * 2 ^ b
pow_add zero b = ground (arith, ap (λ (t : ℕ). 2 ^ t) {x = 0 + b} {y = b} (omega arith))
pow_add (suc a) b =
    ap (λ (t : ℕ). 2 ^ t) {x = suc a + b} {y = suc (a + b)} (omega arith)
    ∙ pow-suc 2 (a + b)
    ∙ omega (arith, ap (λ (t : ℕ). t * 2) (pow_add a b), ap (λ (t : ℕ). t * 2 ^ b) (pow-suc 2 a))

-- A word of a high part of `j` bits and a low part of `k`.
module _ (h l q r : ℕ) (whole : h * l ≡ 2 ^ 32) (hq : q < h) (hr : r < l) where
  low-lt : r * h < 2 ^ 32
  low-lt = rw (← whole) (grind (arith, positive))
    where
      positive : 0 < h
      positive = omega arith

  shl_parts : (q * l + r) * h % 2 ^ 32 ≡ r * h
  shl_parts = omega (arith, low-lt, ap (λ (t : ℕ). q * t) whole)

  shr_parts : (q * l + r) / l ≡ q
  shr_parts = grind arith

-- The two halves of a word, for a rotation by `n`.
module _ (x n : ℕ) (hx : x < 2 ^ 32) (pos : 0 < n) (small : n < 32) where
  abbrev high : ℕ
  high = x / 2 ^ (32 - n)

  abbrev low : ℕ
  low = x % 2 ^ (32 - n)

  widths : 2 ^ n * 2 ^ (32 - n) ≡ 2 ^ 32
  widths =
      sym (pow_add n (32 - n)) ∙ ap (λ (t : ℕ). 2 ^ t) {x = n + (32 - n)} {y = 32} (omega arith)

  high-lt : high < 2 ^ n
  high-lt = (div-lt_iff_lt-mul (one-le-pow (32 - n) 2 (omega arith))).1 (rw widths hx)

  low-lt_l : low < 2 ^ (32 - n)
  low-lt_l = mod-lt x (one-le-pow (32 - n) 2 (omega arith))

  halves : x ≡ high * 2 ^ (32 - n) + low
  halves = omega (arith, div-add-mod x (2 ^ (32 - n)))

  in_range : (ltb 0 n && ltb n 32) ≡ true
  in_range = ground arith

  -- `ROL32` moves the high `n` bits below the others.
  rol32_lem : rol32 x n ≡ ok (low * 2 ^ n + high)
  unfolding rol32 check
  rol32_lem =
      rw in_range (ap ok (ap (λ (t : ℕ). bit_or t high) shifted ∙ bit_or_fields n low high high-lt))
    where
      shifted : x * 2 ^ n % 2 ^ 32 ≡ low * 2 ^ n
      shifted =
          ap (λ (t : ℕ). t * 2 ^ n % 2 ^ 32) halves
          ∙ shl_parts (2 ^ n) (2 ^ (32 - n)) high low widths high-lt low-lt_l

  ror32_back : ror32 (low * 2 ^ n + high) n ≡ ok x
  unfolding ror32 check
  ror32_back = rw in_range (
      ap ok (
        ap₂ bit_or
          (shr_parts (2 ^ (32 - n)) (2 ^ n) low high (mul_comm _ _ ∙ widths) low-lt_l high-lt)
          (shl_parts (2 ^ (32 - n)) (2 ^ n) low high (mul_comm _ _ ∙ widths) low-lt_l high-lt)
        ∙ bit_or_fields_right (32 - n) high low low-lt_l
        ∙ sym halves))

-- `ROR32` undoes `ROL32` on every word, at every amount at which both have a meaning.
ror32-rol32 : (x n : ℕ) → x < 2 ^ 32 → 0 < n → n < 32 → (rol32 x n >>= λ y. ror32 y n) ≡ ok x
ror32-rol32 x n hx pos small = rw (rol32_lem x n hx pos small) (ror32_back x n hx pos small)
