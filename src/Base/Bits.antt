-- ===== src/Base/Bits.antt =====
-- The bit operations at variables: the equation for the lowest digit, masks and disjoint fields.
use Prim.Native.Nat.{
  ℕ, zero, suc, ◌+◌, ◌-◌, ◌*◌, ◌/◌, ◌%◌, ◌^◌, ◌≤◌, ◌<◌, min, max, bit_and, bit_or, bit_xor, digits,
  bitwise, bit_and-bitwise, bit_or-bitwise, bit_xor-bitwise, differ,
}
use mathlib.Core.Path.{◌≡◌, refl, sym, ap, ◌∙◌}
use native.Mathlib.Nat.{pow-suc, one-le-pow, mul_comm, div-div-eq-div-mul}
use native.Mathlib.Omega.{arith}

-- More fuel than the first operand changes nothing.
module _ (z : ℕ → ℕ) (f : ℕ → ℕ → ℕ) where
  digits-suc : (n a b : ℕ) → a ≤ n → digits z f (suc n) a b ≡ digits z f n a b
  digits-suc zero zero b h = refl
  digits-suc zero (suc a) b h = absurd (omega arith)
  digits-suc (suc n) zero b h = refl
  digits-suc (suc n) (suc a) b h = rw (digits-suc n (suc a / 2) (b / 2) (omega arith))

  digits-add : (k n a b : ℕ) → a ≤ n → digits z f (k + n) a b ≡ digits z f n a b
  digits-add zero n a b h = ap (λ m. digits z f m a b) (omega arith)
  digits-add (suc k) n a b h =
      ap (λ m. digits z f m a b) {x = suc k + n} {y = suc (k + n)} (omega arith)
      ∙ digits-suc (k + n) a b (omega arith)
      ∙ digits-add k n a b h

  digits-enough : (n a b : ℕ) → a ≤ n → digits z f n a b ≡ digits z f a a b
  digits-enough n a b h =
      ap (λ m. digits z f m a b) {x = n} {y = n - a + a} (omega arith)
      ∙ digits-add (n - a) a a b (omega arith)

  -- One round of `bitwise`, at an operand that is not 0.
  bitwise-round :
      (x y : ℕ) → 0 < x → bitwise z f x y ≡ f (x % 2) (y % 2) + 2 * bitwise z f (x / 2) (y / 2)
  bitwise-round zero y h = elim h [ ]
  bitwise-round (suc x) y h = omega (arith, digits-enough x (suc x / 2) (y / 2) (omega arith))

-- A number's last digit and the rest of it: `op` works on each.
abbrev ByDigit : (op digit : ℕ → ℕ → ℕ) → Type 0
ByDigit op digit = (x y : ℕ) → op x y ≡ digit (x % 2) (y % 2) + 2 * op (x / 2) (y / 2)

and-ByDigit : ByDigit bit_and min
and-ByDigit zero y = simp bit_and-bitwise (omega arith)
and-ByDigit (suc x) y =
    simp bit_and-bitwise (omega (arith, bitwise-round (λ d. 0) min (suc x) y (omega arith)))

or-ByDigit : ByDigit bit_or max
or-ByDigit zero y = simp bit_or-bitwise (omega arith)
or-ByDigit (suc x) y =
    simp bit_or-bitwise (omega (arith, bitwise-round (λ d. d) max (suc x) y (omega arith)))

differ-zero : (b : ℕ) → differ 0 b ≡ b
differ-zero b = refl

xor-ByDigit : ByDigit bit_xor differ
xor-ByDigit zero y = simp bit_xor-bitwise (omega (arith, differ-zero (y % 2)))
xor-ByDigit (suc x) y =
    simp bit_xor-bitwise (omega (arith, bitwise-round (λ d. d) differ (suc x) y (omega arith)))

-- Two numbers of low digits below `2 ^ k` and high digits: the operations work on each part.
two-pow-suc : (q k : ℕ) → q * 2 ^ suc k ≡ 2 * (q * 2 ^ k)
two-pow-suc q k = omega (arith, ap (λ (t : ℕ). q * t) (pow-suc 2 k))

module _ (op : ℕ → ℕ → ℕ) (digit : ℕ → ℕ → ℕ) (step : ByDigit op digit) (zeros : op 0 0 ≡ 0) where
  op_split :
      (k q r p s : ℕ)
      → r < 2 ^ k
      → s < 2 ^ k
      → op (q * 2 ^ k + r) (p * 2 ^ k + s) ≡ op q p * 2 ^ k + op r s
  op_split zero q r p s hr hs = ground (arith, zeros)
  op_split (suc k) q r p s hr hs =
      let hq = two-pow-suc q k in
      let hp = two-pow-suc p k in
      ground (
        arith,
        pow-suc 2 k,
        hq,
        hp,
        step (q * 2 ^ suc k + r) (p * 2 ^ suc k + s),
        step r s,
        op_split k q (r / 2) p (s / 2) (omega (arith, pow-suc 2 k)) (omega (arith, pow-suc 2 k)),
        two-pow-suc (op q p) k,
      )

  op_bound :
      (k a b : ℕ) → ((x y : ℕ) → digit (x % 2) (y % 2) < 2) → a < 2 ^ k → b < 2 ^ k → op a b < 2 ^ k
  op_bound zero a b d ha hb = ground (arith, zeros)
  op_bound (suc k) a b d ha hb = omega (
    arith,
    pow-suc 2 k,
    step a b,
    d a b,
    op_bound k (a / 2) (b / 2) d (omega (arith, pow-suc 2 k)) (omega (arith, pow-suc 2 k)),
  )

pub bit_and_split :
    (k q r p s : ℕ)
    → r < 2 ^ k
    → s < 2 ^ k
    → bit_and (q * 2 ^ k + r) (p * 2 ^ k + s) ≡ bit_and q p * 2 ^ k + bit_and r s
bit_and_split = op_split bit_and min and-ByDigit refl

bit_or_split :
    (k q r p s : ℕ)
    → r < 2 ^ k
    → s < 2 ^ k
    → bit_or (q * 2 ^ k + r) (p * 2 ^ k + s) ≡ bit_or q p * 2 ^ k + bit_or r s
bit_or_split = op_split bit_or max or-ByDigit refl

pub bit_and-lt : (k a b : ℕ) → a < 2 ^ k → b < 2 ^ k → bit_and a b < 2 ^ k
bit_and-lt k a b = op_bound bit_and min and-ByDigit refl k a b (λ x y. omega arith)

pub bit_or-lt : (k a b : ℕ) → a < 2 ^ k → b < 2 ^ k → bit_or a b < 2 ^ k
bit_or-lt k a b = op_bound bit_or max or-ByDigit refl k a b (λ x y. omega arith)

differ-lt : (x y : ℕ) → x < 2 → y < 2 → differ x y < 2
differ-lt zero y hx hy = hy
differ-lt (suc zero) zero hx hy = omega arith
differ-lt (suc zero) (suc y) hx hy = omega arith
differ-lt (suc (suc x)) y hx hy = absurd (omega arith)

pub bit_xor-lt : (k a b : ℕ) → a < 2 ^ k → b < 2 ^ k → bit_xor a b < 2 ^ k
bit_xor-lt k a b =
    op_bound bit_xor differ xor-ByDigit refl k a b
      (λ x y. differ-lt (x % 2) (y % 2) (omega arith) (omega arith))

-- Operations with 0.
module _ (op : ℕ → ℕ → ℕ) (digit : ℕ → ℕ → ℕ) (step : ByDigit op digit) (zeros : op 0 0 ≡ 0) where
  op_zero : (n a : ℕ) → a ≤ n → ((x : ℕ) → digit (x % 2) 0 ≡ 0) → op a 0 ≡ 0
  op_zero zero a h d = ground (arith, zeros)
  op_zero (suc n) a h d = ground (arith, step a 0, d a, op_zero n (a / 2) (omega arith) d)

  op_id : (n a : ℕ) → a ≤ n → ((x : ℕ) → digit (x % 2) 0 ≡ x % 2) → op a 0 ≡ a
  op_id zero a h d = ground (arith, zeros)
  op_id (suc n) a h d = ground (arith, step a 0, d a, op_id n (a / 2) (omega arith) d)

pub bit_and-zero : (a : ℕ) → bit_and a 0 ≡ 0
bit_and-zero a = op_zero bit_and min and-ByDigit refl a a (omega arith) (λ x. omega arith)

bit_or-zero : (a : ℕ) → bit_or a 0 ≡ a
bit_or-zero a = op_id bit_or max or-ByDigit refl a a (omega arith) (λ x. omega arith)

zero-bit_and : (a : ℕ) → bit_and 0 a ≡ 0
zero-bit_and a = bit_and-bitwise 0 a

zero-bit_or : (a : ℕ) → bit_or 0 a ≡ a
zero-bit_or a = bit_or-bitwise 0 a

-- `(q << k) | r` is a sum when `r` fits `k` bits, on either side.
pub bit_or_fields : (k q r : ℕ) → r < 2 ^ k → bit_or (q * 2 ^ k) r ≡ q * 2 ^ k + r
bit_or_fields k q r h =
    ground (arith, one-le-pow k 2, bit_or_split k q 0 0 r, bit_or-zero q, zero-bit_or r)

pub bit_or_fields_right : (k q r : ℕ) → r < 2 ^ k → bit_or r (q * 2 ^ k) ≡ q * 2 ^ k + r
bit_or_fields_right k q r h =
    ground (arith, one-le-pow k 2, bit_or_split k 0 r q 0, zero-bit_or q, bit_or-zero r)

-- A mask of `k` low bits is the remainder by `2 ^ k`.
half_ones : (k : ℕ) → (2 ^ suc k - 1) / 2 ≡ 2 ^ k - 1
half_ones k = omega (arith, pow-suc 2 k, one-le-pow k 2)

bit_and_ones : (k a : ℕ) → a < 2 ^ k → bit_and a (2 ^ k - 1) ≡ a
bit_and_ones zero a h = ground arith
bit_and_ones (suc k) a h = ground (
  arith,
  pow-suc 2 k,
  one-le-pow k 2,
  and-ByDigit a (2 ^ suc k - 1),
  bit_and_ones k (a / 2) (omega (arith, pow-suc 2 k)),
  half_ones k,
)

pub bit_and_mask : (k a : ℕ) → bit_and a (2 ^ k - 1) ≡ a % 2 ^ k
bit_and_mask k a = ground (
  arith,
  one-le-pow k 2,
  bit_and_split k (a / 2 ^ k) (a % 2 ^ k) 0 (2 ^ k - 1),
  bit_and-zero (a / 2 ^ k),
  bit_and_ones k (a % 2 ^ k),
)

-- A mask of one bit reads that binary digit.
pub bit_and_bit : (k a : ℕ) → bit_and a (2 ^ k) ≡ a / 2 ^ k % 2 * 2 ^ k
bit_and_bit k a = ground (
  arith,
  one-le-pow k 2,
  bit_and_split k (a / 2 ^ k) (a % 2 ^ k) 1 0,
  bit_and_mask 1 (a / 2 ^ k),
  bit_and-zero (a % 2 ^ k),
)

-- Binary digit `k` of the result depends on digit `k` of the operands.
div_two-pow-suc : (a k : ℕ) → a / 2 ^ suc k ≡ a / 2 / 2 ^ k
div_two-pow-suc a k =
    ap (λ (t : ℕ). a / t) (pow-suc 2 k ∙ mul_comm (2 ^ k) 2) ∙ sym (div-div-eq-div-mul a 2 (2 ^ k))

module _ (op : ℕ → ℕ → ℕ) (digit : ℕ → ℕ → ℕ) (step : ByDigit op digit)
    (small : (a b : ℕ) → digit (a % 2) (b % 2) < 2) where
  op_digit : (k a b : ℕ) → op a b / 2 ^ k % 2 ≡ digit (a / 2 ^ k % 2) (b / 2 ^ k % 2)
  op_digit zero a b = ground (arith, step a b, small a b)
  op_digit (suc k) a b =
      rw (div_two-pow-suc (op a b) k, div_two-pow-suc a k, div_two-pow-suc b k, half)
        (op_digit k (a / 2) (b / 2))
    where
      half : op a b / 2 ≡ op (a / 2) (b / 2)
      half = omega (arith, step a b, small a b)

pub bit_and_digit : (k a b : ℕ) → bit_and a b / 2 ^ k % 2 ≡ min (a / 2 ^ k % 2) (b / 2 ^ k % 2)
bit_and_digit = op_digit bit_and min and-ByDigit (λ a b. omega arith)

pub bit_or_digit : (k a b : ℕ) → bit_or a b / 2 ^ k % 2 ≡ max (a / 2 ^ k % 2) (b / 2 ^ k % 2)
bit_or_digit = op_digit bit_or max or-ByDigit (λ a b. omega arith)
