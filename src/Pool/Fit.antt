-- ===== src/Pool/Fit.antt =====
-- Which bucket `pool_malloc` takes a block from.
use cvm.Base.{
  ℕ, zero, suc, ◌+◌, ◌-◌, ◌*◌, ◌/◌, ◌%◌, ◌^◌, ◌<◌, ◌≤◌, ◌≡◌, refl, ap, sym, ◌∙◌, ◌⊎◌, inl, inr,
  ◌==◌, true, false, Bool-cases, leb, leb→le, le→leb, ==_iff, bit_and, arith,
}
use native.Mathlib.Nat.{pow-suc, pow-le-pow_right, div-eq_of_lt-le, mod-eq_of_lt}
use cvm.Base.Bits.{bit_and_split, bit_and_mask, bit_and-zero}
use cvm.Outcome.{ok, check}
use cvm.Pool.{budy_count, page_size, size_of, wrap}
use cvm.Pool.Alloc.{count_shifts, adjust_index, bucket_for, padded}

-- The loop finds the highest bit.
count_shifts_lem :
    (bits tmp idx : ℕ)
    → 0 < tmp
    → tmp < 2 ^ bits
    → (l : ℕ) × (count_shifts bits tmp idx ≡ idx + l) × (2 ^ l ≤ tmp) × (tmp < 2 * 2 ^ l)
unfolding count_shifts
count_shifts_lem zero tmp idx h u = absurd (omega arith)
count_shifts_lem (suc bits) tmp idx h u = elim (Bool-cases (tmp / 2 == 0)) [
  | inl t ↦ (0, ground arith, omega arith, ground arith)
  | inr f ↦
      (let (l, e, lo, hi) =
          count_shifts_lem bits (tmp / 2) (suc idx) (ground arith)
            (omega (arith, pow-suc 2 bits)) in
        (suc l, rw f (omega (arith, e)), omega (arith, pow-suc 2 l), omega (arith, pow-suc 2 l)))
]

-- Rounding up to a multiple of the power of two below.
round_same : (b : ℕ) → 0 < b → (b - 1 + b) / b * b ≡ b
round_same b h =
    ap (λ q. q * b) (div-eq_of_lt-le {k = 1} b (omega arith) (omega arith)) ∙ omega arith

round_more : (b n : ℕ) → b < n → n < 2 * b → (b - 1 + n) / b * b ≡ 2 * b
round_more b n h u =
    ap (λ q. q * b) (div-eq_of_lt-le {k = 2} b (omega arith) (omega arith)) ∙ omega arith

-- The bucket is the least one whose blocks are large enough.
abbrev pub IsLeast : ℕ → ℕ → Type 0
IsLeast size idx =
    (idx < budy_count) × (size ≤ size_of idx) × ((idx ≡ 0) ⊎ (size_of idx < 2 * size))

small_index : (l size : ℕ) → 16 * 2 ^ l ≤ size → size ≤ 4096 → l < budy_count
small_index l size h u = elim (Bool-cases (leb 9 l)) [
  | inl t ↦
      absurd (omega (arith, pow-le-pow_right {n = 2} (omega arith) {i = 9} {j = l} (leb→le 9 l t)))
  | inr f ↦ ground arith
]

small_next : (l size : ℕ) → 16 * 2 ^ l < size → size ≤ 4096 → suc l < budy_count
small_next l size h u = elim (Bool-cases (leb 8 l)) [
  | inl t ↦
      absurd (omega (arith, pow-le-pow_right {n = 2} (omega arith) {i = 8} {j = l} (leb→le 8 l t)))
  | inr f ↦ ground arith
]

-- `2 ^ l` rounded to itself, or the size rounded up beyond it
abbrev rounded : ℕ → ℕ → ℕ
rounded l size = (2 ^ l - 1 + size) / 2 ^ l * 2 ^ l

adjust_same : (l size : ℕ) → 4 ≤ l → rounded l size ≡ size → adjust_index l size ≡ ok (l - 1 - 3)
unfolding adjust_index check
adjust_same l size h e =
    let same : (rounded l size == size) ≡ true = (==_iff (rounded l size) size).1 e in
    let enough : leb 3 (l - 1) ≡ true = le→leb 3 (l - 1) (omega arith) in
    rw (adjust_index, same, enough) refl

adjust_more : (l size : ℕ) → 3 ≤ l → size < rounded l size → adjust_index l size ≡ ok (l - 3)
unfolding adjust_index check
adjust_more l size h e =
    let more : (rounded l size == size) ≡ false = ground arith in
    let enough : leb 3 l ≡ true = le→leb 3 l h in rw (adjust_index, more, enough) refl

adjust_index_lem :
    (l size : ℕ)
    → 16 ≤ size
    → size ≤ 4096
    → 2 ^ l ≤ size
    → size < 2 * 2 ^ l
    → (idx : ℕ) × (adjust_index l size ≡ ok idx) × IsLeast size idx
unfolding adjust_index check
adjust_index_lem zero size lo hi a c = absurd (omega arith)
adjust_index_lem (suc zero) size lo hi a c = absurd (omega arith)
adjust_index_lem (suc (suc zero)) size lo hi a c = absurd (omega arith)
adjust_index_lem (suc (suc (suc zero))) size lo hi a c = absurd (omega arith)
adjust_index_lem (suc (suc (suc (suc l)))) size lo hi a c =
    let power : 2 ^ suc (suc (suc (suc l))) ≡ 16 * 2 ^ l = omega (
      arith,
      pow-suc 2 (suc (suc (suc l))),
      pow-suc 2 (suc (suc l)),
      pow-suc 2 (suc l),
      pow-suc 2 l,
    ) in
    elim (Bool-cases (size == 16 * 2 ^ l)) [
      | inl t ↦
          (let exact : size ≡ 16 * 2 ^ l = ground arith in
            let even : rounded (suc (suc (suc (suc l)))) size ≡ size =
              ap
                (λ n.
                  (2 ^ suc (suc (suc (suc l))) - 1 + n)
                  / 2 ^ suc (suc (suc (suc l)))
                  * 2 ^ suc (suc (suc (suc l))))
                {y = 2 ^ suc (suc (suc (suc l)))} (omega arith)
              ∙ round_same (2 ^ suc (suc (suc (suc l)))) (omega arith)
              ∙ omega arith in
            (
              l,
              adjust_same (suc (suc (suc (suc l)))) size (omega arith) even ∙ ap ok (omega arith),
              (small_index l size (omega arith) hi, omega arith, inr (omega arith)),
            ))
      | inr f ↦
          (let over : rounded (suc (suc (suc (suc l)))) size ≡ 2 * 2 ^ suc (suc (suc (suc l))) =
              round_more (2 ^ suc (suc (suc (suc l)))) size (ground arith) (omega arith) in
            (
              suc l,
              adjust_more (suc (suc (suc (suc l)))) size (omega arith) (omega arith)
                  ∙ ap ok (omega arith),
              (
                small_next l size (ground arith) hi,
                omega (arith, pow-suc 2 l),
                inr (ground (arith, pow-suc 2 l)),
              ),
            ))
    ]

pub bucket_for_lem :
    (size : ℕ) → 16 ≤ size → size ≤ 4096 → (idx : ℕ) × (bucket_for size ≡ ok idx) × IsLeast size idx
unfolding bucket_for
bucket_for_lem size lo hi =
    let (l, e, a, c) = count_shifts_lem 64 size 0 (omega arith) (omega arith) in
    let (idx, f, least) = adjust_index_lem l size lo hi a c in
    let highest : count_shifts 64 size 0 ≡ l = omega (arith, e) in
    (idx, ap (λ n. adjust_index n size) highest ∙ f, least)

-- The mask of the code for whole pages.
page_mask : (x : ℕ) → x < 2 ^ 32 → bit_and x (2 ^ 32 - page_size) ≡ x / page_size * page_size
page_mask x h =
    let split =
      bit_and_split 12 (x / 2 ^ 12) (x % 2 ^ 12) (2 ^ 20 - 1) 0 (omega arith) (omega arith) in
    let whole : x / 2 ^ 12 * 2 ^ 12 + x % 2 ^ 12 ≡ x = omega arith in
    let high : bit_and (x / 2 ^ 12) (2 ^ 20 - 1) ≡ x / 2 ^ 12 =
      bit_and_mask 20 (x / 2 ^ 12) ∙ mod-eq_of_lt (omega arith) in
    let parts : bit_and (x / 2 ^ 12) (2 ^ 20 - 1) * 2 ^ 12 + bit_and (x % 2 ^ 12) 0
        ≡ x / page_size * page_size =
      omega (arith, high, bit_and-zero (x % 2 ^ 12)) in
    ap (λ y. bit_and y (2 ^ 32 - page_size)) (sym whole) ∙ split ∙ parts

-- Numbers of 32 bits fit a word of the pool's pointers.
wrap-id : (ptr n : ℕ) → 4 ≤ ptr → n < 2 ^ 32 → wrap ptr n ≡ n
wrap-id ptr n h u = mod-eq_of_lt (omega (arith, pow-le-pow_right {n = 256} (omega arith) h))

pub page_count :
    (ptr units : ℕ)
    → 4 ≤ ptr
    → units + page_size ≤ 2 ^ 32
    → bit_and (wrap ptr (units + page_size - 1)) (2 ^ 32 - page_size) / page_size
      ≡ (units + 4095) / page_size
page_count ptr units h u =
    let whole = wrap-id ptr (units + page_size - 1) h (omega arith) in
    ap (λ n. bit_and n (2 ^ 32 - page_size) / page_size) whole
    ∙ ap (λ n. n / page_size) (page_mask (units + page_size - 1) (omega arith))
    ∙ omega arith

pub padded_lem :
    (ptr size : ℕ) → 4 ≤ ptr → size + 16 < 2 ^ 32 → padded ptr size ≡ (size + 15) / 8 * 8
unfolding padded
padded_lem ptr size h u =
    ap (λ n. wrap ptr (n + 7) / 8 * 8) (wrap-id ptr (size + 8) h (omega arith))
    ∙ ap (λ n. n / 8 * 8) (wrap-id ptr (size + 8 + 7) h (omega arith))
    ∙ omega arith
