-- ===== src/Md5/Stream.antt =====
-- `MD5Update` of vapps/md5.c against the message read so far.
use cvm.Base.{
  ℕ, suc, ◌+◌, ◌-◌, ◌*◌, ◌/◌, ◌%◌, ◌^◌, ◌≤◌, ◌<◌, ◌≡◌, refl, sym, arith, ap, ◌∙◌, true, false, Bool,
  Bool-cases, inl, inr, Option, some, ltb, leb, ltb→lt, leb→le, if◌then◌else◌,
}
use cvm.Base.Bits.{bit_and_mask}
use cvm.Base.Word.{sub32, shr32}
use cvm.Md5.{Md5Ctx, ◌>>=◌, first_state, md5_init, memcpy, fill, add_bits, hash_blocks, md5_update}
use cvm.Md5.Transform.{Chain, transform}
use cvm.Md5.Blocks.{transform-same, absorb, absorb-same, whole_blocks_lem}

-- A message `m` of `n` bytes with `input` behind it.
abbrev pub append : (ℕ → ℕ) → ℕ → (ℕ → ℕ) → ℕ → ℕ
append m n input k = if ltb k n then m k else input (k - n)

-- The context holds the first `n` bytes of a message: their number in bits, the state after the
-- whole blocks, and the bytes behind these.
pub record Holds (ctx : Md5Ctx) (m : ℕ → ℕ) (n : ℕ) : Type 0 where
  pub low : ctx.count_low ≡ 8 * n % 2 ^ 32
  pub high : ctx.count_high ≡ 8 * n / 2 ^ 32 % 2 ^ 32
  pub hashed : ctx.state ≡ absorb (n / 64) m first_state
  pub kept : (k : ℕ) → k < n % 64 → ctx.buffer k ≡ m (64 * (n / 64) + k)

-- A new context holds the empty message.
pub md5_init-Holds : (buffer m : ℕ → ℕ) → Holds (md5_init buffer) m 0
unfolding absorb md5_init
md5_init-Holds buffer m = record {
  low = refl;
  high = refl;
  hashed = refl;
  kept = λ k below. elim below [ ];
}

pub fill_lem : (ctx : Md5Ctx) (m : ℕ → ℕ) (n : ℕ) → Holds ctx m n → fill ctx ≡ n % 64
fill_lem ctx m n h = bit_and_mask 6 (shr32 ctx.count_low 3) ∙ omega (arith, h.low)

module _ (dest src : ℕ → ℕ) (at from len i : ℕ) where
  memcpy_in : at ≤ i → i < at + len → memcpy dest at src from len i ≡ src (from + (i - at))
  memcpy_in low high = ground arith

  memcpy_before : i < at → memcpy dest at src from len i ≡ dest i
  memcpy_before out = ground arith

module _ (m : ℕ → ℕ) (n : ℕ) (input : ℕ → ℕ) (k : ℕ) where
  append_old : k < n → append m n input k ≡ m k
  append_old h = ground arith

  append_new : n ≤ k → append m n input k ≡ input (k - n)
  append_new h = ground arith

-- What the buffer holds after a copy to the place behind the bytes kept.
module _ (buffer m input : ℕ → ℕ) (n f : ℕ) (at_end : f ≡ n % 64)
    (kept : (k : ℕ) → k < n % 64 → buffer k ≡ m (64 * (n / 64) + k)) where
  filled :
      (len k : ℕ)
      → k < n % 64 + len
      → memcpy buffer f input 0 len k ≡ append m n input (64 * (n / 64) + k)
  filled len k below = elim (Bool-cases (ltb k (n % 64))) [
    | inl old ↦
        memcpy_before buffer input f 0 len k (omega (arith, ltb→lt k (n % 64) old))
        ∙ kept k (ltb→lt k (n % 64) old)
        ∙ sym (append_old m n input (64 * (n / 64) + k) (omega (arith, ltb→lt k (n % 64) old)))
    | inr new ↦
        memcpy_in buffer input f 0 len k (ground arith) (omega arith)
        ∙ ap input {x = 0 + (k - f)} {y = 64 * (n / 64) + k - n} (ground arith)
        ∙ sym (append_new m n input (64 * (n / 64) + k) (ground arith))
  ]

  whole_buffer :
      (s : Chain)
      → s ≡ absorb (n / 64) m first_state
      → transform s (memcpy buffer f input 0 (sub32 64 f))
        ≡ absorb (suc (n / 64)) (append m n input) first_state
  unfolding absorb
  whole_buffer s e =
      transform-same s (absorb (n / 64) (append m n input) first_state)
        (memcpy buffer f input 0 (sub32 64 f)) (λ k. append m n input (64 * (n / 64) + k))
        (e
          ∙ absorb-same (n / 64) m (append m n input) first_state
              (λ k below. sym (append_old m n input k (omega arith))))
        (λ k below. filled (sub32 64 f) k (omega arith))

-- The value of a call that did not reach its bound, with what is known of it.
pub data Yields {A : Type 0} (P : A → Type 0) : Option A → Type 0 where
  yields : {a : A} → P a → Yields P (some a)

pub Yields-then :
    {A B : Type 0} {P : A → Type 0} {o : Option A} {g : A → Option B} {r : Option B}
    → Yields P o
    → ((a : A) → P a → g a ≡ r)
    → (o >>= g) ≡ r
Yields-then (yields h) k = k _ h

pub Yields-bind :
    {A B : Type 0} {P : A → Type 0} {Q : B → Type 0} {o : Option A} {g : A → Option B}
    → Yields P o
    → ((a : A) → P a → Yields Q (g a))
    → Yields Q (o >>= g)
Yields-bind (yields h) k = k _ h

Yields-if :
    {A : Type 0} {P : A → Type 0} {x y : Option A} (b : Bool)
    → (b ≡ true → Yields P x)
    → (b ≡ false → Yields P y)
    → Yields P (if b then x else y)
Yields-if true p q = p refl
Yields-if false p q = q refl

module _ (ctx : Md5Ctx) (m : ℕ → ℕ) (n : ℕ) (input : ℕ → ℕ) (len f : ℕ) (at_end : f ≡ n % 64)
    (hashed : ctx.state ≡ absorb (n / 64) m first_state)
    (kept : (k : ℕ) → k < n % 64 → ctx.buffer k ≡ m (64 * (n / 64) + k))
    (low : ctx.count_low ≡ 8 * (n + len) % 2 ^ 32)
    (high : ctx.count_high ≡ 8 * (n + len) / 2 ^ 32 % 2 ^ 32) (small : len + 64 < 2 ^ 32) where
  hash_blocks_lem :
      64 ≤ n % 64 + len
      → Yields (λ c. Holds c (append m n input) (n + len)) (hash_blocks ctx f input len)
  unfolding hash_blocks
  hash_blocks_lem long =
      rw
        (whole_blocks_lem ((n % 64 + len - 64) / 64) (len / 64) (sub32 64 f) len input
          (append m n input) (suc (n / 64)) first_state
          (transform ctx.state (memcpy ctx.buffer f input 0 (sub32 64 f))) (omega arith)
          (omega arith) (omega arith) small
          (whole_buffer ctx.buffer m input n f at_end kept ctx.state hashed)
          (λ k below.
            ap input {y = 64 * suc (n / 64) + k - n} (omega arith)
            ∙ sym (append_new m n input (64 * suc (n / 64) + k) (omega arith))))
        (yields (record {
          low = low;
          high = high;
          hashed =
              ap (λ c. absorb c (append m n input) first_state)
                {x = suc (n / 64) + (n % 64 + len - 64) / 64} {y = (n + len) / 64} (omega arith);
          kept = λ k below.
              memcpy_in (memcpy ctx.buffer f input 0 (sub32 64 f)) input 0
                (sub32 64 f + 64 * ((n % 64 + len - 64) / 64))
                (sub32 len (sub32 64 f + 64 * ((n % 64 + len - 64) / 64))) k (omega arith)
                (omega arith)
              ∙ ap input {y = 64 * ((n + len) / 64) + k - n} (omega arith)
              ∙ sym (append_new m n input (64 * ((n + len) / 64) + k) (omega arith));
        }))

  short_lem :
      n % 64 + len < 64
      → Holds (record ctx { buffer = memcpy ctx.buffer f input 0 len }) (append m n input) (n + len)
  short_lem short = record {
    low = low;
    high = high;
    hashed =
        hashed
        ∙ absorb-same (n / 64) m (append m n input) first_state
            (λ k below. sym (append_old m n input k (omega arith)))
        ∙ ap (λ c. absorb c (append m n input) first_state) {x = n / 64} {y = (n + len) / 64}
            (omega arith);
    kept = λ k below.
        filled ctx.buffer m input n f at_end kept len k (omega arith)
        ∙ ap (append m n input) {y = 64 * ((n + len) / 64) + k} (omega arith);
  }

module _ (ctx : Md5Ctx) (m : ℕ → ℕ) (n : ℕ) (len : ℕ) (h : Holds ctx m n)
    (small : len < 2 ^ 32) where
  low_count : (add_bits ctx len).count_low ≡ 8 * (n + len) % 2 ^ 32
  unfolding add_bits
  low_count = omega (arith, h.low)

  high_count : (add_bits ctx len).count_high ≡ 8 * (n + len) / 2 ^ 32 % 2 ^ 32
  unfolding add_bits
  high_count = ground (arith, h.low, h.high)

-- A context that holds `n` bytes holds the input as well after `MD5Update`, whatever blocks the
-- input falls into, for an input at least 65 bytes shorter than `2 ^ 32`.
pub md5_update-Holds :
    (ctx : Md5Ctx) (m : ℕ → ℕ) (n : ℕ) (input : ℕ → ℕ) (len : ℕ)
    → Holds ctx m n
    → len + 64 < 2 ^ 32
    → Yields (λ c. Holds c (append m n input) (n + len)) (md5_update ctx input len)
unfolding md5_update add_bits
md5_update-Holds ctx m n input len h small =
    let counted = add_bits ctx len in
    let f = fill_lem ctx m n h in
    let low = low_count ctx m n len h (omega arith) in
    let high = high_count ctx m n len h (omega arith) in
    Yields-if (leb (sub32 64 (fill ctx)) len)
      (λ t.
        hash_blocks_lem counted m n input len (fill ctx) f h.hashed h.kept low high small
          (omega (arith, f, leb→le (sub32 64 (fill ctx)) len t)))
      (λ t. yields (
        short_lem counted m n input len (fill ctx) f h.hashed h.kept low high small
          (ground (arith, f, t))))
