-- ===== src/Md5/Digest.antt =====
-- `MD5Final` of vapps/md5.c against the padding of the message.
use cvm.Base.{
  ℕ, zero, suc, ◌+◌, ◌-◌, ◌*◌, ◌/◌, ◌%◌, ◌^◌, ◌<◌, ◌≡◌, refl, arith, ap, ◌∙◌, Bool-cases, inl, inr,
  Option, some, List, [], ◌∷◌, ltb, ◌==◌, if◌then◌else◌, get_or, replicate, All,
}
use cvm.Md5.{Md5Ctx, ◌>>=◌, first_state, md5_init, fill, md5_update, array, padding, md5_final}
use cvm.Md5.Transform.{Chain}
use cvm.Md5.Codec.{encode}
use cvm.Md5.Blocks.{absorb, absorb-same}
use cvm.Md5.Stream.{
  append, Holds, md5_init-Holds, fill_lem, md5_update-Holds, Yields, yields, Yields-bind,
  Yields-then,
}

-- The number of blocks of a padded message: there is room for a byte 0x80 and for the length in
-- bits as eight bytes.
abbrev pub block_count : ℕ → ℕ
block_count n = (n + 8) / 64 + 1

-- The padded message, after RFC 1321.
abbrev pub padded : (ℕ → ℕ) → ℕ → ℕ → ℕ
padded m n k =
    let size : ℕ = 64 * block_count n - 8 in
    if ltb k n
    then m k
    else if k == n
    then 0x80
    else if ltb k size
    then 0
    else 8 * n / 2 ^ (8 * (k - size)) % 2 ^ 8

-- The digest of the first `n` bytes of a message.
unfoldable pub message_digest : (ℕ → ℕ) → ℕ → List ℕ
unfolding encode
message_digest m n =
    let s : Chain = absorb (block_count n) (padded m n) first_state in
    encode (s.a ∷ s.b ∷ s.c ∷ s.d ∷ [])

get_or-replicate {ℓ} : {A : Type ℓ} (n k : ℕ) (a : A) → get_or (replicate n a) k a ≡ a
get_or-replicate zero k a = refl
get_or-replicate (suc n) zero a = refl
get_or-replicate (suc n) (suc k) a = get_or-replicate n k a

padding_tail : (k : ℕ) → 0 < k → array padding k ≡ 0
padding_tail zero h = elim h [ ]
padding_tail (suc k) h = get_or-replicate 63 k 0

-- The eight bytes of the length.
bits_lem :
    (low high v k : ℕ)
    → low ≡ v % 2 ^ 32
    → high ≡ v / 2 ^ 32 % 2 ^ 32
    → k < 8
    → array (encode (low ∷ high ∷ [])) k ≡ v / 2 ^ (8 * k) % 2 ^ 8
unfolding encode
bits_lem low high v zero l h below = omega (arith, l)
bits_lem low high v (suc zero) l h below = omega (arith, l)
bits_lem low high v (suc (suc zero)) l h below = omega (arith, l)
bits_lem low high v (suc (suc (suc zero))) l h below = omega (arith, l)
bits_lem low high v (suc (suc (suc (suc zero)))) l h below = omega (arith, h)
bits_lem low high v (suc (suc (suc (suc (suc zero))))) l h below = omega (arith, h)
bits_lem low high v (suc (suc (suc (suc (suc (suc zero)))))) l h below = omega (arith, h)
bits_lem low high v (suc (suc (suc (suc (suc (suc (suc zero))))))) l h below = omega (arith, h)
bits_lem low high v (suc (suc (suc (suc (suc (suc (suc (suc k)))))))) l h below = omega arith

module _ (m : ℕ → ℕ) (n low high p : ℕ) (l : low ≡ 8 * n % 2 ^ 32)
    (h : high ≡ 8 * n / 2 ^ 32 % 2 ^ 32) (whole : n + p + 8 ≡ 64 * block_count n)
    (some_pad : 0 < p) where
  padded_lem :
      (k : ℕ)
      → k < 64 * block_count n
      → append (append m n (array padding)) (n + p) (array (encode (low ∷ high ∷ []))) k
        ≡ padded m n k
  padded_lem k below = elim (Bool-cases (ltb k n)) [
    | inl old ↦ ground (arith, old)
    | inr late ↦ elim (Bool-cases (k == n)) [
      | inl mark ↦
          ground (arith, mark, ap (array padding) {x = k - n} {y = 0} (ground (arith, mark)))
      | inr other ↦ elim (Bool-cases (ltb k (n + p))) [
        | inl zeros ↦ ground (arith, zeros, padding_tail (k - n) (ground (arith, late, other)))
        | inr count ↦ ground (
          arith,
          late,
          count,
          bits_lem low high (8 * n) (k - (n + p)) l h (ground (arith, count)),
          ap (λ e. 8 * n / 2 ^ (8 * e) % 2 ^ 8) {x = k - (n + p)} {y = k - (64 * block_count n - 8)}
              (omega arith),
        )
      ]
    ]
  ]

padlen_lem :
    (n f : ℕ)
    → f ≡ n % 64
    → let p : ℕ = if ltb f 56 then 56 - f else 120 - f in
      (n + p + 8 ≡ 64 * block_count n) × (0 < p) × (p < 2 ^ 7)
padlen_lem n f e = (ground arith, ground arith, ground arith)

-- `MD5Final` gives the digest of the padded message for a context that holds the message: neither
-- the pieces it was read in nor what else the buffer holds counts.
pub md5_final_lem :
    (ctx : Md5Ctx) (m : ℕ → ℕ) (n : ℕ) → Holds ctx m n → md5_final ctx ≡ some (message_digest m n)
unfolding md5_final message_digest
md5_final_lem ctx m n h =
    let p : ℕ = if ltb (fill ctx) 56 then 56 - fill ctx else 120 - fill ctx in
    let (whole, some_pad, short) = padlen_lem n (fill ctx) (fill_lem ctx m n h) in
    let bits = array (encode (ctx.count_low ∷ ctx.count_high ∷ [])) in
    Yields-then (md5_update-Holds ctx m n (array padding) p h (omega (arith, short))) (λ c hc.
      Yields-then (md5_update-Holds c (append m n (array padding)) (n + p) bits 8 hc (omega arith))
        (λ c' hc'.
          ap (λ s. some (encode (s.a ∷ s.b ∷ s.c ∷ s.d ∷ [])))
            (hc'.hashed
              ∙ ap (λ k. absorb k (append (append m n (array padding)) (n + p) bits) first_state)
                  {x = (n + p + 8) / 64} {y = block_count n} (omega (arith, whole))
              ∙ absorb-same (block_count n) (append (append m n (array padding)) (n + p) bits)
                  (padded m n) first_state
                  (padded_lem m n ctx.count_low ctx.count_high p h.low h.high whole some_pad))))

-- A piece of a message: its length and its bytes.
abbrev pub Piece : Type 0
Piece = ℕ × (ℕ → ℕ)

-- A call of `MD5Update` for each piece.
unfoldable pub feed : List Piece → Md5Ctx → Option Md5Ctx
feed [] ctx = some ctx
feed ((len, input) ∷ pieces) ctx = md5_update ctx input len >>= feed pieces

-- The pieces behind a message, and their length with it.
abbrev pub joined : List Piece → (ℕ → ℕ) → ℕ → ℕ → ℕ
joined [] m n = m
joined ((len, input) ∷ pieces) m n = joined pieces (append m n input) (n + len)

abbrev pub total : List Piece → ℕ → ℕ
total [] n = n
total ((len, input) ∷ pieces) n = total pieces (n + len)

feed-Holds :
    (pieces : List Piece) (ctx : Md5Ctx) (m : ℕ → ℕ) (n : ℕ)
    → All (λ p. p.0 + 64 < 2 ^ 32) pieces
    → Holds ctx m n
    → Yields (λ c. Holds c (joined pieces m n) (total pieces n)) (feed pieces ctx)
unfolding feed
feed-Holds [] ctx m n small h = yields h
feed-Holds ((len, input) ∷ pieces) ctx m n (short, rest) h =
    Yields-bind (md5_update-Holds ctx m n input len h short)
      (λ c hc. feed-Holds pieces c (append m n input) (n + len) rest hc)

-- The digest that `MD5Init`, any number of calls of `MD5Update` and `MD5Final` give is the digest
-- of the pieces joined and padded, for pieces at least 65 bytes shorter than `2 ^ 32`, whatever
-- the buffer held.
pub md5_pieces :
    (pieces : List Piece) (buffer : ℕ → ℕ)
    → All (λ p. p.0 + 64 < 2 ^ 32) pieces
    → (feed pieces (md5_init buffer) >>= md5_final)
      ≡ some (message_digest (joined pieces (λ k. 0) 0) (total pieces 0))
md5_pieces pieces buffer small =
    Yields-then
      (feed-Holds pieces (md5_init buffer) (λ k. 0) 0 small (md5_init-Holds buffer (λ k. 0)))
      (λ c h. md5_final_lem c (joined pieces (λ k. 0) 0) (total pieces 0) h)
