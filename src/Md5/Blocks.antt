-- ===== src/Md5/Blocks.antt =====
-- The loop of `MD5Update` over whole blocks.
use cvm.Base.{
  ℕ, zero, suc, ◌+◌, ◌*◌, ◌^◌, ◌≤◌, ◌<◌, ◌≡◌, refl, arith, ap, ap₂, ◌∙◌, true, false, Option, some,
  leb,
}
use cvm.Base.Word.{add32}
use cvm.Md5.{whole_blocks}
use cvm.Md5.Transform.{Chain, transform}
use cvm.Md5.Codec.{decode-same}

pub transform-same :
    (s t : Chain) (p q : ℕ → ℕ)
    → s ≡ t
    → ((k : ℕ) → k < 64 → p k ≡ q k)
    → transform s p ≡ transform t q
unfolding transform
transform-same s t p q e h = rw (e, decode-same 16 p q h)

-- The state after the first `count` blocks of a message.
unfoldable pub absorb : ℕ → (ℕ → ℕ) → Chain → Chain
absorb zero m s = s
absorb (suc count) m s = transform (absorb count m s) (λ k. m (64 * count + k))

pub absorb-same :
    (count : ℕ) (p q : ℕ → ℕ) (s : Chain)
    → ((k : ℕ) → k < 64 * count → p k ≡ q k)
    → absorb count p s ≡ absorb count q s
unfolding absorb
absorb-same zero p q s h = refl
absorb-same (suc count) p q s h =
    transform-same (absorb count p s) (absorb count q s) (λ k. p (64 * count + k))
      (λ k. q (64 * count + k)) (absorb-same count p q s (λ k below. h k (omega arith)))
      (λ k below. h (64 * count + k) (omega arith))

pair_same :
    {i j : ℕ} {s t : Chain} → i ≡ j → s ≡ t → Path (Option (ℕ × Chain)) (some (i, s)) (some (j, t))
pair_same e h = ap₂ (λ i s. some (i, s)) e h

stops : (i len : ℕ) → i ≤ len → len < i + 64 → len + 64 < 2 ^ 32 → leb (add32 i 64) len ≡ false
stops i len inside over small = ground arith

goes : (i len : ℕ) → i + 64 ≤ len → len + 64 < 2 ^ 32 → leb (add32 i 64) len ≡ true
goes i len inside small = ground arith

-- The loop hashes the whole blocks of the input from `i` on.
pub whole_blocks_lem :
    (count left i len : ℕ) (input m : ℕ → ℕ) (j : ℕ) (s t : Chain)
    → count ≤ left
    → i + 64 * count ≤ len
    → len < i + 64 * count + 64
    → len + 64 < 2 ^ 32
    → t ≡ absorb j m s
    → ((k : ℕ) → k < 64 * count → input (i + k) ≡ m (64 * j + k))
    → whole_blocks left i len input t ≡ some (i + 64 * count, absorb (j + count) m s)
unfolding whole_blocks absorb
whole_blocks_lem zero zero i len input m j s t enough inside over small e h =
    rw (stops i len (omega arith) (omega arith) small)
      (pair_same (omega arith) (e ∙ ap (λ c. absorb c m s) {y = j + 0} (omega arith)))
whole_blocks_lem zero (suc left) i len input m j s t enough inside over small e h =
    rw (whole_blocks, stops i len (omega arith) (omega arith) small)
      (pair_same (omega arith) (e ∙ ap (λ c. absorb c m s) {y = j + 0} (omega arith)))
whole_blocks_lem (suc count) zero i len input m j s t enough inside over small e h = elim enough [ ]
whole_blocks_lem (suc count) (suc left) i len input m j s t enough inside over small e h =
    rw (whole_blocks, goes i len (omega arith) small)
      (whole_blocks_lem count left (add32 i 64) len input m (suc j) s
          (transform t (λ k. input (i + k))) (omega arith) (omega arith) (omega arith) small
          (transform-same t (absorb j m s) (λ k. input (i + k)) (λ k. m (64 * j + k)) e
            (λ k below. h k (omega arith)))
          (λ k below.
            ap input {y = i + (64 + k)} (omega arith)
            ∙ h (64 + k) (omega arith)
            ∙ ap m {y = 64 * suc j + k} (omega arith))
        ∙ pair_same (omega arith)
            (ap (λ c. absorb c m s) {x = suc j + count} {y = j + suc count} (omega arith)))
