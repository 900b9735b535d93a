-- ===== src/Md5.antt =====
-- The MD5 digest of vapps/md5.c, a program for the machine. Byte arrays are functions from the
-- place to the byte, `unsigned int` values are numbers below `2 ^ 32`.
pub mod Transform
pub mod Codec
pub mod Blocks
pub mod Stream
pub mod Digest
use cvm.Base.{
  ℕ, zero, suc, ◌+◌, ◌-◌, ◌*◌, ◌/◌, ◌%◌, ◌^◌, true, false, ◌&&◌, Option, none, some, List, [], ◌∷◌,
  ◌==◌, ltb, leb, if◌then◌else◌, get_or, replicate, bit_and,
}
use cvm.Base.Word.{add32, sub32, shl32, shr32}
use Transform.{Chain, transform}
use Codec.{encode}

pub record Md5Ctx : Type 0 where
  -- `count[0]` and `count[1]`, the low and the high word of the number of bits
  pub count_low : ℕ
  pub count_high : ℕ
  pub state : Chain
  pub buffer : ℕ → ℕ

abbrev pub first_state : Chain
first_state = record { a = 0x67452301; b = 0xEFCDAB89; c = 0x98BADCFE; d = 0x10325476 }

-- The buffer is not touched, so what it holds is an argument.
unfoldable pub md5_init : (ℕ → ℕ) → Md5Ctx
md5_init buffer = record { count_low = 0; count_high = 0; state = first_state; buffer = buffer }

-- `memcpy(&dest[at], &src[from], len)`
abbrev pub memcpy : (ℕ → ℕ) → ℕ → (ℕ → ℕ) → ℕ → ℕ → ℕ → ℕ
memcpy dest at src from len i =
    if leb at i && ltb i (at + len) then src (from + (i - at)) else dest i

infixl 5 ◌>>=◌
abbrev pub ◌>>=◌ : {A B : Type 0} → Option A → (A → Option B) → Option B
none >>= f = none
some a >>= f = f a

-- `for(i = partlen; i+64 <= inputlen; i+=64)` with a bound on the rounds: the last `i` and the
-- state, or `none` if the bound was reached.
unfoldable pub whole_blocks : ℕ → ℕ → ℕ → (ℕ → ℕ) → Chain → Option (ℕ × Chain)
whole_blocks zero i inputlen input st = if leb (add32 i 64) inputlen then none else some (i, st)
whole_blocks (suc left) i inputlen input st = elim (leb (add32 i 64) inputlen) [
  | false ↦ some (i, st)
  | true ↦ whole_blocks left (add32 i 64) inputlen input (transform st (λ k. input (i + k)))
]

-- `(context->count[0] >> 3) & 0x3F`
abbrev pub fill : Md5Ctx → ℕ
fill ctx = bit_and (shr32 ctx.count_low 3) 0x3F

-- The two counters, with the carry between them.
unfoldable pub add_bits : Md5Ctx → ℕ → Md5Ctx
add_bits ctx inputlen =
    let low : ℕ = add32 ctx.count_low (shl32 inputlen 3) in
    let carry : ℕ = if ltb low (shl32 inputlen 3) then 1 else 0 in
    record ctx {
      count_low = low;
      count_high = add32 (add32 ctx.count_high carry) (shr32 inputlen 29);
    }

-- The full buffer is hashed, then the whole blocks of the input; the rest is kept.
unfoldable pub hash_blocks : Md5Ctx → ℕ → (ℕ → ℕ) → ℕ → Option Md5Ctx
unfolding whole_blocks
hash_blocks ctx index input inputlen = do
  let partlen : ℕ = sub32 64 index
  let buffer : ℕ → ℕ = memcpy ctx.buffer index input 0 partlen
  (i, st) ← whole_blocks (inputlen / 64) partlen inputlen input (transform ctx.state buffer)
  some (record ctx { state = st; buffer = memcpy buffer 0 input i (sub32 inputlen i) })

unfoldable pub md5_update : Md5Ctx → (ℕ → ℕ) → ℕ → Option Md5Ctx
unfolding add_bits hash_blocks
md5_update ctx input inputlen =
    if leb (sub32 64 (fill ctx)) inputlen
    then hash_blocks (add_bits ctx inputlen) (fill ctx) input inputlen
    else some
        (record (add_bits ctx inputlen) { buffer = memcpy ctx.buffer (fill ctx) input 0 inputlen })

abbrev pub array : List ℕ → ℕ → ℕ
array bytes k = get_or bytes k 0

abbrev pub padding : List ℕ
padding = 0x80 ∷ replicate 63 0

-- The digest of 16 bytes; the context it leaves is left out.
unfoldable pub md5_final : Md5Ctx → Option (List ℕ)
unfolding md5_update encode
md5_final ctx = do
  let index : ℕ = fill ctx
  let padlen : ℕ = if ltb index 56 then 56 - index else 120 - index
  let bits : List ℕ = encode (ctx.count_low ∷ ctx.count_high ∷ [])
  padded ← md5_update ctx (array padding) padlen
  counted ← md5_update padded (array bits) 8
  some (encode (counted.state.a ∷ counted.state.b ∷ counted.state.c ∷ counted.state.d ∷ []))
