-- ===== src/Md5/Transform.antt =====
-- `MD5Transform` of vapps/md5.c and the macros of vapps/md5.h.
use cvm.Base.{ℕ, ◌+◌, ◌-◌, ◌^◌, List, [], ◌∷◌, bit_and, bit_or, bit_xor, get_or}
use cvm.Base.Word.{u32, add32, shl32, shr32}
use cvm.Md5.Codec.{decode}

-- `state[0]` to `state[3]`
pub record Chain : Type 0 where
  pub a : ℕ
  pub b : ℕ
  pub c : ℕ
  pub d : ℕ

abbrev not32 : ℕ → ℕ
not32 x = 2 ^ 32 - 1 - x

-- The macros F, G, H and I, which combine three words.
pub data Mix : Type 0 where
  f : Mix
  g : Mix
  h : Mix
  i : Mix

mix : Mix → ℕ → ℕ → ℕ → ℕ
mix f x y z = bit_or (bit_and x y) (bit_and (not32 x) z)
mix g x y z = bit_or (bit_and x z) (bit_and y (not32 z))
mix h x y z = bit_xor (bit_xor x y) z
mix i x y z = bit_xor y (bit_or x (not32 z))

rotate_left : ℕ → ℕ → ℕ
rotate_left x n = bit_or (shl32 x n) (shr32 x (32 - n))

-- A line of `MD5Transform`: the macro, the index of the word, the rotation and the constant.
pub record Step : Type 0 where
  pub kind : Mix
  pub word : ℕ
  pub turn : ℕ
  pub constant : ℕ

abbrev step : Mix → ℕ → ℕ → ℕ → Step
step kind word turn constant = record { kind = kind; word = word; turn = turn; constant = constant }

-- The macros FF, GG, HH and II. The first argument of the macro is written, and the next line has
-- the variables one place further round: so the new value moves to the second place here.
apply_step : List ℕ → Chain → Step → Chain
unfolding mix rotate_left
apply_step x s t =
    let sum : ℕ = u32 (s.a + mix t.kind s.b s.c s.d + get_or x t.word 0 + t.constant) in
    record { a = s.d; b = add32 (rotate_left sum t.turn) s.b; c = s.b; d = s.c }

apply_all : List ℕ → Chain → List Step → Chain
unfolding apply_step
apply_all x s [] = s
apply_all x s (t ∷ ts) = apply_all x (apply_step x s t) ts

abbrev round1 : List Step
round1 =
    step f 0 7 0xd76aa478
    ∷ step f 1 12 0xe8c7b756
    ∷ step f 2 17 0x242070db
    ∷ step f 3 22 0xc1bdceee
    ∷ step f 4 7 0xf57c0faf
    ∷ step f 5 12 0x4787c62a
    ∷ step f 6 17 0xa8304613
    ∷ step f 7 22 0xfd469501
    ∷ step f 8 7 0x698098d8
    ∷ step f 9 12 0x8b44f7af
    ∷ step f 10 17 0xffff5bb1
    ∷ step f 11 22 0x895cd7be
    ∷ step f 12 7 0x6b901122
    ∷ step f 13 12 0xfd987193
    ∷ step f 14 17 0xa679438e
    ∷ step f 15 22 0x49b40821
    ∷ []

abbrev round2 : List Step
round2 =
    step g 1 5 0xf61e2562
    ∷ step g 6 9 0xc040b340
    ∷ step g 11 14 0x265e5a51
    ∷ step g 0 20 0xe9b6c7aa
    ∷ step g 5 5 0xd62f105d
    ∷ step g 10 9 0x2441453
    ∷ step g 15 14 0xd8a1e681
    ∷ step g 4 20 0xe7d3fbc8
    ∷ step g 9 5 0x21e1cde6
    ∷ step g 14 9 0xc33707d6
    ∷ step g 3 14 0xf4d50d87
    ∷ step g 8 20 0x455a14ed
    ∷ step g 13 5 0xa9e3e905
    ∷ step g 2 9 0xfcefa3f8
    ∷ step g 7 14 0x676f02d9
    ∷ step g 12 20 0x8d2a4c8a
    ∷ []

abbrev round3 : List Step
round3 =
    step h 5 4 0xfffa3942
    ∷ step h 8 11 0x8771f681
    ∷ step h 11 16 0x6d9d6122
    ∷ step h 14 23 0xfde5380c
    ∷ step h 1 4 0xa4beea44
    ∷ step h 4 11 0x4bdecfa9
    ∷ step h 7 16 0xf6bb4b60
    ∷ step h 10 23 0xbebfbc70
    ∷ step h 13 4 0x289b7ec6
    ∷ step h 0 11 0xeaa127fa
    ∷ step h 3 16 0xd4ef3085
    ∷ step h 6 23 0x4881d05
    ∷ step h 9 4 0xd9d4d039
    ∷ step h 12 11 0xe6db99e5
    ∷ step h 15 16 0x1fa27cf8
    ∷ step h 2 23 0xc4ac5665
    ∷ []

abbrev round4 : List Step
round4 =
    step i 0 6 0xf4292244
    ∷ step i 7 10 0x432aff97
    ∷ step i 14 15 0xab9423a7
    ∷ step i 5 21 0xfc93a039
    ∷ step i 12 6 0x655b59c3
    ∷ step i 3 10 0x8f0ccc92
    ∷ step i 10 15 0xffeff47d
    ∷ step i 1 21 0x85845dd1
    ∷ step i 8 6 0x6fa87e4f
    ∷ step i 15 10 0xfe2ce6e0
    ∷ step i 6 15 0xa3014314
    ∷ step i 13 21 0x4e0811a1
    ∷ step i 4 6 0xf7537e82
    ∷ step i 11 10 0xbd3af235
    ∷ step i 2 15 0x2ad7d2bb
    ∷ step i 9 21 0xeb86d391
    ∷ []

-- The 64 lines over the sixteen words, added to the state.
mash : List ℕ → Chain → Chain
unfolding apply_all
mash x s =
    let r = apply_all x (apply_all x (apply_all x (apply_all x s round1) round2) round3) round4 in
    record { a = add32 s.a r.a; b = add32 s.b r.b; c = add32 s.c r.c; d = add32 s.d r.d }

unfoldable pub transform : Chain → (ℕ → ℕ) → Chain
unfolding mash
transform s block = mash (decode 16 block) s
