-- ===== src/Md5/Codec.antt =====
-- `MD5Encode` and `MD5Decode` of vapps/md5.c: words as four bytes each, the low byte first.
use cvm.Base.{
  ℕ, zero, suc, ◌+◌, ◌*◌, ◌/◌, ◌%◌, ◌^◌, ◌<◌, ◌≡◌, refl, arith, ap, ap₂, ◌∙◌, List, [], ◌∷◌, length,
  get_or, All, bit_or,
}
use cvm.Base.Word.{shl32, shr32}
use cvm.Base.Bits.{bit_or_fields_right}

-- The loop takes a word from `input` for every four bytes of `output`.
unfoldable pub encode : List ℕ → List ℕ
encode [] = []
encode (w ∷ ws) =
    w % 2 ^ 8 ∷ shr32 w 8 % 2 ^ 8 ∷ shr32 w 16 % 2 ^ 8 ∷ shr32 w 24 % 2 ^ 8 ∷ encode ws

abbrev word_at : (ℕ → ℕ) → ℕ → ℕ
word_at input j =
    bit_or (bit_or (bit_or (input j) (shl32 (input (j + 1)) 8)) (shl32 (input (j + 2)) 16))
      (shl32 (input (j + 3)) 24)

-- `count` words.
unfoldable pub decode : (count : ℕ) → (ℕ → ℕ) → List ℕ
decode zero input = []
decode (suc count) input = word_at input 0 ∷ decode count (λ k. input (suc (suc (suc (suc k)))))

pub decode-same :
    (count : ℕ) (p q : ℕ → ℕ)
    → ((k : ℕ) → k < 4 * count → p k ≡ q k)
    → decode count p ≡ decode count q
unfolding decode
decode-same zero p q h = refl
decode-same (suc count) p q h = rw (
  h 0 (omega arith),
  h 1 (omega arith),
  h 2 (omega arith),
  h 3 (omega arith),
  decode-same count (λ k. p (suc (suc (suc (suc k))))) (λ k. q (suc (suc (suc (suc k)))))
      (λ k in_it. h (suc (suc (suc (suc k)))) (omega arith)),
)

length-encode : (ws : List ℕ) → length (encode ws) ≡ 4 * length ws
unfolding encode
length-encode [] = refl
length-encode (w ∷ ws) = omega (arith, length-encode ws)

-- One more byte above the `k` bits of a word.
put_byte : (k w v : ℕ) → w < 2 ^ k → v * 2 ^ k < 2 ^ 32 → bit_or w (shl32 v k) ≡ v * 2 ^ k + w
put_byte k w v low fits =
    ap (bit_or w) {x = shl32 v k} {y = v * 2 ^ k} (omega (arith, fits))
    ∙ bit_or_fields_right k v w low

word_again :
    (w : ℕ)
    → w < 2 ^ 32
    → bit_or
        (bit_or (bit_or (w % 2 ^ 8) (shl32 (shr32 w 8 % 2 ^ 8) 8)) (shl32 (shr32 w 16 % 2 ^ 8) 16))
        (shl32 (shr32 w 24 % 2 ^ 8) 24)
      ≡ w
word_again w small =
    ap (λ u. bit_or (bit_or u (shl32 (shr32 w 16 % 2 ^ 8) 16)) (shl32 (shr32 w 24 % 2 ^ 8) 24))
      {y = w % 2 ^ 16}
      (put_byte 8 (w % 2 ^ 8) (w / 2 ^ 8 % 2 ^ 8) (omega arith) (omega arith) ∙ omega arith)
    ∙ ap (λ u. bit_or u (shl32 (shr32 w 24 % 2 ^ 8) 24)) {y = w % 2 ^ 24}
        (put_byte 16 (w % 2 ^ 16) (w / 2 ^ 16 % 2 ^ 8) (omega arith) (omega arith) ∙ omega arith)
    ∙ put_byte 24 (w % 2 ^ 24) (w / 2 ^ 24 % 2 ^ 8) (omega arith) (omega arith)
    ∙ omega arith

-- `MD5Decode` of the bytes that `MD5Encode` makes of 32-bit words gives the words.
decode-encode :
    (ws : List ℕ) → All (λ w. w < 2 ^ 32) ws → decode (length ws) (λ k. get_or (encode ws) k 0) ≡ ws
unfolding encode decode
decode-encode [] h = refl
decode-encode (w ∷ ws) (small, rest) =
    ap₂ (λ v vs. v ∷ vs) (word_again w small) (decode-encode ws rest)
