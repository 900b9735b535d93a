-- ===== src/Tests/Digest.antt =====
-- Digests of known messages, after RFC 1321, and the theorems on MD5 at concrete data.
use cvm.Base.{ℕ, ◌+◌, ◌≡◌, refl, arith, Option, some, List, [], ◌∷◌}
use cvm.Md5.{◌>>=◌, md5_init, md5_update, md5_final}
use cvm.Md5.Transform.{transform}
use cvm.Md5.Codec.{encode, decode}
use cvm.Md5.Stream.{append, Holds, md5_init-Holds, md5_update-Holds, Yields}
use cvm.Md5.Digest.{message_digest, md5_final_lem, Piece, feed, joined, md5_pieces}

-- The digest of a text read in pieces.
digest : List Piece → Option (List ℕ)
unfolding feed md5_update md5_final md5_init transform encode decode
digest pieces = feed pieces (md5_init (λ k. 0)) >>= md5_final

abbrev nothing : ℕ → ℕ
nothing k = 0

abbrev abc : List Piece
abc = (1, λ k. 97) ∷ (2, λ k. 98 + k) ∷ []

-- `d41d8cd98f00b204e9800998ecf8427e`
known_empty :
    digest []
    ≡ some (
        0xD4 ∷ 0x1D ∷ 0x8C ∷ 0xD9 ∷ 0x8F ∷ 0x00 ∷ 0xB2 ∷ 0x04 ∷ 0xE9 ∷ 0x80 ∷ 0x09 ∷ 0x98 ∷ 0xEC
        ∷ 0xF8 ∷ 0x42 ∷ 0x7E ∷ [])
unfolding digest
known_empty = refl

-- `900150983cd24fb0d6963f7d28e17f72`
known_short :
    digest abc
    ≡ some (
        0x90 ∷ 0x01 ∷ 0x50 ∷ 0x98 ∷ 0x3C ∷ 0xD2 ∷ 0x4F ∷ 0xB0 ∷ 0xD6 ∷ 0x96 ∷ 0x3F ∷ 0x7D ∷ 0x28
        ∷ 0xE1 ∷ 0x7F ∷ 0x72 ∷ [])
unfolding digest
known_short = refl

md5_update-Holds_example :
    Yields
      (λ c. Holds c (append nothing 0 (λ k. 97)) 100)
      (md5_update (md5_init nothing) (λ k. 97) 100)
md5_update-Holds_example =
    md5_update-Holds (md5_init nothing) nothing 0 (λ k. 97) 100 (md5_init-Holds nothing nothing)
      (omega arith)

md5_final_lem_example : md5_final (md5_init nothing) ≡ some (message_digest nothing 0)
md5_final_lem_example = md5_final_lem (md5_init nothing) nothing 0 (md5_init-Holds nothing nothing)

md5_pieces_example :
    (feed abc (md5_init nothing) >>= md5_final) ≡ some (message_digest (joined abc nothing 0) 3)
md5_pieces_example = md5_pieces abc nothing (omega arith, (omega arith, tt))
