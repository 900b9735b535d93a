-- ===== src/Pool/Header.antt =====
-- The header of a block that is handed out.
use cvm.Base.{ℕ, ◌+◌, ◌^◌, ◌<◌, ◌≤◌, ◌≡◌, inr, ◌∙◌, arith}
use native.Mathlib.Nat.{mod-eq_of_lt}
use cvm.Pool.{Pool, budy_count}
use cvm.Pool.Bytes.{Ram, Outside, get-put, get-put_apart, put-Outside, get_same}
use cvm.Pool.Invariant.{FreeLists, Clear, IsPool, IsPool-put, Bounds}
use cvm.Pool.Alloc.{header_size, header_idx, header_count, header_magic, obj_magic, set_header}

-- The header at `a` says this.
pub record IsHeader (m : Ram) (a idx count : ℕ) : Type 0 where
  pub says_idx : header_idx a m ≡ idx
  pub says_count : header_count a m ≡ count
  pub says_magic : header_magic a m ≡ obj_magic

pub set_header-IsHeader :
    (a idx count : ℕ) (p : Pool)
    → idx < budy_count
    → count < 2 ^ 16
    → IsHeader (set_header a idx count p).mem a idx count
unfolding set_header
set_header-IsHeader a idx count p hi hc = record {
  says_idx =
      get-put_apart 4 (a + 4) obj_magic _ 2 a (inr (omega arith))
      ∙ get-put_apart 2 (a + 2) count _ 2 a (inr (omega arith))
      ∙ get-put 2 a idx p.mem
      ∙ mod-eq_of_lt (omega arith);
  says_count =
      get-put_apart 4 (a + 4) obj_magic _ 2 (a + 2) (inr (omega arith))
      ∙ get-put 2 (a + 2) count _
      ∙ mod-eq_of_lt hc;
  says_magic = get-put 4 (a + 4) obj_magic _;
}

pub set_header-bytes :
    (a idx count : ℕ) (p : Pool) (c : ℕ)
    → Outside c a header_size
    → (set_header a idx count p).mem c ≡ p.mem c
unfolding set_header
set_header-bytes a idx count p c h =
    put-Outside 4 (a + 4) obj_magic _ c (ground arith)
    ∙ put-Outside 2 (a + 2) count _ c (ground arith)
    ∙ put-Outside 2 a idx p.mem c (ground arith)

pub IsPool-set_header :
    {ptr base top : ℕ} {p : Pool} {lists : FreeLists} (a idx count w : ℕ)
    → Bounds ptr base top
    → IsPool ptr base top p lists
    → 8 ≤ w
    → Clear a w lists
    → IsPool ptr base top (set_header a idx count p) lists
unfolding set_header
IsPool-set_header a idx count w b s h c =
    let one = IsPool-put s b 2 a idx (λ i x hi m. ground (arith, c i x hi m)) in
    let two = IsPool-put one b 2 (a + 2) count (λ i x hi m. ground (arith, c i x hi m)) in
    IsPool-put two b 4 (a + 4) obj_magic (λ i x hi m. ground (arith, c i x hi m))

-- A header stays where its bytes stay.
pub IsHeader-same :
    {m g : Ram} {a idx count : ℕ}
    → ((c : ℕ) → a ≤ c → c < a + header_size → g c ≡ m c)
    → IsHeader m a idx count
    → IsHeader g a idx count
IsHeader-same h i = record {
  says_idx = get_same 2 _ _ _ (λ c l u. h c (omega arith) (omega arith)) ∙ i.says_idx;
  says_count = get_same 2 _ _ _ (λ c l u. h c (omega arith) (omega arith)) ∙ i.says_count;
  says_magic = get_same 4 _ _ _ (λ c l u. h c (omega arith) (omega arith)) ∙ i.says_magic;
}
