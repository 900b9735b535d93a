-- ===== src/Pool/Walk.antt =====
-- A step along a free list.
use cvm.Base.{ℕ, ◌+◌, ◌<◌, ◌≤◌, ◌≡◌, List, ◌∷◌, ◌++◌, ◌==◌, false, arith}
use cvm.Pool.{Pool, budy_count, size_of}
use cvm.Pool.Bytes.{get}
use cvm.Pool.Lists.{◌∈◌, has-back}
use cvm.Pool.Segments.{Seg, Seg-second, Seg-pos, Seg-back, first_of}
use cvm.Pool.Invariant.{FreeLists, IsPool, Bounds, nonzero}
use cvm.Pool.Relink.{in_chain}

-- The block behind `front`: it is not NULL, it ends below `top`, and its link goes on.
module _ {ptr base top : ℕ} (b : Bounds ptr base top) {p : Pool} {lists : FreeLists}
    (s : IsPool ptr base top p lists) (idx : ℕ) (hi : idx < budy_count) (front : List ℕ) (x : ℕ)
    (rest : List ℕ) (e : lists idx ≡ front ++ (x ∷ rest)) where
  pub here : Seg ptr p.mem 0 x (x ∷ rest)
  here = Seg-back front (x ∷ rest) (in_chain b s idx hi (front ++ (x ∷ rest)) e)

  here-in : x ∈ lists idx
  here-in = rw e (has-back x front (x ∷ rest) (ground arith))

  pub real : (x == 0) ≡ false
  real = nonzero x (Seg-pos here)

  pub step : get ptr x p.mem ≡ first_of rest
  step = Seg-second here

  pub fits : x + size_of idx ≤ top
  fits = s.laid.inside idx x hi here-in
