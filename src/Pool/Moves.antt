-- ===== src/Pool/Moves.antt =====
-- What an operation on a pool comes to: a pool with its invariant, in which the memory that is in
-- use is as it was.
use cvm.Base.{ℕ, suc, ◌+◌, ◌*◌, ◌<◌, ◌≤◌, ◌≡◌, refl, ap, ◌∙◌, List, [], ◌∷◌, arith}
use cvm.Outcome.{Result, ok, ◌>>=◌}
use cvm.Pool.{Pool, budy_count, size_of, set_place, set_first, count_down, pool_add_free}
use cvm.Pool.Bytes.{get, Apart}
use cvm.Pool.Segments.{Seg-first, Seg-second}
use cvm.Pool.Invariant.{FreeLists, set_list, Clear, IsPool, Bounds}
use cvm.Pool.Relink.{in_chain, in_order}
use cvm.Pool.Remove.{removed, removed-Clear}
use cvm.Pool.Insert.{added, pool_add_free_lem, IsPool-added}
use cvm.Pool.Frame.{added-bytes, added-keeps}

-- A property of regions: `In a n` for the `n` bytes from `a`.
abbrev pub Regions : Type 1
Regions = ℕ → ℕ → Type 0

-- From `p` the operation leads to a pool in which the regions of `In` are clear of the free blocks
-- and their bytes unchanged.
pub record Moves (ptr base top : ℕ) (In : Regions) (p : Pool) (r : Result Pool) : Type 0 where
  pub pool : Pool
  pub lists : FreeLists
  pub result : r ≡ ok pool
  pub good : IsPool ptr base top pool lists
  pub keeps : (a n : ℕ) → 0 < n → In a n → Clear a n lists
  pub bytes : (c : ℕ) → In c 1 → pool.mem c ≡ p.mem c

module _ {ptr base top : ℕ} where
  Moves-stay :
      {p : Pool} {lists : FreeLists} {In : Regions}
      → IsPool ptr base top p lists
      → ((a n : ℕ) → 0 < n → In a n → Clear a n lists)
      → Moves ptr base top In p (ok p)
  Moves-stay s h = record {
    pool = _;
    lists = _;
    result = refl;
    good = s;
    keeps = h;
    bytes = λ c i. refl;
  }

  pub Moves-bind :
      {In : Regions} {p : Pool} {r : Result Pool} {f : Pool → Result Pool}
      → Moves ptr base top In p r
      → ((q : Pool) (lists : FreeLists)
          → IsPool ptr base top q lists
          → Moves ptr base top (λ a n. Clear a n lists) q (f q))
      → Moves ptr base top In p (r >>= f)
  Moves-bind {f = f} m k =
      let n = k m.pool m.lists m.good in
      record {
        pool = n.pool;
        lists = n.lists;
        result = ap (λ x. x >>= f) m.result ∙ n.result;
        good = n.good;
        keeps = λ a w h i. n.keeps a w h (m.keeps a w h i);
        bytes = λ c i. n.bytes c (m.keeps c 1 (omega arith) i) ∙ m.bytes c i;
      }

  -- `pool_add_free` of a run of one block or more.
  pub Moves-add :
      {p : Pool} {lists : FreeLists}
      → Bounds ptr base top
      → IsPool ptr base top p lists
      → (idx : ℕ) → idx < budy_count
      → (k block : ℕ) → base ≤ block
      → block + suc k * size_of idx ≤ top
      → Clear block (suc k * size_of idx) lists
      → Moves ptr base top
          (λ a n. Clear a n lists × Apart a n block (suc k * size_of idx))
          p
          (pool_add_free ptr idx block (suc k) p)
  Moves-add b s idx hi k block low high clear = record {
    pool = added b s idx hi k block low high clear;
    lists = _;
    result = pool_add_free_lem b s idx hi k block low high clear;
    good = IsPool-added b s idx hi k block low high clear;
    keeps = λ a n h i. added-keeps b s idx hi k block low high clear a n i.0 i.1;
    bytes = λ c i. added-bytes b s idx hi k block low high clear c i.0 i.1;
  }

  -- What comes before the operation itself leaves the regions alone.
  pub Moves-from :
      {In Kept : Regions} {p q : Pool} {r : Result Pool}
      → ((a n : ℕ) → 0 < n → In a n → Kept a n)
      → ((c : ℕ) → In c 1 → q.mem c ≡ p.mem c)
      → Moves ptr base top Kept q r
      → Moves ptr base top In p r
  Moves-from h e m = record {
    pool = m.pool;
    lists = m.lists;
    result = m.result;
    good = m.good;
    keeps = λ a n pos i. m.keeps a n pos (h a n pos i);
    bytes = λ c i. m.bytes c (h c 1 (omega arith) i) ∙ e c i;
  }

  -- Where the regions are those clear of the free blocks, nothing need be known of them.
  pub Moves-id :
      {p : Pool} {lists : FreeLists}
      → IsPool ptr base top p lists
      → Moves ptr base top (λ a n. Clear a n lists) p (ok p)
  Moves-id s = Moves-stay s (λ a n h i. i)

  -- The first block of a bucket, taken out.
  module _ {p : Pool} {lists : FreeLists} (b : Bounds ptr base top)
      (s : IsPool ptr base top p lists) (idx : ℕ) (hi : idx < budy_count) (x : ℕ) (xs : List ℕ)
      (e : lists idx ≡ x ∷ xs) where
    pub first_is : (p.buckets idx).free_list ≡ x
    first_is = Seg-first (in_chain b s idx hi (x ∷ xs) e)

    pub without_first :
        count_down idx 1 (set_first idx (get ptr x p.mem) p) ≡ removed b s idx hi [] (x ∷ []) xs e
    unfolding set_place
    without_first =
        ap (λ v. count_down idx 1 (set_first idx v p)) (Seg-second (in_chain b s idx hi (x ∷ xs) e))

    pub first-Clear : Clear x (size_of idx) (set_list idx xs lists)
    first-Clear = removed-Clear b s idx hi [] (x ∷ []) xs e x (ground arith)

    pub first-Apart : (a n : ℕ) → Clear a n lists → Apart a n x (size_of idx)
    first-Apart a n h = h idx x hi (rw e (ground arith))

    pub first-inside : (base ≤ x) × (x + size_of idx ≤ top)
    first-inside =
        ((in_order b s idx hi (x ∷ xs) e).0, s.laid.inside idx x hi (rw e (ground arith)))
