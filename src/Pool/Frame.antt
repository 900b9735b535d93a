-- ===== src/Pool/Frame.antt =====
-- What the work on the free lists leaves as it was: the bytes and the regions that are clear of
-- the free blocks, those of the memory that is in use.
use cvm.Base.{ℕ, zero, suc, ◌+◌, ◌*◌, ◌<◌, ◌≤◌, ◌≡◌, refl, sym, ◌∙◌, inl, inr, List, ◌++◌, arith}
use cvm.Pool.{Pool, budy_count, size_of, set_next, link_run}
use cvm.Pool.Bytes.{Apart, put-Outside}
use cvm.Pool.Lists.{run, run-within, below, from, below-from, insert_at}
use cvm.Pool.Segments.{first_of}
use cvm.Pool.Invariant.{FreeLists, set_list, Clear, IsPool, Bounds, size_of-min}
use cvm.Pool.Relink.{linked-bytes}
use cvm.Pool.Remove.{removed, removed-subset}
use cvm.Pool.Inserted.{in-new}
use cvm.Pool.Insert.{added, last-at, run_linked-IsPool}

link_run-bytes :
    (ptr size block left i : ℕ) (p : Pool) (c : ℕ)
    → ptr ≤ size
    → Apart c 1 block ((i + left) * size)
    → (link_run ptr left i block size p).mem c ≡ p.mem c
unfolding link_run
link_run-bytes ptr size block zero i p c h a = refl
link_run-bytes ptr size block (suc left) i p c h a =
    link_run-bytes ptr size block left (suc i)
      (set_next ptr (block + i * size) (block + suc i * size) p) c h (ground arith)
    ∙ put-Outside ptr (block + i * size) (block + suc i * size) p.mem c (ground arith)

module _ {ptr base top : ℕ} {p : Pool} {lists : FreeLists} (b : Bounds ptr base top)
    (s : IsPool ptr base top p lists) (idx : ℕ) (hi : idx < budy_count) where
  module _ (front mid rest : List ℕ) (split : lists idx ≡ front ++ (mid ++ rest)) where
    pub removed-bytes :
        (c : ℕ) → Clear c 1 lists → (removed b s idx hi front mid rest split).mem c ≡ p.mem c
    removed-bytes c h = linked-bytes b s idx hi front (mid ++ rest) (first_of rest) c split h

    pub removed-keeps : (a n : ℕ) → Clear a n lists → Clear a n (set_list idx (front ++ rest) lists)
    removed-keeps a n h i x hx m = h i x hx (removed-subset b s idx hi front mid rest split i x m)

  module _ (k block : ℕ) (low : base ≤ block) (high : block + suc k * size_of idx ≤ top)
      (clear : Clear block (suc k * size_of idx) lists) where
    pub added-bytes :
        (c : ℕ)
        → Clear c 1 lists
        → Apart c 1 block (suc k * size_of idx)
        → (added b s idx hi k block low high clear).mem c ≡ p.mem c
    added-bytes c h a =
        put-Outside ptr _ (first_of (from block (lists idx))) _ c
          (ground (arith, last-at b s idx hi k block low high clear, size_of-min idx, b.wide))
        ∙ linked-bytes b (run_linked-IsPool b s idx hi k block low high clear) idx hi
            (below block (lists idx)) (from block (lists idx)) block c
            (sym (below-from block (lists idx))) h
        ∙ link_run-bytes ptr (size_of idx) block k 0 p c (omega (arith, size_of-min idx, b.wide))
            (ground (arith, size_of-min idx))

    pub added-keeps :
        (a n : ℕ)
        → Clear a n lists
        → Apart a n block (suc k * size_of idx)
        → Clear a n
            (set_list idx (insert_at block (run (size_of idx) block (suc k)) (lists idx)) lists)
    added-keeps a n h far i x hx m = elim (in-new b s idx hi k block low high clear i x m) [
      | inl o ↦ h i x hx o
      | inr r ↦ rw (r.0) (ground (arith, far, run-within (size_of idx) block (suc k) x r.1))
    ]
