-- ===== src/Pool/Insert.antt =====
-- A run of blocks that is put into a free list.
use cvm.Base.{
  ℕ, zero, suc, ◌+◌, ◌*◌, ◌<◌, ◌≤◌, ◌≡◌, refl, ap, sym, ◌∙◌, List, [], ◌++◌, length, arith,
}
use mathlib.Core.Path.{subst, subst₂}
use native.Mathlib.Nat.{mod-eq_of_lt}
use cvm.Outcome.{ok}
use cvm.Pool.{
  Pool, Bucket, of_bucket, budy_count, size_of, set_next, count_up, link_run, pool_add_free,
  last_of,
}
use cvm.Pool.Bytes.{get, put}
use cvm.Pool.Lists.{
  ◌∈◌, has-front, has-back, run, run-apart, below, from, below-from, insert_at, Ascending-front,
  Ascending-run,
}
use cvm.Pool.Segments.{Seg, Seg-put, Seg-last, Seg-append, Seg-back, first_of, last_place}
use cvm.Pool.Invariant.{
  FreeLists, set_list, Clear, IsPool, Bounds, size_of-min, same_key, other_key, at_key,
}
use cvm.Pool.Runs.{
  one_less, in_table, insert_run_lem, link_run-Seg, IsPool-link_run, last_of_lem, last_block-run,
}
use cvm.Pool.Relink.{
  set_place-free_n, set_place-obj_size, first_of-le, in_chain, linked, linked-front, linked-rest,
  linked-clear, linked-others,
}
use cvm.Pool.Inserted.{run-Clear, added-Laid, inserted-lt, inserted-length}

module _ {ptr base top : ℕ} {p : Pool} {lists : FreeLists} (b : Bounds ptr base top)
    (s : IsPool ptr base top p lists) (idx : ℕ) (hi : idx < budy_count) (k block : ℕ)
    (low : base ≤ block) (high : block + suc k * size_of idx ≤ top)
    (clear : Clear block (suc k * size_of idx) lists) where
  abbrev pub size : ℕ
  size = size_of idx

  abbrev pub blocks : List ℕ
  blocks = run size block (suc k)

  abbrev pub front : List ℕ
  front = below block (lists idx)

  abbrev pub rest : List ℕ
  rest = from block (lists idx)

  split : lists idx ≡ front ++ rest
  split = sym (below-from block (lists idx))

  -- The run with its links, and then with the link before it.
  abbrev run_linked : Pool
  run_linked = link_run ptr k 0 block size p

  abbrev joined : Pool
  joined = linked ptr idx front block run_linked

  abbrev pub added : Pool
  added =
      count_up idx (suc k) (set_next ptr (last_of ptr block (suc k) size) (first_of rest) joined)

  pub run_linked-IsPool : IsPool ptr base top run_linked lists
  run_linked-IsPool =
      IsPool-link_run b size block k 0 (size_of-min idx)
        (λ j x hj m. ground (arith, clear j x hj m)) p s

  pub last-at : last_of ptr block (suc k) size ≡ block + k * size
  last-at = last_of_lem ptr block k size (omega (arith, high, b.ends))

  pub pool_add_free_lem : pool_add_free ptr idx block (suc k) p ≡ ok added
  unfolding pool_add_free
  pool_add_free_lem =
      rw
        (
          pool_add_free,
          in_table idx hi,
          one_less k,
          insert_run_lem ptr idx block (suc k) run_linked (lists idx)
              (omega (arith, run_linked-IsPool.counts idx hi)) (run_linked-IsPool.chain idx hi),
        )
        refl

  run-joined : (q : ℕ) → Seg ptr run_linked.mem q block blocks → Seg ptr joined.mem q block blocks
  run-joined q t =
      linked-clear b run_linked-IsPool idx hi front rest block split block q blocks
        (λ x hx y hy. ground (
          arith,
          run-Clear b s idx hi k block low high clear x idx y hx hi hy,
          size_of-min idx,
          b.wide,
        ))
        t

  -- The last link of the run goes to the blocks behind it.
  abbrev final : Pool
  final = set_next ptr (block + k * size) (first_of rest) joined

  added-final : added ≡ count_up idx (suc k) final
  added-final = ap (λ a. count_up idx (suc k) (set_next ptr a (first_of rest) joined)) last-at

  rest-below : first_of rest ≤ top
  rest-below =
      first_of-le rest
        λ y m. omega (arith, s.laid.inside idx y hi (rw split (has-back y front rest m)))

  final-run : Seg ptr final.mem (first_of rest) block blocks
  final-run =
      let before = run-joined (get ptr (block + k * size) run_linked.mem) (
        link_run-Seg k 0 block p block (omega arith) (omega (arith, size_of-min idx, b.wide))
          (omega (arith, low, b.real)) (omega (arith, high, b.ends))) in
      let after =
        Seg-last (first_of rest) block block (run size (block + size) k)
          (Ascending-front block blocks []
            (Ascending-run size block (suc k) [] (omega (arith, size_of-min idx)) tt))
          (λ x y hx hy.
            ground (arith, run-apart size block (suc k) x y hx hy, size_of-min idx, b.wide))
          before in
      subst₂ (λ a q. Seg ptr (put ptr a (first_of rest) joined.mem) q block blocks)
        (last_block-run size block k) (mod-eq_of_lt (omega (arith, rest-below, b.ends))) after

  -- The link is none of those of the lists.
  final-clear :
      (q r : ℕ) (ys : List ℕ)
      → (j : ℕ) → j < budy_count
      → ((y : ℕ) → y ∈ ys → y ∈ lists j)
      → Seg ptr joined.mem q r ys
      → Seg ptr final.mem q r ys
  final-clear q r ys j hj h t =
      Seg-put ptr (block + k * size) (first_of rest) ys
        (λ y m. ground (arith, clear j y hj (h y m), size_of-min j, size_of-min idx, b.wide)) t

  final-chain :
      (j : ℕ)
      → j < budy_count
      → Seg ptr final.mem 0
          ((count_up idx (suc k) final).buckets j).free_list
          (set_list idx (insert_at block blocks (lists idx)) lists j)
  final-chain =
      at_key
        (λ j (l : List ℕ).
          j < budy_count → Seg ptr final.mem 0 ((count_up idx (suc k) final).buckets j).free_list l)
        idx (insert_at block blocks (lists idx)) lists
        (λ h. rw (same_key idx) (
          Seg-append
            (final-clear block (joined.buckets idx).free_list front idx hi
              (λ y m. rw split (has-front y front rest m))
              (linked-front b run_linked-IsPool idx hi front rest block split
                (omega (arith, high))))
            (Seg-append final-run (
              final-clear 0 (first_of rest) rest idx hi (λ y m. rw split (has-back y front rest m))
                (linked-rest b run_linked-IsPool idx hi front rest block split (first_of rest) rest
                  (λ y m. m)
                  (Seg-back front rest
                    (in_chain b run_linked-IsPool idx hi (front ++ rest) split)))))))
        (λ j ne h. rw (other_key j idx ne) (
          final-clear 0 (joined.buckets j).free_list (lists j) j h (λ y m. m)
            (linked-others b run_linked-IsPool idx hi front rest block split j h ne)))

  added-counts :
      (j : ℕ)
      → j < budy_count
      → ((count_up idx (suc k) final).buckets j).free_n
        ≡ length (set_list idx (insert_at block blocks (lists idx)) lists j)
  added-counts =
      at_key (λ j l. j < budy_count → ((count_up idx (suc k) final).buckets j).free_n ≡ length l)
        idx (insert_at block blocks (lists idx)) lists
        (λ h. rw (same_key idx) (
          omega (
            arith,
            inserted-lt b s idx hi k block low high clear,
            inserted-length b s idx hi k block low high clear,
            set_place-free_n ptr idx (last_place of_bucket front) block run_linked idx,
            run_linked-IsPool.counts idx hi,
          )))
        (λ j ne h. rw (other_key j idx ne) (
          set_place-free_n ptr idx (last_place of_bucket front) block run_linked j
          ∙ run_linked-IsPool.counts j h))

  added-sizes :
      (j : ℕ) → j < budy_count → ((count_up idx (suc k) final).buckets j).obj_size ≡ size_of j
  added-sizes =
      at_key (λ j (c : Bucket). j < budy_count → c.obj_size ≡ size_of j) idx _ _
        (λ h.
          set_place-obj_size ptr idx (last_place of_bucket front) block run_linked idx
          ∙ run_linked-IsPool.sizes idx h)
        (λ j ne h.
          set_place-obj_size ptr idx (last_place of_bucket front) block run_linked j
          ∙ run_linked-IsPool.sizes j h)

  pub IsPool-added :
      IsPool ptr base top added (set_list idx (insert_at block blocks (lists idx)) lists)
  IsPool-added =
      subst (λ q. IsPool ptr base top q (set_list idx (insert_at block blocks (lists idx)) lists))
        (sym added-final)
        (record {
          laid = added-Laid b s idx hi k block low high clear;
          chain = final-chain;
          counts = added-counts;
          sizes = added-sizes;
        })

-- In a pool with its invariant, `pool_add_free` of `n` blocks next to each other, one or more, of
-- a bucket of the table, which lie between `base` and `top` and have no byte in common with a
-- free block, puts them into the list of the bucket in the order of addresses; the other lists
-- stay as they are, and the invariant holds again.
pub pool_add_free-insert :
    {ptr base top : ℕ} {p : Pool} {lists : FreeLists} (b : Bounds ptr base top)
    → IsPool ptr base top p lists
    → (idx n block : ℕ) → idx < budy_count
    → 0 < n
    → base ≤ block
    → block + n * size_of idx ≤ top
    → Clear block (n * size_of idx) lists
    → (q : Pool) × (pool_add_free ptr idx block n p ≡ ok q)
      × IsPool ptr base top q
          (set_list idx (insert_at block (run (size_of idx) block n) (lists idx)) lists)
pool_add_free-insert b s idx zero block hi pos low high clear = absurd (omega arith)
pool_add_free-insert b s idx (suc k) block hi pos low high clear = (
  added b s idx hi k block low high clear,
  pool_add_free_lem b s idx hi k block low high clear,
  IsPool-added b s idx hi k block low high clear,
)
