-- ===== src/Pool/Taken.antt =====
-- Blocks that are handed out: taken out of a free list, with a header.
use cvm.Base.{
  ℕ, zero, suc, ◌+◌, ◌*◌, ◌^◌, ◌<◌, ◌≤◌, ◌≡◌, refl, ap, ◌∙◌, ◌⊎◌, inr, List, ◌++◌, arith,
}
use mathlib.Core.Path.{subst}
use native.Mathlib.Nat.{mul-le-mul_right}
use cvm.Outcome.{Result, ok}
use cvm.Pool.{Pool, of_bucket, budy_count, size_of, set_place, count_down}
use cvm.Pool.Bytes.{Ram, Apart}
use cvm.Pool.Lists.{◌∈◌, run, length-run, Ascending-le}
use cvm.Pool.Segments.{first_of, last_place, last_block, last_block-in}
use cvm.Pool.Invariant.{FreeLists, set_list, Clear, IsPool, Bounds, size_of-min}
use cvm.Pool.Remove.{in-mid, removed, removed-Clear, IsPool-removed}
use cvm.Pool.Runs.{last_block-run}
use cvm.Pool.Frame.{removed-bytes, removed-keeps}
use cvm.Pool.Alloc.{header_size, set_header}
use cvm.Pool.Header.{IsHeader, set_header-IsHeader, set_header-bytes, IsPool-set_header}

-- The block behind the header at `at` is in use: `count` units of a bucket's size, between `base`
-- and `top`, without a byte of a free block.
pub record InUse (base top : ℕ) (m : Ram) (lists : FreeLists) (at : ℕ) : Type 0 where
  pub idx : ℕ
  pub count : ℕ
  pub bucket : idx < budy_count
  pub some_units : 0 < count
  pub few_units : count < 2 ^ 16
  pub low : base ≤ at
  pub high : at + count * size_of idx ≤ top
  pub clear : Clear at (count * size_of idx) lists
  pub header : IsHeader m at idx count

abbrev pub width :
    {base top : ℕ} {m : Ram} {lists : FreeLists} {at : ℕ} → InUse base top m lists at → ℕ
width u = u.count * size_of u.idx

pub width-min :
    {base top : ℕ} {m : Ram} {lists : FreeLists} {at : ℕ} (u : InUse base top m lists at)
    → 16 ≤ width u
width-min u = omega (arith, mul-le-mul_right (size_of u.idx) u.some_units, size_of-min u.idx)

-- From `p` the operation leads to NULL or to a block in use that has room for `size` bytes; what
-- was clear of the free blocks still is, has no byte in common with the block and is unchanged.
pub record Gives (ptr base top : ℕ) (p : Pool) (lists : FreeLists) (size : ℕ)
    (r : Result (ℕ × Pool)) : Type 0 where
  pub addr : ℕ
  pub pool : Pool
  pub new : FreeLists
  pub result : r ≡ ok (addr, pool)
  pub good : IsPool ptr base top pool new
  pub keeps : (a n : ℕ) → 0 < n → Clear a n lists → Clear a n new
  pub bytes : (c : ℕ) → Clear c 1 lists → pool.mem c ≡ p.mem c
  pub answer :
      (addr ≡ 0)
      ⊎ ((at : ℕ) × (u : InUse base top pool.mem new at) × (addr ≡ at + header_size)
          × (size + header_size ≤ width u)
          × ((a n : ℕ) → 0 < n → Clear a n lists → Apart a n at (width u)))

-- What is clear of each block of a run is clear of the run.
run-Apart :
    (size b k a n : ℕ)
    → 0 < n
    → ((x : ℕ) → x ∈ run size b (suc k) → Apart a n x size)
    → Apart a n b (suc k * size)
run-Apart size b zero a n h u = ground (arith, u b (ground arith))
run-Apart size b (suc k) a n h u =
    ground
      (arith, u b (ground arith), run-Apart size (b + size) k a n h (λ x m. u x (ground arith)))

module _ {ptr base top : ℕ} {p : Pool} {lists : FreeLists} (b : Bounds ptr base top)
    (s : IsPool ptr base top p lists) (idx : ℕ) (hi : idx < budy_count) (front rest : List ℕ)
    (block k : ℕ) (split : lists idx ≡ front ++ (run (size_of idx) block (suc k) ++ rest)) where
  abbrev blocks : List ℕ
  blocks = run (size_of idx) block (suc k)

  abbrev less : FreeLists
  less = set_list idx (front ++ rest) lists

  abbrev out : Pool
  out = count_down idx (suc k) (set_place ptr idx (last_place of_bucket front) (first_of rest) p)

  pub in-list : (x : ℕ) → x ∈ blocks → x ∈ lists idx
  in-list x m = in-mid b s idx hi front blocks rest split x m

  out-is : removed b s idx hi front blocks rest split ≡ out
  out-is =
      ap (λ n. count_down idx n (set_place ptr idx (last_place of_bucket front) (first_of rest) p))
        (length-run (size_of idx) block (suc k))

  out-IsPool : IsPool ptr base top out less
  out-IsPool =
      subst (λ q. IsPool ptr base top q less) out-is
        (IsPool-removed b s idx hi front blocks rest split)

  taken-Clear : Clear block (suc k * size_of idx) less
  taken-Clear i y h m = ground (
    arith,
    run-Apart (size_of idx) block k y (size_of i) (omega (arith, size_of-min i))
        (λ x n. ground (arith, removed-Clear b s idx hi front blocks rest split x n i y h m)),
  )

  taken-high : block + suc k * size_of idx ≤ top
  taken-high =
      let last = last_block block (run (size_of idx) (block + size_of idx) k) in
      let end =
        s.laid.inside idx last hi
          (in-list last (last_block-in block (run (size_of idx) (block + size_of idx) k))) in
      omega (arith, end, last_block-run (size_of idx) block k)

  pub taken-Gives :
      (size : ℕ)
      → suc k < 2 ^ 16
      → size + header_size ≤ suc k * size_of idx
      → Gives ptr base top p lists size (ok (block + header_size, set_header block idx (suc k) out))
  taken-Gives size few room = record {
    addr = _;
    pool = _;
    new = less;
    result = refl;
    good =
        IsPool-set_header block idx (suc k) (suc k * size_of idx) b out-IsPool
          (omega (arith, size_of-min idx)) taken-Clear;
    keeps = λ a n h c. removed-keeps b s idx hi front blocks rest split a n c;
    bytes = λ c h.
        set_header-bytes block idx (suc k) out c
          (ground (arith, h idx block hi (in-list block (ground arith)), size_of-min idx))
        ∙ removed-bytes b s idx hi front blocks rest split c h;
    answer = inr (
      block,
      record {
        idx = idx;
        count = suc k;
        bucket = hi;
        some_units = omega arith;
        few_units = few;
        low =
            Ascending-le base block (lists idx) (s.laid.sorted idx hi)
              (in-list block (ground arith));
        high = taken-high;
        clear = taken-Clear;
        header = set_header-IsHeader block idx (suc k) out hi few;
      },
      refl,
      room,
      λ a n h c. run-Apart (size_of idx) block k a n h (λ x m. c idx x hi (in-list x m)),
    );
  }
