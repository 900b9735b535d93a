-- ===== src/Pool.antt =====
-- The free lists of the buddy allocator: simulator/api/mem.c and mem.h, and the same functions of
-- rtlib/libs/mem.c, for pointers of `ptr` bytes. The table of buckets lies before the first page of
-- the pool and no block reaches it, so it is kept apart from the bytes. A loop along a free list
-- goes for at most `free_n` rounds and is a fault if the list has not ended by then.
pub mod Bytes
pub mod Alloc
pub mod Lists
pub mod Segments
pub mod Invariant
pub mod Relink
pub mod Remove
pub mod Walk
pub mod Runs
pub mod Inserted
pub mod Insert
pub mod Frame
pub mod Moves
pub mod Split
pub mod Merge
pub mod Fit
pub mod Adjacent
pub mod Header
pub mod Taken
pub mod Malloc
pub mod Free
pub mod Pages
pub mod Create
pub mod Live
pub mod Session
pub mod Client
pub mod Errors
pub mod Progress
use cvm.Base.{
  ℕ, zero, suc, ◌+◌, ◌-◌, ◌*◌, ◌%◌, ◌^◌, Bool, true, false, ◌&&◌, ◌==◌, ltb, leb, if◌then◌else◌,
  bit_and,
}
use cvm.Base.Word.{u32, add32, sub32}
use cvm.Outcome.{Result, ok, fault, ◌>>=◌, lost_list}
use Bytes.{Ram, get, put}

abbrev pub page_size : ℕ
page_size = 4096

abbrev pub budy_count : ℕ
budy_count = 9

abbrev pub obj_min : ℕ
obj_min = 16

-- `OBJ_MIN << idx`
abbrev pub size_of : ℕ → ℕ
size_of idx = obj_min * 2 ^ idx

pub record Bucket : Type 0 where
  pub obj_size : ℕ
  pub free_n : ℕ
  pub free_list : ℕ

pub record Pool : Type 0 where
  pub mem : Ram
  pub buckets : ℕ → Bucket

abbrev pub set_bucket : ℕ → Bucket → Pool → Pool
set_bucket idx b p = record p { buckets = λ j. if j == idx then b else p.buckets j }

-- `bds[idx].free_list = v`
abbrev pub set_first : ℕ → ℕ → Pool → Pool
set_first idx v p = set_bucket idx (record (p.buckets idx) { free_list = v }) p

-- `bds[idx].free_n += n` and `bds[idx].free_n -= n`
abbrev pub count_up : ℕ → ℕ → Pool → Pool
count_up idx n p =
    set_bucket idx (record (p.buckets idx) { free_n = add32 (p.buckets idx).free_n n }) p

abbrev pub count_down : ℕ → ℕ → Pool → Pool
count_down idx n p =
    set_bucket idx (record (p.buckets idx) { free_n = sub32 (p.buckets idx).free_n (u32 n) }) p

-- What `prev` points at: the head of the list, or the first word of a block.
pub data Place : Type 0 where
  of_bucket : Place
  of_block : ℕ → Place

-- The variables of the loop of `pool_alloc_continues`.
pub record Scan : Type 0 where
  pub start : ℕ
  pub prev : Place
  pub block : ℕ
  pub left : ℕ

module _ (ptr : ℕ) where
  abbrev pub wrap : ℕ → ℕ
  wrap n = n % 256 ^ ptr

  -- `*a` and `*a = v` for the link in a block
  abbrev pub next : Pool → ℕ → ℕ
  next p a = get ptr a p.mem

  abbrev pub set_next : ℕ → ℕ → Pool → Pool
  set_next a v p = record p { mem = put ptr a v p.mem }

  -- `*prev = v`
  unfoldable pub set_place : ℕ → Place → ℕ → Pool → Pool
  set_place idx of_bucket v p = set_first idx v p
  set_place idx (of_block a) v p = set_next a v p

  -- The loop that links the blocks of a run: the first argument is `n - 1 - i`.
  unfoldable pub link_run : ℕ → ℕ → ℕ → ℕ → Pool → Pool
  link_run zero i block size p = p
  link_run (suc left) i block size p =
      link_run left (suc i) block size (set_next (block + i * size) (block + suc i * size) p)

  -- `while (start && block > start)`
  unfoldable pub seek : ℕ → ℕ → ℕ → Place → Pool → Result (ℕ × Place)
  seek zero block start prev p =
      if ltb 0 start && ltb start block then fault lost_list else ok (start, prev)
  seek (suc left) block start prev p = elim (ltb 0 start && ltb start block) [
    | false ↦ ok (start, prev)
    | true ↦ seek left block (next p start) (of_block start) p
  ]

  -- `block + (n - 1) * size`
  abbrev pub last_of : ℕ → ℕ → ℕ → ℕ
  last_of block n size = wrap (block + n * size + 256 ^ ptr - size)

  -- The three cases of `pool_add_free`, after the loop that links the run.
  unfoldable pub insert_run : ℕ → ℕ → ℕ → Pool → Result Pool
  unfolding seek set_place
  insert_run idx block n p =
      let first : ℕ = (p.buckets idx).free_list in
      let last : ℕ = last_of block n (size_of idx) in
      if first == 0
      then ok (set_first idx block (set_next last 0 p))
      else if ltb block first
      then ok (set_first idx block (set_next last first p))
      else do
        (start, prev) ← seek (p.buckets idx).free_n block first of_bucket p
        ok (set_next last start (set_place idx prev block p))

  unfoldable pub pool_add_free : ℕ → ℕ → ℕ → Pool → Result Pool
  unfolding link_run insert_run
  pool_add_free idx block n p = if leb budy_count idx then ok p else do
    p ← insert_run idx block n (link_run (n - 1) 0 block (size_of idx) p)
    ok (count_up idx n p)

  -- The first block of the bucket `idx + 1` is cut into two of the bucket `idx`.
  unfoldable pub split_upper : ℕ → Pool → Result Pool
  unfolding pool_add_free
  split_upper idx p =
      let block : ℕ = (p.buckets (suc idx)).free_list in
      let q : Pool = count_down (suc idx) 1 (set_first (suc idx) (next p block) p) in
      pool_add_free idx block 2
        (set_next (block + size_of idx) 0 (set_next block (block + size_of idx) q))

  -- The first argument counts the buckets above `idx`.
  unfoldable pub pull : ℕ → ℕ → Pool → Result Pool
  unfolding split_upper
  pull zero idx p = ok p
  pull (suc above) idx p = do
    q ← elim ((p.buckets (suc idx)).free_n == 0) [ true ↦ pull above (suc idx) p | false ↦ ok p ]
    if (q.buckets (suc idx)).free_n == 0 then ok q else split_upper idx q

  unfoldable pub pool_pull_upper : ℕ → Pool → Result Pool
  unfolding pull
  pool_pull_upper idx p = pull (budy_count - suc idx) idx p

  -- The loop of `pool_try_shrink` in the bucket `idx`.
  unfoldable pub merge : ℕ → ℕ → ℕ → Place → Pool → Result Pool
  unfolding set_place pool_add_free
  merge zero idx curr prev p = if curr == 0 then ok p else fault lost_list
  merge (suc left) idx curr prev p = elim (curr == 0) [
    | true ↦ ok p
    | false ↦
        elim ((next p curr == wrap (curr + size_of idx)) && (bit_and curr (size_of idx - 1) == 0)) [
          | true ↦ do
            let rest : ℕ = next p (next p curr)
            q ← pool_add_free (suc idx) curr 1 (count_down idx 2 (set_place idx prev rest p))
            merge left idx rest prev q
          | false ↦ merge left idx (next p curr) (of_block curr) p
        ]
  ]

  -- The first argument counts the buckets from `idx` on that have one above them.
  unfoldable pub shrink : ℕ → ℕ → Pool → Result Pool
  unfolding merge
  shrink zero idx p = ok p
  shrink (suc above) idx p = do
    q ← merge (p.buckets idx).free_n idx (p.buckets idx).free_list of_bucket p
    shrink above (suc idx) q

  unfoldable pub pool_try_shrink : ℕ → Pool → Result Pool
  unfolding shrink
  pool_try_shrink idx p = shrink (budy_count - suc idx) idx p

  -- One round of the loop of `pool_alloc_continues`.
  abbrev pub scan_step : ℕ → ℕ → Scan → Pool → Scan
  scan_step n size s p =
      if wrap (s.start + size) == next p s.start
      then record s { start = next p s.start; left = s.left - 1 }
      else record {
        start = next p s.start;
        prev = of_block s.start;
        block = next p s.start;
        left = n;
      }

  unfoldable pub scan : ℕ → ℕ → ℕ → Scan → Pool → Result Scan
  scan zero n size s p = if ltb 0 s.start && ltb 0 s.left then fault lost_list else ok s
  scan (suc rounds) n size s p = elim (ltb 0 s.start && ltb 0 s.left) [
    | false ↦ ok s
    | true ↦ scan rounds n size (scan_step n size s p) p
  ]

  -- The first block of the run that was taken out of the bucket `idx`, or NULL.
  unfoldable pub pool_alloc_continues : ℕ → ℕ → Pool → Result (ℕ × Pool)
  unfolding scan set_place
  pool_alloc_continues idx n p = do
    let b : Bucket = p.buckets idx
    let from : Scan = record {
      start = b.free_list;
      prev = of_bucket;
      block = b.free_list;
      left = n;
    }
    s ← scan b.free_n n b.obj_size from p
    if ltb 0 s.left
        then ok (0, p)
        else ok (s.block, count_down idx n (set_place idx s.prev s.start p))
