-- ===== src/Pool/Alloc.antt =====
-- `pool_create`, `pool_malloc` and `pool_free` of simulator/api/mem.c and rtlib/libs/mem.c. Sizes
-- have `ptr` bytes, as pointers have. The messages on the console are left out.
use cvm.Base.{
  ℕ, zero, suc, ◌+◌, ◌-◌, ◌*◌, ◌/◌, ◌^◌, Option, none, some, true, false, not, ◌==◌, ltb, leb,
  if◌then◌else◌, bit_and,
}
use cvm.Outcome.{Result, ok, fault, ◌>>=◌, check, bad_bucket, lost_list, wild_pointer}
use cvm.Pool.{
  Pool, Bucket, page_size, budy_count, size_of, wrap, next, set_first, count_down, pool_add_free,
  pool_pull_upper, pool_try_shrink, pool_alloc_continues,
}
use cvm.Pool.Bytes.{Ram, get, put}

abbrev pub mem_align : ℕ
mem_align = 8

abbrev pub shrink_thd : ℕ
shrink_thd = 16

abbrev pub obj_magic : ℕ
obj_magic = 0xA1B2C3D4

-- `sizeof(block_header_t)`
abbrev pub header_size : ℕ
header_size = 8

-- The fields of the header at `a`.
abbrev pub header_idx : ℕ → Ram → ℕ
header_idx a m = get 2 a m

abbrev pub header_count : ℕ → Ram → ℕ
header_count a m = get 2 (a + 2) m

abbrev pub header_magic : ℕ → Ram → ℕ
header_magic a m = get 4 (a + 4) m

unfoldable pub set_header : ℕ → ℕ → ℕ → Pool → Pool
set_header a idx count p = record p {
  mem = put 4 (a + 4) obj_magic (put 2 (a + 2) count (put 2 a idx p.mem));
}

-- `while (tmp >>= 1) { idx++; }`, which ends when the 64 bits of `tmp` are shifted out
unfoldable pub count_shifts : ℕ → ℕ → ℕ → ℕ
count_shifts zero tmp idx = idx
count_shifts (suc bits) tmp idx =
    let rest = count_shifts bits (tmp / 2) (suc idx) in if tmp / 2 == 0 then idx else rest

-- The bucket for a block of this size, whose highest bit is `idx`. `x & ~(y - 1)` is `x / y * y`
-- for a power of two.
unfoldable pub adjust_index : ℕ → ℕ → Result ℕ
adjust_index idx size =
    let tmp : ℕ = (2 ^ idx - 1 + size) / 2 ^ idx * 2 ^ idx in
    let idx : ℕ = if tmp == size then idx - 1 else idx in
    check (leb 3 idx) bad_bucket (ok (idx - 3))

unfoldable pub bucket_for : ℕ → Result ℕ
unfolding count_shifts adjust_index
bucket_for size = adjust_index (count_shifts 64 size 0) size

-- The bucket `i` when `n` pages from `start` are free.
abbrev pub first_bucket : ℕ → ℕ → ℕ → Bucket
first_bucket start n i =
    if i == budy_count - 1
    then record { obj_size = size_of i; free_n = n; free_list = start }
    else record { obj_size = size_of i; free_n = 0; free_list = 0 }

module _ (ptr : ℕ) where
  -- The size with the header, in whole units of `MEM_ALIGN`.
  unfoldable pub padded : ℕ → ℕ
  padded size = wrap ptr (wrap ptr (size + header_size) + (mem_align - 1)) / mem_align * mem_align

  -- The number of whole pages. The mask `~(obj_size - 1)` has 32 bits.
  abbrev pub pages_for : ℕ → ℕ → ℕ
  pages_for page size = bit_and (wrap ptr (size + page - 1)) (2 ^ 32 - page) / page

  -- `count` pages next to each other.
  unfoldable pub malloc_pages : ℕ → Pool → Result (ℕ × Pool)
  unfolding pool_alloc_continues set_header
  malloc_pages count p = pool_alloc_continues ptr (budy_count - 1) count p >>= λ (bh, q).
      if bh == 0 then ok (0, q) else ok (bh + header_size, set_header bh (budy_count - 1) count q)

  unfoldable pub malloc_large : ℕ → Pool → Result (ℕ × Pool)
  unfolding malloc_pages
  malloc_large size p = malloc_pages (pages_for (p.buckets (budy_count - 1)).obj_size size) p

  -- The first block of the bucket `idx`, which has one.
  unfoldable pub take_first : ℕ → Pool → ℕ × Pool
  unfolding set_header
  take_first idx p =
      let bh : ℕ = (p.buckets idx).free_list in
      (bh + header_size, set_header bh idx 1 (count_down idx 1 (set_first idx (next ptr p bh) p)))

  unfoldable pub malloc_small : ℕ → Pool → Result (ℕ × Pool)
  unfolding pool_pull_upper take_first bucket_for
  malloc_small size p = do
    idx ← bucket_for size
    q ← elim ((p.buckets idx).free_n == 0) [ true ↦ pool_pull_upper ptr idx p | false ↦ ok p ]
    if (q.buckets idx).free_n == 0 then ok (0, q) else ok (take_first idx q)

  -- The address of the memory, or NULL.
  unfoldable pub pool_malloc : ℕ → Pool → Result (ℕ × Pool)
  unfolding malloc_large malloc_small padded
  pool_malloc size p =
      if size == 0
      then ok (0, p)
      else if ltb (p.buckets (budy_count - 1)).obj_size (padded size)
      then malloc_large (padded size) p
      else malloc_small (padded size) p

  -- The block goes back into its list, and a long list is shrunk.
  unfoldable pub give_back : ℕ → ℕ → ℕ → Pool → Result Pool
  unfolding pool_add_free pool_try_shrink
  give_back idx bh count p = do
    q ← pool_add_free ptr idx bh count p
    if ltb shrink_thd (q.buckets idx).free_n then pool_try_shrink ptr idx q else ok q

  unfoldable pub pool_free : ℕ → Pool → Result Pool
  unfolding give_back
  pool_free addr p =
      let bh : ℕ = wrap ptr (addr + 256 ^ ptr - header_size) in
      if not (header_magic bh p.mem == obj_magic)
      then ok p
      else if leb budy_count (header_idx bh p.mem)
      then ok p
      else give_back (header_idx bh p.mem) bh (header_count bh p.mem) p

  -- `while ((p + PAGE_SIZE) < (addr + size))` from the page `p`: the last page that was linked, the
  -- number of pages and the bytes. `end` is `addr + size`.
  unfoldable pub link_pages : ℕ → ℕ → ℕ → Option ℕ → ℕ → Ram → Result (Option ℕ × ℕ × Ram)
  link_pages zero end p cur n m =
      if ltb (p + page_size) end then fault lost_list else ok (cur, n, m)
  link_pages (suc left) end p cur n m = elim (ltb (p + page_size) end) [
    | true ↦ link_pages left end (p + page_size) (some p) (suc n) (put ptr p (p + page_size) m)
    | false ↦ ok (cur, n, m)
  ]

  -- `*cur = NULL`, where `cur` is not initialised if no page was linked
  abbrev pub end_pages : Option ℕ → Ram → Result Ram
  end_pages none m = fault wild_pointer
  end_pages (some p) m = ok (put ptr p 0 m)

  -- `start`, behind the table of buckets of `8 + ptr` bytes each
  abbrev pub first_page : ℕ → ℕ
  first_page addr = wrap ptr (addr + (8 + ptr) * budy_count + page_size - 1) / page_size * page_size

  -- The pool at `addr`, or NULL for too small a size.
  unfoldable pub pool_create : ℕ → ℕ → Ram → Result (Option Pool)
  unfolding link_pages
  pool_create addr size m = if leb size page_size then ok none else do
    (cur, n, m) ← link_pages (size / page_size) (addr + size) (first_page addr) none 0 m
    m ← end_pages cur m
    ok (some (record { mem = m; buckets = first_bucket (first_page addr) n }))
