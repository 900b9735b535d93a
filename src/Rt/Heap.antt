-- ===== src/Rt/Heap.antt =====
-- `malloc` and `free` of the programs for the machine: rtlib/libs/mem.c, with pointers of 4 bytes.
use cvm.Base.{
  ℕ, ◌+◌, ◌-◌, ◌%◌, ◌^◌, ◌≡◌, refl, ap, ◌∙◌, Option, none, some, true, false, ◌==◌, ◌&&◌, ltb, ◌≢◌,
  ◌<◌, arith, if◌then◌else◌,
}
use cvm.Base.Word.{is_neg}
use cvm.Outcome.{Result, ok, fault, ◌>>=◌, wild_pointer}
use cvm.Pool.{
  Pool, Bucket, budy_count, pool_alloc_continues, pool_add_free, pool_pull_upper, pool_try_shrink,
}
use cvm.Pool.Bytes.{Ram}
use cvm.Pool.Invariant.{IsPool}
use cvm.Pool.Pages.{Pages, all_pages}
use cvm.Pool.Create.{Room, pool_create-IsPool}
use cvm.Pool.Alloc.{
  header_size, header_idx, header_magic, obj_magic, first_page, pool_create, pool_malloc, pool_free,
}

abbrev pub ptr : ℕ
ptr = 4

-- The functions of the pool are those of simulator/api/mem.c, for these pointers. Sizes are `int`:
-- a negative one is at most `PAGE_SIZE`.
abbrev pub rt_alloc_continues : ℕ → ℕ → Pool → Result (ℕ × Pool)
rt_alloc_continues = pool_alloc_continues ptr

abbrev pub rt_add_free : ℕ → ℕ → ℕ → Pool → Result Pool
rt_add_free = pool_add_free ptr

abbrev pub rt_pull_upper : ℕ → Pool → Result Pool
rt_pull_upper = pool_pull_upper ptr

abbrev pub rt_try_shrink : ℕ → Pool → Result Pool
rt_try_shrink = pool_try_shrink ptr

unfoldable rt_create : ℕ → ℕ → Ram → Result (Option Pool)
unfolding pool_create
rt_create addr size m = if is_neg size then ok none else pool_create ptr addr size m

abbrev pub rt_pool_malloc : ℕ → Pool → Result (ℕ × Pool)
rt_pool_malloc = pool_malloc ptr

abbrev pub rt_pool_free : ℕ → Pool → Result Pool
rt_pool_free = pool_free ptr

-- The memory and `mem_pool_gs`, which is NULL at first.
pub record Heap : Type 0 where
  pub mem : Ram
  pub mem_pool_gs : Option (ℕ → Bucket)

abbrev pub pool_of : Ram → (ℕ → Bucket) → Pool
pool_of m bds = record { mem = m; buckets = bds }

abbrev pub heap_of : Pool → Heap
heap_of p = record { mem = p.mem; mem_pool_gs = some p.buckets }

-- `mem_init` after its two calls of `sbrk`, which gave `start` and `end`; -1 stands for a failure,
-- which is looked for in `end` only.
unfoldable pub init_at : {S : Type 0} → ℕ → ℕ → ℕ → S → Heap → Result (Heap × S)
unfolding rt_create
init_at start end size s h = elim (end == 2 ^ 32 - 1) [
  | true ↦ ok (h, s)
  | false ↦ rt_create start size h.mem >>= λ created. elim created [
    | none ↦ ok (record h { mem_pool_gs = none }, s)
    | some p ↦ ok (heap_of p, s)
  ]
]

-- `sbrk` gives a pattern of 32 bits and changes what the break is kept in.
unfoldable pub mem_init : {S : Type 0} → (ℕ → S → ℕ × S) → ℕ → S → Heap → Result (Heap × S)
unfolding init_at
mem_init sbrk size s h =
    let first = sbrk 0 s in
    let second = sbrk size first.1 in init_at first.0 second.0 size second.1 h

unfoldable pub malloc : ℕ → Heap → Result (ℕ × Heap)
unfolding pool_malloc
malloc size h = elim h.mem_pool_gs [
  | none ↦ ok (0, h)
  | some bds ↦ rt_pool_malloc size (pool_of h.mem bds) >>= λ (a, p). ok (a, heap_of p)
]

-- Without a pool the header is still read, and a block that it allows is put into no bucket.
unfoldable pub free : ℕ → Heap → Result Heap
unfolding pool_free
free addr h = elim h.mem_pool_gs [
  | none ↦
      let bh : ℕ = (addr + 2 ^ 32 - header_size) % 2 ^ 32 in
      if (header_magic bh h.mem == obj_magic) && ltb (header_idx bh h.mem) budy_count
      then fault wild_pointer
      else ok h
  | some bds ↦ rt_pool_free addr (pool_of h.mem bds) >>= λ p. ok (heap_of p)
]

create_int :
    (start size : ℕ) (m : Ram)
    → is_neg size ≡ false
    → rt_create start size m ≡ pool_create ptr start size m
unfolding rt_create
create_int start size m h = rw (rt_create, h) refl

init_with :
    {S : Type 0} (start end size : ℕ) (s : S) (h : Heap) (p : Pool)
    → (end == 2 ^ 32 - 1) ≡ false
    → rt_create start size h.mem ≡ ok (some p)
    → init_at start end size s h ≡ ok (heap_of p, s)
unfolding init_at
init_with start end size s h p g e = rw (init_at, g, e) refl

-- `mem_init` of less than 2 ^ 31 bytes, where both calls of `sbrk` give an address and the memory
-- from the first has room for the table of buckets and more than a page, with addresses below 2 ^
-- 32, sets `mem_pool_gs` to a pool with its invariant and keeps what `sbrk` left. The free blocks
-- of the pool are the first `n` pages behind the table, where they end before the end of the
-- memory and one page more does not.
pub mem_init-IsPool :
    {S : Type 0} (sbrk : ℕ → S → ℕ × S) (size start end : ℕ) (s t u : S) (h : Heap)
    → sbrk 0 s ≡ (start, t)
    → sbrk size t ≡ (end, u)
    → end ≢ 2 ^ 32 - 1
    → size < 2 ^ 31
    → Room ptr start size
    → (n : ℕ) × Pages (first_page ptr start) (start + size) n
      × (p : Pool) × (mem_init sbrk size s h ≡ ok (heap_of p, u))
      × IsPool ptr (first_page ptr start) (start + size) p (all_pages (first_page ptr start) n)
unfolding mem_init init_at
mem_init-IsPool sbrk size start end s t u h first second given small room =
    let (n, created) = pool_create-IsPool room h.mem in
    let (pages, made) = created in
    let (p, e, good) = made in
    let got : (end == 2 ^ 32 - 1) ≡ false = ground arith in
    let whole : is_neg size ≡ false = ground arith in
    let begun : mem_init sbrk size s h ≡ init_at start end size u h =
      ap (λ x. let y = sbrk size x.1 in init_at x.0 y.0 size y.1 h) first
      ∙ ap (λ y. init_at start y.0 size y.1 h) second in
    let made_pool : rt_create start size h.mem ≡ ok (some p) =
      create_int start size h.mem whole ∙ e in
    (n, pages, p, begun ∙ init_with start end size u h p got made_pool, good)
