-- ===== src/Pool/Create.antt =====
-- `pool_create`: the pages of the memory are the blocks of the last bucket.
use cvm.Base.{
  ℕ, zero, suc, ◌+◌, ◌-◌, ◌*◌, ◌/◌, ◌^◌, ◌<◌, ◌≤◌, ◌≡◌, refl, ap, ◌∙◌, false, leb, none, some,
  arith,
}
use native.Mathlib.Nat.{mod-eq_of_lt}
use cvm.Outcome.{ok}
use cvm.Pool.{Pool, budy_count, page_size}
use cvm.Pool.Bytes.{Ram}
use cvm.Pool.Invariant.{Bounds, IsPool}
use cvm.Pool.Alloc.{link_pages, first_page, pool_create}
use cvm.Pool.Pages.{
  page_links, last_page, Pages, link_pages_lem, last_page_lem, all_pages, pages-IsPool,
  ended_pages-Seg,
}

-- The memory from `addr` has room for the table of buckets and a page, and ends within the addresses.
pub record Room (ptr addr size : ℕ) : Type 0 where
  pub narrow : 4 ≤ ptr
  pub wide : ptr ≤ 8
  pub ends : addr + size < 256 ^ ptr
  pub limited : size < 2 ^ 36
  pub table : addr + (8 + ptr) * budy_count + page_size ≤ 256 ^ ptr
  pub page : first_page ptr addr + page_size < addr + size

module _ {ptr addr size : ℕ} (r : Room ptr addr size) (m : Ram) where
  abbrev start : ℕ
  start = first_page ptr addr

  -- The first page comes after the table.
  first_page_lem : (addr + (8 + ptr) * budy_count ≤ start) × (0 < start)
  first_page_lem =
      let first : ℕ = addr + (8 + ptr) * budy_count + page_size - 1 in
      let whole : start ≡ first / page_size * page_size =
        ap (λ n. n / page_size * page_size) (mod-eq_of_lt (omega (arith, r.table))) in
      (omega (arith, whole), omega (arith, whole))

  pub Room-Bounds : Bounds ptr start (addr + size)
  Room-Bounds = record {
    narrow = r.narrow;
    wide = r.wide;
    real = first_page_lem.1;
    ordered = omega (arith, r.page);
    ends = r.ends;
    limited = omega (arith, r.limited, first_page_lem.0);
  }

  abbrev pub Created : ℕ → Type 0
  Created n =
      Pages start (addr + size) n
      × ((q : Pool) × (pool_create ptr addr size m ≡ ok (some q))
          × IsPool ptr start (addr + size) q (all_pages start n))

  created :
      (n : ℕ)
      → Pages start (addr + size) n
      → link_pages ptr (size / page_size) (addr + size) start none 0 m
        ≡ ok (last_page none n start, n, page_links ptr n start m)
      → Created n
  unfolding pool_create
  created zero pages e = absurd (omega (arith, pages.1, r.page))
  created (suc k) pages e =
      let high : start + suc k * page_size ≤ addr + size = ground (arith, pages.0) in
      let big : leb size page_size ≡ false = ground (arith, r.page, first_page_lem.0) in
      let cur : last_page none (suc k) start ≡ some (start + k * page_size) =
        last_page_lem k start none in
      (
        pages,
        (
          _,
          rw (big, e, cur) refl,
          pages-IsPool start (suc k) _ first_page_lem.1 (omega (arith, r.wide)) high
              (ended_pages-Seg ptr start k m first_page_lem.1 r.wide (omega (arith, high, r.ends))),
        ),
      )

  -- The pool that is made has its invariant, and its free blocks are the pages.
  pub pool_create-IsPool : (n : ℕ) × Created n
  pool_create-IsPool =
      let (n, pages, e) =
        link_pages_lem ptr (size / page_size) (addr + size) start none 0 m
          (omega (arith, first_page_lem.0)) in
      (
        n,
        created n pages
            (e ∙ ap (λ k. ok (last_page none n start, k, page_links ptr n start m)) (omega arith)),
      )
