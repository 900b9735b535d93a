-- ===== src/Pool/Malloc.antt =====
-- `pool_malloc`.
use cvm.Base.{
  ℕ, suc, ◌+◌, ◌-◌, ◌*◌, ◌/◌, ◌^◌, ◌<◌, ◌≤◌, ◌≡◌, refl, ap, sym, ◌∙◌, inl, inr, List, [], ◌∷◌, ◌==◌,
  true, false, ltb, if◌then◌else◌, Bool-cases, arith,
}
use mathlib.Core.Path.{subst}
use cvm.Outcome.{Result, ok, ◌>>=◌}
use cvm.Pool.{
  Pool, of_bucket, budy_count, page_size, size_of, set_place, set_first, next, count_down,
  pool_pull_upper,
}
use cvm.Pool.Lists.{Ascending-le}
use cvm.Pool.Segments.{Seg-second, first_of}
use cvm.Pool.Invariant.{FreeLists, Clear, IsPool, Bounds, has_first, nonzero}
use cvm.Pool.Relink.{in_chain}
use cvm.Pool.Moves.{Moves, Moves-id, first_is}
use cvm.Pool.Split.{Moves-pull_upper}
use cvm.Pool.Fit.{bucket_for_lem, page_count, padded_lem}
use cvm.Pool.Adjacent.{Continues, none_left, taken, pool_alloc_continues_lem}
use cvm.Pool.Alloc.{
  header_size, set_header, padded, pages_for, malloc_pages, take_first, malloc_small, malloc_large,
  pool_malloc,
}
use cvm.Pool.Taken.{Gives, in-list, taken-Gives}

malloc_is_large :
    (ptr size : ℕ) (p : Pool)
    → (size == 0) ≡ false
    → ltb (p.buckets (budy_count - 1)).obj_size (padded ptr size) ≡ true
    → pool_malloc ptr size p ≡ malloc_large ptr (padded ptr size) p
unfolding pool_malloc
malloc_is_large ptr size p h t = rw (pool_malloc, h, t) refl

pub malloc_is_small :
    (ptr size : ℕ) (p : Pool)
    → (size == 0) ≡ false
    → ltb (p.buckets (budy_count - 1)).obj_size (padded ptr size) ≡ false
    → pool_malloc ptr size p ≡ malloc_small ptr (padded ptr size) p
unfolding pool_malloc
malloc_is_small ptr size p h t = rw (pool_malloc, h, t) refl

module _ {ptr base top : ℕ} where
  -- NULL, with the pool as an operation left it.
  Gives-null :
      {p : Pool} {lists : FreeLists} {size : ℕ} {r : Result Pool}
      → Moves ptr base top (λ a n. Clear a n lists) p r
      → Gives ptr base top p lists size (r >>= λ q. ok (0, q))
  Gives-null m = record {
    addr = 0;
    pool = m.pool;
    new = m.lists;
    result = ap (λ r. r >>= λ q. ok (0, q)) m.result;
    good = m.good;
    keeps = m.keeps;
    bytes = m.bytes;
    answer = inl refl;
  }

  -- An operation on the pool, and then one that gives a block.
  Gives-after :
      {p : Pool} {lists : FreeLists} {size : ℕ} {r : Result Pool} {f : Pool → Result (ℕ × Pool)}
      → Moves ptr base top (λ a n. Clear a n lists) p r
      → ((q : Pool) (ls : FreeLists)
          → IsPool ptr base top q ls
          → Gives ptr base top q ls size (f q))
      → Gives ptr base top p lists size (r >>= f)
  Gives-after {p} {lists} {size} {r} {f} m k =
      let g = k m.pool m.lists m.good in
      record {
        addr = g.addr;
        pool = g.pool;
        new = g.new;
        result = ap (λ x. x >>= f) m.result ∙ g.result;
        good = g.good;
        keeps = λ a n h c. g.keeps a n h (m.keeps a n h c);
        bytes = λ c h. g.bytes c (m.keeps c 1 (omega arith) h) ∙ m.bytes c h;
        answer = elim g.answer [
          | inl e ↦ inl e
          | inr (at, u, e, room, fresh) ↦
              inr (at, u, e, room, λ a n h c. fresh a n h (m.keeps a n h c))
        ];
      }

  module _ (b : Bounds ptr base top) where
    pub take_first_lem :
        {p : Pool} {lists : FreeLists} (s : IsPool ptr base top p lists) (idx : ℕ)
        (hi : idx < budy_count) (x : ℕ) (xs : List ℕ)
        → lists idx ≡ x ∷ xs
        → take_first ptr idx p ≡ (
          x + header_size,
          set_header x idx 1 (count_down idx 1 (set_place ptr idx of_bucket (first_of xs) p)),
        )
    unfolding take_first set_place
    take_first_lem {p} s idx hi x xs e =
        let go : ℕ → ℕ → ℕ × Pool =
          λ a v. (a + header_size, set_header a idx 1 (count_down idx 1 (set_first idx v p))) in
        ap (λ a. go a (next ptr p a)) (first_is b s idx hi x xs e)
        ∙ ap (go x) (Seg-second (in_chain b s idx hi (x ∷ xs) e))

    Gives-first :
        {p : Pool} {lists : FreeLists} (s : IsPool ptr base top p lists) (idx : ℕ)
        (hi : idx < budy_count) (size : ℕ)
        → size + header_size ≤ size_of idx
        → Gives ptr base top p lists size
            (if (p.buckets idx).free_n == 0 then ok (0, p) else ok (take_first ptr idx p))
    unfolding take_first
    Gives-first {p} s idx hi size room = elim (Bool-cases ((p.buckets idx).free_n == 0)) [
      | inl t ↦ rw t (Gives-null (Moves-id s))
      | inr f ↦
          (let (x, xs, e) = has_first idx s hi f in
            let taken = take_first_lem s idx hi x xs e in
            rw (f, taken) (taken-Gives b s idx hi [] xs x 0 e size (omega arith) (omega arith)))
    ]

    Gives-small :
        (size units : ℕ) (p : Pool) (lists : FreeLists)
        → IsPool ptr base top p lists
        → size + header_size ≤ units
        → 16 ≤ units
        → units ≤ 4096
        → Gives ptr base top p lists size (malloc_small ptr units p)
    unfolding malloc_small
    Gives-small size units p lists s room lo hi =
        let (idx, e, h) = bucket_for_lem units lo hi in
        let pulled_p : Result Pool = elim ((p.buckets idx).free_n == 0) [
          | true ↦ pool_pull_upper ptr idx p
          | false ↦ ok p
        ] in
        let pulled : Moves ptr base top (λ a n. Clear a n lists) p pulled_p =
          elim (Bool-cases ((p.buckets idx).free_n == 0)) [
            | inl t ↦ rw t (Moves-pull_upper b idx h.0 p lists s)
            | inr f ↦ rw f (Moves-id s)
          ] in
        rw e (
          Gives-after
            {f = λ q. if (q.buckets idx).free_n == 0 then ok (0, q) else ok (take_first ptr idx q)}
            pulled (λ q ls good. Gives-first good idx h.0 size (omega (arith, h.1, room))))

    -- What is done with the pages that were found.
    Gives-pages :
        (size k : ℕ) {p : Pool} {lists : FreeLists} (s : IsPool ptr base top p lists)
        → size + header_size ≤ suc k * page_size
        → suc k < 2 ^ 16
        → {r : Result (ℕ × Pool)} → Continues ptr base top p lists (budy_count - 1) (suc k) r
        → Gives ptr base top p lists size (
            r >>= λ (bh, q).
            if bh == 0
            then ok (0, q)
            else ok (bh + header_size, set_header bh (budy_count - 1) (suc k) q))
    Gives-pages size k s room few none_left = Gives-null (Moves-id s)
    Gives-pages size k {p} {lists} s room few (taken front rest block e next) =
        let real : (block == 0) ≡ false = nonzero block (
          omega (
            arith,
            b.real,
            Ascending-le base block (lists (budy_count - 1))
                (s.laid.sorted (budy_count - 1) (omega arith))
                (in-list b s (budy_count - 1) (omega arith) front rest block k e block
                  (ground arith)),
          )) in
        rw real (
          taken-Gives b s (budy_count - 1) (omega arith) front rest block k e size few
            (omega arith))

    Gives-large :
        (size units : ℕ) (p : Pool) (lists : FreeLists)
        → IsPool ptr base top p lists
        → size + header_size ≤ units
        → 4096 < units
        → units ≤ 65535 * 4096
        → Gives ptr base top p lists size (malloc_large ptr units p)
    unfolding malloc_large malloc_pages
    Gives-large size units p lists s room lo hi =
        let k : ℕ = (units + 4095) / page_size - 1 in
        let counted : pages_for ptr (p.buckets (budy_count - 1)).obj_size units ≡ suc k =
          ap (λ page. pages_for ptr page units) (s.sizes (budy_count - 1) (omega arith))
          ∙ page_count ptr units b.narrow (omega arith)
          ∙ omega arith in
        subst (λ n. Gives ptr base top p lists size (malloc_pages ptr n p)) (sym counted)
          (Gives-pages size k s (omega (arith, room)) (omega arith)
            (pool_alloc_continues_lem b s (budy_count - 1) (omega arith) (suc k) (omega arith)))

    -- In a pool with its invariant, `pool_malloc` of a size above 0 that with the header fits
    -- 65535 pages returns, and the new pool has its invariant. The answer is NULL or a block in
    -- use, whose header says its bucket and count and which has room for the header and the size;
    -- it had no byte in common with what was clear of free blocks. That stays clear, and its
    -- bytes stay as they were.
    pub pool_malloc-Gives :
        (size : ℕ) (p : Pool) (lists : FreeLists)
        → 0 < size
        → size + header_size ≤ 65535 * page_size
        → IsPool ptr base top p lists
        → Gives ptr base top p lists size (pool_malloc ptr size p)
    pool_malloc-Gives size p lists h u s =
        let real : (size == 0) ≡ false = nonzero size h in
        let page : (p.buckets (budy_count - 1)).obj_size ≡ page_size =
          s.sizes (budy_count - 1) (omega arith) in
        let units : padded ptr size ≡ (size + 15) / 8 * 8 =
          padded_lem ptr size b.narrow (omega arith) in
        let room : size + header_size ≤ padded ptr size = omega (arith, units) in
        elim (Bool-cases (ltb (p.buckets (budy_count - 1)).obj_size (padded ptr size))) [
          | inl t ↦
              subst (Gives ptr base top p lists size) (sym (malloc_is_large ptr size p real t)) (
                Gives-large size (padded ptr size) p lists s room (ground (arith, page))
                  (omega (arith, units)))
          | inr f ↦
              subst (Gives ptr base top p lists size) (sym (malloc_is_small ptr size p real f)) (
                Gives-small size (padded ptr size) p lists s room (omega (arith, units))
                  (ground (arith, page)))
        ]
