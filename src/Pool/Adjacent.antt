-- ===== src/Pool/Adjacent.antt =====
-- `pool_alloc_continues`: a run of adjacent blocks is found and taken out of its list.
use cvm.Base.{
  ℕ, zero, suc, ◌+◌, ◌-◌, ◌*◌, ◌<◌, ◌≤◌, ◌≡◌, refl, ap, sym, ◌∙◌, ◌⊎◌, inl, inr, List, [], ◌∷◌,
  ◌++◌, ◌==◌, ◌&&◌, true, false, ltb, lt→ltb, ltb→lt, if◌then◌else◌, length, Bool-cases, ==_iff,
  arith,
}
use native.Mathlib.Nat.{mod-eq_of_lt}
use cvm.Outcome.{Result, ok}
use cvm.Pool.{
  Pool, Scan, of_bucket, of_block, wrap, budy_count, size_of, set_place, count_down, scan,
  scan_step, pool_alloc_continues,
}
use cvm.Pool.Bytes.{get}
use cvm.Pool.Lists.{run, run-snoc, append_assoc, append_one}
use cvm.Pool.Walk.{step, fits, here}
use cvm.Pool.Segments.{Seg-first, Seg-pos, first_of, last_place, last_place-one}
use cvm.Pool.Invariant.{FreeLists, IsPool, Bounds}

-- Where the loop is: `count` adjacent blocks from `s.block` on were passed, behind `front`, and
-- those of `todo` are to come.
pub record IsScan (lists : FreeLists) (idx n : ℕ) (todo : List ℕ) (s : Scan) : Type 0 where
  pub front : List ℕ
  pub count : ℕ
  pub split : lists idx ≡ front ++ (run (size_of idx) s.block count ++ todo)
  pub at : s.start ≡ first_of todo
  pub adjacent : first_of todo ≡ s.block + count * size_of idx
  pub link : s.prev ≡ last_place of_bucket front
  pub needed : s.left + count ≡ n

module _ {ptr base top : ℕ} (b : Bounds ptr base top) {p : Pool} {lists : FreeLists}
    (s : IsPool ptr base top p lists) (idx : ℕ) (hi : idx < budy_count) (n : ℕ) where
  module _ (c : Scan) (x : ℕ) (rest : List ℕ) (i : IsScan lists idx n (x ∷ rest) c) where
    -- The list up to the block `x`.
    abbrev passed : List ℕ
    passed = i.front ++ run (size_of idx) c.block i.count

    passed-split : lists idx ≡ passed ++ (x ∷ rest)
    passed-split =
        i.split ∙ sym (append_assoc i.front (run (size_of idx) c.block i.count) (x ∷ rest))

    next_is : get ptr c.start p.mem ≡ first_of rest
    next_is = ap (λ a. get ptr a p.mem) i.at ∙ step b s idx hi passed x rest passed-split

    -- A round passes a block that continues the run,
    IsScan-more :
        0 < c.left
        → first_of rest ≡ x + size_of idx
        → IsScan lists idx n rest (record c { start = get ptr c.start p.mem; left = c.left - 1 })
    IsScan-more h e = record {
      front = i.front;
      count = suc i.count;
      split =
          i.split
          ∙ ap (λ l. i.front ++ l)
              (ap (λ y. run (size_of idx) c.block i.count ++ (y ∷ rest)) i.adjacent
                ∙ sym (run-snoc (size_of idx) c.block i.count rest));
      at = next_is;
      adjacent = omega (arith, e, i.adjacent);
      link = i.link;
      needed = omega (arith, i.needed);
    }

    -- or starts again behind it.
    IsScan-again : IsScan lists idx n rest (record {
      start = get ptr c.start p.mem;
      prev = of_block c.start;
      block = get ptr c.start p.mem;
      left = n;
    })
    IsScan-again = record {
      front = passed ++ (x ∷ []);
      count = 0;
      split = passed-split ∙ sym (append_one passed x rest);
      at = next_is;
      adjacent = omega (arith, next_is);
      link = ap of_block i.at ∙ sym (last_place-one of_bucket passed x);
      needed = omega arith;
    }

    next_block :
        (wrap ptr (c.start + size_of idx) == get ptr c.start p.mem) ≡ true
        → first_of rest ≡ x + size_of idx
    next_block t =
        let room = fits b s idx hi passed x rest passed-split in
        let whole : wrap ptr (c.start + size_of idx) ≡ c.start + size_of idx =
          mod-eq_of_lt (omega (arith, i.at, room, b.ends)) in
        omega (
          arith,
          (==_iff (wrap ptr (c.start + size_of idx)) (get ptr c.start p.mem)).0 t,
          i.at,
          next_is,
          whole,
        )

    IsScan-step : 0 < c.left → IsScan lists idx n rest (scan_step ptr n (size_of idx) c p)
    IsScan-step h = elim (Bool-cases (wrap ptr (c.start + size_of idx) == get ptr c.start p.mem)) [
      | inl t ↦ rw t (IsScan-more h (next_block t))
      | inr f ↦ rw f IsScan-again
    ]

  scan_stop :
      (rounds : ℕ) (c : Scan)
      → (ltb 0 c.start && ltb 0 c.left) ≡ false
      → scan ptr rounds n (size_of idx) c p ≡ ok c
  unfolding scan
  scan_stop zero c h = rw (scan, h) refl
  scan_stop (suc rounds) c h = rw (scan, h) refl

  scan_go :
      (rounds : ℕ) (c : Scan)
      → ltb 0 c.start ≡ true
      → ltb 0 c.left ≡ true
      → scan ptr (suc rounds) n (size_of idx) c p
        ≡ scan ptr rounds n (size_of idx) (scan_step ptr n (size_of idx) c p) p
  unfolding scan
  scan_go rounds c h l = rw (scan, h, l) refl

  ended : (l a : ℕ) → a ≡ 0 → (ltb 0 a && ltb 0 l) ≡ false
  ended l a e = ground arith

  -- The loop ends with the run, or at the end of the list.
  scan_lem :
      (rounds : ℕ) (todo : List ℕ) (c : Scan)
      → IsScan lists idx n todo c
      → length todo ≤ rounds
      → (d : Scan) × (later : List ℕ) × (scan ptr rounds n (size_of idx) c p ≡ ok d)
        × IsScan lists idx n later d
        × ((d.left ≡ 0) ⊎ (later ≡ []))
  unfolding scan
  scan_lem zero [] c i h = (c, [], scan_stop zero c (ended c.left c.start i.at), i, inr refl)
  scan_lem (suc rounds) [] c i h =
      (c, [], scan_stop (suc rounds) c (ended c.left c.start i.at), i, inr refl)
  scan_lem zero (x ∷ rest) c i h = absurd (omega arith)
  scan_lem (suc rounds) (x ∷ rest) c i h = elim (Bool-cases (ltb 0 c.left)) [
    | inl t ↦
        (let real =
            Seg-pos (here b s idx hi (passed c x rest i) x rest (passed-split c x rest i)) in
          let (d, later, e, j, ends) =
            scan_lem rounds rest (scan_step ptr n (size_of idx) c p)
              (IsScan-step c x rest i (ltb→lt 0 c.left t)) (omega arith) in
          (
            d,
            later,
            scan_go rounds c (lt→ltb 0 c.start (omega (arith, real, i.at))) t ∙ e,
            j,
            ends,
          ))
    | inr f ↦ (c, x ∷ rest, scan_stop (suc rounds) c (ground arith), i, inl (ground arith))
  ]

-- A run of `n` blocks with one more block next to it was taken out of the list `idx`, or there is no run and nothing changed.
pub data Continues (ptr base top : ℕ) (p : Pool) (lists : FreeLists) (idx n : ℕ)
    : Result (ℕ × Pool) → Type 0 where
  none_left : Continues ptr base top p lists idx n (ok (0, p))
  taken :
      (front rest : List ℕ) (block : ℕ)
      → lists idx ≡ front ++ (run (size_of idx) block n ++ rest)
      → first_of rest ≡ block + n * size_of idx
      → Continues ptr base top p lists idx n (
          ok (
            block,
            count_down idx n (set_place ptr idx (last_place of_bucket front) (first_of rest) p),
          ))

continues_or_not :
    {ptr base top : ℕ} (b : Bounds ptr base top) {p : Pool} {lists : FreeLists}
    (s : IsPool ptr base top p lists) (idx : ℕ) (hi : idx < budy_count) (n : ℕ) (d : Scan)
    (later : List ℕ)
    → IsScan lists idx n later d
    → Continues ptr base top p lists idx n (
        if ltb 0 d.left
        then ok (0, p)
        else ok (d.block, count_down idx n (set_place ptr idx d.prev d.start p)))
continues_or_not b s idx hi n d later j = elim (Bool-cases (ltb 0 d.left)) [
  | inl t ↦ rw t none_left
  | inr f ↦
      (let all : j.count ≡ n = ground (arith, j.needed) in
        rw (f, j.link, j.at)
          (taken j.front later d.block
            (j.split ∙ ap (λ k. j.front ++ (run (size_of idx) d.block k ++ later)) all)
            (j.adjacent ∙ ap (λ k. d.block + k * size_of idx) all)))
]

-- In a pool with its invariant, `pool_alloc_continues` of `n` blocks, one or more, of a bucket of
-- the table either gives NULL and leaves the pool as it is, or takes out of the free list `n`
-- blocks that are next to each other, where the list goes on with one more block next to them:
-- the link before them leads to that block, and the count is less by `n`.
pub pool_alloc_continues_lem :
    {ptr base top : ℕ} (b : Bounds ptr base top) {p : Pool} {lists : FreeLists}
    (s : IsPool ptr base top p lists) (idx : ℕ) (hi : idx < budy_count) (n : ℕ)
    → 0 < n
    → Continues ptr base top p lists idx n (pool_alloc_continues ptr idx n p)
unfolding pool_alloc_continues
pool_alloc_continues_lem {ptr} {base} {top} b {p} {lists} s idx hi n h =
    let from : Scan = record {
      start = (p.buckets idx).free_list;
      prev = of_bucket;
      block = (p.buckets idx).free_list;
      left = n;
    } in
    let head = Seg-first (s.chain idx hi) in
    let first : IsScan lists idx n (lists idx) from = record {
      front = [];
      count = 0;
      split = refl;
      at = head;
      adjacent = omega (arith, head);
      link = refl;
      needed = omega arith;
    } in
    let (d, later, e, j, ends) =
      scan_lem b s idx hi n (p.buckets idx).free_n (lists idx) from first
        (omega (arith, s.counts idx hi)) in
    rw (s.sizes idx hi, e) (continues_or_not b s idx hi n d later j)
