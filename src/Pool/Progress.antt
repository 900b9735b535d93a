-- ===== src/Pool/Progress.antt =====
-- When `pool_malloc` finds a block.
use cvm.Base.{
  ℕ, zero, suc, ◌+◌, ◌-◌, ◌*◌, ◌/◌, ◌<◌, ◌≤◌, ◌≡◌, ◌≢◌, refl, ap, sym, ◌∙◌, ◌⊎◌, inl, inr, List,
  ◌==◌, true, false, ltb, if◌then◌else◌, length, Bool-cases, ==_iff, leb, leb→le, arith,
}
use mathlib.Core.Path.{subst}
use native.Mathlib.Nat.{pow-le-pow_right, pow-suc}
use cvm.Outcome.{Result, ok, ◌>>=◌}
use cvm.Pool.{Pool, budy_count, size_of, page_size, split_upper, pull, pool_pull_upper}
use cvm.Pool.Lists.{run, insert_at}
use cvm.Pool.Invariant.{FreeLists, set_list, IsPool, Bounds, has_first, nonzero, same_key}
use cvm.Pool.Inserted.{inserted-length}
use cvm.Pool.Insert.{added, pool_add_free_lem, IsPool-added}
use cvm.Pool.Moves.{first-inside}
use cvm.Pool.Split.{split_upper_lem, cut-IsPool, region-Clear, size_of-suc}
use cvm.Pool.Fit.{bucket_for_lem, padded_lem}
use cvm.Pool.Malloc.{malloc_is_small, take_first_lem}
use cvm.Pool.Alloc.{header_size, padded, bucket_for, take_first, malloc_small, pool_malloc}

-- The operation leads to a pool whose bucket `idx` has a block.
true-false : true ≡ false → ⊥
true-false h = ground arith

abbrev Fills : (ptr base top idx : ℕ) → Result Pool → Type 0
Fills ptr base top idx r =
    (q : Pool) × (ls : FreeLists) × (r ≡ ok q)
    × IsPool ptr base top q ls
    × (((q.buckets idx).free_n == 0) ≡ false)

module _ (ptr above idx : ℕ) (p : Pool) where
  pull_here :
      ((p.buckets (suc idx)).free_n == 0) ≡ false
      → pull ptr (suc above) idx p ≡ split_upper ptr idx p
  unfolding pull
  pull_here f = rw (pull, f) (rw f refl)

  pull_deeper :
      (q : Pool)
      → ((p.buckets (suc idx)).free_n == 0) ≡ true
      → pull ptr above (suc idx) p ≡ ok q
      → ((q.buckets (suc idx)).free_n == 0) ≡ false
      → pull ptr (suc above) idx p ≡ split_upper ptr idx q
  unfolding pull
  pull_deeper q t e f =
      let inner : Result Pool → Result Pool =
        λ r. r >>= λ q. if (q.buckets (suc idx)).free_n == 0 then ok q else split_upper ptr idx q in
      rw (pull, t) (ap inner e ∙ rw f refl)

module _ (ptr units idx : ℕ) (p : Pool) (at : bucket_for units ≡ ok idx) where
  small_here :
      ((p.buckets idx).free_n == 0) ≡ false → malloc_small ptr units p ≡ ok (take_first ptr idx p)
  unfolding malloc_small
  small_here f = rw (malloc_small, at, f) (rw f refl)

  small_deeper :
      (q : Pool)
      → ((p.buckets idx).free_n == 0) ≡ true
      → pool_pull_upper ptr idx p ≡ ok q
      → ((q.buckets idx).free_n == 0) ≡ false
      → malloc_small ptr units p ≡ ok (take_first ptr idx q)
  unfolding malloc_small
  small_deeper q t e f =
      let inner : Result Pool → Result (ℕ × Pool) = λ r.
        r >>= λ q. if (q.buckets idx).free_n == 0 then ok (0, q) else ok (take_first ptr idx q) in
      rw (malloc_small, at, t) (ap inner e ∙ rw f refl)

module _ {ptr base top : ℕ} (b : Bounds ptr base top) where
  Fills-split :
      {p : Pool} {lists : FreeLists} (s : IsPool ptr base top p lists) (idx : ℕ)
      (hi : suc idx < budy_count)
      → ((p.buckets (suc idx)).free_n == 0) ≡ false
      → Fills ptr base top idx (split_upper ptr idx p)
  Fills-split {p} {lists} s idx hi h =
      let (x, xs, e) = has_first (suc idx) s hi h in
      let hl : idx < budy_count = omega arith in
      let low = (first-inside b s (suc idx) hi x xs e).0 in
      let high : x + 2 * size_of idx ≤ top =
        omega (arith, (first-inside b s (suc idx) hi x xs e).1, size_of-suc idx) in
      let before = cut-IsPool b s idx hi x xs e in
      let clear = region-Clear b s idx hi x xs e in
      let good = IsPool-added b before idx hl 1 x low high clear in
      let less : FreeLists = set_list (suc idx) xs lists in
      let new : List ℕ = insert_at x (run (size_of idx) x 2) (less idx) in
      let counted : ((added b before idx hl 1 x low high clear).buckets idx).free_n
          ≡ length (less idx) + 2 =
        good.counts idx hl
        ∙ ap (λ c. length (if c then new else less idx)) (same_key idx)
        ∙ inserted-length b before idx hl 1 x low high clear in
      (
        added b before idx hl 1 x low high clear,
        _,
        split_upper_lem b s idx hi x xs e ∙ pool_add_free_lem b before idx hl 1 x low high clear,
        good,
        ground (arith, counted),
      )

  Fills-pull :
      (above idx : ℕ)
      → suc (above + idx) ≤ budy_count
      → (p : Pool) (lists : FreeLists) → IsPool ptr base top p lists
      → (j : ℕ) → idx < j
      → j ≤ above + idx
      → ((p.buckets j).free_n == 0) ≡ false
      → Fills ptr base top idx (pull ptr above idx p)
  unfolding pull
  Fills-pull zero idx h p lists s j l u e = absurd (omega arith)
  Fills-pull (suc above) idx h p lists s j l u e =
      elim (Bool-cases ((p.buckets (suc idx)).free_n == 0)) [
        | inl t ↦
            (let deeper : suc idx < j = elim (Bool-cases (j == suc idx)) [
              | inl same ↦ absurd (
                  true-false (
                    sym t
                    ∙ ap (λ i. (p.buckets i).free_n == 0) (sym ((==_iff j (suc idx)).0 same))
                    ∙ e))
              | inr other ↦ ground arith
            ] in
              let (q, ls, f, good, some_left) =
                Fills-pull above (suc idx) (omega arith) p lists s j deeper (omega arith) e in
              let (r, new, g, fine, filled) = Fills-split good idx (omega arith) some_left in
              (r, new, pull_deeper ptr above idx p q t f some_left ∙ g, fine, filled))
        | inr f ↦
            (let (r, new, g, fine, filled) = Fills-split s idx (omega arith) f in
              (r, new, pull_here ptr above idx p f ∙ g, fine, filled))
      ]

  pulled :
      (idx : ℕ) (p : Pool) (lists : FreeLists)
      → IsPool ptr base top p lists
      → (j : ℕ) → idx < j
      → j < budy_count
      → ((p.buckets j).free_n == 0) ≡ false
      → Fills ptr base top idx (pool_pull_upper ptr idx p)
  unfolding pool_pull_upper
  pulled idx p lists s j l u e =
      Fills-pull (budy_count - suc idx) idx (omega arith) p lists s j l (omega arith) e

  -- What `malloc_small` does once its bucket is known.
  abbrev Finds : Result (ℕ × Pool) → Type 0
  Finds r = (a : ℕ) × (q : Pool) × (r ≡ ok (a, q)) × (a ≢ 0)

  Finds-first :
      {q : Pool} {ls : FreeLists} (s : IsPool ptr base top q ls) (idx : ℕ)
      → idx < budy_count
      → ((q.buckets idx).free_n == 0) ≡ false
      → Finds (ok (take_first ptr idx q))
  Finds-first s idx h f =
      let (x, xs, e) = has_first idx s h f in
      (x + header_size, _, ap ok (take_first_lem b s idx h x xs e), λ z. absurd (omega (arith, z)))

  Finds-small :
      (units idx : ℕ) (p : Pool) (lists : FreeLists)
      → IsPool ptr base top p lists
      → bucket_for units ≡ ok idx
      → (j : ℕ) → idx ≤ j
      → j < budy_count
      → ((p.buckets j).free_n == 0) ≡ false
      → Finds (malloc_small ptr units p)
  Finds-small units idx p lists s at j l u e = elim (Bool-cases ((p.buckets idx).free_n == 0)) [
    | inl t ↦
        (let deeper : idx < j = elim (Bool-cases (j == idx)) [
          | inl same ↦ absurd (
              true-false
                (sym t ∙ ap (λ i. (p.buckets i).free_n == 0) (sym ((==_iff j idx).0 same)) ∙ e))
          | inr other ↦ ground arith
        ] in
          let (q, ls, f, good, filled) = pulled idx p lists s j deeper u e in
          subst Finds (sym (small_deeper ptr units idx p at q t f filled))
            (Finds-first good idx (omega arith) filled))
    | inr f ↦
        subst Finds (sym (small_here ptr units idx p at f)) (Finds-first s idx (omega arith) f)
  ]

-- The bucket that is chosen is not above one with large enough blocks.
least-below :
    (units idx j : ℕ) → (idx ≡ 0) ⊎ (size_of idx < 2 * units) → units ≤ size_of j → idx ≤ j
least-below units idx j h fit = elim (Bool-cases (leb idx j)) [
  | inl t ↦ leb→le idx j t
  | inr f ↦
      (let above : suc j ≤ idx = ground arith in
        let larger = pow-le-pow_right {n = 2} (omega arith) above in
        absurd (ground (arith, h, larger, pow-suc 2 j)))
]

-- In a pool with its invariant, `pool_malloc` of a size above 0 that with its header fits a page
-- gives a block and not NULL, if any bucket whose blocks are large enough has one.
pub pool_malloc-finds :
    {ptr base top : ℕ} (b : Bounds ptr base top) (p : Pool) (lists : FreeLists) (size j : ℕ)
    → IsPool ptr base top p lists
    → 0 < size
    → size + header_size ≤ page_size
    → j < budy_count
    → size + header_size ≤ size_of j
    → (p.buckets j).free_n ≢ 0
    → (a : ℕ) × (q : Pool) × (pool_malloc ptr size p ≡ ok (a, q)) × (a ≢ 0)
pool_malloc-finds {ptr} b p lists size j s h u hj fit some_left =
    let units : padded ptr size ≡ (size + 15) / 8 * 8 =
      padded_lem ptr size b.narrow (omega arith) in
    let page : (p.buckets (budy_count - 1)).obj_size ≡ page_size =
      s.sizes (budy_count - 1) (omega arith) in
    let real : (size == 0) ≡ false = nonzero size h in
    let small : ltb (p.buckets (budy_count - 1)).obj_size (padded ptr size) ≡ false =
      ground (arith, page, units) in
    let (idx, at, least) =
      bucket_for_lem (padded ptr size) (omega (arith, units)) (omega (arith, units)) in
    let full : ((p.buckets j).free_n == 0) ≡ false = ground arith in
    let low = least-below (padded ptr size) idx j least.2 (omega (arith, units, fit)) in
    subst (Finds b) (sym (malloc_is_small ptr size p real small))
      (Finds-small b (padded ptr size) idx p lists s at j low hj full)
