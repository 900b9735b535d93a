-- ===== src/Pool/Client.antt =====
-- A client's program: calls of `pool_malloc` and `pool_free` one after the other.
use cvm.Base.{
  ℕ, zero, suc, ◌+◌, ◌-◌, ◌*◌, ◌<◌, ◌≤◌, ◌≡◌, refl, ap, ◌∙◌, inl, inr, List, [], ◌∷◌, All, Option,
  none, some, true, false, ◌==◌, ◌⊎◌, arith,
}
use cvm.Outcome.{Result, ok, ◌>>=◌}
use cvm.Pool.{Pool, size_of, page_size}
use cvm.Pool.Bytes.{Ram}
use cvm.Pool.Invariant.{Bounds}
use cvm.Pool.Alloc.{
  header_size, header_idx, header_count, first_page, pool_create, pool_malloc, pool_free,
}
use cvm.Pool.Malloc.{pool_malloc-Gives}
use cvm.Pool.Free.{pool_free-Moves}
use cvm.Pool.Pages.{all_pages}
use cvm.Pool.Create.{Room, Room-Bounds, pool_create-IsPool}
use cvm.Pool.Live.{Region, Picked, here, there, Live-Picked}
use cvm.Pool.Session.{Sound, Sound-given, Sound-refused, Sound-given_back}

-- Ask for so many bytes, or give back the block at a place in the list of those that are held.
pub data Request : Type 0 where
  ask : ℕ → Request
  give_up : ℕ → Request

-- A size above 0 that with the header fits 65535 pages.
abbrev pub IsModest : Request → Type 0
IsModest (ask size) = (0 < size) × (size + header_size ≤ 65535 * page_size)
IsModest (give_up i) = Unit

unfoldable pub pick : ℕ → List Region → Option (Region × List Region)
pick i [] = none
pick zero (r ∷ rs) = some (r, rs)
pick (suc i) (r ∷ rs) = elim (pick i rs) [ none ↦ none | some (s, qs) ↦ some (s, r ∷ qs) ]

-- The block is noted with the size that its header says, unless the address is NULL.
abbrev pub noted : ℕ → Pool → List Region → List Region
noted addr q live = elim (addr == 0) [
  | true ↦ live
  | false ↦
      (
        addr - header_size,
        header_count (addr - header_size) q.mem * size_of (header_idx (addr - header_size) q.mem),
      )
      ∷ live
]

module _ (ptr : ℕ) where
  unfoldable pub one_request : Request → Pool × List Region → Result (Pool × List Region)
  unfolding pick
  one_request (ask size) (p, live) = pool_malloc ptr size p >>= λ (a, q). ok (q, noted a q live)
  one_request (give_up i) (p, live) = elim (pick i live) [
    | none ↦ ok (p, live)
    | some ((at, n), rest) ↦ pool_free ptr (at + header_size) p >>= λ q. ok (q, rest)
  ]

  unfoldable pub run_client : List Request → Pool × List Region → Result (Pool × List Region)
  unfolding one_request
  run_client [] s = ok s
  run_client (r ∷ rs) s = one_request r s >>= run_client rs

pick_cases :
    (i : ℕ) (rs : List Region)
    → (pick i rs ≡ none)
      ⊎ ((r : Region) × (qs : List Region) × (pick i rs ≡ some (r, qs)) × Picked r rs qs)
unfolding pick
pick_cases i [] = inl refl
pick_cases zero (r ∷ rs) = inr (r, rs, refl, here)
pick_cases (suc i) (r ∷ rs) = elim (pick_cases i rs) [
  | inl e ↦ inl (rw e refl)
  | inr (s, qs, e, k) ↦ inr (s, r ∷ qs, rw e refl, there k)
]

noted_given :
    (at : ℕ) (q : Pool) (live : List Region)
    → noted (at + header_size) q live
      ≡ (at, header_count at q.mem * size_of (header_idx at q.mem)) ∷ live
noted_given at q live =
    let some_place : (at + header_size == 0) ≡ false = ground arith in
    let place : at + header_size - header_size ≡ at = omega arith in
    rw (noted, some_place, place) refl

module _ {ptr base top : ℕ} (b : Bounds ptr base top) where
  -- A result that is there, of a sound pool.
  abbrev Arrives : Result (Pool × List Region) → Type 0
  Arrives r = (q : Pool) × (live : List Region) × (r ≡ ok (q, live)) × Sound ptr base top q live

  one_request-Arrives :
      (r : Request) (p : Pool) (live : List Region)
      → IsModest r
      → Sound ptr base top p live
      → Arrives (one_request ptr r (p, live))
  unfolding one_request
  one_request-Arrives (ask size) p live (h, u) (lists, s, l) =
      let g = pool_malloc-Gives b size p lists h u s in
      elim g.answer [
        | inl null ↦
            (let e : pool_malloc ptr size p ≡ ok (0, g.pool) =
                g.result ∙ ap (λ a. ok (a, g.pool)) null in
              (g.pool, live, rw e refl, Sound-refused b p lists s live l size h u g.pool e))
        | inr (at, w, there_at, room, fresh) ↦
            (let e : pool_malloc ptr size p ≡ ok (at + header_size, g.pool) =
                g.result ∙ ap (λ a. ok (a, g.pool)) there_at in
              (
                g.pool,
                (at, header_count at g.pool.mem * size_of (header_idx at g.pool.mem)) ∷ live,
                rw e (ap (λ held. ok (g.pool, held)) (noted_given at g.pool live)),
                Sound-given b p lists s live l size h u at g.pool e,
              ))
      ]
  one_request-Arrives (give_up i) p live h (lists, s, l) = elim (pick_cases i live) [
    | inl e ↦ (p, live, rw (one_request, e) refl, (lists, s, l))
    | inr ((at, n), rest, e, k) ↦
        (let m = pool_free-Moves b s at (Live-Picked base top p.mem lists k l).0.0 in
          (
            m.pool,
            rest,
            rw (one_request, e, m.result) refl,
            Sound-given_back b p lists s live l rest at n m.pool k m.result,
          ))
  ]

  run_client-Arrives :
      (rs : List Request) (p : Pool) (live : List Region)
      → All IsModest rs
      → Sound ptr base top p live
      → Arrives (run_client ptr rs (p, live))
  unfolding run_client
  run_client-Arrives [] p live h s = (p, live, refl, s)
  run_client-Arrives (r ∷ rs) p live (h, hs) s =
      let (q, now, e, t) = one_request-Arrives r p live h s in
      let (last, held, f, u) = run_client-Arrives rs q now hs t in (last, held, rw (e, f) refl, u)

-- A client's program on a new pool runs to its end: take memory of less than 2 ^ 36 bytes with
-- room for the table and more than a page behind it, whose addresses fit pointers of 4 to 8
-- bytes. `pool_create` makes a pool of it, and any list of requests, for sizes above 0 that with
-- the header fit 65535 pages and for the return of blocks that are held, in any order, is carried
-- out without a fault; the pool at the end has its invariant, and the blocks that are still held
-- are in use and do not overlap.
pub run_client-ends :
    {ptr addr size : ℕ} (r : Room ptr addr size) (m : Ram) (rs : List Request)
    → All IsModest rs
    → (p : Pool) × (pool_create ptr addr size m ≡ ok (some p))
      × (q : Pool) × (live : List Region) × (run_client ptr rs (p, []) ≡ ok (q, live))
      × Sound ptr (first_page ptr addr) (addr + size) q live
run_client-ends {ptr} {addr} {size} r m rs h =
    let (n, created) = pool_create-IsPool r m in
    let (pages, made) = created in
    let (p, e, good) = made in
    let (q, live, f, sound) =
      run_client-Arrives (Room-Bounds r m) rs p [] h
        (all_pages (first_page ptr addr) n, good, tt) in
    (p, e, q, live, f, sound)
