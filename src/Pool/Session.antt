-- ===== src/Pool/Session.antt =====
-- A client at work: it asks for blocks and gives back those that it holds, in any order.
use cvm.Base.{
  ℕ, ◌+◌, ◌*◌, ◌<◌, ◌≤◌, ◌≡◌, ap, sym, ◌∙◌, inl, inr, List, [], ◌∷◌, All, Option, none, some, arith,
}
use mathlib.Core.Path.{subst, subst₂, ap₂}
use cvm.Outcome.{Result, ok, fault}
use cvm.Pool.{Pool, size_of, page_size}
use cvm.Pool.Bytes.{Ram}
use cvm.Pool.Invariant.{FreeLists, IsPool, Bounds}
use cvm.Pool.Alloc.{
  header_size, header_idx, header_count, first_page, pool_create, pool_malloc, pool_free,
}
use cvm.Pool.Taken.{width, Gives}
use cvm.Pool.Malloc.{pool_malloc-Gives}
use cvm.Pool.Free.{pool_free-Moves}
use cvm.Pool.Pages.{all_pages}
use cvm.Pool.Create.{Room, Room-Bounds, pool_create-IsPool}
use cvm.Pool.Live.{
  Region, ApartFrom, Live, Picked, Live-Picked, Live-keep, Kept, Clear-byte, All-All, All-map,
  All-fresh,
}

-- One call. A block that was given is noted with the size that its header says.
pub data Step (ptr : ℕ) : Pool → List Region → Pool → List Region → Type 0 where
  given :
      {p q : Pool} {live : List Region} {size at : ℕ}
      → 0 < size
      → size + header_size ≤ 65535 * page_size
      → pool_malloc ptr size p ≡ ok (at + header_size, q)
      → Step ptr p live q ((at, header_count at q.mem * size_of (header_idx at q.mem)) ∷ live)
  refused :
      {p q : Pool} {live : List Region} {size : ℕ}
      → 0 < size
      → size + header_size ≤ 65535 * page_size
      → pool_malloc ptr size p ≡ ok (0, q)
      → Step ptr p live q live
  given_back :
      {p q : Pool} {live rest : List Region} {at n : ℕ}
      → Picked (at, n) live rest
      → pool_free ptr (at + header_size) p ≡ ok q
      → Step ptr p live q rest

-- Any number of calls.
pub data Steps (ptr : ℕ) : Pool → List Region → Pool → List Region → Type 0 where
  done : {p : Pool} {live : List Region} → Steps ptr p live p live
  more :
      {p q r : Pool} {a b c : List Region}
      → Step ptr p a q b
      → Steps ptr q b r c
      → Steps ptr p a r c

-- The pool has its invariant, and the client holds blocks in use that do not overlap.
abbrev pub Sound : (ptr base top : ℕ) → Pool → List Region → Type 0
Sound ptr base top p live =
    (lists : FreeLists) × IsPool ptr base top p lists × Live base top p.mem lists live

from_ok {ℓ} : {A : Type ℓ} → A → Result A → A
from_ok d (ok a) = a
from_ok d (fault e) = d

ok_injective {ℓ} : {A : Type ℓ} {a b : A} → ok a ≡ ok b → a ≡ b
unfolding from_ok
ok_injective {a = a} e = ap (from_ok a) e

or_else {ℓ} : {A : Type ℓ} → A → Option A → A
or_else d none = d
or_else d (some a) = a

from_some {ℓ} : {A : Type ℓ} {a b : A} → some a ≡ some b → a ≡ b
unfolding or_else
from_some {a = a} e = ap (or_else a) e

module _ {ptr base top : ℕ} (b : Bounds ptr base top) where
  module _ (p : Pool) (lists : FreeLists) (s : IsPool ptr base top p lists) (live : List Region)
      (l : Live base top p.mem lists live) where
    module _ (size : ℕ) (h : 0 < size) (u : size + header_size ≤ 65535 * page_size) where
      gives : Gives ptr base top p lists size (pool_malloc ptr size p)
      gives = pool_malloc-Gives b size p lists h u s

      -- Whatever `pool_malloc` gave, the blocks that were held are still held.
      held : Live base top gives.pool.mem gives.new live
      held =
          Live-keep base top p.mem lists gives.pool.mem gives.new live
            (All-All (Kept p.mem lists gives.pool.mem gives.new) live λ (a, n) c pos.
              (gives.keeps a n pos c, λ x lo hi. gives.bytes x (Clear-byte a n x lists c lo hi)))
            l

      answered :
          (a : ℕ) (q : Pool)
          → pool_malloc ptr size p ≡ ok (a, q)
          → (gives.addr ≡ a) × (gives.pool ≡ q)
      answered a q e =
          let same = ok_injective (sym gives.result ∙ e) in (ap (λ x. x.0) same, ap (λ x. x.1) same)

      pub Sound-refused :
          (q : Pool) → pool_malloc ptr size p ≡ ok (0, q) → Sound ptr base top q live
      Sound-refused q e =
          subst (λ q. Sound ptr base top q live) (answered 0 q e).1 (gives.new, gives.good, held)

      pub Sound-given :
          (at : ℕ) (q : Pool)
          → pool_malloc ptr size p ≡ ok (at + header_size, q)
          → Sound ptr base top q
              ((at, header_count at q.mem * size_of (header_idx at q.mem)) ∷ live)
      Sound-given at q e = elim gives.answer [
        | inl z ↦ absurd (omega (arith, z, (answered (at + header_size) q e).0))
        | inr (from, w, f, room, fresh) ↦
            (let size_said : width w
                  ≡ header_count from gives.pool.mem * size_of (header_idx from gives.pool.mem) =
                ap₂ (λ c i. c * size_of i) (sym w.header.says_count) (sym w.header.says_idx) in
              let apart = All-fresh base top p.mem lists from (width w) live fresh l in
              subst₂
                (λ a q.
                  Sound ptr base top q
                    ((a, header_count a q.mem * size_of (header_idx a q.mem)) ∷ live))
                (omega (arith, f, (answered (at + header_size) q e).0))
                (answered (at + header_size) q e).1
                (
                  gives.new,
                  gives.good,
                  (
                    (w, size_said),
                    subst (λ n. All (ApartFrom (from, n)) live) size_said apart,
                    held,
                  ),
                ))
      ]

    pub Sound-given_back :
        (rest : List Region) (at n : ℕ) (q : Pool)
        → Picked (at, n) live rest
        → pool_free ptr (at + header_size) p ≡ ok q
        → Sound ptr base top q rest
    Sound-given_back rest at n q k e =
        let (own, apart, others) = Live-Picked base top p.mem lists k l in
        let (w, f) = own in
        let m = pool_free-Moves b s at w in
        subst (λ q. Sound ptr base top q rest) (ok_injective (sym m.result ∙ e))
          (
            m.lists,
            m.good,
            Live-keep base top p.mem lists m.pool.mem m.lists rest
                (All-map (ApartFrom (at, n)) (Kept p.mem lists m.pool.mem m.lists) rest
                  (λ (a, j) far c pos. (
                    m.keeps a j pos (c, ground (arith, far, f)),
                    λ x lo hi. m.bytes x (Clear-byte a j x lists c lo hi, ground (arith, far, f)),
                  ))
                  apart)
                others,
          )

  -- A call keeps a sound pool sound.
  Step-Sound :
      {p q : Pool} {a c : List Region}
      → Step ptr p a q c
      → Sound ptr base top p a
      → Sound ptr base top q c
  Step-Sound (given h u e) (lists, s, l) = Sound-given _ lists s _ l _ h u _ _ e
  Step-Sound (refused h u e) (lists, s, l) = Sound-refused _ lists s _ l _ h u _ e
  Step-Sound (given_back k e) (lists, s, l) = Sound-given_back _ lists s _ l _ _ _ _ k e

  Steps-Sound :
      {p q : Pool} {a c : List Region}
      → Steps ptr p a q c
      → Sound ptr base top p a
      → Sound ptr base top q c
  Steps-Sound done h = h
  Steps-Sound (more s t) h = Steps-Sound t (Step-Sound s h)

-- Take a pool that `pool_create` made in memory of less than 2 ^ 36 bytes with room for the table
-- and more than a page behind it, whose addresses fit pointers of 4 to 8 bytes. After any calls,
-- of sizes above 0 that with the header fit 65535 pages and of blocks that the client holds, the
-- pool has its invariant; each block that the client holds has its header, lies between the first
-- page and the end of the memory, and has no byte in common with another or a free block.
pub session-Sound :
    {ptr addr size : ℕ} (r : Room ptr addr size) (m : Ram) (p q : Pool) (live : List Region)
    → pool_create ptr addr size m ≡ ok (some p)
    → Steps ptr p [] q live
    → Sound ptr (first_page ptr addr) (addr + size) q live
session-Sound {ptr} {addr} {size} r m p q live e t =
    let (n, created) = pool_create-IsPool r m in
    let (pages, made) = created in
    let (new, f, good) = made in
    let same = from_some (ok_injective (sym f ∙ e)) in
    Steps-Sound (Room-Bounds r m) t (
      subst (λ p. Sound ptr (first_page ptr addr) (addr + size) p []) same
        (all_pages (first_page ptr addr) n, good, tt))
