-- ===== src/Pool/Free.antt =====
-- `pool_free` of a block in use.
use cvm.Base.{
  ℕ, suc, ◌+◌, ◌-◌, ◌*◌, ◌%◌, ◌^◌, ◌<◌, ◌≤◌, ◌≡◌, refl, ap, sym, ◌∙◌, inl, inr, ltb, if◌then◌else◌,
  Bool-cases, arith,
}
use mathlib.Core.Path.{subst}
use native.Mathlib.Nat.{mod-eq_of_lt, add-mod_left}
use cvm.Outcome.{ok}
use cvm.Pool.{Pool, wrap, budy_count, size_of, pool_try_shrink}
use cvm.Pool.Bytes.{Apart}
use cvm.Pool.Invariant.{FreeLists, Clear, IsPool, Bounds}
use cvm.Pool.Runs.{in_table}
use cvm.Pool.Moves.{Moves, Moves-id, Moves-bind, Moves-add}
use cvm.Pool.Merge.{Moves-try_shrink}
use cvm.Pool.Alloc.{header_size, shrink_thd, give_back, pool_free}
use cvm.Pool.Taken.{InUse, width}

module _ {ptr base top : ℕ} (b : Bounds ptr base top) {p : Pool} {lists : FreeLists}
    (s : IsPool ptr base top p lists) where
  Moves-give_back :
      (idx k at : ℕ)
      → idx < budy_count
      → base ≤ at
      → at + suc k * size_of idx ≤ top
      → Clear at (suc k * size_of idx) lists
      → Moves ptr base top
          (λ a n. Clear a n lists × Apart a n at (suc k * size_of idx))
          p
          (give_back ptr idx at (suc k) p)
  unfolding give_back
  Moves-give_back idx k at hi low high clear =
      Moves-bind
        {f = λ q. if ltb shrink_thd (q.buckets idx).free_n then pool_try_shrink ptr idx q else ok q}
        (Moves-add b s idx hi k at low high clear)
        λ q ls good. elim (Bool-cases (ltb shrink_thd (q.buckets idx).free_n)) [
          | inl t ↦ rw t (Moves-try_shrink b idx hi q ls good)
          | inr f ↦ rw f (Moves-id good)
        ]

  module _ (at : ℕ) (u : InUse base top p.mem lists at) where
    header_at : wrap ptr (at + header_size + 256 ^ ptr - header_size) ≡ at
    header_at =
        ap (λ n. n % 256 ^ ptr) {y = 256 ^ ptr + at} (omega arith)
        ∙ add-mod_left (256 ^ ptr) at
        ∙ mod-eq_of_lt (omega (arith, u.high, b.ends))

    pool_free-give_back : pool_free ptr (at + header_size) p ≡ give_back ptr u.idx at u.count p
    unfolding pool_free
    pool_free-give_back =
        rw
          (
            pool_free,
            header_at,
            u.header.says_magic,
            u.header.says_idx,
            u.header.says_count,
            in_table u.idx u.bucket,
          )
          refl

    units : suc (u.count - 1) ≡ u.count
    units = omega (arith, u.some_units)

    -- In a pool with its invariant, `pool_free` of a block in use returns, and the new pool has
    -- its invariant. What was clear of free blocks and apart from that block stays clear, and its
    -- bytes stay as they were.
    pub pool_free-Moves :
        Moves ptr base top
          (λ a n. Clear a n lists × Apart a n at (width u))
          p
          (pool_free ptr (at + header_size) p)
    pool_free-Moves = rw pool_free-give_back (
        subst
          (λ c.
            Moves ptr base top (λ a n. Clear a n lists × Apart a n at (c * size_of u.idx)) p
              (give_back ptr u.idx at c p))
          units
          (Moves-give_back u.idx (u.count - 1) at u.bucket u.low
            (subst (λ c. at + c * size_of u.idx ≤ top) (sym units) u.high)
            (subst (λ c. Clear at (c * size_of u.idx) lists) (sym units) u.clear)))
