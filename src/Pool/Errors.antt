-- ===== src/Pool/Errors.antt =====
-- Calls of the allocator that go wrong.
use cvm.Base.{
  ℕ, ◌+◌, ◌-◌, ◌*◌, ◌/◌, ◌%◌, ◌^◌, ◌<◌, ◌≤◌, ◌≡◌, refl, ap, ◌∙◌, ◌⊎◌, inl, inr, ◌==◌, false, ltb,
  leb, none, arith,
}
use native.Mathlib.Nat.{mod-eq_of_lt, add-mod_left, pow-le-pow_right}
use cvm.Outcome.{fault, check, bad_bucket, wild_pointer}
use cvm.Pool.{Pool, wrap, budy_count, page_size}
use cvm.Pool.Bytes.{Ram}
use cvm.Pool.Invariant.{nonzero}
use cvm.Pool.Alloc.{
  header_size, padded, count_shifts, adjust_index, bucket_for, malloc_small, pool_malloc,
  first_page, pool_create,
}
use cvm.Pool.Pages.{link_pages_lem}
use cvm.Pool.Malloc.{malloc_is_small}

-- The largest sizes, with the header, wrap around to at most one unit.
padded_wraps :
    (ptr size : ℕ)
    → 4 ≤ ptr
    → 256 ^ ptr ≤ size + 8
    → size < 256 ^ ptr
    → (padded ptr size ≡ 0) ⊎ (padded ptr size ≡ 8)
unfolding padded
padded_wraps ptr size h l u =
    let large = pow-le-pow_right {n = 256} (omega arith) h in
    let k : ℕ = size + 8 - 256 ^ ptr in
    let over : wrap ptr (size + 8) ≡ k =
      ap (λ n. n % 256 ^ ptr) {y = 256 ^ ptr + k} (omega arith)
      ∙ add-mod_left (256 ^ ptr) k
      ∙ mod-eq_of_lt (omega (arith, large)) in
    let padded_k : padded ptr size ≡ (k + 7) / 8 * 8 =
      ap (λ n. wrap ptr (n + 7) / 8 * 8) over
      ∙ ap (λ n. n / 8 * 8) (mod-eq_of_lt (omega (arith, large))) in
    ground (arith, padded_k)

no_bucket :
    (units : ℕ) (p : Pool) (ptr : ℕ)
    → bucket_for units ≡ fault bad_bucket
    → malloc_small ptr units p ≡ fault bad_bucket
unfolding malloc_small
no_bucket units p ptr e = rw (malloc_small, e) refl

-- `pool_malloc` of one of the eight largest sizes of a pointer's width, where pointers have four
-- bytes or more and the last bucket has blocks of eight bytes or more, leads to a place before
-- the table of buckets.
pub pool_malloc-wraps :
    (ptr size : ℕ) (p : Pool)
    → 4 ≤ ptr
    → 256 ^ ptr ≤ size + header_size
    → size < 256 ^ ptr
    → 8 ≤ (p.buckets (budy_count - 1)).obj_size
    → pool_malloc ptr size p ≡ fault bad_bucket
unfolding bucket_for count_shifts adjust_index check
pool_malloc-wraps ptr size p h l u o =
    let large = pow-le-pow_right {n = 256} (omega arith) h in
    let real : (size == 0) ≡ false = nonzero size (omega (arith, large)) in
    let small : ltb (p.buckets (budy_count - 1)).obj_size (padded ptr size) ≡ false =
      ground (arith, padded_wraps ptr size h l u) in
    malloc_is_small ptr size p real small ∙ elim (padded_wraps ptr size h l u) [
      | inl e ↦ ap (λ n. malloc_small ptr n p) e ∙ no_bucket 0 p ptr refl
      | inr e ↦ ap (λ n. malloc_small ptr n p) e ∙ no_bucket 8 p ptr refl
    ]

-- `pool_create` of more than a page's size, where no whole page fits behind the table, writes
-- through a pointer that was never set.
pub pool_create-no_page :
    (ptr addr size : ℕ) (m : Ram)
    → page_size < size
    → addr ≤ first_page ptr addr
    → addr + size ≤ first_page ptr addr + page_size
    → pool_create ptr addr size m ≡ fault wild_pointer
unfolding pool_create
pool_create-no_page ptr addr size m h a u =
    let big : leb size page_size ≡ false = ground arith in
    let (j, pages, e) =
      link_pages_lem ptr (size / page_size) (addr + size) (first_page ptr addr) none 0 m
        (omega arith) in
    let none_linked : j ≡ 0 = ground (arith, pages.0) in rw (pool_create, big, e, none_linked) refl
