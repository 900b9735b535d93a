-- ===== src/Pool/Runs.antt =====
-- The steps of `pool_add_free`: the links within the run, and the three cases of its place.
use cvm.Base.{
  ℕ, zero, suc, ◌+◌, ◌-◌, ◌*◌, ◌%◌, ◌^◌, ◌<◌, ◌≤◌, ◌≡◌, refl, ap, ◌∙◌, inl, inr, List, [], ◌∷◌,
  true, false, ltb, leb, length, Bool-cases, arith,
}
use mathlib.Core.Path.{subst}
use native.Mathlib.Nat.{mod-eq_of_lt, add-mod_left}
use cvm.Outcome.{ok}
use cvm.Pool.{
  Pool, of_bucket, budy_count, size_of, set_place, set_next, link_run, insert_run, last_of,
}
use cvm.Pool.Bytes.{get, get-put, get-put_apart}
use cvm.Pool.Lists.{run, below, from}
use cvm.Pool.Segments.{Seg, nil, cons, Seg-first, Seg-pos, first_of, last_block, seek_lem}
use cvm.Pool.Invariant.{nonzero, FreeLists, Clear, IsPool, IsPool-put, Bounds}
use cvm.Pool.Relink.{linked}

pub one_less : (k : ℕ) → suc k - 1 ≡ k
one_less k = omega arith

pub in_table : (idx : ℕ) → idx < budy_count → leb budy_count idx ≡ false
in_table idx h = ground arith

not_below : (b x : ℕ) → ltb b x ≡ true → ltb x b ≡ false
not_below b x h = ground arith

-- The three cases of the code are one: the run goes behind the blocks below it.
pub insert_run_lem :
    (ptr idx block n : ℕ) (p : Pool) (xs : List ℕ)
    → length xs ≤ (p.buckets idx).free_n
    → Seg ptr p.mem 0 (p.buckets idx).free_list xs
    → insert_run ptr idx block n p
      ≡ ok (
          set_next ptr
            (last_of ptr block n (size_of idx))
            (first_of (from block xs))
            (linked ptr idx (below block xs) block p))
unfolding insert_run set_place
insert_run_lem ptr idx block n p [] h s = rw (Seg-first s) refl
insert_run_lem ptr idx block n p (x ∷ xs) h s = elim (Bool-cases (ltb block x)) [
  | inl t ↦ rw (Seg-first s, nonzero x (Seg-pos s), t, not_below block x t) refl
  | inr f ↦ rw (
    insert_run,
    Seg-first s,
    nonzero x (Seg-pos s),
    f,
    seek_lem ptr (p.buckets idx).free_n block of_bucket p (x ∷ xs) h
        (subst (λ q. Seg ptr p.mem 0 q (x ∷ xs)) (Seg-first s) s),
  )
]

-- The links that the first loop writes: all of the run but the last.
module _ {ptr size : ℕ} where
  link_run-before :
      (left i block : ℕ) (p : Pool) (a : ℕ)
      → ptr ≤ size
      → a + ptr ≤ block + i * size
      → get ptr a (link_run ptr left i block size p).mem ≡ get ptr a p.mem
  unfolding link_run
  link_run-before zero i block p a h l = refl
  link_run-before (suc left) i block p a h l =
      link_run-before left (suc i) block (set_next ptr (block + i * size) (block + suc i * size) p)
        a h (omega arith)
      ∙ get-put_apart ptr (block + i * size) (block + suc i * size) p.mem ptr a (ground arith)

  pub link_run-Seg :
      (left i block : ℕ) (p : Pool) (a : ℕ)
      → a ≡ block + i * size
      → ptr ≤ size
      → 0 < a
      → a + suc left * size < 256 ^ ptr
      → Seg ptr
          (link_run ptr left i block size p).mem
          (get ptr (a + left * size) (link_run ptr left i block size p).mem)
          a
          (run size a (suc left))
  unfolding link_run
  link_run-Seg zero i block p a e h l u =
      cons l (subst (λ c. Seg ptr p.mem (get ptr c p.mem) (get ptr a p.mem) []) (omega arith) nil)
  link_run-Seg (suc left) i block p a e h l u =
      let q = set_next ptr (block + i * size) (block + suc i * size) p in
      let m = (link_run ptr left (suc i) block size q).mem in
      let start : get ptr a m ≡ a + size =
        ap (λ c. get ptr c m) e
        ∙ link_run-before left (suc i) block q (block + i * size) h (omega arith)
        ∙ get-put ptr (block + i * size) (block + suc i * size) p.mem
        ∙ mod-eq_of_lt (omega arith)
        ∙ omega arith in
      let rest =
        link_run-Seg left (suc i) block q (a + size) (omega arith) h (omega arith) (omega arith) in
      cons l (
        rw start (
          subst (λ c. Seg ptr m (get ptr c m) (a + size) (run size (a + size) (suc left)))
            (omega arith) rest))

pub IsPool-link_run :
    {ptr base top : ℕ} {lists : FreeLists}
    → Bounds ptr base top
    → (size block left i : ℕ) → 16 ≤ size
    → Clear block ((i + left) * size) lists
    → (p : Pool) → IsPool ptr base top p lists
    → IsPool ptr base top (link_run ptr left i block size p) lists
unfolding link_run
IsPool-link_run b size block zero i h c p s = s
IsPool-link_run {ptr} b size block (suc left) i h c p s =
    IsPool-link_run b size block left (suc i) h (λ j x hj m. ground (arith, c j x hj m))
      (set_next ptr (block + i * size) (block + suc i * size) p)
      (IsPool-put s b ptr (block + i * size) (block + suc i * size)
        (λ j x hj m. ground (arith, c j x hj m, b.wide)))

pub last_of_lem :
    (ptr block k size : ℕ)
    → block + suc k * size < 256 ^ ptr
    → last_of ptr block (suc k) size ≡ block + k * size
last_of_lem ptr block k size h =
    ap (λ n. n % 256 ^ ptr) {y = 256 ^ ptr + (block + k * size)} (omega arith)
    ∙ add-mod_left (256 ^ ptr) (block + k * size)
    ∙ mod-eq_of_lt (omega (arith, h))

pub last_block-run : (size b k : ℕ) → last_block b (run size (b + size) k) ≡ b + k * size
last_block-run size b zero = omega arith
last_block-run size b (suc k) = omega (arith, last_block-run size (b + size) k)
