-- ===== src/Pool/Pages.antt =====
-- The pages that `pool_create` links, and the pool whose free blocks they are.
use cvm.Base.{
  ℕ, zero, suc, ◌+◌, ◌-◌, ◌*◌, ◌^◌, ◌<◌, ◌≤◌, ◌≡◌, refl, ap, sym, ◌∙◌, ◌⊎◌, inl, inr, [], ◌==◌,
  true, false, ltb, ltb→lt, length, Bool-cases, Option, some, arith,
}
use mathlib.Core.Path.{subst, subst₂}
use native.Mathlib.Nat.{mod-eq_of_lt}
use cvm.Outcome.{ok}
use cvm.Pool.{budy_count, page_size}
use cvm.Pool.Bytes.{Ram, get, put, get-put, get-put_apart}
use cvm.Pool.Lists.{
  ◌∈◌, run, run-within, run-apart, length-run, Ascending, Ascending-front, Ascending-run,
}
use cvm.Pool.Segments.{Seg, nil, cons, Seg-last}
use cvm.Pool.Invariant.{FreeLists, set_list, IsPool, Laid, at_key, other_key}
use cvm.Pool.Runs.{last_block-run}
use cvm.Pool.Alloc.{link_pages, first_bucket}

-- The links of `n` pages from `p` on, each to the address behind the page.
abbrev pub page_links : ℕ → ℕ → ℕ → Ram → Ram
page_links ptr zero p m = m
page_links ptr (suc n) p m = page_links ptr n (p + page_size) (put ptr p (p + page_size) m)

-- The last of the pages.
abbrev pub last_page : Option ℕ → ℕ → ℕ → Option ℕ
last_page cur zero p = cur
last_page cur (suc n) p = last_page (some p) n (p + page_size)

page_links-before :
    (ptr n p : ℕ) (m : Ram) (a : ℕ)
    → a + ptr ≤ p
    → ptr ≤ page_size
    → get ptr a (page_links ptr n p m) ≡ get ptr a m
page_links-before ptr zero p m a h u = refl
page_links-before ptr (suc n) p m a h u =
    page_links-before ptr n (p + page_size) (put ptr p (p + page_size) m) a (omega arith) u
    ∙ get-put_apart ptr p (p + page_size) m ptr a (inr h)

page_links-Seg :
    (ptr n p : ℕ) (m : Ram)
    → 0 < p
    → ptr ≤ page_size
    → p + n * page_size < 256 ^ ptr
    → Seg ptr (page_links ptr n p m) (p + n * page_size) p (run page_size p n)
page_links-Seg ptr zero p m h u l = subst (λ q. Seg ptr m q p []) (omega arith) nil
page_links-Seg ptr (suc n) p m h u l =
    let q = put ptr p (p + page_size) m in
    let first : get ptr p (page_links ptr n (p + page_size) q) ≡ p + page_size =
      page_links-before ptr n (p + page_size) q p (omega arith) u
      ∙ get-put ptr p (p + page_size) m
      ∙ mod-eq_of_lt (omega arith) in
    cons h (
      rw first (
        subst
          (λ e.
            Seg ptr (page_links ptr n (p + page_size) q) e (p + page_size)
              (run page_size (p + page_size) n))
          (omega arith) (page_links-Seg ptr n (p + page_size) q (omega arith) u (omega arith))))

-- `n` whole pages and something more lie between `p` and `end`, and no more pages.
abbrev pub Pages : ℕ → ℕ → ℕ → Type 0
Pages p end n = ((n ≡ 0) ⊎ (p + n * page_size < end)) × (end ≤ p + suc n * page_size)

link_pages-go :
    (ptr left end p : ℕ) (cur : Option ℕ) (n : ℕ) (m : Ram)
    → ltb (p + page_size) end ≡ true
    → link_pages ptr (suc left) end p cur n m
      ≡ link_pages ptr left end (p + page_size) (some p) (suc n) (put ptr p (p + page_size) m)
unfolding link_pages
link_pages-go ptr left end p cur n m t = rw (link_pages, t) refl

pub link_pages_lem :
    (ptr left end p : ℕ) (cur : Option ℕ) (n : ℕ) (m : Ram)
    → end ≤ p + suc left * page_size
    → (j : ℕ) × Pages p end j
      × (link_pages ptr left end p cur n m ≡ ok (last_page cur j p, n + j, page_links ptr j p m))
unfolding link_pages
link_pages_lem ptr zero end p cur n m h = (
  0,
  (inl refl, h),
  (let no_page : ltb (p + page_size) end ≡ false = ground arith in
      rw no_page (ap (λ k. ok (cur, k, m)) (omega arith))),
)
link_pages_lem ptr (suc left) end p cur n m h = elim (Bool-cases (ltb (p + page_size) end)) [
  | inl t ↦
      (let (j, (lo, hi), e) =
          link_pages_lem ptr left end (p + page_size) (some p) (suc n) (put ptr p (p + page_size) m)
            (omega arith) in
        (
          suc j,
          (inr (ground (arith, lo, ltb→lt (p + page_size) end t)), omega (arith, hi)),
          link_pages-go ptr left end p cur n m t
              ∙ (e
                  ∙ ap
                      (λ k. ok (
                        last_page (some p) j (p + page_size),
                        k,
                        page_links ptr j (p + page_size) (put ptr p (p + page_size) m),
                      ))
                      (omega arith)),
        ))
  | inr f ↦
      (0, (inl refl, ground arith), rw (link_pages, f) (ap (λ k. ok (cur, k, m)) (omega arith)))
]

pub last_page_lem : (n p : ℕ) (cur : Option ℕ) → last_page cur (suc n) p ≡ some (p + n * page_size)
last_page_lem zero p cur = ap some (omega arith)
last_page_lem (suc n) p cur = last_page_lem n (p + page_size) (some p) ∙ ap some (omega arith)

-- The free pages of a new pool.
abbrev pub all_pages : ℕ → ℕ → FreeLists
all_pages start n = set_list (budy_count - 1) (run page_size start n) (λ i. [])

module _ (start n : ℕ) {ptr top : ℕ} (m : Ram) (real : 0 < start) (wide : ptr ≤ page_size)
    (high : start + n * page_size ≤ top) where
  pub in-pages :
      (i x : ℕ) → x ∈ all_pages start n i → (i ≡ budy_count - 1) × (x ∈ run page_size start n)
  in-pages i x =
      at_key (λ i l. x ∈ l → (i ≡ budy_count - 1) × (x ∈ run page_size start n)) (budy_count - 1)
        (run page_size start n) (λ i. []) (λ h. (refl, h)) (λ i ne h. ground arith) i

  pages-Laid : Laid start top (all_pages start n)
  pages-Laid = record {
    sorted =
        at_key (λ i l. i < budy_count → Ascending start l) (budy_count - 1) (run page_size start n)
          (λ i. [])
          (λ h.
            Ascending-front start (run page_size start n) []
              (Ascending-run page_size start n [] (omega arith) tt))
          (λ i ne h. tt);
    inside = λ i x h m.
        (let (e, r) = in-pages i x m in rw e (omega (arith, (run-within page_size start n x r).1)));
    apart = λ i j x y h k m q.
        (let (e, r) = in-pages i x m in
          let (f, t) = in-pages j y q in
          rw (e, f) (ground (arith, run-apart page_size start n x y r t)));
  }

  pub pages-IsPool :
      Seg ptr m 0 start (run page_size start n)
      → IsPool ptr start top
          (record { mem = m; buckets = first_bucket start n })
          (all_pages start n)
  pages-IsPool s = record {
    laid = pages-Laid;
    chain =
        at_key (λ i l. i < budy_count → Seg ptr m 0 (first_bucket start n i).free_list l)
          (budy_count - 1) (run page_size start n) (λ i. []) (λ h. s)
          (λ i ne h. rw (other_key i (budy_count - 1) ne) nil);
    counts =
        at_key (λ i l. i < budy_count → (first_bucket start n i).free_n ≡ length l) (budy_count - 1)
          (run page_size start n) (λ i. []) (λ h. sym (length-run page_size start n))
          (λ i ne h. rw (other_key i (budy_count - 1) ne) refl);
    sizes =
        λ i h. elim (Bool-cases (i == budy_count - 1)) [ inl t ↦ rw t refl | inr f ↦ rw f refl ];
  }

-- The pages with their links, the last one to NULL.
pub ended_pages-Seg :
    (ptr start k : ℕ) (m : Ram)
    → 0 < start
    → ptr ≤ 8
    → start + suc k * page_size < 256 ^ ptr
    → Seg ptr
        (put ptr (start + k * page_size) 0 (page_links ptr (suc k) start m))
        0
        start
        (run page_size start (suc k))
ended_pages-Seg ptr start k m h u l =
    let asc =
      Ascending-front start (run page_size start (suc k)) []
        (Ascending-run page_size start (suc k) [] (omega arith) tt) in
    let ended =
      Seg-last 0 start start (run page_size (start + page_size) k) asc
        (λ x y hx hy. ground (arith, run-apart page_size start (suc k) x y hx hy))
        (page_links-Seg ptr (suc k) start m h (omega arith) l) in
    subst₂
      (λ a q.
        Seg ptr (put ptr a 0 (page_links ptr (suc k) start m)) q start
          (run page_size start (suc k)))
      (last_block-run page_size start k) (mod-eq_of_lt (omega arith)) ended
