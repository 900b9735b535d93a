-- ===== src/Pool/Split.antt =====
-- `pool_pull_upper`: blocks of a larger bucket are split until the bucket has one.
use cvm.Base.{
  ℕ, zero, suc, ◌+◌, ◌-◌, ◌*◌, ◌<◌, ◌≤◌, ◌≡◌, ap, ◌∙◌, inl, inr, List, [], ◌∷◌, ◌==◌, true, false,
  if◌then◌else◌, Bool-cases, arith,
}
use native.Mathlib.Nat.{pow-suc}
use cvm.Outcome.{Result, ok}
use cvm.Pool.{
  Pool, budy_count, size_of, set_first, set_next, count_down, pool_add_free, split_upper, pull,
  pool_pull_upper,
}
use cvm.Pool.Bytes.{get, put, put-Outside}
use cvm.Pool.Invariant.{
  FreeLists, set_list, Clear, IsPool, IsPool-put, has_first, Bounds, size_of-min,
}
use cvm.Pool.Remove.{removed, IsPool-removed}
use cvm.Pool.Frame.{removed-bytes, removed-keeps}
use cvm.Pool.Moves.{
  Moves, Moves-id, Moves-bind, Moves-add, Moves-from, first_is, without_first, first-Clear,
  first-Apart, first-inside,
}

pub size_of-suc : (i : ℕ) → size_of (suc i) ≡ 2 * size_of i
size_of-suc i = omega (arith, pow-suc 2 i)

module _ {ptr base top : ℕ} (b : Bounds ptr base top) where
  module _ {p : Pool} {lists : FreeLists} (s : IsPool ptr base top p lists) (idx : ℕ)
      (hi : suc idx < budy_count) (x : ℕ) (xs : List ℕ) (e : lists (suc idx) ≡ x ∷ xs) where
    abbrev pub out : Pool
    out = removed b s (suc idx) hi [] (x ∷ []) xs e

    abbrev pub cut : Pool
    cut = set_next ptr (x + size_of idx) 0 (set_next ptr x (x + size_of idx) out)

    pub split_upper_lem : split_upper ptr idx p ≡ pool_add_free ptr idx x 2 cut
    unfolding split_upper
    split_upper_lem =
        let go : ℕ → Pool → Result Pool = λ a q.
          pool_add_free ptr idx a 2
            (set_next ptr (a + size_of idx) 0 (set_next ptr a (a + size_of idx) q)) in
        ap (λ a. go a (count_down (suc idx) 1 (set_first (suc idx) (get ptr a p.mem) p)))
          (first_is b s (suc idx) hi x xs e)
        ∙ ap (go x) (without_first b s (suc idx) hi x xs e)

    -- The region of the block that is cut, after it was taken out.
    pub region-Clear : Clear x (2 * size_of idx) (set_list (suc idx) xs lists)
    region-Clear i y h m =
        ground (arith, first-Clear b s (suc idx) hi x xs e i y h m, size_of-suc idx)

    pub cut-IsPool : IsPool ptr base top cut (set_list (suc idx) xs lists)
    cut-IsPool =
        IsPool-put
          (IsPool-put (IsPool-removed b s (suc idx) hi [] (x ∷ []) xs e) b ptr x (x + size_of idx)
            (λ i y h m. ground (arith, region-Clear i y h m, size_of-min idx, b.wide)))
          b ptr (x + size_of idx) 0
          (λ i y h m. ground (arith, region-Clear i y h m, size_of-min idx, b.wide))

    cut-bytes : (c : ℕ) → Clear c 1 lists → cut.mem c ≡ p.mem c
    cut-bytes c h =
        let far = first-Apart b s (suc idx) hi x xs e c 1 h in
        put-Outside ptr (x + size_of idx) 0 (put ptr x (x + size_of idx) out.mem) c
          (ground (arith, far, size_of-suc idx, size_of-min idx, b.wide))
        ∙ put-Outside ptr x (x + size_of idx) out.mem c
            (ground (arith, far, size_of-suc idx, size_of-min idx, b.wide))
        ∙ removed-bytes b s (suc idx) hi [] (x ∷ []) xs e c h

    Moves-split : Moves ptr base top (λ a n. Clear a n lists) p (split_upper ptr idx p)
    Moves-split = rw split_upper_lem (
        Moves-from
          (λ a n pos h. (
            removed-keeps b s (suc idx) hi [] (x ∷ []) xs e a n h,
            ground (arith, first-Apart b s (suc idx) hi x xs e a n h, size_of-suc idx),
          ))
          cut-bytes
          (Moves-add b cut-IsPool idx (omega arith) 1 x (first-inside b s (suc idx) hi x xs e).0
            (omega (arith, (first-inside b s (suc idx) hi x xs e).1, size_of-suc idx))
            region-Clear))

  Moves-pull :
      (above idx : ℕ)
      → suc (above + idx) ≤ budy_count
      → (p : Pool) (lists : FreeLists) → IsPool ptr base top p lists
      → Moves ptr base top (λ a n. Clear a n lists) p (pull ptr above idx p)
  unfolding pull
  Moves-pull zero idx h p lists s = Moves-id s
  Moves-pull (suc above) idx h p lists s =
      let above_p : Result Pool = elim ((p.buckets (suc idx)).free_n == 0) [
        | true ↦ pull ptr above (suc idx) p
        | false ↦ ok p
      ] in
      let first : Moves ptr base top (λ a n. Clear a n lists) p above_p =
        elim (Bool-cases ((p.buckets (suc idx)).free_n == 0)) [
          | inl t ↦ rw t (Moves-pull above (suc idx) (omega arith) p lists s)
          | inr f ↦ rw f (Moves-id s)
        ] in
      Moves-bind
        {f = λ q. if (q.buckets (suc idx)).free_n == 0 then ok q else split_upper ptr idx q} first
        λ q l good. elim (Bool-cases ((q.buckets (suc idx)).free_n == 0)) [
          | inl t ↦ rw t (Moves-id good)
          | inr f ↦ rw f (
              let (x, xs, e) = has_first (suc idx) good (omega arith) f in
              Moves-split good idx (omega arith) x xs e)
        ]

  pub Moves-pull_upper :
      (idx : ℕ)
      → idx < budy_count
      → (p : Pool) (lists : FreeLists) → IsPool ptr base top p lists
      → Moves ptr base top (λ a n. Clear a n lists) p (pool_pull_upper ptr idx p)
  unfolding pool_pull_upper
  Moves-pull_upper idx h p lists s = Moves-pull (budy_count - suc idx) idx (omega arith) p lists s
