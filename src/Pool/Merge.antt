-- ===== src/Pool/Merge.antt =====
-- `pool_try_shrink`: neighbours in a free list become one block of the next bucket.
use cvm.Base.{
  ℕ, zero, suc, ◌+◌, ◌-◌, ◌*◌, ◌^◌, ◌<◌, ◌≤◌, ◌≡◌, refl, ap, sym, ◌∙◌, inl, inr, List, [], ◌∷◌,
  ◌++◌, ◌==◌, ◌&&◌, Bool, true, false, length, Bool-cases, bit_and, arith,
}
use mathlib.Core.Path.{subst}
use native.Mathlib.Nat.{mod-eq_of_lt}
use cvm.Outcome.{ok, ◌>>=◌}
use cvm.Pool.{
  Pool, Place, of_bucket, of_block, wrap, budy_count, size_of, set_place, count_down, pool_add_free,
  merge, shrink, pool_try_shrink,
}
use cvm.Pool.Bytes.{get, Apart}
use cvm.Pool.Lists.{run, insert_at, Ascending-le, append_one}
use cvm.Pool.Segments.{Seg-first, Seg-second, Seg-back, first_of, last_place, last_place-one}
use cvm.Pool.Invariant.{
  FreeLists, set_list, Clear, List-cases, IsPool, Bounds, size_of-min, same_key, other_key,
}
use cvm.Pool.Remove.{in-mid, removed-Clear, IsPool-removed}
use cvm.Pool.Walk.{here, real, step, fits}
use cvm.Pool.Insert.{added, pool_add_free_lem, IsPool-added}
use cvm.Pool.Frame.{removed-bytes, removed-keeps, added-bytes, added-keeps}
use cvm.Pool.Moves.{Moves, Moves-id, Moves-bind, Moves-from}
use cvm.Pool.Split.{size_of-suc}

-- The test for a neighbour, and the alignment that the code asks for.
abbrev twins : ℕ → ℕ → ℕ → Pool → Bool
twins ptr idx curr p =
    (get ptr curr p.mem == wrap ptr (curr + size_of idx)) && (bit_and curr (size_of idx - 1) == 0)

twins-next :
    (ptr idx curr : ℕ) (p : Pool)
    → curr + size_of idx < 256 ^ ptr
    → twins ptr idx curr p ≡ true
    → get ptr curr p.mem ≡ curr + size_of idx
twins-next ptr idx curr p h t = ground (arith, mod-eq_of_lt h)

-- A round of the loop, on a block that is not NULL.
module _ (ptr left idx x : ℕ) (prev : Place) (p : Pool) (real : (x == 0) ≡ false) where
  merge-skip :
      twins ptr idx x p ≡ false
      → merge ptr (suc left) idx x prev p ≡ merge ptr left idx (get ptr x p.mem) (of_block x) p
  unfolding merge
  merge-skip t = rw (merge, real, t) refl

  merge-pair :
      (y rest : ℕ)
      → twins ptr idx x p ≡ true
      → get ptr x p.mem ≡ y
      → get ptr y p.mem ≡ rest
      → merge ptr (suc left) idx x prev p ≡ (
          pool_add_free ptr (suc idx) x 1 (count_down idx 2 (set_place ptr idx prev rest p))
          >>= merge ptr left idx rest prev)
  unfolding merge
  merge-pair y rest t e f =
      rw (merge, real, t)
        (ap
          (λ r.
            pool_add_free ptr (suc idx) x 1 (count_down idx 2 (set_place ptr idx prev r p))
            >>= merge ptr left idx r prev)
          (ap (λ a. get ptr a p.mem) e ∙ f))

module _ {ptr base top : ℕ} (b : Bounds ptr base top) where
  -- Two neighbours `x` and `x + size` behind `front` are merged.
  module _ {p : Pool} {lists : FreeLists} (s : IsPool ptr base top p lists) (idx : ℕ)
      (hi : suc idx < budy_count) (front : List ℕ) (x : ℕ) (rest : List ℕ)
      (split : lists idx ≡ front ++ (x ∷ (x + size_of idx) ∷ rest)) where
    abbrev pair : List ℕ
    pair = x ∷ (x + size_of idx) ∷ []

    abbrev pub less : FreeLists
    less = set_list idx (front ++ rest) lists

    pub hl : idx < budy_count
    hl = omega arith

    pair-Clear : Clear x (1 * size_of (suc idx)) less
    pair-Clear i y h m = ground (
      arith,
      removed-Clear b s idx hl front pair rest split x (ground arith) i y h m,
      removed-Clear b s idx hl front pair rest split (x + size_of idx) (ground arith) i y h m,
      size_of-suc idx,
      size_of-min i,
    )

    pair-low : base ≤ x
    pair-low =
        Ascending-le base x (lists idx) (s.laid.sorted idx hl)
          (in-mid b s idx hl front pair rest split x (ground arith))

    pair-high : x + 1 * size_of (suc idx) ≤ top
    pair-high = omega (
      arith,
      s.laid.inside idx (x + size_of idx) hl
          (in-mid b s idx hl front pair rest split (x + size_of idx) (ground arith)),
      size_of-suc idx,
    )

    abbrev merged : Pool
    merged =
        added b (IsPool-removed b s idx hl front pair rest split) (suc idx) hi 0 x pair-low
          pair-high pair-Clear

    abbrev merged_lists : FreeLists
    merged_lists =
        set_list (suc idx) (insert_at x (run (size_of (suc idx)) x 1) (less (suc idx))) less

    merged-rest : merged_lists idx ≡ front ++ rest
    merged-rest = rw (other_key idx (suc idx) (omega arith), same_key idx) refl

    -- What is clear of both is clear of the two together.
    pair-Apart : (a n : ℕ) → 0 < n → Clear a n lists → Apart a n x (1 * size_of (suc idx))
    pair-Apart a n pos h = ground (
      arith,
      h idx x hl (in-mid b s idx hl front pair rest split x (ground arith)),
      h idx (x + size_of idx) hl
          (in-mid b s idx hl front pair rest split (x + size_of idx) (ground arith)),
      size_of-suc idx,
    )

    merged-keeps : (a n : ℕ) → 0 < n → Clear a n lists → Clear a n merged_lists
    merged-keeps a n pos h =
        added-keeps b (IsPool-removed b s idx hl front pair rest split) (suc idx) hi 0 x pair-low
          pair-high pair-Clear a n (removed-keeps b s idx hl front pair rest split a n h)
          (pair-Apart a n pos h)

    merged-bytes : (c : ℕ) → Clear c 1 lists → merged.mem c ≡ p.mem c
    merged-bytes c h =
        added-bytes b (IsPool-removed b s idx hl front pair rest split) (suc idx) hi 0 x pair-low
          pair-high pair-Clear c (removed-keeps b s idx hl front pair rest split c 1 h)
          (pair-Apart c 1 (omega arith) h)
        ∙ removed-bytes b s idx hl front pair rest split c h

    merged-result :
        pool_add_free ptr
          (suc idx)
          x
          1
          (count_down idx 2 (set_place ptr idx (last_place of_bucket front) (first_of rest) p))
        ≡ ok merged
    merged-result =
        pool_add_free_lem b (IsPool-removed b s idx hl front pair rest split) (suc idx) hi 0 x
          pair-low pair-high pair-Clear

    IsPool-merged : IsPool ptr base top merged merged_lists
    IsPool-merged =
        IsPool-added b (IsPool-removed b s idx hl front pair rest split) (suc idx) hi 0 x pair-low
          pair-high pair-Clear

  module _ {p : Pool} {lists : FreeLists} (s : IsPool ptr base top p lists) (idx : ℕ)
      (hi : suc idx < budy_count) (front : List ℕ) (x : ℕ) (rest : List ℕ)
      (e : lists idx ≡ front ++ (x ∷ rest)) where
    next-twin : twins ptr idx x p ≡ true → (others : List ℕ) × (rest ≡ (x + size_of idx) ∷ others)
    next-twin t =
        let link =
          twins-next ptr idx x p (omega (arith, fits b s idx (omega arith) front x rest e, b.ends))
            t in
        let link_to = step b s idx (omega arith) front x rest e in
        elim (List-cases rest) [
          | inl q ↦ absurd (omega (arith, link, link_to, ap first_of q, size_of-min idx))
          | inr r ↦ (r.1, r.2 ∙ ap (λ y. y ∷ r.1) (omega (arith, link, link_to, ap first_of r.2)))
        ]

  Moves-merge :
      (left idx : ℕ)
      → suc idx < budy_count
      → (front rest : List ℕ) (p : Pool) (lists : FreeLists) → IsPool ptr base top p lists
      → lists idx ≡ front ++ rest
      → length rest ≤ left
      → Moves ptr base top
          (λ a n. Clear a n lists)
          p
          (merge ptr left idx (first_of rest) (last_place of_bucket front) p)
  unfolding merge
  Moves-merge zero idx hi front [] p lists s e h = Moves-id s
  Moves-merge zero idx hi front (x ∷ rest) p lists s e h = absurd (omega arith)
  Moves-merge (suc left) idx hi front [] p lists s e h = Moves-id s
  Moves-merge (suc left) idx hi front (x ∷ rest) p lists s e h =
      elim (Bool-cases (twins ptr idx x p)) [
        | inl t ↦
            (let (others, q) = next-twin s idx hi front x rest e t in
              let split : lists idx ≡ front ++ (x ∷ (x + size_of idx) ∷ others) =
                e ∙ ap (λ l. front ++ (x ∷ l)) q in
              let link =
                twins-next ptr idx x p
                  (omega (arith, fits b s idx (omega arith) front x rest e, b.ends)) t in
              let behind = Seg-second (
                Seg-back (x ∷ []) ((x + size_of idx) ∷ others)
                  (here b s idx (omega arith) front x ((x + size_of idx) ∷ others) split)) in
              let nonnull : (x == 0) ≡ false = real b s idx (omega arith) front x rest e in
              let result = merged-result s idx hi front x others split in
              rw
                (
                  merge-pair ptr left idx x (last_place of_bucket front) p nonnull (x + size_of idx)
                      (first_of others) t link behind,
                  result,
                )
                (Moves-from (merged-keeps s idx hi front x others split)
                  (merged-bytes s idx hi front x others split)
                  (Moves-merge left idx hi front others (merged s idx hi front x others split)
                    (merged_lists s idx hi front x others split)
                    (IsPool-merged s idx hi front x others split)
                    (merged-rest s idx hi front x others split) (omega (arith, h, ap length q)))))
        | inr f ↦
            let nonnull : (x == 0) ≡ false = real b s idx (omega arith) front x rest e in
            let link : get ptr x p.mem ≡ first_of rest =
              step b s idx (omega arith) front x rest e in
            rw (merge-skip ptr left idx x (last_place of_bucket front) p nonnull f, link)
              (subst
                (λ pl.
                  Moves ptr base top (λ a n. Clear a n lists) p
                    (merge ptr left idx (first_of rest) pl p))
                (last_place-one of_bucket front x)
                (Moves-merge left idx hi (front ++ (x ∷ [])) rest p lists s
                  (e ∙ sym (append_one front x rest)) (omega arith)))
      ]

  Moves-shrink :
      (above idx : ℕ)
      → suc (above + idx) ≤ budy_count
      → (p : Pool) (lists : FreeLists) → IsPool ptr base top p lists
      → Moves ptr base top (λ a n. Clear a n lists) p (shrink ptr above idx p)
  unfolding shrink
  Moves-shrink zero idx h p lists s = Moves-id s
  Moves-shrink (suc above) idx h p lists s =
      Moves-bind {f = shrink ptr above (suc idx)}
        (subst
          (λ a.
            Moves ptr base top (λ a n. Clear a n lists) p
              (merge ptr (p.buckets idx).free_n idx a of_bucket p))
          (sym (Seg-first (s.chain idx (omega arith))))
          (Moves-merge (p.buckets idx).free_n idx (omega arith) [] (lists idx) p lists s refl
            (omega (arith, s.counts idx (omega arith)))))
        (λ q l good. Moves-shrink above (suc idx) (omega arith) q l good)

  pub Moves-try_shrink :
      (idx : ℕ)
      → idx < budy_count
      → (p : Pool) (lists : FreeLists) → IsPool ptr base top p lists
      → Moves ptr base top (λ a n. Clear a n lists) p (pool_try_shrink ptr idx p)
  unfolding pool_try_shrink
  Moves-try_shrink idx h p lists s = Moves-shrink (budy_count - suc idx) idx (omega arith) p lists s
