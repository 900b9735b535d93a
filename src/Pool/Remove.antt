-- ===== src/Pool/Remove.antt =====
-- Blocks that are taken out of a free list: the link before them leads to the block after them.
use cvm.Base.{
  ℕ, ◌<◌, ◌≤◌, ◌≡◌, ◌≢◌, ap, ◌∙◌, inl, inr, List, ◌++◌, length, length-append, Bool-cases, arith,
}
use cvm.Pool.{Pool, Bucket, of_bucket, budy_count, size_of, count_down}
use cvm.Pool.Bytes.{Apart}
use cvm.Pool.Lists.{
  has, ◌∈◌, has-append, has-front, has-back, Ascending, Ascending-back, Ascending-remove,
  Ascending-lt,
}
use cvm.Pool.Segments.{Seg, Seg-back, Seg-append, first_of, last_place}
use cvm.Pool.Invariant.{
  FreeLists, set_list, Clear, Laid, IsPool, at_key, length-lt, Bounds, same_key, other_key,
}
use cvm.Pool.Relink.{
  linked, set_place-free_n, set_place-obj_size, first_of-le, in-back, in_order, in_chain,
  linked-front, linked-rest, linked-others,
}

module _ {ptr base top : ℕ} {p : Pool} {lists : FreeLists} (b : Bounds ptr base top)
    (s : IsPool ptr base top p lists) (idx : ℕ) (hi : idx < budy_count) where
  -- The list without its part `mid`.
  module _ (front mid rest : List ℕ) (split : lists idx ≡ front ++ (mid ++ rest)) where
    pub in-mid : (x : ℕ) → x ∈ mid → x ∈ lists idx
    in-mid x m = in-back b s idx hi x front (mid ++ rest) split (has-front x mid rest m)

    kept-in : (y : ℕ) → y ∈ front ++ rest → y ∈ lists idx
    kept-in y h = rw split (
        ground
          (arith, has-append y front rest, has-append y front (mid ++ rest), has-append y mid rest))

    pub removed-subset : (j x : ℕ) → x ∈ set_list idx (front ++ rest) lists j → x ∈ lists j
    removed-subset j x =
        at_key (λ i l. x ∈ l → x ∈ lists i) idx (front ++ rest) lists (kept-in x) (λ i ne h. h) j

    Laid-remove : Laid base top (set_list idx (front ++ rest) lists)
    Laid-remove = record {
      sorted =
          at_key (λ i l. i < budy_count → Ascending base l) idx (front ++ rest) lists
            (λ h.
              Ascending-remove base front mid rest
                (in_order b s idx hi (front ++ (mid ++ rest)) split))
            (λ i ne h. s.laid.sorted i h);
      inside = λ i x h m. s.laid.inside i x h (removed-subset i x m);
      apart =
          λ i j x y h k m n. s.laid.apart i j x y h k (removed-subset i x m) (removed-subset j y n);
    }

    rest-le : first_of rest ≤ top
    rest-le = first_of-le rest (λ y m. omega (
      arith,
      s.laid.inside idx y hi
          (in-back b s idx hi y front (mid ++ rest) split (has-back y mid rest m)),
    ))

    -- The pool whose link leads past `mid`.
    abbrev pub removed : Pool
    removed = count_down idx (length mid) (linked ptr idx front (first_of rest) p)

    removed-chain :
        (j : ℕ)
        → j < budy_count
        → Seg ptr removed.mem 0 (removed.buckets j).free_list (set_list idx (front ++ rest) lists j)
    removed-chain =
        at_key (λ j l. j < budy_count → Seg ptr removed.mem 0 (removed.buckets j).free_list l) idx
          (front ++ rest) lists
          (λ h. rw (same_key idx) (
            Seg-append (linked-front b s idx hi front (mid ++ rest) (first_of rest) split rest-le) (
              linked-rest b s idx hi front (mid ++ rest) (first_of rest) split (first_of rest) rest
                (λ y m. has-back y mid rest m)
                (Seg-back mid rest (
                  Seg-back front (mid ++ rest)
                    (in_chain b s idx hi (front ++ (mid ++ rest)) split))))))
          (λ j ne h.
            rw (other_key j idx ne)
              (linked-others b s idx hi front (mid ++ rest) (first_of rest) split j h ne))

    removed-counts :
        (j : ℕ)
        → j < budy_count
        → (removed.buckets j).free_n ≡ length (set_list idx (front ++ rest) lists j)
    removed-counts =
        at_key (λ j l. j < budy_count → (removed.buckets j).free_n ≡ length l) idx (front ++ rest)
          lists
          (λ h. rw (same_key idx) (
            omega (
              arith,
              set_place-free_n ptr idx (last_place of_bucket front) (first_of rest) p idx,
              s.counts idx hi,
              ap length split,
              length-append front (mid ++ rest),
              length-append mid rest,
              length-append front rest,
              length-lt b s.laid idx hi,
            )))
          (λ j ne h. rw (other_key j idx ne) (
            set_place-free_n ptr idx (last_place of_bucket front) (first_of rest) p j
            ∙ s.counts j h))

    removed-sizes : (j : ℕ) → j < budy_count → (removed.buckets j).obj_size ≡ size_of j
    removed-sizes =
        at_key (λ j (c : Bucket). j < budy_count → c.obj_size ≡ size_of j) idx _ _
          (λ h.
            set_place-obj_size ptr idx (last_place of_bucket front) (first_of rest) p idx
            ∙ s.sizes idx h)
          (λ j ne h.
            set_place-obj_size ptr idx (last_place of_bucket front) (first_of rest) p j
            ∙ s.sizes j h)

    pub IsPool-removed : IsPool ptr base top removed (set_list idx (front ++ rest) lists)
    IsPool-removed = record {
      laid = Laid-remove;
      chain = removed-chain;
      counts = removed-counts;
      sizes = removed-sizes;
    }

    -- A block that was taken out is none of those that stayed.
    mid-kept : (x y : ℕ) → x ∈ mid → y ∈ front ++ rest → x ≢ y
    mid-kept x y m n =
        let ordered = in_order b s idx hi (front ++ (mid ++ rest)) split in
        elim (Bool-cases (has y front)) [
          | inl f ↦ λ e. omega (
            arith,
            e,
            Ascending-lt base front (mid ++ rest) y x ordered f (has-front x mid rest m),
          )
          | inr f ↦ λ e. omega (
            arith,
            e,
            Ascending-lt base mid rest x y (Ascending-back base front (mid ++ rest) ordered) m
                (ground (arith, has-append y front rest)),
          )
        ]

    -- A block that was taken out is clear of the lists.
    pub removed-Clear :
        (x : ℕ) → x ∈ mid → Clear x (size_of idx) (set_list idx (front ++ rest) lists)
    removed-Clear x m i y h n =
        at_key (λ i l. i < budy_count → y ∈ l → Apart x (size_of idx) y (size_of i)) idx
          (front ++ rest) lists
          (λ h n.
            ground
              (arith, s.laid.apart idx idx x y hi hi (in-mid x m) (kept-in y n), mid-kept x y m n))
          (λ i ne h n. ground (arith, s.laid.apart idx i x y hi h (in-mid x m) n)) i h n
