-- ===== src/Pool/Relink.antt =====
-- The link in front of a part of a free list is set to another address.
use cvm.Base.{ℕ, ◌<◌, ◌≤◌, ◌≡◌, ◌≢◌, refl, sym, ◌⊎◌, inl, inr, List, [], ◌∷◌, ◌++◌, arith}
use mathlib.Core.Path.{subst}
use native.Mathlib.Nat.{mod-eq_of_lt}
use cvm.Pool.{Pool, Place, of_bucket, of_block, budy_count, set_place}
use cvm.Pool.Bytes.{put, Apart, put-Outside}
use cvm.Pool.Lists.{◌∈◌, has-front, has-back, Ascending, Ascending-front, Ascending-lt}
use cvm.Pool.Segments.{
  Seg, nil, Seg-put, Seg-last, Seg-front, first_of, last_place, last_block, last_block-in,
}
use cvm.Pool.Invariant.{
  FreeLists, Clear, IsPool, at_key, IsPool-Spread, Bounds, size_of-min, same_key, other_key,
}

-- The pool whose link behind `front` in the bucket `idx` is `v`.
abbrev pub linked : ℕ → ℕ → List ℕ → ℕ → Pool → Pool
linked ptr idx front v p = set_place ptr idx (last_place of_bucket front) v p

-- Only the head of the list is set in a bucket.
module _ (ptr idx : ℕ) where
  pub set_place-free_n :
      (pl : Place) (v : ℕ) (p : Pool) (j : ℕ)
      → ((set_place ptr idx pl v p).buckets j).free_n ≡ (p.buckets j).free_n
  unfolding set_place
  set_place-free_n of_bucket v p j =
      at_key (λ j c. c.free_n ≡ (p.buckets j).free_n) idx (record (p.buckets idx) { free_list = v })
        p.buckets refl (λ j ne. refl) j
  set_place-free_n (of_block a) v p j = refl

  pub set_place-obj_size :
      (pl : Place) (v : ℕ) (p : Pool) (j : ℕ)
      → ((set_place ptr idx pl v p).buckets j).obj_size ≡ (p.buckets j).obj_size
  unfolding set_place
  set_place-obj_size of_bucket v p j =
      at_key (λ j c. c.obj_size ≡ (p.buckets j).obj_size) idx
        (record (p.buckets idx) { free_list = v }) p.buckets refl (λ j ne. refl) j
  set_place-obj_size (of_block a) v p j = refl

pub first_of-le : {top : ℕ} (xs : List ℕ) → ((x : ℕ) → x ∈ xs → x ≤ top) → first_of xs ≤ top
first_of-le [] h = omega arith
first_of-le (x ∷ xs) h = h x (ground arith)

module _ {ptr base top : ℕ} {p : Pool} {lists : FreeLists} (b : Bounds ptr base top)
    (s : IsPool ptr base top p lists) (idx : ℕ) (hi : idx < budy_count) where
  -- A block of the list, and another block of the pool.
  apart_from :
      (a j x : ℕ)
      → j < budy_count
      → a ∈ lists idx
      → x ∈ lists j
      → (idx ≢ j) ⊎ (a ≢ x)
      → Apart a ptr x ptr
  apart_from a j x hj ha hx ne =
      ground (arith, s.laid.apart idx j a x hi hj ha hx, size_of-min idx, size_of-min j, b.wide)

  -- A block of the first part of the list is in the list.
  in-front : (x : ℕ) (xs rest : List ℕ) → lists idx ≡ xs ++ rest → x ∈ xs → x ∈ lists idx
  in-front x xs rest e h = rw e (has-front x xs rest h)

  pub in-back : (x : ℕ) (xs rest : List ℕ) → lists idx ≡ xs ++ rest → x ∈ rest → x ∈ lists idx
  in-back x xs rest e h = rw e (has-back x xs rest h)

  last-in : (x : ℕ) (xs rest : List ℕ) → lists idx ≡ (x ∷ xs) ++ rest → last_block x xs ∈ lists idx
  last-in x xs rest e = in-front (last_block x xs) (x ∷ xs) rest e (last_block-in x xs)

  pub in_order : (xs : List ℕ) → lists idx ≡ xs → Ascending base xs
  in_order xs e = subst (Ascending base) e (s.laid.sorted idx hi)

  pub in_chain : (xs : List ℕ) → lists idx ≡ xs → Seg ptr p.mem 0 (p.buckets idx).free_list xs
  in_chain xs e = subst (Seg ptr p.mem 0 (p.buckets idx).free_list) e (s.chain idx hi)

  pub linked-front :
      (front rest : List ℕ) (v : ℕ)
      → lists idx ≡ front ++ rest
      → v ≤ top
      → Seg ptr
          (linked ptr idx front v p).mem
          v
          ((linked ptr idx front v p).buckets idx).free_list
          front
  unfolding set_place
  linked-front [] rest v e h = rw (same_key idx) nil
  linked-front (x ∷ xs) rest v e h =
      subst (λ w. Seg ptr (put ptr (last_block x xs) v p.mem) w (p.buckets idx).free_list (x ∷ xs))
        (mod-eq_of_lt (omega (arith, b.ends)))
        (Seg-last v base x xs (Ascending-front base (x ∷ xs) rest (in_order ((x ∷ xs) ++ rest) e))
          (λ y z hy hz.
            IsPool-Spread s b idx hi y z (in-front y (x ∷ xs) rest e hy)
              (in-front z (x ∷ xs) rest e hz))
          (Seg-front (x ∷ xs) rest (in_chain ((x ∷ xs) ++ rest) e)))

  -- Blocks behind the link, and those of the other buckets, stay linked.
  pub linked-rest :
      (front rest : List ℕ) (v : ℕ)
      → lists idx ≡ front ++ rest
      → (r : ℕ) (ys : List ℕ) → ((y : ℕ) → y ∈ ys → y ∈ rest)
      → Seg ptr p.mem 0 r ys
      → Seg ptr (linked ptr idx front v p).mem 0 r ys
  unfolding set_place
  linked-rest [] rest v e r ys h t = t
  linked-rest (x ∷ xs) rest v e r ys h t =
      Seg-put ptr (last_block x xs) v ys
        (λ y m.
          apart_from (last_block x xs) idx y hi (last-in x xs rest e)
            (in-back y (x ∷ xs) rest e (h y m))
            (inr (λ q. omega (
              arith,
              q,
              Ascending-lt base (x ∷ xs) rest (last_block x xs) y (in_order ((x ∷ xs) ++ rest) e)
                  (last_block-in x xs) (h y m),
            ))))
        t

  -- So do blocks apart from those of the bucket.
  pub linked-clear :
      (front rest : List ℕ) (v : ℕ)
      → lists idx ≡ front ++ rest
      → (r q : ℕ) (ys : List ℕ) → ((y : ℕ) → y ∈ ys → (x : ℕ) → x ∈ lists idx → Apart x ptr y ptr)
      → Seg ptr p.mem q r ys
      → Seg ptr (linked ptr idx front v p).mem q r ys
  unfolding set_place
  linked-clear [] rest v e r q ys h t = t
  linked-clear (x ∷ xs) rest v e r q ys h t =
      Seg-put ptr (last_block x xs) v ys (λ y m. h y m (last_block x xs) (last-in x xs rest e)) t

  -- The link is written in a block of the list, if not in its bucket.
  pub linked-bytes :
      (front rest : List ℕ) (v c : ℕ)
      → lists idx ≡ front ++ rest
      → Clear c 1 lists
      → (linked ptr idx front v p).mem c ≡ p.mem c
  unfolding set_place
  linked-bytes [] rest v c e h = refl
  linked-bytes (x ∷ xs) rest v c e h =
      put-Outside ptr (last_block x xs) v p.mem c
        (ground (arith, h idx (last_block x xs) hi (last-in x xs rest e), size_of-min idx, b.wide))

  pub linked-others :
      (front rest : List ℕ) (v : ℕ)
      → lists idx ≡ front ++ rest
      → (j : ℕ) → j < budy_count
      → j ≢ idx
      → Seg ptr
          (linked ptr idx front v p).mem
          0
          ((linked ptr idx front v p).buckets j).free_list
          (lists j)
  unfolding set_place
  linked-others [] rest v e j hj ne = rw (other_key j idx ne) (s.chain j hj)
  linked-others (x ∷ xs) rest v e j hj ne =
      Seg-put ptr (last_block x xs) v (lists j)
        (λ y m. apart_from (last_block x xs) j y hj (last-in x xs rest e) m (inl (λ q. ne (sym q))))
        (s.chain j hj)
