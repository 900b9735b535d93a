-- ===== src/Pool/Inserted.antt =====
-- The free lists with a run of blocks put into one of them.
use cvm.Base.{
  ℕ, suc, ◌+◌, ◌*◌, ◌^◌, ◌<◌, ◌≤◌, ◌≡◌, refl, ap, ◌⊎◌, inl, inr, List, ◌++◌, if◌then◌else◌, length,
  length-append, arith,
}
use mathlib.Core.Path.{subst}
use cvm.Pool.{Pool, budy_count, size_of}
use cvm.Pool.Bytes.{Apart}
use cvm.Pool.Lists.{
  has, ◌∈◌, has-append, run, run-within, run-apart, length-run, below, from, below-from, insert_at,
  Ascending, Ascending-insert_at,
}
use cvm.Pool.Invariant.{
  FreeLists, set_list, Clear, Laid, IsPool, Bounds, size_of-min, same_key, at_key, length-lt,
}

module _ {ptr base top : ℕ} {p : Pool} {lists : FreeLists} (b : Bounds ptr base top)
    (s : IsPool ptr base top p lists) (idx : ℕ) (hi : idx < budy_count) (k block : ℕ)
    (low : base ≤ block) (high : block + suc k * size_of idx ≤ top)
    (clear : Clear block (suc k * size_of idx) lists) where
  abbrev size : ℕ
  size = size_of idx

  abbrev blocks : List ℕ
  blocks = run size block (suc k)

  abbrev front : List ℕ
  front = below block (lists idx)

  abbrev rest : List ℕ
  rest = from block (lists idx)

  -- A block of the run, and a block of the lists.
  pub run-Clear :
      (x j y : ℕ) → x ∈ blocks → j < budy_count → y ∈ lists j → Apart x size y (size_of j)
  run-Clear x j y hx hj hy = ground (arith, clear j y hj hy, run-within size block (suc k) x hx)

  in-inserted : (y : ℕ) → y ∈ insert_at block blocks (lists idx) → (y ∈ blocks) ⊎ (y ∈ lists idx)
  in-inserted y h = ground (
    arith,
    has-append y front (blocks ++ rest),
    has-append y blocks rest,
    has-append y front rest,
    ap (has y) (below-from block (lists idx)),
  )

  -- A block of the new lists is one of the old ones or of the run.
  pub in-new :
      (j y : ℕ)
      → y ∈ set_list idx (insert_at block blocks (lists idx)) lists j
      → (y ∈ lists j) ⊎ ((j ≡ idx) × (y ∈ blocks))
  in-new j y =
      at_key (λ j l. y ∈ l → (y ∈ lists j) ⊎ ((j ≡ idx) × (y ∈ blocks))) idx
        (insert_at block blocks (lists idx)) lists
        (λ h. elim (in-inserted y h) [ inl r ↦ inr (refl, r) | inr o ↦ inl o ]) (λ j ne h. inl h) j

  pub added-Laid : Laid base top (set_list idx (insert_at block blocks (lists idx)) lists)
  added-Laid = record {
    sorted =
        at_key (λ j l. j < budy_count → Ascending base l) idx (insert_at block blocks (lists idx))
          lists
          (λ h.
            Ascending-insert_at size block (suc k) base (lists idx) (omega (arith, size_of-min idx))
              low (s.laid.sorted idx hi) (λ x m. clear idx x hi m))
          (λ j ne h. s.laid.sorted j h);
    inside = λ i x h m. elim (in-new i x m) [
      | inl o ↦ s.laid.inside i x h o
      | inr r ↦ rw (r.0) (omega (arith, high, (run-within size block (suc k) x r.1).1))
    ];
    apart = λ i j x y h g m n. elim (in-new i x m) [
      | inl o ↦ elim (in-new j y n) [
        | inl q ↦ s.laid.apart i j x y h g o q
        | inr r ↦ inr (rw (r.0) (ground (arith, run-Clear y i x r.1 h o)))
      ]
      | inr r ↦ elim (in-new j y n) [
        | inl q ↦ inr (rw (r.0) (run-Clear x j y r.1 g q))
        | inr t ↦ rw (r.0, t.0) (ground (arith, run-apart size block (suc k) x y r.1 t.1))
      ]
    ];
  }

  pub inserted-lt : length (insert_at block blocks (lists idx)) < 2 ^ 32
  inserted-lt =
      subst (λ c. length (if c then insert_at block blocks (lists idx) else lists idx) < 2 ^ 32)
        (same_key idx) (length-lt b added-Laid idx hi)

  pub inserted-length : length (insert_at block blocks (lists idx)) ≡ length (lists idx) + suc k
  inserted-length = omega (
    arith,
    length-append front (blocks ++ rest),
    length-append blocks rest,
    length-append front rest,
    ap length (below-from block (lists idx)),
    length-run size block (suc k),
  )
