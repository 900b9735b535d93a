-- ===== src/Pool/Invariant.antt =====
-- The invariant of a pool: the lists of free blocks that its buckets hold.
use cvm.Base.{
  ℕ, suc, ◌+◌, ◌*◌, ◌^◌, ◌<◌, ◌≤◌, ◌≡◌, ◌≢◌, true, false, refl, ap, ◌⊎◌, inl, inr, List, [], ◌∷◌,
  ◌==◌, if◌then◌else◌, length, Bool-cases, ==_iff, arith,
}
use native.Mathlib.Nat.{one-le-pow, mul-le-mul_left}
use cvm.Pool.{Pool, budy_count, size_of}
use cvm.Pool.Bytes.{put, Apart}
use cvm.Pool.Lists.{◌∈◌, Ascending, Ascending-le, Spread}
use cvm.Pool.Segments.{Seg, Seg-put}

-- The free blocks of each bucket.
abbrev pub FreeLists : Type 0
FreeLists = ℕ → List ℕ

abbrev pub set_list : ℕ → List ℕ → FreeLists → FreeLists
set_list idx xs lists j = if j == idx then xs else lists j

-- No block of the lists has a byte of the `w` from `a`.
abbrev pub Clear : ℕ → ℕ → FreeLists → Type 0
Clear a w lists = (i x : ℕ) → i < budy_count → x ∈ lists i → Apart a w x (size_of i)

-- The blocks lie between `base` and `top`; each list is in order; no two blocks overlap.
pub record Laid (base top : ℕ) (lists : FreeLists) : Type 0 where
  pub sorted : (i : ℕ) → i < budy_count → Ascending base (lists i)
  pub inside : (i x : ℕ) → i < budy_count → x ∈ lists i → x + size_of i ≤ top
  pub apart :
      (i j x y : ℕ)
      → i < budy_count
      → j < budy_count
      → x ∈ lists i
      → y ∈ lists j
      → ((i ≡ j) × (x ≡ y)) ⊎ Apart x (size_of i) y (size_of j)

-- Each bucket leads through its list and counts it.
pub record IsPool (ptr base top : ℕ) (p : Pool) (lists : FreeLists) : Type 0 where
  pub laid : Laid base top lists
  pub chain : (i : ℕ) → i < budy_count → Seg ptr p.mem 0 (p.buckets i).free_list (lists i)
  pub counts : (i : ℕ) → i < budy_count → (p.buckets i).free_n ≡ length (lists i)
  pub sizes : (i : ℕ) → i < budy_count → (p.buckets i).obj_size ≡ size_of i

-- The host has pointers of 8 bytes and the machine of 4; a pool of less than 64 GiB has fewer
-- blocks than a bucket can count.
pub record Bounds (ptr base top : ℕ) : Type 0 where
  pub narrow : 4 ≤ ptr
  pub wide : ptr ≤ 8
  pub real : 0 < base
  pub ordered : base ≤ top
  pub ends : top < 256 ^ ptr
  pub limited : top < base + 2 ^ 36

pub size_of-min : (i : ℕ) → 16 ≤ size_of i
size_of-min i = omega (arith, one-le-pow i 2 (omega arith))

pub same_key : (i : ℕ) → (i == i) ≡ true
same_key i = ground arith

pub other_key : (i j : ℕ) → i ≢ j → (i == j) ≡ false
other_key i j h = ground arith

pub nonzero : (x : ℕ) → 0 < x → (x == 0) ≡ false
nonzero x h = ground arith

pub List-cases : (xs : List ℕ) → (xs ≡ []) ⊎ ((y : ℕ) × (ys : List ℕ) × (xs ≡ y ∷ ys))
List-cases [] = inl refl
List-cases (x ∷ xs) = inr (x, xs, refl)

-- What holds of the new value and of the others holds everywhere.
pub at_key {ℓ} :
    {A : Type ℓ} (P : ℕ → A → Type 0) (idx : ℕ) (a : A) (f : ℕ → A)
    → P idx a
    → ((j : ℕ) → j ≢ idx → P j (f j))
    → (j : ℕ) → P j (if j == idx then a else f j)
at_key P idx a f h k j = elim (Bool-cases (j == idx)) [
  | inl e ↦ rw (e, (==_iff j idx).0 e) h
  | inr e ↦ rw e (k j (ground arith))
]

-- A bucket that counts a block has a first one.
pub has_first :
    {ptr base top : ℕ} {p : Pool} {lists : FreeLists} (i : ℕ)
    → IsPool ptr base top p lists
    → i < budy_count
    → ((p.buckets i).free_n == 0) ≡ false
    → (x : ℕ) × (xs : List ℕ) × (lists i ≡ x ∷ xs)
has_first {lists = lists} i s h n = elim (List-cases (lists i)) [
  | inl e ↦ absurd (ground (arith, s.counts i h, ap length e))
  | inr r ↦ r
]

module _ {ptr base top : ℕ} {p : Pool} {lists : FreeLists} (s : IsPool ptr base top p lists) where
  pub IsPool-Spread : (b : Bounds ptr base top) (i : ℕ) → i < budy_count → Spread ptr (lists i)
  IsPool-Spread b i h x y hx hy = ground (arith, s.laid.apart i i x y h h hx hy, size_of-min i)

  -- A write where no free block is.
  pub IsPool-put :
      Bounds ptr base top
      → (w a v : ℕ) → Clear a w lists
      → IsPool ptr base top (record p { mem = put w a v p.mem }) lists
  IsPool-put b w a v h = record {
    laid = s.laid;
    chain = λ i hi.
        Seg-put w a v (lists i) (λ x m. (ground (arith, h i x hi m, size_of-min i))) (s.chain i hi);
    counts = s.counts;
    sizes = s.sizes;
  }

-- Blocks in order that do not overlap take up at least their sizes.
Ascending-skip :
    (size x : ℕ) (xs : List ℕ)
    → Ascending (suc x) xs
    → ((y : ℕ) → y ∈ xs → Apart x size y size)
    → Ascending (x + size) xs
Ascending-skip size x [] a h = tt
Ascending-skip size x (y ∷ ys) a h = (ground (arith, h y (ground arith), a.0), a.1)

length_bound :
    (size lo top : ℕ) (xs : List ℕ)
    → Ascending lo xs
    → Spread size xs
    → ((x : ℕ) → x ∈ xs → x + size ≤ top)
    → lo ≤ top
    → lo + length xs * size ≤ top
length_bound size lo top [] a h u l = omega arith
length_bound size lo top (x ∷ xs) a h u l =
    let far : (y : ℕ) → y ∈ xs → Apart x size y size =
      λ y m. ground (arith, h x y (ground arith) (ground arith), Ascending-le (suc x) y xs a.1 m) in
    let rest =
      length_bound size (x + size) top xs (Ascending-skip size x xs a.1 far)
        (λ y z m n. h y z (ground arith) (ground arith)) (λ y m. u y (ground arith))
        (u x (ground arith)) in
    omega (arith, a.0, rest)

-- So a bucket can count its blocks.
pub length-lt :
    {ptr base top : ℕ} {lists : FreeLists}
    → Bounds ptr base top
    → Laid base top lists
    → (i : ℕ) → i < budy_count
    → length (lists i) < 2 ^ 32
length-lt {base = base} {top = top} {lists = lists} b l i h =
    let room =
      length_bound (size_of i) base top (lists i) (l.sorted i h)
        (λ x y hx hy. ground (arith, l.apart i i x y h h hx hy)) (λ x m. l.inside i x h m)
        b.ordered in
    let least : length (lists i) * 16 ≤ length (lists i) * size_of i =
      mul-le-mul_left (length (lists i)) (size_of-min i) in
    omega (arith, room, least, b.limited)
