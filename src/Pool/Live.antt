-- ===== src/Pool/Live.antt =====
-- The blocks that a client of the pool holds.
use cvm.Base.{ℕ, ◌+◌, ◌<◌, ◌≤◌, ◌≡◌, sym, List, [], ◌∷◌, All, arith}
use mathlib.Core.Path.{subst}
use cvm.Pool.Bytes.{Ram, Apart}
use cvm.Pool.Invariant.{FreeLists, Clear}
use cvm.Pool.Header.{IsHeader-same}
use cvm.Pool.Taken.{InUse, width, width-min}

-- A block as its address and its number of bytes, with the header.
abbrev pub Region : Type 0
Region = ℕ × ℕ

abbrev pub ApartFrom : Region → Region → Type 0
ApartFrom (a, n) (b, k) = Apart a n b k

abbrev pub Owned : (base top : ℕ) → Ram → FreeLists → Region → Type 0
Owned base top m lists (at, n) = (u : InUse base top m lists at) × (width u ≡ n)

-- Each is in use, and no two have a byte in common.
abbrev pub Live : (base top : ℕ) → Ram → FreeLists → List Region → Type 0
Live base top m lists [] = Unit
Live base top m lists (r ∷ rs) =
    Owned base top m lists r × All (ApartFrom r) rs × Live base top m lists rs

-- `r` is one of the blocks, and these are the others.
pub data Picked (r : Region) : List Region → List Region → Type 0 where
  here : {rs : List Region} → Picked r (r ∷ rs) rs
  there : {s : Region} {rs qs : List Region} → Picked r rs qs → Picked r (s ∷ rs) (s ∷ qs)

flip : (r s : Region) → ApartFrom r s → ApartFrom s r
flip (a, n) (b, k) h = ground arith

All-Picked :
    (P : Region → Type 0) {r : Region} {rs qs : List Region}
    → Picked r rs qs
    → All P rs
    → P r × All P qs
All-Picked P here h = h
All-Picked P (there k) h = ((All-Picked P k h.1).0, (h.0, (All-Picked P k h.1).1))

-- How a region can fare from `m` to `g`: it stays clear, and its bytes the same.
abbrev pub Kept : Ram → FreeLists → Ram → FreeLists → Region → Type 0
Kept m lists g new (a, n) =
    Clear a n lists → 0 < n → Clear a n new × ((c : ℕ) → a ≤ c → c < a + n → g c ≡ m c)

pub Clear-byte :
    (a n c : ℕ) (lists : FreeLists) → Clear a n lists → a ≤ c → c < a + n → Clear c 1 lists
Clear-byte a n c lists h l u i x hi m = ground (arith, h i x hi m)

pub All-All : (P : Region → Type 0) (rs : List Region) → ((r : Region) → P r) → All P rs
All-All P [] h = tt
All-All P (r ∷ rs) h = (h r, All-All P rs h)

pub All-map :
    (P Q : Region → Type 0) (rs : List Region) → ((r : Region) → P r → Q r) → All P rs → All Q rs
All-map P Q [] f h = tt
All-map P Q (r ∷ rs) f h = (f r h.0, All-map P Q rs f h.1)

-- What is clear of the free blocks has no byte in common with a block that was one of them.
pub All-fresh :
    (base top : ℕ) (m : Ram) (lists : FreeLists) (at w : ℕ) (rs : List Region)
    → ((a n : ℕ) → 0 < n → Clear a n lists → Apart a n at w)
    → Live base top m lists rs
    → All (ApartFrom (at, w)) rs
All-fresh base top m lists at w [] f l = tt
All-fresh base top m lists at w ((a, n) ∷ rs) f l =
    let (u, e) = l.0 in
    (
      flip (a, n) (at, w)
          (f a n (omega (arith, e, width-min u)) (subst (λ k. Clear a k lists) e u.clear)),
      All-fresh base top m lists at w rs f l.2,
    )

module _ (base top : ℕ) (m : Ram) (lists : FreeLists) where
  pub Live-Picked :
      {r : Region} {rs qs : List Region}
      → Picked r rs qs
      → Live base top m lists rs
      → Owned base top m lists r × All (ApartFrom r) qs × Live base top m lists qs
  Live-Picked here h = h
  Live-Picked {r} (there {s} k) h =
      let rest = Live-Picked k h.2 in
      let apart = All-Picked (ApartFrom s) k h.1 in
      (rest.0, (flip s r apart.0, rest.1), (h.0, apart.1, rest.2))

  module _ (g : Ram) (new : FreeLists) where
    Owned-keep :
        (r : Region) → Kept m lists g new r → Owned base top m lists r → Owned base top g new r
    Owned-keep (a, n) k (u, e) =
        let kept = k (subst (λ w. Clear a w lists) e u.clear) (omega (arith, e, width-min u)) in
        (
          record {
            idx = u.idx;
            count = u.count;
            bucket = u.bucket;
            some_units = u.some_units;
            few_units = u.few_units;
            low = u.low;
            high = u.high;
            clear = subst (λ w. Clear a w new) (sym e) kept.0;
            header = IsHeader-same (λ c l h. kept.1 c l (omega (arith, e, width-min u))) u.header;
          },
          e,
        )

    pub Live-keep :
        (rs : List Region)
        → All (Kept m lists g new) rs
        → Live base top m lists rs
        → Live base top g new rs
    Live-keep [] k l = tt
    Live-keep (r ∷ rs) k l = (Owned-keep r k.0 l.0, l.1, Live-keep rs k.1 l.2)
