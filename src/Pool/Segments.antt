-- ===== src/Pool/Segments.antt =====
-- Free lists in memory: the links lead from block to block.
use cvm.Base.{
  ℕ, zero, suc, ◌%◌, ◌^◌, ◌<◌, ◌≤◌, ◌≡◌, refl, ap, inl, inr, List, [], ◌∷◌, ◌++◌, ltb, length,
  Bool-cases, lt→ltb, arith,
}
use cvm.Outcome.{ok}
use cvm.Pool.{Pool, Place, of_block, seek}
use cvm.Pool.Bytes.{Ram, get, put, Apart, get-put, get-put_apart}
use cvm.Pool.Lists.{◌∈◌, below, from, Ascending, Ascending-le, Spread}

abbrev pub last_block : ℕ → List ℕ → ℕ
last_block x [] = x
last_block x (y ∷ ys) = last_block y ys

-- Where the link to the block after `xs` is, for a list whose first link is at `pv`.
abbrev pub last_place : Place → List ℕ → Place
last_place pv [] = pv
last_place pv (x ∷ xs) = of_block (last_block x xs)

-- The first of the addresses, NULL if there is none.
abbrev pub first_of : List ℕ → ℕ
first_of [] = 0
first_of (x ∷ xs) = x

pub last_block-in : (x : ℕ) (xs : List ℕ) → last_block x xs ∈ x ∷ xs
last_block-in x [] = ground arith
last_block-in x (y ∷ ys) = ground (arith, last_block-in y ys)

-- From an address the links lead through blocks to `q`.
pub data Seg (ptr : ℕ) (m : Ram) (q : ℕ) : ℕ → List ℕ → Type 0 where
  nil : Seg ptr m q q []
  cons : {x : ℕ} {xs : List ℕ} → 0 < x → Seg ptr m q (get ptr x m) xs → Seg ptr m q x (x ∷ xs)

module _ {ptr : ℕ} {m : Ram} where
  pub Seg-append :
      {q r : ℕ} {xs ys : List ℕ} {p : ℕ}
      → Seg ptr m q p xs
      → Seg ptr m r q ys
      → Seg ptr m r p (xs ++ ys)
  Seg-append nil t = t
  Seg-append (cons h s) t = cons h (Seg-append s t)

  pub Seg-first : {p : ℕ} {xs : List ℕ} → Seg ptr m 0 p xs → p ≡ first_of xs
  Seg-first nil = refl
  Seg-first (cons h s) = refl

  pub Seg-pos : {q p x : ℕ} {xs : List ℕ} → Seg ptr m q p (x ∷ xs) → 0 < x
  Seg-pos (cons h s) = h

  pub Seg-second : {p x : ℕ} {xs : List ℕ} → Seg ptr m 0 p (x ∷ xs) → get ptr x m ≡ first_of xs
  Seg-second (cons h s) = Seg-first s

  -- The end of the first part is the start of the second.
  pub Seg-front : (xs ys : List ℕ) {p : ℕ} → Seg ptr m 0 p (xs ++ ys) → Seg ptr m (first_of ys) p xs
  Seg-front [] ys s = rw (Seg-first s) nil
  Seg-front (x ∷ xs) ys (cons h s) = cons h (Seg-front xs ys s)

  pub Seg-back : (xs ys : List ℕ) {p : ℕ} → Seg ptr m 0 p (xs ++ ys) → Seg ptr m 0 (first_of ys) ys
  Seg-back [] [] nil = nil
  Seg-back [] (y ∷ ys) (cons h s) = cons h s
  Seg-back (x ∷ xs) ys (cons h s) = Seg-back xs ys s

  -- A write outside the links of the blocks changes nothing.
  pub Seg-put :
      (w a v : ℕ) {q : ℕ} (xs : List ℕ) {p : ℕ}
      → ((x : ℕ) → x ∈ xs → Apart a w x ptr)
      → Seg ptr m q p xs
      → Seg ptr (put w a v m) q p xs
  Seg-put w a v [] h nil = nil
  Seg-put w a v (x ∷ xs) h (cons l s) = cons l (
      rw (get-put_apart w a v m ptr x (h x (ground arith)))
        (Seg-put w a v xs (λ y t. h y (ground arith)) s))

  -- A write to the link of the last block leads elsewhere.
  pub Seg-last :
      (v : ℕ) {q : ℕ} (lo x : ℕ) (xs : List ℕ) {p : ℕ}
      → Ascending lo (x ∷ xs)
      → Spread ptr (x ∷ xs)
      → Seg ptr m q p (x ∷ xs)
      → Seg ptr (put ptr (last_block x xs) v m) (v % 256 ^ ptr) p (x ∷ xs)
  Seg-last v lo x [] a h (cons l s) = cons l (rw (get-put ptr x v m) nil)
  Seg-last v lo x (y ∷ ys) a h (cons l s) =
      let far : Apart (last_block y ys) ptr x ptr = ground (
        arith,
        h (last_block y ys) x (ground (arith, last_block-in y ys)) (ground arith),
        Ascending-le (suc x) (last_block y ys) (y ∷ ys) a.1 (last_block-in y ys),
      ) in
      cons l (
        rw (get-put_apart ptr (last_block y ys) v m ptr x far)
          (Seg-last v (suc x) y ys a.1 (λ b c s t. h b c (ground arith) (ground arith)) s))

last_block-one : (x : ℕ) (xs : List ℕ) (y : ℕ) → last_block x (xs ++ (y ∷ [])) ≡ y
last_block-one x [] y = refl
last_block-one x (z ∷ xs) y = last_block-one z xs y

pub last_place-one :
    (pv : Place) (xs : List ℕ) (y : ℕ) → last_place pv (xs ++ (y ∷ [])) ≡ of_block y
last_place-one pv [] y = refl
last_place-one pv (x ∷ xs) y = ap of_block (last_block-one x xs y)

last_place-block : (x : ℕ) (xs : List ℕ) → last_place (of_block x) xs ≡ of_block (last_block x xs)
last_place-block x [] = refl
last_place-block x (y ∷ ys) = refl

-- The search goes past the blocks below the new one.
pub seek_lem :
    (ptr left block : ℕ) (pv : Place) (p : Pool) {first : ℕ} (xs : List ℕ)
    → length xs ≤ left
    → Seg ptr p.mem 0 first xs
    → seek ptr left block first pv p ≡ ok (first_of (from block xs), last_place pv (below block xs))
unfolding seek
seek_lem ptr zero block pv p [] h nil = refl
seek_lem ptr (suc left) block pv p [] h nil = refl
seek_lem ptr zero block pv p (x ∷ xs) h s = absurd (omega arith)
seek_lem ptr (suc left) block pv p (x ∷ xs) h (cons l s) =
    let rec = seek_lem ptr left block (of_block x) p xs (omega arith) s in
    elim (Bool-cases (ltb x block)) [
      | inl t ↦ rw (seek, t, lt→ltb 0 x l, rec, last_place-block x (below block xs))
      | inr f ↦ rw (seek, f, lt→ltb 0 x l)
    ]
