-- ===== src/Pool/Lists.antt =====
-- Lists of addresses: membership as a test, order, and the insertion of a run of blocks.
use cvm.Base.{
  ℕ, zero, suc, ◌+◌, ◌*◌, ◌<◌, ◌≤◌, ◌≡◌, refl, ap, ◌∙◌, ◌⊎◌, inl, inr, Bool, true, false, ◌||◌,
  List, [], ◌∷◌, ◌++◌, ◌==◌, ltb, if◌then◌else◌, length, Bool-cases, ltb→lt, arith,
}
use mathlib.Core.Bool.{or_assoc}
use cvm.Pool.Bytes.{Apart}

abbrev pub has : ℕ → List ℕ → Bool
has a [] = false
has a (x ∷ xs) = (a == x) || has a xs

infix 40 ◌∈◌
abbrev pub ◌∈◌ : ℕ → List ℕ → Type 0
a ∈ xs = has a xs ≡ true

-- Ascending, from `lo` on.
abbrev pub Ascending : ℕ → List ℕ → Type 0
Ascending lo [] = Unit
Ascending lo (x ∷ xs) = (lo ≤ x) × Ascending (suc x) xs

-- `n` blocks of this size next to each other
abbrev pub run : ℕ → ℕ → ℕ → List ℕ
run size b zero = []
run size b (suc n) = b ∷ run size (b + size) n

-- The addresses below `b` at the front of a list, and the rest of it.
abbrev pub below : ℕ → List ℕ → List ℕ
below b [] = []
below b (x ∷ xs) = if ltb x b then x ∷ below b xs else []

abbrev pub from : ℕ → List ℕ → List ℕ
from b [] = []
from b (x ∷ xs) = if ltb x b then from b xs else x ∷ xs

-- The list with the addresses `r` put before the first one that is not below `b`.
abbrev pub insert_at : ℕ → List ℕ → List ℕ → List ℕ
insert_at b r xs = below b xs ++ (r ++ from b xs)

pub below-from : (b : ℕ) (xs : List ℕ) → below b xs ++ from b xs ≡ xs
below-from b [] = refl
below-from b (x ∷ xs) = ground (arith, below-from b xs)

pub has-append : (a : ℕ) (xs ys : List ℕ) → has a (xs ++ ys) ≡ (has a xs || has a ys)
has-append a [] ys = refl
has-append a (x ∷ xs) ys = rw (has-append a xs ys, or_assoc)

pub length-run : (size b n : ℕ) → length (run size b n) ≡ n
length-run size b zero = refl
length-run size b (suc n) = ap suc (length-run size (b + size) n)

has-cons : (x y : ℕ) (ys : List ℕ) → x ∈ y ∷ ys → (x ≡ y) ⊎ (x ∈ ys)
has-cons x y ys h = ground arith

-- A run and the next block are a longer run.
pub run-snoc :
    (size b n : ℕ) (xs : List ℕ) → run size b (suc n) ++ xs ≡ run size b n ++ ((b + n * size) ∷ xs)
run-snoc size b zero xs = ap (λ y. y ∷ xs) (omega arith)
run-snoc size b (suc n) xs =
    ap (λ l. b ∷ l)
      (run-snoc size (b + size) n xs ∙ ap (λ y. run size (b + size) n ++ (y ∷ xs)) (omega arith))

-- A block of a run lies in the region of the run.
pub run-within : (size b n x : ℕ) → x ∈ run size b n → (b ≤ x) × (x + size ≤ b + n * size)
run-within size b zero x h = ground arith
run-within size b (suc n) x h = elim (has-cons x b (run size (b + size) n) h) [
  | inl e ↦ (omega arith, omega arith)
  | inr t ↦ (let w = run-within size (b + size) n x t in (omega (arith, w.0), omega (arith, w.1)))
]

pub run-apart :
    (size b n x y : ℕ) → x ∈ run size b n → y ∈ run size b n → (x ≡ y) ⊎ Apart x size y size
run-apart size b zero x y hx hy = ground arith
run-apart size b (suc n) x y hx hy = elim (has-cons x b (run size (b + size) n) hx) [
  | inl e ↦ elim (has-cons y b (run size (b + size) n) hy) [
    | inl f ↦ inl (omega arith)
    | inr t ↦ inr (inl (omega (arith, (run-within size (b + size) n y t).0)))
  ]
  | inr s ↦ elim (has-cons y b (run size (b + size) n) hy) [
    | inl f ↦ inr (inr (omega (arith, (run-within size (b + size) n x s).0)))
    | inr t ↦ run-apart size (b + size) n x y s t
  ]
]

Ascending-weaken : (lo hi : ℕ) (xs : List ℕ) → lo ≤ hi → Ascending hi xs → Ascending lo xs
Ascending-weaken lo hi [] h a = tt
Ascending-weaken lo hi (x ∷ xs) h a = (omega (arith, a.0), a.1)

pub Ascending-le : (lo x : ℕ) (xs : List ℕ) → Ascending lo xs → x ∈ xs → lo ≤ x
Ascending-le lo x [] a h = ground arith
Ascending-le lo x (y ∷ ys) a h = elim (has-cons x y ys h) [
  | inl e ↦ omega (arith, a.0)
  | inr t ↦ omega (arith, a.0, Ascending-le (suc y) x ys a.1 t)
]

pub Ascending-lt :
    (lo : ℕ) (xs ys : List ℕ) (x y : ℕ) → Ascending lo (xs ++ ys) → x ∈ xs → y ∈ ys → x < y
Ascending-lt lo [] ys x y a hx hy = ground arith
Ascending-lt lo (z ∷ xs) ys x y a hx hy = elim (has-cons x z xs hx) [
  | inl e ↦
      omega (arith, e, Ascending-le (suc z) y (xs ++ ys) a.1 (ground (arith, has-append y xs ys)))
  | inr t ↦ Ascending-lt (suc z) xs ys x y a.1 t hy
]

pub Ascending-front : (lo : ℕ) (xs ys : List ℕ) → Ascending lo (xs ++ ys) → Ascending lo xs
Ascending-front lo [] ys a = tt
Ascending-front lo (x ∷ xs) ys a = (a.0, Ascending-front (suc x) xs ys a.1)

pub append_assoc : (xs ys zs : List ℕ) → (xs ++ ys) ++ zs ≡ xs ++ (ys ++ zs)
append_assoc [] ys zs = refl
append_assoc (x ∷ xs) ys zs = ap (λ l. x ∷ l) (append_assoc xs ys zs)

pub append_one : (xs : List ℕ) (x : ℕ) (ys : List ℕ) → (xs ++ (x ∷ [])) ++ ys ≡ xs ++ (x ∷ ys)
append_one [] x ys = refl
append_one (z ∷ xs) x ys = ap (λ l. z ∷ l) (append_one xs x ys)

pub Ascending-back : (lo : ℕ) (xs ys : List ℕ) → Ascending lo (xs ++ ys) → Ascending lo ys
Ascending-back lo [] ys a = a
Ascending-back lo (x ∷ xs) ys a =
    Ascending-weaken lo (suc x) ys (omega (arith, a.0)) (Ascending-back (suc x) xs ys a.1)

pub has-front : (x : ℕ) (xs ys : List ℕ) → x ∈ xs → x ∈ xs ++ ys
has-front x xs ys h = ground (arith, has-append x xs ys)

pub has-back : (x : ℕ) (xs ys : List ℕ) → x ∈ ys → x ∈ xs ++ ys
has-back x xs ys h = ground (arith, has-append x xs ys)

-- Any two are the same, or blocks of this size from them have no byte in common.
abbrev pub Spread : ℕ → List ℕ → Type 0
Spread size xs = (x y : ℕ) → x ∈ xs → y ∈ xs → (x ≡ y) ⊎ Apart x size y size

-- The insertion of a run keeps the order, if its region has no block of the list.
pub Ascending-run :
    (size b n : ℕ) (xs : List ℕ)
    → 0 < size
    → Ascending (b + n * size) xs
    → Ascending b (run size b n ++ xs)
Ascending-run size b zero xs h a = Ascending-weaken b (b + 0 * size) xs (omega arith) a
Ascending-run size b (suc n) xs h a =
    let t =
      Ascending-run size (b + size) n xs h
        (Ascending-weaken (b + size + n * size) (b + suc n * size) xs (omega arith) a) in
    (omega arith, Ascending-weaken (suc b) (b + size) (run size (b + size) n ++ xs) (omega arith) t)

pub Ascending-insert_at :
    (size b n lo : ℕ) (xs : List ℕ)
    → 0 < size
    → lo ≤ b
    → Ascending lo xs
    → ((x : ℕ) → x ∈ xs → Apart b (n * size) x size)
    → Ascending lo (insert_at b (run size b n) xs)
Ascending-insert_at size b n lo [] hs hb a h =
    Ascending-weaken lo b (run size b n ++ []) hb (Ascending-run size b n [] hs tt)
Ascending-insert_at size b n lo (x ∷ xs) hs hb a h =
    let rec = Ascending-insert_at size b n (suc x) xs hs in
    let later = Ascending-run size b n (x ∷ xs) hs in
    elim (Bool-cases (ltb x b)) [
      | inl t ↦ rw t (a.0, rec (ltb→lt x b t) a.1 (λ y m. h y (ground arith)))
      | inr f ↦ rw f (
          Ascending-weaken lo b (run size b n ++ (x ∷ xs)) hb (
            later (
              Ascending-weaken (b + n * size) x (x ∷ xs) (ground (arith, h x (ground arith)))
                (omega arith, a.1))))
    ]

-- A part that is taken out leaves the rest in order.
pub Ascending-remove :
    (lo : ℕ) (xs ys zs : List ℕ) → Ascending lo (xs ++ (ys ++ zs)) → Ascending lo (xs ++ zs)
Ascending-remove lo [] [] zs a = a
Ascending-remove lo [] (y ∷ ys) zs a =
    Ascending-weaken lo (suc y) zs (omega (arith, a.0)) (Ascending-remove (suc y) [] ys zs a.1)
Ascending-remove lo (x ∷ xs) ys zs a = (a.0, Ascending-remove (suc x) xs ys zs a.1)
