-- ===== src/Mem/Laws.antt =====
-- A load after a store, at the same place and at others, for the three widths.
use cvm.Base.{ℕ, ◌+◌, ◌/◌, ◌^◌, ◌≤◌, ◌<◌, ◌≡◌, refl, ◌⊎◌, arith, le→leb, ap}
use cvm.Base.Int.{ℤ, pos, negsuc}
use cvm.Outcome.{ok, ◌>>=◌, Ensures, returns, Ensures-map, check}
use cvm.Mem.{
  Memory, size, place, byte, half, word, set_byte, set_half, set_word, load8, load16, load32,
  store8, store16, store32, IsMemory,
}

pub byte-set_byte : (m : Memory) (a v : ℕ) → v < 2 ^ 8 → byte (set_byte m a v) a ≡ v
byte-set_byte m a v h = ground arith

pub half-set_half : (m : Memory) (a v : ℕ) → v < 2 ^ 16 → half (set_half m a v) a ≡ v
half-set_half m a v h = ground arith

pub word-set_word : (m : Memory) (a v : ℕ) → v < 2 ^ 32 → word (set_word m a v) a ≡ v
word-set_word m a v h = ground arith

-- A store leaves the bytes outside its own alone.
pub set_word_frame :
    (m : Memory) (a v b : ℕ) → (b < a) ⊎ (a + 4 ≤ b) → (set_word m a v).bytes b ≡ m.bytes b
set_word_frame m a v b h = ground arith

set_half_frame :
    (m : Memory) (a v b : ℕ) → (b < a) ⊎ (a + 2 ≤ b) → (set_half m a v).bytes b ≡ m.bytes b
set_half_frame m a v b h = ground arith

word-lt : (m : Memory) (a : ℕ) → IsMemory m → word m a < 2 ^ 32
word-lt m a h = omega (arith, h a, h (a + 1), h (a + 2), h (a + 3))

half-lt : (m : Memory) (a : ℕ) → IsMemory m → half m a < 2 ^ 16
half-lt m a h = omega (arith, h a, h (a + 1))

pub set_byte-IsMemory : (m : Memory) (a v : ℕ) → IsMemory m → IsMemory (set_byte m a v)
set_byte-IsMemory m a v h b = ground (arith, h b)

set_half-IsMemory : (m : Memory) (a v : ℕ) → IsMemory m → IsMemory (set_half m a v)
set_half-IsMemory m a v h =
    set_byte-IsMemory (set_byte m a v) (a + 1) (v / 2 ^ 8) (set_byte-IsMemory m a v h)

set_word-IsMemory : (m : Memory) (a v : ℕ) → IsMemory m → IsMemory (set_word m a v)
set_word-IsMemory m a v h =
    set_half-IsMemory (set_half m a v) (a + 2) (v / 2 ^ 16) (set_half-IsMemory m a v h)

-- The same block, with bytes in it.
pub record Keeps (m m' : Memory) : Type 0 where
  pub same_start : m'.start ≡ m.start
  pub same_end : m'.end ≡ m.end
  pub same_brk : m'.brk ≡ m.brk
  pub is_memory : IsMemory m'

module _ (m : Memory) (p : ℤ) (h : IsMemory m) where
  pub load8-lt : Ensures (λ v. v < 2 ^ 8) (load8 m p)
  unfolding load8
  load8-lt = Ensures-map (place m p 1) (λ a. returns (h a))

  pub load16-lt : Ensures (λ v. v < 2 ^ 16) (load16 m p)
  unfolding load16
  load16-lt = Ensures-map (place m p 2) (λ a. returns (half-lt m a h))

  pub load32-lt : Ensures (λ v. v < 2 ^ 32) (load32 m p)
  unfolding load32
  load32-lt = Ensures-map (place m p 4) (λ a. returns (word-lt m a h))

  pub store8-Keeps : (v : ℕ) → Ensures (Keeps m) (store8 m p v)
  unfolding store8
  store8-Keeps v = Ensures-map (place m p 1) (λ a. returns (record {
    same_start = refl;
    same_end = refl;
    same_brk = refl;
    is_memory = set_byte-IsMemory m a v h;
  }))

  pub store16-Keeps : (v : ℕ) → Ensures (Keeps m) (store16 m p v)
  unfolding store16
  store16-Keeps v = Ensures-map (place m p 2) (λ a. returns (record {
    same_start = refl;
    same_end = refl;
    same_brk = refl;
    is_memory = set_half-IsMemory m a v h;
  }))

  pub store32-Keeps : (v : ℕ) → Ensures (Keeps m) (store32 m p v)
  unfolding store32
  store32-Keeps v = Ensures-map (place m p 4) (λ a. returns (record {
    same_start = refl;
    same_end = refl;
    same_brk = refl;
    is_memory = set_word-IsMemory m a v h;
  }))

-- A place is had exactly when the access lies in the block.
pub place_pos : (m : Memory) (a n : ℕ) → a + n ≤ size m → place m (pos a) n ≡ ok a
unfolding place check
place_pos m a n h = rw (le→leb (a + n) (size m) h)

place_inv :
    (m : Memory) (p : ℤ) (n : ℕ) {a : ℕ} → place m p n ≡ ok a → (p ≡ pos a) × (a + n ≤ size m)
unfolding place check
place_inv m (pos b) n h = ground arith
place_inv m (negsuc b) n h = cc

-- A word that was stored at a place in the block is the word that is loaded from there.
load32-store32 :
    (m : Memory) (a v : ℕ)
    → v < 2 ^ 32
    → a + 4 ≤ size m
    → (store32 m (pos a) v >>= λ m'. load32 m' (pos a)) ≡ ok v
unfolding load32 store32
load32-store32 m a v h fits =
    rw (place_pos m a 4 fits, place_pos (set_word m a v) a 4 fits) (ap ok (word-set_word m a v h))

-- Accesses at a place in the block go through.
module _ (m : Memory) (a : ℕ) where
  pub load32_pos : a + 4 ≤ size m → load32 m (pos a) ≡ ok (word m a)
  unfolding load32
  load32_pos fits = rw (place_pos m a 4 fits)

  pub load16_pos : a + 2 ≤ size m → load16 m (pos a) ≡ ok (half m a)
  unfolding load16
  load16_pos fits = rw (place_pos m a 2 fits)

  pub load8_pos : a + 1 ≤ size m → load8 m (pos a) ≡ ok (byte m a)
  unfolding load8
  load8_pos fits = rw (place_pos m a 1 fits)

  pub store32_pos : (v : ℕ) → a + 4 ≤ size m → store32 m (pos a) v ≡ ok (set_word m a v)
  unfolding store32
  store32_pos v fits = rw (place_pos m a 4 fits)

  pub store16_pos : (v : ℕ) → a + 2 ≤ size m → store16 m (pos a) v ≡ ok (set_half m a v)
  unfolding store16
  store16_pos v fits = rw (place_pos m a 2 fits)

  pub store8_pos : (v : ℕ) → a + 1 ≤ size m → store8 m (pos a) v ≡ ok (set_byte m a v)
  unfolding store8
  store8_pos v fits = rw (place_pos m a 1 fits)
