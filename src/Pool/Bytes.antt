-- ===== src/Pool/Bytes.antt =====
-- Numbers of several bytes in memory, the lowest byte first: what `*p` and `*p = v` are for a
-- pointer to an integer type of `w` bytes.
use cvm.Base.{ℕ, zero, suc, ◌+◌, ◌*◌, ◌/◌, ◌%◌, ◌^◌, ◌≤◌, ◌<◌, ◌≡◌, refl, ap, ◌∙◌, ◌⊎◌, arith}
use native.Mathlib.Nat.{
  add-mul-mod_self_left, mod-eq_of_lt, one-le-pow, div-add-mod, mod-lt, mul_assoc, pow-suc,
}
use cvm.Cpu.{update}

abbrev pub Ram : Type 0
Ram = ℕ → ℕ

unfoldable pub get : ℕ → ℕ → Ram → ℕ
get zero a m = 0
get (suc w) a m = m a + 256 * get w (suc a) m

unfoldable pub put : ℕ → ℕ → ℕ → Ram → Ram
put zero a v m = m
put (suc w) a v m = update (put w (suc a) (v / 256) m) a (v % 256)

-- The byte `c` is not one of the `n` from `a`.
abbrev pub Outside : ℕ → ℕ → ℕ → Type 0
Outside c a n = (c < a) ⊎ (a + n ≤ c)

-- No byte of the `n` from `a` is one of the `k` from `b`.
abbrev pub Apart : ℕ → ℕ → ℕ → ℕ → Type 0
Apart a n b k = (a + n ≤ b) ⊎ (b + k ≤ a)

pub put-Outside : (w a v : ℕ) (m : Ram) (c : ℕ) → Outside c a w → put w a v m c ≡ m c
unfolding put
put-Outside zero a v m c h = refl
put-Outside (suc w) a v m c h = ground (arith, put-Outside w (suc a) (v / 256) m c (ground arith))

pub get_same :
    (w a : ℕ) (m g : Ram) → ((c : ℕ) → a ≤ c → c < a + w → g c ≡ m c) → get w a g ≡ get w a m
unfolding get
get_same zero a m g h = refl
get_same (suc w) a m g h = ground (
  arith,
  h a (omega arith) (omega arith),
  get_same w (suc a) m g (λ c l u. h c (omega arith) (omega arith)),
)

pub get-put_apart :
    (w a v : ℕ) (m : Ram) (k b : ℕ) → Apart a w b k → get k b (put w a v m) ≡ get k b m
get-put_apart w a v m k b h =
    get_same k b m (put w a v m) λ c l u. put-Outside w a v m c (ground arith)

mod_digit : (v b : ℕ) → 0 < b → v % (256 * b) ≡ v % 256 + 256 * ((v / 256) % b)
mod_digit v b h =
    let r : ℕ = v % 256 + 256 * ((v / 256) % b) in
    let split : v ≡ r + 256 * b * ((v / 256) / b) =
      omega (arith, ap (λ n. 256 * n) (div-add-mod (v / 256) b), mul_assoc 256 b ((v / 256) / b)) in
    ap (λ n. n % (256 * b)) split
    ∙ add-mul-mod_self_left r (256 * b) ((v / 256) / b)
    ∙ mod-eq_of_lt (omega (arith, mod-lt (v / 256) h))

get-update_before : (w a v : ℕ) (m : Ram) (b : ℕ) → a < b → get w b (update m a v) ≡ get w b m
get-update_before w a v m b h = get_same w b m (update m a v) λ c l u. ground arith

pub get-put : (w a v : ℕ) (m : Ram) → get w a (put w a v m) ≡ v % 256 ^ w
unfolding get put
get-put zero a v m = omega arith
get-put (suc w) a v m = ground (
  arith,
  get-update_before w a (v % 256) (put w (suc a) (v / 256) m) (suc a) (omega arith),
  get-put w (suc a) (v / 256) m,
  pow-suc 256 w,
  mod_digit v (256 ^ w) (one-le-pow w 256 (omega arith)),
)
