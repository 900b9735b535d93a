-- ===== src/Rt.antt =====
-- The run-time library of the programs for the machine: rtlib/libs/api.h. Its stubs and its heap
-- are in the children.
pub mod Stub
pub mod Heap
use cvm.Base.{
  ℕ, zero, suc, ◌+◌, ◌-◌, ◌*◌, ◌%◌, ◌^◌, ◌<◌, ◌≤◌, ◌≡◌, ◌⊎◌, inl, inr, refl, sym, ap, ◌∙◌, ◌==◌,
  ◌&&◌, true, false, leb, ltb, if◌then◌else◌, Bool-cases, arith,
}
use cvm.Cpu.{update}
use cvm.Pool.Bytes.{Ram}

-- `while (len--) { *(dst++) = *(src++); }` on one memory; a negative length is left out.
unfoldable pub memcpy : ℕ → ℕ → ℕ → Ram → Ram
memcpy dst src zero m = m
memcpy dst src (suc len) m = memcpy (dst + 1) (src + 1) len (update m dst (m src))

-- `for (i = 0; i < len; i++) { dst[i] = v; }`, with `len - i` as the last number
unfoldable pub memset : ℕ → ℕ → ℕ → ℕ → Ram → Ram
memset dst v i zero m = m
memset dst v i (suc left) m = memset dst v (suc i) left (update m (dst + i) (v % 256))

-- The byte `c` after the `len` bytes from `src` were put at `dst`.
abbrev pub moved : ℕ → ℕ → ℕ → Ram → ℕ → ℕ
moved dst src len m c = if leb dst c && ltb c (dst + len) then m (src + (c - dst)) else m c

-- One byte and then the others.
moved-suc :
    (dst src len : ℕ) (m : Ram)
    → (dst ≤ src) ⊎ (src + suc len ≤ dst)
    → (c : ℕ) → moved (dst + 1) (src + 1) len (update m dst (m src)) c ≡ moved dst src (suc len) m c
moved-suc dst src len m h c = elim (Bool-cases (leb (dst + 1) c && ltb c (dst + 1 + len))) [
  | inl t ↦
      (let place : src + 1 + (c - (dst + 1)) ≡ src + (c - dst) = ground arith in
        ground (arith, ap m place))
  | inr f ↦ (let place : src + (dst - dst) ≡ src = omega arith in ground (arith, ap m place))
]

-- `memcpy` copies what stood at `src`, also where the places overlap, as long as `dst` is not
-- above `src` or the two do not overlap.
pub memcpy_lem :
    (dst src len : ℕ) (m : Ram)
    → (dst ≤ src) ⊎ (src + len ≤ dst)
    → (c : ℕ) → memcpy dst src len m c ≡ moved dst src len m c
unfolding memcpy
memcpy_lem dst src zero m h c = ground arith
memcpy_lem dst src (suc len) m h c =
    memcpy_lem (dst + 1) (src + 1) len (update m dst (m src)) (ground arith) c
    ∙ moved-suc dst src len m h c

-- `memset` puts the byte `v` at each of the `len` places and nowhere else.
memset_lem :
    (dst v i left : ℕ) (m : Ram) (c : ℕ)
    → memset dst v i left m c
      ≡ (if leb (dst + i) c && ltb c (dst + (i + left)) then v % 256 else m c)
unfolding memset
memset_lem dst v i zero m c = ground arith
memset_lem dst v i (suc left) m c =
    memset_lem dst v (suc i) left (update m (dst + i) (v % 256)) c ∙ ground arith
