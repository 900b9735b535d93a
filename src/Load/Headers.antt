-- ===== src/Load/Headers.antt =====
-- Steps of the loader, and the records of elf.h that simulator/elf_load.c reads.
use cvm.Base.{
  ℕ, zero, suc, ◌+◌, ◌-◌, ◌*◌, leb, ◌^◌, Bool, true, false, not, ◌||◌, Option, none, some, List, [],
  ◌∷◌, ◌==◌, if◌then◌else◌, get_or, drop, take,
}
use cvm.Base.Word.{u32}
use cvm.Outcome.{Result, ok, fault, out_of_bounds}
use cvm.Vm.{Sym}
use cvm.Api.{Host}
use cvm.Api.File.{seek_set}

-- A step gives a value, or none where the source goes to `failed`.
abbrev pub Loader : Type 0 → Type 0 → Type 0
Loader W A = W → Result (Option A × W)

module _ {W : Type 0} where
  infixl 5 ◌>>=◌
  unfoldable pub ◌>>=◌ : {A B : Type 0} → Loader W A → (A → Loader W B) → Loader W B
  m >>= k = λ w. elim (m w) [
    | fault e ↦ fault e
    | ok r ↦ elim r.0 [ none ↦ ok (none, r.1) | some a ↦ k a r.1 ]
  ]

  abbrev pub pure : {A : Type 0} → A → Loader W A
  pure a w = ok (some a, w)

  abbrev pub fail : {A : Type 0} → Loader W A
  fail w = ok (none, w)

  abbrev pub require : Bool → Loader W Unit
  require b w = if b then ok (some tt, w) else ok (none, w)

-- `malloc`: a place in the host's memory and what stands there, or none.
pub record Heap (W : Type 0) : Type 0 where
  pub malloc : ℕ → Loader W (ℕ × (ℕ → ℕ))

module _ {W : Type 0} (host : Host W) (fd : ℕ) where
  abbrev pub seek : ℕ → Loader W ℕ
  seek offset w = let (r, w') = host.file_seek fd offset seek_set w in ok (some r, w')

  -- `read` and the test that all bytes came, as numbers of 32 bits
  abbrev pub read_exact : ℕ → Loader W (List ℕ)
  read_exact n w =
      let (r, bytes, w') = host.file_read fd n w in
      if u32 r == n then ok (some (take n bytes), w') else ok (none, w')

  -- The same with the result as it is, into a place that can be null; no byte is written there.
  abbrev pub read_to : Bool → ℕ → Loader W (List ℕ)
  read_to placed n w =
      let (r, bytes, w') = host.file_read fd n w in
      if not (r == n)
      then ok (none, w')
      else if placed || (n == 0)
      then ok (some (take n bytes), w')
      else fault out_of_bounds

-- `malloc` without a test of its result: whether the place is there.
abbrev pub try_malloc : {W : Type 0} → Heap W → ℕ → Loader W Bool
try_malloc heap n w = elim (heap.malloc n w) [
  | fault e ↦ fault e
  | ok r ↦ ok (some (elim r.0 [ none ↦ false | some place ↦ true ]), r.1)
]

abbrev pub u16_at : List ℕ → ℕ → ℕ
u16_at bytes i = get_or bytes i 0 + 2 ^ 8 * get_or bytes (i + 1) 0

abbrev pub u32_at : List ℕ → ℕ → ℕ
u32_at bytes i = u16_at bytes i + 2 ^ 16 * u16_at bytes (i + 2)

abbrev pub ehdr_size : ℕ
ehdr_size = 52

abbrev pub phdr_size : ℕ
phdr_size = 32

abbrev pub shdr_size : ℕ
shdr_size = 40

abbrev pub sym_size : ℕ
sym_size = 16

abbrev pub e_entry : List ℕ → ℕ
e_entry bytes = u32_at bytes 24

abbrev pub e_phoff : List ℕ → ℕ
e_phoff bytes = u32_at bytes 28

abbrev pub e_shoff : List ℕ → ℕ
e_shoff bytes = u32_at bytes 32

abbrev pub e_phnum : List ℕ → ℕ
e_phnum bytes = u16_at bytes 44

abbrev pub e_shnum : List ℕ → ℕ
e_shnum bytes = u16_at bytes 48

pub record Phdr : Type 0 where
  pub p_type : ℕ
  pub p_offset : ℕ
  pub p_vaddr : ℕ
  pub p_filesz : ℕ
  pub p_memsz : ℕ
  pub p_align : ℕ

pub record Shdr : Type 0 where
  pub sh_type : ℕ
  pub sh_offset : ℕ
  pub sh_size : ℕ
  pub sh_link : ℕ
  pub sh_entsize : ℕ

unfoldable pub phdrs : ℕ → List ℕ → List Phdr
phdrs zero bytes = []
phdrs (suc n) bytes =
    record {
      p_type = u32_at bytes 0;
      p_offset = u32_at bytes 4;
      p_vaddr = u32_at bytes 8;
      p_filesz = u32_at bytes 16;
      p_memsz = u32_at bytes 20;
      p_align = u32_at bytes 28;
    }
    ∷ phdrs n (drop phdr_size bytes)

unfoldable pub shdrs : ℕ → List ℕ → List Shdr
shdrs zero bytes = []
shdrs (suc n) bytes =
    record {
      sh_type = u32_at bytes 4;
      sh_offset = u32_at bytes 16;
      sh_size = u32_at bytes 20;
      sh_link = u32_at bytes 24;
      sh_entsize = u32_at bytes 36;
    }
    ∷ shdrs n (drop shdr_size bytes)

-- `n` symbols in a place of `size` bytes; the two fields are the first 8 bytes of a symbol.
unfoldable pub syms_of : ℕ → ℕ → List ℕ → List (Option Sym)
syms_of zero size bytes = []
syms_of (suc n) size bytes =
    (if leb 8 size
      then some (record { st_name = u32_at bytes 0; st_value = u32_at bytes 4 })
      else none)
    ∷ syms_of n (size - sym_size) (drop sym_size bytes)
