-- ===== src/Load/Segments.antt =====
-- The loop of `load_elf` (simulator/elf_load.c) over the segments of the program.
use cvm.Base.{
  ℕ, ◌+◌, ◌-◌, ◌^◌, true, false, none, some, List, [], ◌∷◌, ◌==◌, leb, if◌then◌else◌, take, bit_and,
}
use cvm.Base.Word.{u32, sub32}
use cvm.Outcome.{ok, fault}
use cvm.Mem.{Memory, size}
use cvm.Api.{Host}
use cvm.Api.File.{deliver}
use cvm.Load.Headers.{Loader, ◌>>=◌, pure, fail, seek, Phdr}

-- `PT_LOAD`
abbrev pub pt_load : ℕ
pt_load = 1

-- `(p_vaddr + p_memsz + p_align - 1) & ~(p_align - 1)`
abbrev pub end_of : Phdr → ℕ
end_of p =
    bit_and (u32 (p.p_vaddr + p.p_memsz + p.p_align + 2 ^ 32 - 1)) (2 ^ 32 - 1 - sub32 p.p_align 1)

module _ {W : Type 0} (host : Host W) (fd : ℕ) where
  -- `read` into the block; the bytes arrive before their number is looked at.
  unfoldable pub read_segment : Phdr → Memory → Loader W Memory
  unfolding deliver
  read_segment p m w =
      let (r, bytes, w') = host.file_read fd p.p_filesz w in
      elim (deliver m p.p_vaddr (take p.p_filesz bytes)) [
        | fault e ↦ fault e
        | ok m' ↦ if u32 r == p.p_filesz then ok (some m', w') else ok (none, w')
      ]

  -- `addr` holds the end of the last segment.
  unfoldable pub load_from : List Phdr → Memory → ℕ → Loader W (Memory × ℕ)
  unfolding read_segment
  load_from [] m addr = pure (m, addr)
  load_from (p ∷ ps) m addr = elim (p.p_type == pt_load) [
    | false ↦ load_from ps m addr
    | true ↦ elim (leb (size m) (p.p_vaddr + p.p_memsz)) [
      | true ↦ fail
      | false ↦
          seek host fd p.p_offset >>= λ _. read_segment p m >>= λ m'. load_from ps m' (end_of p)
    ]
  ]

  -- Without a segment `addr` is what was on the stack.
  unfoldable pub load_segments : List Phdr → Memory → Loader W (Memory × ℕ)
  unfolding load_from
  load_segments ps m w = load_from ps m (host.stale w) w
