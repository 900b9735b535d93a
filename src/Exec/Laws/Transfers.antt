-- ===== src/Exec/Laws/Transfers.antt =====
-- A load finds what a store at the same address left.
use cvm.Base.{ℕ, ◌+◌, ◌%◌, ◌^◌, ◌≤◌, ◌≡◌, ap, arith}
use cvm.Base.Bits.{bit_and_mask}
use cvm.Base.Int.{pos}
use cvm.Outcome.{ok, ◌>>=◌}
use cvm.Cpu.{set_reg, IsCpu}
use cvm.Cpu.Opcode.{ld, st, lb, lbu, sb, lh, lhu, sh}
use cvm.Cpu.Decode.{Fields, sext}
use cvm.Mem.{size, set_byte, set_half, set_word, byte, half}
use cvm.Mem.Laws.{
  load8_pos, load16_pos, load32_pos, store8_pos, store16_pos, store32_pos, word-set_word,
  half-set_half, byte-set_byte,
}
use cvm.Vm.{Vm, set_cpu, set_mem}
use cvm.Exec.Transfer.{address, exec_mem}

module _ (f g : Fields) (vm : Vm) (h : IsCpu vm.cpu) (a : ℕ) (there : address f vm.cpu ≡ pos a)
    (same_base : g.rb ≡ f.rb) (same_offset : g.c16 ≡ f.c16) where
  abbrev stored : ℕ
  stored = vm.cpu.regs f.ra

  same_address : address g vm.cpu ≡ pos a
  same_address = rw (same_base, same_offset) there

  -- `OPC_LD` after an `OPC_ST` with the same base register and offset moves a register to another
  -- through the word at the address, for an address with its four bytes in the block.
  pub ld-st :
      a + 4 ≤ size vm.mem
      → (exec_mem st f vm >>= exec_mem ld g)
        ≡ ok (set_cpu (set_mem vm (set_word vm.mem a stored)) (set_reg vm.cpu g.ra stored))
  unfolding exec_mem
  ld-st fits =
      rw
        (
          there,
          store32_pos vm.mem a stored fits,
          same_address,
          load32_pos (set_word vm.mem a stored) a fits,
        )
        (ap (λ v. ok (set_cpu (set_mem vm (set_word vm.mem a stored)) (set_reg vm.cpu g.ra v)))
          (word-set_word vm.mem a stored (h.regs_fit f.ra)))

  abbrev low_byte : ℕ
  low_byte = stored % 2 ^ 8

  abbrev low_half : ℕ
  low_half = stored % 2 ^ 16

  after_sb : a + 1 ≤ size vm.mem → exec_mem sb f vm ≡ ok (set_mem vm (set_byte vm.mem a low_byte))
  unfolding exec_mem
  after_sb fits = rw (there, bit_and_mask 8 stored, store8_pos vm.mem a low_byte fits)

  after_sh : a + 2 ≤ size vm.mem → exec_mem sh f vm ≡ ok (set_mem vm (set_half vm.mem a low_half))
  unfolding exec_mem
  after_sh fits = rw (there, bit_and_mask 16 stored, store16_pos vm.mem a low_half fits)

  byte_there : byte (set_byte vm.mem a low_byte) a ≡ low_byte
  byte_there = byte-set_byte vm.mem a low_byte (omega arith)

  half_there : half (set_half vm.mem a low_half) a ≡ low_half
  half_there = half-set_half vm.mem a low_half (omega arith)

  -- After `OPC_SB`, with the same base register and offset and an address in the block, `OPC_LBU`
  -- gives the low byte of the register and `OPC_LB` that byte with its sign.
  pub lb-sb :
      a + 1 ≤ size vm.mem
      → let vm' = set_mem vm (set_byte vm.mem a low_byte) in
        ((exec_mem sb f vm >>= exec_mem lbu g) ≡ ok (set_cpu vm' (set_reg vm.cpu g.ra low_byte)))
        × ((exec_mem sb f vm >>= exec_mem lb g)
            ≡ ok (set_cpu vm' (set_reg vm.cpu g.ra (sext 8 low_byte))))
  unfolding exec_mem
  lb-sb fits =
      let vm' = set_mem vm (set_byte vm.mem a low_byte) in
      let found = load8_pos (set_byte vm.mem a low_byte) a fits in
      (
        rw (after_sb fits, same_address, found)
            (ap (λ v. ok (set_cpu vm' (set_reg vm.cpu g.ra v))) byte_there),
        rw (after_sb fits, same_address, found)
            (ap (λ v. ok (set_cpu vm' (set_reg vm.cpu g.ra (sext 8 v)))) byte_there),
      )

  -- After `OPC_SH`, with the same base register and offset and an address with its two bytes in
  -- the block, `OPC_LHU` gives the low half of the register and `OPC_LH` that half with its sign.
  pub lh-sh :
      a + 2 ≤ size vm.mem
      → let vm' = set_mem vm (set_half vm.mem a low_half) in
        ((exec_mem sh f vm >>= exec_mem lhu g) ≡ ok (set_cpu vm' (set_reg vm.cpu g.ra low_half)))
        × ((exec_mem sh f vm >>= exec_mem lh g)
            ≡ ok (set_cpu vm' (set_reg vm.cpu g.ra (sext 16 low_half))))
  unfolding exec_mem
  lh-sh fits =
      let vm' = set_mem vm (set_half vm.mem a low_half) in
      let found = load16_pos (set_half vm.mem a low_half) a fits in
      (
        rw (after_sh fits, same_address, found)
            (ap (λ v. ok (set_cpu vm' (set_reg vm.cpu g.ra v))) half_there),
        rw (after_sh fits, same_address, found)
            (ap (λ v. ok (set_cpu vm' (set_reg vm.cpu g.ra (sext 16 v)))) half_there),
      )
