-- ===== src/Api/Laws/Print.antt =====
-- What `cpu0_printf` (simulator/api/printf.c) prints.
use cvm.Base.{
  ℕ, suc, ◌+◌, ◌-◌, ◌≤◌, ◌≡◌, ◌≢◌, refl, arith, true, false, List, [], ◌∷◌, ◌==◌, ltb, length, take,
}
use cvm.Base.Int.{pos}
use cvm.Outcome.{Result, ok}
use cvm.Mem.{size, load8}
use cvm.Vm.{Vm, abi_func_param_n}
use cvm.Api.{Host, return}
use cvm.Api.Printf.{
  max_cache_buff_size, loop_bound, conversion, format_round, format_loop, until_nul, end_text,
  cpu0_printf,
}

full : (n c : ℕ) → 1 ≤ n → ltb n (loop_bound c) ≡ false
full n c h = ground arith

open_loop : (c : ℕ) → c ≢ 0 → ltb 0 (loop_bound c) ≡ true
open_loop c h = ground arith

plain : (c : ℕ) → c ≢ b'%' → (c == b'%') ≡ false
plain c h = ground arith

module _ (go : ℕ → ℕ → List ℕ → Result (List ℕ)) (vm : Vm) (tid p idx c : ℕ) where
  round_full : (text : List ℕ) → 1 ≤ length text → format_round go vm tid p idx text c ≡ ok text
  unfolding format_round
  round_full text h = rw (full (length text) c h)

  round_plain : c ≢ 0 → c ≢ b'%' → format_round go vm tid p idx [] c ≡ go (p + 1) idx (c ∷ [])
  unfolding format_round
  round_plain some_text ordinary = rw (open_loop c some_text) (rw (plain c ordinary))

  round_directive :
      (t arg : ℕ) (s : List ℕ)
      → c ≡ b'%'
      → load8 vm.mem (pos (p + 1)) ≡ ok t
      → abi_func_param_n vm tid (idx + 1) ≡ ok arg
      → conversion t arg vm.mem ≡ ok s
      → format_round go vm tid p idx [] c ≡ go (p + 2) (idx + 1) s
  unfolding format_round
  round_directive t arg s mark letter param text = rw (mark, letter, param, text)

module _ (left : ℕ) (vm : Vm) (tid p idx c : ℕ) (read : load8 vm.mem (pos p) ≡ ok c) where
  -- One character of text ends the loop.
  loop_full : (text : List ℕ) → 1 ≤ length text → format_loop (suc left) vm tid p idx text ≡ ok text
  unfolding format_loop
  loop_full text h =
      rw (read)
        (round_full (λ p idx text. format_loop left vm tid p idx text) vm tid p idx c text h)

  loop_plain :
      c ≢ 0
      → c ≢ b'%'
      → format_loop (suc left) vm tid p idx [] ≡ format_loop left vm tid (p + 1) idx (c ∷ [])
  unfolding format_loop
  loop_plain some_text ordinary = rw (read) (
      round_plain (λ p idx text. format_loop left vm tid p idx text) vm tid p idx c some_text
        ordinary)

  loop_directive :
      (t arg : ℕ) (s : List ℕ)
      → c ≡ b'%'
      → load8 vm.mem (pos (p + 1)) ≡ ok t
      → abi_func_param_n vm tid (idx + 1) ≡ ok arg
      → conversion t arg vm.mem ≡ ok s
      → format_loop (suc left) vm tid p idx [] ≡ format_loop left vm tid (p + 2) (idx + 1) s
  unfolding format_loop
  loop_directive t arg s mark letter param text = rw (read) (
      round_directive (λ p idx text. format_loop left vm tid p idx text) vm tid p idx c t arg s mark
        letter param text)

cut :
    (s : List ℕ)
    → 1 ≤ length s
    → length s ≤ max_cache_buff_size
    → end_text s ≡ ok (until_nul (take (length s - 1) s))
unfolding end_text
cut [] some_text fits = elim some_text [ ]
cut (x ∷ s) some_text fits = rw (not_past (length s) fits, not_none (length s))
  where
    not_past : (n : ℕ) → suc n ≤ 4096 → ltb 4096 (suc n) ≡ false
    not_past n h = ground arith

    not_none : (n : ℕ) → (suc n == 0) ≡ false
    not_none n = ground arith

module _ {W : Type 0} (host : Host W) (vm : Vm) (tid : ℕ) (w : W) (c next : ℕ) where
  -- A format that starts with an ordinary character prints an empty line, whatever follows, where
  -- the first two places of the format lie in the block.
  pub printf_plain :
      load8 vm.mem (pos (vm.cpu.regs 4)) ≡ ok c
      → load8 vm.mem (pos (vm.cpu.regs 4 + 1)) ≡ ok next
      → c ≢ 0
      → c ≢ b'%'
      → cpu0_printf host vm tid w ≡ return vm (host.put_line [] w)
  unfolding cpu0_printf abi_func_param_n end_text until_nul
  printf_plain first second some_text ordinary =
      rw (loop_plain (suc (size vm.mem)) vm tid (vm.cpu.regs 4) 1 c first some_text ordinary) (
        rw
          (loop_full (size vm.mem) vm tid (vm.cpu.regs 4 + 1) 1 next second (c ∷ []) (omega arith)))

  -- A format that starts with a directive prints the text of that directive without its last
  -- character, whatever follows, for a text that is not empty and fits the buffer, where the
  -- first three places of the format lie in the block.
  pub printf_directive :
      (t : ℕ) (s : List ℕ)
      → c ≡ b'%'
      → load8 vm.mem (pos (vm.cpu.regs 4)) ≡ ok c
      → load8 vm.mem (pos (vm.cpu.regs 4 + 1)) ≡ ok t
      → load8 vm.mem (pos (vm.cpu.regs 4 + 2)) ≡ ok next
      → conversion t (vm.cpu.regs 5) vm.mem ≡ ok s
      → 1 ≤ length s
      → length s ≤ max_cache_buff_size
      → cpu0_printf host vm tid w ≡ return vm (host.put_line (until_nul (take (length s - 1) s)) w)
  unfolding cpu0_printf abi_func_param_n
  printf_directive t s mark first letter second text some_text fits =
      rw
        (loop_directive (suc (size vm.mem)) vm tid (vm.cpu.regs 4) 1 c first t (vm.cpu.regs 5) s
          mark letter refl text)
        (rw (loop_full (size vm.mem) vm tid (vm.cpu.regs 4 + 2) 2 next second s some_text)
          (rw (cut s some_text fits)))
