-- ===== src/Elf.antt =====
-- The symbols of a loaded program: `elf_resolve` of simulator/elf_load.c.
pub mod Laws
use cvm.Base.{Option, none, some, ℕ, ◌-◌, ◌^◌, Bool, true, false, List, [], ◌∷◌, ◌==◌, drop}
use cvm.Outcome.{Result, ok, fault, ◌>>=◌, out_of_bounds}
use cvm.Vm.{Sym, Vm}

-- `0 == strcmp(...)` of the string that starts a list of bytes, and of one given without its end.
unfoldable pub same_string : List ℕ → List ℕ → Result Bool
same_string [] symbol = fault out_of_bounds
same_string (c ∷ cs) [] = ok (c == 0)
same_string (c ∷ cs) (d ∷ ds) = elim (c == d) [ true ↦ same_string cs ds | false ↦ ok false ]

-- The loop over the table.
unfoldable pub resolve : List ℕ → List (Option Sym) → List ℕ → Result ℕ
unfolding same_string
resolve strs [] symbol = ok (2 ^ 32 - 1)
resolve strs (none ∷ syms) symbol = fault out_of_bounds
resolve strs (some s ∷ syms) symbol = do
  same ← same_string (drop s.st_name strs) symbol
  elim same [ true ↦ ok s.st_value | false ↦ resolve strs syms symbol ]

unfoldable pub elf_resolve : Vm → List ℕ → Result ℕ
unfolding resolve
elf_resolve vm symbol = resolve vm.elf.strs vm.elf.syms symbol
