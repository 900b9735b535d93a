-- ===== src/Elf/Laws.antt =====
-- `elf_resolve` is a search for the first symbol of a name.
use cvm.Base.{
  Option, some, ℕ, ◌-◌, ◌^◌, ◌≡◌, ◌≢◌, refl, sym, Bool, true, false, ◌&&◌, List, [], ◌∷◌, ◌==◌,
  if◌then◌else◌, drop, All, arith,
}
use cvm.Outcome.{Result, ok}
use cvm.Vm.{Sym, Vm}
use cvm.Elf.{same_string, resolve, elf_resolve}

-- A list of bytes starts with a string, which a byte 0 ends.
pub data StartsWith : List ℕ → List ℕ → Type 0 where
  ends : {cs : List ℕ} → StartsWith (0 ∷ cs) []
  more : {c : ℕ} {cs name : List ℕ} → c ≢ 0 → StartsWith cs name → StartsWith (c ∷ cs) (c ∷ name)

abbrev pub equal_bytes : List ℕ → List ℕ → Bool
equal_bytes [] [] = true
equal_bytes [] (d ∷ ds) = false
equal_bytes (c ∷ cs) [] = false
equal_bytes (c ∷ cs) (d ∷ ds) = (c == d) && equal_bytes cs ds

differ : (c d : ℕ) → c ≢ d → (c == d) ≡ false
differ c d h = ground arith

-- A comparison of bytes, then of the rest.
both :
    (b e : Bool) {r : Result Bool}
    → r ≡ ok e
    → elim b as (λ _. Result Bool) [ true ↦ r | false ↦ ok false ] ≡ ok (b && e)
both true e h = h
both false e h = refl

same_string_lem :
    (cs name symbol : List ℕ)
    → StartsWith cs name
    → All (λ d. d ≢ 0) symbol
    → same_string cs symbol ≡ ok (equal_bytes name symbol)
unfolding same_string
same_string_lem _ _ [] ends text = refl
same_string_lem _ _ (d ∷ ds) ends text = rw (same_string, differ 0 d (λ e. text.0 (sym e)))
same_string_lem (c ∷ _) _ [] (more some_byte rest) text = rw (differ c 0 some_byte)
same_string_lem (c ∷ cs) (_ ∷ name) (d ∷ ds) (more some_byte rest) text =
    both (c == d) (equal_bytes name ds) (same_string_lem cs name ds rest text.1)

-- The names and values of a table of symbols.
pub data Named (strs : List ℕ) : List (Option Sym) → List (List ℕ × ℕ) → Type 0 where
  no_symbol : Named strs [] []
  one_symbol :
      {s : Sym} {syms : List (Option Sym)} {name : List ℕ} {table : List (List ℕ × ℕ)}
      → StartsWith (drop s.st_name strs) name
      → Named strs syms table
      → Named strs (some s ∷ syms) ((name, s.st_value) ∷ table)

-- The value of the first entry of a name, or -1.
unfoldable pub lookup : List ℕ → List (List ℕ × ℕ) → ℕ
lookup symbol [] = 2 ^ 32 - 1
lookup symbol ((name, value) ∷ table) =
    let rest = lookup symbol table in if equal_bytes name symbol then value else rest

found :
    (b : Bool) (value rest : ℕ) {r : Result ℕ}
    → r ≡ ok rest
    → elim b as (λ _. Result ℕ) [ true ↦ ok value | false ↦ r ] ≡ ok (if b then value else rest)
found true value rest h = refl
found false value rest h = h

resolve-lookup :
    (strs : List ℕ) (syms : List (Option Sym)) (table : List (List ℕ × ℕ)) (symbol : List ℕ)
    → Named strs syms table
    → All (λ d. d ≢ 0) symbol
    → resolve strs syms symbol ≡ ok (lookup symbol table)
unfolding resolve lookup
resolve-lookup strs _ _ symbol no_symbol text = refl
resolve-lookup strs (some s ∷ syms) ((name, _) ∷ table) symbol (one_symbol starts rest) text =
    rw (same_string_lem (drop s.st_name strs) name symbol starts text) (
      found (equal_bytes name symbol) s.st_value (lookup symbol table)
        (resolve-lookup strs syms table symbol rest text))

-- `elf_resolve` gives the value of the first symbol with the name, and -1 where no symbol has it,
-- for a table whose names end inside the strings and a name without a byte 0.
pub elf_resolve-lookup :
    (vm : Vm) (table : List (List ℕ × ℕ)) (symbol : List ℕ)
    → Named vm.elf.strs vm.elf.syms table
    → All (λ d. d ≢ 0) symbol
    → elf_resolve vm symbol ≡ ok (lookup symbol table)
unfolding elf_resolve
elf_resolve-lookup vm table symbol named text =
    resolve-lookup vm.elf.strs vm.elf.syms table symbol named text
