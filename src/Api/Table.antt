-- ===== src/Api/Table.antt =====
-- simulator/api/api.c: the table of the system calls.
use cvm.Base.{ℕ, List, [], ◌∷◌, get_or}
use cvm.Outcome.{Result, ok, fault, ◌>>=◌, bad_call}
use cvm.Vm.{Vm}
use cvm.Api.{Host, Call}
use cvm.Api.Brk.{cpu0_brk, cpu0_sbrk}
use cvm.Api.File.{cpu0_open, cpu0_read, cpu0_write, cpu0_close, cpu0_lseek}
use cvm.Api.Std.{cpu0_time}
use cvm.Api.Printf.{cpu0_printf}

-- The calls of brk.c leave the host alone.
abbrev pub local : {W : Type 0} → (Vm → ℕ → Result Vm) → Call W
local call vm tid w = do vm' ← call vm tid; ok (vm', w)

abbrev pub null : {W : Type 0} → Call W
null vm tid w = fault bad_call

module _ {W : Type 0} (host : Host W) where
  -- The first and the last entry are null.
  abbrev pub table : List (Call W)
  table =
      null
      ∷ cpu0_printf host
      ∷ local cpu0_brk
      ∷ local cpu0_sbrk
      ∷ cpu0_open host
      ∷ cpu0_read host
      ∷ cpu0_write host
      ∷ cpu0_close host
      ∷ cpu0_lseek host
      ∷ cpu0_time host
      ∷ null
      ∷ []

  -- `api_func[id]`, with `id` a sign-extended constant; past the ends there is no function.
  unfoldable pub api_func : ℕ → Call W
  api_func id = get_or table id null
