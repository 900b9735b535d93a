-- ===== src/Api/Printf.antt =====
-- simulator/api/printf.c. The buffer of 4096 bytes is kept as the text written to it so far; its
-- length is `n`. `snprintf` is the C library's: it returns the length of the whole text.
use cvm.Base.{
  ℕ, zero, suc, ◌+◌, ◌-◌, ◌/◌, ◌%◌, ◌^◌, ◌&&◌, not, List, [], ◌∷◌, ◌++◌, ◌==◌, ltb, if◌then◌else◌,
  take, length,
}
use cvm.Base.Int.{pos}
use cvm.Base.Word.{is_neg}
use cvm.Outcome.{Result, ok, fault, ◌>>=◌, out_of_bounds}
use cvm.Mem.{Memory, size, load8}
use cvm.Vm.{Vm, abi_func_param_n}
use cvm.Api.{Host, Call, return}
use cvm.Api.File.{string_at}

abbrev pub max_cache_buff_size : ℕ
max_cache_buff_size = 4096

-- The digits of a number in a base, most significant first; a word has at most 10 of them in
-- base 10, and 8 in base 16.
digit_char : ℕ → ℕ → ℕ
digit_char letter d = if ltb d 10 then b'0' + d else letter + (d - 10)

digits : ℕ → ℕ → ℕ → ℕ → List ℕ → List ℕ
unfolding digit_char
digits zero base letter n acc = acc
digits (suc fuel) base letter n acc =
    let acc' : List ℕ = digit_char letter (n % base) ∷ acc in
    let rest = digits fuel base letter (n / base) acc' in if n / base == 0 then acc' else rest

decimal : ℕ → List ℕ
unfolding digits
decimal n = if is_neg n then b'-' ∷ digits 10 10 b'a' (2 ^ 32 - n) [] else digits 10 10 b'a' n []

-- The text of one conversion; `none` for a letter that is not supported.
unfoldable pub conversion : ℕ → ℕ → Memory → Result (List ℕ)
unfolding decimal
conversion t arg m =
    if t == b'd'
    then ok (decimal arg)
    else if t == b'x'
    then ok (digits 8 16 b'a' arg [])
    else if t == b'X'
    then ok (digits 8 16 b'A' arg [])
    else if t == b's'
    then string_at m arg
    else if t == b'c'
    then ok (arg % 2 ^ 8 ∷ [])
    else ok []

-- `sizeof(buf) && *p`, the number that `n` is held against.
abbrev pub loop_bound : ℕ → ℕ
loop_bound c = if not (max_cache_buff_size == 0) && not (c == 0) then 1 else 0

-- A round of the loop that reads `c` at the place `p` of the format; `go` is the rest of the loop.
unfoldable pub format_round :
    (ℕ → ℕ → List ℕ → Result (List ℕ)) → Vm → ℕ → ℕ → ℕ → List ℕ → ℕ → Result (List ℕ)
unfolding conversion
format_round go vm tid p idx text c =
    if not (ltb (length text) (loop_bound c))
    then ok text
    else if c == b'%'
    then (do
      t ← load8 vm.mem (pos (p + 1))
      arg ← abi_func_param_n vm tid (idx + 1)
      s ← conversion t arg vm.mem
      go (p + 2) (idx + 1) (text ++ s))
    else go (p + 1) idx (text ++ c ∷ [])

-- The loop at the place `p`; the rounds are bounded by the bytes of the block.
unfoldable pub format_loop : ℕ → Vm → ℕ → ℕ → ℕ → List ℕ → Result (List ℕ)
unfolding format_round
format_loop zero vm tid p idx text = fault out_of_bounds
format_loop (suc left) vm tid p idx text = do
  c ← load8 vm.mem (pos p)
  format_round (λ p idx text. format_loop left vm tid p idx text) vm tid p idx text c

-- What `puts` makes of a buffer.
unfoldable pub until_nul : List ℕ → List ℕ
until_nul [] = []
until_nul (c ∷ cs) = if c == 0 then [] else c ∷ until_nul cs

-- `buf[n-1] = 0`, which is outside the buffer for `n = 0` and for `n` past its size.
unfoldable pub end_text : List ℕ → Result (List ℕ)
unfolding until_nul
end_text text =
    if length text == 0
    then fault out_of_bounds
    else if ltb max_cache_buff_size (length text)
    then fault out_of_bounds
    else ok (until_nul (take (length text - 1) text))

unfoldable pub cpu0_printf : {W : Type 0} → Host W → Call W
unfolding format_loop end_text
cpu0_printf host vm tid w = do
  fmt ← abi_func_param_n vm tid 1
  text ← format_loop (suc (suc (size vm.mem))) vm tid fmt 1 []
  line ← end_text text
  return vm (host.put_line line w)
