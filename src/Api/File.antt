-- ===== src/Api/File.antt =====
-- simulator/api/file.c
use cvm.Base.{
  ℕ, zero, suc, ◌+◌, ◌-◌, ◌^◌, Option, none, some, List, [], ◌∷◌, bit_and, bit_or, ◌==◌,
  if◌then◌else◌, take, length,
}
use cvm.Base.Int.{pos}
use cvm.Base.Word.{is_neg, widen}
use cvm.Outcome.{Result, ok, fault, ◌>>=◌, out_of_bounds}
use cvm.Mem.{Memory, size, place, set_byte}
use cvm.Vm.{Vm, set_mem, abi_func_param_n}
use cvm.Api.{Host, Call, return}

-- The constants of the guest's api.h, and those of the host (Linux).
abbrev f_o_rdonly : ℕ
f_o_rdonly = 1

abbrev f_o_wronly : ℕ
f_o_wronly = 2

abbrev f_o_rdwr : ℕ
f_o_rdwr = 3

abbrev o_rdonly : ℕ
o_rdonly = 0

abbrev o_wronly : ℕ
o_wronly = 1

abbrev pub o_rdwr : ℕ
o_rdwr = 2

abbrev o_creat : ℕ
o_creat = 0x40

abbrev f_seek_set : ℕ
f_seek_set = 0

abbrev f_seek_end : ℕ
f_seek_end = 1

abbrev f_seek_cur : ℕ
f_seek_cur = 2

abbrev pub seek_set : ℕ
seek_set = 0

abbrev seek_cur : ℕ
seek_cur = 1

abbrev seek_end : ℕ
seek_end = 2

-- The bytes from a place up to a NUL; the string must end in the block.
unfoldable pub c_string : ℕ → Memory → ℕ → Result (List ℕ)
c_string zero m a = fault out_of_bounds
c_string (suc left) m a =
    let rest = c_string left m (a + 1) in
    if m.bytes a == 0 then ok [] else (rest >>= λ s. ok (m.bytes a ∷ s))

unfoldable pub string_at : Memory → ℕ → Result (List ℕ)
unfolding c_string
string_at m a = c_string (size m - a) m a

-- The bytes of a buffer.
unfoldable pub read_block : Memory → ℕ → ℕ → List ℕ
read_block m a zero = []
read_block m a (suc n) = m.bytes a ∷ read_block m (a + 1) n

unfoldable pub write_block : Memory → ℕ → List ℕ → Memory
write_block m a [] = m
write_block m a (b ∷ bs) = write_block (set_byte m a b) (a + 1) bs

-- The host writes nothing where it read nothing.
unfoldable pub deliver : Memory → ℕ → List ℕ → Result Memory
unfolding place write_block
deliver m a [] = ok m
deliver m a (b ∷ bs) = place m (pos a) (length (b ∷ bs)) >>= λ p. ok (write_block m p (b ∷ bs))

-- The `switch (flag & 3)`: the host's access mode.
unfoldable pub access_mode : ℕ → Option ℕ
access_mode flag =
    let mode = bit_and flag 3 in
    if mode == f_o_rdonly
    then some o_rdonly
    else if mode == f_o_wronly
    then some o_wronly
    else if mode == f_o_rdwr
    then some o_rdwr
    else none

abbrev with_creat : ℕ → ℕ → ℕ
with_creat flag mode = if bit_and flag 4 == 0 then mode else bit_or mode o_creat

unfoldable pub host_whence : ℕ → ℕ
host_whence whence =
    if whence == f_seek_set
    then seek_set
    else if whence == f_seek_end
    then seek_end
    else if whence == f_seek_cur
    then seek_cur
    else whence

module _ {W : Type 0} (host : Host W) where
  -- After the `switch`. The test `if (ret < 0)` reads `ret`, which has a value only after the
  -- `default`: with an access mode the variable holds what was on the stack.
  unfoldable pub open_file : Option ℕ → (filename flag : ℕ) → Vm → W → Result (Vm × W)
  unfolding string_at
  open_file none filename flag vm w = return vm (2 ^ 32 - 1, w)
  open_file (some mode) filename flag vm w =
      if is_neg (host.stale w) then return vm (host.stale w, w) else do
        path ← string_at vm.mem filename
        return vm (host.file_open path (with_creat flag mode) w)

  unfoldable pub cpu0_open : Call W
  unfolding open_file access_mode
  cpu0_open vm tid w = do
    filename ← abi_func_param_n vm tid 1
    flag ← abi_func_param_n vm tid 2
    open_file (access_mode flag) filename flag vm w

  -- The host writes what it read into the block, at most `size` bytes. A size is an `int` that is
  -- widened to 64 bits with its sign.
  unfoldable pub cpu0_read : Call W
  unfolding deliver
  cpu0_read vm tid w = do
    fd ← abi_func_param_n vm tid 1
    bufv ← abi_func_param_n vm tid 2
    count ← abi_func_param_n vm tid 3
    let (ret, got, w') = host.file_read fd (widen count) w
    m ← deliver vm.mem bufv (take (widen count) got)
    return (set_mem vm m) (ret, w')

  unfoldable pub cpu0_write : Call W
  unfolding place read_block
  cpu0_write vm tid w = do
    fd ← abi_func_param_n vm tid 1
    bufv ← abi_func_param_n vm tid 2
    count ← abi_func_param_n vm tid 3
    a ← place vm.mem (pos bufv) (widen count)
    return vm (host.file_write fd (read_block vm.mem a (widen count)) w)

  unfoldable pub cpu0_close : Call W
  cpu0_close vm tid w = do fd ← abi_func_param_n vm tid 1; return vm (host.file_close fd w)

  unfoldable pub cpu0_lseek : Call W
  cpu0_lseek vm tid w = do
    fd ← abi_func_param_n vm tid 1
    offset ← abi_func_param_n vm tid 2
    whence ← abi_func_param_n vm tid 3
    return vm (host.file_seek fd (widen offset) (host_whence whence) w)
