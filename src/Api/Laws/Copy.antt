-- ===== src/Api/Laws/Copy.antt =====
-- `read` into a buffer and `write` from it (simulator/api/file.c).
use cvm.Base.{
  ℕ, ◌+◌, ◌^◌, ◌≤◌, ◌<◌, ◌≡◌, refl, ap, ap₂, ◌∙◌, arith, List, [], ◌∷◌, length, take, All,
}
use cvm.Outcome.{ok, ◌>>=◌}
use cvm.Mem.{Memory, size, set_byte}
use cvm.Mem.Laws.{place_pos}
use cvm.Vm.{Vm, set_mem, abi_func_param_n, abi_func_set_return}
use cvm.Base.Word.{widen}
use cvm.Api.{Host, return}
use cvm.Api.File.{read_block, write_block, deliver, cpu0_read, cpu0_write}

-- The bytes below a block that is written stay.
write_block_before :
    (m : Memory) (a : ℕ) (bs : List ℕ) (x : ℕ) → x < a → (write_block m a bs).bytes x ≡ m.bytes x
unfolding write_block
write_block_before m a [] x h = refl
write_block_before m a (b ∷ bs) x h =
    write_block_before (set_byte m a b) (a + 1) bs x (omega arith) ∙ ground arith

read_block-write_block :
    (m : Memory) (a : ℕ) (bs : List ℕ)
    → All (λ b. b < 2 ^ 8) bs
    → read_block (write_block m a bs) a (length bs) ≡ bs
unfolding read_block write_block
read_block-write_block m a [] h = refl
read_block-write_block m a (b ∷ bs) (small, rest) =
    ap₂ (λ c cs. c ∷ cs)
      (write_block_before (set_byte m a b) (a + 1) bs a (omega arith) ∙ ground arith)
      (read_block-write_block (set_byte m a b) (a + 1) bs rest)

write_block-size : (m : Memory) (a : ℕ) (bs : List ℕ) → size (write_block m a bs) ≡ size m
unfolding write_block
write_block-size m a [] = refl
write_block-size m a (b ∷ bs) = write_block-size (set_byte m a b) (a + 1) bs

take-all : (bs : List ℕ) → take (length bs) bs ≡ bs
take-all [] = refl
take-all (b ∷ bs) = ap (λ cs. b ∷ cs) (take-all bs)

deliver_lem :
    (m : Memory) (a : ℕ) (bs : List ℕ)
    → a + length bs ≤ size m
    → deliver m a bs ≡ ok (write_block m a bs)
unfolding deliver write_block
deliver_lem m a [] h = refl
deliver_lem m a (b ∷ bs) h = rw (place_pos m a (length (b ∷ bs)) h)

write_of :
    {W : Type 0} (host : Host W) (vm : Vm) (tid out buf n : ℕ) (w : W)
    → abi_func_param_n vm tid 1 ≡ ok out
    → abi_func_param_n vm tid 2 ≡ ok buf
    → abi_func_param_n vm tid 3 ≡ ok n
    → buf + widen n ≤ size vm.mem
    → cpu0_write host vm tid w ≡ return vm (host.file_write out (read_block vm.mem buf (widen n)) w)
unfolding cpu0_write
write_of host vm tid out buf n w q1 q2 q3 fits =
    rw (q1, q2, q3, place_pos vm.mem buf (widen n) fits)

module _ {W : Type 0} (host : Host W) (vm : Vm) (tid : ℕ) (w w' : W) (fd buf ret : ℕ)
    (got : List ℕ) where
  -- The machine after the read.
  abbrev pub filled : Vm
  filled = abi_func_set_return (set_mem vm (write_block vm.mem buf got)) ret

  -- A `read` that fills a buffer inside the block with bytes, as many as the size that the program
  -- passes, widened to 64 bits, and a `write` of the same buffer
  -- after it: the host is given the bytes that it gave, in a machine that differs from the first
  -- by those bytes and the result.
  pub cpu0_write-cpu0_read :
      (out n : ℕ)
      → widen n ≡ length got
      → abi_func_param_n vm tid 1 ≡ ok fd
      → abi_func_param_n vm tid 2 ≡ ok buf
      → abi_func_param_n vm tid 3 ≡ ok n
      → host.file_read fd (length got) w ≡ (ret, got, w')
      → All (λ b. b < 2 ^ 8) got
      → buf + length got ≤ size vm.mem
      → abi_func_param_n filled tid 1 ≡ ok out
      → abi_func_param_n filled tid 2 ≡ ok buf
      → abi_func_param_n filled tid 3 ≡ ok n
      → (cpu0_read host vm tid w >>= λ r. cpu0_write host r.0 tid r.1)
        ≡ return filled (host.file_write out got w')
  unfolding cpu0_read abi_func_set_return
  cpu0_write-cpu0_read out n long p1 p2 p3 read bytes fits q1 q2 q3 =
      rw (p1, p2, p3, long, read, take-all got, deliver_lem vm.mem buf got fits)
        (write_of host filled tid out buf n w' q1 q2 q3
            (rw long (omega (arith, fits, write_block-size vm.mem buf got)))
          ∙ ap (λ bs. return filled (host.file_write out bs w'))
              (ap (read_block filled.mem buf) long ∙ read_block-write_block vm.mem buf got bytes))
