-- ===== src/Exec/Safety/Calls.antt =====
-- The system calls keep the machine well formed, whatever the host answers.
use cvm.Base.{
  ℕ, ◌+◌, refl, Bool, true, false, inl, inr, Bool-cases, Option, none, some, List, [], ◌∷◌, arith,
  if◌then◌else◌, leb, take, zero, suc,
}
use cvm.Base.Int.{pos, sub_ℕ, leb_ℤ}
use cvm.Base.Word.{widen, is_neg}
use cvm.Outcome.{Ensures, returns, faults, Ensures-bind, Ensures-map}
use cvm.Cpu.{set_reg-IsCpu}
use cvm.Mem.{Memory, size, IsMemory, place, set_byte}
use cvm.Mem.Laws.{Keeps, set_byte-IsMemory}
use cvm.Vm.{Vm, set_mem, IsVm, abi_func_param_n, abi_func_set_return}
use cvm.Api.{Host, return}
use cvm.Api.Brk.{set_brk, brk_to, cpu0_brk, sbrk_by, cpu0_sbrk}
use cvm.Api.File.{
  string_at, write_block, deliver, access_mode, open_file, cpu0_open, cpu0_read, cpu0_write,
  cpu0_close, cpu0_lseek,
}
use cvm.Api.Std.{cpu0_time}
use cvm.Api.Printf.{format_loop, end_text, cpu0_printf}
use cvm.Api.Table.{local, api_func}
use cvm.Exec.Safety.Cases.{Kept, Kept-set_cpu}

-- The machine that a call leaves.
abbrev pub KeptBy : {W : Type 0} → Vm → Vm × W → Type 0
KeptBy vm r = Kept vm r.0

set_return-Kept : (vm : Vm) (ret : ℕ) → IsVm vm → Kept vm (abi_func_set_return vm ret)
unfolding abi_func_set_return
set_return-Kept vm ret h = Kept-set_cpu vm _ h (set_reg-IsCpu vm.cpu 3 _ h.cpu_fits (omega arith))

set_brk_return-Kept :
    (vm : Vm) (b ret : ℕ) → IsVm vm → Kept vm (abi_func_set_return (set_brk vm b) ret)
unfolding abi_func_set_return
set_brk_return-Kept vm b ret h = record {
  is_vm = record {
    cpu_fits = set_reg-IsCpu vm.cpu 3 _ h.cpu_fits (omega arith);
    mem_fits = h.mem_fits;
    prev_sp_fits = h.prev_sp_fits;
  };
  same_start = refl;
  same_end = refl;
  same_elf = refl;
  same_stack = refl;
}

if-Kept : (vm : Vm) (b : Bool) {x y : Vm} → Kept vm x → Kept vm y → Kept vm (if b then x else y)
if-Kept vm true kx ky = kx
if-Kept vm false kx ky = ky

write_block-Keeps :
    (m m' : Memory) (a : ℕ) (bs : List ℕ) → Keeps m m' → Keeps m (write_block m' a bs)
unfolding write_block
write_block-Keeps m m' a [] k = k
write_block-Keeps m m' a (b ∷ bs) k = write_block-Keeps m (set_byte m' a b) (a + 1) bs (record {
  same_start = k.same_start;
  same_end = k.same_end;
  same_brk = k.same_brk;
  is_memory = set_byte-IsMemory m' a b k.is_memory;
})

pub deliver-Keeps :
    (m : Memory) (a : ℕ) (bs : List ℕ) → IsMemory m → Ensures (Keeps m) (deliver m a bs)
unfolding deliver
deliver-Keeps m a [] h =
    returns (record { same_start = refl; same_end = refl; same_brk = refl; is_memory = h })
deliver-Keeps m a (b ∷ bs) h = Ensures-map _ λ p. returns (
    write_block-Keeps m m p (b ∷ bs)
      (record { same_start = refl; same_end = refl; same_brk = refl; is_memory = h }))

stored_return-Kept :
    (vm : Vm) (m : Memory) (ret : ℕ)
    → IsVm vm
    → Keeps vm.mem m
    → Kept vm (abi_func_set_return (set_mem vm m) ret)
unfolding abi_func_set_return
stored_return-Kept vm m ret h k = record {
  is_vm = record {
    cpu_fits = set_reg-IsCpu vm.cpu 3 _ h.cpu_fits (omega arith);
    mem_fits = k.is_memory;
    prev_sp_fits = h.prev_sp_fits;
  };
  same_start = k.same_start;
  same_end = k.same_end;
  same_elf = refl;
  same_stack = refl;
}

module _ {W : Type 0} (host : Host W) (vm : Vm) (tid : ℕ) (w : W) (h : IsVm vm) where
  gives : (r : ℕ × W) → Ensures (KeptBy vm) (return vm r)
  gives (ret, w') = returns (set_return-Kept vm ret h)

  open_file-Kept :
      (o : Option ℕ) (filename flag : ℕ) → Ensures (KeptBy vm) (open_file host o filename flag vm w)
  unfolding open_file
  open_file-Kept none filename flag = gives _
  open_file-Kept (some mode) filename flag = elim (Bool-cases (is_neg (host.stale w))) [
    | inl t ↦ rw t (gives (host.stale w, w))
    | inr t ↦ rw t (Ensures-map (string_at vm.mem filename) λ path. gives _)
  ]

  cpu0_open-Kept : Ensures (KeptBy vm) (cpu0_open host vm tid w)
  unfolding cpu0_open
  cpu0_open-Kept = Ensures-map (abi_func_param_n vm tid 1) λ filename.
      Ensures-map (abi_func_param_n vm tid 2)
        λ flag. open_file-Kept (access_mode flag) filename flag

  cpu0_read-Kept : Ensures (KeptBy vm) (cpu0_read host vm tid w)
  unfolding cpu0_read
  cpu0_read-Kept = Ensures-map (abi_func_param_n vm tid 1) λ fd.
      Ensures-map (abi_func_param_n vm tid 2) λ bufv.
        Ensures-map (abi_func_param_n vm tid 3) λ count.
          let r = host.file_read fd (widen count) w in
          Ensures-bind {go = λ m. return (set_mem vm m) (r.0, r.2)}
            (deliver-Keeps vm.mem bufv (take (widen count) r.1) h.mem_fits)
            λ m k. returns (stored_return-Kept vm m r.0 h k)

  cpu0_write-Kept : Ensures (KeptBy vm) (cpu0_write host vm tid w)
  unfolding cpu0_write
  cpu0_write-Kept = Ensures-map (abi_func_param_n vm tid 1) λ fd.
      Ensures-map (abi_func_param_n vm tid 2) λ bufv.
        Ensures-map (abi_func_param_n vm tid 3)
          λ count. Ensures-map (place vm.mem (pos bufv) (widen count)) λ a. gives _

  cpu0_close-Kept : Ensures (KeptBy vm) (cpu0_close host vm tid w)
  unfolding cpu0_close
  cpu0_close-Kept = Ensures-map (abi_func_param_n vm tid 1) λ fd. gives _

  cpu0_lseek-Kept : Ensures (KeptBy vm) (cpu0_lseek host vm tid w)
  unfolding cpu0_lseek
  cpu0_lseek-Kept = Ensures-map (abi_func_param_n vm tid 1) λ fd.
      Ensures-map (abi_func_param_n vm tid 2)
        λ offset. Ensures-map (abi_func_param_n vm tid 3) λ whence. gives _

  cpu0_time-Kept : Ensures (KeptBy vm) (cpu0_time host vm tid w)
  unfolding cpu0_time
  cpu0_time-Kept = gives _

  cpu0_printf-Kept : Ensures (KeptBy vm) (cpu0_printf host vm tid w)
  unfolding cpu0_printf
  cpu0_printf-Kept = Ensures-map (abi_func_param_n vm tid 1) λ fmt.
      Ensures-map (format_loop (suc (suc (size vm.mem))) vm tid fmt 1 [])
        λ text. Ensures-map (end_text text) λ line. gives _

  cpu0_brk-Kept : Ensures (KeptBy vm) (local cpu0_brk vm tid w)
  unfolding cpu0_brk brk_to
  cpu0_brk-Kept =
      Ensures-bind
        (Ensures-map {Q = Kept vm} (abi_func_param_n vm tid 1) λ addr. returns (
          if-Kept vm (leb vm.mem.end (vm.mem.start + addr)) (set_return-Kept vm _ h)
            (set_brk_return-Kept vm addr 0 h)))
        λ vm' k. returns k

  cpu0_sbrk-Kept : Ensures (KeptBy vm) (local cpu0_sbrk vm tid w)
  unfolding cpu0_sbrk sbrk_by
  cpu0_sbrk-Kept =
      Ensures-bind
        (Ensures-map {Q = Kept vm} (abi_func_param_n vm tid 1) λ incr. returns (
          if-Kept vm (leb_ℤ (sub_ℕ vm.mem.end vm.mem.brk) (pos incr)) (set_return-Kept vm _ h)
            (set_brk_return-Kept vm _ _ h)))
        λ vm' k. returns k

  -- A system call by any number keeps the machine well formed.
  pub api_func-Kept : (id : ℕ) → Ensures (KeptBy vm) (api_func host id vm tid w)
  unfolding api_func
  api_func-Kept zero = faults
  api_func-Kept (suc zero) = cpu0_printf-Kept
  api_func-Kept (suc (suc zero)) = cpu0_brk-Kept
  api_func-Kept (suc (suc (suc zero))) = cpu0_sbrk-Kept
  api_func-Kept (suc (suc (suc (suc zero)))) = cpu0_open-Kept
  api_func-Kept (suc (suc (suc (suc (suc zero))))) = cpu0_read-Kept
  api_func-Kept (suc (suc (suc (suc (suc (suc zero)))))) = cpu0_write-Kept
  api_func-Kept (suc (suc (suc (suc (suc (suc (suc zero))))))) = cpu0_close-Kept
  api_func-Kept (suc (suc (suc (suc (suc (suc (suc (suc zero)))))))) = cpu0_lseek-Kept
  api_func-Kept (suc (suc (suc (suc (suc (suc (suc (suc (suc zero))))))))) = cpu0_time-Kept
  api_func-Kept (suc (suc (suc (suc (suc (suc (suc (suc (suc (suc zero)))))))))) = faults
  api_func-Kept (suc (suc (suc (suc (suc (suc (suc (suc (suc (suc (suc id))))))))))) = faults
