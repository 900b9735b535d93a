-- ===== src/Load/Laws.antt =====
-- What is known of a machine that `vm_create` has made.
use cvm.Base.{
  ℕ, ◌+◌, ◌≤◌, ◌≡◌, refl, ◌∙◌, arith, Bool, true, false, inl, inr, Bool-cases, ◌&&◌, All, Option,
  none, some, List, [], ◌∷◌, ◌==◌, leb, leb→le, if◌then◌else◌, take,
}
use cvm.Base.Word.{u32, mul32}
use cvm.Outcome.{Result, ok, fault, Ensures, returns, faults, Ensures-weaken}
use cvm.Mem.{Memory, size, IsMemory}
use cvm.Mem.Laws.{Keeps}
use cvm.Vm.{Vm, IsVm, stack_safe_hole}
use cvm.Api.{Host}
use cvm.Api.File.{deliver}
use cvm.Exec.Safety.Calls.{deliver-Keeps}
use cvm.Load.{load_elf, vm_load, vm_init, vm_create}
use cvm.Load.Headers.{◌>>=◌, Heap, seek, Phdr, phdrs, e_phnum}
use cvm.Load.Steps.{Loaded, Loaded-bind, Loaded-map, require-true}
use cvm.Load.Segments.{pt_load, end_of, read_segment, load_from, load_segments}

Keeps-trans : {a b c : Memory} → Keeps a b → Keeps b c → Keeps a c
Keeps-trans p q = record {
  same_start = q.same_start ∙ p.same_start;
  same_end = q.same_end ∙ p.same_end;
  same_brk = q.same_brk ∙ p.same_brk;
  is_memory = q.is_memory;
}

module _ {W : Type 0} (host : Host W) (fd : ℕ) where
  read_segment-Keeps :
      (p : Phdr) (m : Memory) (w : W)
      → IsMemory m
      → Ensures (Loaded (Keeps m)) (read_segment host fd p m w)
  unfolding read_segment
  read_segment-Keeps p m w h =
      let r = host.file_read fd p.p_filesz w in
      goes (u32 r.0 == p.p_filesz) r.2 (deliver m p.p_vaddr (take p.p_filesz r.1))
        (deliver-Keeps m p.p_vaddr (take p.p_filesz r.1) h)
    where
      goes :
          (b : Bool) (v : W) (o : Result Memory)
          → Ensures (Keeps m) o
          → Ensures (Loaded (Keeps m)) (elim o as (λ _. Result (Option Memory × W)) [
            | fault e ↦ fault e
            | ok m' ↦ if b then ok (some m', v) else ok (none, v)
          ])
      goes b v (fault e) k = faults
      goes true v (ok m') (returns k) = returns k
      goes false v (ok m') (returns k) = returns tt

  -- A segment that is loaded ends before the end of the block.
  abbrev pub Fits : Memory → Phdr → Type 0
  Fits m p = ((p.p_type == pt_load) && leb (size m) (p.p_vaddr + p.p_memsz)) ≡ false

  Fits-Keeps : (m m' : Memory) (p : Phdr) → Keeps m m' → Fits m' p → Fits m p
  Fits-Keeps m m' p k f = rw (← k.same_start, ← k.same_end) f

  All-Fits : (m m' : Memory) (ps : List Phdr) → Keeps m m' → All (Fits m') ps → All (Fits m) ps
  All-Fits m m' [] k fs = tt
  All-Fits m m' (p ∷ ps) k (f, fs) = (Fits-Keeps m m' p k f, All-Fits m m' ps k fs)

  abbrev pub InBlock : Memory → List Phdr → Memory × ℕ → Type 0
  InBlock m ps r = Keeps m r.0 × All (Fits m) ps

  load_from-InBlock :
      (ps : List Phdr) (m : Memory) (addr : ℕ) (w : W)
      → IsMemory m
      → Ensures (Loaded (InBlock m ps)) (load_from host fd ps m addr w)
  unfolding load_from
  load_from-InBlock [] m addr w h =
      returns (record { same_start = refl; same_end = refl; same_brk = refl; is_memory = h }, tt)
  load_from-InBlock (p ∷ ps) m addr w h = elim (Bool-cases (p.p_type == pt_load)) [
    | inr other ↦
        rw (load_from, other) (Ensures-weaken (load_from-InBlock ps m addr w h) (skip other))
    | inl loads ↦ elim (Bool-cases (leb (size m) (p.p_vaddr + p.p_memsz))) [
      | inl out ↦ rw (load_from, loads, out) (returns tt)
      | inr inside ↦
          rw (load_from, loads, inside)
            (Loaded-map (seek host fd p.p_offset)
              (λ _. read_segment host fd p m >>= λ m'. load_from host fd ps m' (end_of p)) w
              (λ _ v.
                Loaded-bind (read_segment host fd p m) (λ m'. load_from host fd ps m' (end_of p)) v
                  (read_segment-Keeps p m v h)
                  (λ m' u k.
                    Ensures-weaken (load_from-InBlock ps m' (end_of p) u k.is_memory)
                      (loaded loads inside k))))
    ]
  ]
    where
      skip :
          (p.p_type == pt_load) ≡ false
          → (r : Option (Memory × ℕ) × W) → Loaded (InBlock m ps) r
          → Loaded (InBlock m (p ∷ ps)) r
      skip other (none, v) k = tt
      skip other (some r, v) (k, fs) = (k, (rw other refl, fs))

      loaded :
          (p.p_type == pt_load) ≡ true
          → leb (size m) (p.p_vaddr + p.p_memsz) ≡ false
          → {m' : Memory} → Keeps m m'
          → (r : Option (Memory × ℕ) × W) → Loaded (InBlock m' ps) r
          → Loaded (InBlock m (p ∷ ps)) r
      loaded loads inside k (none, v) j = tt
      loaded loads inside {m' = m'} k (some r, v) (j, fs) =
          (Keeps-trans k j, (rw (loads, inside) refl, All-Fits m m' ps k fs))

  -- Where the segments of a program are loaded, each ends by its memory size before the end of
  -- the block, and the block is where it was, with bytes in it, however many bytes the file
  -- gives.
  pub load_segments-InBlock :
      (ps : List Phdr) (m : Memory) (w : W)
      → IsMemory m
      → Ensures (Loaded (InBlock m ps)) (load_segments host fd ps m w)
  unfolding load_segments
  load_segments-InBlock ps m w h = load_from-InBlock ps m (host.stale w) w h

-- A machine with a program loaded into it.
pub record IsLoaded (vm vm' : Vm) : Type 0 where
  pub same_start : vm'.mem.start ≡ vm.mem.start
  pub same_end : vm'.mem.end ≡ vm.mem.end
  pub is_memory : IsMemory vm'.mem
  pub same_cpu : vm'.cpu ≡ vm.cpu
  pub same_threads : vm'.threads ≡ vm.threads

module _ {W : Type 0} (host : Host W) (heap : Heap W) where
  load_elf-IsLoaded :
      (fd : ℕ) (vm : Vm) (w : W)
      → IsMemory vm.mem
      → Ensures (Loaded (λ r. IsLoaded vm r.1)) (load_elf host heap fd vm w)
  unfolding load_elf
  load_elf-IsLoaded fd vm w h = Loaded-map _ _ _ λ _ w1. Loaded-map _ _ _ λ ehdr w2.
      Loaded-map _ _ _ λ _ w3. Loaded-map _ _ _ λ _ w4. Loaded-map _ _ _ λ segments w5.
        Loaded-bind _ _ _
          (load_segments-InBlock host fd (phdrs (e_phnum ehdr) segments) vm.mem w5 h)
          λ r w6 k. Loaded-map _ _ _ λ _ w7. Loaded-map _ _ _ λ _ w8.
            Loaded-map _ _ _ λ sections w9. Loaded-map _ _ _ λ elf w10. returns (record {
              same_start = k.0.same_start;
              same_end = k.0.same_end;
              is_memory = k.0.is_memory;
              same_cpu = refl;
              same_threads = refl;
            })

  vm_load-IsLoaded :
      (fd : ℕ) (vm : Vm) (w : W)
      → IsMemory vm.mem
      → Ensures (Loaded (IsLoaded vm)) (vm_load host heap fd vm w)
  unfolding vm_load
  vm_load-IsLoaded fd vm w h = Loaded-bind _ _ _ (load_elf-IsLoaded fd vm w h) λ r v k.
      Loaded-map _ _ _ λ _ u. returns (record {
        same_start = k.same_start;
        same_end = k.same_end;
        is_memory = k.is_memory;
        same_cpu = k.same_cpu;
        same_threads = k.same_threads;
      })

-- What `vm_create` promises of a machine: it is well formed, with a block of `memsize` bytes and
-- stacks of `stacksize` bytes.
pub record IsCreated (memsize stacksize : ℕ) (vm : Vm) : Type 0 where
  pub is_vm : IsVm vm
  pub block : size vm.mem ≡ memsize
  pub stack : vm.stack_size ≡ stacksize
  pub stack_tested : stack_safe_hole ≤ mul32 stacksize 2
  pub zero_regs : (i : ℕ) → vm.cpu.regs i ≡ 0
  pub zero_cop : (i : ℕ) → vm.cpu.cop i ≡ 0

vm_init-IsMemory :
    (memsize start : ℕ) (contents : ℕ → ℕ) → IsMemory (vm_init memsize start contents).mem
unfolding vm_init
vm_init-IsMemory memsize start contents a = omega arith

created :
    (memsize stacksize start : ℕ) (contents : ℕ → ℕ) (vm : Vm)
    → IsLoaded (vm_init memsize start contents) vm
    → stack_safe_hole ≤ mul32 stacksize 2
    → IsCreated memsize stacksize (record vm { stack_size = stacksize })
unfolding vm_init
created memsize stacksize start contents vm k tested = record {
  is_vm = record {
    cpu_fits = rw k.same_cpu (record { regs_fit = λ i. omega arith; cop_fit = λ i. omega arith });
    mem_fits = k.is_memory;
    prev_sp_fits = λ tid. rw k.same_threads (omega arith);
  };
  block = omega (arith, k.same_start, k.same_end);
  stack = refl;
  stack_tested = tested;
  zero_regs = λ i. rw k.same_cpu refl;
  zero_cop = λ i. rw k.same_cpu refl;
}

-- A machine that `vm_create` makes, where it makes one, is well formed, whatever the file holds
-- and the host answers: the registers of the core and of the coprocessor are 0, memory holds bytes,
-- its sizes are those asked for, and twice the stack size, as a 32-bit number, is no less than the
-- safe hole.
pub vm_create-IsCreated :
    {W : Type 0} (host : Host W) (heap : Heap W) (sizeof_vm : ℕ) (bin : List ℕ)
    (memsize stacksize : ℕ) (w : W)
    → Ensures
        (Loaded (IsCreated memsize stacksize))
        (vm_create host heap sizeof_vm bin memsize stacksize w)
unfolding vm_create
vm_create-IsCreated host heap sizeof_vm bin memsize stacksize w = Loaded-map _ _ _ λ fd w1.
    Loaded-map _ _ _ λ _ w2.
      Loaded-bind _ _ _ (require-true (leb stack_safe_hole (mul32 stacksize 2)) w2) λ _ w3 tested.
        Loaded-map _ _ _ λ _ w4. Loaded-map _ _ _ λ got w5.
          Loaded-bind _ _ _
            (vm_load-IsLoaded host heap fd (vm_init memsize got.0 got.1) w5
              (vm_init-IsMemory memsize got.0 got.1))
            λ vm w6 k. returns (created memsize stacksize got.0 got.1 vm k (leb→le _ _ tested))
