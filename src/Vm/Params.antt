-- ===== src/Vm/Params.antt =====
-- The parameters that the host pushes are those that `abi_func_param_n` finds: the two sides of
-- the calling convention agree, on registers and on the stack.
use cvm.Base.{
  List, [], ◌∷◌, length, get_or, All, ℕ, zero, suc, ◌+◌, ◌-◌, ◌*◌, ◌^◌, ◌≤◌, ◌<◌, ◌≡◌, ◌≢◌, lt→ltb,
  refl, ap, ◌∙◌, arith, false, ◌==◌, if◌then◌else◌,
}
use cvm.Base.Int.{pos, ◌+ℤ◌}
use cvm.Base.Word.{u32, add32, sub32, mul32, signed}
use cvm.Outcome.{Result, ok, ◌>>=◌}
use cvm.Cpu.{Cpu}
use cvm.Mem.{size, word, set_word}
use cvm.Mem.Laws.{load32_pos, store32_pos, word-set_word, set_word_frame}
use cvm.Cpu.Opcode.{jsub}
use cvm.Cpu.Decode.{Fields}
use cvm.Vm.{Vm, abi_func_param_n, param_regs, vm_push_main_thread_param}
use cvm.Exec.Jump.{exec_jump}
use cvm.Exec.{enter}

-- Above the stack pointer that the main thread starts with there is room for parameter `count`, in
-- the lower half of the address space.
pub record IsStacked (vm : Vm) (count : ℕ) : Type 0 where
  pub low : u32 (vm.threads 0).sp + 4 * count + 4 < 2 ^ 31
  pub fits : u32 (vm.threads 0).sp + 4 * count + 4 ≤ size vm.mem

-- `count` parameters have been pushed, and there is room for one more.
pub record IsCalling (vm : Vm) (count : ℕ) : Type 0 where
  pub counted : vm.param_count ≡ count
  pub stacked : IsStacked vm count

-- The machine after the push.
abbrev pub pushed : Vm → ℕ → Vm
pushed vm v = record vm {
  cpu = param_regs vm.param_count v vm.cpu;
  mem = set_word vm.mem (u32 (vm.threads 0).sp + 4 * vm.param_count) v;
  param_count = add32 vm.param_count 1;
}

push_lem :
    (vm : Vm) (count v : ℕ) → IsCalling vm count → vm_push_main_thread_param vm v ≡ ok (pushed vm v)
unfolding vm_push_main_thread_param
push_lem vm count v c =
    rw (store32_pos vm.mem (u32 (vm.threads 0).sp + 4 * vm.param_count) v (room c))
  where
    room : IsCalling vm count → u32 (vm.threads 0).sp + 4 * vm.param_count + 4 ≤ size vm.mem
    room k = omega (arith, k.counted, k.stacked.fits)

-- Where a parameter of the stack is looked for.
param_place :
    (start i : ℕ)
    → start < 2 ^ 31
    → 2 < i
    → i < 2 ^ 29
    → (signed start +ℤ pos 4 +ℤ pos (mul32 (sub32 i 2) 4)) ≡ pos (start + 4 * (i - 1))
param_place start i low far small = ground arith

param_regs_lem :
    (count v : ℕ) (c : Cpu)
    → ((param_regs count v c).regs 4 ≡ (if count == 0 then v else c.regs 4))
      × ((param_regs count v c).regs 5 ≡ (if count == 1 then v else c.regs 5))
unfolding param_regs
param_regs_lem count v c = (ground arith, ground arith)

pushed-IsStacked : (vm : Vm) (count v : ℕ) → IsStacked vm count → IsStacked (pushed vm v) count
pushed-IsStacked vm count v s = record { low = s.low; fits = s.fits }

-- The host's pushes of a list of parameters.
unfoldable pub push_all : List ℕ → Vm → Result Vm
push_all [] vm = ok vm
push_all (v ∷ vs) vm = vm_push_main_thread_param vm v >>= push_all vs

-- `count` parameters have been pushed, and there is room for `n` more.
pub record HasRoom (vm : Vm) (count n : ℕ) : Type 0 where
  pub counted : vm.param_count ≡ count
  pub low : u32 (vm.threads 0).sp + 4 * (count + n) < 2 ^ 31
  pub fits : u32 (vm.threads 0).sp + 4 * (count + n) ≤ size vm.mem

module _ (vm : Vm) (count n v : ℕ) (r : HasRoom vm count (suc n)) where
  calling : IsCalling vm count
  calling = record {
    counted = r.counted;
    stacked = record { low = omega (arith, r.low); fits = omega (arith, r.fits) };
  }

  next_room : HasRoom (pushed vm v) (suc count) n
  next_room = record {
    counted = omega (arith, r.counted, r.low);
    low = omega (arith, r.low);
    fits = omega (arith, r.fits);
  }

-- The machine in the call that the main thread makes first.
module _ (f : Fields) where
  abbrev pub called : Vm → Vm
  called vm = exec_jump jsub f 0 (enter 0 vm)

  called_sp : (vm : Vm) → ((called vm).threads 0).prev_sp ≡ u32 (vm.threads 0).sp
  unfolding enter exec_jump
  called_sp vm = refl

  called_mem : (vm : Vm) → (called vm).mem ≡ vm.mem
  unfolding enter exec_jump
  called_mem vm = refl

  -- A parameter on the stack is the word at its place.
  param_word :
      (vm : Vm) (count i : ℕ)
      → IsStacked vm count
      → 2 < i
      → i ≤ count + 1
      → abi_func_param_n (called vm) 0 i ≡ ok (word vm.mem (u32 (vm.threads 0).sp + 4 * (i - 1)))
  unfolding abi_func_param_n
  param_word vm count i c far near =
      rw
        (
          t 1 (omega arith),
          t 2 (omega arith),
          lt→ltb 2 i far,
          called_sp vm,
          called_mem vm,
          param_place (u32 (vm.threads 0).sp) i (omega (arith, c.low)) far (omega (arith, c.low)),
        )
        (load32_pos vm.mem _ (omega (arith, c.fits)))
    where
      t : (k : ℕ) → i ≢ k → (i == k) ≡ false
      t k ne = ground arith

  param_first : (vm : Vm) → abi_func_param_n (called vm) 0 1 ≡ ok (vm.cpu.regs 4)
  unfolding abi_func_param_n enter exec_jump
  param_first vm = refl

  param_second : (vm : Vm) → abi_func_param_n (called vm) 0 2 ≡ ok (vm.cpu.regs 5)
  unfolding abi_func_param_n enter exec_jump
  param_second vm = refl

  -- The parameter that is pushed is found under its number.
  param-push_self :
      (vm : Vm) (count v : ℕ)
      → IsCalling vm count
      → v < 2 ^ 32
      → (vm_push_main_thread_param vm v >>= λ vm'. abi_func_param_n (called vm') 0 (suc count))
        ≡ ok v
  param-push_self vm zero v c fits =
      rw (push_lem vm 0 v c, param_first)
        (ap ok ((param_regs_lem vm.param_count v vm.cpu).0 ∙ ground (arith, c.counted)))
  param-push_self vm (suc zero) v c fits =
      rw (push_lem vm 1 v c, param_second)
        (ap ok ((param_regs_lem vm.param_count v vm.cpu).1 ∙ ground (arith, c.counted)))
  param-push_self vm (suc (suc n)) v c fits =
      rw
        (
          push_lem vm (suc (suc n)) v c,
          param_word (pushed vm v) (suc (suc n)) (suc (suc (suc n)))
              (pushed-IsStacked vm (suc (suc n)) v c.stacked) (omega arith) (omega arith),
        )
        (ap ok (
          ap (λ (k : ℕ). word (pushed vm v).mem (u32 (vm.threads 0).sp + 4 * k))
            {y = vm.param_count} (omega (arith, c.counted))
          ∙ word-set_word vm.mem (u32 (vm.threads 0).sp + 4 * vm.param_count) v fits))

  -- The parameters pushed before it stay what they were.
  param-push_other :
      (vm : Vm) (count i v : ℕ)
      → IsCalling vm count
      → i < count
      → (vm_push_main_thread_param vm v >>= λ vm'. abi_func_param_n (called vm') 0 (suc i))
        ≡ abi_func_param_n (called vm) 0 (suc i)
  param-push_other vm count zero v c before =
      rw (push_lem vm count v c, param_first (pushed vm v), param_first vm)
        (ap ok ((param_regs_lem vm.param_count v vm.cpu).0 ∙ ground (arith, c.counted)))
  param-push_other vm count (suc zero) v c before =
      rw (push_lem vm count v c, param_second (pushed vm v), param_second vm)
        (ap ok ((param_regs_lem vm.param_count v vm.cpu).1 ∙ ground (arith, c.counted)))
  param-push_other vm count (suc (suc i)) v c before =
      rw
        (
          push_lem vm count v c,
          param_word (pushed vm v) count (suc (suc (suc i))) (pushed-IsStacked vm count v c.stacked)
              (omega arith) (omega arith),
          param_word vm count (suc (suc (suc i))) c.stacked (omega arith) (omega arith),
        )
        (ap ok (
          ground (
            arith,
            c.counted,
            set_word_frame vm.mem (u32 (vm.threads 0).sp + 4 * vm.param_count) v,
          )))

  -- Later pushes leave parameter `i` alone.
  push_all_other :
      (vs : List ℕ) (vm : Vm) (count i : ℕ)
      → HasRoom vm count (length vs)
      → i < count
      → (push_all vs vm >>= λ vm'. abi_func_param_n (called vm') 0 (suc i))
        ≡ abi_func_param_n (called vm) 0 (suc i)
  unfolding push_all
  push_all_other [] vm count i r before = refl
  push_all_other (v ∷ vs) vm count i r before =
      let c = calling vm count (length vs) v r in
      rw (push_lem vm count v c) (
        push_all_other vs (pushed vm v) (suc count) i (next_room vm count (length vs) v r)
          (omega arith)
        ∙ (rw (push_lem vm count v c) at (param-push_other vm count i v c before)))

  -- The host pushes 32-bit parameters after the first `count`; the thread starts and its first
  -- instruction is `OPC_JSUB`. In that call each of them is found under its number, in registers or
  -- on the stack, where their places above the stack pointer that the thread starts with are in the
  -- block and below 2 ^ 31.
  pub param-push_all :
      (vs : List ℕ) (vm : Vm) (count i : ℕ)
      → HasRoom vm count (length vs)
      → All (λ v. v < 2 ^ 32) vs
      → i < length vs
      → (push_all vs vm >>= λ vm'. abi_func_param_n (called vm') 0 (suc (count + i)))
        ≡ ok (get_or vs i 0)
  unfolding push_all
  param-push_all [] vm count i r words inside = absurd (omega arith)
  param-push_all (v ∷ vs) vm count zero r words inside =
      let c = calling vm count (length vs) v r in
      rw (push_lem vm count v c, count_zero)
        (push_all_other vs (pushed vm v) (suc count) count (next_room vm count (length vs) v r)
            (omega arith)
          ∙ (rw (push_lem vm count v c) at (param-push_self vm count v c words.0)))
    where
      count_zero : count + 0 ≡ count
      count_zero = omega arith
  param-push_all (v ∷ vs) vm count (suc i) r words inside =
      let c = calling vm count (length vs) v r in
      rw (push_lem vm count v c, shift)
        (param-push_all vs (pushed vm v) (suc count) i (next_room vm count (length vs) v r) words.1
          (omega arith))
    where
      shift : count + suc i ≡ suc count + i
      shift = omega arith
