-- ===== src/Tests/Threads.antt =====
-- Threads, parameters and system calls.
use cvm.Base.{ℕ, ◌+◌, ◌≡◌, ◌≤◌, refl, arith, List, [], ◌∷◌}
use cvm.Outcome.{ok, ◌>>=◌, check}
use cvm.Mem.{set_word, load32}
use cvm.Mem.Laws.{load8_pos}
use cvm.Vm.{Vm, stack_safe_hole, vm_thread_init, abi_func_param_n, abi_func_set_return}
use cvm.Vm.Params.{push_all, HasRoom, called, param-push_all}
use cvm.Vm.Stacks.{HasStacks, stacks-disjoint}
use cvm.Api.{Host, return}
use cvm.Api.Brk.{set_brk, sbrk_by}
use cvm.Api.Printf.{conversion, cpu0_printf}
use cvm.Api.File.{write_block, cpu0_read, cpu0_write}
use cvm.Api.Laws.Copy.{filled, cpu0_write-cpu0_read}
use cvm.Api.Laws.Break.{sbrk_by_lem}
use cvm.Api.Laws.Print.{printf_plain, printf_directive}
use cvm.Tests.Samples.{vm_of, sample_host, fields}

abbrev vm : Vm
vm = vm_of []

-- The main thread of a new machine, in which no call has saved its stack pointer.
abbrev fresh : Vm
fresh =
    vm_thread_init
      (record vm { threads = λ tid. record { prev_sp = 0; entry = 0; sp = 0; sp_end = 0 } }) 0 16

room : HasRoom fresh 0 4
unfolding vm_thread_init
room = record { counted = refl; low = omega arith; fits = omega arith }

param-push_all_example :
    (push_all (11 ∷ 22 ∷ 33 ∷ 44 ∷ []) fresh >>= λ vm'.
    abi_func_param_n (called (fields 0 0 64) vm') 0 4)
    ≡ ok 44
param-push_all_example =
    param-push_all (fields 0 0 64) (11 ∷ 22 ∷ 33 ∷ 44 ∷ []) fresh 0 3 room
      (omega arith, (omega arith, (omega arith, (omega arith, tt)))) (omega arith)

stacks : HasStacks vm 4
stacks = record { block = omega arith; room = omega arith; safe = omega arith }

stacks-disjoint_example :
    let both = (vm_thread_init (vm_thread_init vm 1 0) 2 0).threads in
    ((both 2).sp + stack_safe_hole ≤ (both 1).sp_end)
    × ((both 1).sp_end + 1024 ≡ (both 1).sp + stack_safe_hole)
    × ((both 2).sp_end + 1024 ≡ (both 2).sp + stack_safe_hole)
    × ((both 1).sp + stack_safe_hole ≤ 4096)
stacks-disjoint_example = stacks-disjoint vm 4 1 2 0 0 stacks (omega arith) (omega arith)

-- The block has 4096 bytes.
sbrk_by_lem_example : sbrk_by 100000 vm ≡ abi_func_set_return (set_brk vm 101024) 1024
sbrk_by_lem_example = sbrk_by_lem vm 100000 (omega arith) (omega arith) (omega arith)

-- Register 4 holds 96: the format "Hi %d".
abbrev greeting : Vm
greeting = vm_of (
    0 ∷ 0 ∷ 0 ∷ 0 ∷ 0 ∷ 0 ∷ 0 ∷ 0 ∷ 0 ∷ 0 ∷ 0 ∷ 0 ∷ 0 ∷ 0 ∷ 0 ∷ 0 ∷ 0 ∷ 0 ∷ 0 ∷ 0 ∷ 0 ∷ 0 ∷ 0 ∷ 0
    ∷ 0x25206948 ∷ 0x64 ∷ [])

printf_plain_example :
    cpu0_printf sample_host greeting 0 [] ≡ return greeting (sample_host.put_line [] [])
printf_plain_example =
    printf_plain sample_host greeting 0 [] b'H' b'i' (load8_pos greeting.mem 96 (omega arith))
      (load8_pos greeting.mem 97 (omega arith)) (omega arith) (omega arith)

-- The format "%d!" for the 5 in register 5.
abbrev number : Vm
number = vm_of (
    0 ∷ 0 ∷ 0 ∷ 0 ∷ 0 ∷ 0 ∷ 0 ∷ 0 ∷ 0 ∷ 0 ∷ 0 ∷ 0 ∷ 0 ∷ 0 ∷ 0 ∷ 0 ∷ 0 ∷ 0 ∷ 0 ∷ 0 ∷ 0 ∷ 0 ∷ 0 ∷ 0
    ∷ 0x00216325 ∷ [])

five : conversion b'c' 5 number.mem ≡ ok (5 ∷ [])
unfolding conversion
five = refl

printf_directive_example :
    cpu0_printf sample_host number 0 [] ≡ return number (sample_host.put_line [] [])
unfolding cvm.Api.Printf.until_nul
printf_directive_example =
    printf_directive sample_host number 0 [] b'%' b'!' b'c' (5 ∷ []) refl
      (load8_pos number.mem 96 (omega arith)) (load8_pos number.mem 97 (omega arith))
      (load8_pos number.mem 98 (omega arith)) five (omega arith) (omega arith)

-- Three bytes are read to address 5; the third parameter, on the stack, is 3.
abbrev reader : Vm
reader = record vm { mem = set_word vm.mem 2008 3 }

abbrev read_host : Host (List (List ℕ))
read_host = record sample_host { file_read = λ fd n w. (3, 7 ∷ 8 ∷ 9 ∷ [], w) }

count_before : abi_func_param_n reader 0 3 ≡ ok 3
unfolding abi_func_param_n load32 check
count_before = refl

abbrev reader_after : Vm
reader_after = filled read_host reader 0 [] [] 96 5 3 (7 ∷ 8 ∷ 9 ∷ [])

count_after : abi_func_param_n reader_after 0 3 ≡ ok 3
unfolding abi_func_param_n load32 check abi_func_set_return write_block
count_after = refl

buffer_after :
    (abi_func_param_n reader_after 0 1 ≡ ok 96) × (abi_func_param_n reader_after 0 2 ≡ ok 5)
unfolding abi_func_param_n abi_func_set_return
buffer_after = (refl, refl)

buffer_before : (abi_func_param_n reader 0 1 ≡ ok 96) × (abi_func_param_n reader 0 2 ≡ ok 5)
unfolding abi_func_param_n
buffer_before = (refl, refl)

cpu0_write-cpu0_read_example :
    (cpu0_read read_host reader 0 [] >>= λ r. cpu0_write read_host r.0 0 r.1)
    ≡ return reader_after (read_host.file_write 96 (7 ∷ 8 ∷ 9 ∷ []) [])
cpu0_write-cpu0_read_example =
    cpu0_write-cpu0_read read_host reader 0 [] [] 96 5 3 (7 ∷ 8 ∷ 9 ∷ []) 96 3 refl buffer_before.0
      buffer_before.1 count_before refl (omega arith, (omega arith, (omega arith, tt)))
      (omega arith) buffer_after.0 buffer_after.1 count_after
