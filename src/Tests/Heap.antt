-- ===== src/Tests/Heap.antt =====
-- Runs of the allocator and of the run-time library.
use cvm.Base.{
  ℕ, ◌+◌, ◌*◌, ◌-◌, ◌^◌, ◌≡◌, ◌≢◌, refl, inl, inr, List, [], ◌∷◌, Option, none, some, arith,
}
use cvm.Outcome.{Result, ok, fault, check, bad_bucket, wild_pointer, ◌>>=◌}
use cvm.Pool.{Pool, pool_add_free, pool_alloc_continues, size_of}
use cvm.Pool.Bytes.{Ram, Apart}
use cvm.Pool.Alloc.{
  pool_create, pool_malloc, pool_free, header_size, header_idx, header_count, first_page,
}
use cvm.Pool.Pages.{Pages, all_pages, in-pages, pages-IsPool, ended_pages-Seg}
use cvm.Pool.Create.{Room, Room-Bounds}
use cvm.Pool.Session.{done, more, given, Sound, session-Sound}
use cvm.Pool.Client.{Request, ask, give_up, run_client, run_client-ends}
use cvm.Pool.Progress.{pool_malloc-finds}
use cvm.Pool.Errors.{pool_malloc-wraps, pool_create-no_page}
use cvm.Pool.Invariant.{Clear, IsPool, Bounds, set_list}
use cvm.Pool.Lists.{run, run-within, insert_at}
use cvm.Pool.Insert.{pool_add_free-insert}
use cvm.Pool.Adjacent.{Continues, pool_alloc_continues_lem}
use cvm.Pool.Moves.{Moves}
use cvm.Pool.Taken.{Gives, width}
use cvm.Pool.Malloc.{pool_malloc-Gives}
use cvm.Pool.Free.{pool_free-Moves}
use cvm.Rt.Heap.{Heap, heap_of, mem_init, mem_init-IsPool}
use cvm.Exec.{State, state}
use cvm.Rt.Stub.{stub, lseek, reached, left_in_3, stub-reached}
use cvm.Tests.Samples.{vm_of, sample_host}
use cvm.Rt.{memcpy, moved, memcpy_lem}

abbrev blank : Ram
blank a = 0

abbrev pool_in : Result (Option Pool) → Pool
pool_in (ok (some p)) = p
pool_in r = record {
  mem = blank;
  buckets = λ i. record { obj_size = 0; free_n = 0; free_list = 0 };
}

abbrev answer : Result (ℕ × Pool) → ℕ × Pool
answer (ok r) = r
answer (fault e) = (0, pool_in (fault e))

-- Memory of 20000 bytes at 65536: four pages from 69632 on.
room : Room 8 65536 20000
room = record {
  narrow = omega arith;
  wide = omega arith;
  ends = omega arith;
  limited = omega arith;
  table = omega arith;
  page = omega arith;
}

unfoldable new_pool : Pool
unfolding pool_create
new_pool = pool_in (pool_create 8 65536 20000 blank)

created : pool_create 8 65536 20000 blank ≡ ok (some new_pool)
unfolding pool_create new_pool
created = refl

-- 24 bytes and the header are a block of the second bucket.
unfoldable one_block : Pool
unfolding new_pool pool_malloc check
one_block = (answer (pool_malloc 8 24 new_pool)).1

first_block : pool_malloc 8 24 new_pool ≡ ok (69640, one_block)
unfolding new_pool pool_malloc one_block check
first_block = refl

abbrev held : List (ℕ × ℕ)
held = (69632, header_count 69632 one_block.mem * size_of (header_idx 69632 one_block.mem)) ∷ []

session-Sound_example : Sound 8 (first_page 8 65536) (65536 + 20000) one_block held
session-Sound_example =
    session-Sound room blank new_pool one_block held created
      (more (given {size = 24} {at = 69632} (omega arith) (omega arith) first_block) done)

one_block-Sound : Sound 8 (first_page 8 65536) (65536 + 20000) one_block held
one_block-Sound =
    session-Sound room blank new_pool one_block held created
      (more (given {size = 24} {at = 69632} (omega arith) (omega arith) first_block) done)

-- Two blocks, of which the first is given back, and a number that no block has.
abbrev requests : List Request
requests = ask 24 ∷ ask 5000 ∷ give_up 1 ∷ give_up 7 ∷ []

run_client-ends_example :
    (p : Pool) × (pool_create 8 65536 20000 blank ≡ ok (some p))
    × (q : Pool) × (live : List (ℕ × ℕ)) × (run_client 8 requests (p, []) ≡ ok (q, live))
    × Sound 8 (first_page 8 65536) (65536 + 20000) q live
run_client-ends_example =
    run_client-ends room blank requests
      ((omega arith, omega arith), ((omega arith, omega arith), (tt, (tt, tt))))

pool_malloc-wraps_example : pool_malloc 4 (2 ^ 32 - 8) new_pool ≡ fault bad_bucket
unfolding new_pool
pool_malloc-wraps_example =
    pool_malloc-wraps 4 (2 ^ 32 - 8) new_pool (omega arith) (omega arith) (omega arith)
      (omega arith)

pool_create-no_page_example : pool_create 4 4096 5000 blank ≡ fault wild_pointer
pool_create-no_page_example =
    pool_create-no_page 4 4096 5000 blank (omega arith) (omega arith) (omega arith)

memcpy_lem_example : memcpy 100 104 8 (λ a. a) 103 ≡ moved 100 104 8 (λ a. a) 103
memcpy_lem_example = memcpy_lem 100 104 8 (λ a. a) (inl (omega arith)) 103

new_pool-IsPool : IsPool 8 69632 85536 new_pool (all_pages 69632 3)
unfolding new_pool pool_create
new_pool-IsPool =
    pages-IsPool 69632 3 _ (omega arith) (omega arith) (omega arith)
      (ended_pages-Seg 8 69632 2 blank (omega arith) (omega arith) (omega arith))

bounds : Bounds 8 69632 85536
bounds = Room-Bounds room blank

pool_malloc-Gives_example :
    Gives 8 69632 85536 new_pool (all_pages 69632 3) 24 (pool_malloc 8 24 new_pool)
pool_malloc-Gives_example =
    pool_malloc-Gives bounds 24 new_pool (all_pages 69632 3) (omega arith) (omega arith)
      new_pool-IsPool

pool_free-Moves_example :
    Moves 8 69632 85536
      (λ a n. Clear a n one_block-Sound.0 × Apart a n 69632 (width one_block-Sound.2.0.0))
      one_block
      (pool_free 8 (69632 + header_size) one_block)
pool_free-Moves_example = pool_free-Moves bounds one_block-Sound.1 69632 one_block-Sound.2.0.0

pool_alloc_continues_lem_example :
    Continues 8 69632 85536 new_pool (all_pages 69632 3) 8 2 (pool_alloc_continues 8 8 2 new_pool)
pool_alloc_continues_lem_example =
    pool_alloc_continues_lem bounds new_pool-IsPool 8 (omega arith) 2 (omega arith)

-- Behind the last page there is room for two blocks of 16 bytes.
behind-Clear : Clear 81920 (2 * size_of 0) (all_pages 69632 3)
behind-Clear i x h m =
    let (e, r) =
      in-pages 69632 3 {ptr = 8} {top = 85536} blank (omega arith) (omega arith) (omega arith) i x
        m in
    rw e (inr (omega (arith, (run-within 4096 69632 3 x r).1)))

pool_add_free-insert_example :
    (q : Pool) × (pool_add_free 8 0 81920 2 new_pool ≡ ok q)
    × IsPool 8 69632 85536 q
        (set_list 0 (insert_at 81920 (run (size_of 0) 81920 2) []) (all_pages 69632 3))
pool_add_free-insert_example =
    pool_add_free-insert bounds new_pool-IsPool 0 2 81920 (omega arith) (omega arith) (omega arith)
      (omega arith) behind-Clear

abbrev start_heap : Heap
start_heap = record { mem = blank; mem_pool_gs = none }

machine-Room : Room 4 65536 20000
machine-Room = record {
  narrow = omega arith;
  wide = omega arith;
  ends = omega arith;
  limited = omega arith;
  table = omega arith;
  page = omega arith;
}

mem_init-IsPool_example :
    (n : ℕ) × Pages (first_page 4 65536) (65536 + 20000) n
    × (p : Pool) × (mem_init (λ k s. (s, s + k)) 20000 65536 start_heap ≡ ok (heap_of p, 85536))
    × IsPool 4 (first_page 4 65536) (65536 + 20000) p (all_pages (first_page 4 65536) n)
mem_init-IsPool_example =
    mem_init-IsPool (λ k s. (s, s + k)) 20000 65536 65536 65536 65536 85536 start_heap refl refl
      (omega arith) (omega arith) machine-Room

abbrev sample_state : State (List (List ℕ))
sample_state = state (vm_of []) []

stub-reached_example :
    stub sample_host lseek 0 sample_state
    ≡ (reached sample_host lseek sample_state.vm 0 sample_state.world >>= left_in_3 sample_host)
stub-reached_example = stub-reached sample_host lseek 0 sample_state

pages_left : (new_pool.buckets 8).free_n ≡ 3
unfolding new_pool pool_create
pages_left = refl

pool_malloc-finds_example : (a : ℕ) × (q : Pool) × (pool_malloc 8 24 new_pool ≡ ok (a, q)) × (a ≢ 0)
pool_malloc-finds_example =
    pool_malloc-finds bounds new_pool (all_pages 69632 3) 24 8 new_pool-IsPool (omega arith)
      (omega arith) (omega arith) (omega arith) (λ e. absurd (omega (arith, e, pages_left)))
