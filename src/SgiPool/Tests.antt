-- ===== src/SgiPool/Tests.antt =====
-- The pool's theorems at a `malloc` that always gives one address, and the pool when memory runs out.
use Prim.Native.Nat.{min}
use cpp_toy.Base.{
  [], ◌∷◌, put, ℕ, ◌+◌, ◌-◌, ◌*◌, ◌%◌, ◌≤◌, ◌<◌, ◌≡◌, ◌≢◌, ◌⊎◌, refl, arith, add_size, sub_size,
  mul_size, ok, fail, null_pointer, out_of_range, ◌>>=◌,
}
use cpp_toy.SgiPool.{
  reallocate, copies, Pool, fresh, align, max_bytes, free_lists, round_up, freelist_index,
  find_node, donate_left, take_chunk, list_of, push_free, pop_free, got_memory, call_malloc,
  after_search, new_range, more_memory, bytes_to_get, chunk_fuel, alloc_chunk, refill, allocate,
  deallocate,
}
use cpp_toy.SgiPool.Sizes.{round_up-freelist_index, allocate_zero}
use cpp_toy.SgiPool.Chunks.{IsRange, Cut}
use cpp_toy.SgiPool.Ranges.{Fits, ListsFit, IsPool}
use cpp_toy.SgiPool.Blocks.{NullOnRefusal, alloc_chunk_lem}
use cpp_toy.SgiPool.Moves.{reallocate_moves}
use cpp_toy.SgiPool.Lists.{Stocked, allocate-deallocate, allocate_refills}

abbrev heap : (call size : ℕ) → ℕ
heap call size = 4096

heap-Fits : Fits heap
unfolding Fits
heap-Fits call size h = omega arith

fresh-IsPool : IsPool fresh
unfolding IsPool IsRange ListsFit
fresh-IsPool = ((omega arith, omega arith), (λ j. omega arith), omega arith, omega arith)

-- No memory at all: the first request of any size dereferences null instead of giving null.
starved : allocate (λ call size. 0) 8 fresh ≡ fail null_pointer
unfolding allocate refill alloc_chunk more_memory new_range find_node donate_left take_chunk list_of
    after_search got_memory call_malloc bytes_to_get round_up freelist_index pop_free push_free
    add_size sub_size mul_size
starved = refl

no_bytes : allocate heap 0 fresh ≡ fail out_of_range
no_bytes = allocate_zero heap fresh

round_up-freelist_index_example :
    (round_up 13 % align ≡ 0)
    × (13 ≤ round_up 13)
    × (round_up 13 < 13 + align)
    × (1 ≤ 13
        → 13 ≤ max_bytes
        → (freelist_index 13 < free_lists)
          × (round_up 13 ≡ align * (freelist_index 13 + 1))
          × (freelist_index (round_up 13) ≡ freelist_index 13))
round_up-freelist_index_example = round_up-freelist_index 13 (omega arith)

alloc_chunk_lem_example :
    (s₁ : Pool) × (r : ℕ × ℕ × Pool) × (alloc_chunk heap chunk_fuel 16 20 fresh ≡ ok r)
    × Cut 16 20 s₁ r
    × ((s₁ ≡ fresh)
        ⊎ ((fresh.end_free - fresh.start_free < 16)
            × NullOnRefusal heap heap-Fits (bytes_to_get (16 * 20) fresh) fresh.calls s₁))
alloc_chunk_lem_example =
    alloc_chunk_lem heap heap-Fits 16 20 fresh fresh-IsPool (omega arith) (omega arith)
      (omega arith) (omega arith)

allocate-deallocate_example :
    (s' : Pool) × ((deallocate 4096 16 fresh >>= allocate heap 13) ≡ ok (4096, s'))
    × ((j : ℕ) → s'.free_list j ≡ fresh.free_list j)
    × ((a : ℕ) → a ≢ 4096 → s'.next a ≡ fresh.next a)
    × (s'.start_free ≡ fresh.start_free)
    × (s'.end_free ≡ fresh.end_free)
    × (s'.effects ≡ fresh.effects)
unfolding round_up add_size sub_size
allocate-deallocate_example =
    allocate-deallocate heap 4096 16 13 fresh (λ e. omega arith) (omega arith) (omega arith)
      (omega arith) (omega arith) refl

allocate_refills_example :
    (s₁ : Pool) × (r : ℕ × ℕ × Pool) × (s' : Pool) × (allocate heap 13 fresh ≡ ok (r.0, s'))
    × (r.0 ≢ 0)
    × Cut (round_up 13) 20 s₁ r
    × (s'.start_free ≡ r.2.start_free)
    × (s'.end_free ≡ r.2.end_free)
    × Stocked 13 r s'
allocate_refills_example =
    allocate_refills heap 13 (omega arith) (omega arith) fresh heap-Fits fresh-IsPool refl
      (λ e. refl) (λ e. omega arith)

-- A pool with one free block of 24 bytes.
abbrev one_free : Pool
one_free = record {
  free_list = put (λ i. 0) 2 4096;
  next = λ a. 0;
  start_free = 0;
  end_free = 0;
  heap_size = 0;
  calls = 0;
  effects = [];
}

reallocate_test :
    (s' : Pool) × (reallocate heap (λ call p size. 0) 5000 16 20 one_free ≡ ok (4096, s'))
    × (s'.effects ≡ copies 4096 5000 (min 20 16) ∷ [])
    × (s'.free_list 1 ≡ 5000)
    × (s'.next 5000 ≡ 0)
    × (s'.free_list 2 ≡ 0)
    × ((k : ℕ) → k ≢ 1 → k ≢ 2 → s'.free_list k ≡ one_free.free_list k)
unfolding round_up add_size sub_size
reallocate_test =
    reallocate_moves heap (λ call p size. 0) 5000 16 20 one_free (λ e. omega arith) (omega arith)
      (omega arith) (omega arith) (omega arith) (λ e. omega arith) (λ e. omega arith)
