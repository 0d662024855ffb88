-- ===== src/SgiPool/Owned/Tests.antt =====
-- A run over a `malloc` that gives a thousand blocks, each in 2 ^ 48 bytes of its own.
use cpp_toy.Base.{
  ℕ, suc, ◌+◌, ◌*◌, ◌^◌, ◌≤◌, ◌<◌, ◌≡◌, ◌≢◌, refl, List, [], ◌∷◌, arith, put, ltb, if◌then◌else◌,
  Outcome, ok, fail, add_size, sub_size, mul_size,
}
use cpp_toy.SgiPool.{
  Pool, fresh, round_up, freelist_index, list_of, take_chunk, donate_left, bytes_to_get, got_memory,
  call_malloc, new_range, more_memory, alloc_chunk, refill, allocate,
}
use cpp_toy.SgiPool.Chains.{Chain}
use cpp_toy.SgiPool.Owned.{within, total, range, IsMalloc, NotTwice}
use cpp_toy.SgiPool.Owned.Runs.{Run, begins, allocates, one_owner, served_apart}

abbrev arena : (call size : ℕ) → ℕ
arena call size = if ltb call 1000 then suc call * 2 ^ 48 else 0

arena-IsMalloc : IsMalloc arena
arena-IsMalloc = record { room = λ c n h. ground arith; apart = λ c d m n a ne hm hn. ground arith }

arena-NotTwice : (c : ℕ) → c < 999 → NotTwice arena c
arena-NotTwice c h n e = ground arith

abbrev pool_of : Outcome (ℕ × Pool) → Pool
pool_of (ok r) = r.1
pool_of (fail e) = fresh

abbrev block_of : Outcome (ℕ × Pool) → ℕ
block_of (ok r) = r.0
block_of (fail e) = 0

-- A request of 20 bytes is served from a list of blocks of 24 bytes.
abbrev taken : Pool
taken = pool_of (allocate arena 20 fresh)

abbrev block : ℕ
block = block_of (allocate arena 20 fresh)

abbrev held : ℕ → List ℕ
held = put (λ i. []) 2 (block ∷ [])

taken-Run : Run arena taken held
unfolding allocate refill alloc_chunk more_memory new_range donate_left take_chunk list_of
    got_memory call_malloc bytes_to_get round_up freelist_index add_size sub_size mul_size
taken-Run =
    allocates 20 block begins (omega arith) (arena-NotTwice 0 (omega arith)) (omega arith)
      (omega arith) refl

one_owner_example :
    (listed : ℕ → List ℕ) × ((j : ℕ) → j < 16 → Chain taken.next (taken.free_list j) (listed j))
    × ((a : ℕ) → total listed 16 a + total held 16 a + range taken a ≤ 1)
one_owner_example = one_owner arena-IsMalloc taken-Run

served_apart_example :
    (p : ℕ) × (s' : Pool) × (allocate arena 24 taken ≡ ok (p, s'))
    × (p ≢ 0)
    × (within p (round_up 24) block + total held 16 block ≤ 1)
unfolding allocate refill alloc_chunk more_memory new_range donate_left take_chunk list_of
    got_memory call_malloc bytes_to_get round_up freelist_index add_size sub_size mul_size
served_apart_example =
    served_apart arena-IsMalloc 24 block taken-Run (omega arith) (arena-NotTwice 1 (omega arith))
      (omega arith) (omega arith)
