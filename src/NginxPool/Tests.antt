-- ===== src/NginxPool/Tests.antt =====
-- The pool's theorems at a pool of 8192 bytes, and pools that hand out bytes outside their blocks.
use cpp_toy.Base.{
  once, zero, suc, List, map, ◌≤◌, ◌==◌, if◌then◌else◌, gives, ℕ, ◌+◌, ◌≡◌, ◌≢◌, ◌⊎◌, refl, [], ◌∷◌,
  arith, true, some, add_size, sub_size, ok, fail, null_pointer,
}
use cpp_toy.NginxPool.{
  Pool, empty, align_size, min_pool_size, new_block, create, carve, bump, allocate_small_block,
  allocate_from, allocate_small, allocate_large, allocate, large_free, reset,
}
use cpp_toy.NginxPool.Growing.{place, IsPool, Fits, Keeps}
use cpp_toy.NginxPool.Small.{Served, allocate_small-Served}
use cpp_toy.NginxPool.Apart.{
  Request, requested, used, given, sizes, allocate_all, allocate_all-apart,
}
use cpp_toy.NginxPool.Large.{held, releases, total, large_free-reset, allocate_large-total}

abbrev heap : (call size : ℕ) → ℕ
heap call size = 65536

heap-Fits : Fits heap
unfolding Fits
heap-Fits call size h = (omega arith, omega arith)

abbrev pool : Pool
pool = record {
  blocks = record { address = 4096; start = 4128; end = 12288; failed = 0 } ∷ [];
  current = 0;
  size = 8192;
  large = record { address = 4112; alloc = 9 } ∷ [];
  cleanup = [];
  calls = 1;
  effects = [];
}

pool-IsPool : IsPool pool
pool-IsPool = record {
  are_blocks = (
    record { aligned_end = omega arith; low = omega arith; high = omega arith; fits = omega arith },
    tt,
  );
  has_current = omega arith;
  aligned_size = omega arith;
  roomy = omega arith;
}

-- A pool of 100 bytes at 4096: from 4194 on, the aligned address 4208 is behind the end 4196, and
-- the room that is left wraps.
create_ragged :
    carve 16 true (record { address = 4096; start = 4194; end = 4196; failed = 0 } ∷ [])
    ≡ some (4208, record { address = 4096; start = 4224; end = 4196; failed = 0 } ∷ [])
unfolding carve align_size add_size sub_size
create_ragged = refl

-- The same pool asked for 4000 bytes: the new block has 100.
outgrown :
    allocate_small_block heap 4000 (create heap 0 100)
    ≡ ok (
      65568,
      record (create heap 0 100) {
        blocks =
            record { address = 65536; start = 65568; end = 65636; failed = 1 }
            ∷ record { address = 65536; start = 69568; end = 65636; failed = 0 }
            ∷ [];
        calls = 2;
      },
    )
unfolding allocate_small_block create new_block bump empty align_size min_pool_size add_size
    sub_size
outgrown = refl

-- A pool that got no memory has no current block.
no_block : allocate (λ call size. 0) 8 (create (λ call size. 0) 0 8192) ≡ fail null_pointer
unfolding allocate allocate_small allocate_from create empty
no_block = refl

allocate_small-Served_example :
    (m : ℕ) × (s' : Pool) × (allocate_small heap 100 true pool ≡ ok (m, s'))
    × IsPool s'
    × Keeps pool s'
    × Served heap 100 m pool s'
allocate_small-Served_example =
    allocate_small-Served heap heap-Fits 100 pool pool-IsPool (omega arith) (omega arith)

large_free-reset_example :
    (total 7 (large_free 9 pool) ≡ total 7 pool)
    × (held 9 (large_free 9 pool).large ≡ 0)
    × (◌≢◌ {A = ℕ} 7 9 → held 7 (large_free 9 pool).large ≡ held 7 pool.large)
    × (releases 7 (reset pool).effects ≡ total 7 pool)
    × (held 7 (reset pool).large ≡ 0)
large_free-reset_example = large_free-reset 9 7 pool (λ e. omega arith) (λ e. omega arith)

allocate_large-total_example :
    (p : ℕ) × (s' : Pool) × (allocate_large heap 5000 pool ≡ ok (p, s'))
    × IsPool s'
    × (total 65536 s' ≡ total 65536 pool + once (heap pool.calls 5000) 65536)
    × ((p ≡ heap pool.calls 5000) × (held 65536 s'.large ≡ held 65536 pool.large + once p 65536)
        ⊎ (p ≡ 0) × (heap 2 8192 ≡ 0) × (held 65536 s'.large ≡ held 65536 pool.large))
allocate_large-total_example =
    allocate_large-total heap heap-Fits 5000 65536 pool pool-IsPool (omega arith) (λ e. omega arith)

-- The first two calls give a block, and the later ones nothing.
abbrev two_blocks : (call size : ℕ) → ℕ
two_blocks call size = if call == 0 then 4096 else if call == 1 then 65536 else 0

two_blocks-Fits : Fits two_blocks
unfolding Fits
two_blocks-Fits call size h = (ground arith, ground arith)

given_by_two :
    (n a : ℕ) → given two_blocks 8192 (suc (suc n)) a ≡ gives 4096 8192 a + gives 65536 8192 a
given_by_two zero a = omega arith
given_by_two (suc n) a = ground (arith, given_by_two n a)

two_blocks_apart : (calls a : ℕ) → given two_blocks 8192 calls a ≤ 1
two_blocks_apart zero a = omega arith
two_blocks_apart (suc zero) a = ground arith
two_blocks_apart (suc (suc n)) a = ground (arith, given_by_two n a)

allocate_all-apart_example :
    (rs : List Request) × (s' : Pool) × (allocate_all two_blocks (4000 ∷ 4000 ∷ 4000 ∷ []) pool
      ≡ ok (rs, s'))
    × (sizes rs ≡ 4000 ∷ 4000 ∷ 4000 ∷ [])
    × IsPool s'
    × ((a : ℕ) → used a (map place pool.blocks) + requested a rs ≤ 1)
allocate_all-apart_example =
    allocate_all-apart two_blocks two_blocks-Fits (4000 ∷ 4000 ∷ 4000 ∷ []) pool
      (omega arith, (omega arith, (omega arith, tt))) pool-IsPool (omega arith) (λ a. ground arith)
      two_blocks_apart
