-- ===== src/NginxPool.antt =====
-- nginx_memory_pool/memory_pool.h and memory_pool.cpp: a pool that carves small requests from its
-- blocks, keeps a list of large ones and runs clean-up handlers. An address is a number, `nullptr`
-- is 0, and `malloc` is a parameter that is given the number of the call.
pub mod Carving
pub mod Growing
pub mod Small
pub mod Apart
pub mod Large
mod Tests
use Prim.Native.Nat.{min, max}
use cpp_toy.Base.{
  ℕ, zero, suc, ◌-◌, ◌+◌, ◌*◌, ◌%◌, List, [], ◌∷◌, ◌++◌, Bool, true, false, Option, none, some, ltb,
  leb, ◌==◌, if◌then◌else◌, map, take, drop, add_size, sub_size, Outcome, ok, fail, null_pointer,
  ◌>>=◌,
}

abbrev pub max_alloc : ℕ
max_alloc = 4095

abbrev pub default_pool_size : ℕ
default_pool_size = 16384

abbrev pub alignment : ℕ
alignment = 16

-- The sizes of the structures on a 64-bit machine.
abbrev pub small_block_bytes : ℕ
small_block_bytes = 32

abbrev pub large_block_bytes : ℕ
large_block_bytes = 16

abbrev pub cleanup_block_bytes : ℕ
cleanup_block_bytes = 24

abbrev pub pool_bytes : ℕ
pool_bytes = 40

-- Each node carries its own address.
pub record SmallBlock : Type 0 where
  pub address : ℕ
  pub start : ℕ
  pub end : ℕ
  pub failed : ℕ

pub record LargeBlock : Type 0 where
  pub address : ℕ
  pub alloc : ℕ

pub record CleanupBlock : Type 0 where
  pub address : ℕ
  pub handler : ℕ
  pub data_ : ℕ

-- The calls that leave the pool.
pub data Effect : Type 0 where
  frees : ℕ → Effect
  handles : (handler data_ : ℕ) → Effect

-- The lists from `root_block_`, `large_` and `cleanup_`; `current` is the position of
-- `current_block_` in the first.
pub record Pool : Type 0 where
  pub blocks : List SmallBlock
  pub current : ℕ
  pub size : ℕ
  pub large : List LargeBlock
  pub cleanup : List CleanupBlock
  pub calls : ℕ
  pub effects : List Effect

-- `AlignSize` and `AlignPtr`: the mask clears the bits below an alignment, a power of 2.
unfoldable pub align_size : (size alignment : ℕ) → ℕ
align_size size a = let x = sub_size (add_size size a) 1 in x - x % a

abbrev pub min_pool_size : ℕ
unfolding align_size add_size sub_size
min_pool_size = align_size (pool_bytes + 2 * large_block_bytes) alignment

-- A block of `size` bytes at `m` with nothing in it.
unfoldable pub new_block : (m size : ℕ) → SmallBlock
new_block m size = record { address = m; start = m + small_block_bytes; end = m + size; failed = 0 }

unfoldable pub empty : (calls : ℕ) → Pool
empty calls = record {
  blocks = [];
  current = 0;
  size = 0;
  large = [];
  cleanup = [];
  calls = calls;
  effects = [];
}

-- The loop of `AllocateSmall` over the blocks from the current one.
unfoldable pub carve : (size : ℕ) → Bool → List SmallBlock → Option (ℕ × List SmallBlock)
carve size align [] = none
carve size align (b ∷ bs) =
    let m = if align then align_size b.start alignment else b.start in
    let rest = carve size align bs in
    if leb size (sub_size b.end m)
    then some (m, record b { start = m + size } ∷ bs)
    else elim rest [ some r ↦ some (r.0, b ∷ r.1) | none ↦ none ]

-- The loop of `AllocateSmallBlock` from the block at position `i`, the first of the list, with the
-- position of the current block.
unfoldable pub bump : (i : ℕ) → List SmallBlock → (current : ℕ) → List SmallBlock × ℕ
bump i [] current = ([], current)
bump i (b ∷ []) current =
    (record b { failed = b.failed + 1 } ∷ [], if ltb 4 (b.failed + 1) then suc i else current)
bump i (b ∷ c ∷ rest) current =
    let r = bump (suc i) (c ∷ rest) (if ltb 4 b.failed then suc i else current) in
    (record b { failed = b.failed + 1 } ∷ r.0, r.1)

-- The loop of `AllocateLarge`, which gives up after five nodes that are in use.
unfoldable pub reuse : (n p : ℕ) → List LargeBlock → Option (List LargeBlock)
reuse n p [] = none
reuse n p (l ∷ ls) =
    let rest = reuse (n + 1) p ls in
    if l.alloc == 0
    then some (record l { alloc = p } ∷ ls)
    else if ltb 3 n
    then none
    else elim rest [ some r ↦ some (l ∷ r) | none ↦ none ]

-- The end of `AllocateLarge`, which has asked for a node.
unfoldable pub link_large : (p node : ℕ) → Pool → ℕ × Pool
link_large p node s =
    if node == 0
    then (0, record s { effects = s.effects ++ frees p ∷ [] })
    else (p, record s { large = record { address = node; alloc = p } ∷ s.large })

module _ (malloc : (call size : ℕ) → ℕ) where
  unfoldable pub create : (calls size : ℕ) → Pool
  create calls size =
      let n = min (max size min_pool_size) default_pool_size in
      let memory = malloc calls n in
      if size == 0
      then empty calls
      else if memory == 0
      then empty (suc calls)
      else record (empty (suc calls)) { blocks = new_block memory n ∷ []; size = n }

  unfoldable pub allocate_small_block : ℕ → Pool → Outcome (ℕ × Pool)
  allocate_small_block size s =
      let memory = malloc s.calls s.size in
      let m = align_size (memory + small_block_bytes) alignment in
      let r = bump s.current (drop s.current s.blocks) s.current in
      if memory == 0
      then ok (0, record s { calls = suc s.calls })
      else ok (
        m,
        record s {
          blocks =
              take s.current s.blocks
              ++ (r.0 ++ record (new_block memory s.size) { start = m + size } ∷ []);
          current = r.1;
          calls = suc s.calls;
        },
      )

  -- From the current block on; without a block `current_block_` is null.
  unfoldable pub allocate_from :
      (size : ℕ) → (align : Bool) → List SmallBlock → Pool → Outcome (ℕ × Pool)
  allocate_from size align [] s = fail null_pointer
  allocate_from size align (b ∷ bs) s = elim (carve size align (b ∷ bs)) [
    | some r ↦ ok (r.0, record s { blocks = take s.current s.blocks ++ r.1 })
    | none ↦ allocate_small_block size s
  ]

  unfoldable pub allocate_small : (size : ℕ) → (align : Bool) → Pool → Outcome (ℕ × Pool)
  allocate_small size align s = allocate_from size align (drop s.current s.blocks) s

  unfoldable pub allocate_large : ℕ → Pool → Outcome (ℕ × Pool)
  allocate_large size s =
      let p = malloc s.calls size in
      let asked : Pool = record s { calls = suc s.calls } in
      if p == 0 then ok (0, asked) else elim (reuse 0 p s.large) [
        | some large ↦ ok (p, record asked { large = large })
        | none ↦ allocate_small large_block_bytes true asked >>= λ r. ok (link_large p r.0 r.1)
      ]

  unfoldable pub allocate : ℕ → Pool → Outcome (ℕ × Pool)
  allocate size s = if leb size max_alloc then allocate_small size true s else allocate_large size s

  -- The client sets the handler of the block that it gets.
  unfoldable pub add_cleanup : ℕ → Pool → Outcome (ℕ × Pool)
  add_cleanup size s = do
    r ← allocate_small cleanup_block_bytes true s
    let c : ℕ = r.0
    let s : Pool = r.1
    if c == 0 then ok (0, s) else (do
      d ← (if size == 0 then ok (0, s) else allocate size s)
      let data_ : ℕ = d.0
      let s : Pool = d.1
      let linked : Pool = record s {
        cleanup = record { address = c; handler = 0; data_ = data_ } ∷ s.cleanup;
      }
      if size == 0 then ok (c, linked) else if data_ == 0 then ok (0, s) else ok (c, linked))

abbrev pub handled : List CleanupBlock → List Effect
handled [] = []
handled (c ∷ cs) = if c.handler == 0 then handled cs else handles c.handler c.data_ ∷ handled cs

abbrev pub freed : List LargeBlock → List Effect
freed [] = []
freed (l ∷ ls) = if l.alloc == 0 then freed ls else frees l.alloc ∷ freed ls

-- The nodes of `p` are freed, and the others are left.
abbrev pub freed_at : ℕ → List LargeBlock → List Effect
freed_at p [] = []
freed_at p (l ∷ ls) = if p == l.alloc then frees l.alloc ∷ freed_at p ls else freed_at p ls

abbrev pub cleared_at : ℕ → List LargeBlock → List LargeBlock
cleared_at p [] = []
cleared_at p (l ∷ ls) = (if p == l.alloc then record l { alloc = 0 } else l) ∷ cleared_at p ls

unfoldable pub large_free : ℕ → Pool → Pool
large_free p s = record s {
  large = cleared_at p s.large;
  effects = s.effects ++ freed_at p s.large;
}

abbrev pub rewound : SmallBlock → SmallBlock
rewound b = record b { start = b.address + small_block_bytes; failed = 0 }

unfoldable pub reset : Pool → Pool
reset s = record s {
  blocks = map rewound s.blocks;
  current = 0;
  large = [];
  cleanup = [];
  effects = s.effects ++ (handled s.cleanup ++ freed s.large);
}

abbrev pub freed_blocks : List SmallBlock → List Effect
freed_blocks [] = []
freed_blocks (b ∷ bs) = frees b.address ∷ freed_blocks bs

-- `DestoryPool`, which is also the destructor.
unfoldable pub destroy_pool : Pool → Pool
destroy_pool s = record s {
  blocks = [];
  current = 0;
  large = [];
  cleanup = [];
  effects = s.effects ++ (handled s.cleanup ++ (freed s.large ++ freed_blocks s.blocks));
}
