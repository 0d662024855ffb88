-- ===== src/SgiPool.antt =====
-- sgi_memory_pool/memory_pool.h and memory_pool.cpp: the allocator with sixteen free lists of blocks
-- of 8, 16, ..., 128 bytes. An address is a number and `nullptr` is 0; `next` is the first word of
-- the block at an address, which links the free ones. `malloc` and `realloc` are parameters: they
-- are given the number of the call. The lock makes each call one step.
pub mod Sizes
pub mod Chains
pub mod Chunks
pub mod Ranges
pub mod Blocks
pub mod Lists
pub mod Moves
pub mod Owned
mod Tests
use cpp_toy.Base.{
  ℕ, zero, suc, ◌-◌, ◌+◌, ◌/◌, ◌%◌, ◌^◌, List, [], ◌∷◌, ◌++◌, Bool, ◌&&◌, ◌||◌, Option, none, some,
  put, ltb, leb, ◌==◌, if◌then◌else◌, add_size, sub_size, mul_size, Outcome, ok, fail, ◌>>=◌,
  out_of_range, null_pointer, no_fuel,
}
use Prim.Native.Nat.{min}

abbrev pub align : ℕ
align = 8

abbrev pub max_bytes : ℕ
max_bytes = 128

abbrev pub free_lists : ℕ
free_lists = max_bytes / align

-- The calls that leave the pool.
pub data Effect : Type 0 where
  frees : ℕ → Effect
  copies : (dest source n : ℕ) → Effect

-- `calls` counts the calls of `malloc` and `realloc`.
pub record Pool : Type 0 where
  pub free_list : ℕ → ℕ
  pub next : ℕ → ℕ
  pub start_free : ℕ
  pub end_free : ℕ
  pub heap_size : ℕ
  pub calls : ℕ
  pub effects : List Effect

abbrev pub fresh : Pool
fresh = record {
  free_list = λ i. 0;
  next = λ a. 0;
  start_free = 0;
  end_free = 0;
  heap_size = 0;
  calls = 0;
  effects = [];
}

-- `x & ~(kAlign - 1)` clears the three lowest bits.
unfoldable pub round_up : ℕ → ℕ
round_up bytes = let x = sub_size (add_size bytes align) 1 in x - x % align

unfoldable pub freelist_index : ℕ → ℕ
freelist_index bytes = sub_size (sub_size (add_size bytes align) 1 / align) 1

-- `free_list_ + FreelistIndex(bytes)`, which has to be inside the array.
unfoldable pub list_of : ℕ → Outcome ℕ
list_of bytes =
    if ltb (freelist_index bytes) free_lists then ok (freelist_index bytes) else fail out_of_range

unfoldable pub push_free : ℕ → ℕ → Pool → Pool
push_free i p s = record s { next = put s.next p (s.free_list i); free_list = put s.free_list i p }

unfoldable pub pop_free : ℕ → Pool → Pool
pop_free i s = record s { free_list = put s.free_list i (s.next (s.free_list i)) }

-- The two ways of `AllocChunk` to serve a request from what is left.
unfoldable pub take_chunk : ℕ → ℕ → Pool → Option (ℕ × ℕ × Pool)
take_chunk size nobjs s =
    let bytes_left = sub_size s.end_free s.start_free in
    let total_bytes = mul_size size nobjs in
    if leb total_bytes bytes_left
    then some (s.start_free, nobjs, record s { start_free = s.start_free + total_bytes })
    else if leb size bytes_left
    then some (
      s.start_free,
      bytes_left / size,
      record s { start_free = s.start_free + mul_size size (bytes_left / size) },
    )
    else none

-- The rest, too small for the request, goes to the list of its size.
unfoldable pub donate_left : Pool → Outcome Pool
donate_left s =
    let bytes_left = sub_size s.end_free s.start_free in
    if ltb 0 bytes_left then (do i ← list_of bytes_left; ok (push_free i s.start_free s)) else ok s

-- The loop over the lists of `i` bytes and more, when `malloc` has failed.
unfoldable pub find_node : (fuel : ℕ) → ℕ → Pool → Outcome (Option Pool)
find_node zero i s = fail no_fuel
find_node (suc fuel) i s =
    let rest = find_node fuel (i + align) s in
    if leb i max_bytes
    then (do
      j ← list_of i
      if s.free_list j == 0
          then rest
          else ok (
              some (record (pop_free j s) {
                start_free = s.free_list j;
                end_free = s.free_list j + i;
              })))
    else ok none

-- Sixteen rounds and the last test.
abbrev pub search_fuel : ℕ
search_fuel = 17

-- `AllocChunk` and its call of itself, which is served at once.
abbrev pub chunk_fuel : ℕ
chunk_fuel = 2

-- The loop of `Refill` and the null behind it: `count` more nodes behind `current_obj`.
unfoldable pub link : (count : ℕ) → ℕ → ℕ → (ℕ → ℕ) → ℕ → ℕ
link zero n current_obj next = put next current_obj 0
link (suc count) n current_obj next =
    link count n (current_obj + n) (put next current_obj (current_obj + n))

unfoldable pub bytes_to_get : (total_bytes : ℕ) → Pool → ℕ
bytes_to_get total_bytes s = add_size (mul_size 2 total_bytes) (round_up (s.heap_size / 2 ^ 4))

module _ (malloc : (call size : ℕ) → ℕ) where
  unfoldable pub got_memory : ℕ → Pool → Pool
  got_memory bytes s = record s {
    heap_size = add_size s.heap_size bytes;
    end_free = s.start_free + bytes;
  }

  unfoldable pub call_malloc : ℕ → Pool → Pool
  call_malloc bytes s = record s { start_free = malloc s.calls bytes; calls = suc s.calls }

  unfoldable pub after_search : (bytes_to_get : ℕ) → Pool → Option Pool → Pool
  after_search bytes_to_get s (some found) = found
  after_search bytes_to_get s none =
      got_memory bytes_to_get (call_malloc bytes_to_get (record s { end_free = 0 }))

  -- The new range: from `malloc`, from a longer list when that fails, or from a second try.
  unfoldable pub new_range : ℕ → (bytes_to_get : ℕ) → Pool → Outcome Pool
  new_range size bytes_to_get s =
      let asked = call_malloc bytes_to_get s in
      if asked.start_free == 0
      then (do found ← find_node search_fuel size asked; ok (after_search bytes_to_get asked found))
      else ok (got_memory bytes_to_get asked)

  -- What `AllocChunk` does before it calls itself.
  unfoldable pub more_memory : ℕ → (total_bytes : ℕ) → Pool → Outcome Pool
  more_memory size total_bytes s =
      donate_left s >>= λ s'. new_range size (bytes_to_get total_bytes s') s'

  unfoldable pub alloc_chunk : (fuel : ℕ) → ℕ → ℕ → Pool → Outcome (ℕ × ℕ × Pool)
  alloc_chunk zero size nobjs s = fail no_fuel
  alloc_chunk (suc fuel) size nobjs s = elim (take_chunk size nobjs s) [
    | some r ↦ ok r
    | none ↦ more_memory size (mul_size size nobjs) s >>= alloc_chunk fuel size nobjs
  ]

  -- Behind a null chunk there is no block to write to.
  unfoldable pub refill : ℕ → Pool → Outcome (ℕ × Pool)
  refill n s = do
    r ← alloc_chunk chunk_fuel n 20 s
    let chunk : ℕ = r.0
    let nobjs : ℕ = r.1
    let s : Pool = r.2
    if nobjs == 1 then ok (chunk, s) else if chunk == 0 then fail null_pointer else (do
      i ← list_of n
      ok (
        chunk,
        record s {
          free_list = put s.free_list i (chunk + n);
          next = link (nobjs - 2) n (chunk + n) s.next;
        },
      ))

  unfoldable pub allocate : ℕ → Pool → Outcome (ℕ × Pool)
  allocate n s =
      if ltb max_bytes n then ok (malloc s.calls n, record s { calls = suc s.calls }) else (do
        i ← list_of n
        if s.free_list i == 0 then refill (round_up n) s else ok (s.free_list i, pop_free i s))

unfoldable pub deallocate : ℕ → ℕ → Pool → Outcome Pool
deallocate p n s =
    if (p == 0) || (n == 0)
    then ok s
    else if ltb max_bytes n
    then ok (record s { effects = s.effects ++ frees p ∷ [] })
    else (do i ← list_of n; ok (push_free i p s))

module _ (malloc : (call size : ℕ) → ℕ) (realloc : (call p size : ℕ) → ℕ) where
  unfoldable pub reallocate : ℕ → (old_size new_size : ℕ) → Pool → Outcome (ℕ × Pool)
  reallocate p old_size new_size s =
      if ltb max_bytes old_size && ltb max_bytes new_size
      then ok (realloc s.calls p new_size, record s { calls = suc s.calls })
      else if round_up old_size == round_up new_size
      then ok (p, s)
      else (do
        r ← allocate malloc new_size s
        let result : ℕ = r.0
        let s : Pool = r.1
        if result == 0 then ok (0, s) else (do
          s ←
              deallocate p old_size
                (record s { effects = s.effects ++ copies result p (min new_size old_size) ∷ [] })
          ok (result, s)))
