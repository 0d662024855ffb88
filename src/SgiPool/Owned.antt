-- ===== src/SgiPool/Owned.antt =====
-- Who owns the bytes that the pool got from `malloc`: the free lists, the clients, or the range that
-- is not handed out yet. `listed` and `lent` give the blocks of each of the sixteen sizes, in the
-- lists and with the clients; a block is known by its address.
pub mod Bytes
pub mod Blocks
pub mod Search
pub mod Memory
pub mod Chunk
pub mod Serving
pub mod Runs
mod Tests
use cpp_toy.Base.{
  ℕ, zero, suc, ◌-◌, ◌+◌, ◌*◌, ◌%◌, ◌^◌, ◌≤◌, ◌<◌, ◌≡◌, ◌≢◌, List, [], ◌∷◌, ◌&&◌, ltb, leb, ◌==◌,
  if◌then◌else◌, size_mod,
}
pub use cpp_toy.Base.{within, gives}
use cpp_toy.SgiPool.{Pool, max_bytes}
use cpp_toy.SgiPool.Chains.{Chain}

-- In how many of the blocks of `n` bytes a byte is.
abbrev pub covers : (n : ℕ) → List ℕ → (a : ℕ) → ℕ
covers n [] a = 0
covers n (x ∷ xs) a = within x n a + covers n xs a

abbrev pub size_of : ℕ → ℕ
size_of j = 8 * suc j

-- The same over the first `k` sizes.
abbrev pub total : (ℕ → List ℕ) → (k : ℕ) → (a : ℕ) → ℕ
total blocks zero a = 0
total blocks (suc k) a = total blocks k a + covers (size_of k) (blocks k) a

-- No memory reaches into the last addresses.
abbrev pub margin : ℕ
margin = 2 * max_bytes

-- The lists hold the blocks `listed`; no byte is twice in these, in those of the clients and in what
-- `extra` counts; all are in the heap, which has none at the ends of the addresses.
pub record Holds (heap : ℕ → ℕ) (listed lent : ℕ → List ℕ) (extra next free_list : ℕ → ℕ)
    : Type 0 where
  pub chains : (j : ℕ) → j < 16 → Chain next (free_list j) (listed j)
  pub no_more : (j : ℕ) → 16 ≤ j → free_list j ≡ 0
  pub once : (a : ℕ) → total listed 16 a + total lent 16 a + extra a ≤ heap a
  pub single : (a : ℕ) → heap a ≤ 1
  pub no_null : heap 0 ≡ 0
  pub ends : (a : ℕ) → size_mod ≤ a + margin → heap a ≡ 0

abbrev pub range : Pool → ℕ → ℕ
range s = within s.start_free (s.end_free - s.start_free)

-- What is asked of `malloc`: a block that it gives ends before the last addresses and shares no byte
-- with another one. (The pool never frees what it got.)
pub record IsMalloc (malloc : (call size : ℕ) → ℕ) : Type 0 where
  pub room : (c n : ℕ) → n < 2 ^ 48 → malloc c n + n + margin < size_mod
  pub apart :
      (c d m n a : ℕ)
      → c ≢ d
      → m < 2 ^ 48
      → n < 2 ^ 48
      → gives (malloc c m) m a + gives (malloc d n) n a ≤ 1

-- It does not refuse this call and the next one for the same size.
abbrev pub NotTwice : (malloc : (call size : ℕ) → ℕ) → (call : ℕ) → Type 0
NotTwice malloc c = (n : ℕ) → malloc c n ≡ 0 → malloc (suc c) n ≢ 0

-- What `malloc` gives from this call on shares no byte with the heap.
abbrev pub IsFresh : (malloc : (call size : ℕ) → ℕ) (calls : ℕ) (heap : ℕ → ℕ) → Type 0
IsFresh malloc calls heap =
    (c n a : ℕ) → calls ≤ c → n < 2 ^ 48 → heap a + gives (malloc c n) n a ≤ 1

abbrev pub nothing : ℕ → ℕ
nothing a = 0

-- The range has whole words, and all bytes have one owner at most.
pub record Owned (malloc : (call size : ℕ) → ℕ) (heap : ℕ → ℕ) (listed lent : ℕ → List ℕ) (s : Pool)
    : Type 0 where
  pub holds : Holds heap listed lent (range s) s.next s.free_list
  pub order : s.start_free ≤ s.end_free
  pub whole : (s.end_free - s.start_free) % 8 ≡ 0
  pub fits : s.end_free + max_bytes < size_mod
  pub unused : IsFresh malloc s.calls heap
