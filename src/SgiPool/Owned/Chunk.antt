-- ===== src/SgiPool/Owned/Chunk.antt =====
-- The blocks that `AllocChunk` cuts off, with the owners of all bytes.
use cpp_toy.Base.{
  ℕ, zero, suc, ◌-◌, ◌+◌, ◌*◌, ◌%◌, ◌^◌, ◌≤◌, ◌<◌, ◌≡◌, refl, sym, ◌∙◌, subst, List, [], arith,
  size_mod, add_size, mul_size, sub_size, mul_size_exact, ok, ◌>>=◌, Option, some, none,
}
use cpp_toy.SgiPool.{
  Pool, max_bytes, round_up, bytes_to_get, new_range, more_memory, alloc_chunk, chunk_fuel,
}
use native.Mathlib.Nat.{mul-suc}
use cpp_toy.SgiPool.Chunks.{IsRange, Cut, Taken, cut, too_small, take_chunk-Taken}
use cpp_toy.SgiPool.Ranges.{size_le}
use cpp_toy.SgiPool.Owned.{within, size_of, Holds, range, IsMalloc, IsFresh, NotTwice, Owned}
use cpp_toy.SgiPool.Owned.Blocks.{weaken}
use cpp_toy.SgiPool.Owned.Search.{NewRange, donate-Holds}
use cpp_toy.SgiPool.Owned.Memory.{new_range-Owned}

-- `r.1` blocks from `r.0` on are cut off and have no owner yet.
pub record Chunk (malloc : (call size : ℕ) → ℕ) (listed lent : ℕ → List ℕ) (size nobjs : ℕ)
    (r : ℕ × ℕ × Pool) : Type 0 where
  pub heap : ℕ → ℕ
  pub listed' : ℕ → List ℕ
  pub holds :
      Holds heap listed' lent (λ a. range r.2 a + within r.0 (size * r.1) a) r.2.next r.2.free_list
  pub some_ : 1 ≤ r.1
  pub few : r.1 ≤ nobjs
  pub order : r.2.start_free ≤ r.2.end_free
  pub whole : (r.2.end_free - r.2.start_free) % 8 ≡ 0
  pub fits : r.2.end_free + max_bytes < size_mod
  pub unused : IsFresh malloc r.2.calls heap
  pub still_empty : (j : ℕ) → size ≤ size_of j → listed j ≡ [] → listed' j ≡ []

bytes_to_get_words :
    (total : ℕ) (s : Pool)
    → s.heap_size < 2 ^ 47
    → total ≤ 4096
    → total % 8 ≡ 0
    → (bytes_to_get total s % 8 ≡ 0)
      × (bytes_to_get total s < 2 ^ 48)
      × (total ≤ bytes_to_get total s)
unfolding bytes_to_get add_size mul_size round_up sub_size
bytes_to_get_words total s h small words = (omega arith, omega arith, omega arith)

words_mul : (size k : ℕ) → size % 8 ≡ 0 → (size * k) % 8 ≡ 0
words_mul size zero h = omega arith
words_mul size (suc k) h = omega (arith, words_mul size k h, mul-suc size k)

-- What a range of free bytes loses at its start.
cut_range :
    (p q e m start end a : ℕ)
    → p ≡ start
    → q ≡ p + m
    → e ≡ end
    → q ≤ e
    → within q (e - q) a + within p m a ≤ within start (end - start) a
cut_range p q e m start end a ps qs es le = ground arith

module _ {malloc : (call size : ℕ) → ℕ} (real : IsMalloc malloc) {lent : ℕ → List ℕ} where
  more_memory-Owned :
      {heap : ℕ → ℕ} {listed : ℕ → List ℕ} (size total : ℕ) (s : Pool)
      → Owned malloc heap listed lent s
      → s.heap_size < 2 ^ 47
      → NotTwice malloc s.calls
      → 1 ≤ size
      → size ≤ max_bytes
      → size % 8 ≡ 0
      → size ≤ total
      → total ≤ 4096
      → total % 8 ≡ 0
      → s.end_free - s.start_free < size
      → (s' : Pool) × (more_memory malloc size total s ≡ ok s')
        × NewRange malloc listed lent size s'
  unfolding more_memory
  more_memory-Owned {heap} {listed} size total s h room second low high words le small total_words
        little =
      let (d, e, heaps, calls, listed', h', same) = donate-Holds s h (omega arith) in
      rw e (after d heaps calls listed' h' same)
    where
      after :
          (d : Pool)
          → d.heap_size ≡ s.heap_size
          → d.calls ≡ s.calls
          → (listed' : ℕ → List ℕ) → Holds heap listed' lent (λ a. 0) d.next d.free_list
          → ((j : ℕ) → s.end_free - s.start_free < size_of j → listed' j ≡ listed j)
          → (s' : Pool) × (new_range malloc size (bytes_to_get total d) d ≡ ok s')
            × NewRange malloc listed lent size s'
      after d heaps calls listed' h' same =
          let bytes = bytes_to_get_words total d (omega arith) small total_words in
          let (s', f, r) =
            new_range-Owned real d h' (λ c k a later fit. h.unused c k a (omega arith) fit)
              (subst (NotTwice malloc) (sym calls) second) (bytes_to_get total d) bytes.0 bytes.1
              size (omega (arith, bytes.2)) low words in
          (
            s',
            f,
            record {
              heap = r.heap;
              listed' = r.listed';
              owned = r.owned;
              has_room = r.has_room;
              still_empty = λ j big e. r.still_empty j big (same j (omega arith) ∙ e);
            },
          )

  Cut-Chunk :
      {heap : ℕ → ℕ} {listed listed₀ : ℕ → List ℕ} (size nobjs : ℕ) (s : Pool) (r : ℕ × ℕ × Pool)
      → Owned malloc heap listed lent s
      → size % 8 ≡ 0
      → ((j : ℕ) → size ≤ size_of j → listed₀ j ≡ [] → listed j ≡ [])
      → Cut size nobjs s r
      → Chunk malloc listed₀ lent size nobjs r
  unfolding Cut IsRange
  Cut-Chunk {heap} {listed} size nobjs s r h words still c = record {
    heap = heap;
    listed' = listed;
    holds =
        weaken (λ a. range r.2 a + within r.0 (size * r.1) a)
          (subst (λ f. Holds heap listed lent (range s) f r.2.free_list) (sym c.7)
            (subst (λ f. Holds heap listed lent (range s) s.next f) (sym c.6) h.holds))
          (λ a.
            cut_range r.0 r.2.start_free r.2.end_free (size * r.1) s.start_free s.end_free a c.2 c.3
              c.4 c.5.0);
    some_ = c.0;
    few = c.1;
    order = c.5.0;
    whole = omega (arith, h.whole, c.2, c.3, c.4, c.5.0, words_mul size r.1 words);
    fits = omega (arith, h.fits, c.4);
    unused = λ d n a later fit. h.unused d n a (omega (arith, c.8)) fit;
    still_empty = still;
  }

  module _ (size nobjs : ℕ) (s : Pool) (low : 1 ≤ size) (some_ : 1 ≤ nobjs) (words : size % 8 ≡ 0)
      (small : size * nobjs ≤ 4096) where
    served_again :
        {listed₀ : ℕ → List ℕ}
        → NewRange malloc listed₀ lent size s
        → (r : ℕ × ℕ × Pool) × (alloc_chunk malloc 1 size nobjs s ≡ ok r)
          × Chunk malloc listed₀ lent size nobjs r
    unfolding alloc_chunk IsRange
    served_again {listed₀} n = go _ (
        take_chunk-Taken size nobjs s (n.owned.order, omega (arith, n.owned.fits)) low some_
          (omega arith))
      where
        go :
            (o : Option (ℕ × ℕ × Pool))
            → Taken size nobjs s o
            → (r : ℕ × ℕ × Pool) × ((elim o [
              | some r ↦ ok r
              | none ↦
                  more_memory malloc size (mul_size size nobjs) s
                  >>= alloc_chunk malloc 0 size nobjs
            ])
                ≡ ok r)
              × Chunk malloc listed₀ lent size nobjs r
        go _ (cut r c) = (r, refl, Cut-Chunk size nobjs s r n.owned words n.still_empty c)
        go _ (too_small t) = absurd (omega (arith, n.has_room))

  pub alloc_chunk-Chunk :
      {heap : ℕ → ℕ} {listed : ℕ → List ℕ} (size nobjs : ℕ) (s : Pool)
      → Owned malloc heap listed lent s
      → s.heap_size < 2 ^ 47
      → NotTwice malloc s.calls
      → 1 ≤ size
      → size ≤ max_bytes
      → size % 8 ≡ 0
      → 1 ≤ nobjs
      → size * nobjs ≤ 4096
      → (r : ℕ × ℕ × Pool) × (alloc_chunk malloc chunk_fuel size nobjs s ≡ ok r)
        × Chunk malloc listed lent size nobjs r
  unfolding alloc_chunk IsRange
  alloc_chunk-Chunk {heap} {listed} size nobjs s h room second low high words some_ small =
      go _ (take_chunk-Taken size nobjs s (h.order, omega (arith, h.fits)) low some_ (omega arith))
    where
      go :
          (o : Option (ℕ × ℕ × Pool))
          → Taken size nobjs s o
          → (r : ℕ × ℕ × Pool) × ((elim o [
            | some r ↦ ok r
            | none ↦
                more_memory malloc size (mul_size size nobjs) s >>= alloc_chunk malloc 1 size nobjs
          ])
              ≡ ok r)
            × Chunk malloc listed lent size nobjs r
      go _ (cut r c) = (r, refl, Cut-Chunk size nobjs s r h words (λ j _ e. e) c)
      go _ (too_small t) =
          let (s', e, n) =
            more_memory-Owned size (size * nobjs) s h room second low high words
              (size_le size nobjs some_) small (words_mul size nobjs words) t in
          let (r, f, c) = served_again size nobjs s' low some_ words small n in
          (r, rw (mul_size_exact size nobjs (omega arith), e) f, c)
