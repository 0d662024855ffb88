-- ===== src/SgiPool/Blocks.antt =====
-- Where `AllocChunk` gets more memory, and its call of itself.
use cpp_toy.Base.{
  ℕ, suc, ◌-◌, ◌*◌, ◌^◌, ◌≤◌, ◌<◌, ◌≡◌, refl, sym, ◌∙◌, inl, inr, ◌⊎◌, Option, none, some,
  Bool-cases, arith, ◌==◌, ==_iff, false≢true, mul_size, mul_size_exact, Outcome, ok, ◌>>=◌,
}
use cpp_toy.SgiPool.{
  Pool, max_bytes, find_node, donate_left, got_memory, call_malloc, bytes_to_get, after_search,
  new_range, more_memory, alloc_chunk, search_fuel, chunk_fuel,
}
use cpp_toy.SgiPool.Chunks.{IsRange, Cut, Taken, cut, too_small, take_chunk-Taken}
use cpp_toy.SgiPool.Ranges.{
  HasRoom, ListsFit, Found, find_node-Found, Fits, IsPool, bytes_to_get_bounds, bytes_to_get_same,
  donate_left_lem, size_le, found, absent,
}

module _ (malloc : (call size : ℕ) → ℕ) (fits : Fits malloc) where
  -- A range that starts at null comes from two refusals.
  abbrev pub NullOnRefusal : (bytes calls : ℕ) → Pool → Type 0
  NullOnRefusal bytes calls s =
      s.start_free ≡ 0 → (malloc calls bytes ≡ 0) × (malloc (suc calls) bytes ≡ 0)

  new_range_lem :
      (size bytes : ℕ) (s : Pool)
      → ListsFit s
      → 1 ≤ size
      → size ≤ bytes
      → bytes < 2 ^ 63
      → (s' : Pool) × (new_range malloc size bytes s ≡ ok s')
        × HasRoom size s'
        × NullOnRefusal bytes s.calls s'
  unfolding new_range after_search HasRoom IsRange ListsFit Fits call_malloc got_memory
  new_range_lem size bytes s h low le small = elim (Bool-cases (malloc s.calls bytes == 0)) [
    | inr e ↦ rw e (
      _,
      refl,
      ((omega arith, fits s.calls bytes small), omega arith),
      λ null. absurd (false≢true (sym e ∙ (==_iff _ _).1 null)),
    )
    | inl e ↦ rw e (
        refused ((==_iff _ _).0 e) (find_node search_fuel size (call_malloc malloc bytes s)) (
          find_node-Found size (call_malloc malloc bytes s) h 16 size low (omega arith)
            (omega arith)))
  ]
    where
      refused :
          malloc s.calls bytes ≡ 0
          → (o : Outcome (Option Pool)) → Found size (call_malloc malloc bytes s) o
          → (s' : Pool) × ((o >>= λ f.
                ok (after_search malloc bytes (call_malloc malloc bytes s) f))
              ≡ ok s')
            × HasRoom size s'
            × NullOnRefusal bytes s.calls s'
      refused null _ (found s' room there) = (s', refl, room, λ e. absurd (there e))
      refused null _ absent =
          (_, refl, ((omega arith, fits (suc s.calls) bytes small), omega arith), λ e. (null, e))

  more_memory_after :
      (size total : ℕ) (s d : Pool)
      → 1 ≤ size
      → size ≤ total
      → total ≤ 4096
      → donate_left s ≡ ok d
      → IsPool d
      → d.heap_size ≡ s.heap_size
      → d.calls ≡ s.calls
      → (s' : Pool) × (more_memory malloc size total s ≡ ok s')
        × HasRoom size s'
        × NullOnRefusal (bytes_to_get total s) s.calls s'
  unfolding more_memory IsPool
  more_memory_after size total s d low le small e h heap calls =
      let bounds = bytes_to_get_bounds total d h small in
      rw (e, sym (bytes_to_get_same total d s heap), sym calls)
        (new_range_lem size (bytes_to_get total d) d h.1 low (omega (arith, bounds.0)) bounds.1)

  more_memory_lem :
      (size total : ℕ) (s : Pool)
      → IsPool s
      → 1 ≤ size
      → size ≤ max_bytes
      → size ≤ total
      → total ≤ 4096
      → s.end_free - s.start_free < size
      → (s' : Pool) × (more_memory malloc size total s ≡ ok s')
        × HasRoom size s'
        × NullOnRefusal (bytes_to_get total s) s.calls s'
  more_memory_lem size total s h low high le small little =
      let (d, e, dh, heap, calls) = donate_left_lem s h (omega arith) in
      more_memory_after size total s d low le small e dh heap calls

  served_from :
      (size nobjs : ℕ) (s : Pool)
      → HasRoom size s
      → 1 ≤ size
      → 1 ≤ nobjs
      → size * nobjs ≤ 4096
      → (r : ℕ × ℕ × Pool) × (alloc_chunk malloc 1 size nobjs s ≡ ok r) × Cut size nobjs s r
  unfolding alloc_chunk HasRoom
  served_from size nobjs s h low some_ small =
      go _ (take_chunk-Taken size nobjs s h.0 low some_ (omega arith))
    where
      go :
          (o : Option (ℕ × ℕ × Pool))
          → Taken size nobjs s o
          → (r : ℕ × ℕ × Pool) × ((elim o [
            | some r ↦ ok r
            | none ↦
                more_memory malloc size (mul_size size nobjs) s >>= alloc_chunk malloc 0 size nobjs
          ])
              ≡ ok r)
            × Cut size nobjs s r
      go _ (cut r c) = (r, refl, c)
      go _ (too_small t) = absurd (omega (arith, h.1))

  -- With its two levels of calls `AllocChunk` always answers: it hands out `nobjs` blocks or fewer,
  -- at least one, from the start of a range of free bytes, keeps the rest of the range, and the range
  -- is another one than before only when that had no room for a block; it starts at null only when
  -- `malloc` has failed twice.
  pub alloc_chunk_lem :
      (size nobjs : ℕ) (s : Pool)
      → IsPool s
      → 1 ≤ size
      → size ≤ max_bytes
      → 1 ≤ nobjs
      → size * nobjs ≤ 4096
      → (s₁ : Pool) × (r : ℕ × ℕ × Pool) × (alloc_chunk malloc chunk_fuel size nobjs s ≡ ok r)
        × Cut size nobjs s₁ r
        × ((s₁ ≡ s)
            ⊎ ((s.end_free - s.start_free < size)
                × NullOnRefusal (bytes_to_get (size * nobjs) s) s.calls s₁))
  unfolding alloc_chunk IsPool
  alloc_chunk_lem size nobjs s h low high some_ small =
      go _ (take_chunk-Taken size nobjs s h.0 low some_ (omega arith))
    where
      go :
          (o : Option (ℕ × ℕ × Pool))
          → Taken size nobjs s o
          → (s₁ : Pool) × (r : ℕ × ℕ × Pool) × ((elim o [
            | some r ↦ ok r
            | none ↦
                more_memory malloc size (mul_size size nobjs) s >>= alloc_chunk malloc 1 size nobjs
          ])
              ≡ ok r)
            × Cut size nobjs s₁ r
            × ((s₁ ≡ s)
                ⊎ ((s.end_free - s.start_free < size)
                    × NullOnRefusal (bytes_to_get (size * nobjs) s) s.calls s₁))
      go _ (cut r c) = (s, r, refl, c, inl refl)
      go _ (too_small t) =
          let (s₁, e, room, null) =
            more_memory_lem size (size * nobjs) s h low high (size_le size nobjs some_) small t in
          let (r, f, c) = served_from size nobjs s₁ room low some_ small in
          (s₁, r, rw (mul_size_exact size nobjs (omega arith), e) f, c, inr (t, null))
