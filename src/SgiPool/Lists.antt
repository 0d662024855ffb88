-- ===== src/SgiPool/Lists.antt =====
-- `Allocate` and `Deallocate` on the free lists.
use cpp_toy.Base.{
  ℕ, suc, ◌-◌, ◌+◌, ◌*◌, ◌/◌, ◌≤◌, ◌<◌, ◌≡◌, ◌≢◌, refl, sym, ◌∙◌, ap, inl, inr, ◌⊎◌, false,
  Bool-cases, arith, ◌==◌, ==_iff, ge→ltb, put_same, put_other, ok, ◌>>=◌,
}
use cpp_toy.SgiPool.{
  Pool, align, max_bytes, push_free, round_up, pop_free, bytes_to_get, alloc_chunk, chunk_fuel,
  refill, allocate, deallocate,
}
use cpp_toy.SgiPool.Sizes.{same_list, list_of_lem, round_up_range}
use cpp_toy.SgiPool.Chains.{Chain, blocks, link-Chain}
use cpp_toy.SgiPool.Chunks.{IsRange, Cut}
use cpp_toy.SgiPool.Ranges.{size_le, Fits, IsPool}
use cpp_toy.SgiPool.Blocks.{alloc_chunk_lem}

pub neq→== : (a b : ℕ) → a ≢ b → (a == b) ≡ false
neq→== a b h = ground arith

-- The last block given back is the next one given out, for any request of the same list, and the
-- two calls together change nothing but the first word of that block.
pub allocate-deallocate :
    (malloc : (call size : ℕ) → ℕ) (p n m : ℕ) (s : Pool)
    → p ≢ 0
    → 1 ≤ n
    → n ≤ max_bytes
    → 1 ≤ m
    → m ≤ max_bytes
    → round_up m ≡ round_up n
    → (s' : Pool) × ((deallocate p n s >>= allocate malloc m) ≡ ok (p, s'))
      × ((j : ℕ) → s'.free_list j ≡ s.free_list j)
      × ((a : ℕ) → a ≢ p → s'.next a ≡ s.next a)
      × (s'.start_free ≡ s.start_free)
      × (s'.end_free ≡ s.end_free)
      × (s'.effects ≡ s.effects)
unfolding allocate deallocate push_free pop_free
allocate-deallocate malloc p n m s hp n₁ n₂ m₁ m₂ same =
    let i = (n - 1) / align in
    rw
      (
        neq→== p 0 hp,
        neq→== n 0 (λ e. omega arith),
        ge→ltb max_bytes n n₂,
        list_of_lem n n₁ n₂,
        ge→ltb max_bytes m m₂,
        list_of_lem m m₁ m₂,
        same_list m n m₁ m₂ n₁ n₂ same,
        put_same s.free_list p i,
        neq→== p 0 hp,
      )
      (
        _,
        refl,
        (λ j. elim (Bool-cases (j == i)) [
          | inl e ↦ rw (e, (==_iff _ _).0 e) (put_same s.next (s.free_list i) p)
          | inr e ↦ rw e refl
        ]),
        (λ a ne. put_other s.next (s.free_list i) p a ne),
        refl,
        refl,
        refl,
      )

-- What a refill for requests of `n` bytes leaves of the blocks `r` of `AllocChunk` behind the one it
-- gives out: they are the list of their size.
unfoldable pub Stocked : (n : ℕ) → ℕ × ℕ × Pool → Pool → Type 0
Stocked n r s' =
    (r.1 ≡ 1) × (s' ≡ r.2)
    ⊎ (2 ≤ r.1)
      × Chain s'.next (s'.free_list ((n - 1) / align))
          (blocks (r.1 - 2) (round_up n) (r.0 + round_up n))

module _ (malloc : (call size : ℕ) → ℕ) (n : ℕ) (low : 1 ≤ n) (high : n ≤ max_bytes) where
  refill_case :
      (s₁ s : Pool) (r : ℕ × ℕ × Pool)
      → alloc_chunk malloc chunk_fuel (round_up n) 20 s ≡ ok r
      → r.0 ≢ 0
      → 1 ≤ r.1
      → (s' : Pool) × (refill malloc (round_up n) s ≡ ok (r.0, s'))
        × (s'.start_free ≡ r.2.start_free)
        × (s'.end_free ≡ r.2.end_free)
        × Stocked n r s'
  unfolding refill Stocked
  refill_case s₁ s r e there some_ = rw e (elim (Bool-cases (r.1 == 1)) [
    | inl one ↦ rw one (_, refl, refl, refl, inl ((==_iff _ _).0 one, refl))
    | inr more ↦
        rw (more, neq→== r.0 0 there, (round_up_range n low high).3, list_of_lem n low high)
          (
            _,
            refl,
            refl,
            refl,
            inr (
              ground arith,
              rw (put_same r.2.free_list (r.0 + round_up n) ((n - 1) / align)) (
                  link-Chain (r.1 - 2) (round_up n) (r.0 + round_up n) r.2.next
                    (omega (arith, (round_up_range n low high).0))
                    (omega (arith, (round_up_range n low high).0))),
            ),
          )
  ])

  -- A request of 1 to 128 bytes that finds its list empty, when `malloc` gives memory if it is asked,
  -- is served with a block that is not null, the first of at most twenty that are cut from the start
  -- of a range of free bytes; the others become the list of their size, linked in the order of their
  -- addresses, and the pool keeps the range behind them.
  pub allocate_refills :
      (s : Pool)
      → Fits malloc
      → IsPool s
      → s.free_list ((n - 1) / align) ≡ 0
      → (s.start_free ≡ 0 → s.end_free ≡ 0)
      → malloc s.calls (bytes_to_get (round_up n * 20) s) ≢ 0
      → (s₁ : Pool) × (r : ℕ × ℕ × Pool) × (s' : Pool) × (allocate malloc n s ≡ ok (r.0, s'))
        × (r.0 ≢ 0)
        × Cut (round_up n) 20 s₁ r
        × (s'.start_free ≡ r.2.start_free)
        × (s'.end_free ≡ r.2.end_free)
        × Stocked n r s'
  unfolding allocate Cut IsRange
  allocate_refills s fits h empty null_empty memory =
      let range = round_up_range n low high in
      let (s₁, r, e, c, from) =
        alloc_chunk_lem malloc fits (round_up n) 20 s h (omega (arith, range.0)) range.1
          (omega arith) (omega (arith, range.1)) in
      let there = not_null s₁ r c from in
      let (s', f, starts, ends, lists) = refill_case s₁ s r e there (some_of s₁ r c) in
      (s₁, r, s', allocates f, there, c, starts, ends, lists)
    where
      some_of : (s₁ : Pool) (r : ℕ × ℕ × Pool) → Cut (round_up n) 20 s₁ r → 1 ≤ r.1
      some_of s₁ r c = c.0

      allocates : {o : ℕ × Pool} → refill malloc (round_up n) s ≡ ok o → allocate malloc n s ≡ ok o
      allocates f = rw (ge→ltb max_bytes n high, list_of_lem n low high, empty) f

      not_null :
          (s₁ : Pool) (r : ℕ × ℕ × Pool)
          → Cut (round_up n) 20 s₁ r
          → (s₁ ≡ s)
            ⊎ ((s.end_free - s.start_free < round_up n)
                × (s₁.start_free ≡ 0
                    → (malloc s.calls (bytes_to_get (round_up n * 20) s) ≡ 0)
                      × (malloc (suc s.calls) (bytes_to_get (round_up n * 20) s) ≡ 0)))
          → r.0 ≢ 0
      not_null s₁ r c (inl same) z =
          let null : s.end_free ≡ 0 =
            null_empty (sym (ap (λ (x : Pool). x.start_free) same) ∙ sym c.2 ∙ z) in
          absurd (
            omega (
              arith,
              c.3,
              c.4,
              c.5.0,
              ap (λ (x : Pool). x.end_free) same,
              size_le (round_up n) r.1 c.0,
              (round_up_range n low high).0,
            ))
      not_null s₁ r c (inr (little, null)) z = memory (null (sym c.2 ∙ z)).0
