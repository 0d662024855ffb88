-- ===== src/SgiPool/Moves.antt =====
-- `Reallocate` from one list to another.
use cpp_toy.Base.{
  ℕ, ◌-◌, ◌/◌, ◌≤◌, ◌≡◌, ◌≢◌, refl, sym, ◌∙◌, [], ◌∷◌, ◌++◌, ge→ltb, put, put_same, put_other,
  arith, ok, add_size, sub_size,
}
use Prim.Native.Nat.{min}
use cpp_toy.SgiPool.{
  Pool, copies, align, max_bytes, round_up, push_free, pop_free, allocate, deallocate, reallocate,
}
use cpp_toy.SgiPool.Sizes.{list_of_lem}
use cpp_toy.SgiPool.Lists.{neq→==}

other_list :
    (m n : ℕ)
    → 1 ≤ m
    → m ≤ max_bytes
    → 1 ≤ n
    → n ≤ max_bytes
    → round_up m ≢ round_up n
    → (m - 1) / align ≢ (n - 1) / align
unfolding round_up add_size sub_size
other_list m n m₁ m₂ n₁ n₂ ne e = ne (omega arith)

-- Between two small sizes of different lists, where the new one has a free block: the block is given
-- out, the smaller of the two sizes is copied into it while the old block is still the client's, and
-- only then does the old block become the first of its own list.
pub reallocate_moves :
    (malloc : (call size : ℕ) → ℕ) (realloc : (call p size : ℕ) → ℕ) (p old_size new_size : ℕ)
    (s : Pool)
    → p ≢ 0
    → 1 ≤ old_size
    → old_size ≤ max_bytes
    → 1 ≤ new_size
    → new_size ≤ max_bytes
    → round_up old_size ≢ round_up new_size
    → s.free_list ((new_size - 1) / align) ≢ 0
    → let i = (old_size - 1) / align in
      let j = (new_size - 1) / align in
      let block = s.free_list j in
      (s' : Pool) × (reallocate malloc realloc p old_size new_size s ≡ ok (block, s'))
      × (s'.effects ≡ s.effects ++ copies block p (min new_size old_size) ∷ [])
      × (s'.free_list i ≡ p)
      × (s'.next p ≡ s.free_list i)
      × (s'.free_list j ≡ s.next block)
      × ((k : ℕ) → k ≢ i → k ≢ j → s'.free_list k ≡ s.free_list k)
unfolding reallocate allocate deallocate push_free pop_free
reallocate_moves malloc realloc p old_size new_size s hp o₁ o₂ n₁ n₂ ne there =
    let i = (old_size - 1) / align in
    let j = (new_size - 1) / align in
    let after = s.next (s.free_list j) in
    let taken = put s.free_list j after in
    let apart = other_list old_size new_size o₁ o₂ n₁ n₂ ne in
    rw
      (
        ge→ltb max_bytes old_size o₂,
        neq→== (round_up old_size) (round_up new_size) ne,
        ge→ltb max_bytes new_size n₂,
        list_of_lem new_size n₁ n₂,
        neq→== (s.free_list j) 0 there,
        neq→== (s.free_list j) 0 there,
        neq→== p 0 hp,
        neq→== old_size 0 (λ e. omega arith),
        list_of_lem old_size o₁ o₂,
      )
      (
        _,
        refl,
        refl,
        put_same taken p i,
        put_same s.next (taken i) p ∙ put_other s.free_list after j i apart,
        put_other taken p i j (λ e. apart (sym e)) ∙ put_same s.free_list after j,
        λ k ki kj. put_other taken p i k ki ∙ put_other s.free_list after j k kj,
      )
