-- ===== src/SgiPool/Sizes.antt =====
-- `RoundUp` and `FreelistIndex`.
use cpp_toy.Base.{
  ℕ, ◌-◌, ◌+◌, ◌*◌, ◌/◌, ◌%◌, ◌≤◌, ◌<◌, ◌≡◌, refl, arith, size_mod, add_size, sub_size, ok, fail,
  out_of_range,
}
use cpp_toy.SgiPool.{
  align, max_bytes, free_lists, round_up, freelist_index, list_of, Pool, allocate,
}

-- `RoundUp` gives the least multiple of 8 that is not below `bytes`, and for a request of 1 to 128
-- bytes `FreelistIndex` names the list, one of the sixteen, whose blocks have exactly that size.
pub round_up-freelist_index :
    (bytes : ℕ)
    → bytes + align < size_mod
    → (round_up bytes % align ≡ 0)
      × (bytes ≤ round_up bytes)
      × (round_up bytes < bytes + align)
      × (1 ≤ bytes
          → bytes ≤ max_bytes
          → (freelist_index bytes < free_lists)
            × (round_up bytes ≡ align * (freelist_index bytes + 1))
            × (freelist_index (round_up bytes) ≡ freelist_index bytes))
unfolding round_up freelist_index add_size sub_size
round_up-freelist_index bytes h =
    (omega arith, omega arith, omega arith, λ low high. (omega arith, omega arith, omega arith))

pub list_of_lem : (n : ℕ) → 1 ≤ n → n ≤ max_bytes → list_of n ≡ ok ((n - 1) / align)
unfolding list_of freelist_index add_size sub_size
list_of_lem n low high = ground arith

pub round_up_size : (n : ℕ) → n ≡ align * (n / align) → n + align < size_mod → round_up n ≡ n
unfolding round_up add_size sub_size
round_up_size n e h = omega arith

pub round_up_range :
    (n : ℕ)
    → 1 ≤ n
    → n ≤ max_bytes
    → (align ≤ round_up n)
      × (round_up n ≤ max_bytes)
      × (n ≤ round_up n)
      × (list_of (round_up n) ≡ list_of n)
unfolding round_up list_of freelist_index add_size sub_size
round_up_range n low high = (omega arith, omega arith, omega arith, ground arith)

-- A request of no bytes, which the comment above `Allocate` forbids, reads before the first list.
pub allocate_zero : (malloc : ℕ → ℕ → ℕ) (s : Pool) → allocate malloc 0 s ≡ fail out_of_range
unfolding allocate list_of freelist_index add_size sub_size
allocate_zero malloc s = refl

pub same_list :
    (m n : ℕ)
    → 1 ≤ m
    → m ≤ max_bytes
    → 1 ≤ n
    → n ≤ max_bytes
    → round_up m ≡ round_up n
    → (m - 1) / align ≡ (n - 1) / align
unfolding round_up add_size sub_size
same_list m n m₁ m₂ n₁ n₂ e = omega arith
