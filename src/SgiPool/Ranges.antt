-- ===== src/SgiPool/Ranges.antt =====
-- The search of the longer lists, and what `AllocChunk` does with the rest before it asks for memory.
use cpp_toy.Base.{
  ℕ, zero, suc, ◌-◌, ◌+◌, ◌*◌, ◌/◌, ◌^◌, ◌≤◌, ◌<◌, ◌≡◌, ◌≢◌, refl, sym, ap, ◌∙◌, inl, inr, Option,
  none, some, Bool-cases, arith, ltb, leb, ◌==◌, leb→le, ltb→lt, ==_iff, false≢true, size_mod,
  add_size, sub_size, mul_size, sub_size_exact, Outcome, ok,
}
use native.Mathlib.Nat.{mul-le-mul_left}
use cpp_toy.SgiPool.{
  Pool, align, max_bytes, push_free, round_up, pop_free, find_node, donate_left, bytes_to_get,
}
use cpp_toy.SgiPool.Sizes.{list_of_lem}
use cpp_toy.SgiPool.Chunks.{IsRange}

-- Room for a block of `size` bytes.
unfoldable pub HasRoom : (size : ℕ) → Pool → Type 0
unfolding IsRange
HasRoom size s = IsRange s × (size ≤ s.end_free - s.start_free)

-- The free blocks are at addresses that a pointer holds, to their ends.
unfoldable pub ListsFit : Pool → Type 0
ListsFit s = (j : ℕ) → s.free_list j + max_bytes < size_mod

pub data Found (size : ℕ) (s : Pool) : Outcome (Option Pool) → Type 0 where
  found : (s' : Pool) → HasRoom size s' → s'.start_free ≢ 0 → Found size s (ok (some s'))
  absent : Found size s (ok none)

module _ (size : ℕ) (s : Pool) (fit : ListsFit s) where
  find_node_round :
      (fuel i : ℕ)
      → 1 ≤ i
      → size ≤ i
      → (i ≤ max_bytes → Found size s (find_node fuel (i + align) s))
      → Found size s (find_node (suc fuel) i s)
  unfolding find_node HasRoom IsRange ListsFit pop_free
  find_node_round fuel i low big rest = elim (Bool-cases (leb i max_bytes)) [
    | inr e ↦ rw e absent
    | inl e ↦
        let j = (i - 1) / align in
        rw (e, list_of_lem i low (leb→le _ _ e))
          (elim (Bool-cases (s.free_list j == 0)) [
            | inl z ↦ rw z (rest (leb→le _ _ e))
            | inr z ↦ rw z (
                found _ ((omega arith, omega (arith, fit j, leb→le _ _ e)), omega arith)
                  (λ null. false≢true (sym z ∙ (==_iff _ _).1 null)))
          ])
  ]

  pub find_node-Found :
      (fuel i : ℕ)
      → 1 ≤ i
      → size ≤ i
      → max_bytes < i + align * fuel
      → Found size s (find_node (suc fuel) i s)
  find_node-Found zero i low big enough =
      find_node_round zero i low big (λ le. absurd (omega arith))
  find_node-Found (suc fuel) i low big enough =
      find_node_round (suc fuel) i low big
        (λ le. find_node-Found fuel (i + align) (omega arith) (omega arith) (omega arith))

-- What the source asks of `malloc`: the bytes it gives are at addresses that a pointer holds.
unfoldable pub Fits : ((call size : ℕ) → ℕ) → Type 0
Fits malloc = (call size : ℕ) → size < 2 ^ 63 → malloc call size + size < size_mod

-- A pool whose heap can still grow without a wrap.
unfoldable pub IsPool : Pool → Type 0
unfolding IsRange ListsFit
IsPool s = IsRange s × ListsFit s × (s.end_free + max_bytes < size_mod) × (s.heap_size < 2 ^ 62)

pub bytes_to_get_bounds :
    (total : ℕ) (s : Pool)
    → IsPool s
    → total ≤ 4096
    → (2 * total ≤ bytes_to_get total s) × (bytes_to_get total s < 2 ^ 63)
unfolding bytes_to_get add_size mul_size round_up sub_size IsPool
bytes_to_get_bounds total s h small = (omega (arith, h.3), omega (arith, h.3))

pub bytes_to_get_same :
    (total : ℕ) (d s : Pool)
    → d.heap_size ≡ s.heap_size
    → bytes_to_get total d ≡ bytes_to_get total s
unfolding bytes_to_get
bytes_to_get_same total d s e = ap (λ h. add_size (mul_size 2 total) (round_up (h / 2 ^ 4))) e

pub pushed_fit :
    (i p : ℕ) (s : Pool) → ListsFit s → p + max_bytes < size_mod → ListsFit (push_free i p s)
unfolding ListsFit push_free
pushed_fit i p s h fits j = ground (arith, h j)

pub donate_left_lem :
    (s : Pool)
    → IsPool s
    → s.end_free - s.start_free < max_bytes
    → (s' : Pool) × (donate_left s ≡ ok s')
      × IsPool s'
      × (s'.heap_size ≡ s.heap_size)
      × (s'.calls ≡ s.calls)
unfolding donate_left IsPool IsRange push_free
donate_left_lem s h small =
    let left = s.end_free - s.start_free in
    rw (sub_size_exact s.end_free s.start_free h.0.0 h.0.1) (elim (Bool-cases (ltb 0 left)) [
      | inr e ↦ rw e (s, refl, h, refl, refl)
      | inl e ↦
          rw (e, list_of_lem left (ltb→lt _ _ e) (omega arith))
            (
              push_free ((left - 1) / align) s.start_free s,
              refl,
              (h.0, pushed_fit _ s.start_free s h.1 (omega (arith, h.0.0, h.2)), h.2, h.3),
              refl,
              refl,
            )
    ])

pub size_le : (size k : ℕ) → 1 ≤ k → size ≤ size * k
size_le size k pos = omega (arith, mul-le-mul_left size pos)
