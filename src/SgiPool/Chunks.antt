-- ===== src/SgiPool/Chunks.antt =====
-- `AllocChunk` while the range of free bytes has room.
use cpp_toy.Base.{
  ℕ, ◌-◌, ◌+◌, ◌*◌, ◌/◌, ◌≤◌, ◌<◌, ◌≡◌, refl, inl, inr, Option, none, some, Bool-cases, arith, ltb,
  leb, leb→le, ltb→lt, ap, leb→gt, size_mod, sub_size_exact, mul_size_exact,
}
use native.Mathlib.Omega.{div_any}
use native.Mathlib.Nat.{mod-lt, mul-le-mul_left}
use cpp_toy.SgiPool.{Pool, take_chunk}

-- The bytes not handed out form a range, of addresses that a pointer holds.
unfoldable pub IsRange : Pool → Type 0
IsRange s = (s.start_free ≤ s.end_free) × (s.end_free < size_mod)

-- Some of the blocks asked for, at least one, cut from the start of what was free in `s₀`.
unfoldable pub Cut : (size nobjs : ℕ) → Pool → ℕ × ℕ × Pool → Type 0
Cut size nobjs s₀ r =
    (1 ≤ r.1)
    × (r.1 ≤ nobjs)
    × (r.0 ≡ s₀.start_free)
    × (r.2.start_free ≡ r.0 + size * r.1)
    × (r.2.end_free ≡ s₀.end_free)
    × IsRange r.2
    × (r.2.free_list ≡ s₀.free_list)
    × (r.2.next ≡ s₀.next)
    × (r.2.calls ≡ s₀.calls)

pub data Taken (size nobjs : ℕ) (s : Pool) : Option (ℕ × ℕ × Pool) → Type 0 where
  cut : (r : ℕ × ℕ × Pool) → Cut size nobjs s r → Taken size nobjs s (some r)
  too_small : s.end_free - s.start_free < size → Taken size nobjs s none

module _ (size nobjs : ℕ) (s : Pool) (h : IsRange s) where
  cut_at :
      (k : ℕ)
      → 1 ≤ k
      → k ≤ nobjs
      → size * k ≤ s.end_free - s.start_free
      → Taken size nobjs s
          (some (s.start_free, k, record s { start_free = s.start_free + size * k }))
  unfolding IsRange Cut
  cut_at k low high fits = cut _ (low, high, refl, refl, refl, (omega arith, h.1), refl, refl, refl)

  quotient_pos : (room : ℕ) → size ≤ room → 1 ≤ size → 1 ≤ room / size
  quotient_pos room f hs = elim (Bool-cases (leb 1 (room / size))) [
    | inl g ↦ leb→le _ _ g
    | inr g ↦
        let none_fit : room / size ≡ 0 = omega (arith, leb→gt _ _ g) in
        absurd (omega (arith, div_any room size, ap (λ q. size * q) none_fit, mod-lt room hs))
  ]

  quotient_le : (room : ℕ) → room < size * nobjs → room / size < nobjs
  quotient_le room e = elim (Bool-cases (ltb (room / size) nobjs)) [
    | inl g ↦ ltb→lt _ _ g
    | inr g ↦ absurd (
        omega (
          arith,
          div_any room size,
          mul-le-mul_left size (leb→le nobjs (room / size) (ground arith)),
        ))
  ]

  pub take_chunk-Taken :
      1 ≤ size → 1 ≤ nobjs → size * nobjs < size_mod → Taken size nobjs s (take_chunk size nobjs s)
  unfolding take_chunk IsRange
  take_chunk-Taken hs hn small =
      let room = s.end_free - s.start_free in
      let k = room / size in
      rw (sub_size_exact s.end_free s.start_free h.0 h.1, mul_size_exact size nobjs small)
        (elim (Bool-cases (leb (size * nobjs) room)) [
          | inl e ↦ rw e (cut_at nobjs hn (omega arith) (leb→le _ _ e))
          | inr e ↦ rw e (elim (Bool-cases (leb size room)) [
            | inl f ↦
                rw (f, mul_size_exact size k (omega (arith, div_any room size)))
                  (cut_at k (quotient_pos room (leb→le _ _ f) hs)
                    (omega (arith, quotient_le room (leb→gt _ _ e)))
                    (omega (arith, div_any room size)))
            | inr f ↦ rw f (too_small (leb→gt _ _ f))
          ])
        ])
