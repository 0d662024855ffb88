-- ===== src/Muduo/TcpServer/RoundRobin.antt =====
-- `GetNextLoop`, called any number of times.
use cpp_toy.Base.{
  ℕ, zero, suc, ◌+◌, ◌%◌, ◌<◌, ◌≡◌, refl, sym, ap, ◌∙◌, List, [], ◌∷◌, length, get_elem?, some,
  arith, false, leb, ◌==◌, Outcome, ok, ◌>>=◌, Bool-cases, inl, inr, leb→le,
}
use native.Mathlib.Nat.{add-mod_left, mod-eq_of_lt}
use cpp_toy.Muduo.TcpServer.{LoopPool, advance, pick, get_next_loop}

-- The loops of `count` calls in a row.
unfoldable pub next_loops : (count : ℕ) → LoopPool → Outcome (List ℕ)
next_loops zero p = ok []
next_loops (suc count) p = do r ← get_next_loop p; loops ← next_loops count r.1; ok (r.0 ∷ loops)

get_elem-some : (xs : List ℕ) (i : ℕ) → i < length xs → (x : ℕ) × (get_elem? xs i ≡ some x)
get_elem-some [] i h = absurd (omega arith)
get_elem-some (x ∷ xs) zero h = (x, refl)
get_elem-some (x ∷ xs) (suc i) h = get_elem-some xs i (omega arith)

get_next_loop_lem :
    (p : LoopPool)
    → p.next < length p.loops
    → (loop : ℕ) × (get_next_loop p ≡ ok (loop, advance p)) × (get_elem? p.loops p.next ≡ some loop)
unfolding get_next_loop pick
get_next_loop_lem p h =
    let some_loop = get_elem-some p.loops p.next h in
    (some_loop.0, rw (not_empty, some_loop.1) refl, some_loop.1)
  where
    not_empty : (length p.loops == 0) ≡ false
    not_empty = ground arith

advance_next : (p : LoopPool) → p.next < length p.loops → (advance p).next < length p.loops
unfolding advance
advance_next p h = ground arith

advance_round :
    (p : LoopPool) (k : ℕ)
    → p.next < length p.loops
    → ((advance p).next + k) % length p.loops ≡ (p.next + suc k) % length p.loops
unfolding advance
advance_round p k h = elim (Bool-cases (leb (length p.loops) (p.next + 1))) [
  | inl e ↦
      let wraps : p.next + suc k ≡ length p.loops + k = omega (arith, leb→le _ _ e) in
      let from_zero : 0 + k ≡ k = omega arith in
      rw (e, wraps, from_zero) (sym (add-mod_left (length p.loops) k))
  | inr e ↦ let goes_on : p.next + suc k ≡ p.next + 1 + k = omega arith in rw (e, goes_on) refl
]

-- Any number of calls in a row, from a pool with a position within its loops, give the loops one
-- after another, round and round from that position; none fails.
pub next_loops-get_elem :
    (count : ℕ) (p : LoopPool)
    → p.next < length p.loops
    → (loops : List ℕ) × (next_loops count p ≡ ok loops)
      × (length loops ≡ count)
      × ((k : ℕ)
          → k < count
          → get_elem? loops k ≡ get_elem? p.loops ((p.next + k) % length p.loops))
unfolding next_loops advance
next_loops-get_elem zero p h = ([], refl, refl, λ k low. absurd (omega arith))
next_loops-get_elem (suc count) p h =
    let first = get_next_loop_lem p h in
    let rest = next_loops-get_elem count (advance p) (advance_next p h) in
    (
      first.0 ∷ rest.0,
      rw (first.1, rest.1) refl,
      ap suc rest.2,
      λ k low. at first.0 rest.0 first.2 rest.3 k low,
    )
  where
    at :
        (loop : ℕ) (loops : List ℕ)
        → get_elem? p.loops p.next ≡ some loop
        → ((k : ℕ)
            → k < count
            → get_elem? loops k ≡ get_elem? p.loops (((advance p).next + k) % length p.loops))
        → (k : ℕ) → k < suc count
        → get_elem? (loop ∷ loops) k ≡ get_elem? p.loops ((p.next + k) % length p.loops)
    at loop loops e later zero low =
        sym e ∙ ap (get_elem? p.loops) (sym (ap (λ n. n % length p.loops) same ∙ mod-eq_of_lt h))
      where
        same : p.next + 0 ≡ p.next
        same = omega arith
    at loop loops e later (suc k) low =
        later k (omega arith) ∙ ap (get_elem? p.loops) (advance_round p k h)
