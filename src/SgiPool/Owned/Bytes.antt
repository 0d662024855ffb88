-- ===== src/SgiPool/Owned/Bytes.antt =====
-- Counting bytes.
use cpp_toy.Base.{
  ℕ, zero, suc, ◌+◌, ◌*◌, ◌≤◌, ◌<◌, ◌≡◌, refl, sym, ap, subst, List, [], ◌∷◌, ◌++◌, arith, put,
  put_other, Bool-cases, inl, inr, ◌==◌, ==_iff,
}
use native.Mathlib.Nat.{mul-suc}
use cpp_toy.SgiPool.Chains.{Chain, blocks}
use cpp_toy.SgiPool.Owned.{within, covers, size_of, total}

pub within_first : (p n : ℕ) → 1 ≤ n → within p n p ≡ 1
within_first p n h = ground arith

pub covers-append :
    (n : ℕ) (xs ys : List ℕ) (a : ℕ) → covers n (xs ++ ys) a ≡ covers n xs a + covers n ys a
covers-append n [] ys a = omega arith
covers-append n (x ∷ xs) ys a = omega (arith, covers-append n xs ys a)

pub within_split : (p m n k a : ℕ) → k ≡ m + n → within p k a ≡ within p m a + within (p + m) n a
within_split p m n k a e = ground arith

total_below :
    (f : ℕ → List ℕ) (j : ℕ) (xs : List ℕ) (k a : ℕ) → k ≤ j → total (put f j xs) k a ≡ total f k a
total_below f j xs zero a h = refl
total_below f j xs (suc k) a h =
    rw (total_below f j xs k a (omega arith), put_other f xs j k (λ e. omega arith)) refl

-- Other blocks for one size.
pub total-put :
    (f : ℕ → List ℕ) (j : ℕ) (xs : List ℕ) (k a : ℕ)
    → j < k
    → total (put f j xs) k a + covers (size_of j) (f j) a ≡ total f k a + covers (size_of j) xs a
total-put f j xs zero a h = absurd (omega arith)
total-put f j xs (suc k) a h = elim (Bool-cases (k == j)) [
  | inl e ↦
      let same : k ≡ j = (==_iff _ _).0 e in
      rw (e, total_below f j xs k a (omega arith))
        (omega (
          arith,
          ap (λ i. covers (size_of i) (f i) a) same,
          ap (λ i. covers (size_of i) xs a) same,
        ))
  | inr e ↦ rw e (omega (arith, total-put f j xs k a (ground arith)))
]

-- A byte of a block of one size is counted.
pub total_at : (f : ℕ → List ℕ) (j k a : ℕ) → j < k → covers (size_of j) (f j) a ≤ total f k a
total_at f j zero a h = absurd (omega arith)
total_at f j (suc k) a h = elim (Bool-cases (j == k)) [
  | inl e ↦ omega (arith, ap (λ i. covers (size_of i) (f i) a) ((==_iff _ _).0 e))
  | inr e ↦ omega (arith, total_at f j k a (ground arith))
]

-- A chain is not changed by a write outside its blocks.
pub Chain-put :
    (n : ℕ) (next : ℕ → ℕ) (p v head : ℕ) (xs : List ℕ)
    → 1 ≤ n
    → covers n xs p ≡ 0
    → Chain next head xs
    → Chain (put next p v) head xs
unfolding Chain
Chain-put n next p v head [] pos h c = c
Chain-put n next p v head (x ∷ xs) pos h (e, nz, c) = (
  e,
  nz,
  subst (λ k. Chain (put next p v) k xs)
      (sym
        (put_other next v p x (λ q. omega (arith, within_first p n pos, ap (λ y. within y n p) q))))
      (Chain-put n next p v (next x) xs pos (omega arith) c),
)

one : (n : ℕ) → n * 1 ≡ n
one n = omega arith

pub covers-blocks : (count n p a : ℕ) → covers n (blocks count n p) a ≡ within p (n * suc count) a
covers-blocks zero n p a = omega (arith, ap (λ m. within p m a) (one n))
covers-blocks (suc count) n p a = omega (
  arith,
  covers-blocks count n (p + n) a,
  within_split p n (n * suc count) (n * suc (suc count)) a (omega (arith, mul-suc n (suc count))),
)
