-- ===== src/SgiPool/Chains.antt =====
-- The lists that `next` links in memory, and the loop of `Refill` that builds one.
use cpp_toy.Base.{
  ℕ, zero, suc, ◌+◌, ◌≤◌, ◌<◌, ◌≡◌, ◌≢◌, refl, sym, ◌∙◌, subst, List, [], ◌∷◌, arith, put, put_same,
  put_other,
}
use cpp_toy.SgiPool.{link}

-- From `head`, the memory links exactly these blocks.
unfoldable pub Chain : (next : ℕ → ℕ) → ℕ → List ℕ → Type 0
Chain next head [] = head ≡ 0
Chain next head (x ∷ xs) = (head ≡ x) × (x ≢ 0) × Chain next (next x) xs

-- `count` blocks of `n` bytes behind the one at `a`.
abbrev pub blocks : (count : ℕ) → (n a : ℕ) → List ℕ
blocks zero n a = a ∷ []
blocks (suc count) n a = a ∷ blocks count n (a + n)

-- The loop writes nothing below the block it stands at.
link_below : (count n a : ℕ) (next : ℕ → ℕ) (b : ℕ) → b < a → link count n a next b ≡ next b
unfolding link
link_below zero n a next b h = put_other next 0 a b (λ e. omega arith)
link_below (suc count) n a next b h =
    link_below count n (a + n) (put next a (a + n)) b (omega arith)
    ∙ put_other next (a + n) a b (λ e. omega arith)

pub link-Chain :
    (count n a : ℕ) (next : ℕ → ℕ)
    → 1 ≤ n
    → 1 ≤ a
    → Chain (link count n a next) a (blocks count n a)
unfolding link Chain
link-Chain zero n a next hn ha = (refl, (λ e. omega arith), put_same next 0 a)
link-Chain (suc count) n a next hn ha = (
  refl,
  (λ e. omega arith),
  subst (λ h. Chain (link (suc count) n a next) h (blocks count n (a + n)))
      (sym
        (link_below count n (a + n) (put next a (a + n)) a (omega arith) ∙ put_same next (a + n) a))
      (link-Chain count n (a + n) (put next a (a + n)) hn (omega arith)),
)
