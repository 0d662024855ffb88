-- ===== src/SgiPool/Owned/Serving.antt =====
-- Blocks for the clients: from a list, or from a refill, which puts the others onto the list.
use cpp_toy.Base.{
  ℕ, zero, suc, ◌-◌, ◌+◌, ◌*◌, ◌/◌, ◌^◌, ◌≤◌, ◌<◌, ◌≡◌, ◌≢◌, refl, sym, ap, ◌∙◌, subst, List, [],
  ◌∷◌, arith, inl, inr, put, put_other, Bool-cases, ◌==◌, ==_iff, ge→ltb, add_size, sub_size, ok,
  false≢true,
}
use native.Mathlib.Nat.{mul-suc}
use cpp_toy.SgiPool.{
  Pool, align, max_bytes, round_up, list_of, link, pop_free, refill, allocate, alloc_chunk,
  chunk_fuel,
}
use cpp_toy.SgiPool.Sizes.{list_of_lem, round_up_range}
use cpp_toy.SgiPool.Lists.{neq→==}
use cpp_toy.SgiPool.Chains.{Chain, blocks, link-Chain}
use cpp_toy.SgiPool.Ranges.{size_le}
use cpp_toy.SgiPool.Owned.{within, covers, size_of, Holds, range, IsMalloc, NotTwice, Owned}
use cpp_toy.SgiPool.Owned.Bytes.{
  within_first, within_split, total-put, total_at, Chain-put, covers-blocks,
}
use cpp_toy.SgiPool.Owned.Blocks.{owned-ne-null, pop-Holds}
use cpp_toy.SgiPool.Owned.Chunk.{Chunk, alloc_chunk-Chunk}

within-le-one : (p n a : ℕ) → within p n a ≤ 1
within-le-one p n a = ground arith

-- The loop of `Refill` does not change a list that has none of the bytes it links.
Chain-link :
    (count n p m : ℕ) (next : ℕ → ℕ) (head : ℕ) (xs : List ℕ)
    → 1 ≤ n
    → 1 ≤ m
    → ((a : ℕ) → within p (n * suc count) a ≡ 1 → covers m xs a ≡ 0)
    → Chain next head xs
    → Chain (link count n p next) head xs
unfolding link
Chain-link zero n p m next head xs pos pos_m free c =
    Chain-put m next p 0 head xs pos_m (free p (within_first p (n * 1) (omega arith))) c
Chain-link (suc count) n p m next head xs pos pos_m free c =
    Chain-link count n (p + n) m (put next p (p + n)) head xs pos pos_m
      (λ a e. free a (
        omega (
          arith,
          within_split p n (n * suc count) (n * suc (suc count)) a
              (omega (arith, mul-suc n (suc count))),
          within-le-one p (n * suc (suc count)) a,
        )))
      (Chain-put m next p (p + n) head xs pos_m
        (free p (within_first p (n * suc (suc count)) (omega (arith, mul-suc n (suc count))))) c)

module _ {heap : ℕ → ℕ} {listed lent : ℕ → List ℕ} {extra next free_list : ℕ → ℕ}
    (h : Holds heap listed lent extra next free_list) (i : ℕ) (small : i < 16) where
  lend :
      (p : ℕ) (extra' : ℕ → ℕ)
      → ((a : ℕ) → extra' a + within p (size_of i) a ≤ extra a)
      → Holds heap listed (put lent i (p ∷ lent i)) extra' next free_list
  lend p extra' part = record {
    chains = h.chains;
    no_more = h.no_more;
    once = λ a. omega (arith, h.once a, part a, total-put lent i (p ∷ lent i) 16 a small);
    single = h.single;
    no_null = h.no_null;
    ends = h.ends;
  }

  stock :
      (count n p : ℕ) (extra' : ℕ → ℕ)
      → n ≡ size_of i
      → p ≢ 0
      → listed i ≡ []
      → ((a : ℕ) → extra' a + within p (n * suc count) a ≤ extra a)
      → Holds heap
          (put listed i (blocks count n p))
          lent
          extra'
          (link count n p next)
          (put free_list i p)
  stock count n p extra' size there empty part = record {
    chains = λ k kl. elim (Bool-cases (k == i)) [
      | inl e ↦ rw e (link-Chain count n p next (omega arith) (omega arith))
      | inr e ↦ rw e (
          Chain-link count n p (size_of k) next (free_list k) (listed k) (omega arith) (omega arith)
            (λ a e. omega (arith, h.once a, h.single a, part a, total_at listed k 16 a kl))
            (h.chains k kl))
    ];
    no_more = λ k le. put_other free_list p i k (λ e. omega arith) ∙ h.no_more k le;
    once = λ a. omega (
      arith,
      h.once a,
      part a,
      total-put listed i (blocks count n p) 16 a small,
      covers-blocks count n p a,
      ap (λ m. covers m (blocks count n p) a) size,
    );
    single = h.single;
    no_null = h.no_null;
    ends = h.ends;
  }

-- The client has one more block, and all bytes still have one owner at most.
pub record Served (malloc : (call size : ℕ) → ℕ) (lent : ℕ → List ℕ) (i p : ℕ) (s' : Pool)
    : Type 0 where
  pub heap : ℕ → ℕ
  pub listed : ℕ → List ℕ
  pub owned : Owned malloc heap listed (put lent i (p ∷ lent i)) s'
  pub there : p ≢ 0

pub round_up-size_of : (n : ℕ) → 1 ≤ n → n ≤ max_bytes → round_up n ≡ size_of ((n - 1) / align)
unfolding round_up add_size sub_size
round_up-size_of n low high = omega arith

empty_of_null : (next : ℕ → ℕ) (xs : List ℕ) → Chain next 0 xs → xs ≡ []
unfolding Chain
empty_of_null next [] c = refl
empty_of_null next (x ∷ xs) (e, nz, c) = absurd (nz (sym e))

module _ {malloc : (call size : ℕ) → ℕ} (real : IsMalloc malloc) {lent : ℕ → List ℕ} where
  module _ {listed₀ : ℕ → List ℕ} (n i : ℕ) (small : i < 16) (size : n ≡ size_of i)
      (r : ℕ × ℕ × Pool) (c : Chunk malloc listed₀ lent n 20 r) where
    first_there : r.0 ≢ 0
    first_there =
        owned-ne-null r.2 c.holds r.0 (n * r.1) (omega (arith, size_le n r.1 c.some_))
          (omega (arith, c.holds.once r.0))

    one_block : r.1 ≡ 1 → n * r.1 ≡ size_of i
    one_block e = omega (arith, ap (λ k. n * k) e)

    more_blocks : (count : ℕ) → r.1 ≡ suc (suc count) → n * r.1 ≡ n + n * suc count
    more_blocks count e = omega (arith, ap (λ k. n * k) e, mul-suc n (suc count))

    one-Served : r.1 ≡ 1 → Served malloc lent i r.0 r.2
    one-Served e = record {
      heap = c.heap;
      listed = c.listed';
      owned = record {
        holds =
            lend c.holds i small r.0 (range r.2)
              (λ a. omega (arith, ap (λ k. within r.0 k a) (one_block e)));
        order = c.order;
        whole = c.whole;
        fits = c.fits;
        unused = c.unused;
      };
      there = first_there;
    }

    many-Served :
        (count : ℕ)
        → r.1 ≡ suc (suc count)
        → listed₀ i ≡ []
        → Served malloc lent i r.0 (record r.2 {
          free_list = put r.2.free_list i (r.0 + n);
          next = link count n (r.0 + n) r.2.next;
        })
    many-Served count e empty = record {
      heap = c.heap;
      listed = put c.listed' i (blocks count n (r.0 + n));
      owned = record {
        holds =
            stock
              (lend c.holds i small r.0 (λ a. range r.2 a + within (r.0 + n) (n * suc count) a)
                (λ a. omega (
                  arith,
                  within_split r.0 n (n * suc count) (n * r.1) a (more_blocks count e),
                  ap (λ k. within r.0 k a) size,
                )))
              i small count n (r.0 + n) (range r.2) size (λ z. omega (arith, first_there))
              (c.still_empty i (omega arith) empty) (λ a. omega arith);
        order = c.order;
        whole = c.whole;
        fits = c.fits;
        unused = c.unused;
      };
      there = first_there;
    }

    refill_rest :
        listed₀ i ≡ []
        → (s : Pool) → alloc_chunk malloc chunk_fuel n 20 s ≡ ok r
        → list_of n ≡ ok i
        → (s' : Pool) × (refill malloc n s ≡ ok (r.0, s')) × Served malloc lent i r.0 s'
    unfolding refill
    refill_rest empty s e of_list = rw e (elim (Bool-cases (r.1 == 1)) [
      | inl one ↦ rw one (r.2, refl, one-Served ((==_iff _ _).0 one))
      | inr more ↦
          rw (more, neq→== r.0 0 first_there, of_list)
            (_, refl, many-Served (r.1 - 2) (ground (arith, c.some_)) empty)
    ])

  refill-Served :
      {heap : ℕ → ℕ} {listed : ℕ → List ℕ} (n i : ℕ) (s : Pool)
      → Owned malloc heap listed lent s
      → s.heap_size < 2 ^ 47
      → NotTwice malloc s.calls
      → i < 16
      → n ≡ size_of i
      → list_of n ≡ ok i
      → listed i ≡ []
      → (p : ℕ) × (s' : Pool) × (refill malloc n s ≡ ok (p, s')) × Served malloc lent i p s'
  refill-Served n i s h room second small size of_list empty =
      let (r, e, c) =
        alloc_chunk-Chunk real n 20 s h room second (omega arith) (omega arith) (omega arith)
          (omega arith) (omega arith) in
      let (s', f, d) = refill_rest n i small size r c empty s e of_list in (r.0, s', f, d)

  popped-Served :
      {heap : ℕ → ℕ} {listed : ℕ → List ℕ} (i : ℕ) (s : Pool)
      → Owned malloc heap listed lent s
      → i < 16
      → s.free_list i ≢ 0
      → Served malloc lent i (s.free_list i) (pop_free i s)
  unfolding pop_free
  popped-Served {heap} {listed} i s h small there =
      let (xs, is, h') = pop-Holds s h.holds i small there in
      record {
        heap = heap;
        listed = put listed i xs;
        owned = record {
          holds = lend h' i small (s.free_list i) (range s) (λ a. omega arith);
          order = h.order;
          whole = h.whole;
          fits = h.fits;
          unused = h.unused;
        };
        there = there;
      }

  pub allocate-Owned :
      {heap : ℕ → ℕ} {listed : ℕ → List ℕ} (n : ℕ) (s : Pool)
      → Owned malloc heap listed lent s
      → s.heap_size < 2 ^ 47
      → NotTwice malloc s.calls
      → 1 ≤ n
      → n ≤ max_bytes
      → (p : ℕ) × (s' : Pool) × (allocate malloc n s ≡ ok (p, s'))
        × Served malloc lent ((n - 1) / align) p s'
  unfolding allocate
  allocate-Owned {heap} {listed} n s h room second low high =
      let i = (n - 1) / align in
      let range = round_up_range n low high in
      rw (ge→ltb max_bytes n high, list_of_lem n low high)
        (elim (Bool-cases (s.free_list i == 0)) [
          | inl e ↦ rw e (
              refill-Served (round_up n) i s h room second (omega arith)
                (round_up-size_of n low high) (range.3 ∙ list_of_lem n low high)
                (empty_of_null s.next (listed i) (
                  subst (λ z. Chain s.next z (listed i)) ((==_iff _ _).0 e)
                    (h.holds.chains i (omega arith)))))
          | inr e ↦ rw e (
            s.free_list i,
            pop_free i s,
            refl,
            popped-Served i s h (omega arith) (λ z. false≢true (sym e ∙ (==_iff _ _).1 z)),
          )
        ])
