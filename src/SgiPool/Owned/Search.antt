-- ===== src/SgiPool/Owned/Search.antt =====
-- The rest of a range goes onto a list, and longer lists are searched: one owner for each byte.
use cpp_toy.Base.{
  ℕ, zero, suc, ◌-◌, ◌+◌, ◌*◌, ◌/◌, ◌%◌, ◌≤◌, ◌<◌, ◌≡◌, ◌≢◌, refl, sym, ap, ◌∙◌, List, [], ◌∷◌,
  arith, put, put_other, Bool-cases, inl, inr, ◌==◌, ==_iff, ltb, ltb→lt, leb, leb→le,
  sub_size_exact, Outcome, ok, Option, some, none, false≢true,
}
use cpp_toy.SgiPool.{Pool, align, max_bytes, push_free, pop_free, donate_left, find_node}
use cpp_toy.SgiPool.Sizes.{list_of_lem}
use cpp_toy.SgiPool.Owned.{within, size_of, Holds, IsFresh, nothing, Owned}
use cpp_toy.SgiPool.Owned.Blocks.{weaken, push-Holds, pop-Holds, listed_fits}

pub same_size :
    (p left a : ℕ)
    → 0 < left
    → left % 8 ≡ 0
    → 0 + within p (size_of ((left - 1) / align)) a ≤ within p left a
same_size p left a pos whole =
    let same : size_of ((left - 1) / align) ≡ left = omega arith in
    omega (arith, ap (λ n. within p n a) same)

pub same_within : (p i n a : ℕ) → i ≡ n → within p (p + i - p) a ≤ 0 + within p n a
same_within p i n a e = ground arith

cons-ne-nil : {x : ℕ} {xs : List ℕ} → x ∷ xs ≢ []
cons-ne-nil e = cc

-- The rest of a range that is too small goes whole onto the list of exactly its size.
pub donate-Holds :
    {malloc : (call size : ℕ) → ℕ} {heap : ℕ → ℕ} {listed lent : ℕ → List ℕ} (s : Pool)
    → Owned malloc heap listed lent s
    → s.end_free - s.start_free < max_bytes
    → (d : Pool) × (donate_left s ≡ ok d)
      × (d.heap_size ≡ s.heap_size)
      × (d.calls ≡ s.calls)
      × (listed' : ℕ → List ℕ) × Holds heap listed' lent nothing d.next d.free_list
      × ((j : ℕ) → s.end_free - s.start_free < size_of j → listed' j ≡ listed j)
unfolding donate_left push_free
donate-Holds {listed = listed} s h little =
    let left = s.end_free - s.start_free in
    let j = (left - 1) / align in
    rw (sub_size_exact s.end_free s.start_free h.order (omega (arith, h.fits)))
      (elim (Bool-cases (ltb 0 left)) [
        | inr e ↦
            rw e (
              s,
              refl,
              refl,
              refl,
              listed,
              weaken nothing h.holds (λ a. omega arith),
              (λ j _. refl),
            )
        | inl e ↦
            rw (e, list_of_lem left (ltb→lt _ _ e) (omega arith))
              (
                _,
                refl,
                refl,
                refl,
                put listed j (s.start_free ∷ listed j),
                push-Holds s h.holds j s.start_free (omega arith) nothing
                    (λ a. same_size s.start_free left a (ltb→lt _ _ e) h.whole),
                (λ k larger.
                    put_other listed (s.start_free ∷ listed j) j k
                      (λ q. omega (arith, h.whole, ltb→lt _ _ e))),
              )
      ])

-- A new range of `size` bytes or more, and what became of the lists.
pub record NewRange (malloc : (call size : ℕ) → ℕ) (listed lent : ℕ → List ℕ) (size : ℕ) (s' : Pool)
    : Type 0 where
  pub heap : ℕ → ℕ
  pub listed' : ℕ → List ℕ
  pub owned : Owned malloc heap listed' lent s'
  pub has_room : size ≤ s'.end_free - s'.start_free
  pub still_empty : (j : ℕ) → size ≤ size_of j → listed j ≡ [] → listed' j ≡ []

pub data Found (malloc : (call size : ℕ) → ℕ) (listed lent : ℕ → List ℕ) (size : ℕ)
    : Outcome (Option Pool) → Type 0 where
  found :
      (s' : Pool)
      → NewRange malloc listed lent size s'
      → Found malloc listed lent size (ok (some s'))
  absent : Found malloc listed lent size (ok none)

module _ {malloc : (call size : ℕ) → ℕ} {heap : ℕ → ℕ} {listed lent : ℕ → List ℕ} (s : Pool)
    (h : Holds heap listed lent nothing s.next s.free_list)
    (unused : IsFresh malloc s.calls heap) where
  take_node :
      (size i j : ℕ)
      → j < 16
      → i ≡ size_of j
      → size ≤ i
      → s.free_list j ≢ 0
      → NewRange malloc listed lent size
          (record (pop_free j s) { start_free = s.free_list j; end_free = s.free_list j + i })
  unfolding pop_free
  take_node size i j small e le there =
      let (xs, is, h') = pop-Holds s h j small there in
      record {
        heap = heap;
        listed' = put listed j xs;
        owned = record {
          holds =
              weaken (within (s.free_list j) (s.free_list j + i - s.free_list j)) h'
                (λ a. same_within (s.free_list j) i (size_of j) a e);
          order = omega arith;
          whole = omega arith;
          fits = omega (arith, listed_fits s h j small);
          unused = unused;
        };
        has_room = omega arith;
        still_empty = λ k _. gone xs is k;
      }
    where
      gone :
          (xs : List ℕ)
          → listed j ≡ s.free_list j ∷ xs
          → (k : ℕ) → listed k ≡ []
          → put listed j xs k ≡ []
      gone xs is k e = elim (Bool-cases (k == j)) [
        | inl q ↦ absurd (cons-ne-nil (sym is ∙ ap listed (sym ((==_iff _ _).0 q)) ∙ e))
        | inr q ↦ rw q e
      ]

  find_node_round :
      (size fuel i : ℕ)
      → 1 ≤ i
      → i % 8 ≡ 0
      → size ≤ i
      → (i ≤ max_bytes → Found malloc listed lent size (find_node fuel (i + align) s))
      → Found malloc listed lent size (find_node (suc fuel) i s)
  unfolding find_node
  find_node_round size fuel i low whole big rest = elim (Bool-cases (leb i max_bytes)) [
    | inr e ↦ rw e absent
    | inl e ↦
        let j = (i - 1) / align in
        rw (e, list_of_lem i low (leb→le _ _ e))
          (elim (Bool-cases (s.free_list j == 0)) [
            | inl z ↦ rw z (rest (leb→le _ _ e))
            | inr z ↦ rw z (
                found _ (
                  take_node size i j (omega (arith, leb→le _ _ e)) (omega arith) big
                    (λ q. false≢true (sym z ∙ (==_iff _ _).1 q))))
          ])
  ]

  pub find_node-Found :
      (size fuel i : ℕ)
      → 1 ≤ i
      → i % 8 ≡ 0
      → size ≤ i
      → max_bytes < i + align * fuel
      → Found malloc listed lent size (find_node (suc fuel) i s)
  find_node-Found size zero i low whole big enough =
      find_node_round size zero i low whole big (λ le. absurd (omega arith))
  find_node-Found size (suc fuel) i low whole big enough =
      find_node_round size (suc fuel) i low whole big (λ le.
        find_node-Found size fuel (i + align) (omega arith) (omega arith) (omega arith)
          (omega arith))
