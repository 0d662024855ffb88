-- ===== src/SgiPool/Owned/Blocks.antt =====
-- One block goes onto its list, or off it.
use cpp_toy.Base.{
  ℕ, ◌+◌, ◌≤◌, ◌<◌, ◌≡◌, ◌≢◌, refl, sym, ap, ◌∙◌, subst, List, [], ◌∷◌, arith, put, put_same,
  put_other, Bool-cases, inl, inr, ◌==◌, ==_iff, ltb, ltb→lt, size_mod,
}
use cpp_toy.SgiPool.{Pool, push_free, pop_free}
use cpp_toy.SgiPool.Chains.{Chain}
use cpp_toy.SgiPool.Owned.{within, covers, size_of, Holds, margin}
use cpp_toy.SgiPool.Owned.Bytes.{within_first, total-put, total_at, Chain-put}

pushed-Chain :
    (next : ℕ → ℕ) (head p : ℕ) (xs : List ℕ)
    → p ≢ 0
    → Chain (put next p head) head xs
    → Chain (put next p head) p (p ∷ xs)
unfolding Chain
pushed-Chain next head p xs there c =
    (refl, there, subst (λ h. Chain (put next p head) h xs) (sym (put_same next head p)) c)

popped-Chain :
    (next : ℕ → ℕ) (head : ℕ) (xs : List ℕ)
    → head ≢ 0
    → Chain next head xs
    → (ys : List ℕ) × (xs ≡ head ∷ ys) × Chain next (next head) ys
unfolding Chain
popped-Chain next head [] there c = absurd (there c)
popped-Chain next head (x ∷ xs) there (e, nz, c) =
    (xs, ap (λ y. y ∷ xs) (sym e), subst (λ y. Chain next (next y) xs) (sym e) c)

pub weaken :
    {heap : ℕ → ℕ} {listed lent : ℕ → List ℕ} {extra next free_list : ℕ → ℕ} (extra' : ℕ → ℕ)
    → Holds heap listed lent extra next free_list
    → ((a : ℕ) → extra' a ≤ extra a)
    → Holds heap listed lent extra' next free_list
weaken extra' h le = record {
  chains = h.chains;
  no_more = h.no_more;
  once = λ a. omega (arith, h.once a, le a);
  single = h.single;
  no_null = h.no_null;
  ends = h.ends;
}

module _ {heap : ℕ → ℕ} {listed lent : ℕ → List ℕ} {extra : ℕ → ℕ} (s : Pool) where
  -- What is counted once is not null.
  pub owned-ne-null :
      Holds heap listed lent extra s.next s.free_list
      → (p n : ℕ) → 1 ≤ n
      → within p n p ≤ heap p
      → p ≢ 0
  owned-ne-null h p n pos le e = omega (arith, within_first p n pos, h.no_null, ap heap e)

  pub push-Holds :
      Holds heap listed lent extra s.next s.free_list
      → (j p : ℕ) → j < 16
      → (extra' : ℕ → ℕ) → ((a : ℕ) → extra' a + within p (size_of j) a ≤ extra a)
      → Holds heap
          (put listed j (p ∷ listed j))
          lent
          extra'
          (push_free j p s).next
          (push_free j p s).free_list
  unfolding push_free
  push-Holds h j p small extra' part = record {
    chains = pushed;
    no_more = λ k le. put_other s.free_list p j k (λ e. omega arith) ∙ h.no_more k le;
    once = λ a. omega (arith, h.once a, part a, total-put listed j (p ∷ listed j) 16 a small);
    single = h.single;
    no_null = h.no_null;
    ends = h.ends;
  }
    where
      free : (k : ℕ) → k < 16 → covers (size_of k) (listed k) p ≡ 0
      free k kl = omega (
        arith,
        h.once p,
        h.single p,
        part p,
        within_first p (size_of j) (omega arith),
        total_at listed k 16 p kl,
      )

      there : p ≢ 0
      there = owned-ne-null h p (size_of j) (omega arith) (omega (arith, h.once p, part p))

      kept : (k : ℕ) → k < 16 → Chain (put s.next p (s.free_list j)) (s.free_list k) (listed k)
      kept k kl =
          Chain-put (size_of k) s.next p (s.free_list j) (s.free_list k) (listed k) (omega arith)
            (free k kl) (h.chains k kl)

      pushed :
          (k : ℕ)
          → k < 16
          → Chain
              (put s.next p (s.free_list j))
              (put s.free_list j p k)
              (put listed j (p ∷ listed j) k)
      pushed k kl = elim (Bool-cases (k == j)) [
        | inl e ↦ rw e (pushed-Chain s.next (s.free_list j) p (listed j) there (kept j small))
        | inr e ↦ rw e (kept k kl)
      ]

  pub pop-Holds :
      Holds heap listed lent extra s.next s.free_list
      → (j : ℕ) → j < 16
      → s.free_list j ≢ 0
      → (xs : List ℕ) × (listed j ≡ s.free_list j ∷ xs)
        × Holds heap
            (put listed j xs)
            lent
            (λ a. extra a + within (s.free_list j) (size_of j) a)
            (pop_free j s).next
            (pop_free j s).free_list
  unfolding pop_free
  pop-Holds h j small there =
      let (xs, is, c) = popped-Chain s.next (s.free_list j) (listed j) there (h.chains j small) in
      (xs, is, popped h j small xs is c)
    where
      popped :
          Holds heap listed lent extra s.next s.free_list
          → (j : ℕ) → j < 16
          → (xs : List ℕ) → listed j ≡ s.free_list j ∷ xs
          → Chain s.next (s.next (s.free_list j)) xs
          → Holds heap
              (put listed j xs)
              lent
              (λ a. extra a + within (s.free_list j) (size_of j) a)
              s.next
              (put s.free_list j (s.next (s.free_list j)))
      popped h j small xs is c = record {
        chains =
            λ k kl. elim (Bool-cases (k == j)) [ inl e ↦ rw e c | inr e ↦ rw e (h.chains k kl) ];
        no_more = λ k le.
            put_other s.free_list (s.next (s.free_list j)) j k (λ e. omega arith) ∙ h.no_more k le;
        once = λ a. omega (
          arith,
          h.once a,
          total-put listed j xs 16 a small,
          ap (λ l. covers (size_of j) l a) is,
        );
        single = h.single;
        no_null = h.no_null;
        ends = h.ends;
      }

  -- The first block of a list ends before the last addresses.
  pub listed_fits :
      Holds heap listed lent extra s.next s.free_list
      → (j : ℕ) → j < 16
      → s.free_list j + margin < size_mod
  listed_fits h j small = elim (Bool-cases (s.free_list j == 0)) [
    | inl e ↦ omega (arith, (==_iff _ _).0 e)
    | inr e ↦
        let head = s.free_list j in
        let (xs, is, c) =
          popped-Chain s.next head (listed j) (λ z. ground arith) (h.chains j small) in
        not_ends head (h.ends head) (
          omega (
            arith,
            h.once head,
            total_at listed j 16 head small,
            ap (λ l. covers (size_of j) l head) is,
            within_first head (size_of j) (omega arith),
          ))
  ]
    where
      not_ends : (p : ℕ) → (size_mod ≤ p + margin → heap p ≡ 0) → 1 ≤ heap p → p + margin < size_mod
      not_ends p ends some_ = elim (Bool-cases (ltb (p + margin) size_mod)) [
        | inl e ↦ ltb→lt _ _ e
        | inr e ↦ absurd (omega (arith, ends (ground arith)))
      ]
