-- ===== src/SgiPool/Owned/Memory.antt =====
-- Where `AllocChunk` gets more memory: every way to a new range keeps one owner for each byte.
use cpp_toy.Base.{
  ℕ, ◌+◌, ◌%◌, ◌^◌, ◌≤◌, ◌<◌, ◌≡◌, ◌≢◌, refl, sym, ◌∙◌, List, arith, Bool-cases, inl, inr, ◌==◌,
  ==_iff, Outcome, ok, ◌>>=◌, Option, false≢true,
}
use cpp_toy.SgiPool.{Pool, find_node, search_fuel, call_malloc, got_memory, after_search, new_range}
use cpp_toy.SgiPool.Owned.{within, Holds, gives, IsMalloc, IsFresh, NotTwice, nothing, Owned}
use cpp_toy.SgiPool.Owned.Search.{NewRange, Found, found, absent, same_within, find_node-Found}

-- The heap with what a call of `malloc` gave.
abbrev grown : (heap : ℕ → ℕ) (m n : ℕ) → ℕ → ℕ
grown heap m n a = heap a + within m n a

not_first : (m n : ℕ) → m ≢ 0 → within m n 0 ≡ 0
not_first m n h = ground arith

outside : (m n a : ℕ) → m + n ≤ a → within m n a ≡ 0
outside m n a h = ground arith

gives_within : (m n a : ℕ) → m ≢ 0 → gives m n a ≡ within m n a
gives_within m n a h = ground arith

module _ {malloc : (call size : ℕ) → ℕ} (real : IsMalloc malloc) {heap : ℕ → ℕ}
    {listed lent : ℕ → List ℕ} (s : Pool) (h : Holds heap listed lent nothing s.next s.free_list)
    (unused : IsFresh malloc s.calls heap) (n : ℕ) (words : n % 8 ≡ 0) (small : n < 2 ^ 48) where
  grown-Owned :
      malloc s.calls n ≢ 0
      → Owned malloc
          (grown heap (malloc s.calls n) n)
          listed
          lent
          (got_memory malloc n (call_malloc malloc n s))
  unfolding got_memory call_malloc
  grown-Owned there = record {
    holds = record {
      chains = h.chains;
      no_more = h.no_more;
      once = λ a. omega (arith, h.once a, same_within (malloc s.calls n) n n a refl);
      single = λ a. omega (
        arith,
        unused s.calls n a (omega arith) small,
        gives_within (malloc s.calls n) n a there,
      );
      no_null = omega (arith, h.no_null, not_first (malloc s.calls n) n there);
      ends = λ a e. omega (
        arith,
        h.ends a e,
        outside (malloc s.calls n) n a (omega (arith, real.room s.calls n small)),
      );
    };
    order = omega arith;
    whole = omega arith;
    fits = omega (arith, real.room s.calls n small);
    unused = λ c k a le fits. omega (
      arith,
      unused c k a (omega arith) fits,
      unused s.calls n a (omega arith) small,
      real.apart s.calls c n k a (λ e. omega arith) small fits,
      gives_within (malloc s.calls n) n a there,
    );
  }

  grown-NewRange :
      (size : ℕ)
      → size ≤ n
      → malloc s.calls n ≢ 0
      → NewRange malloc listed lent size (got_memory malloc n (call_malloc malloc n s))
  unfolding got_memory call_malloc
  grown-NewRange size le there = record {
    heap = grown heap (malloc s.calls n) n;
    listed' = listed;
    owned = grown-Owned there;
    has_room = omega arith;
    still_empty = λ j _ e. e;
  }

module _ {malloc : (call size : ℕ) → ℕ} (real : IsMalloc malloc) {heap : ℕ → ℕ}
    {listed lent : ℕ → List ℕ} (s : Pool) (h : Holds heap listed lent nothing s.next s.free_list)
    (unused : IsFresh malloc s.calls heap) (second : NotTwice malloc s.calls) (n : ℕ)
    (words : n % 8 ≡ 0) (small : n < 2 ^ 48) (size : ℕ) (le : size ≤ n) where
  searched :
      malloc s.calls n ≡ 0
      → (o : Outcome (Option Pool)) → Found malloc listed lent size o
      → (s' : Pool) × ((o >>= λ f. ok (after_search malloc n (call_malloc malloc n s) f)) ≡ ok s')
        × NewRange malloc listed lent size s'
  unfolding after_search call_malloc
  searched null _ (found s' r) = (s', refl, r)
  searched null _ absent = (
    _,
    refl,
    grown-NewRange real (record (call_malloc malloc n s) { end_free = 0 }) h
        (λ c k a low fits. unused c k a (omega arith) fits) n words small size le (second n null),
  )

  pub new_range-Owned :
      1 ≤ size
      → size % 8 ≡ 0
      → (s' : Pool) × (new_range malloc size n s ≡ ok s') × NewRange malloc listed lent size s'
  unfolding new_range call_malloc
  new_range-Owned low whole = elim (Bool-cases (malloc s.calls n == 0)) [
    | inr e ↦ rw e (
      _,
      refl,
      grown-NewRange real s h unused n words small size le
          (λ z. false≢true (sym e ∙ (==_iff _ _).1 z)),
    )
    | inl e ↦ rw e (
        searched ((==_iff _ _).0 e) (find_node search_fuel size (call_malloc malloc n s)) (
          find_node-Found (call_malloc malloc n s) h
            (λ c k a low fits. unused c k a (omega arith) fits) size 16 size low whole (omega arith)
            (omega arith)))
  ]
