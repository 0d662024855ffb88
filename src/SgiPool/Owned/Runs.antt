-- ===== src/SgiPool/Owned/Runs.antt =====
-- Clients that request blocks of up to 128 bytes and give them back.
use cpp_toy.Base.{
  ℕ, ◌-◌, ◌+◌, ◌/◌, ◌^◌, ◌≤◌, ◌<◌, ◌≡◌, ◌≢◌, refl, sym, ap, ◌∙◌, subst, List, [], ◌∷◌, ◌++◌, arith,
  put, ge→ltb, ok,
}
use cpp_toy.SgiPool.{Pool, fresh, align, max_bytes, round_up, push_free, allocate, deallocate}
use cpp_toy.SgiPool.Sizes.{list_of_lem}
use cpp_toy.SgiPool.Chains.{Chain}
use cpp_toy.SgiPool.Owned.{
  within, covers, total, size_of, Holds, range, IsMalloc, NotTwice, Owned, nothing,
}
use cpp_toy.SgiPool.Owned.Bytes.{covers-append, total-put}
use cpp_toy.SgiPool.Owned.Blocks.{owned-ne-null, push-Holds}
use cpp_toy.SgiPool.Lists.{neq→==}
use cpp_toy.SgiPool.Owned.Serving.{allocate-Owned, round_up-size_of}

-- `lent` has the blocks that the clients hold, by size. A client gives a block back with the size of
-- its request, or another one of the same list.
pub data Run (malloc : (call size : ℕ) → ℕ) : Pool → (ℕ → List ℕ) → Type 0 where
  begins : Run malloc fresh (λ i. [])
  allocates :
      {s s' : Pool} {lent : ℕ → List ℕ} (n p : ℕ)
      → Run malloc s lent
      → s.heap_size < 2 ^ 47
      → NotTwice malloc s.calls
      → 1 ≤ n
      → n ≤ max_bytes
      → allocate malloc n s ≡ ok (p, s')
      → Run malloc s' (put lent ((n - 1) / align) (p ∷ lent ((n - 1) / align)))
  deallocates :
      {s s' : Pool} {lent : ℕ → List ℕ} (n p : ℕ) (xs ys : List ℕ)
      → Run malloc s lent
      → 1 ≤ n
      → n ≤ max_bytes
      → lent ((n - 1) / align) ≡ xs ++ p ∷ ys
      → deallocate p n s ≡ ok s'
      → Run malloc s' (put lent ((n - 1) / align) (xs ++ ys))

take_back :
    {heap : ℕ → ℕ} {listed lent : ℕ → List ℕ} {extra next free_list : ℕ → ℕ} (i p : ℕ)
    (xs ys : List ℕ)
    → Holds heap listed lent extra next free_list
    → i < 16
    → lent i ≡ xs ++ p ∷ ys
    → Holds heap listed
        (put lent i (xs ++ ys))
        (λ a. extra a + within p (size_of i) a)
        next
        free_list
take_back {lent = lent} i p xs ys h small e = record {
  chains = h.chains;
  no_more = h.no_more;
  once = λ a. omega (
    arith,
    h.once a,
    total-put lent i (xs ++ ys) 16 a small,
    ap (λ l. covers (size_of i) l a) e,
    covers-append (size_of i) xs (p ∷ ys) a,
    covers-append (size_of i) xs ys a,
  );
  single = h.single;
  no_null = h.no_null;
  ends = h.ends;
}

deallocate-Owned :
    {malloc : (call size : ℕ) → ℕ} {heap : ℕ → ℕ} {listed lent : ℕ → List ℕ} (n p : ℕ)
    (xs ys : List ℕ) (s : Pool)
    → Owned malloc heap listed lent s
    → 1 ≤ n
    → n ≤ max_bytes
    → lent ((n - 1) / align) ≡ xs ++ p ∷ ys
    → (s' : Pool) × (deallocate p n s ≡ ok s')
      × (listed' : ℕ → List ℕ) × Owned malloc heap listed'
          (put lent ((n - 1) / align) (xs ++ ys))
          s'
unfolding deallocate push_free
deallocate-Owned {listed = listed} n p xs ys s h low high e =
    let i = (n - 1) / align in
    let h' = take_back i p xs ys h.holds (omega arith) e in
    let there = owned-ne-null s h' p (size_of i) (omega arith) (omega (arith, h'.once p)) in
    rw
      (
        neq→== p 0 there,
        neq→== n 0 (λ z. omega arith),
        ge→ltb max_bytes n high,
        list_of_lem n low high,
      )
      (
        push_free i p s,
        refl,
        put listed i (p ∷ listed i),
        record {
          holds = push-Holds s h' i p (omega arith) (range s) (λ a. omega arith);
          order = h.order;
          whole = h.whole;
          fits = h.fits;
          unused = h.unused;
        },
      )

-- What owns the bytes, somehow.
abbrev IsOwned : (malloc : (call size : ℕ) → ℕ) → (ℕ → List ℕ) → Pool → Type 0
IsOwned malloc lent s = (heap : ℕ → ℕ) × (listed : ℕ → List ℕ) × Owned malloc heap listed lent s

ok_same : {A : Type 0} {x y : A} → ok x ≡ ok y → x ≡ y
ok_same e = cc

module _ {malloc : (call size : ℕ) → ℕ} (real : IsMalloc malloc) where
  fresh-Owned : Owned malloc nothing (λ i. []) (λ i. []) fresh
  unfolding Chain
  fresh-Owned = record {
    holds = record {
      chains = λ j _. refl;
      no_more = λ j _. refl;
      once = λ a. ground arith;
      single = λ a. omega arith;
      no_null = refl;
      ends = λ a _. refl;
    };
    order = omega arith;
    whole = refl;
    fits = omega arith;
    unused = λ c n a _ _. ground arith;
  }

  Run-Owned : {s : Pool} {lent : ℕ → List ℕ} → Run malloc s lent → IsOwned malloc lent s
  Run-Owned begins = (nothing, (λ i. []), fresh-Owned)
  Run-Owned (allocates {s} {s'} {lent} n p r room second low high e) =
      let (heap, listed, h) = Run-Owned r in
      let (q, t, f, d) = allocate-Owned real n s h room second low high in
      subst
        (λ (x : ℕ × Pool).
          IsOwned malloc (put lent ((n - 1) / align) (x.0 ∷ lent ((n - 1) / align))) x.1)
        (ok_same (sym f ∙ e)) (d.heap, d.listed, d.owned)
  Run-Owned (deallocates {s} {s'} {lent} n p xs ys r low high e f) =
      let (heap, listed, h) = Run-Owned r in
      let (t, g, listed', o) = deallocate-Owned n p xs ys s h low high e in
      subst (IsOwned malloc (put lent ((n - 1) / align) (xs ++ ys))) (ok_same (sym g ∙ f))
        (heap, listed', o)

  -- However clients request blocks of 1 to 128 bytes and give them back, no byte is ever at two
  -- places: the sixteen lists link blocks of their sizes in memory, and each byte is in one of these
  -- blocks, in one block of a client, or in the range that is not handed out, or in none of them.
  -- Of `malloc` it is asked that its blocks are disjoint and end before the last addresses; at each
  -- request it does not refuse two calls in a row, and the heap has less than 2 ^ 47 bytes.
  pub one_owner :
      {s : Pool} {lent : ℕ → List ℕ}
      → Run malloc s lent
      → (listed : ℕ → List ℕ) × ((j : ℕ) → j < 16 → Chain s.next (s.free_list j) (listed j))
        × ((a : ℕ) → total listed 16 a + total lent 16 a + range s a ≤ 1)
  one_owner r =
      let (heap, listed, h) = Run-Owned r in
      (listed, h.holds.chains, λ a. omega (arith, h.holds.once a, h.holds.single a))

  -- After any such run a request of 1 to 128 bytes is served, with a block that is not null, has
  -- the size of its list and shares no byte with any block that a client holds. The conditions are
  -- the same.
  pub served_apart :
      {s : Pool} {lent : ℕ → List ℕ} (n a : ℕ)
      → Run malloc s lent
      → s.heap_size < 2 ^ 47
      → NotTwice malloc s.calls
      → 1 ≤ n
      → n ≤ max_bytes
      → (p : ℕ) × (s' : Pool) × (allocate malloc n s ≡ ok (p, s'))
        × (p ≢ 0)
        × (within p (round_up n) a + total lent 16 a ≤ 1)
  served_apart {s} {lent} n a r room second low high =
      let (heap, listed, h) = Run-Owned r in
      let (p, s', e, d) = allocate-Owned real n s h room second low high in
      let i = (n - 1) / align in
      (
        p,
        s',
        e,
        d.there,
        omega (
          arith,
          d.owned.holds.once a,
          d.owned.holds.single a,
          total-put lent i (p ∷ lent i) 16 a (omega arith),
          ap (λ k. within p k a) (round_up-size_of n low high),
        ),
      )
