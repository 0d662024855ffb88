-- ===== src/NginxPool/Large.antt =====
-- The large blocks: which the pool holds, and which it has given back to the system.
use cpp_toy.Base.{
  once, ℕ, suc, ◌+◌, ◌^◌, ◌<◌, ◌≡◌, ◌≢◌, ◌⊎◌, inl, inr, refl, sym, ap, List, [], ◌∷◌, ◌++◌, none,
  some, ltb, ◌==◌, ==_iff, Bool-cases, arith, ok,
}
use cpp_toy.NginxPool.{
  LargeBlock, CleanupBlock, Effect, frees, handles, Pool, large_block_bytes, reuse, link_large,
  allocate_large, handled, freed, freed_at, cleared_at, large_free, reset,
}
use cpp_toy.NginxPool.Growing.{IsPool, Fits, Keeps}
use cpp_toy.NginxPool.Small.{Served, from_block, from_new, no_memory, allocate_small-Served}
use cpp_toy.NginxPool.Carving.{Carved-positive}

-- How many nodes hold `q`.
abbrev pub held : ℕ → List LargeBlock → ℕ
held q [] = 0
held q (l ∷ ls) = once l.alloc q + held q ls

-- How many times `q` was given to `free`.
abbrev pub releases : ℕ → List Effect → ℕ
releases q [] = 0
releases q (frees p ∷ es) = once p q + releases q es
releases q (handles h d ∷ es) = releases q es

releases-append :
    (q : ℕ) (xs ys : List Effect) → releases q (xs ++ ys) ≡ releases q xs + releases q ys
releases-append q [] ys = omega arith
releases-append q (frees p ∷ xs) ys = omega (arith, releases-append q xs ys)
releases-append q (handles h d ∷ xs) ys = releases-append q xs ys

reuse-held :
    (n p q : ℕ) (ls : List LargeBlock)
    → q ≢ 0
    → (reuse n p ls ≡ none)
      ⊎ ((r : List LargeBlock) × (reuse n p ls ≡ some r) × (held q r ≡ held q ls + once p q))
unfolding reuse
reuse-held n p q [] nz = inl refl
reuse-held n p q (l ∷ ls) nz = elim (Bool-cases (l.alloc == 0)) [
  | inl e ↦ rw e (inr (_, refl, ground arith))
  | inr e ↦ rw e (elim (Bool-cases (ltb 3 n)) [
    | inl f ↦ rw f (inl refl)
    | inr f ↦ rw f (elim (reuse-held (n + 1) p q ls nz) [
      | inl g ↦ rw g (inl refl)
      | inr g ↦ rw g.1 (inr (_, refl, omega (arith, g.2)))
    ])
  ])
]

freed-releases : (q : ℕ) (ls : List LargeBlock) → q ≢ 0 → releases q (freed ls) ≡ held q ls
freed-releases q [] nz = refl
freed-releases q (l ∷ ls) nz = ground (arith, freed-releases q ls nz)

handled-releases : (q : ℕ) (cs : List CleanupBlock) → releases q (handled cs) ≡ 0
handled-releases q [] = refl
handled-releases q (c ∷ cs) = ground (arith, handled-releases q cs)

freed_at-releases :
    (p q : ℕ) (ls : List LargeBlock)
    → q ≢ 0
    → releases q (freed_at p ls) + held q (cleared_at p ls) ≡ held q ls
freed_at-releases p q [] nz = refl
freed_at-releases p q (l ∷ ls) nz = ground (arith, freed_at-releases p q ls nz)

cleared_at-held : (p : ℕ) (ls : List LargeBlock) → p ≢ 0 → held p (cleared_at p ls) ≡ 0
cleared_at-held p [] nz = refl
cleared_at-held p (l ∷ ls) nz = ground (arith, cleared_at-held p ls nz)

-- How often the pool has the block `q`: it holds it or has given it back.
abbrev pub total : ℕ → Pool → ℕ
total q s = releases q s.effects + held q s.large

-- `LargeFree` gives back every block at `p` that the pool holds and no other, once, and then holds
-- none at `p`; `Reset` gives back each that it holds once, and holds none.
pub large_free-reset :
    (p q : ℕ) (s : Pool)
    → p ≢ 0
    → q ≢ 0
    → (total q (large_free p s) ≡ total q s)
      × (held p (large_free p s).large ≡ 0)
      × (q ≢ p → held q (large_free p s).large ≡ held q s.large)
      × (releases q (reset s).effects ≡ total q s)
      × (held q (reset s).large ≡ 0)
unfolding large_free reset
large_free-reset p q s hp hq = (
  omega (arith, releases-append q s.effects (freed_at p s.large), freed_at-releases p q s.large hq),
  cleared_at-held p s.large hp,
  (λ ne. cleared_at-others p q s.large hq ne),
  omega (
    arith,
    releases-append q s.effects (handled s.cleanup ++ freed s.large),
    releases-append q (handled s.cleanup) (freed s.large),
    handled-releases q s.cleanup,
    freed-releases q s.large hq,
  ),
  refl,
)
  where
    cleared_at-others :
        (p q : ℕ) (ls : List LargeBlock) → q ≢ 0 → q ≢ p → held q (cleared_at p ls) ≡ held q ls
    cleared_at-others p q [] nz ne = refl
    cleared_at-others p q (l ∷ ls) nz ne = ground (arith, cleared_at-others p q ls nz ne)

still-IsPool :
    (s : Pool) {calls : ℕ} {large : List LargeBlock} {effects : List Effect}
    → IsPool s
    → IsPool (record s { calls = calls; large = large; effects = effects })
still-IsPool s h = record {
  are_blocks = h.are_blocks;
  has_current = h.has_current;
  aligned_size = h.aligned_size;
  roomy = h.roomy;
}

module _ (malloc : (call size : ℕ) → ℕ) (fits : Fits malloc) where
  -- A request always returns, and keeps account of what `malloc` gave: the block is returned and the
  -- pool holds it once more, or, only where `malloc` has no memory for a new small block for its node,
  -- null is returned and the block was given back. What is held besides does not change.
  pub allocate_large-total :
      (size q : ℕ) (s : Pool)
      → IsPool s
      → s.size < 2 ^ 63
      → q ≢ 0
      → (p : ℕ) × (s' : Pool) × (allocate_large malloc size s ≡ ok (p, s'))
        × IsPool s'
        × (total q s' ≡ total q s + once (malloc s.calls size) q)
        × ((p ≡ malloc s.calls size) × (held q s'.large ≡ held q s.large + once p q)
            ⊎ (p ≡ 0) × (malloc (suc s.calls) s.size ≡ 0) × (held q s'.large ≡ held q s.large))
  unfolding allocate_large link_large
  allocate_large-total size q s h small nz = elim (Bool-cases (malloc s.calls size == 0)) [
    | inl e ↦ rw e (
      0,
      asked,
      refl,
      asked-IsPool,
      omega (arith, once_null q nz ((==_iff _ _).0 e)),
      inl (sym ((==_iff _ _).0 e), ground arith),
    )
    | inr e ↦ rw e (elim (reuse-held 0 (malloc s.calls size) q s.large nz) [
      | inr r ↦ rw r.1 (_, _, refl, still-IsPool s h, omega (arith, r.2), inl (refl, r.2))
      | inl n ↦
          let (node, s', served, h', keeps, how) =
            allocate_small-Served malloc fits large_block_bytes asked asked-IsPool small
              (omega arith) in
          rw (n, served) (linked node s' h' keeps (null_node node s' how))
    ])
  ]
    where
      asked : Pool
      asked = record s { calls = suc s.calls }

      asked-IsPool : IsPool asked
      asked-IsPool = still-IsPool s h

      once_null : (x : ℕ) → x ≢ 0 → malloc s.calls size ≡ 0 → once (malloc s.calls size) x ≡ 0
      once_null x ne e = ground arith

      -- A node at null is one for which `malloc` gave no block.
      null_node :
          (node : ℕ) (s' : Pool)
          → Served malloc large_block_bytes node asked s'
          → node ≡ 0
          → malloc (suc s.calls) s.size ≡ 0
      null_node node s' (from_block c _) z =
          absurd (omega (arith, Carved-positive c asked-IsPool.are_blocks))
      null_node node s' (from_new olds b _ _ _ _ low _ _ _ _ _) z = absurd (omega arith)
      null_node node s' (no_memory e _ _ _) z = e

      linked :
          (node : ℕ) (s' : Pool)
          → IsPool s'
          → Keeps asked s'
          → (node ≡ 0 → malloc (suc s.calls) s.size ≡ 0)
          → (p : ℕ) × (t : Pool) × (ok (link_large (malloc s.calls size) node s') ≡ ok (p, t))
            × IsPool t
            × (total q t ≡ total q s + once (malloc s.calls size) q)
            × ((p ≡ malloc s.calls size) × (held q t.large ≡ held q s.large + once p q)
                ⊎ (p ≡ 0) × (malloc (suc s.calls) s.size ≡ 0) × (held q t.large ≡ held q s.large))
      linked node s' h' keeps null = elim (Bool-cases (node == 0)) [
        | inl e ↦
            rw (e, link_large)
              (
                0,
                _,
                refl,
                still-IsPool s' h',
                (omega (
                  arith,
                  releases-append q s'.effects (frees (malloc s.calls size) ∷ []),
                  ap (held q) keeps.1,
                  ap (releases q) keeps.3,
                )),
                inr (refl, null ((==_iff _ _).0 e), ap (held q) keeps.1),
              )
        | inr e ↦
            rw (e, link_large)
              (
                _,
                _,
                refl,
                still-IsPool s' h',
                (omega (arith, ap (held q) keeps.1, ap (releases q) keeps.3)),
                inl (refl, (omega (arith, ap (held q) keeps.1))),
              )
      ]
