-- ===== src/NginxPool/Apart.antt =====
-- Small requests over a whole run, and what `malloc` gave for them. Where `malloc` never gives a byte
-- twice, no byte is in two requests.
use cpp_toy.Base.{
  ℕ, zero, suc, ◌-◌, ◌+◌, ◌^◌, ◌≤◌, ◌<◌, ◌≡◌, refl, ap, ◌∙◌, List, [], ◌∷◌, ◌++◌, map, arith,
  le→leb, Outcome, ok, ◌>>=◌, within, gives,
}
use cpp_toy.NginxPool.{SmallBlock, Pool, small_block_bytes, allocate}
use cpp_toy.NginxPool.Carving.{AreBlocks, Carved, here, there}
use cpp_toy.NginxPool.Growing.{place, map-append, IsPool, Fits}
use cpp_toy.NginxPool.Small.{Served, from_block, from_new, no_memory, allocate_small-Served}

pub record Request : Type 0 where
  pub address : ℕ
  pub size : ℕ

-- In how many requests the byte at `a` is. Null is none.
abbrev pub requested : (a : ℕ) → List Request → ℕ
requested a [] = 0
requested a (r ∷ rs) = gives r.address r.size a + requested a rs

-- In how many blocks it was handed out, and in how many it is at all.
abbrev pub used : (a : ℕ) → List (ℕ × ℕ × ℕ) → ℕ
used a [] = 0
used a ((address, start, end) ∷ ps) =
    within (address + small_block_bytes) (start - (address + small_block_bytes)) a + used a ps

abbrev pub covered : (a : ℕ) → List (ℕ × ℕ × ℕ) → ℕ
covered a [] = 0
covered a ((address, start, end) ∷ ps) = within address (end - address) a + covered a ps

-- How many of the first calls of `malloc` give it, all for one size.
abbrev pub given : (malloc : (call size : ℕ) → ℕ) (size calls a : ℕ) → ℕ
given malloc size zero a = 0
given malloc size (suc n) a = given malloc size n a + gives (malloc n size) size a

-- A run of requests.
unfoldable pub allocate_all :
    (malloc : (call size : ℕ) → ℕ) → List ℕ → Pool → Outcome (List Request × Pool)
allocate_all malloc [] s = ok ([], s)
allocate_all malloc (n ∷ ns) s = allocate malloc n s >>= λ r.
    allocate_all malloc ns r.1 >>= λ t. ok (record { address = r.0; size = n } ∷ t.0, t.1)

abbrev pub AreSmall : List ℕ → Type 0
AreSmall [] = Unit {0}
AreSmall (n ∷ ns) = (n ≤ 4095) × AreSmall ns

used-append : (a : ℕ) (ps qs : List (ℕ × ℕ × ℕ)) → used a (ps ++ qs) ≡ used a ps + used a qs
used-append a [] qs = omega arith
used-append a (p ∷ ps) qs = omega (arith, used-append a ps qs)

covered-append :
    (a : ℕ) (ps qs : List (ℕ × ℕ × ℕ)) → covered a (ps ++ qs) ≡ covered a ps + covered a qs
covered-append a [] qs = omega arith
covered-append a (p ∷ ps) qs = omega (arith, covered-append a ps qs)

used-le-covered :
    (a : ℕ) (bs : List SmallBlock) → AreBlocks bs → used a (map place bs) ≤ covered a (map place bs)
used-le-covered a [] h = omega arith
used-le-covered a (b ∷ bs) (hb, hs) = ground (arith, used-le-covered a bs hs, hb.low, hb.high)

cut :
    {size m : ℕ} {bs bs' : List SmallBlock} (a : ℕ)
    → Carved size m bs bs'
    → AreBlocks bs
    → (used a (map place bs) + within m size a ≤ used a (map place bs'))
      × (covered a (map place bs') ≡ covered a (map place bs))
cut a (here b bs low high al) (hb, hs) = (ground (arith, hb.low), refl)
cut a (there b c) (hb, hs) = omega (arith, cut a c hs)

-- What one request adds.
one_request :
    (malloc : (call size : ℕ) → ℕ) {size m : ℕ} {s s' : Pool} (a : ℕ)
    → Served malloc size m s s'
    → AreBlocks s.blocks
    → (used a (map place s.blocks) + gives m size a ≤ used a (map place s'.blocks))
      × (covered a (map place s'.blocks) + given malloc s.size s.calls a
          ≤ covered a (map place s.blocks) + given malloc s.size s'.calls a)
one_request malloc {size} {m} {s} {s'} a (from_block c calls) h = (
  ground (arith, (cut a c h).0),
  omega (arith, (cut a c h).1, ap (λ n. given malloc s.size n a) calls),
)
one_request malloc {size} {m} {s} {s'} a (from_new olds b e same hb at low end al long real calls)
      h =
    let split =
      ap (map place) e ∙ map-append place olds (b ∷ []) ∙ ap (λ ps. ps ++ place b ∷ []) same in
    (
      ground (arith, ap (used a) split, used-append a (map place s.blocks) (place b ∷ [])),
      ground (
        arith,
        ap (covered a) split,
        covered-append a (map place s.blocks) (place b ∷ []),
        ap (λ n. given malloc s.size n a) calls,
      ),
    )
one_request malloc {size} {m} {s} {s'} a (no_memory z null same calls) h = (
  ground (arith, ap (λ bs. used a (map place bs)) same),
  ground (arith, ap (λ bs. covered a (map place bs)) same, ap (λ n. given malloc s.size n a) calls),
)

abbrev pub sizes : List Request → List ℕ
sizes rs = map (λ (r : Request). r.size) rs

module _ (malloc : (call size : ℕ) → ℕ) (fits : Fits malloc) where
  -- A run returns, serves each size in turn, and hands out as many bytes as it says.
  record Ran (ns : List ℕ) (s : Pool) (rs : List Request) (s' : Pool) : Type 0 where
    returns : allocate_all malloc ns s ≡ ok (rs, s')
    in_turn : sizes rs ≡ ns
    is_pool : IsPool s'
    same_size : s'.size ≡ s.size
    hands_out :
        (a : ℕ) → used a (map place s.blocks) + requested a rs ≤ used a (map place s'.blocks)
    pays :
        (a : ℕ)
        → covered a (map place s'.blocks) + given malloc s.size s.calls a
          ≤ covered a (map place s.blocks) + given malloc s.size s'.calls a

  allocate_all-Ran :
      (ns : List ℕ) (s : Pool)
      → AreSmall ns
      → IsPool s
      → s.size < 2 ^ 63
      → (rs : List Request) × (s' : Pool) × Ran ns s rs s'
  unfolding allocate_all allocate
  allocate_all-Ran [] s small h le = (
    [],
    s,
    record {
      returns = refl;
      in_turn = refl;
      is_pool = h;
      same_size = refl;
      hands_out = λ a. omega arith;
      pays = λ a. omega arith;
    },
  )
  allocate_all-Ran (n ∷ ns) s (small, smalls) h le =
      let (m, u, served, hu, keeps, how) = allocate_small-Served malloc fits n s h le small in
      let (rs, s', r) = allocate_all-Ran ns u smalls hu (omega (arith, keeps.0)) in
      let one = λ (a : ℕ). one_request malloc a how h.are_blocks in
      (
        record { address = m; size = n } ∷ rs,
        s',
        record {
          returns = rw (le→leb n 4095 small, served, r.returns) refl;
          in_turn = ap (λ t. n ∷ t) r.in_turn;
          is_pool = r.is_pool;
          same_size = r.same_size ∙ keeps.0;
          hands_out = λ a. omega (arith, (one a).0, r.hands_out a);
          pays = λ a. omega (
            arith,
            (one a).1,
            r.pays a,
            ap (λ z. given malloc z u.calls a) keeps.0,
            ap (λ z. given malloc z s'.calls a) keeps.0,
          );
        },
      )

  -- Small requests share no byte. Any sequence of them, in a pool of a multiple of 16 bytes, at least
  -- 4144, returns, and serves each size in turn; where the pool's blocks come from its calls of
  -- `malloc`, and `malloc` gives no byte twice in blocks of the pool's size, each byte is in at most
  -- one of the requests served, and in none that was handed out before.
  pub allocate_all-apart :
      (ns : List ℕ) (s : Pool)
      → AreSmall ns
      → IsPool s
      → s.size < 2 ^ 63
      → ((a : ℕ) → covered a (map place s.blocks) ≤ given malloc s.size s.calls a)
      → ((calls a : ℕ) → given malloc s.size calls a ≤ 1)
      → (rs : List Request) × (s' : Pool) × (allocate_all malloc ns s ≡ ok (rs, s'))
        × (sizes rs ≡ ns)
        × IsPool s'
        × ((a : ℕ) → used a (map place s.blocks) + requested a rs ≤ 1)
  allocate_all-apart ns s small h le from_malloc apart =
      let (rs, s', r) = allocate_all-Ran ns s small h le in
      (
        rs,
        s',
        r.returns,
        r.in_turn,
        r.is_pool,
        λ a. omega (
          arith,
          r.hands_out a,
          r.pays a,
          used-le-covered a s'.blocks r.is_pool.are_blocks,
          from_malloc a,
          apart s'.calls a,
        ),
      )
