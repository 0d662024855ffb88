-- ===== src/Muduo/TcpServer/Lifetime.antt =====
-- The connections of a server, from `NewConnection` to `ConnectDestroyed`.
use cpp_toy.Base.{
  ℕ, ◌+◌, ◌≤◌, ◌<◌, ◌^◌, ◌%◌, ◌≡◌, ◌⊎◌, ap, inl, inr, List, [], ◌∷◌, Bool-cases, leb, leb→le, arith,
  ok,
}
use cpp_toy.Muduo.TcpServer.{
  Entry, establishes, destroys, Server, LoopPool, with_connection, get_next_loop, remove_connection,
  erase, remove_connection_in_loop,
}
use cpp_toy.Muduo.TcpServer.Counts.{
  match, here, named, established, destroyed, anywhere, here-append, named-append, snoc_task,
  here-le-named, assign_new, here-erase, erase_none, named-erase, match_cases,
}

-- A client connects, a connection that was established asks to be removed, perhaps again, or the main
-- loop runs a removal. The number of connections is an `int`, whose overflow is undefined: runs end
-- before it.
pub data Step : Server → Server → Type 0 where
  accepts :
      (s : Server) (io_loop : ℕ) (pool : LoopPool)
      → get_next_loop s.pool ≡ ok (io_loop, pool)
      → s.next_conn_id + 1 < 2 ^ 31
      → Step s (with_connection io_loop pool s)
  closes :
      (s : Server) (c : Entry)
      → 1 ≤ established c.loop c.id s.tasks
      → Step s (remove_connection c s)
  runs :
      (s : Server) (c : Entry) (rest : List Entry)
      → s.closing ≡ c ∷ rest
      → Step s (remove_connection_in_loop c rest s)

-- A connection is in the map and was not handed back, or it was and is not.
abbrev pub Placed : (kept handed_back established : ℕ) → Type 0
Placed k d e = ((d ≡ 0) × (k ≡ e)) ⊎ ((1 ≤ d) × (k ≡ 0) × (e ≡ 1))

pub record Inv (s : Server) : Type 0 where
  pub unique : (q : ℕ) → named q s.connections ≤ 1
  pub fresh : (q : ℕ) → s.next_conn_id ≤ q → (named q s.connections ≡ 0) × (anywhere q s.tasks ≡ 0)
  pub single : (l q : ℕ) → (established l q s.tasks ≤ anywhere q s.tasks) × (anywhere q s.tasks ≤ 1)
  pub apart :
      (l q : ℕ)
      → named q s.connections + established l q s.tasks
        ≤ anywhere q s.tasks + here l q s.connections
  pub placed :
      (l q : ℕ) → Placed (here l q s.connections) (destroyed l q s.tasks) (established l q s.tasks)
  pub known : (l q : ℕ) → (here l q s.closing ≡ 0) ⊎ (established l q s.tasks ≡ 1)
  pub answered : (l q : ℕ) → destroyed l q s.tasks + here l q s.closing ≡ here l q s.asked

with_connection-Inv :
    (io_loop : ℕ) (pool : LoopPool) (s : Server)
    → s.next_conn_id + 1 < 2 ^ 31
    → Inv s
    → Inv (with_connection io_loop pool s)
unfolding with_connection
with_connection-Inv io_loop pool s room h =
    let n = s.next_conn_id in
    let new : Entry = record { id = n; loop = io_loop } in
    let task = establishes io_loop n in
    let behind = assign_new new s.connections (h.fresh n (omega arith)).0 in
    let next : (n + 1) % 2 ^ 32 ≡ n + 1 = omega arith in
    rw (behind, next)
      (record {
        unique =
            λ q. ground (arith, h.unique q, h.fresh q, named-append q s.connections (new ∷ []));
        fresh = λ q le. ground (
          arith,
          h.fresh q (omega arith),
          named-append q s.connections (new ∷ []),
          snoc_task 0 q s.tasks task,
        );
        single = λ l q. ground (arith, h.single l q, h.fresh q, snoc_task l q s.tasks task);
        apart = λ l q. ground (
          arith,
          h.apart l q,
          here-append l q s.connections (new ∷ []),
          named-append q s.connections (new ∷ []),
          snoc_task l q s.tasks task,
        );
        placed = λ l q. ground (
          arith,
          h.placed l q,
          h.single l q,
          h.fresh q,
          here-append l q s.connections (new ∷ []),
          snoc_task l q s.tasks task,
        );
        known =
            λ l q. ground (arith, h.known l q, h.single l q, h.fresh q, snoc_task l q s.tasks task);
        answered = λ l q. omega (arith, h.answered l q, snoc_task l q s.tasks task);
      })

remove_connection-Inv :
    (c : Entry) (s : Server)
    → 1 ≤ established c.loop c.id s.tasks
    → Inv s
    → Inv (remove_connection c s)
unfolding remove_connection
remove_connection-Inv c s there h = record {
  unique = h.unique;
  fresh = h.fresh;
  single = h.single;
  apart = h.apart;
  placed = h.placed;
  known = λ l q. elim (match_cases c.loop c.id l q (λ x y. established x y s.tasks)) [
    | inl (m, same) ↦ inr (omega (arith, h.single l q, there, same))
    | inr m ↦ omega (arith, h.known l q, m, here-append l q s.closing (c ∷ []))
  ];
  answered = λ l q.
      omega (
        arith,
        h.answered l q,
        here-append l q s.closing (c ∷ []),
        here-append l q s.asked (c ∷ []),
      );
}

-- What the erasure does to a connection that was established.
erased_entry :
    (s : Server) (j i : ℕ)
    → Inv s
    → established j i s.tasks ≡ 1
    → (l q : ℕ)
    → (named q (erase i s.connections) ≤ named q s.connections)
      × (here l q s.connections + named q (erase i s.connections)
          ≤ here l q (erase i s.connections) + named q s.connections)
      × (((match j i l q ≡ 1) × (here l q (erase i s.connections) ≡ 0))
          ⊎ ((match j i l q ≡ 0) × (here l q (erase i s.connections) ≡ here l q s.connections)))
erased_entry s j i h was l q = elim (Bool-cases (leb 1 (here j i s.connections))) [
  | inl there ↦
      let found : 1 ≤ here j i s.connections = leb→le _ _ there in
      ground (
        arith,
        here-erase l q i j s.connections (h.unique i) found,
        named-erase q i s.connections (omega (arith, here-le-named j i s.connections, found)),
        here-le-named l q s.connections,
        h.unique q,
      )
  | inr absent ↦
      let none_here : here j i s.connections ≡ 0 = ground arith in
      let none_named : named i s.connections ≡ 0 =
        omega (arith, h.apart j i, h.single j i, was, none_here) in
      rw (erase_none i s.connections none_named)
        (elim (match_cases j i l q (λ x y. here x y s.connections)) [
          | inl (m, same) ↦ omega (arith, m, same, none_here)
          | inr m ↦ omega (arith, m)
        ])
]

remove_connection_in_loop-Inv :
    (c : Entry) (rest : List Entry) (s : Server)
    → s.closing ≡ c ∷ rest
    → Inv s
    → Inv (remove_connection_in_loop c rest s)
unfolding remove_connection_in_loop
remove_connection_in_loop-Inv c rest s e h =
    let was : established c.loop c.id s.tasks ≡ 1 =
      ground (arith, ap (here c.loop c.id) e, h.known c.loop c.id) in
    let task = destroys c.loop c.id in
    let erased = λ (l q : ℕ). erased_entry s c.loop c.id h was l q in
    record {
      unique = λ q. omega (arith, h.unique q, (erased 0 q).0);
      fresh = λ q le. omega (arith, h.fresh q le, (erased 0 q).0, snoc_task 0 q s.tasks task);
      single = λ l q. omega (arith, h.single l q, snoc_task l q s.tasks task);
      apart = λ l q. omega (arith, h.apart l q, erased l q, snoc_task l q s.tasks task);
      placed = λ l q. elim (match_cases c.loop c.id l q (λ x y. established x y s.tasks)) [
        | inl (m, same) ↦
            omega (arith, h.placed l q, m, same, was, erased l q, snoc_task l q s.tasks task)
        | inr m ↦ omega (arith, h.placed l q, m, erased l q, snoc_task l q s.tasks task)
      ];
      known = λ l q. omega (arith, h.known l q, ap (here l q) e, snoc_task l q s.tasks task);
      answered = λ l q. omega (arith, h.answered l q, ap (here l q) e, snoc_task l q s.tasks task);
    }

Step-Inv : {s s' : Server} → Step s s' → Inv s → Inv s'
Step-Inv (accepts s io_loop pool e room) h = with_connection-Inv io_loop pool s room h
Step-Inv (closes s c there) h = remove_connection-Inv c s there h
Step-Inv (runs s c rest e) h = remove_connection_in_loop-Inv c rest s e h

-- From a server without connections.
pub data Reach : Server → Type 0 where
  idle : (s : Server) → s.connections ≡ [] → s.closing ≡ [] → s.asked ≡ [] → s.tasks ≡ [] → Reach s
  step : {s s' : Server} → Reach s → Step s s' → Reach s'

pub Reach-Inv : {s : Server} → Reach s → Inv s
Reach-Inv (idle s no_conns no_closing no_asked no_tasks) = record {
  unique = λ q. omega (arith, ap (named q) no_conns);
  fresh = λ q le. (ap (named q) no_conns, ap (anywhere q) no_tasks);
  single = λ l q. omega (arith, ap (established l q) no_tasks, ap (anywhere q) no_tasks);
  apart = λ l q. omega (arith, ap (named q) no_conns, ap (established l q) no_tasks);
  placed = λ l q.
      omega
        (arith, ap (here l q) no_conns, ap (destroyed l q) no_tasks, ap (established l q) no_tasks);
  known = λ l q. inl (ap (here l q) no_closing);
  answered = λ l q.
      omega (arith, ap (here l q) no_closing, ap (here l q) no_asked, ap (destroyed l q) no_tasks);
}
Reach-Inv (step r t) = Step-Inv t (Reach-Inv r)

-- However clients come and go, and removals wait for the main loop: a connection is established at
-- most once in a loop; from then on either the map keeps it and it was not handed back, or it was
-- handed back to that same loop to be destroyed, and the map has it no more; and it is handed back as
-- often as it asked to be removed, but for the requests that are still on their way. The map has no
-- number twice.
pub kept_until_destroyed :
    {s : Server}
    → Reach s
    → (l q : ℕ)
    → Placed (here l q s.connections) (destroyed l q s.tasks) (established l q s.tasks)
      × (established l q s.tasks ≤ 1)
      × (named q s.connections ≤ 1)
      × (destroyed l q s.tasks + here l q s.closing ≡ here l q s.asked)
kept_until_destroyed r l q =
    let h = Reach-Inv r in (h.placed l q, omega (arith, h.single l q), h.unique q, h.answered l q)
