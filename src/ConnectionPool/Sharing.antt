-- ===== src/ConnectionPool/Sharing.antt =====
-- The pool among its clients and its two threads: who has which connection.
use cpp_toy.Base.{
  ℕ, zero, suc, ◌+◌, ◌≤◌, ◌<◌, ◌≡◌, ◌⊎◌, inl, inr, refl, sym, ap, subst, ◌∙◌, List, [], ◌∷◌, ◌++◌,
  map, length, length-append, once, count, count-append, ltb, ◌==◌, ltb→lt, Bool-cases, if_cases,
  if◌then◌else◌, arith, ok, fail, out_of_range,
}
use cpp_toy.ConnectionPool.{
  Connection, Pool, add_connection, add_connections, create, produce_connection, take_front,
  get_connection, remove, give_back, check_idle_connections,
}
use cpp_toy.ConnectionPool.Scanner.{Scanned, scan-Scanned}

abbrev pub ids : List Connection → List ℕ
ids cs = map (λ (c : Connection). c.id) cs

-- One round of a thread, or one call of a client.
pub data Step : Pool → Pool → Type 0 where
  produces : (s : Pool) (now : ℕ) → s.queue ≡ [] → Step s (produce_connection now s)
  gets : (s : Pool) → Step s (get_connection s).1
  gives_back : (s : Pool) (id now : ℕ) → 1 ≤ count id s.lent → Step s (give_back id now s)
  scans : (s s' : Pool) (now : ℕ) → check_idle_connections now s ≡ ok s' → Step s s'

-- From a pool whose count starts at 0.
pub data Reach : Pool → Type 0 where
  created :
      (init_size max_size max_idle_time now : ℕ)
      → Reach (create 0 init_size max_size max_idle_time now)
  step : {s s' : Pool} → Reach s → Step s s' → Reach s'

abbrev pub made_once : ℕ → Pool → ℕ
made_once q s = if ltb q s.made then 1 else 0

pub record Inv (s : Pool) : Type 0 where
  pub counted : s.current ≡ length s.queue + length s.lent
  pub below : (s.current ≤ s.max_size) ⊎ (s.current ≤ s.init_size)
  pub somewhere :
      (q : ℕ) → count q (ids s.queue) + count q s.lent + count q s.closed ≡ made_once q s

ids-append : (xs ys : List Connection) → ids (xs ++ ys) ≡ ids xs ++ ids ys
ids-append [] ys = refl
ids-append (x ∷ xs) ys = ap (λ r. x.id ∷ r) (ids-append xs ys)

count-ids_snoc :
    (q : ℕ) (cs : List Connection) (c : Connection)
    → count q (ids (cs ++ c ∷ [])) ≡ count q (ids cs) + once c.id q
count-ids_snoc q cs c =
    omega (arith, ap (count q) (ids-append cs (c ∷ [])), count-append q (ids cs) (c.id ∷ []))

length-remove : (i : ℕ) (xs : List ℕ) → 1 ≤ count i xs → suc (length (remove i xs)) ≡ length xs
length-remove i [] h = absurd (omega arith)
length-remove i (x ∷ xs) h = elim (Bool-cases (x == i)) [
  | inl e ↦ rw e refl
  | inr e ↦ rw e (ap suc (length-remove i xs (ground arith)))
]

count-remove :
    (q i : ℕ) (xs : List ℕ) → 1 ≤ count i xs → count q (remove i xs) + once i q ≡ count q xs
count-remove q i [] h = absurd (omega arith)
count-remove q i (x ∷ xs) h = elim (Bool-cases (x == i)) [
  | inl e ↦ rw e (ground arith)
  | inr e ↦ rw e (omega (arith, count-remove q i xs (ground arith)))
]

add_connection-Inv :
    (now : ℕ) (s : Pool)
    → (s.current < s.max_size) ⊎ (s.current < s.init_size)
    → Inv s
    → Inv (add_connection now s)
unfolding add_connection
add_connection-Inv now s free h = record {
  counted =
      omega
        (arith, h.counted, length-append s.queue (record { id = s.made; alive_time = now } ∷ []));
  below = omega arith;
  somewhere = λ q.
      ground
        (arith, h.somewhere q, count-ids_snoc q s.queue (record { id = s.made; alive_time = now }));
}

take_front-Inv : (cs : List Connection) (s : Pool) → s.queue ≡ cs → Inv s → Inv (take_front cs s).1
unfolding take_front
take_front-Inv [] s e h = h
take_front-Inv (c ∷ cs) s e h = record {
  counted = omega (arith, h.counted, ap length e);
  below = h.below;
  somewhere = λ q. omega (arith, h.somewhere q, ap (λ r. count q (ids r)) e);
}

give_back-Inv : (id now : ℕ) (s : Pool) → 1 ≤ count id s.lent → Inv s → Inv (give_back id now s)
unfolding give_back
give_back-Inv id now s lent h = record {
  counted = omega (
    arith,
    h.counted,
    length-remove id s.lent lent,
    length-append s.queue (record { id = id; alive_time = now } ∷ []),
  );
  below = h.below;
  somewhere = λ q. omega (
    arith,
    h.somewhere q,
    count-remove q id s.lent lent,
    count-ids_snoc q s.queue (record { id = id; alive_time = now }),
  );
}

Scanned-Inv : {now : ℕ} {s s' : Pool} → Scanned now s.queue s s' → Inv s → Inv s'
Scanned-Inv {now} {s} {s'} c h = record {
  counted = omega (
    arith,
    h.counted,
    c.counts,
    ap length c.splits,
    length-append c.gone s'.queue,
    ap length c.same.0,
  );
  below = omega (arith, h.below, c.counts, c.same.3, c.same.2);
  somewhere = λ q. omega (
    arith,
    h.somewhere q,
    c.closes q,
    ap (λ r. count q (ids r)) c.splits,
    ap (count q) (ids-append c.gone s'.queue),
    count-append q (ids c.gone) (ids s'.queue),
    ap (count q) c.same.0,
    ap {B = ℕ} (λ (m : ℕ). if ltb q m then 1 else 0) c.same.1,
  );
}

add_connections-Inv :
    (n now : ℕ) (s : Pool) → s.current + n ≤ s.init_size → Inv s → Inv (add_connections n now s)
unfolding add_connections add_connection
add_connections-Inv zero now s room h = h
add_connections-Inv (suc n) now s room h =
    add_connections-Inv n now (add_connection now s) (omega arith)
      (add_connection-Inv now s (inr (omega arith)) h)

check_idle_connections-Inv :
    (now : ℕ) (s s' : Pool) → check_idle_connections now s ≡ ok s' → Inv s → Inv s'
unfolding check_idle_connections
check_idle_connections-Inv now s s' e h = elim (scan-Scanned now s.queue s refl) [
  | inl out ↦ let clash : fail out_of_range ≡ ok s' = sym out ∙ e in absurd cc
  | inr r ↦
      let same : ok r.0 ≡ ok s' = sym r.1 ∙ e in
      let same_pool : r.0 ≡ s' = cc in
      Scanned-Inv (subst (λ t. Scanned now s.queue s t) same_pool r.2) h
]

Step-Inv : {s s' : Pool} → Step s s' → Inv s → Inv s'
unfolding produce_connection get_connection
Step-Inv (produces s now e) h =
    if_cases Inv (ltb s.current s.max_size) (λ f. add_connection-Inv now s (inl (ltb→lt _ _ f)) h)
      (λ f. h)
Step-Inv (gets s) h = take_front-Inv s.queue s refl h
Step-Inv (gives_back s id now lent) h = give_back-Inv id now s lent h
Step-Inv (scans s s' now e) h = check_idle_connections-Inv now s s' e h

Reach-Inv : {s : Pool} → Reach s → Inv s
unfolding create
Reach-Inv (created init_size max_size max_idle_time now) =
    add_connections-Inv init_size now _ (omega arith)
      (record { counted = refl; below = omega arith; somewhere = λ q. ground arith })
Reach-Inv (step r t) = Step-Inv t (Reach-Inv r)

-- Whatever clients and the two threads do, from a count that starts at 0: each connection that was
-- made is in exactly one place, once (in the queue, with one client, or closed), the count is that of
-- the connections in the queue and with clients, and never above the larger of the maximum and of
-- the initial number, of which the constructor makes as many whatever the maximum is.
pub shared_once :
    {s : Pool}
    → Reach s
    → ((q : ℕ) → count q (ids s.queue) + count q s.lent + count q s.closed ≡ made_once q s)
      × (s.current ≡ length s.queue + length s.lent)
      × ((s.current ≤ s.max_size) ⊎ (s.current ≤ s.init_size))
shared_once r = let h = Reach-Inv r in (h.somewhere, h.counted, h.below)
