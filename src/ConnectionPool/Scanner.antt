-- ===== src/ConnectionPool/Scanner.antt =====
-- `CheckIdleConnectionTask`: what it closes, and when it reads the front of an empty queue.
use cpp_toy.Base.{
  ◌⊎◌, inl, inr, Bool-cases, ltb→lt, ◌++◌, map, count, ℕ, ◌-◌, ◌+◌, ◌≤◌, ◌<◌, ◌≡◌, refl, sym, ap,
  List, [], ◌∷◌, length, true, ltb, lt→ltb, arith, ok, fail, out_of_range,
}
use cpp_toy.ConnectionPool.{Connection, Pool, is_idle, scan, check_idle_connections}

-- All have been in the queue for longer than the limit.
abbrev pub AllIdle : (now max_idle_time : ℕ) → List Connection → Type 0
AllIdle now limit [] = Unit
AllIdle now limit (c ∷ cs) = (is_idle now limit c ≡ true) × AllIdle now limit cs

scan_out :
    (now : ℕ) (cs : List Connection) (s : Pool) (lent : ℕ)
    → s.current ≡ length cs + lent
    → s.init_size < lent
    → AllIdle now s.max_idle_time cs
    → scan now cs s ≡ fail out_of_range
unfolding scan
scan_out now [] s lent e more idle = rw (lt→ltb s.init_size s.current (omega arith)) refl
scan_out now (c ∷ cs) s lent e more (idle, rest) =
    rw (lt→ltb s.init_size s.current (omega arith), idle)
      (scan_out now cs _ lent (omega arith) more rest)

-- When the clients hold more connections than the pool starts with, and those in the queue have all
-- been idle for too long, the scanner closes them and then reads the front of the empty queue. (The
-- count is right in every state that the pool comes to.)
pub check_idle_connections_out :
    (now : ℕ) (s : Pool)
    → s.current ≡ length s.queue + length s.lent
    → s.init_size < length s.lent
    → AllIdle now s.max_idle_time s.queue
    → check_idle_connections now s ≡ fail out_of_range
unfolding check_idle_connections
check_idle_connections_out now s e more idle = scan_out now s.queue s (length s.lent) e more idle

-- The connections that a scan closes are the first of the queue.
pub record Scanned (now : ℕ) (cs : List Connection) (s s' : Pool) : Type 0 where
  pub gone : List Connection
  pub splits : cs ≡ gone ++ s'.queue
  pub all_idle : AllIdle now s.max_idle_time gone
  pub counts : s'.current + length gone ≡ s.current
  pub closes :
      (q : ℕ) → count q s'.closed ≡ count q s.closed + count q (map (λ (c : Connection). c.id) gone)
  pub same :
      (s'.lent ≡ s.lent)
      × (s'.made ≡ s.made)
      × (s'.init_size ≡ s.init_size)
      × (s'.max_size ≡ s.max_size)
  pub keeps : s.init_size ≤ s.current → s.init_size ≤ s'.current

nothing_gone : (now : ℕ) (cs : List Connection) (s : Pool) → s.queue ≡ cs → Scanned now cs s s
nothing_gone now cs s q = record {
  gone = [];
  splits = sym q;
  all_idle = tt;
  counts = omega arith;
  closes = λ x. omega arith;
  same = (refl, refl, refl, refl);
  keeps = λ le. le;
}

pub scan-Scanned :
    (now : ℕ) (cs : List Connection) (s : Pool)
    → s.queue ≡ cs
    → (scan now cs s ≡ fail out_of_range)
      ⊎ ((s' : Pool) × (scan now cs s ≡ ok s') × Scanned now cs s s')
unfolding scan
scan-Scanned now [] s q = elim (Bool-cases (ltb s.init_size s.current)) [
  | inl e ↦ rw e (inl refl)
  | inr e ↦ rw e (inr (s, refl, nothing_gone now [] s q))
]
scan-Scanned now (c ∷ cs) s q = elim (Bool-cases (ltb s.init_size s.current)) [
  | inr e ↦ rw e (inr (s, refl, nothing_gone now (c ∷ cs) s q))
  | inl e ↦ rw e (elim (Bool-cases (is_idle now s.max_idle_time c)) [
    | inr f ↦ rw f (inr (s, refl, nothing_gone now (c ∷ cs) s q))
    | inl f ↦ rw f (elim (scan-Scanned now cs closing refl) [
      | inl g ↦ rw g (inl refl)
      | inr g ↦ rw g.1 (
          inr (
            g.0,
            refl,
            record {
              gone = c ∷ g.2.gone;
              splits = ap (λ r. c ∷ r) g.2.splits;
              all_idle = (f, g.2.all_idle);
              counts = omega (arith, g.2.counts, ltb→lt _ _ e);
              closes = λ x. omega (arith, g.2.closes x);
              same = g.2.same;
              keeps = λ le. g.2.keeps (omega (arith, ltb→lt _ _ e));
            },
          ))
    ])
  ])
]
  where
    closing : Pool
    closing = record s { queue = cs; current = s.current - 1; closed = c.id ∷ s.closed }
