-- ===== src/ConnectionPool.antt =====
-- connection_pool/connection_pool.cpp and connection.h: a pool of database connections with a thread
-- that makes them and one that closes those that nobody has used for long. A connection is a number;
-- each operation is what its thread does with `queue_mutex_` held. The clock is an argument.
pub mod Sharing
pub mod Config
pub mod Scanner
mod Tests
use cpp_toy.Base.{
  ℕ, zero, suc, ◌-◌, ◌+◌, ◌*◌, List, [], ◌∷◌, ◌++◌, Bool, Option, none, some, ltb, ◌==◌,
  if◌then◌else◌, Outcome, ok, fail, out_of_range,
}

-- `Connection`, whose `alive_time_` is the clock when it was last put into the queue.
pub record Connection : Type 0 where
  pub id : ℕ
  pub alive_time : ℕ

-- `current` is `current_connection_size_`. `lent`, `closed` and `made` say what became of the
-- connections: with the clients, deleted, and how many were made at all.
pub record Pool : Type 0 where
  pub init_size : ℕ
  pub max_size : ℕ
  pub current : ℕ
  pub max_idle_time : ℕ
  pub queue : List Connection
  pub lent : List ℕ
  pub closed : List ℕ
  pub made : ℕ

-- `new Connection()`, connected, refreshed and queued.
unfoldable pub add_connection : (now : ℕ) → Pool → Pool
add_connection now s = record s {
  queue = s.queue ++ record { id = s.made; alive_time = now } ∷ [];
  current = s.current + 1;
  made = s.made + 1;
}

-- The constructor's loop.
unfoldable pub add_connections : (count now : ℕ) → Pool → Pool
add_connections zero now s = s
add_connections (suc count) now s = add_connections count now (add_connection now s)

-- The constructor with the values of the file; nothing initialises `current_connection_size_`, whose
-- first value is `garbage`.
unfoldable pub create : (garbage init_size max_size max_idle_time now : ℕ) → Pool
create garbage init_size max_size max_idle_time now = add_connections init_size now (record {
  init_size = init_size;
  max_size = max_size;
  current = garbage;
  max_idle_time = max_idle_time;
  queue = [];
  lent = [];
  closed = [];
  made = 0;
})

-- A round of `ProduceConnectionTask`, which has waited for an empty queue.
unfoldable pub produce_connection : (now : ℕ) → Pool → Pool
produce_connection now s = if ltb s.current s.max_size then add_connection now s else s

-- `GetConnection`, whose wait has ended with a connection or by the clock.
unfoldable pub take_front : List Connection → Pool → Option ℕ × Pool
take_front [] s = (none, s)
take_front (c ∷ cs) s = (some c.id, record s { queue = cs; lent = c.id ∷ s.lent })

unfoldable pub get_connection : Pool → Option ℕ × Pool
get_connection s = take_front s.queue s

abbrev pub remove : ℕ → List ℕ → List ℕ
remove i [] = []
remove i (j ∷ js) = if j == i then js else j ∷ remove i js

-- The deleter of the pointer that a client holds.
unfoldable pub give_back : (id now : ℕ) → Pool → Pool
give_back id now s = record s {
  queue = s.queue ++ record { id = id; alive_time = now } ∷ [];
  lent = remove id s.lent;
}

-- The clock counts microseconds, and the code takes 1000 of them for a second.
unfoldable pub is_idle : (now max_idle_time : ℕ) → Connection → Bool
is_idle now max_idle_time c = ltb (max_idle_time * 1000) (now - c.alive_time)

-- The loop of `CheckIdleConnectionTask` over the queue. `front()` of an empty queue is no connection.
unfoldable pub scan : (now : ℕ) → List Connection → Pool → Outcome Pool
scan now [] s = if ltb s.init_size s.current then fail out_of_range else ok s
scan now (c ∷ cs) s =
    let rest =
      scan now cs (record s { queue = cs; current = s.current - 1; closed = c.id ∷ s.closed }) in
    if ltb s.init_size s.current
    then (if is_idle now s.max_idle_time c then rest else ok s)
    else ok s

unfoldable pub check_idle_connections : (now : ℕ) → Pool → Outcome Pool
check_idle_connections now s = scan now s.queue s
