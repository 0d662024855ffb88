-- ===== src/Muduo/TcpServer.antt =====
-- mymuduo/tcp_server.cpp and event_loop_thread_pool.cpp: which loop gets a new connection, and how
-- long the server keeps it. A loop and a connection are numbers; a connection's name ends in its
-- number. The users' callbacks, the addresses and the log are not modelled.
pub mod RoundRobin
pub mod Counts
pub mod Lifetime
pub mod Loops
pub mod Names
pub mod Ending
mod Tests
use cpp_toy.Base.{
  ℕ, zero, suc, ◌-◌, ◌+◌, ◌%◌, List, [], ◌∷◌, ◌++◌, Bool, true, false, ◌&&◌, ◌^◌, ltb, to_string,
  Option, none, some, get_elem?, length, leb, ◌==◌, if◌then◌else◌, Outcome, ok, fail, out_of_range,
  ◌>>=◌,
}

-- `EventLoopThreadPool`
pub record LoopPool : Type 0 where
  pub base_loop : ℕ
  pub name : List ℕ
  pub started : Bool
  pub num_threads : ℕ
  pub next : ℕ
  pub threads : List (List ℕ)  -- each by its name
  pub loops : List ℕ
  pub called_back : List ℕ  -- the loops that `Start` itself ran the callback on

unfoldable pub create_pool : (base_loop : ℕ) (name : List ℕ) → LoopPool
create_pool base_loop name = record {
  base_loop = base_loop;
  name = name;
  started = false;
  num_threads = 0;
  next = 0;
  threads = [];
  loops = [];
  called_back = [];
}

unfoldable pub set_thread_num : ℕ → LoopPool → LoopPool
set_thread_num n p = record p { num_threads = n }

-- `start_loop` gives the address that `StartLoop` of the thread of a name returns.
unfoldable pub start_thread : (start_loop : List ℕ → ℕ) (i : ℕ) → LoopPool → LoopPool
start_thread start_loop i p =
    let thread_name = p.name ++ to_string i in
    record p {
      threads = p.threads ++ thread_name ∷ [];
      loops = p.loops ++ start_loop thread_name ∷ [];
    }

unfoldable pub start_threads : (start_loop : List ℕ → ℕ) (count i : ℕ) → LoopPool → LoopPool
start_threads start_loop zero i p = p
start_threads start_loop (suc count) i p =
    start_threads start_loop count (suc i) (start_thread start_loop i p)

-- A negative number of threads makes none. `has_cb` says whether there is a callback.
unfoldable pub start_pool : (start_loop : List ℕ → ℕ) (has_cb : Bool) → LoopPool → LoopPool
start_pool start_loop has_cb p =
    let count = if ltb p.num_threads (2 ^ 31) then p.num_threads else 0 in
    let p' = start_threads start_loop count 0 (record p { started = true }) in
    if p'.num_threads == 0 && has_cb
    then record p' { called_back = p'.called_back ++ p'.base_loop ∷ [] }
    else p'

unfoldable pub advance : LoopPool → LoopPool
advance p = record p { next = if leb (length p.loops) (p.next + 1) then 0 else p.next + 1 }

-- `loops_[next_]` has to be inside the vector.
unfoldable pub pick : Option ℕ → LoopPool → Outcome (ℕ × LoopPool)
pick none p = fail out_of_range
pick (some loop) p = ok (loop, advance p)

unfoldable pub get_next_loop : LoopPool → Outcome (ℕ × LoopPool)
get_next_loop p =
    if length p.loops == 0 then ok (p.base_loop, p) else pick (get_elem? p.loops p.next) p

unfoldable pub get_all_loops : LoopPool → List ℕ
get_all_loops p = if length p.loops == 0 then p.base_loop ∷ [] else p.loops

-- What the server hands to the loops.
pub data Task : Type 0 where
  listens : (loop : ℕ) → Task
  establishes : (loop id : ℕ) → Task
  destroys : (loop id : ℕ) → Task

pub record Entry : Type 0 where
  pub id : ℕ
  pub loop : ℕ

-- `connections` is the map; `closing` holds the connections whose `RemoveConnectionInLoop` is on its
-- way to the main loop, and `asked` is the history of those that asked for it.
pub record Server : Type 0 where
  pub loop : ℕ
  pub pool : LoopPool
  pub started : ℕ
  pub next_conn_id : ℕ
  pub connections : List Entry
  pub closing : List Entry
  pub asked : List Entry
  pub tasks : List Task

unfoldable pub start : (start_loop : List ℕ → ℕ) (has_cb : Bool) → Server → Server
start start_loop has_cb s =
    let counted : Server = record s { started = s.started + 1 } in
    if s.started == 0
    then record counted {
      pool = start_pool start_loop has_cb s.pool;
      tasks = s.tasks ++ listens s.loop ∷ [];
    }
    else counted

-- `connections_[conn_name] = conn`
abbrev pub assign : Entry → List Entry → List Entry
assign new [] = new ∷ []
assign new (c ∷ cs) = if c.id == new.id then new ∷ cs else c ∷ assign new cs

-- `NewConnection` once it has a loop. The number is an `int`.
unfoldable pub with_connection : (io_loop : ℕ) → LoopPool → Server → Server
with_connection io_loop pool s = record s {
  pool = pool;
  next_conn_id = (s.next_conn_id + 1) % 2 ^ 32;
  connections = assign (record { id = s.next_conn_id; loop = io_loop }) s.connections;
  tasks = s.tasks ++ establishes io_loop s.next_conn_id ∷ [];
}

unfoldable pub new_connection : Server → Outcome Server
new_connection s = get_next_loop s.pool >>= λ r. ok (with_connection r.0 r.1 s)

-- Called by the connection, in its own loop.
unfoldable pub remove_connection : Entry → Server → Server
remove_connection c s = record s { closing = s.closing ++ c ∷ []; asked = s.asked ++ c ∷ [] }

abbrev pub erase : ℕ → List Entry → List Entry
erase i [] = []
erase i (c ∷ cs) = if c.id == i then cs else c ∷ erase i cs

-- The main loop runs the first of the removals that are on their way.
unfoldable pub remove_connection_in_loop : Entry → (rest : List Entry) → Server → Server
remove_connection_in_loop c rest s = record s {
  closing = rest;
  connections = erase c.id s.connections;
  tasks = s.tasks ++ destroys c.loop c.id ∷ [];
}

abbrev pub all_destroyed : List Entry → List Task
all_destroyed [] = []
all_destroyed (c ∷ cs) = destroys c.loop c.id ∷ all_destroyed cs

-- The destructor. The removals that are on their way stay there, and `drain` runs them.
unfoldable pub destroy : Server → Server
destroy s = record s { connections = []; tasks = s.tasks ++ all_destroyed s.connections }

-- The main loop goes on with the removals that the destructor has left in its queue, which use the
-- destroyed server; this is what they do as long as its memory is not used again.
unfoldable pub drain : List Entry → Server → Server
unfolding remove_connection_in_loop
drain [] s = s
drain (c ∷ cs) s = drain cs (remove_connection_in_loop c cs s)
