-- ===== src/Muduo/TcpServer/Tests.antt =====
-- The server's theorems at three loops and a connection that has closed.
use cpp_toy.Base.{
  ◌≢◌, ℕ, ◌+◌, ◌%◌, ◌≤◌, ◌<◌, ◌≡◌, refl, List, [], ◌∷◌, length, get_elem?, arith, ok, true, some,
  to_string,
}
use cpp_toy.Muduo.TcpServer.{
  LoopPool, create_pool, get_next_loop, pick, advance, Server, Entry, with_connection,
  remove_connection, remove_connection_in_loop,
}
use cpp_toy.Muduo.TcpServer.RoundRobin.{next_loops, next_loops-get_elem}
use cpp_toy.Muduo.TcpServer.Loops.{names, started_pool, start_pool-next_loops}
use cpp_toy.Muduo.TcpServer.Names.{conn_name, conn_names_distinct}
use cpp_toy.Muduo.TcpServer.Counts.{here, named, established, destroyed}
use cpp_toy.Muduo.TcpServer.Lifetime.{
  Placed, accepts, closes, runs, Reach, idle, step, kept_until_destroyed,
}

abbrev three : LoopPool
three = record (create_pool 0 []) { loops = 1 ∷ 2 ∷ 3 ∷ [] }

abbrev server : Server
server = record {
  loop = 0;
  pool = three;
  started = 1;
  next_conn_id = 1;
  connections = [];
  closing = [];
  asked = [];
  tasks = [];
}

abbrev one_conn : Server
one_conn = with_connection 1 (advance three) server

abbrev conn : Entry
conn = record { id = 1; loop = 1 }

abbrev gone : Server
gone = remove_connection_in_loop conn [] (remove_connection conn one_conn)

one_conn-Reach : Reach one_conn
unfolding get_next_loop pick create_pool
one_conn-Reach =
    step (idle server refl refl refl refl) (accepts server 1 (advance three) refl (omega arith))

gone-Reach : Reach gone
unfolding with_connection remove_connection
gone-Reach =
    step (step one_conn-Reach (closes one_conn conn (omega arith)))
      (runs (remove_connection conn one_conn) conn [] refl)

next_loops_test :
    (loops : List ℕ) × (next_loops 7 three ≡ ok loops)
    × (length loops ≡ 7)
    × ((k : ℕ)
        → k < 7
        → get_elem? loops k ≡ get_elem? three.loops ((three.next + k) % length three.loops))
unfolding create_pool
next_loops_test = next_loops-get_elem 7 three (omega arith)

kept_until_destroyed_example :
    Placed (here 1 1 gone.connections) (destroyed 1 1 gone.tasks) (established 1 1 gone.tasks)
    × (established 1 1 gone.tasks ≤ 1)
    × (named 1 gone.connections ≤ 1)
    × (destroyed 1 1 gone.tasks + here 1 1 gone.closing ≡ here 1 1 gone.asked)
kept_until_destroyed_example = kept_until_destroyed gone-Reach 1 1

-- The threads of the pool "p" have their loops at their last character.
abbrev start_loop : List ℕ → ℕ
start_loop (c ∷ d ∷ cs) = d
start_loop cs = 0

start_pool-next_loops_example :
    ((started_pool start_loop true 7 (112 ∷ []) 3).threads ≡ names (112 ∷ []) 3 0)
    × ((started_pool start_loop true 7 (112 ∷ []) 3).called_back ≡ [])
    × (loops : List ℕ) × (next_loops 5 (started_pool start_loop true 7 (112 ∷ []) 3) ≡ ok loops)
    × (get_elem? loops 4 ≡ some (start_loop (112 ∷ to_string (4 % 3))))
start_pool-next_loops_example =
    start_pool-next_loops start_loop true 7 (112 ∷ []) 3 5 4 (omega arith) (omega arith)
      (omega arith)

-- The removal of the connection is on its way.
abbrev leaving : Server
leaving = remove_connection conn one_conn

conn_names_distinct_test : conn_name (65 ∷ []) (66 ∷ []) 1 ≢ conn_name (65 ∷ []) (66 ∷ []) 12
conn_names_distinct_test =
    conn_names_distinct (65 ∷ []) (66 ∷ []) 1 12 (omega arith) (omega arith) (omega arith)
