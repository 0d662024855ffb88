-- ===== src/ConnectionPool/Tests.antt =====
-- The pool's theorems at a pool of one connection that may grow to three.
use cpp_toy.Base.{ℕ, ◌+◌, ◌≤◌, ◌≡◌, ◌⊎◌, refl, [], ◌∷◌, length, count, arith, fail, out_of_range}
use cpp_toy.ConnectionPool.{Pool, create, get_connection, is_idle, check_idle_connections}
use cpp_toy.ConnectionPool.Scanner.{check_idle_connections_out}
use cpp_toy.ConnectionPool.Sharing.{ids, made_once, Reach, created, step, gets, shared_once}

abbrev small : Pool
small = create 0 1 3 60 5

abbrev lent_one : Pool
lent_one = (get_connection small).1

lent_one-Reach : Reach lent_one
lent_one-Reach = step (created 1 3 60 5) (gets small)

shared_once_example :
    ((q : ℕ)
      → count q (ids lent_one.queue) + count q lent_one.lent + count q lent_one.closed
        ≡ made_once q lent_one)
    × (lent_one.current ≡ length lent_one.queue + length lent_one.lent)
    × ((lent_one.current ≤ lent_one.max_size) ⊎ (lent_one.current ≤ lent_one.init_size))
shared_once_example = shared_once lent_one-Reach

-- Two of three connections are with clients, and the third has been in the queue for too long.
abbrev two_lent : Pool
two_lent = record {
  init_size = 1;
  max_size = 3;
  current = 3;
  max_idle_time = 60;
  queue = record { id = 2; alive_time = 0 } ∷ [];
  lent = 0 ∷ 1 ∷ [];
  closed = [];
  made = 3;
}

check_idle_connections_out_example : check_idle_connections 60001 two_lent ≡ fail out_of_range
unfolding is_idle
check_idle_connections_out_example =
    check_idle_connections_out 60001 two_lent refl (omega arith) (refl, tt)
