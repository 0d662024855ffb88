-- ===== src/Muduo/Acceptor/Tests.antt =====
-- An acceptor on descriptor 3 over a table, and runs of it.
use cpp_toy.Base.{◌+◌, ◌≡◌, refl, List, [], ◌∷◌, ◌++◌, true, false, some}
use cpp_toy.Muduo.Poller.{running, ◌>>=◌}
use cpp_toy.Muduo.Poller.Table.{table, idle, idle-Inv}
use cpp_toy.Muduo.Poller.Opening.{Opened, Closed}
use cpp_toy.Muduo.Socket.{
  sets_option, binds, listens, closes, watches, unwatches, sol_socket, so_reuseaddr, so_reuseport,
  optval, Accepted, accepted, accept_error,
}
use cpp_toy.Muduo.Acceptor.{Acceptor, emfile, create, listen, destroy}
use cpp_toy.Muduo.Acceptor.Descriptors.{handed_on, closed, handle_reads, handle_reads_lem}
use cpp_toy.Muduo.Acceptor.Listening.{accept_channel, listens_and_closes}

abbrev acceptor : Acceptor table
acceptor = record {
  fd = 3;
  channel = 3;
  has_new_connection = true;
  listenning = false;
  world = idle;
  calls = [];
}

abbrev answers : List Accepted
answers = accepted 7 ∷ accept_error emfile ∷ accepted 8 ∷ accepted 7 ∷ []

handle_reads_lem_example :
    (handed_on 7 (handle_reads answers acceptor).calls ≡ 0 + 2)
    × (closed 7 (handle_reads answers acceptor).calls ≡ 0 + 0)
    × ((handle_reads answers acceptor).world ≡ idle)
handle_reads_lem_example = handle_reads_lem answers acceptor 7

listens_and_closes_example :
    (a : Acceptor table) × ((create (some 3) true true 3 idle >>= listen true) ≡ running a)
    × (a.listenning ≡ true)
    × (a.calls
        ≡ sets_option 3 sol_socket so_reuseaddr 1
          ∷ sets_option 3 sol_socket so_reuseport (optval true)
          ∷ binds 3
          ∷ listens 3 1024
          ∷ watches 3
          ∷ [])
    × Opened idle a.world 3 (accept_channel 3)
    × (b : Acceptor table) × (destroy a ≡ running b)
    × (b.calls ≡ (a.calls ++ unwatches 3 ∷ []) ++ closes 3 ∷ [])
    × Closed a.world b.world 3
listens_and_closes_example = listens_and_closes 3 3 true idle idle-Inv refl refl
