-- ===== src/Muduo/Acceptor/Listening.antt =====
-- The acceptor in the poller, from its constructor to its destructor.
use cpp_toy.Base.{ℕ, ◌≡◌, refl, [], ◌∷◌, ◌++◌, Bool, true, false, none, some}
use cpp_toy.Muduo.Channel
use cpp_toy.Muduo.Channel.{Channel, new, added}
use cpp_toy.Muduo.Poller.Kernel.{Epoll}
use cpp_toy.Muduo.Poller.{World, running, ◌>>=◌}
use cpp_toy.Muduo.Poller.Invariant.{Inv}
use cpp_toy.Muduo.Poller.Opening.{Opened, Closed, open-Opened}
use cpp_toy.Muduo.Poller.Closing.{close-Closed, Opened-IsFree}
use cpp_toy.Muduo.Socket
use cpp_toy.Muduo.Socket.{
  Call, sets_option, binds, listens, closes, watches, unwatches, sol_socket, so_reuseaddr,
  so_reuseport, optval, set_reuse_addr, set_reuse_port, bind_address, close,
}
use cpp_toy.Muduo.Acceptor.{Acceptor, create, listen, destroy}

-- The channel as the constructor makes it.
abbrev pub accept_channel : ℕ → Channel
accept_channel fd = record (Channel.create fd) { has_read = true }

-- An acceptor that listens.
abbrev listener : {e : Epoll} (fd id : ℕ) (reuse_port : Bool) → World e → Acceptor e
listener fd id reuse_port w = record {
  fd = fd;
  channel = id;
  has_new_connection = false;
  listenning = true;
  world = w;
  calls =
      sets_option fd sol_socket so_reuseaddr 1
      ∷ sets_option fd sol_socket so_reuseport (optval reuse_port)
      ∷ binds fd
      ∷ listens fd 1024
      ∷ watches fd
      ∷ [];
}

create-listen :
    {e : Epoll} (fd id : ℕ) (reuse_port : Bool) (w : World e)
    → Inv w
    → (w.chans id).index ≡ new
    → w.channels fd ≡ none
    → (w' : World e) × ((create (some fd) true reuse_port id w >>= listen true)
        ≡ running (listener fd id reuse_port w'))
      × Opened w w' id (accept_channel fd)
unfolding create listen Socket.listen set_reuse_addr set_reuse_port bind_address Channel.create
create-listen fd id reuse_port w v unused free =
    let (w', run, opened) = open-Opened w id (accept_channel fd) v unused refl free in
    (w', rw run refl, opened)

-- The destructor succeeds, whether the acceptor has listened or not: nothing in the poller has its
-- descriptor any more when the socket is closed, which is the last call.
destroy-Closed :
    {e : Epoll} (a : Acceptor e)
    → Inv a.world
    → ((a.world.chans a.channel).index ≡ new → a.world.channels (a.world.chans a.channel).fd ≡ none)
    → (b : Acceptor e) × (destroy a ≡ running b)
      × (b.calls ≡ (a.calls ++ unwatches a.fd ∷ []) ++ closes a.fd ∷ [])
      × Closed a.world b.world a.channel
unfolding destroy close
destroy-Closed a v free =
    let (w', run, closed) = close-Closed a.world a.channel v free in
    (
      record a { world = w'; calls = (a.calls ++ unwatches a.fd ∷ []) ++ closes a.fd ∷ [] },
      rw run refl,
      refl,
      closed,
    )

-- The life of an acceptor whose socket, `bind` and `listen` succeed, where its channel is unused and
-- no other channel in the poller has its descriptor. Constructed and set to listen, it has set both
-- options, bound, listened, and only then had its channel watched, in this order and with no other
-- call; its channel is in the map and in the interest list for reading. Destroyed, it has had its
-- channel removed, leaves nothing with its descriptor in the poller, and then closes the descriptor,
-- once, as its last call. The poller's invariant is kept and
-- no other channel is touched.
pub listens_and_closes :
    {e : Epoll} (fd id : ℕ) (reuse_port : Bool) (w : World e)
    → Inv w
    → (w.chans id).index ≡ new
    → w.channels fd ≡ none
    → (a : Acceptor e) × ((create (some fd) true reuse_port id w >>= listen true) ≡ running a)
      × (a.listenning ≡ true)
      × (a.calls
          ≡ sets_option fd sol_socket so_reuseaddr 1
            ∷ sets_option fd sol_socket so_reuseport (optval reuse_port)
            ∷ binds fd
            ∷ listens fd 1024
            ∷ watches fd
            ∷ [])
      × Opened w a.world id (accept_channel fd)
      × (b : Acceptor e) × (destroy a ≡ running b)
      × (b.calls ≡ (a.calls ++ unwatches fd ∷ []) ++ closes fd ∷ [])
      × Closed a.world b.world id
listens_and_closes fd id reuse_port w v unused free =
    let (w', run, opened) = create-listen fd id reuse_port w v unused free in
    let (b, destroyed, calls, closed) =
      destroy-Closed (listener fd id reuse_port w') opened.keeps (Opened-IsFree opened) in
    (listener fd id reuse_port w', run, refl, refl, opened, b, destroyed, calls, closed)
