-- ===== src/Muduo/Acceptor.antt =====
-- mymuduo/acceptor.h and acceptor.cpp: the listening socket with its channel in the poller of the
-- main loop. The channel is known by its address, a number.
pub mod Descriptors
pub mod Listening
mod Tests
use cpp_toy.Base.{
  ℕ, List, [], ◌∷◌, ◌++◌, Bool, true, false, Option, none, some, ◌==◌, if◌then◌else◌,
}
use cpp_toy.Muduo.Channel
use cpp_toy.Muduo.Channel.{Channel, set_reading, clear_all}
use cpp_toy.Muduo.Poller.Kernel.{Epoll}
use cpp_toy.Muduo.Poller.{World, Run, running, exited, ◌>>=◌, set_channel, remove_channel, change}
use cpp_toy.Muduo.Socket
use cpp_toy.Muduo.Socket.{
  Call, calls_new_connection, closes, watches, unwatches, logs_error, Accepted, accepted,
  accept_error, set_reuse_addr, set_reuse_port, bind_address, accept, close,
}

pub record Acceptor (e : Epoll) : Type 0 where
  pub fd : ℕ
  pub channel : ℕ
  pub has_new_connection : Bool
  pub listenning : Bool
  pub world : World e
  pub calls : List Call

abbrev pub emfile : ℕ
emfile = 24

module _ {e : Epoll} where
  -- `CreateNonblocking` and the constructor; `socket` is what `::socket` gave, a descriptor or an
  -- error.
  unfoldable pub create :
      (socket : Option ℕ) (bind_succeeds : Bool)
      → (reuse_port : Bool) (channel : ℕ) → World e
      → Run (Acceptor e)
  unfolding Channel.create
  create none bind_succeeds reuse_port channel w = exited
  create (some fd) bind_succeeds reuse_port channel w =
      bind_address bind_succeeds fd (set_reuse_port reuse_port fd (set_reuse_addr true fd []))
      >>= λ calls. running (record {
        fd = fd;
        channel = channel;
        has_new_connection = false;
        listenning = false;
        world = set_channel w channel (record (Channel.create fd) { has_read = true });
        calls = calls;
      })

  unfoldable pub set_new_connection_callback : Acceptor e → Acceptor e
  set_new_connection_callback a = record a { has_new_connection = true }

  -- The calls on the channel, which have their places among the calls of the system.
  unfoldable pub enable_reading : Acceptor e → Run (Acceptor e)
  enable_reading a = change set_reading a.channel a.world >>= λ world.
      running (record a { world = world; calls = a.calls ++ watches a.fd ∷ [] })

  unfoldable pub disable_and_remove : Acceptor e → Run (Acceptor e)
  disable_and_remove a =
      change clear_all a.channel a.world >>= remove_channel a.channel >>= λ world.
      running (record a { world = world; calls = a.calls ++ unwatches a.fd ∷ [] })

  unfoldable pub listen : (listen_succeeds : Bool) → Acceptor e → Run (Acceptor e)
  unfolding enable_reading
  listen listen_succeeds a = Socket.listen listen_succeeds a.fd a.calls >>= λ calls.
      enable_reading (record a { listenning = true; calls = calls })

  -- `HandleRead` after its call of `::accept4`.
  unfoldable pub accepted_call : Accepted → Acceptor e → List Call → List Call
  accepted_call (accepted fd) a calls =
      if a.has_new_connection
      then calls ++ calls_new_connection fd ∷ []
      else calls ++ closes fd ∷ []
  accepted_call (accept_error errno) a calls =
      if errno == emfile then calls ++ logs_error ∷ logs_error ∷ [] else calls ++ logs_error ∷ []

  unfoldable pub handle_read : Accepted → Acceptor e → Acceptor e
  handle_read r a = record a { calls = accepted_call r a (accept a.fd a.calls) }

  -- The destructor, then that of the socket.
  unfoldable pub destroy : Acceptor e → Run (Acceptor e)
  unfolding disable_and_remove
  destroy a = disable_and_remove a >>= λ a'. running (record a' { calls = close a'.fd a'.calls })
