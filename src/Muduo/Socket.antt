-- ===== src/Muduo/Socket.antt =====
-- mymuduo/socket.h and socket.cpp: the calls that a Socket makes of the system, as a list in their
-- order. What the system answers is an argument. `LOG_FATAL` exits.
use cpp_toy.Base.{ℕ, List, [], ◌∷◌, ◌++◌, Bool, if◌then◌else◌}
use cpp_toy.Muduo.Poller.{Run, running, exited}

pub data Call : Type 0 where
  sets_option : (fd level option value : ℕ) → Call
  binds : ℕ → Call
  listens : (fd backlog : ℕ) → Call
  accepts : ℕ → Call
  shuts_write : ℕ → Call
  closes : ℕ → Call
  calls_new_connection : ℕ → Call  -- not the system's: the callback of the Acceptor
  watches : ℕ → Call  -- the poller's: its channel asks for reading
  unwatches : ℕ → Call  -- the poller's: its channel is disabled and removed
  logs_error : Call

-- IPPROTO_TCP, SOL_SOCKET and the options
abbrev pub ipproto_tcp : ℕ
ipproto_tcp = 6

abbrev pub sol_socket : ℕ
sol_socket = 1

abbrev pub tcp_nodelay : ℕ
tcp_nodelay = 1

abbrev pub so_reuseaddr : ℕ
so_reuseaddr = 2

abbrev pub so_reuseport : ℕ
so_reuseport = 15

abbrev pub so_keepalive : ℕ
so_keepalive = 9

abbrev pub optval : Bool → ℕ
optval on = if on then 1 else 0

-- `SetTcpNoDelay`, `SetReuseAddr`, `SetReusePort` and `SetKeepAlive`, whose results are not looked at.
pub set_tcp_no_delay : Bool → ℕ → List Call → List Call
set_tcp_no_delay on fd calls = calls ++ sets_option fd ipproto_tcp tcp_nodelay (optval on) ∷ []

unfoldable pub set_reuse_addr : Bool → ℕ → List Call → List Call
set_reuse_addr on fd calls = calls ++ sets_option fd sol_socket so_reuseaddr (optval on) ∷ []

unfoldable pub set_reuse_port : Bool → ℕ → List Call → List Call
set_reuse_port on fd calls = calls ++ sets_option fd sol_socket so_reuseport (optval on) ∷ []

pub set_keep_alive : Bool → ℕ → List Call → List Call
set_keep_alive on fd calls = calls ++ sets_option fd sol_socket so_keepalive (optval on) ∷ []

unfoldable pub bind_address : (succeeds : Bool) → ℕ → List Call → Run (List Call)
bind_address succeeds fd calls = if succeeds then running (calls ++ binds fd ∷ []) else exited

unfoldable pub listen : (succeeds : Bool) → ℕ → List Call → Run (List Call)
listen succeeds fd calls = if succeeds then running (calls ++ listens fd 1024 ∷ []) else exited

-- What `::accept4` gives: a descriptor, or an error with its `errno`.
pub data Accepted : Type 0 where
  accepted : ℕ → Accepted
  accept_error : ℕ → Accepted

unfoldable pub accept : ℕ → List Call → List Call
accept fd calls = calls ++ accepts fd ∷ []

pub shutdown_write : (succeeds : Bool) → ℕ → List Call → List Call
shutdown_write succeeds fd calls =
    if succeeds then calls ++ shuts_write fd ∷ [] else calls ++ shuts_write fd ∷ logs_error ∷ []

-- The destructor.
unfoldable pub close : ℕ → List Call → List Call
close fd calls = calls ++ closes fd ∷ []
