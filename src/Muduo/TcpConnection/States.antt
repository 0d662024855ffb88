-- ===== src/Muduo/TcpConnection/States.antt =====
-- The life of a connection: its state, and what may happen to it.
use cpp_toy.Base.{ℕ, ◌≤◌, ◌≡◌, List, [], ◌∷◌, arith, Bool, true, false, Outcome, ok, fail, ◌>>=◌}
use cpp_toy.Muduo.Buffer.{Received, Sent}
use cpp_toy.Muduo.TcpConnection.{
  State, disconnected, connecting, connected, disconnecting, Conn, Attempt, shutdown_in_loop,
  shutdown, handle_error, handle_close, connect_destroyed, connect_established, handle_read,
  wrote_out, handle_write, write_directly, attempt, keep_rest, send_in_loop, send,
}

-- What the loop, the owner or a client does with a connection: the handlers, `Send` and `Shutdown` of
-- the loop's thread, their functors in the loop's queue, and those of another thread, of which
-- `Shutdown` sets the state some time after it has seen it.
pub data Event : Type 0 where
  reads : (ℕ → Received) → Event
  writes : (List ℕ → Sent) → Event
  sends : (in_loop : Bool) → (List ℕ → Sent) → List ℕ → Event
  runs_send : (List ℕ → Sent) → List ℕ → Event
  shuts : Event
  shuts_elsewhere : (seen : State) → Event
  runs_shutdown : Event
  establishes : Event
  closes : Event
  destroys : Event

unfoldable pub step : Event → Conn → Outcome Conn
step (reads readv) c = handle_read readv c
step (writes write) c = handle_write write c
step (sends in_loop write bytes) c = send in_loop write bytes c
step (runs_send write bytes) c = send_in_loop write bytes c
step shuts c = ok (shutdown true c.state c)
step (shuts_elsewhere seen) c = ok (shutdown false seen c)
step runs_shutdown c = ok (shutdown_in_loop c)
step establishes c = ok (connect_established c)
step closes c = ok (handle_close c)
step destroys c = ok (connect_destroyed c)

abbrev pub age : State → ℕ
age connecting = 0
age connected = 1
age disconnecting = 2
age disconnected = 3

-- The state after the call, where it returns.
abbrev pub Ages : State → Outcome Conn → Type 0
Ages s (ok c) = age s ≤ age c.state
Ages s (fail f) = Unit {0}

handle_close-Ages : (s : State) (c : Conn) → age s ≤ age (handle_close c).state
unfolding handle_close
handle_close-Ages connecting c = omega arith
handle_close-Ages _ c = omega arith

handle_read-Ages : (readv : ℕ → Received) (c : Conn) → Ages c.state (handle_read readv c)
unfolding handle_read handle_error
handle_read-Ages readv c = ground (arith, handle_close-Ages c.state)

wrote_out-state : (offered : List ℕ) (n : ℕ) (c : Conn) → (wrote_out offered n c).state ≡ c.state
unfolding wrote_out shutdown_in_loop
wrote_out-state offered n c = ground arith

handle_write-Ages : (write : List ℕ → Sent) (c : Conn) → Ages c.state (handle_write write c)
unfolding handle_write wrote_out shutdown_in_loop
handle_write-Ages write c = ground (arith)

attempt-state :
    (write : List ℕ → Sent) (bytes : List ℕ) (c : Conn)
    → (attempt write bytes c).conn.state ≡ c.state
unfolding attempt write_directly
attempt-state write bytes c = ground arith

keep_rest-Ages : (bytes : List ℕ) (a : Attempt) → Ages a.conn.state (keep_rest bytes a)
unfolding keep_rest
keep_rest-Ages bytes a = ground arith

send_in_loop-Ages :
    (write : List ℕ → Sent) (bytes : List ℕ) (c : Conn) → Ages c.state (send_in_loop write bytes c)
unfolding send_in_loop
send_in_loop-Ages write bytes c =
    ground (arith, keep_rest-Ages bytes (attempt write bytes c), attempt-state write bytes c)

-- `ConnectEstablished` comes first, and the test of another thread's `Shutdown` still holds.
abbrev pub IsTimely : Event → Conn → Type 0
IsTimely (shuts_elsewhere seen) c = seen ≡ c.state
IsTimely establishes c = c.state ≡ connecting
IsTimely _ c = Unit {0}

-- No handler, no functor and no call of a client, on any branch, takes a connection back to an earlier
-- state of its life (connecting, connected, disconnecting, disconnected), but for two that come too
-- late: a `Shutdown` from another thread, where the state has changed since its test, and
-- `ConnectEstablished` where the connection is no longer connecting.
pub step-Ages : (x : Event) (c : Conn) → IsTimely x c → Ages c.state (step x c)
unfolding step send shutdown shutdown_in_loop connect_destroyed connect_established
step-Ages (reads readv) c _ = handle_read-Ages readv c
step-Ages (writes write) c _ = handle_write-Ages write c
step-Ages (sends in_loop write bytes) c _ = ground (arith, send_in_loop-Ages write bytes c)
step-Ages (runs_send write bytes) c _ = send_in_loop-Ages write bytes c
step-Ages shuts c _ = ground arith
step-Ages (shuts_elsewhere seen) c same = rw same (ground arith)
step-Ages runs_shutdown c _ = ground arith
step-Ages establishes c at = rw at (omega arith)
step-Ages closes c _ = handle_close-Ages c.state c
step-Ages destroys c _ = ground arith

unfoldable pub run : List Event → Conn → Outcome Conn
run [] c = ok c
run (x ∷ xs) c = step x c >>= λ c'. run xs c'
