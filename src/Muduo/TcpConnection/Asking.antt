-- ===== src/Muduo/TcpConnection/Asking.antt =====
-- What a connection has asked of the poller so far, against the events of its channel.
use cpp_toy.Base.{
  ℕ, ◌≡◌, refl, List, [], ◌∷◌, ◌++◌, arith, Bool, true, false, Outcome, ok, fail, ◌>>=◌,
}
use cpp_toy.Muduo.Buffer.{Received, Sent}
use cpp_toy.Muduo.TcpConnection.{
  State, Effect, updates, Conn, Attempt, shutdown_in_loop, shutdown, handle_error, handle_close,
  connect_established, connect_destroyed, handle_read, wrote_out, handle_write, write_directly,
  attempt, keep_rest, send_in_loop, send,
}
use cpp_toy.Muduo.TcpConnection.States.{
  Event, reads, writes, sends, runs_send, shuts, shuts_elsewhere, runs_shutdown, establishes,
  closes, destroys, step, run,
}

-- The events of the last `Update`.
abbrev pub told : ℕ → List Effect → ℕ
told ev [] = ev
told ev (updates last ∷ xs) = told last xs
told ev (_ ∷ xs) = told ev xs

abbrev told_one : ℕ → Effect → ℕ
told_one ev (updates last) = last
told_one ev _ = ev

told_last :
    (ev : ℕ) (xs : List Effect) (x : Effect) → told ev (xs ++ x ∷ []) ≡ told_one (told ev xs) x
told_last ev [] (updates last) = refl
told_last ev [] _ = refl
told_last ev (updates last ∷ xs) x = told_last last xs x
told_last ev (_ ∷ xs) x = told_last ev xs x

-- The poller was told the events that the channel asks for.
abbrev pub Told : Conn → Type 0
Told c = told 0 c.effects ≡ c.channel.events

abbrev pub AllTold : Outcome Conn → Type 0
AllTold (ok c) = Told c
AllTold (fail f) = Unit {0}

handle_close-Told : (c : Conn) → Told (handle_close c)
unfolding handle_close
handle_close-Told c = simp told_last

connect_destroyed-Told : (c : Conn) → Told c → Told (connect_destroyed c)
unfolding connect_destroyed
connect_destroyed-Told c t = grind (arith, told_last)

shutdown_in_loop-Told : (c : Conn) → Told c → Told (shutdown_in_loop c)
unfolding shutdown_in_loop
shutdown_in_loop-Told c t = grind (arith, told_last)

shutdown-Told : (in_loop : Bool) (seen : State) (c : Conn) → Told c → Told (shutdown in_loop seen c)
unfolding shutdown shutdown_in_loop
shutdown-Told in_loop seen c t = grind (arith, told_last)

handle_read-AllTold : (readv : ℕ → Received) (c : Conn) → Told c → AllTold (handle_read readv c)
unfolding handle_read handle_error
handle_read-AllTold readv c t = grind (arith, told_last, handle_close-Told)

wrote_out-Told : (offered : List ℕ) (n : ℕ) (c : Conn) → Told c → Told (wrote_out offered n c)
unfolding wrote_out shutdown_in_loop
wrote_out-Told offered n c t = grind (arith, told_last)

handle_write-AllTold : (write : List ℕ → Sent) (c : Conn) → Told c → AllTold (handle_write write c)
unfolding handle_write
handle_write-AllTold write c t = grind (arith, told_last, wrote_out-Told)

attempt-Told :
    (write : List ℕ → Sent) (bytes : List ℕ) (c : Conn) → Told c → Told (attempt write bytes c).conn
unfolding attempt write_directly
attempt-Told write bytes c t = grind (arith, told_last)

keep_rest-AllTold : (bytes : List ℕ) (a : Attempt) → Told a.conn → AllTold (keep_rest bytes a)
unfolding keep_rest
keep_rest-AllTold bytes a t = grind (arith, told_last)

send_in_loop-AllTold :
    (write : List ℕ → Sent) (bytes : List ℕ) (c : Conn)
    → Told c
    → AllTold (send_in_loop write bytes c)
unfolding send_in_loop
send_in_loop-AllTold write bytes c t = grind (
  arith,
  told_last,
  keep_rest-AllTold bytes (attempt write bytes c),
  attempt-Told write bytes c t,
)

send-AllTold :
    (in_loop : Bool) (write : List ℕ → Sent) (bytes : List ℕ) (c : Conn)
    → Told c
    → AllTold (send in_loop write bytes c)
unfolding send
send-AllTold in_loop write bytes c t =
    grind (arith, told_last, send_in_loop-AllTold write bytes c t)

connect_established-Told : (c : Conn) → Told (connect_established c)
unfolding connect_established
connect_established-Told c = simp told_last

step-AllTold : (x : Event) (c : Conn) → Told c → AllTold (step x c)
unfolding step
step-AllTold (reads readv) c t = handle_read-AllTold readv c t
step-AllTold (writes write) c t = handle_write-AllTold write c t
step-AllTold (sends in_loop write bytes) c t = send-AllTold in_loop write bytes c t
step-AllTold (runs_send write bytes) c t = send_in_loop-AllTold write bytes c t
step-AllTold shuts c t = shutdown-Told true c.state c t
step-AllTold (shuts_elsewhere seen) c t = shutdown-Told false seen c t
step-AllTold runs_shutdown c t = shutdown_in_loop-Told c t
step-AllTold establishes c t = connect_established-Told c
step-AllTold closes c t = handle_close-Told c
step-AllTold destroys c t = connect_destroyed-Told c t

AllTold->>= :
    (r : Outcome Conn) (f : Conn → Outcome Conn)
    → AllTold r
    → ((c : Conn) → Told c → AllTold (f c))
    → AllTold (r >>= f)
AllTold->>= (ok c) f t next = next c t
AllTold->>= (fail x) f t next = tt

run-AllTold : (xs : List Event) (c : Conn) → Told c → AllTold (run xs c)
unfolding run
run-AllTold [] c t = t
run-AllTold (x ∷ xs) c t = AllTold->>= (step x c) (run xs) (step-AllTold x c t) (run-AllTold xs)

-- After the connection was established.
pub established-AllTold : (xs : List Event) (c : Conn) → AllTold (run xs (connect_established c))
established-AllTold xs c = run-AllTold xs _ (connect_established-Told c)
