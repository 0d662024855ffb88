-- ===== src/Muduo/TcpConnection.antt =====
-- mymuduo/tcp_connection.h and mymuduo/tcp_connection.cpp: one TCP connection on its loop's thread.
-- `wire` is what the kernel has taken of the outgoing stream. What a handler asks of others
-- (callbacks, the loop, the poller, the socket, the log) is the list `effects`, in order. `::write`
-- and `::readv` are parameters of the handlers that call them.
pub mod Stream
pub mod Backlog
pub mod States
pub mod Making
pub mod Asking
pub mod Performing
pub mod Watching
mod Tests
use cpp_toy.Base.{
  ℕ, ◌*◌, List, [], ◌∷◌, ◌++◌, Bool, true, false, ◌&&◌, ◌||◌, not, ◌==◌, ltb, leb, if◌then◌else◌,
  length, take, drop, add_size, sub_size, Outcome, ok, ◌>>=◌,
}
use cpp_toy.Muduo.Buffer.{
  Buffer, Received, received, read_error, Sent, wrote, write_error, copy_from, readable_bytes,
  retrieve, append, read_fd, write_fd,
}
use cpp_toy.Muduo.Channel.{
  Channel, set_reading, set_writing, clear_writing, clear_all, is_write_event, tie,
}

pub data State : Type 0 where
  disconnected : State
  connecting : State
  connected : State
  disconnecting : State

pub data Effect : Type 0 where
  updates : ℕ → Effect  -- `Channel::Update` with these events
  removes : Effect  -- `Channel::Remove`
  calls_connection : Effect
  calls_message : Effect
  calls_close : Effect
  queues_write_complete : Effect
  queues_high_water : ℕ → Effect
  queues_send : List ℕ → Effect
  queues_shutdown : Effect
  shuts_write : Effect  -- `Socket::ShutdownWrite`
  logs_error : Effect

pub record Conn : Type 0 where
  pub state : State
  pub channel : Channel
  pub input_buffer : Buffer
  pub output_buffer : Buffer
  pub high_water_mark : ℕ
  pub has_write_complete : Bool
  pub has_high_water : Bool
  pub wire : List ℕ
  pub effects : List Effect

abbrev pub ewouldblock : ℕ
ewouldblock = 11

abbrev pub epipe : ℕ
epipe = 32

abbrev pub econnreset : ℕ
econnreset = 104

-- 64 MiB, as the constructor sets it
abbrev pub default_high_water_mark : ℕ
default_high_water_mark = 64 * 1024 * 1024

abbrev pub is_connected : State → Bool
is_connected connected = true
is_connected _ = false

abbrev pub is_disconnected : State → Bool
is_disconnected disconnected = true
is_disconnected _ = false

abbrev pub is_disconnecting : State → Bool
is_disconnecting disconnecting = true
is_disconnecting _ = false

abbrev pub emit : Effect → Conn → Conn
emit x c = record c { effects = c.effects ++ x ∷ [] }

abbrev pub emit_if : Bool → Effect → Conn → Conn
emit_if b x c = if b then emit x c else c

-- A setter of the channel, with the `Update()` that follows it.
abbrev pub update : (Channel → Channel) → Conn → Conn
update setter c = emit (updates (setter c.channel).events) (record c { channel = setter c.channel })

-- `ShutdownInLoop`
unfoldable pub shutdown_in_loop : Conn → Conn
shutdown_in_loop c = if is_write_event c.channel then c else emit shuts_write c

-- `Shutdown`, on the loop's thread or on another. `seen` is what its test read of `state_`, and `c`
-- the connection at `SetState`, which comes later: between the two the loop's thread may run.
unfoldable pub shutdown : (in_loop : Bool) (seen : State) → Conn → Conn
unfolding shutdown_in_loop
shutdown in_loop seen c =
    if is_connected seen
    then (let c' : Conn = record c { state = disconnecting } in
        if in_loop then shutdown_in_loop c' else emit queues_shutdown c')
    else c

unfoldable pub handle_error : Conn → Conn
handle_error c = emit logs_error c

unfoldable pub handle_close : Conn → Conn
handle_close c =
    emit calls_close (emit calls_connection (update clear_all (record c { state = disconnected })))

unfoldable pub connect_established : Conn → Conn
connect_established c =
    emit calls_connection
      (update set_reading (record c { state = connected; channel = tie c.channel }))

unfoldable pub connect_destroyed : Conn → Conn
connect_destroyed c = emit removes (
    if is_connected c.state
    then emit calls_connection (update clear_all (record c { state = disconnected }))
    else c)

-- `HandleRead`
unfoldable pub handle_read : (readv : ℕ → Received) → Conn → Outcome Conn
unfolding handle_close handle_error
handle_read readv c = read_fd readv c.input_buffer >>= λ (input, r).
    let c' : Conn = record c { input_buffer = input } in
    elim r [
      | received bytes ↦
          if ltb 0 (length bytes) then ok (emit calls_message c') else ok (handle_close c')
      | read_error errno ↦ ok (handle_error (emit logs_error c'))
    ]

-- What `HandleWrite` does once `n > 0` bytes of `offered` have gone.
unfoldable pub wrote_out : (offered : List ℕ) → ℕ → Conn → Conn
unfolding shutdown_in_loop
wrote_out offered n c =
    let output = retrieve c.output_buffer n in
    let c' : Conn = record c { output_buffer = output; wire = c.wire ++ take n offered } in
    if readable_bytes output == 0
    then (let c'' : Conn =
          emit_if c.has_write_complete queues_write_complete (update clear_writing c') in
        if is_disconnecting c.state then shutdown_in_loop c'' else c'')
    else c'

-- `HandleWrite`
unfoldable pub handle_write : (write : List ℕ → Sent) → Conn → Outcome Conn
handle_write write c =
    if is_write_event c.channel
    then (do
      offered ←
          copy_from c.output_buffer.buffer c.output_buffer.reader_index
            (readable_bytes c.output_buffer)
      r ← write_fd write c.output_buffer
      elim r [
        | wrote n ↦ if ltb 0 n then ok (wrote_out offered n c) else ok (emit logs_error c)
        | write_error errno ↦ ok (emit logs_error c)
      ])
    else ok (emit logs_error c)

-- The first part of `SendInLoop`: the direct `::write`. `nwrote`, `remaing` and `fault_error` are
-- the variables of the source.
pub record Attempt : Type 0 where
  pub conn : Conn
  pub nwrote : ℕ
  pub remaing : ℕ
  pub fault_error : Bool

unfoldable pub write_directly : (write : List ℕ → Sent) → List ℕ → Conn → Attempt
write_directly write bytes c = elim (write bytes) [
  | wrote n ↦
      let remaing = sub_size (length bytes) n in
      record {
        conn =
            emit_if (remaing == 0 && c.has_write_complete) queues_write_complete
              (record c { wire = c.wire ++ take n bytes });
        nwrote = n;
        remaing = remaing;
        fault_error = false;
      }
  | write_error errno ↦
      if errno == ewouldblock
      then record {
        conn = emit logs_error c;
        nwrote = 0;
        remaing = length bytes;
        fault_error = errno == epipe || errno == econnreset;
      }
      else record { conn = c; nwrote = 0; remaing = length bytes; fault_error = false }
]

unfoldable pub attempt : (write : List ℕ → Sent) → List ℕ → Conn → Attempt
attempt write bytes c =
    if not (is_write_event c.channel) && readable_bytes c.output_buffer == 0
    then write_directly write bytes c
    else record { conn = c; nwrote = 0; remaing = length bytes; fault_error = false }

-- The second part: what was not written goes to the output buffer.
unfoldable pub keep_rest : List ℕ → Attempt → Outcome Conn
keep_rest bytes a =
    let c = a.conn in
    if not a.fault_error && ltb 0 a.remaing
    then (let old_len = readable_bytes c.output_buffer in
        let total = add_size old_len a.remaing in
        let c' : Conn =
          emit_if (leb c.high_water_mark total && ltb old_len c.high_water_mark && c.has_high_water)
            (queues_high_water total) c in
        append c.output_buffer (take a.remaing (drop a.nwrote bytes)) >>= λ output.
        let c'' : Conn = record c' { output_buffer = output } in
        if is_write_event c.channel then ok c'' else ok (update set_writing c''))
    else ok c

-- `SendInLoop`
unfoldable pub send_in_loop : (write : List ℕ → Sent) → List ℕ → Conn → Outcome Conn
send_in_loop write bytes c =
    if is_disconnected c.state
    then ok (emit logs_error c)
    else keep_rest bytes (attempt write bytes c)

-- `Send`, on the loop's thread or on another.
unfoldable pub send : (in_loop : Bool) → (write : List ℕ → Sent) → List ℕ → Conn → Outcome Conn
send in_loop write bytes c =
    if is_connected c.state
    then (if in_loop then send_in_loop write bytes c else ok (emit (queues_send bytes) c))
    else ok c
