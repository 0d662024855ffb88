-- ===== src/Muduo/TcpConnection/Tests.antt =====
-- The connection's theorems at a small connection.
use cpp_toy.Base.{
  ℕ, ◌≡◌, ◌≢◌, refl, List, [], ◌∷◌, ◌++◌, arith, length, take, true, false, ok, replicate,
  length-take,
}
use cpp_toy.Muduo.Buffer.{Buffer, Sent, wrote}
use cpp_toy.Muduo.Buffer.View.{Holds}
use cpp_toy.Muduo.Channel.{Index}
use cpp_toy.Muduo.Channel.Events.{Asks, reading}
use cpp_toy.Muduo.TcpConnection.{
  State, connected, connecting, disconnecting, disconnected, Conn, emit, shuts_write, logs_error,
  send_in_loop, handle_write, shutdown, handle_close, updates, calls_connection, calls_close,
  connect_established,
}
use cpp_toy.Muduo.TcpConnection.Stream.{
  TakesPart, Continues, send_in_loop-Continues, handle_write-Continues,
}
use cpp_toy.Muduo.TcpConnection.Backlog.{
  IsStuck, connect_established_reads, handle_write-both, shutdown-both, send_in_loop-IsStuck,
  send_effects, send_in_loop-effects,
}
use cpp_toy.Muduo.TcpConnection.States.{shuts_elsewhere, Ages, step, step-Ages}

-- Room for four bytes.
abbrev empty_buffer : Buffer
empty_buffer = record { buffer = replicate 12 0; reader_index = 8; writer_index = 8 }

-- One byte waits.
abbrev one_waits : Buffer
one_waits = record {
  buffer = replicate 8 0 ++ 7 ∷ 0 ∷ 0 ∷ 0 ∷ [];
  reader_index = 8;
  writer_index = 9;
}

empty-Holds : Holds empty_buffer []
empty-Holds = record {
  before = replicate 8 0;
  after = replicate 4 0;
  layout = refl;
  reader_at = omega arith;
  writer_at = omega arith;
  prepend = omega arith;
  within = omega arith;
}

one_waits-Holds : Holds one_waits (7 ∷ [])
one_waits-Holds = record {
  before = replicate 8 0;
  after = replicate 3 0;
  layout = refl;
  reader_at = omega arith;
  writer_at = omega arith;
  prepend = omega arith;
  within = omega arith;
}

-- A connection whose channel asks for the events of the mask.
abbrev conn : State → ℕ → Buffer → Conn
conn s events output = record {
  state = s;
  channel = record {
    fd = 5;
    events = events;
    revents = 0;
    index = Index.new;
    tied = false;
    has_read = true;
    has_write = true;
    has_close = true;
    has_error = true;
  };
  input_buffer = empty_buffer;
  output_buffer = output;
  high_water_mark = 3;
  has_write_complete = true;
  has_high_water = true;
  wire = [];
  effects = [];
}

-- A kernel that takes at most two bytes.
abbrev takes_two : List ℕ → Sent
takes_two bytes = wrote (length (take 2 bytes))

takes_two-TakesPart : TakesPart takes_two
takes_two-TakesPart bytes n e = ground (arith, length-take {A = ℕ} 2 bytes)

send_in_loop-Continues_example :
    (connected ≢ disconnected
      → Continues
          (conn connected 3 one_waits)
          (7 ∷ [])
          (8 ∷ [])
          (send_in_loop takes_two (8 ∷ []) (conn connected 3 one_waits)))
    × (connected ≡ disconnected
        → send_in_loop takes_two (8 ∷ []) (conn connected 3 one_waits)
          ≡ ok (emit logs_error (conn connected 3 one_waits)))
send_in_loop-Continues_example =
    send_in_loop-Continues (conn connected 3 one_waits) takes_two (8 ∷ []) takes_two-TakesPart
      one_waits-Holds (omega arith)

handle_write-Continues_example :
    Continues
      (conn connected 4 one_waits)
      (7 ∷ [])
      []
      (handle_write takes_two (conn connected 4 one_waits))
handle_write-Continues_example =
    handle_write-Continues (conn connected 4 one_waits) takes_two one_waits-Holds

connect_established_reads_example :
    Asks (connect_established (conn connecting 0 empty_buffer)).channel reading
    × ((connect_established (conn connecting 0 empty_buffer)).state ≡ connected)
    × ((connect_established (conn connecting 0 empty_buffer)).effects
        ≡ updates 3 ∷ calls_connection ∷ [])
connect_established_reads_example = connect_established_reads (conn connecting 0 empty_buffer) refl

handle_write-both_example :
    handle_write takes_two (conn connected 7 one_waits)
    ≡ ok (emit logs_error (conn connected 7 one_waits))
handle_write-both_example = handle_write-both (conn connected 7 one_waits) takes_two refl

shutdown-both_test :
    shutdown true connected (conn connected 7 one_waits)
    ≡ emit shuts_write (conn disconnecting 7 one_waits)
shutdown-both_test = shutdown-both (conn connected 7 one_waits) refl refl

send_in_loop-IsStuck_example :
    (c' : Conn) × (send_in_loop takes_two (1 ∷ 2 ∷ 3 ∷ []) (conn connected 3 empty_buffer) ≡ ok c')
    × IsStuck c' (3 ∷ [])
send_in_loop-IsStuck_example =
    send_in_loop-IsStuck (conn connected 3 empty_buffer) takes_two (1 ∷ 2 ∷ 3 ∷ []) 2 refl refl
      empty-Holds (omega arith) refl (omega arith)

send_in_loop-effects_test :
    (c' : Conn) × (send_in_loop takes_two (8 ∷ 9 ∷ []) (conn connected 7 one_waits) ≡ ok c')
    × (c'.effects ≡ send_effects (conn connected 7 one_waits) 1 2)
send_in_loop-effects_test =
    send_in_loop-effects (conn connected 7 one_waits) takes_two (8 ∷ 9 ∷ []) refl one_waits-Holds
      (omega arith) (omega arith) (omega arith)

step-Ages_example : Ages connected (step (shuts_elsewhere connected) (conn connected 7 one_waits))
step-Ages_example = step-Ages (shuts_elsewhere connected) (conn connected 7 one_waits) refl

-- A send that the kernel takes in part, after the connection was established.
abbrev fresh : Conn
fresh = conn connecting 0 empty_buffer
