-- ===== src/Muduo/TcpConnection/Making.antt =====
-- mymuduo/tcp_connection.cpp: `CheckLoopNotNull` and the constructor. The name and the addresses are
-- left out; a loop is known by its address, where 0 is null.
use cpp_toy.Base.{ℕ, List, [], true, false, ◌==◌, if◌then◌else◌, Outcome, ok, ◌>>=◌}
use cpp_toy.Muduo.Buffer
use cpp_toy.Muduo.Buffer.{Buffer}
use cpp_toy.Muduo.Channel
use cpp_toy.Muduo.Channel.{Channel}
use cpp_toy.Muduo.Poller.{Run, running, exited}
use cpp_toy.Muduo.Socket.{Call, set_keep_alive}
use cpp_toy.Muduo.TcpConnection.{Conn, connecting, default_high_water_mark}

-- `kInitialSize`
abbrev initial_size : ℕ
initial_size = 1024

pub check_loop_not_null : ℕ → Run ℕ
check_loop_not_null loop = if loop == 0 then exited else running loop

-- The channel with the four callbacks of its connection.
unfoldable pub connection_channel : ℕ → Channel
unfolding Channel.create
connection_channel fd = record (Channel.create fd) {
  has_read = true;
  has_write = true;
  has_close = true;
  has_error = true;
}

-- The connection, with the calls that the constructor makes of the system.
unfoldable pub constructed : ℕ → Outcome (Conn × List Call)
constructed fd = do
  input ← Buffer.create initial_size
  output ← Buffer.create initial_size
  ok (
    record {
      state = connecting;
      channel = connection_channel fd;
      input_buffer = input;
      output_buffer = output;
      high_water_mark = default_high_water_mark;
      has_write_complete = false;
      has_high_water = false;
      wire = [];
      effects = [];
    },
    set_keep_alive true fd [],
  )

pub create : (loop fd : ℕ) → Run (Outcome (Conn × List Call))
create loop fd = elim (check_loop_not_null loop) [
  | running _ ↦ running (constructed fd)
  | exited ↦ exited
]
