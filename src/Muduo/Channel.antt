-- ===== src/Muduo/Channel.antt =====
-- mymuduo/channel.h and mymuduo/channel.cpp: a file descriptor with the events that it asks for and
-- those that happened. `events` and `revents` are the bit sets of <sys/epoll.h>. `Update()` and
-- `Remove()` go to the poller and are modelled there.
pub mod Events
pub mod Dispatch
mod Tests
use Prim.Native.Nat.{bit_and, bit_or}
use cpp_toy.Base.{
  ℕ, ◌-◌, ◌^◌, List, [], ◌∷◌, ◌++◌, Bool, true, false, ◌&&◌, not, ◌==◌, if◌then◌else◌,
}

-- EPOLLIN, EPOLLPRI, EPOLLOUT, EPOLLERR and EPOLLHUP
abbrev pub epollin : ℕ
epollin = 1

abbrev pub epollpri : ℕ
epollpri = 2

abbrev pub epollout : ℕ
epollout = 4

abbrev pub epollerr : ℕ
epollerr = 8

abbrev pub epollhup : ℕ
epollhup = 16

abbrev pub none_event : ℕ
none_event = 0

abbrev pub read_event : ℕ
read_event = bit_or epollin epollpri

abbrev pub write_event : ℕ
write_event = epollout

-- `kNew`, `kAdded` and `kDeleted` of the poller
pub data Index : Type 0 where
  new : Index
  added : Index
  deleted : Index

-- A callback is present or empty; what it does is its owner's part.
pub record Channel : Type 0 where
  pub fd : ℕ
  pub events : ℕ
  pub revents : ℕ
  pub index : Index
  pub tied : Bool
  pub has_read : Bool
  pub has_write : Bool
  pub has_close : Bool
  pub has_error : Bool

-- The constructor.
unfoldable pub create : ℕ → Channel
create fd = record {
  fd = fd;
  events = 0;
  revents = 0;
  index = new;
  tied = false;
  has_read = false;
  has_write = false;
  has_close = false;
  has_error = false;
}

-- `~mask` of a 32-bit `int`
abbrev pub complement : ℕ → ℕ
complement mask = 2 ^ 32 - 1 - mask

-- The assignments to `events_`, without the `Update()` that follows each.
unfoldable pub set_reading : Channel → Channel
set_reading c = record c { events = bit_or c.events read_event }

unfoldable pub set_writing : Channel → Channel
set_writing c = record c { events = bit_or c.events write_event }

unfoldable pub clear_reading : Channel → Channel
clear_reading c = record c { events = bit_and c.events (complement read_event) }

unfoldable pub clear_writing : Channel → Channel
clear_writing c = record c { events = bit_and c.events (complement write_event) }

unfoldable pub clear_all : Channel → Channel
clear_all c = record c { events = none_event }

unfoldable pub is_none_event : Channel → Bool
is_none_event c = c.events == none_event

unfoldable pub is_read_event : Channel → Bool
is_read_event c = c.events == read_event

unfoldable pub is_write_event : Channel → Bool
is_write_event c = c.events == write_event

unfoldable pub tie : Channel → Channel
tie c = record c { tied = true }

pub data Callback : Type 0 where
  on_close : Callback
  on_error : Callback
  on_read : Callback
  on_write : Callback

-- `revents_ & mask` as a condition
unfoldable pub has_any : ℕ → ℕ → Bool
has_any revents mask = not (bit_and revents mask == 0)

abbrev pub when : Bool → Callback → List Callback
when b callback = if b then callback ∷ [] else []

-- The callbacks that are called, in their order.
unfoldable pub handle_event_with_guard : Channel → List Callback
handle_event_with_guard c =
    when (has_any c.revents epollhup && not (has_any c.revents epollin) && c.has_close) on_close
    ++ when (has_any c.revents epollerr && c.has_error) on_error
    ++ when (has_any c.revents (bit_or epollin epollpri) && c.has_read) on_read
    ++ when (has_any c.revents epollout && c.has_write) on_write

-- `alive` says whether `tie_.lock()` gives an object.
unfoldable pub handle_event : Channel → (alive : Bool) → List Callback
unfolding handle_event_with_guard
handle_event c alive =
    if c.tied then (if alive then handle_event_with_guard c else []) else handle_event_with_guard c
