-- ===== src/Muduo/Channel/Tests.antt =====
-- The channel's theorems at one channel.
use cpp_toy.Base.{◌≡◌, ◌↔◌, refl, [], ◌∷◌, true, false, ◌&&◌, not}
use cpp_toy.Muduo.Channel.{
  Channel, Index, on_close, on_error, on_read, on_write, set_reading, set_writing, clear_reading,
  clear_writing, clear_all, is_none_event, is_read_event, is_write_event, has_any, epollhup,
  epollin, epollerr, read_event, epollout, handle_event,
}
use cpp_toy.Muduo.Channel.Events.{Asks, nothing, reading, writing, both, setters_lem, tests_lem}
use cpp_toy.Muduo.Channel.Dispatch.{called, InOrder, handle_event_live, handle_event_dead}

-- It reads, and is told of data and of a hang-up.
abbrev busy : Channel
busy = record {
  fd = 5;
  events = 3;
  revents = 17;
  index = Index.added;
  tied = true;
  has_read = true;
  has_write = true;
  has_close = true;
  has_error = false;
}

setters_test :
    Asks (set_reading busy) reading
    × Asks (set_writing busy) both
    × Asks (clear_reading busy) nothing
    × Asks (clear_writing busy) reading
    × Asks (clear_all busy) nothing
setters_test = setters_lem busy reading refl

tests_test :
    ((is_none_event busy ≡ true) ↔ (reading ≡ nothing))
    × ((is_read_event busy ≡ true) ↔ (reading ≡ reading))
    × ((is_write_event busy ≡ true) ↔ (reading ≡ writing))
tests_test = tests_lem busy reading refl

handle_event_live_example :
    let calls = handle_event busy true in
    (called on_close calls ≡ (has_any 17 epollhup && not (has_any 17 epollin) && true))
    × (called on_error calls ≡ (has_any 17 epollerr && false))
    × (called on_read calls ≡ (has_any 17 read_event && true))
    × (called on_write calls ≡ (has_any 17 epollout && true))
    × InOrder 0 calls
handle_event_live_example = handle_event_live busy true refl

dead_test : handle_event busy false ≡ []
dead_test = handle_event_dead busy refl

-- Data before a hang-up: only the read callback runs.
handle_event-busy : handle_event busy true ≡ on_read ∷ []
unfolding handle_event has_any
handle_event-busy = refl
