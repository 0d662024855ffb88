-- ===== src/Muduo/EventLoop.antt =====
-- mymuduo/event_loop.h and mymuduo/event_loop.cpp: the queue of functors that other threads hand to
-- a loop, and the eventfd that wakes it. A functor is known by a number. `executed` and `queued` are
-- histories: what ran, and what was ever queued. `in_flight` counts the threads between the two
-- parts of `QueueInLoop`, or of `Quit`: their wake-up is still to come.
pub mod Functors
pub mod Wakeup
pub mod Making
mod Tests
use cpp_toy.Base.{ℕ, ◌+◌, List, [], ◌∷◌, ◌++◌, Bool, true, false, ◌||◌, not, if◌then◌else◌}

-- Where the loop's thread is: before `Loop()`, or in it.
pub data Phase : Type 0 where
  preparing : Phase
  polling : Phase
  handling : Phase
  executing : Phase
  stopped : Phase

pub record Loop : Type 0 where
  pub phase : Phase
  pub quit : Bool
  pub calling_pending_functors : Bool
  pub pending_functors : List ℕ
  pub functors : List ℕ  -- the local vector of `DoPendingFunctors`
  pub wakeup_count : ℕ  -- the counter of the eventfd
  pub in_flight : ℕ
  pub executed : List ℕ
  pub queued : List ℕ
  pub early : Bool  -- whether a pending functor was queued by the loop's thread before `Loop()`

-- What the constructor leaves.
abbrev pub start : Loop
start = record {
  phase = preparing;
  quit = false;
  calling_pending_functors = false;
  pending_functors = [];
  functors = [];
  wakeup_count = 0;
  in_flight = 0;
  executed = [];
  queued = [];
  early = false;
}

-- The critical section of `QueueInLoop`.
unfoldable pub enqueue : ℕ → Loop → Loop
enqueue f l = record l {
  pending_functors = l.pending_functors ++ f ∷ [];
  queued = l.queued ++ f ∷ [];
}

-- The write to the eventfd adds one to its counter.
unfoldable pub wakeup : Loop → Loop
wakeup l = record l { wakeup_count = l.wakeup_count + 1 }

-- The read from the eventfd takes its counter back to zero.
unfoldable pub handle_read : Loop → Loop
handle_read l = record l { wakeup_count = 0 }

-- `own` is `IsInLoopThread()`.
unfoldable pub queue_in_loop : (own : Bool) → ℕ → Loop → Loop
unfolding enqueue wakeup
queue_in_loop own f l =
    let l' = enqueue f l in if not own || l'.calling_pending_functors then wakeup l' else l'

unfoldable pub run_now : ℕ → Loop → Loop
run_now f l = record l { executed = l.executed ++ f ∷ [] }

unfoldable pub run_in_loop : (own : Bool) → ℕ → Loop → Loop
unfolding queue_in_loop run_now
run_in_loop own f l = if own then run_now f l else queue_in_loop own f l

unfoldable pub request_quit : (own : Bool) → Loop → Loop
unfolding wakeup
request_quit own l = let l' : Loop = record l { quit = true } in if not own then wakeup l' else l'

-- The two locked or atomic parts of `DoPendingFunctors` around its calls.
unfoldable pub swap_out : Loop → Loop
swap_out l = record l {
  calling_pending_functors = true;
  functors = l.pending_functors;
  pending_functors = [];
}

-- Each functor may queue others; `queues f` says which.
unfoldable pub queue_all : List ℕ → Loop → Loop
queue_all [] l = l
queue_all (f ∷ fs) l = queue_all fs (queue_in_loop true f l)

unfoldable pub run_functors : (queues : ℕ → List ℕ) → List ℕ → Loop → Loop
run_functors queues [] l = record l { functors = [] }
run_functors queues (f ∷ fs) l = run_functors queues fs (queue_all (queues f) (run_now f l))

-- `DoPendingFunctors`, undisturbed by other threads.
unfoldable pub do_pending_functors : (queues : ℕ → List ℕ) → Loop → Loop
unfolding swap_out
do_pending_functors queues l = record (run_functors queues l.pending_functors (swap_out l)) {
  calling_pending_functors = false;
}
