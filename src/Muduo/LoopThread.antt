-- ===== src/Muduo/LoopThread.antt =====
-- mymuduo/event_loop_thread.h and event_loop_thread.cpp, with the parts of thread.h and thread.cpp
-- that they run: a thread that makes an EventLoop of its own and hands its address to the thread
-- that started it. `Step` has the atomic steps of the owner of the EventLoopThread, of the new
-- thread, and of those that ask the loop to quit. A null pointer is 0. What changes nothing is no
-- step: a turn of a loop, or a wait on a condition that does not hold.
pub mod Handover
pub mod Ending
pub mod Waiting
mod Tests
use cpp_toy.Base.{ℕ, ◌+◌, ◌-◌, ◌<◌, ◌≡◌, ◌≢◌, ◌⊎◌, ◌||◌, Bool, true, false}

-- Where the owner is: in `StartLoop`, in the destructor of the EventLoopThread, or in the one of its
-- `thread_`, which follows.
pub data Owner : Type 0 where
  made : Owner
  awaiting_tid : Owner  -- `sem_wait` in `Thread::Start`
  awaiting_loop : Owner  -- `cond_.wait`
  returned : Owner
  quitting : Owner  -- it saw a loop, and will call `Quit` on it
  joining : Owner
  destroying_thread : Owner
  gone : Owner

-- Where the new thread is.
pub data Runner : Type 0 where
  absent : Runner
  created : Runner
  posting : Runner  -- its id is known; `sem_post` comes next
  constructing : Runner  -- before `EventLoop loop`
  initialising : Runner  -- before the callback
  publishing : Runner
  entering : Runner  -- before the two assignments that `Loop()` begins with
  looping : Runner
  leaving : Runner  -- before `loop_ = nullptr`
  destroying_loop : Runner
  ended : Runner

pub record LoopThread : Type 0 where
  pub owner : Owner
  pub runner : Runner
  pub loop : ℕ  -- the field `loop_`
  pub result : ℕ  -- what `StartLoop` returned
  pub started : Bool
  pub joined : Bool
  pub tid : ℕ
  pub sem : ℕ  -- the semaphore of `Thread::Start`
  pub exiting : Bool
  pub quit : Bool  -- the field `quit_` of the EventLoop
  pub forgotten : Bool  -- whether `Loop()` has set that field back over a request to quit

abbrev pub initial : LoopThread
initial = record {
  owner = made;
  runner = absent;
  loop = 0;
  result = 0;
  started = false;
  joined = false;
  tid = 0;
  sem = 0;
  exiting = false;
  quit = false;
  forgotten = false;
}

-- `Thread::Start` up to the new thread, the two steps of that thread before its function, and `Join`
-- before it waits.
abbrev pub begin_start : LoopThread → LoopThread
begin_start t = record t { started = true; sem = 0; runner = created }

abbrev pub set_tid : (id : ℕ) → LoopThread → LoopThread
set_tid id t = record t { tid = id; runner = posting }

abbrev pub post_semaphore : LoopThread → LoopThread
post_semaphore t = record t { sem = t.sem + 1; runner = constructing }

abbrev pub begin_join : LoopThread → LoopThread
begin_join t = record t { joined = true }

-- `address` is that of the local variable `loop` of `ThreadFunc`, `id` what gettid gives.
pub data Step (address id : ℕ) : LoopThread → LoopThread → Type 0 where
  -- `StartLoop`, with `Thread::Start`
  starts :
      (t : LoopThread)
      → t.owner ≡ made
      → Step address id t (record (begin_start t) { owner = awaiting_tid })
  gets_semaphore :
      (t : LoopThread)
      → t.owner ≡ awaiting_tid
      → 0 < t.sem
      → Step address id t (record t { owner = awaiting_loop; sem = t.sem - 1 })
  sees_loop :
      (t : LoopThread)
      → t.owner ≡ awaiting_loop
      → t.loop ≢ 0
      → Step address id t (record t { owner = returned; result = t.loop })
  -- the new thread: the lambda of `Thread::Start`, then `ThreadFunc`
  sets_tid : (t : LoopThread) → t.runner ≡ created → Step address id t (set_tid id t)
  posts : (t : LoopThread) → t.runner ≡ posting → Step address id t (post_semaphore t)
  constructs :
      (t : LoopThread)
      → t.runner ≡ constructing
      → Step address id t (record t { runner = initialising; quit = false })
  initialises :
      (t : LoopThread) (asks_quit : Bool)
      → t.runner ≡ initialising
      → Step address id t (record t { runner = publishing; quit = asks_quit })
  publishes :
      (t : LoopThread)
      → t.runner ≡ publishing
      → Step address id t (record t { runner = entering; loop = address })
  enters :
      (t : LoopThread)
      → t.runner ≡ entering
      → Step address id t
          (record t { runner = looping; quit = false; forgotten = t.forgotten || t.quit })
  tests_quit :
      (t : LoopThread)
      → t.runner ≡ looping
      → t.quit ≡ true
      → Step address id t (record t { runner = leaving })
  clears :
      (t : LoopThread)
      → t.runner ≡ leaving
      → Step address id t (record t { runner = destroying_loop; loop = 0 })
  ends :
      (t : LoopThread)
      → t.runner ≡ destroying_loop
      → Step address id t (record t { runner = ended })
  -- the destructors
  destroys_running :
      (t : LoopThread)
      → (t.owner ≡ made) ⊎ (t.owner ≡ returned)
      → t.loop ≢ 0
      → Step address id t (record t { owner = quitting; exiting = true })
  destroys_idle :
      (t : LoopThread)
      → (t.owner ≡ made) ⊎ (t.owner ≡ returned)
      → t.loop ≡ 0
      → Step address id t (record t { owner = destroying_thread; exiting = true })
  quits :
      (t : LoopThread)
      → t.owner ≡ quitting
      → Step address id t (record (begin_join t) { owner = joining; quit = true })
  joins :
      (t : LoopThread)
      → t.owner ≡ joining
      → t.runner ≡ ended
      → Step address id t (record t { owner = destroying_thread })
  joins_late :
      (t : LoopThread)
      → t.owner ≡ destroying_thread
      → t.started ≡ true
      → t.joined ≡ false
      → t.runner ≡ ended
      → Step address id t (record t { owner = gone })
  skips_join :
      (t : LoopThread)
      → t.owner ≡ destroying_thread
      → (t.started ≡ false) ⊎ (t.joined ≡ true)
      → Step address id t (record t { owner = gone })

-- A functor on the loop, or the owner or another thread that `StartLoop` gave the loop to, calls `Quit`.
pub data Asks : LoopThread → LoopThread → Type 0 where
  asks :
      (t : LoopThread)
      → (t.runner ≡ looping) ⊎ (t.owner ≡ returned)
      → Asks t (record t { quit = true })

pub data Reach (address id : ℕ) : LoopThread → Type 0 where
  begins : Reach address id initial
  step : {t u : LoopThread} → Reach address id t → Step address id t u → Reach address id u
  asked : {t u : LoopThread} → Reach address id t → Asks t u → Reach address id u

-- A run of so many steps, in which nobody else asks the loop to quit.
pub data Run (address id : ℕ) (t : LoopThread) : ℕ → LoopThread → Type 0 where
  stays : Run address id t 0 t
  goes :
      {n : ℕ} {u v : LoopThread}
      → Run address id t n u
      → Step address id u v
      → Run address id t (n + 1) v
