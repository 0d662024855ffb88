-- ===== src/ThreadPool.antt =====
-- thread_pool/thread_pool.h and thread_pool.cpp: a pool of threads with one queue of tasks. A task
-- and a thread's id are numbers. What a thread does while it holds `task_que_mtx_` is one operation;
-- `phase` says where each thread is between them.
pub mod Start
pub mod Steps
pub mod Threads
pub mod Tasks
pub mod Wakeups
mod Tests
use Prim.Native.Nat.{min}
use cpp_toy.Base.{
  ℕ, zero, suc, ◌-◌, ◌+◌, ◌%◌, ◌^◌, List, [], ◌∷◌, ◌++◌, Bool, true, false, ◌&&◌, ◌||◌, not, Option,
  none, some, put, ltb, leb, ◌==◌, if◌then◌else◌, length, Outcome, ok, fail, null_pointer,
}

pub data Mode : Type 0 where
  fixed : Mode
  cached : Mode

pub data Phase : Type 0 where
  outside : Phase  -- not started yet, or returned from `ThreadFunc`
  ready : Phase  -- about to take the lock and to look at the queue
  waiting : Phase  -- in the wait on `not_empty_`
  timed : Phase  -- woken from it by the clock, without the lock yet
  busy : Phase  -- runs a task

-- `next_id` is `generate_thread_id_` of the process; `accepted` and `taken` keep the history of the
-- queue, and `notified` whether the destructor has woken the threads.
pub record Pool : Type 0 where
  pub threads : List ℕ
  pub phase : ℕ → Phase
  pub init_thread_size : ℕ
  pub current_thread_size : ℕ
  pub idle_thread_size : ℕ
  pub thread_max_size : ℕ
  pub task_que : List ℕ
  pub task_size : ℕ
  pub task_que_max_size : ℕ
  pub pool_mode : Mode
  pub is_running : Bool
  pub next_id : ℕ
  pub accepted : List ℕ
  pub taken : List ℕ
  pub notified : Bool

abbrev pub task_max_size : ℕ
task_max_size = 1024

abbrev pub max_size : ℕ
max_size = 300

-- In seconds.
abbrev pub max_idle_time : ℕ
max_idle_time = 60

-- An `unsigned int`.
abbrev pub uint_mod : ℕ
uint_mod = 2 ^ 32

unfoldable pub incr : ℕ → ℕ
incr n = (n + 1) % uint_mod

unfoldable pub decr : ℕ → ℕ
decr n = (n + uint_mod - 1) % uint_mod

-- The constructor, in a process that has made `next_id` threads before.
unfoldable pub create : (next_id : ℕ) → Pool
create next_id = record {
  threads = [];
  phase = λ i. outside;
  init_thread_size = 0;
  current_thread_size = 0;
  idle_thread_size = 0;
  thread_max_size = max_size;
  task_que = [];
  task_size = 0;
  task_que_max_size = task_max_size;
  pool_mode = fixed;
  is_running = false;
  next_id = next_id;
  accepted = [];
  taken = [];
  notified = false;
}

unfoldable pub set_mode : Mode → Pool → Pool
set_mode mode s = if s.is_running then s else record s { pool_mode = mode }

unfoldable pub set_task_que_max_size : ℕ → Pool → Pool
set_task_que_max_size n s = if s.is_running then s else record s { task_que_max_size = n }

unfoldable pub set_thread_max_size : ℕ → Pool → Pool
set_thread_max_size n s = if s.is_running then s else record s { thread_max_size = n }

abbrev pub has : ℕ → List ℕ → Bool
has i [] = false
has i (j ∷ js) = (j == i) || has i js

-- The first loop of `Start`: `count` more threads.
unfoldable pub create_threads : (count : ℕ) → Pool → Pool
create_threads zero s = s
create_threads (suc count) s =
    create_threads count
      (record s { threads = s.threads ++ s.next_id ∷ []; next_id = suc s.next_id })

-- The second loop, `count` rounds from `i`: where `threads_` has no `i`, `threads_[i]` makes a null
-- pointer.
unfoldable pub start_threads : (count i : ℕ) → Pool → Outcome Pool
start_threads zero i s = ok s
start_threads (suc count) i s =
    let rest =
      start_threads count (suc i)
        (record s { phase = put s.phase i ready; idle_thread_size = incr s.idle_thread_size }) in
    if has i s.threads then rest else fail null_pointer

unfoldable pub start : ℕ → Pool → Outcome Pool
start init_thread_size s =
    let n = min init_thread_size s.thread_max_size in
    start_threads n 0 (
      create_threads n
        (record s { is_running = true; init_thread_size = n; current_thread_size = n % uint_mod }))

abbrev pub wake : Phase → Phase
wake waiting = ready
wake p = p

unfoldable pub notify_all : Pool → Pool
notify_all s = record s { phase = λ i. wake (s.phase i) }

-- The thread that `not_empty_.notify_one()` wakes, if any waits, is not the pool's choice.
unfoldable pub notify_one : Option ℕ → Pool → Pool
notify_one none s = s
notify_one (some i) s = record s { phase = put s.phase i (wake (s.phase i)) }

abbrev pub is_cached : Mode → Bool
is_cached fixed = false
is_cached cached = true

unfoldable pub add_thread : Pool → Pool
add_thread s = record s {
  threads = s.threads ++ s.next_id ∷ [];
  phase = put s.phase s.next_id ready;
  next_id = suc s.next_id;
  current_thread_size = incr s.current_thread_size;
  idle_thread_size = incr s.idle_thread_size;
}

unfoldable pub push_task : ℕ → Pool → Pool
push_task task s = record s {
  task_que = s.task_que ++ task ∷ [];
  task_size = incr s.task_size;
  accepted = s.accepted ++ task ∷ [];
}

-- Whether a thread more is worth it.
unfoldable pub needs_thread : Pool → Bool
needs_thread s =
    is_cached s.pool_mode
    && (ltb s.idle_thread_size s.task_size && ltb s.current_thread_size s.thread_max_size)

-- `SubmitTask`, whose wait for room has ended, with or without room. The test is false where the
-- client gets a default value in place of the task's.
unfoldable pub submit_task : Option ℕ → ℕ → Pool → Bool × Pool
submit_task woken task s =
    if not s.is_running || not (ltb (length s.task_que) s.task_que_max_size) then (false, s) else (
      true,
      (let s' = notify_one woken (push_task task s) in
          if needs_thread s' then add_thread s' else s'),
    )

abbrev pub erase : ℕ → List ℕ → List ℕ
erase i [] = []
erase i (j ∷ js) = if j == i then erase i js else j ∷ erase i js

-- `ThreadFunc` returns in the thread `i`.
unfoldable pub leave : ℕ → Pool → Pool
leave i s = record s { threads = erase i s.threads; phase = put s.phase i outside }

unfoldable pub take_task : ℕ → (task : ℕ) (rest : List ℕ) → Pool → Pool
take_task i task rest s =
    let s' : Pool = record s {
      idle_thread_size = decr s.idle_thread_size;
      task_que = rest;
      task_size = decr s.task_size;
      taken = s.taken ++ task ∷ [];
      phase = put s.phase i busy;
    } in
    if ltb 0 (length rest) then notify_all s' else s'

unfoldable pub look_at : ℕ → (task_que : List ℕ) → Pool → Pool
look_at i [] s = if not s.is_running then leave i s else record s { phase = put s.phase i waiting }
look_at i (task ∷ rest) s = take_task i task rest s

-- What the thread `i` does with the lock, up to a task, a wait or its end.
unfoldable pub look : ℕ → Pool → Pool
look i s = look_at i s.task_que s

-- In the cached mode, after a wait of a second that nobody ended: `dur` is how long ago the thread
-- ran its last task. If it stays, it looks again with the same lock.
unfoldable pub after_timeout : ℕ → (dur : ℕ) → Pool → Pool
after_timeout i dur s =
    if leb max_idle_time dur && ltb s.init_thread_size s.current_thread_size
    then record (leave i s) {
      current_thread_size = decr s.current_thread_size;
      idle_thread_size = decr s.idle_thread_size;
    }
    else look i s

-- The thread `i` has run its task.
unfoldable pub finish_task : ℕ → Pool → Pool
finish_task i s = record s {
  phase = put s.phase i ready;
  idle_thread_size = incr s.idle_thread_size;
}

-- The destructor: first without the lock, then with it.
unfoldable pub stop : Pool → Pool
stop s = record s { is_running = false }

unfoldable pub wake_for_exit : Pool → Pool
wake_for_exit s = record (notify_all s) { notified = true }
