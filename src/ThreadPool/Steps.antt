-- ===== src/ThreadPool/Steps.antt =====
-- The pool among its threads and clients: who may do what next.
use cpp_toy.Base.{length, List, ℕ, ◌≤◌, ◌<◌, ◌≡◌, ◌≢◌, true, false, Option, none, some, [], put}
use cpp_toy.ThreadPool.{
  Pool, Phase, outside, has, ready, waiting, timed, busy, is_cached, submit_task, look,
  after_timeout, finish_task, stop, wake_for_exit, uint_mod,
}

-- `notify_one` wakes a waiting thread if there is one.
unfoldable pub Chosen : Option ℕ → Pool → Type 0
Chosen none s = (i : ℕ) → s.phase i ≢ waiting
Chosen (some i) s = s.phase i ≡ waiting

-- One step of a client, of a thread or of the destructor, each with the lock where the source takes
-- it. A wait may end for no reason; no client calls while the destructor runs.
pub data Step : Pool → Pool → Type 0 where
  submits :
      (s : Pool) (woken : Option ℕ) (task : ℕ)
      → Chosen woken s
      → Step s (submit_task woken task s).1
  looks : (s : Pool) (i : ℕ) → s.phase i ≡ ready → Step s (look i s)
  wakes_up :
      (s : Pool) (i : ℕ) → s.phase i ≡ waiting → Step s (record s { phase = put s.phase i ready })
  times_out :
      (s : Pool) (i : ℕ)
      → is_cached s.pool_mode ≡ true
      → s.phase i ≡ waiting
      → Step s (record s { phase = put s.phase i timed })
  goes_on : (s : Pool) (i dur : ℕ) → s.phase i ≡ timed → Step s (after_timeout i dur s)
  finishes : (s : Pool) (i : ℕ) → s.phase i ≡ busy → Step s (finish_task i s)
  stops : (s : Pool) → Step s (stop s)
  exits : (s : Pool) → s.is_running ≡ false → Step s (wake_for_exit s)

-- Each thread that is not outside `ThreadFunc` is in the list.
abbrev pub Each : List ℕ → (ℕ → Phase) → Type 0
Each threads phase = (i : ℕ) → phase i ≢ outside → has i threads ≡ true

-- What `Start` leaves.
pub record IsStarted (s : Pool) : Type 0 where
  pub no_tasks : s.task_que ≡ []
  pub no_size : s.task_size ≡ 0
  pub no_accepted : s.accepted ≡ []
  pub no_taken : s.taken ≡ []
  pub few : s.current_thread_size ≤ s.thread_max_size
  pub none_waits : (i : ℕ) → s.phase i ≢ waiting
  pub not_notified : s.notified ≡ false
  pub each_in : Each s.threads s.phase
  pub counted : length s.threads ≤ s.current_thread_size
  pub max_bound : s.thread_max_size < uint_mod

-- Where a pool with room for `bound` tasks may come to.
pub data Reach : Pool → Type 0 where
  started : {s : Pool} → IsStarted s → s.task_que_max_size < uint_mod → Reach s
  step : {s s' : Pool} → Reach s → Step s s' → Reach s'
