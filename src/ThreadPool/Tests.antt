-- ===== src/ThreadPool/Tests.antt =====
-- The thread pool's theorems at a pool of one thread, and a task that no thread is left to take.
use cpp_toy.Base.{
  if_cases, ◌==◌, ◌≢◌, if◌then◌else◌, ℕ, ◌≤◌, ◌<◌, ◌≡◌, refl, [], ◌∷◌, true, false, none, arith, ok,
  fail, null_pointer,
}
use Prim.Native.Nat.{min}
use cpp_toy.ThreadPool.{
  Pool, Phase, outside, waiting, ready, timed, cached, create, start, incr, submit_task, look,
  leave, after_timeout, push_task, needs_thread, notify_one, stop, wake_for_exit, decr,
}
use cpp_toy.ThreadPool.Steps.{Chosen, submits, stops, exits, IsStarted, Reach, started, step}
use cpp_toy.ThreadPool.Start.{ids, start_lem}
use cpp_toy.ThreadPool.Wakeups.{IsCovered, NoneWaits, no_stranded_task, NoneWaits-at_exit}

-- A pool whose one thread is in a phase, in the cached mode.
abbrev pool_of : (init : ℕ) → Phase → Pool
pool_of init p = record {
  threads = 0 ∷ [];
  phase = λ i. if i == 0 then p else outside;
  init_thread_size = init;
  current_thread_size = 1;
  idle_thread_size = 1;
  thread_max_size = 300;
  task_que = [];
  task_size = 0;
  task_que_max_size = 1024;
  pool_mode = cached;
  is_running = true;
  next_id = 1;
  accepted = [];
  taken = [];
  notified = false;
}

abbrev pool : Pool
pool = pool_of 1 ready

pool-IsStarted : IsStarted pool
pool-IsStarted = record {
  no_tasks = refl;
  no_size = refl;
  no_accepted = refl;
  no_taken = refl;
  few = omega arith;
  none_waits = λ i. if_cases (λ (p : Phase). p ≢ waiting) (i == 0) (λ _ e. cc) (λ _ e. cc);
  not_notified = refl;
  each_in = λ i n. ground arith;
  counted = omega arith;
  max_bound = omega arith;
}

abbrev one_task : Pool
one_task = (submit_task none 7 pool).1

one_task-Reach : Reach one_task
unfolding Chosen
one_task-Reach =
    step (started pool-IsStarted (omega arith)) (submits pool none 7 pool-IsStarted.none_waits)

abbrev exiting : Pool
exiting = wake_for_exit (stop pool)

exiting-Reach : Reach exiting
unfolding stop
exiting-Reach =
    step (step (started pool-IsStarted (omega arith)) (stops pool)) (exits (stop pool) refl)

-- After `Start(0)`, the last thread has timed out and waits for the lock when a task comes: no
-- thread is made for it, and that thread returns.
stranded :
    ((after_timeout 0 60 (submit_task none 7 (pool_of 0 timed)).1).threads ≡ [])
    × ((after_timeout 0 60 (submit_task none 7 (pool_of 0 timed)).1).task_que ≡ 7 ∷ [])
unfolding after_timeout submit_task push_task needs_thread notify_one leave incr decr
stranded = (refl, refl)

no_stranded_task_example : IsCovered one_task.phase
unfolding submit_task push_task needs_thread notify_one incr
no_stranded_task_example = no_stranded_task one_task-Reach (λ e. cc)

NoneWaits-at_exit_test :
    NoneWaits exiting.phase × ((i : ℕ) → exiting.task_que ≡ [] → look i exiting ≡ leave i exiting)
unfolding wake_for_exit
NoneWaits-at_exit_test = NoneWaits-at_exit exiting-Reach refl

create-IsStarted : (k : ℕ) → IsStarted (create k)
unfolding create
create-IsStarted k = record {
  no_tasks = refl;
  no_size = refl;
  no_accepted = refl;
  no_taken = refl;
  few = omega arith;
  none_waits = λ i e. cc;
  not_notified = refl;
  each_in = λ i n. absurd (n refl);
  counted = omega arith;
  max_bound = omega arith;
}

start_lem_example :
    ((create 4).next_id ≡ 0
      → (s' : Pool) × (start 8 (create 4) ≡ ok s')
        × IsStarted s'
        × (s'.threads ≡ ids 0 (min 8 (create 4).thread_max_size))
        × ((j : ℕ) → j < min 8 (create 4).thread_max_size → s'.phase j ≡ ready))
    × (1 ≤ (create 4).next_id
        → 1 ≤ min 8 (create 4).thread_max_size
        → start 8 (create 4) ≡ fail null_pointer)
unfolding create
start_lem_example = start_lem 8 (create 4) (create-IsStarted 4) refl
