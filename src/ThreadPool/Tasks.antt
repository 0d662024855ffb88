-- ===== src/ThreadPool/Tasks.antt =====
-- The queue of tasks, and the counters of tasks and threads.
use cpp_toy.Base.{◌≤◌, ◌<◌, ◌≡◌, ◌++◌, length}
use cpp_toy.ThreadPool.{Pool, uint_mod}

pub record Inv (s : Pool) : Type 0 where
  pub size_is : s.task_size ≡ length s.task_que
  pub room : length s.task_que ≤ s.task_que_max_size
  pub bound : s.task_que_max_size < uint_mod
  pub history : s.accepted ≡ s.taken ++ s.task_que
  pub few : s.current_thread_size ≤ s.thread_max_size
