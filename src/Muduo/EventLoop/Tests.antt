-- ===== src/Muduo/EventLoop/Tests.antt =====
-- The loop's theorems at short histories.
use cpp_toy.Base.{
  ℕ, ◌+◌, ◌<◌, ◌≡◌, refl, inl, arith, List, [], ◌∷◌, ◌++◌, length, false, none, some,
}
use cpp_toy.Muduo.EventLoop.{Loop, polling, start, enqueue, wakeup, do_pending_functors}
use cpp_toy.Muduo.EventLoop.Functors.{queued_by, do_pending_functors_lem}
use cpp_toy.Muduo.Poller.{running, exited}
use cpp_toy.Muduo.Poller.Table.{table, idle, idle-Inv}
use cpp_toy.Muduo.Poller.Opening.{Opened, Closed}
use cpp_toy.Muduo.EventLoop.Making.{Made, create, destroy, wakeup_channel_of, one_loop_per_thread}
use cpp_toy.Muduo.EventLoop.Wakeup.{
  Reach, started, step, other_enqueues, other_wakes, begins, no_lost_wakeup, queued_in_order,
}

-- Functor 7 was queued by another thread, which then woke the loop.
abbrev queued_once : Loop
queued_once = record (enqueue 7 start) { in_flight = 1 }

abbrev woken : Loop
woken = record (wakeup queued_once) { in_flight = 0; phase = polling }

woken-Reach : Reach woken
unfolding enqueue wakeup
woken-Reach =
    step (step (step started (other_enqueues start 7)) (other_wakes queued_once (omega arith)))
      (begins (record (wakeup queued_once) { in_flight = 0 }) refl)

no_lost_wakeup_example : 0 < woken.wakeup_count
unfolding enqueue wakeup
no_lost_wakeup_example = no_lost_wakeup woken-Reach refl (inl (λ e. cc)) refl refl

queued_in_order_example :
    woken.queued ≡ woken.executed ++ (woken.functors ++ woken.pending_functors)
queued_in_order_example = queued_in_order woken-Reach

-- Functor 7 queues 8 and 9.
abbrev queues : ℕ → List ℕ
queues f = 8 ∷ 9 ∷ []

do_pending_functors_lem_test :
    let l' = do_pending_functors queues woken in
    let later = queued_by queues woken.pending_functors in
    (l'.executed ≡ woken.executed ++ woken.pending_functors)
    × (l'.pending_functors ≡ later)
    × (l'.wakeup_count ≡ woken.wakeup_count + length later)
    × (l'.calling_pending_functors ≡ false)
    × (l'.functors ≡ [])
do_pending_functors_lem_test = do_pending_functors_lem queues woken

-- Loop 1 with the eventfd 5 in thread 40, and then loop 2.
one_loop_per_thread_example :
    (m : Made table) × (create (some 5) 1 40 5 none idle ≡ running m)
    × (m.loop_in_thread ≡ some 1)
    × Opened idle m.world 5 (wakeup_channel_of 5)
    × (create (some 6) 2 40 6 m.loop_in_thread m.world ≡ exited)
    × (d : Made table) × (destroy m ≡ running d)
    × (d.loop_in_thread ≡ none)
    × (d.closed_fds ≡ 5 ∷ [])
    × Closed m.world d.world 5
one_loop_per_thread_example = one_loop_per_thread 5 1 40 5 6 2 6 idle idle-Inv refl refl
