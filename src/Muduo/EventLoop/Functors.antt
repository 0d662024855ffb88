-- ===== src/Muduo/EventLoop/Functors.antt =====
-- One call of `DoPendingFunctors`.
use cpp_toy.Base.{
  ℕ, ◌+◌, ◌≡◌, refl, ◌∙◌, ap, List, [], ◌∷◌, ◌++◌, append_assoc, append-nil, arith, true, false,
  length, length-append,
}
use cpp_toy.Muduo.EventLoop.{
  Loop, queue_in_loop, run_now, swap_out, queue_all, run_functors, do_pending_functors,
}

-- Everything that the functors of `fs` queue, in order.
abbrev pub queued_by : (ℕ → List ℕ) → List ℕ → List ℕ
queued_by queues [] = []
queued_by queues (f ∷ fs) = queues f ++ queued_by queues fs

-- While functors are being called, each that is queued from the loop's own thread wakes the loop.
queue_all_lem :
    (fs : List ℕ) (l : Loop)
    → l.calling_pending_functors ≡ true
    → queue_all fs l ≡ record l {
      pending_functors = l.pending_functors ++ fs;
      queued = l.queued ++ fs;
      wakeup_count = l.wakeup_count + length fs;
    }
unfolding queue_all queue_in_loop
queue_all_lem [] l h = ground (arith, append-nil l.pending_functors, append-nil l.queued)
queue_all_lem (f ∷ fs) l h =
    let l' : Loop = record l {
      pending_functors = l.pending_functors ++ f ∷ [];
      queued = l.queued ++ f ∷ [];
      wakeup_count = l.wakeup_count + 1;
    } in
    let one : queue_in_loop true f l ≡ l' = ground arith in
    ap (queue_all fs) one
    ∙ queue_all_lem fs l' h
    ∙ ground (arith, append_assoc l.pending_functors (f ∷ []) fs, append_assoc l.queued (f ∷ []) fs)

run_functors_lem :
    (queues : ℕ → List ℕ) (fs : List ℕ) (l : Loop)
    → l.calling_pending_functors ≡ true
    → run_functors queues fs l ≡ record l {
      functors = [];
      executed = l.executed ++ fs;
      pending_functors = l.pending_functors ++ queued_by queues fs;
      queued = l.queued ++ queued_by queues fs;
      wakeup_count = l.wakeup_count + length (queued_by queues fs);
    }
unfolding run_functors run_now
run_functors_lem queues [] l h =
    ground (arith, append-nil l.executed, append-nil l.pending_functors, append-nil l.queued)
run_functors_lem queues (f ∷ fs) l h =
    let l' : Loop = record l {
      executed = l.executed ++ f ∷ [];
      pending_functors = l.pending_functors ++ queues f;
      queued = l.queued ++ queues f;
      wakeup_count = l.wakeup_count + length (queues f);
    } in
    let one : queue_all (queues f) (run_now f l) ≡ l' = queue_all_lem (queues f) (run_now f l) h in
    let rest = queued_by queues fs in
    ap (run_functors queues fs) one
    ∙ run_functors_lem queues fs l' h
    ∙ ground (
      arith,
      append_assoc l.executed (f ∷ []) fs,
      append_assoc l.pending_functors (queues f) rest,
      append_assoc l.queued (queues f) rest,
      length-append (queues f) rest,
    )

-- `DoPendingFunctors` calls every functor that was pending, once and in the order of queueing;
-- what these queue waits for the next round, again in order, with one wake-up for each, so that the
-- next poll returns at once; and it ends for every list of pending functors.
pub do_pending_functors_lem :
    (queues : ℕ → List ℕ) (l : Loop)
    → let l' = do_pending_functors queues l in
      let later = queued_by queues l.pending_functors in
      (l'.executed ≡ l.executed ++ l.pending_functors)
      × (l'.pending_functors ≡ later)
      × (l'.wakeup_count ≡ l.wakeup_count + length later)
      × (l'.calling_pending_functors ≡ false)
      × (l'.functors ≡ [])
unfolding do_pending_functors swap_out
do_pending_functors_lem queues l =
    rw (run_functors_lem queues l.pending_functors (swap_out l) refl) (refl, refl, refl, refl, refl)
