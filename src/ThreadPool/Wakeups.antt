-- ===== src/ThreadPool/Wakeups.antt =====
-- The condition variable `not_empty_`: who sleeps, and who is on the way to the queue.
use cpp_toy.Base.{
  ℕ, ◌≡◌, ◌≢◌, ◌⊎◌, inl, inr, refl, sym, ap, subst, ◌∙◌, List, [], ◌∷◌, Bool, true, false,
  false≢true, ◌&&◌, ◌||◌, not, Option, none, some, put, put_same, put_other, length, nil_of_length,
  arith, if_cases, ◌==◌, ltb, leb,
}
use cpp_toy.ThreadPool.{
  Pool, Phase, outside, ready, waiting, timed, busy, wake, max_idle_time, notify_all, notify_one,
  add_thread, push_task, needs_thread, submit_task, leave, take_task, look_at, look, after_timeout,
  finish_task, stop, wake_for_exit,
}
use cpp_toy.ThreadPool.Steps.{
  Chosen, Step, submits, looks, wakes_up, times_out, goes_on, finishes, stops, exits, Reach,
  started, step,
}

abbrev pub NoneWaits : (ℕ → Phase) → Type 0
NoneWaits f = (i : ℕ) → f i ≢ waiting

-- Some thread is about to look at the queue, or all that are left run tasks or have gone.
abbrev pub IsCovered : (ℕ → Phase) → Type 0
IsCovered f = ((i : ℕ) × (f i ≡ ready)) ⊎ NoneWaits f

pub record Inv (s : Pool) : Type 0 where
  pub covered : s.task_que ≢ [] → IsCovered s.phase
  pub at_exit : s.notified ≡ true → (s.is_running ≡ false) × NoneWaits s.phase

module _ (f : ℕ → Phase) (i : ℕ) where
  put_ready : IsCovered (put f i ready)
  put_ready = inl (i, put_same f ready i)

  put-NoneWaits : (p : Phase) → p ≢ waiting → NoneWaits f → NoneWaits (put f i p)
  put-NoneWaits p ne h j = if_cases (λ (q : Phase). q ≢ waiting) (j == i) (λ _. ne) (λ _. h j)

  put-IsCovered : (p : Phase) → p ≢ waiting → f i ≢ ready → IsCovered f → IsCovered (put f i p)
  put-IsCovered p ne not_ready (inl (j, e)) =
      inl (j, put_other f p i j (λ same. not_ready (subst (λ k. f k ≡ ready) same e)) ∙ e)
  put-IsCovered p ne not_ready (inr h) = inr (put-NoneWaits p ne h)

wake-ne-waiting : (p : Phase) → wake p ≢ waiting
wake-ne-waiting outside e = cc
wake-ne-waiting ready e = cc
wake-ne-waiting waiting e = cc
wake-ne-waiting timed e = cc
wake-ne-waiting busy e = cc

-- What the pool's own wake-up leaves covered.
notify_one-IsCovered :
    (woken : Option ℕ) (s : Pool) → Chosen woken s → IsCovered (notify_one woken s).phase
unfolding notify_one Chosen
notify_one-IsCovered none s c = inr c
notify_one-IsCovered (some i) s c = inl (i, put_same s.phase (wake (s.phase i)) i ∙ ap wake c)

push_task-Chosen :
    (woken : Option ℕ) (task : ℕ) (s : Pool) → Chosen woken s → Chosen woken (push_task task s)
unfolding Chosen push_task
push_task-Chosen none task s c = c
push_task-Chosen (some i) task s c = c

notify_one_notified : (woken : Option ℕ) (s : Pool) → (notify_one woken s).notified ≡ s.notified
unfolding notify_one
notify_one_notified none s = refl
notify_one_notified (some i) s = refl

submit_task-Inv :
    (woken : Option ℕ) (task : ℕ) (s : Pool)
    → Chosen woken s
    → Inv s
    → Inv (submit_task woken task s).1
unfolding submit_task add_thread push_task
submit_task-Inv woken task s c h =
    let s' = notify_one woken (push_task task s) in
    if_cases (λ (r : Bool × Pool). Inv r.1)
      (not s.is_running || not (ltb (length s.task_que) s.task_que_max_size)) (λ e. h)
      (λ e.
        if_cases Inv (needs_thread s')
          (λ g. record { covered = λ _. put_ready s'.phase s'.next_id; at_exit = not_exiting e })
          (λ g. record {
            covered = λ _.
                notify_one-IsCovered woken (push_task task s) (push_task-Chosen woken task s c);
            at_exit = not_exiting e;
          }))
  where
    not_exiting :
        {X : Type 0}
        → not s.is_running || not (ltb (length s.task_que) s.task_que_max_size) ≡ false
        → (notify_one woken (push_task task s)).notified ≡ true
        → X
    not_exiting e n =
        let stopped = (h.at_exit (sym (notify_one_notified woken (push_task task s)) ∙ n)).0 in
        absurd (ground arith)

take_task-Inv : (i task : ℕ) (rest : List ℕ) (s : Pool) → Inv s → Inv (take_task i task rest s)
unfolding take_task notify_all
take_task-Inv i task rest s h =
    if_cases Inv (ltb 0 (length rest))
      (λ e. record {
        covered = λ _. inr (λ j. wake-ne-waiting (put s.phase i busy j));
        at_exit = λ n. ((h.at_exit n).0, λ j. wake-ne-waiting (put s.phase i busy j));
      })
      (λ e. record {
        covered = λ ne. absurd (ne (nil_of_length rest (ground arith)));
        at_exit = λ n. ((h.at_exit n).0, put-NoneWaits s.phase i busy (λ e. cc) (h.at_exit n).1);
      })

look_at-Inv : (i : ℕ) (q : List ℕ) (s : Pool) → s.task_que ≡ q → Inv s → Inv (look_at i q s)
unfolding look_at leave
look_at-Inv i [] s e h =
    if_cases Inv (not s.is_running)
      (λ g. record {
        covered = λ ne. absurd (ne e);
        at_exit = λ n. ((h.at_exit n).0, put-NoneWaits s.phase i outside (λ e. cc) (h.at_exit n).1);
      })
      (λ g. record {
        covered = λ ne. absurd (ne e);
        at_exit = λ n. absurd (running g (h.at_exit n).0);
      })
  where
    running : not s.is_running ≡ false → s.is_running ≡ false → ⊥
    running g r = ground arith
look_at-Inv i (task ∷ rest) s e h = take_task-Inv i task rest s h

after_timeout-Inv : (i dur : ℕ) (s : Pool) → s.phase i ≡ timed → Inv s → Inv (after_timeout i dur s)
unfolding after_timeout leave look
after_timeout-Inv i dur s e h =
    if_cases Inv (leb max_idle_time dur && ltb s.init_thread_size s.current_thread_size)
      (λ _. record {
        covered = λ ne.
            put-IsCovered s.phase i outside (λ x. cc) (λ x. timed≢ready (sym e ∙ x)) (h.covered ne);
        at_exit = λ n. ((h.at_exit n).0, put-NoneWaits s.phase i outside (λ x. cc) (h.at_exit n).1);
      })
      (λ _. look_at-Inv i s.task_que s refl h)
  where
    timed≢ready : timed ≢ ready
    timed≢ready x = cc

-- Where a thread leaves the wait, or a task, it covers the queue or at least does not wait.
moved-Inv :
    (s : Pool) (i : ℕ) (p : Phase)
    → (p ≡ ready) ⊎ (p ≡ timed) × (s.phase i ≢ ready)
    → Inv s
    → Inv (record s { phase = put s.phase i p })
moved-Inv s i p (inl e) h = record {
  covered = λ _. subst (λ q. IsCovered (put s.phase i q)) (sym e) (put_ready s.phase i);
  at_exit = λ n. ((h.at_exit n).0, put-NoneWaits s.phase i p (λ x. cc) (h.at_exit n).1);
}
moved-Inv s i p (inr e) h = record {
  covered = λ ne. put-IsCovered s.phase i p (λ x. cc) e.1 (h.covered ne);
  at_exit = λ n. ((h.at_exit n).0, put-NoneWaits s.phase i p (λ x. cc) (h.at_exit n).1);
}

Step-Inv : {s s' : Pool} → Step s s' → Inv s → Inv s'
unfolding look stop wake_for_exit notify_all finish_task
Step-Inv (submits s woken task c) h = submit_task-Inv woken task s c h
Step-Inv (looks s i e) h = look_at-Inv i s.task_que s refl h
Step-Inv (wakes_up s i e) h = moved-Inv s i ready (inl refl) h
Step-Inv (times_out s i c e) h = moved-Inv s i timed (inr (refl, λ x. waiting≢ready (sym e ∙ x))) h
  where
    waiting≢ready : waiting ≢ ready
    waiting≢ready x = cc
Step-Inv (goes_on s i dur e) h = after_timeout-Inv i dur s e h
Step-Inv (finishes s i e) h =
    let m = moved-Inv s i ready (inl refl) h in record { covered = m.covered; at_exit = m.at_exit }
Step-Inv (stops s) h = record { covered = h.covered; at_exit = λ n. (refl, (h.at_exit n).1) }
Step-Inv (exits s e) h = record {
  covered = λ _. inr (λ j. wake-ne-waiting (s.phase j));
  at_exit = λ n. (e, λ j. wake-ne-waiting (s.phase j));
}

Reach-Inv : {s : Pool} → Reach s → Inv s
Reach-Inv (started b bound) = record {
  covered = λ _. inr b.none_waits;
  at_exit = λ n. absurd (false≢true (sym b.not_notified ∙ n));
}
Reach-Inv (step r t) = Step-Inv t (Reach-Inv r)

-- Whatever clients, threads and the destructor do after `Start`, with wake-ups by chance and by the
-- clock: while a task is in the queue some thread is about to look at it, or no thread waits at all.
pub no_stranded_task : {s : Pool} → Reach s → s.task_que ≢ [] → IsCovered s.phase
no_stranded_task r = (Reach-Inv r).covered

-- Once the destructor has woken the threads none waits again, so that a thread that looks at an
-- empty queue returns.
pub NoneWaits-at_exit :
    {s : Pool}
    → Reach s
    → s.notified ≡ true
    → NoneWaits s.phase × ((i : ℕ) → s.task_que ≡ [] → look i s ≡ leave i s)
unfolding look look_at
NoneWaits-at_exit {s} r n = let h = (Reach-Inv r).at_exit n in (h.1, λ i e. rw (e, h.0) refl)
