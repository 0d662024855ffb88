-- ===== src/ThreadPool/Threads.antt =====
-- The threads of the pool, and the counter of them.
use cpp_toy.Base.{
  ℕ, ◌+◌, ◌≤◌, ◌<◌, ◌≡◌, ◌≢◌, refl, sym, ap, ◌∙◌, List, [], ◌∷◌, ◌++◌, Bool, true, Bool-cases, inl,
  inr, Option, none, some, put, put_same, put_other, length, length-append, arith, if_cases, ◌||◌,
  ◌&&◌, not, ltb, leb, ◌==◌,
}
use native.Mathlib.Decide.{ℕ_discrete}
use cpp_toy.ThreadPool.{
  Pool, Phase, outside, ready, waiting, timed, busy, has, erase, wake, incr, decr, uint_mod,
  max_idle_time, notify_all, notify_one, add_thread, push_task, needs_thread, submit_task, leave,
  take_task, look_at, look, after_timeout, finish_task, stop, wake_for_exit,
}
use cpp_toy.ThreadPool.Steps.{
  Step, submits, looks, wakes_up, times_out, goes_on, finishes, stops, exits, Reach, started, step,
  Each,
}

-- Each thread that runs is in the list, which is no longer than the counter says.
record Counted (s : Pool) : Type 0 where
  each_in : Each s.threads s.phase
  counted : length s.threads ≤ s.current_thread_size
  few : s.current_thread_size ≤ s.thread_max_size
  bound : s.thread_max_size < uint_mod

pub put-Each :
    (threads : List ℕ) (phase : ℕ → Phase) (i : ℕ) (p : Phase)
    → has i threads ≡ true
    → Each threads phase
    → Each threads (put phase i p)
put-Each threads phase i p there h j = elim (ℕ_discrete j i) [
  | yes e ↦ λ _. ap (λ k. has k threads) e ∙ there
  | no n ↦ λ inside. h j (λ q. inside (put_other phase p i j n ∙ q))
]

wake_inside : (p : Phase) → wake p ≢ outside → p ≢ outside
wake_inside outside n e = n refl
wake_inside waiting n e = cc
wake_inside ready n e = cc
wake_inside timed n e = cc
wake_inside busy n e = cc

notify_all-Each :
    (threads : List ℕ) (phase : ℕ → Phase) → Each threads phase → Each threads (λ i. wake (phase i))
notify_all-Each threads phase h j inside = h j (wake_inside (phase j) inside)

has-append : (i j : ℕ) (js : List ℕ) → has i js ≡ true → has i (js ++ j ∷ []) ≡ true
has-append i j [] h = absurd (cc)
has-append i j (k ∷ ks) h = elim (Bool-cases (k == i)) [
  | inl e ↦ rw e refl
  | inr e ↦ rw e (has-append i j ks (rw e at h))
]

has_last : (j : ℕ) (js : List ℕ) → has j (js ++ j ∷ []) ≡ true
has_last j [] = ground arith
has_last j (k ∷ ks) = elim (Bool-cases (k == j)) [
  | inl e ↦ rw e refl
  | inr e ↦ rw e (has_last j ks)
]

has-erase : (i j : ℕ) (js : List ℕ) → j ≢ i → has j js ≡ true → has j (erase i js) ≡ true
has-erase i j [] n h = absurd (cc)
has-erase i j (k ∷ ks) n h = elim (Bool-cases (k == i)) [
  | inl e ↦ rw e (has-erase i j ks n (ground arith))
  | inr e ↦ rw e (elim (Bool-cases (k == j)) [
    | inl f ↦ rw f refl
    | inr f ↦ rw f (has-erase i j ks n (rw f at h))
  ])
]

length-erase_le : (i : ℕ) (js : List ℕ) → length (erase i js) ≤ length js
length-erase_le i [] = omega arith
length-erase_le i (k ∷ ks) = ground (arith, length-erase_le i ks)

length-erase : (i : ℕ) (js : List ℕ) → has i js ≡ true → length (erase i js) + 1 ≤ length js
length-erase i [] h = absurd (cc)
length-erase i (k ∷ ks) h = elim (Bool-cases (k == i)) [
  | inl e ↦ rw e (omega (arith, length-erase_le i ks))
  | inr e ↦ rw e (omega (arith, length-erase i ks (rw e at h)))
]

leave-Each :
    (threads : List ℕ) (phase : ℕ → Phase) (i : ℕ)
    → Each threads phase
    → Each (erase i threads) (put phase i outside)
leave-Each threads phase i h j = elim (ℕ_discrete j i) [
  | yes e ↦ λ inside. absurd (inside (ap (put phase i outside) e ∙ put_same phase outside i))
  | no n ↦ λ inside. has-erase i j threads n (h j (λ q. inside (put_other phase outside i j n ∙ q)))
]

add-Each :
    (threads : List ℕ) (phase : ℕ → Phase) (i : ℕ)
    → Each threads phase
    → Each (threads ++ i ∷ []) (put phase i ready)
add-Each threads phase i h j = elim (ℕ_discrete j i) [
  | yes e ↦ λ _. ap (λ k. has k (threads ++ i ∷ [])) e ∙ has_last i threads
  | no n ↦ λ inside. has-append j i threads (h j (λ q. inside (put_other phase ready i j n ∙ q)))
]

-- What does not touch the list or the counters.
with_phase :
    (s : Pool) (phase : ℕ → Phase)
    → Counted s
    → Each s.threads phase
    → Counted (record s { phase = phase })
with_phase s phase h each = record {
  each_in = each;
  counted = h.counted;
  few = h.few;
  bound = h.bound;
}

inside_at :
    (s : Pool) (i : ℕ) (p : Phase)
    → Counted s
    → s.phase i ≡ p
    → p ≢ outside
    → has i s.threads ≡ true
inside_at s i p h e n = h.each_in i (λ q. n (sym e ∙ q))

notify_one-Counted : (woken : Option ℕ) (s : Pool) → Counted s → Counted (notify_one woken s)
unfolding notify_one
notify_one-Counted none s h = h
notify_one-Counted (some i) s h = record {
  each_in = λ j. elim (ℕ_discrete j i) [
    | yes e ↦ λ inside. h.each_in j (λ q.
        wake_inside (s.phase i)
          (λ z. inside (ap (put s.phase i (wake (s.phase i))) e ∙ put_same s.phase _ i ∙ z))
          (ap s.phase (sym e) ∙ q))
    | no n ↦ λ inside. h.each_in j (λ q. inside (put_other s.phase _ i j n ∙ q))
  ];
  counted = h.counted;
  few = h.few;
  bound = h.bound;
}

add_thread-Counted :
    (s : Pool) → s.current_thread_size < s.thread_max_size → Counted s → Counted (add_thread s)
unfolding add_thread incr
add_thread-Counted s free h = record {
  each_in = add-Each s.threads s.phase s.next_id h.each_in;
  counted = omega (arith, h.counted, h.bound, length-append s.threads (s.next_id ∷ []));
  few = omega (arith, h.bound);
  bound = h.bound;
}

push_task-Counted : (task : ℕ) (s : Pool) → Counted s → Counted (push_task task s)
unfolding push_task
push_task-Counted task s h = record {
  each_in = h.each_in;
  counted = h.counted;
  few = h.few;
  bound = h.bound;
}

submit_task-Counted :
    (woken : Option ℕ) (task : ℕ) (s : Pool) → Counted s → Counted (submit_task woken task s).1
unfolding submit_task needs_thread
submit_task-Counted woken task s h =
    let s' = notify_one woken (push_task task s) in
    let h' = notify_one-Counted woken _ (push_task-Counted task s h) in
    if_cases (λ (r : Bool × Pool). Counted r.1)
      (not s.is_running || not (ltb (length s.task_que) s.task_que_max_size)) (λ e. h)
      (λ e.
        if_cases Counted (needs_thread s') (λ g. add_thread-Counted s' (ground arith) h') (λ g. h'))

leave-Counted : (i : ℕ) (s : Pool) → Counted s → Counted (leave i s)
unfolding leave
leave-Counted i s h = record {
  each_in = leave-Each s.threads s.phase i h.each_in;
  counted = omega (arith, h.counted, length-erase_le i s.threads);
  few = h.few;
  bound = h.bound;
}

take_task-Counted :
    (i task : ℕ) (rest : List ℕ) (s : Pool)
    → has i s.threads ≡ true
    → Counted s
    → Counted (take_task i task rest s)
unfolding take_task notify_all
take_task-Counted i task rest s there h =
    let each = put-Each s.threads s.phase i busy there h.each_in in
    if_cases Counted (ltb 0 (length rest))
      (λ _. record {
        each_in = notify_all-Each s.threads (put s.phase i busy) each;
        counted = h.counted;
        few = h.few;
        bound = h.bound;
      })
      (λ _. record { each_in = each; counted = h.counted; few = h.few; bound = h.bound })

look_at-Counted :
    (i : ℕ) (q : List ℕ) (s : Pool) → has i s.threads ≡ true → Counted s → Counted (look_at i q s)
unfolding look_at
look_at-Counted i [] s there h =
    if_cases Counted (not s.is_running) (λ _. leave-Counted i s h)
      (λ _. with_phase s _ h (put-Each s.threads s.phase i waiting there h.each_in))
look_at-Counted i (task ∷ rest) s there h = take_task-Counted i task rest s there h

after_timeout-Counted :
    (i dur : ℕ) (s : Pool) → has i s.threads ≡ true → Counted s → Counted (after_timeout i dur s)
unfolding after_timeout leave decr look
after_timeout-Counted i dur s there h =
    if_cases Counted (leb max_idle_time dur && ltb s.init_thread_size s.current_thread_size)
      (λ e. record {
        each_in = leave-Each s.threads s.phase i h.each_in;
        counted = ground (arith, h.counted, h.few, h.bound, length-erase i s.threads there);
        few = ground (arith, h.few, h.bound);
        bound = h.bound;
      })
      (λ e. look_at-Counted i s.task_que s there h)

Step-Counted : {s s' : Pool} → Step s s' → Counted s → Counted s'
unfolding look finish_task stop wake_for_exit notify_all
Step-Counted (submits s woken task c) h = submit_task-Counted woken task s h
Step-Counted (looks s i e) h = look_at-Counted i s.task_que s (inside_at s i ready h e (λ q. cc)) h
Step-Counted (goes_on s i dur e) h =
    after_timeout-Counted i dur s (inside_at s i timed h e (λ q. cc)) h
Step-Counted (wakes_up s i e) h =
    with_phase s _ h
      (put-Each s.threads s.phase i ready (inside_at s i waiting h e (λ q. cc)) h.each_in)
Step-Counted (times_out s i c e) h =
    with_phase s _ h
      (put-Each s.threads s.phase i timed (inside_at s i waiting h e (λ q. cc)) h.each_in)
Step-Counted (finishes s i e) h = record {
  each_in = put-Each s.threads s.phase i ready (inside_at s i busy h e (λ q. cc)) h.each_in;
  counted = h.counted;
  few = h.few;
  bound = h.bound;
}
Step-Counted (stops s) h = record {
  each_in = h.each_in;
  counted = h.counted;
  few = h.few;
  bound = h.bound;
}
Step-Counted (exits s e) h = record {
  each_in = notify_all-Each s.threads s.phase h.each_in;
  counted = h.counted;
  few = h.few;
  bound = h.bound;
}

-- After `Start`, each thread that runs is in the list, and the list is no longer than the maximum.
pub Reach-few :
    {s : Pool} → Reach s → (length s.threads ≤ s.thread_max_size) × Each s.threads s.phase
Reach-few {s} r = let h = counted_at r in (omega (arith, h.counted, h.few), h.each_in)
  where
    counted_at : {u : Pool} → Reach u → Counted u
    counted_at (started b bound) = record {
      each_in = b.each_in;
      counted = b.counted;
      few = b.few;
      bound = b.max_bound;
    }
    counted_at (step t x) = Step-Counted x (counted_at t)
