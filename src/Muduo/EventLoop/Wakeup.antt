-- ===== src/Muduo/EventLoop/Wakeup.antt =====
-- The loop among other threads that queue functors and ask it to quit. Any of them may stop between
-- queueing and waking, and the loop may be anywhere.
use cpp_toy.Base.{
  ℕ, ◌+◌, ◌-◌, ◌<◌, ◌≡◌, ◌≢◌, refl, List, [], ◌∷◌, ◌++◌, append_assoc, append-nil, arith, true,
  false, ◌⊎◌, inl, inr, ◌∙◌, sym, Bool-cases, false≢true,
}
use cpp_toy.Muduo.EventLoop.{
  Loop, Phase, preparing, polling, handling, executing, stopped, start, enqueue, wakeup,
  handle_read, queue_in_loop, request_quit, run_now, swap_out,
}

-- One atomic step of some thread; the first three are the loop's own before and at the beginning of
-- `Loop()`, which sets `quit_` back. `epoll_wait` may return for other reasons than the eventfd.
pub data Step : Loop → Loop → Type 0 where
  prepares :
      (l : Loop) (f : ℕ)
      → l.phase ≡ preparing
      → Step l (record (queue_in_loop true f l) { early = true })
  asks_early : (l : Loop) → l.phase ≡ preparing → Step l (request_quit true l)
  begins : (l : Loop) → l.phase ≡ preparing → Step l (record l { phase = polling; quit = false })
  other_enqueues :
      (l : Loop) (f : ℕ) → Step l (record (enqueue f l) { in_flight = l.in_flight + 1 })
  other_quits : (l : Loop) → Step l (record l { quit = true; in_flight = l.in_flight + 1 })
  other_wakes :
      (l : Loop) → 0 < l.in_flight → Step l (record (wakeup l) { in_flight = l.in_flight - 1 })
  poll_returns : (l : Loop) → l.phase ≡ polling → Step l (record l { phase = handling })
  reads_eventfd : (l : Loop) → l.phase ≡ handling → Step l (handle_read l)
  own_enqueues :
      (l : Loop) (f : ℕ)
      → (l.phase ≡ handling) ⊎ (l.phase ≡ executing)
      → Step l (queue_in_loop true f l)
  own_quits :
      (l : Loop) → (l.phase ≡ handling) ⊎ (l.phase ≡ executing) → Step l (request_quit true l)
  swaps :
      (l : Loop)
      → l.phase ≡ handling
      → Step l (record (swap_out l) { phase = executing; early = false })
  calls :
      (l : Loop) (f : ℕ) (fs : List ℕ)
      → l.phase ≡ executing
      → l.functors ≡ f ∷ fs
      → Step l (record (run_now f l) { functors = fs })
  finishes :
      (l : Loop) (next : Phase)
      → l.phase ≡ executing
      → l.functors ≡ []
      → ((l.quit ≡ true) × (next ≡ stopped)) ⊎ ((l.quit ≡ false) × (next ≡ polling))
      → Step l (record l { calling_pending_functors = false; phase = next })

pub data Reach : Loop → Type 0 where
  started : Reach start
  step : {l u : Loop} → Reach l → Step l u → Reach u

-- A wake-up is at the eventfd or on its way there.
abbrev pub IsWoken : Loop → Type 0
IsWoken l = 0 < l.wakeup_count + l.in_flight

pub record Inv (l : Loop) : Type 0 where
  pub not_calling_before : l.phase ≡ preparing → l.calling_pending_functors ≡ false
  pub woken_preparing : l.phase ≡ preparing → l.pending_functors ≢ [] → l.early ≡ false → IsWoken l
  pub calling_when_executing : l.phase ≡ executing → l.calling_pending_functors ≡ true
  pub no_functors_before : (l.phase ≡ executing → ⊥) → l.functors ≡ []
  pub woken_polling :
      l.phase ≡ polling → (l.pending_functors ≢ []) ⊎ (l.quit ≡ true) → l.early ≡ false → IsWoken l
  pub woken_executing : l.phase ≡ executing → l.pending_functors ≢ [] → IsWoken l
  pub history : l.queued ≡ l.executed ++ (l.functors ++ l.pending_functors)

-- A functor at the end of the pending ones is at the end of the history.
history_snoc :
    (q e fs ps : List ℕ) (f : ℕ) → q ≡ e ++ (fs ++ ps) → q ++ f ∷ [] ≡ e ++ (fs ++ (ps ++ f ∷ []))
history_snoc q e fs ps f h = rw h (simp append_assoc)

append_one-ne-nil : (ps : List ℕ) (f : ℕ) → ps ++ f ∷ [] ≢ []
append_one-ne-nil [] f e = cc
append_one-ne-nil (p ∷ ps) f e = cc

start-Inv : Inv start
start-Inv = record {
  not_calling_before = λ _. refl;
  woken_preparing = λ _ n. absurd (n refl);
  calling_when_executing = λ e. absurd (cc);
  no_functors_before = λ _. refl;
  woken_polling = λ e. absurd (cc);
  woken_executing = λ e. absurd (cc);
  history = refl;
}

own_enqueues-Inv :
    (l : Loop) (f : ℕ)
    → Inv l
    → ¬ (l.phase ≡ polling)
    → ¬ (l.phase ≡ preparing)
    → (l.phase ≡ executing → l.calling_pending_functors ≡ true)
    → Inv (queue_in_loop true f l)
unfolding queue_in_loop enqueue wakeup
own_enqueues-Inv l f v not_polling begun calling = elim (Bool-cases l.calling_pending_functors) [
  | inl c ↦ rw c (record {
    not_calling_before = λ e. absurd (begun e);
    woken_preparing = λ e. absurd (begun e);
    calling_when_executing = λ _. refl;
    no_functors_before = v.no_functors_before;
    woken_polling = λ _ _ _. omega arith;
    woken_executing = λ _ _. omega arith;
    history = history_snoc l.queued l.executed l.functors l.pending_functors f v.history;
  })
  | inr c ↦ rw c (record {
    not_calling_before = λ e. absurd (begun e);
    woken_preparing = λ e. absurd (begun e);
    calling_when_executing = λ e. absurd (false≢true (sym c ∙ calling e));
    no_functors_before = v.no_functors_before;
    woken_polling = λ e. absurd (not_polling e);
    woken_executing = λ e. absurd (false≢true (sym c ∙ calling e));
    history = history_snoc l.queued l.executed l.functors l.pending_functors f v.history;
  })
]

finish-IsWoken :
    (l : Loop)
    → l.phase ≡ executing
    → l.quit ≡ false
    → Inv l
    → (l.pending_functors ≢ []) ⊎ (l.quit ≡ true)
    → IsWoken l
finish-IsWoken l p t v (inl n) = v.woken_executing p n
finish-IsWoken l p t v (inr q) = absurd (false≢true (sym t ∙ q))

-- `Loop()` has set `quit_` back.
begin-IsWoken :
    (l : Loop)
    → l.phase ≡ preparing
    → Inv l
    → (l.pending_functors ≢ []) ⊎ (false ≡ true)
    → l.early ≡ false
    → IsWoken l
begin-IsWoken l p v (inl n) early = v.woken_preparing p n early
begin-IsWoken l p v (inr q) early = absurd (false≢true q)

Step-Inv : {l u : Loop} → Step l u → Inv l → Inv u
unfolding enqueue wakeup handle_read queue_in_loop request_quit run_now swap_out
Step-Inv (prepares l f p) v = rw (v.not_calling_before p) (record {
  not_calling_before = λ _. refl;
  woken_preparing = λ _ _ e. absurd (cc);
  calling_when_executing = λ e. absurd (ground arith);
  no_functors_before = v.no_functors_before;
  woken_polling = λ e. absurd (ground arith);
  woken_executing = λ e. absurd (ground arith);
  history = history_snoc l.queued l.executed l.functors l.pending_functors f v.history;
})
Step-Inv (asks_early l p) v = record {
  not_calling_before = v.not_calling_before;
  woken_preparing = v.woken_preparing;
  calling_when_executing = λ e. absurd (ground arith);
  no_functors_before = v.no_functors_before;
  woken_polling = λ e. absurd (ground arith);
  woken_executing = λ e. absurd (ground arith);
  history = v.history;
}
Step-Inv (begins l p) v = record {
  not_calling_before = λ e. absurd (cc);
  woken_preparing = λ e. absurd (cc);
  calling_when_executing = λ e. absurd (cc);
  no_functors_before = λ _. v.no_functors_before (λ e. absurd (ground arith));
  woken_polling = λ _ x early. begin-IsWoken l p v x early;
  woken_executing = λ e. absurd (cc);
  history = v.history;
}
Step-Inv (other_enqueues l f) v = record {
  not_calling_before = v.not_calling_before;
  woken_preparing = λ _ _ _. omega arith;
  calling_when_executing = v.calling_when_executing;
  no_functors_before = v.no_functors_before;
  woken_polling = λ _ _ _. omega arith;
  woken_executing = λ _ _. omega arith;
  history = history_snoc l.queued l.executed l.functors l.pending_functors f v.history;
}
Step-Inv (other_quits l) v = record {
  not_calling_before = v.not_calling_before;
  woken_preparing = λ _ _ _. omega arith;
  calling_when_executing = v.calling_when_executing;
  no_functors_before = v.no_functors_before;
  woken_polling = λ _ _ _. omega arith;
  woken_executing = λ _ _. omega arith;
  history = v.history;
}
Step-Inv (other_wakes l some_left) v = record {
  not_calling_before = v.not_calling_before;
  woken_preparing = λ _ _ _. omega arith;
  calling_when_executing = v.calling_when_executing;
  no_functors_before = v.no_functors_before;
  woken_polling = λ _ _ _. omega arith;
  woken_executing = λ _ _. omega arith;
  history = v.history;
}
Step-Inv (poll_returns l p) v = record {
  not_calling_before = λ e. absurd (ground arith);
  woken_preparing = λ e. absurd (ground arith);
  calling_when_executing = λ e. absurd (cc);
  no_functors_before = λ _. v.no_functors_before (λ e. cc);
  woken_polling = λ e. absurd (cc);
  woken_executing = λ e. absurd (cc);
  history = v.history;
}
Step-Inv (reads_eventfd l p) v = record {
  not_calling_before = λ e. absurd (ground arith);
  woken_preparing = λ e. absurd (ground arith);
  calling_when_executing = λ e. absurd (cc);
  no_functors_before = v.no_functors_before;
  woken_polling = λ e. absurd (cc);
  woken_executing = λ e. absurd (cc);
  history = v.history;
}
Step-Inv (own_enqueues l f (inl p)) v =
    own_enqueues-Inv l f v (λ e. absurd (ground arith)) (λ e. absurd (ground arith))
      (λ e. absurd (ground arith))
Step-Inv (own_enqueues l f (inr p)) v =
    own_enqueues-Inv l f v (λ e. absurd (ground arith)) (λ e. absurd (ground arith))
      (λ _. v.calling_when_executing p)
Step-Inv (own_quits l p) v = record {
  not_calling_before = v.not_calling_before;
  woken_preparing = v.woken_preparing;
  calling_when_executing = v.calling_when_executing;
  no_functors_before = v.no_functors_before;
  woken_polling = λ e _ _. absurd (ground arith);
  woken_executing = v.woken_executing;
  history = v.history;
}
Step-Inv (swaps l p) v = record {
  not_calling_before = λ e. absurd (ground arith);
  woken_preparing = λ e. absurd (ground arith);
  calling_when_executing = λ _. refl;
  no_functors_before = λ n. absurd (n refl);
  woken_polling = λ e. absurd (cc);
  woken_executing = λ _ n. absurd (n refl);
  history = v.history ∙ rw (v.no_functors_before (λ e. cc)) (simp append-nil);
}
Step-Inv (calls l f fs p q) v = record {
  not_calling_before = λ e. absurd (ground arith);
  woken_preparing = λ e. absurd (ground arith);
  calling_when_executing = v.calling_when_executing;
  no_functors_before = λ n. absurd (n p);
  woken_polling = λ e. absurd (cc);
  woken_executing = v.woken_executing;
  history = v.history ∙ rw q (simp append_assoc);
}
Step-Inv (finishes l next p q (inl (t, e))) v = rw e (record {
  not_calling_before = λ e. absurd (ground arith);
  woken_preparing = λ e. absurd (ground arith);
  calling_when_executing = λ c. absurd (cc);
  no_functors_before = λ _. q;
  woken_polling = λ c. absurd (cc);
  woken_executing = λ c. absurd (cc);
  history = v.history;
})
Step-Inv (finishes l next p q (inr (t, e))) v = rw e (record {
  not_calling_before = λ e. absurd (ground arith);
  woken_preparing = λ e. absurd (ground arith);
  calling_when_executing = λ c. absurd (cc);
  no_functors_before = λ _. q;
  woken_polling = λ _ x _. finish-IsWoken l p t v x;
  woken_executing = λ c. absurd (cc);
  history = v.history;
})

pub Reach-Inv : {l : Loop} → Reach l → Inv l
Reach-Inv started = start-Inv
Reach-Inv (step r s) = Step-Inv s (Reach-Inv r)

-- No wake-up is lost but those of functors that the loop's own thread queues before `Loop()`, which
-- wake nobody: whenever the loop is about to wait while a functor is pending or it was asked to quit
-- since `Loop()` began, no such functor waits, and no thread is still on its way to the eventfd, the
-- eventfd is readable, so that the wait returns at once. This holds after every interleaving of the
-- loop with other threads, from the constructor on.
pub no_lost_wakeup :
    {l : Loop}
    → Reach l
    → l.phase ≡ polling
    → (l.pending_functors ≢ []) ⊎ (l.quit ≡ true)
    → l.early ≡ false
    → l.in_flight ≡ 0
    → 0 < l.wakeup_count
no_lost_wakeup r p x early idle = omega (arith, (Reach-Inv r).woken_polling p x early)

-- Nothing that is queued is lost, repeated or overtaken: in every reachable state the functors that
-- were queued are, in order, those that ran, those swapped out to run, and those pending.
pub queued_in_order :
    {l : Loop} → Reach l → l.queued ≡ l.executed ++ (l.functors ++ l.pending_functors)
queued_in_order r = (Reach-Inv r).history
