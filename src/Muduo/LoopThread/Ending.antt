-- ===== src/Muduo/LoopThread/Ending.antt =====
-- How the threads of an EventLoopThread come to an end, and when they do not.
use cpp_toy.Base.{
  ℕ, ◌+◌, ◌≤◌, ◌≡◌, ◌≢◌, refl, ap, ◌⊎◌, inl, inr, true, false, arith, ◌==◌, ==_iff, Bool-cases,
}
use cpp_toy.Muduo.LoopThread.{
  Owner, made, awaiting_tid, awaiting_loop, returned, quitting, joining, destroying_thread, gone,
  Runner, absent, created, posting, constructing, initialising, publishing, entering, looping,
  leaving, destroying_loop, ended, LoopThread, Step, starts, gets_semaphore, sees_loop, sets_tid,
  posts, constructs, initialises, publishes, enters, tests_quit, clears, ends, destroys_running,
  destroys_idle, quits, joins, joins_late, skips_join, Reach, step, Run, stays, goes,
}
use cpp_toy.Muduo.LoopThread.Handover.{owner_rank, runner_rank, bit, bit-true, Inv, Reach-Inv}

abbrev progress : LoopThread → ℕ
progress t = owner_rank t.owner + runner_rank t.runner

owner_rank_bound : (o : Owner) → owner_rank o ≤ 7
owner_rank_bound made = omega arith
owner_rank_bound awaiting_tid = omega arith
owner_rank_bound awaiting_loop = omega arith
owner_rank_bound returned = omega arith
owner_rank_bound quitting = omega arith
owner_rank_bound joining = omega arith
owner_rank_bound destroying_thread = omega arith
owner_rank_bound gone = omega arith

runner_rank_bound : (r : Runner) → runner_rank r ≤ 10
runner_rank_bound absent = omega arith
runner_rank_bound created = omega arith
runner_rank_bound posting = omega arith
runner_rank_bound constructing = omega arith
runner_rank_bound initialising = omega arith
runner_rank_bound publishing = omega arith
runner_rank_bound entering = omega arith
runner_rank_bound looping = omega arith
runner_rank_bound leaving = omega arith
runner_rank_bound destroying_loop = omega arith
runner_rank_bound ended = omega arith

-- Why no step may be left. The last two are an owner that waits for a thread whose loop was asked to
-- quit before it began and has set the request back, and one that waits for a loop that is gone.
pub data Over (t : LoopThread) : Type 0 where
  finished : t.owner ≡ gone → Over t
  quit_lost : t.owner ≡ joining → t.runner ≡ looping → t.quit ≡ false → t.forgotten ≡ true → Over t
  loop_lost : t.owner ≡ awaiting_loop → t.runner ≡ ended → Over t

module _ {address id : ℕ} where
  Step-progress :
      {t u : LoopThread} → Inv address id t → Step address id t u → progress t + 1 ≤ progress u
  Step-progress v (starts t p) = omega (arith, ap owner_rank p)
  Step-progress v (gets_semaphore t p q) = omega (arith, ap owner_rank p)
  Step-progress v (sees_loop t p q) = omega (arith, ap owner_rank p)
  Step-progress v (sets_tid t p) = omega (arith, ap runner_rank p)
  Step-progress v (posts t p) = omega (arith, ap runner_rank p)
  Step-progress v (constructs t p) = omega (arith, ap runner_rank p)
  Step-progress v (initialises t b p) = omega (arith, ap runner_rank p)
  Step-progress v (publishes t p) = omega (arith, ap runner_rank p)
  Step-progress v (enters t p) = omega (arith, ap runner_rank p)
  Step-progress v (tests_quit t p q) = omega (arith, ap runner_rank p)
  Step-progress v (clears t p) = omega (arith, ap runner_rank p)
  Step-progress v (ends t p) = omega (arith, ap runner_rank p)
  Step-progress v (destroys_running t (inl p) q) = omega (arith, ap owner_rank p)
  Step-progress v (destroys_running t (inr p) q) = omega (arith, ap owner_rank p)
  Step-progress v (destroys_idle t (inl p) q) = omega (arith, ap owner_rank p)
  Step-progress v (destroys_idle t (inr p) q) = omega (arith, ap owner_rank p)
  Step-progress v (quits t p) = omega (arith, ap owner_rank p)
  Step-progress v (joins t p q) = omega (arith, ap owner_rank p)
  Step-progress v (joins_late t p a b q) = omega (arith, ap owner_rank p)
  Step-progress v (skips_join t p a) = omega (arith, ap owner_rank p)

  Run-Reach :
      {t : LoopThread} {n : ℕ} {u : LoopThread}
      → Reach address id t
      → Run address id t n u
      → Reach address id u
  Run-Reach h stays = h
  Run-Reach h (goes r s) = step (Run-Reach h r) s

  -- The new thread has a step, unless it is not there, in its loop, or at its end.
  runner_moves :
      (t : LoopThread) (r : Runner)
      → t.runner ≡ r
      → ((u : LoopThread) × Step address id t u)
        ⊎ (t.runner ≡ absent)
        ⊎ ((t.runner ≡ looping) × (t.quit ≡ false))
        ⊎ (t.runner ≡ ended)
  runner_moves t absent e = inr (inl e)
  runner_moves t created e = inl (_, sets_tid t e)
  runner_moves t posting e = inl (_, posts t e)
  runner_moves t constructing e = inl (_, constructs t e)
  runner_moves t initialising e = inl (_, initialises t false e)
  runner_moves t publishing e = inl (_, publishes t e)
  runner_moves t entering e = inl (_, enters t e)
  runner_moves t looping e = elim (Bool-cases t.quit) [
    | inl q ↦ inl (_, tests_quit t e q)
    | inr q ↦ inr (inr (inl (e, q)))
  ]
  runner_moves t leaving e = inl (_, clears t e)
  runner_moves t destroying_loop e = inl (_, ends t e)
  runner_moves t ended e = inr (inr (inr e))

  destroys :
      (t : LoopThread)
      → (t.owner ≡ made) ⊎ (t.owner ≡ returned)
      → (u : LoopThread) × Step address id t u
  destroys t e = elim (Bool-cases (t.loop == 0)) [
    | inl z ↦ (_, destroys_idle t e ((==_iff _ _).0 z))
    | inr z ↦ (_, destroys_running t e (λ q. ground arith))
  ]

  module _ (real : address ≢ 0) where
    Run-progress :
        {t : LoopThread} {n : ℕ} {u : LoopThread}
        → Reach address id t
        → Run address id t n u
        → progress t + n ≤ progress u
    Run-progress h stays = omega arith
    Run-progress h (goes r s) =
        omega (arith, Run-progress h r, Step-progress (Reach-Inv real (Run-Reach h r)) s)

    Step-or-Over :
        (t : LoopThread) (o : Owner)
        → t.owner ≡ o
        → Inv address id t
        → ((u : LoopThread) × Step address id t u) ⊎ Over t
    Step-or-Over t made e v = inl (destroys t (inl e))
    Step-or-Over t awaiting_tid e v = elim (runner_moves t t.runner refl) [
      | inl s ↦ inl s
      | inr (inl a) ↦ absurd (omega (arith, v, ap owner_rank e, ap runner_rank a))
      | inr (inr (inl (l, q))) ↦
          inl (_, gets_semaphore t e (omega (arith, v, ap owner_rank e, ap runner_rank l)))
      | inr (inr (inr d)) ↦
          inl (_, gets_semaphore t e (omega (arith, v, ap owner_rank e, ap runner_rank d)))
    ]
    Step-or-Over t awaiting_loop e v = elim (runner_moves t t.runner refl) [
      | inl s ↦ inl s
      | inr (inl a) ↦ absurd (omega (arith, v, ap owner_rank e, ap runner_rank a))
      | inr (inr (inl (l, q))) ↦
          inl (_, sees_loop t e (λ z. omega (arith, v, real, z, ap runner_rank l)))
      | inr (inr (inr d)) ↦ inr (loop_lost e d)
    ]
    Step-or-Over t returned e v = inl (destroys t (inr e))
    Step-or-Over t quitting e v = inl (_, quits t e)
    Step-or-Over t joining e v = elim (runner_moves t t.runner refl) [
      | inl s ↦ inl s
      | inr (inl a) ↦ absurd (omega (arith, v, ap owner_rank e, ap runner_rank a))
      | inr (inr (inl (l, q))) ↦ inr (
          quit_lost e l q
            (bit-true t.forgotten (omega (arith, v, ap owner_rank e, ap runner_rank l, ap bit q))))
      | inr (inr (inr d)) ↦ inl (_, joins t e d)
    ]
    Step-or-Over t destroying_thread e v = elim (Bool-cases t.started) [
      | inr a ↦ inl (_, skips_join t e (inl a))
      | inl a ↦ elim (Bool-cases t.joined) [
        | inl j ↦ inl (_, skips_join t e (inr j))
        | inr j ↦ elim (runner_moves t t.runner refl) [
          | inl s ↦ inl s
          | inr (inl c) ↦ absurd (omega (arith, v, ap bit a, ap runner_rank c))
          | inr (inr (inl (l, q))) ↦ absurd (omega (arith, v, ap owner_rank e, ap runner_rank l))
          | inr (inr (inr d)) ↦ inl (_, joins_late t e a j d)
        ]
      ]
    ]
    Step-or-Over t gone e v = inr (finished e)

    -- Every run is short and goes on until it is over: from any state that the threads come to, a
    -- run in which nobody else asks the loop to quit has at most seventeen steps, and where no step
    -- is left the destructors have ended, or the owner waits for a thread whose loop was asked to quit
    -- before it began and has set the request back, or in `StartLoop` for a loop that is gone. In particular the owner never
    -- waits for the thread's id for ever.
    pub run_ends :
        {t : LoopThread} {n : ℕ} {u : LoopThread}
        → Reach address id t
        → Run address id t n u
        → (n ≤ 17) × (((v : LoopThread) × Step address id u v) ⊎ Over u)
    run_ends {u = u} h r = (
      omega (arith, Run-progress h r, owner_rank_bound u.owner, runner_rank_bound u.runner),
      Step-or-Over u u.owner refl (Reach-Inv real (Run-Reach h r)),
    )
