-- ===== src/Muduo/LoopThread/Waiting.antt =====
-- An owner that waits for a thread that will not end, or for a loop that is gone.
use cpp_toy.Base.{ℕ, ◌≤◌, ◌≡◌, ◌≢◌, refl, ap, sym, ◌∙◌, ◌⊎◌, inl, inr, arith}
use cpp_toy.Muduo.LoopThread.{
  awaiting_loop, joining, entering, destroying_loop, LoopThread, Step, starts, gets_semaphore,
  sees_loop, sets_tid, posts, constructs, initialises, publishes, enters, tests_quit, clears, ends,
  destroys_running, destroys_idle, quits, joins, joins_late, skips_join, Reach, Run, stays, goes,
}
use cpp_toy.Muduo.LoopThread.Handover.{owner_rank, runner_rank, bit, Reach-Inv, owner_of_rank}

-- The owner waits for a thread that will enter its loop, or in `StartLoop` for a loop that is gone.
abbrev Waits : ℕ → LoopThread → Type 0
Waits o t =
    (owner_rank t.owner ≡ o)
    × (((o ≡ 5) × ((runner_rank t.runner ≡ 6) ⊎ ((runner_rank t.runner ≡ 7) × (bit t.quit ≡ 0))))
        ⊎ ((o ≡ 2) × (9 ≤ runner_rank t.runner) × (t.loop ≡ 0)))

module _ {address id : ℕ} where
  Step-Waits : {o : ℕ} {t u : LoopThread} → Step address id t u → Waits o t → Waits o u
  Step-Waits (starts t p) w = omega (arith, ap owner_rank p)
  Step-Waits (gets_semaphore t p q) w = omega (arith, ap owner_rank p)
  Step-Waits (sees_loop t p q) w = omega (arith, ap owner_rank p)
  Step-Waits (sets_tid t p) w = omega (arith, ap runner_rank p)
  Step-Waits (posts t p) w = omega (arith, ap runner_rank p)
  Step-Waits (constructs t p) w = omega (arith, ap runner_rank p)
  Step-Waits (initialises t b p) w = omega (arith, ap runner_rank p)
  Step-Waits (publishes t p) w = omega (arith, ap runner_rank p)
  Step-Waits (enters t p) w = omega (arith, ap runner_rank p)
  Step-Waits (tests_quit t p q) w = omega (arith, ap runner_rank p, ap bit q)
  Step-Waits (clears t p) w = omega (arith, ap runner_rank p)
  Step-Waits (ends t p) w = omega (arith, ap runner_rank p)
  Step-Waits (destroys_running t (inl p) q) w = omega (arith, ap owner_rank p)
  Step-Waits (destroys_running t (inr p) q) w = omega (arith, ap owner_rank p)
  Step-Waits (destroys_idle t (inl p) q) w = omega (arith, ap owner_rank p)
  Step-Waits (destroys_idle t (inr p) q) w = omega (arith, ap owner_rank p)
  Step-Waits (quits t p) w = omega (arith, ap owner_rank p)
  Step-Waits (joins t p q) w = omega (arith, ap owner_rank p, ap runner_rank q)
  Step-Waits (joins_late t p a b q) w = omega (arith, ap owner_rank p)
  Step-Waits (skips_join t p a) w = omega (arith, ap owner_rank p)

  Run-Waits :
      {o : ℕ} {t : LoopThread} {n : ℕ} {u : LoopThread}
      → Run address id t n u
      → Waits o t
      → Waits o u
  Run-Waits stays w = w
  Run-Waits (goes r s) w = Step-Waits s (Run-Waits r w)

  -- A request to quit can be lost, and so can the loop. An owner whose `Quit` came before the thread
  -- entered `Loop()`, which sets the flag back, waits in `Join` in all that follows; an owner in
  -- `StartLoop` that finds the loop ended already waits there in all that follows. Both hold of runs
  -- in which nobody else asks the loop to quit.
  pub waits_for_ever :
      {t : LoopThread} {n : ℕ} {u : LoopThread}
      → address ≢ 0
      → Reach address id t
      → ((t.owner ≡ joining) × (t.runner ≡ entering))
        ⊎ ((t.owner ≡ awaiting_loop) × (t.runner ≡ destroying_loop))
      → Run address id t n u
      → u.owner ≡ t.owner
  waits_for_ever {t} {u = u} real h (inl (p, q)) r = owner_of_rank u.owner t.owner (
      (Run-Waits r (ap owner_rank p, inl (refl, inl (ap runner_rank q)))).0 ∙ sym (ap owner_rank p))
  waits_for_ever {t} {u = u} real h (inr (p, q)) r = owner_of_rank u.owner t.owner (
      (Run-Waits r (
        ap owner_rank p,
        inr (
          refl,
          omega (arith, ap runner_rank q),
          omega (arith, Reach-Inv real h, ap runner_rank q),
        ),
      )).0
      ∙ sym (ap owner_rank p))
