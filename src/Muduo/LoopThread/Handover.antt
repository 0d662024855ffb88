-- ===== src/Muduo/LoopThread/Handover.antt =====
-- What `StartLoop` returns, and when the destructors end.
use cpp_toy.Base.{
  ℕ, ◌≤◌, ◌≡◌, ◌≢◌, refl, sym, ap, ◌∙◌, ◌⊎◌, ◌||◌, inl, inr, Bool, true, false, arith, ◌==◌,
  if◌then◌else◌,
}
use cpp_toy.Muduo.LoopThread.{
  Owner, made, awaiting_tid, awaiting_loop, returned, quitting, joining, destroying_thread, gone,
  Runner, absent, created, posting, constructing, initialising, publishing, entering, looping,
  leaving, destroying_loop, ended, LoopThread, Step, starts, gets_semaphore, sees_loop, sets_tid,
  posts, constructs, initialises, publishes, enters, tests_quit, clears, ends, destroys_running,
  destroys_idle, quits, joins, joins_late, skips_join, Asks, asks, Reach, begins, step, asked,
}

-- How far the owner and the new thread have come.
abbrev pub owner_rank : Owner → ℕ
owner_rank made = 0
owner_rank awaiting_tid = 1
owner_rank awaiting_loop = 2
owner_rank returned = 3
owner_rank quitting = 4
owner_rank joining = 5
owner_rank destroying_thread = 6
owner_rank gone = 7

abbrev pub runner_rank : Runner → ℕ
runner_rank absent = 0
runner_rank created = 1
runner_rank posting = 2
runner_rank constructing = 3
runner_rank initialising = 4
runner_rank publishing = 5
runner_rank entering = 6
runner_rank looping = 7
runner_rank leaving = 8
runner_rank destroying_loop = 9
runner_rank ended = 10

abbrev pub bit : Bool → ℕ
bit false = 0
bit true = 1

or_cases : (a b : Bool) → ((bit b ≡ 0) × (bit a ≡ 0)) ⊎ (bit (a || b) ≡ 1)
or_cases true b = inr refl
or_cases false true = inr refl
or_cases false false = inl (refl, refl)

-- What holds of the two ranks, the four flags and the rest of the state.
abbrev Holds : (address id o r s j sem loop tid result q f : ℕ) → Type 0
Holds address id o r s j sem loop tid result q f =
    ((o ≢ 0) ⊎ (r ≡ 0))
    × ((o ≢ 1) ⊎ ((1 ≤ r) × (r ≤ 2) × (sem ≡ 0)) ⊎ ((3 ≤ r) × (sem ≡ 1)))
    × ((o ≢ 2) ⊎ (3 ≤ r))
    × ((o ≤ 2) ⊎ (6 ≤ o) ⊎ (6 ≤ r))
    × (((6 ≤ r) × (r ≤ 8) × (loop ≡ address)) ⊎ ((r ≤ 5) × (loop ≡ 0)) ⊎ ((9 ≤ r) × (loop ≡ 0)))
    × (((r ≡ 0) × (s ≡ 0)) ⊎ ((1 ≤ r) × (s ≡ 1)))
    × ((5 ≤ o) ⊎ (j ≡ 0))
    × ((o ≢ 5) ⊎ (j ≡ 1))
    × ((o ≢ 6) ⊎ ((r ≡ 0) × (j ≡ 0)) ⊎ ((9 ≤ r) × (j ≡ 0)) ⊎ ((r ≡ 10) × (j ≡ 1)))
    × ((o ≢ 7) ⊎ (r ≡ 0) ⊎ (r ≡ 10))
    × ((r ≤ 1) ⊎ (tid ≡ id))
    × ((o ≢ 3) ⊎ (result ≡ address))
    × ((o ≢ 5) ⊎ (q ≡ 1) ⊎ (f ≡ 1) ⊎ (8 ≤ r))

abbrev pub Inv : (address id : ℕ) → LoopThread → Type 0
Inv address id t =
    Holds address id (owner_rank t.owner) (runner_rank t.runner) (bit t.started) (bit t.joined)
      t.sem t.loop t.tid t.result (bit t.quit) (bit t.forgotten)

module _ {address id : ℕ} (real : address ≢ 0) where
  pub Step-Inv : {t u : LoopThread} → Step address id t u → Inv address id t → Inv address id u
  Step-Inv (starts t p) v = omega (arith, ap owner_rank p)
  Step-Inv (gets_semaphore t p q) v = omega (arith, ap owner_rank p)
  Step-Inv (sees_loop t p q) v = omega (arith, ap owner_rank p)
  Step-Inv (sets_tid t p) v = omega (arith, ap runner_rank p)
  Step-Inv (posts t p) v = omega (arith, ap runner_rank p)
  Step-Inv (constructs t p) v = omega (arith, ap runner_rank p)
  Step-Inv (initialises t b p) v = omega (arith, ap runner_rank p)
  Step-Inv (publishes t p) v = omega (arith, ap runner_rank p)
  Step-Inv (enters t p) v = omega (arith, ap runner_rank p, or_cases t.forgotten t.quit)
  Step-Inv (tests_quit t p q) v = omega (arith, ap runner_rank p)
  Step-Inv (clears t p) v = omega (arith, ap runner_rank p)
  Step-Inv (ends t p) v = omega (arith, ap runner_rank p)
  Step-Inv (destroys_running t (inl p) q) v = omega (arith, ap owner_rank p)
  Step-Inv (destroys_running t (inr p) q) v = omega (arith, ap owner_rank p)
  Step-Inv (destroys_idle t (inl p) q) v = omega (arith, ap owner_rank p)
  Step-Inv (destroys_idle t (inr p) q) v = omega (arith, ap owner_rank p)
  Step-Inv (quits t p) v = omega (arith, ap owner_rank p)
  Step-Inv (joins t p q) v = omega (arith, ap owner_rank p, ap runner_rank q)
  Step-Inv (joins_late t p a b q) v = omega (arith, ap owner_rank p, ap runner_rank q)
  Step-Inv (skips_join t p (inl a)) v = omega (arith, ap owner_rank p, ap bit a)
  Step-Inv (skips_join t p (inr a)) v = omega (arith, ap owner_rank p, ap bit a)

  Asks-Inv : {t u : LoopThread} → Asks t u → Inv address id t → Inv address id u
  Asks-Inv (asks t _) v = omega (arith, v)

  pub Reach-Inv : {t : LoopThread} → Reach address id t → Inv address id t
  Reach-Inv begins = omega arith
  Reach-Inv (step r s) = Step-Inv s (Reach-Inv r)
  Reach-Inv (asked r a) = Asks-Inv a (Reach-Inv r)

-- A phase is known by its rank.
owner_at : ℕ → Owner
owner_at n =
    if n == 0
    then made
    else if n == 1
    then awaiting_tid
    else if n == 2
    then awaiting_loop
    else if n == 3
    then returned
    else if n == 4
    then quitting
    else if n == 5
    then joining
    else if n == 6
    then destroying_thread
    else gone

owner_at-rank : (o : Owner) → owner_at (owner_rank o) ≡ o
unfolding owner_at
owner_at-rank made = refl
owner_at-rank awaiting_tid = refl
owner_at-rank awaiting_loop = refl
owner_at-rank returned = refl
owner_at-rank quitting = refl
owner_at-rank joining = refl
owner_at-rank destroying_thread = refl
owner_at-rank gone = refl

pub owner_of_rank : (o p : Owner) → owner_rank o ≡ owner_rank p → o ≡ p
owner_of_rank o p e = sym (owner_at-rank o) ∙ ap owner_at e ∙ owner_at-rank p

pub runner_at_end :
    (r : Runner) → (runner_rank r ≡ 0) ⊎ (runner_rank r ≡ 10) → (r ≡ absent) ⊎ (r ≡ ended)
runner_at_end absent e = inl refl
runner_at_end ended e = inr refl
runner_at_end created e = absurd (omega arith)
runner_at_end posting e = absurd (omega arith)
runner_at_end constructing e = absurd (omega arith)
runner_at_end initialising e = absurd (omega arith)
runner_at_end publishing e = absurd (omega arith)
runner_at_end entering e = absurd (omega arith)
runner_at_end looping e = absurd (omega arith)
runner_at_end leaving e = absurd (omega arith)
runner_at_end destroying_loop e = absurd (omega arith)

pub bit-true : (b : Bool) → bit b ≡ 1 → b ≡ true
bit-true true e = refl
bit-true false e = absurd (omega arith)

module _ {address id : ℕ} (real : address ≢ 0) {t : LoopThread} (r : Reach address id t) where
  -- `StartLoop` never returns a null pointer: when it has returned, after any interleaving with the
  -- new thread, it returned the address of the loop that this thread made, and the thread's id is
  -- known. (The address of a local variable is not null.)
  pub start_loop_returns :
      t.owner ≡ returned → (t.result ≡ address) × (t.tid ≡ id) × (t.started ≡ true)
  start_loop_returns e =
      let v = Reach-Inv real r in
      let p = ap owner_rank e in
      (omega (arith, v, p), omega (arith, v, p), bit-true t.started (omega (arith, v, p)))

  -- No thread outlives its objects: when the destructors of the EventLoopThread and of its Thread
  -- have ended, after any interleaving, the thread was never started or its function has ended.
  pub no_thread_outlives : t.owner ≡ gone → (t.runner ≡ absent) ⊎ (t.runner ≡ ended)
  no_thread_outlives e =
      let v = Reach-Inv real r in
      let p = ap owner_rank e in runner_at_end t.runner (omega (arith, v, p))
