-- ===== src/Muduo/LoopThread/Tests.antt =====
-- Runs of a thread whose loop stands at address 4096 and whose id is 77.
use cpp_toy.Base.{◌≤◌, ◌≡◌, refl, ◌⊎◌, inl, inr, true, false, arith}
use cpp_toy.Muduo.LoopThread.{
  awaiting_tid, awaiting_loop, returned, quitting, joining, destroying_thread, gone, absent,
  created, posting, constructing, initialising, publishing, entering, looping, leaving,
  destroying_loop, ended, LoopThread, initial, Step, starts, gets_semaphore, sees_loop, sets_tid,
  posts, constructs, initialises, publishes, enters, tests_quit, clears, ends, destroys_running,
  quits, joins, skips_join, Reach, begins, step, Run, stays, goes,
}
use cpp_toy.Muduo.LoopThread.Handover.{start_loop_returns, no_thread_outlives}
use cpp_toy.Muduo.LoopThread.Ending.{Over, run_ends}
use cpp_toy.Muduo.LoopThread.Waiting.{waits_for_ever}

abbrev starting : LoopThread
starting = record initial { owner = awaiting_tid; runner = created; started = true; sem = 0 }

starting-Reach : Reach 4096 77 starting
starting-Reach = step begins (starts initial refl)

abbrev known : LoopThread
known = record starting { runner = posting; tid = 77 }

known-Reach : Reach 4096 77 known
known-Reach = step starting-Reach (sets_tid starting refl)

abbrev posted : LoopThread
posted = record known { runner = constructing; sem = 1 }

posted-Reach : Reach 4096 77 posted
posted-Reach = step known-Reach (posts known refl)

abbrev waiting : LoopThread
waiting = record posted { owner = awaiting_loop; sem = 0 }

waiting-Reach : Reach 4096 77 waiting
waiting-Reach = step posted-Reach (gets_semaphore posted refl (omega arith))

abbrev constructed : LoopThread
constructed = record waiting { runner = initialising; quit = false }

constructed-Reach : Reach 4096 77 constructed
constructed-Reach = step waiting-Reach (constructs waiting refl)

abbrev initialised : LoopThread
initialised = record constructed { runner = publishing; quit = false }

initialised-Reach : Reach 4096 77 initialised
initialised-Reach = step constructed-Reach (initialises constructed false refl)

abbrev published : LoopThread
published = record initialised { runner = entering; loop = 4096 }

published-Reach : Reach 4096 77 published
published-Reach = step initialised-Reach (publishes initialised refl)

abbrev handed_over : LoopThread
handed_over = record published { owner = returned; result = 4096 }

handed_over-Reach : Reach 4096 77 handed_over
handed_over-Reach = step published-Reach (sees_loop published refl (λ e. omega arith))

abbrev destroyed_early : LoopThread
destroyed_early = record handed_over { owner = quitting; exiting = true }

destroyed_early-Reach : Reach 4096 77 destroyed_early
destroyed_early-Reach =
    step handed_over-Reach (destroys_running handed_over (inr refl) (λ e. omega arith))

abbrev lost : LoopThread
lost = record destroyed_early { owner = joining; joined = true; quit = true }

lost-Reach : Reach 4096 77 lost
lost-Reach = step destroyed_early-Reach (quits destroyed_early refl)

abbrev running : LoopThread
running = record handed_over { runner = looping; quit = false }

running-Reach : Reach 4096 77 running
running-Reach = step handed_over-Reach (enters handed_over refl)

abbrev destroyed : LoopThread
destroyed = record running { owner = quitting; exiting = true }

destroyed-Reach : Reach 4096 77 destroyed
destroyed-Reach = step running-Reach (destroys_running running (inr refl) (λ e. omega arith))

abbrev told : LoopThread
told = record destroyed { owner = joining; joined = true; quit = true }

told-Reach : Reach 4096 77 told
told-Reach = step destroyed-Reach (quits destroyed refl)

abbrev stopping : LoopThread
stopping = record told { runner = leaving }

stopping-Reach : Reach 4096 77 stopping
stopping-Reach = step told-Reach (tests_quit told refl refl)

abbrev cleared : LoopThread
cleared = record stopping { runner = destroying_loop; loop = 0 }

cleared-Reach : Reach 4096 77 cleared
cleared-Reach = step stopping-Reach (clears stopping refl)

abbrev over : LoopThread
over = record cleared { runner = ended }

over-Reach : Reach 4096 77 over
over-Reach = step cleared-Reach (ends cleared refl)

abbrev joined_thread : LoopThread
joined_thread = record over { owner = destroying_thread }

joined_thread-Reach : Reach 4096 77 joined_thread
joined_thread-Reach = step over-Reach (joins over refl refl)

abbrev all_gone : LoopThread
all_gone = record joined_thread { owner = gone }

all_gone-Reach : Reach 4096 77 all_gone
all_gone-Reach = step joined_thread-Reach (skips_join joined_thread refl (inr refl))

start_loop_returns_example :
    (handed_over.result ≡ 4096) × (handed_over.tid ≡ 77) × (handed_over.started ≡ true)
start_loop_returns_example = start_loop_returns (λ e. omega arith) handed_over-Reach refl

no_thread_outlives_example : (all_gone.runner ≡ absent) ⊎ (all_gone.runner ≡ ended)
no_thread_outlives_example = no_thread_outlives (λ e. omega arith) all_gone-Reach refl

-- From the request to quit to the end.
ending : Run 4096 77 told 5 all_gone
ending =
    goes
      (goes
        (goes (goes (goes stays (tests_quit told refl refl)) (clears stopping refl))
          (ends cleared refl))
        (joins over refl refl))
      (skips_join joined_thread refl (inr refl))

run_ends_example : (5 ≤ 17) × (((v : LoopThread) × Step 4096 77 all_gone v) ⊎ Over all_gone)
run_ends_example = run_ends (λ e. omega arith) told-Reach ending

waits_for_ever_example : (record lost { runner = looping; quit = false }).owner ≡ joining
waits_for_ever_example =
    waits_for_ever (λ e. omega arith) lost-Reach (inl (refl, refl)) (goes stays (enters lost refl))
