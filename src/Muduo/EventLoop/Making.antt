-- ===== src/Muduo/EventLoop/Making.antt =====
-- mymuduo/event_loop.cpp: `CreateEventFd`, the constructor and the destructor. `loop_in_thread` is
-- the thread-local `loop_in_this_thread`, and the poller is the one that the
-- loop makes: the variable MUDUO_USE_POOL is not set.
use cpp_toy.Base.{ℕ, ◌≡◌, refl, Bool, false, true, Option, none, some, List, [], ◌∷◌, ◌++◌}
use cpp_toy.Muduo.Channel
use cpp_toy.Muduo.Channel.{Channel, new, added, set_reading, clear_all}
use cpp_toy.Muduo.Poller.Kernel.{Epoll}
use cpp_toy.Muduo.Poller.{World, Run, running, exited, ◌>>=◌, set_channel, remove_channel, change}
use cpp_toy.Muduo.Poller.Invariant.{Inv}
use cpp_toy.Muduo.Poller.Opening.{Opened, Closed, open-Opened}
use cpp_toy.Muduo.Poller.Closing.{close-Closed, Opened-IsFree}

pub record Made (e : Epoll) : Type 0 where
  pub loop : ℕ
  pub thread_id : ℕ
  pub wakeup_fd : ℕ
  pub wakeup_channel : ℕ
  pub looping : Bool
  pub quit : Bool
  pub calling_pending_functors : Bool
  pub loop_in_thread : Option ℕ
  pub closed_fds : List ℕ
  pub world : World e

-- `eventfd` gives a descriptor or an error.
unfoldable pub create_event_fd : (eventfd : Option ℕ) → Run ℕ
create_event_fd none = exited
create_event_fd (some fd) = running fd

-- One loop for each thread.
unfoldable pub claim_thread : (loop : ℕ) → (loop_in_thread : Option ℕ) → Run (Option ℕ)
claim_thread loop none = running (some loop)
claim_thread loop (some other) = exited

module _ {e : Epoll} where
  unfoldable pub create :
      (eventfd : Option ℕ) (loop thread_id channel : ℕ) (loop_in_thread : Option ℕ)
      → World e
      → Run (Made e)
  create eventfd loop thread_id channel loop_in_thread w = create_event_fd eventfd >>= λ fd.
      claim_thread loop loop_in_thread >>= λ loop_in_thread'.
      change set_reading channel
        (set_channel w channel (record (Channel.create fd) { has_read = true }))
      >>= λ world. running (record {
        loop = loop;
        thread_id = thread_id;
        wakeup_fd = fd;
        wakeup_channel = channel;
        looping = false;
        quit = false;
        calling_pending_functors = false;
        loop_in_thread = loop_in_thread';
        closed_fds = [];
        world = world;
      })

  unfoldable pub destroy : Made e → Run (Made e)
  destroy m =
      change clear_all m.wakeup_channel m.world >>= remove_channel m.wakeup_channel >>= λ world.
      running (record m {
        world = world;
        closed_fds = m.closed_fds ++ m.wakeup_fd ∷ [];
        loop_in_thread = none;
      })

-- What the wakeup channel is when it is enabled.
abbrev pub wakeup_channel_of : ℕ → Channel
wakeup_channel_of fd = record (Channel.create fd) { has_read = true }

module _ {e : Epoll} (fd loop thread_id id : ℕ) where
  -- The loop over a world in which its channel is enabled.
  abbrev made_over : World e → Made e
  made_over w = record {
    loop = loop;
    thread_id = thread_id;
    wakeup_fd = fd;
    wakeup_channel = id;
    looping = false;
    quit = false;
    calling_pending_functors = false;
    loop_in_thread = some loop;
    closed_fds = [];
    world = w;
  }

  destroy_made :
      (w₀ w : World e)
      → Opened w₀ w id (wakeup_channel_of fd)
      → (d : Made e) × (destroy (made_over w) ≡ running d)
        × (d.loop_in_thread ≡ none)
        × (d.closed_fds ≡ fd ∷ [])
        × Closed w d.world id
  unfolding destroy
  destroy_made w₀ w opened =
      let (w', run, closed) = close-Closed w id opened.keeps (Opened-IsFree opened) in
      (
        record (made_over w) { world = w'; closed_fds = fd ∷ []; loop_in_thread = none },
        rw run refl,
        refl,
        refl,
        closed,
      )

-- One loop for each thread. In a thread without a loop the constructor succeeds, where its channel
-- is unused and no other channel in the poller has its descriptor: the wakeup channel is in the map
-- and in the interest list for reading, and the thread has this loop. Any further loop in the thread
-- ends the process. The destructor leaves nothing of the wakeup channel in the poller, closes the
-- eventfd once, and leaves the thread without a loop.
pub one_loop_per_thread :
    {e : Epoll} (fd loop thread_id id fd₂ loop₂ id₂ : ℕ) (w : World e)
    → Inv w
    → (w.chans id).index ≡ new
    → w.channels fd ≡ none
    → (m : Made e) × (create (some fd) loop thread_id id none w ≡ running m)
      × (m.loop_in_thread ≡ some loop)
      × Opened w m.world id (wakeup_channel_of fd)
      × (create (some fd₂) loop₂ thread_id id₂ m.loop_in_thread m.world ≡ exited)
      × (d : Made e) × (destroy m ≡ running d)
      × (d.loop_in_thread ≡ none)
      × (d.closed_fds ≡ fd ∷ [])
      × Closed m.world d.world id
unfolding create create_event_fd claim_thread Channel.create
one_loop_per_thread fd loop thread_id id fd₂ loop₂ id₂ w v unused free =
    let (w', run, opened) = open-Opened w id (wakeup_channel_of fd) v unused refl free in
    let (d, destroyed, no_loop, closed_fd, closed) =
      destroy_made fd loop thread_id id w w' opened in
    (
      made_over fd loop thread_id id w',
      rw run refl,
      refl,
      opened,
      refl,
      d,
      destroyed,
      no_loop,
      closed_fd,
      closed,
    )
