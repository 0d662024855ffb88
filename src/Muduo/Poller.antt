-- ===== src/Muduo/Poller.antt =====
-- mymuduo/poller.h, poller.cpp, Epoll_poller.h and Epoll_poller.cpp, with `Channel::Update` and
-- `Channel::Remove`, which lead here. A channel is known by its address, a number. epoll(7) itself
-- is the parameter `Epoll`; a failed `epoll_ctl` that adds or modifies ends the process, since
-- `LOG_FATAL` exits.
pub mod Kernel
pub mod Invariant
pub mod Update
pub mod Poll
pub mod Opening
pub mod Closing
pub mod Table
mod Tests
use cpp_toy.Base.{
  put, ℕ, ◌*◌, List, [], ◌∷◌, ◌++◌, Bool, true, false, Option, none, some, ◌==◌, if◌then◌else◌,
  length,
}
use cpp_toy.Muduo.Channel.{Channel, Index, new, added, deleted, is_none_event}
use Kernel.{Epoll, Event, Ctl, add, modify, delete}

-- The channels by address, `channels_` (descriptor to channel), the kernel's set, and the length of
-- the event array.
pub record World (e : Epoll) : Type 0 where
  pub chans : ℕ → Channel
  pub channels : ℕ → Option ℕ
  pub interest : e.Interests
  pub capacity : ℕ

pub data Run (A : Type 0) : Type 0 where
  running : A → Run A
  exited : Run A

abbrev pub ◌>>=◌ : {A B : Type 0} → Run A → (A → Run B) → Run B
running a >>= f = f a
exited >>= f = exited

infixl 5 ◌>>=◌
-- `kInitEventListSize`
abbrev pub init_event_list_size : ℕ
init_event_list_size = 16

abbrev pub event_of : ℕ → Channel → Event
event_of id c = record { events = c.events; target = id }

module _ {e : Epoll} where
  unfoldable pub set_channel : World e → ℕ → Channel → World e
  set_channel w id c = record w { chans = put w.chans id c }

  unfoldable pub set_index : World e → ℕ → Index → World e
  unfolding set_channel
  set_index w id i = set_channel w id (record (w.chans id) { index = i })

  -- `EpollPoller::Update`
  unfoldable pub update : Ctl → ℕ → World e → Run (World e)
  update op id w = elim (e.ctl w.interest op (w.chans id).fd (event_of id (w.chans id))) [
    | some s ↦ running (record w { interest = s })
    | none ↦ elim op [ delete ↦ running w | _ ↦ exited ]
  ]

  -- `EpollPoller::UpdateChannel`
  unfoldable pub update_channel : ℕ → World e → Run (World e)
  unfolding set_index update
  update_channel id w = elim (w.chans id).index [
    | new ↦
        update add id
          (set_index (record w { channels = put w.channels (w.chans id).fd (some id) }) id added)
    | deleted ↦ update add id (set_index w id added)
    | added ↦
        if is_none_event (w.chans id)
        then (update delete id w >>= λ w'. running (set_index w' id deleted))
        else update modify id w
  ]

  -- `EpollPoller::RemoveChannel`
  unfoldable pub remove_channel : ℕ → World e → Run (World e)
  unfolding set_index update
  remove_channel id w =
      let w' : World e = record w { channels = put w.channels (w.chans id).fd none } in
      (elim (w.chans id).index [ added ↦ update delete id w' | _ ↦ running w' ]) >>= λ w''.
      running (set_index w'' id new)

  -- `Poller::HasChannel`
  pub has_channel : ℕ → World e → Bool
  has_channel id w = elim (w.channels (w.chans id).fd) [ none ↦ false | some other ↦ other == id ]

  -- A channel's own setter, followed by `Channel::Update`.
  unfoldable pub change : (Channel → Channel) → ℕ → World e → Run (World e)
  unfolding set_channel update_channel
  change setter id w = update_channel id (set_channel w id (setter (w.chans id)))

-- What `::epoll_wait` gives: the events that happened, a timeout, or an error with its `errno`.
pub data Waited : Type 0 where
  happened : List Event → Waited
  timeout : Waited
  wait_error : ℕ → Waited

module _ {e : Epoll} where
  -- `EpollPoller::FillActiveChannels`, with `SetRevents`; the list is `active_channels`.
  unfoldable pub fill_active_channels : List Event → World e → World e × List ℕ
  unfolding set_channel
  fill_active_channels [] w = (w, [])
  fill_active_channels (v ∷ vs) w =
      let (w', active) =
        fill_active_channels vs
          (set_channel w v.target (record (w.chans v.target) { revents = v.events })) in
      (w', v.target ∷ active)

  -- `EpollPoller::Poll`, on what `::epoll_wait` gave for an array of `capacity` events. The time of
  -- the return and the log lines are left out.
  unfoldable pub poll : (epoll_wait : ℕ → Waited) → World e → World e × List ℕ
  unfolding fill_active_channels
  poll epoll_wait w = elim (epoll_wait w.capacity) [
    | happened vs ↦
        let (w', active) = fill_active_channels vs w in
        if length vs == w'.capacity
        then (record w' { capacity = w'.capacity * 2 }, active)
        else (w', active)
    | timeout ↦ (w, [])
    | wait_error errno ↦ (w, [])
  ]
