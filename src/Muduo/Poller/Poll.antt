-- ===== src/Muduo/Poller/Poll.antt =====
-- What `Poll` reports, and what it leaves.
use cpp_toy.Base.{
  put, ℕ, ◌≤◌, ◌<◌, ◌≡◌, refl, ◌∙◌, ap, inl, inr, arith, List, [], ◌∷◌, ◌==◌, if◌then◌else◌, length,
  Bool-cases, map,
}
use cpp_toy.Muduo.Channel.{Channel}
use cpp_toy.Muduo.Poller.Kernel.{Epoll, Event}
use cpp_toy.Muduo.Poller.{
  World, set_channel, Waited, happened, timeout, wait_error, fill_active_channels, poll,
}
use cpp_toy.Muduo.Poller.Invariant.{Inv}

-- The events of the last report about channel `id`, or what it had before.
abbrev pub last_report : ℕ → List Event → ℕ → ℕ
last_report id [] before = before
last_report id (v ∷ vs) before = last_report id vs (if id == v.target then v.events else before)

-- Channel by channel, `w'` differs from `w` in the reported events only.
abbrev pub Reported : {e : Epoll} → World e → World e → List Event → Type 0
Reported w w' vs =
    (id : ℕ)
    → w'.chans id ≡ record (w.chans id) { revents = last_report id vs (w.chans id).revents }

one_report :
    {e : Epoll} (w : World e) (id : ℕ) (v : Event) (vs : List Event)
    → let c = put w.chans v.target (record (w.chans v.target) { revents = v.events }) id in
      ◌≡◌ {A = Channel}
        (record c { revents = last_report id vs c.revents })
        (record (w.chans id) { revents = last_report id (v ∷ vs) (w.chans id).revents })
one_report w id v vs = ground arith

Reported-Inv :
    {e : Epoll} (w w' : World e) (vs : List Event)
    → Inv w
    → Reported w w' vs
    → w'.channels ≡ w.channels
    → w'.interest ≡ w.interest
    → Inv w'
Reported-Inv w w' vs v reports same_map same_set = record {
  when_added = λ id. rw (same_map, same_set, reports id) (v.when_added id);
  when_deleted = λ id. rw (same_map, same_set, reports id) (v.when_deleted id);
  when_new = λ id. rw (same_map, reports id) (v.when_new id);
  mapped = λ g id. rw (same_map, reports id) (v.mapped g id);
  unmapped = λ g. rw (same_map, same_set) (v.unmapped g);
}

fill_active_channels-Reported :
    {e : Epoll} (vs : List Event) (w : World e)
    → let r = fill_active_channels vs w in
      Reported w r.0 vs
      × (r.1 ≡ map (λ v. v.target) vs)
      × (r.0.channels ≡ w.channels)
      × (r.0.interest ≡ w.interest)
      × (r.0.capacity ≡ w.capacity)
unfolding fill_active_channels set_channel
fill_active_channels-Reported [] w = (λ id. refl, refl, refl, refl, refl)
fill_active_channels-Reported (v ∷ vs) w =
    let w' = set_channel w v.target (record (w.chans v.target) { revents = v.events }) in
    let (reports, active, same_map, same_set, same_size) = fill_active_channels-Reported vs w' in
    (
      λ id. reports id ∙ one_report w id v vs,
      ap (λ l. v.target ∷ l) active,
      same_map,
      same_set,
      same_size,
    )

-- The events in what `::epoll_wait` gave.
abbrev pub reports : Waited → List Event
reports (happened vs) = vs
reports timeout = []
reports (wait_error errno) = []

abbrev pub Polled : {e : Epoll} → World e → List Event → World e × List ℕ → Type 0
Polled w vs (w', active) =
    (active ≡ map (λ v. v.target) vs)
    × Reported w w' vs
    × Inv w'
    × (w.capacity ≤ w'.capacity)
    × (0 < w.capacity → length vs ≤ w.capacity → length vs < w'.capacity)

poll_cases :
    {e : Epoll} (w : World e) (epoll_wait : ℕ → Waited) (r : Waited)
    → epoll_wait w.capacity ≡ r
    → Inv w
    → Polled w (reports r) (poll epoll_wait w)
unfolding poll
poll_cases w epoll_wait timeout q v = rw (q, poll) (refl, λ id. refl, v, omega arith, λ h k. h)
poll_cases w epoll_wait (wait_error errno) q v =
    rw (q, poll) (refl, λ id. refl, v, omega arith, λ h k. h)
poll_cases w epoll_wait (happened vs) q v =
    let (told, active, same_map, same_set, size) = fill_active_channels-Reported vs w in
    elim (Bool-cases (length vs == (fill_active_channels vs w).0.capacity)) [
      | inl full ↦
          rw (q, poll, full)
            (
              active,
              told,
              Reported-Inv w _ vs v told same_map same_set,
              omega (arith, size),
              λ h k. ground (arith, size),
            )
      | inr room ↦
          rw (q, poll, room)
            (
              active,
              told,
              Reported-Inv w _ vs v told same_map same_set,
              omega (arith, size),
              λ h k. ground (arith, size),
            )
    ]

-- `Poll` lists exactly the channels that were reported, in the order of the reports, writes each
-- channel's last report into it and changes nothing else about any channel; the invariant holds
-- again. The event array never shrinks, and has room for more than was reported this time.
pub poll_lem :
    {e : Epoll} (w : World e) (epoll_wait : ℕ → Waited)
    → Inv w
    → Polled w (reports (epoll_wait w.capacity)) (poll epoll_wait w)
poll_lem w epoll_wait v = poll_cases w epoll_wait (epoll_wait w.capacity) refl v
