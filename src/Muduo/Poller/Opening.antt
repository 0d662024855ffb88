-- ===== src/Muduo/Poller/Opening.antt =====
-- A channel object is made, and enabled for reading.
use cpp_toy.Base.{put, put_same, put_other, ℕ, ◌≡◌, ◌≢◌, ◌∙◌, refl, ap, arith, none, some}
use native.Mathlib.Decide.{ℕ_discrete}
use cpp_toy.Muduo.Channel.{Channel, new, added, is_none_event, set_reading}
use cpp_toy.Muduo.Poller.Kernel.{Epoll}
use cpp_toy.Muduo.Poller.{World, Run, running, event_of, set_channel, change}
use cpp_toy.Muduo.Poller.Invariant.{Inv}
use cpp_toy.Muduo.Poller.Update.{Makes, IsSetter, next_index, change-Makes}

set_reading-IsSetter : IsSetter set_reading
unfolding set_reading
set_reading-IsSetter c = (refl, refl)

module _ {e : Epoll} (w : World e) (v : Inv w) (id : ℕ) (unused : (w.chans id).index ≡ new)
    (c : Channel) (at : c.index ≡ new) (free : w.channels c.fd ≡ none) where
  not_held : (g : ℕ) → w.channels g ≢ some id
  not_held g h = v.when_new id unused (ap w.channels (v.mapped g id h) ∙ h)

  same : (j : ℕ) → j ≢ id → put w.chans id c j ≡ w.chans j
  same j ne = put_other w.chans c id j ne

  -- A new channel object changes nothing in the poller.
  pub created-Inv : Inv (set_channel w id c)
  unfolding set_channel
  created-Inv = record {
    when_added = λ j. elim (ℕ_discrete j id) [
      | yes p ↦ rw (p, put_same w.chans c id) (λ i. absurd (cc))
      | no n ↦ rw (same j n) (v.when_added j)
    ];
    when_deleted = λ j. elim (ℕ_discrete j id) [
      | yes p ↦ rw (p, put_same w.chans c id) (λ i. absurd (cc))
      | no n ↦ rw (same j n) (v.when_deleted j)
    ];
    when_new = λ j. elim (ℕ_discrete j id) [
      | yes p ↦ rw (p, put_same w.chans c id) (λ i. not_held c.fd)
      | no n ↦ rw (same j n) (v.when_new j)
    ];
    mapped = λ g j h. elim (ℕ_discrete j id) [
      | yes p ↦ absurd (not_held g (h ∙ ap some p))
      | no n ↦ rw (same j n) (v.mapped g j h)
    ];
    unmapped = v.unmapped;
  }

-- The channel is in the map and in the interest list, for reading.
pub record Opened {e : Epoll} (w w' : World e) (id : ℕ) (c : Channel) : Type 0 where
  pub keeps : Inv w'
  pub is : w'.chans id ≡ record (set_reading c) { index = added }
  pub others : (j : ℕ) → j ≢ id → w'.chans j ≡ w.chans j
  pub held : w'.channels c.fd ≡ some id
  pub watched :
      e.registered w'.interest c.fd ≡ some (event_of id (record (set_reading c) { index = added }))

-- Nothing in the map or in the interest list has its descriptor.
pub record Closed {e : Epoll} (w w' : World e) (id : ℕ) : Type 0 where
  pub keeps : Inv w'
  pub is_new : (w'.chans id).index ≡ new
  pub others : (j : ℕ) → j ≢ id → w'.chans j ≡ w.chans j
  pub released : w'.channels (w.chans id).fd ≡ none
  pub unwatched : e.registered w'.interest (w.chans id).fd ≡ none

Makes-Opened :
    {e : Epoll} (w w₁ : World e) (id : ℕ) (c d : Channel) {r : Run (World e)}
    → ((j : ℕ) → j ≢ id → w₁.chans j ≡ w.chans j)
    → d ≡ record (set_reading c) { index = added }
    → Makes w₁ id d r
    → (w' : World e) × (r ≡ running w') × Opened w w' id c
unfolding set_reading
Makes-Opened {e} w w₁ id c d same reads (w', run, v, chans) = (
  w',
  run,
  record {
    keeps = v;
    is = is;
    others = λ j ne. ground (arith, chans j, same j ne);
    held = rw is at (v.when_added id (rw is refl)).0;
    watched = rw is at (v.when_added id (rw is refl)).1;
  },
)
  where
    is : w'.chans id ≡ record (set_reading c) { index = added }
    is = own_channel ∙ reads
      where
        own_channel : w'.chans id ≡ d
        own_channel = ground (arith, chans id)

pub open-Opened :
    {e : Epoll} (w : World e) (id : ℕ) (c : Channel)
    → Inv w
    → (w.chans id).index ≡ new
    → c.index ≡ new
    → w.channels c.fd ≡ none
    → (w' : World e) × (change set_reading id (set_channel w id c) ≡ running w') × Opened w w' id c
unfolding set_channel
open-Opened w id c v unused at free =
    let w₁ = record w { chans = put w.chans id c } in
    let here : put w.chans id c id ≡ c = put_same w.chans c id in
    Makes-Opened w w₁ id c
      (record (set_reading (w₁.chans id)) {
        index = next_index (w₁.chans id).index (is_none_event (set_reading (w₁.chans id)));
      })
      (λ j ne. put_other w.chans c id j ne) (rw (here, at) refl)
      (change-Makes w₁ (created-Inv w v id unused c at free) set_reading set_reading-IsSetter id
        (λ _. rw here free))
