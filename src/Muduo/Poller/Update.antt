-- ===== src/Muduo/Poller/Update.antt =====
-- `UpdateChannel` and `RemoveChannel`, against the poller's invariant.
use cpp_toy.Base.{
  put, ℕ, ◌≡◌, ◌≢◌, ◌∙◌, refl, inl, inr, arith, Bool, true, false, none, some, ◌==◌, if◌then◌else◌,
  Bool-cases,
}
use cpp_toy.Muduo.Channel.{Channel, Index, new, added, deleted, is_none_event}
use cpp_toy.Muduo.Poller.Kernel.{Epoll}
use cpp_toy.Muduo.Poller.{
  World, Run, running, event_of, set_channel, set_index, update, update_channel, remove_channel,
  change,
}
use cpp_toy.Muduo.Poller.Invariant.{Inv, IsFree, Replaces-Inv}

-- The call succeeds, keeps the invariant, makes `c` of the channel `id` and spares all others.
abbrev pub Makes : {e : Epoll} → World e → ℕ → Channel → Run (World e) → Type 0
Makes {e} w id c r =
    (w' : World e) × (r ≡ running w')
    × Inv w'
    × ((j : ℕ) → w'.chans j ≡ (if j == id then c else w.chans j))

-- The index that `UpdateChannel` leaves.
abbrev pub next_index : Index → (no_event : Bool) → Index
next_index added true = deleted
next_index _ _ = added

-- The setter touches the events only.
abbrev pub IsSetter : (Channel → Channel) → Type 0
IsSetter f = (c : Channel) → ((f c).fd ≡ c.fd) × ((f c).index ≡ c.index)

-- No other channel has the descriptor of `id` in the poller.
alone_at :
    {e : Epoll} {w : World e} {id : ℕ}
    → Inv w
    → IsFree w id
    → (j : ℕ) → w.channels (w.chans id).fd ≡ some j
    → j ≡ id
alone_at {w} {id} v free j held = ground (arith, v.when_added id, v.when_deleted id)

module _ {e : Epoll} (w : World e) (v : Inv w) (f : Channel → Channel) (setter : IsSetter f)
    (id : ℕ) (free : IsFree w id) where
  -- The channel with its events set.
  abbrev pub changed : Channel
  changed = f (w.chans id)

  fd_same : changed.fd ≡ (w.chans id).fd
  fd_same = (setter (w.chans id)).0

  index_same : changed.index ≡ (w.chans id).index
  index_same = (setter (w.chans id)).1

  alone : (j : ℕ) → w.channels changed.fd ≡ some j → j ≡ id
  alone j held = alone_at v free j (rw fd_same at held)

  change_new :
      (w.chans id).index ≡ new → Makes w id (record changed { index = added }) (change f id w)
  unfolding change update_channel update set_index set_channel fd_same index_same
  change_new i =
      let c' : Channel = record changed { index = added } in
      let (s, done, reg) =
        e.ctl-add w.interest changed.fd (event_of id changed)
          (rw fd_same (v.unmapped _ (free i))) in
      let w' : World e = record {
        chans = put (put w.chans id changed) id c';
        channels = put w.channels changed.fd (some id);
        interest = s;
        capacity = w.capacity;
      } in
      (
        w',
        ground (arith, index_same),
        Replaces-Inv {w' = w'} {c = c'} v
            (record { chans_eq = λ j. ground arith; channels_eq = λ g. refl; registered_eq = reg })
            fd_same alone added refl (refl, refl),
        λ j. ground arith,
      )

  change_deleted :
      (w.chans id).index ≡ deleted → Makes w id (record changed { index = added }) (change f id w)
  unfolding change update_channel update set_index set_channel fd_same index_same
  change_deleted i =
      let c' : Channel = record changed { index = added } in
      let (s, done, reg) =
        e.ctl-add w.interest changed.fd (event_of id changed)
          (rw fd_same (v.when_deleted id i).1) in
      let w' : World e = record w { chans = put (put w.chans id changed) id c'; interest = s } in
      (
        w',
        ground (arith, index_same),
        Replaces-Inv {w' = w'} {c = c'} v
            (record {
              chans_eq = λ j. ground arith;
              channels_eq = λ g. ground (arith, fd_same, v.when_deleted id i);
              registered_eq = reg;
            })
            fd_same alone added refl (refl, refl),
        λ j. ground arith,
      )

  change_modify :
      (w.chans id).index ≡ added
      → is_none_event changed ≡ false
      → Makes w id (record changed { index = added }) (change f id w)
  unfolding change update_channel update set_index set_channel fd_same index_same
  change_modify i some_event =
      let (s, done, reg) =
        e.ctl-modify w.interest changed.fd (event_of id changed) (event_of id (w.chans id))
          (rw fd_same (v.when_added id i).1) in
      let w' : World e = record w { chans = put w.chans id changed; interest = s } in
      (
        w',
        ground (arith, index_same),
        Replaces-Inv {w' = w'} {c = changed} v
            (record {
              chans_eq = λ j. refl;
              channels_eq = λ g. ground (arith, fd_same, v.when_added id i);
              registered_eq = reg;
            })
            fd_same alone added (index_same ∙ i) (refl, refl),
        λ j. ground (arith, index_same),
      )

  change_delete :
      (w.chans id).index ≡ added
      → is_none_event changed ≡ true
      → Makes w id (record changed { index = deleted }) (change f id w)
  unfolding change update_channel update set_index set_channel fd_same index_same
  change_delete i no_event =
      let c' : Channel = record changed { index = deleted } in
      let (s, done, reg) =
        e.ctl-delete w.interest changed.fd (event_of id changed) (event_of id (w.chans id))
          (rw fd_same (v.when_added id i).1) in
      let w' : World e = record w { chans = put (put w.chans id changed) id c'; interest = s } in
      (
        w',
        ground (arith, index_same),
        Replaces-Inv {w' = w'} {c = c'} v
            (record {
              chans_eq = λ j. ground arith;
              channels_eq = λ g. ground (arith, fd_same, v.when_added id i);
              registered_eq = reg;
            })
            fd_same alone deleted refl (refl, refl),
        λ j. ground arith,
      )

  -- `EnableReading`, `DisableAll` and the like succeed, whatever the channel's index: no `epoll_ctl`
  -- call fails, and the interest list again holds exactly the added channels with their events.
  pub change-Makes :
      Makes w id
        (record changed { index = next_index (w.chans id).index (is_none_event changed) })
        (change f id w)
  change-Makes = by_index (w.chans id).index refl
    where
      by_index :
          (i : Index)
          → (w.chans id).index ≡ i
          → Makes w id
              (record changed { index = next_index i (is_none_event changed) })
              (change f id w)
      by_index new i = change_new i
      by_index deleted i = change_deleted i
      by_index added i = elim (Bool-cases (is_none_event changed)) [
        | inl t ↦ rw t (change_delete i t)
        | inr t ↦ rw t (change_modify i t)
      ]

module _ {e : Epoll} (w : World e) (v : Inv w) (id : ℕ) (free : IsFree w id) where
  abbrev pub removed : Channel
  removed = record (w.chans id) { index = new }

  remove_added : (w.chans id).index ≡ added → Makes w id removed (remove_channel id w)
  unfolding remove_channel update set_index set_channel
  remove_added i =
      let fd = (w.chans id).fd in
      let (s, done, reg) =
        e.ctl-delete w.interest fd (event_of id (w.chans id)) _ (v.when_added id i).1 in
      let w' : World e = record {
        chans = put w.chans id removed;
        channels = put w.channels fd none;
        interest = s;
        capacity = w.capacity;
      } in
      (
        w',
        ground arith,
        Replaces-Inv {w' = w'} {c = removed} v
            (record { chans_eq = λ j. refl; channels_eq = λ g. refl; registered_eq = reg }) refl
            (alone_at v free) new refl (refl, refl),
        λ j. refl,
      )

  remove_unlisted :
      (w.chans id).index ≢ added
      → e.registered w.interest (w.chans id).fd ≡ none
      → Makes w id removed (remove_channel id w)
  unfolding remove_channel update set_index set_channel
  remove_unlisted i empty =
      let w' : World e = record w {
        chans = put w.chans id removed;
        channels = put w.channels (w.chans id).fd none;
      } in
      (
        w',
        ground arith,
        Replaces-Inv {w' = w'} {c = removed} v
            (record {
              chans_eq = λ j. refl;
              channels_eq = λ g. refl;
              registered_eq = λ g. ground arith;
            })
            refl (alone_at v free) new refl (refl, refl),
        λ j. refl,
      )

  -- `Remove` succeeds, and leaves no trace of the channel in the map or in the interest list.
  pub remove_channel-Makes : Makes w id removed (remove_channel id w)
  remove_channel-Makes = by_index (w.chans id).index refl
    where
      by_index : (i : Index) → (w.chans id).index ≡ i → Makes w id removed (remove_channel id w)
      by_index added i = remove_added i
      by_index new i = remove_unlisted (λ q. cc) (v.unmapped _ (free i))
      by_index deleted i = remove_unlisted (λ q. cc) (v.when_deleted id i).1
