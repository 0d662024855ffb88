-- ===== src/Muduo/TcpConnection/Performing.antt =====
-- What a connection asks of the poller, done by the poller: `Channel::Update` and `Channel::Remove`
-- through `EventLoop::UpdateChannel` and `EventLoop::RemoveChannel`. Nothing that the poller does
-- comes back to the connection, so that it may be done afterwards.
use cpp_toy.Base.{
  ℕ, ◌≡◌, ◌≢◌, refl, sym, ap, ◌∙◌, Option-cases, List, [], ◌∷◌, arith, Bool, true, false, inl, inr,
  none, ◌==◌, put, put_same,
}
use cpp_toy.Muduo.Channel.{Channel, Index, new, added, deleted, is_none_event}
use cpp_toy.Muduo.Poller.Kernel.{Epoll, delete}
use cpp_toy.Muduo.Poller
use cpp_toy.Muduo.Poller.{
  World, Run, running, exited, ◌>>=◌, set_channel, set_index, change, remove_channel, event_of,
}
use cpp_toy.Muduo.Poller.Invariant.{Inv, IsFree}
use cpp_toy.Muduo.Poller.Update.{next_index, change-Makes, remove_channel-Makes}
use cpp_toy.Muduo.Poller.Closing.{next_index-ne-new}
use cpp_toy.Muduo.TcpConnection.{Effect, updates, removes}
use cpp_toy.Muduo.TcpConnection.Asking.{told}
use cpp_toy.Muduo.TcpConnection.States.{run}

-- Whether the last of these was a `Remove`.
abbrev pub gone : Bool → List Effect → Bool
gone off [] = off
gone off (updates ev ∷ xs) = gone false xs
gone off (removes ∷ xs) = gone true xs
gone off (_ ∷ xs) = gone off xs

module _ {e : Epoll} where
  -- `Channel::Update` and `Channel::Remove` on the poller; the other effects are not the poller's.
  unfoldable pub perform : ℕ → Effect → World e → Run (World e)
  perform id (updates ev) w = change (λ c. record c { events = ev }) id w
  perform id removes w = remove_channel id w
  perform id _ w = running w

  unfoldable pub perform_all : ℕ → List Effect → World e → Run (World e)
  perform_all id [] w = running w
  perform_all id (x ∷ xs) w = perform id x w >>= λ w'. perform_all id xs w'

-- The poller's side of a channel that last asked for `ev`, or was last removed.
pub record Stands {e : Epoll} (w : World e) (id fd ev : ℕ) (off : Bool) : Type 0 where
  pub keeps : Inv w
  pub free : IsFree w id
  pub has_fd : (w.chans id).fd ≡ fd
  pub has_events : (w.chans id).events ≡ ev
  pub when_off : off ≡ true → (w.chans id).index ≡ new
  pub when_on : off ≡ false → ev ≢ 0 → (w.chans id).index ≡ added

abbrev pub Performs : {e : Epoll} → World e → Run (World e) → (id fd ev : ℕ) → Bool → Type 0
Performs {e} w r id fd ev off =
    (w' : World e) × (r ≡ running w')
    × Stands w' id fd ev off
    × ((j : ℕ) → j ≢ id → w'.chans j ≡ w.chans j)

running_same : {A : Type 0} {a b : A} → running a ≡ running b → a ≡ b
running_same p = cc

next_index-added : (i : Index) (ev : ℕ) → ev ≢ 0 → next_index i (ev == 0) ≡ added
next_index-added new ev n = refl
next_index-added deleted ev n = refl
next_index-added added ev n = ground arith

update-Performs :
    {e : Epoll} (w : World e) (id fd ev last : ℕ) (off : Bool)
    → Stands w id fd ev off
    → Performs w (change (λ c. record c { events = last }) id w) id fd last false
unfolding is_none_event
update-Performs w id fd ev last off s =
    let (w', run, v, chans) =
      change-Makes w s.keeps (λ c. record c { events = last }) (λ c. (refl, refl)) id s.free in
    let own : w'.chans id
        ≡ record (w.chans id) { events = last; index = next_index (w.chans id).index (last == 0) } =
      ground (arith, chans id) in
    let index : (w'.chans id).index ≡ next_index (w.chans id).index (last == 0) =
      ap (λ (c : Channel). c.index) own in
    (
      w',
      run,
      record {
        keeps = v;
        free = λ i. absurd (next_index-ne-new _ _ (sym index ∙ i));
        has_fd = ap (λ (c : Channel). c.fd) own ∙ s.has_fd;
        has_events = ap (λ (c : Channel). c.events) own;
        when_off = λ p. absurd (cc);
        when_on = λ _ n. index ∙ next_index-added _ last n;
      },
      λ j ne. ground (arith, chans j),
    )

delete_keeps :
    {e : Epoll} (w : World e) (id : ℕ)
    → (w' : World e) × (Poller.update delete id w ≡ running w') × (w'.channels ≡ w.channels)
unfolding Poller.update
delete_keeps {e} w id =
    elim (Option-cases (e.ctl w.interest delete (w.chans id).fd (event_of id (w.chans id)))) [
      | inl n ↦ (w, rw (n, Poller.update) refl, refl)
      | inr (s, h) ↦ (record w { interest = s }, rw (h, Poller.update) refl, refl)
    ]

-- After `RemoveChannel` the map has nothing for the descriptor.
released :
    {e : Epoll} (w : World e) (id : ℕ) {w' : World e}
    → remove_channel id w ≡ running w'
    → w'.channels (w.chans id).fd ≡ none
unfolding remove_channel set_index set_channel
released {e} w id {w'} p = by_index (w.chans id).index p
  where
    cut : World e
    cut = record w { channels = put w.channels (w.chans id).fd none }

    gone_from :
        (u : World e)
        → u.channels ≡ cut.channels
        → running (set_index u id new) ≡ running w'
        → w'.channels (w.chans id).fd ≡ none
    gone_from u same q =
        sym (ap (λ (x : World e). x.channels (w.chans id).fd) (running_same q))
        ∙ ap (λ m. m (w.chans id).fd) same
        ∙ put_same w.channels none (w.chans id).fd

    by_index :
        (i : Index)
        → ((elim i [ added ↦ Poller.update delete id cut | _ ↦ running cut ]) >>= λ u.
            running (set_index u id new))
          ≡ running w'
        → w'.channels (w.chans id).fd ≡ none
    by_index new q = gone_from cut refl q
    by_index deleted q = gone_from cut refl q
    by_index added q = let (u, ran, same) = delete_keeps cut id in gone_from u same (rw ran at q)

remove-Performs :
    {e : Epoll} (w : World e) (id fd ev : ℕ) (off : Bool)
    → Stands w id fd ev off
    → Performs w (remove_channel id w) id fd ev true
remove-Performs w id fd ev off s =
    let (w', run, v, chans) = remove_channel-Makes w s.keeps id s.free in
    let own : w'.chans id ≡ record (w.chans id) { index = new } = ground (arith, chans id) in
    let own_fd : (w'.chans id).fd ≡ (w.chans id).fd = ap (λ (c : Channel). c.fd) own in
    (
      w',
      run,
      record {
        keeps = v;
        free = λ i. ap w'.channels own_fd ∙ released w id run;
        has_fd = own_fd ∙ s.has_fd;
        has_events = ap (λ (c : Channel). c.events) own ∙ s.has_events;
        when_off = λ p. ap (λ (c : Channel). c.index) own;
        when_on = λ p. absurd (cc);
      },
      λ j ne. ground (arith, chans j),
    )

perform-Performs :
    {e : Epoll} (x : Effect) (w : World e) (id fd ev : ℕ) (off : Bool)
    → Stands w id fd ev off
    → Performs w (perform id x w) id fd (told ev (x ∷ [])) (gone off (x ∷ []))
unfolding perform
perform-Performs (updates last) w id fd ev off s = update-Performs w id fd ev last off s
perform-Performs removes w id fd ev off s = remove-Performs w id fd ev off s
perform-Performs _ w id fd ev off s = (w, refl, s, λ j ne. refl)

told-cons : (ev : ℕ) (x : Effect) (xs : List Effect) → told (told ev (x ∷ [])) xs ≡ told ev (x ∷ xs)
told-cons ev (updates last) xs = refl
told-cons ev _ xs = refl

gone-cons :
    (off : Bool) (x : Effect) (xs : List Effect) → gone (gone off (x ∷ [])) xs ≡ gone off (x ∷ xs)
gone-cons off (updates last) xs = refl
gone-cons off removes xs = refl
gone-cons off _ xs = refl

-- Any sequence of what a connection can ask for is done: no `epoll_ctl` fails.
pub perform_all-Performs :
    {e : Epoll} (xs : List Effect) (w : World e) (id fd ev : ℕ) (off : Bool)
    → Stands w id fd ev off
    → Performs w (perform_all id xs w) id fd (told ev xs) (gone off xs)
unfolding perform_all
perform_all-Performs [] w id fd ev off s = (w, refl, s, λ j ne. refl)
perform_all-Performs (x ∷ xs) w id fd ev off s =
    let (u, ran, stands, same) = perform-Performs x w id fd ev off s in
    let (w', run', stands', same') = perform_all-Performs xs u id fd _ _ stands in
    (
      w',
      rw ran run',
      rw (told-cons ev x xs, gone-cons off x xs) at stands',
      λ j ne. same' j ne ∙ same j ne,
    )
