-- ===== src/Muduo/Poller/Invariant.antt =====
-- What ties the channels, `channels_` and the kernel's interest list together.
use cpp_toy.Base.{ℕ, ◌≡◌, ◌≢◌, Option, none, some, ◌==◌, if◌then◌else◌, arith, refl}
use native.Mathlib.Decide.{ℕ_discrete}
use cpp_toy.Muduo.Channel.{Channel, Index, new, added, deleted}
use cpp_toy.Muduo.Poller.Kernel.{Epoll, Event}
use cpp_toy.Muduo.Poller.{World, event_of}

-- `kAdded`: in the map and in the interest list, with the events asked for. `kDeleted`: in the map
-- only. `kNew`: in neither. The list holds nothing that is not in the map.
pub record Inv {e : Epoll} (w : World e) : Type 0 where
  pub when_added :
      (id : ℕ)
      → (w.chans id).index ≡ added
      → (w.channels (w.chans id).fd ≡ some id)
        × (e.registered w.interest (w.chans id).fd ≡ some (event_of id (w.chans id)))
  pub when_deleted :
      (id : ℕ)
      → (w.chans id).index ≡ deleted
      → (w.channels (w.chans id).fd ≡ some id) × (e.registered w.interest (w.chans id).fd ≡ none)
  pub when_new : (id : ℕ) → (w.chans id).index ≡ new → w.channels (w.chans id).fd ≢ some id
  pub mapped : (g id : ℕ) → w.channels g ≡ some id → (w.chans id).fd ≡ g
  pub unmapped : (g : ℕ) → w.channels g ≡ none → e.registered w.interest g ≡ none

-- A channel may be added where no other channel has its descriptor in the poller.
abbrev pub IsFree : {e : Epoll} → World e → ℕ → Type 0
IsFree w id = (w.chans id).index ≡ new → w.channels (w.chans id).fd ≡ none

-- How the entry for a channel's descriptor has to look, by the channel's index.
abbrev pub Entry : ℕ → Channel → Index → Option ℕ → Option Event → Type 0
Entry id c new m r = (m ≡ none) × (r ≡ none)
Entry id c added m r = (m ≡ some id) × (r ≡ some (event_of id c))
Entry id c deleted m r = (m ≡ some id) × (r ≡ none)

-- `w'` is `w` with another channel at `id`, and other entries for that channel's descriptor.
pub record Replaces {e : Epoll} (w w' : World e) (id : ℕ) (c : Channel) (m : Option ℕ)
    (r : Option Event) : Type 0 where
  pub chans_eq : (j : ℕ) → w'.chans j ≡ (if j == id then c else w.chans j)
  pub channels_eq : (g : ℕ) → w'.channels g ≡ (if g == c.fd then m else w.channels g)
  pub registered_eq :
      (g : ℕ) → e.registered w'.interest g ≡ (if g == c.fd then r else e.registered w.interest g)

module _ {e : Epoll} {w w' : World e} {id : ℕ} {c : Channel} {m : Option ℕ} {r : Option Event}
    (v : Inv w) (new_world : Replaces w w' id c m r) (same_fd : c.fd ≡ (w.chans id).fd)
    (alone : (j : ℕ) → w.channels c.fd ≡ some j → j ≡ id) (i : Index) (at : c.index ≡ i)
    (entry : Entry id c i m r) where
  open new_world use {chans_eq, channels_eq, registered_eq}

  here : w'.chans id ≡ c
  here = ground (arith, chans_eq id)

  entry_here : (w'.channels c.fd ≡ m) × (e.registered w'.interest c.fd ≡ r)
  entry_here = ground (arith, channels_eq c.fd, registered_eq c.fd)

  elsewhere : (j : ℕ) → j ≢ id → w'.chans j ≡ w.chans j
  elsewhere j ne = ground (arith, chans_eq j)

  entry_elsewhere :
      (g : ℕ)
      → g ≢ c.fd
      → (w'.channels g ≡ w.channels g) × (e.registered w'.interest g ≡ e.registered w.interest g)
  entry_elsewhere g ne = ground (arith, channels_eq g, registered_eq g)

  fd_ne : (j : ℕ) → j ≢ id → w.channels (w.chans j).fd ≡ some j → (w.chans j).fd ≢ c.fd
  fd_ne j ne held eq = ne (alone j (rw eq at held))

  -- What holds of each channel's entry carries over, by the two cases.
  kept :
      (P : ℕ → Channel → Option ℕ → Option Event → Type 0)
      → P id c m r
      → ((j : ℕ)
          → (j ≢ id)
          → P j (w.chans j) (w'.channels (w.chans j).fd) (e.registered w'.interest (w.chans j).fd))
      → (j : ℕ)
      → P j (w'.chans j) (w'.channels (w'.chans j).fd) (e.registered w'.interest (w'.chans j).fd)
  kept P own others j = elim (ℕ_discrete j id) [
    | yes p ↦ rw (p, here, entry_here.0, entry_here.1) own
    | no n ↦ rw (elsewhere j n) (others j n)
  ]

  others_added :
      (j : ℕ)
      → j ≢ id
      → (w.chans j).index ≡ added
      → (w'.channels (w.chans j).fd ≡ some j)
        × (e.registered w'.interest (w.chans j).fd ≡ some (event_of j (w.chans j)))
  others_added j ne h =
      let old = v.when_added j h in
      let off = entry_elsewhere (w.chans j).fd (fd_ne j ne old.0) in rw (off.0, off.1) old

  others_deleted :
      (j : ℕ)
      → j ≢ id
      → (w.chans j).index ≡ deleted
      → (w'.channels (w.chans j).fd ≡ some j) × (e.registered w'.interest (w.chans j).fd ≡ none)
  others_deleted j ne h =
      let old = v.when_deleted j h in
      let off = entry_elsewhere (w.chans j).fd (fd_ne j ne old.0) in rw (off.0, off.1) old

  own_new : c.index ≡ new → m ≢ some id
  own_new h = ground arith

  own_added : c.index ≡ added → (m ≡ some id) × (r ≡ some (event_of id c))
  own_added h = ground arith

  own_deleted : c.index ≡ deleted → (m ≡ some id) × (r ≡ none)
  own_deleted h = ground arith

  m_cases : (j : ℕ) → m ≡ some j → j ≡ id
  m_cases j h = ground arith

  r_none : m ≡ none → r ≡ none
  r_none h = ground arith

  others_new : (j : ℕ) → j ≢ id → (w.chans j).index ≡ new → w'.channels (w.chans j).fd ≢ some j
  others_new j ne h = elim (ℕ_discrete (w.chans j).fd c.fd) [
    | yes p ↦ rw (p, entry_here.0) (λ q. ne (m_cases j q))
    | no n ↦ rw (entry_elsewhere (w.chans j).fd n).0 (v.when_new j h)
  ]

  mapped' : (g j : ℕ) → w'.channels g ≡ some j → (w'.chans j).fd ≡ g
  mapped' g j = elim (ℕ_discrete g c.fd) [
    | yes p ↦ rw (p, entry_here.0) (λ q. rw (m_cases j q, here) refl)
    | no n ↦ rw (entry_elsewhere g n).0 (λ q. ground (arith, v.mapped g j q, elsewhere j, here))
  ]

  unmapped' : (g : ℕ) → w'.channels g ≡ none → e.registered w'.interest g ≡ none
  unmapped' g = elim (ℕ_discrete g c.fd) [
    | yes p ↦ rw (p, entry_here.0, entry_here.1) r_none
    | no n ↦ rw ((entry_elsewhere g n).0, (entry_elsewhere g n).1) (v.unmapped g)
  ]

  -- Such a replacement keeps the invariant.
  pub Replaces-Inv : Inv w'
  Replaces-Inv = record {
    when_added =
        kept (λ j d p q. d.index ≡ added → (p ≡ some j) × (q ≡ some (event_of j d))) own_added
          others_added;
    when_deleted =
        kept (λ j d p q. d.index ≡ deleted → (p ≡ some j) × (q ≡ none)) own_deleted others_deleted;
    when_new = kept (λ j d p q. d.index ≡ new → p ≢ some j) own_new others_new;
    mapped = mapped';
    unmapped = unmapped';
  }
