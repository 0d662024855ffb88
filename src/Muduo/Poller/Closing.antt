-- ===== src/Muduo/Poller/Closing.antt =====
-- A channel is disabled and removed, as its owners do before they end.
use cpp_toy.Base.{
  Option-cases, ℕ, ◌≡◌, ◌≢◌, ◌∙◌, refl, sym, ap, inl, inr, arith, Bool, true, false, none, some,
  ◌==◌, if◌then◌else◌,
}
use native.Mathlib.Decide.{ℕ_discrete}
use cpp_toy.Muduo.Channel.{Channel, Index, new, added, deleted, is_none_event, clear_all}
use cpp_toy.Muduo.Poller.Kernel.{Epoll}
use cpp_toy.Muduo.Poller.{World, Run, running, ◌>>=◌, remove_channel, change}
use cpp_toy.Muduo.Poller.Invariant.{Inv, IsFree}
use cpp_toy.Muduo.Poller.Update.{Makes, IsSetter, next_index, change-Makes, remove_channel-Makes}
use cpp_toy.Muduo.Poller.Opening.{Opened, Closed}

clear_all-IsSetter : IsSetter clear_all
unfolding clear_all
clear_all-IsSetter c = (refl, refl)

some_same : {i j : ℕ} → some i ≡ some j → i ≡ j
some_same e = cc

pub next_index-ne-new : (i : Index) (b : Bool) → next_index i b ≢ new
next_index-ne-new new b e = cc
next_index-ne-new deleted b e = cc
next_index-ne-new added true e = cc
next_index-ne-new added false e = cc

-- A channel that was added has its descriptor in the map.
held_by :
    {e : Epoll} {w : World e} (v : Inv w) (j : ℕ) (i : Index)
    → (w.chans j).index ≡ i
    → i ≢ new
    → w.channels (w.chans j).fd ≡ some j
held_by v j new at ne = absurd (ne refl)
held_by v j added at ne = (v.when_added j at).0
held_by v j deleted at ne = (v.when_deleted j at).0

module _ {e : Epoll} (w w₁ : World e) (id : ℕ) (v₁ : Inv w₁)
    (same_fd : (w₁.chans id).fd ≡ (w.chans id).fd) (at : (w₁.chans id).index ≢ new)
    (same : (j : ℕ) → j ≢ id → w₁.chans j ≡ w.chans j) where
  held : w₁.channels (w.chans id).fd ≡ some id
  held = rw (sym same_fd) (held_by v₁ id (w₁.chans id).index refl at)

  not_another :
      (w' : World e)
      → Inv w'
      → (j : ℕ) → w'.chans j ≡ w₁.chans j
      → j ≢ id
      → w'.channels (w.chans id).fd ≢ some j
  not_another w' v' j chan ne h =
      let at_fd : (w'.chans j).fd ≡ (w.chans id).fd = v'.mapped (w.chans id).fd j h in
      let not_new : (w'.chans j).index ≢ new = λ i. v'.when_new j i (ap w'.channels at_fd ∙ h) in
      let listed : w₁.channels (w.chans id).fd ≡ some j =
        ap w₁.channels (sym at_fd ∙ ap (λ (c : Channel). c.fd) chan)
        ∙ held_by v₁ j (w₁.chans j).index refl
            (λ i. not_new (ap (λ (c : Channel). c.index) chan ∙ i)) in
      ne (some_same (sym listed ∙ held))

  removed-Closed :
      {r : Run (World e)}
      → Makes w₁ id (record (w₁.chans id) { index = new }) r
      → (w' : World e) × (r ≡ running w') × Closed w w' id
  removed-Closed (w', run, v', chans) = (
    w',
    run,
    record {
      keeps = v';
      is_new = ap (λ (c : Channel). c.index) own;
      others = others;
      released = released;
      unwatched = v'.unmapped (w.chans id).fd released;
    },
  )
    where
      own : w'.chans id ≡ record (w₁.chans id) { index = new }
      own = ground (arith, chans id)

      own_fd : (w'.chans id).fd ≡ (w.chans id).fd
      own_fd = ap (λ (c : Channel). c.fd) own ∙ same_fd

      kept : (j : ℕ) → j ≢ id → w'.chans j ≡ w₁.chans j
      kept j ne = ground (arith, chans j)

      others : (j : ℕ) → j ≢ id → w'.chans j ≡ w.chans j
      others j ne = kept j ne ∙ same j ne

      released : w'.channels (w.chans id).fd ≡ none
      released = elim (Option-cases (w'.channels (w.chans id).fd)) [
        | inl n ↦ n
        | inr (j, h) ↦ absurd (elim (ℕ_discrete j id) [
          | yes p ↦
              v'.when_new id (ap (λ (c : Channel). c.index) own)
                (ap w'.channels own_fd ∙ h ∙ ap some p)
          | no n ↦ not_another w' v' j (kept j n) n h
        ])
      ]

-- A channel is disabled first, then removed.
pub close-Closed :
    {e : Epoll} (w : World e) (id : ℕ)
    → Inv w
    → ((w.chans id).index ≡ new → w.channels (w.chans id).fd ≡ none)
    → (w' : World e) × ((change clear_all id w >>= remove_channel id) ≡ running w') × Closed w w' id
unfolding clear_all
close-Closed w id v free =
    let (w₁, e₁, v₁, chans₁) = change-Makes w v clear_all clear_all-IsSetter id free in
    rw e₁ (rest w₁ v₁ chans₁)
  where
    rest :
        (w₁ : World _)
        → Inv w₁
        → ((j : ℕ)
            → w₁.chans j ≡ (
                if j == id
                then record (clear_all (w.chans id)) {
                  index = next_index (w.chans id).index (is_none_event (clear_all (w.chans id)));
                }
                else w.chans j))
        → (w' : World _) × (remove_channel id w₁ ≡ running w') × Closed w w' id
    rest w₁ v₁ chans₁ =
        removed-Closed w w₁ id v₁ (ap (λ (c : Channel). c.fd) own) not_new same_others
          (remove_channel-Makes w₁ v₁ id (λ i. absurd (not_new i)))
      where
        own : w₁.chans id ≡ record (clear_all (w.chans id)) {
          index = next_index (w.chans id).index (is_none_event (clear_all (w.chans id)));
        }
        own = ground (arith, chans₁ id)

        not_new : (w₁.chans id).index ≢ new
        not_new i = next_index-ne-new _ _ (sym (ap (λ (c : Channel). c.index) own) ∙ i)

        same_others : (j : ℕ) → j ≢ id → w₁.chans j ≡ w.chans j
        same_others j ne = ground (arith, chans₁ j)

added-ne-new : added ≢ new
added-ne-new e = cc

-- A channel that was opened is not new.
pub Opened-IsFree :
    {e : Epoll} {w₀ w : World e} {id : ℕ} {c : Channel} → Opened w₀ w id c → IsFree w id
Opened-IsFree opened i = absurd (added-ne-new (sym (ap (λ (c : Channel). c.index) opened.is) ∙ i))
