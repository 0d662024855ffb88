-- ===== src/Muduo/Poller/Kernel.antt =====
-- epoll(7), as far as the poller relies on it: an interest list of descriptors with their events.
use cpp_toy.Base.{ℕ, ◌≡◌, Option, none, some, ◌==◌, if◌then◌else◌}

-- `struct epoll_event`; `target` is `data.ptr`.
pub record Event : Type 0 where
  pub events : ℕ
  pub target : ℕ

pub data Ctl : Type 0 where
  add : Ctl
  modify : Ctl
  delete : Ctl

-- `ctl` gives the new interest list, or nothing where epoll_ctl(2) fails. The laws are its manual's:
-- adding succeeds on a descriptor that is not in the list, the others on one that is (memory and
-- `max_user_watches` permitting), and each concerns its own descriptor only.
pub record Epoll : Type 1 where
  pub Interests : Type 0
  pub registered : Interests → ℕ → Option Event
  pub ctl : Interests → Ctl → ℕ → Event → Option Interests
  pub ctl-add :
      (s : Interests) (fd : ℕ) (v : Event)
      → registered s fd ≡ none
      → (s' : Interests) × (ctl s add fd v ≡ some s')
        × ((g : ℕ) → registered s' g ≡ (if g == fd then some v else registered s g))
  pub ctl-modify :
      (s : Interests) (fd : ℕ) (v old : Event)
      → registered s fd ≡ some old
      → (s' : Interests) × (ctl s modify fd v ≡ some s')
        × ((g : ℕ) → registered s' g ≡ (if g == fd then some v else registered s g))
  pub ctl-delete :
      (s : Interests) (fd : ℕ) (v old : Event)
      → registered s fd ≡ some old
      → (s' : Interests) × (ctl s delete fd v ≡ some s')
        × ((g : ℕ) → registered s' g ≡ (if g == fd then none else registered s g))
