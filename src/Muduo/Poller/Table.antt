-- ===== src/Muduo/Poller/Table.antt =====
-- An interest list that obeys epoll's laws, as a table, for the tests.
use cpp_toy.Base.{put, ℕ, ◌≡◌, refl, arith, Bool, true, false, Option, none, some, if◌then◌else◌}
use cpp_toy.Muduo.Channel.{new}
use cpp_toy.Muduo.Poller.Kernel.{Epoll, Event, Ctl, add, modify, delete}
use cpp_toy.Muduo.Poller.{World}
use cpp_toy.Muduo.Poller.Invariant.{Inv}

abbrev pub Table : Type 0
Table = ℕ → Option Event

abbrev pub present : Option Event → Bool
present none = false
present (some v) = true

abbrev pub table_ctl : Table → Ctl → ℕ → Event → Option Table
table_ctl t add fd v = if present (t fd) then none else some (put t fd (some v))
table_ctl t modify fd v = if present (t fd) then some (put t fd (some v)) else none
table_ctl t delete fd v = if present (t fd) then some (put t fd none) else none

pub table_add :
    (s : Table) (fd : ℕ) (v : Event) → s fd ≡ none → table_ctl s add fd v ≡ some (put s fd (some v))
table_add s fd v e = ground arith

pub table_modify :
    (s : Table) (fd : ℕ) (v old : Event)
    → s fd ≡ some old
    → table_ctl s modify fd v ≡ some (put s fd (some v))
table_modify s fd v old e = ground arith

pub table_delete :
    (s : Table) (fd : ℕ) (v old : Event)
    → s fd ≡ some old
    → table_ctl s delete fd v ≡ some (put s fd none)
table_delete s fd v old e = ground arith

abbrev pub table : Epoll
table = record {
  Interests = Table;
  registered = λ t fd. t fd;
  ctl = table_ctl;
  ctl-add = λ s fd v e. (put s fd (some v), table_add s fd v e, λ g. refl);
  ctl-modify = λ s fd v old e. (put s fd (some v), table_modify s fd v old e, λ g. refl);
  ctl-delete = λ s fd v old e. (put s fd none, table_delete s fd v old e, λ g. refl);
}

-- Channel `n` is for descriptor `n`; none is in the poller.
abbrev pub idle : World table
idle = record {
  chans = λ id. record {
    fd = id;
    events = 0;
    revents = 0;
    index = new;
    tied = false;
    has_read = false;
    has_write = false;
    has_close = false;
    has_error = false;
  };
  channels = λ fd. none;
  interest = λ fd. none;
  capacity = 16;
}

pub idle-Inv : Inv idle
idle-Inv = record {
  when_added = λ id e. absurd (cc);
  when_deleted = λ id e. absurd (cc);
  when_new = λ id _ e. cc;
  mapped = λ g id e. absurd (cc);
  unmapped = λ g _. refl;
}
