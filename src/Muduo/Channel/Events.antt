-- ===== src/Muduo/Channel/Events.antt =====
-- The event sets that a channel can ask for, and what its setters and tests do to them.
use Prim.Native.Nat.{bit_and, bit_or}
use cpp_toy.Base.{ℕ, ap, ◌∙◌, ◌↔◌, ◌≡◌, refl, true}
use cpp_toy.Muduo.Channel.{
  Channel, read_event, write_event, set_reading, set_writing, clear_reading, clear_writing,
  clear_all, complement, is_none_event, is_read_event, is_write_event,
}

-- What a channel wants to hear of.
pub data Interest : Type 0 where
  nothing : Interest
  reading : Interest
  writing : Interest
  both : Interest

abbrev pub mask : Interest → ℕ
mask nothing = 0
mask reading = 3
mask writing = 4
mask both = 7

abbrev pub Asks : Channel → Interest → Type 0
Asks c i = c.events ≡ mask i

abbrev pub with_reading : Interest → Interest
with_reading nothing = reading
with_reading reading = reading
with_reading writing = both
with_reading both = both

abbrev pub with_writing : Interest → Interest
with_writing nothing = writing
with_writing reading = both
with_writing writing = writing
with_writing both = both

abbrev pub without_reading : Interest → Interest
without_reading nothing = nothing
without_reading reading = nothing
without_reading writing = writing
without_reading both = writing

abbrev pub without_writing : Interest → Interest
without_writing nothing = nothing
without_writing reading = reading
without_writing writing = nothing
without_writing both = reading

or_read : (i : Interest) → bit_or (mask i) read_event ≡ mask (with_reading i)
or_read nothing = refl
or_read _ = refl

or_write : (i : Interest) → bit_or (mask i) write_event ≡ mask (with_writing i)
or_write nothing = refl
or_write _ = refl

and_not_read : (i : Interest) → bit_and (mask i) (complement read_event) ≡ mask (without_reading i)
and_not_read nothing = refl
and_not_read _ = refl

and_not_write :
    (i : Interest) → bit_and (mask i) (complement write_event) ≡ mask (without_writing i)
and_not_write nothing = refl
and_not_write _ = refl

module _ (c : Channel) (i : Interest) (asks : Asks c i) where
  pub set_reading-Asks : Asks (set_reading c) (with_reading i)
  unfolding set_reading
  set_reading-Asks = ap (λ e. bit_or e read_event) asks ∙ or_read i

  pub set_writing-Asks : Asks (set_writing c) (with_writing i)
  unfolding set_writing
  set_writing-Asks = ap (λ e. bit_or e write_event) asks ∙ or_write i

  pub clear_reading-Asks : Asks (clear_reading c) (without_reading i)
  unfolding clear_reading
  clear_reading-Asks = ap (λ e. bit_and e (complement read_event)) asks ∙ and_not_read i

  pub clear_writing-Asks : Asks (clear_writing c) (without_writing i)
  unfolding clear_writing
  clear_writing-Asks = ap (λ e. bit_and e (complement write_event)) asks ∙ and_not_write i

pub clear_all-Asks : (c : Channel) → Asks (clear_all c) nothing
unfolding clear_all
clear_all-Asks c = refl

-- From a set of the four, each setter asks for the set with its events added or taken away, the
-- other events untouched.
pub setters_lem :
    (c : Channel) (i : Interest)
    → Asks c i
    → Asks (set_reading c) (with_reading i)
      × Asks (set_writing c) (with_writing i)
      × Asks (clear_reading c) (without_reading i)
      × Asks (clear_writing c) (without_writing i)
      × Asks (clear_all c) nothing
setters_lem c i asks = (
  set_reading-Asks c i asks,
  set_writing-Asks c i asks,
  clear_reading-Asks c i asks,
  clear_writing-Asks c i asks,
  clear_all-Asks c,
)

-- The tests compare for equality, so each of them holds of one set only: a channel that asks for
-- both kinds passes neither the test for reading nor that for writing.
pub tests_lem :
    (c : Channel) (i : Interest)
    → Asks c i
    → ((is_none_event c ≡ true) ↔ (i ≡ nothing))
      × ((is_read_event c ≡ true) ↔ (i ≡ reading))
      × ((is_write_event c ≡ true) ↔ (i ≡ writing))
unfolding is_none_event is_read_event is_write_event
tests_lem c nothing asks = rw asks ((λ _. refl, λ _. refl), (λ e. cc, λ e. cc), (λ e. cc, λ e. cc))
tests_lem c reading asks = rw asks ((λ e. cc, λ e. cc), (λ _. refl, λ _. refl), (λ e. cc, λ e. cc))
tests_lem c writing asks = rw asks ((λ e. cc, λ e. cc), (λ e. cc, λ e. cc), (λ _. refl, λ _. refl))
tests_lem c both asks = rw asks ((λ e. cc, λ e. cc), (λ e. cc, λ e. cc), (λ e. cc, λ e. cc))
