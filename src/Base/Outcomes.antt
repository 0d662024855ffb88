-- ===== src/Base/Outcomes.antt =====
-- What a call comes to where the source throws or would leave the objects it may touch.

pub data Fault : Type 0 where
  out_of_range : Fault  -- an access outside the object: undefined behaviour in C++
  null_pointer : Fault  -- a dereference of a null pointer
  length_error : Fault  -- `std::length_error`
  invalid_argument : Fault  -- `std::invalid_argument`
  value_range : Fault  -- `std::out_of_range`, of a number that its type does not hold
  no_fuel : Fault  -- the bound that a definition is given on its own recursion

pub data Outcome {ℓ} (A : Type ℓ) : Type ℓ where
  ok : A → Outcome A
  fail : Fault → Outcome A

infixl 5 ◌>>=◌
abbrev pub ◌>>=◌ {ℓ κ} : {A : Type ℓ} {B : Type κ} → Outcome A → (A → Outcome B) → Outcome B
ok a >>= f = f a
fail e >>= f = fail e
