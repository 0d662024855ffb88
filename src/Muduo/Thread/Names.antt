-- ===== src/Muduo/Thread/Names.antt =====
-- The names of threads that were given none.
use cpp_toy.Base.{
  ℕ, suc, ◌+◌, ◌%◌, ◌<◌, ◌≡◌, ◌≢◌, refl, sym, ap, ◌∙◌, List, [], ◌∷◌, ◌++◌, length, arith, int_mod,
  print_int, drop, print_int_injective, length-print_int, take_all, ◌==◌, false,
}
use cpp_toy.Muduo.Thread.{prefix_text, default_name, set_default_name, create}

default_name_lem : (n : ℕ) → n < int_mod → default_name n ≡ prefix_text ++ print_int n
unfolding default_name
default_name_lem n h =
    take_all 31 (prefix_text ++ print_int n) (omega (arith, length-print_int n h))

default_name_injective :
    (m n : ℕ) → m < int_mod → n < int_mod → default_name m ≡ default_name n → m ≡ n
default_name_injective m n h k e =
    print_int_injective m n h k
      (ap (drop 6) (sym (default_name_lem m h) ∙ e ∙ default_name_lem n k))

-- A thread keeps the name that it is given. Two threads that are given none have different names,
-- although a name is cut to an array of 32 characters, where the counters of threads differ: they
-- come back to the same value after 2 ^ 32 threads.
pub names_distinct :
    (m n c : ℕ) (cs : List ℕ)
    → m < int_mod
    → n < int_mod
    → m ≢ n
    → ((create (c ∷ cs) m).0.name ≡ c ∷ cs) × ((create [] m).0.name ≢ (create [] n).0.name)
unfolding create set_default_name
names_distinct m n c cs h k other = (
  rw not_empty refl,
  λ e. omega (
    arith,
    default_name_injective ((m + 1) % int_mod) ((n + 1) % int_mod) (omega arith) (omega arith) e,
  ),
)
  where
    not_empty : (suc (length cs) == 0) ≡ false
    not_empty = ground arith
