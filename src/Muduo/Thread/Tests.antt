-- ===== src/Muduo/Thread/Tests.antt =====
-- Names and ids of threads.
use cpp_toy.Base.{◌≡◌, ◌≢◌, refl, [], ◌∷◌, arith, print_int, digits}
use cpp_toy.Muduo.Thread.{create, set_default_name, default_name}
use cpp_toy.Muduo.Thread.Names.{names_distinct}

-- "Thread12"
twelfth : (create [] 11).0.name ≡ 84 ∷ 104 ∷ 114 ∷ 101 ∷ 97 ∷ 100 ∷ 49 ∷ 50 ∷ []
unfolding create set_default_name default_name print_int digits
twelfth = refl

names_distinct_example :
    ((create (97 ∷ []) 11).0.name ≡ 97 ∷ []) × ((create [] 11).0.name ≢ (create [] 12).0.name)
names_distinct_example = names_distinct 11 12 97 [] (omega arith) (omega arith) (λ e. omega arith)
