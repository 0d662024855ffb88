-- ===== src/Muduo/TcpServer/Loops.antt =====
-- `Start` of the pool of loops, and what `GetNextLoop` gives after it.
use cpp_toy.Base.{
  ℕ, zero, suc, ◌+◌, ◌%◌, ◌^◌, ◌≤◌, ◌<◌, ◌≡◌, refl, ap, ◌∙◌, List, [], ◌∷◌, ◌++◌, append_assoc,
  append-nil, map, length, get_elem?, some, arith, ok, Bool, true, false, lt→ltb, ◌==◌, to_string,
  if◌then◌else◌,
}
use native.Mathlib.Nat.{mod-lt}
use cpp_toy.Muduo.TcpServer.{
  LoopPool, create_pool, set_thread_num, start_thread, start_threads, start_pool, get_next_loop,
}
use cpp_toy.Muduo.TcpServer.RoundRobin.{next_loops, next_loops-get_elem}

-- The names of `count` threads from number `i`.
abbrev pub names : (name : List ℕ) (count i : ℕ) → List (List ℕ)
names name zero i = []
names name (suc count) i = (name ++ to_string i) ∷ names name count (suc i)

length-names : (name : List ℕ) (count i : ℕ) → length (names name count i) ≡ count
length-names name zero i = refl
length-names name (suc count) i = ap suc (length-names name count (suc i))

length-map : (f : List ℕ → ℕ) (xs : List (List ℕ)) → length (map f xs) ≡ length xs
length-map f [] = refl
length-map f (x ∷ xs) = ap suc (length-map f xs)

get_elem-names :
    (f : List ℕ → ℕ) (name : List ℕ) (count i k : ℕ)
    → k < count
    → get_elem? (map f (names name count i)) k ≡ some (f (name ++ to_string (i + k)))
get_elem-names f name zero i k h = absurd (omega arith)
get_elem-names f name (suc count) i zero h = ap (λ n. some (f (name ++ to_string n))) (omega arith)
get_elem-names f name (suc count) i (suc k) h =
    get_elem-names f name count (suc i) k (omega arith)
    ∙ ap (λ n. some (f (name ++ to_string n))) (omega arith)

module _ (start_loop : List ℕ → ℕ) where
  start_threads_lem :
      (count i : ℕ) (p : LoopPool)
      → start_threads start_loop count i p ≡ record p {
        threads = p.threads ++ names p.name count i;
        loops = p.loops ++ map start_loop (names p.name count i);
      }
  unfolding start_threads start_thread
  start_threads_lem zero i p = rw (append-nil p.threads, append-nil p.loops) refl
  start_threads_lem (suc count) i p =
      let n = p.name ++ to_string i in
      start_threads_lem count (suc i) (start_thread start_loop i p)
      ∙ rw
          (
            append_assoc p.threads (n ∷ []) (names p.name count (suc i)),
            append_assoc p.loops (start_loop n ∷ []) (map start_loop (names p.name count (suc i))),
          )
          refl

module _ (start_loop : List ℕ → ℕ) (has_cb : Bool) (base : ℕ) (name : List ℕ) where
  unfoldable pub started_pool : ℕ → LoopPool
  started_pool n = start_pool start_loop has_cb (set_thread_num n (create_pool base name))

  -- The pool after `Start` with some threads.
  abbrev running : ℕ → LoopPool
  running n = record {
    base_loop = base;
    name = name;
    started = true;
    num_threads = n;
    next = 0;
    threads = names name n 0;
    loops = map start_loop (names name n 0);
    called_back = [];
  }

  start_pool-running : (n : ℕ) → 1 ≤ n → n < 2 ^ 31 → started_pool n ≡ running n
  unfolding started_pool start_pool set_thread_num create_pool
  start_pool-running n some_ small =
      rw
        (
          lt→ltb n (2 ^ 31) small,
          start_threads_lem start_loop n 0
              (record (set_thread_num n (create_pool base name)) { started = true }),
          not_none,
        )
        refl
    where
      not_none : (n == 0) ≡ false
      not_none = ground arith

  has_loops : (n : ℕ) → 1 ≤ n → 0 < length (running n).loops
  has_loops n some_ = omega (arith, length-map start_loop (names name n 0), length-names name n 0)

  zero_add : (k : ℕ) → 0 + k ≡ k
  zero_add k = omega arith

  round_loop :
      (n k len : ℕ)
      → 1 ≤ n
      → len ≡ n
      → get_elem? (map start_loop (names name n 0)) ((0 + k) % len)
        ≡ some (start_loop (name ++ to_string (k % n)))
  round_loop n k len some_ e = rw e (
      get_elem-names start_loop name n 0 ((0 + k) % n) (mod-lt (0 + k) some_)
      ∙ ap (λ i. some (start_loop (name ++ to_string i)))
          (zero_add ((0 + k) % n) ∙ ap {B = ℕ} (λ i. i % n) (zero_add k)))

  gives :
      (n count k : ℕ)
      → 1 ≤ n
      → k < count
      → (loops : List ℕ) × (next_loops count (running n) ≡ ok loops)
        × (length loops ≡ count)
        × ((k : ℕ)
            → k < count
            → get_elem? loops k ≡ get_elem? (running n).loops ((0 + k) % length (running n).loops))
      → ((running n).threads ≡ names name n 0)
        × ((running n).called_back ≡ [])
        × (loops : List ℕ) × (next_loops count (running n) ≡ ok loops)
        × (get_elem? loops k ≡ some (start_loop (name ++ to_string (k % n))))
  gives n count k some_ low (loops, e, _, at) = (
    refl,
    refl,
    loops,
    e,
    at k low
        ∙ round_loop n k (length (running n).loops) some_
            (length-map start_loop (names name n 0) ∙ length-names name n 0),
  )

  -- A pool that is started with `n` threads names them by the pool's name and 0, 1, ..., and runs
  -- the callback on no loop itself. Of any number of calls of `GetNextLoop` after that, none fails,
  -- and call `k`, from 0, gives the loop that `StartLoop` of thread `k % n` returned.
  pub start_pool-next_loops :
      (n count k : ℕ)
      → 1 ≤ n
      → n < 2 ^ 31
      → k < count
      → ((started_pool n).threads ≡ names name n 0)
        × ((started_pool n).called_back ≡ [])
        × (loops : List ℕ) × (next_loops count (started_pool n) ≡ ok loops)
        × (get_elem? loops k ≡ some (start_loop (name ++ to_string (k % n))))
  start_pool-next_loops n count k some_ small low =
      rw (start_pool-running n some_ small)
        (gives n count k some_ low (next_loops-get_elem count (running n) (has_loops n some_)))

-- A pool that is started with no threads gives its base loop in the next call, and ran the callback,
-- if there is one, on that loop.
pub start_pool_none :
    (start_loop : List ℕ → ℕ) (has_cb : Bool) (base : ℕ) (name : List ℕ)
    → (get_next_loop (started_pool start_loop has_cb base name 0)
        ≡ ok (base, started_pool start_loop has_cb base name 0))
      × ((started_pool start_loop has_cb base name 0).called_back
          ≡ (if has_cb then base ∷ [] else []))
unfolding started_pool start_pool set_thread_num create_pool start_threads get_next_loop
start_pool_none start_loop true base name = (refl, refl)
start_pool_none start_loop false base name = (refl, refl)
