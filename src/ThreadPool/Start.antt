-- ===== src/ThreadPool/Start.antt =====
-- `Start`: the threads are looked up by their number in this pool, but stored by their number in the
-- process.
use cpp_toy.Base.{
  ℕ, zero, suc, ◌+◌, ◌%◌, ◌≤◌, ◌<◌, ◌≡◌, ◌≢◌, refl, sym, ap, ◌∙◌, List, [], ◌∷◌, ◌++◌, append_assoc,
  append-nil, true, false, put, ◌==◌, ==_iff, arith, Bool-cases, ok, fail, null_pointer, if_cases,
  inl, inr, put_same, put_other, subst, length, false≢true,
}
use Prim.Native.Nat.{min}
use cpp_toy.ThreadPool.{
  Pool, Phase, ready, waiting, uint_mod, has, incr, create_threads, start_threads, start,
}
use cpp_toy.ThreadPool.Steps.{IsStarted}
use cpp_toy.ThreadPool.Threads.{put-Each}

-- `count` ids from `first`.
abbrev pub ids : (first count : ℕ) → List ℕ
ids first zero = []
ids first (suc count) = first ∷ ids (suc first) count

has-ids : (first count i : ℕ) → first ≤ i → i < first + count → has i (ids first count) ≡ true
has-ids first zero i low high = absurd (omega arith)
has-ids first (suc count) i low high = elim (Bool-cases (first == i)) [
  | inl e ↦ rw e refl
  | inr e ↦ rw e (has-ids (suc first) count i (ground arith) (omega arith))
]

has_not-ids : (first count i : ℕ) → i < first → has i (ids first count) ≡ false
has_not-ids first zero i low = refl
has_not-ids first (suc count) i low =
    rw (has_not-ids (suc first) count i (omega arith)) (ground arith)

length-ids : (first count : ℕ) → length (ids first count) ≡ count
length-ids first zero = refl
length-ids first (suc count) = ap suc (length-ids (suc first) count)

unfoldable with_threads : Pool → List ℕ → ℕ → Pool
with_threads s threads next_id = record s { threads = threads; next_id = next_id }

with_threads_same :
    (s : Pool) {ts us : List ℕ} {m n : ℕ}
    → ts ≡ us
    → m ≡ n
    → with_threads s ts m ≡ with_threads s us n
with_threads_same s {ts} {us} {m} {n} p q =
    ap (λ t. with_threads s t m) p ∙ ap (λ k. with_threads s us k) q

create_threads_lem :
    (count : ℕ) (s : Pool)
    → create_threads count s ≡ with_threads s (s.threads ++ ids s.next_id count) (s.next_id + count)
unfolding create_threads with_threads
create_threads_lem zero s = with_threads_same s (sym (append-nil s.threads)) (omega arith)
create_threads_lem (suc count) s =
    create_threads_lem count (with_threads s (s.threads ++ s.next_id ∷ []) (suc s.next_id))
    ∙ with_threads_same s (append_assoc s.threads (s.next_id ∷ []) (ids (suc s.next_id) count))
        (omega arith)

start_one :
    (i : ℕ) (s : Pool)
    → has i s.threads ≡ true
    → IsStarted s
    → IsStarted
        (record s { phase = put s.phase i ready; idle_thread_size = incr s.idle_thread_size })
start_one i s there h = record {
  no_tasks = h.no_tasks;
  no_size = h.no_size;
  no_accepted = h.no_accepted;
  no_taken = h.no_taken;
  few = h.few;
  none_waits =
      λ j. if_cases (λ (p : Phase). p ≢ waiting) (j == i) (λ _ e. cc) (λ _. h.none_waits j);
  not_notified = h.not_notified;
  each_in = put-Each s.threads s.phase i ready there h.each_in;
  counted = h.counted;
  max_bound = h.max_bound;
}

start_threads-IsStarted :
    (count i : ℕ) (s : Pool)
    → ((j : ℕ) → i ≤ j → j < i + count → has j s.threads ≡ true)
    → IsStarted s
    → (s' : Pool) × (start_threads count i s ≡ ok s')
      × IsStarted s'
      × (s'.threads ≡ s.threads)
      × ((j : ℕ) → i ≤ j → j < i + count → s'.phase j ≡ ready)
      × ((j : ℕ) → j < i → s'.phase j ≡ s.phase j)
unfolding start_threads
start_threads-IsStarted zero i s there h =
    (s, refl, h, refl, (λ j low high. absurd (omega arith)), (λ j low. refl))
start_threads-IsStarted (suc count) i s there h =
    let s₁ : Pool = record s {
      phase = put s.phase i ready;
      idle_thread_size = incr s.idle_thread_size;
    } in
    let (s', e, h', same, news, olds) =
      start_threads-IsStarted count (suc i) s₁ (λ j low high. there j (omega arith) (omega arith))
        (start_one i s (there i (omega arith) (omega arith)) h) in
    (
      s',
      rw (there i (omega arith) (omega arith)) e,
      h',
      same,
      (λ j low high. elim (Bool-cases (i == j)) [
        | inl f ↦
            subst (λ k. s'.phase k ≡ ready) ((==_iff _ _).0 f)
              (olds i (omega arith) ∙ put_same s.phase ready i)
        | inr f ↦ news j (ground arith) (omega arith)
      ]),
      (λ j low. olds j (omega arith) ∙ put_other s.phase ready i j (λ e. omega arith)),
    )

-- The pool before the loops of `Start` for `k` threads.
unfoldable begun : ℕ → Pool → Pool
begun k s = record s { is_running = true; init_thread_size = k; current_thread_size = k % uint_mod }

module _ (k : ℕ) (s : Pool) (h : IsStarted s) (none_yet : s.threads ≡ []) where
  made : Pool
  made = with_threads (begun k s) (ids s.next_id k) (s.next_id + k)

  create_threads-made : create_threads k (begun k s) ≡ made
  unfolding made begun
  create_threads-made =
      create_threads_lem k (begun k s)
      ∙ with_threads_same (begun k s) (ap (λ t. t ++ ids s.next_id k) none_yet) refl

  made-IsStarted : k ≤ s.thread_max_size → IsStarted made
  unfolding made begun with_threads
  made-IsStarted small = record {
    no_tasks = h.no_tasks;
    no_size = h.no_size;
    no_accepted = h.no_accepted;
    no_taken = h.no_taken;
    few = omega arith;
    none_waits = h.none_waits;
    not_notified = h.not_notified;
    each_in = λ i n. absurd (false≢true (ap (has i) (sym none_yet) ∙ h.each_in i n));
    counted = omega (arith, length-ids s.next_id k, h.max_bound);
    max_bound = h.max_bound;
  }

  first_pool :
      k ≤ s.thread_max_size
      → s.next_id ≡ 0
      → (s' : Pool) × (start_threads k 0 (create_threads k (begun k s)) ≡ ok s')
        × IsStarted s'
        × (s'.threads ≡ ids 0 k)
        × ((j : ℕ) → j < k → s'.phase j ≡ ready)
  unfolding made with_threads
  first_pool small zero_id =
      let (s', e, h', same, news, olds) =
        start_threads-IsStarted k 0 made
          (λ j low high. has-ids s.next_id k j (omega arith) (omega arith))
          (made-IsStarted small) in
      (
        s',
        rw create_threads-made e,
        h',
        same ∙ ap (λ f. ids f k) zero_id,
        λ j high. news j (omega arith) (omega arith),
      )

  later_pool :
      1 ≤ k → 1 ≤ s.next_id → start_threads k 0 (create_threads k (begun k s)) ≡ fail null_pointer
  unfolding made with_threads start_threads
  later_pool some_ later =
      rw create_threads-made (no_zero k made (has_not-ids s.next_id k 0 later) some_)
    where
      no_zero :
          (c : ℕ) (t : Pool)
          → has 0 t.threads ≡ false
          → 1 ≤ c
          → start_threads c 0 t ≡ fail null_pointer
      no_zero zero t e pos = absurd (omega arith)
      no_zero (suc c) t e pos = rw e refl

-- `Start` on a pool without threads: in a process that has made no thread of this kind before, it
-- starts the threads 0, 1, ..., as many as asked for or as the maximum allows, each once; in any
-- other process it dereferences a null pointer as soon as there is a thread to start.
pub start_lem :
    (n : ℕ) (s : Pool)
    → IsStarted s
    → s.threads ≡ []
    → (s.next_id ≡ 0
        → (s' : Pool) × (start n s ≡ ok s')
          × IsStarted s'
          × (s'.threads ≡ ids 0 (min n s.thread_max_size))
          × ((j : ℕ) → j < min n s.thread_max_size → s'.phase j ≡ ready))
      × (1 ≤ s.next_id → 1 ≤ min n s.thread_max_size → start n s ≡ fail null_pointer)
unfolding start begun
start_lem n s h none_yet =
    let k = min n s.thread_max_size in
    (first_pool k s h none_yet (omega arith), λ later some_. later_pool k s h none_yet some_ later)
