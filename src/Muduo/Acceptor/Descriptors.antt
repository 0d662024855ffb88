-- ===== src/Muduo/Acceptor/Descriptors.antt =====
-- What becomes of the descriptors that are accepted.
use cpp_toy.Base.{
  ℕ, ◌+◌, ◌≡◌, refl, List, [], ◌∷◌, ◌++◌, Bool, true, false, Bool-cases, inl, inr, ◌==◌,
  if◌then◌else◌, once, count, arith,
}
use cpp_toy.Muduo.Poller.Kernel.{Epoll}
use cpp_toy.Muduo.Socket.{
  Call, sets_option, binds, listens, accepts, shuts_write, closes, calls_new_connection, watches,
  unwatches, logs_error, Accepted, accepted, accept_error, accept,
}
use cpp_toy.Muduo.Acceptor.{Acceptor, emfile, accepted_call, handle_read}

-- The descriptors that a list of answers brings.
abbrev pub brought : List Accepted → List ℕ
brought [] = []
brought (accepted fd ∷ rs) = fd ∷ brought rs
brought (accept_error errno ∷ rs) = brought rs

-- How often a descriptor was handed on, and how often it was closed.
abbrev pub handed_on : ℕ → List Call → ℕ
handed_on q [] = 0
handed_on q (calls_new_connection fd ∷ cs) = once fd q + handed_on q cs
handed_on q (_ ∷ cs) = handed_on q cs

abbrev pub closed : ℕ → List Call → ℕ
closed q [] = 0
closed q (closes fd ∷ cs) = once fd q + closed q cs
closed q (_ ∷ cs) = closed q cs

unfoldable pub handle_reads : {e : Epoll} → List Accepted → Acceptor e → Acceptor e
handle_reads [] a = a
handle_reads (r ∷ rs) a = handle_reads rs (handle_read r a)

handed_on-append :
    (q : ℕ) (xs ys : List Call) → handed_on q (xs ++ ys) ≡ handed_on q xs + handed_on q ys
handed_on-append q [] ys = omega arith
handed_on-append q (sets_option fd level option value ∷ xs) ys = handed_on-append q xs ys
handed_on-append q (binds fd ∷ xs) ys = handed_on-append q xs ys
handed_on-append q (listens fd backlog ∷ xs) ys = handed_on-append q xs ys
handed_on-append q (accepts fd ∷ xs) ys = handed_on-append q xs ys
handed_on-append q (shuts_write fd ∷ xs) ys = handed_on-append q xs ys
handed_on-append q (closes fd ∷ xs) ys = handed_on-append q xs ys
handed_on-append q (calls_new_connection fd ∷ xs) ys = omega (arith, handed_on-append q xs ys)
handed_on-append q (watches fd ∷ xs) ys = handed_on-append q xs ys
handed_on-append q (unwatches fd ∷ xs) ys = handed_on-append q xs ys
handed_on-append q (logs_error ∷ xs) ys = handed_on-append q xs ys

closed-append : (q : ℕ) (xs ys : List Call) → closed q (xs ++ ys) ≡ closed q xs + closed q ys
closed-append q [] ys = omega arith
closed-append q (sets_option fd level option value ∷ xs) ys = closed-append q xs ys
closed-append q (binds fd ∷ xs) ys = closed-append q xs ys
closed-append q (listens fd backlog ∷ xs) ys = closed-append q xs ys
closed-append q (accepts fd ∷ xs) ys = closed-append q xs ys
closed-append q (shuts_write fd ∷ xs) ys = closed-append q xs ys
closed-append q (closes fd ∷ xs) ys = omega (arith, closed-append q xs ys)
closed-append q (calls_new_connection fd ∷ xs) ys = closed-append q xs ys
closed-append q (watches fd ∷ xs) ys = closed-append q xs ys
closed-append q (unwatches fd ∷ xs) ys = closed-append q xs ys
closed-append q (logs_error ∷ xs) ys = closed-append q xs ys

after_accept :
    (q fd : ℕ) (cs xs : List Call)
    → (handed_on q (accept fd cs ++ xs) ≡ handed_on q cs + handed_on q xs)
      × (closed q (accept fd cs ++ xs) ≡ closed q cs + closed q xs)
unfolding accept
after_accept q fd cs xs = omega (
  arith,
  handed_on-append q (cs ++ accepts fd ∷ []) xs,
  handed_on-append q cs (accepts fd ∷ []),
  closed-append q (cs ++ accepts fd ∷ []) xs,
  closed-append q cs (accepts fd ∷ []),
)

same_if : (b : Bool) → ◌≡◌ {A = ℕ} (if b then 0 else 0) 0
same_if true = refl
same_if false = refl

-- What one call adds.
one_read :
    {e : Epoll} (r : Accepted) (a : Acceptor e) (q : ℕ)
    → (handed_on q (handle_read r a).calls
        ≡ handed_on q a.calls + (if a.has_new_connection then count q (brought (r ∷ [])) else 0))
      × (closed q (handle_read r a).calls
          ≡ closed q a.calls + (if a.has_new_connection then 0 else count q (brought (r ∷ []))))
unfolding handle_read accepted_call
one_read (accepted fd) a q = elim (Bool-cases a.has_new_connection) [
  | inl t ↦ rw t (omega (arith, after_accept q a.fd a.calls (calls_new_connection fd ∷ [])))
  | inr t ↦ rw t (omega (arith, after_accept q a.fd a.calls (closes fd ∷ [])))
]
one_read (accept_error errno) a q = elim (Bool-cases (errno == emfile)) [
  | inl t ↦ rw t (
      omega (
        arith,
        after_accept q a.fd a.calls (logs_error ∷ logs_error ∷ []),
        same_if a.has_new_connection,
      ))
  | inr t ↦
      rw t
        (omega (arith, after_accept q a.fd a.calls (logs_error ∷ []), same_if a.has_new_connection))
]

adds_if :
    (b : Bool) (x y z m n k : ℕ)
    → y ≡ x + (if b then m else 0)
    → z ≡ y + (if b then n else 0)
    → k ≡ m + n
    → z ≡ x + (if b then k else 0)
adds_if true x y z m n k p q r = omega arith
adds_if false x y z m n k p q r = omega arith

adds_unless :
    (b : Bool) (x y z m n k : ℕ)
    → y ≡ x + (if b then 0 else m)
    → z ≡ y + (if b then 0 else n)
    → k ≡ m + n
    → z ≡ x + (if b then 0 else k)
adds_unless true x y z m n k p q r = omega arith
adds_unless false x y z m n k p q r = omega arith

brought_first :
    (r : Accepted) (rs : List Accepted) (q : ℕ)
    → count q (brought (r ∷ rs)) ≡ count q (brought (r ∷ [])) + count q (brought rs)
brought_first (accepted fd) rs q = omega arith
brought_first (accept_error errno) rs q = omega arith

-- No descriptor is lost: of any answers of `accept4`, errors included, each descriptor is handed to
-- the callback exactly as often as it was brought, if there is a callback, and closed as often if
-- there is none; the poller is left as it is.
pub handle_reads_lem :
    {e : Epoll} (rs : List Accepted) (a : Acceptor e) (q : ℕ)
    → (handed_on q (handle_reads rs a).calls
        ≡ handed_on q a.calls + (if a.has_new_connection then count q (brought rs) else 0))
      × (closed q (handle_reads rs a).calls
          ≡ closed q a.calls + (if a.has_new_connection then 0 else count q (brought rs)))
      × ((handle_reads rs a).world ≡ a.world)
unfolding handle_reads handle_read
handle_reads_lem [] a q =
    (omega (arith, same_if a.has_new_connection), omega (arith, same_if a.has_new_connection), refl)
handle_reads_lem (r ∷ rs) a q =
    let one = one_read r a q in
    let rest = handle_reads_lem rs (handle_read r a) q in
    let both = brought_first r rs q in
    (
      adds_if a.has_new_connection _ _ _ _ _ _ one.0 rest.0 both,
      adds_unless a.has_new_connection _ _ _ _ _ _ one.1 rest.1 both,
      rest.2,
    )
