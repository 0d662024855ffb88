-- ===== src/Muduo/Channel/Dispatch.antt =====
-- Which callbacks an event reaches.
use cpp_toy.Base.{ℕ, ◌+◌, ◌<◌, ◌≡◌, List, [], ◌∷◌, ◌++◌, Bool, true, false, ◌&&◌, ◌||◌, not, arith}
use cpp_toy.Muduo.Channel.{
  Channel, Callback, on_close, on_error, on_read, on_write, epollin, epollout, epollerr, epollhup,
  read_event, has_any, when, handle_event,
}

abbrev pub same : Callback → Callback → Bool
same on_close on_close = true
same on_error on_error = true
same on_read on_read = true
same on_write on_write = true
same _ _ = false

pub called : Callback → List Callback → Bool
called c [] = false
called c (d ∷ ds) = same c d || called c ds

abbrev pub rank : Callback → ℕ
rank on_close = 0
rank on_error = 1
rank on_read = 2
rank on_write = 3

-- Each callback has a higher rank than the one before it: none comes twice.
abbrev pub InOrder : ℕ → List Callback → Type 0
InOrder n [] = Unit {0}
InOrder n (c ∷ cs) = (n < rank c + 1) × InOrder (rank c + 1) cs

abbrev row : Bool → Bool → Bool → Bool → List Callback
row a b c d = when a on_close ++ when b on_error ++ when c on_read ++ when d on_write

row-called :
    (a b c d : Bool)
    → (called on_close (row a b c d) ≡ a)
      × (called on_error (row a b c d) ≡ b)
      × (called on_read (row a b c d) ≡ c)
      × (called on_write (row a b c d) ≡ d)
unfolding called
row-called a b c d = ground arith

row-InOrder : (a b c d : Bool) → InOrder 0 (row a b c d)
row-InOrder a b c d = ground arith

-- The guard lets the callbacks run: nothing is tied, or what is tied is alive.
abbrev pub IsLive : Channel → Bool → Type 0
IsLive c alive = (not c.tied || alive) ≡ true

handle_event-guard :
    (c : Channel) (alive : Bool)
    → IsLive c alive
    → handle_event c alive
      ≡ row
          (has_any c.revents epollhup && not (has_any c.revents epollin) && c.has_close)
          (has_any c.revents epollerr && c.has_error)
          (has_any c.revents read_event && c.has_read)
          (has_any c.revents epollout && c.has_write)
unfolding handle_event
handle_event-guard c alive live = ground arith

-- A live channel calls each callback that is set exactly when its event happened, each at most once,
-- close before error before read before write. Close wants a hang-up with nothing left to read.
pub handle_event_live :
    (c : Channel) (alive : Bool)
    → IsLive c alive
    → let calls = handle_event c alive in
      (called on_close calls
        ≡ (has_any c.revents epollhup && not (has_any c.revents epollin) && c.has_close))
      × (called on_error calls ≡ (has_any c.revents epollerr && c.has_error))
      × (called on_read calls ≡ (has_any c.revents read_event && c.has_read))
      × (called on_write calls ≡ (has_any c.revents epollout && c.has_write))
      × InOrder 0 calls
handle_event_live c alive live =
    let r =
      row-called (has_any c.revents epollhup && not (has_any c.revents epollin) && c.has_close)
        (has_any c.revents epollerr && c.has_error) (has_any c.revents read_event && c.has_read)
        (has_any c.revents epollout && c.has_write) in
    rw (handle_event-guard c alive live) (r.0, r.1, r.2, r.3, row-InOrder _ _ _ _)

-- A channel whose owner is gone calls nothing, whatever happened.
pub handle_event_dead : (c : Channel) → c.tied ≡ true → handle_event c false ≡ []
unfolding handle_event
handle_event_dead c t = rw t
