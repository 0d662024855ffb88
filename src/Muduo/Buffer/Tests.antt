-- ===== src/Muduo/Buffer/Tests.antt =====
-- The buffer's theorems at small buffers, and runs of its functions.
use cpp_toy.Base.{
  ℕ, ◌≡◌, refl, List, [], ◌∷◌, ◌++◌, arith, length, take, ok, fail, out_of_range, ◌+◌, ◌-◌, ◌≤◌,
  ◌<◌, replicate, length-take,
}
use cpp_toy.Muduo.Buffer.{
  Buffer, create, append, retrieve, retrieve_as_string, read_fd, write_fd, read_room, Received,
  received, read_error, wrote, ensure_writable_bytes,
}
use cpp_toy.Muduo.Buffer.View.{Holds}
use cpp_toy.Muduo.Buffer.Queue.{Leaves, create-Holds, append-Holds, retrieve-Holds}
use cpp_toy.Muduo.Buffer.Io.{delivered, read_fd-Holds, write_fd_lem}
use cpp_toy.Muduo.Buffer.Refinement.{
  Call, appends, retrieves, takes, takes_all, queue_run, Implements, run-queue_run, volume,
  retrieve_as_string_overreads,
}
use cpp_toy.Muduo.Buffer.Space.{Ensured, ensure_writable_bytes_lem}

-- Eleven bytes of vector: eight prepended, three of content, none to write.
abbrev full : Buffer
full = record {
  buffer = 0 ∷ 0 ∷ 0 ∷ 0 ∷ 0 ∷ 0 ∷ 0 ∷ 0 ∷ 1 ∷ 2 ∷ 3 ∷ [];
  reader_index = 8;
  writer_index = 11;
}

abbrev front : List ℕ
front = replicate 8 0

full-Holds : Holds full (1 ∷ 2 ∷ 3 ∷ [])
full-Holds = record {
  before = front;
  after = [];
  layout = refl;
  reader_at = omega arith;
  writer_at = omega arith;
  prepend = omega arith;
  within = omega arith;
}

-- The same with one byte read, which `MakeSpace` can win back.
half_read : Holds (record full { reader_index = 9 }) (2 ∷ 3 ∷ [])
half_read = record {
  before = front ++ 1 ∷ [];
  after = [];
  layout = refl;
  reader_at = omega arith;
  writer_at = omega arith;
  prepend = omega arith;
  within = omega arith;
}

create-Holds_example : Leaves (create 4) []
create-Holds_example = create-Holds 4 (omega arith)

ensure_writable_bytes_lem_test :
    Ensured
      (record full { reader_index = 9 })
      (2 ∷ 3 ∷ [])
      1
      (ensure_writable_bytes (record full { reader_index = 9 }) 1)
ensure_writable_bytes_lem_test = ensure_writable_bytes_lem half_read 1 (omega arith)

append-Holds_example :
    (b' : Buffer) × (append full (4 ∷ 5 ∷ []) ≡ ok b')
    × Holds b' (1 ∷ 2 ∷ 3 ∷ 4 ∷ 5 ∷ [])
    × (b'.writer_index ≤ 13)
append-Holds_example = append-Holds full-Holds (4 ∷ 5 ∷ []) (omega arith)

retrieve-Holds_example : Holds (retrieve full 2) (3 ∷ [])
retrieve-Holds_example = retrieve-Holds full-Holds 2

abbrev calls : List Call
calls = appends (4 ∷ 5 ∷ []) ∷ takes 2 ∷ retrieves 1 ∷ takes_all ∷ []

run-queue_run_example : Implements full calls ((1 ∷ 2 ∷ []) ∷ (4 ∷ 5 ∷ []) ∷ []) []
unfolding volume queue_run
run-queue_run_example = run-queue_run calls full-Holds (omega arith) refl

-- A peer that has two bytes to give.
abbrev two_bytes : ℕ → Received
two_bytes room = received (take room (4 ∷ 5 ∷ []))

two_bytes_room : (room : ℕ) → length (delivered (two_bytes room)) ≤ room
two_bytes_room room = omega (arith, length-take {A = ℕ} room (4 ∷ 5 ∷ []))

read_fd-Holds_example :
    (b' : Buffer) × (read_fd two_bytes full ≡ ok (b', two_bytes (read_room full)))
    × Holds b' ((1 ∷ 2 ∷ 3 ∷ []) ++ delivered (two_bytes (read_room full)))
    × ((errno : ℕ) → two_bytes (read_room full) ≡ read_error errno → b' ≡ full)
read_fd-Holds_example = read_fd-Holds two_bytes two_bytes_room full-Holds (omega arith)

write_fd_lem_example : write_fd (λ bytes. wrote (length bytes)) full ≡ ok (wrote 3)
write_fd_lem_example = write_fd_lem (λ bytes. wrote (length bytes)) full-Holds

overreads_test :
    (8 + 5 ≤ 11
      → retrieve_as_string full 5 ≡ ok ((1 ∷ 2 ∷ 3 ∷ []) ++ take (5 - 3) [], retrieve full 5))
    × (11 < 8 + 5 → retrieve_as_string full 5 ≡ fail out_of_range)
unfolding full-Holds
overreads_test = retrieve_as_string_overreads full-Holds 5 (omega arith)
