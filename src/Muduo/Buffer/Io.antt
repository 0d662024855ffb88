-- ===== src/Muduo/Buffer/Io.antt =====
-- `ReadFd` and `WriteFd`.
use cpp_toy.Base.{
  ℕ, ◌+◌, ◌≤◌, ◌≡◌, refl, sym, inl, inr, List, [], ◌++◌, append_assoc, arith, length, take, drop,
  length-take, length-drop, take-append-drop, Bool-cases, true, false, leb, leb→le, leb→gt, subst,
  add_size, add_size_exact, ok, append-nil,
}
use cpp_toy.Muduo.Buffer.{
  Buffer, max_vector, extra_size, Received, received, read_error, Sent, read_room, scatter, read_fd,
  write_fd,
}
use cpp_toy.Muduo.Buffer.View.{Holds, length_layout, readable_bytes_lem, writable_bytes_lem}
use cpp_toy.Muduo.Buffer.Space.{
  copy_from-content, written, copy_to-written, Holds-written, length-written,
}
use cpp_toy.Muduo.Buffer.Queue.{Leaves, append-Holds}

module _ {b : Buffer} {xs : List ℕ} (h : Holds b xs) where
  scatter_within :
      (ys : List ℕ) → leb (length ys) (length h.after) ≡ true → Leaves (scatter b ys) (xs ++ ys)
  unfolding scatter
  scatter_within ys less =
      let fits : length ys ≤ length h.after = leb→le _ _ less in
      rw (writable_bytes_lem h, less, copy_to-written h ys fits) (_, refl, Holds-written h ys fits)

  -- The buffer is filled to its end before `extra_buf` is appended.
  filled-Holds :
      (ys : List ℕ) (fits : length ys ≤ length h.after)
      → length ys ≡ length h.after
      → Holds
          (record b { buffer = written h ys fits; writer_index = length (written h ys fits) })
          (xs ++ ys)
  filled-Holds ys fits enough =
      let stop : length (written h ys fits) ≡ add_size b.writer_index (length ys) = omega (
        arith,
        length-written h ys fits,
        length_layout h,
        h.within,
        add_size_exact b.writer_index (length ys) (omega (arith, length_layout h, h.within)),
      ) in
      subst
        (λ (w : ℕ). Holds (record b { buffer = written h ys fits; writer_index = w }) (xs ++ ys))
        (sym stop) (Holds-written h ys fits)

  scatter_beyond :
      (ys : List ℕ)
      → leb (length ys) (length h.after) ≡ false
      → length b.buffer + length ys ≤ max_vector
      → Leaves (scatter b ys) (xs ++ ys)
  unfolding scatter
  scatter_beyond ys more fits =
      let m = length h.after in
      let front : length (take m ys) ≡ m = omega (arith, length-take m ys, leb→gt _ _ more) in
      let inside : length (take m ys) ≤ m = omega arith in
      let (b', e, h', low) =
        append-Holds (filled-Holds (take m ys) inside front) (drop m ys)
          (omega (arith, length-written h (take m ys) inside, length-drop m ys)) in
      rw (writable_bytes_lem h, more, copy_to-written h (take m ys) inside)
        (b', e, rw (append_assoc xs (take m ys) (drop m ys), take-append-drop m ys) at h')

  pub scatter-Holds :
      (ys : List ℕ) → length b.buffer + length ys ≤ max_vector → Leaves (scatter b ys) (xs ++ ys)
  scatter-Holds ys fits = elim (Bool-cases (leb (length ys) (length h.after))) [
    | inl less ↦ scatter_within ys less
    | inr more ↦ scatter_beyond ys more fits
  ]

-- The bytes that a call of `::readv` delivered.
abbrev pub delivered : Received → List ℕ
delivered (received bytes) = bytes
delivered (read_error errno) = []

-- What POSIX says of `::readv`: it scatters no more bytes than the vectors have room for.
abbrev pub RespectsRoom : (ℕ → Received) → Type 0
RespectsRoom readv = (room : ℕ) → length (delivered (readv room)) ≤ room

room_bound : {b : Buffer} {xs : List ℕ} → Holds b xs → read_room b ≤ length b.buffer + extra_size
unfolding read_room
room_bound {b} h = rw (writable_bytes_lem h) (ground (arith, length_layout h))

read_fd_cases :
    {b : Buffer} {xs : List ℕ} (readv : ℕ → Received) (r : Received)
    → readv (read_room b) ≡ r
    → Holds b xs
    → length b.buffer + length (delivered r) ≤ max_vector
    → (b' : Buffer) × (read_fd readv b ≡ ok (b', r))
      × Holds b' (xs ++ delivered r)
      × ((errno : ℕ) → r ≡ read_error errno → b' ≡ b)
unfolding read_fd
read_fd_cases {b} {xs} readv (received ys) e h fits =
    let (b', done, h') = scatter-Holds h ys fits in
    rw (e, read_fd) (b', rw done, h', λ errno c. absurd (cc))
read_fd_cases {b} {xs} readv (read_error errno) e h fits =
    rw (e, read_fd) (b, refl, rw (append-nil xs) h, λ errno c. refl)

-- `ReadFd` returns what `::readv` returned and puts every byte that it scattered behind the content,
-- in order, whether they fit the buffer or spill over into the stack buffer; on an error the
-- buffer is unchanged. The vector must be able to grow by what `::readv` may deliver.
pub read_fd-Holds :
    {b : Buffer} {xs : List ℕ} (readv : ℕ → Received)
    → RespectsRoom readv
    → Holds b xs
    → length b.buffer + (length b.buffer + extra_size) ≤ max_vector
    → (b' : Buffer) × (read_fd readv b ≡ ok (b', readv (read_room b)))
      × Holds b' (xs ++ delivered (readv (read_room b)))
      × ((errno : ℕ) → readv (read_room b) ≡ read_error errno → b' ≡ b)
read_fd-Holds {b} readv contract h fits =
    read_fd_cases readv (readv (read_room b)) refl h
      (omega (arith, contract (read_room b), room_bound h))

-- `WriteFd` offers the whole content to `::write`, and nothing else.
pub write_fd_lem :
    {b : Buffer} {xs : List ℕ} (write : List ℕ → Sent)
    → Holds b xs
    → write_fd write b ≡ ok (write xs)
unfolding write_fd
write_fd_lem write h = rw (readable_bytes_lem h, copy_from-content h)
