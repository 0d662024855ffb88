-- ===== src/Muduo/Buffer/Queue.antt =====
-- The buffer as a queue of bytes.
use cpp_toy.Base.{
  ℕ, ◌+◌, ◌≤◌, ◌<◌, ◌≡◌, refl, sym, ◌∙◌, ap, inl, inr, List, [], ◌++◌, append_assoc, arith, length,
  take, drop, replicate, length-append, length-take, length-drop, length-replicate,
  take-append-drop, take_all, drop_all, Bool-cases, ltb, le→leb, ltb→lt, add_size, add_size_exact,
  Outcome, ok,
}
use cpp_toy.Muduo.Buffer.{
  Buffer, cheap_prepend, max_vector, create, retrieve_all, retrieve, retrieve_as_string,
  retrieve_all_as_string, append,
}
use cpp_toy.Muduo.Buffer.View.{Holds, length_layout, readable_bytes_lem}
use cpp_toy.Muduo.Buffer.Space.{
  copy_from_lem, copy_to-written, Holds-written, ensure_writable_bytes_lem,
}

-- The call succeeds, and the buffer that it leaves holds `xs`.
abbrev pub Leaves : Outcome Buffer → List ℕ → Type 0
Leaves r xs = (b : Buffer) × (r ≡ ok b) × Holds b xs

-- A vector with both indices at the prepended bytes holds nothing.
Holds-nil :
    (l : List ℕ)
    → cheap_prepend ≤ length l
    → length l ≤ max_vector
    → Holds (record { buffer = l; reader_index = cheap_prepend; writer_index = cheap_prepend }) []
Holds-nil l enough within =
    let front : length (take cheap_prepend l) ≡ cheap_prepend =
      omega (arith, length-take cheap_prepend l) in
    record {
      before = take cheap_prepend l;
      after = drop cheap_prepend l;
      layout = sym (take-append-drop cheap_prepend l);
      reader_at = omega arith;
      writer_at = omega arith;
      prepend = omega arith;
      within = within;
    }

-- The constructor makes an empty buffer.
pub create-Holds : (size : ℕ) → size + cheap_prepend ≤ max_vector → Leaves (create size) []
unfolding create
create-Holds size fits =
    let total : add_size cheap_prepend size ≡ cheap_prepend + size =
      add_size_exact _ _ (omega arith) in
    let filled : length (replicate {A = ℕ} (cheap_prepend + size) 0) ≡ cheap_prepend + size =
      length-replicate _ _ in
    rw (total, le→leb (cheap_prepend + size) max_vector (omega arith))
      (_, refl, Holds-nil _ (omega arith) (omega arith))

module _ {b : Buffer} {xs : List ℕ} (h : Holds b xs) where
  -- `Append` puts the bytes behind the content; the write position grows by them at most.
  pub append-Holds :
      (ys : List ℕ)
      → b.writer_index + length ys ≤ max_vector
      → (b' : Buffer) × (append b ys ≡ ok b')
        × Holds b' (xs ++ ys)
        × (b'.writer_index ≤ b.writer_index + length ys)
  unfolding append
  append-Holds ys fits =
      let (b', e, h', room, low) = ensure_writable_bytes_lem h (length ys) fits in
      rw (e, copy_to-written h' ys room)
        (
          _,
          refl,
          Holds-written h' ys room,
          omega (arith, h'.within, add_size_exact b'.writer_index (length ys) (omega arith)),
        )

  pub retrieve_all-Holds : Holds (retrieve_all b) []
  unfolding retrieve_all
  retrieve_all-Holds = Holds-nil b.buffer (omega (arith, length_layout h, h.prepend)) h.within

  advance-Holds :
      (n : ℕ)
      → n < length xs
      → Holds (record b { reader_index = add_size b.reader_index n }) (drop n xs)
  advance-Holds n less = record {
    before = h.before ++ take n xs;
    after = h.after;
    layout =
        h.layout
        ∙ ap (λ l. h.before ++ (l ++ h.after)) (sym (take-append-drop n xs))
        ∙ simp append_assoc;
    reader_at = omega (
      arith,
      length-append h.before (take n xs),
      length-take n xs,
      h.within,
      length_layout h,
      add_size_exact b.reader_index n (omega (arith, h.within, length_layout h)),
    );
    writer_at =
        omega (arith, length-append h.before (take n xs), length-take n xs, length-drop n xs);
    prepend = omega (arith, length-append h.before (take n xs), h.prepend);
    within = h.within;
  }

  -- Taking more than there is empties the buffer.
  pub retrieve-Holds : (n : ℕ) → Holds (retrieve b n) (drop n xs)
  unfolding retrieve
  retrieve-Holds n = elim (Bool-cases (ltb n (length xs))) [
    | inl less ↦ rw (readable_bytes_lem h, less) (advance-Holds n (ltb→lt _ _ less))
    | inr more ↦ rw (readable_bytes_lem h, more, drop_all n xs (ground arith)) retrieve_all-Holds
  ]

  pub retrieve_writer_le : (n : ℕ) → (retrieve b n).writer_index ≤ b.writer_index
  unfolding retrieve retrieve_all
  retrieve_writer_le n = ground (arith, h.prepend)

  pub retrieve_as_string_lem :
      (n : ℕ) → n ≤ length xs → retrieve_as_string b n ≡ ok (take n xs, retrieve b n)
  unfolding retrieve_as_string
  retrieve_as_string_lem n less = rw (
      copy_from_lem b.buffer h.before (take n xs) (drop n xs ++ h.after) b.reader_index n
        (h.layout
          ∙ ap (λ l. h.before ++ (l ++ h.after)) (sym (take-append-drop n xs))
          ∙ simp append_assoc)
        h.reader_at (omega (arith, length-take n xs)))

  pub retrieve_all_as_string_lem :
      (b' : Buffer) × (retrieve_all_as_string b ≡ ok (xs, b'))
      × Holds b' []
      × (b'.writer_index ≤ b.writer_index)
  unfolding retrieve_all_as_string
  retrieve_all_as_string_lem = (
    retrieve b (length xs),
    rw (
      readable_bytes_lem h,
      retrieve_as_string_lem (length xs) (omega arith),
      take_all (length xs) xs (omega arith),
    ),
    rw (← drop_all (length xs) xs (omega arith)) (retrieve-Holds (length xs)),
    retrieve_writer_le (length xs),
  )
