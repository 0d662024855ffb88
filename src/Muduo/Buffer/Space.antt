-- ===== src/Muduo/Buffer/Space.antt =====
-- The room at the end: copies into the vector, `MakeSpace` and `EnsureWritableBytes`.
use cpp_toy.Base.{
  ℕ, zero, ◌+◌, ◌-◌, ◌^◌, ◌≤◌, ◌<◌, ◌≡◌, refl, sym, ◌∙◌, ap, inl, inr, List, ◌++◌, append_assoc,
  arith, length, take, drop, replicate, length-append, length-take, length-drop, length-replicate,
  take-append_length, drop-append_length, take_all, Bool-cases, ltb, leb, leb→le, le→leb, lt→leb,
  add_size, sub_size, add_size_exact, sub_size_exact, Outcome, ok,
}
use cpp_toy.Muduo.Buffer.{
  Buffer, cheap_prepend, max_vector, copy_from, copy_to, resize, writable_bytes, prependable_bytes,
  make_space, ensure_writable_bytes,
}
use cpp_toy.Muduo.Buffer.View.{Holds, length_layout, readable_bytes_lem, writable_bytes_lem}

pub copy_from_lem :
    (l before xs after : List ℕ) (i n : ℕ)
    → l ≡ before ++ (xs ++ after)
    → i ≡ length before
    → n ≡ length xs
    → copy_from l i n ≡ ok xs
unfolding copy_from
copy_from_lem l before xs after i n e p q =
    let fits : i + n ≤ length l =
      omega (arith, ap length e, length-append before (xs ++ after), length-append xs after) in
    rw (le→leb _ _ fits) (
      ap ok (
        ap (λ m. take n (drop i m)) e
        ∙ ap (take n) (drop-append_length i 0 before (xs ++ after) (omega arith))
        ∙ take-append_length n xs after q))

pub copy_from-content :
    {b : Buffer} {xs : List ℕ} → Holds b xs → copy_from b.buffer b.reader_index (length xs) ≡ ok xs
copy_from-content {b} {xs} h =
    copy_from_lem b.buffer h.before xs h.after b.reader_index (length xs) h.layout h.reader_at refl

pub copy_to_lem :
    (l : List ℕ) (i : ℕ) (ys : List ℕ)
    → i + length ys ≤ length l
    → copy_to l i ys ≡ ok (take i l ++ (ys ++ drop (i + length ys) l))
unfolding copy_to
copy_to_lem l i ys h = rw (le→leb _ _ h)

-- A copy right behind the content that leaves the rest of the vector alone.
module _ {b : Buffer} {xs : List ℕ} (h : Holds b xs) (ys : List ℕ)
    (fits : length ys ≤ length h.after) where
  abbrev pub written : List ℕ
  written = take b.writer_index b.buffer ++ (ys ++ drop (b.writer_index + length ys) b.buffer)

  pub copy_to-written : copy_to b.buffer b.writer_index ys ≡ ok written
  copy_to-written = copy_to_lem b.buffer b.writer_index ys (omega (arith, length_layout h))

  take_writer : take b.writer_index b.buffer ≡ h.before ++ xs
  take_writer =
      ap (take b.writer_index) (h.layout ∙ sym (append_assoc h.before xs h.after))
      ∙ take-append_length b.writer_index (h.before ++ xs) h.after
          (omega (arith, length-append h.before xs))

  drop_writer : drop (b.writer_index + length ys) b.buffer ≡ drop (length ys) h.after
  drop_writer =
      ap (drop (b.writer_index + length ys)) (h.layout ∙ sym (append_assoc h.before xs h.after))
      ∙ drop-append_length (b.writer_index + length ys) (length ys) (h.before ++ xs) h.after
          (omega (arith, length-append h.before xs))

  pub written_layout : written ≡ h.before ++ ((xs ++ ys) ++ drop (length ys) h.after)
  written_layout = rw (take_writer, drop_writer) (simp append_assoc)

  pub length-written : length written ≡ length b.buffer
  length-written = omega (
    arith,
    length_layout h,
    ap length written_layout,
    length-append h.before ((xs ++ ys) ++ drop (length ys) h.after),
    length-append (xs ++ ys) (drop (length ys) h.after),
    length-append xs ys,
    length-drop (length ys) h.after,
  )

  pub Holds-written :
      Holds
        (record b { buffer = written; writer_index = add_size b.writer_index (length ys) })
        (xs ++ ys)
  Holds-written = record {
    before = h.before;
    after = drop (length ys) h.after;
    layout = written_layout;
    reader_at = h.reader_at;
    writer_at = omega (
      arith,
      length-append xs ys,
      length_layout h,
      h.within,
      add_size_exact b.writer_index (length ys) (omega (arith, length_layout h, h.within)),
    );
    prepend = h.prepend;
    within = omega (arith, length-written, h.within);
  }

-- What `MakeSpace` and `EnsureWritableBytes` promise: the content stays, `len` bytes fit, and the
-- write position does not grow.
abbrev pub Ensured : Buffer → List ℕ → ℕ → Outcome Buffer → Type 0
Ensured b xs len r =
    (b' : Buffer) × (r ≡ ok b')
    × (h : Holds b' xs) × (len ≤ length h.after)
    × (b'.writer_index ≤ b.writer_index)

module _ {b : Buffer} {xs : List ℕ} (h : Holds b xs) (len : ℕ) where
  spare :
      add_size (sub_size (prependable_bytes b) cheap_prepend) (writable_bytes b)
      ≡ b.reader_index - cheap_prepend + length h.after
  unfolding prependable_bytes
  spare =
      let below : b.reader_index < 2 ^ 63 = omega (arith, length_layout h, h.within) in
      let back : sub_size b.reader_index cheap_prepend ≡ b.reader_index - cheap_prepend =
        sub_size_exact b.reader_index cheap_prepend (omega (arith, h.prepend)) (omega arith) in
      rw (back, writable_bytes_lem h)
        (add_size_exact _ _ (omega (arith, length_layout h, h.within)))

  moved_to_front :
      length xs + len + cheap_prepend ≤ length b.buffer
      → Holds
          (record {
            buffer =
                take cheap_prepend b.buffer ++ (xs ++ drop (cheap_prepend + length xs) b.buffer);
            reader_index = cheap_prepend;
            writer_index = add_size cheap_prepend (length xs);
          })
          xs
  moved_to_front fits = record {
    before = take cheap_prepend b.buffer;
    after = drop (cheap_prepend + length xs) b.buffer;
    layout = refl;
    reader_at = omega (arith, length-take cheap_prepend b.buffer);
    writer_at = omega (
      arith,
      length-take cheap_prepend b.buffer,
      add_size_exact cheap_prepend (length xs) (omega (arith, h.within)),
    );
    prepend = omega (arith, length-take cheap_prepend b.buffer);
    within = omega (
      arith,
      h.within,
      length-append (take cheap_prepend b.buffer) (xs ++ drop (cheap_prepend + length xs) b.buffer),
      length-append xs (drop (cheap_prepend + length xs) b.buffer),
      length-take cheap_prepend b.buffer,
      length-drop (cheap_prepend + length xs) b.buffer,
    );
  }

  make_space_moves :
      len ≤ b.reader_index - cheap_prepend + length h.after → Ensured b xs len (make_space b len)
  unfolding make_space moved_to_front
  make_space_moves room =
      let fits : length xs + len + cheap_prepend ≤ length b.buffer =
        omega (arith, length_layout h, h.prepend, h.reader_at) in
      rw
        (
          spare,
          le→leb _ _ room,
          readable_bytes_lem h,
          copy_from_lem b.buffer h.before xs h.after b.reader_index (length xs) h.layout h.reader_at
              refl,
          copy_to_lem b.buffer cheap_prepend xs (omega arith),
        )
        (
          _,
          refl,
          moved_to_front fits,
          omega (arith, length-drop (cheap_prepend + length xs) b.buffer),
          omega (
            arith,
            h.prepend,
            add_size_exact cheap_prepend (length xs) (omega (arith, h.within)),
          ),
        )

  make_space_grows :
      b.reader_index - cheap_prepend + length h.after < len
      → b.writer_index + len ≤ max_vector
      → Ensured b xs len (make_space b len)
  unfolding make_space resize
  make_space_grows lack fits =
      let total : add_size b.writer_index len ≡ b.writer_index + len =
        add_size_exact _ _ (omega arith) in
      let more = b.writer_index + len - length b.buffer in
      let whole : take (b.writer_index + len) b.buffer ≡ b.buffer =
        take_all _ b.buffer (omega (arith, length_layout h)) in
      rw (spare, lt→leb _ _ lack, total, le→leb _ _ fits, whole)
        (
          _,
          refl,
          record {
            before = h.before;
            after = h.after ++ replicate more 0;
            layout = ap (λ l. l ++ replicate more 0) h.layout ∙ simp append_assoc;
            reader_at = h.reader_at;
            writer_at = h.writer_at;
            prepend = h.prepend;
            within = omega (
              arith,
              length-append b.buffer (replicate more 0),
              length-replicate more (zero),
              length_layout h,
            );
          },
          omega (
            arith,
            length-append h.after (replicate more 0),
            length-replicate more (zero),
            length_layout h,
          ),
          omega arith,
        )

  pub make_space_lem : b.writer_index + len ≤ max_vector → Ensured b xs len (make_space b len)
  make_space_lem fits =
      elim (Bool-cases (leb len (b.reader_index - cheap_prepend + length h.after))) [
        | inl room ↦ make_space_moves (leb→le _ _ room)
        | inr lack ↦ make_space_grows (ground arith) fits
      ]

  -- `EnsureWritableBytes` keeps the content and makes room, as long as the vector can be that long.
  pub ensure_writable_bytes_lem :
      b.writer_index + len ≤ max_vector → Ensured b xs len (ensure_writable_bytes b len)
  unfolding ensure_writable_bytes
  ensure_writable_bytes_lem fits = elim (Bool-cases (ltb (length h.after) len)) [
    | inl lack ↦ rw (writable_bytes_lem h, lack) (make_space_lem fits)
    | inr room ↦ rw (writable_bytes_lem h, room) (b, refl, h, ground arith, omega arith)
  ]
