-- ===== src/Muduo/Buffer/View.antt =====
-- What a buffer holds, and its well-formedness.
use cpp_toy.Base.{
  ℕ, ◌+◌, ◌-◌, ◌≤◌, ◌≡◌, sym, ◌∙◌, ap, List, ◌++◌, arith, length, take, drop, length-append,
  length-take, length-drop, take-append-drop, take-append_length, drop-append_length, drop-drop,
  sub_size_exact,
}
use cpp_toy.Muduo.Buffer.{Buffer, cheap_prepend, max_vector, readable_bytes, writable_bytes}

-- The indices are in order, and the vector is one that can exist.
pub record IsValid (b : Buffer) : Type 0 where
  pub prepend_kept : cheap_prepend ≤ b.reader_index
  pub reader_le : b.reader_index ≤ b.writer_index
  pub writer_le : b.writer_index ≤ length b.buffer
  pub within : length b.buffer ≤ max_vector

-- The bytes between the reader and the writer index.
abbrev pub content : Buffer → List ℕ
content b = take (b.writer_index - b.reader_index) (drop b.reader_index b.buffer)

-- The same, with the bytes around the content at hand.
pub record Holds (b : Buffer) (xs : List ℕ) : Type 0 where
  pub before : List ℕ
  pub after : List ℕ
  pub layout : b.buffer ≡ before ++ (xs ++ after)
  pub reader_at : b.reader_index ≡ length before
  pub writer_at : b.writer_index ≡ length before + length xs
  pub prepend : cheap_prepend ≤ length before
  pub within : length b.buffer ≤ max_vector

pub length_layout :
    {b : Buffer} {xs : List ℕ} (h : Holds b xs)
    → length b.buffer ≡ length h.before + length xs + length h.after
length_layout {b} {xs} h =
    omega
      (arith, ap length h.layout, length-append h.before (xs ++ h.after), length-append xs h.after)

pub Holds-IsValid : {b : Buffer} {xs : List ℕ} → Holds b xs → IsValid b
Holds-IsValid h = record {
  prepend_kept = omega arith;
  reader_le = omega arith;
  writer_le = omega (arith, length_layout h);
  within = h.within;
}

pub content-Holds : {b : Buffer} {xs : List ℕ} → Holds b xs → content b ≡ xs
content-Holds {b} {xs} h =
    ap (λ l. take (b.writer_index - b.reader_index) (drop b.reader_index l)) h.layout
    ∙ ap (take (b.writer_index - b.reader_index))
        (drop-append_length b.reader_index 0 h.before (xs ++ h.after) (omega arith))
    ∙ take-append_length (b.writer_index - b.reader_index) xs h.after (omega arith)

pub length-content : {b : Buffer} → IsValid b → length (content b) ≡ b.writer_index - b.reader_index
length-content {b} v = omega (
  arith,
  length-take (b.writer_index - b.reader_index) (drop b.reader_index b.buffer),
  length-drop b.reader_index b.buffer,
)

pub IsValid-Holds : {b : Buffer} → IsValid b → Holds b (content b)
IsValid-Holds {b} v = record {
  before = take b.reader_index b.buffer;
  after = drop b.writer_index b.buffer;
  layout =
      sym (take-append-drop b.reader_index b.buffer)
      ∙ ap (◌++◌ (take b.reader_index b.buffer)) (
          sym (take-append-drop (b.writer_index - b.reader_index) (drop b.reader_index b.buffer))
          ∙ ap (◌++◌ (content b)) (
              drop-drop (b.writer_index - b.reader_index) b.reader_index b.writer_index b.buffer
                (omega arith)));
  reader_at = omega (arith, length-take b.reader_index b.buffer);
  writer_at = omega (arith, length-take b.reader_index b.buffer, length-content v);
  prepend = omega (arith, length-take b.reader_index b.buffer);
  within = v.within;
}

module _ {b : Buffer} {xs : List ℕ} (h : Holds b xs) where
  pub readable_bytes_lem : readable_bytes b ≡ length xs
  unfolding readable_bytes
  readable_bytes_lem = omega (
    arith,
    length_layout h,
    sub_size_exact b.writer_index b.reader_index (omega arith) (omega (arith, length_layout h)),
  )

  pub writable_bytes_lem : writable_bytes b ≡ length h.after
  unfolding writable_bytes
  writable_bytes_lem = omega (
    arith,
    length_layout h,
    sub_size_exact (length b.buffer) b.writer_index (omega (arith, length_layout h)) (omega arith),
  )
