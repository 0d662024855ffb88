-- ===== src/Muduo/Buffer.antt =====
-- mymuduo/buffer.h and mymuduo/buffer.cpp: the byte buffer between a connection and its socket.
-- A `char` is a number; an index is a `size_t`, whose sums and differences wrap. A copy outside the
-- vector is a fault. `::readv` and `::write` are parameters of the calls that make them.
pub mod View
pub mod Space
pub mod Queue
pub mod Io
pub mod Refinement
mod Tests
use cpp_toy.Base.{
  ℕ, ◌+◌, ◌-◌, ◌^◌, List, ◌++◌, length, take, drop, replicate, ltb, leb, if◌then◌else◌, add_size,
  sub_size, Outcome, ok, fail, ◌>>=◌, out_of_range, length_error,
}

pub record Buffer : Type 0 where
  pub buffer : List ℕ
  pub reader_index : ℕ
  pub writer_index : ℕ

abbrev pub cheap_prepend : ℕ
cheap_prepend = 8

abbrev pub initial_size : ℕ
initial_size = 1024

-- `std::vector<char>::max_size()`
abbrev pub max_vector : ℕ
max_vector = 2 ^ 63 - 1

abbrev pub extra_size : ℕ
extra_size = 65536

-- `std::string(p + i, n)`, or the source range of `std::copy`
unfoldable pub copy_from : List ℕ → ℕ → ℕ → Outcome (List ℕ)
copy_from xs i n = if leb (i + n) (length xs) then ok (take n (drop i xs)) else fail out_of_range

-- `std::copy` of `ys` to index `i`
unfoldable pub copy_to : List ℕ → ℕ → List ℕ → Outcome (List ℕ)
copy_to xs i ys =
    if leb (i + length ys) (length xs)
    then ok (take i xs ++ (ys ++ drop (i + length ys) xs))
    else fail out_of_range

-- `std::vector<char>::resize`
unfoldable pub resize : List ℕ → ℕ → Outcome (List ℕ)
resize xs n =
    if leb n max_vector then ok (take n xs ++ replicate (n - length xs) 0) else fail length_error

-- The constructor.
unfoldable pub create : ℕ → Outcome Buffer
create size =
    let total = add_size cheap_prepend size in
    if leb total max_vector
    then ok (record {
      buffer = replicate total 0;
      reader_index = cheap_prepend;
      writer_index = cheap_prepend;
    })
    else fail length_error

unfoldable pub readable_bytes : Buffer → ℕ
readable_bytes b = sub_size b.writer_index b.reader_index

unfoldable pub writable_bytes : Buffer → ℕ
writable_bytes b = sub_size (length b.buffer) b.writer_index

unfoldable pub prependable_bytes : Buffer → ℕ
prependable_bytes b = b.reader_index

unfoldable pub retrieve_all : Buffer → Buffer
retrieve_all b = record b { reader_index = cheap_prepend; writer_index = cheap_prepend }

unfoldable pub retrieve : Buffer → ℕ → Buffer
unfolding retrieve_all
retrieve b len =
    if ltb len (readable_bytes b)
    then record b { reader_index = add_size b.reader_index len }
    else retrieve_all b

unfoldable pub retrieve_as_string : Buffer → ℕ → Outcome (List ℕ × Buffer)
retrieve_as_string b len = do ret ← copy_from b.buffer b.reader_index len; ok (ret, retrieve b len)

unfoldable pub retrieve_all_as_string : Buffer → Outcome (List ℕ × Buffer)
unfolding retrieve_as_string
retrieve_all_as_string b = retrieve_as_string b (readable_bytes b)

unfoldable pub make_space : Buffer → ℕ → Outcome Buffer
make_space b len =
    if leb len (add_size (sub_size (prependable_bytes b) cheap_prepend) (writable_bytes b))
    then (do
      let readable = readable_bytes b
      moved ← copy_from b.buffer b.reader_index readable
      buffer ← copy_to b.buffer cheap_prepend moved
      ok (record {
        buffer = buffer;
        reader_index = cheap_prepend;
        writer_index = add_size cheap_prepend readable;
      }))
    else (do
      buffer ← resize b.buffer (add_size b.writer_index len)
      ok (record b { buffer = buffer }))

unfoldable pub ensure_writable_bytes : Buffer → ℕ → Outcome Buffer
ensure_writable_bytes b len = if ltb (writable_bytes b) len then make_space b len else ok b

unfoldable pub append : Buffer → List ℕ → Outcome Buffer
append b bytes = do
  b ← ensure_writable_bytes b (length bytes)
  buffer ← copy_to b.buffer b.writer_index bytes
  ok (record b { buffer = buffer; writer_index = add_size b.writer_index (length bytes) })

-- What `::readv` gives: the bytes that it scattered, or `errno`.
pub data Received : Type 0 where
  received : List ℕ → Received
  read_error : ℕ → Received

-- What `::write` gives: how many bytes it took, or `errno`.
pub data Sent : Type 0 where
  wrote : ℕ → Sent
  write_error : ℕ → Sent

-- How much room `vec` offers to `::readv`.
unfoldable pub read_room : Buffer → ℕ
read_room b =
    let writable = writable_bytes b in
    if ltb writable extra_size then writable + extra_size else writable

-- The bytes fill the buffer first and then `extra_buf`, which is appended.
unfoldable pub scatter : Buffer → List ℕ → Outcome Buffer
scatter b bytes =
    let writable = writable_bytes b in
    if leb (length bytes) writable
    then (do
      buffer ← copy_to b.buffer b.writer_index bytes
      ok (record b { buffer = buffer; writer_index = add_size b.writer_index (length bytes) }))
    else (do
      buffer ← copy_to b.buffer b.writer_index (take writable bytes)
      append (record b { buffer = buffer; writer_index = length buffer }) (drop writable bytes))

-- `readv` is given the room; the result is the new buffer and what the call returned.
unfoldable pub read_fd : (readv : ℕ → Received) → Buffer → Outcome (Buffer × Received)
unfolding scatter
read_fd readv b = elim (readv (read_room b)) [
  | received bytes ↦ (do b ← scatter b bytes; ok (b, received bytes))
  | read_error errno ↦ ok (b, read_error errno)
]

unfoldable pub write_fd : (write : List ℕ → Sent) → Buffer → Outcome Sent
write_fd write b = do bytes ← copy_from b.buffer b.reader_index (readable_bytes b); ok (write bytes)
