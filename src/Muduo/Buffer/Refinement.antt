-- ===== src/Muduo/Buffer/Refinement.antt =====
-- Any sequence of a client's calls on a buffer, against a queue of bytes.
use cpp_toy.Base.{
  ℕ, ◌+◌, ◌-◌, ◌≤◌, ◌<◌, ◌≡◌, sym, ◌∙◌, ap, inl, inr, List, [], ◌∷◌, ◌++◌, append_assoc, arith,
  length, take, drop, length-append, length-take, Bool-cases, false, leb, leb→le, lt→leb,
  if◌then◌else◌, Outcome, ok, fail, out_of_range, ◌>>=◌, Option, none, some, subst,
  take-append-drop,
}
use cpp_toy.Muduo.Buffer.{
  Buffer, max_vector, copy_from, retrieve, retrieve_as_string, retrieve_all_as_string, append,
}
use cpp_toy.Muduo.Buffer.View.{Holds, length_layout}
use cpp_toy.Muduo.Buffer.Space.{copy_from_lem}
use cpp_toy.Muduo.Buffer.Queue.{
  append-Holds, retrieve-Holds, retrieve_writer_le, retrieve_as_string_lem,
  retrieve_all_as_string_lem,
}

pub data Call : Type 0 where
  appends : List ℕ → Call
  retrieves : ℕ → Call
  takes : ℕ → Call
  takes_all : Call

-- The buffer's side: the texts that the calls returned, and the last state.
unfoldable pub run : Buffer → List Call → Outcome (List (List ℕ) × Buffer)
run b [] = ok ([], b)
run b (appends ys ∷ calls) = append b ys >>= λ b'. run b' calls
run b (retrieves n ∷ calls) = run (retrieve b n) calls
run b (takes n ∷ calls) =
    retrieve_as_string b n >>= λ (text, b'). run b' calls >>= λ (texts, b''). ok (text ∷ texts, b'')
run b (takes_all ∷ calls) = retrieve_all_as_string b >>= λ (text, b').
    run b' calls >>= λ (texts, b''). ok (text ∷ texts, b'')

abbrev pub with_text : List ℕ → Option (List (List ℕ) × List ℕ) → Option (List (List ℕ) × List ℕ)
with_text text none = none
with_text text (some (texts, ys)) = some (text ∷ texts, ys)

-- The queue's side. It has no answer where a client takes more bytes than there are.
unfoldable pub queue_run : List ℕ → List Call → Option (List (List ℕ) × List ℕ)
queue_run xs [] = some ([], xs)
queue_run xs (appends ys ∷ calls) = queue_run (xs ++ ys) calls
queue_run xs (retrieves n ∷ calls) = queue_run (drop n xs) calls
queue_run xs (takes n ∷ calls) =
    let rest = with_text (take n xs) (queue_run (drop n xs) calls) in
    if leb n (length xs) then rest else none
queue_run xs (takes_all ∷ calls) = with_text xs (queue_run [] calls)

with_text-eq-some :
    (text : List ℕ) (o : Option (List (List ℕ) × List ℕ)) {texts : List (List ℕ)} {ys : List ℕ}
    → with_text text o ≡ some (texts, ys)
    → (rest : List (List ℕ)) × (o ≡ some (rest, ys)) × (texts ≡ text ∷ rest)
with_text-eq-some text none e = cc
with_text-eq-some text (some (rest, zs)) e = (rest, ground arith, ground arith)

-- How many bytes the calls append.
unfoldable pub volume : List Call → ℕ
volume [] = 0
volume (appends ys ∷ calls) = length ys + volume calls
volume (retrieves n ∷ calls) = volume calls
volume (takes n ∷ calls) = volume calls
volume (takes_all ∷ calls) = volume calls

none-ne-some : {r : List (List ℕ) × List ℕ} → ¬ (none ≡ some r)
none-ne-some e = cc

copy_from-fails :
    (l : List ℕ) (i n : ℕ) → leb (i + n) (length l) ≡ false → copy_from l i n ≡ fail out_of_range
unfolding copy_from
copy_from-fails l i n e = rw e

abbrev pub Implements : Buffer → List Call → List (List ℕ) → List ℕ → Type 0
Implements b calls texts ys = (b' : Buffer) × (run b calls ≡ ok (texts, b')) × Holds b' ys

run-takes :
    (b : Buffer) (calls : List Call) {b' : Buffer} {text : List ℕ} {texts rest : List (List ℕ)}
    {ys : List ℕ} (n : ℕ)
    → retrieve_as_string b n ≡ ok (text, b')
    → texts ≡ text ∷ rest
    → Implements b' calls rest ys
    → Implements b (takes n ∷ calls) texts ys
unfolding run
run-takes b calls n e t (b'', done, h) = (b'', rw (e, done, t), h)

run-takes_all :
    (b : Buffer) (calls : List Call) {b' : Buffer} {text : List ℕ} {texts rest : List (List ℕ)}
    {ys : List ℕ}
    → retrieve_all_as_string b ≡ ok (text, b')
    → texts ≡ text ∷ rest
    → Implements b' calls rest ys
    → Implements b (takes_all ∷ calls) texts ys
unfolding run
run-takes_all b calls e t (b'', done, h) = (b'', rw (e, done, t), h)

-- Whatever a client does that the queue has an answer to, the buffer gives the same texts and ends
-- with the same bytes, as long as all that is appended fits the longest vector.
pub run-queue_run :
    (calls : List Call) {b : Buffer} {xs : List ℕ} {texts : List (List ℕ)} {ys : List ℕ}
    → Holds b xs
    → b.writer_index + volume calls ≤ max_vector
    → queue_run xs calls ≡ some (texts, ys)
    → Implements b calls texts ys
unfolding run queue_run volume
run-queue_run [] {b} h fits e = (b, ground arith, subst (Holds b) (ground arith) h)
run-queue_run (appends zs ∷ calls) {b} h fits e =
    let (b', done, h', low) = append-Holds h zs (omega arith) in
    let (b'', rest, h'') = run-queue_run calls h' (omega arith) e in (b'', rw done rest, h'')
run-queue_run (retrieves n ∷ calls) {b} h fits e =
    run-queue_run calls (retrieve-Holds h n) (omega (arith, retrieve_writer_le h n)) e
run-queue_run (takes n ∷ calls) {b} {xs} h fits e = elim (Bool-cases (leb n (length xs))) [
  | inl there ↦
      let (rest, e', t) = with_text-eq-some _ _ (rw there at e) in
      run-takes b calls n (retrieve_as_string_lem h n (leb→le _ _ there)) t
        (run-queue_run calls (retrieve-Holds h n) (omega (arith, retrieve_writer_le h n)) e')
  | inr missing ↦ absurd (none-ne-some (rw missing at e))
]
run-queue_run (takes_all ∷ calls) {b} {xs} h fits e =
    let (rest, e', t) = with_text-eq-some _ _ e in
    let (b', done, h', low) = retrieve_all_as_string_lem h in
    run-takes_all b calls done t (run-queue_run calls h' (omega arith) e')

-- A client that asks for more than there is gets the bytes behind the content too, as far as the
-- vector reaches; beyond the vector the call reads outside it.
pub retrieve_as_string_overreads :
    {b : Buffer} {xs : List ℕ} (h : Holds b xs) (n : ℕ)
    → length xs < n
    → (b.reader_index + n ≤ length b.buffer
        → retrieve_as_string b n ≡ ok (xs ++ take (n - length xs) h.after, retrieve b n))
      × (length b.buffer < b.reader_index + n → retrieve_as_string b n ≡ fail out_of_range)
unfolding retrieve_as_string
retrieve_as_string_overreads {b} {xs} h n more = (stale, λ beyond. outside (lt→leb _ _ beyond))
  where
    k : ℕ
    k = n - length xs

    stale :
        b.reader_index + n ≤ length b.buffer
        → retrieve_as_string b n ≡ ok (xs ++ take k h.after, retrieve b n)
    stale fits = rw (
        copy_from_lem b.buffer h.before (xs ++ take k h.after) (drop k h.after) b.reader_index n
          (h.layout
            ∙ ap (λ l. h.before ++ (xs ++ l)) (sym (take-append-drop k h.after))
            ∙ simp append_assoc)
          h.reader_at
          (omega
            (arith, length-append xs (take k h.after), length-take k h.after, length_layout h)))

    outside :
        leb (b.reader_index + n) (length b.buffer) ≡ false
        → retrieve_as_string b n ≡ fail out_of_range
    outside e = rw (copy_from-fails b.buffer b.reader_index n e)
