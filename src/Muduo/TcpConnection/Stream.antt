-- ===== src/Muduo/TcpConnection/Stream.antt =====
-- The outgoing bytes: what the kernel took, and what waits in the output buffer.
use cpp_toy.Base.{
  ℕ, ◌+◌, ◌-◌, ◌≤◌, ◌<◌, ◌≡◌, ◌≢◌, refl, sym, ◌∙◌, ap, ◌⊎◌, inl, inr, List, [], ◌++◌, append_assoc,
  append-nil, arith, length, take, drop, length-drop, take-append-drop, take_all, nil_of_length,
  true, false, not, ◌&&◌, ◌==◌, ltb, Bool-cases, size_mod, sub_size_exact, Outcome, ok,
}
use cpp_toy.Muduo.Buffer.{max_vector, Sent, wrote, write_error, readable_bytes, retrieve}
use cpp_toy.Muduo.Buffer.View.{Holds, readable_bytes_lem}
use cpp_toy.Muduo.Buffer.Queue.{append-Holds, retrieve-Holds}
use cpp_toy.Muduo.Buffer.Space.{copy_from-content}
use cpp_toy.Muduo.Buffer.Io.{write_fd_lem}
use cpp_toy.Muduo.Channel.{is_write_event}
use cpp_toy.Muduo.TcpConnection.{
  State, disconnected, Conn, Attempt, is_disconnected, write_directly, attempt, keep_rest,
  send_in_loop, wrote_out, handle_write, shutdown_in_loop, emit, logs_error,
}

-- What POSIX says of `::write`: it takes a part of what it is offered.
abbrev pub TakesPart : (List ℕ → Sent) → Type 0
TakesPart write = (bytes : List ℕ) (n : ℕ) → write bytes ≡ wrote n → n ≤ length bytes

-- The direct write took a prefix, and only where nothing waited before it; no fault is ever seen.
record Attempted (c : Conn) (xs bytes : List ℕ) (a : Attempt) : Type 0 where
  no_fault : a.fault_error ≡ false
  prefix : a.nwrote ≤ length bytes
  rest : a.remaing ≡ length bytes - a.nwrote
  on_wire : a.conn.wire ≡ c.wire ++ take a.nwrote bytes
  in_order : (a.nwrote ≡ 0) ⊎ (xs ≡ [])
  same_output : a.conn.output_buffer ≡ c.output_buffer
  same_channel : a.conn.channel ≡ c.channel
  same_state : a.conn.state ≡ c.state

module _ (write : List ℕ → Sent) (part : TakesPart write) (bytes : List ℕ)
    (short : length bytes < size_mod) (c : Conn) {xs : List ℕ} (h : Holds c.output_buffer xs) where
  write_directly-Attempted :
      (r : Sent) → write bytes ≡ r → xs ≡ [] → Attempted c xs bytes (write_directly write bytes c)
  unfolding write_directly
  write_directly-Attempted (wrote n) q empty =
      let rest = sub_size_exact (length bytes) n (part bytes n q) short in
      rw (q, write_directly)
        (record {
          no_fault = refl;
          prefix = part bytes n q;
          rest = rest;
          on_wire = ground arith;
          in_order = inr empty;
          same_output = ground arith;
          same_channel = ground arith;
          same_state = ground arith;
        })
  write_directly-Attempted (write_error errno) q empty =
      rw (q, write_directly)
        (record {
          no_fault = ground arith;
          prefix = ground arith;
          rest = ground arith;
          on_wire = ground (arith, append-nil c.wire);
          in_order = inr empty;
          same_output = ground arith;
          same_channel = ground arith;
          same_state = ground arith;
        })

  untouched :
      Attempted c xs bytes
        (record { conn = c; nwrote = 0; remaing = length bytes; fault_error = false })
  untouched = record {
    no_fault = refl;
    prefix = omega arith;
    rest = omega arith;
    on_wire = sym (append-nil c.wire);
    in_order = inl refl;
    same_output = refl;
    same_channel = refl;
    same_state = refl;
  }

  attempt-Attempted : Attempted c xs bytes (attempt write bytes c)
  unfolding attempt
  attempt-Attempted =
      elim (Bool-cases (not (is_write_event c.channel) && readable_bytes c.output_buffer == 0)) [
        | inl first ↦ rw first (
            write_directly-Attempted (write bytes) refl
              (nil_of_length xs (ground (arith, readable_bytes_lem h))))
        | inr later ↦ rw later untouched
      ]

-- The call returns, and leaves `ys` waiting such that wire and buffer together grew by `bytes`.
abbrev pub Continues : Conn → List ℕ → List ℕ → Outcome Conn → Type 0
Continues c xs bytes r =
    (c' : Conn) × (r ≡ ok c')
    × (ys : List ℕ) × Holds c'.output_buffer ys
    × (c'.wire ++ ys ≡ c.wire ++ (xs ++ bytes))
    × (c'.state ≡ c.state)

-- A prefix on the wire and the rest behind `xs` is the whole behind `xs`, if the prefix or `xs` is
-- empty.
rejoin :
    (w xs bytes : List ℕ) (n : ℕ)
    → (n ≡ 0) ⊎ (xs ≡ [])
    → (w ++ take n bytes) ++ (xs ++ drop n bytes) ≡ w ++ (xs ++ bytes)
rejoin w xs bytes n (inl e) = rw e (simp append-nil)
rejoin w xs bytes n (inr e) =
    rw e (append_assoc w (take n bytes) (drop n bytes) ∙ ap (◌++◌ w) (take-append-drop n bytes))

module _ {c : Conn} {xs bytes : List ℕ} (h : Holds c.output_buffer xs) (a : Attempt)
    (t : Attempted c xs bytes a) where
  all_gone : ltb 0 a.remaing ≡ false → Continues c xs bytes (keep_rest bytes a)
  unfolding keep_rest
  all_gone e =
      let done : drop a.nwrote bytes ≡ [] =
        nil_of_length _ (ground (arith, length-drop a.nwrote bytes, t.rest)) in
      rw (t.no_fault, e)
        (
          a.conn,
          refl,
          xs,
          rw t.same_output h,
          rw t.on_wire (
              ap (λ l. (c.wire ++ take a.nwrote bytes) ++ l)
                (sym (append-nil xs) ∙ ap (◌++◌ xs) (sym done))
              ∙ rejoin c.wire xs bytes a.nwrote t.in_order),
          t.same_state,
        )

  some_left :
      ltb 0 a.remaing ≡ true
      → c.output_buffer.writer_index + length bytes ≤ max_vector
      → Continues c xs bytes (keep_rest bytes a)
  unfolding keep_rest
  some_left e fits =
      let tail : take a.remaing (drop a.nwrote bytes) ≡ drop a.nwrote bytes =
        take_all _ _ (omega (arith, length-drop a.nwrote bytes, t.rest)) in
      let (b, done, h', low) =
        append-Holds h (drop a.nwrote bytes) (omega (arith, length-drop a.nwrote bytes)) in
      let whole : a.conn.wire ++ (xs ++ drop a.nwrote bytes) ≡ c.wire ++ (xs ++ bytes) =
        rw t.on_wire (rejoin c.wire xs bytes a.nwrote t.in_order) in
      rw (t.no_fault, e, tail, t.same_output, done)
        (elim (Bool-cases (is_write_event a.conn.channel)) [
          | inl w ↦
              rw w
                (_, refl, xs ++ drop a.nwrote bytes, h', ground arith, ground (arith, t.same_state))
          | inr w ↦
              rw w
                (_, refl, xs ++ drop a.nwrote bytes, h', ground arith, ground (arith, t.same_state))
        ])

  keep_rest-Continues :
      c.output_buffer.writer_index + length bytes ≤ max_vector
      → Continues c xs bytes (keep_rest bytes a)
  keep_rest-Continues fits = elim (Bool-cases (ltb 0 a.remaing)) [
    | inl e ↦ some_left e fits
    | inr e ↦ all_gone e
  ]

-- `SendInLoop` on a connection that is not disconnected succeeds and loses, repeats and reorders
-- nothing: what the kernel has taken followed by what waits in the output buffer grows by exactly
-- the bytes sent, whatever `::write` does. On a disconnected one it logs and changes nothing else.
pub send_in_loop-Continues :
    (c : Conn) {xs : List ℕ} (write : List ℕ → Sent) (bytes : List ℕ)
    → TakesPart write
    → Holds c.output_buffer xs
    → c.output_buffer.writer_index + length bytes ≤ max_vector
    → (c.state ≢ disconnected → Continues c xs bytes (send_in_loop write bytes c))
      × (c.state ≡ disconnected → send_in_loop write bytes c ≡ ok (emit logs_error c))
unfolding send_in_loop
send_in_loop-Continues c {xs} write bytes part h fits = (
  λ up. rw (up_test c.state up) (
      keep_rest-Continues h (attempt write bytes c)
        (attempt-Attempted write part bytes (omega arith) c h) fits),
  λ down. ground arith,
)
  where
    up_test : (s : State) → s ≢ disconnected → is_disconnected s ≡ false
    up_test disconnected up = absurd (up refl)
    up_test _ up = refl

wrote_out_fields :
    (offered : List ℕ) (n : ℕ) (c : Conn)
    → let c' = wrote_out offered n c in
      (c'.output_buffer ≡ retrieve c.output_buffer n)
      × (c'.wire ≡ c.wire ++ take n offered)
      × (c'.state ≡ c.state)
unfolding wrote_out shutdown_in_loop
wrote_out_fields offered n c = ground arith

wrote_out-Continues :
    (c : Conn) {xs : List ℕ} (n : ℕ)
    → Holds c.output_buffer xs
    → Continues c xs [] (ok (wrote_out xs n c))
wrote_out-Continues c {xs} n h =
    let (out, wire, state) = wrote_out_fields xs n c in
    (
      wrote_out xs n c,
      refl,
      drop n xs,
      rw out (retrieve-Holds h n),
      rw wire (
          append_assoc c.wire (take n xs) (drop n xs)
          ∙ ap (◌++◌ c.wire) (take-append-drop n xs ∙ sym (append-nil xs))),
      state,
    )

idle-Continues :
    (c : Conn) {xs : List ℕ} → Holds c.output_buffer xs → Continues c xs [] (ok (emit logs_error c))
idle-Continues c {xs} h = (emit logs_error c, refl, xs, h, rw (append-nil xs) refl, refl)

module _ (c : Conn) {xs : List ℕ} (write : List ℕ → Sent) (h : Holds c.output_buffer xs) where
  handle_write-on :
      (r : Sent)
      → write xs ≡ r
      → is_write_event c.channel ≡ true
      → Continues c xs [] (handle_write write c)
  unfolding handle_write
  handle_write-on (write_error errno) q w =
      rw (w, readable_bytes_lem h, copy_from-content h, write_fd_lem write h, q)
        (idle-Continues c h)
  handle_write-on (wrote n) q w = elim (Bool-cases (ltb 0 n)) [
    | inl p ↦
        rw (w, readable_bytes_lem h, copy_from-content h, write_fd_lem write h, q, p)
          (wrote_out-Continues c n h)
    | inr p ↦
        rw (w, readable_bytes_lem h, copy_from-content h, write_fd_lem write h, q, p)
          (idle-Continues c h)
  ]

  -- `HandleWrite` moves a prefix of what waits to the wire, whatever `::write` does, and the stream
  -- stays what it was.
  pub handle_write-Continues : Continues c xs [] (handle_write write c)
  unfolding handle_write
  handle_write-Continues = elim (Bool-cases (is_write_event c.channel)) [
    | inl w ↦ handle_write-on (write xs) refl w
    | inr w ↦ rw w (idle-Continues c h)
  ]
