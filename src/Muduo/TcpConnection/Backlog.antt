-- ===== src/Muduo/TcpConnection/Backlog.antt =====
-- What becomes of bytes that the kernel did not take at once, and of the high-water mark.
use cpp_toy.Base.{
  ℕ, ◌+◌, ◌-◌, ◌<◌, ◌≤◌, ◌≡◌, refl, sym, ◌∙◌, ap, inl, inr, List, [], ◌∷◌, ◌++◌, append-nil,
  append_assoc, arith, length, take, drop, length-drop, take_all, Bool, true, false, ◌&&◌, ltb, leb,
  if◌then◌else◌, lt→ltb, Bool-cases, size_mod, add_size, sub_size_exact, add_size_exact, ok,
}
use cpp_toy.Muduo.Buffer.{Buffer, max_vector, Sent, wrote, readable_bytes}
use cpp_toy.Muduo.Buffer.View.{Holds, readable_bytes_lem, length_layout}
use cpp_toy.Muduo.Buffer.Queue.{append-Holds}
use cpp_toy.Muduo.Channel.{Channel, set_writing, set_reading, tie, is_write_event}
use cpp_toy.Muduo.Channel.Events.{Asks, nothing, reading, both, set_writing-Asks}
use cpp_toy.Muduo.TcpConnection.{
  connected, disconnecting, Conn, Effect, updates, queues_high_water, shuts_write, logs_error, emit,
  emit_if, update, is_disconnected, connect_established, shutdown_in_loop, shutdown, write_directly,
  attempt, keep_rest, send_in_loop, handle_write, calls_connection,
}

-- A fresh connection asks for reading, and for nothing else.
pub connect_established_reads :
    (c : Conn)
    → Asks c.channel nothing
    → Asks (connect_established c).channel reading
      × ((connect_established c).state ≡ connected)
      × ((connect_established c).effects ≡ c.effects ++ (updates 3 ∷ calls_connection ∷ []))
unfolding connect_established tie set_reading
connect_established_reads c asks = rw asks (refl, refl, simp append_assoc)

not_writing : (c : Channel) → Asks c both → is_write_event c ≡ false
unfolding is_write_event
not_writing c asks = rw asks

not_writing_reading : (c : Channel) → Asks c reading → is_write_event c ≡ false
unfolding is_write_event
not_writing_reading c asks = rw asks

-- While a channel asks for both kinds of event, `HandleWrite` sends nothing: it takes the channel
-- for one that is not waiting to write.
pub handle_write-both :
    (c : Conn) (write : List ℕ → Sent)
    → Asks c.channel both
    → handle_write write c ≡ ok (emit logs_error c)
unfolding handle_write
handle_write-both c write asks = rw (not_writing c.channel asks)

-- The same test makes `Shutdown` close the sending side over bytes that still wait.
pub shutdown-both :
    (c : Conn)
    → Asks c.channel both
    → c.state ≡ connected
    → shutdown true c.state c ≡ emit shuts_write (record c { state = disconnecting })
unfolding shutdown shutdown_in_loop
shutdown-both c asks up = rw (up, not_writing c.channel asks)

-- The connection `c'` still holds all of `ys`, and no write event will ever move them.
pub record IsStuck (c' : Conn) (ys : List ℕ) : Type 0 where
  pub waiting : Holds c'.output_buffer ys
  pub asks_both : Asks c'.channel both
  pub writes_nothing : (write : List ℕ → Sent) → handle_write write c' ≡ ok (emit logs_error c')

emit_if-channel : (b : Bool) (x : Effect) (c : Conn) → (emit_if b x c).channel ≡ c.channel
emit_if-channel true x c = refl
emit_if-channel false x c = refl

emit_if-output :
    (b : Bool) (x : Effect) (c : Conn) → (emit_if b x c).output_buffer ≡ c.output_buffer
emit_if-output true x c = refl
emit_if-output false x c = refl

keep_rest-IsStuck :
    (c : Conn) {xs : List ℕ} (bytes : List ℕ) (n : ℕ)
    → Asks c.channel reading
    → Holds c.output_buffer xs
    → c.output_buffer.writer_index + length bytes ≤ max_vector
    → n < length bytes
    → (c' : Conn) × (keep_rest bytes
          (record { conn = c; nwrote = n; remaing = length bytes - n; fault_error = false })
        ≡ ok c')
      × IsStuck c' (xs ++ drop n bytes)
unfolding keep_rest
keep_rest-IsStuck c {xs} bytes n asks h fits part =
    let more : ltb 0 (length bytes - n) ≡ true = lt→ltb _ _ (omega arith) in
    let tail : take (length bytes - n) (drop n bytes) ≡ drop n bytes =
      take_all _ _ (omega (arith, length-drop n bytes)) in
    let (b, done, h', low) = append-Holds h (drop n bytes) (omega (arith, length-drop n bytes)) in
    rw (more, tail, done, not_writing_reading c.channel asks) (_, refl, stuck b h')
  where
    total : ℕ
    total = add_size (readable_bytes c.output_buffer) (length bytes - n)

    over : Bool
    over =
        leb c.high_water_mark total
        && ltb (readable_bytes c.output_buffer) c.high_water_mark
        && c.has_high_water

    stuck :
        (b : Buffer)
        → Holds b (xs ++ drop n bytes)
        → IsStuck
            (update set_writing
              (record (emit_if over (queues_high_water total) c) { output_buffer = b }))
            (xs ++ drop n bytes)
    stuck b h' =
        let asks' = set_writing-Asks _ reading (
          ap (λ (d : Channel). d.events) (emit_if-channel over (queues_high_water total) c)
          ∙ asks) in
        record {
          waiting = h';
          asks_both = asks';
          writes_nothing = λ write. handle_write-both _ write asks';
        }

attempt_partial :
    (c : Conn) (write : List ℕ → Sent) (bytes : List ℕ) (n : ℕ)
    → is_write_event c.channel ≡ false
    → readable_bytes c.output_buffer ≡ 0
    → length bytes < size_mod
    → write bytes ≡ wrote n
    → n < length bytes
    → attempt write bytes c ≡ record {
      conn = record c { wire = c.wire ++ take n bytes };
      nwrote = n;
      remaing = length bytes - n;
      fault_error = false;
    }
unfolding attempt write_directly
attempt_partial c write bytes n off empty short q part =
    rw (off, empty, write_directly, q, sub_size_exact (length bytes) n (omega arith) short)
      (ground arith)

-- On a connection that reads, as every established one does, a send of which the kernel takes a
-- proper part leaves the rest waiting for good: it asks for both kinds of event, and then every
-- write event is ignored.
pub send_in_loop-IsStuck :
    (c : Conn) (write : List ℕ → Sent) (bytes : List ℕ) (n : ℕ)
    → Asks c.channel reading
    → c.state ≡ connected
    → Holds c.output_buffer []
    → c.output_buffer.writer_index + length bytes ≤ max_vector
    → write bytes ≡ wrote n
    → n < length bytes
    → (c' : Conn) × (send_in_loop write bytes c ≡ ok c') × IsStuck c' (drop n bytes)
unfolding send_in_loop
send_in_loop-IsStuck c write bytes n asks up h fits q part =
    rw
      (
        ap is_disconnected up,
        attempt_partial c write bytes n (not_writing_reading c.channel asks) (readable_bytes_lem h)
            (omega arith) q part,
      )
      (keep_rest-IsStuck (record c { wire = c.wire ++ take n bytes }) bytes n asks h fits part)

emit_if-effects :
    (b : Bool) (x : Effect) (c : Conn)
    → (emit_if b x c).effects ≡ c.effects ++ (if b then x ∷ [] else [])
emit_if-effects true x c = refl
emit_if-effects false x c = sym (append-nil c.effects)

attempt_waiting :
    (c : Conn) {xs : List ℕ} (write : List ℕ → Sent) (bytes : List ℕ)
    → Holds c.output_buffer xs
    → 0 < length xs
    → attempt write bytes c
      ≡ record { conn = c; nwrote = 0; remaing = length bytes; fault_error = false }
unfolding attempt
attempt_waiting c write bytes h some_wait = rw (readable_bytes_lem h) (ground arith)

-- The effects of a send while `old` bytes wait: the high-water callback, then the poller's update.
abbrev pub send_effects : Conn → (old new : ℕ) → List Effect
send_effects c old new =
    (if leb c.high_water_mark (old + new) && ltb old c.high_water_mark && c.has_high_water
      then queues_high_water (old + new) ∷ []
      else [])
    ++ (if is_write_event c.channel then [] else updates (set_writing c.channel).events ∷ [])

keep_rest-effects :
    (c : Conn) {xs : List ℕ} (bytes : List ℕ)
    → Holds c.output_buffer xs
    → 0 < length bytes
    → c.output_buffer.writer_index + length bytes ≤ max_vector
    → (c' : Conn) × (keep_rest bytes
          (record { conn = c; nwrote = 0; remaing = length bytes; fault_error = false })
        ≡ ok c')
      × (c'.effects ≡ c.effects ++ send_effects c (length xs) (length bytes))
unfolding keep_rest
keep_rest-effects c {xs} bytes h some_new fits =
    let total : add_size (length xs) (length bytes) ≡ length xs + length bytes =
      add_size_exact _ _ (omega (arith, length_layout h)) in
    let (b, done, h', low) = append-Holds h bytes fits in
    rw
      (
        lt→ltb _ _ some_new,
        take_all (length bytes) bytes (omega arith),
        readable_bytes_lem h,
        total,
        done,
      )
      (elim (Bool-cases (is_write_event c.channel)) [
        | inl w ↦ rw w (_, refl, emit_if-effects over _ c ∙ rw (append-nil crossing))
        | inr w ↦ rw w (
          _,
          refl,
          rw
              (
                emit_if-effects over (queues_high_water (length xs + length bytes)) c,
                emit_if-channel over (queues_high_water (length xs + length bytes)) c,
              )
              (append_assoc c.effects crossing (updates (set_writing c.channel).events ∷ [])),
        )
      ])
  where
    over : Bool
    over =
        leb c.high_water_mark (length xs + length bytes)
        && ltb (length xs) c.high_water_mark
        && c.has_high_water

    crossing : List Effect
    crossing = if over then queues_high_water (length xs + length bytes) ∷ [] else []

-- While bytes wait, a send queues the high-water callback exactly when it takes the amount that
-- waits from below the mark to the mark or beyond (and the callback is set), with the new amount;
-- it asks the poller for an update unless the channel is taken to be writing, and does nothing else.
pub send_in_loop-effects :
    (c : Conn) {xs : List ℕ} (write : List ℕ → Sent) (bytes : List ℕ)
    → c.state ≡ connected
    → Holds c.output_buffer xs
    → 0 < length xs
    → 0 < length bytes
    → c.output_buffer.writer_index + length bytes ≤ max_vector
    → (c' : Conn) × (send_in_loop write bytes c ≡ ok c')
      × (c'.effects ≡ c.effects ++ send_effects c (length xs) (length bytes))
unfolding send_in_loop
send_in_loop-effects c {xs} write bytes up h some_wait some_new fits =
    rw (ap is_disconnected up, attempt_waiting c write bytes h some_wait)
      (keep_rest-effects c bytes h some_new fits)
