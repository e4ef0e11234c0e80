-- ===== src/TcpConnection/Sending.antt =====
-- Every event of reactor_net/src/TcpConnection.cpp, and histories of them, in terms of the output
-- buffer.
use cc_learning.Base.{
  ℕ, ◌+◌, ◌<◌, ◌≡◌, ◌≢◌, inl, inr, refl, sym, ap, ◌∙◌, arith, Bool, true, List, [], ◌∷◌, ◌++◌,
  Bytes, length, if_elim, size_mod, append_assoc, length-append, length-replicate,
}
use cc_learning.Buffer.{init, initial_size, readable_bytes, contents, append, Received, Written}
use cc_learning.Buffer.Invariant.{init-IsValid, append-IsValid}
use cc_learning.Buffer.Size.{length-append_le}
use cc_learning.Buffer.Stream.{contents-append}
use cc_learning.Channel.{
  Epoll, Channel, is_writing, Poller, enable_writing, Callback, closes, errors, reads, writes,
  handle_event,
}
use cc_learning.Channel.Sync.{set_events-events}
use cc_learning.TcpConnection.{
  disconnecting, Functor, sends_in_loop, shuts_down_in_loop, force_closes_in_loop,
  connects_destroyed, is_connected, is_open, is_disconnected, TcpConnection, new_connection,
  set_channel, send_in_loop, queue, send, shutdown, force_close, force_close_in_loop, run_functor,
  run_pending, callback, callbacks, Event, establishes, polls, sends, shuts_down, force_closes,
  queues_destruction, runs_pending, consumes, step, run,
}
use cc_learning.TcpConnection.Output.{
  Inv, IsSmall, state-Inv, connect_established-Inv, connect_destroyed-Inv, handle_close-Inv,
  handle_read-Inv, shutdown_in_loop-Inv, handle_write-Inv,
}

module _ (os : Epoll) where
  -- More bytes to write, and a channel that waits to write them.
  appended-Inv :
      (message : Bytes) (x : Channel × Poller os) {s : TcpConnection os}
      → 1048 + length (s.accepted ++ message) < size_mod
      → x.0.events.writing ≡ true
      → Inv os s
      → Inv os (
          set_channel os x
            (record s { output = append s.output message; accepted = s.accepted ++ message }))
  appended-Inv message (c, p) {s} h w v =
      let l : length (s.accepted ++ message) ≡ length s.accepted + length message =
        length-append s.accepted message in
      let k : length s.output.buf + length message + 8 < size_mod = omega (arith, v.size) in
      record {
        valid = append-IsValid message v.valid k;
        stream =
            ap (λ z. s.written ++ z) (contents-append message v.valid k)
            ∙ sym (append_assoc s.written (contents s.output) message)
            ∙ ap (λ z. z ++ message) v.stream;
        size = omega (arith, v.size, length-append_le message v.valid k);
        flowing = inr (inr w);
      }

  send_in_loop-Inv :
      (message : Bytes) {s : TcpConnection os}
      → Inv os s
      → IsSmall os (send_in_loop os message s)
      → Inv os (send_in_loop os message s)
  unfolding send_in_loop enable_writing is_writing
  send_in_loop-Inv message {s} v =
      if_elim (λ r. IsSmall os r → Inv os r) (is_disconnected s.state) (λ _ k. v)
        (λ _.
          if_elim (λ r. IsSmall os r → Inv os r) (is_writing s.channel)
            (λ w k. appended-Inv message (s.channel, s.poller) k w v)
            (λ _ k.
              appended-Inv message (enable_writing os s.channel s.poller) k
                (ap (λ z. z.writing)
                  (set_events-events os (record (s.channel.events) { writing = true }) s.channel
                    s.poller))
                v))

  queue-Inv : (f : Functor) {s : TcpConnection os} → Inv os s → Inv os (queue os f s)
  unfolding queue
  queue-Inv f v = record { valid = v.valid; stream = v.stream; size = v.size; flowing = v.flowing }

  pub send-Inv :
      (in_loop : Bool) (message : Bytes) {s : TcpConnection os}
      → Inv os s
      → IsSmall os (send os in_loop message s)
      → Inv os (send os in_loop message s)
  unfolding send
  send-Inv in_loop message {s} v =
      if_elim (λ r. IsSmall os r → Inv os r) (is_connected s.state)
        (λ _.
          if_elim (λ r. IsSmall os r → Inv os r) in_loop (λ _. send_in_loop-Inv message v)
            (λ _ k. queue-Inv (sends_in_loop message) v))
        (λ _ k. v)

  shutdown-Inv : (in_loop : Bool) {s : TcpConnection os} → Inv os s → Inv os (shutdown os in_loop s)
  unfolding shutdown
  shutdown-Inv in_loop {s} v =
      if_elim (Inv os) (is_connected s.state)
        (λ _.
          if_elim (Inv os) in_loop (λ _. shutdown_in_loop-Inv os (state-Inv os disconnecting v))
            (λ _. queue-Inv shuts_down_in_loop (state-Inv os disconnecting v)))
        (λ _. v)

  force_close-Inv : {s : TcpConnection os} → Inv os s → Inv os (force_close os s)
  unfolding force_close
  force_close-Inv {s} v =
      if_elim (Inv os) (is_open s.state)
        (λ _. queue-Inv force_closes_in_loop (state-Inv os disconnecting v)) (λ _. v)

  force_close_in_loop-Inv : {s : TcpConnection os} → Inv os s → Inv os (force_close_in_loop os s)
  unfolding force_close_in_loop
  force_close_in_loop-Inv {s} v =
      if_elim (Inv os) (is_open s.state) (λ _. handle_close-Inv os v) (λ _. v)

  run_functor-Inv :
      (f : Functor) {s : TcpConnection os}
      → Inv os s
      → IsSmall os (run_functor os f s)
      → Inv os (run_functor os f s)
  unfolding run_functor
  run_functor-Inv (sends_in_loop message) v k = send_in_loop-Inv message v k
  run_functor-Inv shuts_down_in_loop v k = shutdown_in_loop-Inv os v
  run_functor-Inv force_closes_in_loop v k = force_close_in_loop-Inv v
  run_functor-Inv connects_destroyed v k = connect_destroyed-Inv os v

  run_pending-Inv :
      (fs : List Functor) {s : TcpConnection os}
      → Inv os s
      → IsSmall os (run_pending os fs s)
      → Inv os (run_pending os fs s)
  unfolding run_pending
  run_pending-Inv [] v k = v
  run_pending-Inv (f ∷ fs) v k =
      run_functor-Inv f
        (record { valid = v.valid; stream = v.stream; size = v.size; flowing = v.flowing }) k

  callback-Inv :
      (r : Received) (w : Written) (c : Callback) {s : TcpConnection os}
      → Inv os s
      → Inv os (callback os r w c s)
  unfolding callback
  callback-Inv r w closes v = handle_close-Inv os v
  callback-Inv r w errors v = v
  callback-Inv r w reads v = handle_read-Inv os r v
  callback-Inv r w writes v = handle_write-Inv os w v

  callbacks-Inv :
      (r : Received) (w : Written) (cs : List Callback) {s : TcpConnection os}
      → Inv os s
      → Inv os (callbacks os r w cs s)
  unfolding callbacks
  callbacks-Inv r w [] v = v
  callbacks-Inv r w (c ∷ cs) {s} v =
      if_elim (Inv os) s.aborted (λ _. v) (λ _. callbacks-Inv r w cs (callback-Inv r w c v))

  pub step-Inv :
      (e : Event os) {s : TcpConnection os}
      → Inv os s
      → IsSmall os (step os s e)
      → Inv os (step os s e)
  unfolding step
  step-Inv establishes v k = connect_established-Inv os v
  step-Inv (polls revents r w) v k = callbacks-Inv r w (handle_event true true revents) v
  step-Inv (sends in_loop message) v k = send-Inv in_loop message v k
  step-Inv (shuts_down in_loop) v k = shutdown-Inv in_loop v
  step-Inv force_closes v k = force_close-Inv v
  step-Inv queues_destruction v k = queue-Inv connects_destroyed v
  step-Inv runs_pending {s} v k = run_pending-Inv s.pending v k
  step-Inv (consumes n) v k = record {
    valid = v.valid;
    stream = v.stream;
    size = v.size;
    flowing = v.flowing;
  }

  -- After each event, the bytes sent so far stay below `size_t`.
  abbrev pub AllSmall : List (Event os) → TcpConnection os → Type 0
  AllSmall [] s = Unit {0}
  AllSmall (e ∷ es) s = IsSmall os (step os s e) × AllSmall es (step os s e)

  pub run-keeps_Inv :
      (es : List (Event os)) {s : TcpConnection os}
      → AllSmall es s
      → Inv os s
      → Inv os (run os es s)
  unfolding run
  run-keeps_Inv [] h v = v
  run-keeps_Inv (e ∷ es) {s} h v =
      if_elim (Inv os) s.aborted (λ _. v) (λ _. run-keeps_Inv es h.1 (step-Inv e v h.0))

  pub new-Inv : (identity fd : ℕ) (p : Poller os) → Inv os (new_connection os identity fd p)
  unfolding new_connection init contents readable_bytes
  new-Inv identity fd p = record {
    valid = init-IsValid initial_size (omega arith);
    stream = refl;
    size = omega (arith, length-replicate {A = ℕ} 1032 0);
    flowing = inr (inl refl);
  }

  -- Whatever events come, as long as the bytes sent stay below `size_t`: the bytes that the kernel was
  -- given, with those of the output buffer behind them, are the bytes accepted for sending. None is
  -- lost, doubled or reordered, also where a write is short or fails.
  pub written_in_order :
      (es : List (Event os)) (identity fd : ℕ) (p : Poller os)
      → AllSmall es (new_connection os identity fd p)
      → let s = run os es (new_connection os identity fd p) in
        s.written ++ contents s.output ≡ s.accepted
  written_in_order es identity fd p h = (run-keeps_Inv es h (new-Inv identity fd p)).stream

  -- As long as the connection has not gone down and the bytes sent stay below `size_t`: when bytes are
  -- left in the output buffer, the channel asks for the socket to be writable.
  pub waits_to_write :
      (es : List (Event os)) (identity fd : ℕ) (p : Poller os)
      → AllSmall es (new_connection os identity fd p)
      → let s = run os es (new_connection os identity fd p) in
        s.downs ≡ 0 → readable_bytes s.output ≢ 0 → s.channel.events.writing ≡ true
  waits_to_write es identity fd p h d n =
      elim (run-keeps_Inv es h (new-Inv identity fd p)).flowing [
        | inl a ↦ absurd (omega (arith, a))
        | inr (inl b) ↦ absurd (n b)
        | inr (inr w) ↦ w
      ]
