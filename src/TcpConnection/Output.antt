-- ===== src/TcpConnection/Output.antt =====
-- The output buffer of reactor_net/src/TcpConnection.cpp: its invariant, and the handlers.
use cc_learning.Base.{
  ℕ, suc, ◌+◌, ◌-◌, ◌≤◌, ◌<◌, ◌≡◌, ◌⊎◌, inl, inr, sym, ap, ◌∙◌, arith, true, [], ◌∷◌, ◌++◌, length,
  take, drop, ltb, ◌==◌, ==_iff, if_elim, Option-cases, size_mod, append_assoc, take-append-drop,
  length-drop,
}
use cc_learning.Buffer.{
  Buffer, readable_bytes, contents, retrieve, Received, received, write_fd, Written, wrote,
}
use cc_learning.Buffer.Invariant.{IsValid, retrieve-IsValid}
use cc_learning.Buffer.Size.{buf-retrieve}
use cc_learning.Buffer.Stream.{contents-retrieve, length-contents}
use cc_learning.Channel.{
  Epoll, Events, Channel, is_writing, Poller, set_events, enable_reading, disable_writing,
  disable_all, remove,
}
use cc_learning.Channel.Sync.{set_events-events, remove-events}
use cc_learning.TcpConnection.{
  StateE, connecting, connected, disconnecting, disconnected, is_connected, is_open, is_connecting,
  TcpConnection, set_channel, abort, connect_established, remove_from_loop, connect_destroyed,
  handle_close, after_read, handle_read, shutdown_in_loop, after_write, take_written, write_output,
  handle_write,
}

module _ (os : Epoll) where
  pub record Inv (s : TcpConnection os) : Type 0 where
    pub valid : IsValid s.output
    pub stream : s.written ++ contents s.output ≡ s.accepted
    pub size : length s.output.buf ≤ 1032 + length s.accepted
    -- The connection has gone down, or nothing is left to write, or the channel waits for it.
    pub flowing :
        (1 ≤ s.downs) ⊎ ((readable_bytes s.output ≡ 0) ⊎ (s.channel.events.writing ≡ true))

  -- The sizes stay below `size_t`.
  abbrev pub IsSmall : TcpConnection os → Type 0
  IsSmall s = 1048 + length s.accepted < size_mod

  -- A change of the channel that keeps the interest in writing.
  pub set_channel-Inv :
      (x : Channel × Poller os) {s : TcpConnection os}
      → x.0.events.writing ≡ s.channel.events.writing
      → Inv s
      → Inv (set_channel os x s)
  set_channel-Inv (c, p) {s} e v = record {
    valid = v.valid;
    stream = v.stream;
    size = v.size;
    flowing = elim v.flowing [
      | inl a ↦ inl a
      | inr (inl b) ↦ inr (inl b)
      | inr (inr w) ↦ inr (inr (e ∙ w))
    ];
  }

  -- The connection goes down.
  pub down-Inv :
      (s : TcpConnection os) (x : Channel × Poller os) (st : StateE) (n : ℕ)
      → Inv s
      → Inv (record (set_channel os x s) { state = st; downs = suc s.downs; close_calls = n })
  down-Inv s (c, p) st n v = record {
    valid = v.valid;
    stream = v.stream;
    size = v.size;
    flowing = inl (omega arith);
  }

  pub abort-Inv : {s : TcpConnection os} → Inv s → Inv (abort os s)
  unfolding abort
  abort-Inv v = record { valid = v.valid; stream = v.stream; size = v.size; flowing = v.flowing }

  -- Fields that the invariant does not read.
  pub state-Inv : (st : StateE) {s : TcpConnection os} → Inv s → Inv (record s { state = st })
  state-Inv st v = record { valid = v.valid; stream = v.stream; size = v.size; flowing = v.flowing }

  pub connect_established-Inv : {s : TcpConnection os} → Inv s → Inv (connect_established os s)
  unfolding connect_established enable_reading
  connect_established-Inv {s} v =
      if_elim Inv (is_connecting s.state)
        (λ _.
          let e : Events = record (s.channel.events) { reading = true } in
          let w : Inv (set_channel os (set_events os e s.channel s.poller) s) =
            set_channel-Inv (set_events os e s.channel s.poller)
              (ap (λ z. z.writing) (set_events-events os e s.channel s.poller)) v in
          record { valid = w.valid; stream = w.stream; size = w.size; flowing = w.flowing })
        (λ _. abort-Inv v)

  pub remove_from_loop-Inv : {s : TcpConnection os} → Inv s → Inv (remove_from_loop os s)
  unfolding remove_from_loop
  remove_from_loop-Inv {s} v = elim (Option-cases (remove os s.channel s.poller)) [
    | inl e ↦ rw (remove_from_loop, e) (abort-Inv v)
    | inr (x, e) ↦
        rw (remove_from_loop, e)
          (set_channel-Inv x (ap (λ z. z.writing) (remove-events os s.channel s.poller e)) v)
  ]

  pub connect_destroyed-Inv : {s : TcpConnection os} → Inv s → Inv (connect_destroyed os s)
  unfolding connect_destroyed
  connect_destroyed-Inv {s} v = remove_from_loop-Inv (
      if_elim Inv (is_connected s.state)
        (λ _. down-Inv s (disable_all os s.channel s.poller) disconnected s.close_calls v) (λ _. v))

  pub handle_close-Inv : {s : TcpConnection os} → Inv s → Inv (handle_close os s)
  unfolding handle_close
  handle_close-Inv {s} v =
      if_elim Inv (is_open s.state)
        (λ _. down-Inv s (disable_all os s.channel s.poller) disconnected (suc s.close_calls) v)
        (λ _. abort-Inv v)

  pub after_read-Inv : (r : Received) {s : TcpConnection os} → Inv s → Inv (after_read os r s)
  unfolding after_read
  after_read-Inv (Received.failed errno) v = v
  after_read-Inv (received []) {s} v =
      if_elim Inv (ltb 0 (readable_bytes s.output)) (λ _. state-Inv disconnecting v)
        (λ _. handle_close-Inv v)
  after_read-Inv (received (x ∷ xs)) v = v

  pub handle_read-Inv : (r : Received) {s : TcpConnection os} → Inv s → Inv (handle_read os r s)
  unfolding handle_read
  handle_read-Inv r {s} v =
      after_read-Inv r
        (record { valid = v.valid; stream = v.stream; size = v.size; flowing = v.flowing })

  pub shutdown_in_loop-Inv : {s : TcpConnection os} → Inv s → Inv (shutdown_in_loop os s)
  unfolding shutdown_in_loop
  shutdown_in_loop-Inv {s} v =
      if_elim Inv (is_writing s.channel) (λ _. v)
        (λ _. record { valid = v.valid; stream = v.stream; size = v.size; flowing = v.flowing })

  pub length-drop_contents :
      {b : Buffer} (n : ℕ) → IsValid b → readable_bytes (retrieve b n) ≡ readable_bytes b - n
  length-drop_contents {b} n v =
      sym (length-contents (retrieve-IsValid n v))
      ∙ ap length (contents-retrieve n v)
      ∙ length-drop n (contents b)
      ∙ ap (λ k. k - n) (length-contents v)

  pub take_written-Inv : (w : Written) {s : TcpConnection os} → Inv s → Inv (take_written os w s)
  unfolding take_written write_fd
  take_written-Inv (Written.failed errno) v = v
  take_written-Inv (wrote n) {s} v = record {
    valid = retrieve-IsValid n v.valid;
    stream =
        ap (λ c. (s.written ++ take n (contents s.output)) ++ c) (contents-retrieve n v.valid)
        ∙ append_assoc s.written (take n (contents s.output)) (drop n (contents s.output))
        ∙ ap (λ c. s.written ++ c) (take-append-drop n (contents s.output))
        ∙ v.stream;
    size = omega (arith, v.size, ap length (buf-retrieve s.output n));
    flowing = elim v.flowing [
      | inl a ↦ inl a
      | inr (inl b) ↦ inr (inl (omega (arith, length-drop_contents n v.valid)))
      | inr (inr w) ↦ inr (inr w)
    ];
  }

  -- A change of the channel when nothing is left to write.
  pub idle-Inv :
      (x : Channel × Poller os) {s : TcpConnection os}
      → readable_bytes s.output ≡ 0
      → Inv s
      → Inv (set_channel os x s)
  idle-Inv (c, p) e v = record {
    valid = v.valid;
    stream = v.stream;
    size = v.size;
    flowing = inr (inl e);
  }

  pub after_write-Inv : {s : TcpConnection os} → Inv s → Inv (after_write os s)
  unfolding after_write
  after_write-Inv {s} v =
      if_elim Inv (readable_bytes s.output == 0)
        (λ e. by_state s.state (
          idle-Inv (disable_writing os s.channel s.poller)
            ((==_iff (readable_bytes s.output) 0).0 e) v))
        (λ _. v)
    where
      by_state :
          (st : StateE) {s' : TcpConnection os}
          → Inv s'
          → Inv (elim st [
            | connecting ↦ s'
            | connected ↦ s'
            | disconnecting ↦ shutdown_in_loop os s'
            | disconnected ↦ s'
          ])
      by_state connecting w = w
      by_state connected w = w
      by_state disconnecting w = shutdown_in_loop-Inv w
      by_state disconnected w = w

  pub handle_write-Inv : (w : Written) {s : TcpConnection os} → Inv s → Inv (handle_write os w s)
  unfolding handle_write write_output
  handle_write-Inv (Written.failed errno) {s} v =
      if_elim Inv (is_writing s.channel) (λ _. v) (λ _. v)
  handle_write-Inv (wrote n) {s} v =
      let t : Inv (take_written os (wrote n) s) = take_written-Inv (wrote n) v in
      if_elim Inv (is_writing s.channel)
        (λ _. if_elim Inv (n == 0) (λ _. t) (λ _. after_write-Inv t)) (λ _. v)
