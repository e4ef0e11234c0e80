-- ===== src/EchoServer/Calm.antt =====
-- What the handlers of reactor_net/src/TcpConnection.cpp leave alone.
use cc_learning.Base.{
  suc, ltb, ◌≡◌, refl, ◌∙◌, true, false, [], ◌∷◌, ◌++◌, Bytes, ◌==◌, if_elim, Option-cases, inl,
  inr, length, length-append, ◌+◌, ◌≤◌, arith, ap,
}
use cc_learning.Buffer.{Received, received, Written, wrote, append, readable_bytes}
use cc_learning.Channel.{
  Epoll, Channel, Poller, is_writing, disable_writing, disable_all, enable_writing, remove,
}
use cc_learning.TcpConnection.{
  StateE, connecting, connected, disconnecting, disconnected, is_connected, is_open,
  is_disconnected, TcpConnection, set_channel, abort, remove_from_loop, connect_destroyed,
  handle_close, after_read, shutdown_in_loop, after_write, take_written, write_output, handle_write,
  send_in_loop, send,
}

module _ (os : Epoll) where
  -- Nothing is accepted for sending, the input stays, and the connection does not come up.
  pub record Calm (s s' : TcpConnection os) : Type 0 where
    pub same_accepted : s'.accepted ≡ s.accepted
    pub same_input : s'.input ≡ s.input
    pub not_up : s'.state ≡ connected → s.state ≡ connected

  pub Calm-trans : {s t u : TcpConnection os} → Calm s t → Calm t u → Calm s u
  Calm-trans a b = record {
    same_accepted = b.same_accepted ∙ a.same_accepted;
    same_input = b.same_input ∙ a.same_input;
    not_up = λ e. a.not_up (b.not_up e);
  }

  pub Calm-refl : (s : TcpConnection os) → Calm s s
  Calm-refl s = record { same_accepted = refl; same_input = refl; not_up = λ e. e }

  Calm-down :
      (s s' : TcpConnection os)
      → s'.accepted ≡ s.accepted
      → s'.input ≡ s.input
      → s'.state ≡ disconnected
      → Calm s s'
  Calm-down s s' a i d = record {
    same_accepted = a;
    same_input = i;
    not_up = λ e. absurd (let z : ⊥ = cc in z);
  }

  pub handle_close-Calm : (s : TcpConnection os) → Calm s (handle_close os s)
  unfolding handle_close abort
  handle_close-Calm s =
      if_elim (Calm s) (is_open s.state) (λ _. Calm-down s _ refl refl refl)
        (λ _. record { same_accepted = refl; same_input = refl; not_up = λ e. e })

  remove_from_loop-Calm : (s : TcpConnection os) → Calm s (remove_from_loop os s)
  unfolding abort remove_from_loop
  remove_from_loop-Calm s = elim (Option-cases (remove os s.channel s.poller)) [
    | inl k ↦
        rw (remove_from_loop, k)
          (record { same_accepted = refl; same_input = refl; not_up = λ e. e })
    | inr (x, k) ↦
        rw (remove_from_loop, k)
          (record { same_accepted = refl; same_input = refl; not_up = λ e. e })
  ]

  pub connect_destroyed-Calm : (s : TcpConnection os) → Calm s (connect_destroyed os s)
  unfolding connect_destroyed
  connect_destroyed-Calm s =
      Calm-trans
        (if_elim (Calm s) (is_connected s.state)
          {x = record (set_channel os (disable_all os s.channel s.poller) s) {
            state = disconnected;
            downs = suc s.downs;
          }}
          (λ _. Calm-down s _ refl refl refl) (λ _. Calm-refl s))
        (remove_from_loop-Calm _)

  pub after_read-Calm : (r : Received) (s : TcpConnection os) → Calm s (after_read os r s)
  unfolding after_read
  after_read-Calm (Received.failed errno) s = Calm-refl s
  after_read-Calm (received []) s =
      if_elim (Calm s) (ltb 0 (readable_bytes s.output))
        (λ _. record {
          same_accepted = refl;
          same_input = refl;
          not_up = λ e. absurd (let z : ⊥ = cc in z);
        })
        (λ _. handle_close-Calm s)
  after_read-Calm (received (x ∷ xs)) s = Calm-refl s

  shutdown_in_loop-Calm : (s : TcpConnection os) → Calm s (shutdown_in_loop os s)
  unfolding shutdown_in_loop
  shutdown_in_loop-Calm s =
      if_elim (Calm s) (is_writing s.channel) (λ _. Calm-refl s)
        (λ _. record { same_accepted = refl; same_input = refl; not_up = λ e. e })

  after_write-Calm : (s : TcpConnection os) → Calm s (after_write os s)
  unfolding after_write
  after_write-Calm s =
      if_elim (Calm s) (readable_bytes s.output == 0)
        (λ _.
          by_state s.state (set_channel os (disable_writing os s.channel s.poller) s)
            (record { same_accepted = refl; same_input = refl; not_up = λ e. e }))
        (λ _. Calm-refl s)
    where
      by_state :
          (st : StateE) (s' : TcpConnection os)
          → Calm s s'
          → Calm s (elim st [
            | connecting ↦ s'
            | connected ↦ s'
            | disconnecting ↦ shutdown_in_loop os s'
            | disconnected ↦ s'
          ])
      by_state connecting s' c = c
      by_state connected s' c = c
      by_state disconnecting s' c = Calm-trans c (shutdown_in_loop-Calm s')
      by_state disconnected s' c = c

  take_written-Calm : (w : Written) (s : TcpConnection os) → Calm s (take_written os w s)
  unfolding take_written
  take_written-Calm (Written.failed errno) s = Calm-refl s
  take_written-Calm (wrote n) s = record {
    same_accepted = refl;
    same_input = refl;
    not_up = λ e. e;
  }

  write_output-Calm : (w : Written) (s : TcpConnection os) → Calm s (write_output os w s)
  unfolding write_output
  write_output-Calm (Written.failed errno) s = Calm-refl s
  write_output-Calm (wrote n) s =
      if_elim (Calm s) (n == 0) (λ _. take_written-Calm (wrote n) s)
        (λ _.
          Calm-trans (take_written-Calm (wrote n) s)
            (after_write-Calm (take_written os (wrote n) s)))

  pub handle_write-Calm : (w : Written) (s : TcpConnection os) → Calm s (handle_write os w s)
  unfolding handle_write
  handle_write-Calm w s =
      if_elim (Calm s) (is_writing s.channel) (λ _. write_output-Calm w s) (λ _. Calm-refl s)

  -- What `send` on the loop's thread does: the message is accepted if the connection is up.
  pub record Sent (message : Bytes) (s s' : TcpConnection os) : Type 0 where
    pub accepts : s.state ≡ connected → s'.accepted ≡ s.accepted ++ message
    pub bounded : length s'.accepted ≤ length s.accepted + length message
    pub same_input : s'.input ≡ s.input
    pub same_state : s'.state ≡ s.state

  appended-Sent :
      (message : Bytes) (x : Channel × Poller os) (s : TcpConnection os)
      → Sent message s (
          set_channel os x
            (record s { output = append s.output message; accepted = s.accepted ++ message }))
  appended-Sent message (c, p) s = record {
    accepts = λ e. refl;
    bounded = omega (arith, length-append s.accepted message);
    same_input = refl;
    same_state = refl;
  }

  pub send-Sent : (message : Bytes) (s : TcpConnection os) → Sent message s (send os true message s)
  unfolding send send_in_loop
  send-Sent message s =
      if_elim (Sent message s) (is_connected s.state)
        (λ k.
          if_elim (Sent message s) (is_disconnected s.state)
            (λ d. record {
              accepts = λ e. absurd (
                  let q : is_disconnected s.state ≡ false = ap is_disconnected e in
                  let z : ⊥ = cc in z);
              bounded = omega arith;
              same_input = refl;
              same_state = refl;
            })
            (λ d.
              if_elim (Sent message s) (is_writing s.channel)
                (λ _. appended-Sent message (s.channel, s.poller) s)
                (λ _. appended-Sent message (enable_writing os s.channel s.poller) s)))
        (λ k. record {
          accepts = λ e.
              absurd
                (let q : is_connected s.state ≡ true = ap is_connected e in let z : ⊥ = cc in z);
          bounded = omega arith;
          same_input = refl;
          same_state = refl;
        })
