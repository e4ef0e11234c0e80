-- ===== src/TcpConnection/Flushed.antt =====
-- When reactor_net/src/TcpConnection.cpp shuts the write side of its socket down.
use cc_learning.Base.{
  ℕ, ◌≡◌, inl, inr, refl, sym, ap, ◌∙◌, arith, Bool, true, false, List, [], ◌∷◌, Option, none, some,
  ◌++◌, Bytes, length, ◌==◌, if_elim, append-nil, ltb, arith,
}
use cc_learning.Buffer.{
  Buffer, readable_bytes, contents, retrieve, retrieve_all, write_fd, Received, received, Written,
  wrote,
}
use cc_learning.Buffer.Stream.{length-contents}
use cc_learning.Channel.{
  Epoll, Channel, is_writing, Poller, Callback, closes, errors, reads, writes, handle_event, remove,
  disable_writing,
}
use cc_learning.TcpConnection.{
  connecting, connected, disconnecting, disconnected, StateE, Functor, sends_in_loop,
  shuts_down_in_loop, force_closes_in_loop, connects_destroyed, is_connecting, is_connected,
  is_open, is_disconnected, TcpConnection, new_connection, set_channel, abort, connect_established,
  remove_from_loop, connect_destroyed, handle_close, after_read, handle_read, shutdown_in_loop,
  after_write, take_written, write_output, handle_write, send_in_loop, queue, send, shutdown,
  force_close, force_close_in_loop, run_functor, run_pending, callback, callbacks, Event,
  establishes, polls, sends, shuts_down, force_closes, queues_destruction, runs_pending, consumes,
  step, run,
}
use cc_learning.TcpConnection.Output.{Inv, IsSmall, state-Inv}
use cc_learning.TcpConnection.Sending.{AllSmall, step-Inv, run-keeps_Inv, new-Inv}

retrieve_nothing : (b : Buffer) (n : ℕ) → readable_bytes b ≡ 0 → readable_bytes (retrieve b n) ≡ 0
unfolding retrieve retrieve_all readable_bytes
retrieve_nothing b n e =
    if_elim (λ (r : Buffer). readable_bytes r ≡ 0) (ltb n (readable_bytes b))
      (λ k. absurd (ground arith)) (λ _. refl)

module _ (os : Epoll) where
  -- Where the write side is shut down, nothing is left to write, or the connection has gone down.
  abbrev IsFlushed : TcpConnection os → Type 0
  IsFlushed s = s.half_closed ≡ true → s.downs ≡ 0 → readable_bytes s.output ≡ 0

  abbrev IsOpenStill : TcpConnection os → Type 0
  IsOpenStill s = s.half_closed ≡ false

  open-IsFlushed : {h : Bool} {d r : ℕ} → h ≡ false → h ≡ true → d ≡ 0 → r ≡ 0
  open-IsFlushed o h d = absurd (let z : ⊥ = cc in z)

  handle_close-IsFlushed : (s : TcpConnection os) → IsFlushed s → IsFlushed (handle_close os s)
  unfolding handle_close abort
  handle_close-IsFlushed s v =
      if_elim IsFlushed (is_open s.state) (λ _ h d. absurd (omega (arith, d))) (λ _. v)

  handle_read-IsFlushed :
      (r : Received) (s : TcpConnection os) → IsFlushed s → IsFlushed (handle_read os r s)
  unfolding handle_read after_read
  handle_read-IsFlushed (Received.failed errno) s v = v
  handle_read-IsFlushed (received []) s v =
      if_elim IsFlushed (ltb 0 (readable_bytes s.output)) (λ _. v) (λ _. handle_close-IsFlushed _ v)
  handle_read-IsFlushed (received (x ∷ xs)) s v = v

  after_write-IsFlushed : (s : TcpConnection os) → IsFlushed s → IsFlushed (after_write os s)
  unfolding after_write shutdown_in_loop
  after_write-IsFlushed s v =
      if_elim IsFlushed (readable_bytes s.output == 0) (λ k. by_state s.state (ground arith))
        (λ _. v)
    where
      by_state :
          (t : StateE)
          → readable_bytes s.output ≡ 0
          → (let s' = set_channel os (disable_writing os s.channel s.poller) s in
              IsFlushed (elim t [
                | connecting ↦ s'
                | connected ↦ s'
                | disconnecting ↦ shutdown_in_loop os s'
                | disconnected ↦ s'
              ]))
      by_state connecting e = λ h d. e
      by_state connected e = λ h d. e
      by_state disconnecting e =
          if_elim IsFlushed (is_writing (disable_writing os s.channel s.poller).0) (λ _ h d. e)
            (λ _ h d. e)
      by_state disconnected e = λ h d. e

  handle_write-IsFlushed :
      (w : Written) (s : TcpConnection os) → IsFlushed s → IsFlushed (handle_write os w s)
  unfolding handle_write write_output take_written write_fd
  handle_write-IsFlushed (Written.failed errno) s v =
      if_elim IsFlushed (is_writing s.channel) (λ _. v) (λ _. v)
  handle_write-IsFlushed (wrote n) s v =
      let t : IsFlushed (take_written os (wrote n) s) =
        λ h d. retrieve_nothing s.output n (v h d) in
      if_elim IsFlushed (is_writing s.channel)
        (λ _.
          if_elim IsFlushed (n == 0) (λ _. t)
            (λ _. after_write-IsFlushed (take_written os (wrote n) s) t))
        (λ _. v)

  callback-IsFlushed :
      (r : Received) (w : Written) (c : Callback) (s : TcpConnection os)
      → IsFlushed s
      → IsFlushed (callback os r w c s)
  unfolding callback
  callback-IsFlushed r w closes s v = handle_close-IsFlushed s v
  callback-IsFlushed r w errors s v = v
  callback-IsFlushed r w reads s v = handle_read-IsFlushed r s v
  callback-IsFlushed r w writes s v = handle_write-IsFlushed w s v

  callbacks-IsFlushed :
      (r : Received) (w : Written) (cs : List Callback) (s : TcpConnection os)
      → IsFlushed s
      → IsFlushed (callbacks os r w cs s)
  unfolding callbacks
  callbacks-IsFlushed r w [] s v = v
  callbacks-IsFlushed r w (c ∷ cs) s v =
      if_elim IsFlushed s.aborted (λ _. v)
        (λ _. callbacks-IsFlushed r w cs _ (callback-IsFlushed r w c s v))

  -- A caller that shuts down where writing is not enabled finds nothing to write.
  shutdown_in_loop-IsFlushed :
      (s : TcpConnection os) → Inv os s → IsOpenStill s → IsFlushed (shutdown_in_loop os s)
  unfolding shutdown_in_loop is_writing
  shutdown_in_loop-IsFlushed s v o =
      if_elim IsFlushed s.channel.events.writing (λ _. open-IsFlushed o)
        (λ w h d. elim v.flowing [
          | inl a ↦ absurd (omega (arith, a, d))
          | inr (inl b) ↦ b
          | inr (inr w') ↦ absurd (let z : ⊥ = cc in z)
        ])

  shutdown-IsFlushed :
      (in_loop : Bool) (s : TcpConnection os)
      → Inv os s
      → IsOpenStill s
      → IsFlushed (shutdown os in_loop s)
  unfolding shutdown queue
  shutdown-IsFlushed in_loop s v o =
      if_elim IsFlushed (is_connected s.state)
        (λ _.
          if_elim IsFlushed in_loop
            (λ _. shutdown_in_loop-IsFlushed _ (state-Inv os disconnecting v) o)
            (λ _. open-IsFlushed o))
        (λ _. open-IsFlushed o)

  send_in_loop-IsOpenStill :
      (message : Bytes) (s : TcpConnection os)
      → IsOpenStill s
      → IsOpenStill (send_in_loop os message s)
  unfolding send_in_loop
  send_in_loop-IsOpenStill message s o =
      if_elim IsOpenStill (is_disconnected s.state) (λ _. o)
        (λ _. if_elim IsOpenStill (is_writing s.channel) (λ _. o) (λ _. o))

  remove_from_loop-IsOpenStill :
      (s : TcpConnection os) → IsOpenStill s → IsOpenStill (remove_from_loop os s)
  unfolding remove_from_loop abort
  remove_from_loop-IsOpenStill s o = from (remove os s.channel s.poller)
    where
      from :
          (x : Option (Channel × Poller os))
          → IsOpenStill (elim x [ none ↦ abort os s | some y ↦ set_channel os y s ])
      from none = o
      from (some y) = o

  connect_destroyed-IsOpenStill :
      (s : TcpConnection os) → IsOpenStill s → IsOpenStill (connect_destroyed os s)
  unfolding connect_destroyed
  connect_destroyed-IsOpenStill s o =
      if_elim (λ r. IsOpenStill (remove_from_loop os r)) (is_connected s.state)
        (λ _. remove_from_loop-IsOpenStill _ o) (λ _. remove_from_loop-IsOpenStill _ o)

  run_pending-IsFlushed :
      (fs : List Functor) (s : TcpConnection os)
      → Inv os s
      → IsOpenStill s
      → IsFlushed (run_pending os fs s)
  unfolding run_pending run_functor force_close_in_loop
  run_pending-IsFlushed [] s v o = open-IsFlushed o
  run_pending-IsFlushed (sends_in_loop message ∷ fs) s v o =
      open-IsFlushed (send_in_loop-IsOpenStill message (record s { pending = fs }) o)
  run_pending-IsFlushed (shuts_down_in_loop ∷ fs) s v o =
      shutdown_in_loop-IsFlushed (record s { pending = fs })
        (record { valid = v.valid; stream = v.stream; size = v.size; flowing = v.flowing }) o
  run_pending-IsFlushed (force_closes_in_loop ∷ fs) s v o =
      if_elim IsFlushed (is_open s.state)
        (λ _. handle_close-IsFlushed (record s { pending = fs }) (open-IsFlushed o))
        (λ _. open-IsFlushed o)
  run_pending-IsFlushed (connects_destroyed ∷ fs) s v o =
      open-IsFlushed (connect_destroyed-IsOpenStill (record s { pending = fs }) o)

  step-IsFlushed :
      (e : Event os) (s : TcpConnection os) → Inv os s → IsOpenStill s → IsFlushed (step os s e)
  unfolding step connect_established abort send queue force_close
  step-IsFlushed establishes s v o =
      if_elim IsFlushed (is_connecting s.state) (λ _. open-IsFlushed o) (λ _. open-IsFlushed o)
  step-IsFlushed (polls revents r w) s v o =
      callbacks-IsFlushed r w (handle_event true true revents) s (open-IsFlushed o)
  step-IsFlushed (sends in_loop message) s v o =
      if_elim IsFlushed (is_connected s.state)
        (λ _.
          if_elim IsFlushed in_loop (λ _. open-IsFlushed (send_in_loop-IsOpenStill message _ o))
            (λ _. open-IsFlushed o))
        (λ _. open-IsFlushed o)
  step-IsFlushed (shuts_down in_loop) s v o = shutdown-IsFlushed in_loop s v o
  step-IsFlushed force_closes s v o =
      if_elim IsFlushed (is_open s.state) (λ _. open-IsFlushed o) (λ _. open-IsFlushed o)
  step-IsFlushed queues_destruction s v o = open-IsFlushed o
  step-IsFlushed runs_pending s v o = run_pending-IsFlushed s.pending s v o
  step-IsFlushed (consumes n) s v o = open-IsFlushed o

  no_bytes : (d : Bytes) → length d ≡ 0 → [] ≡ d
  no_bytes [] n = refl
  no_bytes (x ∷ xs) n = absurd (omega (arith, n))

  -- In every history, as long as the bytes sent stay below `size_t`: an event in which the write side of
  -- the socket is shut down, be it by the client's call, a queued one or the last write, ends with every
  -- accepted byte written, unless the connection has gone down.
  pub shuts_down_flushed :
      (es : List (Event os)) (e : Event os) (identity fd : ℕ) (p : Poller os)
      → AllSmall os es (new_connection os identity fd p)
      → let s = run os es (new_connection os identity fd p) in
        IsSmall os (step os s e)
        → s.half_closed ≡ false
        → (step os s e).half_closed ≡ true
        → (step os s e).downs ≡ 0
        → (step os s e).written ≡ (step os s e).accepted
  shuts_down_flushed es e identity fd p h k o c d =
      let s : TcpConnection os = run os es (new_connection os identity fd p) in
      let t : TcpConnection os = step os s e in
      let v : Inv os s = run-keeps_Inv os es h (new-Inv os identity fd p) in
      let w : Inv os t = step-Inv os e v k in
      let b : readable_bytes t.output ≡ 0 = step-IsFlushed e s v o c d in
      sym (append-nil t.written)
      ∙ ap (λ z. t.written ++ z) (no_bytes (contents t.output) (length-contents w.valid ∙ b))
      ∙ w.stream
