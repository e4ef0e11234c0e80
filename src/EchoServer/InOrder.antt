-- ===== src/EchoServer/InOrder.antt =====
-- The echo server of reactor_net/src/main.cpp sends back what it reads.
use cc_learning.Base.{
  ℕ, ◌+◌, ◌≤◌, ◌<◌, ◌≡◌, refl, sym, ap, subst, ◌∙◌, arith, true, List, [], ◌∷◌, ◌++◌, Bytes, length,
  take_all, drop_all, length-append, length-replicate, append-nil, if_elim, size_mod,
}
use cc_learning.Buffer.{
  Buffer, init, initial_size, contents, readable_bytes, retrieve_all_as_string, read_fd,
  readv_capacity, Received, received, Written,
}
use cc_learning.Buffer.Invariant.{IsValid, init-IsValid}
use cc_learning.Buffer.Stream.{retrieve_as_string_lem, length-contents}
use cc_learning.Buffer.Receive.{contents-read_fd, length-read_fd_le}
use cc_learning.Buffer.Trace.{buf-retrieve_as_string}
use cc_learning.Channel.{Epoll, Poller, Callback, closes, errors, reads, writes, handle_event}
use cc_learning.TcpConnection
use cc_learning.TcpConnection.{
  StateE, connected, TcpConnection, new_connection, connect_established, connect_destroyed,
  handle_close, handle_read, after_read, handle_write, send,
}
use cc_learning.TcpConnection.Output
use cc_learning.TcpConnection.Output.{
  IsSmall, handle_close-Inv, handle_read-Inv, handle_write-Inv, connect_destroyed-Inv,
  connect_established-Inv,
}
use cc_learning.TcpConnection.Sending.{send-Inv, new-Inv}
use cc_learning.EchoServer.{
  bytes_of, Echo, echo, notify, echo_read, callback, callbacks, Event, polls, destroys, step, run,
  accepted,
}
use cc_learning.EchoServer.Calm.{
  Calm, handle_close-Calm, after_read-Calm, handle_write-Calm, connect_destroyed-Calm, send-Sent,
}

-- Taking everything off a buffer.
retrieve_all_lem :
    {b : Buffer}
    → IsValid b
    → let (d, b') = retrieve_all_as_string b in
      (d ≡ contents b) × (contents b' ≡ []) × IsValid b' × (b'.buf ≡ b.buf)
unfolding retrieve_all_as_string
retrieve_all_lem {b} v =
    let n : ℕ = readable_bytes b in
    let r = retrieve_as_string_lem n v in
    let l : length (contents b) ≤ n = omega (arith, length-contents v) in
    (
      r.0 ∙ take_all n (contents b) l,
      r.1 ∙ drop_all n (contents b) l,
      r.2,
      buf-retrieve_as_string b n,
    )

module _ (os : Epoll) where
  record Inv (s : Echo os) : Type 0 where
    pub out : Output.Inv os s.conn
    pub valid : IsValid s.conn.input
    pub size : length s.conn.input.buf ≤ 1032 + length s.got
    pub bounded : length s.conn.accepted ≤ length s.got
    pub empty : contents s.conn.input ≡ []
    pub same : s.conn.state ≡ connected → s.conn.accepted ≡ s.got

  -- A handler that neither reads nor sends.
  Calm-Inv :
      (s : Echo os) (c : TcpConnection os)
      → Calm os s.conn c
      → Output.Inv os c
      → Inv s
      → Inv (record s { conn = c })
  Calm-Inv s c k o v = record {
    out = o;
    valid = subst IsValid (sym k.same_input) v.valid;
    size = (let e = ap (λ b. length b.buf) k.same_input in omega (arith, e, v.size));
    bounded = (let e = ap (λ (d : Bytes). length d) k.same_accepted in omega (arith, e, v.bounded));
    empty = ap contents k.same_input ∙ v.empty;
    same = λ e. k.same_accepted ∙ v.same (k.not_up e);
  }

  -- The kernel gives no more than there is room for, and the bytes read stay below `size_t`.
  abbrev pub IsFed : Received → Callback → Echo os → Type 0
  IsFed r reads s =
      (length (bytes_of r) ≤ readv_capacity s.conn.input)
      × (2096 + length (s.got ++ bytes_of r) < size_mod)
  IsFed r closes s = Unit {0}
  IsFed r errors s = Unit {0}
  IsFed r writes s = Unit {0}

  -- The input buffer is filled.
  filled : Bytes → TcpConnection os → TcpConnection os
  filled d s = record s { input = (read_fd s.input (received d)).1 }

  echo-Inv :
      (s : Echo os) (d : Bytes)
      → Output.Inv os (filled d s.conn)
      → length d ≤ readv_capacity s.conn.input
      → 2096 + length (s.got ++ d) < size_mod
      → Inv s
      → Inv (record { conn = echo os (filled d s.conn); got = s.got ++ d })
  unfolding echo filled
  echo-Inv s d o c k v =
      let l = length-append s.got d in
      let r = contents-read_fd d v.valid (omega (arith, l, v.size)) c in
      let z = length-read_fd_le d v.valid (omega (arith, l, v.size)) c in
      let b : Buffer = (read_fd s.conn.input (received d)).1 in
      let t = retrieve_all_lem r.1 in
      let msg : Bytes = (retrieve_all_as_string b).0 in
      let q : msg ≡ d = t.0 ∙ r.0 ∙ ap (λ x. x ++ d) v.empty in
      let taken : TcpConnection os = record (s.conn) { input = (retrieve_all_as_string b).1 } in
      let sent = send-Sent os msg taken in
      let n = ap (λ (x : Bytes). length x) q in
      record {
        out =
            send-Inv os true msg
              (record { valid = o.valid; stream = o.stream; size = o.size; flowing = o.flowing })
              (omega (arith, sent.bounded, n, l, v.bounded));
        valid = subst IsValid (sym sent.same_input) t.2;
        size =
            (let e = ap (λ x. length x.buf) sent.same_input in
              let f = ap (λ (x : Bytes). length x) t.3 in omega (arith, e, f, z, l, v.size));
        bounded = omega (arith, sent.bounded, n, l, v.bounded);
        empty = ap contents sent.same_input ∙ t.1;
        same = λ e.
            let up : s.conn.state ≡ connected = sym sent.same_state ∙ e in
            sent.accepts up ∙ ap (λ x. s.conn.accepted ++ x) q ∙ ap (λ x. x ++ d) (v.same up);
      }

  -- A read that fails, or at the end of the peer's bytes.
  failed-Inv : (errno : ℕ) (s : Echo os) → Inv s → Inv (echo_read os (Received.failed errno) s)
  unfolding echo_read notify handle_read after_read read_fd
  failed-Inv errno s v = record {
    out = handle_read-Inv os (Received.failed errno) v.out;
    valid = v.valid;
    size = omega (arith, v.size, length-append s.got []);
    bounded = omega (arith, v.bounded, length-append s.got []);
    empty = v.empty;
    same = λ e. v.same e ∙ sym (append-nil s.got);
  }

  end-Inv : (s : Echo os) → IsFed (received []) reads s → Inv s → Inv (echo_read os (received []) s)
  unfolding echo_read notify handle_read filled
  end-Inv s f v =
      let l = length-append s.got [] in
      let r = contents-read_fd [] v.valid (omega (arith, f.1, l, v.size)) f.0 in
      let z = length-read_fd_le [] v.valid (omega (arith, f.1, l, v.size)) f.0 in
      let t : Echo os = record { conn = filled [] s.conn; got = s.got ++ [] } in
      Calm-Inv t (handle_read os (received []) s.conn)
        (after_read-Calm os (received []) (filled [] s.conn))
        (handle_read-Inv os (received []) v.out)
        (record {
          out = record {
            valid = v.out.valid;
            stream = v.out.stream;
            size = v.out.size;
            flowing = v.out.flowing;
          };
          valid = r.1;
          size = omega (arith, z, l, v.size);
          bounded = omega (arith, l, v.bounded);
          empty = r.0 ∙ append-nil (contents s.conn.input) ∙ v.empty;
          same = λ e. v.same e ∙ sym (append-nil s.got);
        })

  more-Inv :
      (x : ℕ) (xs : Bytes) (s : Echo os)
      → IsFed (received (x ∷ xs)) reads s
      → Inv s
      → Inv (echo_read os (received (x ∷ xs)) s)
  unfolding echo_read notify handle_read after_read filled
  more-Inv x xs s f v = echo-Inv s (x ∷ xs) (handle_read-Inv os (received (x ∷ xs)) v.out) f.0 f.1 v

  echo_read-Inv : (r : Received) (s : Echo os) → IsFed r reads s → Inv s → Inv (echo_read os r s)
  echo_read-Inv (Received.failed errno) s f v = failed-Inv errno s v
  echo_read-Inv (received []) s f v = end-Inv s f v
  echo_read-Inv (received (x ∷ xs)) s f v = more-Inv x xs s f v

  callback-Inv :
      (r : Received) (w : Written) (c : Callback) (s : Echo os)
      → IsFed r c s
      → Inv s
      → Inv (callback os r w c s)
  unfolding callback TcpConnection.callback
  callback-Inv r w closes s f v =
      Calm-Inv s (handle_close os s.conn) (handle_close-Calm os s.conn) (handle_close-Inv os v.out)
        v
  callback-Inv r w errors s f v = v
  callback-Inv r w reads s f v = echo_read-Inv r s f v
  callback-Inv r w writes s f v =
      Calm-Inv s (handle_write os w s.conn) (handle_write-Calm os w s.conn)
        (handle_write-Inv os w v.out) v

  abbrev pub AllFed : Received → Written → List Callback → Echo os → Type 0
  AllFed r w [] s = Unit {0}
  AllFed r w (c ∷ cs) s = IsFed r c s × AllFed r w cs (callback os r w c s)

  callbacks-Inv :
      (r : Received) (w : Written) (cs : List Callback) (s : Echo os)
      → AllFed r w cs s
      → Inv s
      → Inv (callbacks os r w cs s)
  unfolding callbacks
  callbacks-Inv r w [] s f v = v
  callbacks-Inv r w (c ∷ cs) s f v =
      if_elim Inv s.conn.aborted (λ _. v)
        (λ _. callbacks-Inv r w cs (callback os r w c s) f.1 (callback-Inv r w c s f.0 v))

  abbrev pub EventFed : Event os → Echo os → Type 0
  EventFed (polls revents r w) s = AllFed r w (handle_event true true revents) s
  EventFed destroys s = Unit {0}

  abbrev pub EventsFed : List (Event os) → Echo os → Type 0
  EventsFed [] s = Unit {0}
  EventsFed (e ∷ es) s = EventFed e s × EventsFed es (step os s e)

  step-Inv : (e : Event os) (s : Echo os) → EventFed e s → Inv s → Inv (step os s e)
  unfolding step
  step-Inv (polls revents r w) s f v = callbacks-Inv r w (handle_event true true revents) s f v
  step-Inv destroys s f v =
      Calm-Inv s (connect_destroyed os s.conn) (connect_destroyed-Calm os s.conn)
        (connect_destroyed-Inv os v.out) v

  run-Inv : (es : List (Event os)) (s : Echo os) → EventsFed es s → Inv s → Inv (run os es s)
  unfolding run
  run-Inv [] s f v = v
  run-Inv (e ∷ es) s f v =
      if_elim Inv s.conn.aborted (λ _. v) (λ _. run-Inv es (step os s e) f.1 (step-Inv e s f.0 v))

  accepted-Inv : (identity fd : ℕ) (p : Poller os) → Inv (accepted os identity fd p)
  unfolding accepted connect_established new_connection init contents readable_bytes
  accepted-Inv identity fd p = record {
    out = connect_established-Inv os (new-Inv os identity fd p);
    valid = init-IsValid initial_size (omega arith);
    size = omega (arith, length-replicate {A = ℕ} 1032 0);
    bounded = omega arith;
    empty = refl;
    same = λ e. refl;
  }

  -- A connection of the echo server, whatever the socket reports and in whatever order, as long as the
  -- kernel gives no more bytes than it was given room for and the bytes read stay below `size_t`: while
  -- the connection is up, the bytes given to the kernel, with those that wait in the output buffer
  -- behind them, are the bytes that were read, in order, and none of them is left in the input buffer.
  pub echoes_in_order :
      (es : List (Event os)) (identity fd : ℕ) (p : Poller os)
      → EventsFed es (accepted os identity fd p)
      → (run os es (accepted os identity fd p)).conn.state ≡ connected
      → let s = run os es (accepted os identity fd p) in
        (s.conn.written ++ contents s.conn.output ≡ s.got) × (contents s.conn.input ≡ [])
  echoes_in_order es identity fd p f e =
      let v = run-Inv es (accepted os identity fd p) f (accepted-Inv identity fd p) in
      (v.out.stream ∙ v.same e, v.empty)
