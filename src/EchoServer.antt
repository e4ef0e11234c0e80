-- ===== src/EchoServer.antt =====
-- The echo server of reactor_net/src/main.cpp on a connection of TcpConnection: here the message
-- callback is known, and `handleRead` calls it in its place. `got` records the bytes read.
pub mod Calm
pub mod InOrder
mod Tests
use cc_learning.Base.{ℕ, Bool, true, List, [], ◌∷◌, ◌++◌, Bytes, if◌then◌else◌}
use cc_learning.Buffer.{retrieve_all_as_string, Received, received, Written}
use cc_learning.Channel.{
  Epoll, Poller, Revents, Callback, closes, errors, reads, writes, handle_event,
}
use cc_learning.TcpConnection
use cc_learning.TcpConnection.{
  TcpConnection, new_connection, connect_established, connect_destroyed, handle_read, send,
}

-- What a read that gives something gives.
abbrev pub bytes_of : Received → Bytes
bytes_of (Received.failed errno) = []
bytes_of (received d) = d

module _ (os : Epoll) where
  pub record Echo : Type 0 where
    pub conn : TcpConnection os
    pub got : Bytes

  -- The message callback.
  unfoldable pub echo : TcpConnection os → TcpConnection os
  echo s =
      let (msg, input') = retrieve_all_as_string s.input in
      send os true msg (record s { input = input' })

  -- `handleRead` makes the callback when bytes have arrived.
  unfoldable pub notify : Received → TcpConnection os → TcpConnection os
  unfolding echo
  notify (Received.failed errno) s = s
  notify (received []) s = s
  notify (received (x ∷ xs)) s = echo s

  unfoldable pub echo_read : Received → Echo → Echo
  unfolding notify
  echo_read r s = record s { conn = notify r (handle_read os r s.conn); got = s.got ++ bytes_of r }

  unfoldable pub callback : Received → Written → Callback → Echo → Echo
  unfolding echo_read
  callback r w closes s = record s { conn = TcpConnection.callback os r w closes s.conn }
  callback r w errors s = record s { conn = TcpConnection.callback os r w errors s.conn }
  callback r w reads s = echo_read r s
  callback r w writes s = record s { conn = TcpConnection.callback os r w writes s.conn }

  unfoldable pub callbacks : Received → Written → List Callback → Echo → Echo
  unfolding callback
  callbacks r w [] s = s
  callbacks r w (c ∷ cs) s =
      let next = callbacks r w cs (callback r w c s) in if s.conn.aborted then s else next

  -- The socket is ready for something, or the server's `connectDestroyed` runs.
  pub data Event : Type 0 where
    polls : Revents → Received → Written → Event
    destroys : Event

  unfoldable pub step : Echo → Event → Echo
  unfolding callbacks
  step s (polls revents r w) = callbacks r w (handle_event true true revents) s
  step s destroys = record s { conn = connect_destroyed os s.conn }

  unfoldable pub run : List Event → Echo → Echo
  unfolding step
  run [] s = s
  run (e ∷ es) s = let rest = run es (step s e) in if s.conn.aborted then s else rest

  -- A connection that `newConnection` has made and established.
  unfoldable pub accepted : ℕ → ℕ → Poller os → Echo
  accepted identity fd p = record {
    conn = connect_established os (new_connection os identity fd p);
    got = [];
  }
