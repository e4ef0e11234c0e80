-- ===== src/TcpConnection.antt =====
-- reactor_net/src/TcpConnection.cpp: the state machine of a connection over its channel and its two
-- buffers. A step is one handler, or one call by the client; what the message callback does on the
-- connection comes as further calls. A failed assertion ends the program: `aborted`. `accepted` and
-- `written` record the bytes put into the output buffer and those given to the kernel.
pub mod Output
pub mod Sending
pub mod Flushed
mod Tests
use cc_learning.Base.{
  ℕ, suc, ◌+◌, Bool, true, false, not, ◌&&◌, ◌||◌, List, [], ◌∷◌, ◌++◌, Option, none, some, Bytes,
  length, take, ltb, ◌==◌, if◌then◌else◌,
}
use cc_learning.Buffer.{
  Buffer, init, initial_size, readable_bytes, contents, append, retrieve, read_fd, Received,
  received, write_fd, Written, wrote,
}
use cc_learning.Channel.{
  Epoll, Channel, new_channel, is_writing, Poller, enable_reading, enable_writing, disable_writing,
  disable_all, remove, Revents, Callback, closes, errors, reads, writes, handle_event,
}

pub data StateE : Type 0 where
  connecting connected disconnecting disconnected : StateE

-- What is queued on the loop.
pub data Functor : Type 0 where
  sends_in_loop : Bytes → Functor
  shuts_down_in_loop force_closes_in_loop connects_destroyed : Functor

abbrev pub is_connected : StateE → Bool
is_connected connected = true
is_connected connecting = false
is_connected disconnecting = false
is_connected disconnected = false

abbrev pub is_open : StateE → Bool
is_open connected = true
is_open disconnecting = true
is_open connecting = false
is_open disconnected = false

abbrev pub is_disconnected : StateE → Bool
is_disconnected disconnected = true
is_disconnected connecting = false
is_disconnected connected = false
is_disconnected disconnecting = false

abbrev pub is_connecting : StateE → Bool
is_connecting connecting = true
is_connecting connected = false
is_connecting disconnecting = false
is_connecting disconnected = false

module _ (os : Epoll) where
  pub record TcpConnection : Type 0 where
    pub state : StateE
    pub channel : Channel
    pub poller : Poller os
    pub input : Buffer
    pub output : Buffer
    -- The write side of the socket is shut down.
    pub half_closed : Bool
    -- Calls of the connection callback, when the connection comes up and when it goes down, and of
    -- the close callback.
    pub ups : ℕ
    pub downs : ℕ
    pub close_calls : ℕ
    pub pending : List Functor
    pub aborted : Bool
    pub accepted : Bytes
    pub written : Bytes

  unfoldable pub new_connection : ℕ → ℕ → Poller os → TcpConnection
  new_connection identity fd p = record {
    state = connecting;
    channel = new_channel identity fd;
    poller = p;
    input = init initial_size;
    output = init initial_size;
    half_closed = false;
    ups = 0;
    downs = 0;
    close_calls = 0;
    pending = [];
    aborted = false;
    accepted = [];
    written = [];
  }

  abbrev pub set_channel : Channel × Poller os → TcpConnection → TcpConnection
  set_channel (c, p) s = record s { channel = c; poller = p }

  unfoldable pub abort : TcpConnection → TcpConnection
  abort s = record s { aborted = true }

  unfoldable pub connect_established : TcpConnection → TcpConnection
  unfolding abort
  connect_established s =
      if is_connecting s.state
      then record (set_channel (enable_reading os s.channel s.poller) s) {
        state = connected;
        ups = suc s.ups;
      }
      else abort s

  unfoldable pub remove_from_loop : TcpConnection → TcpConnection
  unfolding abort
  remove_from_loop s = elim (remove os s.channel s.poller) [
    | none ↦ abort s
    | some x ↦ set_channel x s
  ]

  unfoldable pub connect_destroyed : TcpConnection → TcpConnection
  unfolding remove_from_loop
  connect_destroyed s = remove_from_loop (
      if is_connected s.state
      then record (set_channel (disable_all os s.channel s.poller) s) {
        state = disconnected;
        downs = suc s.downs;
      }
      else s)

  unfoldable pub handle_close : TcpConnection → TcpConnection
  unfolding abort
  handle_close s =
      if is_open s.state
      then record (set_channel (disable_all os s.channel s.poller) s) {
        state = disconnected;
        downs = suc s.downs;
        close_calls = suc s.close_calls;
      }
      else abort s

  -- The count that `read` gives, on the buffer that it has filled.
  unfoldable pub after_read : Received → TcpConnection → TcpConnection
  unfolding handle_close
  after_read (Received.failed errno) s = s
  after_read (received []) s =
      if ltb 0 (readable_bytes s.output) then record s { state = disconnecting } else handle_close s
  after_read (received (x ∷ xs)) s = s

  unfoldable pub handle_read : Received → TcpConnection → TcpConnection
  unfolding after_read
  handle_read r s = after_read r (record s { input = (read_fd s.input r).1 })

  unfoldable pub shutdown_in_loop : TcpConnection → TcpConnection
  shutdown_in_loop s = if is_writing s.channel then s else record s { half_closed = true }

  -- Some bytes were written.
  unfoldable pub after_write : TcpConnection → TcpConnection
  unfolding shutdown_in_loop
  after_write s =
      if readable_bytes s.output == 0
      then (let s' = set_channel (disable_writing os s.channel s.poller) s in
          elim s.state [
            | connecting ↦ s'
            | connected ↦ s'
            | disconnecting ↦ shutdown_in_loop s'
            | disconnected ↦ s'
          ])
      else s

  -- The bytes that the kernel takes leave the buffer.
  unfoldable pub take_written : Written → TcpConnection → TcpConnection
  take_written (Written.failed errno) s = s
  take_written (wrote n) s = record s {
    output = (write_fd s.output (wrote n)).1;
    written = s.written ++ take n (contents s.output);
  }

  unfoldable pub write_output : Written → TcpConnection → TcpConnection
  unfolding take_written after_write
  write_output (Written.failed errno) s = s
  write_output (wrote n) s =
      if n == 0 then take_written (wrote n) s else after_write (take_written (wrote n) s)

  unfoldable pub handle_write : Written → TcpConnection → TcpConnection
  unfolding write_output
  handle_write w s = if is_writing s.channel then write_output w s else s

  unfoldable pub send_in_loop : Bytes → TcpConnection → TcpConnection
  send_in_loop message s =
      if is_disconnected s.state
      then s
      else (let s' = record s {
        output = append s.output message;
        accepted = s.accepted ++ message;
      } in
          if is_writing s.channel
          then s'
          else set_channel (enable_writing os s'.channel s'.poller) s')

  unfoldable pub queue : Functor → TcpConnection → TcpConnection
  queue f s = record s { pending = s.pending ++ f ∷ [] }

  -- `in_loop` says whether the caller is the loop's own thread.
  unfoldable pub send : Bool → Bytes → TcpConnection → TcpConnection
  unfolding send_in_loop queue
  send in_loop message s =
      if is_connected s.state
      then (if in_loop then send_in_loop message s else queue (sends_in_loop message) s)
      else s

  unfoldable pub shutdown : Bool → TcpConnection → TcpConnection
  unfolding shutdown_in_loop queue
  shutdown in_loop s =
      if is_connected s.state
      then (let s' = record s { state = disconnecting } in
          if in_loop then shutdown_in_loop s' else queue shuts_down_in_loop s')
      else s

  unfoldable pub force_close : TcpConnection → TcpConnection
  unfolding queue
  force_close s =
      if is_open s.state then queue force_closes_in_loop (record s { state = disconnecting }) else s

  unfoldable pub force_close_in_loop : TcpConnection → TcpConnection
  unfolding handle_close
  force_close_in_loop s = if is_open s.state then handle_close s else s

  unfoldable pub run_functor : Functor → TcpConnection → TcpConnection
  unfolding send_in_loop shutdown_in_loop force_close_in_loop connect_destroyed
  run_functor (sends_in_loop message) s = send_in_loop message s
  run_functor shuts_down_in_loop s = shutdown_in_loop s
  run_functor force_closes_in_loop s = force_close_in_loop s
  run_functor connects_destroyed s = connect_destroyed s

  -- The oldest functor of the queue is run.
  unfoldable pub run_pending : List Functor → TcpConnection → TcpConnection
  unfolding run_functor
  run_pending [] s = s
  run_pending (f ∷ fs) s = run_functor f (record s { pending = fs })

  -- `handleEvent` calls these in turn; a system call in one of them gives what the event holds.
  unfoldable pub callback : Received → Written → Callback → TcpConnection → TcpConnection
  unfolding handle_close handle_read handle_write
  callback r w closes s = handle_close s
  callback r w errors s = s
  callback r w reads s = handle_read r s
  callback r w writes s = handle_write w s

  unfoldable pub callbacks : Received → Written → List Callback → TcpConnection → TcpConnection
  unfolding callback
  callbacks r w [] s = s
  callbacks r w (c ∷ cs) s =
      let next = callbacks r w cs (callback r w c s) in if s.aborted then s else next

  pub data Event : Type 0 where
    establishes : Event
    polls : Revents → Received → Written → Event
    sends : Bool → Bytes → Event
    shuts_down : Bool → Event
    force_closes queues_destruction runs_pending : Event
    -- The client takes bytes from the input buffer.
    consumes : ℕ → Event

  unfoldable pub step : TcpConnection → Event → TcpConnection
  unfolding connect_established callbacks send shutdown force_close queue run_pending
  step s establishes = connect_established s
  step s (polls revents r w) = callbacks r w (handle_event true true revents) s
  step s (sends in_loop message) = send in_loop message s
  step s (shuts_down in_loop) = shutdown in_loop s
  step s force_closes = force_close s
  step s queues_destruction = queue connects_destroyed s
  step s runs_pending = run_pending s.pending s
  step s (consumes n) = record s { input = retrieve s.input n }

  unfoldable pub run : List Event → TcpConnection → TcpConnection
  unfolding step
  run [] s = s
  run (e ∷ es) s = let rest = run es (step s e) in if s.aborted then s else rest
