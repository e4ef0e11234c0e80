-- ===== src/EchoServer/Tests.antt =====
-- Two bytes arrive and are sent back, of which the kernel takes one.
use cc_learning.Base.{◌≡◌, refl, arith, List, [], ◌∷◌, ◌++◌, none, true, false, bytes}
use cc_learning.Buffer.{
  contents, readable_bytes, writable_bytes, Received, received, wrote, Written, write_fd, read_fd,
  readv_capacity, extra_bytes, retrieve, retrieve_all, retrieve_as_string, retrieve_all_as_string,
  append, ensure_writable_bytes, make_space, put, init,
}
use cc_learning.Channel.{
  Poller, Revents, enable_reading, enable_writing, disable_writing, set_events, update,
  update_channel, watch, epoll_update, is_none_event, handle_event, handle_event_with_guard,
  is_writing, new_channel,
}
use cc_learning.Channel.Table.{table}
use cc_learning.TcpConnection
use cc_learning.TcpConnection.{
  connected, new_connection, connect_established, send, send_in_loop, handle_read, after_read,
  handle_write, write_output, after_write, take_written,
}
use cc_learning.EchoServer.{
  echo, notify, echo_read, callback, callbacks, Event, polls, step, run, accepted,
}
use cc_learning.EchoServer.InOrder.{EventsFed, echoes_in_order}

abbrev empty : Poller table
unfolding table
empty = record { kernel = λ fd. none; channels = []; reports = [] }

abbrev readable : Revents
readable = record { hup = false; err = false; in_ = true; pri = false; rdhup = false; out = false }

abbrev writable : Revents
writable = record { hup = false; err = false; in_ = false; pri = false; rdhup = false; out = true }

abbrev events : List (Event table)
events =
    polls readable (received (bytes "ab")) (Written.failed 11)
    ∷ polls writable (Received.failed 11) (wrote 1)
    ∷ []

fed : EventsFed table events (accepted table 1 7 empty)
unfolding empty table step run accepted connect_established enable_reading enable_writing
    disable_writing set_events update update_channel watch epoll_update is_none_event send
    send_in_loop callbacks callback TcpConnection.callback echo notify echo_read handle_event
    handle_event_with_guard is_writing handle_read after_read handle_write write_output after_write
    take_written write_fd read_fd readv_capacity extra_bytes retrieve retrieve_all
    retrieve_as_string retrieve_all_as_string readable_bytes writable_bytes contents append
    ensure_writable_bytes make_space put init new_connection new_channel
fed = ((((omega arith, omega arith), tt)), ((tt, tt), tt))

echoes_in_order_example :
    let s = run table events (accepted table 1 7 empty) in
    (s.conn.written ++ contents s.conn.output ≡ s.got) × (contents s.conn.input ≡ [])
unfolding empty table step run accepted connect_established enable_reading enable_writing
    disable_writing set_events update update_channel watch epoll_update is_none_event send
    send_in_loop callbacks callback TcpConnection.callback echo notify echo_read handle_event
    handle_event_with_guard is_writing handle_read after_read handle_write write_output after_write
    take_written write_fd read_fd readv_capacity extra_bytes retrieve retrieve_all
    retrieve_as_string retrieve_all_as_string readable_bytes writable_bytes contents append
    ensure_writable_bytes make_space put init new_connection new_channel
echoes_in_order_example = echoes_in_order table events 1 7 empty fed refl
