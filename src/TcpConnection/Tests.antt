-- ===== src/TcpConnection/Tests.antt =====
-- A connection that sends two bytes, of which the kernel takes one.
use cc_learning.Base.{◌≡◌, refl, arith, List, [], ◌∷◌, ◌++◌, none, true, false, bytes}
use cc_learning.Buffer.{
  contents, readable_bytes, writable_bytes, Received, wrote, write_fd, retrieve, retrieve_all,
  append, ensure_writable_bytes, put, init,
}
use cc_learning.Channel.{
  Poller, Revents, enable_reading, enable_writing, disable_writing, set_events, update,
  update_channel, watch, epoll_update, is_none_event, handle_event, handle_event_with_guard,
  is_writing, new_channel,
}
use cc_learning.Channel.Table.{table}
use cc_learning.TcpConnection.{
  shuts_down, shutdown, new_connection, Event, establishes, sends, polls, run, step,
  shutdown_in_loop, connect_established, send, send_in_loop, callbacks, callback, handle_write,
  write_output, after_write, take_written,
}
use cc_learning.TcpConnection.Sending.{AllSmall, written_in_order, waits_to_write}
use cc_learning.TcpConnection.Flushed.{shuts_down_flushed}

abbrev empty : Poller table
unfolding table
empty = record { kernel = λ fd. none; channels = []; reports = [] }

abbrev writable : Revents
writable = record { hup = false; err = false; in_ = false; pri = false; rdhup = false; out = true }

abbrev events : List (Event table)
events = establishes ∷ sends true (bytes "ab") ∷ polls writable (Received.failed 11) (wrote 1) ∷ []

small : AllSmall table events (new_connection table 1 7 empty)
unfolding empty table step run connect_established enable_reading enable_writing disable_writing
    set_events update update_channel watch epoll_update is_none_event send send_in_loop callbacks
    callback handle_event handle_event_with_guard is_writing handle_write write_output after_write
    take_written shutdown_in_loop write_fd retrieve retrieve_all readable_bytes writable_bytes
    contents append ensure_writable_bytes put init new_connection new_channel
small = (omega arith, (omega arith, (omega arith, tt)))

written_in_order_example :
    let s = run table events (new_connection table 1 7 empty) in
    s.written ++ contents s.output ≡ s.accepted
written_in_order_example = written_in_order table events 1 7 empty small

waits_to_write_example :
    (run table events (new_connection table 1 7 empty)).channel.events.writing ≡ true
unfolding empty table step run connect_established enable_reading enable_writing disable_writing
    set_events update update_channel watch epoll_update is_none_event send send_in_loop callbacks
    callback handle_event handle_event_with_guard is_writing handle_write write_output after_write
    take_written shutdown_in_loop write_fd retrieve retrieve_all readable_bytes writable_bytes
    contents append ensure_writable_bytes put init new_connection new_channel
waits_to_write_example = waits_to_write table events 1 7 empty small refl (λ e. omega (arith, e))

-- The client shuts down while a byte is left; the write that follows does it.
abbrev before_shutdown : List (Event table)
before_shutdown = establishes ∷ sends true (bytes "ab") ∷ shuts_down true ∷ []

small_before_shutdown : AllSmall table before_shutdown (new_connection table 1 7 empty)
unfolding empty table step run connect_established enable_reading enable_writing disable_writing
    set_events update update_channel watch epoll_update is_none_event send send_in_loop callbacks
    callback handle_event handle_event_with_guard is_writing handle_write write_output after_write
    take_written shutdown_in_loop write_fd retrieve retrieve_all readable_bytes writable_bytes
    contents append ensure_writable_bytes put init new_connection new_channel shutdown
small_before_shutdown = (omega arith, (omega arith, (omega arith, tt)))

shuts_down_flushed_example :
    let s = run table before_shutdown (new_connection table 1 7 empty) in
    let t = step table s (polls writable (Received.failed 11) (wrote 2)) in t.written ≡ t.accepted
unfolding empty table step run connect_established enable_reading enable_writing disable_writing
    set_events update update_channel watch epoll_update is_none_event send send_in_loop callbacks
    callback handle_event handle_event_with_guard is_writing handle_write write_output after_write
    take_written shutdown_in_loop write_fd retrieve retrieve_all readable_bytes writable_bytes
    contents append ensure_writable_bytes put init new_connection new_channel shutdown
shuts_down_flushed_example =
    shuts_down_flushed table before_shutdown (polls writable (Received.failed 11) (wrote 2)) 1 7
      empty small_before_shutdown (omega arith) refl refl refl
