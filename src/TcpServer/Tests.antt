-- ===== src/TcpServer/Tests.antt =====
-- Four connections on three sub-loops, and one that is removed.
use cc_learning.Base.{
  length, none, ◌+◌, ◌≤◌, ◌<◌, get_elem?, insert, lt_bytes, erase, eq_bytes, decimal, decimal_loop,
  ℕ, ◌≡◌, refl, arith, List, [], ◌∷◌, some, Bytes, bytes, lookup, true, false,
}
use cc_learning.TcpServer.{
  TcpServer, choose_loop, new_connection, remove_connection, remove_connection_in_loop, run_removal,
  accept_all, new_server, set_thread_num, start, connection_name,
}
use cc_learning.TcpServer.RoundRobin.{accept_all-in_turn}
use cc_learning.TcpServer.World.{World, new_world, Event, accepts, closes, removes, run, step}

abbrev server : TcpServer
server = record {
  name = bytes "s";
  started = true;
  listening = true;
  next_conn_id = 1;
  thread_num = 3;
  sub_loops = 3;
  connections = [];
  queued = [];
  removals = [];
  aborted = false;
}

abbrev peers : List (ℕ × Bytes)
peers = (5, bytes "a") ∷ (6, bytes "b") ∷ (7, bytes "c") ∷ (8, bytes "d") ∷ []

accept_all-in_turn_example :
    (1 ≤ 3)
    × (3 ≤ 3)
    × ((d : ℕ) × (d < 3)
        × (get_elem? (accept_all peers server).0 (1 + d) ≡ some 2)
        × (◌≡◌ {A = ℕ} 3 2 → 0 ≡ d))
unfolding accept_all new_connection choose_loop
accept_all-in_turn_example =
    accept_all-in_turn peers server 1 1 0 (omega arith) (omega arith) (omega arith) refl

-- Three connections of a server with two sub-loops. Two of them go down; the removal of one is run, that
-- of the other is still queued.
abbrev events : List Event
events =
    accepts 5 (bytes "a")
    ∷ accepts 6 (bytes "b")
    ∷ closes (bytes "s-a#2")
    ∷ accepts 7 (bytes "c")
    ∷ closes (bytes "s-b#3")
    ∷ removes
    ∷ []

abbrev reached : World
unfolding run step start set_thread_num new_server new_connection choose_loop connection_name
    remove_connection remove_connection_in_loop run_removal lookup insert lt_bytes erase eq_bytes
    decimal decimal_loop
reached = elim (run events (new_world (bytes "s") 2)) [
  | none ↦ record { server = server; alive = [] }
  | some w ↦ w
]

-- The second removal is still queued.
still_queued : length reached.server.removals ≡ 1
unfolding reached run step start set_thread_num new_server new_connection choose_loop
    connection_name remove_connection remove_connection_in_loop run_removal lookup insert lt_bytes
    erase eq_bytes decimal decimal_loop
still_queued = refl
