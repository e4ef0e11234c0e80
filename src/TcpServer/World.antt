-- ===== src/TcpServer/World.antt =====
-- The events of a server of reactor_net/src/TcpServer.cpp, with its connections' close callbacks.
use cc_learning.Base.{insert, erase, ℕ, List, [], ◌∷◌, Option, none, some, Bytes, StringMap, lookup}
use cc_learning.TcpServer.{
  Entry, TcpServer, new_server, set_thread_num, start, new_connection, remove_connection,
  run_removal,
}

-- A server that was started, and its connections whose close callback was not called yet.
pub record World : Type 0 where
  pub server : TcpServer
  pub alive : StringMap Entry

-- A connection comes; a connection closes and calls its close callback, once; the base loop makes the
-- oldest call that is queued there.
pub data Event : Type 0 where
  accepts : ℕ → Bytes → Event
  closes : Bytes → Event
  removes : Event

-- `none`: the name of the new connection is taken, or there is no such connection that can close.
unfoldable pub step : Event → World → Option World
step (accepts socket peer) w =
    let (loop, name, s') = new_connection socket peer w.server in
    elim (lookup w.server.connections name) [
      | none ↦ some (record {
        server = s';
        alive = insert name (record { socket = socket; loop = loop }) w.alive;
      })
      | some e ↦ none
    ]
step (closes name) w = elim (lookup w.alive name) [
  | none ↦ none
  | some e ↦
      some (record { server = remove_connection name e w.server; alive = erase name w.alive })
]
step removes w = some (record w { server = run_removal w.server.removals w.server })

unfoldable pub run : List Event → World → Option World
unfolding step
run [] w = some w
run (e ∷ es) w = elim (step e w) [ none ↦ none | some w' ↦ run es w' ]

-- The server when it was started.
abbrev pub new_world : Bytes → ℕ → World
new_world name threads = record {
  server = start (set_thread_num threads (new_server name));
  alive = [];
}
