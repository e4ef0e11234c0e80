-- ===== src/TcpServer.antt =====
-- reactor_net/src/TcpServer.cpp: the connection table and the choice of a loop for a new connection. A
-- loop is a number, 0 for the base loop and from 1 on for the sub-loops; a connection is known by its
-- socket. What runs in other loops is in `queued`. `nextConnId_` stays below the largest `int`.
pub mod RoundRobin
pub mod Connections
pub mod Balance
pub mod World
pub mod Removal
pub mod History
mod Tests
use cc_learning.Base.{
  ℕ, zero, suc, ◌+◌, ◌%◌, Bool, true, false, not, List, [], ◌∷◌, ◌++◌, Option, none, some, Bytes,
  bytes, length, take, ltb, ◌==◌, if◌then◌else◌, StringMap, lookup, insert, erase, decimal,
}

-- A task for a loop: to establish a connection there, or to destroy it.
pub data Task : Type 0 where
  establishes destroys : ℕ → ℕ → Task

-- What the table holds of a connection: its socket and its loop.
pub record Entry : Type 0 where
  pub socket : ℕ
  pub loop : ℕ

pub record TcpServer : Type 0 where
  pub name : Bytes
  pub started : Bool
  pub listening : Bool
  pub next_conn_id : ℕ
  pub thread_num : ℕ
  -- How many sub-loops there are.
  pub sub_loops : ℕ
  pub connections : StringMap Entry
  pub queued : List Task
  -- The calls of `removeConnectionInLoop` that are queued in the base loop, oldest first.
  pub removals : List (Bytes × Entry)
  pub aborted : Bool

unfoldable pub new_server : Bytes → TcpServer
new_server name = record {
  name = name;
  started = false;
  listening = false;
  next_conn_id = 1;
  thread_num = 0;
  sub_loops = 0;
  connections = [];
  queued = [];
  removals = [];
  aborted = false;
}

unfoldable pub set_thread_num : ℕ → TcpServer → TcpServer
set_thread_num n s = if s.started then record s { aborted = true } else record s { thread_num = n }

-- The base loop calls this itself, so it listens at once.
unfoldable pub start : TcpServer → TcpServer
start s =
    let s' =
      if s.started
      then s
      else record s { started = true; sub_loops = s.sub_loops + s.thread_num } in
    record s' { listening = true }

unfoldable pub get_all_loops : ℕ → List ℕ
get_all_loops zero = 0 ∷ []
get_all_loops (suc n) = get_all_loops n ++ suc n ∷ []

-- The loop for the next connection, and the server after the choice.
unfoldable pub choose_loop : TcpServer → ℕ × TcpServer
choose_loop s =
    if s.sub_loops == 0
    then (0, s)
    else (suc (s.next_conn_id % s.sub_loops), record s { next_conn_id = suc s.next_conn_id })

-- `snprintf` into 64 characters.
unfoldable pub connection_name : Bytes → TcpServer → Bytes
connection_name peer s =
    s.name ++ take 63 (bytes "-" ++ (peer ++ (bytes "#" ++ decimal s.next_conn_id)))

-- `newConnection`: the loop, the name and the server.
unfoldable pub new_connection : ℕ → Bytes → TcpServer → ℕ × Bytes × TcpServer
unfolding choose_loop connection_name
new_connection socket peer s =
    let (loop, s') = choose_loop s in
    let name = connection_name peer s' in
    (
      loop,
      name,
      record s' {
        connections = insert name (record { socket = socket; loop = loop }) s'.connections;
        queued = s'.queued ++ establishes loop socket ∷ [];
      },
    )

-- `removeConnectionInLoop` of the connection with this name, socket and loop.
unfoldable pub remove_connection_in_loop : Bytes → Entry → TcpServer → TcpServer
remove_connection_in_loop name e s = elim (lookup s.connections name) [
  | none ↦ record s { aborted = true }
  | some x ↦ record s {
    connections = erase name s.connections;
    queued = s.queued ++ destroys e.loop e.socket ∷ [];
  }
]

-- `removeConnection`, called in the connection's loop: where that is the base loop, `runInLoop` calls at
-- once, otherwise it queues.
unfoldable pub remove_connection : Bytes → Entry → TcpServer → TcpServer
unfolding remove_connection_in_loop
remove_connection name e s =
    if e.loop == 0
    then remove_connection_in_loop name e s
    else record s { removals = s.removals ++ (name, e) ∷ [] }

-- The base loop makes the oldest call that is queued.
unfoldable pub run_removal : List (Bytes × Entry) → TcpServer → TcpServer
unfolding remove_connection_in_loop
run_removal [] s = s
run_removal ((name, e) ∷ rs) s = remove_connection_in_loop name e (record s { removals = rs })

-- What the destructor gives to the loops of the connections.
unfoldable pub destroy_tasks : StringMap Entry → List Task
destroy_tasks [] = []
destroy_tasks ((name, e) ∷ m) = destroys e.loop e.socket ∷ destroy_tasks m

-- The destructor.
unfoldable pub destroy_server : TcpServer → TcpServer
unfolding destroy_tasks
destroy_server s = record s { connections = []; queued = s.queued ++ destroy_tasks s.connections }

-- Connections that come one after the other, as sockets and peers: the loops chosen.
unfoldable pub accept_all : List (ℕ × Bytes) → TcpServer → List ℕ × TcpServer
unfolding new_connection
accept_all [] s = ([], s)
accept_all ((socket, peer) ∷ ps) s =
    let (loop, name, s') = new_connection socket peer s in
    let (loops, s'') = accept_all ps s' in (loop ∷ loops, s'')
