-- ===== src/TcpServer/Balance.antt =====
-- The connections of reactor_net/src/TcpServer.cpp against the tasks that were given to the loops.
use cc_learning.Base.{
  ℕ, ◌+◌, ◌≡◌, refl, ap, ◌∙◌, arith, Bool, false, [], ◌∷◌, none, some, Bytes, count, count-append,
  if_elim, ◌==◌, StringMap, lookup, HasUniqueKeys, count_values, count_values-insert,
  insert-HasUniqueKeys, count_values-erase, erase-HasUniqueKeys,
}
use cc_learning.TcpServer.{
  Task, establishes, destroys, Entry, TcpServer, choose_loop, connection_name, new_connection,
  remove_connection_in_loop, destroy_tasks,
}
use cc_learning.TcpServer.Connections.{connections-choose_loop}

abbrev pub establishes_at : ℕ → Task → Bool
establishes_at i (establishes loop socket) = socket == i
establishes_at i (destroys loop socket) = false

abbrev pub destroys_at : ℕ → Task → Bool
destroys_at i (establishes loop socket) = false
destroys_at i (destroys loop socket) = socket == i

abbrev pub has_socket : ℕ → Entry → Bool
has_socket i e = e.socket == i

pub record Inv (s : TcpServer) : Type 0 where
  pub unique : HasUniqueKeys s.connections
  pub runs : s.aborted ≡ false
  pub balance :
      (i : ℕ)
      → count (establishes_at i) s.queued
        ≡ count_values (has_socket i) s.connections + count (destroys_at i) s.queued

-- The choice of a loop leaves all of this alone.
choose_loop-Inv : (s : TcpServer) → Inv s → Inv (choose_loop s).1
unfolding choose_loop
choose_loop-Inv s v =
    if_elim (λ (r : ℕ × TcpServer). Inv r.1) (s.sub_loops == 0) (λ _. v)
      (λ _. record { unique = v.unique; runs = v.runs; balance = v.balance })

pub new_connection-Inv :
    (socket : ℕ) (peer : Bytes) (s : TcpServer)
    → lookup s.connections (new_connection socket peer s).1 ≡ none
    → Inv s
    → Inv (new_connection socket peer s).2
unfolding new_connection
new_connection-Inv socket peer s fresh v =
    let c : TcpServer = (choose_loop s).1 in
    let loop : ℕ = (choose_loop s).0 in
    let w = choose_loop-Inv s v in
    let name : Bytes = connection_name peer c in
    let absent : lookup c.connections name ≡ none =
      ap (λ m. lookup m name) (connections-choose_loop s) ∙ fresh in
    let entry : Entry = record { socket = socket; loop = loop } in
    record {
      unique = insert-HasUniqueKeys name entry c.connections absent w.unique;
      runs = w.runs;
      balance = λ i. omega (
        arith,
        w.balance i,
        count_values-insert (has_socket i) name entry c.connections absent,
        count-append (establishes_at i) c.queued (establishes loop socket ∷ []),
        count-append (destroys_at i) c.queued (establishes loop socket ∷ []),
      );
    }

pub remove_in_loop-Inv :
    (name : Bytes) (e : Entry) (s : TcpServer)
    → lookup s.connections name ≡ some e
    → Inv s
    → Inv (remove_connection_in_loop name e s)
unfolding remove_connection_in_loop
remove_in_loop-Inv name e s q v =
    rw (remove_connection_in_loop, q)
      (record {
        unique = erase-HasUniqueKeys name s.connections v.unique;
        runs = v.runs;
        balance = λ i. omega (
          arith,
          v.balance i,
          count_values-erase (has_socket i) name e s.connections v.unique q,
          count-append (establishes_at i) s.queued (destroys e.loop e.socket ∷ []),
          count-append (destroys_at i) s.queued (destroys e.loop e.socket ∷ []),
        );
      })

pub count-destroy_tasks :
    (i : ℕ) (m : StringMap Entry)
    → (count (destroys_at i) (destroy_tasks m) ≡ count_values (has_socket i) m)
      × (count (establishes_at i) (destroy_tasks m) ≡ 0)
unfolding destroy_tasks
count-destroy_tasks i [] = (refl, refl)
count-destroy_tasks i ((name, e) ∷ m) =
    let r = count-destroy_tasks i m in (omega (arith, r.0), omega (arith, r.1))
