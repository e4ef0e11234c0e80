-- ===== src/TcpServer/Removal.antt =====
-- The table of reactor_net/src/TcpServer.cpp and the removals that wait in the base loop.
use cc_learning.Base.{
  sym, insert, erase, eq_bytes, eq_bytes→eq, eq_bytes_refl, Bool-cases, Option-cases, inl, inr,
  lookup-insert_self, lookup-insert_ne, lookup-erase_self, lookup-erase_ne, ℕ, ◌≡◌, refl, ap, subst,
  ◌∙◌, false, List, [], ◌∷◌, Option, none, some, Bytes, if_elim, ◌==◌, lookup, HasUniqueKeys,
}
use cc_learning.TcpServer.{
  Entry, TcpServer, choose_loop, new_connection, remove_connection_in_loop, remove_connection,
  run_removal,
}
use cc_learning.TcpServer.Connections.{
  connections-choose_loop, removals-choose_loop, other_key, keys_differ, lookup-append_old,
  lookup-append_new, append-HasUniqueKeys,
}
use cc_learning.TcpServer.Balance.{Inv, new_connection-Inv, remove_in_loop-Inv}
use cc_learning.TcpServer.World.{World}

-- Every connection that is open is in the table and not about to be removed; every one that is about
-- to be removed is in the table.
pub record WorldInv (w : World) : Type 0 where
  pub base : Inv w.server
  pub removals_unique : HasUniqueKeys w.server.removals
  pub covered :
      (k : Bytes) (x : Entry)
      → lookup w.alive k ≡ some x
      → (lookup w.server.connections k ≡ some x) × (lookup w.server.removals k ≡ none)
  pub awaited :
      (k : Bytes) (x : Entry)
      → lookup w.server.removals k ≡ some x
      → lookup w.server.connections k ≡ some x

not_awaited :
    (s : TcpServer) (name : Bytes)
    → lookup s.connections name ≡ none
    → ((k : Bytes) (x : Entry) → lookup s.removals k ≡ some x → lookup s.connections k ≡ some x)
    → lookup s.removals name ≡ none
not_awaited s name h a = from (lookup s.removals name) refl
  where
    from : (o : Option Entry) → lookup s.removals name ≡ o → o ≡ none
    from none q = refl
    from (some x) q = let r = a name x q in absurd (let z : ⊥ = cc in z)

new_connection_lem :
    (socket : ℕ) (peer : Bytes) (s : TcpServer)
    → let (loop, name, s') = new_connection socket peer s in
      (s'.connections ≡ insert name (record { socket = socket; loop = loop }) s.connections)
      × (s'.removals ≡ s.removals)
unfolding new_connection
new_connection_lem socket peer s = (
  ap
      (insert (new_connection socket peer s).1
        (record { socket = socket; loop = (choose_loop s).0 }))
      (connections-choose_loop s),
  removals-choose_loop s,
)

-- A new connection is put into both tables under a name that neither has.
pub accepts-WorldInv :
    (socket : ℕ) (peer : Bytes) (w : World)
    → lookup w.server.connections (new_connection socket peer w.server).1 ≡ none
    → WorldInv w
    → let (loop, name, s') = new_connection socket peer w.server in
      WorldInv (record {
        server = s';
        alive = insert name (record { socket = socket; loop = loop }) w.alive;
      })
accepts-WorldInv socket peer w fresh v =
    let loop : ℕ = (new_connection socket peer w.server).0 in
    let name : Bytes = (new_connection socket peer w.server).1 in
    let entry : Entry = record { socket = socket; loop = loop } in
    let l = new_connection_lem socket peer w.server in
    let old : (k : Bytes) (x : Entry)
        → lookup w.server.connections k ≡ some x
        → lookup (new_connection socket peer w.server).2.connections k ≡ some x =
      λ k x h.
        ap (λ m. lookup m k) l.0
        ∙ lookup-insert_ne name k entry w.server.connections
            (keys_differ w.server.connections name k x h fresh)
        ∙ h in
    record {
      base = new_connection-Inv socket peer w.server fresh v.base;
      removals_unique = subst HasUniqueKeys (sym l.1) v.removals_unique;
      covered = λ k x h. elim (Bool-cases (eq_bytes k name)) [
        | inl e ↦
            let q : k ≡ name = eq_bytes→eq k name e in
            let same : some x ≡ some entry =
              sym h
              ∙ ap (lookup (insert name entry w.alive)) q
              ∙ lookup-insert_self name entry w.alive in
            (
              ap (λ m. lookup m k) l.0
                  ∙ ap (lookup (insert name entry w.server.connections)) q
                  ∙ lookup-insert_self name entry w.server.connections
                  ∙ sym same,
              ap (λ m. lookup m k) l.1
                  ∙ ap (lookup w.server.removals) q
                  ∙ not_awaited w.server name fresh v.awaited,
            )
        | inr n ↦
            let h' : lookup w.alive k ≡ some x =
              sym (lookup-insert_ne name k entry w.alive n) ∙ h in
            let c = v.covered k x h' in (old k x c.0, ap (λ m. lookup m k) l.1 ∙ c.1)
      ];
      awaited = λ k x h. old k x (v.awaited k x (sym (ap (λ m. lookup m k) l.1) ∙ h));
    }

-- The name and the entry are taken out of both tables.
removes-WorldInv :
    (name : Bytes) (e : Entry) (w : World) (rs : List (Bytes × Entry))
    → lookup w.server.connections name ≡ some e
    → lookup rs name ≡ none
    → HasUniqueKeys rs
    → ((k : Bytes) (x : Entry) → lookup rs k ≡ some x → lookup w.server.connections k ≡ some x)
    → ((k : Bytes) (x : Entry)
        → lookup w.alive k ≡ some x
        → (eq_bytes k name ≡ false)
          × (lookup w.server.connections k ≡ some x)
          × (lookup rs k ≡ none))
    → Inv w.server
    → WorldInv (record w {
      server = remove_connection_in_loop name e (record (w.server) { removals = rs });
    })
unfolding remove_connection_in_loop
removes-WorldInv name e w rs h n u a c b =
    let v =
      remove_in_loop-Inv name e (record (w.server) { removals = rs }) h
        (record { unique = b.unique; runs = b.runs; balance = b.balance }) in
    rw (remove_connection_in_loop, h)
      (record {
        base = subst Inv (rw (remove_connection_in_loop, h) refl) v;
        removals_unique = u;
        covered = λ k x q.
            (let (d, t, f) = c k x q in (lookup-erase_ne name k w.server.connections d ∙ t, f));
        awaited = λ k x q.
            lookup-erase_ne name k w.server.connections (keys_differ rs name k x q n) ∙ a k x q;
      })

pub closes-WorldInv :
    (name : Bytes) (e : Entry) (w : World)
    → lookup w.alive name ≡ some e
    → WorldInv w
    → WorldInv (record { server = remove_connection name e w.server; alive = erase name w.alive })
unfolding remove_connection lookup
closes-WorldInv name e w h v =
    let c = v.covered name e h in
    let others : (k : Bytes) (x : Entry)
        → lookup (erase name w.alive) k ≡ some x
        → (eq_bytes k name ≡ false)
          × (lookup w.server.connections k ≡ some x)
          × (lookup w.server.removals k ≡ none) =
      λ k x q.
        (let d = keys_differ (erase name w.alive) name k x q (lookup-erase_self name w.alive) in
          let p = v.covered k x (sym (lookup-erase_ne name k w.alive d) ∙ q) in (d, p.0, p.1)) in
    if_elim (λ (s : TcpServer). WorldInv (record { server = s; alive = erase name w.alive }))
      (e.loop == 0)
      (λ _.
        removes-WorldInv name e (record w { alive = erase name w.alive }) w.server.removals c.0 c.1
          v.removals_unique v.awaited others v.base)
      (λ _. record {
        base = record { unique = v.base.unique; runs = v.base.runs; balance = v.base.balance };
        removals_unique = append-HasUniqueKeys w.server.removals name e c.1 v.removals_unique;
        covered = λ k x q.
            (let (d, p, f) = others k x q in
              (p, lookup-append_new w.server.removals name k e f ∙ rw (lookup, d) refl));
        awaited = λ k x q. elim (Option-cases (lookup w.server.removals k)) [
          | inl n ↦ elim (Bool-cases (eq_bytes k name)) [
            | inl t ↦
                let r : some x ≡ some e =
                  sym q ∙ lookup-append_new w.server.removals name k e n ∙ rw (lookup, t) refl in
                ap (lookup w.server.connections) (eq_bytes→eq k name t) ∙ c.0 ∙ sym r
            | inr t ↦
                let r : some x ≡ none =
                  sym q ∙ lookup-append_new w.server.removals name k e n ∙ rw (lookup, t) refl in
                absurd (let z : ⊥ = cc in z)
          ]
          | inr y ↦
              v.awaited k x (y.1 ∙ sym (lookup-append_old w.server.removals name k e y.0 y.1) ∙ q)
        ];
      })

pub run_removal-WorldInv :
    (w : World) (rs : List (Bytes × Entry))
    → w.server.removals ≡ rs
    → WorldInv w
    → WorldInv (record w { server = run_removal rs w.server })
unfolding run_removal lookup
run_removal-WorldInv w [] q v = v
run_removal-WorldInv w ((name, e) ∷ rs) q v =
    let first : lookup w.server.removals name ≡ some e =
      ap (λ m. lookup m name) q ∙ rw (lookup, eq_bytes_refl name) refl in
    let u : HasUniqueKeys ((name, e) ∷ rs) = subst HasUniqueKeys q v.removals_unique in
    removes-WorldInv name e w rs (v.awaited name e first) u.0 u.1
      (λ k x h.
        v.awaited k x (ap (λ m. lookup m k) q ∙ rw (lookup, keys_differ rs name k x h u.0) h))
      (λ k x h.
        (let c = v.covered k x h in
          let n : lookup ((name, e) ∷ rs) k ≡ none = sym (ap (λ m. lookup m k) q) ∙ c.1 in
          let d : eq_bytes k name ≡ false =
            other_key name k
              (keys_differ ((name, e) ∷ rs) k name e (rw (lookup, eq_bytes_refl name) refl) n) in
          (d, c.0, sym (rw (lookup, d) refl) ∙ n)))
      v.base
