-- ===== src/TimerList/Holds.antt =====
-- The whole store of timer/timer.cc: the timers in the list, and those on their way in or out of it.
use cc_learning.Base.{
  ℕ, ◌≤◌, ◌≡◌, ◌≢◌, ◌∙◌, sym, ap, refl, arith, List, [], ◌∷◌, ◌++◌, Option, none, some, length,
  if_elim, ◌==◌, All, All-map,
}
use cc_learning.TimerList.{
  TimerNode, Nodes, TimerListMgr, update, store, free, clear_user, forget, place, unlink, del_timer,
}
use cc_learning.TimerList.Links.{Entry, node_of, IsOutside, IsDistinct, Represents, IsLinked-update}
use cc_learning.TimerList.Insert.{insert, All-insert, insert-All, place_lem}
use cc_learning.TimerList.Unlink.{All-remove, All-restore, IsDistinct-remove, unlink_lem}

abbrev pub IsLoose : Nodes → Entry → Type 0
IsLoose h d = h d.at ≡ some (node_of none d none)

-- The store holds the timers of the list and the loose ones, and no other.
pub record Holds (s : TimerListMgr) (cs ds : List Entry) : Type 0 where
  pub represents : Represents s cs
  pub loose : All (IsLoose s.nodes) ds
  pub apart : All (λ d. IsOutside d.at cs) ds
  pub distinct : IsDistinct ds
  pub unused : (a : ℕ) → IsOutside a cs → IsOutside a ds → s.nodes a ≡ none

-- Loose timers outside a part of the store keep their nodes when only that part changes.
IsLoose-same :
    (h g : Nodes) (ds : List Entry)
    → All (IsLoose h) ds
    → All (λ d. g d.at ≡ h d.at) ds
    → All (IsLoose g) ds
IsLoose-same h g [] l e = tt
IsLoose-same h g (d ∷ ds) l e = (e.0 ∙ l.0, IsLoose-same h g ds l.1 e.1)

IsOutside-pair :
    (t : Entry) (cs ds : List Entry)
    → IsOutside t.at ds
    → All (λ d. IsOutside d.at cs) ds
    → All (λ d. IsOutside d.at (t ∷ cs)) ds
IsOutside-pair t cs [] o a = tt
IsOutside-pair t cs (d ∷ ds) o a = ((λ k. o.0 (sym k), a.0), IsOutside-pair t cs ds o.1 a.1)

-- `place` moves a loose timer into the list.
pub place-Holds :
    (t : Entry) (cs ds : List Entry) (n : ℕ) (s : TimerListMgr)
    → Holds s cs (t ∷ ds)
    → length cs ≤ n
    → (s' : TimerListMgr) × (place n t.at s ≡ some s')
      × Holds s' (insert t cs) ds
      × (s'.timer_of ≡ s.timer_of)
place-Holds t cs ds n s p h =
    let (s', r, i) = place_lem t cs n s p.represents p.loose.0 p.apart.0 h in
    let o : All (λ d. IsOutside d.at (t ∷ cs)) ds = IsOutside-pair t cs ds p.distinct.0 p.apart.1 in
    (
      s',
      r,
      record {
        represents = i.represents;
        loose = IsLoose-same s.nodes s'.nodes ds p.loose.1 (All-map (λ d k. i.outside d.at k) ds o);
        apart = All-map (λ d k. All-insert (λ c. c.at ≢ d.at) t cs k) ds o;
        distinct = p.distinct.1;
        unused = λ a k l.
            let o' = insert-All (λ c. c.at ≢ a) t cs k in
            i.outside a o' ∙ p.unused a o'.1 (o'.0, l);
      },
      i.users,
    )

-- `unlink` makes a timer of the list loose.
pub unlink-Holds :
    (t : Entry) (front back ds : List Entry) (s : TimerListMgr)
    → Holds s (front ++ (t ∷ back)) ds
    → (s' : TimerListMgr) × (unlink t.at s ≡ some s')
      × Holds s' (front ++ back) (t ∷ ds)
      × (s'.timer_of ≡ s.timer_of)
unlink-Holds t front back ds s p =
    let (s', r, i) = unlink_lem t front back s p.represents in
    let o : All (λ d. t.at ≢ d.at × IsOutside d.at (front ++ back)) ds =
      All-map (λ d k. All-remove (λ c. c.at ≢ d.at) t front back k) ds p.apart in
    (
      s',
      r,
      record {
        represents = i.represents;
        loose = (
          i.loose,
          IsLoose-same s.nodes s'.nodes ds p.loose (All-map (λ d k. i.outside d.at k) ds p.apart),
        );
        apart =
            ((IsDistinct-remove t front back p.represents.distinct).0, All-map (λ d k. k.1) ds o);
        distinct = (All-map (λ d k e. k.0 (sym e)) ds o, p.distinct);
        unused = λ a k l.
            let o' = All-restore (λ c. c.at ≢ a) t front back (l.0, k) in
            i.outside a o' ∙ p.unused a o' l.1;
      },
      i.users,
    )

-- A write at a loose timer's address.
pub IsLoose-update :
    (h : Nodes) (a : ℕ) (n : Option TimerNode) (ds : List Entry)
    → IsOutside a ds
    → All (IsLoose h) ds
    → All (IsLoose (update h a n)) ds
unfolding update
IsLoose-update h a n [] o l = tt
IsLoose-update h a n (d ∷ ds) o l =
    (let ne = o.0 in let e = l.0 in ground arith, IsLoose-update h a n ds o.1 l.1)

Represents-update :
    (s : TimerListMgr) (cs : List Entry) (a : ℕ) (n : Option TimerNode)
    → IsOutside a cs
    → Represents s cs
    → Represents (store a n s) cs
Represents-update s cs a n o p = record {
  linked = IsLinked-update a n p.linked o;
  distinct = p.distinct;
  head = p.head;
  tail = p.tail;
}

-- A loose timer is deleted once.
pub free-Holds :
    (t : Entry) (cs ds : List Entry) (s : TimerListMgr)
    → Holds s cs (t ∷ ds)
    → (s' : TimerListMgr) × (free t.at s ≡ some s') × Holds s' cs ds × (s'.timer_of ≡ s.timer_of)
unfolding free update
free-Holds t cs ds s p = (
  store t.at none s,
  rw p.loose.0 refl,
  record {
    represents = Represents-update s cs t.at none p.apart.0 p.represents;
    loose = IsLoose-update s.nodes t.at none ds p.distinct.0 p.loose.1;
    apart = p.apart.1;
    distinct = p.distinct.1;
    unused = λ a k l.
        if_elim (λ x. x ≡ none) (a == t.at) (λ e. refl)
          (λ e. p.unused a k (let q : t.at ≢ a = ground arith in q, l));
  },
  refl,
)

-- `new` gives an address that is not in use.
pub new-Holds :
    (t : Entry) (cs ds : List Entry) (s : TimerListMgr)
    → Holds s cs ds
    → IsOutside t.at cs
    → IsOutside t.at ds
    → Holds (store t.at (some (node_of none t none)) s) cs (t ∷ ds)
unfolding update
new-Holds t cs ds s p o q = record {
  represents = Represents-update s cs t.at _ o p.represents;
  loose = (ground arith, IsLoose-update s.nodes t.at _ ds q p.loose);
  apart = (o, p.apart);
  distinct = (q, p.distinct);
  unused = λ a k l. let ne = l.0 in let u = p.unused a k l.1 in ground arith;
}

-- The clients' pointers are not part of the store.
pub Holds-owner :
    (s : TimerListMgr) (cs ds : List Entry) (owner : ℕ → Option ℕ)
    → Holds s cs ds
    → Holds (record s { timer_of = owner }) cs ds
Holds-owner s cs ds owner p = record {
  represents = record {
    linked = p.represents.linked;
    distinct = p.represents.distinct;
    head = p.represents.head;
    tail = p.represents.tail;
  };
  loose = p.loose;
  apart = p.apart;
  distinct = p.distinct;
  unused = p.unused;
}

pub clear_user-Holds :
    (t : Entry) (cs ds : List Entry) (s : TimerListMgr)
    → Holds s cs (t ∷ ds)
    → (s' : TimerListMgr) × (clear_user t.at s ≡ some s')
      × Holds s' cs (t ∷ ds)
      × (s'.timer_of ≡ forget t.user s.timer_of)
unfolding clear_user
clear_user-Holds t cs ds s p =
    let owner = forget t.user s.timer_of in
    (record s { timer_of = owner }, rw p.loose.0 refl, Holds-owner s cs (t ∷ ds) owner p, refl)

-- `del_timer` takes a timer out of the list, forgets its client's pointer and deletes it.
pub del_timer-Holds :
    (t : Entry) (front back ds : List Entry) (s : TimerListMgr)
    → Holds s (front ++ (t ∷ back)) ds
    → (s' : TimerListMgr) × (del_timer (some t.at) s ≡ some s')
      × Holds s' (front ++ back) ds
      × (s'.timer_of ≡ forget t.user s.timer_of)
unfolding del_timer
del_timer-Holds t front back ds s p =
    let (s1, r1, p1, u1) = unlink-Holds t front back ds s p in
    let (s2, r2, p2, u2) = clear_user-Holds t (front ++ back) ds s1 p1 in
    let (s3, r3, p3, u3) = free-Holds t (front ++ back) ds s2 p2 in
    (s3, rw (r1, r2, r3) refl, p3, u3 ∙ (u2 ∙ ap (forget t.user) u1))
