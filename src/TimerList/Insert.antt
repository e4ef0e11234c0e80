-- ===== src/TimerList/Insert.antt =====
-- `add_timer` of timer/timer.cc
use cc_learning.Base.{
  ℕ, zero, suc, ◌<◌, ◌≡◌, ◌≢◌, ◌≤◌, ◌∙◌, sym, ap, subst, refl, arith, true, false, List, [], ◌∷◌,
  Option, none, some, inl, inr, Bool-cases, ltb, length, if_elim, if◌then◌else◌, All,
}
use cc_learning.TimerList.{
  Nodes, TimerListMgr, update, set_next, set_prev, insert_loop, place, place_by, add_behind,
}
use cc_learning.TimerList.Links.{
  Entry, node_of, first, last, IsLinked, nil, cons, IsOutside, IsDistinct, SameOutside, Represents,
  IsLinked-update,
}

-- Behind the timers that expire no later.
unfoldable pub insert : Entry → List Entry → List Entry
insert t [] = t ∷ []
insert t (c ∷ cs) = let rest = insert t cs in if ltb t.expire c.expire then t ∷ c ∷ cs else c ∷ rest

pub All-insert {κ} :
    (P : Entry → Type κ) (t : Entry) (cs : List Entry) → All P (t ∷ cs) → All P (insert t cs)
unfolding insert
All-insert P t [] h = h
All-insert P t (c ∷ cs) h =
    if_elim (All P) (ltb t.expire c.expire) (λ e. h) (λ e. (h.1.0, All-insert P t cs (h.0, h.1.1)))

pub length-insert : (t : Entry) (cs : List Entry) → length (insert t cs) ≡ suc (length cs)
unfolding insert
length-insert t [] = refl
length-insert t (c ∷ cs) =
    if_elim (λ (l : List Entry). length l ≡ suc (suc (length cs))) (ltb t.expire c.expire)
      (λ e. refl) (λ e. ap suc (length-insert t cs))

pub insert-All {κ} :
    (P : Entry → Type κ) (t : Entry) (cs : List Entry) → All P (insert t cs) → All P (t ∷ cs)
unfolding insert
insert-All P t [] h = h
insert-All P t (c ∷ cs) h = elim (Bool-cases (ltb t.expire c.expire)) [
  | inl e ↦ subst (λ b. All P (if b then t ∷ c ∷ cs else c ∷ insert t cs)) e h
  | inr e ↦
      let h' : All P (c ∷ insert t cs) =
        subst (λ b. All P (if b then t ∷ c ∷ cs else c ∷ insert t cs)) e h in
      let r = insert-All P t cs h'.1 in (r.0, (h'.0, r.1))
]

pub IsDistinct-insert :
    (t : Entry) (cs : List Entry) → IsOutside t.at cs → IsDistinct cs → IsDistinct (insert t cs)
unfolding insert
IsDistinct-insert t [] o d = (tt, tt)
IsDistinct-insert t (c ∷ cs) o d =
    if_elim IsDistinct (ltb t.expire c.expire) (λ e. (o, d))
      (λ e. (
        All-insert (λ d. d.at ≢ c.at) t cs (λ k. o.0 (sym k), d.0),
        IsDistinct-insert t cs o.1 d.1,
      ))

pub record Inserted (t e : Entry) (b : Option ℕ) (cs : List Entry) (s s' : TimerListMgr)
    : Type 0 where
  pub linked : IsLinked s'.nodes none b (e ∷ insert t cs)
  pub outside : SameOutside (t ∷ e ∷ cs) s s'
  pub head : s'.head ≡ s.head
  pub tail : s.tail ≡ last (some e.at) cs → s'.tail ≡ last (some e.at) (insert t cs)
  pub users : s'.timer_of ≡ s.timer_of

at_end :
    (t e : Entry) (b : Option ℕ) (n : ℕ) (s : TimerListMgr)
    → s.nodes e.at ≡ some (node_of b e none)
    → s.nodes t.at ≡ some (node_of none t none)
    → e.at ≢ t.at
    → (s' : TimerListMgr) × (insert_loop (suc n) t.at e.at none s ≡ some s')
      × Inserted t e b [] s s'
unfolding insert_loop set_next set_prev update insert
at_end t e b n s he ht ne = (
  record s {
    nodes =
        update (update s.nodes e.at (some (node_of b e (some t.at)))) t.at
          (some (node_of (some e.at) t none));
    tail = some t.at;
  },
  ground (arith, he, ht),
  record {
    linked = cons (ground (arith, he)) (cons (ground arith) nil);
    outside = λ a o. let o1 = o.0 in let o2 = o.1.0 in ground arith;
    head = refl;
    tail = λ k. refl;
    users = refl;
  },
)

between :
    (t e c : Entry) (b : Option ℕ) (cs : List Entry) (n : ℕ) (s : TimerListMgr)
    → IsLinked s.nodes none b (e ∷ c ∷ cs)
    → s.nodes t.at ≡ some (node_of none t none)
    → IsOutside t.at (e ∷ c ∷ cs)
    → IsDistinct (e ∷ c ∷ cs)
    → ltb t.expire c.expire ≡ true
    → (s' : TimerListMgr) × (insert_loop (suc n) t.at e.at (some c.at) s ≡ some s')
      × Inserted t e b (c ∷ cs) s s'
unfolding insert_loop set_next set_prev update insert
between t e c b cs n s (cons he (cons hc l)) ht o d lt =
    let o1 = o.0 in
    let o2 = o.1.0 in
    let o3 = d.0.0 in
    let h' : Nodes =
      update
        (update (update s.nodes e.at (some (node_of b e (some t.at)))) t.at
          (some (node_of (some e.at) t (some c.at))))
        c.at (some (node_of (some t.at) c (first cs none))) in
    (
      record s { nodes = h' },
      ground (arith, he, ht, hc),
      record {
        linked = rw lt (
            cons (ground (arith, he)) (
              cons (ground arith) (
                cons (ground arith) (
                  IsLinked-update _ _ (IsLinked-update _ _ (IsLinked-update _ _ l d.0.1) o.1.1)
                    d.1.0))));
        outside = λ a p. let p1 = p.0 in let p2 = p.1.0 in let p3 = p.1.1.0 in ground arith;
        head = refl;
        tail = λ k. rw (lt, k) refl;
        users = refl;
      },
    )

further :
    (t e c : Entry) (b : Option ℕ) (cs : List Entry) (s s' : TimerListMgr)
    → s.nodes e.at ≡ some (node_of b e (some c.at))
    → IsOutside t.at (e ∷ c ∷ cs)
    → IsDistinct (e ∷ c ∷ cs)
    → ltb t.expire c.expire ≡ false
    → Inserted t c (some e.at) cs s s'
    → Inserted t e b (c ∷ cs) s s'
unfolding insert
further t e c b cs s s' he o d ge i = record {
  linked = rw ge (cons (i.outside e.at (λ k. o.0 (sym k), d.0) ∙ he) i.linked);
  outside = λ a p. i.outside a (p.0, p.1.1);
  head = i.head;
  tail = λ k. rw ge (i.tail k);
  users = i.users;
}

-- From the entry `e` the loop puts the timer where it belongs among those that follow.
insert_loop_lem :
    (t : Entry) (cs : List Entry) (e : Entry) (b : Option ℕ) (n : ℕ) (s : TimerListMgr)
    → IsLinked s.nodes none b (e ∷ cs)
    → s.nodes t.at ≡ some (node_of none t none)
    → IsOutside t.at (e ∷ cs)
    → IsDistinct (e ∷ cs)
    → length cs < n
    → (s' : TimerListMgr) × (insert_loop n t.at e.at (first cs none) s ≡ some s')
      × Inserted t e b cs s s'
unfolding insert_loop
insert_loop_lem t cs e b zero s l ht o d h = absurd (omega (arith, h))
insert_loop_lem t [] e b (suc n) s (cons he l) ht o d h = at_end t e b n s he ht o.0
insert_loop_lem t (c ∷ cs) e b (suc n) s (cons he (cons hc l)) ht o d h =
    elim (Bool-cases (ltb t.expire c.expire)) [
      | inl lt ↦ between t e c b cs n s (cons he (cons hc l)) ht o d lt
      | inr ge ↦
          let (s', r, i) =
            insert_loop_lem t cs c (some e.at) n s (cons hc l) ht o.1 d.1 (omega (arith, h)) in
          (s', rw (ht, hc, ge) r, further t e c b cs s s' he o d ge i)
    ]

pub record Placed (t : Entry) (cs : List Entry) (s s' : TimerListMgr) : Type 0 where
  pub represents : Represents s' (insert t cs)
  pub outside : SameOutside (t ∷ cs) s s'
  pub users : s'.timer_of ≡ s.timer_of

before_all :
    (t e : Entry) (cs : List Entry) (n : ℕ) (s : TimerListMgr)
    → Represents s (e ∷ cs)
    → s.nodes t.at ≡ some (node_of none t none)
    → IsOutside t.at (e ∷ cs)
    → ltb t.expire e.expire ≡ true
    → (s' : TimerListMgr) × (place n t.at s ≡ some s') × Placed t (e ∷ cs) s s'
unfolding place_by set_next set_prev update insert
before_all t e cs n s p ht o lt = elim p.linked [
  | cons he l ↦
      let o1 = o.0 in
      let h' : Nodes =
        update (update s.nodes t.at (some (node_of none t (some e.at)))) e.at
          (some (node_of (some t.at) e (first cs none))) in
      (
        record s { nodes = h'; head = some t.at },
        ap (λ f. place_by f n t.at s) p.head ∙ ground (arith, he, ht, lt),
        record {
          represents = record {
            linked = rw lt (
                cons (ground arith) (
                  cons (ground arith)
                    (IsLinked-update _ _ (IsLinked-update _ _ l o.1) p.distinct.0)));
            distinct = rw lt ((λ k. o.0 k, o.1), p.distinct);
            head = rw lt refl;
            tail = rw lt p.tail;
          };
          outside = λ a q. let q1 = q.0 in let q2 = q.1.0 in ground arith;
          users = refl;
        },
      )
]

-- A timer that is not in the list is put behind those that expire no later.
pub place_lem :
    (t : Entry) (cs : List Entry) (n : ℕ) (s : TimerListMgr)
    → Represents s cs
    → s.nodes t.at ≡ some (node_of none t none)
    → IsOutside t.at cs
    → length cs ≤ n
    → (s' : TimerListMgr) × (place n t.at s ≡ some s') × Placed t cs s s'
unfolding place_by add_behind insert
place_lem t [] n s p ht o h = (
  record s { head = some t.at; tail = some t.at },
  ap (λ f. place_by f n t.at s) p.head,
  record {
    represents = record { linked = cons ht nil; distinct = (tt, tt); head = refl; tail = refl };
    outside = λ a q. refl;
    users = refl;
  },
)
place_lem t (e ∷ cs) n s p ht o h = elim p.linked [
  | cons he l ↦ elim (Bool-cases (ltb t.expire e.expire)) [
    | inl lt ↦ before_all t e cs n s p ht o lt
    | inr ge ↦
        let (s', r, i) =
          insert_loop_lem t cs e none n s p.linked ht o p.distinct (omega (arith, h)) in
        (
          s',
          ap (λ f. place_by f n t.at s) p.head ∙ rw (ht, he, ge) r,
          record {
            represents = record {
              linked = rw ge i.linked;
              distinct = IsDistinct-insert t (e ∷ cs) o p.distinct;
              head = rw ge (i.head ∙ p.head);
              tail = rw ge (i.tail p.tail);
            };
            outside = i.outside;
            users = i.users;
          },
        )
  ]
]
