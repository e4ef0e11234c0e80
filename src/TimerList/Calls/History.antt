-- ===== src/TimerList/Calls/History.antt =====
-- Any sequence of calls of timer/timer.cc, from an empty list to its destructor.
use cc_learning.Base.{
  ℕ, zero, suc, ◌<◌, ◌≡◌, ◌∙◌, ap, sym, subst, refl, inl, inr, Option-cases, arith, List, [], ◌∷◌,
  Option, none, some, length, if_elim, ◌==◌, ◌≢◌,
}
use cc_learning.TimerList.{
  TimerNode, Nodes, TimerListMgr, ◌>>=◌, forget, construct, clear_user, free, destroy_loop, destroy,
  store, update,
}
use cc_learning.TimerList.Links.{
  Entry, node_of, first, IsLinked, nil, cons, IsOutside, IsDistinct, IsLinked-update,
}
use cc_learning.TimerList.Calls.{
  Call, Event, calls, ticks, Timers, no_timers, forget_all, step, run, spec_step, spec_run,
}
use cc_learning.TimerList.Calls.Refine.{Agrees, IsMatched, then-IsMatched, call-IsMatched}
use cc_learning.TimerList.Calls.Tick.{tick-IsMatched}
use cc_learning.TimerList.Calls.Owners.{IsListed, IsGood, history_good, forget_all_lem, forgets_all}

abbrev pub start : TimerListMgr
start = construct (λ a. none) (λ u. none)

module _ (calls_of : ℕ → List Call) (n : ℕ) where
  step-IsMatched :
      (e : Event) (s : TimerListMgr) (st : Timers)
      → Agrees n [] s st
      → IsMatched n [] (step calls_of n e s) (spec_step calls_of n e st)
  unfolding step spec_step
  step-IsMatched (calls c) s st p = call-IsMatched n [] s st p c
  step-IsMatched (ticks cur) s st p = tick-IsMatched calls_of n cur s st p

  run-IsMatched :
      (es : List Event) (s : TimerListMgr) (st : Timers)
      → Agrees n [] s st
      → IsMatched n [] (run calls_of n es s) (spec_run calls_of n es st)
  unfolding run spec_run
  run-IsMatched [] s st p = (s, refl, p)
  run-IsMatched (e ∷ es) s st p =
      then-IsMatched n [] [] (step calls_of n e s) (spec_step calls_of n e st) (run calls_of n es)
        (spec_run calls_of n es) (step-IsMatched e s st p) (run-IsMatched es)

  history-IsMatched :
      (es : List Event)
      → IsMatched n [] (run calls_of n es start) (spec_run calls_of n es no_timers)
  unfolding construct
  history-IsMatched es = run-IsMatched es start no_timers (record {
    holds = record {
      represents = record { linked = nil; distinct = tt; head = refl; tail = refl };
      loose = tt;
      apart = tt;
      distinct = tt;
      unused = λ a k l. refl;
    };
    owner = refl;
    room = omega arith;
  })

destroy_loop_lem :
    (n : ℕ) (cs : List Entry) (b : Option ℕ) (s : TimerListMgr)
    → IsLinked s.nodes none b cs
    → IsDistinct cs
    → ((a : ℕ) → IsOutside a cs → s.nodes a ≡ none)
    → length cs < n
    → (s' : TimerListMgr) × (destroy_loop n (first cs none) s ≡ some s')
      × ((a : ℕ) → s'.nodes a ≡ none)
      × (s'.timer_of ≡ forget_all cs s.timer_of)
unfolding destroy_loop forget_all clear_user free update
destroy_loop_lem zero cs b s l d u h = absurd (omega (arith, h))
destroy_loop_lem (suc n) [] b s l d u h = (s, refl, λ a. u a tt, refl)
destroy_loop_lem (suc n) (c ∷ cs) b s (cons e l) d u h =
    let s1 : TimerListMgr = record (store c.at none s) { timer_of = forget c.user s.timer_of } in
    let (s', r, z, k) =
      destroy_loop_lem n cs (some c.at) s1 (IsLinked-update c.at none l d.0) d.1
        (λ a o.
          if_elim (λ x. x ≡ none) (a == c.at) (λ q. refl)
            (λ q. u a (let ne : c.at ≢ a = ground arith in ne, o)))
        (omega (arith, h)) in
    (s', rw e (rw e r), z, k)

abbrev emptied : TimerListMgr → Option TimerListMgr
emptied s = some (record s { head = none; tail = none })

destroy_lem :
    (n : ℕ) (s : TimerListMgr) (st : Timers)
    → Agrees n [] s st
    → (s' : TimerListMgr) × (destroy (suc n) s ≡ some s')
      × ((a : ℕ) → s'.nodes a ≡ none)
      × (s'.timer_of ≡ forget_all st.list st.owner)
      × (s'.head ≡ none)
      × (s'.tail ≡ none)
unfolding destroy
destroy_lem n s st p =
    let (s', r, z, k) =
      destroy_loop_lem (suc n) st.list none s p.holds.represents.linked p.holds.represents.distinct
        (λ a o. p.holds.unused a o tt) (omega (arith, p.room)) in
    (
      record s' { head = none; tail = none },
      ap (λ f. destroy_loop (suc n) f s >>= emptied) p.holds.represents.head
          ∙ ap (λ o. o >>= emptied) r,
      z,
      k ∙ ap (forget_all st.list) p.owner,
      refl,
      refl,
    )

listed_node :
    (u a : ℕ) {h : Nodes} {b : Option ℕ} (cs : List Entry)
    → IsLinked h none b cs
    → IsListed u a cs
    → (node : TimerNode) × (h a ≡ some node) × (node.user_data ≡ some u)
listed_node u a [] l i = elim i [ ]
listed_node u a {h} {b} (c ∷ cs) (cons e l) (inl k) =
    (node_of b c (first cs none), subst (λ x. h x ≡ some (node_of b c (first cs none))) k.0 e, k.1)
listed_node u a (c ∷ cs) (cons e l) (inr k) = listed_node u a cs l k

module _ (calls_of : ℕ → List Call) (n : ℕ) (es : List Event) (st : Timers)
    (legal : spec_run calls_of n es no_timers ≡ some st) where
  abbrev reached : (s : TimerListMgr) × (run calls_of n es start ≡ some s) × Agrees n [] s st
  reached = subst (IsMatched n [] (run calls_of n es start)) legal (history-IsMatched calls_of n es)

  -- Any sequence of calls that clients may make, callbacks that call the list among them, runs
  -- through with fuel for `n` timers: no call reads, writes or deletes through a dangling pointer
  -- and no loop runs out. The list it leaves is what the specification says: the links in both
  -- directions, `head` and `tail` lead through its timers, they are in order of expiry, the store
  -- holds these nodes and no other, and the clients' pointers are null or lead to a timer of theirs.
  pub history_refines :
      (s : TimerListMgr) × (run calls_of n es start ≡ some s) × Agrees n [] s st × IsGood st
  history_refines = let (s, r, a) = reached in (s, r, a, history_good calls_of n es legal)

  -- After such a sequence a client's pointer that is not null leads to a node that is not deleted
  -- and that is the client's.
  pub pointers_live :
      (s : TimerListMgr)
      → run calls_of n es start ≡ some s
      → (u a : ℕ) → s.timer_of u ≡ some a
      → (node : TimerNode) × (s.nodes a ≡ some node) × (node.user_data ≡ some u)
  pointers_live s e u a k =
      let (s', r, p) = reached in
      let same : s' ≡ s = cc in
      let q : Agrees n [] s st = subst (λ x. Agrees n [] x st) same p in
      let o : st.owner u ≡ some a = ap (λ f. f u) (sym q.owner) ∙ k in
      listed_node u a st.list q.holds.represents.linked
        ((history_good calls_of n es legal).owned u a o)

  -- After such a sequence the destructor ends, deletes every node that is left once and no other,
  -- and leaves the list empty and no client with a pointer to it.
  pub destroy_frees :
      (s : TimerListMgr) × ((run calls_of n es start >>= destroy (suc n)) ≡ some s)
      × ((a : ℕ) → s.nodes a ≡ none)
      × (s.head ≡ none)
      × (s.tail ≡ none)
      × ((u : ℕ) → s.timer_of u ≡ none)
  destroy_frees =
      let (s, r, p) = reached in
      let (s', r', z, k, h, t) = destroy_lem n s st p in
      (
        s',
        ap (λ o. o >>= destroy (suc n)) r ∙ r',
        z,
        h,
        t,
        λ u. elim (Option-cases (s'.timer_of u)) [
          | inl e ↦ e
          | inr (a, e) ↦
              let f : forget_all st.list st.owner u ≡ some a = ap (λ f. f u) (sym k) ∙ e in
              let i =
                (history_good calls_of n es legal).owned u a
                  (forget_all_lem u a st.list st.owner f) in
              absurd (forgets_all u a st.list st.owner i f)
        ],
      )
