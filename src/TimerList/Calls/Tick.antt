-- ===== src/TimerList/Calls/Tick.antt =====
-- `tick` of timer/timer.cc, with callbacks that call the list.
use cc_learning.Base.{
  ℕ, zero, suc, ◌≤◌, ◌<◌, ◌≡◌, ◌≢◌, ◌∙◌, sym, ap, subst, refl, arith, true, List, [], ◌∷◌, ◌++◌,
  map, Option, none, some, inl, inr, leb, append-nil, length, Bool-cases, if◌then◌else◌, All,
}
use cc_learning.TimerList.{
  TimerListMgr, ◌>>=◌, update, forget, set_prev, clear_links, clear_user, free, is_at, bypass_next,
  bypass_prev, unlink, pop_head, take_expired, call_back, run_expired, tick,
}
use cc_learning.TimerList.Links.{Entry, node_of, first, IsLinked, cons, IsOutside, Represents}
use cc_learning.TimerList.Unlink.{All-remove, All-restore, IsDistinct-remove}
use cc_learning.TimerList.Holds.{Holds, IsLoose, unlink-Holds, free-Holds, clear_user-Holds}
use cc_learning.TimerList.Spec.{
  IsSorted, expired_lem, unexpired_lem, expired, unexpired, length-unexpired,
}
use cc_learning.TimerList.Calls.{
  Call, call_all, Timers, spec_call_all, forget_all, calls_for, spec_run_expired, ticks, spec_step,
}
use cc_learning.TimerList.Calls.Refine.{Agrees, IsMatched, then-IsMatched, call_all-IsMatched}

pop_last :
    (t : Entry) (s : TimerListMgr)
    → s.nodes t.at ≡ some (node_of none t none)
    → s.head ≡ some t.at
    → s.tail ≡ some t.at
    → pop_head t.at s ≡ (unlink t.at s >>= clear_user t.at)
unfolding pop_head unlink bypass_next bypass_prev clear_links is_at clear_user update
pop_last t s ht k k' = ground (arith, ht, k, k')

pop_first :
    (t c : Entry) (cs : List Entry) (s : TimerListMgr)
    → s.nodes t.at ≡ some (node_of none t (some c.at))
    → s.nodes c.at ≡ some (node_of (some t.at) c (first cs none))
    → c.at ≢ t.at
    → s.head ≡ some t.at
    → pop_head t.at s ≡ (unlink t.at s >>= clear_user t.at)
unfolding pop_head unlink bypass_next bypass_prev set_prev clear_links is_at clear_user update
pop_first t c cs s ht hc ne k = ground (arith, ht, hc, k)

-- A round of the loop does what `del_timer` does before it deletes.
pop_head-unlink :
    (t : Entry) (cs : List Entry) (s : TimerListMgr)
    → IsLinked s.nodes none none (t ∷ cs)
    → Represents s (t ∷ cs)
    → pop_head t.at s ≡ (unlink t.at s >>= clear_user t.at)
pop_head-unlink t [] s (cons ht l) p = pop_last t s ht p.head p.tail
pop_head-unlink t (c ∷ cs) s (cons ht (cons hc l)) p =
    pop_first t c cs s ht hc p.distinct.0.0 p.head

pop_head-Holds :
    (t : Entry) (cs ds : List Entry) (s : TimerListMgr)
    → Holds s (t ∷ cs) ds
    → (s' : TimerListMgr) × (pop_head t.at s ≡ some s')
      × Holds s' cs (t ∷ ds)
      × (s'.timer_of ≡ forget t.user s.timer_of)
pop_head-Holds t cs ds s p =
    let (s1, r1, p1, u1) = unlink-Holds t [] cs ds s p in
    let (s2, r2, p2, u2) = clear_user-Holds t cs ds s1 p1 in
    let q = p.represents in
    (s2, pop_head-unlink t cs s q.linked q ∙ rw r1 r2, p2, u2 ∙ ap (forget t.user) u1)

-- The order of the loose timers does not matter.
Holds-front :
    (t : Entry) (cs xs ys : List Entry) (s : TimerListMgr)
    → Holds s cs (xs ++ (t ∷ ys))
    → Holds s cs (t ∷ (xs ++ ys))
Holds-front t cs xs ys s p = record {
  represents = p.represents;
  loose = All-remove (IsLoose s.nodes) t xs ys p.loose;
  apart = All-remove (λ d. IsOutside d.at cs) t xs ys p.apart;
  distinct = IsDistinct-remove t xs ys p.distinct;
  unused = λ a k l. p.unused a k (All-restore (λ c. c.at ≢ a) t xs ys l);
}

abbrev pub addresses : List Entry → List ℕ
addresses cs = map (λ c. c.at) cs

head_node :
    (t : Entry) (cs : List Entry) (s : TimerListMgr)
    → IsLinked s.nodes none none (t ∷ cs)
    → s.nodes t.at ≡ some (node_of none t (first cs none))
head_node t cs s (cons e l) = e

-- The expired timers leave the list in order, and their clients' pointers are forgotten.
abbrev IsTaken :
    ℕ → List Entry → List Entry → TimerListMgr → Option (List ℕ × TimerListMgr) → Type 0
IsTaken cur cs ds s r =
    (s' : TimerListMgr) × (r ≡ some (addresses (expired cur cs), s'))
    × Holds s' (unexpired cur cs) (expired cur cs ++ ds)
    × (s'.timer_of ≡ forget_all (expired cur cs) s.timer_of)

abbrev found : ℕ → List ℕ × TimerListMgr → Option (List ℕ × TimerListMgr)
found a (ds, s) = some (a ∷ ds, s)

take_step :
    (n cur : ℕ) (t : Entry) (q : Option ℕ) (s : TimerListMgr)
    → s.nodes t.at ≡ some (node_of none t q)
    → leb t.expire cur ≡ true
    → take_expired (suc n) cur (some t.at) s
      ≡ (pop_head t.at s >>= λ s'. take_expired n cur s'.head s' >>= found t.at)
unfolding take_expired
take_step n cur t q s k e = rw (k, e) refl

-- The loop ends.
pub take_expired_lem :
    (n cur : ℕ) (cs ds : List Entry) (s : TimerListMgr)
    → Holds s cs ds
    → length cs < n
    → IsTaken cur cs ds s (take_expired n cur (first cs none) s)
unfolding take_expired expired unexpired forget_all
take_expired_lem zero cur cs ds s p h = absurd (omega (arith, h))
take_expired_lem (suc n) cur [] ds s p h = (s, refl, p, refl)
take_expired_lem (suc n) cur (t ∷ cs) ds s p h =
    let node = head_node t cs s p.represents.linked in
    elim (Bool-cases (leb t.expire cur)) [
      | inl e ↦
          let (s1, r1, p1, u1) = pop_head-Holds t cs ds s p in
          let (s2, r2, p2, u2) = take_expired_lem n cur cs (t ∷ ds) s1 p1 (omega (arith, h)) in
          (
            s2,
            (take_step n cur t (first cs none) s node e
                  ∙ (ap (λ o. o >>= λ s'. take_expired n cur s'.head s' >>= found t.at) r1
                      ∙ (ap (λ f. take_expired n cur f s1 >>= found t.at) p1.represents.head
                          ∙ ap (λ o. o >>= found t.at) r2)))
                ∙ rw e refl,
            rw e (Holds-front t (unexpired cur cs) (expired cur cs) ds s2 p2),
            rw e (u2 ∙ ap (forget_all (expired cur cs)) u1),
          )
      | inr e ↦ (s, rw (node, e) refl, rw e p, rw e refl)
    ]

-- On a list in order, `tick` with fuel of one unit more than there are timers takes exactly the
-- timers whose time has come, in order of expiry, and leaves the others: after it the links in both
-- directions lead through the others alone, the pointers of the expired timers' clients are null,
-- and the expired timers are still there for their callbacks.
pub take_expired_due :
    (n cur : ℕ) (cs ds : List Entry) (s : TimerListMgr)
    → Holds s cs ds
    → IsSorted cs
    → length cs < n
    → (s' : TimerListMgr) × (due : List Entry) × (left : List Entry) × (take_expired n cur s.head s
        ≡ some (addresses due, s'))
      × Holds s' left (due ++ ds)
      × (s'.timer_of ≡ forget_all due s.timer_of)
      × (due ++ left ≡ cs)
      × All (λ c. c.expire ≤ cur) due
      × All (λ c. cur < c.expire) left
take_expired_due n cur cs ds s p o h =
    let (s', r, q, u) = take_expired_lem n cur cs ds s p h in
    let parts = expired_lem cur cs in
    (
      s',
      expired cur cs,
      unexpired cur cs,
      ap (λ f. take_expired n cur f s) p.represents.head ∙ r,
      q,
      u,
      parts.1,
      parts.0,
      unexpired_lem cur cs o,
    )

module _ (calls_of : ℕ → List Call) (n : ℕ) where
  abbrev callback : ℕ → TimerListMgr → Option TimerListMgr
  callback u s = call_all n (calls_of u) s

  call_back-IsMatched :
      (t : Entry) (ds : List Entry) (s : TimerListMgr) (st : Timers)
      → Agrees n ds s st
      → IsMatched n ds
          (call_back callback (node_of none t none) s)
          (spec_call_all n ds (calls_for calls_of t) st)
  unfolding call_back calls_for spec_call_all
  call_back-IsMatched t ds s st p = by_user t.user
    where
      by_user :
          (o : Option ℕ)
          → IsMatched n ds
              (elim o [ none ↦ some s | some u ↦ if t.cb then callback u s else some s ])
              (spec_call_all n ds
                (elim o [ none ↦ [] | some u ↦ if t.cb then calls_of u else [] ])
                st)
      by_user none = (s, refl, p)
      by_user (some u) = elim (Bool-cases t.cb) [
        | inl e ↦ rw e (call_all-IsMatched n ds (calls_of u) s st p)
        | inr e ↦ rw e (s, refl, p)
      ]

  run_expired-IsMatched :
      (ts : List Entry) (s : TimerListMgr) (st : Timers)
      → Agrees n ts s st
      → IsMatched n [] (run_expired callback (addresses ts) s) (spec_run_expired calls_of n ts st)
  unfolding run_expired spec_run_expired
  run_expired-IsMatched [] s st p = (s, refl, p)
  run_expired-IsMatched (t ∷ ts) s st p =
      subst (λ x. IsMatched n [] x (spec_run_expired calls_of n (t ∷ ts) st))
        (sym (rw p.holds.loose.0 refl))
        (then-IsMatched n (t ∷ ts) [] (call_back callback (node_of none t none) s)
          (spec_call_all n (t ∷ ts) (calls_for calls_of t) st)
          (λ s1. free t.at s1 >>= run_expired callback (addresses ts))
          (spec_run_expired calls_of n ts) (call_back-IsMatched t (t ∷ ts) s st p)
          (λ s1 st1 q.
            let (s2, r, p2, u) = free-Holds t st1.list ts s1 q.holds in
            let a : Agrees n ts s2 st1 = record {
              holds = p2;
              owner = u ∙ q.owner;
              room = q.room;
            } in
            rw r (run_expired-IsMatched ts s2 st1 a)))

  abbrev called : List ℕ × TimerListMgr → Option TimerListMgr
  called (ds, s) = run_expired callback ds s

  pub tick-IsMatched :
      (cur : ℕ) (s : TimerListMgr) (st : Timers)
      → Agrees n [] s st
      → IsMatched n [] (tick callback (suc n) cur s) (spec_step calls_of n (ticks cur) st)
  unfolding tick spec_step
  tick-IsMatched cur s st p =
      let (s', r, q, u) =
        take_expired_lem (suc n) cur st.list [] s p.holds (omega (arith, p.room)) in
      let out = expired cur st.list in
      let left : Timers = record {
        list = unexpired cur st.list;
        owner = forget_all out st.owner;
      } in
      let a : Agrees n out s' left = record {
        holds = subst (λ l. Holds s' left.list l) (append-nil out) q;
        owner = u ∙ ap (forget_all out) p.owner;
        room = omega (arith, p.room, length-unexpired cur st.list);
      } in
      subst (λ x. IsMatched n [] x (spec_run_expired calls_of n out left))
        (sym (
          ap (λ f. take_expired (suc n) cur f s >>= called) p.holds.represents.head
          ∙ ap (λ o. o >>= called) r))
        (run_expired-IsMatched out s' left a)
