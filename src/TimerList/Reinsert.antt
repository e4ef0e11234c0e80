-- ===== src/TimerList/Reinsert.antt =====
-- The early return of `adjust_timer` of timer/timer.cc against taking the timer out and inserting it
-- again.
use cc_learning.Base.{
  ℕ, ◌≤◌, ◌≡◌, ◌≢◌, ◌⊎◌, ◌==◌, ◌∙◌, sym, ap, refl, subst, arith, true, false, ◌&&◌, List, [], ◌∷◌,
  ◌++◌, Option, some, length, ltb, if_elim, All, Bool-cases, inl, inr,
}
use cc_learning.TimerList.{Nodes, TimerListMgr, ◌>>=◌, unlink, place, adjust_timer}
use cc_learning.TimerList.Links.{Entry, IsLinked, nil, cons, IsOutside}
use cc_learning.TimerList.Insert.{insert}
use cc_learning.TimerList.Unlink.{All-remove}
use cc_learning.TimerList.Holds.{Holds, IsLoose}
use cc_learning.TimerList.Spec.{IsSorted, IsSorted-between, is_before, is_behind, readjust}
use cc_learning.TimerList.Adjust.{Adjusted, moved, adjust_timer-Holds}

-- A timer in order, with none behind it that expires at the same time, is where `insert` puts it.
insert-in_order :
    (t : Entry) (front back : List Entry)
    → IsSorted (front ++ (t ∷ back))
    → All (λ c. c.expire ≢ t.expire) back
    → insert t (front ++ back) ≡ front ++ (t ∷ back)
unfolding insert
insert-in_order t [] [] s a = refl
insert-in_order t [] (c ∷ cs) s a =
    let le = s.0.0 in
    let ne = a.0 in let e : ltb t.expire c.expire ≡ true = ground arith in rw e refl
insert-in_order t (c ∷ cs) back s a =
    let le : c.expire ≤ t.expire = (All-remove (λ d. c.expire ≤ d.expire) t cs back s.0).0 in
    let e : ltb t.expire c.expire ≡ false = ground arith in
    rw e (ap (λ l. c ∷ l) (insert-in_order t cs back s.1 a))

readjust-insert :
    (t : Entry) (front back : List Entry)
    → IsSorted (front ++ back)
    → All (λ c. c.expire ≢ t.expire) back
    → readjust front t back ≡ insert t (front ++ back)
unfolding readjust
readjust-insert t front back s a =
    if_elim (λ l. l ≡ insert t (front ++ back)) (is_before t back && is_behind front t)
      (λ e. sym (
        insert-in_order t front back
          (IsSorted-between t front back s (ground (arith, e)) (ground (arith, e))) a))
      (λ e. refl)

same_linked :
    (a : ℕ) {h g : Nodes} {q b : Option ℕ} {cs : List Entry}
    → IsLinked h q b cs
    → IsLinked g q b cs
    → IsOutside a cs ⊎ (h a ≡ g a)
same_linked a nil nil = inl tt
same_linked a {h} {g} (cons {c} e l) (cons f m) = elim (Bool-cases (c.at == a)) [
  | inl k ↦ let same : c.at ≡ a = ground arith in inr (subst (λ x. h x ≡ g x) same (e ∙ sym f))
  | inr k ↦ elim (same_linked a l m) [
    | inl o ↦ inl ((let ne : c.at ≢ a = ground arith in ne), o)
    | inr r ↦ inr r
  ]
]

same_loose :
    (a : ℕ) (h g : Nodes) (ds : List Entry)
    → All (IsLoose h) ds
    → All (IsLoose g) ds
    → IsOutside a ds ⊎ (h a ≡ g a)
same_loose a h g [] l m = inl tt
same_loose a h g (d ∷ ds) l m = elim (Bool-cases (d.at == a)) [
  | inl k ↦ let same : d.at ≡ a = ground arith in inr (subst (λ x. h x ≡ g x) same (l.0 ∙ sym m.0))
  | inr k ↦ elim (same_loose a h g ds l.1 m.1) [
    | inl o ↦ inl ((let ne : d.at ≢ a = ground arith in ne), o)
    | inr r ↦ inr r
  ]
]

-- The same list in the same order, with the same loose timers, is the same state.
pub record IsSame (s s' : TimerListMgr) : Type 0 where
  pub nodes : (a : ℕ) → s.nodes a ≡ s'.nodes a
  pub head : s.head ≡ s'.head
  pub tail : s.tail ≡ s'.tail
  pub timer_of : s.timer_of ≡ s'.timer_of

Holds-IsSame :
    (s s' : TimerListMgr) (cs ds : List Entry)
    → Holds s cs ds
    → Holds s' cs ds
    → s.timer_of ≡ s'.timer_of
    → IsSame s s'
Holds-IsSame s s' cs ds p q u = record {
  nodes = λ a. elim (same_linked a p.represents.linked q.represents.linked) [
    | inr e ↦ e
    | inl o ↦ elim (same_loose a s.nodes s'.nodes ds p.loose q.loose) [
      | inr e ↦ e
      | inl l ↦ p.unused a o l ∙ sym (q.unused a o l)
    ]
  ];
  head = p.represents.head ∙ sym q.represents.head;
  tail = p.represents.tail ∙ sym q.represents.tail;
  timer_of = u;
}

-- Where the other timers are in order, none behind expires at the same time as this one, and the fuel
-- is enough, `adjust_timer` leaves the same state as taking the timer out and inserting it anew: the
-- same links at every address, the same ends and the same pointers of clients. Its early return
-- saves the work and changes nothing.
pub adjust_timer-reinserts :
    (n : ℕ) (t : Entry) (front back ds : List Entry) (s : TimerListMgr)
    → Holds s (front ++ (t ∷ back)) ds
    → IsSorted (front ++ back)
    → All (λ c. c.expire ≢ t.expire) back
    → length (front ++ back) ≤ n
    → (s' : TimerListMgr) × (s'' : TimerListMgr) × (adjust_timer n (some t.at) s ≡ some s')
      × ((unlink t.at s >>= place n t.at) ≡ some s'')
      × IsSame s' s''
adjust_timer-reinserts n t front back ds s p o a h =
    let (s', r, q, u) =
      subst (Adjusted n t front back ds s p (adjust_timer n (some t.at) s))
        (readjust-insert t front back o a) (adjust_timer-Holds n t front back ds s p h) in
    let (s'', r', q', u') = moved n t front back ds s p h in
    (s', s'', r, r', Holds-IsSame s' s'' (insert t (front ++ back)) ds q q' (u ∙ sym u'))
