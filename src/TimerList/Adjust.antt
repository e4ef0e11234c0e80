-- ===== src/TimerList/Adjust.antt =====
-- A timer whose expiry changes: `adjust_timer` of timer/timer.cc.
use cc_learning.Base.{
  ℕ, ◌≤◌, ◌≡◌, ◌≢◌, ◌∙◌, sym, refl, arith, ◌&&◌, List, [], ◌∷◌, ◌++◌, Option, none, some, leb,
  length, if◌then◌else◌, Bool-cases, inl, inr, All-map,
}
use cc_learning.TimerList.{
  TimerNode, Nodes, TimerListMgr, update, store, ◌>>=◌, set_expire, is_after_ok, is_before_ok,
  unlink, place, adjust_timer,
}
use cc_learning.TimerList.Links.{
  Entry, node_of, first, last, IsLinked, cons, IsOutside, IsDistinct, IsLinked-update,
}
use cc_learning.TimerList.Insert.{insert}
use cc_learning.TimerList.Unlink.{All-remove}
use cc_learning.TimerList.Holds.{Holds, IsLoose-update, place-Holds, unlink-Holds}
use cc_learning.TimerList.Spec.{is_before, is_behind, readjust}

node_at :
    (h : Nodes) (t : Entry) (front back : List Entry) (b : Option ℕ)
    → IsLinked h none b (front ++ (t ∷ back))
    → h t.at ≡ some (node_of (last b front) t (first back none))
node_at h t [] back b (cons e l) = e
node_at h t (c ∷ cs) back b (cons e l) = node_at h t cs back (some c.at) l

-- The node of the last timer before a place.
record LastNode (h : Nodes) (b : Option ℕ) (c : Entry) (cs : List Entry) : Type 0 where
  pub at : ℕ
  pub node : TimerNode
  pub is_last : last b (c ∷ cs) ≡ some at
  pub holds : h at ≡ some node
  pub behind : (t : Entry) → is_behind (c ∷ cs) t ≡ leb node.expire t.expire

last_node :
    (h : Nodes) (cs ys : List Entry) (c : Entry) (b : Option ℕ)
    → IsLinked h none b (c ∷ (cs ++ ys))
    → LastNode h b c cs
unfolding is_behind
last_node h [] ys c b (cons e l) = record {
  at = c.at;
  node = node_of b c (first ys none);
  is_last = refl;
  holds = e;
  behind = λ t. refl;
}
last_node h (d ∷ cs) ys c b (cons e l) =
    let r = last_node h cs ys d (some c.at) l in
    record { at = r.at; node = r.node; is_last = r.is_last; holds = r.holds; behind = r.behind }

module _ (t : Entry) (x : ℕ) where
  abbrev later : Entry
  later = record t { expire = x }

  first-later :
      (front back : List Entry)
      → first (front ++ (later ∷ back)) none ≡ first (front ++ (t ∷ back)) none
  first-later [] back = refl
  first-later (c ∷ cs) back = refl

  last-later :
      (front back : List Entry) (b : Option ℕ)
      → last b (front ++ (later ∷ back)) ≡ last b (front ++ (t ∷ back))
  last-later [] back b = refl
  last-later (c ∷ cs) back b = last-later cs back (some c.at)

  IsOutside-later :
      (a : ℕ) (front back : List Entry)
      → IsOutside a (front ++ (t ∷ back))
      → IsOutside a (front ++ (later ∷ back))
  IsOutside-later a [] back o = o
  IsOutside-later a (c ∷ cs) back o = (o.0, IsOutside-later a cs back o.1)

  IsOutside-sooner :
      (a : ℕ) (front back : List Entry)
      → IsOutside a (front ++ (later ∷ back))
      → IsOutside a (front ++ (t ∷ back))
  IsOutside-sooner a [] back o = o
  IsOutside-sooner a (c ∷ cs) back o = (o.0, IsOutside-sooner a cs back o.1)

  IsDistinct-later :
      (front back : List Entry)
      → IsDistinct (front ++ (t ∷ back))
      → IsDistinct (front ++ (later ∷ back))
  IsDistinct-later [] back d = d
  IsDistinct-later (c ∷ cs) back d =
      (IsOutside-later c.at cs back d.0, IsDistinct-later cs back d.1)

  IsLinked-later :
      (h : Nodes) (front back : List Entry) (b : Option ℕ)
      → IsLinked h none b (front ++ (t ∷ back))
      → IsDistinct (front ++ (t ∷ back))
      → IsLinked
          (update h t.at (some (node_of (last b front) later (first back none))))
          none
          b
          (front ++ (later ∷ back))
  unfolding update
  IsLinked-later h [] back b (cons e l) d = cons (ground arith) (IsLinked-update t.at _ l d.0)
  IsLinked-later h (c ∷ cs) back b (cons e l) d =
      let ne : t.at ≢ c.at = (All-remove (λ k. k.at ≢ c.at) t cs back d.0).0 in
      cons (ground (arith, e, first-later cs back)) (IsLinked-later h cs back (some c.at) l d.1)

  -- The write of a new expiry into a timer of the list.
  pub set_expire-Holds :
      (front back ds : List Entry) (s : TimerListMgr)
      → Holds s (front ++ (t ∷ back)) ds
      → (s' : TimerListMgr) × (set_expire t.at x s ≡ some s')
        × Holds s' (front ++ (later ∷ back)) ds
        × (s'.timer_of ≡ s.timer_of)
  unfolding set_expire update
  set_expire-Holds front back ds s p =
      let r = p.represents in
      let n = node_of (last none front) later (first back none) in
      (
        store t.at (some n) s,
        rw (node_at s.nodes t front back none r.linked) refl,
        record {
          represents = record {
            linked = IsLinked-later s.nodes front back none r.linked r.distinct;
            distinct = IsDistinct-later front back r.distinct;
            head = r.head ∙ sym (first-later front back);
            tail = r.tail ∙ sym (last-later front back none);
          };
          loose =
              IsLoose-update s.nodes t.at (some n) ds
                (All-map (λ d k e. (All-remove (λ c. c.at ≢ d.at) t front back k).0 (sym e)) ds
                  p.apart)
                p.loose;
          apart = All-map (λ d k. IsOutside-later d.at front back k) ds p.apart;
          distinct = p.distinct;
          unused = λ a k l.
              let o = IsOutside-sooner a front back k in
              let u = p.unused a o l in
              let ne = (All-remove (λ c. c.at ≢ a) t front back o).0 in ground arith;
        },
        refl,
      )

is_after_ok_lem :
    (t : Entry) (b : Option ℕ) (back : List Entry) (s : TimerListMgr)
    → IsLinked s.nodes none (some t.at) back
    → is_after_ok (node_of b t (first back none)) s ≡ some (is_before t back)
unfolding is_after_ok is_before
is_after_ok_lem t b [] s l = refl
is_after_ok_lem t b (c ∷ cs) s (cons e l) = rw e refl

is_before_ok_lem :
    (t : Entry) (q : Option ℕ) (front back : List Entry) (s : TimerListMgr)
    → IsLinked s.nodes none none (front ++ (t ∷ back))
    → is_before_ok (node_of (last none front) t q) s ≡ some (is_behind front t)
unfolding is_before_ok is_behind
is_before_ok_lem t q [] back s l = refl
is_before_ok_lem t q (c ∷ cs) back s l =
    let r = last_node s.nodes cs (t ∷ back) c none l in rw (r.is_last, r.holds, r.behind t) refl

behind_timer :
    (h : Nodes) (t : Entry) (front back : List Entry) (b : Option ℕ)
    → IsLinked h none b (front ++ (t ∷ back))
    → IsLinked h none (some t.at) back
behind_timer h t [] back b (cons e l) = l
behind_timer h t (c ∷ cs) back b (cons e l) = behind_timer h t cs back (some c.at) l

module _ (n : ℕ) (t : Entry) (front back ds : List Entry) (s : TimerListMgr)
    (p : Holds s (front ++ (t ∷ back)) ds) where
  -- Both tests of `adjust_timer` come out as the neighbours are.
  adjust_tests :
      adjust_timer n (some t.at) s
      ≡ (if is_before t back && is_behind front t then some s else (unlink t.at s >>= place n t.at))
  unfolding adjust_timer
  adjust_tests =
      let l = p.represents.linked in
      rw
        (
          node_at s.nodes t front back none l,
          is_after_ok_lem t (last none front) back s (behind_timer s.nodes t front back none l),
          is_before_ok_lem t (first back none) front back s l,
        )
        refl

  abbrev pub Adjusted : Option TimerListMgr → List Entry → Type 0
  Adjusted r cs = (s' : TimerListMgr) × (r ≡ some s') × Holds s' cs ds × (s'.timer_of ≡ s.timer_of)

  pub moved :
      length (front ++ back) ≤ n
      → Adjusted (unlink t.at s >>= place n t.at) (insert t (front ++ back))
  moved h =
      let (s1, r1, p1, u1) = unlink-Holds t front back ds s p in
      let (s2, r2, p2, u2) = place-Holds t (front ++ back) ds n s1 p1 h in
      (s2, rw r1 r2, p2, u2 ∙ u1)

  -- The timer stays where its neighbours allow it and otherwise is inserted anew.
  pub adjust_timer-Holds :
      length (front ++ back) ≤ n → Adjusted (adjust_timer n (some t.at) s) (readjust front t back)
  unfolding readjust
  adjust_timer-Holds h = elim (Bool-cases (is_before t back && is_behind front t)) [
    | inl e ↦ (s, adjust_tests ∙ rw e refl, rw e p, refl)
    | inr e ↦ let (s', r, q, u) = moved h in (s', adjust_tests ∙ rw e r, rw e q, u)
  ]
