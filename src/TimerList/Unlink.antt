-- ===== src/TimerList/Unlink.antt =====
-- How `del_timer` and `adjust_timer` of timer/timer.cc take a timer out of the list.
use cc_learning.Base.{
  ℕ, ◌≡◌, ◌≢◌, ◌∙◌, sym, refl, arith, List, [], ◌∷◌, ◌++◌, Option, none, some, All,
}
use cc_learning.TimerList.{
  Nodes, TimerListMgr, update, set_next, set_prev, clear_links, is_at, bypass_next, bypass_prev,
  unlink,
}
use cc_learning.TimerList.Links.{
  Entry, node_of, first, last, IsLinked, nil, cons, IsOutside, IsDistinct, SameOutside, Represents,
  IsLinked-update,
}

pub All-remove {κ} :
    (P : Entry → Type κ) (t : Entry) (front back : List Entry)
    → All P (front ++ (t ∷ back))
    → P t × All P (front ++ back)
All-remove P t [] back h = h
All-remove P t (c ∷ cs) back h = let r = All-remove P t cs back h.1 in (r.0, (h.0, r.1))

pub All-restore {κ} :
    (P : Entry → Type κ) (t : Entry) (front back : List Entry)
    → P t × All P (front ++ back)
    → All P (front ++ (t ∷ back))
All-restore P t [] back h = h
All-restore P t (c ∷ cs) back h = (h.1.0, All-restore P t cs back (h.0, h.1.1))

pub IsDistinct-remove :
    (t : Entry) (front back : List Entry)
    → IsDistinct (front ++ (t ∷ back))
    → IsOutside t.at (front ++ back) × IsDistinct (front ++ back)
IsDistinct-remove t [] back d = d
IsDistinct-remove t (c ∷ cs) back d =
    let r = All-remove (λ x. x.at ≢ c.at) t cs back d.0 in
    let q = IsDistinct-remove t cs back d.1 in ((λ k. r.0 (sym k), q.0), (r.1, q.1))

-- From the entry `e`, which is behind `b`.
record Cut (t e : Entry) (b : Option ℕ) (cs back : List Entry) (s s' : TimerListMgr) : Type 0 where
  pub linked : IsLinked s'.nodes none b (e ∷ (cs ++ back))
  pub loose : s'.nodes t.at ≡ some (node_of none t none)
  pub outside : SameOutside (e ∷ (cs ++ (t ∷ back))) s s'
  pub head : s'.head ≡ s.head
  pub tail : s'.tail ≡ last (some e.at) (cs ++ back)
  pub users : s'.timer_of ≡ s.timer_of

unlink_last :
    (t e : Entry) (b : Option ℕ) (s : TimerListMgr)
    → IsLinked s.nodes none b (e ∷ t ∷ [])
    → IsDistinct (e ∷ t ∷ [])
    → s.tail ≡ some t.at
    → (s' : TimerListMgr) × (unlink t.at s ≡ some s') × Cut t e b [] [] s s'
unfolding unlink bypass_next bypass_prev set_next clear_links is_at update
unlink_last t e b s (cons he (cons ht l)) d k =
    let ne = d.0.0 in
    let h' : Nodes =
      update (update s.nodes e.at (some (node_of b e none))) t.at (some (node_of none t none)) in
    (
      record s { nodes = h'; tail = some e.at },
      ground (arith, he, ht, k),
      record {
        linked = cons (ground arith) nil;
        loose = ground arith;
        outside = λ a o. let o1 = o.0 in let o2 = o.1.0 in ground arith;
        head = refl;
        tail = refl;
        users = refl;
      },
    )

unlink_between :
    (t e c : Entry) (b : Option ℕ) (cs : List Entry) (s : TimerListMgr)
    → IsLinked s.nodes none b (e ∷ t ∷ c ∷ cs)
    → IsDistinct (e ∷ t ∷ c ∷ cs)
    → s.tail ≡ last (some c.at) cs
    → (s' : TimerListMgr) × (unlink t.at s ≡ some s') × Cut t e b [] (c ∷ cs) s s'
unfolding unlink bypass_next bypass_prev set_next set_prev clear_links update
unlink_between t e c b cs s (cons he (cons ht (cons hc l))) d k =
    let n1 = d.0.0 in
    let n2 = d.0.1.0 in
    let n3 = d.1.0.0 in
    let h' : Nodes =
      update
        (update (update s.nodes e.at (some (node_of b e (some c.at)))) c.at
          (some (node_of (some e.at) c (first cs none))))
        t.at (some (node_of none t none)) in
    (
      record s { nodes = h' },
      ground (arith, he, ht, hc),
      record {
        linked = cons (ground arith) (
            cons (ground arith) (
              IsLinked-update _ _ (IsLinked-update _ _ (IsLinked-update _ _ l d.0.1.1) d.1.1.0)
                d.1.0.1));
        loose = ground arith;
        outside = λ a o. let o1 = o.0 in let o2 = o.1.0 in let o3 = o.1.1.0 in ground arith;
        head = refl;
        tail = k;
        users = refl;
      },
    )

cut :
    (t : Entry) (cs back : List Entry) (e : Entry) (b : Option ℕ) (s : TimerListMgr)
    → IsLinked s.nodes none b (e ∷ (cs ++ (t ∷ back)))
    → IsDistinct (e ∷ (cs ++ (t ∷ back)))
    → s.tail ≡ last (some e.at) (cs ++ (t ∷ back))
    → (s' : TimerListMgr) × (unlink t.at s ≡ some s') × Cut t e b cs back s s'
cut t [] [] e b s l d k = unlink_last t e b s l d k
cut t [] (c ∷ cs) e b s l d k = unlink_between t e c b cs s l d k
cut t (c ∷ cs) back e b s (cons he l) d k =
    let (s', r, i) = cut t cs back c (some e.at) s l d.1 k in
    (
      s',
      r,
      record {
        linked = cons (i.outside e.at d.0 ∙ he) i.linked;
        loose = i.loose;
        outside = λ a o. i.outside a o.1;
        head = i.head;
        tail = i.tail;
        users = i.users;
      },
    )

pub record Unlinked (t : Entry) (front back : List Entry) (s s' : TimerListMgr) : Type 0 where
  pub represents : Represents s' (front ++ back)
  pub loose : s'.nodes t.at ≡ some (node_of none t none)
  pub outside : SameOutside (front ++ (t ∷ back)) s s'
  pub users : s'.timer_of ≡ s.timer_of

cut_only :
    (t : Entry) (s : TimerListMgr)
    → Represents s (t ∷ [])
    → (s' : TimerListMgr) × (unlink t.at s ≡ some s') × Unlinked t [] [] s s'
unfolding unlink bypass_next bypass_prev clear_links is_at update
cut_only t s p = elim p.linked [
  | cons ht l ↦
      let k = p.head in
      let k' = p.tail in
      let h' : Nodes = update s.nodes t.at (some (node_of none t none)) in
      (
        record s { nodes = h'; head = none; tail = none },
        ground (arith, ht, k, k'),
        record {
          represents = record { linked = nil; distinct = tt; head = refl; tail = refl };
          loose = ground arith;
          outside = λ a o. let o1 = o.0 in ground arith;
          users = refl;
        },
      )
]

cut_head :
    (t c : Entry) (cs : List Entry) (s : TimerListMgr)
    → s.nodes t.at ≡ some (node_of none t (some c.at))
    → s.nodes c.at ≡ some (node_of (some t.at) c (first cs none))
    → IsLinked s.nodes none (some c.at) cs
    → IsDistinct (t ∷ c ∷ cs)
    → s.head ≡ some t.at
    → s.tail ≡ last (some c.at) cs
    → (s' : TimerListMgr) × (unlink t.at s ≡ some s') × Unlinked t [] (c ∷ cs) s s'
unfolding unlink bypass_next bypass_prev set_prev clear_links is_at update
cut_head t c cs s ht hc l d k k' =
    let ne = d.0.0 in
    let h' : Nodes =
      update (update s.nodes c.at (some (node_of none c (first cs none)))) t.at
        (some (node_of none t none)) in
    (
      record s { nodes = h'; head = some c.at },
      ground (arith, ht, hc, k),
      record {
        represents = record {
          linked = cons (ground arith) (IsLinked-update _ _ (IsLinked-update _ _ l d.1.0) d.0.1);
          distinct = d.1;
          head = refl;
          tail = k';
        };
        loose = ground arith;
        outside = λ a o. let o1 = o.0 in let o2 = o.1.0 in ground arith;
        users = refl;
      },
    )

cut_front :
    (t c : Entry) (cs : List Entry) (s : TimerListMgr)
    → IsLinked s.nodes none none (t ∷ c ∷ cs)
    → Represents s (t ∷ c ∷ cs)
    → (s' : TimerListMgr) × (unlink t.at s ≡ some s') × Unlinked t [] (c ∷ cs) s s'
cut_front t c cs s (cons ht (cons hc l)) p = cut_head t c cs s ht hc l p.distinct p.head p.tail

-- The timer leaves the list in all four cases, and the links around it close.
pub unlink_lem :
    (t : Entry) (front back : List Entry) (s : TimerListMgr)
    → Represents s (front ++ (t ∷ back))
    → (s' : TimerListMgr) × (unlink t.at s ≡ some s') × Unlinked t front back s s'
unlink_lem t [] [] s p = cut_only t s p
unlink_lem t [] (c ∷ cs) s p = cut_front t c cs s p.linked p
unlink_lem t (e ∷ cs) back s p =
    let (s', r, i) = cut t cs back e none s p.linked p.distinct p.tail in
    (
      s',
      r,
      record {
        represents = record {
          linked = i.linked;
          distinct = (IsDistinct-remove t (e ∷ cs) back p.distinct).1;
          head = i.head ∙ p.head;
          tail = i.tail;
        };
        loose = i.loose;
        outside = i.outside;
        users = i.users;
      },
    )
