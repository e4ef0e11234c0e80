-- ===== src/TimerList/Calls/Refine.antt =====
-- Each call of a client of timer/timer.cc, on the nodes and on the list without links.
use cc_learning.Base.{
  ℕ, ◌≤◌, ◌<◌, ◌≡◌, ◌∙◌, sym, ap, subst, refl, arith, ◌&&◌, List, [], ◌∷◌, ◌++◌, Option, none, some,
  inl, inr, ltb, ltb→lt, length, length-append, if_elim,
}
use cc_learning.TimerList.{
  TimerListMgr, ◌>>=◌, store, forget, set_expire, add_timer, del_timer, adjust_timer, place,
}
use cc_learning.TimerList.Links.{Entry, node_of, IsOutside}
use cc_learning.TimerList.Insert.{insert, length-insert}
use cc_learning.TimerList.Holds.{Holds, place-Holds, new-Holds, del_timer-Holds, Holds-owner}
use cc_learning.TimerList.Spec.{
  readjust, length-readjust, lacks, lacks-IsOutside, Found, split-cases,
}
use cc_learning.TimerList.Adjust.{set_expire-Holds, adjust_timer-Holds}
use cc_learning.TimerList.Calls.{
  Call, adds, deletes, deletes_of, adjusts_of, own, allocate, adjust_at, call, call_all, Timers,
  spec_add, spec_delete, spec_adjust, spec_call, spec_call_all,
}

-- The nodes are those of the list and of the timers that wait for their callbacks, and the clients'
-- pointers are those of the specification.
pub record Agrees (n : ℕ) (ds : List Entry) (s : TimerListMgr) (st : Timers) : Type 0 where
  pub holds : Holds s st.list ds
  pub owner : s.timer_of ≡ st.owner
  pub room : length st.list ≤ n

-- Where the specification has a result, the code returns one, and they agree.
abbrev pub IsMatched : ℕ → List Entry → Option TimerListMgr → Option Timers → Type 0
IsMatched n ds r none = Unit
IsMatched n ds r (some st) = (s : TimerListMgr) × (r ≡ some s) × Agrees n ds s st

pub then-IsMatched :
    (n : ℕ) (ds es : List Entry) (r : Option TimerListMgr) (o : Option Timers)
    (f : TimerListMgr → Option TimerListMgr) (g : Timers → Option Timers)
    → IsMatched n ds r o
    → ((s : TimerListMgr) (st : Timers) → Agrees n ds s st → IsMatched n es (f s) (g st))
    → IsMatched n es (r >>= f) (o >>= g)
then-IsMatched n ds es r none f g m k = tt
then-IsMatched n ds es r (some st) f g m k =
    subst (λ x. IsMatched n es x (g st)) (sym (rw m.1 refl)) (k m.0 st m.2)

module _ (n : ℕ) (ds : List Entry) (s : TimerListMgr) (st : Timers) (p : Agrees n ds s st) where
  added :
      (e : Entry)
      → length st.list < n
      → IsOutside e.at st.list
      → IsOutside e.at ds
      → (s' : TimerListMgr) × (place n e.at (allocate e s) ≡ some s')
        × Agrees n ds s' (record { list = insert e st.list; owner = own e.user e.at st.owner })
  unfolding allocate
  added e h o q =
      let new : Holds (allocate e s) st.list (e ∷ ds) =
        Holds-owner (store e.at (some (node_of none e none)) s) st.list (e ∷ ds)
          (own e.user e.at s.timer_of) (new-Holds e st.list ds s p.holds o q) in
      let (s', r, p', u) = place-Holds e st.list ds n (allocate e s) new (omega (arith, h)) in
      (
        s',
        r,
        record {
          holds = p';
          owner = u ∙ ap (own e.user e.at) p.owner;
          room = omega (arith, length-insert e st.list, h);
        },
      )

  shorter :
      (front back : List Entry) (t : Entry)
      → st.list ≡ front ++ (t ∷ back)
      → length (front ++ back) ≤ n
  shorter front back t e = omega (
    arith,
    p.room,
    ap (λ l. length l) e,
    length-append front (t ∷ back),
    length-append front back,
  )

  deleted :
      (a : ℕ) (f : Found a st.list)
      → (s' : TimerListMgr) × (del_timer (some a) s ≡ some s')
        × Agrees n ds s' (record { list = f.front ++ f.back; owner = forget f.timer.user st.owner })
  deleted a f =
      let (s', r, p', u) =
        del_timer-Holds f.timer f.front f.back ds s (subst (λ l. Holds s l ds) f.parts p.holds) in
      (
        s',
        subst (λ b. del_timer (some b) s ≡ some s') f.address r,
        record {
          holds = p';
          owner = u ∙ ap (forget f.timer.user) p.owner;
          room = shorter f.front f.back f.timer f.parts;
        },
      )

  adjusted :
      (a x : ℕ) (f : Found a st.list)
      → (s' : TimerListMgr) × ((set_expire a x s >>= adjust_timer n (some a)) ≡ some s')
        × Agrees n ds s'
            (record st { list = readjust f.front (record f.timer { expire = x }) f.back })
  adjusted a x f =
      let (s1, r1, p1, u1) =
        set_expire-Holds f.timer x f.front f.back ds s
          (subst (λ l. Holds s l ds) f.parts p.holds) in
      let t : Entry = record f.timer { expire = x } in
      let (s2, r2, p2, u2) =
        adjust_timer-Holds n t f.front f.back ds s1 p1 (shorter f.front f.back f.timer f.parts) in
      let r : (set_expire t.at x s >>= adjust_timer n (some t.at)) ≡ some s2 = rw r1 r2 in
      (
        s2,
        subst (λ b. (set_expire b x s >>= adjust_timer n (some b)) ≡ some s2) f.address r,
        record {
          holds = p2;
          owner = u2 ∙ (u1 ∙ p.owner);
          room = omega (
            arith,
            p.room,
            ap (λ l. length l) f.parts,
            length-append f.front (f.timer ∷ f.back),
            length-append f.front f.back,
            length-readjust t f.front f.back,
          );
        },
      )

  add-IsMatched :
      (e : Entry) → IsMatched n ds (add_timer n (some e.at) (allocate e s)) (spec_add n ds e st)
  unfolding add_timer allocate spec_add
  add-IsMatched e =
      if_elim (IsMatched n ds (add_timer n (some e.at) (allocate e s)))
        (ltb (length st.list) n && (lacks e.at st.list && lacks e.at ds))
        (λ k.
          added e (ltb→lt (length st.list) n (ground (arith, k)))
            (lacks-IsOutside e.at st.list (ground (arith, k)))
            (lacks-IsOutside e.at ds (ground (arith, k))))
        (λ k. tt)

  delete-IsMatched : (a : Option ℕ) → IsMatched n ds (del_timer a s) (spec_delete a st)
  unfolding del_timer spec_delete
  delete-IsMatched none = (s, refl, p)
  delete-IsMatched (some a) = elim (split-cases a st.list) [
    | inl e ↦ rw e tt
    | inr f ↦ rw f.found (deleted a f)
  ]

  adjust-IsMatched :
      (a : Option ℕ) (x : ℕ) → IsMatched n ds (adjust_at n a x s) (spec_adjust a x st)
  unfolding adjust_at adjust_timer spec_adjust
  adjust-IsMatched none x = (s, refl, p)
  adjust-IsMatched (some a) x = elim (split-cases a st.list) [
    | inl e ↦ rw e tt
    | inr f ↦ rw f.found (adjusted a x f)
  ]

  pub call-IsMatched : (c : Call) → IsMatched n ds (call n c s) (spec_call n ds c st)
  unfolding call spec_call
  call-IsMatched (adds e) = add-IsMatched e
  call-IsMatched (deletes a) = delete-IsMatched (some a)
  call-IsMatched (deletes_of u) =
      subst (λ f. IsMatched n ds (del_timer (s.timer_of u) s) (spec_delete (f u) st)) p.owner
        (delete-IsMatched (s.timer_of u))
  call-IsMatched (adjusts_of u x) =
      subst (λ f. IsMatched n ds (adjust_at n (s.timer_of u) x s) (spec_adjust (f u) x st)) p.owner
        (adjust-IsMatched (s.timer_of u) x)

pub call_all-IsMatched :
    (n : ℕ) (ds : List Entry) (cs : List Call) (s : TimerListMgr) (st : Timers)
    → Agrees n ds s st
    → IsMatched n ds (call_all n cs s) (spec_call_all n ds cs st)
unfolding call_all spec_call_all
call_all-IsMatched n ds [] s st p = (s, refl, p)
call_all-IsMatched n ds (c ∷ cs) s st p =
    then-IsMatched n ds ds (call n c s) (spec_call n ds c st) (call_all n cs)
      (spec_call_all n ds cs) (call-IsMatched n ds s st p c) (call_all-IsMatched n ds cs)
