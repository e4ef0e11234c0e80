-- ===== src/TimerList/Calls/Owners.antt =====
-- What stays true of the list and of the clients' pointers into it in every history of
-- timer/timer.cc.
use cc_learning.Base.{
  ℕ, ◌≡◌, ◌≢◌, ◌⊎◌, ◌∙◌, sym, subst, refl, arith, ◌&&◌, List, [], ◌∷◌, ◌++◌, Option, none, some,
  inl, inr, ltb, leb, length, if_elim, Bool-cases, ◌==◌,
}
use cc_learning.TimerList.{◌>>=◌, update, forget}
use cc_learning.TimerList.Links.{Entry}
use cc_learning.TimerList.Insert.{insert}
use cc_learning.TimerList.Spec.{
  IsSorted, IsSorted-insert, IsSorted-remove, IsSorted-readjust, IsSorted-unexpired, split-cases,
  readjust, is_before, is_behind, lacks, expired, unexpired,
}
use cc_learning.TimerList.Calls.{
  Call, adds, deletes, deletes_of, adjusts_of, Event, calls, ticks, Timers, no_timers, own,
  spec_add, spec_delete, spec_adjust, spec_call, spec_call_all, forget_all, calls_for,
  spec_run_expired, spec_step, spec_run,
}

-- The timer of the client `u` at `a`.
abbrev pub IsListed : ℕ → ℕ → List Entry → Type 0
IsListed u a [] = ⊥
IsListed u a (c ∷ cs) = ((c.at ≡ a) × (c.user ≡ some u)) ⊎ IsListed u a cs

-- What a list with the same timers keeps.
module _ (u a : ℕ) where
  IsListed-tail :
      (c : Entry) (xs ys : List Entry)
      → (IsListed u a xs → IsListed u a ys)
      → IsListed u a (c ∷ xs)
      → IsListed u a (c ∷ ys)
  IsListed-tail c xs ys f (inl k) = inl k
  IsListed-tail c xs ys f (inr k) = inr (f k)

  IsListed-swap :
      (t c : Entry) (cs : List Entry) → IsListed u a (t ∷ c ∷ cs) → IsListed u a (c ∷ t ∷ cs)
  IsListed-swap t c cs (inl k) = inr (inl k)
  IsListed-swap t c cs (inr (inl k)) = inl k
  IsListed-swap t c cs (inr (inr k)) = inr (inr k)

  IsListed-insert :
      (t : Entry) (cs : List Entry) → IsListed u a (t ∷ cs) → IsListed u a (insert t cs)
  unfolding insert
  IsListed-insert t [] i = i
  IsListed-insert t (c ∷ cs) i =
      if_elim (IsListed u a) (ltb t.expire c.expire) (λ e. i)
        (λ e.
          IsListed-tail c (t ∷ cs) (insert t cs) (IsListed-insert t cs) (IsListed-swap t c cs i))

  IsListed-restore :
      (t : Entry) (front back : List Entry)
      → IsListed u a (t ∷ (front ++ back))
      → IsListed u a (front ++ (t ∷ back))
  IsListed-restore t [] back i = i
  IsListed-restore t (c ∷ cs) back i =
      IsListed-tail c (t ∷ (cs ++ back)) (cs ++ (t ∷ back)) (IsListed-restore t cs back)
        (IsListed-swap t c (cs ++ back) i)

  IsListed-remove :
      (t : Entry) (front back : List Entry)
      → IsListed u a (front ++ (t ∷ back))
      → IsListed u a (t ∷ (front ++ back))
  IsListed-remove t [] back i = i
  IsListed-remove t (c ∷ cs) back i =
      IsListed-swap c t (cs ++ back)
        (IsListed-tail c (cs ++ (t ∷ back)) (t ∷ (cs ++ back)) (IsListed-remove t cs back) i)

  IsListed-readjust :
      (t : Entry) (front back : List Entry)
      → IsListed u a (t ∷ (front ++ back))
      → IsListed u a (readjust front t back)
  unfolding readjust
  IsListed-readjust t front back i =
      if_elim (IsListed u a) (is_before t back && is_behind front t)
        (λ e. IsListed-restore t front back i) (λ e. IsListed-insert t (front ++ back) i)

  own_lem :
      (o : Option ℕ) (x : ℕ) (f : ℕ → Option ℕ)
      → own o x f u ≡ some a
      → ((x ≡ a) × (o ≡ some u)) ⊎ (f u ≡ some a)
  unfolding own update
  own_lem none x f e = inr e
  own_lem (some v) x f e = elim (Bool-cases (u == v)) [
    | inl k ↦
        inl (
          let q : some x ≡ some a = sym (rw k refl) ∙ e in (cc, let z : v ≡ u = ground arith in cc))
    | inr k ↦ inr (sym (rw k refl) ∙ e)
  ]

  forget_lem :
      (o : Option ℕ) (f : ℕ → Option ℕ) → forget o f u ≡ some a → (o ≢ some u) × (f u ≡ some a)
  unfolding forget update
  forget_lem none f e = ((λ k. let z : ⊥ = cc in z), e)
  forget_lem (some v) f e = elim (Bool-cases (u == v)) [
    | inl k ↦ absurd (let q : none ≡ some a = sym (rw k refl) ∙ e in let z : ⊥ = cc in z)
    | inr k ↦ ((λ q. let z : v ≡ u = cc in ground arith), sym (rw k refl) ∙ e)
  ]

  pub forget_all_lem :
      (cs : List Entry) (f : ℕ → Option ℕ) → forget_all cs f u ≡ some a → f u ≡ some a
  unfolding forget_all
  forget_all_lem [] f e = e
  forget_all_lem (c ∷ cs) f e = (forget_lem c.user f (forget_all_lem cs (forget c.user f) e)).1

  -- Who has a timer has no pointer once all are forgotten.
  pub forgets_all :
      (cs : List Entry) (f : ℕ → Option ℕ) → IsListed u a cs → forget_all cs f u ≢ some a
  unfolding forget_all
  forgets_all [] f i e = elim i [ ]
  forgets_all (c ∷ cs) f (inl k) e =
      (forget_lem c.user f (forget_all_lem cs (forget c.user f) e)).0 k.1
  forgets_all (c ∷ cs) f (inr k) e = forgets_all cs (forget c.user f) k e

  -- An expired timer's client has no pointer left.
  IsListed-unexpired :
      (cur : ℕ) (cs : List Entry) (f : ℕ → Option ℕ)
      → forget_all (expired cur cs) f u ≡ some a
      → IsListed u a cs
      → IsListed u a (unexpired cur cs)
  unfolding expired unexpired forget_all
  IsListed-unexpired cur [] f e i = elim i [ ]
  IsListed-unexpired cur (c ∷ cs) f e i = elim (Bool-cases (leb c.expire cur)) [
    | inl k ↦
        let e' : forget_all (expired cur cs) (forget c.user f) u ≡ some a = sym (rw k refl) ∙ e in
        let r = forget_lem c.user f (forget_all_lem (expired cur cs) (forget c.user f) e') in
        rw k (elim i [
          | inl j ↦ absurd (r.0 j.1)
          | inr j ↦ IsListed-unexpired cur cs (forget c.user f) e' j
        ])
    | inr k ↦ rw k i
  ]

-- The list is sorted, and a client's pointer is null or leads to a timer of the list that is the
-- client's.
pub record IsGood (st : Timers) : Type 0 where
  pub sorted : IsSorted st.list
  pub owned : (u a : ℕ) → st.owner u ≡ some a → IsListed u a st.list

abbrev IsAlways : Option Timers → Type 0
IsAlways none = Unit
IsAlways (some st) = IsGood st

then_good :
    (o : Option Timers) (k : Timers → Option Timers)
    → IsAlways o
    → ((st : Timers) → IsGood st → IsAlways (k st))
    → IsAlways (o >>= k)
then_good none k g h = tt
then_good (some st) k g h = h st g

add_good :
    (n : ℕ) (ds : List Entry) (e : Entry) (st : Timers) → IsGood st → IsAlways (spec_add n ds e st)
unfolding spec_add
add_good n ds e st g =
    if_elim IsAlways (ltb (length st.list) n && (lacks e.at st.list && lacks e.at ds))
      (λ k. record {
        sorted = IsSorted-insert e st.list g.sorted;
        owned = λ u a o. IsListed-insert u a e st.list (elim (own_lem u a e.user e.at st.owner o) [
          | inl q ↦ inl q
          | inr q ↦ inr (g.owned u a q)
        ]);
      })
      (λ k. tt)

delete_good : (p : Option ℕ) (st : Timers) → IsGood st → IsAlways (spec_delete p st)
unfolding spec_delete
delete_good none st g = g
delete_good (some x) st g = elim (split-cases x st.list) [
  | inl e ↦ rw e tt
  | inr f ↦ rw f.found (record {
    sorted = IsSorted-remove f.timer f.front f.back (subst IsSorted f.parts g.sorted);
    owned = λ u a o.
        let r = forget_lem u a f.timer.user st.owner o in
        elim (IsListed-remove u a f.timer f.front f.back
          (subst (IsListed u a) f.parts (g.owned u a r.1))) [
            | inl q ↦ absurd (r.0 q.1)
            | inr q ↦ q
          ];
  })
]

adjust_good : (p : Option ℕ) (x : ℕ) (st : Timers) → IsGood st → IsAlways (spec_adjust p x st)
unfolding spec_adjust
adjust_good none x st g = g
adjust_good (some b) x st g = elim (split-cases b st.list) [
  | inl e ↦ rw e tt
  | inr f ↦
      let t : Entry = record f.timer { expire = x } in
      rw f.found (record {
        sorted =
            IsSorted-readjust t f.front f.back
              (IsSorted-remove f.timer f.front f.back (subst IsSorted f.parts g.sorted));
        owned = λ u a o. IsListed-readjust u a t f.front f.back (
            IsListed-remove u a f.timer f.front f.back
              (subst (IsListed u a) f.parts (g.owned u a o)));
      })
]

call_good :
    (n : ℕ) (ds : List Entry) (c : Call) (st : Timers) → IsGood st → IsAlways (spec_call n ds c st)
unfolding spec_call
call_good n ds (adds e) st g = add_good n ds e st g
call_good n ds (deletes a) st g = delete_good (some a) st g
call_good n ds (deletes_of u) st g = delete_good (st.owner u) st g
call_good n ds (adjusts_of u x) st g = adjust_good (st.owner u) x st g

call_all_good :
    (n : ℕ) (ds : List Entry) (cs : List Call) (st : Timers)
    → IsGood st
    → IsAlways (spec_call_all n ds cs st)
unfolding spec_call_all
call_all_good n ds [] st g = g
call_all_good n ds (c ∷ cs) st g =
    then_good (spec_call n ds c st) (spec_call_all n ds cs) (call_good n ds c st g)
      (call_all_good n ds cs)

module _ (calls_of : ℕ → List Call) (n : ℕ) where
  run_expired_good :
      (ts : List Entry) (st : Timers) → IsGood st → IsAlways (spec_run_expired calls_of n ts st)
  unfolding spec_run_expired
  run_expired_good [] st g = g
  run_expired_good (t ∷ ts) st g =
      then_good (spec_call_all n (t ∷ ts) (calls_for calls_of t) st)
        (spec_run_expired calls_of n ts) (call_all_good n (t ∷ ts) (calls_for calls_of t) st g)
        (run_expired_good ts)

  step_good : (e : Event) (st : Timers) → IsGood st → IsAlways (spec_step calls_of n e st)
  unfolding spec_step
  step_good (calls c) st g = call_good n [] c st g
  step_good (ticks cur) st g =
      let out = expired cur st.list in
      run_expired_good out
        (record { list = unexpired cur st.list; owner = forget_all out st.owner })
        (record {
          sorted = IsSorted-unexpired cur st.list g.sorted;
          owned = λ u a o.
              IsListed-unexpired u a cur st.list st.owner o
                (g.owned u a (forget_all_lem u a out st.owner o));
        })

  run_good : (es : List Event) (st : Timers) → IsGood st → IsAlways (spec_run calls_of n es st)
  unfolding spec_run
  run_good [] st g = g
  run_good (e ∷ es) st g =
      then_good (spec_step calls_of n e st) (spec_run calls_of n es) (step_good e st g)
        (run_good es)

  pub history_good :
      (es : List Event) {st : Timers} → spec_run calls_of n es no_timers ≡ some st → IsGood st
  history_good es k =
      subst IsAlways k
        (run_good es no_timers (record { sorted = tt; owned = λ u a o. let z : ⊥ = cc in z }))
