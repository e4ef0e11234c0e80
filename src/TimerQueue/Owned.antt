-- ===== src/TimerQueue/Owned.antt =====
-- Which timers of reactor_net/src/TimerQueue.cpp are waiting, and which are deleted.
use cc_learning.Base.{
  ℕ, zero, suc, ◌+◌, ◌≤◌, ◌≡◌, sym, ap, subst, refl, arith, Bool, true, false, List, [], ◌∷◌, none,
  some, leb, ltb, ◌==◌, length, map, if_elim, Bool-cases, inl, inr, bit, count, count-append,
  if◌then◌else◌,
}
use cc_learning.Base.Heap.{Heap}
use cc_learning.TimerQueue.{
  later, Timer, restart, TimerQueue, new_queue, destroy_queue, contains, insert_active,
  erase_active, erase_timer, insert, add_timer, cancel, expired_loop, get_expired, reset_timers,
  reset, Call, adds, cancels, call, call_all, run_timers, handle_read, Event, calls, fires, step,
  run,
}

abbrev pub has_identity : ℕ → Timer → Bool
has_identity i t = t.identity == i

contains-insert_active :
    (i j : ℕ) (js : List ℕ)
    → contains j js ≡ false
    → bit (contains i (insert_active j js)) ≡ bit (j == i) + bit (contains i js)
unfolding contains insert_active
contains-insert_active i j js e = elim (Bool-cases (i == j)) [
  | inl k ↦
      let same : i ≡ j = ground arith in
      let q : contains i js ≡ false = subst (λ x. contains x js ≡ false) (sym same) e in
      rw (e, q) (ground arith)
  | inr k ↦ rw e (ground arith)
]

contains-erase_active :
    (i j : ℕ) (js : List ℕ)
    → bit (contains i (erase_active j js)) ≡ (if j == i then 0 else bit (contains i js))
unfolding contains erase_active
contains-erase_active i j [] = ground arith
contains-erase_active i j (k ∷ ks) = let r = contains-erase_active i j ks in ground (arith, r)

bit-erase_active :
    (i j : ℕ) (js : List ℕ)
    → contains j js ≡ true
    → bit (contains i (erase_active j js)) + bit (j == i) ≡ bit (contains i js)
bit-erase_active i j js e = elim (Bool-cases (j == i)) [
  | inl k ↦
      let same : j ≡ i = ground arith in
      let q : bit (contains i js) ≡ 1 = subst (λ x. bit (contains x js) ≡ 1) same (rw e refl) in
      let a = contains-erase_active i j js in ground (arith, a, k, q)
  | inr k ↦ let a = contains-erase_active i j js in ground (arith, a, k)
]

bit_le : (b : Bool) → bit b ≤ 1
bit_le true = omega arith
bit_le false = omega arith

-- The timer that is taken out, if there is one.
erase_timer_lem :
    (j : ℕ) (ts : List Timer)
    → 1 ≤ count (has_identity j) ts
    → (us : List Timer) × (erase_timer j ts ≡ some us)
      × ((i : ℕ) → count (has_identity i) us + bit (j == i) ≡ count (has_identity i) ts)
unfolding erase_timer
erase_timer_lem j [] h = absurd (omega (arith, h))
erase_timer_lem j (t ∷ ts) h = elim (Bool-cases (t.identity == j)) [
  | inl e ↦ (ts, rw e refl, λ i. (let q : t.identity ≡ j = ground arith in ground arith))
  | inr e ↦
      let (us, r, k) =
        erase_timer_lem j ts
          (let q : bit (t.identity == j) ≡ 0 = rw e refl in omega (arith, h, q)) in
      (t ∷ us, rw (e, r) refl, λ i. omega (arith, k i))
]

count-identities :
    (i : ℕ) (ts : List Timer)
    → count (λ j. j == i) (map (λ t. t.identity) ts) ≡ count (has_identity i) ts
count-identities i [] = refl
count-identities i (t ∷ ts) = omega (arith, count-identities i ts)

-- `held` are the timers that have expired and are not put back or deleted yet.
record Owned (held : List Timer) (q : TimerQueue) : Type 0 where
  pub listed : (i : ℕ) → count (has_identity i) q.timers ≡ bit (contains i q.active)
  pub once :
      (i : ℕ)
      → count (has_identity i) q.timers
          + (count (has_identity i) held + count (λ j. j == i) q.deleted)
        ≡ bit (ltb i q.next_identity)

module _ (heap : Heap later) where
  open heap use {push, push_items, pop_rest, pop_rest_items, make, make_items}

  -- A timer that is not waiting is put in.
  insert-Owned :
      (t : Timer) (held : List Timer) (q : TimerQueue)
      → Owned (t ∷ held) q
      → Owned held (insert heap t q)
  unfolding insert
  insert-Owned t held q p =
      let one : bit (t.identity == t.identity) ≡ 1 = ground arith in
      let absent : contains t.identity q.active ≡ false =
        elim (Bool-cases (contains t.identity q.active)) [
          | inl e ↦
              let k : bit (contains t.identity q.active) ≡ 1 = rw e refl in
              absurd (
                omega (
                  arith,
                  one,
                  k,
                  p.listed t.identity,
                  p.once t.identity,
                  bit_le (ltb t.identity q.next_identity),
                ))
          | inr e ↦ e
        ] in
      record {
        listed = λ i.
            let a = contains-insert_active i t.identity q.active absent in
            omega (arith, push_items q.timers t (has_identity i), p.listed i, a);
        once = λ i. omega (arith, push_items q.timers t (has_identity i), p.once i);
      }

  -- `new` makes a timer that is neither waiting nor deleted.
  new-Owned :
      (t : Timer) (held : List Timer) (q : TimerQueue)
      → t.identity ≡ q.next_identity
      → Owned held q
      → Owned (t ∷ held) (record q { next_identity = suc q.next_identity })
  new-Owned t held q e p = record {
    listed = p.listed;
    once = λ i.
        let n : bit (ltb i (suc q.next_identity))
            ≡ bit (ltb i q.next_identity) + bit (t.identity == i) =
          ground (arith, e) in
        omega (arith, n, p.once i);
  }

  add_timer-Owned :
      (at interval : ℕ) (repeat : Bool) (held : List Timer) (q : TimerQueue)
      → Owned held q
      → Owned held (add_timer heap at interval repeat q)
  unfolding add_timer
  add_timer-Owned at interval repeat held q p = insert-Owned _ held _ (new-Owned _ held q refl p)

  cancel-Owned :
      (j : ℕ) (held : List Timer) (q : TimerQueue) → Owned held q → Owned held (cancel heap j q)
  unfolding cancel
  cancel-Owned j held q p =
      if_elim (Owned held) (contains j q.active)
        (λ e.
          let one : bit (contains j q.active) ≡ 1 = rw e refl in
          let (us, r, k) = erase_timer_lem j q.timers (omega (arith, p.listed j, one)) in
          rw r (record {
            listed = λ i. omega (
              arith,
              make_items us (has_identity i),
              k i,
              p.listed i,
              bit-erase_active i j q.active e,
            );
            once = λ i. omega (arith, make_items us (has_identity i), k i, p.once i);
          }))
        (λ e. p)

  call-Owned :
      (c : Call heap) (held : List Timer) (q : TimerQueue)
      → Owned held q
      → Owned held (call heap c q)
  unfolding call
  call-Owned (adds at interval repeat) held q p = add_timer-Owned at interval repeat held q p
  call-Owned (cancels i) held q p = cancel-Owned i held q p

  call_all-Owned :
      (cs : List (Call heap)) (held : List Timer) (q : TimerQueue)
      → Owned held q
      → Owned held (call_all heap cs q)
  unfolding call_all
  call_all-Owned [] held q p = p
  call_all-Owned (c ∷ cs) held q p = call_all-Owned cs held _ (call-Owned c held q p)

  -- The balance of the loop of `getExpired`.
  record Taken (ts : List Timer) (active : List ℕ) (r : List Timer × List Timer × List ℕ)
      : Type 0 where
    pub waiting : (i : ℕ) → count (has_identity i) r.1 ≡ bit (contains i r.2)
    pub parts :
        (i : ℕ)
        → count (has_identity i) r.0 + count (has_identity i) r.1 ≡ count (has_identity i) ts

  expired_loop-Taken :
      (n now : ℕ) (ts : List Timer) (active : List ℕ)
      → ((i : ℕ) → count (has_identity i) ts ≡ bit (contains i active))
      → Taken ts active (expired_loop heap n now ts active)
  unfolding expired_loop
  expired_loop-Taken zero now ts active h = record { waiting = h; parts = λ i. omega arith }
  expired_loop-Taken (suc n) now [] active h = record { waiting = h; parts = λ i. omega arith }
  expired_loop-Taken (suc n) now (t ∷ ts) active h =
      let us : List Timer = pop_rest t ts in
      let one : bit (t.identity == t.identity) ≡ 1 = ground arith in
      let found : contains t.identity active ≡ true =
        elim (Bool-cases (contains t.identity active)) [
          | inl e ↦ e
          | inr e ↦
              let k : bit (contains t.identity active) ≡ 0 = rw e refl in
              absurd (omega (arith, one, k, h t.identity))
        ] in
      let js : List ℕ = erase_active t.identity active in
      let r : Taken us js (expired_loop heap n now us js) = expired_loop-Taken n now us js (λ i.
        omega (
          arith,
          h i,
          pop_rest_items t ts (has_identity i),
          bit-erase_active i t.identity active found,
        )) in
      if_elim (Taken (t ∷ ts) active) (leb t.expiration now)
        (λ e. record {
          waiting = r.waiting;
          parts = λ i. omega (arith, r.parts i, pop_rest_items t ts (has_identity i));
        })
        (λ e. record { waiting = h; parts = λ i. omega arith })

  get_expired-Owned :
      (now : ℕ) (q : TimerQueue)
      → Owned [] q
      → Owned (get_expired heap now q).0 (get_expired heap now q).1
  unfolding get_expired
  get_expired-Owned now q p =
      let r = expired_loop-Taken (length q.timers) now q.timers q.active p.listed in
      record { listed = r.waiting; once = λ i. omega (arith, r.parts i, p.once i) }

  restart-identity : (now : ℕ) (t : Timer) → (restart now t).identity ≡ t.identity
  unfolding restart
  restart-identity now t =
      if_elim (λ (u : Timer). u.identity ≡ t.identity) t.repeat (λ e. refl) (λ e. refl)

  -- A timer that was held is put back or deleted.
  reset_timers-Owned :
      (ts : List Timer) (now : ℕ) (q : TimerQueue)
      → Owned ts q
      → Owned [] (reset_timers heap ts now q)
  unfolding reset_timers
  reset_timers-Owned [] now q p = p
  reset_timers-Owned (t ∷ ts) now q p = reset_timers-Owned ts now _ (
      if_elim (Owned ts) t.repeat
        (λ e. insert-Owned (restart now t) ts q (record {
          listed = p.listed;
          once = λ i.
              let k : bit ((restart now t).identity == i) ≡ bit (t.identity == i) =
                ap (λ x. bit (x == i)) (restart-identity now t) in
              omega (arith, k, p.once i);
        }))
        (λ e. record { listed = p.listed; once = λ i. omega (arith, p.once i) }))

  module _ (callbacks : ℕ → List (Call heap)) where
    run_timers-Owned :
        (ts held : List Timer) (q : TimerQueue)
        → Owned held q
        → Owned held (run_timers heap callbacks ts q)
    unfolding run_timers
    run_timers-Owned [] held q p = p
    run_timers-Owned (t ∷ ts) held q p =
        run_timers-Owned ts held _ (
          call_all-Owned (callbacks t.identity) held _
            (record { listed = p.listed; once = p.once }))

    handle_read-Owned :
        (now : ℕ) (q : TimerQueue) → Owned [] q → Owned [] (handle_read heap callbacks now q)
    unfolding handle_read reset
    handle_read-Owned now q p =
        let q0 : TimerQueue = record q { armed = none } in
        let ts : List Timer = (get_expired heap now q0).0 in
        let e : Owned ts (get_expired heap now q0).1 =
          get_expired-Owned now q0 (record { listed = p.listed; once = p.once }) in
        let c = run_timers-Owned ts ts _ (record { listed = e.listed; once = e.once }) in
        let r = reset_timers-Owned ts now _ (record { listed = c.listed; once = c.once }) in
        record { listed = r.listed; once = r.once }

    run-Owned :
        (es : List (Event heap callbacks)) (q : TimerQueue)
        → Owned [] q
        → Owned [] (run heap callbacks es q)
    unfolding run step
    run-Owned [] q p = p
    run-Owned (calls c ∷ es) q p = run-Owned es _ (call-Owned c [] q p)
    run-Owned (fires now ∷ es) q p = run-Owned es _ (handle_read-Owned now q p)

    -- In every history of adds, cancels and expiries, with callbacks that add and cancel timers,
    -- every timer that was ever made is either waiting in `timers_`, once, or was deleted, once, and
    -- `activeTimers_` names exactly the waiting ones: no timer is deleted twice, no deleted timer
    -- is left in the queue and none is lost. The destructor then deletes what is left, so that every
    -- timer has been deleted exactly once.
    pub owned_once :
        (es : List (Event heap callbacks)) (i : ℕ)
        → let q = run heap callbacks es new_queue in
          (count (has_identity i) q.timers ≡ bit (contains i q.active))
          × (count (has_identity i) q.timers + count (λ j. j == i) q.deleted
              ≡ bit (ltb i q.next_identity))
          × (count (λ j. j == i) (destroy_queue q).deleted ≡ bit (ltb i q.next_identity))
    unfolding contains destroy_queue
    owned_once es i =
        let p = run-Owned es new_queue (record { listed = λ i. refl; once = λ i. ground arith }) in
        let q = run heap callbacks es new_queue in
        (
          p.listed i,
          omega (arith, p.once i),
          omega (
            arith,
            p.once i,
            count-append (λ j. j == i) (map (λ t. t.identity) q.timers) q.deleted,
            count-identities i q.timers,
          ),
        )
