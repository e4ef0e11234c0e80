-- ===== src/TimerQueue/History.antt =====
-- The timer descriptor over histories of reactor_net/src/TimerQueue.cpp.
use cc_learning.Base.{
  ℕ, ◌+◌, ◌≤◌, ◌≡◌, refl, sym, arith, Bool, true, List, [], ◌∷◌, Option, none, some, leb, ltb,
  length, if_elim, All, All-map, leb→le, subst,
}
use cc_learning.Base.Heap.{Heap}
use cc_learning.TimerQueue.{
  later, Timer, restart, TimerQueue, new_queue, contains, erase_timer, erase_active, add_timer,
  cancel, expired_loop, get_expired, reset_timers, next_armed, reset, Call, adds, cancels, call,
  call_all, run_timers, handle_read, Event, calls, fires, step, run,
}
use cc_learning.TimerQueue.Expire.{IsParted, expired_loop_lem}
use cc_learning.TimerQueue.Armed.{
  NotBefore, IsArmed, le→leb, Sound, Ready, left, front-NotBefore, insert-Sound, insert-Ready,
  left-NotBefore, left-IsHeap, left-IsArmed, erase_timer-IsKept,
}

module _ (heap : Heap later) where
  cancel_lem :
      (P : TimerQueue → Type 0) (i : ℕ) (q : TimerQueue)
      → P q
      → ((active deleted : List ℕ)
          → P (record q {
            active = active;
            timers = left heap (erase_timer i q.timers) q.timers;
            deleted = deleted;
          }))
      → P (cancel heap i q)
  unfolding cancel
  cancel_lem P i q h k =
      if_elim P (contains i q.active)
        (λ _.
          subst
            (λ ts.
              P (record q {
                active = erase_active i q.active;
                timers = ts;
                deleted = i ∷ q.deleted;
              }))
            (sym (same (erase_timer i q.timers))) (k (erase_active i q.active) (i ∷ q.deleted)))
        (λ _. h)
    where
      same :
          (o : Option (List Timer))
          → elim o as (λ x. List Timer) [ none ↦ q.timers | some ts ↦ heap.make ts ]
            ≡ left heap o q.timers
      same none = refl
      same (some us) = refl

  cancel-Sound : (i : ℕ) {q : TimerQueue} → Sound heap q → Sound heap (cancel heap i q)
  cancel-Sound i {q} v = cancel_lem (Sound heap) i q v (λ active deleted. record {
    ordered = left-IsHeap heap (erase_timer i q.timers) q.timers v.ordered;
    positive =
        left-NotBefore heap 1 (erase_timer i q.timers) q.timers v.positive
          (erase_timer-IsKept heap 1 i q.timers v.positive);
  })

  cancel-Ready : (i : ℕ) {q : TimerQueue} → Ready heap q → Ready heap (cancel heap i q)
  cancel-Ready i {q} v = cancel_lem (Ready heap) i q v (λ active deleted. record {
    sound = record {
      ordered = left-IsHeap heap (erase_timer i q.timers) q.timers v.sound.ordered;
      positive =
          left-NotBefore heap 1 (erase_timer i q.timers) q.timers v.sound.positive
            (erase_timer-IsKept heap 1 i q.timers v.sound.positive);
    };
    ready = left-IsArmed heap q.armed i q.timers v.ready;
  })

  -- The times that clients give are valid.
  abbrev pub IsTimed : Call heap → Type 0
  IsTimed (adds at interval repeat) = leb 1 at ≡ true
  IsTimed (cancels i) = Unit

  add_timer-Sound :
      (at interval : ℕ) (repeat : Bool) {q : TimerQueue}
      → leb 1 at ≡ true
      → Sound heap q
      → Sound heap (add_timer heap at interval repeat q)
  unfolding add_timer
  add_timer-Sound at interval repeat h v =
      insert-Sound heap _ h (record { ordered = v.ordered; positive = v.positive })

  call-Sound :
      (c : Call heap) {q : TimerQueue} → IsTimed c → Sound heap q → Sound heap (call heap c q)
  unfolding call
  call-Sound (adds at interval repeat) h v = add_timer-Sound at interval repeat h v
  call-Sound (cancels i) h v = cancel-Sound i v

  call-Ready :
      (c : Call heap) {q : TimerQueue} → IsTimed c → Ready heap q → Ready heap (call heap c q)
  unfolding call add_timer
  call-Ready (adds at interval repeat) h v = insert-Ready heap _ h (record {
    sound = record { ordered = v.sound.ordered; positive = v.sound.positive };
    ready = v.ready;
  })
  call-Ready (cancels i) h v = cancel-Ready i v

  call_all-Sound :
      (cs : List (Call heap)) {q : TimerQueue}
      → All IsTimed cs
      → Sound heap q
      → Sound heap (call_all heap cs q)
  unfolding call_all
  call_all-Sound [] h v = v
  call_all-Sound (c ∷ cs) h v = call_all-Sound cs h.1 (call-Sound c h.0 v)

  reset_timers-Sound :
      (ts : List Timer) (now : ℕ) {q : TimerQueue}
      → 1 ≤ now
      → Sound heap q
      → Sound heap (reset_timers heap ts now q)
  unfolding reset_timers restart
  reset_timers-Sound [] now h v = v
  reset_timers-Sound (t ∷ ts) now {q} h v = reset_timers-Sound ts now h (
      if_elim (Sound heap) t.repeat
        (λ e.
          insert-Sound heap (restart now t)
            (if_elim (λ (u : Timer). leb 1 u.expiration ≡ true) t.repeat
              (λ _. le→leb 1 (now + t.interval) (omega arith)) (λ n. absurd (let z : ⊥ = cc in z)))
            v)
        (λ _. record { ordered = v.ordered; positive = v.positive }))

  reset-Ready :
      (ts : List Timer) (now : ℕ) {q : TimerQueue}
      → 1 ≤ now
      → Sound heap q
      → Ready heap (reset heap ts now q)
  unfolding reset next_armed
  reset-Ready ts now {q} h v =
      let w : Sound heap (reset_timers heap ts now q) = reset_timers-Sound ts now h v in
      record {
        sound = record { ordered = w.ordered; positive = w.positive };
        ready =
            set_for (reset_timers heap ts now q).timers (reset_timers heap ts now q).armed w.ordered
              w.positive;
      }
    where
      set_for :
          (us : List Timer) (armed : Option ℕ)
          → heap.IsHeap us
          → NotBefore 1 us
          → IsArmed (next_armed heap us armed) us
      set_for [] none o p = refl
      set_for [] (some a) o p = tt
      set_for (u ∷ us) armed o p =
          if_elim (λ x. IsArmed x (u ∷ us)) (ltb 0 u.expiration) (λ _. front-NotBefore heap u us o)
            (λ e. absurd (let l : 1 ≤ u.expiration = leb→le 1 u.expiration p.0 in ground arith))

  get_expired-Sound :
      (now : ℕ) {q : TimerQueue} → Sound heap q → Sound heap (get_expired heap now q).1
  unfolding get_expired
  get_expired-Sound now {q} v =
      let r : IsParted heap now q.timers
          (expired_loop heap (length q.timers) now q.timers q.active) =
        expired_loop_lem heap (length q.timers) now q.timers q.active v.ordered (omega arith) in
      record {
        ordered = r.3;
        positive =
            All-map (λ u k. le→leb 1 u.expiration (omega (arith, k)))
              (expired_loop heap (length q.timers) now q.timers q.active).1 r.1;
      }

  module _ (callbacks : ℕ → List (Call heap)) (timed : (i : ℕ) → All IsTimed (callbacks i)) where
    run_timers-Sound :
        (ts : List Timer) {q : TimerQueue}
        → Sound heap q
        → Sound heap (run_timers heap callbacks ts q)
    unfolding run_timers
    run_timers-Sound [] v = v
    run_timers-Sound (t ∷ ts) v = run_timers-Sound ts (
        call_all-Sound (callbacks t.identity) (timed t.identity)
          (record { ordered = v.ordered; positive = v.positive }))

    handle_read-Ready :
        (now : ℕ) {q : TimerQueue}
        → 1 ≤ now
        → Sound heap q
        → Ready heap (handle_read heap callbacks now q)
    unfolding handle_read
    handle_read-Ready now {q} h v =
        let g : Sound heap (get_expired heap now (record q { armed = none })).1 =
          get_expired-Sound now (record { ordered = v.ordered; positive = v.positive }) in
        let r =
          run_timers-Sound (get_expired heap now (record q { armed = none })).0
            {q = record ((get_expired heap now (record q { armed = none })).1) {
              calling_expired_timers = true;
            }}
            (record { ordered = g.ordered; positive = g.positive }) in
        reset-Ready (get_expired heap now (record q { armed = none })).0 now h
          (record { ordered = r.ordered; positive = r.positive })

    abbrev pub IsTimedEvent : Event heap callbacks → Type 0
    IsTimedEvent (calls c) = IsTimed c
    IsTimedEvent (fires now) = 1 ≤ now

    run-Ready :
        (es : List (Event heap callbacks)) {q : TimerQueue}
        → All IsTimedEvent es
        → Ready heap q
        → Ready heap (run heap callbacks es q)
    unfolding run step
    run-Ready [] h v = v
    run-Ready (calls c ∷ es) h v = run-Ready es h.1 (call-Ready c h.0 v)
    run-Ready (fires now ∷ es) h v = run-Ready es h.1 (handle_read-Ready now h.0 v.sound)

    -- In every history with valid times, whatever the callbacks add and cancel: while there is a timer,
    -- the descriptor is set, and for no later than any timer expires.
    pub never_forgets :
        (es : List (Event heap callbacks))
        → All IsTimedEvent es
        → let q = run heap callbacks es new_queue in IsArmed q.armed q.timers
    never_forgets es h =
        (run-Ready es h (record {
          sound = record { ordered = heap.nil-IsHeap; positive = tt };
          ready = refl;
        })).ready
