-- ===== src/TimerQueue.antt =====
-- The timers of an event loop: reactor_net/src/TimerQueue.cpp with reactor_net/include/Timer.h and
-- reactor_net/src/Timer.cpp. A pointer is the number `identity` of a timer; `timers_` is a binary
-- heap of the interface, by expiration. Times are microseconds. `armed` is the time for which the timer
-- descriptor is set, until it fires. The callbacks are the client's: a list of calls for each timer.
pub mod Expire
pub mod Armed
pub mod History
pub mod Owned
mod Tests
use cc_learning.Base.{
  ℕ, zero, suc, ◌+◌, ◌-◌, Bool, true, false, not, ◌&&◌, ◌||◌, List, [], ◌∷◌, ◌++◌, Option, none,
  some, ltb, leb, ◌==◌, length, map, if◌then◌else◌,
}
use cc_learning.Base.Heap.{Heap}

-- `interval` is the interval in microseconds; `repeat` says whether it was positive in seconds.
pub record Timer : Type 0 where
  pub identity : ℕ
  pub expiration : ℕ
  pub interval : ℕ
  pub repeat : Bool

-- `Timer::TimerCmp`
abbrev pub later : Timer → Timer → Bool
later a b = ltb b.expiration a.expiration

-- `Timer::restart`
unfoldable pub restart : ℕ → Timer → Timer
restart now t =
    if t.repeat then record t { expiration = now + t.interval } else record t { expiration = 0 }

pub record TimerQueue : Type 0 where
  pub timers : List Timer
  -- `activeTimers_`
  pub active : List ℕ
  pub calling_expired_timers : Bool
  pub armed : Option ℕ
  -- The next address that `new` gives.
  pub next_identity : ℕ
  -- Timers whose callback was called, and timers deleted, latest first.
  pub fired : List ℕ
  pub deleted : List ℕ

abbrev pub new_queue : TimerQueue
new_queue = record {
  timers = [];
  active = [];
  calling_expired_timers = false;
  armed = none;
  next_identity = 0;
  fired = [];
  deleted = [];
}

-- `std::set`: membership, insertion and removal.
unfoldable pub contains : ℕ → List ℕ → Bool
contains i [] = false
contains i (j ∷ js) = i == j || contains i js

unfoldable pub insert_active : ℕ → List ℕ → List ℕ
unfolding contains
insert_active i js = if contains i js then js else i ∷ js

unfoldable pub erase_active : ℕ → List ℕ → List ℕ
erase_active i [] = []
erase_active i (j ∷ js) = let rest = erase_active i js in if i == j then rest else j ∷ rest

-- `std::find` and `erase` of the first timer found; `none` is `end()`.
unfoldable pub erase_timer : ℕ → List Timer → Option (List Timer)
erase_timer i [] = none
erase_timer i (t ∷ ts) =
    let rest = erase_timer i ts in
    if t.identity == i then some ts else elim rest [ none ↦ none | some us ↦ some (t ∷ us) ]

-- The destructor; closing the descriptor disarms it.
unfoldable pub destroy_queue : TimerQueue → TimerQueue
destroy_queue q = record q {
  timers = [];
  active = [];
  armed = none;
  deleted = map (λ t. t.identity) q.timers ++ q.deleted;
}

module _ (heap : Heap later) where
  open heap use {push, pop_rest, make}

  unfoldable pub earliest_changed : Timer → List Timer → Bool
  earliest_changed t [] = true
  earliest_changed t (u ∷ us) = ltb t.expiration u.expiration

  -- `TimerQueue::insert`, with `resetTimerfd`.
  unfoldable pub insert : Timer → TimerQueue → TimerQueue
  unfolding earliest_changed insert_active
  insert t q = record q {
    timers = push q.timers t;
    active = insert_active t.identity q.active;
    armed = if earliest_changed t q.timers then some t.expiration else q.armed;
  }

  unfoldable pub add_timer : ℕ → ℕ → Bool → TimerQueue → TimerQueue
  unfolding insert
  add_timer at interval repeat q =
      insert
        (record {
          identity = q.next_identity;
          expiration = at;
          interval = interval;
          repeat = repeat;
        })
        (record q { next_identity = suc q.next_identity })

  unfoldable pub cancel : ℕ → TimerQueue → TimerQueue
  unfolding contains erase_active erase_timer
  cancel i q =
      if contains i q.active
      then record q {
        active = erase_active i q.active;
        timers = elim (erase_timer i q.timers) [ none ↦ q.timers | some ts ↦ make ts ];
        deleted = i ∷ q.deleted;
      }
      else q

  -- The loop of `getExpired`, with fuel for its rounds: the expired timers, the heap and the active
  -- timers that are left.
  unfoldable pub expired_loop : ℕ → ℕ → List Timer → List ℕ → List Timer × List Timer × List ℕ
  unfolding erase_active
  expired_loop zero now ts active = ([], ts, active)
  expired_loop (suc n) now [] active = ([], [], active)
  expired_loop (suc n) now (t ∷ ts) active =
      let (expired, rest, still) =
        expired_loop n now (pop_rest t ts) (erase_active t.identity active) in
      if leb t.expiration now then (t ∷ expired, rest, still) else ([], t ∷ ts, active)

  unfoldable pub get_expired : ℕ → TimerQueue → List Timer × TimerQueue
  unfolding expired_loop
  get_expired now q =
      let (expired, rest, still) = expired_loop (length q.timers) now q.timers q.active in
      (expired, record q { timers = rest; active = still })

  unfoldable pub reset_timers : List Timer → ℕ → TimerQueue → TimerQueue
  unfolding insert restart
  reset_timers [] now q = q
  reset_timers (t ∷ ts) now q =
      reset_timers ts now (
        if t.repeat
        then insert (restart now t) q
        else record q { deleted = t.identity ∷ q.deleted })

  -- The next expiration, if it is valid.
  unfoldable pub next_armed : List Timer → Option ℕ → Option ℕ
  next_armed [] armed = armed
  next_armed (t ∷ ts) armed = if ltb 0 t.expiration then some t.expiration else armed

  unfoldable pub reset : List Timer → ℕ → TimerQueue → TimerQueue
  unfolding reset_timers next_armed
  reset expired now q =
      let q' = reset_timers expired now q in record q' { armed = next_armed q'.timers q'.armed }

  -- What a client calls, also from a callback.
  pub data Call : Type 0 where
    adds : ℕ → ℕ → Bool → Call
    cancels : ℕ → Call

  unfoldable pub call : Call → TimerQueue → TimerQueue
  unfolding add_timer cancel
  call (adds at interval repeat) q = add_timer at interval repeat q
  call (cancels i) q = cancel i q

  unfoldable pub call_all : List Call → TimerQueue → TimerQueue
  unfolding call
  call_all [] q = q
  call_all (c ∷ cs) q = call_all cs (call c q)

  module _ (callbacks : ℕ → List Call) where
    unfoldable pub run_timers : List Timer → TimerQueue → TimerQueue
    unfolding call_all
    run_timers [] q = q
    run_timers (t ∷ ts) q =
        run_timers ts (call_all (callbacks t.identity) (record q { fired = t.identity ∷ q.fired }))

    -- The descriptor has fired: it is set no longer.
    unfoldable pub handle_read : ℕ → TimerQueue → TimerQueue
    unfolding get_expired run_timers reset
    handle_read now q =
        let (expired, q') = get_expired now (record q { armed = none }) in
        let called = run_timers expired (record q' { calling_expired_timers = true }) in
        reset expired now (record called { calling_expired_timers = false })

    pub data Event : Type 0 where
      calls : Call → Event
      fires : ℕ → Event

    unfoldable pub step : TimerQueue → Event → TimerQueue
    unfolding call handle_read
    step q (calls c) = call c q
    step q (fires now) = handle_read now q

    unfoldable pub run : List Event → TimerQueue → TimerQueue
    unfolding step
    run [] q = q
    run (e ∷ es) q = run es (step q e)
