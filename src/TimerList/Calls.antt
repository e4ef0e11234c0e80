-- ===== src/TimerList/Calls.antt =====
-- A client of timer/timer.cc: it makes timers, keeps pointers to them in `client_data`, and calls the
-- list. Beside it, what it gets from a list without links.
pub mod Refine
pub mod Tick
pub mod History
pub mod Owners
mod Tests
use cc_learning.Base.{
  ℕ, zero, suc, Bool, true, false, ◌&&◌, List, [], ◌∷◌, ◌++◌, Option, none, some, ltb, leb, length,
  if◌then◌else◌,
}
use cc_learning.TimerList.{
  TimerListMgr, ◌>>=◌, update, store, forget, set_expire, add_timer, del_timer, adjust_timer, tick,
}
use cc_learning.TimerList.Links.{Entry, node_of}
use cc_learning.TimerList.Insert.{insert}
use cc_learning.TimerList.Spec.{split, readjust, lacks, expired, unexpired}

-- `deletes_of` and `adjusts_of` go by the pointer of a client's data.
pub data Call : Type 0 where
  adds : Entry → Call
  deletes : ℕ → Call
  deletes_of : ℕ → Call
  adjusts_of : ℕ → ℕ → Call

-- `user_data->timer = timer`
unfoldable pub own : Option ℕ → ℕ → (ℕ → Option ℕ) → ℕ → Option ℕ
unfolding update
own none a timer_of = timer_of
own (some u) a timer_of = update timer_of u (some a)

-- `new TimerNode`, filled in.
unfoldable pub allocate : Entry → TimerListMgr → TimerListMgr
unfolding own
allocate e s = record (store e.at (some (node_of none e none)) s) {
  timer_of = own e.user e.at s.timer_of;
}

unfoldable pub adjust_at : ℕ → Option ℕ → ℕ → TimerListMgr → Option TimerListMgr
unfolding set_expire adjust_timer
adjust_at fuel none x s = adjust_timer fuel none s
adjust_at fuel (some a) x s = do s' ← set_expire a x s; adjust_timer fuel (some a) s'

unfoldable pub call : ℕ → Call → TimerListMgr → Option TimerListMgr
unfolding allocate add_timer del_timer adjust_at
call fuel (adds e) s = add_timer fuel (some e.at) (allocate e s)
call fuel (deletes a) s = del_timer (some a) s
call fuel (deletes_of u) s = del_timer (s.timer_of u) s
call fuel (adjusts_of u x) s = adjust_at fuel (s.timer_of u) x s

unfoldable pub call_all : ℕ → List Call → TimerListMgr → Option TimerListMgr
unfolding call
call_all fuel [] s = some s
call_all fuel (c ∷ cs) s = do s' ← call fuel c s; call_all fuel cs s'

pub data Event : Type 0 where
  calls : Call → Event
  ticks : ℕ → Event

-- The list that clients see, and their pointers into it.
pub record Timers : Type 0 where
  pub list : List Entry
  pub owner : ℕ → Option ℕ

abbrev pub no_timers : Timers
no_timers = record { list = []; owner = λ u. none }

-- `none` is a call that a client may not make: `capacity` timers are there already, or the timer is
-- not in the list. `new` gives an address that neither the list nor a timer in `ds` has.
unfoldable pub spec_add : ℕ → List Entry → Entry → Timers → Option Timers
unfolding lacks insert own
spec_add capacity ds e st =
    if ltb (length st.list) capacity && (lacks e.at st.list && lacks e.at ds)
    then some (record { list = insert e st.list; owner = own e.user e.at st.owner })
    else none

unfoldable pub spec_delete : Option ℕ → Timers → Option Timers
unfolding split forget
spec_delete none st = some st
spec_delete (some a) st = do
  (front, t, back) ← split a st.list
  some (record { list = front ++ back; owner = forget t.user st.owner })

unfoldable pub spec_adjust : Option ℕ → ℕ → Timers → Option Timers
unfolding split readjust
spec_adjust none x st = some st
spec_adjust (some a) x st = do
  (front, t, back) ← split a st.list
  some (record st { list = readjust front (record t { expire = x }) back })

unfoldable pub spec_call : ℕ → List Entry → Call → Timers → Option Timers
unfolding spec_add spec_delete spec_adjust
spec_call capacity ds (adds e) st = spec_add capacity ds e st
spec_call capacity ds (deletes a) st = spec_delete (some a) st
spec_call capacity ds (deletes_of u) st = spec_delete (st.owner u) st
spec_call capacity ds (adjusts_of u x) st = spec_adjust (st.owner u) x st

unfoldable pub spec_call_all : ℕ → List Entry → List Call → Timers → Option Timers
unfolding spec_call
spec_call_all capacity ds [] st = some st
spec_call_all capacity ds (c ∷ cs) st = do
  st' ← spec_call capacity ds c st
  spec_call_all capacity ds cs st'

unfoldable pub forget_all : List Entry → (ℕ → Option ℕ) → ℕ → Option ℕ
unfolding forget
forget_all [] owner = owner
forget_all (c ∷ cs) owner = forget_all cs (forget c.user owner)

-- `calls_of u` is what a callback calls for the client `u`.
module _ (calls_of : ℕ → List Call) where
  unfoldable pub step : ℕ → Event → TimerListMgr → Option TimerListMgr
  unfolding call call_all tick
  step fuel (calls c) s = call fuel c s
  step fuel (ticks cur) s = tick (λ u. call_all fuel (calls_of u)) (suc fuel) cur s

  unfoldable pub run : ℕ → List Event → TimerListMgr → Option TimerListMgr
  unfolding step
  run fuel [] s = some s
  run fuel (e ∷ es) s = do s' ← step fuel e s; run fuel es s'

  unfoldable pub calls_for : Entry → List Call
  calls_for t = elim t.user [ none ↦ [] | some u ↦ if t.cb then calls_of u else [] ]

  -- The callbacks of the expired timers, each while it and those behind it are not deleted yet.
  unfoldable pub spec_run_expired : ℕ → List Entry → Timers → Option Timers
  unfolding calls_for spec_call_all
  spec_run_expired capacity [] st = some st
  spec_run_expired capacity (t ∷ ts) st = do
    st' ← spec_call_all capacity (t ∷ ts) (calls_for t) st
    spec_run_expired capacity ts st'

  unfoldable pub spec_step : ℕ → Event → Timers → Option Timers
  unfolding spec_call spec_run_expired expired unexpired forget_all
  spec_step capacity (calls c) st = spec_call capacity [] c st
  spec_step capacity (ticks cur) st =
      let out = expired cur st.list in
      spec_run_expired capacity out
        (record { list = unexpired cur st.list; owner = forget_all out st.owner })

  unfoldable pub spec_run : ℕ → List Event → Timers → Option Timers
  unfolding spec_step
  spec_run capacity [] st = some st
  spec_run capacity (e ∷ es) st = do st' ← spec_step capacity e st; spec_run capacity es st'
