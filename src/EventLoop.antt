-- ===== src/EventLoop.antt =====
-- The event loop: reactor_net/src/EventLoop.cpp with reactor_net/include/EventLoop.h. A step is what
-- the loop's thread or another thread does up to the next point where another may come between. A
-- functor and a channel are numbers; what they call of the loop is the client's. `wakeup_fd` is the
-- counter of the eventfd, of which `poll` reports the channel when it is not zero.
pub mod Order
pub mod Wakeup
mod Tests
use cc_learning.Base.{
  ℕ, zero, suc, ◌+◌, ◌-◌, ◌^◌, Bool, true, false, not, ◌||◌, List, [], ◌∷◌, ◌++◌, Option, none,
  some, ltb, ◌&&◌, ◌≡◌, if◌then◌else◌,
}

-- What a functor or a handler calls.
pub data Call : Type 0 where
  queue_in_loop : ℕ → Call
  run_in_loop : ℕ → Call
  quit_loop : Call

pub data Active : Type 0 where
  wakeup_channel : Active
  channel : ℕ → Active

-- Where the loop's thread is, with the calls that are left of what it runs there.
pub data Phase : Type 0 where
  outside : List Call → Phase
  at_test : Phase
  in_poll : Phase
  handling : List Active → List Call → Phase
  before_swap : Phase
  running : List ℕ → List Call → Phase

-- `waking` is the number of other threads that have queued a functor or set `quit_` and not written
-- to the eventfd yet. `queued` and `ran` are the functors that went through `pendingFunctors_`, in
-- order, and `direct` those that `runInLoop` called at once, latest first. `early` says that the
-- loop's thread made a call outside `loop` and no swap has followed.
pub record EventLoop : Type 0 where
  pub looping : Bool
  pub quit : Bool
  pub event_handling : Bool
  pub calling_pending_functors : Bool
  pub iteration : ℕ
  pub pending_functors : List ℕ
  pub wakeup_fd : ℕ
  pub phase : Phase
  pub waking : ℕ
  pub queued : List ℕ
  pub ran : List ℕ
  pub direct : List ℕ
  pub early : Bool

-- The constructor.
abbrev pub new_loop : EventLoop
new_loop = record {
  looping = false;
  quit = false;
  event_handling = false;
  calling_pending_functors = false;
  iteration = 0;
  pending_functors = [];
  wakeup_fd = 0;
  phase = outside [];
  waking = 0;
  queued = [];
  ran = [];
  direct = [];
  early = false;
}

-- `wakeup`: the write adds one, and fails where the counter is full.
unfoldable pub wakeup : EventLoop → EventLoop
wakeup s = if ltb s.wakeup_fd (2 ^ 64 - 2) then record s { wakeup_fd = suc s.wakeup_fd } else s

-- `handleWakeup`: the read takes all.
unfoldable pub handle_wakeup : EventLoop → EventLoop
handle_wakeup s = record s { wakeup_fd = 0 }

unfoldable pub push_functor : ℕ → EventLoop → EventLoop
push_functor f s = record s {
  pending_functors = s.pending_functors ++ (f ∷ []);
  queued = s.queued ++ (f ∷ []);
}

-- The test of `queueInLoop`.
unfoldable pub must_wake : Bool → EventLoop → Bool
must_wake in_loop_thread s = not in_loop_thread || s.calling_pending_functors

-- `queueInLoop` on the loop's thread. No other thread reads what it writes before it is done.
unfoldable pub queue_own : ℕ → EventLoop → EventLoop
unfolding push_functor must_wake wakeup
queue_own f s = let s' = push_functor f s in if must_wake true s' then wakeup s' else s'

module _ (code : ℕ → List Call) (handler : ℕ → List Call) where
  -- A call on the loop's thread, and what is to be done before the rest.
  unfoldable pub own_call : Call → EventLoop → EventLoop × List Call
  unfolding queue_own
  own_call (queue_in_loop f) s = (queue_own f s, [])
  own_call (run_in_loop f) s = (record s { direct = f ∷ s.direct }, code f)
  own_call quit_loop s = (record s { quit = true }, [])

  -- The handler of an active channel.
  unfoldable pub handle_event : Active → EventLoop → EventLoop × List Call
  unfolding handle_wakeup
  handle_event wakeup_channel s = (handle_wakeup s, [])
  handle_event (channel c) s = (s, handler c)

  unfoldable pub reports_wakeup : List Active → Bool
  reports_wakeup [] = false
  reports_wakeup (wakeup_channel ∷ cs) = true
  reports_wakeup (channel c ∷ cs) = reports_wakeup cs

  -- Whether a readable eventfd would be missing; a `poll` that is interrupted gives nothing.
  unfoldable pub is_missed : List Active → Bool
  unfolding reports_wakeup
  is_missed [] = false
  is_missed (a ∷ rest) = not (reports_wakeup (a ∷ rest))

  -- The next step of the loop's thread inside `loop`; `polled` is what `poll` gives if it stands
  -- there. `none`: it does not go on, since `poll` does not give that or `loop` is not running.
  unfoldable pub loop_step : List Active → Phase → EventLoop → Option EventLoop
  unfolding own_call handle_event is_missed
  loop_step polled (outside []) s = none
  loop_step polled (outside (c ∷ todo)) s =
      let (s', more) = own_call c s in
      some (record s' { early = true; phase = outside (more ++ todo) })
  loop_step polled at_test s = some (
      if s.quit
      then record s { looping = false; phase = outside [] }
      else record s { phase = in_poll })
  loop_step polled in_poll s =
      if ltb 0 s.wakeup_fd && is_missed polled
      then none
      else some (record s {
        iteration = suc s.iteration;
        event_handling = true;
        phase = handling polled [];
      })
  loop_step polled (handling active (c ∷ todo)) s =
      let (s', more) = own_call c s in some (record s' { phase = handling active (more ++ todo) })
  loop_step polled (handling (a ∷ active) []) s =
      let (s', todo) = handle_event a s in some (record s' { phase = handling active todo })
  loop_step polled (handling [] []) s =
      some
        (record s { event_handling = false; calling_pending_functors = true; phase = before_swap })
  loop_step polled before_swap s =
      some
        (record s { pending_functors = []; early = false; phase = running s.pending_functors [] })
  loop_step polled (running fs (c ∷ todo)) s =
      let (s', more) = own_call c s in some (record s' { phase = running fs (more ++ todo) })
  loop_step polled (running (f ∷ fs) []) s =
      some (record s { ran = s.ran ++ (f ∷ []); phase = running fs (code f) })
  loop_step polled (running [] []) s =
      some (record s { calling_pending_functors = false; phase = at_test })

  pub data Action : Type 0 where
    -- On the loop's thread: `loop`, its next step, and a call outside it.
    enters : Action
    goes_on : List Active → Action
    calls : Call → Action
    -- On other threads: `queueInLoop` or `runInLoop`, `quit`, and the `wakeup` after either.
    other_queues : ℕ → Action
    other_quits : Action
    other_wakes : Action

  -- `loop` up to its first test; the assertion fails if it is running.
  unfoldable pub enter_loop : Phase → EventLoop → Option EventLoop
  enter_loop (outside []) s =
      if s.looping then none else some (record s { looping = true; quit = false; phase = at_test })
  enter_loop p s = none

  unfoldable pub start_call : Call → Phase → EventLoop → Option EventLoop
  start_call c (outside []) s = some (record s { phase = outside (c ∷ []) })
  start_call c p s = none

  -- The write that ends `queueInLoop` and `quit` on another thread.
  unfoldable pub other_wakeup : ℕ → EventLoop → Option EventLoop
  unfolding wakeup
  other_wakeup zero s = none
  other_wakeup (suc n) s = some (wakeup (record s { waking = n }))

  -- `none`: the action cannot be taken.
  unfoldable pub step : Action → EventLoop → Option EventLoop
  unfolding loop_step enter_loop start_call other_wakeup push_functor must_wake
  step enters s = enter_loop s.phase s
  step (goes_on polled) s = loop_step polled s.phase s
  step (calls c) s = start_call c s.phase s
  step (other_queues f) s =
      let s' = push_functor f s in
      some (if must_wake false s' then record s' { waking = suc s'.waking } else s')
  step other_quits s = some (record s { quit = true; waking = suc s.waking })
  step other_wakes s = other_wakeup s.waking s

  unfoldable pub run : List Action → EventLoop → Option EventLoop
  unfolding step
  run [] s = some s
  run (a ∷ rest) s = elim (step a s) [ none ↦ none | some s' ↦ run rest s' ]

  -- Some run of all threads.
  pub data Reach : EventLoop → Type 0 where
    begins : Reach new_loop
    moves : {s s' : EventLoop} (a : Action) → Reach s → step a s ≡ some s' → Reach s'
