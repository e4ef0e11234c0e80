-- ===== src/EventLoop/Tests.antt =====
-- A loop with one channel, a functor that queues another, and calls from a second thread.
use cc_learning.Base.{
  ℕ, ◌≡◌, ◌⊎◌, refl, List, [], ◌∷◌, ◌++◌, Bool, true, false, Option, none, some, ◌==◌,
  if◌then◌else◌,
}
use cc_learning.EventLoop.{
  Call, queue_in_loop, run_in_loop, wakeup_channel, channel, EventLoop, new_loop, wakeup,
  handle_wakeup, push_functor, must_wake, queue_own, own_call, handle_event, reports_wakeup,
  is_missed, loop_step, enter_loop, start_call, other_wakeup, Action, enters, goes_on, calls,
  other_queues, other_quits, other_wakes, step, run, Reach, begins,
}
use cc_learning.EventLoop.Order.{batch, Reach-run, functors_in_order}
use cc_learning.EventLoop.Wakeup.{never_sleeps}

abbrev code : ℕ → List Call
code f = if f == 1 then queue_in_loop 2 ∷ [] else []

abbrev handler : ℕ → List Call
handler c = run_in_loop 5 ∷ queue_in_loop 1 ∷ []

abbrev go : Action code handler
go = goes_on []

-- The second thread queues 3 and wakes the loop; channel 7 is active and queues 1, which queues 2.
abbrev acts : List (Action code handler)
acts =
    enters
    ∷ go
    ∷ other_queues 3
    ∷ other_wakes
    ∷ goes_on (channel 7 ∷ wakeup_channel ∷ [])
    ∷ go
    ∷ go
    ∷ go
    ∷ go
    ∷ go
    ∷ go
    ∷ go
    ∷ go
    ∷ go
    ∷ []

abbrev reached : EventLoop
unfolding run step loop_step own_call queue_own handle_event handle_wakeup reports_wakeup is_missed
    wakeup push_functor must_wake enter_loop start_call other_wakeup
reached = elim (run code handler acts new_loop) [ none ↦ new_loop | some s ↦ s ]

reached-Reach : Reach code handler reached
unfolding reached run step loop_step own_call queue_own handle_event handle_wakeup reports_wakeup
    is_missed wakeup push_functor must_wake enter_loop start_call other_wakeup
reached-Reach = Reach-run code handler acts new_loop begins refl

functors_in_order_example :
    reached.ran ++ (batch reached.phase ++ reached.pending_functors) ≡ reached.queued
functors_in_order_example = functors_in_order code handler reached-Reach

-- The loop comes round to its next `poll`, twice.
abbrev more : List (Action code handler)
more = go ∷ go ∷ goes_on (wakeup_channel ∷ []) ∷ go ∷ go ∷ go ∷ go ∷ go ∷ go ∷ []

abbrev resting : EventLoop
unfolding run step loop_step own_call queue_own handle_event handle_wakeup reports_wakeup is_missed
    wakeup push_functor must_wake enter_loop start_call other_wakeup
resting = elim (run code handler (acts ++ more) new_loop) [ none ↦ new_loop | some s ↦ s ]

resting-Reach : Reach code handler resting
unfolding resting run step loop_step own_call queue_own handle_event handle_wakeup reports_wakeup
    is_missed wakeup push_functor must_wake enter_loop start_call other_wakeup
resting-Reach = Reach-run code handler (acts ++ more) new_loop begins refl

never_sleeps_example :
    ((resting.pending_functors ≡ []) ⊎ (resting.early ≡ true)) × (resting.quit ≡ false)
unfolding resting run step loop_step own_call queue_own handle_event handle_wakeup reports_wakeup
    is_missed wakeup push_functor must_wake enter_loop start_call other_wakeup
never_sleeps_example = never_sleeps code handler resting-Reach refl refl refl

abbrev quit_of : Option EventLoop → Bool
quit_of o = elim o [ none ↦ true | some s ↦ s.quit ]

-- A `quit` before `loop` is forgotten.
early_quit : quit_of (run code handler (other_quits ∷ other_wakes ∷ enters ∷ []) new_loop) ≡ false
unfolding run step loop_step own_call queue_own handle_event handle_wakeup reports_wakeup is_missed
    wakeup push_functor must_wake enter_loop start_call other_wakeup
early_quit = refl

abbrev waits_of : Option EventLoop → List ℕ
waits_of o = elim o [ none ↦ [] | some s ↦ if s.wakeup_fd == 0 then s.pending_functors else [] ]

-- A functor queued on the loop's thread before `loop` waits, and nothing wakes the loop up.
early_functor :
    waits_of (run code handler (calls (queue_in_loop 4) ∷ go ∷ enters ∷ go ∷ []) new_loop) ≡ 4 ∷ []
unfolding run step loop_step own_call queue_own handle_event handle_wakeup reports_wakeup is_missed
    wakeup push_functor must_wake enter_loop start_call other_wakeup
early_functor = refl
