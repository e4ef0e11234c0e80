-- ===== src/EventLoopThread.antt =====
-- reactor_net/src/EventLoopThread.cpp over the machine of EventLoop: a thread that runs a loop, and the
-- owner of the object, who starts it and destroys it. A step is what one of them does up to the next
-- point where the other may come between. The loop stands on the stack of the thread.
mod Steps
mod Quit
pub mod Join
mod Quiet
pub mod Live
mod Tests
use cc_learning.Base.{
  ℕ, Bool, true, false, ◌&&◌, List, [], ◌∷◌, Option, none, some, ltb, if◌then◌else◌, ◌≡◌,
}
use cc_learning.EventLoop
use cc_learning.EventLoop.{
  Call, Active, EventLoop, new_loop, enters, goes_on, other_queues, other_quits, other_wakes,
}

-- Where the thread is in `threadFunc`.
pub data ThreadPhase : Type 0 where
  unstarted creating published in_loop returning cleared finished : ThreadPhase

-- Where the owner is: in `startLoop` (waiting), or in the destructor (from quitting on).
pub data OwnerPhase : Type 0 where
  idle waiting has_loop quitting waking joining joined : OwnerPhase

-- `late` says that the destructor's `quit` came when `loop` had been entered, `dangling` that the
-- owner used the loop when it was destroyed.
pub record EventLoopThread : Type 0 where
  pub loop_set : Bool
  pub exiting : Bool
  pub thread : ThreadPhase
  pub owner : OwnerPhase
  pub loop : EventLoop
  pub late : Bool
  pub dangling : Bool

-- The constructor. The loop is there when the thread is past `creating`.
abbrev pub new_thread : EventLoopThread
new_thread = record {
  loop_set = false;
  exiting = false;
  thread = unstarted;
  owner = idle;
  loop = new_loop;
  late = false;
  dangling = false;
}

abbrev pub is_in_loop : ThreadPhase → Bool
is_in_loop in_loop = true
is_in_loop unstarted = false
is_in_loop creating = false
is_in_loop published = false
is_in_loop returning = false
is_in_loop cleared = false
is_in_loop finished = false

-- Whether the loop's object exists.
abbrev pub is_alive : ThreadPhase → Bool
is_alive published = true
is_alive in_loop = true
is_alive returning = true
is_alive cleared = true
is_alive unstarted = false
is_alive creating = false
is_alive finished = false

abbrev pub is_started : ThreadPhase → Bool
is_started unstarted = false
is_started creating = true
is_started published = true
is_started in_loop = true
is_started returning = true
is_started cleared = true
is_started finished = true

abbrev pub is_waking : OwnerPhase → ℕ
is_waking waking = 1
is_waking idle = 0
is_waking waiting = 0
is_waking has_loop = 0
is_waking quitting = 0
is_waking joining = 0
is_waking joined = 0

-- What becomes of the object when its loop has made a step.
abbrev pub with_loop : (EventLoop → EventLoopThread) → Option EventLoop → Option EventLoopThread
with_loop f none = none
with_loop f (some l) = some (f l)

module _ (code handler : ℕ → List Call) where
  -- `threadFunc`. `none`: the thread does not go on.
  unfoldable pub thread_step : List Active → ThreadPhase → EventLoopThread → Option EventLoopThread
  thread_step polled unstarted s = none
  thread_step polled creating s =
      some (record s { loop = new_loop; loop_set = true; thread = published })
  thread_step polled published s =
      with_loop (λ l. record s { loop = l; thread = in_loop })
        (EventLoop.step code handler enters s.loop)
  thread_step polled in_loop s =
      if s.loop.looping
      then with_loop (λ l. record s { loop = l })
          (EventLoop.step code handler (goes_on polled) s.loop)
      else some (record s { thread = returning })
  thread_step polled returning s = some (record s { loop_set = false; thread = cleared })
  thread_step polled cleared s = some (record s { thread = finished })
  thread_step polled finished s = none

  -- `startLoop` up to its wait, and the end of the wait.
  unfoldable pub start_loop : OwnerPhase → EventLoopThread → Option EventLoopThread
  start_loop idle s = some (record s { thread = creating; owner = waiting })
  start_loop waiting s = if s.loop_set then some (record s { owner = has_loop }) else none
  start_loop o s = none

  -- The destructor's test of `loop_`; without a thread there is nothing to join.
  unfoldable pub test_loop : EventLoopThread → EventLoopThread
  test_loop s =
      if s.loop_set
      then record s { exiting = true; owner = quitting }
      else (if is_started s.thread
          then record s { exiting = true; owner = joining }
          else record s { exiting = true; owner = joined })

  -- The two writes of `EventLoop::quit`, for which the loop must be there.
  unfoldable pub set_quit : EventLoopThread → Option EventLoopThread
  set_quit s =
      if is_alive s.thread
      then with_loop (λ l. record s { loop = l; owner = waking; late = is_in_loop s.thread })
          (EventLoop.step code handler other_quits s.loop)
      else some (record s { owner = waking; dangling = true })

  unfoldable pub wake_loop : EventLoopThread → Option EventLoopThread
  wake_loop s =
      if is_alive s.thread
      then with_loop (λ l. record s { loop = l; owner = joining })
          (EventLoop.step code handler other_wakes s.loop)
      else some (record s { owner = joining; dangling = true })

  unfoldable pub join : ThreadPhase → EventLoopThread → Option EventLoopThread
  join finished s = some (record s { owner = joined })
  join t s = none

  -- The destructor.
  unfoldable pub destroy : OwnerPhase → EventLoopThread → Option EventLoopThread
  unfolding test_loop set_quit wake_loop join
  destroy idle s = some (test_loop s)
  destroy has_loop s = some (test_loop s)
  destroy quitting s = set_quit s
  destroy waking s = wake_loop s
  destroy joining s = join s.thread s
  destroy waiting s = none
  destroy joined s = none

  -- The thread's next step, where `polled` is what `poll` gives; the owner's in `startLoop` and in the
  -- destructor; and another thread that queues a functor, and its `wakeup`.
  pub data Move : Type 0 where
    goes : List Active → Move
    starts destroys : Move
    queues : ℕ → Move
    signals : Move

  unfoldable pub move : Move → EventLoopThread → Option EventLoopThread
  unfolding thread_step start_loop destroy
  move (goes polled) s = thread_step polled s.thread s
  move starts s = start_loop s.owner s
  move destroys s = destroy s.owner s
  move (queues f) s =
      if is_alive s.thread
      then with_loop (λ l. record s { loop = l })
          (EventLoop.step code handler (other_queues f) s.loop)
      else none
  move signals s =
      if ltb (is_waking s.owner) s.loop.waking && is_alive s.thread
      then with_loop (λ l. record s { loop = l }) (EventLoop.step code handler other_wakes s.loop)
      else none

  unfoldable pub run : List Move → EventLoopThread → Option EventLoopThread
  unfolding move
  run [] s = some s
  run (m ∷ ms) s = elim (move m s) [ none ↦ none | some s' ↦ run ms s' ]

  -- Some run of the thread, the owner and others.
  pub data Reach : EventLoopThread → Type 0 where
    begins : Reach new_thread
    moves : {s s' : EventLoopThread} (m : Move) → Reach s → move m s ≡ some s' → Reach s'
