-- ===== src/EventLoopThread/Join.antt =====
-- The destructor of reactor_net/src/EventLoopThread.cpp: its `quit` reaches a loop that was entered.
use cc_learning.Base.{
  ℕ, suc, ◌≡◌, ◌⊎◌, inl, inr, refl, subst, Bool, true, false, ◌&&◌, List, some, ltb, if_elim,
}
use cc_learning.EventLoop
use cc_learning.EventLoop.{
  Call, queue_in_loop, run_in_loop, quit_loop, Active, wakeup_channel, channel, Phase, outside,
  at_test, in_poll, handling, before_swap, running, EventLoop, new_loop, wakeup, push_functor,
  must_wake, queue_own, own_call, handle_wakeup, handle_event, is_missed, loop_step, other_wakeup,
  Action, enters, goes_on, other_queues, other_quits, other_wakes,
}
use cc_learning.EventLoop.Order.{IsKept}
use cc_learning.EventLoop.Wakeup.{never_sleeps}
use cc_learning.EventLoopThread.{
  ThreadPhase, unstarted, creating, published, in_loop, returning, cleared, finished, OwnerPhase,
  idle, waiting, has_loop, quitting, waking, joining, joined, EventLoopThread, is_in_loop, is_alive,
  is_started, is_waking, with_loop, thread_step, start_loop, test_loop, set_quit, wake_loop, join,
  destroy, Move, goes, starts, destroys, queues, signals, move, Reach,
}
use cc_learning.EventLoopThread.Steps.{WhenAny, with_loop-WhenAny, Reach-WhenAny}
use cc_learning.EventLoopThread.Quit.{HasQuit, queues-HasQuit, wakes-HasQuit, goes_on-HasQuit}

module _ (code handler : ℕ → List Call) where
  -- What holds of a `quit` that came late, where the thread is.
  abbrev LateAt : ThreadPhase → Bool → EventLoop → Type 0
  LateAt unstarted late l = late ≡ false
  LateAt creating late l = late ≡ false
  LateAt published late l = late ≡ false
  LateAt in_loop late l = (late ≡ false) ⊎ HasQuit l
  LateAt returning late l = Unit
  LateAt cleared late l = Unit
  LateAt finished late l = Unit

  -- Until the destructor's `quit` nothing is late.
  abbrev LateFor : OwnerPhase → Bool → Type 0
  LateFor idle late = late ≡ false
  LateFor waiting late = late ≡ false
  LateFor has_loop late = late ≡ false
  LateFor quitting late = late ≡ false
  LateFor waking late = Unit
  LateFor joining late = Unit
  LateFor joined late = Unit

  record Inv (s : EventLoopThread) : Type 0 where
    pub reached : EventLoop.Reach code handler s.loop
    pub kept : LateAt s.thread s.late s.loop
    pub quits : LateFor s.owner s.late

  -- A step of the loop that takes no `quit` back.
  loop-Inv :
      (a : Action code handler) (s : EventLoopThread)
      → ((l : EventLoop) → HasQuit l → IsKept HasQuit (EventLoop.step code handler a l))
      → Inv s
      → (o : OwnerPhase) → LateFor o s.late
      → WhenAny Inv
          (with_loop (λ l. record s { loop = l; owner = o }) (EventLoop.step code handler a s.loop))
  loop-Inv a s h v o f =
      with_loop-WhenAny Inv (λ l. record s { loop = l; owner = o })
        (EventLoop.step code handler a s.loop)
        (λ l e. record {
          reached = EventLoop.moves a v.reached e;
          kept = keeps s.thread l e v.kept;
          quits = f;
        })
    where
      keeps :
          (t : ThreadPhase) (l : EventLoop)
          → EventLoop.step code handler a s.loop ≡ some l
          → LateAt t s.late s.loop
          → LateAt t s.late l
      keeps unstarted l e k = k
      keeps creating l e k = k
      keeps published l e k = k
      keeps in_loop l e (inl k) = inl k
      keeps in_loop l e (inr k) = inr (subst (IsKept HasQuit) e (h s.loop k))
      keeps returning l e k = k
      keeps cleared l e k = k
      keeps finished l e k = k

  thread_step-Inv :
      (polled : List Active) (t : ThreadPhase) (s : EventLoopThread)
      → Inv s
      → LateAt t s.late s.loop
      → WhenAny Inv (thread_step code handler polled t s)
  unfolding thread_step
  thread_step-Inv polled unstarted s v k = tt
  thread_step-Inv polled creating s v k = record {
    reached = EventLoop.begins;
    kept = k;
    quits = v.quits;
  }
  thread_step-Inv polled published s v k =
      with_loop-WhenAny Inv (λ l. record s { loop = l; thread = in_loop })
        (EventLoop.step code handler enters s.loop)
        (λ l q. record {
          reached = EventLoop.moves enters v.reached q;
          kept = inl k;
          quits = v.quits;
        })
  thread_step-Inv polled in_loop s v k =
      if_elim (WhenAny Inv) s.loop.looping
        (λ _. loop-Inv (goes_on polled) s (goes_on-HasQuit code handler polled) v s.owner v.quits)
        (λ _. record { reached = v.reached; kept = tt; quits = v.quits })
  thread_step-Inv polled returning s v k = record {
    reached = v.reached;
    kept = tt;
    quits = v.quits;
  }
  thread_step-Inv polled cleared s v k = record { reached = v.reached; kept = tt; quits = v.quits }
  thread_step-Inv polled finished s v k = tt

  start_loop-Inv :
      (o : OwnerPhase) (s : EventLoopThread)
      → Inv s
      → LateFor o s.late
      → WhenAny Inv (start_loop code handler o s)
  unfolding start_loop
  start_loop-Inv idle s v f = record { reached = v.reached; kept = f; quits = f }
  start_loop-Inv waiting s v f =
      if_elim (WhenAny Inv) s.loop_set
        (λ _. record { reached = v.reached; kept = v.kept; quits = f }) (λ _. tt)
  start_loop-Inv has_loop s v f = tt
  start_loop-Inv quitting s v f = tt
  start_loop-Inv waking s v f = tt
  start_loop-Inv joining s v f = tt
  start_loop-Inv joined s v f = tt

  test_loop-Inv : (s : EventLoopThread) → Inv s → s.late ≡ false → Inv (test_loop code handler s)
  unfolding test_loop
  test_loop-Inv s v f =
      if_elim Inv s.loop_set (λ _. record { reached = v.reached; kept = v.kept; quits = f })
        (λ _.
          if_elim Inv (is_started s.thread)
            (λ _. record { reached = v.reached; kept = v.kept; quits = tt })
            (λ _. record { reached = v.reached; kept = v.kept; quits = tt }))

  set_quit-Inv : (s : EventLoopThread) → Inv s → WhenAny Inv (set_quit code handler s)
  unfolding set_quit EventLoop.step
  set_quit-Inv s v =
      if_elim (WhenAny Inv) (is_alive s.thread)
        (λ _. record {
          reached = EventLoop.moves other_quits v.reached refl;
          kept = late_now s.thread;
          quits = tt;
        })
        (λ _. record { reached = v.reached; kept = v.kept; quits = tt })
    where
      late_now :
          (t : ThreadPhase)
          → LateAt t (is_in_loop t) (record (s.loop) { quit = true; waking = suc s.loop.waking })
      late_now unstarted = refl
      late_now creating = refl
      late_now published = refl
      late_now in_loop = inr refl
      late_now returning = tt
      late_now cleared = tt
      late_now finished = tt

  join-Inv : (t : ThreadPhase) (s : EventLoopThread) → Inv s → WhenAny Inv (join code handler t s)
  unfolding join
  join-Inv finished s v = record { reached = v.reached; kept = v.kept; quits = tt }
  join-Inv t s v = tt

  wake_loop-Inv : (s : EventLoopThread) → Inv s → WhenAny Inv (wake_loop code handler s)
  unfolding wake_loop
  wake_loop-Inv s v =
      if_elim (WhenAny Inv) (is_alive s.thread)
        (λ _. loop-Inv other_wakes s (wakes-HasQuit code handler) v joining tt)
        (λ _. record { reached = v.reached; kept = v.kept; quits = tt })

  destroy-Inv :
      (o : OwnerPhase) (s : EventLoopThread)
      → Inv s
      → LateFor o s.late
      → WhenAny Inv (destroy code handler o s)
  unfolding destroy
  destroy-Inv idle s v f = test_loop-Inv s v f
  destroy-Inv has_loop s v f = test_loop-Inv s v f
  destroy-Inv quitting s v f = set_quit-Inv s v
  destroy-Inv waking s v f = wake_loop-Inv s v
  destroy-Inv joining s v f = join-Inv s.thread s v
  destroy-Inv waiting s v f = tt
  destroy-Inv joined s v f = tt

  move-Inv :
      (m : Move code handler) (s : EventLoopThread) → Inv s → WhenAny Inv (move code handler m s)
  unfolding move
  move-Inv (goes polled) s v = thread_step-Inv polled s.thread s v v.kept
  move-Inv starts s v = start_loop-Inv s.owner s v v.quits
  move-Inv destroys s v = destroy-Inv s.owner s v v.quits
  move-Inv (queues f) s v =
      if_elim (WhenAny Inv) (is_alive s.thread)
        (λ _. loop-Inv (other_queues f) s (queues-HasQuit code handler f) v s.owner v.quits)
        (λ _. tt)
  move-Inv signals s v =
      if_elim (WhenAny Inv) (ltb (is_waking s.owner) s.loop.waking && is_alive s.thread)
        (λ _. loop-Inv other_wakes s (wakes-HasQuit code handler) v s.owner v.quits) (λ _. tt)

  -- In every run of the thread, its owner and others: if the destructor's `quit` came when `loop` had
  -- been entered, then as long as the thread has not left `loop`, `quit_` is set, so that it leaves at
  -- its next test, and it does not sleep in `poll`: the eventfd is readable, or a `wakeup` follows.
  pub quit_reaches_loop :
      {s : EventLoopThread}
      → Reach code handler s
      → s.late ≡ true
      → s.thread ≡ in_loop
      → (s.loop.quit ≡ true)
        × ¬ ((s.loop.phase ≡ in_poll) × (s.loop.wakeup_fd ≡ 0) × (s.loop.waking ≡ 0))
  quit_reaches_loop {s} r l t =
      let v : Inv s =
        Reach-WhenAny code handler Inv
          (record { reached = EventLoop.begins; kept = refl; quits = refl }) move-Inv r in
      let k : LateAt in_loop s.late s.loop = subst (λ x. LateAt x s.late s.loop) t v.kept in
      let q : s.loop.quit ≡ true = elim k [ inl f ↦ absurd (let z : ⊥ = cc in z) | inr h ↦ h ] in
      (
        q,
        λ e.
            (let none_set = never_sleeps code handler v.reached e.0 e.1 e.2 in
              let n = none_set.1 in let x : ⊥ = cc in x),
      )
