-- ===== src/EventLoopThread/Tests.antt =====
-- A thread whose loop runs nothing, with its owner.
use cc_learning.Base.{
  ℕ, ◌≡◌, ◌⊎◌, inl, inr, refl, sym, ◌∙◌, subst, true, false, List, [], ◌∷◌, ◌++◌, Option, none,
  some, Option-cases,
}
use cc_learning.EventLoop
use cc_learning.EventLoop.{
  Call, Active, in_poll, wakeup, handle_wakeup, push_functor, must_wake, queue_own, own_call,
  handle_event, reports_wakeup, is_missed, loop_step, enter_loop, start_call, other_wakeup,
}
use cc_learning.EventLoopThread.{
  EventLoopThread, published, in_loop, new_thread, thread_step, start_loop, test_loop, set_quit,
  wake_loop, destroy, Move, goes, starts, destroys, queues, signals, move, run, Reach, begins,
  moves,
}
use cc_learning.EventLoopThread.Join.{quit_reaches_loop}
use cc_learning.EventLoopThread.Live.{loop_lives}

abbrev nothing : ℕ → List Call
nothing f = []

Reach-run :
    (ms : List (Move nothing nothing)) (s : EventLoopThread)
    → Reach nothing nothing s
    → {s' : EventLoopThread} → run nothing nothing ms s ≡ some s'
    → Reach nothing nothing s'
unfolding run
Reach-run [] s r e = subst (Reach nothing nothing) (let q : s ≡ _ = cc in q) r
Reach-run (m ∷ ms) s r {s'} e = elim (Option-cases (move nothing nothing m s)) [
  | inl k ↦ absurd (let q : none ≡ some s' = sym (rw (k, run) refl) ∙ e in let z : ⊥ = cc in z)
  | inr (s1, k) ↦ Reach-run ms s1 (moves m r k) (sym (rw (k, run) refl) ∙ e)
]

abbrev go : Move nothing nothing
go = goes []

abbrev thread_of : Option EventLoopThread → EventLoopThread
thread_of none = new_thread
thread_of (some s) = s

-- `startLoop` returns, and the thread has made the loop.
abbrev begun : List (Move nothing nothing)
begun = starts ∷ go ∷ starts ∷ []

abbrev started : EventLoopThread
unfolding run move thread_step start_loop
started = thread_of (run nothing nothing begun new_thread)

started-Reach : Reach nothing nothing started
unfolding started run move thread_step start_loop
started-Reach = Reach-run begun new_thread begins refl

loop_lives_example : (started.thread ≡ published) ⊎ (started.thread ≡ in_loop)
unfolding started run move thread_step start_loop
loop_lives_example = loop_lives nothing nothing (λ f. tt) (λ c. tt) started-Reach (inl refl)

-- The loop is in `poll`, another thread has queued a functor, and the destructor has set `quit_`.
abbrev ending : List (Move nothing nothing)
ending = begun ++ (go ∷ go ∷ queues 1 ∷ signals ∷ destroys ∷ destroys ∷ [])

abbrev quit : EventLoopThread
unfolding run move thread_step start_loop destroy test_loop set_quit wake_loop EventLoop.step
    enter_loop loop_step is_missed push_functor must_wake other_wakeup wakeup
quit = thread_of (run nothing nothing ending new_thread)

quit-Reach : Reach nothing nothing quit
unfolding quit run move thread_step start_loop destroy test_loop set_quit wake_loop EventLoop.step
    enter_loop loop_step is_missed push_functor must_wake other_wakeup wakeup
quit-Reach = Reach-run ending new_thread begins refl

quit_reaches_loop_example :
    (quit.loop.quit ≡ true)
    × ¬ ((quit.loop.phase ≡ in_poll) × (quit.loop.wakeup_fd ≡ 0) × (quit.loop.waking ≡ 0))
unfolding quit run move thread_step start_loop destroy test_loop set_quit wake_loop EventLoop.step
    enter_loop loop_step is_missed push_functor must_wake other_wakeup wakeup
quit_reaches_loop_example = quit_reaches_loop nothing nothing quit-Reach refl refl

-- Between the two writes of the destructor's `quit` the loop can end and be destroyed.
quit_races :
    (thread_of (
      run nothing nothing
        (begun ++ (go ∷ destroys ∷ destroys ∷ go ∷ go ∷ go ∷ go ∷ destroys ∷ []))
        new_thread)).dangling
    ≡ true
unfolding run move thread_step start_loop destroy test_loop set_quit wake_loop EventLoop.step
    enter_loop loop_step is_missed push_functor must_wake other_wakeup wakeup
quit_races = refl

-- A `quit` before `loop` is forgotten: the loop goes on while the destructor joins.
quit_is_lost :
    (thread_of (
      run nothing nothing
        (begun ++ (destroys ∷ destroys ∷ destroys ∷ go ∷ go ∷ []))
        new_thread)).loop.quit
    ≡ false
unfolding run move thread_step start_loop destroy test_loop set_quit wake_loop EventLoop.step
    enter_loop loop_step is_missed push_functor must_wake other_wakeup wakeup
quit_is_lost = refl
