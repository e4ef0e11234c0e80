-- ===== src/EventLoop/Wakeup.antt =====
-- The loop of reactor_net/src/EventLoop.cpp does not sleep on work.
use cc_learning.Base.{
  ℕ, zero, suc, ◌+◌, ◌-◌, ◌^◌, ◌<◌, ◌≤◌, ◌≡◌, ◌∙◌, ◌⊎◌, inl, inr, sym, subst, refl, arith, true,
  false, ◌&&◌, List, [], ◌∷◌, ltb, if_elim,
}
use cc_learning.EventLoop.{
  Call, queue_in_loop, run_in_loop, quit_loop, Active, Phase, outside, at_test, in_poll, handling,
  before_swap, running, EventLoop, wakeup, push_functor, must_wake, queue_own, own_call, is_missed,
  loop_step, enter_loop, start_call, other_wakeup, Action, enters, goes_on, calls, other_queues,
  other_quits, other_wakes, step, Reach,
}
use cc_learning.EventLoop.Order.{IsKept, Reach-IsKept}

-- The eventfd is readable or will be.
abbrev IsSignalled : EventLoop → Type 0
IsSignalled s = 0 < s.wakeup_fd + s.waking

abbrev IsServed : EventLoop → Type 0
IsServed s = (s.pending_functors ≡ []) ⊎ IsSignalled s

-- What holds where the loop's thread is.
unfoldable IsAwakeAt : Phase → EventLoop → Type 0
IsAwakeAt (outside todo) s = IsServed s ⊎ (s.early ≡ true)
IsAwakeAt at_test s = IsServed s ⊎ (s.early ≡ true)
IsAwakeAt in_poll s = (IsServed s ⊎ (s.early ≡ true)) × ((s.quit ≡ false) ⊎ IsSignalled s)
IsAwakeAt (handling active todo) s = Unit
IsAwakeAt before_swap s = s.calling_pending_functors ≡ true
IsAwakeAt (running fs todo) s = (s.calling_pending_functors ≡ true) × IsServed s

abbrev IsAwake : EventLoop → Type 0
IsAwake s = IsAwakeAt s.phase s

-- A signal keeps the loop awake wherever it is.
signal-IsAwakeAt :
    (p : Phase) (s s' : EventLoop)
    → s'.calling_pending_functors ≡ s.calling_pending_functors
    → IsSignalled s'
    → IsAwakeAt p s
    → IsAwakeAt p s'
unfolding IsAwakeAt
signal-IsAwakeAt (outside todo) s s' e h w = inl (inr h)
signal-IsAwakeAt at_test s s' e h w = inl (inr h)
signal-IsAwakeAt in_poll s s' e h w = (inl (inr h), inr h)
signal-IsAwakeAt (handling active todo) s s' e h w = tt
signal-IsAwakeAt before_swap s s' e h w = e ∙ w
signal-IsAwakeAt (running fs todo) s s' e h w = (e ∙ w.0, inr h)

wakeup-IsSignalled : (s : EventLoop) → IsSignalled (wakeup s)
unfolding wakeup
wakeup-IsSignalled s =
    if_elim IsSignalled (ltb s.wakeup_fd (2 ^ 64 - 2)) (λ k. omega arith)
      (λ k. let h : 2 ^ 64 - 2 ≤ s.wakeup_fd = ground arith in omega (arith, h))

wakeup-calling : (s : EventLoop) → (wakeup s).calling_pending_functors ≡ s.calling_pending_functors
unfolding wakeup
wakeup-calling s =
    if_elim (λ (x : EventLoop). x.calling_pending_functors ≡ s.calling_pending_functors)
      (ltb s.wakeup_fd (2 ^ 64 - 2)) (λ k. refl) (λ k. refl)

wakeup-phase : (s : EventLoop) → (wakeup s).phase ≡ s.phase
unfolding wakeup
wakeup-phase s =
    if_elim (λ (x : EventLoop). x.phase ≡ s.phase) (ltb s.wakeup_fd (2 ^ 64 - 2)) (λ k. refl)
      (λ k. refl)

module _ (code handler : ℕ → List Call) where
  -- While the functors run, what the loop's thread queues wakes it up.
  abbrev IsRunning : EventLoop → Type 0
  IsRunning s = (s.calling_pending_functors ≡ true) × IsServed s

  own_call-IsRunning :
      (c : Call) (s : EventLoop) → IsRunning s → IsRunning (own_call code handler c s).0
  unfolding own_call queue_own must_wake push_functor
  own_call-IsRunning (queue_in_loop f) s w =
      let s' = push_functor f s in
      if_elim IsRunning (must_wake true s')
        (λ k. (wakeup-calling s' ∙ w.0, inr (wakeup-IsSignalled s')))
        (λ k. absurd (let q : true ≡ false = sym w.0 ∙ k in let z : ⊥ = cc in z))
  own_call-IsRunning (run_in_loop f) s w = w
  own_call-IsRunning quit_loop s w = w

  loop_step-IsAwake :
      (polled : List Active) (p : Phase) (s : EventLoop)
      → IsAwakeAt p s
      → IsKept IsAwake (loop_step code handler polled p s)
  unfolding loop_step IsAwakeAt
  loop_step-IsAwake polled (outside []) s w = tt
  loop_step-IsAwake polled (outside (c ∷ todo)) s w = inr refl
  loop_step-IsAwake polled at_test s w = if_elim IsAwake s.quit (λ k. w) (λ k. (w, inl k))
  loop_step-IsAwake polled in_poll s w =
      if_elim (IsKept IsAwake) (ltb 0 s.wakeup_fd && is_missed code handler polled) (λ k. tt)
        (λ k. tt)
  loop_step-IsAwake polled (handling active (c ∷ todo)) s w = tt
  loop_step-IsAwake polled (handling (a ∷ active) []) s w = tt
  loop_step-IsAwake polled (handling [] []) s w = refl
  loop_step-IsAwake polled before_swap s w = (w, inl refl)
  loop_step-IsAwake polled (running fs (c ∷ todo)) s w = own_call-IsRunning c s w
  loop_step-IsAwake polled (running (f ∷ fs) []) s w = w
  loop_step-IsAwake polled (running [] []) s w = inl w.1

  enter_loop-IsAwake :
      (p : Phase) (s : EventLoop) → IsAwakeAt p s → IsKept IsAwake (enter_loop code handler p s)
  unfolding enter_loop IsAwakeAt
  enter_loop-IsAwake (outside []) s w = if_elim (IsKept IsAwake) s.looping (λ k. tt) (λ k. w)
  enter_loop-IsAwake p s w = tt

  start_call-IsAwake :
      (c : Call) (p : Phase) (s : EventLoop)
      → IsAwakeAt p s
      → IsKept IsAwake (start_call code handler c p s)
  unfolding start_call IsAwakeAt
  start_call-IsAwake c (outside []) s w = w
  start_call-IsAwake c p s w = tt

  other_wakeup-IsAwake :
      (n : ℕ) (s : EventLoop) → IsAwake s → IsKept IsAwake (other_wakeup code handler n s)
  unfolding other_wakeup
  other_wakeup-IsAwake zero s w = tt
  other_wakeup-IsAwake (suc n) s w =
      let s' = record s { waking = n } in
      subst (λ p. IsAwakeAt p (wakeup s')) (sym (wakeup-phase s'))
        (signal-IsAwakeAt s.phase s (wakeup s') (wakeup-calling s') (wakeup-IsSignalled s') w)

  step-IsAwake :
      (a : Action code handler) (s : EventLoop) → IsAwake s → IsKept IsAwake (step code handler a s)
  unfolding step must_wake push_functor
  step-IsAwake enters s w = enter_loop-IsAwake s.phase s w
  step-IsAwake (goes_on polled) s w = loop_step-IsAwake polled s.phase s w
  step-IsAwake (calls c) s w = start_call-IsAwake c s.phase s w
  step-IsAwake (other_queues f) s w =
      signal-IsAwakeAt s.phase s (record (push_functor f s) { waking = suc s.waking }) refl
        (omega arith) w
  step-IsAwake other_quits s w =
      signal-IsAwakeAt s.phase s (record s { quit = true; waking = suc s.waking }) refl
        (omega arith) w
  step-IsAwake other_wakes s w = other_wakeup-IsAwake s.waking s w

  -- In every run of all threads: where the loop's thread stands in `poll`, the eventfd is not
  -- readable, and no other thread is between its push or its `quit_` and its `wakeup`, no functor
  -- waits and no `quit` is outstanding, so the loop never sleeps on work; unless the loop's own thread
  -- made a call outside `loop` and no swap of the functors has followed, in which case only the
  -- part on `quit` is stated.
  pub never_sleeps :
      {s : EventLoop}
      → Reach code handler s
      → s.phase ≡ in_poll
      → s.wakeup_fd ≡ 0
      → s.waking ≡ 0
      → ((s.pending_functors ≡ []) ⊎ (s.early ≡ true)) × (s.quit ≡ false)
  unfolding IsAwakeAt
  never_sleeps {s} r e z n =
      let w : IsAwakeAt in_poll s =
        subst (λ p. IsAwakeAt p s) e
          (Reach-IsKept code handler IsAwake (inl (inl refl)) step-IsAwake r) in
      let silent : IsSignalled s → ⊥ = λ h. omega (arith, h, z, n) in
      (
        elim w.0 [ inl (inl k) ↦ inl k | inl (inr h) ↦ absurd (silent h) | inr k ↦ inr k ],
        elim w.1 [ inl k ↦ k | inr h ↦ absurd (silent h) ],
      )
