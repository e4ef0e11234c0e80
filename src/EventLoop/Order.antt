-- ===== src/EventLoop/Order.antt =====
-- `pendingFunctors_` of reactor_net/src/EventLoop.cpp, in order and none twice.
use cc_learning.Base.{
  ℕ, zero, suc, ◌-◌, ◌^◌, ◌≡◌, ◌∙◌, sym, ap, subst, refl, true, ◌&&◌, List, [], ◌∷◌, ◌++◌,
  append_assoc, append-nil, Option, none, some, ltb, if_elim, Option-cases, inl, inr,
}
use cc_learning.EventLoop.{
  Call, queue_in_loop, run_in_loop, quit_loop, Active, wakeup_channel, channel, Phase, outside,
  at_test, in_poll, handling, before_swap, running, EventLoop, new_loop, wakeup, handle_wakeup,
  push_functor, must_wake, queue_own, own_call, handle_event, is_missed, loop_step, enter_loop,
  start_call, other_wakeup, Action, enters, goes_on, calls, other_queues, other_quits, other_wakes,
  step, run, Reach, begins, moves,
}

-- What holds of the state that a step leads to, if it can be taken.
abbrev pub IsKept : (EventLoop → Type 0) → Option EventLoop → Type 0
IsKept P none = Unit
IsKept P (some s) = P s

pub Reach-IsKept :
    (code handler : ℕ → List Call) (P : EventLoop → Type 0)
    → P new_loop
    → ((a : Action code handler) (s : EventLoop) → P s → IsKept P (step code handler a s))
    → {s : EventLoop} → Reach code handler s
    → P s
Reach-IsKept code handler P h k begins = h
Reach-IsKept code handler P h k (moves {s} a r e) =
    subst (IsKept P) e (k a s (Reach-IsKept code handler P h k r))

pub Reach-run :
    (code handler : ℕ → List Call) (acts : List (Action code handler)) (s : EventLoop)
    → Reach code handler s
    → {s' : EventLoop} → run code handler acts s ≡ some s'
    → Reach code handler s'
unfolding run
Reach-run code handler [] s r e = subst (Reach code handler) (let q : s ≡ _ = cc in q) r
Reach-run code handler (a ∷ acts) s r {s'} e = elim (Option-cases (step code handler a s)) [
  | inl k ↦ absurd (let q : none ≡ some s' = sym (rw (k, run) refl) ∙ e in let z : ⊥ = cc in z)
  | inr (s1, k) ↦ Reach-run code handler acts s1 (moves a r k) (sym (rw (k, run) refl) ∙ e)
]

-- The functors that `doPendingFunctors` has swapped out and not run yet.
unfoldable pub batch : Phase → List ℕ
batch (outside todo) = []
batch at_test = []
batch in_poll = []
batch (handling active todo) = []
batch before_swap = []
batch (running fs todo) = fs

abbrev IsOrderedAt : List ℕ → EventLoop → Type 0
IsOrderedAt fs s = s.ran ++ (fs ++ s.pending_functors) ≡ s.queued

abbrev IsOrdered : EventLoop → Type 0
unfolding batch
IsOrdered s = IsOrderedAt (batch s.phase) s

push-IsOrderedAt :
    (fs : List ℕ) (f : ℕ) (s : EventLoop) → IsOrderedAt fs s → IsOrderedAt fs (push_functor f s)
unfolding push_functor
push-IsOrderedAt fs f s e =
    ap (λ l. s.ran ++ l) (sym (append_assoc fs s.pending_functors (f ∷ [])))
    ∙ (sym (append_assoc s.ran (fs ++ s.pending_functors) (f ∷ [])) ∙ ap (λ l. l ++ (f ∷ [])) e)

wakeup-IsOrderedAt : (fs : List ℕ) (s : EventLoop) → IsOrderedAt fs s → IsOrderedAt fs (wakeup s)
unfolding wakeup
wakeup-IsOrderedAt fs s e =
    if_elim (IsOrderedAt fs) (ltb s.wakeup_fd (2 ^ 64 - 2)) (λ k. e) (λ k. e)

module _ (code handler : ℕ → List Call) where
  own_call-IsOrderedAt :
      (fs : List ℕ) (c : Call) (s : EventLoop)
      → IsOrderedAt fs s
      → IsOrderedAt fs (own_call code handler c s).0
  unfolding own_call queue_own
  own_call-IsOrderedAt fs (queue_in_loop f) s e =
      let e' = push-IsOrderedAt fs f s e in
      if_elim (IsOrderedAt fs) (must_wake true (push_functor f s))
        (λ k. wakeup-IsOrderedAt fs (push_functor f s) e') (λ k. e')
  own_call-IsOrderedAt fs (run_in_loop f) s e = e
  own_call-IsOrderedAt fs quit_loop s e = e

  handle_event-IsOrderedAt :
      (a : Active) (s : EventLoop)
      → IsOrderedAt [] s
      → IsOrderedAt [] (handle_event code handler a s).0
  unfolding handle_event handle_wakeup
  handle_event-IsOrderedAt wakeup_channel s e = e
  handle_event-IsOrderedAt (channel c) s e = e

  loop_step-IsOrdered :
      (polled : List Active) (p : Phase) (s : EventLoop)
      → IsOrderedAt (batch p) s
      → IsKept IsOrdered (loop_step code handler polled p s)
  unfolding loop_step batch
  loop_step-IsOrdered polled (outside []) s e = tt
  loop_step-IsOrdered polled (outside (c ∷ todo)) s e = own_call-IsOrderedAt [] c s e
  loop_step-IsOrdered polled at_test s e = if_elim IsOrdered s.quit (λ k. e) (λ k. e)
  loop_step-IsOrdered polled in_poll s e =
      if_elim (IsKept IsOrdered) (ltb 0 s.wakeup_fd && is_missed code handler polled) (λ k. tt)
        (λ k. e)
  loop_step-IsOrdered polled (handling active (c ∷ todo)) s e = own_call-IsOrderedAt [] c s e
  loop_step-IsOrdered polled (handling (a ∷ active) []) s e = handle_event-IsOrderedAt a s e
  loop_step-IsOrdered polled (handling [] []) s e = e
  loop_step-IsOrdered polled before_swap s e =
      ap (λ l. s.ran ++ l) (append-nil s.pending_functors) ∙ e
  loop_step-IsOrdered polled (running fs (c ∷ todo)) s e = own_call-IsOrderedAt fs c s e
  loop_step-IsOrdered polled (running (f ∷ fs) []) s e =
      append_assoc s.ran (f ∷ []) (fs ++ s.pending_functors) ∙ e
  loop_step-IsOrdered polled (running [] []) s e = e

  enter_loop-IsOrdered :
      (p : Phase) (s : EventLoop)
      → IsOrderedAt (batch p) s
      → IsKept IsOrdered (enter_loop code handler p s)
  unfolding enter_loop batch
  enter_loop-IsOrdered (outside []) s e = if_elim (IsKept IsOrdered) s.looping (λ k. tt) (λ k. e)
  enter_loop-IsOrdered p s e = tt

  start_call-IsOrdered :
      (c : Call) (p : Phase) (s : EventLoop)
      → IsOrderedAt (batch p) s
      → IsKept IsOrdered (start_call code handler c p s)
  unfolding start_call batch
  start_call-IsOrdered c (outside []) s e = e
  start_call-IsOrdered c p s e = tt

  other_wakeup-IsOrdered :
      (n : ℕ) (s : EventLoop) → IsOrdered s → IsKept IsOrdered (other_wakeup code handler n s)
  unfolding other_wakeup wakeup batch
  other_wakeup-IsOrdered zero s e = tt
  other_wakeup-IsOrdered (suc n) s e =
      if_elim IsOrdered (ltb s.wakeup_fd (2 ^ 64 - 2)) (λ k. e) (λ k. e)

  step-IsOrdered :
      (a : Action code handler) (s : EventLoop)
      → IsOrdered s
      → IsKept IsOrdered (step code handler a s)
  unfolding step must_wake batch
  step-IsOrdered enters s e = enter_loop-IsOrdered s.phase s e
  step-IsOrdered (goes_on polled) s e = loop_step-IsOrdered polled s.phase s e
  step-IsOrdered (calls c) s e = start_call-IsOrdered c s.phase s e
  step-IsOrdered (other_queues f) s e = push-IsOrderedAt (batch s.phase) f s e
  step-IsOrdered other_quits s e = e
  step-IsOrdered other_wakes s e = other_wakeup-IsOrdered s.waking s e

  -- In every run of all threads the functors that `doPendingFunctors` has run, those that it has
  -- swapped out and those that wait are together the ones that were queued, in the order in which
  -- they were queued: none is lost, none is run twice and none overtakes another.
  pub functors_in_order :
      {s : EventLoop}
      → Reach code handler s
      → s.ran ++ (batch s.phase ++ s.pending_functors) ≡ s.queued
  unfolding batch
  functors_in_order r = Reach-IsKept code handler IsOrdered refl step-IsOrdered r
