-- ===== src/EventLoopThread/Quit.antt =====
-- A `quit` of reactor_net/src/EventLoop.cpp that came inside `loop` is not taken back.
use cc_learning.Base.{
  ℕ, zero, suc, ◌-◌, ◌^◌, ◌≡◌, refl, ◌∙◌, true, ◌&&◌, List, [], ◌∷◌, ltb, if_elim,
}
use cc_learning.EventLoop
use cc_learning.EventLoop.{
  Call, queue_in_loop, run_in_loop, quit_loop, Active, wakeup_channel, channel, Phase, outside,
  at_test, in_poll, handling, before_swap, running, EventLoop, new_loop, wakeup, push_functor,
  must_wake, queue_own, own_call, handle_wakeup, handle_event, is_missed, loop_step, other_wakeup,
  Action, enters, goes_on, other_queues, other_quits, other_wakes,
}
use cc_learning.EventLoop.Order.{IsKept}

abbrev pub HasQuit : EventLoop → Type 0
HasQuit l = l.quit ≡ true

quit-wakeup : (l : EventLoop) → (wakeup l).quit ≡ l.quit
unfolding wakeup
quit-wakeup l =
    if_elim (λ (x : EventLoop). x.quit ≡ l.quit) (ltb l.wakeup_fd (2 ^ 64 - 2)) (λ k. refl)
      (λ k. refl)

module _ (code handler : ℕ → List Call) where
  own_call-HasQuit : (c : Call) (l : EventLoop) → HasQuit l → HasQuit (own_call code handler c l).0
  unfolding own_call queue_own push_functor
  own_call-HasQuit (queue_in_loop f) l q =
      let l' = push_functor f l in
      if_elim HasQuit (must_wake true l') (λ k. quit-wakeup l' ∙ q) (λ k. q)
  own_call-HasQuit (run_in_loop f) l q = q
  own_call-HasQuit quit_loop l q = refl

  -- Nothing inside `loop` takes a `quit` back.
  loop_step-HasQuit :
      (polled : List Active) (p : Phase) (l : EventLoop)
      → HasQuit l
      → IsKept HasQuit (loop_step code handler polled p l)
  unfolding loop_step handle_event handle_wakeup
  loop_step-HasQuit polled (outside []) l q = tt
  loop_step-HasQuit polled (outside (c ∷ todo)) l q = own_call-HasQuit c l q
  loop_step-HasQuit polled at_test l q = if_elim HasQuit l.quit (λ k. q) (λ k. q)
  loop_step-HasQuit polled in_poll l q =
      if_elim (IsKept HasQuit) (ltb 0 l.wakeup_fd && is_missed code handler polled) (λ k. tt)
        (λ k. q)
  loop_step-HasQuit polled (handling active (c ∷ todo)) l q = own_call-HasQuit c l q
  loop_step-HasQuit polled (handling (wakeup_channel ∷ active) []) l q = q
  loop_step-HasQuit polled (handling (channel c ∷ active) []) l q = q
  loop_step-HasQuit polled (handling [] []) l q = q
  loop_step-HasQuit polled before_swap l q = q
  loop_step-HasQuit polled (running fs (c ∷ todo)) l q = own_call-HasQuit c l q
  loop_step-HasQuit polled (running (f ∷ fs) []) l q = q
  loop_step-HasQuit polled (running [] []) l q = q

  other_wakeup-HasQuit :
      (n : ℕ) (l : EventLoop) → HasQuit l → IsKept HasQuit (other_wakeup code handler n l)
  unfolding other_wakeup
  other_wakeup-HasQuit zero l q = tt
  other_wakeup-HasQuit (suc n) l q = quit-wakeup (record l { waking = n }) ∙ q

  pub queues-HasQuit :
      (f : ℕ) (l : EventLoop)
      → HasQuit l
      → IsKept HasQuit (EventLoop.step code handler (other_queues f) l)
  unfolding EventLoop.step must_wake push_functor
  queues-HasQuit f l q = q

  pub wakes-HasQuit :
      (l : EventLoop) → HasQuit l → IsKept HasQuit (EventLoop.step code handler other_wakes l)
  unfolding EventLoop.step
  wakes-HasQuit l q = other_wakeup-HasQuit l.waking l q

  pub goes_on-HasQuit :
      (polled : List Active) (l : EventLoop)
      → HasQuit l
      → IsKept HasQuit (EventLoop.step code handler (goes_on polled) l)
  unfolding EventLoop.step
  goes_on-HasQuit polled l q = loop_step-HasQuit polled l.phase l q
