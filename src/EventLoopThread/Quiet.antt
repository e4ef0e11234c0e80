-- ===== src/EventLoopThread/Quiet.antt =====
-- A loop of reactor_net/src/EventLoop.cpp on which nobody calls `quit`.
use cc_learning.Base.{
  ℕ, zero, suc, ◌-◌, ◌^◌, ◌≡◌, refl, sym, subst, true, false, ◌&&◌, List, [], ◌∷◌, ◌++◌, ltb,
  if_elim, All, All-append,
}
use cc_learning.EventLoop.{
  Call, queue_in_loop, run_in_loop, quit_loop, Active, wakeup_channel, channel, Phase, outside,
  at_test, in_poll, handling, before_swap, running, EventLoop, wakeup, push_functor, must_wake,
  queue_own, own_call, handle_wakeup, handle_event, is_missed, loop_step, enter_loop, other_wakeup,
}
use cc_learning.EventLoop.Order.{IsKept}

abbrev pub IsQuiet : Call → Type 0
IsQuiet (queue_in_loop f) = Unit
IsQuiet (run_in_loop f) = Unit
IsQuiet quit_loop = ⊥

-- None of these calls is `quit`.
abbrev pub AreQuiet : List Call → Type 0
AreQuiet cs = All IsQuiet cs

abbrev pub IsQuietAt : Phase → Type 0
IsQuietAt (outside todo) = AreQuiet todo
IsQuietAt at_test = Unit
IsQuietAt in_poll = Unit
IsQuietAt (handling active todo) = AreQuiet todo
IsQuietAt before_swap = Unit
IsQuietAt (running fs todo) = AreQuiet todo

pub record GoesOn (l : EventLoop) : Type 0 where
  pub stays : l.quit ≡ false
  pub loops : l.looping ≡ true

-- The loop is inside `loop` and nobody has called `quit` or will.
abbrev pub IsLooping : EventLoop → Type 0
IsLooping l = GoesOn l × IsQuietAt l.phase

GoesOn-wakeup : (l : EventLoop) → GoesOn l → GoesOn (wakeup l)
unfolding wakeup
GoesOn-wakeup l g =
    if_elim GoesOn (ltb l.wakeup_fd (2 ^ 64 - 2)) (λ k. record { stays = g.stays; loops = g.loops })
      (λ k. g)

phase-wakeup : (l : EventLoop) → (wakeup l).phase ≡ l.phase
unfolding wakeup
phase-wakeup l =
    if_elim (λ (x : EventLoop). x.phase ≡ l.phase) (ltb l.wakeup_fd (2 ^ 64 - 2)) (λ k. refl)
      (λ k. refl)

module _ (code handler : ℕ → List Call) where
  module _ (quiet_code : (f : ℕ) → AreQuiet (code f))
      (quiet_handler : (c : ℕ) → AreQuiet (handler c)) where
    own_call-GoesOn :
        (c : Call) (l : EventLoop)
        → IsQuiet c
        → GoesOn l
        → GoesOn (own_call code handler c l).0 × AreQuiet (own_call code handler c l).1
    unfolding own_call queue_own push_functor
    own_call-GoesOn (queue_in_loop f) l q g =
        let l' = push_functor f l in
        let g' : GoesOn l' = record { stays = g.stays; loops = g.loops } in
        (if_elim GoesOn (must_wake true l') (λ k. GoesOn-wakeup l' g') (λ k. g'), tt)
    own_call-GoesOn (run_in_loop f) l q g =
        (record { stays = g.stays; loops = g.loops }, quiet_code f)
    own_call-GoesOn quit_loop l q g = absurd q

    -- A call, after which the rest of the calls is to be made.
    own_call-IsLooping :
        (c : Call) (todo : List Call) (l : EventLoop)
        → AreQuiet (c ∷ todo)
        → GoesOn l
        → GoesOn (own_call code handler c l).0 × AreQuiet ((own_call code handler c l).1 ++ todo)
    own_call-IsLooping c todo l q g =
        let r = own_call-GoesOn c l q.0 g in
        (r.0, All-append IsQuiet (own_call code handler c l).1 todo r.1 q.1)

    pub loop_step-IsLooping :
        (polled : List Active) (p : Phase) (l : EventLoop)
        → GoesOn l
        → IsQuietAt p
        → IsKept IsLooping (loop_step code handler polled p l)
    unfolding loop_step handle_event handle_wakeup
    loop_step-IsLooping polled (outside []) l g q = tt
    loop_step-IsLooping polled (outside (c ∷ todo)) l g q =
        let r = own_call-IsLooping c todo l q g in
        (record { stays = r.0.stays; loops = r.0.loops }, r.1)
    loop_step-IsLooping polled at_test l g q =
        if_elim IsLooping l.quit (λ k. absurd (let f = g.stays in let z : ⊥ = cc in z))
          (λ k. (record { stays = g.stays; loops = g.loops }, tt))
    loop_step-IsLooping polled in_poll l g q =
        if_elim (IsKept IsLooping) (ltb 0 l.wakeup_fd && is_missed code handler polled) (λ k. tt)
          (λ k. (record { stays = g.stays; loops = g.loops }, tt))
    loop_step-IsLooping polled (handling active (c ∷ todo)) l g q =
        let r = own_call-IsLooping c todo l q g in
        (record { stays = r.0.stays; loops = r.0.loops }, r.1)
    loop_step-IsLooping polled (handling (wakeup_channel ∷ active) []) l g q =
        (record { stays = g.stays; loops = g.loops }, tt)
    loop_step-IsLooping polled (handling (channel c ∷ active) []) l g q =
        (record { stays = g.stays; loops = g.loops }, quiet_handler c)
    loop_step-IsLooping polled (handling [] []) l g q =
        (record { stays = g.stays; loops = g.loops }, tt)
    loop_step-IsLooping polled before_swap l g q = (record { stays = g.stays; loops = g.loops }, tt)
    loop_step-IsLooping polled (running fs (c ∷ todo)) l g q =
        let r = own_call-IsLooping c todo l q g in
        (record { stays = r.0.stays; loops = r.0.loops }, r.1)
    loop_step-IsLooping polled (running (f ∷ fs) []) l g q =
        (record { stays = g.stays; loops = g.loops }, quiet_code f)
    loop_step-IsLooping polled (running [] []) l g q =
        (record { stays = g.stays; loops = g.loops }, tt)

    pub other_wakeup-IsLooping :
        (n : ℕ) (l : EventLoop) → IsLooping l → IsKept IsLooping (other_wakeup code handler n l)
    unfolding other_wakeup
    other_wakeup-IsLooping zero l v = tt
    other_wakeup-IsLooping (suc n) l v =
        let l' = record l { waking = n } in
        (
          GoesOn-wakeup l' (record { stays = v.0.stays; loops = v.0.loops }),
          subst IsQuietAt (sym (phase-wakeup l')) v.1,
        )

    pub enter_loop-IsLooping :
        (p : Phase) (l : EventLoop) → IsKept IsLooping (enter_loop code handler p l)
    unfolding enter_loop
    enter_loop-IsLooping (outside []) l =
        if_elim (IsKept IsLooping) l.looping (λ k. tt)
          (λ k. (record { stays = refl; loops = refl }, tt))
    enter_loop-IsLooping p l = tt
