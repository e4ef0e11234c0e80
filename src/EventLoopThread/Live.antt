-- ===== src/EventLoopThread/Live.antt =====
-- The pointer that `startLoop` of reactor_net/src/EventLoopThread.cpp gives.
use cc_learning.Base.{
  ℕ, ◌≡◌, ◌⊎◌, inl, inr, refl, sym, subst, Bool, true, false, ◌&&◌, List, Option, none, some, ltb,
  if_elim,
}
use cc_learning.EventLoop
use cc_learning.EventLoop.{
  Call, queue_in_loop, run_in_loop, quit_loop, Active, wakeup_channel, channel, Phase, outside,
  at_test, in_poll, handling, before_swap, running, EventLoop, wakeup, push_functor, must_wake,
  queue_own, own_call, handle_wakeup, handle_event, is_missed, loop_step, enter_loop, other_wakeup,
  Action, enters, goes_on, other_queues, other_quits, other_wakes,
}
use cc_learning.EventLoop.Order.{IsKept}
use cc_learning.EventLoopThread.{
  ThreadPhase, unstarted, creating, published, in_loop, returning, cleared, finished, OwnerPhase,
  idle, waiting, has_loop, quitting, waking, joining, joined, EventLoopThread, is_alive, is_started,
  is_waking, with_loop, thread_step, start_loop, test_loop, set_quit, wake_loop, join, destroy,
  Move, goes, starts, destroys, queues, signals, move, Reach,
}
use cc_learning.EventLoopThread.Steps.{WhenAny, with_loop-WhenAny, Reach-WhenAny}
use cc_learning.EventLoopThread.Quiet.{
  AreQuiet, IsLooping, loop_step-IsLooping, other_wakeup-IsLooping, enter_loop-IsLooping,
}

module _ (code handler : ℕ → List Call) where
  module _ (quiet_code : (f : ℕ) → AreQuiet (code f))
      (quiet_handler : (c : ℕ) → AreQuiet (handler c)) where
    -- Where the thread is while the owner has not called `quit`.
    abbrev LiveAt : ThreadPhase → Bool → EventLoop → Type 0
    LiveAt unstarted set l = set ≡ false
    LiveAt creating set l = set ≡ false
    LiveAt published set l = Unit
    LiveAt in_loop set l = IsLooping l
    LiveAt returning set l = ⊥
    LiveAt cleared set l = ⊥
    LiveAt finished set l = ⊥

    abbrev IsUp : ThreadPhase → Type 0
    IsUp t = (t ≡ published) ⊎ (t ≡ in_loop)

    abbrev LiveFor : OwnerPhase → ThreadPhase → Bool → EventLoop → Type 0
    LiveFor idle t set l = LiveAt t set l × (t ≡ unstarted)
    LiveFor waiting t set l = LiveAt t set l
    LiveFor has_loop t set l = LiveAt t set l × IsUp t
    LiveFor quitting t set l = LiveAt t set l × IsUp t
    LiveFor waking t set l = Unit
    LiveFor joining t set l = Unit
    LiveFor joined t set l = Unit

    abbrev Inv : EventLoopThread → Type 0
    Inv s = LiveFor s.owner s.thread s.loop_set s.loop

    -- A step that leaves the owner where it is, from the phase `t` of the thread.
    abbrev Keeps : ThreadPhase → EventLoopThread → EventLoopThread → Type 0
    Keeps t s s' =
        (s'.owner ≡ s.owner)
        × (LiveAt t s.loop_set s.loop
            → LiveAt s'.thread s'.loop_set s'.loop
              × (IsUp t → IsUp s'.thread)
              × (t ≡ unstarted → s'.thread ≡ unstarted))

    Keeps-Inv :
        (o : OwnerPhase) (s s' : EventLoopThread)
        → LiveFor o s.thread s.loop_set s.loop
        → Keeps s.thread s s'
        → LiveFor o s'.thread s'.loop_set s'.loop
    Keeps-Inv idle s s' v k = let r = k.1 v.0 in (r.0, r.2 v.1)
    Keeps-Inv waiting s s' v k = (k.1 v).0
    Keeps-Inv has_loop s s' v k = let r = k.1 v.0 in (r.0, r.1 v.1)
    Keeps-Inv quitting s s' v k = let r = k.1 v.0 in (r.0, r.1 v.1)
    Keeps-Inv waking s s' v k = tt
    Keeps-Inv joining s s' v k = tt
    Keeps-Inv joined s s' v k = tt

    Keeps-WhenAny :
        (s : EventLoopThread) (o : Option EventLoopThread)
        → Inv s
        → WhenAny (Keeps s.thread s) o
        → WhenAny Inv o
    Keeps-WhenAny s none v k = tt
    Keeps-WhenAny s (some s') v k =
        subst (λ o. LiveFor o s'.thread s'.loop_set s'.loop) (sym k.0) (Keeps-Inv s.owner s s' v k)

    thread_step-Keeps :
        (polled : List Active) (t : ThreadPhase) (s : EventLoopThread)
        → s.thread ≡ t
        → WhenAny (Keeps t s) (thread_step code handler polled t s)
    unfolding thread_step EventLoop.step
    thread_step-Keeps polled unstarted s e = tt
    thread_step-Keeps polled creating s e =
        (refl, λ v. (tt, λ u. inl refl, λ u. absurd (let z : ⊥ = cc in z)))
    thread_step-Keeps polled published s e =
        with_loop-WhenAny (Keeps published s) (λ l. record s { loop = l; thread = in_loop })
          (enter_loop code handler s.loop.phase s.loop)
          (λ l q. (
            refl,
            λ v. (
              subst (IsKept IsLooping) q
                  (enter_loop-IsLooping code handler quiet_code quiet_handler s.loop.phase s.loop),
              λ u. inr refl,
              λ u. absurd (let z : ⊥ = cc in z),
            ),
          ))
    thread_step-Keeps polled in_loop s e =
        if_elim (WhenAny (Keeps in_loop s)) s.loop.looping
          (λ k.
            with_loop-WhenAny (Keeps in_loop s) (λ l. record s { loop = l })
              (loop_step code handler polled s.loop.phase s.loop)
              (λ l q. (
                refl,
                λ v. (
                  subst (λ t. LiveAt t s.loop_set l) (sym e)
                      (subst (IsKept IsLooping) q (
                        loop_step-IsLooping code handler quiet_code quiet_handler polled
                          s.loop.phase s.loop v.0 v.1)),
                  λ u. subst IsUp (sym e) u,
                  λ u. absurd (let z : ⊥ = cc in z),
                ),
              )))
          (λ k. (refl, λ v. absurd (let f = v.0.loops in let z : ⊥ = cc in z)))
    thread_step-Keeps polled returning s e = (refl, λ v. absurd v)
    thread_step-Keeps polled cleared s e = (refl, λ v. absurd v)
    thread_step-Keeps polled finished s e = tt

    -- What another thread does to the loop.
    loop-Keeps :
        (a : Action code handler) (s : EventLoopThread)
        → ((l : EventLoop) → IsLooping l → IsKept IsLooping (EventLoop.step code handler a l))
        → WhenAny
            (Keeps s.thread s)
            (with_loop (λ l. record s { loop = l }) (EventLoop.step code handler a s.loop))
    loop-Keeps a s h =
        with_loop-WhenAny (Keeps s.thread s) (λ l. record s { loop = l })
          (EventLoop.step code handler a s.loop)
          (λ l e. (refl, λ v. (by_phase s.thread l e v, λ u. u, λ u. u)))
      where
        by_phase :
            (t : ThreadPhase) (l : EventLoop)
            → EventLoop.step code handler a s.loop ≡ some l
            → LiveAt t s.loop_set s.loop
            → LiveAt t s.loop_set l
        by_phase unstarted l e v = v
        by_phase creating l e v = v
        by_phase published l e v = v
        by_phase in_loop l e v = subst (IsKept IsLooping) e (h s.loop v)
        by_phase returning l e v = v
        by_phase cleared l e v = v
        by_phase finished l e v = v

    queues-IsLooping :
        (f : ℕ) (l : EventLoop)
        → IsLooping l
        → IsKept IsLooping (EventLoop.step code handler (other_queues f) l)
    unfolding EventLoop.step must_wake push_functor
    queues-IsLooping f l v = (record { stays = v.0.stays; loops = v.0.loops }, v.1)

    wakes-IsLooping :
        (l : EventLoop) → IsLooping l → IsKept IsLooping (EventLoop.step code handler other_wakes l)
    unfolding EventLoop.step
    wakes-IsLooping l v = other_wakeup-IsLooping code handler quiet_code quiet_handler l.waking l v

    -- A loop that is published is one that can be used.
    set-IsUp : (t : ThreadPhase) (set : Bool) (l : EventLoop) → LiveAt t set l → set ≡ true → IsUp t
    set-IsUp unstarted set l v e = absurd (let z : ⊥ = cc in z)
    set-IsUp creating set l v e = absurd (let z : ⊥ = cc in z)
    set-IsUp published set l v e = inl refl
    set-IsUp in_loop set l v e = inr refl
    set-IsUp returning set l v e = absurd v
    set-IsUp cleared set l v e = absurd v
    set-IsUp finished set l v e = absurd v

    test_loop-Inv :
        (s : EventLoopThread) → LiveAt s.thread s.loop_set s.loop → Inv (test_loop code handler s)
    unfolding test_loop
    test_loop-Inv s v =
        if_elim Inv s.loop_set (λ e. (v, set-IsUp s.thread s.loop_set s.loop v e))
          (λ _. if_elim Inv (is_started s.thread) (λ _. tt) (λ _. tt))

    start_loop-Inv :
        (o : OwnerPhase) (s : EventLoopThread)
        → LiveFor o s.thread s.loop_set s.loop
        → WhenAny Inv (start_loop code handler o s)
    unfolding start_loop
    start_loop-Inv idle s v = subst (λ t. LiveAt t s.loop_set s.loop) v.1 v.0
    start_loop-Inv waiting s v =
        if_elim (WhenAny Inv) s.loop_set (λ e. (v, set-IsUp s.thread s.loop_set s.loop v e))
          (λ _. tt)
    start_loop-Inv has_loop s v = tt
    start_loop-Inv quitting s v = tt
    start_loop-Inv waking s v = tt
    start_loop-Inv joining s v = tt
    start_loop-Inv joined s v = tt

    set_quit-Inv : (s : EventLoopThread) → WhenAny Inv (set_quit code handler s)
    unfolding set_quit EventLoop.step
    set_quit-Inv s = if_elim (WhenAny Inv) (is_alive s.thread) (λ _. tt) (λ _. tt)

    wake_loop-Inv : (s : EventLoopThread) → WhenAny Inv (wake_loop code handler s)
    unfolding wake_loop
    wake_loop-Inv s =
        if_elim (WhenAny Inv) (is_alive s.thread)
          (λ _.
            with_loop-WhenAny Inv (λ l. record s { loop = l; owner = joining })
              (EventLoop.step code handler other_wakes s.loop) (λ l e. tt))
          (λ _. tt)

    join-Inv : (t : ThreadPhase) (s : EventLoopThread) → WhenAny Inv (join code handler t s)
    unfolding join
    join-Inv finished s = tt
    join-Inv t s = tt

    destroy-Inv :
        (o : OwnerPhase) (s : EventLoopThread)
        → LiveFor o s.thread s.loop_set s.loop
        → WhenAny Inv (destroy code handler o s)
    unfolding destroy
    destroy-Inv idle s v = test_loop-Inv s v.0
    destroy-Inv has_loop s v = test_loop-Inv s v.0
    destroy-Inv quitting s v = set_quit-Inv s
    destroy-Inv waking s v = wake_loop-Inv s
    destroy-Inv joining s v = join-Inv s.thread s
    destroy-Inv waiting s v = tt
    destroy-Inv joined s v = tt

    move-Inv :
        (m : Move code handler) (s : EventLoopThread) → Inv s → WhenAny Inv (move code handler m s)
    unfolding move
    move-Inv (goes polled) s v =
        Keeps-WhenAny s (thread_step code handler polled s.thread s) v
          (thread_step-Keeps polled s.thread s refl)
    move-Inv starts s v = start_loop-Inv s.owner s v
    move-Inv destroys s v = destroy-Inv s.owner s v
    move-Inv (queues f) s v =
        if_elim (WhenAny Inv) (is_alive s.thread)
          (λ _.
            Keeps-WhenAny s
              (with_loop (λ l. record s { loop = l })
                (EventLoop.step code handler (other_queues f) s.loop))
              v (loop-Keeps (other_queues f) s (queues-IsLooping f)))
          (λ _. tt)
    move-Inv signals s v =
        if_elim (WhenAny Inv) (ltb (is_waking s.owner) s.loop.waking && is_alive s.thread)
          (λ _.
            Keeps-WhenAny s
              (with_loop (λ l. record s { loop = l })
                (EventLoop.step code handler other_wakes s.loop))
              v (loop-Keeps other_wakes s wakes-IsLooping))
          (λ _. tt)

    -- In every run in which no functor and no handler calls `quit` and other threads only queue
    -- functors: from the return of `startLoop` until the destructor has set `quit_`, the thread is just
    -- before `loop` or in it, so that the pointer that `startLoop` gave leads to a loop that exists.
    pub loop_lives :
        {s : EventLoopThread}
        → Reach code handler s
        → (s.owner ≡ has_loop) ⊎ (s.owner ≡ quitting)
        → (s.thread ≡ published) ⊎ (s.thread ≡ in_loop)
    loop_lives {s} r w =
        let v : Inv s = Reach-WhenAny code handler Inv (refl, refl) move-Inv r in
        elim w [
          | inl e ↦ (subst (λ o. LiveFor o s.thread s.loop_set s.loop) e v).1
          | inr e ↦ (subst (λ o. LiveFor o s.thread s.loop_set s.loop) e v).1
        ]
