-- ===== src/TimerQueue/Tests.antt =====
-- Two timers, of which one repeats and adds a third.
use cc_learning.Base.{
  ℕ, refl, arith, List, [], ◌∷◌, Bool, true, false, ◌==◌, if◌then◌else◌, All, ◌≡◌, ◌+◌, count, bit,
  ltb,
}
use cc_learning.Base.Heap.{Heap, sorted_heap}
use cc_learning.TimerQueue.{
  later, Timer, Call, adds, cancels, Event, calls, fires, run, new_queue, destroy_queue, contains,
  expired_loop,
}
use cc_learning.TimerQueue.Armed.{IsArmed}
use cc_learning.TimerQueue.Expire.{IsParted, expired_loop_lem}
use cc_learning.TimerQueue.Owned.{has_identity, owned_once}
use cc_learning.TimerQueue.History.{IsTimed, never_forgets}

abbrev heap : Heap later
heap = sorted_heap (λ t. t.expiration)

abbrev callbacks : ℕ → List (Call heap)
callbacks i = if i == 1 then adds 60 0 false ∷ cancels 0 ∷ [] else []

timed : (i : ℕ) → All (IsTimed heap) (callbacks i)
timed i = if_timed (i == 1)
  where
    if_timed : (b : Bool) → All (IsTimed heap) (if b then adds 60 0 false ∷ cancels 0 ∷ [] else [])
    if_timed true = (refl, (tt, tt))
    if_timed false = tt

abbrev events : List (Event heap callbacks)
events = calls (adds 50 0 false) ∷ calls (adds 20 5 true) ∷ fires 30 ∷ calls (cancels 2) ∷ []

never_forgets_example : let q = run heap callbacks events new_queue in IsArmed q.armed q.timers
never_forgets_example =
    never_forgets heap callbacks timed events (refl, (refl, (omega arith, (tt, tt))))

abbrev early : Timer
early = record { identity = 0; expiration = 20; interval = 0; repeat = false }

abbrev late : Timer
late = record { identity = 1; expiration = 40; interval = 0; repeat = false }

expired_loop_lem_example :
    IsParted heap 30 (early ∷ late ∷ []) (expired_loop heap 2 30 (early ∷ late ∷ []) (0 ∷ 1 ∷ []))
unfolding sorted_heap
expired_loop_lem_example =
    expired_loop_lem heap 2 30 (early ∷ late ∷ []) (0 ∷ 1 ∷ []) ((omega arith, tt), (tt, tt))
      (omega arith)

-- The repeating timer, which has fired and waits again.
owned_once_example :
    let q = run heap callbacks events new_queue in
    (count (has_identity 1) q.timers ≡ bit (contains 1 q.active))
    × (count (has_identity 1) q.timers + count (λ j. j == 1) q.deleted
        ≡ bit (ltb 1 q.next_identity))
    × (count (λ j. j == 1) (destroy_queue q).deleted ≡ bit (ltb 1 q.next_identity))
owned_once_example = owned_once heap callbacks events 1
