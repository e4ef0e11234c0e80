-- ===== src/ThreadPool/Tests.antt =====
-- A pool of two threads and two tasks.
use cc_learning.Base.{
  ◌+◌, ◌≡◌, ◌≤◌, refl, Bool, true, false, List, [], ◌∷◌, some, count, All, get_elem?,
}
use cc_learning.Base.Heap.{Heap, sorted_heap}
use cc_learning.ThreadPool.{
  less_task, PrioTask, Pool, running, Event, submits, works, waits_and_stops, construct, run, step,
  empty_pool, add_threads, add_thread, active_threads,
}
use cc_learning.ThreadPool.Bounds.{active_threads_bounds, larger}
use cc_learning.ThreadPool.Account.{count_running}
use cc_learning.ThreadPool.History.{tasks_accounted}
use cc_learning.ThreadPool.Shutdown.{all_returned}
use cc_learning.ThreadPool.Order.{takes_least}

abbrev heap : Heap less_task
heap = sorted_heap (λ t. t.priority)

abbrev low : PrioTask
low = record { priority = 9; func = 1 }

abbrev urgent : PrioTask
urgent = record { priority = 2; func = 2 }

abbrev two : Pool
unfolding empty_pool add_threads add_thread
two = add_threads 2 (empty_pool 2 0)

constructed : construct 2 0 ≡ some two
unfolding construct
constructed = refl

abbrev submissions : List (Event heap)
submissions = submits low ∷ submits urgent ∷ []

abbrev all_work : List (Event heap)
all_work =
    submits low
    ∷ submits urgent
    ∷ works 0 false
    ∷ works 1 false
    ∷ works 0 false
    ∷ works 1 false
    ∷ waits_and_stops
    ∷ works 0 false
    ∷ works 1 false
    ∷ []

tasks_accounted_example :
    let r = run heap all_work two in
    count (λ t. true) r.submitted
    ≡ count (λ t. true) r.tasks
      + count_running (λ t. true) r.threads
      + count (λ t. true) r.executed
      + count (λ t. true) r.dropped
tasks_accounted_example = tasks_accounted heap 2 0 all_work (λ t. true) constructed

all_returned_example :
    let r = run heap all_work two in
    (r.stop ≡ true)
    × (r.tasks ≡ [])
    × ((p : PrioTask → Bool) → count p r.submitted ≡ count p r.executed + count p r.dropped)
unfolding run sorted_heap two
all_returned_example = all_returned heap 2 0 all_work constructed (tt, (tt, tt))

takes_least_example :
    let r = step heap (run heap submissions two) (works 0 false) in
    (get_elem? r.threads 0 ≡ some (running urgent))
    × All (λ u. urgent.priority ≤ u.priority) (low ∷ [])
    × ((p : PrioTask → Bool) → count p r.tasks ≡ count p (low ∷ []))
unfolding run sorted_heap two
takes_least_example =
    takes_least heap 2 0 0 false submissions urgent (low ∷ []) constructed refl refl

-- A pool of one thread that may have three.
abbrev growing : Pool
unfolding empty_pool add_threads add_thread
growing = add_threads 1 (empty_pool 1 3)

constructed_growing : construct 1 3 ≡ some growing
unfolding construct
constructed_growing = refl

abbrev busy : List (Event heap)
busy =
    submits low ∷ submits urgent ∷ submits low ∷ works 1 false ∷ works 1 false ∷ works 1 true ∷ []

active_threads_bounds_example :
    (active_threads (run heap busy growing) ≤ larger 1 3)
    × ((run heap busy growing).stop ≡ false → 1 ≤ active_threads (run heap busy growing))
active_threads_bounds_example = active_threads_bounds heap 1 3 constructed_growing busy
