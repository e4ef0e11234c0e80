-- ===== src/ThreadPool/Order.antt =====
-- Which task is taken, and who may submit.
use cc_learning.Base.{
  if◌then◌else◌, ℕ, ◌≤◌, ◌≡◌, refl, arith, Bool, true, false, not, List, ◌∷◌, count,
  get_elem?-set_self, get_elem?-inside, none, some, get_elem?, All, All-map, subst, Option, ltb,
  length, ◌<◌,
}
use cc_learning.Base.Heap.{Heap}
use cc_learning.ThreadPool.{
  less_task, PrioTask, ThreadState, ready, waiting, running, exited, retired, Pool, wake, time_out,
  has_task, construct, submit, fetch, enter, work, Event, works, step, run,
}
use cc_learning.ThreadPool.History.{reachable-Inv}

-- A thread that comes to the end of the critical section of `worker_loop`.
abbrev pub is_looking : Bool → Pool → Option ThreadState → Bool
is_looking late s none = false
is_looking late s (some ready) = true
is_looking late s (some waiting) = if late then ltb s.core_threads s.max_threads else true
is_looking late s (some (running t)) = false
is_looking late s (some exited) = false
is_looking late s (some retired) = false

is_looking-inside :
    (late : Bool) (s : Pool) (i : ℕ)
    → is_looking late s (get_elem? s.threads i) ≡ true
    → i < length s.threads
is_looking-inside late s i e =
    from (get_elem? s.threads i) (λ x k. get_elem?-inside s.threads i k) e
  where
    from :
        (o : Option ThreadState)
        → ((x : ThreadState) → o ≡ some x → i < length s.threads)
        → is_looking late s o ≡ true
        → i < length s.threads
    from none f k = absurd (let z : ⊥ = cc in z)
    from (some x) f k = f x refl

not_less : (t u : PrioTask) → less_task t u ≡ false → t.priority ≤ u.priority
not_less t u k = ground arith

module _ (heap : Heap less_task) where
  work-fetch :
      (i : ℕ) (late : Bool) (o : Option ThreadState) (t : PrioTask) (ts : List PrioTask) (s : Pool)
      → s.tasks ≡ t ∷ ts
      → is_looking late s o ≡ true
      → work heap i late o s ≡ fetch heap i (t ∷ ts) s
  unfolding work enter wake time_out has_task
  work-fetch i late none t ts s q l = absurd (let z : ⊥ = cc in z)
  work-fetch i late (some ready) t ts s q l = rw q refl
  work-fetch i false (some waiting) t ts s q l = rw q (ground arith)
  work-fetch i true (some waiting) t ts s q l = rw (q, l) (ground arith)
  work-fetch i late (some (running u)) t ts s q l = absurd (let z : ⊥ = cc in z)
  work-fetch i late (some exited) t ts s q l = absurd (let z : ⊥ = cc in z)
  work-fetch i late (some retired) t ts s q l = absurd (let z : ⊥ = cc in z)

  -- In every history, a thread that looks for a task (at the head of its loop, woken, or after its wait
  -- has timed out) while there are tasks runs the front of the queue next: by `operator<` it comes
  -- behind no other task, so its priority value is at most theirs, and the others are what stays queued.
  pub takes_least :
      (core max i : ℕ) (late : Bool) (es : List (Event heap)) (t : PrioTask) (ts : List PrioTask)
      {s : Pool}
      → construct core max ≡ some s
      → (run heap es s).tasks ≡ t ∷ ts
      → is_looking late (run heap es s) (get_elem? (run heap es s).threads i) ≡ true
      → let r = step heap (run heap es s) (works i late) in
        (get_elem? r.threads i ≡ some (running t))
        × All (λ u. t.priority ≤ u.priority) ts
        × ((p : PrioTask → Bool) → count p r.tasks ≡ count p ts)
  unfolding step fetch
  takes_least core max i late es t ts {s} e q g =
      let r : Pool = run heap es s in
      let o : heap.IsHeap (t ∷ ts) =
        subst heap.IsHeap q (reachable-Inv heap core max es e).ordered in
      rw
        (
          work-fetch i late (get_elem? r.threads i) t ts r q g,
          get_elem?-set_self r.threads i (running t) (is_looking-inside late r i g),
        )
        (
          refl,
          All-map (λ u k. not_less t u k) ts (heap.front_greatest t ts o),
          heap.pop_rest_items t ts,
        )

  -- A stopped pool refuses every task, in every later state.
  pub refuses_after_stop :
      (core max : ℕ) (es : List (Event heap)) (t : PrioTask) {s : Pool}
      → construct core max ≡ some s
      → (run heap es s).stop ≡ true
      → submit heap t (run heap es s) ≡ none
  unfolding submit
  refuses_after_stop core max es t {s} e st =
      let g : (run heap es s).accepting ≡ not (run heap es s).stop =
        (reachable-Inv heap core max es e).gate in
      ground arith
