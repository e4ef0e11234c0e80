-- ===== src/ThreadPool/Shutdown.antt =====
-- The end of the worker threads: what a thread has seen when it has returned.
use cc_learning.Base.{
  ℕ, zero, suc, ◌+◌, ◌≤◌, ◌≡◌, refl, ap, arith, Bool, true, List, [], ◌∷◌, Option, none, some,
  length, get_elem?, ◌==◌, count, All, All-get_elem, subst, ℕ_discrete,
}
use cc_learning.Base.Heap.{Heap}
use cc_learning.ThreadPool.{
  less_task, PrioTask, ThreadState, ready, waiting, running, exited, retired, Pool, add_thread,
  add_threads, empty_pool, construct, Event, run,
}
use cc_learning.ThreadPool.Account.{count_running, ExitOk, Inv}
use cc_learning.ThreadPool.History.{reachable-Inv}
use cc_learning.ThreadPool.Crew.{IsLive, times, Crew, add_thread-Crew}
use cc_learning.ThreadPool.Members.{run-Crew}

add_threads-Crew : (n : ℕ) (s : Pool) → Crew s → Crew (add_threads n s)
unfolding add_threads
add_threads-Crew zero s c = c
add_threads-Crew (suc n) s c = add_threads-Crew n (add_thread s) (add_thread-Crew s c)

first-Crew : (core max : ℕ) → 1 ≤ core → Crew (add_thread (empty_pool core max))
unfolding add_thread empty_pool times
first-Crew core max h = record {
  live = λ i l. elim (ℕ_discrete 0 i) [
    | yes e ↦ subst (λ n. IsLive (get_elem? (ready ∷ []) n)) e tt
    | no ne ↦ absurd (ground arith)
  ];
  apart = λ i. ground arith;
  enough = omega arith;
  core = h;
  unjoined = λ _. refl;
}

construct-Crew : (core max : ℕ) {s : Pool} → construct core max ≡ some s → Crew s
unfolding construct add_threads
construct-Crew zero max {s} e = absurd (ground arith)
construct-Crew (suc n) max {s} e =
    let q : add_threads (suc n) (empty_pool (suc n) max) ≡ s = ground arith in
    subst Crew q (
      add_threads-Crew n (add_thread (empty_pool (suc n) max))
        (first-Crew (suc n) max (omega arith)))

some_id :
    (ws js : List ℕ)
    → 1 ≤ length ws + length js
    → (i : ℕ) × (1 ≤ count (λ j. j == i) ws + count (λ j. j == i) js)
some_id [] [] h = absurd (omega arith)
some_id [] (j ∷ js) h = (j, ground arith)
some_id (w ∷ ws) js h = (w, ground arith)

-- The thread function has returned.
abbrev pub HasReturned : ThreadState → Type 0
HasReturned ready = ⊥
HasReturned waiting = ⊥
HasReturned (running t) = ⊥
HasReturned exited = Unit
HasReturned retired = Unit

nothing_runs :
    (p : PrioTask → Bool) (ts : List ThreadState) → All HasReturned ts → count_running p ts ≡ 0
nothing_runs p [] h = refl
nothing_runs p (ready ∷ ts) h = absurd h.0
nothing_runs p (waiting ∷ ts) h = absurd h.0
nothing_runs p (running t ∷ ts) h = absurd h.0
nothing_runs p (exited ∷ ts) h = omega (arith, nothing_runs p ts h.1)
nothing_runs p (retired ∷ ts) h = omega (arith, nothing_runs p ts h.1)

-- A live thread that has returned saw the stop and the empty queue.
witness_exit :
    (o : Option ThreadState) (s : Pool) (i : ℕ)
    → get_elem? s.threads i ≡ o
    → IsLive o
    → All HasReturned s.threads
    → All (ExitOk s.stop s.tasks) s.threads
    → (s.stop ≡ true) × (s.tasks ≡ [])
witness_exit none s i e l r x = absurd l
witness_exit (some retired) s i e l r x = absurd l
witness_exit (some ready) s i e l r x = absurd (All-get_elem HasReturned s.threads i r e)
witness_exit (some waiting) s i e l r x = absurd (All-get_elem HasReturned s.threads i r e)
witness_exit (some (running t)) s i e l r x = absurd (All-get_elem HasReturned s.threads i r e)
witness_exit (some exited) s i e l r x = All-get_elem (ExitOk s.stop s.tasks) s.threads i x e

module _ (heap : Heap less_task) where
  -- When every thread of the pool has returned, the pool has been stopped, no task is left in the
  -- queue, and each submitted task has been executed or dropped.
  pub all_returned :
      (core max : ℕ) (es : List (Event heap)) {s : Pool}
      → construct core max ≡ some s
      → All HasReturned (run heap es s).threads
      → let r = run heap es s in
        (r.stop ≡ true)
        × (r.tasks ≡ [])
        × ((p : PrioTask → Bool) → count p r.submitted ≡ count p r.executed + count p r.dropped)
  unfolding times
  all_returned core max es {s} e h =
      let r : Pool = run heap es s in
      let v : Inv heap r = reachable-Inv heap core max es e in
      let c : Crew r = run-Crew heap es s (construct-Crew core max e) in
      let (i, l) = some_id r.workers r.to_join c.enough in
      let w : (r.stop ≡ true) × (r.tasks ≡ []) =
        witness_exit (get_elem? r.threads i) r i refl (c.live i l) h v.exits in
      (w.0, w.1, λ p. omega (arith, v.account p, nothing_runs p r.threads h, ap (count p) w.1))
