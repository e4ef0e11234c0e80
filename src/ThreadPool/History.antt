-- ===== src/ThreadPool/History.antt =====
-- The account of tasks over histories of thread_pool/ThreadPool.h.
use cc_learning.Base.{
  ℕ, zero, suc, ◌+◌, ◌≡◌, refl, arith, Bool, true, false, not, ◌&&◌, ◌||◌, List, [], ◌∷◌, some,
  length, get_elem?, ltb, ◌==◌, count, count-append, All, All-map, All-append, subst, if_elim,
  Bool-cases, Option-cases, inl, inr,
}
use cc_learning.Base.Heap.{Heap}
use cc_learning.ThreadPool.{
  less_task, PrioTask, ThreadState, ready, waiting, running, exited, retired, Pool, add_thread,
  add_threads, empty_pool, construct, grow, enqueue, submit, wait_and_stop, stop_immediately,
  join_all_workers, destroy, Event, submits, works, waits_and_stops, stops_immediately, destroys,
  joins, step, run, is_empty,
}
use cc_learning.ThreadPool.Account.{count_running, count_running-append, ExitOk, Inv, work-Inv}

module _ (heap : Heap less_task) where
  add_thread-Inv : {s : Pool} → Inv heap s → Inv heap (add_thread s)
  unfolding add_thread
  add_thread-Inv {s} v = record {
    account = λ p. omega (arith, v.account p, count_running-append p s.threads (ready ∷ []));
    ordered = v.ordered;
    gate = v.gate;
    exits = All-append (ExitOk s.stop s.tasks) s.threads (ready ∷ []) v.exits (tt, tt);
  }

  grow-Inv : {s : Pool} → Inv heap s → Inv heap (grow heap s)
  unfolding grow
  grow-Inv {s} v =
      if_elim (Inv heap)
        (ltb (length s.workers) (length s.tasks) && ltb (length s.workers) s.max_threads)
        (λ _. add_thread-Inv v) (λ _. v)

  -- Before the stop no thread has left for that reason.
  open_exits :
      {before : Bool} (after : Bool) (tasks other : List PrioTask) (ts : List ThreadState)
      → before ≡ false
      → All (ExitOk before tasks) ts
      → All (ExitOk after other) ts
  open_exits {before} after tasks other ts e h = All-map still ts h
    where
      still : (x : ThreadState) → ExitOk before tasks x → ExitOk after other x
      still ready h = tt
      still waiting h = tt
      still (running u) h = tt
      still exited h = absurd (let a : before ≡ true = h.0 in let z : ⊥ = cc in z)
      still retired h = tt

  not_stopped : {s : Pool} → Inv heap s → s.accepting ≡ true → s.stop ≡ false
  not_stopped {s} v a = let g : s.accepting ≡ not s.stop = v.gate in ground arith

  enqueue-Inv :
      (t : PrioTask) {s : Pool} → s.accepting ≡ true → Inv heap s → Inv heap (enqueue heap t s)
  unfolding enqueue
  enqueue-Inv t {s} a v = record {
    account = λ p. omega (arith, v.account p, heap.push_items s.tasks t p);
    ordered = heap.push-IsHeap s.tasks t v.ordered;
    gate = v.gate;
    exits = open_exits s.stop s.tasks (heap.push s.tasks t) s.threads (not_stopped v a) v.exits;
  }

  submit-Inv : (t : PrioTask) {s s' : Pool} → submit heap t s ≡ some s' → Inv heap s → Inv heap s'
  unfolding submit
  submit-Inv t {s} {s'} e v = elim (Bool-cases s.accepting) [
    | inl a ↦
        let q : grow heap (enqueue heap t s) ≡ s' = ground arith in
        subst (Inv heap) q (grow-Inv (enqueue-Inv t a v))
    | inr a ↦ absurd (ground arith)
  ]

  wait_and_stop-Inv : {s : Pool} → Inv heap s → Inv heap (wait_and_stop heap s)
  unfolding wait_and_stop
  wait_and_stop-Inv {s} v =
      if_elim (Inv heap) (not s.accepting) (λ _. v)
        (λ a. record {
          account = v.account;
          ordered = v.ordered;
          gate = refl;
          exits = open_exits true s.tasks s.tasks s.threads (not_stopped v (ground arith)) v.exits;
        })

  stop_immediately-Inv : {s : Pool} → Inv heap s → Inv heap (stop_immediately heap s)
  unfolding stop_immediately
  stop_immediately-Inv {s} v =
      if_elim (Inv heap) (not s.accepting && s.stop) (λ _. v)
        (λ a. record {
          account = λ p. omega (arith, v.account p, count-append p s.tasks s.dropped);
          ordered = heap.nil-IsHeap;
          gate = refl;
          exits =
              open_exits true s.tasks [] s.threads
                (let g : s.accepting ≡ not s.stop = v.gate in ground arith) v.exits;
        })

  destroy-Inv : {s : Pool} → Inv heap s → Inv heap (destroy heap s)
  unfolding destroy
  destroy-Inv {s} v =
      if_elim (Inv heap) (not s.stop || not (is_empty s.workers)) (λ _. stop_immediately-Inv v)
        (λ _. v)

  join-Inv : {s : Pool} → Inv heap s → Inv heap (join_all_workers heap s)
  unfolding join_all_workers
  join-Inv v = record { account = v.account; ordered = v.ordered; gate = v.gate; exits = v.exits }

  step-Inv : (e : Event heap) {s : Pool} → Inv heap s → Inv heap (step heap s e)
  unfolding step
  step-Inv (submits t) {s} v = elim (Option-cases (submit heap t s)) [
    | inl no_room ↦ rw (no_room, step) v
    | inr (s', q) ↦ rw (q, step) (submit-Inv t q v)
  ]
  step-Inv (works i late) {s} v = work-Inv heap i late (get_elem? s.threads i) refl v
  step-Inv waits_and_stops v = wait_and_stop-Inv v
  step-Inv stops_immediately v = stop_immediately-Inv v
  step-Inv destroys v = destroy-Inv v
  step-Inv joins {s} v = if_elim (Inv heap) s.stop (λ _. join-Inv v) (λ _. v)

  run-keeps_Inv : (es : List (Event heap)) {s : Pool} → Inv heap s → Inv heap (run heap es s)
  unfolding run
  run-keeps_Inv [] v = v
  run-keeps_Inv (e ∷ es) v = run-keeps_Inv es (step-Inv e v)

  add_threads-Inv : (n : ℕ) {s : Pool} → Inv heap s → Inv heap (add_threads n s)
  unfolding add_threads
  add_threads-Inv zero v = v
  add_threads-Inv (suc n) v = add_threads-Inv n (add_thread-Inv v)

  construct-Inv : (core max : ℕ) {s : Pool} → construct core max ≡ some s → Inv heap s
  unfolding construct empty_pool
  construct-Inv core max {s} e = elim (Bool-cases (core == 0)) [
    | inl z ↦ absurd (ground arith)
    | inr z ↦
        let q : add_threads core (empty_pool core max) ≡ s = ground arith in
        subst (Inv heap) q (
          add_threads-Inv core
            (record { account = λ p. refl; ordered = heap.nil-IsHeap; gate = refl; exits = tt }))
  ]

  pub reachable-Inv :
      (core max : ℕ) (es : List (Event heap)) {s : Pool}
      → construct core max ≡ some s
      → Inv heap (run heap es s)
  reachable-Inv core max es e = run-keeps_Inv es (construct-Inv core max e)

  -- Whatever the threads and the clients do: by every test, the submitted tasks are as many as those
  -- queued, running, executed and dropped together. None is lost and none is run twice.
  pub tasks_accounted :
      (core max : ℕ) (es : List (Event heap)) (p : PrioTask → Bool) {s : Pool}
      → construct core max ≡ some s
      → let r = run heap es s in
        count p r.submitted
        ≡ count p r.tasks + count_running p r.threads + count p r.executed + count p r.dropped
  tasks_accounted core max es p e = (reachable-Inv core max es e).account p
